-- ===== src/Lifetime.antt =====
-- `ContextLifetime` of proxystore/store/lifetimes.py. The stores are outside of it, in the world `W`.
pub mod Lease
pub mod Static
pub mod Eviction
pub mod Closing
pub mod Registering
pub mod Ending
pub mod Acts
pub mod Leasing
pub mod Timer
pub mod Timing
mod Tests
use proxy_store.Prelude.{if◌then◌else◌, Bool, true, false, List, [], ◌∷◌}
use proxy_store.Prelude.Exec.{Result, ok, err, Exec, runtime_error, proxy_store_factory}
use proxy_store.Prelude.Sets.{mem}

-- what a lifetime calls: the `evict` and `close` of a store
pub record Stores (S K W : Type 0) : Type 0 where
  pub evict : S → K → Exec W (Unit {0})
  pub close : S → Exec W (Unit {0})

-- the factory of a proxy: that of a store, with its key, or another one
pub data Factory (S K : Type 0) : Type 0 where
  store_factory : S → K → Factory S K
  other_factory : Factory S K

-- the set of keys is a list without repetition
pub record ContextLifetime (S K : Type 0) : Type 0 where
  pub store : S
  pub keys : List K
  pub done : Bool

abbrev pub new_lifetime : {S K : Type 0} → S → ContextLifetime S K
new_lifetime store = record { store = store; keys = []; done = false }

-- `set.update`
module _ {K : Type 0} (dec : Discrete K) where
  unfoldable pub update : List K → List K → List K
  update keys [] = keys
  update keys (k ∷ ks) = update (if mem dec k keys then keys else k ∷ keys) ks

-- the keys of proxies, all of which must have the factory of a store
unfoldable pub keys_of : {S K : Type 0} → List (Factory S K) → Result (List K)
keys_of [] = ok []
keys_of (other_factory ∷ l) = err proxy_store_factory
keys_of (store_factory _ key ∷ l) =
    let rest = keys_of l in elim rest [ err e ↦ err e | ok ks ↦ ok (key ∷ ks) ]

module _ {S K W : Type 0} (dec : Discrete K) (stores : Stores S K W) where
  abbrev pub Call : Type 0 → Type 0
  Call A = Exec (ContextLifetime S K × W) A

  -- `add_key`; its argument `store` is not used
  unfoldable pub add_key : List K → Call (Unit {0})
  add_key ks (l, w) =
      if l.done
      then (err runtime_error, (l, w))
      else (ok tt, (record l { keys = update dec l.keys ks }, w))

  -- `add_proxy`
  unfoldable pub add_proxy : List (Factory S K) → Call (Unit {0})
  add_proxy factories (l, w) =
      if l.done
      then (err runtime_error, (l, w))
      else elim (keys_of factories) [ err e ↦ (err e, (l, w)) | ok ks ↦ add_key ks (l, w) ]

  -- the loop of `close`
  unfoldable pub evict_keys : S → List K → Exec W (Unit {0})
  evict_keys store [] w = (ok tt, w)
  evict_keys store (k ∷ ks) w =
      let (r, w') = stores.evict store k w in
      elim r [ err e ↦ (err e, w') | ok _ ↦ evict_keys store ks w' ]

  -- `close`
  unfoldable pub close : Bool → Call (Unit {0})
  close close_stores (l, w) =
      if l.done
      then (ok tt, (l, w))
      else let (r, w') = evict_keys l.store l.keys w in
        elim r [
          | err e ↦ (err e, (l, w'))
          | ok _ ↦
              let ended = record l { keys = []; done = true } in
              if close_stores
              then (let (q, w'') = stores.close l.store w' in (q, (ended, w'')))
              else (ok tt, (ended, w'))
        ]
