-- ===== src/Lifetime/Static.antt =====
-- `StaticLifetime` of proxystore/store/lifetimes.py: the keys of each store, to the end of the process.
use proxy_store.Prelude.{if◌then◌else◌, Option, none, some, Bool, true, false, List, [], ◌∷◌}
use proxy_store.Prelude.Dict
use proxy_store.Prelude.Dict.{Dict, insert}
use proxy_store.Prelude.Exec.{ok, err, Exec, runtime_error, value_error, proxy_store_factory}
use proxy_store.Lifetime.{Stores, Factory, store_factory, other_factory, update, evict_keys}

pub record StaticLifetime (S K : Type 0) : Type 0 where
  pub keys : Dict S (List K)
  pub done : Bool

-- `StaticLifetime.__init__`
unfoldable pub new_static : {S K : Type 0} → StaticLifetime S K
new_static = record { keys = []; done = false }

module _ {S K W : Type 0} (store_dec : Discrete S) (dec : Discrete K) (stores : Stores S K W) where
  -- `self._keys[store]`, of a `defaultdict`
  unfoldable pub keys_of_store : S → Dict S (List K) → List K
  keys_of_store store d = elim (Dict.get store_dec store d) [ none ↦ [] | some ks ↦ ks ]

  -- `add_key`
  unfoldable pub add_key : Option S → List K → Exec (StaticLifetime S K × W) (Unit {0})
  add_key given ks (l, w) = if l.done then (err runtime_error, (l, w)) else elim given [
    | none ↦ (err value_error, (l, w))
    | some store ↦ (
      ok tt,
      (
        record l {
          keys = insert store_dec store (update dec (keys_of_store store l.keys) ks) l.keys;
        },
        w,
      ),
    )
  ]

  -- the loop of `add_proxy`; the proxies before one with another factory stay added
  unfoldable pub add_proxies : List (Factory S K) → Exec (StaticLifetime S K × W) (Unit {0})
  add_proxies [] s = (ok tt, s)
  add_proxies (other_factory ∷ rest) s = (err proxy_store_factory, s)
  add_proxies (store_factory store key ∷ rest) s =
      let (r, s') = add_key (some store) (key ∷ []) s in
      elim r [ err e ↦ (err e, s') | ok _ ↦ add_proxies rest s' ]

  -- `add_proxy`
  unfoldable pub add_proxy : List (Factory S K) → Exec (StaticLifetime S K × W) (Unit {0})
  add_proxy factories (l, w) =
      if l.done then (err runtime_error, (l, w)) else add_proxies factories (l, w)

  -- the loop of `close` over the stores
  unfoldable pub close_each : Bool → Dict S (List K) → Exec W (Unit {0})
  close_each close_stores [] w = (ok tt, w)
  close_each close_stores ((store, ks) ∷ rest) w =
      let (r, w') = evict_keys dec stores store ks w in
      elim r [
        | err e ↦ (err e, w')
        | ok _ ↦
            let (q, w'') = if close_stores then stores.close store w' else (ok tt, w') in
            elim q [ err e ↦ (err e, w'') | ok _ ↦ close_each close_stores rest w'' ]
      ]

  -- `close`
  unfoldable pub close : Bool → Exec (StaticLifetime S K × W) (Unit {0})
  close close_stores (l, w) =
      if l.done
      then (ok tt, (l, w))
      else let (r, w') = close_each close_stores l.keys w in
        elim r [
          | err e ↦ (err e, (l, w'))
          | ok _ ↦ (ok tt, (record { keys = []; done = true }, w'))
        ]
