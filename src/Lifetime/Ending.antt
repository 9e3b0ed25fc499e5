-- ===== src/Lifetime/Ending.antt =====
-- The end of the process: `StaticLifetime` and the objects of all its stores.
use mathlib.Core.Path.{subst}
use proxy_store.Prelude.{
  ◌≡◌, refl, sym, ◌∙◌, ap, arith, inl, inr, Option-cases, if◌then◌else◌, Option, none, some, Bool,
  true, false, List, [], ◌∷◌,
}
use proxy_store.Prelude.Dict
use proxy_store.Prelude.Dict.{Dict, insert, get-insert}
use proxy_store.Prelude.Sets.{mem}
use proxy_store.Prelude.Exec.{ok, err, runtime_error}
use proxy_store.Lifetime.{Stores, Factory, evict_keys}
use proxy_store.Lifetime.Eviction.{
  Laws, evict_keys-ok, evict_keys-none, evict_keys-gone, evict_keys-kept,
}
use proxy_store.Lifetime.Static.{
  StaticLifetime, new_static, keys_of_store, add_key, add_proxy, close_each, close,
}
use proxy_store.Lifetime.Registering.{Add, add_all, added, holds, new-Collects}

module _ {S K W V : Type 0} (store_dec : Discrete S) (dec : Discrete K) (stores : Stores S K W)
    (laws : Laws V stores) where
  -- a step of the loop over the stores
  close_one-ok :
      (close_stores : Bool) (store : S) (w : W)
      → (if close_stores then stores.close store w else (ok tt, w)).0 ≡ ok tt
  close_one-ok true store w = laws.close_ok store w
  close_one-ok false store w = refl

  close_one-none :
      (close_stores : Bool) (store other : S) (k : K) (w : W)
      → laws.view w other k ≡ none
      → laws.view (if close_stores then stores.close store w else (ok tt, w)).1 other k ≡ none
  close_one-none true store other k w e = laws.close_none store other k w e
  close_one-none false store other k w e = e

  close_each-ok :
      (close_stores : Bool) (d : Dict S (List K)) (w : W)
      → (close_each store_dec dec stores close_stores d w).0 ≡ ok tt
  unfolding close_each
  close_each-ok close_stores [] w = refl
  close_each-ok close_stores ((store, ks) ∷ rest) w =
      rw (close_each, evict_keys-ok dec stores laws store ks w, close_one-ok close_stores store _)
        (close_each-ok close_stores rest _)

  evict_any-none :
      (store other : S) (ks : List K) (k : K) (w : W)
      → laws.view w other k ≡ none
      → laws.view (evict_keys dec stores store ks w).1 other k ≡ none
  evict_any-none store other ks k w e = elim (store_dec store other) [
    | yes p ↦
        subst (λ s. laws.view (evict_keys dec stores s ks w).1 other k ≡ none) (sym p)
          (evict_keys-none dec stores laws other ks k w e)
    | no ne ↦ evict_keys-kept dec stores laws store other ks k w (inl ne) ∙ e
  ]

  close_each-none :
      (close_stores : Bool) (d : Dict S (List K)) (other : S) (k : K) (w : W)
      → laws.view w other k ≡ none
      → laws.view (close_each store_dec dec stores close_stores d w).1 other k ≡ none
  unfolding close_each
  close_each-none close_stores [] other k w e = e
  close_each-none close_stores ((store, ks) ∷ rest) other k w e =
      rw (close_each, evict_keys-ok dec stores laws store ks w, close_one-ok close_stores store _)
        (close_each-none close_stores rest other k _
          (close_one-none close_stores store other k _ (evict_any-none store other ks k w e)))

  close_each-gone :
      (close_stores : Bool) (d : Dict S (List K)) (store : S) (ks : List K) (k : K) (w : W)
      → Dict.get store_dec store d ≡ some ks
      → mem dec k ks ≡ true
      → laws.view (close_each store_dec dec stores close_stores d w).1 store k ≡ none
  unfolding close_each Dict.get
  close_each-gone close_stores [] store ks k w e m = ground arith
  close_each-gone close_stores ((s, ks') ∷ rest) store ks k w e m =
      rw (close_each, evict_keys-ok dec stores laws s ks' w, close_one-ok close_stores s _)
        (elim (store_dec s store) [
          | yes p ↦ close_each-none close_stores rest store k _ (
              close_one-none close_stores s store k _ (
                subst (λ st. laws.view (evict_keys dec stores s ks' w).1 st k ≡ none) p
                  (evict_keys-gone dec stores laws s ks' k w (ground arith))))
          | no ne ↦ close_each-gone close_stores rest store ks k _ (ground arith) m
        ])

  held_gone :
      (d : Dict S (List K)) (close_stores : Bool) (w : W) (store : S) (k : K)
      → holds store_dec dec stores d store k ≡ true
      → laws.view (close_each store_dec dec stores close_stores d w).1 store k ≡ none
  unfolding keys_of_store mem
  held_gone d close_stores w store k e = elim (Option-cases (Dict.get store_dec store d)) [
    | inl unknown ↦ ground arith
    | inr (ks, known) ↦ close_each-gone close_stores d store ks k w known (ground arith)
  ]

  abbrev finished : StaticLifetime S K
  finished = record { keys = []; done = true }

  close_eq :
      (close_stores : Bool) (d : Dict S (List K)) (w : W)
      → close store_dec dec stores close_stores (record { keys = d; done = false }, w)
        ≡ (ok tt, (finished, (close_each store_dec dec stores close_stores d w).1))
  unfolding close
  close_eq close_stores d w = rw (close, close_each-ok close_stores d w) refl

  -- A new static lifetime, over stores that keep their laws, gets keys and proxies in any calls, some
  -- of which may raise, and is closed, with its stores or without. Then `close` succeeds, and every
  -- key that was added for a store is gone from that store. The lifetime has ended: each later
  -- `add_key` and `add_proxy` raises `RuntimeError`, and each later `close` does nothing.
  pub static_close_evicts :
      (l : List (Add S K)) (close_stores : Bool) (store : S) (k : K) (w : W)
      → added store_dec dec store k l ≡ true
      → (after : StaticLifetime S K × W) × ((close store_dec dec stores close_stores
              (add_all store_dec dec stores l (new_static, w))
            ≡ (ok tt, after))
          × ((laws.view after.1 store k ≡ none)
              × (((given : Option S) (ks : List K)
                    → add_key store_dec dec stores given ks after ≡ (err runtime_error, after))
                  × (((fs : List (Factory S K))
                        → add_proxy store_dec dec stores fs after ≡ (err runtime_error, after))
                      × ((again : Bool)
                          → close store_dec dec stores again after ≡ (ok tt, after))))))
  unfolding close add_key add_proxy
  static_close_evicts l close_stores store k w there =
      let c = new-Collects store_dec dec stores w l in
      (
        (finished, (close_each store_dec dec stores close_stores c.keys w).1),
        (
          ap (close store_dec dec stores close_stores) c.state ∙ close_eq close_stores c.keys w,
          (
            held_gone c.keys close_stores w store k (c.keys_known store k ∙ there),
            (λ given ks. refl, (λ fs. refl, λ again. refl)),
          ),
        ),
      )
