-- ===== src/Lifetime/Eviction.antt =====
-- What lifetimes rely on in a store, and the loop that evicts the keys of a lifetime.
use mathlib.Core.Path.{subst}
use proxy_store.Prelude.{
  ◌≡◌, ◌≢◌, refl, ◌∙◌, arith, inl, inr, ◌⊎◌, ite, if_pos, if_neg, if◌then◌else◌, Bool-cases, Option,
  none, true, false, ◌||◌, List, [], ◌∷◌,
}
use proxy_store.Prelude.Exec.{ok}
use proxy_store.Prelude.Sets.{mem}
use proxy_store.Lifetime.{Stores, update, evict_keys}

-- an eviction succeeds, removes its key from its store, and nothing else; closing a store succeeds
-- and brings nothing back
pub record Laws {S K W : Type 0} (V : Type 0) (stores : Stores S K W) : Type 0 where
  pub view : W → S → K → Option V
  pub evict_ok : (s : S) (k : K) (w : W) → (stores.evict s k w).0 ≡ ok tt
  pub evict_self : (s : S) (k : K) (w : W) → view (stores.evict s k w).1 s k ≡ none
  pub evict_key :
      (s other : S) (k j : K) (w : W) → k ≢ j → view (stores.evict s k w).1 other j ≡ view w other j
  pub evict_store :
      (s other : S) (k j : K) (w : W)
      → s ≢ other
      → view (stores.evict s k w).1 other j ≡ view w other j
  pub close_ok : (s : S) (w : W) → (stores.close s w).0 ≡ ok tt
  pub close_none :
      (s other : S) (k : K) (w : W)
      → view w other k ≡ none
      → view (stores.close s w).1 other k ≡ none

module _ {K : Type 0} (dec : Discrete K) where
  pub mem-update :
      (k : K) (keys ks : List K) → mem dec k (update dec keys ks) ≡ (mem dec k keys || mem dec k ks)
  unfolding update mem
  mem-update k keys [] = ground arith
  mem-update k keys (x ∷ ks) = elim (dec x k) [
    | yes p ↦ ground (arith, mem-update k keys ks, mem-update k (x ∷ keys) ks, p)
    | no other ↦ ground (arith, mem-update k keys ks, mem-update k (x ∷ keys) ks)
  ]

module _ {S K W V : Type 0} (dec : Discrete K) (stores : Stores S K W) (laws : Laws V stores) where
  pub evict_keys-ok :
      (store : S) (ks : List K) (w : W) → (evict_keys dec stores store ks w).0 ≡ ok tt
  unfolding evict_keys
  evict_keys-ok store [] w = refl
  evict_keys-ok store (k ∷ ks) w =
      rw (evict_keys, laws.evict_ok store k w) (evict_keys-ok store ks (stores.evict store k w).1)

  evict-none :
      (store : S) (x k : K) (w : W)
      → laws.view w store k ≡ none
      → laws.view (stores.evict store x w).1 store k ≡ none
  evict-none store x k w e = elim (dec x k) [
    | yes p ↦
        subst (λ j. laws.view (stores.evict store x w).1 store j ≡ none) p
          (laws.evict_self store x w)
    | no other ↦ laws.evict_key store store x k w other ∙ e
  ]

  -- what is gone stays gone
  pub evict_keys-none :
      (store : S) (ks : List K) (k : K) (w : W)
      → laws.view w store k ≡ none
      → laws.view (evict_keys dec stores store ks w).1 store k ≡ none
  unfolding evict_keys
  evict_keys-none store [] k w e = e
  evict_keys-none store (x ∷ ks) k w e =
      rw (evict_keys, laws.evict_ok store x w)
        (evict_keys-none store ks k _ (evict-none store x k w e))

  pub evict_keys-gone :
      (store : S) (ks : List K) (k : K) (w : W)
      → mem dec k ks ≡ true
      → laws.view (evict_keys dec stores store ks w).1 store k ≡ none
  unfolding evict_keys mem
  evict_keys-gone store [] k w e = ground arith
  evict_keys-gone store (x ∷ ks) k w e =
      rw (evict_keys, laws.evict_ok store x w)
        (elim (dec x k) [
          | yes p ↦ evict_keys-none store ks k _ (
              subst (λ j. laws.view (stores.evict store x w).1 store j ≡ none) p
                (laws.evict_self store x w))
          | no other ↦ evict_keys-gone store ks k _ (ground arith)
        ])

  pub evict_keys-kept :
      (store other : S) (ks : List K) (k : K) (w : W)
      → (store ≢ other) ⊎ (mem dec k ks ≡ false)
      → laws.view (evict_keys dec stores store ks w).1 other k ≡ laws.view w other k
  unfolding evict_keys mem
  evict_keys-kept store other [] k w e = refl
  evict_keys-kept store other (x ∷ ks) k w (inl e) =
      rw (evict_keys, laws.evict_ok store x w)
        (evict_keys-kept store other ks k _ (inl e) ∙ laws.evict_store store other x k w e)
  evict_keys-kept store other (x ∷ ks) k w (inr e) =
      rw (evict_keys, laws.evict_ok store x w)
        (elim (dec x k) [
          | yes p ↦ ground arith
          | no ne ↦
              evict_keys-kept store other ks k _ (inr (ground arith))
              ∙ laws.evict_key store other x k w ne
        ])

  -- the effect of the loop on its store
  pub evict_keys_here :
      (store : S) (ks : List K) (k : K) (w : W)
      → laws.view (evict_keys dec stores store ks w).1 store k
        ≡ (if mem dec k ks then none else laws.view w store k)
  evict_keys_here store ks k w = elim (Bool-cases (mem dec k ks)) [
    | inl there ↦ rw (there) (evict_keys-gone store ks k w there)
    | inr absent ↦ rw (absent) (evict_keys-kept store store ks k w (inr absent))
  ]

-- the whole effect of the loop
pub evict_keys_view :
    {S K W V : Type 0} (store_dec : Discrete S) (dec : Discrete K) (stores : Stores S K W)
    (laws : Laws V stores) (store other : S) (ks : List K) (k : K) (w : W)
    → laws.view (evict_keys dec stores store ks w).1 other k
      ≡ ite
          (store_dec store other)
          (if mem dec k ks then none else laws.view w other k)
          (laws.view w other k)
evict_keys_view store_dec dec stores laws store other ks k w = elim (store_dec store other) [
  | no ne ↦
      rw (if_neg (store_dec store other) ne)
        (evict_keys-kept dec stores laws store other ks k w (inl ne))
  | yes p ↦ rw (if_pos (store_dec store other) p) (
      subst
        (λ s.
          laws.view (evict_keys dec stores store ks w).1 s k
          ≡ (if mem dec k ks then none else laws.view w s k))
        p (evict_keys_here dec stores laws store ks k w))
]
