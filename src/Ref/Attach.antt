-- ===== src/Ref/Attach.antt =====
-- The other changes of the heap: a new reference counted by its owner, a proxy without an owner,
-- and a rewrite that leaves kind, owner and counts alone.
use mathlib.Core.Path.{subst, subst₂}
use proxy_store.Prelude.{
  ℕ, ◌+◌, ◌≤◌, ◌<◌, ◌≡◌, ◌≢◌, sym, ◌∙◌, ap, ◌⊎◌, inl, inr, none, some, List, [], ◌∷◌, ◌++◌, length,
  get_elem?, set, ℕ_discrete, arith,
}
use proxy_store.Ref.Heap.{owned, Cell}
use proxy_store.Ref.Counts.{
  get_elem?-set_self, get_elem?-set_ne, get_elem?-append_left, get_elem?-append_one, get_elem?-past,
  total, total-set, total-append_one, total-zero, ref_to, mut_to,
}
use proxy_store.Ref.Invariant.{
  IsConsistent, owned_ref_to, owned_mut_to, ref_to_other, mut_to_other, free_ref_to, free_mut_to,
  set_cases,
}

module _ {K V : Type 0} where
  ref_to-cases : (o : ℕ) (c : Cell K V) → (ref_to o c ≡ 0) ⊎ (c.owner ≡ some o)
  ref_to-cases o c = ground arith

  mut_to-cases : (o : ℕ) (c : Cell K V) → (mut_to o c ≡ 0) ⊎ (c.owner ≡ some o)
  mut_to-cases o c = ground arith

module _ {K V : Type 0} (l : List (Cell K V)) where
  -- A proxy that nobody owns, with counts of zero, may be added.
  pub append-IsConsistent :
      (r : Cell K V)
      → r.owner ≡ none
      → r.ref_count ≡ 0
      → r.ref_mut_count ≡ 0
      → IsConsistent l
      → IsConsistent (l ++ (r ∷ []))
  append-IsConsistent r free zr zm h = record {
    counted = λ j d at k. elim (get_elem?-append_one l r j d at) [
      | inl old ↦ (
        omega
            (arith, (h.counted j d old k).0, total-append_one (ref_to j) l r, free_ref_to j r free),
        omega
            (arith, (h.counted j d old k).1, total-append_one (mut_to j) l r, free_mut_to j r free),
      )
      | inr (e, e') ↦
          subst₂
            (λ (x : Cell K V) (m : ℕ).
              (x.ref_count ≡ total (ref_to m) (l ++ (r ∷ [])))
              × (x.ref_mut_count ≡ total (mut_to m) (l ++ (r ∷ []))))
            (sym e') (sym e)
            (
              omega (
                arith,
                zr,
                total-append_one (ref_to (length l)) l r,
                free_ref_to (length l) r free,
                total-zero (ref_to (length l)) l
                    (λ i c at_i. unseen i c at_i (ref_to-cases (length l) c)),
              ),
              omega (
                arith,
                zm,
                total-append_one (mut_to (length l)) l r,
                free_mut_to (length l) r free,
                total-zero (mut_to (length l)) l
                    (λ i c at_i. unseen_mut i c at_i (mut_to-cases (length l) c)),
              ),
            )
    ];
    exclusive = λ j d at k. elim (get_elem?-append_one l r j d at) [
      | inl old ↦ h.exclusive j d old k
      | inr (e, e') ↦
          subst (λ (x : Cell K V). (x.ref_mut_count ≤ 1) × (0 < x.ref_mut_count → x.ref_count ≡ 0))
            (sym e') (omega (arith, zm), λ pos. zr)
    ];
    anchored = λ j d k at at_k. elim (get_elem?-append_one l r j d at) [
      | inl old ↦
          let (q, at_q, kind_q) = h.anchored j d k old at_k in
          (q, get_elem?-append_left l (r ∷ []) k q at_q, kind_q)
      | inr (e, e') ↦ absurd (cc (e', free, at_k))
    ];
    unowned = λ j d at k. elim (get_elem?-append_one l r j d at) [
      | inl old ↦ h.unowned j d old k
      | inr (e, e') ↦ ap (λ (x : Cell K V). x.owner) e' ∙ free
    ];
  }
    where
      none_there : (c : Cell K V) (i : ℕ) → get_elem? l i ≡ some c → c.owner ≡ some (length l) → ⊥
      none_there c i at_i own =
          let (q, at_q, _) = h.anchored i c (length l) at_i own in cc (at_q, get_elem?-past l)

      unseen :
          (i : ℕ) (c : Cell K V)
          → get_elem? l i ≡ some c
          → (ref_to (length l) c ≡ 0) ⊎ (c.owner ≡ some (length l))
          → ref_to (length l) c ≡ 0
      unseen i c at_i (inl zero_) = zero_
      unseen i c at_i (inr own) = absurd (none_there c i at_i own)

      unseen_mut :
          (i : ℕ) (c : Cell K V)
          → get_elem? l i ≡ some c
          → (mut_to (length l) c ≡ 0) ⊎ (c.owner ≡ some (length l))
          → mut_to (length l) c ≡ 0
      unseen_mut i c at_i (inl zero_) = zero_
      unseen_mut i c at_i (inr own) = absurd (none_there c i at_i own)

  module _ (o : ℕ) (p p' : Cell K V) (at_o : get_elem? l o ≡ some p) where
    -- A rewrite that leaves kind, owner and counts alone keeps the heap consistent.
    pub relabel-IsConsistent :
        p'.kind ≡ p.kind
        → p'.owner ≡ p.owner
        → p'.ref_count ≡ p.ref_count
        → p'.ref_mut_count ≡ p.ref_mut_count
        → IsConsistent l
        → IsConsistent (set l o p')
    relabel-IsConsistent kind own refs muts h = record {
      counted = λ j d at k. elim (set_cases l o j p p' d at_o at) [
        | inl (e, e') ↦
            subst₂
              (λ (x : Cell K V) (m : ℕ).
                (x.ref_count ≡ total (ref_to m) (set l o p'))
                × (x.ref_mut_count ≡ total (mut_to m) (set l o p')))
              (sym e') e
              (
                omega (arith, refs, same_refs o, (h.counted o p at_o (kind_p e' k)).0),
                omega (arith, muts, same_muts o, (h.counted o p at_o (kind_p e' k)).1),
              )
        | inr (ne, old) ↦ (
          omega (arith, (h.counted j d old k).0, same_refs j),
          omega (arith, (h.counted j d old k).1, same_muts j),
        )
      ];
      exclusive = λ j d at k. elim (set_cases l o j p p' d at_o at) [
        | inl (e, e') ↦
            let (small, alone) = h.exclusive o p at_o (kind_p e' k) in
            subst
              (λ (x : Cell K V). (x.ref_mut_count ≤ 1) × (0 < x.ref_mut_count → x.ref_count ≡ 0))
              (sym e')
              (omega (arith, muts, small), λ pos. omega (arith, refs, alone (omega (arith, muts))))
        | inr (ne, old) ↦ h.exclusive j d old k
      ];
      anchored = λ j d k at at_k. elim (set_cases l o j p p' d at_o at) [
        | inl (e, e') ↦
            let (q, at_q, kind_q) =
              h.anchored o p k at_o (sym own ∙ ap (λ (x : Cell K V). x.owner) (sym e') ∙ at_k) in
            anchor k q at_q kind_q
        | inr (ne, old) ↦
            let (q, at_q, kind_q) = h.anchored j d k old at_k in anchor k q at_q kind_q
      ];
      unowned = λ j d at k. elim (set_cases l o j p p' d at_o at) [
        | inl (e, e') ↦ ap (λ (x : Cell K V). x.owner) e' ∙ own ∙ h.unowned o p at_o (kind_p e' k)
        | inr (ne, old) ↦ h.unowned j d old k
      ];
    }
      where
        kind_p : {d : Cell K V} → d ≡ p' → d.kind ≡ owned → p.kind ≡ owned
        kind_p e' k = sym kind ∙ ap (λ (x : Cell K V). x.kind) (sym e') ∙ k

        same_refs : (j : ℕ) → total (ref_to j) (set l o p') ≡ total (ref_to j) l
        same_refs j =
            let same : ref_to j p' ≡ ref_to j p = cc (kind, own) in
            omega (arith, total-set (ref_to j) l o p p' at_o, same)

        same_muts : (j : ℕ) → total (mut_to j) (set l o p') ≡ total (mut_to j) l
        same_muts j =
            let same : mut_to j p' ≡ mut_to j p = cc (kind, own) in
            omega (arith, total-set (mut_to j) l o p p' at_o, same)

        anchor :
            (k : ℕ) (q : Cell K V)
            → get_elem? l k ≡ some q
            → q.kind ≡ owned
            → (q' : Cell K V) × (get_elem? (set l o p') k ≡ some q') × (q'.kind ≡ owned)
        anchor k q at kind_q = elim (ℕ_discrete o k) [
          | yes e ↦ (
            p',
            subst (λ m. get_elem? (set l o p') m ≡ some p') e (get_elem?-set_self l o p' at_o),
            kind ∙ ground (arith, ap (λ m. get_elem? l m) e),
          )
          | no ne ↦ (q, get_elem?-set_ne l o k p' ne ∙ at, kind_q)
        ]

    -- A new reference that its owner counts keeps the heap consistent, if the owner's counts stay
    -- exclusive.
    pub attach-IsConsistent :
        (r : Cell K V)
        → p.kind ≡ owned
        → p'.kind ≡ owned
        → p'.owner ≡ p.owner
        → r.kind ≢ owned
        → r.owner ≡ some o
        → p'.ref_count ≡ p.ref_count + ref_to o r
        → p'.ref_mut_count ≡ p.ref_mut_count + mut_to o r
        → p'.ref_mut_count ≤ 1
        → (0 < p'.ref_mut_count → p'.ref_count ≡ 0)
        → IsConsistent l
        → IsConsistent (set l o p' ++ (r ∷ []))
    attach-IsConsistent r kind kind' own' plain own refs muts small alone h = record {
      counted = λ j d at k. elim (cases j d at) [
        | inl (e, e') ↦
            subst₂
              (λ (x : Cell K V) (m : ℕ).
                (x.ref_count ≡ total (ref_to m) l') × (x.ref_mut_count ≡ total (mut_to m) l'))
              (sym e') e
              (
                omega (arith, refs, more_refs o, (h.counted o p at_o kind).0),
                omega (arith, muts, more_muts o, (h.counted o p at_o kind).1),
              )
        | inr (inl (ne, old)) ↦ (
          omega (arith, (h.counted j d old k).0, more_refs j, ref_to_other o j r own ne),
          omega (arith, (h.counted j d old k).1, more_muts j, mut_to_other o j r own ne),
        )
        | inr (inr e) ↦ absurd (plain (ap (λ (x : Cell K V). x.kind) (sym e) ∙ k))
      ];
      exclusive = λ j d at k. elim (cases j d at) [
        | inl (e, e') ↦
            subst
              (λ (x : Cell K V). (x.ref_mut_count ≤ 1) × (0 < x.ref_mut_count → x.ref_count ≡ 0))
              (sym e') (small, alone)
        | inr (inl (ne, old)) ↦ h.exclusive j d old k
        | inr (inr e) ↦ absurd (plain (ap (λ (x : Cell K V). x.kind) (sym e) ∙ k))
      ];
      anchored = λ j d k at at_k. elim (cases j d at) [
        | inl (e, e') ↦ absurd (cc (e', own', h.unowned o p at_o kind, at_k))
        | inr (inl (ne, old)) ↦
            let (q, at_q, kind_q) = h.anchored j d k old at_k in anchor k q at_q kind_q
        | inr (inr e) ↦
            anchor k p
              (subst (λ m. get_elem? l m ≡ some p)
                (index_injective (sym own ∙ ap (λ (x : Cell K V). x.owner) (sym e) ∙ at_k)) at_o)
              kind
      ];
      unowned = λ j d at k. elim (cases j d at) [
        | inl (e, e') ↦ ap (λ (x : Cell K V). x.owner) e' ∙ own' ∙ h.unowned o p at_o kind
        | inr (inl (ne, old)) ↦ h.unowned j d old k
        | inr (inr e) ↦ absurd (plain (ap (λ (x : Cell K V). x.kind) (sym e) ∙ k))
      ];
    }
      where
        l' : List (Cell K V)
        l' = set l o p' ++ (r ∷ [])

        index_injective : {m n : ℕ} → some m ≡ some n → m ≡ n
        index_injective e = cc

        cases :
            (j : ℕ) (d : Cell K V)
            → get_elem? (set l o p' ++ (r ∷ [])) j ≡ some d
            → ((o ≡ j) × (d ≡ p')) ⊎ ((o ≢ j) × (get_elem? l j ≡ some d)) ⊎ (d ≡ r)
        cases j d at = elim (get_elem?-append_one (set l o p') r j d at) [
          | inl old ↦ elim (set_cases l o j p p' d at_o old) [ inl x ↦ inl x | inr y ↦ inr (inl y) ]
          | inr (_, e) ↦ inr (inr e)
        ]

        more_refs :
            (j : ℕ) → total (ref_to j) (set l o p' ++ (r ∷ [])) ≡ total (ref_to j) l + ref_to j r
        more_refs j = omega (
          arith,
          total-append_one (ref_to j) (set l o p') r,
          total-set (ref_to j) l o p p' at_o,
          owned_ref_to j p kind,
          owned_ref_to j p' kind',
        )

        more_muts :
            (j : ℕ) → total (mut_to j) (set l o p' ++ (r ∷ [])) ≡ total (mut_to j) l + mut_to j r
        more_muts j = omega (
          arith,
          total-append_one (mut_to j) (set l o p') r,
          total-set (mut_to j) l o p p' at_o,
          owned_mut_to j p kind,
          owned_mut_to j p' kind',
        )

        anchor :
            (k : ℕ) (q : Cell K V)
            → get_elem? l k ≡ some q
            → q.kind ≡ owned
            → (q' : Cell K V) × (get_elem? (set l o p' ++ (r ∷ [])) k ≡ some q') × (q'.kind ≡ owned)
        anchor k q at kind_q = elim (ℕ_discrete o k) [
          | yes e ↦ (
            p',
            get_elem?-append_left (set l o p') (r ∷ []) k p' (
                subst (λ m. get_elem? (set l o p') m ≡ some p') e (get_elem?-set_self l o p' at_o)),
            kind',
          )
          | no ne ↦ (
            q,
            get_elem?-append_left (set l o p') (r ∷ []) k q (get_elem?-set_ne l o k p' ne ∙ at),
            kind_q,
          )
        ]
