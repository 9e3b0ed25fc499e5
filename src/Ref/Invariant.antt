-- ===== src/Ref/Invariant.antt =====
-- The counts of every owned proxy are the numbers of the references that borrow from it, and it
-- is borrowed mutably once or immutably any number of times, never both.
use mathlib.Core.Path.{subst, subst₂}
use proxy_store.Prelude.{
  ℕ, ◌+◌, ◌≤◌, ◌<◌, ◌≡◌, ◌≢◌, sym, ◌∙◌, ap, ◌⊎◌, inl, inr, none, some, List, get_elem?, set,
  ℕ_discrete, arith,
}
use proxy_store.Ref.Heap.{owned, Cell}
use proxy_store.Ref.Counts.{get_elem?-set_self, get_elem?-set_ne, total, total-set, ref_to, mut_to}

pub record IsConsistent {K V : Type 0} (l : List (Cell K V)) : Type 0 where
  pub counted :
      (i : ℕ) (c : Cell K V)
      → get_elem? l i ≡ some c
      → c.kind ≡ owned
      → (c.ref_count ≡ total (ref_to i) l) × (c.ref_mut_count ≡ total (mut_to i) l)
  pub exclusive :
      (i : ℕ) (c : Cell K V)
      → get_elem? l i ≡ some c
      → c.kind ≡ owned
      → (c.ref_mut_count ≤ 1) × (0 < c.ref_mut_count → c.ref_count ≡ 0)
  pub anchored :
      (i : ℕ) (c : Cell K V) (o : ℕ)
      → get_elem? l i ≡ some c
      → c.owner ≡ some o
      → (p : Cell K V) × (get_elem? l o ≡ some p) × (p.kind ≡ owned)
  pub unowned : (i : ℕ) (c : Cell K V) → get_elem? l i ≡ some c → c.kind ≡ owned → c.owner ≡ none

module _ {K V : Type 0} where
  pub some_injective : {x y : Cell K V} → some x ≡ some y → x ≡ y
  some_injective e = cc

  -- an owned proxy counts for nobody
  pub owned_ref_to : (o : ℕ) (c : Cell K V) → c.kind ≡ owned → ref_to o c ≡ 0
  owned_ref_to o c h = ground arith

  pub owned_mut_to : (o : ℕ) (c : Cell K V) → c.kind ≡ owned → mut_to o c ≡ 0
  owned_mut_to o c h = ground arith

  -- a reference counts for nobody but its owner
  pub ref_to_other : (o j : ℕ) (c : Cell K V) → c.owner ≡ some o → o ≢ j → ref_to j c ≡ 0
  ref_to_other o j c h ne = ground arith

  pub mut_to_other : (o j : ℕ) (c : Cell K V) → c.owner ≡ some o → o ≢ j → mut_to j c ≡ 0
  mut_to_other o j c h ne = ground arith

  pub free_ref_to : (o : ℕ) (c : Cell K V) → c.owner ≡ none → ref_to o c ≡ 0
  free_ref_to o c h = ground arith

  pub free_mut_to : (o : ℕ) (c : Cell K V) → c.owner ≡ none → mut_to o c ≡ 0
  free_mut_to o c h = ground arith

  pub set_cases :
      (l : List (Cell K V)) (i j : ℕ) (c v d : Cell K V)
      → get_elem? l i ≡ some c
      → get_elem? (set l i v) j ≡ some d
      → ((i ≡ j) × (d ≡ v)) ⊎ ((i ≢ j) × (get_elem? l j ≡ some d))
  set_cases l i j c v d at h = elim (ℕ_discrete i j) [
    | yes e ↦ inl (
      e,
      some_injective
          (sym h ∙ subst (λ k. get_elem? (set l i v) k ≡ some v) e (get_elem?-set_self l i v at)),
    )
    | no ne ↦ inr (ne, sym (get_elem?-set_ne l i j v ne) ∙ h)
  ]

  -- The owner's counts are rewritten, and one reference is rewritten: `p` becomes `p'` at `o`,
  -- and `c` becomes `g` at `i`.
  module _ (l : List (Cell K V)) (o i : ℕ) (p p' c g : Cell K V) (at_o : get_elem? l o ≡ some p)
      (at_i : get_elem? l i ≡ some c) (apart : i ≢ o) where
    abbrev twice : List (Cell K V)
    twice = set (set l o p') i g

    still : get_elem? (set l o p') i ≡ some c
    still = get_elem?-set_ne l o i p' (λ e. apart (sym e)) ∙ at_i

    twice_cases :
        (j : ℕ) (d : Cell K V)
        → get_elem? twice j ≡ some d
        → ((i ≡ j) × (d ≡ g)) ⊎ ((o ≡ j) × (d ≡ p')) ⊎ ((o ≢ j) × (get_elem? l j ≡ some d))
    twice_cases j d h = elim (set_cases (set l o p') i j c g d still h) [
      | inl here ↦ inl here
      | inr (other, h') ↦ inr (set_cases l o j p p' d at_o h')
    ]

    twice-total : (f : Cell K V → ℕ) → f p ≡ f p' → total f twice + f c ≡ total f l + f g
    twice-total f same =
        omega (arith, total-set f l o p p' at_o, total-set f (set l o p') i c g still, same)

    twice_anchor :
        p'.kind ≡ owned
        → c.kind ≢ owned
        → (k : ℕ) (q : Cell K V) → get_elem? l k ≡ some q
        → q.kind ≡ owned
        → (q' : Cell K V) × (get_elem? twice k ≡ some q') × (q'.kind ≡ owned)
    twice_anchor kind' plain k q at kind = elim (ℕ_discrete o k) [
      | yes e ↦ (
        p',
        get_elem?-set_ne (set l o p') i k g (λ e'. apart (e' ∙ sym e))
            ∙ subst (λ m. get_elem? (set l o p') m ≡ some p') e (get_elem?-set_self l o p' at_o),
        kind',
      )
      | no ne ↦ (
        q,
        get_elem?-set_ne (set l o p') i k g (λ e'. plain (
              ap (λ (x : Cell K V). x.kind)
                (some_injective (sym at_i ∙ subst (λ m. get_elem? l m ≡ some q) (sym e') at))
              ∙ kind))
            ∙ get_elem?-set_ne l o k p' ne
            ∙ at,
        kind,
      )
    ]

    detach_refs :
        (j : ℕ)
        → p.kind ≡ owned
        → p'.kind ≡ owned
        → g.owner ≡ none
        → total (ref_to j) twice + ref_to j c ≡ total (ref_to j) l
    detach_refs j kind kind' free =
        let same = owned_ref_to j p kind ∙ sym (owned_ref_to j p' kind') in
        omega (arith, twice-total (ref_to j) same, free_ref_to j g free)

    detach_muts :
        (j : ℕ)
        → p.kind ≡ owned
        → p'.kind ≡ owned
        → g.owner ≡ none
        → total (mut_to j) twice + mut_to j c ≡ total (mut_to j) l
    detach_muts j kind kind' free =
        let same = owned_mut_to j p kind ∙ sym (owned_mut_to j p' kind') in
        omega (arith, twice-total (mut_to j) same, free_mut_to j g free)

    -- Letting go of a reference, and taking it off its owner's counts, keeps the heap consistent.
    pub detach-IsConsistent :
        IsConsistent l
        → p.kind ≡ owned
        → c.kind ≢ owned
        → c.owner ≡ some o
        → p'.kind ≡ owned
        → p'.owner ≡ p.owner
        → p'.ref_count + ref_to o c ≡ p.ref_count
        → p'.ref_mut_count + mut_to o c ≡ p.ref_mut_count
        → g.kind ≡ c.kind
        → g.owner ≡ none
        → IsConsistent twice
    detach-IsConsistent h kind plain own kind' own' refs muts gone free = record {
      counted = λ j d at k. elim (twice_cases j d at) [
        | inl (e, e') ↦ absurd (plain (sym gone ∙ ap (λ (x : Cell K V). x.kind) (sym e') ∙ k))
        | inr (inl (e, e')) ↦
            subst₂
              (λ (x : Cell K V) (m : ℕ).
                (x.ref_count ≡ total (ref_to m) twice) × (x.ref_mut_count ≡ total (mut_to m) twice))
              (sym e') e
              (
                omega (arith, refs, detach_refs o kind kind' free, (h.counted o p at_o kind).0),
                omega (arith, muts, detach_muts o kind kind' free, (h.counted o p at_o kind).1),
              )
        | inr (inr (ne, old)) ↦ (
          omega (
            arith,
            (h.counted j d old k).0,
            detach_refs j kind kind' free,
            ref_to_other o j c own ne,
          ),
          omega (
            arith,
            (h.counted j d old k).1,
            detach_muts j kind kind' free,
            mut_to_other o j c own ne,
          ),
        )
      ];
      exclusive = λ j d at k. elim (twice_cases j d at) [
        | inl (e, e') ↦ absurd (plain (sym gone ∙ ap (λ (x : Cell K V). x.kind) (sym e') ∙ k))
        | inr (inl (e, e')) ↦
            let (small, alone) = h.exclusive o p at_o kind in
            subst
              (λ (x : Cell K V). (x.ref_mut_count ≤ 1) × (0 < x.ref_mut_count → x.ref_count ≡ 0))
              (sym e')
              (omega (arith, muts, small), λ pos. omega (arith, refs, alone (omega (arith, muts))))
        | inr (inr (ne, old)) ↦ h.exclusive j d old k
      ];
      anchored = λ j d k at at_k. elim (twice_cases j d at) [
        | inl (e, e') ↦ absurd (cc (e', free, at_k))
        | inr (inl (e, e')) ↦ absurd (cc (e', own', h.unowned o p at_o kind, at_k))
        | inr (inr (ne, old)) ↦
            let (q, at_q, kind_q) = h.anchored j d k old at_k in
            twice_anchor kind' plain k q at_q kind_q
      ];
      unowned = λ j d at k. elim (twice_cases j d at) [
        | inl (e, e') ↦ ap (λ (x : Cell K V). x.owner) e' ∙ free
        | inr (inl (e, e')) ↦ ap (λ (x : Cell K V). x.owner) e' ∙ own' ∙ h.unowned o p at_o kind
        | inr (inr (ne, old)) ↦ h.unowned j d old k
      ];
    }
