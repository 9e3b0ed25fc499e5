-- ===== src/Ref/Rules.antt =====
-- The borrowing rules: what can be lent and when.
use proxy_store.Prelude.{
  ℕ, zero, suc, ◌+◌, ◌<◌, ◌≡◌, refl, inl, inr, ◌⊎◌, none, some, List, [], ◌∷◌, ◌++◌, length,
  get_elem?, set, Option-cases, Bool-cases, Bool, true, false, if◌then◌else◌, arith,
}
use proxy_store.Prelude.Exec.{
  Result, ok, err, mutable_borrow, reference_not_owned, attribute_error, Result-cases, Error,
}
use proxy_store.Ref.Heap.{
  Kind, owned, ref, ref_mut, is_owned, Cell, Heap, new_cell, copy_attributes, write_cell, add_cell,
}
use proxy_store.Ref.Scope.{del_ref, del_ref_mut}
use proxy_store.Ref.Borrow.{finish_borrow, borrow, mut_borrow}
use proxy_store.Ref.Counts.{ref_to, mut_to, get_elem?-length}
use proxy_store.Ref.Invariant.{IsConsistent}
use proxy_store.Ref.Attach.{attach-IsConsistent}
use proxy_store.Ref.Endings.{del_ref-IsConsistent, del_ref_mut-IsConsistent}

module _ {K V : Type 0} where
  -- copying the attributes changes neither kind nor owner nor counts
  copy_attributes-keeps :
      (s d r : Cell K V)
      → copy_attributes s d ≡ ok r
      → (r.kind ≡ d.kind)
        × (r.owner ≡ d.owner)
        × (r.ref_count ≡ d.ref_count)
        × (r.ref_mut_count ≡ d.ref_mut_count)
  unfolding copy_attributes
  copy_attributes-keeps s d r h = ground arith

module _ {K V B : Type 0} where
  -- the heap after the owner `p` at `i` has counted one more reference
  module _ (i : ℕ) (p : Cell K V) (h : Heap K V B) where
    abbrev lent : Heap K V B
    lent = write_cell i (record p { ref_count = p.ref_count + 1 }) h

    borrow_eq :
        (populate : Bool)
        → get_elem? h.cells i ≡ some p
        → p.kind ≡ owned
        → p.ref_mut_count ≡ 0
        → borrow i populate h
          ≡ finish_borrow del_ref populate
              (record p { ref_count = p.ref_count + 1 })
              (new_cell ref (some i) p.factory_key p.evict)
              lent
    unfolding borrow
    borrow_eq populate at_i kind free = ground arith

    -- An owner that is lent mutably cannot be borrowed, and nothing changes.
    pub borrow_refused :
        (populate : Bool)
        → get_elem? h.cells i ≡ some p
        → p.kind ≡ owned
        → 0 < p.ref_mut_count
        → borrow i populate h ≡ (err mutable_borrow, h)
    unfolding borrow
    borrow_refused populate at_i kind lent_mutably = ground arith

    pub mut_borrow_refused :
        (populate : Bool)
        → get_elem? h.cells i ≡ some p
        → p.kind ≡ owned
        → 0 < p.ref_mut_count + p.ref_count
        → mut_borrow i populate h ≡ (err mutable_borrow, h)
    unfolding mut_borrow
    mut_borrow_refused populate at_i kind taken = ground arith

    mut_borrow_eq :
        (populate : Bool)
        → get_elem? h.cells i ≡ some p
        → p.kind ≡ owned
        → p.ref_mut_count ≡ 0
        → p.ref_count ≡ 0
        → mut_borrow i populate h
          ≡ finish_borrow del_ref_mut populate
              (record p { ref_mut_count = p.ref_mut_count + 1 })
              (new_cell ref_mut (some i) p.factory_key p.evict)
              (write_cell i (record p { ref_mut_count = p.ref_mut_count + 1 }) h)
    unfolding mut_borrow
    mut_borrow_eq populate at_i kind free free' = ground arith

module _ {K V : Type 0} where
  -- what the new reference becomes when the target is copied to it, or is not
  abbrev filling : Bool → Cell K V → Cell K V → Result (Cell K V)
  filling populate p r = if populate then copy_attributes p r else ok r

  filling-keeps :
      (populate : Bool) (s d r : Cell K V)
      → filling populate s d ≡ ok r
      → (r.kind ≡ d.kind)
        × (r.owner ≡ d.owner)
        × (r.ref_count ≡ d.ref_count)
        × (r.ref_mut_count ≡ d.ref_mut_count)
  filling-keeps true s d r h = copy_attributes-keeps s d r h
  filling-keeps false s d r h = ground arith

  abbrev Addable : Cell K V → List (Cell K V) → Type 0
  Addable c l =
      (r : Cell K V)
      → (r.kind ≡ c.kind)
        × (r.owner ≡ c.owner)
        × (r.ref_count ≡ c.ref_count)
        × (r.ref_mut_count ≡ c.ref_mut_count)
      → IsConsistent (l ++ (r ∷ []))

module _ {K V B : Type 0} where
  finish_ok :
      (f : ℕ → Cell K V → Heap K V B → Result (Unit {0}) × Heap K V B) (populate : Bool)
      (p r filled : Cell K V) (g : Heap K V B)
      → filling populate p r ≡ ok filled
      → finish_borrow f populate p r g ≡ (ok (length g.cells), add_cell filled g)
  unfolding finish_borrow
  finish_ok f populate p r filled g e = rw (finish_borrow, e) refl

  finish_err :
      (f : ℕ → Cell K V → Heap K V B → Result (Unit {0}) × Heap K V B) (populate : Bool)
      (p r : Cell K V) (e : Error) (g : Heap K V B)
      → filling populate p r ≡ err e
      → finish_borrow f populate p r g ≡ (err e, (f (length g.cells) r (add_cell r g)).1)
  unfolding finish_borrow
  finish_err f populate p r e g h = rw (finish_borrow, h) refl

  finish-IsConsistent :
      (f : ℕ → Cell K V → Heap K V B → Result (Unit {0}) × Heap K V B) (populate : Bool)
      (p c : Cell K V) (g : Heap K V B)
      → Addable c g.cells
      → (IsConsistent (g.cells ++ (c ∷ []))
          → IsConsistent (f (length g.cells) c (add_cell c g)).1.cells)
      → IsConsistent (finish_borrow f populate p c g).1.cells
  finish-IsConsistent f populate p c g addable ended = elim (Result-cases (filling populate p c)) [
    | inl (filled, e) ↦
        rw (finish_ok f populate p c filled g e)
          (addable filled (filling-keeps populate p c filled e))
    | inr (e, e') ↦
        rw (finish_err f populate p c e g e') (ended (addable c (refl, refl, refl, refl)))
  ]

  borrow_plain :
      (i : ℕ) (p : Cell K V) (populate : Bool) (h : Heap K V B)
      → get_elem? h.cells i ≡ some p
      → is_owned p.kind ≡ false
      → borrow i populate h ≡ (err reference_not_owned, h)
  unfolding borrow
  borrow_plain i p populate h at_i kind = rw (borrow, at_i, kind) refl

  borrow_nothing :
      (i : ℕ) (populate : Bool) (h : Heap K V B)
      → get_elem? h.cells i ≡ none
      → borrow i populate h ≡ (err attribute_error, h)
  unfolding borrow
  borrow_nothing i populate h at_i = rw (borrow, at_i) refl

  mut_borrow_plain :
      (i : ℕ) (p : Cell K V) (populate : Bool) (h : Heap K V B)
      → get_elem? h.cells i ≡ some p
      → is_owned p.kind ≡ false
      → mut_borrow i populate h ≡ (err reference_not_owned, h)
  unfolding mut_borrow
  mut_borrow_plain i p populate h at_i kind = rw (mut_borrow, at_i, kind) refl

  mut_borrow_nothing :
      (i : ℕ) (populate : Bool) (h : Heap K V B)
      → get_elem? h.cells i ≡ none
      → mut_borrow i populate h ≡ (err attribute_error, h)
  unfolding mut_borrow
  mut_borrow_nothing i populate h at_i = rw (mut_borrow, at_i) refl

is_owned-owned : (k : Kind) → is_owned k ≡ true → k ≡ owned
is_owned-owned k e = ground arith

zero_or_pos : (n : ℕ) → (n ≡ 0) ⊎ (0 < n)
zero_or_pos zero = inl refl
zero_or_pos (suc n) = inr (omega arith)

module _ {K V B : Type 0} (i : ℕ) (populate : Bool) (h : Heap K V B)
    (v : IsConsistent h.cells) where
  -- the new reference to the owner `p` at `i`, whatever its target
  ref_added :
      (p : Cell K V)
      → get_elem? h.cells i ≡ some p
      → p.kind ≡ owned
      → p.ref_mut_count ≡ 0
      → Addable (new_cell ref (some i) p.factory_key p.evict) (lent i p h).cells
  ref_added p at_i kind free r (same_kind, own, _, _) =
      let one : ref_to i r ≡ 1 = ground arith in
      let no_mut : mut_to i r ≡ 0 = ground arith in
      attach-IsConsistent h.cells i p (record p { ref_count = p.ref_count + 1 }) at_i r kind kind
        refl (λ e. cc (e, same_kind)) own (omega (arith, one)) (omega (arith, no_mut))
        (omega (arith, free)) (λ pos. omega (arith, free, pos)) v

  mut_added :
      (p : Cell K V)
      → get_elem? h.cells i ≡ some p
      → p.kind ≡ owned
      → p.ref_mut_count ≡ 0
      → p.ref_count ≡ 0
      → Addable
          (new_cell ref_mut (some i) p.factory_key p.evict)
          (set h.cells i (record p { ref_mut_count = p.ref_mut_count + 1 }))
  mut_added p at_i kind free free' r (same_kind, own, _, _) =
      let one : mut_to i r ≡ 1 = ground arith in
      let no_ref : ref_to i r ≡ 0 = ground arith in
      attach-IsConsistent h.cells i p (record p { ref_mut_count = p.ref_mut_count + 1 }) at_i r kind
        kind refl (λ e. cc (e, same_kind)) own (omega (arith, no_ref)) (omega (arith, one))
        (omega (arith, free)) (λ pos. free') v

  -- Borrowing a proxy of a consistent heap keeps the heap consistent, whatever it answers: lent,
  -- refused, or failed half way because the target could not be copied to the reference already
  -- made.
  pub borrow-IsConsistent : IsConsistent (borrow i populate h).1.cells
  borrow-IsConsistent = elim (Option-cases (get_elem? h.cells i)) [
    | inl e ↦ rw (borrow_nothing i populate h e) v
    | inr (p, at_i) ↦ elim (Bool-cases (is_owned p.kind)) [
      | inr other ↦ rw (borrow_plain i p populate h at_i other) v
      | inl yes_ ↦
          let kind : p.kind ≡ owned = is_owned-owned p.kind yes_ in
          elim (zero_or_pos p.ref_mut_count) [
            | inr taken ↦ rw (borrow_refused i p h populate at_i kind taken) v
            | inl free ↦ rw (borrow_eq i p h populate at_i kind free) (
                finish-IsConsistent del_ref populate (record p { ref_count = p.ref_count + 1 })
                  (new_cell ref (some i) p.factory_key p.evict) (lent i p h)
                  (ref_added p at_i kind free)
                  (λ w.
                    (del_ref-IsConsistent (length (lent i p h).cells)
                      (new_cell ref (some i) p.factory_key p.evict)
                      (add_cell (new_cell ref (some i) p.factory_key p.evict) (lent i p h)) w
                      (get_elem?-length (lent i p h).cells _) refl).1))
          ]
    ]
  ]

  -- Borrowing a proxy of a consistent heap mutably keeps the heap consistent, whatever it answers:
  -- lent, refused, or failed half way because the target could not be copied.
  pub mut_borrow-IsConsistent : IsConsistent (mut_borrow i populate h).1.cells
  mut_borrow-IsConsistent = elim (Option-cases (get_elem? h.cells i)) [
    | inl e ↦ rw (mut_borrow_nothing i populate h e) v
    | inr (p, at_i) ↦ elim (Bool-cases (is_owned p.kind)) [
      | inr other ↦ rw (mut_borrow_plain i p populate h at_i other) v
      | inl yes_ ↦
          let kind : p.kind ≡ owned = is_owned-owned p.kind yes_ in
          elim (zero_or_pos (p.ref_mut_count + p.ref_count)) [
            | inr taken ↦ rw (mut_borrow_refused i p h populate at_i kind taken) v
            | inl free ↦
                let r : Cell K V = new_cell ref_mut (some i) p.factory_key p.evict in
                let p' : Cell K V = record p { ref_mut_count = p.ref_mut_count + 1 } in
                rw
                  (mut_borrow_eq i p h populate at_i kind (omega (arith, free))
                    (omega (arith, free)))
                  (finish-IsConsistent del_ref_mut populate p' r (write_cell i p' h)
                    (mut_added p at_i kind (omega (arith, free)) (omega (arith, free)))
                    (λ w.
                      (del_ref_mut-IsConsistent (length (write_cell i p' h).cells) r
                        (add_cell r (write_cell i p' h)) w
                        (get_elem?-length (write_cell i p' h).cells r) refl).1))
          ]
    ]
  ]
