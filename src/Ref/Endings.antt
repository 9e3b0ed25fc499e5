-- ===== src/Ref/Endings.antt =====
-- Finalising a proxy keeps the heap consistent, and its assertions hold.
use proxy_store.Prelude.{
  ℕ, ◌-◌, ◌≤◌, ◌≡◌, ◌≢◌, refl, sym, ◌∙◌, ap, ◌⊎◌, inl, inr, none, some, get_elem?, Option-cases,
  false, arith,
}
use proxy_store.Prelude.Exec.{ok, err, attribute_error}
use proxy_store.Ref.Heap.{Kind, base, owned, ref, ref_mut, Cell, Heap, write_cell}
use proxy_store.Ref.Scope.{del_ref, del_ref_mut, del_owned, del}
use proxy_store.Ref.Counts.{le-total, ref_to, mut_to}
use proxy_store.Ref.Invariant.{IsConsistent, detach-IsConsistent}
use proxy_store.Ref.Attach.{relabel-IsConsistent}

cell_injective : {A : Type 0} {x y : A} → some x ≡ some y → x ≡ y
cell_injective e = cc

-- a reference that is let go
abbrev pub gone : {K V : Type 0} → Cell K V → Cell K V
gone c = record c { owner = none; valid = false }

Kind-cases : (k : Kind) → (k ≡ base) ⊎ (k ≡ owned) ⊎ (k ≡ ref) ⊎ (k ≡ ref_mut)
Kind-cases base = inl refl
Kind-cases owned = inr (inl refl)
Kind-cases ref = inr (inr (inl refl))
Kind-cases ref_mut = inr (inr (inr refl))

module _ {K V B : Type 0} where
  module _ (i : ℕ) (c : Cell K V) (h : Heap K V B) where
    del_ref_free : c.owner ≡ none → del_ref i c h ≡ (ok tt, write_cell i (gone c) h)
    unfolding del_ref
    del_ref_free e = ground arith

    del_ref_mut_free : c.owner ≡ none → del_ref_mut i c h ≡ (ok tt, write_cell i (gone c) h)
    unfolding del_ref_mut
    del_ref_mut_free e = ground arith

    module _ (o : ℕ) (p : Cell K V) (own : c.owner ≡ some o)
        (at_o : get_elem? h.cells o ≡ some p) where
      del_ref_owned :
          1 ≤ p.ref_count
          → del_ref i c h ≡ (
            ok tt,
            write_cell i (gone c) (write_cell o (record p { ref_count = p.ref_count - 1 }) h),
          )
      unfolding del_ref
      del_ref_owned pos = ground arith

      del_ref_mut_owned :
          p.ref_mut_count ≡ 1
          → del_ref_mut i c h
            ≡ (ok tt, write_cell i (gone c) (write_cell o (record p { ref_mut_count = 0 }) h))
      unfolding del_ref_mut
      del_ref_mut_owned one = ground arith

    module _ (v : IsConsistent h.cells) (at_i : get_elem? h.cells i ≡ some c) where
      apart :
          (o : ℕ) (p : Cell K V)
          → get_elem? h.cells o ≡ some p
          → p.kind ≡ owned
          → c.kind ≢ owned
          → i ≢ o
      apart o p at_o kind plain e = plain (
          ap (λ (x : Cell K V). x.kind)
            (cell_injective (sym at_i ∙ ap (λ m. get_elem? h.cells m) e ∙ at_o))
          ∙ kind)

      -- The finaliser of an immutable reference never fails on a consistent heap.
      pub del_ref-IsConsistent :
          c.kind ≡ ref → ((del_ref i c h).0 ≡ ok tt) × IsConsistent (del_ref i c h).1.cells
      del_ref-IsConsistent kind = elim (Option-cases c.owner) [
        | inl free ↦
            rw (del_ref_free free)
              (refl, relabel-IsConsistent h.cells i c (gone c) at_i refl (sym free) refl refl v)
        | inr (o, own) ↦
            let (p, at_o, kind_p) = v.anchored i c o at_i own in
            let plain : c.kind ≢ owned = λ e. cc (e, kind) in
            let one : ref_to o c ≡ 1 = ground arith in
            let no_mut : mut_to o c ≡ 0 = ground arith in
            let pos : 1 ≤ p.ref_count =
              omega
                (arith, one, (v.counted o p at_o kind_p).0, le-total (ref_to o) h.cells i c at_i) in
            rw (del_ref_owned o p own at_o pos) (
              refl,
              detach-IsConsistent h.cells o i p (record p { ref_count = p.ref_count - 1 }) c
                  (gone c) at_o at_i (apart o p at_o kind_p plain) v kind_p plain own kind_p refl
                  (omega (arith, one, pos)) (omega (arith, no_mut)) refl refl,
            )
      ]

      -- So does that of a mutable reference.
      pub del_ref_mut-IsConsistent :
          c.kind ≡ ref_mut
          → ((del_ref_mut i c h).0 ≡ ok tt) × IsConsistent (del_ref_mut i c h).1.cells
      del_ref_mut-IsConsistent kind = elim (Option-cases c.owner) [
        | inl free ↦
            rw (del_ref_mut_free free)
              (refl, relabel-IsConsistent h.cells i c (gone c) at_i refl (sym free) refl refl v)
        | inr (o, own) ↦
            let (p, at_o, kind_p) = v.anchored i c o at_i own in
            let plain : c.kind ≢ owned = λ e. cc (e, kind) in
            let one : mut_to o c ≡ 1 = ground arith in
            let no_ref : ref_to o c ≡ 0 = ground arith in
            let single : p.ref_mut_count ≡ 1 = omega (
              arith,
              one,
              (v.counted o p at_o kind_p).1,
              le-total (mut_to o) h.cells i c at_i,
              (v.exclusive o p at_o kind_p).0,
            ) in
            rw (del_ref_mut_owned o p own at_o single) (
              refl,
              detach-IsConsistent h.cells o i p (record p { ref_mut_count = 0 }) c (gone c) at_o
                  at_i (apart o p at_o kind_p plain) v kind_p plain own kind_p refl
                  (omega (arith, no_ref)) (omega (arith, one, single)) refl refl,
            )
      ]

module _ {K V B : Type 0} (dec : Discrete K) where
  del_owned-IsConsistent :
      (i : ℕ) (p : Cell K V) (h : Heap K V B)
      → get_elem? h.cells i ≡ some p
      → IsConsistent h.cells
      → IsConsistent (del_owned dec i p h).1.cells
  unfolding del_owned
  del_owned-IsConsistent i p h at_i v = ground (
    arith,
    relabel-IsConsistent h.cells i p (record p { valid = false }) at_i refl refl refl refl v,
  )

  del_nothing :
      (i : ℕ) (h : Heap K V B) → get_elem? h.cells i ≡ none → del dec i h ≡ (err attribute_error, h)
  unfolding del
  del_nothing i h e = rw (e, del)

  pub del_kind :
      (i : ℕ) (c : Cell K V) (k : Kind) (h : Heap K V B)
      → get_elem? h.cells i ≡ some c
      → c.kind ≡ k
      → del dec i h ≡ elim k [
        | base ↦ (ok tt, h)
        | owned ↦ del_owned dec i c h
        | ref ↦ del_ref i c h
        | ref_mut ↦ del_ref_mut i c h
      ]
  unfolding del
  del_kind i c k h at_i e = rw (at_i, e, del)

  -- Whatever proxy of a consistent heap goes out of scope, the heap stays consistent, also when the
  -- finaliser raises.
  pub del-IsConsistent :
      (i : ℕ) (h : Heap K V B) → IsConsistent h.cells → IsConsistent (del dec i h).1.cells
  del-IsConsistent i h v = elim (Option-cases (get_elem? h.cells i)) [
    | inl e ↦ rw (del_nothing i h e) v
    | inr (c, at_i) ↦ elim (Kind-cases c.kind) [
      | inl e ↦ rw (del_kind i c base h at_i e) v
      | inr (inl e) ↦ rw (del_kind i c owned h at_i e) (del_owned-IsConsistent i c h at_i v)
      | inr (inr (inl e)) ↦ rw (del_kind i c ref h at_i e) (del_ref-IsConsistent i c h v at_i e).1
      | inr (inr (inr e)) ↦
          rw (del_kind i c ref_mut h at_i e) (del_ref_mut-IsConsistent i c h v at_i e).1
    ]
  ]
