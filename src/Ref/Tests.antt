-- ===== src/Ref/Tests.antt =====
-- A heap with an owned proxy and a reference to it.
use proxy_store.Prelude.{
  inr, ℕ, ◌≡◌, ◌<◌, ◌+◌, refl, none, some, true, false, List, [], ◌∷◌, ℕ_discrete, arith,
}
use proxy_store.Prelude.Dict.{get}
use proxy_store.Prelude.Exec.{ok, err, runtime_error}
use proxy_store.Ref.Heap.{owned, ref_mut, Cell, Heap, new_cell}
use proxy_store.Ref.Scope.{del}
use proxy_store.Ref.Borrow.{finish_borrow, borrow, mut_borrow}
use proxy_store.Ref.Counts.{total, ref_to, mut_to}
use proxy_store.Ref.Invariant.{IsConsistent}
use proxy_store.Ref.Attach.{append-IsConsistent}
use proxy_store.Ref.Endings.{del-IsConsistent}
use proxy_store.Ref.Rules.{borrow-IsConsistent, mut_borrow-IsConsistent}
use proxy_store.Ref.Runs.{
  Reachable, start, step, made, lent_mutably, sole_mutable_reference, finaliser_succeeds,
}
use proxy_store.Ref.Lending.{del_with_references, del_without_references}

abbrev nothing : List (Cell ℕ ℕ)
nothing = []

nothing-IsConsistent : IsConsistent nothing
nothing-IsConsistent = record {
  counted = λ i c at k. cc;
  exclusive = λ i c at k. cc;
  anchored = λ i c o at k. cc;
  unowned = λ i c at k. cc;
}

abbrev owner : Cell ℕ ℕ
owner = new_cell owned none (some 5) false

abbrev free_heap : Heap ℕ ℕ ℕ
free_heap = record { cells = owner ∷ []; globals = (5, 50) ∷ [] }

free_heap-IsConsistent : IsConsistent free_heap.cells
free_heap-IsConsistent = append-IsConsistent nothing owner refl refl refl nothing-IsConsistent

-- the owner is lent mutably
abbrev lent_owner : Cell ℕ ℕ
lent_owner = record owner { ref_mut_count = 1 }

abbrev lent_heap : Heap ℕ ℕ ℕ
lent_heap = record {
  cells = lent_owner ∷ new_cell ref_mut (some 0) (some 5) false ∷ [];
  globals = (5, 50) ∷ [];
}

lent_heap-IsConsistent : IsConsistent lent_heap.cells
unfolding mut_borrow finish_borrow
lent_heap-IsConsistent = mut_borrow-IsConsistent 0 false free_heap free_heap-IsConsistent

borrow-IsConsistent_example : IsConsistent (borrow 0 true free_heap).1.cells
borrow-IsConsistent_example = borrow-IsConsistent 0 true free_heap free_heap-IsConsistent

mut_borrow-IsConsistent_example : IsConsistent (mut_borrow 0 true free_heap).1.cells
mut_borrow-IsConsistent_example = mut_borrow-IsConsistent 0 true free_heap free_heap-IsConsistent

del-IsConsistent_example : IsConsistent (del ℕ_discrete 1 lent_heap).1.cells
del-IsConsistent_example = del-IsConsistent ℕ_discrete 1 lent_heap lent_heap-IsConsistent

lent_once : 0 < total (mut_to 0) lent_heap.cells
unfolding total
lent_once = omega arith

busy : 0 < total (ref_to 0) lent_heap.cells + total (mut_to 0) lent_heap.cells
unfolding total
busy = omega arith

del_with_references_example : del ℕ_discrete 0 lent_heap ≡ (err runtime_error, lent_heap)
del_with_references_example =
    del_with_references ℕ_discrete 0 lent_owner lent_heap lent_heap-IsConsistent refl refl refl busy

no_refs : total (ref_to 0) free_heap.cells ≡ 0
unfolding total
no_refs = refl

no_muts : total (mut_to 0) free_heap.cells ≡ 0
unfolding total
no_muts = refl

del_without_references_example :
    ((del ℕ_discrete 0 free_heap).0 ≡ ok tt)
    × (get ℕ_discrete 5 (del ℕ_discrete 0 free_heap).1.globals ≡ none)
del_without_references_example =
    del_without_references ℕ_discrete 0 owner 5 free_heap free_heap-IsConsistent refl refl refl refl
      no_refs no_muts

abbrev empty_heap : Heap ℕ ℕ ℕ
empty_heap = record { cells = []; globals = (5, 50) ∷ [] }

lent_heap-Reachable : Reachable ℕ_discrete lent_heap
unfolding mut_borrow finish_borrow
lent_heap-Reachable =
    step free_heap lent_heap
      (step empty_heap free_heap (start empty_heap refl) (made empty_heap owned (some 5) false))
      (lent_mutably free_heap 0 false)

sole_mutable_reference_example :
    (total (mut_to 0) lent_heap.cells ≡ 1) × (total (ref_to 0) lent_heap.cells ≡ 0)
sole_mutable_reference_example =
    sole_mutable_reference ℕ_discrete lent_heap 0 lent_owner lent_heap-Reachable refl refl lent_once

finaliser_succeeds_example : (del ℕ_discrete 1 lent_heap).0 ≡ ok tt
finaliser_succeeds_example =
    finaliser_succeeds ℕ_discrete lent_heap 1 (new_cell ref_mut (some 0) (some 5) false)
      lent_heap-Reachable refl (inr refl)
