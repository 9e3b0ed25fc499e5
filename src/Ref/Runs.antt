-- ===== src/Ref/Runs.antt =====
-- The heaps that a program can bring about: proxies are made, lent, mutably or not, and go out of
-- scope, in any order.
use proxy_store.Prelude.{ℕ, ◌≡◌, refl, none, some, Option, Bool, [], get_elem?, ◌<◌, ◌⊎◌, inl, inr}
use proxy_store.Prelude.Exec.{ok}
use proxy_store.Ref.Heap.{Kind, owned, ref, ref_mut, Cell, Heap, new_cell, add_cell}
use proxy_store.Ref.Scope.{del}
use proxy_store.Ref.Borrow.{borrow, mut_borrow}
use proxy_store.Ref.Counts.{total, ref_to, mut_to}
use proxy_store.Ref.Invariant.{IsConsistent}
use proxy_store.Ref.Attach.{append-IsConsistent}
use proxy_store.Ref.Endings.{
  del_kind, del_ref-IsConsistent, del_ref_mut-IsConsistent, del-IsConsistent,
}
use proxy_store.Ref.Rules.{borrow-IsConsistent, mut_borrow-IsConsistent}
use proxy_store.Ref.Lending.{mutable_xor_shared}

module _ {K V B : Type 0} (dec : Discrete K) where
  -- one call, whatever it answers
  pub data Step : Heap K V B → Heap K V B → Type 0 where
    made :
        (h : Heap K V B) (kind : Kind) (key : Option K) (evict : Bool)
        → Step h (add_cell (new_cell kind none key evict) h)
    lent : (h : Heap K V B) (i : ℕ) (populate : Bool) → Step h (borrow i populate h).1
    lent_mutably : (h : Heap K V B) (i : ℕ) (populate : Bool) → Step h (mut_borrow i populate h).1
    dropped : (h : Heap K V B) (i : ℕ) → Step h (del dec i h).1

  pub data Reachable : Heap K V B → Type 0 where
    start : (h : Heap K V B) → h.cells ≡ [] → Reachable h
    step : (h g : Heap K V B) → Reachable h → Step h g → Reachable g

  step-IsConsistent : (h g : Heap K V B) → Step h g → IsConsistent h.cells → IsConsistent g.cells
  step-IsConsistent _ _ (made h kind key evict) v =
      append-IsConsistent h.cells (new_cell kind none key evict) refl refl refl v
  step-IsConsistent _ _ (lent h i populate) v = borrow-IsConsistent i populate h v
  step-IsConsistent _ _ (lent_mutably h i populate) v = mut_borrow-IsConsistent i populate h v
  step-IsConsistent _ _ (dropped h i) v = del-IsConsistent dec i h v

  empty-IsConsistent : (h : Heap K V B) → h.cells ≡ [] → IsConsistent h.cells
  empty-IsConsistent h e = record {
    counted = λ i c at k. cc (at, e);
    exclusive = λ i c at k. cc (at, e);
    anchored = λ i c o at k. cc (at, e);
    unowned = λ i c at k. cc (at, e);
  }

  Reachable-IsConsistent : (h : Heap K V B) → Reachable h → IsConsistent h.cells
  Reachable-IsConsistent _ (start h e) = empty-IsConsistent h e
  Reachable-IsConsistent _ (step h g r s) = step-IsConsistent h g s (Reachable-IsConsistent h r)

  -- In every heap that is reachable from an empty one by making, lending and dropping proxies, in
  -- any order, an owner that some mutable reference borrows is borrowed by that one reference only:
  -- by no second mutable one and by no immutable one.
  pub sole_mutable_reference :
      (h : Heap K V B) (i : ℕ) (p : Cell K V)
      → Reachable h
      → get_elem? h.cells i ≡ some p
      → p.kind ≡ owned
      → 0 < total (mut_to i) h.cells
      → (total (mut_to i) h.cells ≡ 1) × (total (ref_to i) h.cells ≡ 0)
  sole_mutable_reference h i p r at_i kind lent_ =
      mutable_xor_shared i p h.cells (Reachable-IsConsistent h r) at_i kind lent_

  -- In every heap that is reachable from an empty one by making, lending and dropping proxies, the
  -- finaliser of a reference succeeds: none of its assertions fails.
  pub finaliser_succeeds :
      (h : Heap K V B) (i : ℕ) (c : Cell K V)
      → Reachable h
      → get_elem? h.cells i ≡ some c
      → (c.kind ≡ ref) ⊎ (c.kind ≡ ref_mut)
      → (del dec i h).0 ≡ ok tt
  finaliser_succeeds h i c r at_i (inl kind) =
      rw (del_kind dec i c ref h at_i kind)
        (del_ref-IsConsistent i c h (Reachable-IsConsistent h r) at_i kind).0
  finaliser_succeeds h i c r at_i (inr kind) =
      rw (del_kind dec i c ref_mut h at_i kind)
        (del_ref_mut-IsConsistent i c h (Reachable-IsConsistent h r) at_i kind).0
