-- ===== src/Ref/Lending.antt =====
-- An owned proxy and the references to it: who can be lent, and when the object may go.
use proxy_store.Prelude.{
  ℕ, ◌+◌, ◌<◌, ◌≡◌, refl, ◌∙◌, none, some, List, get_elem?, set, Bool, true, false, arith,
}
use proxy_store.Prelude.Dict.{get, get-erase_self}
use proxy_store.Prelude.Exec.{ok, err, runtime_error, mutable_borrow}
use proxy_store.Ref.Heap.{owned, Cell, Heap, evict_global}
use proxy_store.Ref.Scope.{del_owned, del}
use proxy_store.Ref.Borrow.{borrow, mut_borrow}
use proxy_store.Ref.Counts.{total, ref_to, mut_to}
use proxy_store.Ref.Invariant.{IsConsistent}
use proxy_store.Ref.Endings.{del_kind}
use proxy_store.Ref.Rules.{borrow_refused, mut_borrow_refused}

module _ {K V : Type 0} where
  -- In a consistent heap, an owner with a mutable reference has exactly one, and no immutable one.
  pub mutable_xor_shared :
      (i : ℕ) (p : Cell K V) (l : List (Cell K V))
      → IsConsistent l
      → get_elem? l i ≡ some p
      → p.kind ≡ owned
      → 0 < total (mut_to i) l
      → (total (mut_to i) l ≡ 1) × (total (ref_to i) l ≡ 0)
  mutable_xor_shared i p l v at_i kind pos =
      let (refs, muts) = v.counted i p at_i kind in
      let (small, alone) = v.exclusive i p at_i kind in
      (omega (arith, muts, small), omega (arith, refs, alone (omega (arith, muts))))

module _ {K V B : Type 0} where
  -- On a consistent heap, an owned proxy that some mutable reference borrows is neither borrowed
  -- nor borrowed mutably again, and one that some immutable reference borrows is not borrowed
  -- mutably: the call raises and the heap is unchanged.
  pub lending_refused :
      (i : ℕ) (populate : Bool) (p : Cell K V) (h : Heap K V B)
      → IsConsistent h.cells
      → get_elem? h.cells i ≡ some p
      → p.kind ≡ owned
      → (0 < total (mut_to i) h.cells → borrow i populate h ≡ (err mutable_borrow, h))
        × (0 < total (mut_to i) h.cells + total (ref_to i) h.cells
            → mut_borrow i populate h ≡ (err mutable_borrow, h))
  lending_refused i populate p h v at_i kind =
      let (refs, muts) = v.counted i p at_i kind in
      (
        λ pos. borrow_refused i p h populate at_i kind (omega (arith, muts)),
        λ pos. mut_borrow_refused i p h populate at_i kind (omega (arith, refs, muts)),
      )

module _ {K V B : Type 0} (dec : Discrete K) where
  del_owned_busy :
      (i : ℕ) (p : Cell K V) (h : Heap K V B)
      → p.valid ≡ true
      → 0 < p.ref_count + p.ref_mut_count
      → del_owned dec i p h ≡ (err runtime_error, h)
  unfolding del_owned
  del_owned_busy i p h ok_ busy = ground arith

  del_owned_idle :
      (i : ℕ) (p : Cell K V) (h : Heap K V B)
      → p.valid ≡ true
      → p.ref_count ≡ 0
      → p.ref_mut_count ≡ 0
      → del_owned dec i p h ≡ (
        ok tt,
        record {
          cells = set h.cells i (record p { valid = false });
          globals = evict_global dec p.factory_key h.globals;
        },
      )
  unfolding del_owned
  del_owned_idle i p h ok_ refs muts = ground arith

  -- On a consistent heap, the finaliser of a valid owned proxy that some reference still borrows
  -- raises and evicts nothing.
  pub del_with_references :
      (i : ℕ) (p : Cell K V) (h : Heap K V B)
      → IsConsistent h.cells
      → get_elem? h.cells i ≡ some p
      → p.kind ≡ owned
      → p.valid ≡ true
      → 0 < total (ref_to i) h.cells + total (mut_to i) h.cells
      → del dec i h ≡ (err runtime_error, h)
  del_with_references i p h v at_i kind valid busy =
      let (refs, muts) = v.counted i p at_i kind in
      del_kind dec i p owned h at_i kind ∙ del_owned_busy i p h valid (omega (arith, refs, muts))

  -- On a consistent heap, the finaliser of a valid owned proxy that no reference borrows succeeds,
  -- and its object is gone from the global store.
  pub del_without_references :
      (i : ℕ) (p : Cell K V) (k : K) (h : Heap K V B)
      → IsConsistent h.cells
      → get_elem? h.cells i ≡ some p
      → p.kind ≡ owned
      → p.valid ≡ true
      → p.factory_key ≡ some k
      → total (ref_to i) h.cells ≡ 0
      → total (mut_to i) h.cells ≡ 0
      → ((del dec i h).0 ≡ ok tt) × (get dec k (del dec i h).1.globals ≡ none)
  del_without_references i p k h v at_i kind valid key no_refs no_muts =
      let (refs, muts) = v.counted i p at_i kind in
      rw
        (
          del_kind dec i p owned h at_i kind,
          del_owned_idle i p h valid (omega (arith, refs, no_refs)) (omega (arith, muts, no_muts)),
          key,
        )
        (refl, get-erase_self dec k h.globals)
