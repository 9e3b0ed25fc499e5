-- ===== src/Ref/Borrow.antt =====
-- The functions of proxystore/store/ref.py that make references or use them.
use proxy_store.Prelude.{
  ℕ, ◌+◌, ltb, if◌then◌else◌, Bool, ◌&&◌, ◌||◌, not, none, some, length, get_elem?, false,
}
use proxy_store.Prelude.Exec.{
  ok, err, value_error, attribute_error, proxy_store_factory, mutable_borrow, reference_not_owned,
  reference_invalid,
}
use proxy_store.Ref.Heap.{
  owned, ref, ref_mut, is_owned, is_base, is_ref_mut, Cell, new_cell, copy_attributes, Action,
  write_cell, add_cell, insert_global,
}
use proxy_store.Ref.Scope.{del_ref, del_ref_mut}

module _ {K V B : Type 0} where
  -- A reference that was just created is returned, or goes out of scope with the exception.
  unfoldable pub finish_borrow :
      (ℕ → Cell K V → Action K V B (Unit {0})) → Bool → Cell K V → Cell K V → Action K V B ℕ
  finish_borrow del populate_target proxy reference h =
      let i = length h.cells in
      elim (if populate_target then copy_attributes proxy reference else ok reference) [
        | ok filled ↦ (ok i, add_cell filled h)
        | err e ↦ (err e, (del i reference (add_cell reference h)).1)
      ]

  -- `borrow`
  unfoldable pub borrow : ℕ → Bool → Action K V B ℕ
  borrow i populate_target h = elim (get_elem? h.cells i) [
    | none ↦ (err attribute_error, h)
    | some proxy ↦
        if not (is_owned proxy.kind)
        then (err reference_not_owned, h)
        else if ltb 0 proxy.ref_mut_count
        then (err mutable_borrow, h)
        else let counted = record proxy { ref_count = proxy.ref_count + 1 } in
          let reference = new_cell ref (some i) proxy.factory_key proxy.evict in
          finish_borrow del_ref populate_target counted reference (write_cell i counted h)
  ]

  -- `mut_borrow`
  unfoldable pub mut_borrow : ℕ → Bool → Action K V B ℕ
  mut_borrow i populate_target h = elim (get_elem? h.cells i) [
    | none ↦ (err attribute_error, h)
    | some proxy ↦
        if not (is_owned proxy.kind)
        then (err reference_not_owned, h)
        else if ltb 0 proxy.ref_mut_count
        then (err mutable_borrow, h)
        else if ltb 0 proxy.ref_count
        then (err mutable_borrow, h)
        else let counted = record proxy { ref_mut_count = proxy.ref_mut_count + 1 } in
          let reference = new_cell ref_mut (some i) proxy.factory_key proxy.evict in
          finish_borrow del_ref_mut populate_target counted reference (write_cell i counted h)
  ]

  -- `into_owned`. The proxy and the owned one share the factory, whose `evict` is unset.
  unfoldable pub into_owned : ℕ → Bool → Action K V B ℕ
  into_owned i populate_target h = elim (get_elem? h.cells i) [
    | none ↦ (err attribute_error, h)
    | some proxy ↦
        if not (is_base proxy.kind) then (err value_error, h) else elim proxy.factory_key [
          | none ↦ (err proxy_store_factory, h)
          | some key ↦
              let kept = record proxy { evict = false } in
              finish_borrow (λ _ _ g. (ok tt, g)) populate_target kept
                (new_cell owned none (some key) false) (write_cell i kept h)
        ]
  ]

  -- `__reduce__`: the proxy is invalid from then on, and what is pickled is its kind, its factory
  -- and the two defaults
  unfoldable pub reduce : ℕ → Action K V B (Cell K V)
  reduce i h = elim (get_elem? h.cells i) [
    | none ↦ (err attribute_error, h)
    | some proxy ↦ (
      ok (record (new_cell proxy.kind none proxy.factory_key proxy.evict) {
        default_class = proxy.default_class;
        default_hash = proxy.default_hash;
      }),
      write_cell i (record proxy { valid = false }) h,
    )
  ]

  -- `_proxy_trampoline`, with what `__reduce__` gave
  unfoldable pub trampoline : Cell K V → Action K V B ℕ
  trampoline pickled h = (ok (length h.cells), add_cell pickled h)

module _ {K V B : Type 0} (dec : Discrete K) where
  -- `update`; `dump` is the serializer of the store
  unfoldable pub update : (V → B) → ℕ → Action K V B (Unit {0})
  update dump i h = elim (get_elem? h.cells i) [
    | none ↦ (err attribute_error, h)
    | some c ↦
        if not (is_owned c.kind || is_ref_mut c.kind)
        then (err reference_not_owned, h)
        else if is_owned c.kind && (ltb 0 c.ref_mut_count || ltb 0 c.ref_count)
        then (err mutable_borrow, h)
        else elim c.target [
          | none ↦ (ok tt, h)
          | some v ↦ if not c.valid then (err reference_invalid, h) else (
            ok tt,
            record h { globals = insert_global dec c.factory_key (dump v) h.globals },
          )
        ]
  ]
