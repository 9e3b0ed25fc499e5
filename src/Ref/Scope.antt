-- ===== src/Ref/Scope.antt =====
-- The end of a proxy: the `__del__` methods of proxystore/store/ref.py, and
-- `mark_refs_out_of_scope` of proxystore/store/scopes.py.
use proxy_store.Prelude.{
  ℕ, ◌-◌, ltb, leb, ◌==◌, if◌then◌else◌, ◌||◌, not, none, some, List, [], ◌∷◌, get_elem?, set,
  false,
}
use proxy_store.Prelude.Exec.{ok, err, runtime_error, assertion_error, attribute_error}
use proxy_store.Ref.Heap.{base, owned, ref, ref_mut, Cell, Action, write_cell, evict_global}

module _ {K V B : Type 0} where
  -- `RefProxy.__del__`
  unfoldable pub del_ref : ℕ → Cell K V → Action K V B (Unit {0})
  del_ref i c h =
      let gone = record c { owner = none; valid = false } in
      elim c.owner [
        | none ↦ (ok tt, write_cell i gone h)
        | some o ↦ elim (get_elem? h.cells o) [
          | none ↦ (err attribute_error, h)
          | some p ↦
              if leb 1 p.ref_count
              then (
                ok tt,
                write_cell i gone (write_cell o (record p { ref_count = p.ref_count - 1 }) h),
              )
              else (err assertion_error, h)
        ]
      ]

  -- `RefMutProxy.__del__`
  unfoldable pub del_ref_mut : ℕ → Cell K V → Action K V B (Unit {0})
  del_ref_mut i c h =
      let gone = record c { owner = none; valid = false } in
      elim c.owner [
        | none ↦ (ok tt, write_cell i gone h)
        | some o ↦ elim (get_elem? h.cells o) [
          | none ↦ (err attribute_error, h)
          | some p ↦
              if p.ref_mut_count == 1
              then (ok tt, write_cell i gone (write_cell o (record p { ref_mut_count = 0 }) h))
              else (err assertion_error, h)
        ]
      ]

  -- one round of `mark_refs_out_of_scope`
  unfoldable pub mark_ref : ℕ → Action K V B (Unit {0})
  mark_ref i h = elim (get_elem? h.cells i) [
    | none ↦ (err attribute_error, h)
    | some c ↦ if not c.valid then (ok tt, h) else elim c.owner [
      | none ↦ (err runtime_error, h)
      | some o ↦ elim (get_elem? h.cells o) [
        | none ↦ (err attribute_error, h)
        | some p ↦
            let gone = record c { owner = none; valid = false } in
            elim c.kind [
              | ref ↦ (
                ok tt,
                write_cell i gone (write_cell o (record p { ref_count = p.ref_count - 1 }) h),
              )
              | ref_mut ↦ (
                ok tt,
                write_cell i gone
                    (write_cell o (record p { ref_mut_count = p.ref_mut_count - 1 }) h),
              )
              | _ ↦ (err assertion_error, h)
            ]
      ]
    ]
  ]

  -- `mark_refs_out_of_scope`
  unfoldable pub mark_refs_out_of_scope : List ℕ → Action K V B (Unit {0})
  mark_refs_out_of_scope [] h = (ok tt, h)
  mark_refs_out_of_scope (i ∷ refs) h =
      let (r, h') = mark_ref i h in
      elim r [ ok _ ↦ mark_refs_out_of_scope refs h' | err e ↦ (err e, h') ]

module _ {K V B : Type 0} (dec : Discrete K) where
  -- `OwnedProxy.__del__`; the store of the proxy is found, and its `evict` does not fail
  unfoldable pub del_owned : ℕ → Cell K V → Action K V B (Unit {0})
  del_owned i p h =
      if not p.valid
      then (ok tt, h)
      else if ltb 0 p.ref_count || ltb 0 p.ref_mut_count
      then (err runtime_error, h)
      else (
        ok tt,
        record {
          cells = set h.cells i (record p { valid = false });
          globals = evict_global dec p.factory_key h.globals;
        },
      )

  -- `__del__`, when a proxy goes out of scope
  unfoldable pub del : ℕ → Action K V B (Unit {0})
  del i h = elim (get_elem? h.cells i) [
    | none ↦ (err attribute_error, h)
    | some c ↦ elim c.kind [
      | base ↦ (ok tt, h)
      | owned ↦ del_owned i c h
      | ref ↦ del_ref i c h
      | ref_mut ↦ del_ref_mut i c h
    ]
  ]
