-- ===== src/Store/Batch.antt =====
-- A batch keeps its order: `proxy_batch` gives a result for every object, at its position.
use proxy_store.Prelude.{
  ℕ, suc, ◌+◌, ◌≤◌, ◌<◌, ℕ_discrete, ◌≡◌, refl, sym, ◌∙◌, ap, inl, inr, Bool-cases, Bool, true,
  false, List, [], ◌∷◌, ◌++◌, length, if◌then◌else◌, arith,
}
use proxy_store.Prelude.Sets.{mem}
use proxy_store.Connector.{Connector}
use proxy_store.Store.{Store}
use proxy_store.Store.Proxying.{Made, plain, indices_of, insert_at, collect, select, reinsert}

module _ {V : Type 0} (non_proxiable : V → Bool) where
  -- the objects that can be proxied
  unfoldable pub proxiable : List V → List V
  proxiable [] = []
  proxiable (obj ∷ objs) =
      let rest = proxiable objs in if non_proxiable obj then rest else obj ∷ rest

  -- Every object that cannot be proxied is at its position, and the proxies fill the others, in
  -- order.
  unfoldable pub in_place : {K : Type 0} → List V → List (Made K V) → List (Made K V)
  in_place [] made = made
  in_place (obj ∷ objs) [] =
      let rest = in_place objs [] in if non_proxiable obj then plain obj ∷ rest else rest
  in_place (obj ∷ objs) (p ∷ made) =
      let rest = in_place objs made in
      let rest' = in_place objs (p ∷ made) in
      if non_proxiable obj then plain obj ∷ rest' else p ∷ rest

  mem-collect :
      (j i : ℕ) (objs : List V)
      → j < i
      → mem ℕ_discrete j (indices_of (collect non_proxiable i objs)) ≡ false
  unfolding collect mem
  mem-collect j i [] lt = refl
  mem-collect j i (obj ∷ objs) lt = ground (arith, mem-collect j (i + 1) objs)

  select-agrees :
      (l m : List ℕ) (i : ℕ) (objs : List V)
      → ((j : ℕ) → i ≤ j → mem ℕ_discrete j l ≡ mem ℕ_discrete j m)
      → select l i objs ≡ select m i objs
  unfolding select
  select-agrees l m i [] same = refl
  select-agrees l m i (obj ∷ objs) same =
      let rest = select-agrees l m (i + 1) objs (λ j le. same j (omega (arith, le))) in
      rw (same i (omega arith), rest) refl

  collect_hit :
      (i : ℕ) (obj : V) (objs : List V)
      → non_proxiable obj ≡ true
      → collect non_proxiable i (obj ∷ objs) ≡ (i, obj) ∷ collect non_proxiable (i + 1) objs
  unfolding collect
  collect_hit i obj objs e = rw (collect, e) refl

  collect_miss :
      (i : ℕ) (obj : V) (objs : List V)
      → non_proxiable obj ≡ false
      → collect non_proxiable i (obj ∷ objs) ≡ collect non_proxiable (i + 1) objs
  unfolding collect
  collect_miss i obj objs e = rw (collect, e) refl

  mem-cons_ne : (i j : ℕ) (l : List ℕ) → i < j → mem ℕ_discrete j l ≡ mem ℕ_discrete j (i ∷ l)
  unfolding mem
  mem-cons_ne i j l lt = ground arith

  select_in :
      (l : List ℕ) (i : ℕ) (obj : V) (objs : List V)
      → mem ℕ_discrete i l ≡ true
      → select l i (obj ∷ objs) ≡ select l (i + 1) objs
  unfolding select
  select_in l i obj objs e = rw (select, e) refl

  select_out :
      (l : List ℕ) (i : ℕ) (obj : V) (objs : List V)
      → mem ℕ_discrete i l ≡ false
      → select l i (obj ∷ objs) ≡ obj ∷ select l (i + 1) objs
  unfolding select
  select_out l i obj objs e = rw (select, e) refl

  mem-head : (i : ℕ) (l : List ℕ) → mem ℕ_discrete i (i ∷ l) ≡ true
  unfolding mem
  mem-head i l = ground arith

  proxiable_miss :
      (obj : V) (objs : List V) → non_proxiable obj ≡ true → proxiable (obj ∷ objs) ≡ proxiable objs
  unfolding proxiable
  proxiable_miss obj objs e = rw (proxiable, e) refl

  proxiable_hit :
      (obj : V) (objs : List V)
      → non_proxiable obj ≡ false
      → proxiable (obj ∷ objs) ≡ obj ∷ proxiable objs
  unfolding proxiable
  proxiable_hit obj objs e = rw (proxiable, e) refl

  -- The objects whose index was not collected are those that can be proxied.
  pub select-collect :
      (i : ℕ) (objs : List V)
      → select (indices_of (collect non_proxiable i objs)) i objs ≡ proxiable objs
  unfolding proxiable select
  select-collect i [] = refl
  select-collect i (obj ∷ objs) =
      let idx : List ℕ = indices_of (collect non_proxiable (i + 1) objs) in
      elim (Bool-cases (non_proxiable obj)) [
        | inl e ↦
            ap (λ c. select (indices_of c) i (obj ∷ objs)) (collect_hit i obj objs e)
            ∙ select_in (i ∷ idx) i obj objs (mem-head i idx)
            ∙ sym (
                select-agrees idx (i ∷ idx) (i + 1) objs
                  (λ j le. mem-cons_ne i j idx (omega (arith, le))))
            ∙ select-collect (i + 1) objs
            ∙ sym (proxiable_miss obj objs e)
        | inr e ↦
            ap (λ c. select (indices_of c) i (obj ∷ objs)) (collect_miss i obj objs e)
            ∙ select_out idx i obj objs (mem-collect i (i + 1) objs (omega arith))
            ∙ ap (λ l. obj ∷ l) (select-collect (i + 1) objs)
            ∙ sym (proxiable_hit obj objs e)
      ]

module _ {K V : Type 0} (non_proxiable : V → Bool) where
  insert_at-append :
      (pre made : List (Made K V)) (x : Made K V)
      → insert_at (length pre) x (pre ++ made) ≡ (pre ++ (x ∷ [])) ++ made
  unfolding insert_at
  insert_at-append [] made x = refl
  insert_at-append (y ∷ pre) made x = ap (λ l. y ∷ l) (insert_at-append pre made x)

  append_one :
      (pre made : List (Made K V)) (x : Made K V) → (pre ++ (x ∷ [])) ++ made ≡ pre ++ (x ∷ made)
  append_one [] made x = refl
  append_one (y ∷ pre) made x = ap (λ l. y ∷ l) (append_one pre made x)

  length-append_one :
      (pre : List (Made K V)) (x : Made K V) → length (pre ++ (x ∷ [])) ≡ length pre + 1
  length-append_one [] x = omega arith
  length-append_one (y ∷ pre) x = omega (arith, length-append_one pre x)

  append_nil : (pre : List (Made K V)) → pre ++ [] ≡ pre
  append_nil [] = refl
  append_nil (y ∷ pre) = ap (λ l. y ∷ l) (append_nil pre)

  in_place_plain :
      (obj : V) (objs : List V) (made : List (Made K V))
      → non_proxiable obj ≡ true
      → in_place non_proxiable (obj ∷ objs) made ≡ plain obj ∷ in_place non_proxiable objs made
  unfolding in_place
  in_place_plain obj objs [] e = rw (in_place, e) refl
  in_place_plain obj objs (p ∷ made) e = rw (in_place, e) refl

  in_place_made :
      (obj : V) (objs : List V) (p : Made K V) (made : List (Made K V))
      → non_proxiable obj ≡ false
      → in_place non_proxiable (obj ∷ objs) (p ∷ made) ≡ p ∷ in_place non_proxiable objs made
  unfolding in_place
  in_place_made obj objs p made e = rw (in_place, e) refl

  reinsert-cons :
      (n : ℕ) (obj : V) (rest : List (ℕ × V)) (pre made : List (Made K V))
      → n ≡ length pre
      → reinsert ((n, obj) ∷ rest) (pre ++ made) ≡ reinsert rest ((pre ++ (plain obj ∷ [])) ++ made)
  unfolding reinsert
  reinsert-cons n obj rest pre made at =
      ap (λ m. reinsert rest (insert_at m (plain obj) (pre ++ made))) at
      ∙ ap (reinsert rest) (insert_at-append pre made (plain obj))

  longer :
      (pre : List (Made K V)) (x : Made K V) (n : ℕ)
      → n ≡ length pre
      → n + 1 ≡ length (pre ++ (x ∷ []))
  longer pre x n at = omega (arith, at, length-append_one pre x)

  -- Putting back the collected objects, whose indices count from the length of what stands before,
  -- puts every object in its place.
  pub reinsert-collect :
      (pre made : List (Made K V)) (n : ℕ) (objs : List V)
      → n ≡ length pre
      → length made ≡ length (proxiable non_proxiable objs)
      → reinsert (collect non_proxiable n objs) (pre ++ made)
        ≡ pre ++ in_place non_proxiable objs made
  unfolding reinsert collect in_place
  reinsert-collect pre made n [] at same = refl
  reinsert-collect pre made n (obj ∷ objs) at same = elim (Bool-cases (non_proxiable obj)) [
    | inl e ↦
        ap (λ c. reinsert c (pre ++ made)) (collect_hit non_proxiable n obj objs e)
        ∙ reinsert-cons n obj (collect non_proxiable (n + 1) objs) pre made at
        ∙ reinsert-collect (pre ++ (plain obj ∷ [])) made (n + 1) objs (longer pre (plain obj) n at)
            (same ∙ ap length (proxiable_miss non_proxiable obj objs e))
        ∙ append_one pre (in_place non_proxiable objs made) (plain obj)
        ∙ ap (λ l. pre ++ l) (sym (in_place_plain obj objs made e))
    | inr e ↦
        ap (λ c. reinsert c (pre ++ made)) (collect_miss non_proxiable n obj objs e)
        ∙ go made (same ∙ ap length (proxiable_hit non_proxiable obj objs e)) e
            (λ pre' made' at' same'. reinsert-collect pre' made' (n + 1) objs at' same')
  ]
    where
      go :
          (made' : List (Made K V))
          → length made' ≡ suc (length (proxiable non_proxiable objs))
          → non_proxiable obj ≡ false
          → ((pre' made'' : List (Made K V))
              → n + 1 ≡ length pre'
              → length made'' ≡ length (proxiable non_proxiable objs)
              → reinsert (collect non_proxiable (n + 1) objs) (pre' ++ made'')
                ≡ pre' ++ in_place non_proxiable objs made'')
          → reinsert (collect non_proxiable (n + 1) objs) (pre ++ made')
            ≡ pre ++ in_place non_proxiable (obj ∷ objs) made'
      go [] same' e ih = absurd (omega (arith, same'))
      go (p ∷ made') same' e ih =
          ap (reinsert (collect non_proxiable (n + 1) objs)) (sym (append_one pre made' p))
          ∙ ih (pre ++ (p ∷ [])) made' (longer pre p n at) (omega (arith, same'))
          ∙ append_one pre (in_place non_proxiable objs made') p
          ∙ ap (λ l. pre ++ l) (sym (in_place_made obj objs p made' e))
