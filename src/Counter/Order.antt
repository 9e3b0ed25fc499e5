-- ===== src/Counter/Order.antt =====
-- What a sequence of increments answers.
use proxy_store.Prelude.{ℕ, zero, suc, ◌+◌, ◌≤◌, ◌<◌, ◌≡◌, sym, ◌∙◌, ap, some, dec_lt, arith}
use proxy_store.Prelude.Exec.{ok, err, value_error}
use proxy_store.Counter.{AtomicCounter, new_counter, increment}

-- the counter after `n` increments, whatever they answered
pub increments : ℕ → AtomicCounter → AtomicCounter
increments zero c = c
increments (suc n) c = increments n (increment c).1

increment_ok :
    (size value : ℕ)
    → value < size
    → increment (record { size = some size; value = value })
      ≡ (ok value, record { size = some size; value = value + 1 })
unfolding increment
increment_ok size value lt = ground arith

increment_full :
    (size value : ℕ)
    → size ≤ value
    → increment (record { size = some size; value = value })
      ≡ (err value_error, record { size = some size; value = value })
unfolding increment
increment_full size value le = ground arith

abbrev at : ℕ → ℕ → AtomicCounter
at size value = record { size = some size; value = value }

-- from a value on, for the number that `n` increments lead to
number_from :
    (size value n k : ℕ)
    → k ≡ value + n
    → (k < size → (increment (increments n (at size value))).0 ≡ ok k)
      × (size ≤ k → (increment (increments n (at size value))).0 ≡ err value_error)
unfolding increments
number_from size value zero k e =
    let same : k ≡ value = omega (arith, e) in
    (
      λ lt. ap (λ r. r.0) (increment_ok size value (omega (arith, lt, same))) ∙ ap ok (sym same),
      λ le. ap (λ r. r.0) (increment_full size value (omega (arith, le, same))),
    )
number_from size value (suc n) k e = elim (dec_lt value size) [
  | yes lt ↦ rw (increment_ok size value lt) (number_from size (value + 1) n k (omega (arith, e)))
  | no ge ↦
      let full : size ≤ value = omega (arith, ge) in
      (
        λ lt. absurd (omega (arith, lt, full, e)),
        λ le.
            ap (λ r. (increment (increments n r.1)).0) (increment_full size value full)
            ∙ stays n full,
      )
]
  where
    stays : (n : ℕ) → size ≤ value → (increment (increments n (at size value))).0 ≡ err value_error
    stays zero full = ap (λ r. r.0) (increment_full size value full)
    stays (suc n) full =
        ap (λ r. (increment (increments n r.1)).0) (increment_full size value full) ∙ stays n full

-- A counter of a given size answers 0, 1, 2, ... to its increments, each number once: increment
-- number `n`, counting from 0, answers `n` below the size, and raises a `ValueError` from there on.
pub increment-number :
    (size n : ℕ)
    → (n < size → (increment (increments n (new_counter (some size)))).0 ≡ ok n)
      × (size ≤ n → (increment (increments n (new_counter (some size)))).0 ≡ err value_error)
unfolding new_counter
increment-number size n = number_from size 0 n n (omega arith)
