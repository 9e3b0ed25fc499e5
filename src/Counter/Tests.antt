-- ===== src/Counter/Tests.antt =====
-- A counter of size 3.
use proxy_store.Prelude.{◌≡◌, ◌≤◌, ◌<◌, some}
use proxy_store.Prelude.Exec.{ok, err, value_error}
use proxy_store.Counter.{new_counter, increment}
use proxy_store.Counter.Order.{increments, increment-number}

increment-number_example :
    (2 < 3 → (increment (increments 2 (new_counter (some 3)))).0 ≡ ok 2)
    × (3 ≤ 2 → (increment (increments 2 (new_counter (some 3)))).0 ≡ err value_error)
increment-number_example = increment-number 3 2
