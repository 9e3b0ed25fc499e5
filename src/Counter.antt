-- ===== src/Counter.antt =====
-- `AtomicCounter` of proxystore/utils/counter.py; the lock makes every increment one step.
pub mod Order
mod Tests
use proxy_store.Prelude.{ℕ, ◌+◌, leb, Option, none, some, if◌then◌else◌, Bool, false}
use proxy_store.Prelude.Exec.{Result, ok, err, Exec, value_error}

pub record AtomicCounter : Type 0 where
  pub size : Option ℕ
  pub value : ℕ

-- `AtomicCounter.__init__`
unfoldable pub new_counter : Option ℕ → AtomicCounter
new_counter size = record { size = size; value = 0 }

-- `AtomicCounter.increment`
unfoldable pub increment : Exec AtomicCounter ℕ
increment c =
    if elim c.size [ none ↦ false | some size ↦ leb size c.value ]
    then (err value_error, c)
    else (ok c.value, record c { value = c.value + 1 })
