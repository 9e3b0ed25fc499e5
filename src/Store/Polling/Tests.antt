-- ===== src/Store/Polling/Tests.antt =====
-- Times that are natural numbers, and a store that has its object after the third call of `get`, which the world counts.
use proxy_store.Prelude.{
  ℕ, suc, ◌+◌, ◌*◌, min, leb, ◌≡◌, refl, if◌then◌else◌, is_some, none, some, true,
}
use proxy_store.Prelude.Exec.{ok}
use proxy_store.Store.Polling.{
  Times, Polling, Source, next_interval, interval_after, waited_after, poll, resolve, polling_ends,
}

abbrev times : Times ℕ
times = record {
  zero_time = 0;
  add = λ a b. a + b;
  mul = λ a b. a * b;
  min = λ a b. min a b;
  le = λ a b. leb a b;
}

abbrev late : Source ℕ ℕ ℕ
late = record {
  get = λ calls. (ok (if leb 3 calls then some 7 else none), suc calls);
  evict = λ calls. (ok tt, calls);
  sleep = λ interval calls. calls;
}

abbrev polling : Polling ℕ
polling = record {
  interval = 2;
  backoff_factor = 3;
  interval_limit = some 4;
  timeout = some 9;
  evict = true;
}

polling_finds : (resolve times late 10 polling 0).0 ≡ some (ok 7)
unfolding resolve poll next_interval
polling_finds = refl

-- two and four and four
polling_ends_example : is_some (resolve times late 4 polling 0).0 ≡ true
unfolding waited_after interval_after
polling_ends_example = polling_ends times late polling 9 3 0 refl refl
