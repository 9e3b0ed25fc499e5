-- ===== src/Lifetime/Lease.antt =====
-- `LeaseLifetime` of proxystore/store/lifetimes.py. Times are natural numbers, and `now` is
-- `time.time()`.
use proxy_store.Prelude.{ℕ, ◌+◌, ◌-◌, leb, if◌then◌else◌, Option, none, some, Bool, false}
use proxy_store.Prelude.Exec.{ok, err, Exec, runtime_error}
use proxy_store.Lifetime.{Stores, ContextLifetime, new_lifetime}
use proxy_store.Lifetime

-- `timer` is the time for which a call of the callback is still to come
pub record LeaseLifetime (S K : Type 0) : Type 0 where
  pub context : ContextLifetime S K
  pub expiry : ℕ
  pub timer : Option ℕ

-- a `datetime`, or a `timedelta` or number of seconds
pub data Expiry : Type 0 where
  at : ℕ → Expiry
  within : ℕ → Expiry

-- the time since which a span of time counts, for the constructor now
unfoldable pub expiry_from : ℕ → Expiry → ℕ
expiry_from start (at time) = time
expiry_from start (within span) = start + span

-- `_start_timer`: the interval is `max(0, self._expiry - time.time())`
unfoldable pub start_timer : {S K : Type 0} → ℕ → LeaseLifetime S K → LeaseLifetime S K
start_timer now l = record l { timer = some (now + (l.expiry - now)) }

-- `LeaseLifetime.__init__`
unfoldable pub new_lease : {S K : Type 0} → ℕ → S → Expiry → LeaseLifetime S K
new_lease now store expiry =
    start_timer now
      (record { context = new_lifetime store; expiry = expiry_from now expiry; timer = none })

-- `extend`; the timer is left as it is
unfoldable pub extend : {S K W : Type 0} → Expiry → Exec (LeaseLifetime S K × W) (Unit {0})
extend expiry (l, w) =
    if l.context.done
    then (err runtime_error, (l, w))
    else (ok tt, (record l { expiry = expiry_from l.expiry expiry }, w))

module _ {S K W : Type 0} (dec : Discrete K) (stores : Stores S K W) where
  -- `close`
  unfoldable pub close : Bool → Exec (LeaseLifetime S K × W) (Unit {0})
  close close_stores (l, w) =
      let (r, s) = Lifetime.close dec stores close_stores (l.context, w) in
      (r, (record l { context = s.0; timer = none }, s.1))

  -- `_timer_callback`
  unfoldable pub timer_callback : ℕ → Exec (LeaseLifetime S K × W) (Unit {0})
  timer_callback now (l, w) =
      if leb l.expiry now then close false (l, w) else (ok tt, (start_timer now l, w))
