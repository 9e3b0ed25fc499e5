-- ===== src/Lifetime/Acts.antt =====
-- What happens to a lease: calls, time that passes, and the expiry that is agreed on.
use proxy_store.Prelude.{
  ℕ, ◌+◌, leb, if◌then◌else◌, Option, none, some, Bool, true, false, List, [], ◌∷◌,
}
use proxy_store.Lifetime.{Stores, Factory, add_key, add_proxy}
use proxy_store.Lifetime.Lease.{LeaseLifetime, Expiry, at, within, extend, close, timer_callback}

-- what happens to a lease: calls, and time that passes
pub data Act (S K : Type 0) : Type 0 where
  adding : List K → Act S K
  adding_proxies : List (Factory S K) → Act S K
  extending : Expiry → Act S K
  closing : Bool → Act S K
  waiting : ℕ → Act S K

-- a timer that is due
abbrev pub is_due : ℕ → Option ℕ → Bool
is_due now none = false
is_due now (some time) = leb time now

abbrev pub is_quiet : {S K : Type 0} → Act S K → Bool
is_quiet (closing _) = false
is_quiet (adding _) = true
is_quiet (adding_proxies _) = true
is_quiet (extending _) = true
is_quiet (waiting _) = true

-- the time after an act
abbrev pub time_after : {S K : Type 0} → ℕ → Act S K → ℕ
time_after now (waiting span) = now + span
time_after now (adding _) = now
time_after now (adding_proxies _) = now
time_after now (extending _) = now
time_after now (closing _) = now

unfoldable pub elapsed : {S K : Type 0} → ℕ → List (Act S K) → ℕ
elapsed now [] = now
elapsed now (a ∷ l) = elapsed (time_after now a) l

module _ {S K W : Type 0} (dec : Discrete K) (stores : Stores S K W) where
  -- a timer that is due fires once: it is gone, and the callback runs
  unfoldable pub wait : ℕ → (LeaseLifetime S K × W) → LeaseLifetime S K × W
  wait now (l, w) =
      if is_due now l.timer
      then (timer_callback dec stores now (record l { timer = none }, w)).1
      else (l, w)

  -- an act at a time, with the state that it leaves
  unfoldable pub act : ℕ → Act S K → (LeaseLifetime S K × W) → LeaseLifetime S K × W
  act now (adding ks) (l, w) =
      let s = (add_key dec stores ks (l.context, w)).1 in (record l { context = s.0 }, s.1)
  act now (adding_proxies factories) (l, w) =
      let s = (add_proxy dec stores factories (l.context, w)).1 in (record l { context = s.0 }, s.1)
  act now (extending expiry) s = (extend expiry s).1
  act now (closing close_stores) s = (close dec stores close_stores s).1
  act now (waiting span) s = wait (now + span) s

  unfoldable pub run : ℕ → List (Act S K) → (LeaseLifetime S K × W) → LeaseLifetime S K × W
  run now [] s = s
  run now (a ∷ l) s = run (time_after now a) l (act now a s)

-- The expiry that was agreed on: in the beginning, after an act on a lease that goes on, and after
-- several.
unfoldable pub agreed_first : ℕ → Expiry → ℕ
agreed_first now (at time) = time
agreed_first now (within span) = now + span

unfoldable pub agreed_next : {S K : Type 0} → ℕ → Act S K → ℕ
agreed_next current (extending (at time)) = time
agreed_next current (extending (within span)) = current + span
agreed_next current (adding _) = current
agreed_next current (adding_proxies _) = current
agreed_next current (closing _) = current
agreed_next current (waiting _) = current

unfoldable pub agreed : {S K : Type 0} → ℕ → List (Act S K) → ℕ
agreed current [] = current
agreed current (a ∷ l) = agreed (agreed_next current a) l
