-- ===== src/Store/Polling.antt =====
-- `PollingStoreFactory` of proxystore/store/factory.py. The arithmetic of its times, which are
-- floats, is a parameter.
mod Tests
use proxy_store.Prelude.{
  ℕ, zero, suc, ◌+◌, ◌<◌, ◌≤◌, ◌≡◌, refl, sym, ◌∙◌, ap, arith, Bool-cases, Option-cases, ℕ_discrete,
  inl, inr, if◌then◌else◌, is_some, Option, none, some, Bool, true, false,
}
use proxy_store.Prelude.Exec.{
  Result, ok, err, Exec, proxy_resolve_missing_key, map_ok, Result-cases,
}

-- what the code does with floats: `0.0`, `+`, `*`, `min` and `<=`
pub record Times (T : Type 0) : Type 0 where
  pub zero_time : T
  pub add : T → T → T
  pub mul : T → T → T
  pub min : T → T → T
  pub le : T → T → Bool

-- the options of the factory
pub record Polling (T : Type 0) : Type 0 where
  pub interval : T
  pub backoff_factor : T
  pub interval_limit : Option T
  pub timeout : Option T
  pub evict : Bool

-- the store with the key and the deserializer of the factory, and `time.sleep`, over the world `W`
pub record Source (T V W : Type 0) : Type 0 where
  pub get : Exec W (Option V)
  pub evict : Exec W (Unit {0})
  pub sleep : T → W → W

module _ {T : Type 0} (times : Times T) where
  unfoldable pub next_interval : Polling T → T → T
  next_interval p interval =
      let new_interval = times.mul interval p.backoff_factor in
      elim p.interval_limit [ none ↦ new_interval | some limit ↦ times.min new_interval limit ]

  abbrev pub is_over : Option T → T → Bool
  is_over none waited = false
  is_over (some limit) waited = times.le limit waited

  -- The schedule of the options: the interval that is slept after a number of sleeps, and the time
  -- that they add up to.
  unfoldable pub interval_after : Polling T → ℕ → T
  interval_after p zero = p.interval
  interval_after p (suc n) =
      let longer = times.mul (interval_after p n) p.backoff_factor in
      elim p.interval_limit [ none ↦ longer | some limit ↦ times.min longer limit ]

  unfoldable pub waited_after : Polling T → ℕ → T
  waited_after p zero = times.zero_time
  waited_after p (suc n) = times.add (waited_after p n) (interval_after p n)

module _ {T V W : Type 0} (times : Times T) (source : Source T V W) where
  -- the loop of `resolve`; `none` if the fuel ran out
  unfoldable pub poll : Polling T → ℕ → T → T → W → Option (Result (Option V)) × W
  poll p zero interval waited w = (none, w)
  poll p (suc fuel) interval waited w =
      let (r, w') = source.get w in
      let rest =
        poll p fuel (next_interval times p interval) (times.add waited interval)
          (source.sleep interval w') in
      elim r [
        | err e ↦ (some (err e), w')
        | ok obj ↦ elim obj [
          | some v ↦ (some (ok (some v)), w')
          | none ↦ if is_over times p.timeout waited then (some (ok none), w') else rest
        ]
      ]

  -- `PollingStoreFactory.resolve`
  unfoldable pub resolve : ℕ → Polling T → W → Option (Result V) × W
  resolve fuel p w =
      let (polled, w') = poll p fuel p.interval times.zero_time w in
      elim polled [
        | none ↦ (none, w')
        | some r ↦ elim r [
          | err e ↦ (some (err e), w')
          | ok obj ↦ elim obj [
            | none ↦ (some (err proxy_resolve_missing_key), w')
            | some v ↦
                if p.evict
                then (let (q, w'') = source.evict w' in (some (map_ok (λ _. v) q), w''))
                else (some (ok v), w')
          ]
        ]
      ]

  poll-ends :
      (p : Polling T) (limit : T) (n fuel i : ℕ) (w : W)
      → p.timeout ≡ some limit
      → times.le limit (waited_after times p n) ≡ true
      → i ≤ n
      → n < i + fuel
      → is_some (poll p fuel (interval_after times p i) (waited_after times p i) w).0 ≡ true
  unfolding poll next_interval interval_after waited_after
  poll-ends p limit n zero i w e reached le enough = absurd (omega arith)
  poll-ends p limit n (suc fuel) i w e reached le enough = elim (Result-cases (source.get w).0) [
    | inr (raised, fails) ↦ rw (poll, fails) refl
    | inl (obj, answers) ↦ elim (Option-cases obj) [
      | inr (v, there) ↦ rw (poll, answers, there) refl
      | inl absent ↦ elim (Bool-cases (times.le limit (waited_after times p i))) [
        | inl over ↦ rw (poll, answers, absent, e, over) refl
        | inr early ↦ elim (ℕ_discrete i n) [
          | yes last ↦
              absurd (cc (ap (λ m. times.le limit (waited_after times p m)) last, early, reached))
          | no other ↦
              rw (poll, answers, absent, e, early)
                (poll-ends p limit n fuel (suc i) _ e reached (omega arith) (omega arith))
        ]
      ]
    ]
  ]

  -- With a timeout the polling ends as soon as its schedule reaches the timeout, whatever the store
  -- answers, however the sleeping changes the world and whatever the arithmetic of the times is: if
  -- the intervals of the first `n` sleeps, each the one before times the factor and cut at the
  -- interval limit, add up to the timeout or more, then `resolve` returns or raises after at most
  -- `n + 1` calls of `get`.
  pub polling_ends :
      (p : Polling T) (limit : T) (n : ℕ) (w : W)
      → p.timeout ≡ some limit
      → times.le limit (waited_after times p n) ≡ true
      → is_some (resolve (suc n) p w).0 ≡ true
  unfolding resolve interval_after waited_after
  polling_ends p limit n w e reached =
      let ends : is_some (poll p (suc n) p.interval times.zero_time w).0 ≡ true =
        poll-ends p limit n (suc n) 0 w e reached (omega arith) (omega arith) in
      elim (Option-cases (poll p (suc n) p.interval times.zero_time w).0) [
        | inl out ↦ ground (arith, out, ends)
        | inr (r, done) ↦ elim (Result-cases r) [
          | inr (raised, fails) ↦ rw (resolve, done, fails) refl
          | inl (obj, answers) ↦ elim (Option-cases obj) [
            | inl absent ↦ rw (resolve, done, answers, absent) refl
            | inr (v, there) ↦ elim (Bool-cases p.evict) [
              | inl evicts ↦ rw (resolve, done, answers, there, evicts) refl
              | inr keeps ↦ rw (resolve, done, answers, there, keeps) refl
            ]
          ]
        ]
      ]
