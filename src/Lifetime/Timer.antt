-- ===== src/Lifetime/Timer.antt =====
-- The timer of a lease in the course of what happens to the lease.
use mathlib.Core.Path.{subst}
use proxy_store.Prelude.{
  ℕ, ◌+◌, ◌-◌, ◌≤◌, leb, ◌≡◌, refl, sym, ap, arith, Bool-cases, inl, inr, Option, some, Bool, true,
  false, List, [], ◌∷◌,
}
use proxy_store.Lifetime.{Stores, add_key}
use proxy_store.Lifetime.Eviction.{Laws}
use proxy_store.Lifetime.Lease.{LeaseLifetime, extend}
use proxy_store.Lifetime.Acts.{
  adding_proxies, Act, adding, extending, closing, waiting, is_due, time_after, elapsed, act, run,
  agreed_next, agreed,
}
use proxy_store.Lifetime.Leasing.{
  proxies_added, lease, wait_early, wait_expired, wait_restarted, act_done, act_expiry, run_done,
  closed_lease,
}

-- every expiry that is agreed on in the course of the acts has come
unfoldable pub AllPast : {S K : Type 0} → ℕ → ℕ → List (Act S K) → Type 0
AllPast time current [] = current ≤ time
AllPast time current (a ∷ l) = (current ≤ time) × AllPast time (agreed_next current a) l

pub AllPast-first :
    {S K : Type 0} (time current : ℕ) (l : List (Act S K)) → AllPast time current l → current ≤ time
unfolding AllPast
AllPast-first time current [] h = h
AllPast-first time current (a ∷ l) h = h.0

pub AllPast-agreed :
    {S K : Type 0} (time current : ℕ) (l : List (Act S K))
    → AllPast time current l
    → agreed current l ≤ time
unfolding AllPast agreed
AllPast-agreed time current [] h = h
AllPast-agreed time current (a ∷ l) h = AllPast-agreed time (agreed_next current a) l h.1

time_after_le : {S K : Type 0} (now : ℕ) (a : Act S K) → now ≤ time_after now a
time_after_le now (waiting span) = omega arith
time_after_le now (adding _) = omega arith
time_after_le now (adding_proxies _) = omega arith
time_after_le now (extending _) = omega arith
time_after_le now (closing _) = omega arith

pub elapsed_le : {S K : Type 0} (now : ℕ) (l : List (Act S K)) → now ≤ elapsed now l
unfolding elapsed
elapsed_le now [] = omega arith
elapsed_le now (a ∷ l) = omega (arith, time_after_le now a, elapsed_le (time_after now a) l)

-- a timer that is set, and due at a time
abbrev pub HasTimer : ℕ → Option ℕ → Type 0
HasTimer time timer = (due : ℕ) × ((timer ≡ some due) × (due ≤ time))

module _ {S K W V : Type 0} (dec : Discrete K) (stores : Stores S K W) (laws : Laws V stores) where
  act-HasTimer :
      (time now : ℕ) (a : Act S K) (store : S) (keys : List K) (done : Bool) (expiry : ℕ)
      (timer : Option ℕ) (w : W)
      → time_after now a ≤ time
      → expiry ≤ time
      → HasTimer time timer
      → (act dec stores now a
          (lease dec stores laws store keys done expiry timer, w)).0.context.done
        ≡ false
      → HasTimer time
          (act dec stores now a (lease dec stores laws store keys done expiry timer, w)).0.timer
  unfolding act add_key extend
  act-HasTimer time now a store keys true expiry timer w le past set e =
      absurd (cc (act_done dec stores laws now a store keys true expiry timer w refl, e))
  act-HasTimer time now (adding ks) store keys false expiry timer w le past set e = set
  act-HasTimer time now (adding_proxies fs) store keys false expiry timer w le past set e =
      subst (λ s. HasTimer time s.0.timer)
        (sym (proxies_added dec stores laws now fs store keys expiry timer w).1) set
  act-HasTimer time now (extending expiry') store keys false expiry timer w le past set e = set
  act-HasTimer time now (closing c) store keys false expiry timer w le past set e =
      absurd (
        cc (ap (λ s. s.context.done) (closed_lease dec stores laws c store keys expiry timer w), e))
  act-HasTimer time now (waiting span) store keys false expiry timer w le past set e =
      elim (Bool-cases (is_due (now + span) timer)) [
        | inl due ↦ elim (Bool-cases (leb expiry (now + span))) [
          | inl expired ↦ absurd (
              cc (
                ap (λ s. s.0.context.done)
                    (wait_expired dec stores laws (now + span) store keys expiry timer w due
                      expired),
                e,
              ))
          | inr running ↦ (
            now + span + (expiry - (now + span)),
            (
              ap (λ s. s.0.timer)
                  (wait_restarted dec stores laws (now + span) store keys expiry timer w due
                    running),
              omega arith,
            ),
          )
        ]
        | inr early ↦
            subst (λ s. HasTimer time s.0.timer)
              (sym (wait_early dec stores laws (now + span) store keys expiry timer w early)) set
      ]

  pub run-HasTimer :
      (time now : ℕ) (l : List (Act S K)) (s : LeaseLifetime S K × W)
      → elapsed now l ≤ time
      → AllPast time s.0.expiry l
      → HasTimer time s.0.timer
      → (run dec stores now l s).0.context.done ≡ false
      → HasTimer time (run dec stores now l s).0.timer
  unfolding run elapsed AllPast
  run-HasTimer time now [] s le past set e = set
  run-HasTimer time now (a ∷ l) (s, w) le past set e =
      let next : LeaseLifetime S K × W = act dec stores now a (s, w) in
      elim (Bool-cases next.0.context.done) [
        | inl ended ↦ absurd (cc (run_done dec stores laws (time_after now a) l next ended, e))
        | inr running ↦
            run-HasTimer time (time_after now a) l next le
              (subst (λ n. AllPast time n l)
                (sym (
                  act_expiry dec stores laws now a s.context.store s.context.keys s.context.done
                    s.expiry s.timer w running))
                past.1)
              (act-HasTimer time now a s.context.store s.context.keys s.context.done s.expiry
                s.timer w (omega (arith, le, elapsed_le (time_after now a) l)) past.0 set running)
              e
      ]
