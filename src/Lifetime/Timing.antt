-- ===== src/Lifetime/Timing.antt =====
-- The end of a lease, when only time passes.
use mathlib.Core.Path.{subst}
use proxy_store.Prelude.{
  ℕ, ◌+◌, ◌-◌, ◌≤◌, leb, ◌≡◌, refl, sym, ◌∙◌, ap, arith, Bool-cases, inl, inr, if◌then◌else◌, none,
  some, true, false, List, [], ◌∷◌,
}
use proxy_store.Prelude.Sets.{mem}
use proxy_store.Lifetime.{Stores}
use proxy_store.Lifetime.Eviction.{Laws, evict_keys_here}
use proxy_store.Lifetime.Lease.{LeaseLifetime, Expiry, start_timer, new_lease}
use proxy_store.Lifetime.Acts.{Act, waiting, elapsed, wait, act, run, agreed_first, agreed}
use proxy_store.Lifetime.Leasing.{
  lease, wait_early, wait_expired, wait_restarted, run_expiry, new_lease_expiry,
}
use proxy_store.Lifetime.Timer.{
  AllPast, AllPast-first, AllPast-agreed, elapsed_le, HasTimer, run-HasTimer,
}

-- time that passes, with the lease looked after at the end of each span
unfoldable pub waits : {S K : Type 0} → List ℕ → List (Act S K)
waits [] = []
waits (span ∷ spans) = waiting span ∷ waits spans

module _ {S K W V : Type 0} (dec : Discrete K) (stores : Stores S K W) (laws : Laws V stores) where
  -- a lease has ended, and of its store exactly its keys are gone
  abbrev pub Ends : S → List K → W → (LeaseLifetime S K × W) → Type 0
  Ends store keys w (s, w') =
      (s.context.done ≡ true)
      × ((k : K) → laws.view w' store k ≡ (if mem dec k keys then none else laws.view w store k))

  run_ended :
      (now : ℕ) (spans : List ℕ) (store : S) (keys : List K) (expiry : ℕ) (w : W)
      → run dec stores now (waits spans) (lease dec stores laws store keys true expiry none, w)
        ≡ (lease dec stores laws store keys true expiry none, w)
  unfolding run waits act wait
  run_ended now [] store keys expiry w = refl
  run_ended now (span ∷ spans) store keys expiry w =
      run_ended (now + span) spans store keys expiry w

  module _ (store : S) (keys : List K) (expiry : ℕ) (w : W) where
    waits_expired-Ends :
        (now due span : ℕ) (spans : List ℕ)
        → leb due (now + span) ≡ true
        → leb expiry (now + span) ≡ true
        → Ends store keys w (
            run dec stores now
              (waits (span ∷ spans))
              (lease dec stores laws store keys false expiry (some due), w))
    unfolding run waits act
    waits_expired-Ends now due span spans fires expired =
        subst (Ends store keys w)
          (sym (
            ap (run dec stores (now + span) (waits spans)) (
              wait_expired dec stores laws (now + span) store keys expiry (some due) w fires
                expired)
            ∙ run_ended (now + span) spans store [] expiry _))
          (refl, λ k. evict_keys_here dec stores laws store keys k w)

    waits-Ends :
        (time now due span : ℕ) (spans : List ℕ)
        → due ≤ time
        → expiry ≤ time
        → elapsed {S = S} {K = K} now (waits (span ∷ spans)) ≡ time
        → Ends store keys w (
            run dec stores now
              (waits (span ∷ spans))
              (lease dec stores laws store keys false expiry (some due), w))
    unfolding run waits act elapsed
    waits-Ends time now due span [] le past last =
        waits_expired-Ends now due span [] (ground arith) (ground arith)
    waits-Ends time now due span (next ∷ spans) le past last =
        elim (Bool-cases (leb due (now + span))) [
          | inl fires ↦ elim (Bool-cases (leb expiry (now + span))) [
            | inl expired ↦ waits_expired-Ends now due span (next ∷ spans) fires expired
            | inr running ↦
                subst
                  (λ s. Ends store keys w (run dec stores (now + span) (waits (next ∷ spans)) s))
                  (sym (
                    wait_restarted dec stores laws (now + span) store keys expiry (some due) w fires
                      running))
                  (waits-Ends time (now + span) (now + span + (expiry - (now + span))) next spans
                    (omega (arith, past, running_le running)) past last)
          ]
          | inr early ↦
              subst (λ s. Ends store keys w (run dec stores (now + span) (waits (next ∷ spans)) s))
                (sym (wait_early dec stores laws (now + span) store keys expiry (some due) w early))
                (waits-Ends time (now + span) due next spans le past last)
        ]
      where
        running_le : leb expiry (now + span) ≡ false → now + span ≤ expiry
        running_le e = ground arith

  -- A lease over stores that keep their laws ends by itself: if it has not ended after any acts, and
  -- then only time passes, in any number of spans, at least one, at the end of each of which its
  -- timer fires if it is due, and in the end every expiry that was ever agreed on has come, then the
  -- lease has ended, and of its store exactly the keys that it had are gone.
  pub lease-Ends :
      (now : ℕ) (store : S) (expiry : Expiry) (l : List (Act S K)) (span : ℕ) (spans : List ℕ)
      (w : W)
      → (run dec stores now l (new_lease now store expiry, w)).0.context.done ≡ false
      → AllPast
          (elapsed {S = S} {K = K} (elapsed now l) (waits (span ∷ spans)))
          (agreed_first now expiry)
          l
      → Ends
          (run dec stores now l (new_lease now store expiry, w)).0.context.store
          (run dec stores now l (new_lease now store expiry, w)).0.context.keys
          (run dec stores now l (new_lease now store expiry, w)).1
          (run dec stores
            (elapsed now l)
            (waits (span ∷ spans))
            (run dec stores now l (new_lease now store expiry, w)))
  unfolding new_lease start_timer
  lease-Ends now store expiry l span spans w running past =
      let start : LeaseLifetime S K = new_lease now store expiry in
      let s : LeaseLifetime S K × W = run dec stores now l (start, w) in
      let time : ℕ = elapsed {S = S} {K = K} (elapsed now l) (waits (span ∷ spans)) in
      let first : start.expiry ≡ agreed_first now expiry =
        new_lease_expiry dec stores laws now store expiry in
      let set : HasTimer time s.0.timer =
        run-HasTimer dec stores laws time now l (start, w)
          (elapsed_le {S = S} {K = K} (elapsed now l) (waits (span ∷ spans)))
          (subst (λ n. AllPast time n l) (sym first) past)
          (
            now + (start.expiry - now),
            (
              refl,
              omega (
                arith,
                first,
                AllPast-first time (agreed_first now expiry) l past,
                elapsed_le now l,
                elapsed_le {S = S} {K = K} (elapsed now l) (waits (span ∷ spans)),
              ),
            ),
          )
          running in
      ends_from s running set (
        subst (λ n. n ≤ time)
          (sym (run_expiry dec stores laws now l (start, w) running ∙ ap (λ n. agreed n l) first))
          (AllPast-agreed time (agreed_first now expiry) l past))
    where
      ends_from :
          (s : LeaseLifetime S K × W)
          → s.0.context.done ≡ false
          → HasTimer (elapsed {S = S} {K = K} (elapsed now l) (waits (span ∷ spans))) s.0.timer
          → s.0.expiry ≤ elapsed {S = S} {K = K} (elapsed now l) (waits (span ∷ spans))
          → Ends s.0.context.store s.0.context.keys s.1
              (run dec stores (elapsed now l) (waits (span ∷ spans)) s)
      ends_from (s, w') e (due, (set, le)) past' =
          subst
            (λ d. Ends s.context.store s.context.keys w' (
              run dec stores (elapsed now l) (waits (span ∷ spans))
                (lease dec stores laws s.context.store s.context.keys d s.expiry s.timer, w')))
            (sym e)
            (subst
              (λ t. Ends s.context.store s.context.keys w' (
                run dec stores (elapsed now l) (waits (span ∷ spans))
                  (lease dec stores laws s.context.store s.context.keys false s.expiry t, w')))
              (sym set)
              (waits-Ends s.context.store s.context.keys s.expiry w'
                (elapsed {S = S} {K = K} (elapsed now l) (waits (span ∷ spans))) (elapsed now l) due
                span spans le past' refl))
