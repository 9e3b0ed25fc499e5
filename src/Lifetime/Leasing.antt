-- ===== src/Lifetime/Leasing.antt =====
-- The life of a lease, from its creation to its end.
use mathlib.Core.Path.{subst}
use proxy_store.Prelude.{
  ℕ, ◌+◌, ◌-◌, ◌≤◌, leb, leb→le, ◌≡◌, refl, ◌∙◌, ap, Bool-cases, inl, inr, Option, none, some, Bool,
  true, false, List, [], ◌∷◌,
}
use proxy_store.Lifetime.{
  Factory, keys_of, update, add_proxy, Stores, ContextLifetime, add_key, evict_keys,
}
use proxy_store.Lifetime
use proxy_store.Lifetime.Eviction.{Laws, evict_keys-ok}
use proxy_store.Lifetime.Lease.{
  LeaseLifetime, Expiry, at, within, expiry_from, start_timer, new_lease, extend, close,
  timer_callback,
}
use proxy_store.Prelude.Exec.{Result-cases}
use proxy_store.Lifetime.Acts.{
  adding_proxies, Act, adding, extending, closing, waiting, is_due, is_quiet, time_after, elapsed,
  wait, act, run, agreed_first, agreed_next, agreed,
}

module _ {S K W V : Type 0} (dec : Discrete K) (stores : Stores S K W) (laws : Laws V stores) where
  abbrev pub lease : S → List K → Bool → ℕ → Option ℕ → LeaseLifetime S K
  lease store keys done expiry timer = record {
    context = record { store = store; keys = keys; done = done };
    expiry = expiry;
    timer = timer;
  }

  pub closed_lease :
      (close_stores : Bool) (store : S) (keys : List K) (expiry : ℕ) (timer : Option ℕ) (w : W)
      → (close dec stores close_stores (lease store keys false expiry timer, w)).1.0
        ≡ lease store [] true expiry none
  unfolding close Lifetime.close
  closed_lease true store keys expiry timer w = rw (evict_keys-ok dec stores laws store keys w) refl
  closed_lease false store keys expiry timer w =
      rw (evict_keys-ok dec stores laws store keys w) refl

  module _ (now : ℕ) (store : S) (keys : List K) (expiry : ℕ) (timer : Option ℕ) (w : W) where
    pub wait_early :
        is_due now timer ≡ false
        → wait dec stores now (lease store keys false expiry timer, w)
          ≡ (lease store keys false expiry timer, w)
    unfolding wait
    wait_early early = rw (wait, early) refl

    -- the timer fires, and the lease has expired
    pub wait_expired :
        is_due now timer ≡ true
        → leb expiry now ≡ true
        → wait dec stores now (lease store keys false expiry timer, w)
          ≡ (lease store [] true expiry none, (evict_keys dec stores store keys w).1)
    unfolding wait timer_callback close Lifetime.close
    wait_expired due expired =
        rw
          (
            wait,
            due,
            timer_callback,
            expired,
            close,
            Lifetime.close,
            evict_keys-ok dec stores laws store keys w,
          )
          refl

    -- the timer fires too early, and is started again
    pub wait_restarted :
        is_due now timer ≡ true
        → leb expiry now ≡ false
        → wait dec stores now (lease store keys false expiry timer, w)
          ≡ (lease store keys false expiry (some (now + (expiry - now))), w)
    unfolding wait timer_callback start_timer
    wait_restarted due running = rw (wait, due, timer_callback, running) refl

    -- a lease that has ended stays so
    wait_done : (wait dec stores now (lease store keys true expiry timer, w)).0.context.done ≡ true
    unfolding wait timer_callback close Lifetime.close start_timer
    wait_done = elim (Bool-cases (is_due now timer)) [
      | inl due ↦ elim (Bool-cases (leb expiry now)) [
        | inl e ↦ rw (wait, due, timer_callback, e) refl
        | inr e ↦ rw (wait, due, timer_callback, e) refl
      ]
      | inr early ↦ rw (wait, early) refl
    ]

  -- an addition of proxies, which may raise
  pub proxies_added :
      (now : ℕ) (factories : List (Factory S K)) (store : S) (keys : List K) (expiry : ℕ)
      (timer : Option ℕ) (w : W)
      → (keys' : List K) × (act dec stores now
            (adding_proxies factories)
            (lease store keys false expiry timer, w)
          ≡ (lease store keys' false expiry timer, w))
  unfolding act add_proxy add_key
  proxies_added now factories store keys expiry timer w = elim (Result-cases (keys_of factories)) [
    | inl (ks, e) ↦ (update dec keys ks, rw (act, add_proxy, e, add_key) refl)
    | inr (raised, e) ↦ (keys, rw (act, add_proxy, e) refl)
  ]

  pub act_done :
      (now : ℕ) (a : Act S K) (store : S) (keys : List K) (done : Bool) (expiry : ℕ)
      (timer : Option ℕ) (w : W)
      → done ≡ true
      → (act dec stores now a (lease store keys done expiry timer, w)).0.context.done ≡ true
  unfolding act add_key add_proxy extend close Lifetime.close
  act_done now a store keys false expiry timer w e = cc
  act_done now (adding ks) store keys true expiry timer w e = refl
  act_done now (adding_proxies fs) store keys true expiry timer w e = refl
  act_done now (extending expiry') store keys true expiry timer w e = refl
  act_done now (closing close_stores) store keys true expiry timer w e = refl
  act_done now (waiting span) store keys true expiry timer w e =
      wait_done (now + span) store keys expiry timer w

  pub run_done :
      (now : ℕ) (l : List (Act S K)) (s : LeaseLifetime S K × W)
      → s.0.context.done ≡ true
      → (run dec stores now l s).0.context.done ≡ true
  unfolding run
  run_done now [] s e = e
  run_done now (a ∷ l) (s, w) e =
      run_done (time_after now a) l (act dec stores now a (s, w))
        (act_done now a s.context.store s.context.keys s.context.done s.expiry s.timer w e)

  -- an act after which the lease goes on
  pub act_expiry :
      (now : ℕ) (a : Act S K) (store : S) (keys : List K) (done : Bool) (expiry : ℕ)
      (timer : Option ℕ) (w : W)
      → (act dec stores now a (lease store keys done expiry timer, w)).0.context.done ≡ false
      → (act dec stores now a (lease store keys done expiry timer, w)).0.expiry
        ≡ agreed_next expiry a
  unfolding act add_key extend expiry_from agreed_next
  act_expiry now a store keys true expiry timer w e =
      absurd (cc (act_done now a store keys true expiry timer w refl, e))
  act_expiry now (adding ks) store keys false expiry timer w e = refl
  act_expiry now (adding_proxies fs) store keys false expiry timer w e =
      ap (λ s. s.0.expiry) (proxies_added now fs store keys expiry timer w).1
  act_expiry now (extending (at time)) store keys false expiry timer w e = refl
  act_expiry now (extending (within span)) store keys false expiry timer w e = refl
  act_expiry now (closing c) store keys false expiry timer w e =
      ap (λ s. s.expiry) (closed_lease c store keys expiry timer w)
  act_expiry now (waiting span) store keys false expiry timer w e =
      elim (Bool-cases (is_due (now + span) timer)) [
        | inl due ↦ elim (Bool-cases (leb expiry (now + span))) [
          | inl expired ↦
              ap (λ s. s.0.expiry) (wait_expired (now + span) store keys expiry timer w due expired)
          | inr running ↦
              ap (λ s. s.0.expiry)
                (wait_restarted (now + span) store keys expiry timer w due running)
        ]
        | inr early ↦ ap (λ s. s.0.expiry) (wait_early (now + span) store keys expiry timer w early)
      ]

  pub run_expiry :
      (now : ℕ) (l : List (Act S K)) (s : LeaseLifetime S K × W)
      → (run dec stores now l s).0.context.done ≡ false
      → (run dec stores now l s).0.expiry ≡ agreed s.0.expiry l
  unfolding run agreed
  run_expiry now [] s e = refl
  run_expiry now (a ∷ l) (s, w) e = elim (Bool-cases (act dec stores now a (s, w)).0.context.done) [
    | inl ended ↦ absurd (cc (run_done (time_after now a) l (act dec stores now a (s, w)) ended, e))
    | inr running ↦
        run_expiry (time_after now a) l (act dec stores now a (s, w)) e
        ∙ ap (λ n. agreed n l)
            (act_expiry now a s.context.store s.context.keys s.context.done s.expiry s.timer w
              running)
  ]

  -- only a wait ends a lease that nobody closes, and only when it has expired
  act_expired :
      (now : ℕ) (a : Act S K) (store : S) (keys : List K) (done : Bool) (expiry : ℕ)
      (timer : Option ℕ) (w : W)
      → is_quiet a ≡ true
      → done ≡ false
      → (act dec stores now a (lease store keys done expiry timer, w)).0.context.done ≡ true
      → expiry ≤ time_after now a
  unfolding act add_key extend
  act_expired now a store keys true expiry timer w quiet running e = cc
  act_expired now (adding ks) store keys false expiry timer w quiet running e = cc
  act_expired now (adding_proxies fs) store keys false expiry timer w quiet running e =
      absurd (cc (ap (λ s. s.0.context.done) (proxies_added now fs store keys expiry timer w).1, e))
  act_expired now (extending expiry') store keys false expiry timer w quiet running e = cc
  act_expired now (closing c) store keys false expiry timer w quiet running e = cc
  act_expired now (waiting span) store keys false expiry timer w quiet running e =
      elim (Bool-cases (is_due (now + span) timer)) [
        | inl due ↦ elim (Bool-cases (leb expiry (now + span))) [
          | inl expired ↦ leb→le expiry (now + span) expired
          | inr early ↦ absurd (
              cc (
                ap (λ s. s.0.context.done)
                    (wait_restarted (now + span) store keys expiry timer w due early),
                e,
              ))
        ]
        | inr early ↦ absurd (
            cc (
              ap (λ s. s.0.context.done) (wait_early (now + span) store keys expiry timer w early),
              e,
            ))
      ]

  pub new_lease_expiry :
      (now : ℕ) (store : S) (expiry : Expiry)
      → (new_lease {K = K} now store expiry).expiry ≡ agreed_first now expiry
  unfolding new_lease start_timer expiry_from agreed_first
  new_lease_expiry now store (at time) = refl
  new_lease_expiry now store (within span) = refl

  -- A lease over stores that keep their laws does not end early: if it has not ended after any acts,
  -- and then an act other than a call of `close` ends it, then at that time the expiry has come that
  -- was agreed on, the first one with all the extensions since.
  pub lease_not_early :
      (now : ℕ) (store : S) (expiry : Expiry) (l : List (Act S K)) (a : Act S K) (w : W)
      → is_quiet a ≡ true
      → (run dec stores now l (new_lease now store expiry, w)).0.context.done ≡ false
      → (act dec stores
          (elapsed now l)
          a
          (run dec stores now l (new_lease now store expiry, w))).0.context.done
        ≡ true
      → agreed (agreed_first now expiry) l ≤ time_after (elapsed now l) a
  lease_not_early now store expiry l a w quiet running ended =
      let s : LeaseLifetime S K × W = run dec stores now l (new_lease now store expiry, w) in
      subst (λ n. n ≤ time_after (elapsed now l) a)
        (run_expiry now l (new_lease now store expiry, w) running
          ∙ ap (λ n. agreed n l) (new_lease_expiry now store expiry))
        (act_expired (elapsed now l) a s.0.context.store s.0.context.keys s.0.context.done
          s.0.expiry s.0.timer s.1 quiet running ended)
