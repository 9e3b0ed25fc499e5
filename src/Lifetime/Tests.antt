-- ===== src/Lifetime/Tests.antt =====
-- A world of stores as functions, and lifetimes over them.
use proxy_store.Prelude.{
  ℕ, ◌+◌, ◌≡◌, ◌≤◌, refl, arith, ite, ℕ_discrete, Option, none, some, Bool, true, false, List, [],
  ◌∷◌,
}
use proxy_store.Prelude.Sets.{mem}
use proxy_store.Prelude.Exec.{ok, err, runtime_error}
use proxy_store.Lifetime.{
  keys_of, Stores, Factory, store_factory, other_factory, add_key, add_proxy, update, evict_keys,
  close,
}
use proxy_store.Lifetime.Lease.{
  LeaseLifetime, at, within, new_lease, expiry_from, start_timer, extend, timer_callback,
}
use proxy_store.Lifetime.Lease
use proxy_store.Lifetime.Static
use proxy_store.Lifetime.Static.{StaticLifetime, new_static}
use proxy_store.Lifetime.Eviction.{Laws}
use proxy_store.Lifetime.Closing.{Add, add_keys, add_proxies, add_all, added}
use proxy_store.Lifetime.Registering
use proxy_store.Lifetime.Registering.{adding_key, adding_proxy}
use proxy_store.Lifetime.Ending.{static_close_evicts}
use proxy_store.Lifetime.Acts.{
  adding_proxies, Act, adding, extending, waiting, time_after, elapsed, wait, act, run,
  agreed_first, agreed_next, agreed,
}
use proxy_store.Lifetime.Leasing.{lease_not_early}
use proxy_store.Lifetime.Timer.{AllPast}
use proxy_store.Lifetime.Timing.{waits, Ends, lease-Ends}

abbrev World : Type 0
World = ℕ → ℕ → Option ℕ

abbrev stores : Stores ℕ ℕ World
stores = record {
  evict = λ s k w.
      (ok tt, λ s' k'. ite (ℕ_discrete s s') (ite (ℕ_discrete k k') none (w s' k')) (w s' k'));
  close = λ s w. (ok tt, w);
}

abbrev laws : Laws ℕ stores
laws = record {
  view = λ w s k. w s k;
  evict_ok = λ s k w. refl;
  evict_self = λ s k w. ground arith;
  evict_key = λ s other k j w ne. ground arith;
  evict_store = λ s other k j w ne. ground arith;
  close_ok = λ s w. refl;
  close_none = λ s other k w e. e;
}

abbrev world : World
world s k = some (s + k)

-- the second call has a proxy of another kind, so it adds nothing
abbrev additions : List (Add ℕ ℕ)
additions =
    add_keys (1 ∷ 2 ∷ 1 ∷ [])
    ∷ add_proxies (store_factory 0 3 ∷ other_factory ∷ [])
    ∷ add_proxies (store_factory 0 4 ∷ [])
    ∷ []

-- the second call has no store, and the third one stops at its second proxy
abbrev static_additions : List (Registering.Add ℕ ℕ)
static_additions =
    adding_key (some 5) (7 ∷ 8 ∷ [])
    ∷ adding_key none (9 ∷ [])
    ∷ adding_proxy (store_factory 0 3 ∷ other_factory ∷ store_factory 0 4 ∷ [])
    ∷ []

three_added : Registering.added ℕ_discrete ℕ_discrete 0 3 static_additions ≡ true
unfolding Registering.added Registering.adds Registering.proxied mem ℕ_discrete
three_added = refl

four_not_added : Registering.added ℕ_discrete ℕ_discrete 0 4 static_additions ≡ false
unfolding Registering.added Registering.adds Registering.proxied mem ℕ_discrete
four_not_added = refl

static_close_evicts_example :
    (after : StaticLifetime ℕ ℕ × World) × ((Static.close ℕ_discrete ℕ_discrete stores true
          (Registering.add_all ℕ_discrete ℕ_discrete stores static_additions (new_static, world))
        ≡ (ok tt, after))
      × ((after.1 0 3 ≡ none)
          × (((given : Option ℕ) (ks : List ℕ)
                → Static.add_key ℕ_discrete ℕ_discrete stores given ks after
                  ≡ (err runtime_error, after))
              × (((fs : List (Factory ℕ ℕ))
                    → Static.add_proxy ℕ_discrete ℕ_discrete stores fs after
                      ≡ (err runtime_error, after))
                  × ((again : Bool)
                      → Static.close ℕ_discrete ℕ_discrete stores again after ≡ (ok tt, after))))))
static_close_evicts_example =
    static_close_evicts ℕ_discrete ℕ_discrete stores laws static_additions true 0 3 world
      three_added

-- The lease of ten is extended by five while its timer waits, which then starts again.
abbrev acts : List (Act ℕ ℕ)
acts =
    adding_proxies (store_factory 0 1 ∷ [])
    ∷ waiting 6
    ∷ extending (within 5)
    ∷ waiting 6
    ∷ adding (2 ∷ [])
    ∷ []

still_running :
    (run ℕ_discrete stores 100 acts (new_lease 100 0 (within 10), world)).0.context.done ≡ false
unfolding keys_of add_proxy run act wait add_key extend timer_callback start_timer new_lease
    expiry_from ℕ_discrete
still_running = refl

lease_not_early_example :
    agreed (agreed_first 100 (within 10)) acts
    ≤ time_after {S = ℕ} {K = ℕ} (elapsed 100 acts) (waiting 9)
unfolding keys_of add_proxy run act wait add_key extend timer_callback start_timer new_lease
    expiry_from update mem close evict_keys Lease.close elapsed ℕ_discrete
lease_not_early_example =
    lease_not_early ℕ_discrete stores laws 100 0 (within 10) acts (waiting 9) world refl
      still_running refl

-- without the wait after the extension: the timer is still the first one, fires before the new
-- expiry, and is started again
abbrev earlier_acts : List (Act ℕ ℕ)
earlier_acts = adding (1 ∷ []) ∷ waiting 6 ∷ extending (within 5) ∷ []

runs_on :
    (run ℕ_discrete stores 100 earlier_acts (new_lease 100 0 (within 10), world)).0.context.done
    ≡ false
unfolding run act wait add_key extend timer_callback start_timer new_lease expiry_from ℕ_discrete
runs_on = refl

all_past :
    AllPast
      (elapsed {S = ℕ} {K = ℕ} (elapsed 100 earlier_acts) (waits (5 ∷ 7 ∷ [])))
      (agreed_first 100 (within 10))
      earlier_acts
unfolding AllPast elapsed waits agreed_first agreed_next
all_past = (omega arith, (omega arith, (omega arith, omega arith)))

lease-Ends_example :
    Ends ℕ_discrete stores laws
      (run ℕ_discrete stores 100 earlier_acts (new_lease 100 0 (within 10), world)).0.context.store
      (run ℕ_discrete stores 100 earlier_acts (new_lease 100 0 (within 10), world)).0.context.keys
      (run ℕ_discrete stores 100 earlier_acts (new_lease 100 0 (within 10), world)).1
      (run ℕ_discrete stores
        (elapsed 100 earlier_acts)
        (waits (5 ∷ 7 ∷ []))
        (run ℕ_discrete stores 100 earlier_acts (new_lease 100 0 (within 10), world)))
lease-Ends_example =
    lease-Ends ℕ_discrete stores laws 100 0 (within 10) earlier_acts 5 (7 ∷ []) world runs_on
      all_past
