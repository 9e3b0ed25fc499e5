-- ===== src/Stream/Reading.antt =====
-- What a consumer reads: the events that its filter keeps, in order, up to the end of the stream.
use mathlib.Core.Path.{subst}
use proxy_store.Prelude.{
  ℕ, zero, suc, ◌<◌, ◌≡◌, refl, sym, arith, Bool-cases, inl, inr, if◌then◌else◌, Option, none, some,
  Bool, true, false, List, [], ◌∷◌, length, Option-cases, All,
}
use proxy_store.Prelude.Dict
use proxy_store.Prelude.Dict.{insert}
use proxy_store.Prelude.Exec.{Result, ok, err, stop_iteration}
use proxy_store.Stream.Events.{Key, Event, end_of_stream, new_object, new_object_key}
use proxy_store.Stream.Consumer.{
  StreamConsumer, Access, is_end, is_filtered, remaining, get_store, drop_event,
  next_event_with_filter,
}
use proxy_store.Stream.Popping.{
  Upcoming, Popped, remaining-Upcoming, next_event-none, next_event-some,
}

module _ {T V D C : Type 0} (filter : D → Bool) where
  -- the first event that the filter keeps, and what comes after it
  unfoldable pub select : List (Event T V D C) → Option (Event T V D C × List (Event T V D C))
  select [] = none
  select (e ∷ es) =
      let rest = select es in
      if is_end e then none else if is_filtered filter e then rest else some (e, es)

  -- the objects that the filter keeps, up to the end
  unfoldable pub wanted : List (Event T V D C) → List (D × V)
  wanted [] = []
  wanted (end_of_stream _ ∷ es) = []
  wanted (new_object _ obj metadata ∷ es) =
      let rest = wanted es in if filter metadata then rest else (metadata, obj) ∷ rest
  wanted (new_object_key _ _ _ _ _ _ ∷ es) = wanted es

abbrev pub HasObject : {T V D C : Type 0} → Event T V D C → Type 0
HasObject (end_of_stream _) = Unit
HasObject (new_object _ _ _) = Unit
HasObject (new_object_key _ _ _ _ _ _) = ⊥

-- the registry finds or makes every store, and an eviction does not raise
pub record Answers {T V D C S W : Type 0} (access : Access T V D C S W) : Type 0 where
  pub create_ok : (config : C) (w : W) → (s : S) × ((access.get_or_create config w).0 ≡ ok s)
  pub evict_ok : (s : S) (k : Key T) (w : W) → (access.evict s k w).0 ≡ ok tt

module _ {T V D C S W : Type 0} (dec : Discrete T) (access : Access T V D C S W) where
  abbrev pub Reads :
      Option (Event T V D C × List (Event T V D C))
      → (Result (Option (Event T V D C)) × (StreamConsumer T V D C S × W))
      → Type 0
  Reads none r = r.0 ≡ err stop_iteration
  Reads (some (event, rest)) r = (r.0 ≡ ok (some event)) × Upcoming r.1.0 rest

  -- dropping an event reads nothing
  abbrev pub Drops : Event T V D C → (StreamConsumer T V D C S × W) → List (Event T V D C) → Type 0
  Drops event s events =
      ((drop_event dec access event s).0 ≡ ok tt)
      × Upcoming (drop_event dec access event s).1.0 events

  stored-Upcoming :
      (c : StreamConsumer T V D C S) (topic : T) (store : S) (events : List (Event T V D C))
      → Upcoming c events
      → Upcoming (record c { stores = insert dec topic store c.stores }) events
  stored-Upcoming c topic store events u = record {
    front = u.front;
    current = u.current;
    split = u.split;
    full = u.full;
  }

  get_store-Got :
      (answers : Answers access) (topic : T) (config : C) (s : StreamConsumer T V D C S × W)
      (events : List (Event T V D C))
      → Upcoming s.0 events
      → (store : S) × (((get_store dec access topic config s).0 ≡ ok store)
          × Upcoming (get_store dec access topic config s).1.0 events)
  unfolding get_store
  get_store-Got answers topic config (c, w) events u =
      elim (Option-cases (Dict.get dec topic c.stores)) [
        | inl unknown ↦
            let (store, made) = answers.create_ok config w in
            (store, rw (get_store, unknown, made) (refl, stored-Upcoming c topic store events u))
        | inr (store, known) ↦ (store, rw (get_store, known) (refl, u))
      ]

  drop_event-Drops :
      (answers : Answers access) (event : Event T V D C) (s : StreamConsumer T V D C S × W)
      (events : List (Event T V D C))
      → Upcoming s.0 events
      → Drops event s events
  unfolding drop_event
  drop_event-Drops answers (end_of_stream _) s events u = (refl, u)
  drop_event-Drops answers (new_object _ _ _) s events u = (refl, u)
  drop_event-Drops answers (new_object_key topic key_type raw_key false metadata config) s events
        u =
      (refl, u)
  drop_event-Drops answers (new_object_key topic key_type raw_key true metadata config) s events u =
      let g = get_store-Got answers topic config s events u in
      rw (g.1.0) (answers.evict_ok g.0 _ _, g.1.1)

  pub object-Drops :
      (event : Event T V D C) (s : StreamConsumer T V D C S × W) (events : List (Event T V D C))
      → HasObject event
      → Upcoming s.0 events
      → Drops event s events
  unfolding drop_event
  object-Drops (end_of_stream _) s events has u = (refl, u)
  object-Drops (new_object _ _ _) s events has u = (refl, u)
  object-Drops (new_object_key _ _ _ _ _ _) s events has u = absurd has

  abbrev pub Droppable : Event T V D C → Type 0
  Droppable event =
      (s : StreamConsumer T V D C S × W) (rest : List (Event T V D C))
      → Upcoming s.0 rest
      → Drops event s rest

  -- a round of the loop, when it has an event
  abbrev round :
      ℕ
      → (Result (Event T V D C) × (StreamConsumer T V D C S × W))
      → Result (Option (Event T V D C)) × (StreamConsumer T V D C S × W)
  round fuel r = elim r.0 [
    | err e ↦ (err e, r.1)
    | ok event ↦ elim (is_filtered access.filter event) [
      | false ↦ (ok (some event), r.1)
      | true ↦
          let (q, s'') = drop_event dec access event r.1 in
          elim q [ err e ↦ (err e, s'') | ok _ ↦ next_event_with_filter dec access fuel s'' ]
    ]
  ]

  -- the loop, when what is dropped is dropped without a raise
  pub filter_loop :
      (fuel : ℕ) (s : StreamConsumer T V D C S × W) (events : List (Event T V D C))
      → All Droppable events
      → length events < fuel
      → Upcoming s.0 events
      → Reads (select access.filter events) (next_event_with_filter dec access fuel s)
  unfolding next_event_with_filter select
  filter_loop zero s events droppable enough u = ground arith
  filter_loop (suc fuel) (c, w) [] droppable enough u =
      rw (next_event_with_filter, next_event-none dec access c w u) refl
  filter_loop (suc fuel) (c, w) (e ∷ es) (here, droppable) enough u =
      let p : Popped dec access c w e es = next_event-some dec access c w e es u in
      subst (λ r. Reads (select access.filter (e ∷ es)) (round fuel r)) (sym p.result)
        (elim (Bool-cases (is_end e)) [
          | inl stop ↦ rw (select, stop) refl
          | inr more ↦ elim (Bool-cases (is_filtered access.filter e)) [
            | inl dropped ↦
                rw (select, more, round, dropped, (here (p.after, w) es p.upcoming).0)
                  (filter_loop fuel _ es droppable (omega (arith, enough))
                    (here (p.after, w) es p.upcoming).1)
            | inr kept ↦ rw (select, more, round, kept) (refl, p.upcoming)
          ]
        ])

  Droppable-All : (answers : Answers access) (events : List (Event T V D C)) → All Droppable events
  Droppable-All answers [] = tt
  Droppable-All answers (e ∷ es) =
      (λ s rest u. drop_event-Drops answers e s rest u, Droppable-All answers es)

  -- If no batch that comes is empty, the stores can be found or made and evictions do not raise, then
  -- with fuel for every event that is left the loop of the filter returns: it finds the first event
  -- that the filter keeps and leaves the events after it to be read, or it stops at the end.
  pub next_event_with_filter-select :
      (answers : Answers access) (s : StreamConsumer T V D C S × W) (events : List (Event T V D C))
      → Upcoming s.0 events
      → Reads
          (select access.filter events)
          (next_event_with_filter dec access (suc (remaining s.0)) s)
  next_event_with_filter-select answers s events u =
      filter_loop (suc (remaining s.0)) s events (Droppable-All answers events)
        (omega (arith, remaining-Upcoming dec access s.0 events u)) u
