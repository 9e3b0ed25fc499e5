-- ===== src/Stream/Iteration.antt =====
-- The loop over the objects of a stream, read to its end.
use mathlib.Core.Path.{subst}
use proxy_store.Prelude.{
  ℕ, zero, suc, ◌<◌, ◌≡◌, refl, arith, Bool-cases, inl, inr, ◌⊎◌, none, some, Bool, List, [], ◌∷◌,
  length, All,
}
use proxy_store.Prelude.Exec.{ok, err, stop_iteration}
use proxy_store.Stream.Events.{Event, end_of_stream, new_object, new_object_key}
use proxy_store.Stream.Consumer.{
  StreamConsumer, Access, remaining, next_event_with_filter, to_object, next_object_with_metadata,
  iter_objects_from, iter_objects_with_metadata,
}
use proxy_store.Stream.Popping.{Upcoming, remaining-Upcoming}
use proxy_store.Stream.Reading.{
  select, wanted, HasObject, Reads, Droppable, object-Drops, filter_loop,
}

module _ {T V D C : Type 0} (filter : D → Bool) where
  -- what `select` finds among events that have their objects
  Found : List (Event T V D C) → Type 0
  Found events =
      ((select filter events ≡ none) × (wanted filter events ≡ []))
      ⊎ ((topic : T) × ((obj : V) × ((metadata : D) × ((rest : List (Event T V D C)) × ((select
                      filter events
                    ≡ some (new_object topic obj metadata, rest))
                  × ((wanted filter events ≡ (metadata, obj) ∷ wanted filter rest)
                      × (All HasObject rest × (length rest < length events))))))))

  found : (events : List (Event T V D C)) → All HasObject events → Found events
  unfolding Found select wanted
  found [] has = inl (refl, refl)
  found (end_of_stream _ ∷ es) (here, has) = inl (refl, refl)
  found (new_object_key _ _ _ _ _ _ ∷ es) (here, has) = absurd here
  found (new_object topic obj metadata ∷ es) (here, has) = elim (Bool-cases (filter metadata)) [
    | inl dropped ↦ elim (found es has) [
      | inl (none_there, nothing) ↦
          inl (rw (select, dropped) none_there, rw (wanted, dropped) nothing)
      | inr (t, (o, (m, (rest, (there, (those, (has', shorter))))))) ↦ inr (
        t,
        (
          o,
          (
            m,
            (
              rest,
              (
                rw (select, dropped) there,
                (rw (wanted, dropped) those, (has', omega (arith, shorter))),
              ),
            ),
          ),
        ),
      )
    ]
    | inr kept ↦ inr (
      topic,
      (
        obj,
        (metadata, (es, (rw (select, kept) refl, (rw (wanted, kept) refl, (has, omega arith))))),
      ),
    )
  ]

module _ {T V D C S W : Type 0} (dec : Discrete T) (access : Access T V D C S W) where
  objects-Droppable :
      (events : List (Event T V D C)) → All HasObject events → All (Droppable dec access) events
  objects-Droppable [] has = tt
  objects-Droppable (e ∷ es) (here, has) =
      (λ s rest u. object-Drops dec access e s rest here u, objects-Droppable es has)

  read_next :
      (s : StreamConsumer T V D C S × W) (events : List (Event T V D C))
      → All HasObject events
      → Upcoming s.0 events
      → Reads dec access
          (select access.filter events)
          (next_event_with_filter dec access (suc (remaining s.0)) s)
  read_next s events has u =
      filter_loop dec access (suc (remaining s.0)) s events (objects-Droppable events has)
        (omega (arith, remaining-Upcoming dec access s.0 events u)) u

  -- nothing is kept
  next_object-none :
      (s : StreamConsumer T V D C S × W) (events : List (Event T V D C))
      → All HasObject events
      → Upcoming s.0 events
      → select access.filter events ≡ none
      → (next_object_with_metadata dec access s).0 ≡ err stop_iteration
  unfolding next_object_with_metadata
  next_object-none s events has u e =
      let stops : (next_event_with_filter dec access (suc (remaining s.0)) s).0
          ≡ err stop_iteration =
        subst (λ o. Reads dec access o (next_event_with_filter dec access (suc (remaining s.0)) s))
          e (read_next s events has u) in
      rw (next_object_with_metadata, stops) refl

  next_object-some :
      (s : StreamConsumer T V D C S × W) (events rest : List (Event T V D C)) (topic : T) (obj : V)
      (metadata : D)
      → All HasObject events
      → Upcoming s.0 events
      → select access.filter events ≡ some (new_object topic obj metadata, rest)
      → ((next_object_with_metadata dec access s).0 ≡ ok (some (metadata, obj)))
        × Upcoming (next_object_with_metadata dec access s).1.0 rest
  unfolding next_object_with_metadata to_object
  next_object-some s events rest topic obj metadata has u e =
      let r =
        subst (λ o. Reads dec access o (next_event_with_filter dec access (suc (remaining s.0)) s))
          e (read_next s events has u) in
      rw (next_object_with_metadata, r.0) (refl, r.1)

  -- With a round for every event that is left, the loop ends and yields what the filter keeps.
  iterates :
      (n : ℕ) (s : StreamConsumer T V D C S × W) (events : List (Event T V D C))
      → length events < n
      → All HasObject events
      → Upcoming s.0 events
      → (iter_objects_from dec access n s).0 ≡ ok (some (wanted access.filter events))
  unfolding iter_objects_from Found
  iterates zero s events enough has u = ground arith
  iterates (suc n) s events enough has u = elim (found access.filter events has) [
    | inl (nothing, e) ↦ rw (iter_objects_from, next_object-none s events has u nothing, e) refl
    | inr (topic, (obj, (metadata, (rest, (there, (e, (has', shorter))))))) ↦
        let r = next_object-some s events rest topic obj metadata has u there in
        rw
          (
            iter_objects_from,
            r.0,
            iterates n (next_object_with_metadata dec access s).1 rest
                (omega (arith, enough, shorter)) has' r.1,
            e,
          )
          refl
  ]

  -- A consumer has events to read, in batches none of which is empty, and each event is an end of the
  -- stream or carries its object itself, so that none is the key of an object in a store. Then the
  -- loop ends, however long the stream is: it yields the object and the metadata of each event that
  -- the filter keeps, in order, and none that comes after an end of the stream.
  pub iter_objects_with_metadata-wanted :
      (s : StreamConsumer T V D C S × W) (events : List (Event T V D C))
      → All HasObject events
      → Upcoming s.0 events
      → (iter_objects_with_metadata dec access s).0 ≡ ok (some (wanted access.filter events))
  unfolding iter_objects_with_metadata
  iter_objects_with_metadata-wanted s events has u =
      iterates (suc (remaining s.0)) s events
        (omega (arith, remaining-Upcoming dec access s.0 events u)) has u
