-- ===== src/Stream/EndToEnd.antt =====
-- A producer and a consumer together, for a topic whose objects travel with their events.
use mathlib.Core.Path.{subst}
use mathlib.Core.List.{append-nil, append_assoc}
use proxy_store.Prelude.{
  ℕ, zero, suc, ◌≡◌, refl, sym, ◌∙◌, ap, if◌then◌else◌, none, some, Bool, List, [], ◌∷◌, ◌++◌, All,
}
use proxy_store.Prelude.Exec.{ok}
use proxy_store.Stream.Events.{Event, end_of_stream, new_object, new_object_key}
use proxy_store.Stream.Producer.{Buffered, StreamProducer, Outside, get_store}
use proxy_store.Stream.Consumer.{StreamConsumer, Access, iter_objects_with_metadata}
use proxy_store.Stream.Laws.{Laws, topic_events, Carried}
use proxy_store.Stream.Delivery.{ended, ends}
use proxy_store.Stream.Calls.{Op, tell_all, apply_all}
use proxy_store.Stream.Completion.{untold, IsFresh, apply_all_complete}
use proxy_store.Stream.Popping.{Upcoming}
use proxy_store.Stream.Reading.{wanted, HasObject}
use proxy_store.Stream.Iteration.{iter_objects_with_metadata-wanted}

-- the items that the filter of the consumer keeps
unfoldable pub kept_items : {V D : Type 0} → (D → Bool) → List (Buffered V D) → List (D × V)
kept_items filter [] = []
kept_items filter (item ∷ items) =
    let rest = kept_items filter items in
    if filter item.metadata then rest else (item.metadata, item.obj) ∷ rest

module _ {T V D C : Type 0} (filter : D → Bool) (topic : T) where
  wanted-ends :
      (n : ℕ) (after : List (Event T V D C))
      → wanted filter after ≡ []
      → wanted filter (ends topic n ++ after) ≡ []
  unfolding wanted
  wanted-ends zero after e = e
  wanted-ends (suc n) after e =
      ap (wanted filter) (append_assoc (ends topic n) (end_of_stream topic ∷ []) after)
      ∙ wanted-ends n (end_of_stream topic ∷ after) refl

HasObject-append :
    {T V D C : Type 0} (l m : List (Event T V D C))
    → All HasObject l
    → All HasObject m
    → All HasObject (l ++ m)
HasObject-append [] m h h' = h'
HasObject-append (x ∷ l) m (here, h) h' = (here, HasObject-append l m h h')

ends-HasObject :
    {T : Type 0} (V D C : Type 0) (topic : T) (n : ℕ)
    → All HasObject (ends {V = V} {D = D} {C = C} topic n)
ends-HasObject V D C topic zero = tt
ends-HasObject V D C topic (suc n) =
    HasObject-append (ends topic n) (end_of_stream topic ∷ []) (ends-HasObject V D C topic n)
      (tt, tt)

module _ {T V D C S W : Type 0} (dec : Discrete T) (outside : Outside T V D C S W)
    (laws : Laws outside) where
  Carried-objects :
      (filter : D → Bool) (topic : T) (events : List (Event T V D C)) (items : List (Buffered V D))
      (w : W) (n : ℕ)
      → Carried outside laws w none topic events items
      → (wanted filter (events ++ ends topic n) ≡ kept_items filter items)
        × All HasObject (events ++ ends topic n)
  unfolding wanted kept_items
  Carried-objects filter topic [] [] w n c = (
    sym (ap (wanted filter) (append-nil (ends topic n))) ∙ wanted-ends filter topic n [] refl,
    ends-HasObject V D C topic n,
  )
  Carried-objects filter topic [] (item ∷ items) w n c = absurd c
  Carried-objects filter topic (e ∷ events) [] w n c = absurd c
  Carried-objects filter topic (end_of_stream _ ∷ events) (item ∷ items) w n (here, c) = absurd here
  Carried-objects filter topic (new_object_key _ _ _ _ _ _ ∷ events) (item ∷ items) w n (here, c) =
      absurd here
  Carried-objects filter topic (new_object _ obj metadata ∷ events) (item ∷ items) w n
        ((_, (e, e')), c) =
      let (those, has) = Carried-objects filter topic events items w n c in
      (rw (e, e', those) refl, (tt, has))

  -- A new producer without an aggregator and without a store for the topic, whose stores and
  -- publisher keep their laws and which has published nothing for the topic before, is called in any
  -- way that ends the topic, and a consumer has what was published for
  -- the topic to read, in batches none of which is empty. Then its loop over the objects ends, and
  -- yields the object and the metadata of each item that the producer accepted and that the
  -- consumer's filter keeps, in the order of `send`.
  pub iter_objects-end_to_end :
      {W' : Type 0} (dec' : Discrete T) (access : Access T V D C S W') (topic : T)
      (ops : List (Op T V D)) (p : StreamProducer T V D S) (w : W)
      (s : StreamConsumer T V D C S × W')
      → IsFresh dec outside laws topic p w
      → get_store dec outside p topic ≡ none
      → (tell_all dec p.filter topic ops untold).phase ≡ ended
      → Upcoming s.0 (topic_events dec topic (laws.log (apply_all dec outside ops (p, w)).1))
      → (iter_objects_with_metadata dec' access s).0
        ≡ ok (some (kept_items access.filter (tell_all dec p.filter topic ops untold).items))
  iter_objects-end_to_end dec' access topic ops p w s fresh no_store over u =
      let (events, (n, (some_end, (published, carried)))) =
        apply_all_complete dec outside laws topic ops p w fresh over in
      let (those, has) =
        Carried-objects access.filter topic events _ (apply_all dec outside ops (p, w)).1 n (
          subst
            (λ store.
              Carried outside laws (apply_all dec outside ops (p, w)).1 store topic events
                (tell_all dec p.filter topic ops untold).items)
            no_store carried) in
      iter_objects_with_metadata-wanted dec' access s (events ++ ends topic n) has
        (subst (Upcoming s.0) published u)
      ∙ ap (λ l. ok (some l)) those
