-- ===== src/Stream/Completion.antt =====
-- A topic from its first call to its end.
use mathlib.Core.Path.{subst}
use mathlib.Core.List.{append-nil}
use proxy_store.Prelude.{ℕ, ◌<◌, ◌≡◌, refl, sym, ◌∙◌, ap, none, some, List, [], ◌++◌}
use proxy_store.Prelude.Dict
use proxy_store.Stream.Events.{Event}
use proxy_store.Stream.Producer.{
  TopicBuffer, StreamProducer, Outside, new_buffer, get_store, buffer_of,
}
use proxy_store.Stream.Laws.{Laws, topic_events, Carried}
use proxy_store.Stream.Delivery.{going, ended, Story, InPhase, ends, Track}
use proxy_store.Stream.Calls.{Op, tell_all, apply_all}
use proxy_store.Stream.Holding.{Holds}
use proxy_store.Stream.Runs.{apply_all-Holds}

-- nothing was sent yet
abbrev pub untold : {V D : Type 0} → Story V D
untold = record { items = []; phase = going }

module _ {T V D C S W : Type 0} (dec : Discrete T) (outside : Outside T V D C S W)
    (laws : Laws outside) where
  -- a new producer, before anything is published
  pub record IsFresh (topic : T) (p : StreamProducer T V D S) (w : W) : Type 0 where
    pub alone : p.aggregator ≡ none
    pub unused : p.buffer ≡ []
    pub silent : topic_events dec topic (laws.log w) ≡ []

  unused_buffer :
      (topic : T) (p : StreamProducer T V D S)
      → p.buffer ≡ []
      → buffer_of dec outside p topic ≡ new_buffer
  unfolding buffer_of Dict.get
  unused_buffer topic p e =
      ap
        (λ (d : Dict.Dict T (TopicBuffer V D)).
          elim (Dict.get dec topic d) as (λ _. TopicBuffer V D) [ none ↦ new_buffer | some b ↦ b ])
        e

  pub IsFresh-Holds :
      (topic : T) (p : StreamProducer T V D S) (w : W)
      → IsFresh topic p w
      → Holds dec outside laws
          (record { filter = p.filter; store = get_store dec outside p topic })
          topic
          (p, w)
          untold
  IsFresh-Holds topic p w fresh = record {
    alone = fresh.alone;
    filters = refl;
    stores = refl;
    track = record {
      done = [];
      events = [];
      count = 0;
      published = fresh.silent;
      carried = tt;
      all_items =
          sym (ap (λ (b : TopicBuffer V D). b.objects) (unused_buffer topic p fresh.unused));
      in_phase =
          (ap (λ (b : TopicBuffer V D). b.closed) (unused_buffer topic p fresh.unused), refl);
    };
  }

  -- the published events of an ended topic carry all its items, and the end comes after them
  ended-Carried :
      (topic : T) (s : StreamProducer T V D S × W) (story : Story V D)
      → story.phase ≡ ended
      → Track dec outside laws topic
          (get_store dec outside s.0 topic)
          (buffer_of dec outside s.0 topic)
          s.1
          story
      → (events : List (Event T V D C)) × ((n : ℕ) × ((0 < n)
            × ((topic_events dec topic (laws.log s.1) ≡ events ++ ends topic n)
                × Carried outside laws s.1
                    (get_store dec outside s.0 topic)
                    topic
                    events
                    story.items)))
  ended-Carried topic s story over t =
      let (_, (empty, some_end)) : InPhase ended (buffer_of dec outside s.0 topic) t.count =
        subst (λ phase. InPhase phase (buffer_of dec outside s.0 topic) t.count) over t.in_phase in
      (
        t.events,
        (
          t.count,
          (
            some_end,
            (
              t.published,
              subst
                  (λ items.
                    Carried outside laws s.1 (get_store dec outside s.0 topic) topic t.events items)
                  (sym (t.all_items ∙ (ap (λ l. t.done ++ l) empty ∙ append-nil t.done))) t.carried,
            ),
          ),
        ),
      )

  -- From a new producer without an aggregator, whose stores and publisher keep their laws and which
  -- has published nothing for the topic, whatever calls are made: if they end the topic, what was
  -- published for it is one event for every accepted item, in the order of `send`, which carries
  -- the item or a key that finds it, and then only ends of the stream, at least one.
  pub apply_all_complete :
      (topic : T) (ops : List (Op T V D)) (p : StreamProducer T V D S) (w : W)
      → IsFresh topic p w
      → (tell_all dec p.filter topic ops untold).phase ≡ ended
      → (events : List (Event T V D C)) × ((n : ℕ) × ((0 < n)
            × ((topic_events dec topic (laws.log (apply_all dec outside ops (p, w)).1)
                  ≡ events ++ ends topic n)
                × Carried outside laws
                    (apply_all dec outside ops (p, w)).1
                    (get_store dec outside p topic)
                    topic
                    events
                    (tell_all dec p.filter topic ops untold).items)))
  apply_all_complete topic ops p w fresh over =
      let h =
        apply_all-Holds dec outside laws
          (record { filter = p.filter; store = get_store dec outside p topic }) topic ops (p, w)
          untold refl (IsFresh-Holds topic p w fresh) in
      let (events, (n, (some_end, (published, carried)))) =
        ended-Carried topic (apply_all dec outside ops (p, w))
          (tell_all dec p.filter topic ops untold) over h.track in
      (
        events,
        (
          n,
          (
            some_end,
            (
              published,
              subst
                  (λ store.
                    Carried outside laws (apply_all dec outside ops (p, w)).1 store topic events
                      (tell_all dec p.filter topic ops untold).items)
                  h.stores carried,
            ),
          ),
        ),
      )
