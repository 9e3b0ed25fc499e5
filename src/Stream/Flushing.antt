-- ===== src/Stream/Flushing.antt =====
-- One `flush_topic`: all the buffered objects of its topic are published, in order.
use mathlib.Core.Path.{subst}
use mathlib.Core.List.{append-nil}
use proxy_store.Prelude.{
  ◌≡◌, ◌≢◌, refl, sym, ◌∙◌, ap, Option, none, some, Bool, true, false, Bool-cases, inl, inr, not,
  ◌&&◌, arith, List, [], ◌∷◌, ◌++◌,
}
use proxy_store.Prelude.Exec.{ok}
use proxy_store.Stream.Events.{Event, end_of_stream, new_object, new_object_key, EventBatch}
use proxy_store.Stream.Producer.{
  Buffered, TopicBuffer, StreamProducer, Outside, is_empty, get_store, buffer_of, set_buffer,
  aggregate, flush_topic,
}
use proxy_store.Stream.Laws.{Laws, topic_events, Carried, Kept}
use proxy_store.Stream.Flush.{
  topic_events-append, topic_events-one, topic_events-other, Made, events_of-Made, ending,
  flush_nothing, flush_something,
}

module _ {T V D C S W : Type 0} (dec : Discrete T) (outside : Outside T V D C S W)
    (laws : Laws outside) where
  -- `flush_topic` succeeds and empties the buffer of its topic; the events are published after those
  -- of before, with the end of the stream if the topic is closed.
  pub record Flushed (topic : T) (p : StreamProducer T V D S) (w : W) : Type 0 where
    pub after : W
    pub events : List (Event T V D C)
    pub result : flush_topic dec outside topic (p, w) ≡ (
      ok tt,
      (
        set_buffer dec outside topic (record (buffer_of dec outside p topic) { objects = [] }) p,
        after,
      ),
    )
    pub carried :
        Carried outside laws after
          (get_store dec outside p topic)
          topic
          events
          (buffer_of dec outside p topic).objects
    pub kept : Kept outside laws w after
    pub published :
        topic_events dec topic (laws.log after)
        ≡ topic_events dec topic (laws.log w)
          ++ (events ++ ending dec outside laws topic (buffer_of dec outside p topic).closed)
    pub others :
        (other : T)
        → topic ≢ other
        → topic_events dec other (laws.log after) ≡ topic_events dec other (laws.log w)

  -- there is something to publish, but for an empty buffer of an open topic
  full_batch :
      (topic : T) (store : Option S) (closed : Bool) (items : List (Buffered V D)) (w : W)
      (events : List (Event T V D C))
      → Carried outside laws w store topic events items
      → (is_empty items && not closed) ≡ false
      → is_empty (events ++ ending dec outside laws topic closed) ≡ false
  full_batch topic store closed items w (e ∷ events) c busy = refl
  full_batch topic store closed (item ∷ items) w [] c busy = absurd c
  full_batch topic store true [] w [] c busy = refl
  full_batch topic store false [] w [] c busy = busy

  topic_events-publish :
      (topic : T) (events : List (Event T V D C)) (w : W)
      → topic_events dec topic
          (laws.log (outside.publish (record { topic = topic; events = events }) w).1)
        ≡ topic_events dec topic (laws.log w) ++ events
  topic_events-publish topic events w =
      ap (topic_events dec topic) (laws.publish_log _ w)
      ∙ (topic_events-append dec topic (laws.log w) _
          ∙ ap (λ l. topic_events dec topic (laws.log w) ++ l) (topic_events-one dec topic events))

  topic_events-publish_other :
      (topic other : T) (events : List (Event T V D C)) (w : W)
      → topic ≢ other
      → topic_events dec other
          (laws.log (outside.publish (record { topic = topic; events = events }) w).1)
        ≡ topic_events dec other (laws.log w)
  topic_events-publish_other topic other events w ne =
      ap (topic_events dec other) (laws.publish_log _ w)
      ∙ (topic_events-append dec other (laws.log w) _
          ∙ (ap (λ l. topic_events dec other (laws.log w) ++ l)
                (topic_events-other dec topic other events ne)
              ∙ append-nil (topic_events dec other (laws.log w))))

  -- a store that keeps what it has keeps what the events carry
  pub Carried-Kept :
      (topic : T) (store : Option S) (events : List (Event T V D C)) (items : List (Buffered V D))
      (w w' : W)
      → Kept outside laws w w'
      → Carried outside laws w store topic events items
      → Carried outside laws w' store topic events items
  Carried-Kept topic store [] [] w w' kept c = tt
  Carried-Kept topic store [] (item ∷ items) w w' kept c = c
  Carried-Kept topic store (e ∷ events) [] w w' kept c = c
  Carried-Kept topic none (new_object _ _ _ ∷ events) (item ∷ items) w w' kept (here, rest) =
      (here, Carried-Kept topic none events items w w' kept rest)
  Carried-Kept topic none (new_object_key _ _ _ _ _ _ ∷ events) (item ∷ items) w w' kept
        (here, rest) =
      absurd here
  Carried-Kept topic none (end_of_stream _ ∷ events) (item ∷ items) w w' kept (here, rest) =
      absurd here
  Carried-Kept topic (some s) (new_object _ _ _ ∷ events) (item ∷ items) w w' kept (here, rest) =
      absurd here
  Carried-Kept topic (some s) (new_object_key _ key_type raw_key _ _ _ ∷ events) (item ∷ items) w w'
        kept ((same, (found, others)), rest) =
      (
        (same, (kept s _ item.obj found, others)),
        Carried-Kept topic (some s) events items w w' kept rest,
      )
  Carried-Kept topic (some s) (end_of_stream _ ∷ events) (item ∷ items) w w' kept (here, rest) =
      absurd here

  Kept-publish :
      (b : EventBatch T V D C) (w w' : W)
      → Kept outside laws w w'
      → Kept outside laws w (outside.publish b w').1
  Kept-publish b w w' kept s k obj h = laws.publish_view b w' s k ∙ kept s k obj h

  idle_buffer :
      {A : Type 0} (l : List A) (closed : Bool)
      → (is_empty l && not closed) ≡ true
      → (l ≡ []) × (closed ≡ false)
  idle_buffer [] true e = ground arith
  idle_buffer [] false e = (refl, refl)
  idle_buffer (x ∷ l) closed e = ground arith

  Flushed-nothing :
      (topic : T) (p : StreamProducer T V D S) (w : W)
      → (buffer_of dec outside p topic).objects ≡ []
      → (buffer_of dec outside p topic).closed ≡ false
      → Flushed topic p w
  Flushed-nothing topic p w e e' =
      let b : TopicBuffer V D = buffer_of dec outside p topic in
      record {
        after = w;
        events = [];
        result =
            flush_nothing dec outside laws topic p w e e'
            ∙ ap (λ l. (ok tt, (set_buffer dec outside topic (record b { objects = l }) p, w))) e;
        carried =
            subst (λ l. Carried outside laws w (get_store dec outside p topic) topic [] l) (sym e)
              tt;
        kept = λ s k obj h. h;
        published =
            sym (append-nil (topic_events dec topic (laws.log w)))
            ∙ ap (λ c. topic_events dec topic (laws.log w) ++ ending dec outside laws topic c)
                (sym e');
        others = λ other ne. refl;
      }

  Flushed-something :
      (topic : T) (p : StreamProducer T V D S) (w : W)
      → p.aggregator ≡ none
      → (is_empty (buffer_of dec outside p topic).objects
          && not (buffer_of dec outside p topic).closed)
        ≡ false
      → Made dec outside laws topic
          (get_store dec outside p topic)
          (buffer_of dec outside p topic).objects
          w
      → Flushed topic p w
  unfolding aggregate
  Flushed-something topic p w alone busy m =
      let closed : Bool = (buffer_of dec outside p topic).closed in
      let all : List (Event T V D C) = m.events ++ ending dec outside laws topic closed in
      let batch : EventBatch T V D C = record { topic = topic; events = all } in
      record {
        after = (outside.publish batch m.after).1;
        events = m.events;
        result =
            flush_something dec outside laws topic p w m.after m.events
              (ap (λ a. aggregate dec outside a (buffer_of dec outside p topic).objects) alone) busy
              m.made (full_batch topic _ closed _ m.after m.events m.carried busy);
        carried =
            Carried-Kept topic _ m.events _ m.after _
              (Kept-publish batch m.after m.after (λ s k obj h. h)) m.carried;
        kept = Kept-publish batch w m.after m.kept;
        published =
            topic_events-publish topic all m.after
            ∙ ap (λ l. topic_events dec topic l ++ all) m.logged;
        others = λ other ne.
            topic_events-publish_other topic other all m.after ne
            ∙ ap (topic_events dec other) m.logged;
      }

  pub flush_topic-Flushed :
      (topic : T) (p : StreamProducer T V D S) (w : W) → p.aggregator ≡ none → Flushed topic p w
  flush_topic-Flushed topic p w alone =
      elim (Bool-cases (
        is_empty (buffer_of dec outside p topic).objects
        && not (buffer_of dec outside p topic).closed)) [
          | inl idle ↦ Flushed-nothing topic p w (idle_buffer _ _ idle).0 (idle_buffer _ _ idle).1
          | inr busy ↦
              Flushed-something topic p w alone busy (events_of-Made dec outside laws topic _ _ w)
        ]
