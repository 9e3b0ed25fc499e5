-- ===== src/Stream/Flush.antt =====
-- What one `flush_topic` does: all the buffered objects of its topic are published, in order.
use mathlib.Core.List.{append-nil, append_assoc}
use proxy_store.Prelude.{
  ◌≡◌, ◌≢◌, refl, ◌∙◌, ap, Option, none, some, Bool, false, not, ◌&&◌, List, [], ◌∷◌, ◌++◌, if_pos,
  if_neg, if◌then◌else◌, arith,
}
use proxy_store.Prelude.Dict.{get-insert_self, get-insert_ne}
use proxy_store.Prelude.Exec.{Result, ok, err}
use proxy_store.Stream.Events.{Key, Event, end_of_stream, EventBatch, get_key, from_key}
use proxy_store.Stream.Producer.{
  Buffered, TopicBuffer, StreamProducer, Outside, is_empty, objects_of, get_store, buffer_of,
  set_buffer, aggregate, key_events, object_events, events_of, send_batch, flush_topic,
}
use proxy_store.Stream.Laws.{Laws, Stored, topic_events, Carried, Kept}

module _ {T V D C : Type 0} (dec : Discrete T) where
  pub topic_events-append :
      (topic : T) (l m : List (EventBatch T V D C))
      → topic_events dec topic (l ++ m) ≡ topic_events dec topic l ++ topic_events dec topic m
  unfolding topic_events
  topic_events-append topic [] m = refl
  topic_events-append topic (b ∷ l) m = ground (
    arith,
    topic_events-append topic l m,
    append_assoc b.events (topic_events dec topic l) (topic_events dec topic m),
  )

  pub topic_events-one :
      (topic : T) (events : List (Event T V D C))
      → topic_events dec topic (record { topic = topic; events = events } ∷ []) ≡ events
  unfolding topic_events
  topic_events-one topic events = elim (dec topic topic) [
    | yes p ↦ rw (if_pos (dec topic topic) p) (append-nil events)
    | no p ↦ absurd (p refl)
  ]

  pub topic_events-other :
      (topic other : T) (events : List (Event T V D C))
      → topic ≢ other
      → topic_events dec other (record { topic = topic; events = events } ∷ []) ≡ []
  unfolding topic_events
  topic_events-other topic other events ne = rw (if_neg (dec topic other) ne) refl

module _ {T V D C S W : Type 0} (dec : Discrete T) (outside : Outside T V D C S W) where
  pub buffer_of-set_self :
      (topic : T) (b : TopicBuffer V D) (p : StreamProducer T V D S)
      → buffer_of dec outside (set_buffer dec outside topic b p) topic ≡ b
  unfolding buffer_of set_buffer
  buffer_of-set_self topic b p = rw (buffer_of, get-insert_self dec topic b p.buffer) refl

  pub buffer_of-set_ne :
      (topic other : T) (b : TopicBuffer V D) (p : StreamProducer T V D S)
      → topic ≢ other
      → buffer_of dec outside (set_buffer dec outside topic b p) other
        ≡ buffer_of dec outside p other
  unfolding buffer_of set_buffer
  buffer_of-set_ne topic other b p ne =
      rw (buffer_of, get-insert_ne dec topic other b p.buffer ne) refl

module _ {T V D C S W : Type 0} (dec : Discrete T) (outside : Outside T V D C S W)
    (laws : Laws outside) where
  object_events-Carried :
      (topic : T) (items : List (Buffered V D)) (w : W)
      → Carried outside laws w none topic (object_events dec outside topic items) items
  unfolding object_events
  object_events-Carried topic [] w = tt
  object_events-Carried topic (item ∷ items) w =
      ((refl, (refl, refl)), object_events-Carried topic items w)

  key_events-Carried :
      (topic : T) (s : S) (keys : List (Key T)) (items : List (Buffered V D)) (w : W)
      → Stored (laws.view w s) keys (objects_of items)
      → Carried outside laws w (some s) topic (key_events dec outside topic s keys items) items
  unfolding key_events objects_of from_key get_key
  key_events-Carried topic s [] [] w stored = tt
  key_events-Carried topic s [] (item ∷ items) w stored = stored
  key_events-Carried topic s (key ∷ keys) [] w stored = absurd stored
  key_events-Carried topic s (key ∷ keys) (item ∷ items) w (found, stored) =
      ((refl, (found, (refl, (refl, refl)))), key_events-Carried topic s keys items w stored)

  -- the events of some items: what they carry, and that nothing is lost or published meanwhile
  pub record Made (topic : T) (store : Option S) (items : List (Buffered V D)) (w : W)
      : Type 0 where
    pub events : List (Event T V D C)
    pub after : W
    pub made : events_of dec outside topic store items w ≡ (ok events, after)
    pub carried : Carried outside laws after store topic events items
    pub kept : Kept outside laws w after
    pub logged : laws.log after ≡ laws.log w

  put_eq :
      (topic : T) (s : S) (item : Buffered V D) (items : List (Buffered V D)) (w : W)
      (keys : List (Key T))
      → (outside.put_batch s (objects_of (item ∷ items)) w).0 ≡ ok keys
      → events_of dec outside topic (some s) (item ∷ items) w ≡ (
        ok (key_events dec outside topic s keys (item ∷ items)),
        (outside.put_batch s (objects_of (item ∷ items)) w).1,
      )
  unfolding events_of
  put_eq topic s item items w keys e = rw (events_of, e) refl

  pub events_of-Made :
      (topic : T) (store : Option S) (items : List (Buffered V D)) (w : W)
      → Made topic store items w
  unfolding events_of
  events_of-Made topic none [] w = record {
    events = [];
    after = w;
    made = refl;
    carried = tt;
    kept = λ s k obj h. h;
    logged = refl;
  }
  events_of-Made topic (some s) [] w = record {
    events = [];
    after = w;
    made = refl;
    carried = tt;
    kept = λ s k obj h. h;
    logged = refl;
  }
  events_of-Made topic none (item ∷ items) w = record {
    events = object_events dec outside topic (item ∷ items);
    after = w;
    made = refl;
    carried = object_events-Carried topic (item ∷ items) w;
    kept = λ s k obj h. h;
    logged = refl;
  }
  events_of-Made topic (some s) (item ∷ items) w =
      let objs : List V = objects_of (item ∷ items) in
      let (keys, done) = laws.put_ok s objs w in
      record {
        events = key_events dec outside topic s keys (item ∷ items);
        after = (outside.put_batch s objs w).1;
        made = put_eq topic s item items w keys done;
        carried =
            key_events-Carried topic s keys (item ∷ items) _ (laws.put_stored s objs w keys done);
        kept = λ other k obj h. laws.put_keeps s objs w other k obj h;
        logged = laws.put_log s objs w;
      }

  -- the end of the stream, if the topic is closed
  abbrev pub ending : T → Bool → List (Event T V D C)
  ending topic closed = if closed then end_of_stream topic ∷ [] else []

  pub flush_nothing :
      (topic : T) (p : StreamProducer T V D S) (w : W)
      → (buffer_of dec outside p topic).objects ≡ []
      → (buffer_of dec outside p topic).closed ≡ false
      → flush_topic dec outside topic (p, w)
        ≡ (ok tt, (set_buffer dec outside topic (buffer_of dec outside p topic) p, w))
  unfolding flush_topic
  flush_nothing topic p w e e' = rw (flush_topic, e, e') refl

  send_batch_eq :
      (topic : T) (closed : Bool) (events : List (Event T V D C)) (w : W)
      → is_empty (events ++ ending topic closed) ≡ false
      → send_batch dec outside topic closed events w ≡ (
        ok tt,
        (outside.publish (record { topic = topic; events = events ++ ending topic closed }) w).1,
      )
  unfolding send_batch
  send_batch_eq topic closed events w full =
      rw (send_batch, full)
        (ap
          (λ r. (
            r,
            (outside.publish (record { topic = topic; events = events ++ ending topic closed })
                w).1,
          ))
          (laws.publish_ok _ w))

  pub flush_something :
      (topic : T) (p : StreamProducer T V D S) (w w' : W) (events : List (Event T V D C))
      → aggregate dec outside p.aggregator (buffer_of dec outside p topic).objects
        ≡ (buffer_of dec outside p topic).objects
      → (is_empty (buffer_of dec outside p topic).objects
          && not (buffer_of dec outside p topic).closed)
        ≡ false
      → events_of dec outside topic
          (get_store dec outside p topic)
          (buffer_of dec outside p topic).objects
          w
        ≡ (ok events, w')
      → is_empty (events ++ ending topic (buffer_of dec outside p topic).closed) ≡ false
      → flush_topic dec outside topic (p, w) ≡ (
        ok tt,
        (
          set_buffer dec outside topic (record (buffer_of dec outside p topic) { objects = [] }) p,
          (outside.publish
              (record {
                topic = topic;
                events = events ++ ending topic (buffer_of dec outside p topic).closed;
              })
              w').1,
        ),
      )
  unfolding flush_topic
  flush_something topic p w w' events whole busy made full =
      let p' : StreamProducer T V D S =
        set_buffer dec outside topic (record (buffer_of dec outside p topic) { objects = [] }) p in
      let finish : (Result (List (Event T V D C)) × W)
          → Result (Unit {0}) × (StreamProducer T V D S × W) =
        λ r. elim r.0 [
          | err e ↦ (err e, (p', r.1))
          | ok es ↦
              let (q, w'') =
                send_batch dec outside topic (buffer_of dec outside p topic).closed es r.1 in
              (q, (p', w''))
        ] in
      rw (flush_topic, busy)
        (ap (λ items. finish (events_of dec outside topic (get_store dec outside p topic) items w))
            whole
          ∙ (ap finish made ∙ ap (λ r. (r.0, (p', r.1))) (send_batch_eq topic _ events w' full)))

  -- an empty buffer of an open topic is the one case in which nothing is published
  pub is_empty-append : {A : Type 0} (l m : List A) → is_empty m ≡ false → is_empty (l ++ m) ≡ false
  is_empty-append [] m e = e
  is_empty-append (x ∷ l) m e = refl
