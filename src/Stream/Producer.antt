-- ===== src/Stream/Producer.antt =====
-- `StreamProducer` of proxystore/stream/_producer.py. Its stores and its publisher are outside of it:
-- the world `W` is what they change.
use proxy_store.Prelude.{
  ℕ, leb, if◌then◌else◌, Bool, true, false, not, ◌&&◌, ◌||◌, Option, none, some, List, [], ◌∷◌,
  ◌++◌, length,
}
use proxy_store.Prelude.Dict
use proxy_store.Prelude.Dict.{Dict, insert}
use proxy_store.Prelude.Keys.{keys}
use proxy_store.Prelude.Exec.{ok, err, Exec, topic_closed, assertion_error}
use proxy_store.Stream.Events.{Key, Event, end_of_stream, new_object, EventBatch, from_key}

-- `_BufferedObject`
pub record Buffered (V D : Type 0) : Type 0 where
  pub obj : V
  pub evict : Bool
  pub metadata : D

-- `_TopicBuffer`
pub record TopicBuffer (V D : Type 0) : Type 0 where
  pub objects : List (Buffered V D)
  pub closed : Bool

-- `S` is the stores; a topic may be mapped to no store
pub record StreamProducer (T V D S : Type 0) : Type 0 where
  pub aggregator : Option (List V → V)
  pub batch_size : ℕ
  pub default_store : Option S
  pub filter : D → Bool
  pub stores : Option (Dict T (Option S))
  pub buffer : Dict T (TopicBuffer V D)

-- what the producer calls: a store's `put_batch` and `config`, the publisher (`event_to_bytes` and
-- `send_message`, or `send_events`), and the metadata dictionaries
pub record Outside (T V D C S W : Type 0) : Type 0 where
  pub put_batch : S → List V → Exec W (List (Key T))
  pub config : S → C
  pub publish : EventBatch T V D C → Exec W (Unit {0})
  pub empty : D
  pub update : D → D → D

abbrev pub new_buffer : {V D : Type 0} → TopicBuffer V D
new_buffer = record { objects = []; closed = false }

-- `any([item.evict for item in objects])`
unfoldable pub any_evict : {V D : Type 0} → List (Buffered V D) → Bool
any_evict [] = false
any_evict (item ∷ items) = let rest = any_evict items in item.evict || rest

unfoldable pub objects_of : {V D : Type 0} → List (Buffered V D) → List V
objects_of [] = []
objects_of (item ∷ items) = item.obj ∷ objects_of items

abbrev pub is_empty : {A : Type 0} → List A → Bool
is_empty [] = true
is_empty (_ ∷ _) = false

module _ {T V D C S W : Type 0} (dec : Discrete T) (outside : Outside T V D C S W) where
  -- `_get_store`
  unfoldable pub get_store : StreamProducer T V D S → T → Option S
  get_store p topic = elim p.stores [
    | none ↦ p.default_store
    | some stores ↦ elim (Dict.get dec topic stores) [ none ↦ p.default_store | some store ↦ store ]
  ]

  -- `self._buffer[topic]`, of a `defaultdict`
  unfoldable pub buffer_of : StreamProducer T V D S → T → TopicBuffer V D
  buffer_of p topic = elim (Dict.get dec topic p.buffer) [ none ↦ new_buffer | some b ↦ b ]

  unfoldable pub set_buffer : T → TopicBuffer V D → StreamProducer T V D S → StreamProducer T V D S
  set_buffer topic b p = record p { buffer = insert dec topic b p.buffer }

  -- `metadata.update` for every item
  unfoldable pub merge : D → List (Buffered V D) → D
  merge metadata [] = metadata
  merge metadata (item ∷ items) = merge (outside.update metadata item.metadata) items

  -- the objects of a batch, or the one that the aggregator makes of them
  unfoldable pub aggregate : Option (List V → V) → List (Buffered V D) → List (Buffered V D)
  aggregate none objects = objects
  aggregate (some f) [] = []
  aggregate (some f) (item ∷ items) =
      record {
        obj = f (objects_of (item ∷ items));
        evict = any_evict (item ∷ items);
        metadata = merge outside.empty (item ∷ items);
      }
      ∷ []

  -- the loop over `zip(keys, objects)`
  unfoldable pub key_events : T → S → List (Key T) → List (Buffered V D) → List (Event T V D C)
  key_events topic store [] objects = []
  key_events topic store (key ∷ rest) [] = []
  key_events topic store (key ∷ rest) (item ∷ items) =
      from_key key item.evict item.metadata (outside.config store) topic
      ∷ key_events topic store rest items

  unfoldable pub object_events : T → List (Buffered V D) → List (Event T V D C)
  object_events topic [] = []
  object_events topic (item ∷ items) =
      new_object topic item.obj item.metadata ∷ object_events topic items

  -- the events of the objects of a batch
  unfoldable pub events_of : T → Option S → List (Buffered V D) → Exec W (List (Event T V D C))
  events_of topic store [] w = (ok [], w)
  events_of topic none (item ∷ items) w = (ok (object_events topic (item ∷ items)), w)
  events_of topic (some store) (item ∷ items) w =
      let (r, w') = outside.put_batch store (objects_of (item ∷ items)) w in
      elim r [ err e ↦ (err e, w') | ok ks ↦ (ok (key_events topic store ks (item ∷ items)), w') ]

  -- `_send_event`, of the events and the end of the stream
  unfoldable pub send_batch : T → Bool → List (Event T V D C) → Exec W (Unit {0})
  send_batch topic closed events w =
      let all = events ++ (if closed then end_of_stream topic ∷ [] else []) in
      if is_empty all
      then (err assertion_error, w)
      else outside.publish (record { topic = topic; events = all }) w

  abbrev pub Call : Type 0 → Type 0
  Call A = Exec (StreamProducer T V D S × W) A

  -- `flush_topic`
  unfoldable pub flush_topic : T → Call (Unit {0})
  flush_topic topic (p, w) =
      let b = buffer_of p topic in
      if is_empty b.objects && not b.closed
      then (ok tt, (set_buffer topic b p, w))
      else let p' = set_buffer topic (record b { objects = [] }) p in
        let (r, w') = events_of topic (get_store p topic) (aggregate p.aggregator b.objects) w in
        elim r [
          | err e ↦ (err e, (p', w'))
          | ok events ↦ let (q, w'') = send_batch topic b.closed events w' in (q, (p', w''))
        ]

  -- a loop of `flush_topic`
  unfoldable pub flush_topics : List T → Call (Unit {0})
  flush_topics [] s = (ok tt, s)
  flush_topics (topic ∷ topics) s =
      let (r, s') = flush_topic topic s in
      elim r [ err e ↦ (err e, s') | ok _ ↦ flush_topics topics s' ]

  -- `flush`
  unfoldable pub flush : Call (Unit {0})
  flush s = flush_topics (keys s.0.buffer) s

  -- `self._buffer[topic].closed = True`
  unfoldable pub mark_closed : T → StreamProducer T V D S → StreamProducer T V D S
  mark_closed topic p = set_buffer topic (record (buffer_of p topic) { closed = true }) p

  -- `close_topics`
  unfoldable pub close_topics : List T → Call (Unit {0})
  close_topics [] s = (ok tt, s)
  close_topics (topic ∷ topics) (p, w) =
      let (r, s') = flush_topic topic (mark_closed topic p, w) in
      elim r [ err e ↦ (err e, s') | ok _ ↦ close_topics topics s' ]

  -- the end of `send`, when the item is appended
  unfoldable pub append_item : T → Buffered V D → Call (Unit {0})
  append_item topic item (p, w) =
      let b = buffer_of p topic in
      let objects' = b.objects ++ (item ∷ []) in
      let p' = set_buffer topic (record b { objects = objects' }) p in
      if leb p.batch_size (length objects') then flush_topic topic (p', w) else (ok tt, (p', w))

  -- `send`
  unfoldable pub send : T → V → Bool → D → Call (Unit {0})
  send topic obj evict metadata (p, w) =
      let b = buffer_of p topic in
      if b.closed
      then (err topic_closed, (set_buffer topic b p, w))
      else if p.filter metadata
      then (ok tt, (set_buffer topic b p, w))
      else append_item topic (record { obj = obj; evict = evict; metadata = metadata }) (p, w)
