-- ===== src/Stream/Calls.antt =====
-- The calls of a producer, and what they tell it of one topic.
use proxy_store.Prelude.{ite, if◌then◌else◌, Bool, List, [], ◌∷◌, ◌++◌}
use proxy_store.Stream.Producer.{
  Buffered, StreamProducer, Outside, flush_topic, flush, close_topics, send,
}
use proxy_store.Stream.Delivery.{going, closing, ended, Story}

-- the calls of a producer
pub data Op (T V D : Type 0) : Type 0 where
  send_one : T → V → Bool → D → Op T V D
  flush_one : T → Op T V D
  flush_all : Op T V D
  close : List T → Op T V D

-- what the producer is told of `topic`: an item is accepted unless the topic is closed or the filter
-- drops it
module _ {T V D : Type 0} (dec : Discrete T) (filter : D → Bool) (topic : T) where
  unfoldable pub accept : Buffered V D → Story V D → Story V D
  accept item story = if filter item.metadata then story else elim story.phase [
    | going ↦ record story { items = story.items ++ (item ∷ []) }
    | closing ↦ story
    | ended ↦ story
  ]

  unfoldable pub close_story : List T → Story V D → Story V D
  close_story [] story = story
  close_story (t ∷ ts) story =
      close_story ts (ite (dec t topic) (record story { phase = ended }) story)

  unfoldable pub tell : Op T V D → Story V D → Story V D
  tell (send_one t obj evict metadata) story =
      ite (dec t topic) (accept (record { obj = obj; evict = evict; metadata = metadata }) story)
        story
  tell (flush_one t) story = story
  tell flush_all story = story
  tell (close ts) story = close_story ts story

  unfoldable pub tell_all : List (Op T V D) → Story V D → Story V D
  tell_all [] story = story
  tell_all (op ∷ ops) story = tell_all ops (tell op story)

module _ {T V D C S W : Type 0} (dec : Discrete T) (outside : Outside T V D C S W) where
  -- the state that a call leaves, whether it raised or not
  unfoldable pub apply : Op T V D → (StreamProducer T V D S × W) → StreamProducer T V D S × W
  apply (send_one t obj evict metadata) s = (send dec outside t obj evict metadata s).1
  apply (flush_one t) s = (flush_topic dec outside t s).1
  apply flush_all s = (flush dec outside s).1
  apply (close ts) s = (close_topics dec outside ts s).1

  unfoldable pub apply_all :
      List (Op T V D) → (StreamProducer T V D S × W) → StreamProducer T V D S × W
  apply_all [] s = s
  apply_all (op ∷ ops) s = apply_all ops (apply op s)
