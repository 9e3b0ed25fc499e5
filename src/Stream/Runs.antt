-- ===== src/Stream/Runs.antt =====
-- Any sequence of calls of a producer: nothing sent is lost, repeated or put out of order.
use mathlib.Core.Path.{subst}
use proxy_store.Prelude.{◌≡◌, refl, sym, arith, if_pos, if_neg, Bool-cases, inl, inr, List, [], ◌∷◌}
use proxy_store.Prelude.Keys.{keys}
use proxy_store.Stream.Producer.{Buffered, StreamProducer, Outside, flush, send}
use proxy_store.Stream.Laws.{Laws}
use proxy_store.Stream.Delivery.{Phase, going, closing, ended, Story, flushed}
use proxy_store.Stream.Calls.{
  Op, send_one, flush_one, flush_all, close, accept, close_story, tell, tell_all, apply, apply_all,
}
use proxy_store.Stream.Holding.{Fixed, Holds, steady-Holds, flush_topics-Holds, close_topics-Holds}
use proxy_store.Stream.Sending.{send_going-Holds, send_ended-Holds, send_other-Holds}

module _ {T V D C S W : Type 0} (dec : Discrete T) (outside : Outside T V D C S W)
    (laws : Laws outside) where
  -- a topic is not left in the middle of its closing
  abbrev Steady : Story V D → Type 0
  Steady story = flushed story.phase ≡ story.phase

  accept-Steady :
      (fixed : Fixed dec outside laws) (topic : T) (item : Buffered V D)
      (items : List (Buffered V D)) (phase : Phase)
      → flushed phase ≡ phase
      → Steady (accept dec fixed.filter topic item (record { items = items; phase = phase }))
  unfolding accept
  accept-Steady fixed topic item items going steady = ground arith
  accept-Steady fixed topic item items closing steady = ground arith
  accept-Steady fixed topic item items ended steady = ground arith

  close_story-Steady :
      (fixed : Fixed dec outside laws) (topic : T) (ts : List T) (story : Story V D)
      → Steady story
      → Steady (close_story dec fixed.filter topic ts story)
  unfolding close_story
  close_story-Steady fixed topic [] story steady = steady
  close_story-Steady fixed topic (t ∷ ts) story steady = elim (dec t topic) [
    | yes e ↦ rw (close_story, if_pos (dec t topic) e) (close_story-Steady fixed topic ts _ refl)
    | no e ↦
        rw (close_story, if_neg (dec t topic) e) (close_story-Steady fixed topic ts story steady)
  ]

  tell-Steady :
      (fixed : Fixed dec outside laws) (topic : T) (op : Op T V D) (story : Story V D)
      → Steady story
      → Steady (tell dec fixed.filter topic op story)
  unfolding tell
  tell-Steady fixed topic (send_one t obj evict metadata) story steady = elim (dec t topic) [
    | yes e ↦ subst Steady (sym (if_pos (dec t topic) e _ story)) (
        accept-Steady fixed topic (record { obj = obj; evict = evict; metadata = metadata })
          story.items story.phase steady)
    | no e ↦
        subst Steady
          (sym (
            if_neg (dec t topic) e
              (accept dec fixed.filter topic
                (record { obj = obj; evict = evict; metadata = metadata }) story)
              story))
          steady
  ]
  tell-Steady fixed topic (flush_one t) story steady = steady
  tell-Steady fixed topic flush_all story steady = steady
  tell-Steady fixed topic (close ts) story steady = close_story-Steady fixed topic ts story steady

  send_self-Holds :
      (fixed : Fixed dec outside laws) (topic : T) (item : Buffered V D)
      (p : StreamProducer T V D S) (w : W) (items : List (Buffered V D)) (phase : Phase)
      → flushed phase ≡ phase
      → Holds dec outside laws fixed topic (p, w) (record { items = items; phase = phase })
      → Holds dec outside laws fixed topic
          (send dec outside topic item.obj item.evict item.metadata (p, w)).1
          (accept dec fixed.filter topic item (record { items = items; phase = phase }))
  unfolding accept
  send_self-Holds fixed topic item p w items going steady h =
      send_going-Holds dec outside laws fixed topic item p w items h
  send_self-Holds fixed topic item p w items closing steady h = ground arith
  send_self-Holds fixed topic item p w items ended steady h =
      elim (Bool-cases (fixed.filter item.metadata)) [
        | inl e ↦ rw (accept, e) (send_ended-Holds dec outside laws fixed topic item p w items h)
        | inr e ↦ rw (accept, e) (send_ended-Holds dec outside laws fixed topic item p w items h)
      ]

  apply-Holds :
      (fixed : Fixed dec outside laws) (topic : T) (op : Op T V D) (s : StreamProducer T V D S × W)
      (story : Story V D)
      → Steady story
      → Holds dec outside laws fixed topic s story
      → Holds dec outside laws fixed topic
          (apply dec outside op s)
          (tell dec fixed.filter topic op story)
  unfolding apply tell flush
  apply-Holds fixed topic (send_one t obj evict metadata) s story steady h =
      let item : Buffered V D = record { obj = obj; evict = evict; metadata = metadata } in
      elim (dec t topic) [
        | yes e ↦ rw (if_pos (dec t topic) e) (
            subst
              (λ t'.
                Holds dec outside laws fixed topic (send dec outside t' obj evict metadata s).1
                  (accept dec fixed.filter topic item story))
              (sym e) (send_self-Holds fixed topic item s.0 s.1 story.items story.phase steady h))
        | no e ↦
            rw (if_neg (dec t topic) e)
              (send_other-Holds dec outside laws fixed topic t item s.0 s.1 story e steady h)
      ]
  apply-Holds fixed topic (flush_one t) s story steady h =
      steady-Holds dec outside laws fixed topic t s story steady h
  apply-Holds fixed topic flush_all s story steady h =
      flush_topics-Holds dec outside laws fixed topic (keys s.0.buffer) s story steady h
  apply-Holds fixed topic (close ts) s story steady h =
      close_topics-Holds dec outside laws fixed topic ts s.0 s.1 story h

  -- Whatever calls are made of a producer without an aggregator, whose stores and publisher keep
  -- their laws, and whichever of the calls raise: if its story of a topic holds before, and the
  -- topic is not in the middle of its closing, it holds after, with what these calls tell of the
  -- topic added. So the accepted items are, in their order and each once, those that the published
  -- events carry followed by those in the buffer; only an ended topic has ends of the stream, at
  -- least one and after all its objects, and its buffer is empty.
  pub apply_all-Holds :
      (fixed : Fixed dec outside laws) (topic : T) (ops : List (Op T V D))
      (s : StreamProducer T V D S × W) (story : Story V D)
      → flushed story.phase ≡ story.phase
      → Holds dec outside laws fixed topic s story
      → Holds dec outside laws fixed topic
          (apply_all dec outside ops s)
          (tell_all dec fixed.filter topic ops story)
  unfolding apply_all tell_all
  apply_all-Holds fixed topic [] s story steady h = h
  apply_all-Holds fixed topic (op ∷ ops) s story steady h =
      apply_all-Holds fixed topic ops _ _ (tell-Steady fixed topic op story steady)
        (apply-Holds fixed topic op s story steady h)
