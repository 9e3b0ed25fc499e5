-- ===== src/Stream/Holding.antt =====
-- Flushing and closing keep the story of a topic true.
use mathlib.Core.Path.{subst}
use proxy_store.Prelude.{
  ◌≡◌, ◌≢◌, refl, sym, ap, ite, if_pos, if_neg, Option, none, Bool, true, List, [], ◌∷◌,
}
use proxy_store.Prelude.Exec.{ok}
use proxy_store.Stream.Producer.{
  TopicBuffer, StreamProducer, Outside, get_store, buffer_of, set_buffer, mark_closed, flush_topic,
  flush_topics, close_topics,
}
use proxy_store.Stream.Laws.{Laws}
use proxy_store.Stream.Flush.{buffer_of-set_self, buffer_of-set_ne}
use proxy_store.Stream.Flushing.{flush_topic-Flushed}
use proxy_store.Stream.Delivery.{
  Phase, going, closing, ended, Story, flushed, InPhase, Track, Track-flush, Track-other,
}
use proxy_store.Stream.Calls.{close_story}

module _ {T V D C S W : Type 0} (dec : Discrete T) (outside : Outside T V D C S W)
    (laws : Laws outside) where
  -- what no call changes: the filter, and the store of the topic
  pub record Fixed : Type 0 where
    pub filter : D → Bool
    pub store : Option S

  -- the story of a topic is that of the state
  pub record Holds (fixed : Fixed) (topic : T) (s : StreamProducer T V D S × W) (story : Story V D)
      : Type 0 where
    pub alone : s.0.aggregator ≡ none
    pub filters : s.0.filter ≡ fixed.filter
    pub stores : get_store dec outside s.0 topic ≡ fixed.store
    pub track :
        Track dec outside laws topic
          (get_store dec outside s.0 topic)
          (buffer_of dec outside s.0 topic)
          s.1
          story

  -- a buffer is written, and nothing else
  pub set-Holds :
      (fixed : Fixed) (topic : T) (p : StreamProducer T V D S) (w : W) (b : TopicBuffer V D)
      (story : Story V D)
      → p.aggregator ≡ none
      → p.filter ≡ fixed.filter
      → get_store dec outside p topic ≡ fixed.store
      → Track dec outside laws topic (get_store dec outside p topic) b w story
      → Holds fixed topic (set_buffer dec outside topic b p, w) story
  unfolding set_buffer get_store
  set-Holds fixed topic p w b story alone filters stores track = record {
    alone = alone;
    filters = filters;
    stores = stores;
    track =
        subst (λ b'. Track dec outside laws topic (get_store dec outside p topic) b' w story)
          (sym (buffer_of-set_self dec outside topic b p)) track;
  }

  pub set_other-Holds :
      (fixed : Fixed) (topic other : T) (p : StreamProducer T V D S) (w : W) (b : TopicBuffer V D)
      (story : Story V D)
      → other ≢ topic
      → Holds fixed topic (p, w) story
      → Holds fixed topic (set_buffer dec outside other b p, w) story
  unfolding set_buffer get_store
  set_other-Holds fixed topic other p w b story ne h = record {
    alone = h.alone;
    filters = h.filters;
    stores = h.stores;
    track =
        subst (λ b'. Track dec outside laws topic (get_store dec outside p topic) b' w story)
          (sym (buffer_of-set_ne dec outside other topic b p ne)) h.track;
  }

  -- `flush_topic`, of the topic and of others; it does not raise
  pub flush-ok :
      (fixed : Fixed) (topic t : T) (s : StreamProducer T V D S × W) (story : Story V D)
      → Holds fixed topic s story
      → (flush_topic dec outside t s).0 ≡ ok tt
  flush-ok fixed topic t s story h =
      let f = flush_topic-Flushed dec outside laws t s.0 s.1 h.alone in ap (λ r. r.0) f.result

  pub flush-Holds :
      (fixed : Fixed) (topic : T) (s : StreamProducer T V D S × W) (story : Story V D)
      → Holds fixed topic s story
      → Holds fixed topic
          (flush_topic dec outside topic s).1
          (record story { phase = flushed story.phase })
  flush-Holds fixed topic s story h =
      let f = flush_topic-Flushed dec outside laws topic s.0 s.1 h.alone in
      subst (λ r. Holds fixed topic r.1 (record story { phase = flushed story.phase }))
        (sym f.result)
        (set-Holds fixed topic s.0 f.after _ _ h.alone h.filters h.stores
          (Track-flush dec outside laws topic s.0 s.1 story f h.track))

  pub flush_other-Holds :
      (fixed : Fixed) (topic other : T) (s : StreamProducer T V D S × W) (story : Story V D)
      → other ≢ topic
      → Holds fixed topic s story
      → Holds fixed topic (flush_topic dec outside other s).1 story
  flush_other-Holds fixed topic other s story ne h =
      let f = flush_topic-Flushed dec outside laws other s.0 s.1 h.alone in
      subst (λ r. Holds fixed topic r.1 story) (sym f.result)
        (set_other-Holds fixed topic other s.0 f.after _ story ne (record {
          alone = h.alone;
          filters = h.filters;
          stores = h.stores;
          track =
              Track-other dec outside laws topic _ _ s.1 f.after story (f.others topic ne) f.kept
                h.track;
        }))

  -- a flush of any topic that is not being closed
  pub steady-Holds :
      (fixed : Fixed) (topic t : T) (s : StreamProducer T V D S × W) (story : Story V D)
      → flushed story.phase ≡ story.phase
      → Holds fixed topic s story
      → Holds fixed topic (flush_topic dec outside t s).1 story
  steady-Holds fixed topic t s story steady h = elim (dec t topic) [
    | yes p ↦
        subst (λ t'. Holds fixed topic (flush_topic dec outside t' s).1 story) (sym p)
          (subst
            (λ phase.
              Holds fixed topic (flush_topic dec outside topic s).1
                (record story { phase = phase }))
            steady (flush-Holds fixed topic s story h))
    | no other ↦ flush_other-Holds fixed topic t s story other h
  ]

  pub flush_topics-Holds :
      (fixed : Fixed) (topic : T) (ts : List T) (s : StreamProducer T V D S × W) (story : Story V D)
      → flushed story.phase ≡ story.phase
      → Holds fixed topic s story
      → Holds fixed topic (flush_topics dec outside ts s).1 story
  unfolding flush_topics
  flush_topics-Holds fixed topic [] s story steady h = h
  flush_topics-Holds fixed topic (t ∷ ts) s story steady h =
      rw (flush_topics, flush-ok fixed topic t s story h)
        (flush_topics-Holds fixed topic ts _ story steady
          (steady-Holds fixed topic t s story steady h))

  -- the flag is set, and the flush ends the topic
  abbrev marked : (phase : Phase) → Phase
  marked going = closing
  marked closing = closing
  marked ended = ended

  mark-Track :
      (topic : T) (store : Option S) (b : TopicBuffer V D) (w : W) (story : Story V D)
      → Track dec outside laws topic store b w story
      → Track dec outside laws topic store
          (record b { closed = true })
          w
          (record story { phase = marked story.phase })
  mark-Track topic store b w story t = record {
    done = t.done;
    events = t.events;
    count = t.count;
    published = t.published;
    carried = t.carried;
    all_items = t.all_items;
    in_phase = mark_phase story.phase t.in_phase;
  }
    where
      mark_phase :
          (phase : Phase)
          → InPhase phase b t.count
          → InPhase (marked phase) (record b { closed = true }) t.count
      mark_phase going (e, n) = (refl, n)
      mark_phase closing (e, n) = (refl, n)
      mark_phase ended (e, n) = (refl, n)

  flushed-marked : (phase : Phase) → flushed (marked phase) ≡ ended
  flushed-marked going = refl
  flushed-marked closing = refl
  flushed-marked ended = refl

  close_self-Holds :
      (fixed : Fixed) (topic : T) (p : StreamProducer T V D S) (w : W) (story : Story V D)
      → Holds fixed topic (p, w) story
      → Holds fixed topic
          (flush_topic dec outside topic (mark_closed dec outside topic p, w)).1
          (record story { phase = ended })
  unfolding mark_closed
  close_self-Holds fixed topic p w story h =
      let b : TopicBuffer V D = record (buffer_of dec outside p topic) { closed = true } in
      subst
        (λ phase.
          Holds fixed topic (flush_topic dec outside topic (set_buffer dec outside topic b p, w)).1
            (record story { phase = phase }))
        (flushed-marked story.phase)
        (flush-Holds fixed topic (set_buffer dec outside topic b p, w)
          (record story { phase = marked story.phase })
          (set-Holds fixed topic p w b _ h.alone h.filters h.stores
            (mark-Track topic _ _ w story h.track)))

  close_one-Holds :
      (fixed : Fixed) (topic t : T) (p : StreamProducer T V D S) (w : W) (story : Story V D)
      → Holds fixed topic (p, w) story
      → Holds fixed topic
          (flush_topic dec outside t (mark_closed dec outside t p, w)).1
          (ite (dec t topic) (record story { phase = ended }) story)
  unfolding mark_closed
  close_one-Holds fixed topic t p w story h = elim (dec t topic) [
    | yes same ↦ rw (if_pos (dec t topic) same) (
        subst
          (λ t'.
            Holds fixed topic (flush_topic dec outside t' (mark_closed dec outside t' p, w)).1
              (record story { phase = ended }))
          (sym same) (close_self-Holds fixed topic p w story h))
    | no other ↦ rw (if_neg (dec t topic) other) (
        flush_other-Holds fixed topic t _ story other (
          set_other-Holds fixed topic t p w (record (buffer_of dec outside p t) { closed = true })
            story other h))
  ]

  marked-ok :
      (fixed : Fixed) (topic t : T) (p : StreamProducer T V D S) (w : W) (story : Story V D)
      → Holds fixed topic (p, w) story
      → (flush_topic dec outside t (mark_closed dec outside t p, w)).0 ≡ ok tt
  unfolding mark_closed set_buffer
  marked-ok fixed topic t p w story h =
      ap (λ r. r.0)
        (flush_topic-Flushed dec outside laws t (mark_closed dec outside t p) w h.alone).result

  pub close_topics-Holds :
      (fixed : Fixed) (topic : T) (ts : List T) (p : StreamProducer T V D S) (w : W)
      (story : Story V D)
      → Holds fixed topic (p, w) story
      → Holds fixed topic
          (close_topics dec outside ts (p, w)).1
          (close_story dec fixed.filter topic ts story)
  unfolding close_topics close_story
  close_topics-Holds fixed topic [] p w story h = h
  close_topics-Holds fixed topic (t ∷ ts) p w story h =
      rw (close_topics, marked-ok fixed topic t p w story h)
        (close_topics-Holds fixed topic ts _ _ _ (close_one-Holds fixed topic t p w story h))
