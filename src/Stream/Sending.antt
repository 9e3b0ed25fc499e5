-- ===== src/Stream/Sending.antt =====
-- A `send` keeps the story of a topic true.
use mathlib.Core.Path.{subst, ap₂}
use mathlib.Core.List.{append_assoc}
use proxy_store.Prelude.{
  ◌≡◌, ◌≢◌, refl, sym, ◌∙◌, ap, if◌then◌else◌, leb, length, Bool-cases, inl, inr, Option, Bool,
  true, false, List, [], ◌∷◌, ◌++◌,
}
use proxy_store.Prelude.Exec.{Result, ok, topic_closed, err}
use proxy_store.Stream.Producer.{
  Buffered, TopicBuffer, StreamProducer, Outside, buffer_of, set_buffer, append_item, send,
}
use proxy_store.Stream.Laws.{Laws}
use proxy_store.Stream.Delivery.{going, ended, Story, flushed, Track}
use proxy_store.Stream.Calls.{accept}
use proxy_store.Stream.Holding.{Fixed, Holds, set-Holds, set_other-Holds, steady-Holds}

module _ {T V D C S W : Type 0} (dec : Discrete T) (outside : Outside T V D C S W)
    (laws : Laws outside) where
  -- the branches of `send`
  branch :
      T
      → Buffered V D
      → StreamProducer T V D S
      → W
      → Bool
      → Bool
      → (Result (Unit {0}) × (StreamProducer T V D S × W))
  branch t item p w closed dropped =
      if closed
      then (err topic_closed, (set_buffer dec outside t (buffer_of dec outside p t) p, w))
      else if dropped
      then (ok tt, (set_buffer dec outside t (buffer_of dec outside p t) p, w))
      else append_item dec outside t item (p, w)

  send-branch :
      (t : T) (item : Buffered V D) (p : StreamProducer T V D S) (w : W) (closed dropped : Bool)
      → (buffer_of dec outside p t).closed ≡ closed
      → p.filter item.metadata ≡ dropped
      → send dec outside t item.obj item.evict item.metadata (p, w)
        ≡ branch t item p w closed dropped
  unfolding send branch
  send-branch t item p w closed dropped e e' = ap₂ (λ c d. branch t item p w c d) e e'

  append-Track :
      (topic : T) (store : Option S) (b : TopicBuffer V D) (w : W) (items : List (Buffered V D))
      (item : Buffered V D)
      → Track dec outside laws topic store b w (record { items = items; phase = going })
      → Track dec outside laws topic store
          (record b { objects = b.objects ++ (item ∷ []) })
          w
          (record { items = items ++ (item ∷ []); phase = going })
  append-Track topic store b w items item t = record {
    done = t.done;
    events = t.events;
    count = t.count;
    published = t.published;
    carried = t.carried;
    all_items = ap (λ l. l ++ (item ∷ [])) t.all_items ∙ append_assoc t.done b.objects (item ∷ []);
    in_phase = t.in_phase;
  }

  -- the flush of a full buffer
  -- an item is written to its buffer, which is flushed if it is full
  append_item-Holds :
      (fixed : Fixed dec outside laws) (topic t : T) (item : Buffered V D)
      (p : StreamProducer T V D S) (w : W) (story : Story V D)
      → flushed story.phase ≡ story.phase
      → Holds dec outside laws fixed topic
          (
            set_buffer dec outside t
                (record (buffer_of dec outside p t) {
                  objects = (buffer_of dec outside p t).objects ++ (item ∷ []);
                })
                p,
            w,
          )
          story
      → Holds dec outside laws fixed topic (append_item dec outside t item (p, w)).1 story
  unfolding append_item
  append_item-Holds fixed topic t item p w story steady h =
      elim (Bool-cases
        (leb p.batch_size (length ((buffer_of dec outside p t).objects ++ (item ∷ []))))) [
          | inl e ↦
              rw (append_item, e) (steady-Holds dec outside laws fixed topic t _ story steady h)
          | inr e ↦ rw (append_item, e) h
        ]

  branch-Holds :
      (fixed : Fixed dec outside laws) (topic t : T) (item : Buffered V D)
      (p : StreamProducer T V D S) (w : W) (closed dropped : Bool) (story : Story V D)
      → (buffer_of dec outside p t).closed ≡ closed
      → p.filter item.metadata ≡ dropped
      → Holds dec outside laws fixed topic (branch t item p w closed dropped).1 story
      → Holds dec outside laws fixed topic
          (send dec outside t item.obj item.evict item.metadata (p, w)).1
          story
  branch-Holds fixed topic t item p w closed dropped story e e' h =
      subst (λ r. Holds dec outside laws fixed topic r.1 story)
        (sym (send-branch t item p w closed dropped e e')) h

  pub send_going-Holds :
      (fixed : Fixed dec outside laws) (topic : T) (item : Buffered V D)
      (p : StreamProducer T V D S) (w : W) (items : List (Buffered V D))
      → Holds dec outside laws fixed topic (p, w) (record { items = items; phase = going })
      → Holds dec outside laws fixed topic
          (send dec outside topic item.obj item.evict item.metadata (p, w)).1
          (accept dec fixed.filter topic item (record { items = items; phase = going }))
  unfolding accept branch
  send_going-Holds fixed topic item p w items h = elim (Bool-cases (fixed.filter item.metadata)) [
    | inl e ↦
        rw (accept, e)
          (branch-Holds fixed topic topic item p w false true _ h.track.in_phase.0
            (ap (λ f. f item.metadata) h.filters ∙ e)
            (set-Holds dec outside laws fixed topic p w _ _ h.alone h.filters h.stores h.track))
    | inr e ↦
        rw (accept, e)
          (branch-Holds fixed topic topic item p w false false _ h.track.in_phase.0
            (ap (λ f. f item.metadata) h.filters ∙ e)
            (append_item-Holds fixed topic topic item p w _ refl (
              set-Holds dec outside laws fixed topic p w _ _ h.alone h.filters h.stores
                (append-Track topic _ _ w items item h.track))))
  ]

  pub send_ended-Holds :
      (fixed : Fixed dec outside laws) (topic : T) (item : Buffered V D)
      (p : StreamProducer T V D S) (w : W) (items : List (Buffered V D))
      → Holds dec outside laws fixed topic (p, w) (record { items = items; phase = ended })
      → Holds dec outside laws fixed topic
          (send dec outside topic item.obj item.evict item.metadata (p, w)).1
          (record { items = items; phase = ended })
  unfolding branch
  send_ended-Holds fixed topic item p w items h =
      branch-Holds fixed topic topic item p w true (p.filter item.metadata) _ h.track.in_phase.0
        refl (set-Holds dec outside laws fixed topic p w _ _ h.alone h.filters h.stores h.track)

  pub send_other-Holds :
      (fixed : Fixed dec outside laws) (topic t : T) (item : Buffered V D)
      (p : StreamProducer T V D S) (w : W) (story : Story V D)
      → t ≢ topic
      → flushed story.phase ≡ story.phase
      → Holds dec outside laws fixed topic (p, w) story
      → Holds dec outside laws fixed topic
          (send dec outside t item.obj item.evict item.metadata (p, w)).1
          story
  unfolding branch
  send_other-Holds fixed topic t item p w story other steady h =
      branch-Holds fixed topic t item p w _ _ story refl refl
        (each (buffer_of dec outside p t).closed (p.filter item.metadata))
    where
      each :
          (closed dropped : Bool)
          → Holds dec outside laws fixed topic (branch t item p w closed dropped).1 story
      each true dropped = set_other-Holds dec outside laws fixed topic t p w _ story other h
      each false true = set_other-Holds dec outside laws fixed topic t p w _ story other h
      each false false =
          append_item-Holds fixed topic t item p w story steady
            (set_other-Holds dec outside laws fixed topic t p w _ story other h)
