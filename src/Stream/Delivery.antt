-- ===== src/Stream/Delivery.antt =====
-- What has become of the items of one topic: published, in order, or still in its buffer.
use mathlib.Core.Path.{subst}
use mathlib.Core.List.{append-nil, append_assoc}
use proxy_store.Prelude.{
  ℕ, zero, suc, ◌<◌, ◌≡◌, refl, sym, ◌∙◌, ap, arith, Option, true, false, List, [], ◌∷◌, ◌++◌,
}
use proxy_store.Stream.Events.{Event, end_of_stream}
use proxy_store.Stream.Producer.{
  Buffered, TopicBuffer, StreamProducer, Outside, get_store, buffer_of,
}
use proxy_store.Stream.Laws.{Laws, topic_events, Carried, Kept}
use proxy_store.Stream.Flush.{ending}
use proxy_store.Stream.Flushing.{Flushed, Carried-Kept}

-- a topic is closed and then, with the flush that follows, ended
pub data Phase : Type 0 where
  going closing ended : Phase

-- what a producer is told of a topic: the items that it accepted, and whether the topic is closed
pub record Story (V D : Type 0) : Type 0 where
  pub items : List (Buffered V D)
  pub phase : Phase

abbrev pub flushed : Phase → Phase
flushed going = going
flushed closing = ended
flushed ended = ended

abbrev pub ends : {T V D C : Type 0} → T → ℕ → List (Event T V D C)
ends topic zero = []
ends topic (suc n) = ends topic n ++ (end_of_stream topic ∷ [])

-- the buffer in a phase, when `n` ends of the stream were published
abbrev pub InPhase : {V D : Type 0} → Phase → TopicBuffer V D → ℕ → Type 0
InPhase going b n = (b.closed ≡ false) × (n ≡ 0)
InPhase closing b n = (b.closed ≡ true) × (n ≡ 0)
InPhase ended b n = (b.closed ≡ true) × ((b.objects ≡ []) × (0 < n))

module _ {T V D C S W : Type 0} (dec : Discrete T) (outside : Outside T V D C S W)
    (laws : Laws outside) where
  -- what was published for the topic carries the items of before, and its buffer has the others
  pub record Track (topic : T) (store : Option S) (b : TopicBuffer V D) (w : W) (story : Story V D)
      : Type 0 where
    pub done : List (Buffered V D)
    pub events : List (Event T V D C)
    pub count : ℕ
    pub published : topic_events dec topic (laws.log w) ≡ events ++ ends topic count
    pub carried : Carried outside laws w store topic events done
    pub all_items : story.items ≡ done ++ b.objects
    pub in_phase : InPhase story.phase b count

  Carried-append :
      (topic : T) (store : Option S) (es es' : List (Event T V D C))
      (items items' : List (Buffered V D)) (w : W)
      → Carried outside laws w store topic es items
      → Carried outside laws w store topic es' items'
      → Carried outside laws w store topic (es ++ es') (items ++ items')
  Carried-append topic store [] es' [] items' w c c' = c'
  Carried-append topic store [] es' (item ∷ items) items' w c c' = absurd c
  Carried-append topic store (e ∷ es) es' [] items' w c c' = absurd c
  Carried-append topic store (e ∷ es) es' (item ∷ items) items' w (here, c) c' =
      (here, Carried-append topic store es es' items items' w c c')

  -- no item, no event
  Carried-nil :
      (topic : T) (store : Option S) (es : List (Event T V D C)) (w : W)
      → Carried outside laws w store topic es []
      → es ≡ []
  Carried-nil topic store [] w c = refl
  Carried-nil topic store (e ∷ es) w c = absurd c

  -- the publishing of a flush of the topic, phase by phase
  log-flushed :
      (topic : T) (store : Option S) (b : TopicBuffer V D) (w : W) (phase : Phase) (n : ℕ)
      (es : List (Event T V D C))
      → InPhase phase b n
      → Carried outside laws w store topic es b.objects
      → (m : ℕ) × ((ends topic n ++ (es ++ ending dec outside laws topic b.closed)
            ≡ es ++ ends topic m)
          × InPhase (flushed phase) (record b { objects = [] }) m)
  log-flushed topic store b w going n es (e, none_yet) c = (0, (rw (none_yet, e) refl, (e, refl)))
  log-flushed topic store b w closing n es (e, none_yet) c =
      (1, (rw (none_yet, e) refl, (e, (refl, omega arith))))
  log-flushed topic store b w ended n es (e, (empty, some_yet)) c = (
    suc n,
    (
      rw
          (
            Carried-nil topic store es w
                (subst (λ l. Carried outside laws w store topic es l) empty c),
            e,
          )
          refl,
      (e, (refl, omega arith)),
    ),
  )

  -- a flush of the topic itself
  pub Track-flush :
      (topic : T) (p : StreamProducer T V D S) (w : W) (story : Story V D)
      → (f : Flushed dec outside laws topic p w)
      → Track topic (get_store dec outside p topic) (buffer_of dec outside p topic) w story
      → Track topic
          (get_store dec outside p topic)
          (record (buffer_of dec outside p topic) { objects = [] })
          f.after
          (record story { phase = flushed story.phase })
  Track-flush topic p w story f t =
      let (m, (log, phase)) =
        log-flushed topic _ _ f.after story.phase t.count f.events t.in_phase f.carried in
      record {
        done = t.done ++ (buffer_of dec outside p topic).objects;
        events = t.events ++ f.events;
        count = m;
        published =
            f.published
            ∙ (ap
                  (λ l.
                    l
                    ++ (f.events
                        ++ ending dec outside laws topic (buffer_of dec outside p topic).closed))
                  t.published
                ∙ (append_assoc t.events _ _
                    ∙ (ap (λ l. t.events ++ l) log ∙ sym (append_assoc t.events _ _))));
        carried =
            Carried-append topic _ t.events f.events t.done _ f.after
              (Carried-Kept dec outside laws topic _ t.events t.done w f.after f.kept t.carried)
              f.carried;
        all_items = t.all_items ∙ sym (append-nil _);
        in_phase = phase;
      }

  -- a step that leaves the topic alone
  pub Track-other :
      (topic : T) (store : Option S) (b : TopicBuffer V D) (w w' : W) (story : Story V D)
      → topic_events dec topic (laws.log w') ≡ topic_events dec topic (laws.log w)
      → Kept outside laws w w'
      → Track topic store b w story
      → Track topic store b w' story
  Track-other topic store b w w' story same kept t = record {
    done = t.done;
    events = t.events;
    count = t.count;
    published = same ∙ t.published;
    carried = Carried-Kept dec outside laws topic store t.events t.done w w' kept t.carried;
    all_items = t.all_items;
    in_phase = t.in_phase;
  }
