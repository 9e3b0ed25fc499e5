-- ===== src/Stream/Popping.antt =====
-- The events that a consumer has still to read, and how one of them is taken.
use mathlib.Core.Path.{subst}
use proxy_store.Prelude.{
  ◌≡◌, refl, sym, ◌∙◌, ap, arith, inl, inr, ◌⊎◌, if◌then◌else◌, Option, none, some, Bool, true,
  false, List, [], ◌∷◌, ◌++◌, length, All, length-append,
}
use proxy_store.Prelude.Exec.{ok, err, stop_iteration}
use proxy_store.Lru.{pop_last}
use proxy_store.Stream.Events.{Event, EventBatch}
use proxy_store.Stream.Consumer.{
  StreamConsumer, Access, reversed, has_events, is_end, count_events, count_current, remaining,
  refill, pop_event, next_event,
}

module _ {A : Type 0} where
  pop_last-append : (l : List A) (x : A) → pop_last (l ++ (x ∷ [])) ≡ some (x, l)
  unfolding pop_last
  pop_last-append [] x = refl
  pop_last-append (y ∷ l) x = rw (pop_last, pop_last-append l x) refl

  has_events-append : (l : List A) (x : A) → has_events (some (l ++ (x ∷ []))) ≡ true
  has_events-append [] x = refl
  has_events-append (y ∷ l) x = refl

  length-reversed : (l : List A) → length (reversed l) ≡ length l
  unfolding reversed
  length-reversed [] = refl
  length-reversed (x ∷ l) = omega (arith, length-append (reversed l) (x ∷ []), length-reversed l)

module _ {T V D C : Type 0} where
  -- all the events of some batches
  unfoldable pub all_events : List (EventBatch T V D C) → List (Event T V D C)
  all_events [] = []
  all_events (b ∷ l) = b.events ++ all_events l

  abbrev pub IsFull : EventBatch T V D C → Type 0
  IsFull b = (e : Event T V D C) × ((l : List (Event T V D C)) × (b.events ≡ e ∷ l))

  length-all_events : (l : List (EventBatch T V D C)) → length (all_events l) ≡ count_events l
  unfolding all_events
  length-all_events [] = refl
  length-all_events (b ∷ l) =
      omega (arith, length-append b.events (all_events l), length-all_events l)

  -- what is left of the current batch, last event first
  abbrev pub Current : Option (List (Event T V D C)) → List (Event T V D C) → Type 0
  Current current front = ((current ≡ none) × (front ≡ [])) ⊎ (current ≡ some (reversed front))

-- `events` is what the consumer has still to read; no batch that comes is empty
pub record Upcoming {T V D C S : Type 0} (c : StreamConsumer T V D C S)
    (events : List (Event T V D C)) : Type 0 where
  pub front : List (Event T V D C)
  pub current : Current c.current front
  pub split : events ≡ front ++ all_events c.incoming
  pub full : All IsFull c.incoming

module _ {T V D C S W : Type 0} (dec : Discrete T) (access : Access T V D C S W) where
  counted :
      (current : Option (List (Event T V D C))) (front : List (Event T V D C))
      → Current current front
      → count_current current ≡ length front
  counted current front (inl (e, e')) = ap count_current e ∙ sym (ap length e')
  counted current front (inr e) = ap count_current e ∙ length-reversed front

  -- the fuel of a call is the number of these events
  pub remaining-Upcoming :
      (c : StreamConsumer T V D C S) (events : List (Event T V D C))
      → Upcoming c events
      → remaining c ≡ length events
  remaining-Upcoming c events u = omega (
    arith,
    counted c.current u.front u.current,
    length-all_events c.incoming,
    ap length u.split,
    length-append u.front (all_events c.incoming),
  )

  -- the event that `next_event` takes
  pub record Popped (c : StreamConsumer T V D C S) (w : W) (event : Event T V D C)
      (rest : List (Event T V D C)) : Type 0 where
    pub after : StreamConsumer T V D C S
    pub result :
        next_event dec access (c, w)
        ≡ ((if is_end event then err stop_iteration else ok event), (after, w))
    pub upcoming : Upcoming after rest

  if-pair :
      {A B : Type 0} (b : Bool) (x y : A) (z : B)
      → ◌≡◌ {A = A × B} (if b then (x, z) else (y, z)) ((if b then x else y), z)
  if-pair true x y z = refl
  if-pair false x y z = refl

  pop_event_eq :
      (c : StreamConsumer T V D C S) (event : Event T V D C) (front : List (Event T V D C))
      → c.current ≡ some (reversed (event ∷ front))
      → pop_event dec access c ≡ ok (event, record c { current = some (reversed front) })
  unfolding pop_event reversed
  pop_event_eq c event front e = rw (pop_event, e, pop_last-append (reversed front) event) refl

  -- the current batch has an event
  pop_front :
      (c c' : StreamConsumer T V D C S) (w : W) (event : Event T V D C)
      (front : List (Event T V D C))
      → refill dec access c ≡ ok c'
      → c'.current ≡ some (reversed (event ∷ front))
      → next_event dec access (c, w) ≡ (
        (if is_end event then err stop_iteration else ok event),
        (record c' { current = some (reversed front) }, w),
      )
  unfolding next_event
  pop_front c c' w event front e e' =
      rw (next_event, e, pop_event_eq c' event front e') (if-pair (is_end event) _ _ _)

  has_current :
      (c : StreamConsumer T V D C S) (event : Event T V D C) (front : List (Event T V D C))
      → c.current ≡ some (reversed (event ∷ front))
      → refill dec access c ≡ ok c
  unfolding refill reversed
  has_current c event front e = rw (ap has_events e ∙ has_events-append (reversed front) event) refl

  no_current :
      (c : StreamConsumer T V D C S)
      → Current c.current []
      → refill dec access c ≡ elim c.incoming [
        | [] ↦ err stop_iteration
        | batch ∷ rest ↦ ok (record c { incoming = rest; current = some (reversed batch.events) })
      ]
  unfolding refill reversed
  no_current c (inl (e, _)) = rw (ap has_events e) refl
  no_current c (inr e) = rw (ap has_events e) refl

  refilled :
      (c : StreamConsumer T V D C S) (batch : EventBatch T V D C) (rest : List (EventBatch T V D C))
      (w : W) (event : Event T V D C) (l : List (Event T V D C))
      → Current c.current []
      → c.incoming ≡ batch ∷ rest
      → batch.events ≡ event ∷ l
      → next_event dec access (c, w) ≡ (
        (if is_end event then err stop_iteration else ok event),
        (record c { incoming = rest; current = some (reversed l) }, w),
      )
  refilled c batch rest w event l cur e e' =
      pop_front c (record c { incoming = rest; current = some (reversed batch.events) }) w event l
        (rw (no_current c cur, e) refl) (ap (λ k. some (reversed k)) e')

  nothing_to_refill :
      (c : StreamConsumer T V D C S)
      → Current c.current []
      → c.incoming ≡ []
      → refill dec access c ≡ err stop_iteration
  nothing_to_refill c cur e = rw (no_current c cur, e) refl

  none_left :
      (c : StreamConsumer T V D C S) (w : W) (front : List (Event T V D C))
      (incoming : List (EventBatch T V D C))
      → Current c.current front
      → c.incoming ≡ incoming
      → All IsFull incoming
      → [] ≡ front ++ all_events incoming
      → next_event dec access (c, w) ≡ (err stop_iteration, (c, w))
  unfolding next_event all_events
  none_left c w (x ∷ front) incoming cur e full split = ground arith
  none_left c w [] [] cur e full split = rw (next_event, nothing_to_refill c cur e) refl
  none_left c w [] (b ∷ rest) cur e ((x, (l, e')), full) split =
      absurd (cc (split, ap (λ m. m ++ all_events rest) e'))

  some_left :
      (c : StreamConsumer T V D C S) (w : W) (event : Event T V D C) (events : List (Event T V D C))
      (front : List (Event T V D C)) (incoming : List (EventBatch T V D C))
      → Current c.current front
      → c.incoming ≡ incoming
      → All IsFull incoming
      → (event ∷ events) ≡ front ++ all_events incoming
      → Popped c w event events
  unfolding all_events
  some_left c w event events (x ∷ front) incoming (inl (_, e')) e full split = ground arith
  some_left c w event events (x ∷ front) incoming (inr cur) e full split =
      subst (λ ev. Popped c w ev events) (sym cc)
        (record {
          after = record c { current = some (reversed front) };
          result = pop_front c c w x front (has_current c x front cur) cur;
          upcoming = record {
            front = front;
            current = inr refl;
            split = subst (λ i. events ≡ front ++ all_events i) (sym e) cc;
            full = subst (All IsFull) (sym e) full;
          };
        })
  some_left c w event events [] [] cur e full split = ground arith
  some_left c w event events [] (b ∷ rest) cur e ((x, (l, e')), full) split =
      subst (λ ev. Popped c w ev events) (sym (cc (split, ap (λ m. m ++ all_events rest) e')))
        (record {
          after = record c { incoming = rest; current = some (reversed l) };
          result = refilled c b rest w x l cur e e';
          upcoming = record { front = l; current = inr refl; split = cc split; full = full };
        })

  -- nothing is left
  pub next_event-none :
      (c : StreamConsumer T V D C S) (w : W)
      → Upcoming c []
      → next_event dec access (c, w) ≡ (err stop_iteration, (c, w))
  next_event-none c w u = none_left c w u.front c.incoming u.current refl u.full u.split

  pub next_event-some :
      (c : StreamConsumer T V D C S) (w : W) (event : Event T V D C) (events : List (Event T V D C))
      → Upcoming c (event ∷ events)
      → Popped c w event events
  next_event-some c w event events u =
      some_left c w event events u.front c.incoming u.current refl u.full u.split
