-- ===== src/Stream/Tests.antt =====
-- A world of published batches and of one array of stored objects, whose keys are the positions.
use mathlib.Core.Path.{subst}
use mathlib.Core.List.{append_assoc}
use proxy_store.Prelude.{
  ℕ, zero, suc, ◌<◌, ◌==◌, ◌≡◌, refl, sym, arith, ℕ_discrete, inl, Option, none, some, true, false,
  List, [], ◌∷◌, ◌++◌, length, get_elem?, length-append,
}
use proxy_store.Prelude.Dict
use proxy_store.Prelude.Dict.{insert}
use proxy_store.Prelude.Exec.{ok}
use proxy_store.Stream.Events.{Key, Event, EventBatch, end_of_stream, new_object, new_object_key}
use proxy_store.Stream.Producer.{
  StreamProducer, Outside, get_store, buffer_of, set_buffer, send, append_item, flush_topic,
  close_topics, mark_closed, aggregate, events_of, object_events, send_batch,
}
use proxy_store.Stream.Consumer.{
  StreamConsumer, Access, next_event_with_filter, iter_objects_with_metadata,
}
use proxy_store.Stream.Laws.{Laws, Stored, topic_events, Carried}
use proxy_store.Stream.Delivery.{ended, ends}
use proxy_store.Stream.Calls.{
  Op, send_one, flush_one, flush_all, close, accept, close_story, tell, tell_all, apply, apply_all,
}
use proxy_store.Stream.Holding.{Holds}
use proxy_store.Stream.Runs.{apply_all-Holds}
use proxy_store.Stream.Completion.{untold, IsFresh, IsFresh-Holds, apply_all_complete}
use proxy_store.Stream.Popping.{Upcoming, all_events}
use proxy_store.Stream.Reading.{select, wanted, Answers, Reads, next_event_with_filter-select}
use proxy_store.Stream.Iteration.{iter_objects_with_metadata-wanted}
use proxy_store.Stream.EndToEnd.{kept_items, iter_objects-end_to_end}

record World : Type 0 where
  batches : List (EventBatch ℕ ℕ ℕ ℕ)
  objects : List ℕ

abbrev found : List ℕ → List ℕ → Option ℕ
found objects [] = none
found objects (i ∷ []) = get_elem? objects i
found objects (i ∷ (j ∷ rest)) = none

abbrev positions : ℕ → List ℕ → List (Key ℕ)
positions n [] = []
positions n (_ ∷ objs) = record { type_path = 0; fields = n ∷ [] } ∷ positions (suc n) objs

abbrev outside : Outside ℕ ℕ ℕ ℕ (Unit {0}) World
outside = record {
  put_batch = λ s objs w.
      (ok (positions (length w.objects) objs), record w { objects = w.objects ++ objs });
  config = λ s. 9;
  publish = λ b w. (ok tt, record w { batches = w.batches ++ (b ∷ []) });
  empty = 0;
  update = λ old new. new;
}

get_elem?-append : (l m : List ℕ) (i x : ℕ) → get_elem? l i ≡ some x → get_elem? (l ++ m) i ≡ some x
get_elem?-append [] m i x e = ground arith
get_elem?-append (y ∷ l) m zero x e = e
get_elem?-append (y ∷ l) m (suc i) x e = get_elem?-append l m i x e

found-append :
    (l m fields : List ℕ) (x : ℕ) → found l fields ≡ some x → found (l ++ m) fields ≡ some x
found-append l m [] x e = e
found-append l m (i ∷ []) x e = get_elem?-append l m i x e
found-append l m (i ∷ (j ∷ rest)) x e = e

get_elem?-length : (l m : List ℕ) (x : ℕ) → get_elem? (l ++ (x ∷ m)) (length l) ≡ some x
get_elem?-length [] m x = refl
get_elem?-length (y ∷ l) m x = get_elem?-length l m x

positions-Stored :
    (old objs : List ℕ)
    → Stored (λ (k : Key ℕ). found (old ++ objs) k.fields) (positions (length old) objs) objs
positions-Stored old [] = tt
positions-Stored old (x ∷ objs) = (
  get_elem?-length old objs x,
  subst (λ l. Stored (λ (k : Key ℕ). found l k.fields) (positions (suc (length old)) objs) objs)
      (append_assoc old (x ∷ []) objs)
      (subst
        (λ n.
          Stored (λ (k : Key ℕ). found ((old ++ (x ∷ [])) ++ objs) k.fields) (positions n objs)
            objs)
        (omega (arith, length-append old (x ∷ []))) (positions-Stored (old ++ (x ∷ [])) objs)),
)

positions-Stored_keys :
    (old objs : List ℕ) (keys : List (Key ℕ))
    → ok (positions (length old) objs) ≡ ok keys
    → Stored (λ (k : Key ℕ). found (old ++ objs) k.fields) keys objs
positions-Stored_keys old objs keys e =
    let same : positions (length old) objs ≡ keys = cc in
    subst (λ ks. Stored (λ (k : Key ℕ). found (old ++ objs) k.fields) ks objs) same
      (positions-Stored old objs)

abbrev laws : Laws outside
laws = record {
  log = λ w. w.batches;
  view = λ w s k. found w.objects k.fields;
  publish_ok = λ b w. refl;
  publish_log = λ b w. refl;
  publish_view = λ b w s k. refl;
  put_ok = λ s objs w. (positions (length w.objects) objs, refl);
  put_stored = λ s objs w keys e. positions-Stored_keys w.objects objs keys e;
  put_keeps = λ s objs w other k obj e. found-append w.objects objs k.fields obj e;
  put_log = λ s objs w. refl;
}

abbrev producer : StreamProducer ℕ ℕ ℕ (Unit {0})
producer = record {
  aggregator = none;
  batch_size = 2;
  default_store = none;
  filter = λ d. d == 5;
  stores = some ((7, some tt) ∷ []);
  buffer = [];
}

abbrev world : World
world = record { batches = []; objects = 3 ∷ [] }

-- the second item is dropped by the filter, and the last comes when the topic is closed
abbrev calls : List (Op ℕ ℕ ℕ)
calls =
    send_one 7 10 false 1
    ∷ send_one 7 11 true 5
    ∷ send_one 8 99 false 0
    ∷ send_one 7 12 true 2
    ∷ send_one 7 13 false 3
    ∷ flush_all
    ∷ close (7 ∷ 8 ∷ [])
    ∷ send_one 7 14 false 0
    ∷ []

fresh : (topic : ℕ) → IsFresh ℕ_discrete outside laws topic producer world
unfolding topic_events
fresh topic = record { alone = refl; unused = refl; silent = refl }

ended_7 : (tell_all ℕ_discrete producer.filter 7 calls untold).phase ≡ ended
unfolding tell_all tell accept close_story ℕ_discrete
ended_7 = refl

apply_all-Holds_example :
    Holds ℕ_discrete outside laws
      (record { filter = producer.filter; store = get_store ℕ_discrete outside producer 7 })
      7
      (apply_all ℕ_discrete outside calls (producer, world))
      (tell_all ℕ_discrete producer.filter 7 calls untold)
apply_all-Holds_example =
    apply_all-Holds ℕ_discrete outside laws
      (record { filter = producer.filter; store = get_store ℕ_discrete outside producer 7 }) 7 calls
      (producer, world) untold refl
      (IsFresh-Holds ℕ_discrete outside laws 7 producer world (fresh 7))

apply_all_complete_example :
    (events : List (Event ℕ ℕ ℕ ℕ)) × ((n : ℕ) × ((0 < n)
        × ((topic_events ℕ_discrete 7
                (apply_all ℕ_discrete outside calls (producer, world)).1.batches
              ≡ events ++ ends 7 n)
            × Carried outside laws
                (apply_all ℕ_discrete outside calls (producer, world)).1
                (get_store ℕ_discrete outside producer 7)
                7
                events
                (tell_all ℕ_discrete producer.filter 7 calls untold).items)))
apply_all_complete_example =
    apply_all_complete ℕ_discrete outside laws 7 calls producer world (fresh 7) ended_7

-- all of one topic, whose objects travel with the events
abbrev direct_calls : List (Op ℕ ℕ ℕ)
direct_calls =
    send_one 8 20 false 1
    ∷ send_one 8 21 false 4
    ∷ flush_one 8
    ∷ send_one 8 22 false 2
    ∷ close (8 ∷ [])
    ∷ []

abbrev published : List (EventBatch ℕ ℕ ℕ ℕ)
published =
    record { topic = 8; events = new_object 8 20 1 ∷ new_object 8 21 4 ∷ [] }
    ∷ record { topic = 8; events = new_object 8 22 2 ∷ end_of_stream 8 ∷ [] }
    ∷ []

abbrev access : Access ℕ ℕ ℕ ℕ (Unit {0}) World
access = record {
  filter = λ d. d == 4;
  get_or_create = λ c w. (ok tt, w);
  get = λ s k w. (ok (found w.objects k.fields), w);
  evict = λ s k w. (ok tt, w);
}

abbrev consumer : StreamConsumer ℕ ℕ ℕ ℕ (Unit {0})
consumer = record { incoming = published; stores = []; current = none }

Upcoming-direct : Upcoming consumer (all_events published)
Upcoming-direct = record {
  front = [];
  current = inl (refl, refl);
  split = refl;
  full = ((new_object 8 20 1, (_, refl)), ((new_object 8 22 2, (_, refl)), tt));
}

-- what the consumer reads is what was published
direct_log :
    topic_events ℕ_discrete 8
      (apply_all ℕ_discrete outside direct_calls (producer, world)).1.batches
    ≡ all_events published
unfolding topic_events all_events apply_all apply send append_item flush_topic close_topics
    mark_closed buffer_of set_buffer get_store aggregate events_of object_events send_batch insert
    Dict.get ℕ_discrete
direct_log = refl

ended_8 : (tell_all ℕ_discrete producer.filter 8 direct_calls untold).phase ≡ ended
unfolding tell_all tell accept close_story ℕ_discrete
ended_8 = refl

no_store_8 : get_store ℕ_discrete outside producer 8 ≡ none
unfolding get_store Dict.get ℕ_discrete
no_store_8 = refl

iter_objects-end_to_end_example :
    (iter_objects_with_metadata ℕ_discrete access (consumer, world)).0
    ≡ ok (some ((1, 20) ∷ (2, 22) ∷ []))
unfolding kept_items tell_all tell accept close_story ℕ_discrete
iter_objects-end_to_end_example =
    iter_objects-end_to_end ℕ_discrete outside laws ℕ_discrete access 8 direct_calls producer world
      (consumer, world) (fresh 8) no_store_8 ended_8
      (subst (Upcoming consumer) (sym direct_log) Upcoming-direct)

iter_objects_with_metadata-wanted_example :
    (iter_objects_with_metadata ℕ_discrete access (consumer, world)).0
    ≡ ok (some ((1, 20) ∷ (2, 22) ∷ []))
unfolding wanted all_events
iter_objects_with_metadata-wanted_example =
    iter_objects_with_metadata-wanted ℕ_discrete access (consumer, world) (all_events published)
      (tt, (tt, (tt, (tt, tt)))) Upcoming-direct

-- an event that the filter drops and that evicts its object, and one with a key after it
abbrev keyed : StreamConsumer ℕ ℕ ℕ ℕ (Unit {0})
keyed = record {
  incoming =
      record {
        topic = 7;
        events = new_object_key 7 0 (0 ∷ []) true 4 9 ∷ new_object_key 7 0 (1 ∷ []) true 6 9 ∷ [];
      }
      ∷ [];
  stores = [];
  current = none;
}

answers : Answers access
answers = record { create_ok = λ c w. (tt, refl); evict_ok = λ s k w. refl }

Upcoming-keyed : Upcoming keyed (all_events keyed.incoming)
Upcoming-keyed = record {
  front = [];
  current = inl (refl, refl);
  split = refl;
  full = ((new_object_key 7 0 (0 ∷ []) true 4 9, (_, refl)), tt);
}

next_event_with_filter-select_example :
    Reads ℕ_discrete access
      (some (new_object_key 7 0 (1 ∷ []) true 6 9, []))
      (next_event_with_filter ℕ_discrete access 3 (keyed, world))
unfolding select all_events
next_event_with_filter-select_example =
    next_event_with_filter-select ℕ_discrete access answers (keyed, world)
      (all_events keyed.incoming) Upcoming-keyed
