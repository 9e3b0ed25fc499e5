-- ===== src/Stream/Consumer.antt =====
-- `StreamConsumer` of proxystore/stream/_consumer.py. Its stores are outside of it, in the world `W`.
use proxy_store.Prelude.{
  ℕ, zero, suc, if◌then◌else◌, Bool, true, false, Option, none, some, List, [], ◌∷◌, ◌++◌, ◌+◌,
  length,
}
use mathlib.Core.Option
use proxy_store.Prelude.Dict
use proxy_store.Prelude.Dict.{Dict, insert}
use proxy_store.Prelude.Exec.{
  Result, ok, err, Exec, Error, stop_iteration, index_error, assertion_error, value_error, map_ok,
}
use proxy_store.Lru.{pop_last}
use proxy_store.Stream.Events.{
  Key, Event, end_of_stream, new_object, new_object_key, EventBatch, get_key,
}

-- `incoming` is what the subscriber has still to give; a subscriber that ends raises `StopIteration`
pub record StreamConsumer (T V D C S : Type 0) : Type 0 where
  pub incoming : List (EventBatch T V D C)
  pub stores : Dict T S
  pub current : Option (List (Event T V D C))

-- what the consumer calls: its filter, the registry of stores and the stores
pub record Access (T V D C S W : Type 0) : Type 0 where
  pub filter : D → Bool
  pub get_or_create : C → Exec W S
  pub get : S → Key T → Exec W (Option V)
  pub evict : S → Key T → Exec W (Unit {0})

-- an object that came with its event, or the proxy of a key: its store, key and `evict`
pub data ProxyOr (T V S : Type 0) : Type 0 where
  object : V → ProxyOr T V S
  proxy : S → Key T → Bool → ProxyOr T V S

-- `reversed`
unfoldable pub reversed : {A : Type 0} → List A → List A
reversed [] = []
reversed (x ∷ l) = reversed l ++ (x ∷ [])

abbrev pub has_events : {A : Type 0} → Option (List A) → Bool
has_events none = false
has_events (some []) = false
has_events (some (_ ∷ _)) = true

abbrev pub is_end : {T V D C : Type 0} → Event T V D C → Bool
is_end (end_of_stream _) = true
is_end (new_object _ _ _) = false
is_end (new_object_key _ _ _ _ _ _) = false

-- the test of the filter; there is nothing to test at the end
abbrev pub is_filtered : {T V D C : Type 0} → (D → Bool) → Event T V D C → Bool
is_filtered filter (end_of_stream _) = false
is_filtered filter (new_object _ _ metadata) = filter metadata
is_filtered filter (new_object_key _ _ _ _ metadata _) = filter metadata

abbrev pub is_stop : Error → Bool
is_stop stop_iteration = true
is_stop _ = false

-- how many events the consumer can still read
abbrev pub count_events : {T V D C : Type 0} → List (EventBatch T V D C) → ℕ
count_events [] = 0
count_events (batch ∷ rest) = length batch.events + count_events rest

abbrev pub count_current : {A : Type 0} → Option (List A) → ℕ
count_current none = 0
count_current (some l) = length l

abbrev pub remaining : {T V D C S : Type 0} → StreamConsumer T V D C S → ℕ
remaining c = count_current c.current + count_events c.incoming

module _ {T V D C S W : Type 0} (dec : Discrete T) (access : Access T V D C S W) where
  abbrev pub Call : Type 0 → Type 0
  Call A = Exec (StreamConsumer T V D C S × W) A

  -- `_get_store`
  unfoldable pub get_store : T → C → Call S
  get_store topic config (c, w) = elim (Dict.get dec topic c.stores) [
    | some store ↦ (ok store, (c, w))
    | none ↦
        let (r, w') = access.get_or_create config w in
        elim r [
          | err e ↦ (err e, (c, w'))
          | ok store ↦ (ok store, (record c { stores = insert dec topic store c.stores }, w'))
        ]
  ]

  -- `next(self.subscriber)`, and the batch in reverse as the current one
  unfoldable pub refill : StreamConsumer T V D C S → Result (StreamConsumer T V D C S)
  refill c = if has_events c.current then ok c else elim c.incoming [
    | [] ↦ err stop_iteration
    | batch ∷ rest ↦ ok (record c { incoming = rest; current = some (reversed batch.events) })
  ]

  -- `self._current_batch.events.pop()`
  unfoldable pub pop_event :
      StreamConsumer T V D C S → Result (Event T V D C × StreamConsumer T V D C S)
  pop_event c = elim c.current [
    | none ↦ err index_error
    | some events ↦ elim (pop_last events) [
      | none ↦ err index_error
      | some (event, rest) ↦ ok (event, record c { current = some rest })
    ]
  ]

  -- `_next_event`
  unfoldable pub next_event : Call (Event T V D C)
  next_event (c, w) = elim (refill c) [
    | err e ↦ (err e, (c, w))
    | ok c' ↦ elim (pop_event c') [
      | err e ↦ (err e, (c', w))
      | ok (event, c'') ↦
          if is_end event then (err stop_iteration, (c'', w)) else (ok event, (c'', w))
    ]
  ]

  -- what is done with an event that the filter drops
  unfoldable pub drop_event : Event T V D C → Call (Unit {0})
  drop_event (end_of_stream _) s = (ok tt, s)
  drop_event (new_object _ _ _) s = (ok tt, s)
  drop_event (new_object_key topic key_type raw_key evict metadata config) s =
      if evict
      then (let (r, s') = get_store topic config s in
          elim r [
            | err e ↦ (err e, s')
            | ok store ↦
                let (q, w') = access.evict store (get_key key_type raw_key) s'.1 in (q, (s'.0, w'))
          ])
      else (ok tt, s)

  -- `_next_event_with_filter`; one unit of fuel for an event, and the loop does not end without
  unfoldable pub next_event_with_filter : ℕ → Call (Option (Event T V D C))
  next_event_with_filter zero s = (ok none, s)
  next_event_with_filter (suc fuel) s =
      let (r, s') = next_event s in
      elim r [
        | err e ↦ (err e, s')
        | ok event ↦ elim (is_filtered access.filter event) [
          | false ↦ (ok (some event), s')
          | true ↦
              let (q, s'') = drop_event event s' in
              elim q [ err e ↦ (err e, s'') | ok _ ↦ next_event_with_filter fuel s'' ]
        ]
      ]

  -- the end of `next_with_metadata`
  unfoldable pub to_proxy : Event T V D C → Call (Option (D × ProxyOr T V S))
  to_proxy (end_of_stream _) s = (err assertion_error, s)
  to_proxy (new_object topic obj metadata) s = (ok (some (metadata, object obj)), s)
  to_proxy (new_object_key topic key_type raw_key evict metadata config) s =
      let (r, s') = get_store topic config s in
      elim r [
        | err e ↦ (err e, s')
        | ok store ↦ (ok (some (metadata, proxy store (get_key key_type raw_key) evict)), s')
      ]

  -- `next_with_metadata`; `none` if the fuel ran out
  unfoldable pub next_with_metadata : Call (Option (D × ProxyOr T V S))
  next_with_metadata s =
      let (r, s') = next_event_with_filter (suc (remaining s.0)) s in
      elim r [
        | err e ↦ (err e, s')
        | ok found ↦ elim found [ none ↦ (ok none, s') | some event ↦ to_proxy event s' ]
      ]

  -- the end of `next_object_with_metadata`, when the store is known
  unfoldable pub fetch_object : S → Key T → Bool → D → Call (Option (D × V))
  fetch_object store key evict metadata (c, w) =
      let (r, w') = access.get store key w in
      elim r [
        | err e ↦ (err e, (c, w'))
        | ok found ↦ elim found [
          | none ↦ (err value_error, (c, w'))
          | some obj ↦
              if evict
              then (let (q, w'') = access.evict store key w' in
                  (map_ok (λ _. some (metadata, obj)) q, (c, w'')))
              else (ok (some (metadata, obj)), (c, w'))
        ]
      ]

  unfoldable pub to_object : Event T V D C → Call (Option (D × V))
  to_object (end_of_stream _) s = (err assertion_error, s)
  to_object (new_object topic obj metadata) s = (ok (some (metadata, obj)), s)
  to_object (new_object_key topic key_type raw_key evict metadata config) s =
      let (r, s') = get_store topic config s in
      elim r [
        | err e ↦ (err e, s')
        | ok store ↦ fetch_object store (get_key key_type raw_key) evict metadata s'
      ]

  -- `next_object_with_metadata`
  unfoldable pub next_object_with_metadata : Call (Option (D × V))
  next_object_with_metadata s =
      let (r, s') = next_event_with_filter (suc (remaining s.0)) s in
      elim r [
        | err e ↦ (err e, s')
        | ok found ↦ elim found [ none ↦ (ok none, s') | some event ↦ to_object event s' ]
      ]

  -- `iter_with_metadata`, run to its end: all that it yields, with fuel for the rounds
  unfoldable pub iter_from : ℕ → Call (Option (List (D × ProxyOr T V S)))
  iter_from zero s = (ok none, s)
  iter_from (suc n) s =
      let (r, s') = next_with_metadata s in
      elim r [
        | err e ↦ if is_stop e then (ok (some []), s') else (err e, s')
        | ok found ↦ elim found [
          | none ↦ (ok none, s')
          | some item ↦
              let (rest, s'') = iter_from n s' in (map_ok (Option.map (λ l. item ∷ l)) rest, s'')
        ]
      ]

  unfoldable pub iter_with_metadata : Call (Option (List (D × ProxyOr T V S)))
  iter_with_metadata s = iter_from (suc (remaining s.0)) s

  -- `iter_objects_with_metadata`, run to its end
  unfoldable pub iter_objects_from : ℕ → Call (Option (List (D × V)))
  iter_objects_from zero s = (ok none, s)
  iter_objects_from (suc n) s =
      let (r, s') = next_object_with_metadata s in
      elim r [
        | err e ↦ if is_stop e then (ok (some []), s') else (err e, s')
        | ok found ↦ elim found [
          | none ↦ (ok none, s')
          | some item ↦
              let (rest, s'') = iter_objects_from n s' in
              (map_ok (Option.map (λ l. item ∷ l)) rest, s'')
        ]
      ]

  unfoldable pub iter_objects_with_metadata : Call (Option (List (D × V)))
  iter_objects_with_metadata s = iter_objects_from (suc (remaining s.0)) s
