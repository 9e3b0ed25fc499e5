-- ===== src/Stream/Laws.antt =====
-- What the producer relies on: stores that keep what was put in them, and a publisher that passes
-- every batch on.
use proxy_store.Prelude.{◌≡◌, Option, none, some, List, [], ◌∷◌, ◌++◌, ite}
use proxy_store.Prelude.Exec.{ok}
use proxy_store.Stream.Events.{
  Key, Event, end_of_stream, new_object, new_object_key, EventBatch, get_key,
}
use proxy_store.Stream.Producer.{Buffered, Outside}

module _ {T V : Type 0} where
  -- every key finds its object
  abbrev pub Stored : (Key T → Option V) → List (Key T) → List V → Type 0
  Stored found [] [] = Unit
  Stored found (key ∷ keys) (obj ∷ objs) = (found key ≡ some obj) × Stored found keys objs
  Stored found [] (obj ∷ objs) = ⊥
  Stored found (key ∷ keys) [] = ⊥

-- `log` is what was published, `view` what a store has under a key; `put_batch` takes new keys
pub record Laws {T V D C S W : Type 0} (outside : Outside T V D C S W) : Type 0 where
  pub log : W → List (EventBatch T V D C)
  pub view : W → S → Key T → Option V
  pub publish_ok : (b : EventBatch T V D C) (w : W) → (outside.publish b w).0 ≡ ok tt
  pub publish_log :
      (b : EventBatch T V D C) (w : W) → log (outside.publish b w).1 ≡ log w ++ (b ∷ [])
  pub publish_view :
      (b : EventBatch T V D C) (w : W) (s : S) (k : Key T)
      → view (outside.publish b w).1 s k ≡ view w s k
  pub put_ok :
      (s : S) (objs : List V) (w : W)
      → (keys : List (Key T)) × ((outside.put_batch s objs w).0 ≡ ok keys)
  pub put_stored :
      (s : S) (objs : List V) (w : W) (keys : List (Key T))
      → (outside.put_batch s objs w).0 ≡ ok keys
      → Stored (view (outside.put_batch s objs w).1 s) keys objs
  pub put_keeps :
      (s : S) (objs : List V) (w : W) (other : S) (k : Key T) (obj : V)
      → view w other k ≡ some obj
      → view (outside.put_batch s objs w).1 other k ≡ some obj
  pub put_log : (s : S) (objs : List V) (w : W) → log (outside.put_batch s objs w).1 ≡ log w

module _ {T V D C : Type 0} (dec : Discrete T) where
  -- the events of a topic, in the order in which they were published
  unfoldable pub topic_events : T → List (EventBatch T V D C) → List (Event T V D C)
  topic_events topic [] = []
  topic_events topic (b ∷ l) =
      let rest = topic_events topic l in ite (dec b.topic topic) (b.events ++ rest) rest

module _ {T V D C S W : Type 0} (outside : Outside T V D C S W) (laws : Laws outside) where
  -- The event is that of the item: the object itself, or a key that finds it.
  abbrev pub Carries : W → Option S → T → Event T V D C → Buffered V D → Type 0
  Carries w none topic (new_object t obj metadata) item =
      (t ≡ topic) × ((obj ≡ item.obj) × (metadata ≡ item.metadata))
  Carries w none topic (new_object_key _ _ _ _ _ _) item = ⊥
  Carries w none topic (end_of_stream _) item = ⊥
  Carries w (some s) topic (new_object_key t key_type raw_key evict metadata config) item =
      (t ≡ topic)
      × ((laws.view w s (get_key key_type raw_key) ≡ some item.obj)
          × ((evict ≡ item.evict) × ((metadata ≡ item.metadata) × (config ≡ outside.config s))))
  Carries w (some s) topic (new_object _ _ _) item = ⊥
  Carries w (some s) topic (end_of_stream _) item = ⊥

  -- event by event
  abbrev pub Carried : W → Option S → T → List (Event T V D C) → List (Buffered V D) → Type 0
  Carried w store topic [] [] = Unit
  Carried w store topic (e ∷ es) (item ∷ items) =
      Carries w store topic e item × Carried w store topic es items
  Carried w store topic [] (item ∷ items) = ⊥
  Carried w store topic (e ∷ es) [] = ⊥

  -- nothing that a store had is lost
  abbrev pub Kept : W → W → Type 0
  Kept w w' =
      (s : S) (k : Key T) (obj : V) → laws.view w s k ≡ some obj → laws.view w' s k ≡ some obj
