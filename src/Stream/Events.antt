-- ===== src/Stream/Events.antt =====
-- The events of proxystore/stream/events.py. `T` is text, `V` the objects, `D` the metadata and `C`
-- the configurations of stores.
use proxy_store.Prelude.{Bool, List}

-- a key is a named tuple: the path of its type, and its fields
pub record Key (T : Type 0) : Type 0 where
  pub type_path : T
  pub fields : List T

-- `EndOfStreamEvent`, `NewObjectEvent` and `NewObjectKeyEvent`
pub data Event (T V D C : Type 0) : Type 0 where
  end_of_stream : T → Event T V D C
  new_object : T → V → D → Event T V D C
  new_object_key : T → T → List T → Bool → D → C → Event T V D C

pub record EventBatch (T V D C : Type 0) : Type 0 where
  pub topic : T
  pub events : List (Event T V D C)

-- `NewObjectKeyEvent.from_key`
unfoldable pub from_key : {T V D C : Type 0} → Key T → Bool → D → C → T → Event T V D C
from_key key evict metadata store_config topic =
    new_object_key topic key.type_path key.fields evict metadata store_config

-- `NewObjectKeyEvent.get_key`
unfoldable pub get_key : {T : Type 0} → T → List T → Key T
get_key key_type raw_key = record { type_path = key_type; fields = raw_key }
