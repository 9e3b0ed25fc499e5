-- ===== src/Storage.antt =====
-- `DictStorage` of proxystore/endpoint/storage.py: the blobs of an endpoint.
pub mod Bounds
mod Tests
use proxy_store.Prelude.{ℕ, ltb, Option, none, some, Bool, false, List, [], ◌∷◌, if◌then◌else◌}
use proxy_store.Prelude.Dict
use proxy_store.Prelude.Dict.{Dict, contains, insert, erase}
use proxy_store.Prelude.Exec.{Result, ok, err, Exec, object_size_exceeded}

-- `K` is the keys and `B` the blobs; `blobs` is `_data`
pub record DictStorage (K B : Type 0) : Type 0 where
  pub blobs : Dict K B
  pub max_object_size : Option ℕ

-- `DictStorage.__init__`
unfoldable pub new_storage : {K B : Type 0} → Option ℕ → DictStorage K B
new_storage max_object_size = record { blobs = []; max_object_size = max_object_size }

-- the test of `set`
unfoldable pub too_large : Option ℕ → ℕ → Bool
too_large none size = false
too_large (some limit) size = ltb limit size

module _ {K B : Type 0} (dec : Discrete K) (size_of : B → ℕ) where
  -- `DictStorage.evict`
  unfoldable pub evict : K → DictStorage K B → DictStorage K B
  evict key s = record s { blobs = erase dec key s.blobs }

  -- `DictStorage.exists`
  unfoldable pub exists : K → DictStorage K B → Bool
  exists key s = contains dec key s.blobs

  -- `DictStorage.get`
  unfoldable pub get : K → Option B → DictStorage K B → Option B
  get key default s = elim (Dict.get dec key s.blobs) [ none ↦ default | some blob ↦ some blob ]

  -- `DictStorage.set`
  unfoldable pub set : K → B → Exec (DictStorage K B) (Unit {0})
  set key blob s =
      if too_large s.max_object_size (size_of blob)
      then (err object_size_exceeded, s)
      else (ok tt, record s { blobs = insert dec key blob s.blobs })

  -- `DictStorage.close`
  unfoldable pub close : DictStorage K B → DictStorage K B
  close s = record s { blobs = [] }
