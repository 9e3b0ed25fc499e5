-- ===== src/Storage/Tests.antt =====
-- A storage of blobs that are their own sizes.
use proxy_store.Prelude.{ℕ, ◌≤◌, ◌<◌, ◌≡◌, refl, none, some, List, [], ◌∷◌, ◌⊎◌, ℕ_discrete}
use proxy_store.Prelude.Dict
use proxy_store.Prelude.Dict.{insert}
use proxy_store.Prelude.Exec.{ok, err, object_size_exceeded}
use proxy_store.Storage.{DictStorage, new_storage, too_large, get, set, evict}
use proxy_store.Storage.Bounds.{
  Call, evicting, setting, call, calls, storage_bounded, storage_get-set,
}

abbrev size : ℕ → ℕ
size n = n

abbrev some_calls : List (Call ℕ ℕ)
some_calls = setting 1 10 ∷ setting 2 11 ∷ setting 3 4 ∷ evicting 3 ∷ []

ten_held :
    Dict.get ℕ_discrete 1 (calls ℕ_discrete size some_calls (new_storage (some 10))).blobs ≡ some 10
unfolding calls call set evict new_storage too_large insert Dict.erase Dict.get ℕ_discrete
ten_held = refl

storage_bounded_example : size 10 ≤ 10
storage_bounded_example = storage_bounded ℕ_discrete size 10 some_calls 1 10 ten_held

abbrev storage : DictStorage ℕ ℕ
storage = record { blobs = (1, 5) ∷ []; max_object_size = some 10 }

storage_get-set_example :
    ((limit : ℕ) × ((storage.max_object_size ≡ some limit)
        × ((limit < size 7)
            × (set ℕ_discrete size 1 7 storage ≡ (err object_size_exceeded, storage)))))
    ⊎ (((storage.max_object_size ≡ none)
          ⊎ ((limit : ℕ) × ((storage.max_object_size ≡ some limit) × (size 7 ≤ limit))))
        × (((set ℕ_discrete size 1 7 storage).0 ≡ ok tt)
            × (get ℕ_discrete size 1 none (set ℕ_discrete size 1 7 storage).1 ≡ some 7)))
storage_get-set_example = storage_get-set ℕ_discrete size 1 7 none storage
