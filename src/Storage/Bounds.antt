-- ===== src/Storage/Bounds.antt =====
-- The limit of a storage, and what it gives back.
use proxy_store.Prelude.{
  ℕ, ◌≤◌, ◌<◌, ◌≡◌, refl, ap, ◌∙◌, inl, inr, ◌⊎◌, Bool-cases, Option-cases, Option, none, some,
  true, false, List, [], ◌∷◌, arith,
}
use proxy_store.Prelude.Dict
use proxy_store.Prelude.Dict.{Dict, insert, erase, get-insert, get-erase, get-insert_self}
use proxy_store.Prelude.Exec.{ok, err, object_size_exceeded}
use proxy_store.Storage.{DictStorage, new_storage, too_large, evict, get, set, close}

-- a call of a method that changes the storage
pub data Call (K B : Type 0) : Type 0 where
  evicting : K → Call K B
  setting : K → B → Call K B
  closing : Call K B

-- the test of `set`, in numbers
fitting : (limit size : ℕ) → too_large (some limit) size ≡ false → size ≤ limit
unfolding too_large
fitting limit size e = ground arith

exceeding : (limit size : ℕ) → too_large (some limit) size ≡ true → limit < size
unfolding too_large
exceeding limit size e = ground arith

module _ {K B : Type 0} (dec : Discrete K) (size_of : B → ℕ) where
  unfoldable pub call : Call K B → DictStorage K B → DictStorage K B
  call (evicting key) s = evict dec size_of key s
  call (setting key blob) s = (set dec size_of key blob s).1
  call closing s = close dec size_of s

  unfoldable pub calls : List (Call K B) → DictStorage K B → DictStorage K B
  calls [] s = s
  calls (c ∷ rest) s = calls rest (call c s)

  abbrev pub IsBounded : Option ℕ → DictStorage K B → Type 0
  IsBounded limit s =
      (s.max_object_size ≡ limit)
      × ((key : K) (blob : B)
          → Dict.get dec key s.blobs ≡ some blob
          → too_large limit (size_of blob) ≡ false)

  set_refused :
      (key : K) (blob : B) (s : DictStorage K B)
      → too_large s.max_object_size (size_of blob) ≡ true
      → set dec size_of key blob s ≡ (err object_size_exceeded, s)
  unfolding set
  set_refused key blob s e = rw (set, e) refl

  set_taken :
      (key : K) (blob : B) (s : DictStorage K B)
      → too_large s.max_object_size (size_of blob) ≡ false
      → set dec size_of key blob s ≡ (ok tt, record s { blobs = insert dec key blob s.blobs })
  unfolding set
  set_taken key blob s e = rw (set, e) refl

  call-IsBounded :
      (limit : Option ℕ) (c : Call K B) (s : DictStorage K B)
      → IsBounded limit s
      → IsBounded limit (call c s)
  unfolding call evict close Dict.get
  call-IsBounded limit (evicting key) s (same, small) =
      (same, λ k blob e. small k blob (found k blob e))
    where
      found :
          (k : K) (blob : B)
          → Dict.get dec k (erase dec key s.blobs) ≡ some blob
          → Dict.get dec k s.blobs ≡ some blob
      found k blob e = ground (arith, get-erase dec key k s.blobs)
  call-IsBounded limit (setting key blob) s (same, small) =
      elim (Bool-cases (too_large s.max_object_size (size_of blob))) [
        | inl e ↦ rw (call, set_refused key blob s e) (same, small)
        | inr e ↦
            rw (call, set_taken key blob s e)
              (
                same,
                λ k b e'. elim (found k b e') [
                  | inl (_, this) ↦ cc (this, same, e)
                  | inr old ↦ small k b old
                ],
              )
      ]
    where
      found :
          (k : K) (b : B)
          → Dict.get dec k (insert dec key blob s.blobs) ≡ some b
          → ((key ≡ k) × (blob ≡ b)) ⊎ (Dict.get dec k s.blobs ≡ some b)
      found k b e = ground (arith, get-insert dec key k blob s.blobs)
  call-IsBounded limit closing s (same, small) = (same, λ k b e. cc)

  calls-IsBounded :
      (limit : Option ℕ) (l : List (Call K B)) (s : DictStorage K B)
      → IsBounded limit s
      → IsBounded limit (calls l s)
  unfolding calls
  calls-IsBounded limit [] s h = h
  calls-IsBounded limit (c ∷ l) s h =
      calls-IsBounded limit l (call c s) (call-IsBounded limit c s h)

  -- Whatever is called on a new storage with a limit, no blob that it then holds is longer than the
  -- limit.
  pub storage_bounded :
      (limit : ℕ) (l : List (Call K B)) (key : K) (blob : B)
      → Dict.get dec key (calls l (new_storage (some limit))).blobs ≡ some blob
      → size_of blob ≤ limit
  unfolding new_storage Dict.get
  storage_bounded limit l key blob e = fitting limit (size_of blob) (
      (calls-IsBounded (some limit) l (new_storage (some limit)) (refl, λ k b e'. cc)).1 key blob e)

  -- `get` answers the blob that was just taken, whatever its default
  taken-get :
      (key : K) (blob : B) (default : Option B) (s : DictStorage K B)
      → too_large s.max_object_size (size_of blob) ≡ false
      → ((set dec size_of key blob s).0 ≡ ok tt)
        × (get dec size_of key default (set dec size_of key blob s).1 ≡ some blob)
  unfolding get
  taken-get key blob default s e =
      rw (set_taken key blob s e) (refl, rw (get, get-insert_self dec key blob s.blobs) refl)

  -- Either the storage has a limit and the blob is longer than it: then `set` raises an
  -- `ObjectSizeExceededError` and changes nothing. Or it has no limit, or one that the blob does not
  -- exceed: then `set` succeeds, and `get` answers the blob afterwards, whatever its default.
  pub storage_get-set :
      (key : K) (blob : B) (default : Option B) (s : DictStorage K B)
      → ((limit : ℕ) × ((s.max_object_size ≡ some limit)
            × ((limit < size_of blob)
                × (set dec size_of key blob s ≡ (err object_size_exceeded, s)))))
        ⊎ (((s.max_object_size ≡ none)
              ⊎ ((limit : ℕ) × ((s.max_object_size ≡ some limit) × (size_of blob ≤ limit))))
            × (((set dec size_of key blob s).0 ≡ ok tt)
                × (get dec size_of key default (set dec size_of key blob s).1 ≡ some blob)))
  unfolding too_large
  storage_get-set key blob default s = elim (Option-cases s.max_object_size) [
    | inl unlimited ↦ inr (
      inl unlimited,
      taken-get key blob default s (ap (λ m. too_large m (size_of blob)) unlimited),
    )
    | inr (limit, e) ↦ elim (Bool-cases (too_large (some limit) (size_of blob))) [
      | inl above ↦ inl (
        limit,
        (
          e,
          (
            exceeding limit (size_of blob) above,
            set_refused key blob s (ap (λ m. too_large m (size_of blob)) e ∙ above),
          ),
        ),
      )
      | inr below ↦ inr (
        inr (limit, (e, fitting limit (size_of blob) below)),
        taken-get key blob default s (ap (λ m. too_large m (size_of blob)) e ∙ below),
      )
    ]
  ]
