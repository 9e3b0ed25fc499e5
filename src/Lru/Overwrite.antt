-- ===== src/Lru/Overwrite.antt =====
-- `set` of a key that is cached already: the key is put a second time into the list of keys,
-- and a later `set` raises because it tries to delete an entry that is gone.
use proxy_store.Prelude.{
  ◌≤◌, ◌<◌, ◌≡◌, ◌≢◌, refl, sym, ◌∙◌, ap, none, some, List, [], ◌∷◌, length, arith,
}
use mathlib.Core.Path.{subst}
use proxy_store.Prelude.Dict
use proxy_store.Prelude.Dict.{Dict, insert, erase}
use proxy_store.Prelude.Keys.{keys}
use proxy_store.Prelude.Sets.{Distinct}
use proxy_store.Prelude.Exec.{Error, ok, err, key_error, ◌>>◌}
use proxy_store.Lru.{LruCache, set, pop_last, make_room}
use proxy_store.Lru.Spec.{Holds}
use proxy_store.Lru.Refinement.{mem-order}
use proxy_store.Lru.Insertion.{make_room-room, make_room-full, set_after}

module _ {K V : Type 0} (dec : Discrete K) where
  -- When a key that is cached is set again while there is room, the object no longer stands for
  -- any ideal cache.
  pub set_again-not-Holds :
      (k : K) (v w : V) (c : LruCache K V) (l : Dict K V)
      → Holds dec c l
      → Dict.get dec k l ≡ some w
      → length l < c.maxsize
      → (l' : Dict K V) → ¬ Holds dec (set dec k v c).1 l'
  set_again-not-Holds k v w c l h cached room l' h' =
      let made = make_room-room dec k v c (omega (arith, h.counted)) in
      let stored = set_after dec k v c c (omega (arith, h.bounded)) made in
      let order : k ∷ c.lru ≡ keys l' = sym (ap (λ r. r.1.lru) stored) ∙ h'.order in
      let twice : Distinct dec (k ∷ c.lru) = subst (Distinct dec) (sym order) h'.unique in
      cc (twice.0, mem-order dec k c l h, h.found k, cached)

  -- the least recent key of the list has no entry
  make_room_missing :
      (c : LruCache K V) (q : K) (rest : List K)
      → c.maxsize ≤ length c.entries
      → pop_last c.lru ≡ some (q, rest)
      → Dict.get dec q c.entries ≡ none
      → make_room dec c ≡ (err key_error, record c { lru = rest })
  unfolding make_room
  make_room_missing c q rest full popped missing = ground arith

  set_fails :
      (k : K) (v : V) (c d : LruCache K V) (e : Error)
      → 0 < c.maxsize
      → make_room dec c ≡ (err e, d)
      → set dec k v c ≡ (err e, d)
  unfolding set
  set_fails k v c d e pos failed = ground arith

  -- a cache of size two, by its entries and its list of keys
  abbrev pub slots : Dict K V → List K → LruCache K V
  slots entries lru = record { maxsize = 2; hits = 0; misses = 0; entries = entries; lru = lru }

  module _ (a b c d : K) (u v w x y : V) where
    first : set dec a u (slots [] []) ≡ (ok tt, slots ((a, u) ∷ []) (a ∷ []))
    unfolding insert
    first = set_after dec a u _ _ (omega arith) (make_room-room dec a u _ (omega arith))

    again : set dec a v (slots ((a, u) ∷ []) (a ∷ [])) ≡ (ok tt, slots ((a, v) ∷ []) (a ∷ a ∷ []))
    unfolding insert
    again =
        set_after dec a v _ _ (omega arith) (make_room-room dec a v _ (omega arith)) ∙ ground arith

    second :
        a ≢ b
        → set dec b w (slots ((a, v) ∷ []) (a ∷ a ∷ []))
          ≡ (ok tt, slots ((a, v) ∷ (b, w) ∷ []) (b ∷ a ∷ a ∷ []))
    unfolding insert
    second ab =
        set_after dec b w _ _ (omega arith) (make_room-room dec b w _ (omega arith)) ∙ ground arith

    third :
        a ≢ b
        → b ≢ c
        → set dec c x (slots ((a, v) ∷ (b, w) ∷ []) (b ∷ a ∷ a ∷ []))
          ≡ (ok tt, slots ((b, w) ∷ (c, x) ∷ []) (c ∷ b ∷ a ∷ []))
    unfolding insert erase pop_last Dict.get
    third ab bc =
        set_after dec c x _ (slots ((b, w) ∷ []) (b ∷ a ∷ [])) (omega arith) (
          make_room-full dec c x _ a v (b ∷ a ∷ []) (omega arith) refl (ground arith)
          ∙ ground arith)
        ∙ ground arith

    fourth :
        a ≢ b
        → a ≢ c
        → (set dec d y (slots ((b, w) ∷ (c, x) ∷ []) (c ∷ b ∷ a ∷ []))).0 ≡ err key_error
    unfolding pop_last Dict.get
    fourth ab ac =
        ap (λ r. r.0)
          (set_fails d y _ _ key_error (omega arith)
            (make_room_missing _ a (c ∷ b ∷ []) (omega arith) (ground arith) (ground arith)))

    -- Whatever the keys and the values, if the first three keys differ, setting the first key
    -- twice and then the other three makes a new cache of size two raise a `KeyError`.
    pub set_again-raises :
        a ≢ b
        → a ≢ c
        → b ≢ c
        → ((set dec a u >> set dec a v >> set dec b w >> set dec c x >> set dec d y)
            (slots [] [])).0
          ≡ err key_error
    set_again-raises ab ac bc = ground (arith, first, again, second ab, third ab bc, fourth ab ac)
