-- ===== src/Lru/Insertion.antt =====
-- `set` for a key that is not cached: when the cache is full, the least recent entry leaves.
use proxy_store.Prelude.{
  ℕ, zero, suc, ◌≤◌, ◌<◌, ◌≡◌, ◌≢◌, refl, ◌∙◌, ap, false, none, some, List, [], ◌∷◌, length, take,
  take_of_length-le, arith, dec_le,
}
use mathlib.Core.Path.{subst}
use proxy_store.Prelude.Dict
use proxy_store.Prelude.Dict.{Dict, erase, insert, get-insert, get-erase}
use proxy_store.Prelude.Keys.{
  keys, length-insert_new, keys-insert-Distinct, mem-keys, get_of_mem, length-erase,
}
use proxy_store.Prelude.Sets.{mem, remove, Distinct}
use proxy_store.Prelude.Exec.{ok}
use proxy_store.Lru.{LruCache, pop_last, set, make_room}
use proxy_store.Lru.Spec.{ideal_set, Holds}
use proxy_store.Lru.Refinement.{erase-Holds}

module _ {K : Type 0} (dec : Discrete K) where
  pop_last_cons :
      (k q : K) (l : List K)
      → k ≢ q
      → pop_last l ≡ some (q, remove dec q l)
      → pop_last (k ∷ l) ≡ some (q, remove dec q (k ∷ l))
  unfolding pop_last remove
  pop_last_cons k q l other popped = ground arith

empty_of_bounded : {A : Type 0} (l : List A) → length l ≤ 0 → l ≡ []
empty_of_bounded [] h = refl
empty_of_bounded (x ∷ l) h = absurd (omega arith)

module _ {K V : Type 0} (dec : Discrete K) where
  key_ne :
      (k q : K) (w : V) (l : Dict K V)
      → mem dec k (keys l) ≡ false
      → Dict.get dec q l ≡ some w
      → k ≢ q
  key_ne k q w l m found e = ground (arith, get_of_mem dec k l m)

  erase_cons :
      (k : K) (v : V) (q : K) (l : Dict K V)
      → k ≢ q
      → (x : Dict K V) → x ≡ (k, v) ∷ erase dec q l
      → x ≡ erase dec q ((k, v) ∷ l)
  unfolding erase
  erase_cons k v q l other x e = ground arith

  get_cons :
      (k : K) (v : V) (q : K) (l : Dict K V)
      → k ≢ q
      → Dict.get dec q ((k, v) ∷ l) ≡ Dict.get dec q l
  unfolding Dict.get
  get_cons k v q l other = ground arith

  -- Without its last entry a list without repetition is the list without its last key.
  last_entry :
      (m : ℕ) (l : Dict K V)
      → length l ≡ suc m
      → Distinct dec (keys l)
      → (q : K) × (v : V) × (pop_last (keys l) ≡ some (q, remove dec q (keys l)))
        × (take m l ≡ erase dec q l)
        × (Dict.get dec q l ≡ some v)
  unfolding pop_last remove erase Dict.get
  last_entry zero ((k, v) ∷ []) e d = (k, v, ground arith, ground arith, ground arith)
  last_entry (suc m) ((k, v) ∷ (k', v') ∷ l) e d =
      let (q, w, popped, taken, found) = last_entry m ((k', v') ∷ l) (omega arith) d.1 in
      let other : k ≢ q = key_ne k q w ((k', v') ∷ l) d.0 found in
      (
        q,
        w,
        pop_last_cons dec k q (keys ((k', v') ∷ l)) other popped,
        erase_cons k v q ((k', v') ∷ l) other ((k, v) ∷ take m ((k', v') ∷ l))
            (ap (◌∷◌ (k, v)) taken),
        get_cons k v q ((k', v') ∷ l) other ∙ found,
      )
  last_entry m l e d = absurd (omega arith)

  push-Holds :
      (k : K) (v : V) (c : LruCache K V) (l : Dict K V)
      → Holds dec c l
      → Dict.get dec k l ≡ none
      → length l < c.maxsize
      → Holds dec (record c { lru = k ∷ c.lru; entries = insert dec k v c.entries }) ((k, v) ∷ l)
  unfolding Dict.get
  push-Holds k v c l h fresh room = record {
    order = ap (◌∷◌ k) h.order;
    found = λ j. ground (arith, get-insert dec k j v c.entries, h.found j);
    unique = (ground (arith, mem-keys dec k l), h.unique);
    entries_unique = keys-insert-Distinct dec k v c.entries h.entries_unique;
    counted = omega (arith, length-insert_new dec k v c.entries (h.found k ∙ fresh), h.counted);
    bounded = room;
  }

  module _ (k : K) (v : V) (c : LruCache K V) where
    pub make_room-room : length c.entries < c.maxsize → make_room dec c ≡ (ok tt, c)
    unfolding make_room
    make_room-room e = ground arith

    pub make_room-full :
        (q : K) (w : V) (rest : List K)
        → c.maxsize ≤ length c.entries
        → pop_last c.lru ≡ some (q, rest)
        → Dict.get dec q c.entries ≡ some w
        → make_room dec c ≡ (ok tt, record c { lru = rest; entries = erase dec q c.entries })
    unfolding make_room
    make_room-full q w rest full popped found = ground arith

    set_nothing : c.maxsize ≡ 0 → set dec k v c ≡ (ok tt, c)
    unfolding set
    set_nothing e = ground arith

    -- once there is room, the key and its value go in front
    pub set_after :
        (d : LruCache K V)
        → 0 < c.maxsize
        → make_room dec c ≡ (ok tt, d)
        → set dec k v c ≡ (ok tt, record d { lru = k ∷ d.lru; entries = insert dec k v d.entries })
    unfolding set
    set_after d pos made = ground arith

  full_case :
      (k : K) (v : V) (c : LruCache K V) (l : Dict K V) (m : ℕ)
      → Holds dec c l
      → Dict.get dec k l ≡ none
      → c.maxsize ≡ suc m
      → length l ≡ suc m
      → ((set dec k v c).0 ≡ ok tt) × Holds dec (set dec k v c).1 ((k, v) ∷ take m l)
  full_case k v c l m h fresh size full =
      let (q, w, popped, taken, found) = last_entry m l full h.unique in
      let there : Dict.get dec q c.entries ≡ some w = h.found q ∙ found in
      let d = record c { lru = remove dec q c.lru; entries = erase dec q c.entries } in
      let made : make_room dec c ≡ (ok tt, d) =
        make_room-full k v c q w (remove dec q c.lru) (omega (arith, h.counted)) (rw h.order popped)
          there in
      let small : Holds dec d (erase dec q l) = erase-Holds dec q w c l h there in
      rw (set_after k v c d (omega arith) made, taken)
        (
          refl,
          push-Holds k v d (erase dec q l) small (ground (arith, get-erase dec q k l))
              (omega (arith, length-erase dec q w l h.unique found)),
        )

  room_case :
      (k : K) (v : V) (c : LruCache K V) (l : Dict K V) (m : ℕ)
      → Holds dec c l
      → Dict.get dec k l ≡ none
      → c.maxsize ≡ suc m
      → length l ≤ m
      → ((set dec k v c).0 ≡ ok tt) × Holds dec (set dec k v c).1 ((k, v) ∷ take m l)
  room_case k v c l m h fresh size room =
      let made : make_room dec c ≡ (ok tt, c) = make_room-room k v c (omega (arith, h.counted)) in
      rw (set_after k v c c (omega arith) made, take_of_length-le m l room)
        (refl, push-Holds k v c l h fresh (omega arith))

  -- On a cache that holds a list of entries, `set` of a key that is not cached never raises.
  -- A cache of size 0 stays empty; in any other one the key becomes the most recent, and of the
  -- entries that were there the most recent ones that fit stay.
  pub set-Holds :
      (k : K) (v : V) (c : LruCache K V) (l : Dict K V)
      → Holds dec c l
      → Dict.get dec k l ≡ none
      → ((set dec k v c).0 ≡ ok tt) × Holds dec (set dec k v c).1 (ideal_set c.maxsize k v l)
  set-Holds k v c l h fresh = go c.maxsize refl
    where
      go :
          (n : ℕ)
          → c.maxsize ≡ n
          → ((set dec k v c).0 ≡ ok tt) × Holds dec (set dec k v c).1 (ideal_set n k v l)
      go zero e =
          rw (set_nothing k v c e)
            (refl, subst (Holds dec c) (empty_of_bounded l (omega (arith, h.bounded))) h)
      go (suc m) e = elim (dec_le (length l) m) [
        | yes room ↦ room_case k v c l m h fresh e room
        | no full ↦ full_case k v c l m h fresh e (omega (arith, h.bounded))
      ]
