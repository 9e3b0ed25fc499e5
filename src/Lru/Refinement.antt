-- ===== src/Lru/Refinement.antt =====
-- `exists`, `get` and `evict` beside the ideal cache.
use proxy_store.Prelude.{
  ℕ, ◌+◌, ◌≡◌, refl, sym, ◌∙◌, ap, inl, inr, true, Option, none, some, [], ◌∷◌, arith, Option-cases,
  is_some,
}
use proxy_store.Prelude.Dict
use proxy_store.Prelude.Dict.{Dict, erase, insert, get-erase, get-insert}
use proxy_store.Prelude.Keys.{keys, mem-keys, keys-erase, length-erase, erase_absent}
use proxy_store.Prelude.Sets.{mem, remove, remove-Distinct, mem-remove_self}
use proxy_store.Prelude.Exec.{ok}
use proxy_store.Prelude.Int.{pos}
use proxy_store.Lru
use proxy_store.Lru.{LruCache, pop_last, init, evict, exists, set, make_room}
use proxy_store.Lru.Spec.{ideal_get, Holds}

module _ {K V : Type 0} (dec : Discrete K) where
  -- A new cache of size `n` holds nothing.
  init-Holds :
      (n : ℕ) → (c : LruCache K V) × (init (pos n) ≡ ok c) × (c.maxsize ≡ n) × Holds dec c []
  unfolding init Dict.get
  init-Holds n = (
    record { maxsize = n; hits = 0; misses = 0; entries = []; lru = [] },
    refl,
    refl,
    record {
      order = refl;
      found = λ k. refl;
      unique = tt;
      entries_unique = tt;
      counted = refl;
      bounded = omega arith;
    },
  )

  -- On a cache that holds a list of entries, `exists` answers whether the key has one.
  pub exists-Holds :
      (k : K) (c : LruCache K V) (l : Dict K V)
      → Holds dec c l
      → exists dec k c ≡ is_some (Dict.get dec k l)
  unfolding exists
  exists-Holds k c l h = ap is_some (h.found k)

  -- a held entry is in the list of keys
  pub mem-order :
      (k : K) (c : LruCache K V) (l : Dict K V)
      → Holds dec c l
      → mem dec k c.lru ≡ is_some (Dict.get dec k c.entries)
  mem-order k c l h = rw (h.order, h.found k) (mem-keys dec k l)

  pub ideal_get_miss : (k : K) (l : Dict K V) → Dict.get dec k l ≡ none → ideal_get dec k l ≡ l
  ideal_get_miss k l e = rw (e, ideal_get)

  ideal_get_hit :
      (k : K) (v : V) (l : Dict K V)
      → Dict.get dec k l ≡ some v
      → ideal_get dec k l ≡ (k, v) ∷ erase dec k l
  ideal_get_hit k v l e = rw (e, ideal_get)

  -- what stands in the dictionary and what the ideal cache holds are absent together
  found_none :
      (k : K) (c : LruCache K V) (l : Dict K V)
      → Holds dec c l
      → Dict.get dec k c.entries ≡ none
      → Dict.get dec k l ≡ none
  found_none k c l h e = sym (h.found k) ∙ e

  pub erase-Holds :
      (k : K) (v : V) (c : LruCache K V) (l : Dict K V)
      → Holds dec c l
      → Dict.get dec k c.entries ≡ some v
      → Holds dec
          (record c { entries = erase dec k c.entries; lru = remove dec k c.lru })
          (erase dec k l)
  erase-Holds k v c l h e = record {
    order = rw (h.order, keys-erase dec k l h.unique);
    found = λ j. ground (arith, get-erase dec k j c.entries, get-erase dec k j l, h.found j);
    unique = rw (keys-erase dec k l h.unique) (remove-Distinct dec k (keys l) h.unique);
    entries_unique =
        rw (keys-erase dec k c.entries h.entries_unique)
          (remove-Distinct dec k (keys c.entries) h.entries_unique);
    counted = omega (
      arith,
      length-erase dec k v c.entries h.entries_unique e,
      length-erase dec k v l h.unique (sym (h.found k) ∙ e),
      h.counted,
    );
    bounded = omega (arith, length-erase dec k v l h.unique (sym (h.found k) ∙ e), h.bounded);
  }

  module _ (k : K) (c : LruCache K V) where
    evict_miss : Dict.get dec k c.entries ≡ none → evict dec k c ≡ (ok tt, c)
    unfolding evict
    evict_miss e = ground arith

    evict_hit :
        (v : V)
        → Dict.get dec k c.entries ≡ some v
        → mem dec k c.lru ≡ true
        → evict dec k c
          ≡ (ok tt, record c { entries = erase dec k c.entries; lru = remove dec k c.lru })
    unfolding evict
    evict_hit v e m = ground arith

    get_miss :
        (default : Option V)
        → Dict.get dec k c.entries ≡ none
        → Lru.get dec k default c ≡ (ok default, record c { misses = c.misses + 1 })
    unfolding Lru.get
    get_miss default e = ground arith

    get_hit :
        (default : Option V) (v : V)
        → Dict.get dec k c.entries ≡ some v
        → mem dec k c.lru ≡ true
        → Lru.get dec k default c
          ≡ (ok (some v), record c { lru = k ∷ remove dec k c.lru; hits = c.hits + 1 })
    unfolding Lru.get
    get_hit default v e m = ground arith

  -- On a cache that holds a list of entries, `evict` never raises, and forgets the key and
  -- nothing else.
  pub evict-Holds :
      (k : K) (c : LruCache K V) (l : Dict K V)
      → Holds dec c l
      → ((evict dec k c).0 ≡ ok tt) × Holds dec (evict dec k c).1 (erase dec k l)
  evict-Holds k c l h = elim (Option-cases (Dict.get dec k c.entries)) [
    | inl e ↦ rw (evict_miss k c e, erase_absent dec k l (found_none k c l h e)) (refl, h)
    | inr (v, e) ↦
        rw (evict_hit k c v e (mem-order k c l h ∙ ap is_some e)) (refl, erase-Holds k v c l h e)
  ]

  touch-Holds :
      (k : K) (v : V) (c : LruCache K V) (l : Dict K V)
      → Holds dec c l
      → Dict.get dec k c.entries ≡ some v
      → Holds dec
          (record c { lru = k ∷ remove dec k c.lru; hits = c.hits + 1 })
          ((k, v) ∷ erase dec k l)
  unfolding Dict.get
  touch-Holds k v c l h e =
      let e' : Dict.get dec k l ≡ some v = sym (h.found k) ∙ e in
      record {
        order = rw (h.order, keys-erase dec k l h.unique);
        found = λ j. ground (arith, get-erase dec k j l, h.found j);
        unique = (
          rw (keys-erase dec k l h.unique) (mem-remove_self dec k (keys l) h.unique),
          rw (keys-erase dec k l h.unique) (remove-Distinct dec k (keys l) h.unique),
        );
        entries_unique = h.entries_unique;
        counted = omega (arith, length-erase dec k v l h.unique e', h.counted);
        bounded = omega (arith, length-erase dec k v l h.unique e', h.bounded);
      }

  count-Holds :
      (c : LruCache K V) (l : Dict K V)
      → Holds dec c l
      → Holds dec (record c { misses = c.misses + 1 }) l
  count-Holds c l h = record {
    order = h.order;
    found = h.found;
    unique = h.unique;
    entries_unique = h.entries_unique;
    counted = h.counted;
    bounded = h.bounded;
  }

  -- On a cache that holds a list of entries, `get` returns the value held for the key and makes
  -- the key the most recent, or it returns the default and leaves the entries as they are.
  pub get-Holds :
      (k : K) (default : Option V) (c : LruCache K V) (l : Dict K V)
      → Holds dec c l
      → ((Lru.get dec k default c).0
          ≡ ok (elim (Dict.get dec k l) [ none ↦ default | some v ↦ some v ]))
        × Holds dec (Lru.get dec k default c).1 (ideal_get dec k l)
  get-Holds k default c l h = elim (Option-cases (Dict.get dec k c.entries)) [
    | inl e ↦
        rw (get_miss k c default e, sym (h.found k) ∙ e, ideal_get_miss k l (sym (h.found k) ∙ e))
          (refl, count-Holds c l h)
    | inr (v, e) ↦
        rw
          (
            get_hit k c default v e (mem-order k c l h ∙ ap is_some e),
            sym (h.found k) ∙ e,
            ideal_get_hit k v l (sym (h.found k) ∙ e),
          )
          (refl, touch-Holds k v c l h e)
  ]
