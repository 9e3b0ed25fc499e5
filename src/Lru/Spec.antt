-- ===== src/Lru/Spec.antt =====
-- The ideal cache that the class stands for: the entries themselves, most recently used first.
use proxy_store.Prelude.{ℕ, ◌≡◌, ◌≤◌, none, some, ◌∷◌, length, take}
use proxy_store.Prelude.Dict
use proxy_store.Prelude.Dict.{Dict, erase}
use proxy_store.Prelude.Keys.{keys}
use proxy_store.Prelude.Sets.{Distinct}
use proxy_store.Lru.{LruCache}

abbrev pub ideal_set : {K V : Type 0} → ℕ → K → V → Dict K V → Dict K V
ideal_set n k v l = take n ((k, v) ∷ l)

module _ {K V : Type 0} (dec : Discrete K) where
  abbrev pub ideal_get : K → Dict K V → Dict K V
  ideal_get k l = elim (Dict.get dec k l) [ none ↦ l | some v ↦ (k, v) ∷ erase dec k l ]

  -- The object holds the entries `l`: its list of keys is theirs, in the same order, and its
  -- dictionary finds the same values. No key stands twice and there are at most `maxsize`.
  pub record Holds (c : LruCache K V) (l : Dict K V) : Type 0 where
    pub order : c.lru ≡ keys l
    pub found : (k : K) → Dict.get dec k c.entries ≡ Dict.get dec k l
    pub unique : Distinct dec (keys l)
    pub entries_unique : Distinct dec (keys c.entries)
    pub counted : length c.entries ≡ length l
    pub bounded : length l ≤ c.maxsize
