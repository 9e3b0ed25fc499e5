-- ===== src/Lru/Tests.antt =====
-- The cache at concrete entries.
use proxy_store.Prelude.{ℕ, ◌≡◌, refl, none, some, [], ◌∷◌, ℕ_discrete, arith}
use proxy_store.Prelude.Dict
use proxy_store.Prelude.Dict.{Dict, erase}
use proxy_store.Prelude.Sets.{mem}
use proxy_store.Prelude.Exec.{ok, err, key_error, ◌>>◌}
use proxy_store.Lru
use proxy_store.Lru.{LruCache, evict, set}
use proxy_store.Lru.Spec.{Holds, ideal_get, ideal_set}
use proxy_store.Lru.Refinement.{evict-Holds, get-Holds}
use proxy_store.Lru.Insertion.{set-Holds}
use proxy_store.Lru.Overwrite.{set_again-raises}

-- a cache of size two that is full
abbrev two : LruCache ℕ ℕ
two = record {
  maxsize = 2;
  hits = 0;
  misses = 0;
  entries = (1, 10) ∷ (2, 20) ∷ [];
  lru = 2 ∷ 1 ∷ [];
}

abbrev two_contents : Dict ℕ ℕ
two_contents = (2, 20) ∷ (1, 10) ∷ []

two-Holds : Holds ℕ_discrete two two_contents
unfolding Dict.get mem ℕ_discrete
two-Holds = record {
  order = refl;
  found = λ k. ground arith;
  unique = (refl, (refl, tt));
  entries_unique = (refl, (refl, tt));
  counted = refl;
  bounded = omega arith;
}

evict-Holds_example :
    ((evict ℕ_discrete 1 two).0 ≡ ok tt)
    × Holds ℕ_discrete (evict ℕ_discrete 1 two).1 (erase ℕ_discrete 1 two_contents)
evict-Holds_example = evict-Holds ℕ_discrete 1 two two_contents two-Holds

get-Holds_example :
    ((Lru.get ℕ_discrete 1 none two).0
      ≡ ok (elim (Dict.get ℕ_discrete 1 two_contents) [ none ↦ none | some v ↦ some v ]))
    × Holds ℕ_discrete (Lru.get ℕ_discrete 1 none two).1 (ideal_get ℕ_discrete 1 two_contents)
get-Holds_example = get-Holds ℕ_discrete 1 none two two_contents two-Holds

three_absent : Dict.get ℕ_discrete 3 two_contents ≡ none
unfolding Dict.get ℕ_discrete
three_absent = refl

set-Holds_example :
    ((set ℕ_discrete 3 30 two).0 ≡ ok tt)
    × Holds ℕ_discrete (set ℕ_discrete 3 30 two).1 (ideal_set 2 3 30 two_contents)
set-Holds_example = set-Holds ℕ_discrete 3 30 two two_contents two-Holds three_absent

set_again-raises_example :
    ((set {V = ℕ} ℕ_discrete 1 10
        >> set ℕ_discrete 1 11
        >> set ℕ_discrete 2 20
        >> set ℕ_discrete 3 30
        >> set ℕ_discrete 4 40)
      (record { maxsize = 2; hits = 0; misses = 0; entries = []; lru = [] })).0
    ≡ err key_error
set_again-raises_example =
    set_again-raises ℕ_discrete 1 2 3 4 10 11 20 30 40 (omega arith) (omega arith) (omega arith)
