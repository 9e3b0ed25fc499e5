-- ===== src/Store/Tests.antt =====
-- A store on a `LocalConnector`, whose objects are numbers that are stored as they are.
use proxy_store.Prelude.{
  ℕ, zero, suc, ◌≡◌, ◌≢◌, refl, is_some, none, some, Bool, true, false, [], ◌∷◌, ℕ_discrete, ◌==◌,
  arith,
}
use proxy_store.Prelude.Dict
use proxy_store.Prelude.Dict.{Dict, insert}
use proxy_store.Prelude.Sets.{mem}
use proxy_store.Prelude.Exec.{ok, err, proxy_resolve_missing_key}
use proxy_store.Connector.{Connector, Laws}
use proxy_store.Connector.Local.{LocalStore, put, local_connector, local_laws}
use proxy_store.Store
use proxy_store.Store.{Store, Serializer, Deserializer, exists, evict, get, set, resolve}
use proxy_store.Store.Existence.{exists-IsCoherent}
use proxy_store.Store.Coherence.{IsCoherent, get-IsCoherent}
use proxy_store.Store.Writes.{evict-IsCoherent, get-set, get-put, resolve_once}

-- the drawn keys are 10, 11, ...
abbrev uuids : ℕ → ℕ
uuids zero = 10
uuids (suc n) = suc (uuids n)

abbrev same_object : Serializer ℕ ℕ
same_object n = ok (some n)

abbrev same_bytes : Deserializer ℕ ℕ
same_bytes n = ok n

abbrev connector : Connector (LocalStore ℕ ℕ) ℕ ℕ
connector = local_connector ℕ_discrete uuids

abbrev laws : Laws connector
laws = local_laws ℕ_discrete uuids

-- the object 30 is stored under 3, and 40 under 4, which is cached
abbrev store : Store (LocalStore ℕ ℕ) ℕ ℕ
store = record {
  conn = record { store = (3, 30) ∷ (4, 40) ∷ []; drawn = 0 };
  cache = record { maxsize = 2; hits = 0; misses = 0; entries = (4, 40) ∷ []; lru = 4 ∷ [] };
}

store-IsCoherent : IsCoherent ℕ_discrete connector same_object same_bytes laws store
unfolding Dict.get mem ℕ_discrete local_laws
store-IsCoherent = record {
  contents = (4, 40) ∷ [];
  held = record {
    order = refl;
    found = λ k. refl;
    unique = (refl, tt);
    entries_unique = (refl, tt);
    counted = refl;
    bounded = omega arith;
  };
  backed = λ k v e. (v, ground arith, refl);
}

get-IsCoherent_example :
    ((get ℕ_discrete connector same_object same_bytes none none 3 store).0 ≡ ok (some 30))
    × (((get ℕ_discrete connector same_object same_bytes none none 3 store).1.conn ≡ store.conn)
        × IsCoherent ℕ_discrete connector same_object same_bytes laws
            (get ℕ_discrete connector same_object same_bytes none none 3 store).1)
unfolding local_laws Dict.get ℕ_discrete
get-IsCoherent_example =
    get-IsCoherent ℕ_discrete connector same_object same_bytes laws none 3 store store-IsCoherent

exists-IsCoherent_example :
    exists ℕ_discrete connector same_object same_bytes 4 store
    ≡ (ok (is_some (laws.view store.conn 4)), store)
exists-IsCoherent_example =
    exists-IsCoherent ℕ_discrete connector same_object same_bytes laws 4 store store-IsCoherent

evict-IsCoherent_example :
    ((evict ℕ_discrete connector same_object same_bytes 4 store).0 ≡ ok tt)
    × ((laws.view (evict ℕ_discrete connector same_object same_bytes 4 store).1.conn 4 ≡ none)
        × (((j : ℕ)
              → 4 ≢ j
              → laws.view (evict ℕ_discrete connector same_object same_bytes 4 store).1.conn j
                ≡ laws.view store.conn j)
            × IsCoherent ℕ_discrete connector same_object same_bytes laws
                (evict ℕ_discrete connector same_object same_bytes 4 store).1))
evict-IsCoherent_example =
    evict-IsCoherent ℕ_discrete connector same_object same_bytes laws 4 store store-IsCoherent

get-set_example :
    ((set ℕ_discrete connector same_object same_bytes none 4 41 store).0 ≡ ok tt)
    × (IsCoherent ℕ_discrete connector same_object same_bytes laws
          (set ℕ_discrete connector same_object same_bytes none 4 41 store).1
        × ((get ℕ_discrete connector same_object same_bytes none none 4
              (set ℕ_discrete connector same_object same_bytes none 4 41 store).1).0
            ≡ ok (some 41)))
get-set_example =
    get-set ℕ_discrete connector same_object same_bytes laws 4 41 41 none store store-IsCoherent
      refl refl

ten_drawn : (connector.put 50 store.conn).0 ≡ ok 10
unfolding local_connector put
ten_drawn = refl

ten_absent : laws.view store.conn 10 ≡ none
unfolding local_laws Dict.get ℕ_discrete
ten_absent = refl

get-put_example :
    ((Store.put ℕ_discrete connector same_object same_bytes none none 50 store).0 ≡ ok 10)
    × (IsCoherent ℕ_discrete connector same_object same_bytes laws
          (Store.put ℕ_discrete connector same_object same_bytes none none 50 store).1
        × (((get ℕ_discrete connector same_object same_bytes none none 10
                (Store.put ℕ_discrete connector same_object same_bytes none none 50 store).1).0
              ≡ ok (some 50))
            × ((j : ℕ)
                → 10 ≢ j
                → laws.view
                    (Store.put ℕ_discrete connector same_object same_bytes none none 50
                      store).1.conn
                    j
                  ≡ laws.view store.conn j)))
get-put_example =
    get-put ℕ_discrete connector same_object same_bytes laws 50 50 10 none store store-IsCoherent
      refl refl ten_drawn ten_absent

three_stored : laws.view store.conn 3 ≡ some 30
unfolding local_laws Dict.get ℕ_discrete
three_stored = refl

resolve_once_example :
    ((resolve ℕ_discrete connector same_object same_bytes none true 3 store).0 ≡ ok 30)
    × ((resolve ℕ_discrete connector same_object same_bytes none false 3
          (resolve ℕ_discrete connector same_object same_bytes none true 3 store).1).0
        ≡ err proxy_resolve_missing_key)
resolve_once_example =
    resolve_once ℕ_discrete connector same_object same_bytes laws false 3 30 30 store
      store-IsCoherent three_stored refl

-- 1 cannot be proxied
abbrev is_one : ℕ → Bool
is_one n = n == 1
