-- ===== src/Multi/Tests.antt =====
-- Two local connectors in one state, for small and for large objects; an object is its own size.
use proxy_store.Prelude.{
  ℕ, zero, suc, ◌≡◌, ◌==◌, refl, none, some, Option, true, false, [], ◌∷◌, ℕ_discrete, ◌⊎◌, arith,
}
use proxy_store.Prelude.Dict
use proxy_store.Prelude.Dict.{Dict}
use proxy_store.Prelude.Int.{pos, negsuc}
use proxy_store.Prelude.Exec.{ok, err, multi_connector_error, map_ok}
use proxy_store.Connector.{Connector, Laws}
use proxy_store.Connector.Local.{LocalStore, local_connector, local_laws}
use proxy_store.Multi.{
  Policy, is_valid, le_int, new_multi, get, put, put_from, sort_names, insert_name, priority_of,
  is_subset, is_valid_on_host, any_match,
}
use mathlib.Core.Path.{subst}
use proxy_store.Connector.Local
use proxy_store.Prelude.Sets.{mem}
use proxy_store.Prelude.Keys.{keys}
use proxy_store.Multi.Choice.{put-highest, multi-get-put}

abbrev uuids : ℕ → ℕ
uuids zero = 10
uuids (suc n) = suc (uuids n)

abbrev local : Connector (LocalStore ℕ ℕ) ℕ ℕ
local = local_connector ℕ_discrete uuids

abbrev small : Policy ℕ
small = record {
  priority = pos 1;
  host_pattern = none;
  min_size_bytes = 0;
  max_size_bytes = 99;
  subset_tags = [];
  superset_tags = [];
}

abbrev large : Policy ℕ
large = record {
  priority = negsuc 0;
  host_pattern = some (8 ∷ []);
  min_size_bytes = 50;
  max_size_bytes = 1000;
  subset_tags = 3 ∷ [];
  superset_tags = [];
}

abbrev managed : Dict ℕ (Connector (LocalStore ℕ ℕ) ℕ ℕ × Policy ℕ)
managed = (1, (local, large)) ∷ (2, (local, small)) ∷ []

abbrev empty : LocalStore ℕ ℕ
empty = record { store = []; drawn = 0 }

abbrev dormant : Option (Dict ℕ ℕ)
dormant = none

abbrev identity : ℕ → ℕ
identity n = n

put_managed :
    (put ℕ_discrete ℕ_discrete ◌==◌ 8 identity
      (new_multi ℕ_discrete managed dormant)
      60
      []
      []
      empty).0
    ≡ ok (2, 10)
unfolding put put_from new_multi sort_names insert_name priority_of keys is_valid is_subset
    is_valid_on_host any_match Dict.get ℕ_discrete local_connector Local.put mem
put_managed = refl

managed-local :
    (name : ℕ) (p : Connector (LocalStore ℕ ℕ) ℕ ℕ × Policy ℕ)
    → Dict.get ℕ_discrete name managed ≡ some p
    → local ≡ p.0
unfolding Dict.get
managed-local name p e = ground arith

managed-Laws :
    (name : ℕ) (p : Connector (LocalStore ℕ ℕ) ℕ ℕ × Policy ℕ)
    → Dict.get ℕ_discrete name managed ≡ some p
    → Laws p.0
managed-Laws name p e = subst Laws (managed-local name p e) (local_laws ℕ_discrete uuids)

put-highest_example :
    ((put ℕ_discrete ℕ_discrete ◌==◌ 8 identity
          (new_multi ℕ_discrete managed dormant)
          60
          []
          []
          empty
        ≡ (err multi_connector_error, empty))
      × ((name : ℕ) (p : Connector (LocalStore ℕ ℕ) ℕ ℕ × Policy ℕ)
          → Dict.get ℕ_discrete name managed ≡ some p
          → is_valid ℕ_discrete ◌==◌ 8 p.1 (some 60) (some []) (some []) ≡ false))
    ⊎ ((name : ℕ) × ((p : Connector (LocalStore ℕ ℕ) ℕ ℕ × Policy ℕ) × ((Dict.get ℕ_discrete name
                managed
              ≡ some p)
            × ((is_valid ℕ_discrete ◌==◌ 8 p.1 (some 60) (some []) (some []) ≡ true)
                × ((put ℕ_discrete ℕ_discrete ◌==◌ 8 identity
                        (new_multi ℕ_discrete managed dormant)
                        60
                        []
                        []
                        empty
                      ≡ (
                        map_ok (λ key. (name, key)) ((p.0).put 60 empty).0,
                        ((p.0).put 60 empty).1,
                      ))
                    × ((other : ℕ) (q : Connector (LocalStore ℕ ℕ) ℕ ℕ × Policy ℕ)
                        → Dict.get ℕ_discrete other managed ≡ some q
                        → is_valid ℕ_discrete ◌==◌ 8 q.1 (some 60) (some []) (some []) ≡ true
                        → le_int q.1.priority p.1.priority ≡ true))))))
put-highest_example =
    put-highest ℕ_discrete ℕ_discrete ◌==◌ 8 identity managed dormant 60 [] [] empty

multi-get-put_example :
    (get ℕ_discrete
      (new_multi ℕ_discrete managed dormant)
      (2, 10)
      (put ℕ_discrete ℕ_discrete ◌==◌ 8 identity
        (new_multi ℕ_discrete managed dormant)
        60
        []
        []
        empty).1).0
    ≡ ok (some 60)
multi-get-put_example =
    multi-get-put ℕ_discrete ℕ_discrete ◌==◌ 8 identity managed dormant 60 [] [] empty (2, 10)
      managed-Laws put_managed
