-- ===== src/Multi.antt =====
-- `Policy` and `MultiConnector` of proxystore/connectors/multi.py. The managed connectors share a
-- state `S`; a name gives one of them and its policy.
pub mod Routing
pub mod Choice
mod Tests
use proxy_store.Prelude.{
  ℕ, ltb, leb, Option, none, some, is_some, Bool, true, false, not, ◌&&◌, ◌||◌, List, [], ◌∷◌,
  length, if◌then◌else◌, map,
}
use proxy_store.Prelude.Dict
use proxy_store.Prelude.Dict.{Dict, contains}
use proxy_store.Prelude.Keys.{keys}
use proxy_store.Prelude.Sets.{mem}
use proxy_store.Prelude.Exec.{Result, ok, err, Exec, multi_connector_error, key_error, map_ok}
use proxy_store.Prelude.Int.{ℤ, pos, negsuc}
use proxy_store.Connector.{Connector}

-- `m <= n` on the integers
abbrev pub le_int : ℤ → ℤ → Bool
le_int (pos m) (pos n) = leb m n
le_int (pos m) (negsuc n) = false
le_int (negsuc m) (pos n) = true
le_int (negsuc m) (negsuc n) = leb n m

-- `T` is the tags; `max_size_bytes` is `sys.maxsize` where it was not given
pub record Policy (T : Type 0) : Type 0 where
  pub priority : ℤ
  pub host_pattern : Option (List T)
  pub min_size_bytes : ℕ
  pub max_size_bytes : ℕ
  pub subset_tags : List T
  pub superset_tags : List T

module _ {T : Type 0} (dec : Discrete T) where
  -- `set(l).issubset(m)`
  unfoldable pub is_subset : List T → List T → Bool
  is_subset [] m = true
  is_subset (x ∷ l) m = let rest = is_subset l m in mem dec x m && rest

  -- `any(re.fullmatch(p, hostname) for p in patterns)`
  unfoldable pub any_match : (T → T → Bool) → T → List T → Bool
  any_match fullmatch hostname [] = false
  any_match fullmatch hostname (p ∷ l) =
      let rest = any_match fullmatch hostname l in fullmatch p hostname || rest

  module _ (fullmatch : T → T → Bool) (hostname : T) where
    -- `Policy.is_valid_on_host`; a single pattern is a list of one
    unfoldable pub is_valid_on_host : Policy T → Bool
    is_valid_on_host policy = elim policy.host_pattern [
      | none ↦ true
      | some patterns ↦ any_match fullmatch hostname patterns
    ]

    -- `Policy.is_valid`
    unfoldable pub is_valid : Policy T → Option ℕ → Option (List T) → Option (List T) → Bool
    is_valid policy size_bytes subset_tags superset_tags =
        if elim size_bytes [
          | none ↦ false
          | some size ↦ ltb size policy.min_size_bytes || ltb policy.max_size_bytes size
        ]
        then false
        else if elim subset_tags [
          | none ↦ false
          | some tags ↦ not (is_subset tags policy.subset_tags)
        ]
        then false
        else if elim superset_tags [
          | none ↦ false
          | some tags ↦ not (is_subset policy.superset_tags tags)
        ]
        then false
        else is_valid_on_host policy

-- `sorted(names, key=..., reverse=True)`, which is stable: a name goes before the first one whose
-- priority is not higher, when the names are taken from the last to the first
unfoldable pub insert_name : {N : Type 0} → (N → ℤ) → N → List N → List N
insert_name priority name [] = name ∷ []
insert_name priority name (other ∷ rest) =
    let inserted = insert_name priority name rest in
    if le_int (priority other) (priority name) then name ∷ other ∷ rest else other ∷ inserted

unfoldable pub sort_names : {N : Type 0} → (N → ℤ) → List N → List N
sort_names priority [] = []
sort_names priority (name ∷ names) = insert_name priority name (sort_names priority names)

-- `N` is the names, `K` the keys of the managed connectors, `C` the configuration of one
pub record MultiConnector (N T S K B C : Type 0) : Type 0 where
  pub connectors : Dict N (Connector S K B × Policy T)
  pub dormant_connectors : Option (Dict N C)
  pub connectors_by_priority : List N

module _ {N T S K B : Type 0} (dec : Discrete N) where
  -- the priority of a name's policy; every name that is sorted has one
  unfoldable pub priority_of : Dict N (Connector S K B × Policy T) → N → ℤ
  priority_of connectors name = elim (Dict.get dec name connectors) [
    | none ↦ pos 0
    | some p ↦ p.1.priority
  ]

module _ {N T S K B C : Type 0} (dec : Discrete N) where
  -- `MultiConnector.__init__`
  unfoldable pub new_multi :
      Dict N (Connector S K B × Policy T) → Option (Dict N C) → MultiConnector N T S K B C
  new_multi connectors dormant = record {
    connectors = connectors;
    dormant_connectors = dormant;
    connectors_by_priority = sort_names (priority_of dec connectors) (keys connectors);
  }

  -- `_connector_from_key`, of the name in a `MultiKey`
  unfoldable pub connector_from_key : MultiConnector N T S K B C → N → Result (Connector S K B)
  connector_from_key m name = elim (Dict.get dec name m.connectors) [
    | some p ↦ ok p.0
    | none ↦
        if elim m.dormant_connectors [ none ↦ false | some dormant ↦ contains dec name dormant ]
        then err multi_connector_error
        else err multi_connector_error
  ]

  -- `MultiConnector.evict`
  unfoldable pub evict : MultiConnector N T S K B C → N × K → Exec S (Unit {0})
  evict m key s = elim (connector_from_key m key.0) [
    | err e ↦ (err e, s)
    | ok connector ↦ connector.evict key.1 s
  ]

  -- `MultiConnector.exists`
  unfoldable pub exists : MultiConnector N T S K B C → N × K → Exec S Bool
  exists m key s = elim (connector_from_key m key.0) [
    | err e ↦ (err e, s)
    | ok connector ↦ connector.exists key.1 s
  ]

  -- `MultiConnector.get`
  unfoldable pub get : MultiConnector N T S K B C → N × K → Exec S (Option B)
  get m key s = elim (connector_from_key m key.0) [
    | err e ↦ (err e, s)
    | ok connector ↦ connector.get key.1 s
  ]

  -- `MultiConnector.get_batch`
  unfoldable pub get_batch : MultiConnector N T S K B C → List (N × K) → Exec S (List (Option B))
  get_batch m [] s = (ok [], s)
  get_batch m (key ∷ rest) s =
      let (r, s') = get m key s in
      let (rs, s'') = get_batch m rest s' in
      elim r [ ok obj ↦ (map_ok (λ objs. obj ∷ objs) rs, s'') | err e ↦ (err e, s') ]

  module _ (tag_dec : Discrete T) (fullmatch : T → T → Bool) (hostname : T) (size_of : B → ℕ) where
    -- the loop of `put` over `connectors_by_priority`
    unfoldable pub put_from :
        MultiConnector N T S K B C → List N → B → List T → List T → Exec S (N × K)
    put_from m [] obj subset_tags superset_tags s = (err multi_connector_error, s)
    put_from m (name ∷ names) obj subset_tags superset_tags s =
        let rest = put_from m names obj subset_tags superset_tags s in
        elim (Dict.get dec name m.connectors) [
          | none ↦ (err key_error, s)
          | some p ↦
              if is_valid tag_dec fullmatch hostname p.1 (some (size_of obj)) (some subset_tags)
                (some superset_tags)
              then (let (r, s') = (p.0).put obj s in (map_ok (λ key. (name, key)) r, s'))
              else rest
        ]

    -- `MultiConnector.put`
    unfoldable pub put : MultiConnector N T S K B C → B → List T → List T → Exec S (N × K)
    put m obj subset_tags superset_tags s =
        put_from m m.connectors_by_priority obj subset_tags superset_tags s

    -- `MultiConnector.put_batch`
    unfoldable pub put_batch :
        MultiConnector N T S K B C → List B → List T → List T → Exec S (List (N × K))
    put_batch m [] subset_tags superset_tags s = (ok [], s)
    put_batch m (obj ∷ objs) subset_tags superset_tags s =
        let (r, s') = put m obj subset_tags superset_tags s in
        let (rs, s'') = put_batch m objs subset_tags superset_tags s' in
        elim r [ ok key ↦ (map_ok (λ l. key ∷ l) rs, s'') | err e ↦ (err e, s') ]
