-- ===== src/Connector/Local.antt =====
-- `LocalConnector` of proxystore/connectors/local.py: a dictionary in the process, and the source
-- of its keys, `uuid.uuid4()`, which is a parameter: the keys that are still to be drawn.
use proxy_store.Prelude.{
  ℕ, ◌≡◌, refl, ap, inl, inr, Option-cases, Bool, Option, List, [], ◌∷◌, ◌+◌, if◌then◌else◌,
}
use proxy_store.Prelude.Dict
use proxy_store.Prelude.Dict.{
  Dict, contains, insert, erase, get-insert_self, get-insert_ne, get-erase_self, get-erase_ne,
}
use proxy_store.Prelude.Keys.{erase_absent}
use proxy_store.Prelude.Exec.{ok, err, Exec, map_ok}
use proxy_store.Connector.{Connector, Laws}

-- `_store`, and how many keys were drawn
pub record LocalStore (K B : Type 0) : Type 0 where
  pub store : Dict K B
  pub drawn : ℕ

pub ok_injective : {A : Type 0} {x y : A} → ok x ≡ ok y → x ≡ y
ok_injective e = cc

module _ {K B : Type 0} (dec : Discrete K) (uuid4 : ℕ → K) where
  -- `LocalConnector.evict`
  unfoldable pub evict : K → Exec (LocalStore K B) (Unit {0})
  evict key s =
      if contains dec key s.store
      then (ok tt, record s { store = erase dec key s.store })
      else (ok tt, s)

  -- `LocalConnector.exists`
  unfoldable pub exists : K → Exec (LocalStore K B) Bool
  exists key s = (ok (contains dec key s.store), s)

  -- `LocalConnector.get`
  unfoldable pub get : K → Exec (LocalStore K B) (Option B)
  get key s = (ok (Dict.get dec key s.store), s)

  -- `LocalConnector.new_key`
  unfoldable pub new_key : Exec (LocalStore K B) K
  new_key s = (ok (uuid4 s.drawn), record s { drawn = s.drawn + 1 })

  -- `LocalConnector.set`
  unfoldable pub set : K → B → Exec (LocalStore K B) (Unit {0})
  set key obj s = (ok tt, record s { store = insert dec key obj s.store })

  -- `LocalConnector.put`
  unfoldable pub put : B → Exec (LocalStore K B) K
  put obj s =
      let key = uuid4 s.drawn in
      (ok key, record { store = insert dec key obj s.store; drawn = s.drawn + 1 })

  -- `LocalConnector.put_batch`
  unfoldable pub put_batch : List B → Exec (LocalStore K B) (List K)
  put_batch [] s = (ok [], s)
  put_batch (obj ∷ objs) s =
      let (r, s') = put obj s in
      let (rs, s'') = put_batch objs s' in
      elim r [ ok key ↦ (map_ok (λ keys. key ∷ keys) rs, s'') | err e ↦ (err e, s') ]

  -- the connector, as a store uses it
  unfoldable pub local_connector : Connector (LocalStore K B) K B
  local_connector = record {
    get = get;
    exists = exists;
    evict = evict;
    set = set;
    put = put;
    put_batch = put_batch;
  }

  pub evict_eq :
      (k : K) (s : LocalStore K B) → evict k s ≡ (ok tt, record s { store = erase dec k s.store })
  unfolding evict
  evict_eq k s = elim (Option-cases (Dict.get dec k s.store)) [
    | inl e ↦ rw (evict, e, erase_absent dec k s.store e) refl
    | inr (b, e) ↦ rw (evict, e) refl
  ]

  -- a `LocalConnector` keeps the promises of the protocol: it finds what was set or put, it does
  -- not find what was evicted, and no operation changes what it finds under another key.
  unfoldable pub local_laws : Laws local_connector
  unfolding local_connector get exists set put
  local_laws = record {
    view = λ s k. Dict.get dec k s.store;
    get_view = λ k s. refl;
    exists_view = λ k s. refl;
    evict_ok = λ k s. ap (λ r. r.0) (evict_eq k s);
    evict_self = λ k s. rw (evict_eq k s) (get-erase_self dec k s.store);
    evict_other = λ k j s ne. rw (evict_eq k s) (get-erase_ne dec k j s.store ne);
    set_ok = λ k b s. refl;
    set_self = λ k b s. get-insert_self dec k b s.store;
    set_other = λ k j b s ne. get-insert_ne dec k j b s.store ne;
    put_self = λ b s k e. rw (ok_injective e) (get-insert_self dec k b s.store);
    put_other = λ b s k j e ne. rw (ok_injective e) (get-insert_ne dec k j b s.store ne);
  }
