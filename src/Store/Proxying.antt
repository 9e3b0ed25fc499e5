-- ===== src/Store/Proxying.antt =====
-- `Store.proxy`, `Store.proxy_batch`, `Store.proxy_from_key` and `Store.owned_proxy` of
-- proxystore/store/base.py.
use proxy_store.Prelude.{
  ℕ, zero, suc, ◌+◌, ℕ_discrete, Option, none, some, is_some, Bool, true, false, not, ◌&&◌, List,
  [], ◌∷◌, if◌then◌else◌,
}
use proxy_store.Prelude.Sets.{mem}
use proxy_store.Prelude.Exec.{ok, err, Exec, value_error, non_proxiable_type, map_ok}
use proxy_store.Connector.{Connector}
use proxy_store.Store.{Store, Serializer, Deserializer, chosen, put, put_batch}

-- an object that was handed back, or a proxy: the key and `evict` of its factory, its target if it
-- was populated, and whether it is an `OwnedProxy`
pub data Made (K V : Type 0) : Type 0 where
  plain : V → Made K V
  proxied : K → Bool → Option V → Bool → Made K V

abbrev pub Lifetime : Type 0 → Type 0 → Type 0 → Type 0
Lifetime S K V = List (Made K V) → Exec (Store S K V) (Unit {0})

-- `Proxy(factory, cache_defaults=True, target=obj)` or `Proxy(factory)`
abbrev pub new_proxy : {K V : Type 0} → Bool → Bool → K → V → Made K V
new_proxy evict populate key obj = proxied key evict (if populate then some obj else none) false

-- `lifetime.add_proxy(*proxies)`, where there is a lifetime
unfoldable pub add_to :
    {S K V A : Type 0} → Option (Lifetime S K V) → List (Made K V) → A → Exec (Store S K V) A
add_to none made a st = (ok a, st)
add_to (some add) made a st = let (q, st') = add made st in (map_ok (λ _. a) q, st')

-- `proxies.insert(index, obj)`
unfoldable pub insert_at : {A : Type 0} → ℕ → A → List A → List A
insert_at zero x l = x ∷ l
insert_at (suc n) x [] = x ∷ []
insert_at (suc n) x (y ∷ l) = y ∷ insert_at n x l

module _ {V : Type 0} (non_proxiable : V → Bool) where
  -- the loop that collects `non_proxiable`, from index `i` on
  unfoldable pub collect : ℕ → List V → List (ℕ × V)
  collect i [] = []
  collect i (obj ∷ objs) =
      let rest = collect (i + 1) objs in if non_proxiable obj then (i, obj) ∷ rest else rest

-- `[i for i, _ in non_proxiable]`
abbrev pub indices_of : {V : Type 0} → List (ℕ × V) → List ℕ
indices_of [] = []
indices_of ((i, _) ∷ l) = i ∷ indices_of l

-- the objects whose index is not among `indices`, from index `i` on
unfoldable pub select : {V : Type 0} → List ℕ → ℕ → List V → List V
select indices i [] = []
select indices i (obj ∷ objs) =
    let rest = select indices (i + 1) objs in if mem ℕ_discrete i indices then rest else obj ∷ rest

-- the loop over `zip(factories, proxiable_objs)`
unfoldable pub make : {K V : Type 0} → Bool → Bool → List K → List V → List (Made K V)
make evict populate [] objs = []
make evict populate (key ∷ keys) [] = []
make evict populate (key ∷ keys) (obj ∷ objs) =
    new_proxy evict populate key obj ∷ make evict populate keys objs

-- the loop that puts the non-proxiable objects back
unfoldable pub reinsert : {K V : Type 0} → List (ℕ × V) → List (Made K V) → List (Made K V)
reinsert [] made = made
reinsert ((i, obj) ∷ rest) made = reinsert rest (insert_at i (plain obj) made)

abbrev pub no_objects : {A : Type 0} → List A → Bool
no_objects [] = true
no_objects (_ ∷ _) = false

module _ {S K V B : Type 0} (dec : Discrete K) (connector : Connector S K B)
    (serializer : Serializer V B) (deserializer : Deserializer B V) (non_proxiable : V → Bool)
    (own_populate : Bool) where
  -- `Store.proxy`
  unfoldable pub proxy :
      Bool
      → Option (Lifetime S K V)
      → Option (Serializer V B)
      → Option Bool
      → Bool
      → V
      → Exec (Store S K V) (Made K V)
  proxy evict lifetime given populate skip obj st =
      if evict && is_some lifetime
      then (err value_error, st)
      else if non_proxiable obj
      then (if skip then (ok (plain obj), st) else (err non_proxiable_type, st))
      else let (r, st') = put dec connector serializer deserializer none given obj st in
        elim r [
          | err e ↦ (err e, st')
          | ok key ↦
              let made = new_proxy evict (chosen populate own_populate) key obj in
              add_to lifetime (made ∷ []) made st'
        ]

  -- `Store.proxy_batch`
  unfoldable pub proxy_batch :
      Bool
      → Option (Lifetime S K V)
      → Option (Serializer V B)
      → Option Bool
      → Bool
      → List V
      → Exec (Store S K V) (List (Made K V))
  proxy_batch evict lifetime given populate skip objs st =
      let found = collect non_proxiable 0 objs in
      let proxiable_objs = select (indices_of found) 0 objs in
      if evict && is_some lifetime
      then (err value_error, st)
      else if not (no_objects found) && not skip
      then (err non_proxiable_type, st)
      else let (r, st') = put_batch dec connector serializer deserializer given proxiable_objs st in
        elim r [
          | err e ↦ (err e, st')
          | ok keys ↦
              let made = make evict (chosen populate own_populate) keys proxiable_objs in
              add_to lifetime made (reinsert found made) st'
        ]

  -- `Store.proxy_from_key`
  unfoldable pub proxy_from_key : Bool → Option (Lifetime S K V) → K → Exec (Store S K V) (Made K V)
  proxy_from_key evict lifetime key st =
      if evict && is_some lifetime
      then (err value_error, st)
      else let made = proxied key evict none false in add_to lifetime (made ∷ []) made st

  -- `Store.owned_proxy`: the proxy that `into_owned` makes of a new one shares its factory
  unfoldable pub owned_proxy :
      Option (Serializer V B) → Option Bool → Bool → V → Exec (Store S K V) (Made K V)
  owned_proxy given populate skip obj st =
      let (r, st') = proxy false none given populate skip obj st in
      elim r [
        | err e ↦ (err e, st')
        | ok made ↦ elim made [
          | plain v ↦ (ok (plain v), st')
          | proxied key evict target _ ↦ (
            ok (proxied key false (if chosen populate own_populate then target else none) true),
            st',
          )
        ]
      ]
