-- ===== src/Store.antt =====
-- `Store` of proxystore/store/base.py, and `StoreFactory.resolve` of proxystore/store/factory.py.
-- A store is a connector and a cache of deserialized objects.
pub mod Coherence
pub mod Existence
pub mod Writes
pub mod Proxying
pub mod Polling
pub mod Batch
mod Tests
use proxy_store.Prelude.{◌≡◌, Option, none, some, Bool, true, false, List, [], ◌∷◌, if◌then◌else◌}
use proxy_store.Prelude.Exec.{
  Result, ok, err, Exec, serialization_error, type_error, proxy_resolve_missing_key, map_ok,
}
use proxy_store.Connector.{Connector}
use proxy_store.Lru
use proxy_store.Lru.{LruCache}

pub record Store (S K V : Type 0) : Type 0 where
  pub conn : S
  pub cache : LruCache K V

-- a serializer gives bytes, or something else (`none`), or raises
abbrev pub Serializer : Type 0 → Type 0 → Type 0
Serializer V B = V → Result (Option B)

abbrev pub Deserializer : Type 0 → Type 0 → Type 0
Deserializer B V = B → Result V

-- the argument of a call, or else the store's own
abbrev pub chosen : {A : Type 0} → Option A → A → A
chosen none own = own
chosen (some f) own = f

module _ {S K V B : Type 0} (dec : Discrete K) (connector : Connector S K B)
    (serializer : Serializer V B) (deserializer : Deserializer B V) where
  -- `Store.evict`
  unfoldable pub evict : K → Exec (Store S K V) (Unit {0})
  evict key st =
      let (r, conn') = connector.evict key st.conn in
      elim r [
        | err e ↦ (err e, record st { conn = conn' })
        | ok _ ↦
            let (q, cache') = Lru.evict dec key st.cache in
            (q, record { conn = conn'; cache = cache' })
      ]

  -- `Store.exists`
  unfoldable pub exists : K → Exec (Store S K V) Bool
  exists key st =
      if Lru.exists dec key st.cache
      then (ok true, st)
      else let (r, conn') = connector.exists key st.conn in (r, record st { conn = conn' })

  -- the part of `Store.get` after the connector found `b`
  unfoldable pub cache_result : Option (Deserializer B V) → K → B → Exec (Store S K V) (Option V)
  cache_result given key b st = elim ((chosen given deserializer) b) [
    | err _ ↦ (err serialization_error, st)
    | ok result ↦
        let (q, cache') = Lru.set dec key result st.cache in
        (map_ok (λ _. some result) q, record st { cache = cache' })
  ]

  -- the part of `Store.get` after the cache missed
  unfoldable pub fetch : Option (Deserializer B V) → Option V → K → Exec (Store S K V) (Option V)
  fetch given default key st =
      let (r, conn') = connector.get key st.conn in
      elim r [
        | err e ↦ (err e, record st { conn = conn' })
        | ok value ↦ elim value [
          | none ↦ (ok default, record st { conn = conn' })
          | some b ↦ cache_result given key b (record st { conn = conn' })
        ]
      ]

  -- `Store.get`; the absence of an object, or the default `None`, is `none`
  unfoldable pub get : Option (Deserializer B V) → Option V → K → Exec (Store S K V) (Option V)
  get given default key st =
      let (r, cache') = Lru.get dec key none st.cache in
      elim r [
        | err e ↦ (err e, record st { cache = cache' })
        | ok cached ↦ elim cached [
          | some v ↦ (ok (some v), record st { cache = cache' })
          | none ↦ fetch given default key (record st { cache = cache' })
        ]
      ]

  -- `Store.is_cached`
  unfoldable pub is_cached : K → Store S K V → Bool
  is_cached key st = Lru.exists dec key st.cache

  -- the bytes of an object; anything else is a `TypeError`
  unfoldable pub to_bytes : Option (Serializer V B) → V → Result B
  to_bytes given obj = elim ((chosen given serializer) obj) [
    | err e ↦ err e
    | ok bytes ↦ elim bytes [ none ↦ err type_error | some b ↦ ok b ]
  ]

  -- `Store.put`, and `lifetime.add_key` where a lifetime is given
  unfoldable pub put :
      Option (K → Exec (Store S K V) (Unit {0}))
      → Option (Serializer V B)
      → V
      → Exec (Store S K V) K
  put lifetime given obj st = elim (to_bytes given obj) [
    | err e ↦ (err e, st)
    | ok b ↦
        let (r, conn') = connector.put b st.conn in
        elim r [
          | err e ↦ (err e, record st { conn = conn' })
          | ok key ↦ elim lifetime [
            | none ↦ (ok key, record st { conn = conn' })
            | some add_key ↦
                let (q, st') = add_key key (record st { conn = conn' }) in
                (map_ok (λ _. key) q, st')
          ]
        ]
  ]

  -- `list(map(_serialize, objs))`
  unfoldable pub to_bytes_batch : Option (Serializer V B) → List V → Result (List B)
  to_bytes_batch given [] = ok []
  to_bytes_batch given (obj ∷ objs) =
      let rest = to_bytes_batch given objs in
      elim (to_bytes given obj) [ err e ↦ err e | ok b ↦ map_ok (λ bs. b ∷ bs) rest ]

  -- `Store.put_batch`, without a lifetime
  unfoldable pub put_batch : Option (Serializer V B) → List V → Exec (Store S K V) (List K)
  put_batch given objs st = elim (to_bytes_batch given objs) [
    | err e ↦ (err e, st)
    | ok bs ↦ let (r, conn') = connector.put_batch bs st.conn in (r, record st { conn = conn' })
  ]

  -- `Store._set`, of a connector that can set
  unfoldable pub set : Option (Serializer V B) → K → V → Exec (Store S K V) (Unit {0})
  set given key obj st = elim (to_bytes given obj) [
    | err e ↦ (err e, st)
    | ok b ↦
        let (r, conn') = connector.set key b st.conn in
        elim r [
          | err e ↦ (err e, record st { conn = conn' })
          | ok _ ↦
              let (q, cache') = Lru.evict dec key st.cache in
              (q, record { conn = conn'; cache = cache' })
        ]
  ]

  -- `StoreFactory.resolve`, of a factory with this key, deserializer and `evict`
  unfoldable pub resolve : Option (Deserializer B V) → Bool → K → Exec (Store S K V) V
  resolve given evict_after key st =
      let (r, st') = get given none key st in
      elim r [
        | err e ↦ (err e, st')
        | ok obj ↦ elim obj [
          | none ↦ (err proxy_resolve_missing_key, st')
          | some v ↦
              if evict_after
              then (let (q, st'') = evict key st' in (map_ok (λ _. v) q, st''))
              else (ok v, st')
        ]
      ]
