-- ===== src/Store/Existence.antt =====
-- `Store.exists`, which looks into the cache first.
use proxy_store.Prelude.{◌≡◌, refl, ap, inl, inr, Bool-cases, Option-cases, is_some, true}
use proxy_store.Prelude.Dict
use proxy_store.Prelude.Exec.{ok}
use proxy_store.Connector.{Connector, Laws}
use proxy_store.Lru
use proxy_store.Lru.Refinement.{exists-Holds}
use proxy_store.Store.{Store, Serializer, Deserializer, exists}
use proxy_store.Store.Coherence.{IsCoherent}

module _ {S K V B : Type 0} (dec : Discrete K) (connector : Connector S K B)
    (serializer : Serializer V B) (deserializer : Deserializer B V) (laws : Laws connector) where
  -- an object that is cached is there
  cached_there :
      (key : K) (st : Store S K V)
      → IsCoherent dec connector serializer deserializer laws st
      → Lru.exists dec key st.cache ≡ true
      → is_some (laws.view st.conn key) ≡ true
  cached_there key st w e = elim (Option-cases (Dict.get dec key w.contents)) [
    | inl absent ↦
        absurd (cc (exists-Holds dec key st.cache w.contents w.held, ap is_some absent, e))
    | inr (v, found) ↦ ap is_some (w.backed key v found).1
  ]

  -- On a coherent store `exists` answers whether the connector has the key, whether an object is
  -- cached for it or not, and changes nothing.
  pub exists-IsCoherent :
      (key : K) (st : Store S K V)
      → IsCoherent dec connector serializer deserializer laws st
      → exists dec connector serializer deserializer key st
        ≡ (ok (is_some (laws.view st.conn key)), st)
  unfolding exists
  exists-IsCoherent key st w = elim (Bool-cases (Lru.exists dec key st.cache)) [
    | inl cached ↦ rw (exists, cached, cached_there key st w cached) refl
    | inr absent ↦
        rw (exists, absent)
          (ap (λ r. (r.0, record st { conn = r.1 })) (laws.exists_view key st.conn))
  ]
