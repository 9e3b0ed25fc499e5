-- ===== src/Store/Coherence.antt =====
-- Coherent stores, whose cache holds what the connector has, and `Store.get` on them.
use mathlib.Core.Path.{subst}
use proxy_store.Prelude.{
  ℕ, zero, suc, ◌≡◌, ◌≢◌, refl, sym, ◌∙◌, ap, inl, inr, ◌⊎◌, Option-cases, Option, none, some, [],
  ◌∷◌, take, arith,
}
use proxy_store.Prelude.Dict
use proxy_store.Prelude.Dict.{Dict, erase, get-erase, get-erase_self}
use proxy_store.Prelude.Exec.{Result, ok, err, Error, Result-cases, serialization_error}
use proxy_store.Connector.{Connector, Laws}
use proxy_store.Lru
use proxy_store.Lru.{LruCache}
use proxy_store.Lru.Spec.{Holds, ideal_get, ideal_set}
use proxy_store.Lru.Refinement.{get-Holds}
use proxy_store.Lru.Insertion.{set-Holds}
use proxy_store.Store.{Store, Serializer, Deserializer, cache_result, fetch, get}

module _ {K V : Type 0} (dec : Discrete K) where
  get-take :
      (n : ℕ) (j : K) (v : V) (d : Dict K V)
      → Dict.get dec j (take n d) ≡ some v
      → Dict.get dec j d ≡ some v
  unfolding Dict.get
  get-take zero j v d e = cc
  get-take (suc n) j v [] e = cc
  get-take (suc n) j v ((k, w) ∷ d) e = ground (arith, get-take n j v d)

  get-ideal_get : (k j : K) (l : Dict K V) → Dict.get dec j (ideal_get dec k l) ≡ Dict.get dec j l
  unfolding Dict.get
  get-ideal_get k j l = ground (arith, get-erase dec k j l)

  get-cons :
      (k j : K) (v : V) (l : Dict K V)
      → ((k ≡ j) × (Dict.get dec j ((k, v) ∷ l) ≡ some v))
        ⊎ ((k ≢ j) × (Dict.get dec j ((k, v) ∷ l) ≡ Dict.get dec j l))
  unfolding Dict.get
  get-cons k j v l = ground arith

  pub get-erase-cases :
      (k j : K) (v : V) (l : Dict K V)
      → Dict.get dec j (erase dec k l) ≡ some v
      → (k ≢ j) × (Dict.get dec j l ≡ some v)
  get-erase-cases k j v l e = ground (arith, get-erase dec k j l)

module _ {S K V B : Type 0} (dec : Discrete K) (connector : Connector S K B)
    (serializer : Serializer V B) (deserializer : Deserializer B V) (laws : Laws connector) where
  -- The cache holds `contents`, and each of them is what the connector has under that key.
  pub record IsCoherent (st : Store S K V) : Type 0 where
    pub contents : Dict K V
    pub held : Holds dec st.cache contents
    pub backed :
        (k : K) (v : V)
        → Dict.get dec k contents ≡ some v
        → (b : B) × (laws.view st.conn k ≡ some b) × (deserializer b ≡ ok v)

  -- what `get` answers, by what the connector has
  abbrev pub reading : Option V → Option B → Result (Option V)
  reading default none = ok default
  reading default (some b) = elim (deserializer b) [
    | ok v ↦ ok (some v)
    | err _ ↦ err serialization_error
  ]

  module _ (given : Option (Deserializer B V)) (default : Option V) (key : K)
      (st : Store S K V) where
    get_hit :
        (v : V)
        → (Lru.get dec key none st.cache).0 ≡ ok (some v)
        → get dec connector serializer deserializer given default key st
          ≡ (ok (some v), record st { cache = (Lru.get dec key none st.cache).1 })
    unfolding get
    get_hit v e = rw (get, e) refl

    get_miss :
        (Lru.get dec key none st.cache).0 ≡ ok none
        → get dec connector serializer deserializer given default key st
          ≡ fetch dec connector serializer deserializer given default key
              (record st { cache = (Lru.get dec key none st.cache).1 })
    unfolding get
    get_miss e = rw (get, e) refl

    fetch-none :
        laws.view st.conn key ≡ none
        → fetch dec connector serializer deserializer given default key st ≡ (ok default, st)
    unfolding fetch
    fetch-none e =
        rw (fetch, laws.get_view key st.conn, e)
          (ap (λ c. (ok default, record st { conn = c }))
            (ap (λ r. r.1) (laws.get_view key st.conn)))

    fetch-some :
        (b : B)
        → laws.view st.conn key ≡ some b
        → fetch dec connector serializer deserializer given default key st
          ≡ cache_result dec connector serializer deserializer given key b st
    unfolding fetch
    fetch-some b e =
        rw (fetch, laws.get_view key st.conn, e)
          (ap
            (λ c.
              cache_result dec connector serializer deserializer given key b
                (record st { conn = c }))
            (ap (λ r. r.1) (laws.get_view key st.conn)))

  cache_err :
      (key : K) (b : B) (st : Store S K V) (e : Error)
      → deserializer b ≡ err e
      → cache_result dec connector serializer deserializer none key b st
        ≡ (err serialization_error, st)
  unfolding cache_result
  cache_err key b st e h = rw (cache_result, h) refl

  cache_ok :
      (key : K) (b : B) (st : Store S K V) (v : V)
      → deserializer b ≡ ok v
      → (Lru.set dec key v st.cache).0 ≡ ok tt
      → cache_result dec connector serializer deserializer none key b st
        ≡ (ok (some v), record st { cache = (Lru.set dec key v st.cache).1 })
  unfolding cache_result
  cache_ok key b st v h s = rw (cache_result, h, s) refl

  -- the object that was fetched is cached, and some other may be dropped
  cached-IsCoherent :
      (key : K) (b : B) (v : V) (st : Store S K V) (d : LruCache K V) (n : ℕ)
      → (w : IsCoherent st) → laws.view st.conn key ≡ some b
      → deserializer b ≡ ok v
      → Holds dec d (ideal_set n key v w.contents)
      → IsCoherent (record st { cache = d })
  cached-IsCoherent key b v st d n w there fits h = record {
    contents = ideal_set n key v w.contents;
    held = h;
    backed = λ k x e. elim (get-cons dec key k v w.contents) [
      | inl (same, found) ↦ (
        b,
        subst (λ y. laws.view st.conn y ≡ some b) same there,
        ground (arith, get-take dec n k x ((key, v) ∷ w.contents) e, found),
      )
      | inr (_, found) ↦ w.backed k x (sym found ∙ get-take dec n k x ((key, v) ∷ w.contents) e)
    ];
  }

  abbrev touched :
      (st : Store S K V) (w : IsCoherent st) (l : Dict K V) (d : LruCache K V)
      → Holds dec d l
      → ((j : K) → Dict.get dec j l ≡ Dict.get dec j w.contents)
      → IsCoherent (record st { cache = d })
  touched st w l d h same = record {
    contents = l;
    held = h;
    backed = λ k v e. w.backed k v (sym (same k) ∙ e);
  }

  pub reading_fits :
      (default : Option V) (b : B) (v : V)
      → deserializer b ≡ ok v
      → reading default (some b) ≡ ok (some v)
  reading_fits default b v fits = rw (reading, fits) refl

  reading_fails :
      (default : Option V) (b : B) (e : Error)
      → deserializer b ≡ err e
      → reading default (some b) ≡ err serialization_error
  reading_fails default b e fails = rw (reading, fails) refl

  abbrev Reads : Option V → K → Store S K V → Result (Option V) × Store S K V → Type 0
  Reads default key st (answer, st') =
      (answer ≡ reading default (laws.view st.conn key)) × ((st'.conn ≡ st.conn) × IsCoherent st')

  fetch-IsCoherent :
      (default : Option V) (key : K) (st : Store S K V) (w : IsCoherent st)
      → Dict.get dec key w.contents ≡ none
      → Reads default key st (fetch dec connector serializer deserializer none default key st)
  fetch-IsCoherent default key st w absent = elim (Option-cases (laws.view st.conn key)) [
    | inl e ↦ rw (fetch-none none default key st e, e) (refl, (refl, w))
    | inr (b, e) ↦ elim (Result-cases (deserializer b)) [
      | inr (e', fails) ↦
          rw (fetch-some none default key st b e, cache_err key b st e' fails, e)
            (sym (reading_fails default b e' fails), (refl, w))
      | inl (v, fits) ↦
          let (done, h) = set-Holds dec key v st.cache w.contents w.held absent in
          rw (fetch-some none default key st b e, cache_ok key b st v fits done, e)
            (
              sym (reading_fits default b v fits),
              (refl, cached-IsCoherent key b v st _ st.cache.maxsize w e fits h),
            )
    ]
  ]

  -- On a coherent store, `get` with the store's own deserializer answers what the connector has
  -- under the key, deserialized, or the default, or a `SerializationError` where that object does
  -- not deserialize, whether it is cached or not; the connector is as before, and the store is
  -- coherent again.
  pub get-IsCoherent :
      (default : Option V) (key : K) (st : Store S K V)
      → IsCoherent st
      → ((get dec connector serializer deserializer none default key st).0
          ≡ reading default (laws.view st.conn key))
        × (((get dec connector serializer deserializer none default key st).1.conn ≡ st.conn)
            × IsCoherent (get dec connector serializer deserializer none default key st).1)
  get-IsCoherent default key st w =
      let (answer, holds) = get-Holds dec key none st.cache w.contents w.held in
      let after =
        touched st w (ideal_get dec key w.contents) _ holds
          (λ j. get-ideal_get dec key j w.contents) in
      elim (Option-cases (Dict.get dec key w.contents)) [
        | inr (v, e) ↦
            let (b, there, fits) = w.backed key v e in
            rw (get_hit none default key st v (answer ∙ hit (some v) e), there)
              (sym (reading_fits default b v fits), (refl, after))
        | inl e ↦
            rw (get_miss none default key st (answer ∙ hit none e))
              (fetch-IsCoherent default key _ after (get-ideal_get dec key key w.contents ∙ e))
      ]
    where
      hit :
          (o : Option V)
          → Dict.get dec key w.contents ≡ o
          → ok (elim (Dict.get dec key w.contents) [ none ↦ none | some v ↦ some v ]) ≡ ok o
      hit none e = rw e refl
      hit (some v) e = rw e refl
