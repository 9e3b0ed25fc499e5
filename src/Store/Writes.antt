-- ===== src/Store/Writes.antt =====
-- What evicting, setting, putting and resolving do to the objects of a store, and to later reads.
use mathlib.Core.Path.{subst}
use proxy_store.Prelude.{◌≡◌, ◌≢◌, refl, ◌∙◌, ap, Option, none, some, Bool, true}
use proxy_store.Prelude.Dict.{erase}
use proxy_store.Prelude.Exec.{ok, err, proxy_resolve_missing_key, map_ok}
use proxy_store.Connector.{Connector, Laws}
use proxy_store.Lru
use proxy_store.Lru.{LruCache}
use proxy_store.Lru.Refinement.{evict-Holds}
use proxy_store.Store.{Store, Serializer, Deserializer, evict, get, to_bytes, put, set, resolve}
use proxy_store.Store.Coherence.{IsCoherent, reading, get-IsCoherent, get-erase-cases, reading_fits}

module _ {S K V B : Type 0} (dec : Discrete K) (connector : Connector S K B)
    (serializer : Serializer V B) (deserializer : Deserializer B V) (laws : Laws connector) where
  abbrev Coherent : Store S K V → Type 0
  Coherent st = IsCoherent dec connector serializer deserializer laws st

  -- the cache forgets a key, and the connector changes nothing under the others
  forgotten :
      (key : K) (st : Store S K V) (conn' : S)
      → Coherent st
      → ((j : K) → key ≢ j → laws.view conn' j ≡ laws.view st.conn j)
      → ((Lru.evict dec key st.cache).0 ≡ ok tt)
        × Coherent (record { conn = conn'; cache = (Lru.evict dec key st.cache).1 })
  forgotten key st conn' w same =
      let (done, h) = evict-Holds dec key st.cache w.contents w.held in
      (
        done,
        record {
          contents = erase dec key w.contents;
          held = h;
          backed = λ k v e.
              let (ne, found) = get-erase-cases dec key k v w.contents e in
              let (b, there, fits) = w.backed k v found in (b, same k ne ∙ there, fits);
        },
      )

  evict_eq :
      (key : K) (st : Store S K V)
      → evict dec connector serializer deserializer key st ≡ (
        (Lru.evict dec key st.cache).0,
        record { conn = (connector.evict key st.conn).1; cache = (Lru.evict dec key st.cache).1 },
      )
  unfolding evict
  evict_eq key st = rw (evict, laws.evict_ok key st.conn) refl

  -- Evicting a key of a coherent store succeeds, after it the connector has nothing under the key,
  -- has the same as before under every other key, and the store is coherent.
  pub evict-IsCoherent :
      (key : K) (st : Store S K V)
      → Coherent st
      → ((evict dec connector serializer deserializer key st).0 ≡ ok tt)
        × ((laws.view (evict dec connector serializer deserializer key st).1.conn key ≡ none)
            × (((j : K)
                  → key ≢ j
                  → laws.view (evict dec connector serializer deserializer key st).1.conn j
                    ≡ laws.view st.conn j)
                × Coherent (evict dec connector serializer deserializer key st).1))
  evict-IsCoherent key st w =
      let other : (j : K)
          → key ≢ j
          → laws.view (connector.evict key st.conn).1 j ≡ laws.view st.conn j =
        λ j ne. laws.evict_other key j st.conn ne in
      let (done, h) = forgotten key st (connector.evict key st.conn).1 w other in
      rw (evict_eq key st) (done, (laws.evict_self key st.conn, (other, h)))

  to_bytes_own :
      (obj : V) (b : B)
      → serializer obj ≡ ok (some b)
      → to_bytes dec connector serializer deserializer none obj ≡ ok b
  unfolding to_bytes
  to_bytes_own obj b e = rw (to_bytes, e) refl

  set_eq :
      (key : K) (obj : V) (b : B) (st : Store S K V)
      → to_bytes dec connector serializer deserializer none obj ≡ ok b
      → set dec connector serializer deserializer none key obj st ≡ (
        (Lru.evict dec key st.cache).0,
        record { conn = (connector.set key b st.conn).1; cache = (Lru.evict dec key st.cache).1 },
      )
  unfolding set
  set_eq key obj b st e = rw (set, e, laws.set_ok key b st.conn) refl

  put_eq :
      (obj : V) (b : B) (key : K) (st : Store S K V)
      → to_bytes dec connector serializer deserializer none obj ≡ ok b
      → (connector.put b st.conn).0 ≡ ok key
      → put dec connector serializer deserializer none none obj st
        ≡ (ok key, record st { conn = (connector.put b st.conn).1 })
  unfolding put
  put_eq obj b key st e e' = rw (put, e, e') refl

  read_back :
      (default : Option V) (key : K) (obj : V) (b : B) (st : Store S K V)
      → Coherent st
      → laws.view st.conn key ≡ some b
      → deserializer b ≡ ok obj
      → (get dec connector serializer deserializer none default key st).0 ≡ ok (some obj)
  read_back default key obj b st w there fits =
      (get-IsCoherent dec connector serializer deserializer laws default key st w).0
      ∙ ap (reading dec connector serializer deserializer laws default) there
      ∙ reading_fits dec connector serializer deserializer laws default b obj fits

  -- Setting an object that serializes, and deserializes to itself, on a key of a coherent store
  -- succeeds, and the next `get` of that key answers the new object, also where an older one was
  -- cached; the store is coherent in between.
  pub get-set :
      (key : K) (obj : V) (b : B) (default : Option V) (st : Store S K V)
      → Coherent st
      → serializer obj ≡ ok (some b)
      → deserializer b ≡ ok obj
      → ((set dec connector serializer deserializer none key obj st).0 ≡ ok tt)
        × (Coherent (set dec connector serializer deserializer none key obj st).1
            × ((get dec connector serializer deserializer none default key
                  (set dec connector serializer deserializer none key obj st).1).0
                ≡ ok (some obj)))
  get-set key obj b default st w gives fits =
      let conn' = (connector.set key b st.conn).1 in
      let (done, h) = forgotten key st conn' w (λ j ne. laws.set_other key j b st.conn ne) in
      rw (set_eq key obj b st (to_bytes_own obj b gives)) (
        done,
        (
          h,
          read_back default key obj b
              (record { conn = conn'; cache = (Lru.evict dec key st.cache).1 }) h
              (laws.set_self key b st.conn) fits,
        ),
      )

  -- An object that serializes, and deserializes to itself, and that is put on a coherent store
  -- under a key that the connector did not have, is what `get` answers for that key. The store is
  -- coherent, and the connector has what it had under every other key.
  pub get-put :
      (obj : V) (b : B) (key : K) (default : Option V) (st : Store S K V)
      → Coherent st
      → serializer obj ≡ ok (some b)
      → deserializer b ≡ ok obj
      → (connector.put b st.conn).0 ≡ ok key
      → laws.view st.conn key ≡ none
      → ((put dec connector serializer deserializer none none obj st).0 ≡ ok key)
        × (Coherent (put dec connector serializer deserializer none none obj st).1
            × (((get dec connector serializer deserializer none default key
                    (put dec connector serializer deserializer none none obj st).1).0
                  ≡ ok (some obj))
                × ((j : K)
                    → key ≢ j
                    → laws.view
                        (put dec connector serializer deserializer none none obj st).1.conn
                        j
                      ≡ laws.view st.conn j)))
  get-put obj b key default st w gives fits given fresh =
      let conn' = (connector.put b st.conn).1 in
      let st' : Store S K V = record st { conn = conn' } in
      let h : Coherent st' = record {
        contents = w.contents;
        held = w.held;
        backed = λ k v e.
            let (b', there, fits') = w.backed k v e in
            (
              b',
              laws.put_other b st.conn key k given
                    (λ same. cc (subst (λ x. laws.view st.conn x ≡ none) same fresh, there))
                  ∙ there,
              fits',
            );
      } in
      rw (put_eq obj b key st (to_bytes_own obj b gives) given) (
        refl,
        (
          h,
          (
            read_back default key obj b st' h (laws.put_self b st.conn key given) fits,
            λ j ne. laws.put_other b st.conn key j given ne,
          ),
        ),
      )

  resolve_absent :
      (evict_after : Bool) (key : K) (st : Store S K V)
      → (get dec connector serializer deserializer none none key st).0 ≡ ok none
      → (resolve dec connector serializer deserializer none evict_after key st).0
        ≡ err proxy_resolve_missing_key
  unfolding resolve
  resolve_absent evict_after key st e = rw (resolve, e) refl

  resolve_evicting :
      (key : K) (v : V) (st : Store S K V)
      → (get dec connector serializer deserializer none none key st).0 ≡ ok (some v)
      → resolve dec connector serializer deserializer none true key st ≡ (
        map_ok
            (λ _. v)
            (evict dec connector serializer deserializer key
              (get dec connector serializer deserializer none none key st).1).0,
        (evict dec connector serializer deserializer key
            (get dec connector serializer deserializer none none key st).1).1,
      )
  unfolding resolve
  resolve_evicting key v st e = rw (resolve, e) refl

  missing :
      (evict_after : Bool) (key : K) (st : Store S K V)
      → Coherent st
      → laws.view st.conn key ≡ none
      → (resolve dec connector serializer deserializer none evict_after key st).0
        ≡ err proxy_resolve_missing_key
  missing evict_after key st w absent = resolve_absent evict_after key st (
      (get-IsCoherent dec connector serializer deserializer laws none key st w).0
      ∙ ap (reading dec connector serializer deserializer laws none) absent)

  -- On a coherent store, a factory that evicts, whose key is in the connector and whose object
  -- deserializes, answers the object, and the next call for that key, whether it evicts or not,
  -- raises a `ProxyResolveMissingKeyError`.
  pub resolve_once :
      (again : Bool) (key : K) (b : B) (v : V) (st : Store S K V)
      → Coherent st
      → laws.view st.conn key ≡ some b
      → deserializer b ≡ ok v
      → ((resolve dec connector serializer deserializer none true key st).0 ≡ ok v)
        × ((resolve dec connector serializer deserializer none again key
              (resolve dec connector serializer deserializer none true key st).1).0
            ≡ err proxy_resolve_missing_key)
  resolve_once again key b v st w there fits =
      let (_, (_, w')) = get-IsCoherent dec connector serializer deserializer laws none key st w in
      let (done, (gone, (_, w''))) =
        evict-IsCoherent key (get dec connector serializer deserializer none none key st).1 w' in
      rw (resolve_evicting key v st (read_back none key v b st w there fits))
        (ap (map_ok (λ _. v)) done, missing again key _ w'' gone)
