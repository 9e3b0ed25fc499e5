-- ===== src/Connector.antt =====
-- The `Connector` and `DeferrableConnector` protocols of proxystore/connectors/protocols.py: the
-- operations a store calls, and what their documentation promises.
pub mod Local
use proxy_store.Prelude.{◌≡◌, ◌≢◌, Option, none, some, is_some, Bool, List}
use proxy_store.Prelude.Exec.{ok, Exec}

-- `S` is what the connector changes, `K` its keys, `B` the serialized objects
pub record Connector (S K B : Type 0) : Type 0 where
  pub get : K → Exec S (Option B)
  pub exists : K → Exec S Bool
  pub evict : K → Exec S (Unit {0})
  pub set : K → B → Exec S (Unit {0})
  pub put : B → Exec S K
  pub put_batch : List B → Exec S (List K)

-- What a connector that does not fail promises: it is a map from keys to objects. Which key `put`
-- gives is its own choice.
pub record Laws {S K B : Type 0} (c : Connector S K B) : Type 0 where
  pub view : S → K → Option B
  pub get_view : (k : K) (s : S) → c.get k s ≡ (ok (view s k), s)
  pub exists_view : (k : K) (s : S) → c.exists k s ≡ (ok (is_some (view s k)), s)
  pub evict_ok : (k : K) (s : S) → (c.evict k s).0 ≡ ok tt
  pub evict_self : (k : K) (s : S) → view (c.evict k s).1 k ≡ none
  pub evict_other : (k j : K) (s : S) → k ≢ j → view (c.evict k s).1 j ≡ view s j
  pub set_ok : (k : K) (b : B) (s : S) → (c.set k b s).0 ≡ ok tt
  pub set_self : (k : K) (b : B) (s : S) → view (c.set k b s).1 k ≡ some b
  pub set_other : (k j : K) (b : B) (s : S) → k ≢ j → view (c.set k b s).1 j ≡ view s j
  pub put_self : (b : B) (s : S) (k : K) → (c.put b s).0 ≡ ok k → view (c.put b s).1 k ≡ some b
  pub put_other :
      (b : B) (s : S) (k j : K) → (c.put b s).0 ≡ ok k → k ≢ j → view (c.put b s).1 j ≡ view s j
