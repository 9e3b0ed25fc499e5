-- ===== src/Lifetime/Closing.antt =====
-- What is left of the objects of a `ContextLifetime` when it is closed.
use proxy_store.Prelude.{◌≡◌, if◌then◌else◌, Bool, true, false, ◌||◌, List, [], ◌∷◌}
use proxy_store.Prelude.Keys.{keys}
use proxy_store.Prelude.Sets.{mem}
use proxy_store.Prelude.Exec.{ok, err}
use proxy_store.Lifetime.{Stores, Factory, ContextLifetime, keys_of, add_key, add_proxy, close}
use proxy_store.Lifetime.Eviction.{Laws}

-- the world after `close` has evicted: the store is closed too, or nothing more happens
abbrev pub closed_world : {S K W : Type 0} → Stores S K W → Bool → S → W → W
closed_world stores close_stores store w = if close_stores then (stores.close store w).1 else w

-- the calls that add keys
pub data Add (S K : Type 0) : Type 0 where
  add_keys : List K → Add S K
  add_proxies : List (Factory S K) → Add S K

module _ {S K W : Type 0} (dec : Discrete K) (stores : Stores S K W) where
  unfoldable pub add : Add S K → (ContextLifetime S K × W) → ContextLifetime S K × W
  add (add_keys ks) s = (add_key dec stores ks s).1
  add (add_proxies factories) s = (add_proxy dec stores factories s).1

  unfoldable pub add_all : List (Add S K) → (ContextLifetime S K × W) → ContextLifetime S K × W
  add_all [] s = s
  add_all (a ∷ l) s = add_all l (add a s)

module _ {S K : Type 0} (dec : Discrete K) where
  -- a call with a proxy that has another factory adds nothing
  unfoldable pub adds : K → Add S K → Bool
  adds k (add_keys ks) = mem dec k ks
  adds k (add_proxies factories) = elim (keys_of factories) [ err _ ↦ false | ok ks ↦ mem dec k ks ]

  unfoldable pub added : K → List (Add S K) → Bool
  added k [] = false
  added k (a ∷ l) = let rest = added k l in adds k a || rest

module _ {S K W V : Type 0} (dec : Discrete K) (stores : Stores S K W) (laws : Laws V stores) where
  -- a lifetime that has not ended, in a world that is still `w`, with the keys that were added
  abbrev pub running : S → List K → ContextLifetime S K
  running store ks = record { store = store; keys = ks; done = false }

  abbrev finished : S → ContextLifetime S K
  finished store = record { store = store; keys = []; done = true }

  record Collects (store : S) (w : W) (s : ContextLifetime S K × W) (known : K → Bool)
      : Type 0 where
    keys : List K
    state : s ≡ (running store keys, w)
    keys_known : (k : K) → mem dec k keys ≡ known k
