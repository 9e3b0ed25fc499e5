-- ===== src/Lifetime/Registering.antt =====
-- The keys that a `StaticLifetime` collects.
use mathlib.Core.Path.{subst}
use proxy_store.Prelude.{
  ◌≡◌, refl, sym, ◌∙◌, ap, arith, ite, if_pos, Option, none, some, Bool, false, ◌||◌, List, [], ◌∷◌,
}
use proxy_store.Prelude.Dict
use proxy_store.Prelude.Dict.{Dict, insert, get-insert}
use proxy_store.Prelude.Sets.{mem}
use proxy_store.Lifetime.{Stores, Factory, store_factory, other_factory, update}
use proxy_store.Lifetime.Eviction.{mem-update}
use proxy_store.Lifetime.Static.{
  StaticLifetime, new_static, keys_of_store, add_key, add_proxies, add_proxy,
}

-- the calls that add keys, with a store or without one
pub data Add (S K : Type 0) : Type 0 where
  adding_key : Option S → List K → Add S K
  adding_proxy : List (Factory S K) → Add S K

module _ {S K W : Type 0} (store_dec : Discrete S) (dec : Discrete K) (stores : Stores S K W) where
  unfoldable pub add : Add S K → (StaticLifetime S K × W) → StaticLifetime S K × W
  add (adding_key given ks) s = (add_key store_dec dec stores given ks s).1
  add (adding_proxy factories) s = (add_proxy store_dec dec stores factories s).1

  unfoldable pub add_all : List (Add S K) → (StaticLifetime S K × W) → StaticLifetime S K × W
  add_all [] s = s
  add_all (a ∷ l) s = add_all l (add a s)

-- Whether calls add a key of a store: a call without a store adds nothing, and a call with proxies
-- those before the first one that has another factory.
module _ {S K : Type 0} (store_dec : Discrete S) (dec : Discrete K) where
  abbrev given_to : S → List K → S → K → Bool
  given_to owner ks store k = ite (store_dec owner store) (mem dec k ks) false

  unfoldable pub proxied : S → K → List (Factory S K) → Bool
  proxied store k [] = false
  proxied store k (other_factory ∷ _) = false
  proxied store k (store_factory owner key ∷ rest) =
      let later = proxied store k rest in given_to owner (key ∷ []) store k || later

  unfoldable pub adds : S → K → Add S K → Bool
  adds store k (adding_key none ks) = false
  adds store k (adding_key (some owner) ks) = given_to owner ks store k
  adds store k (adding_proxy factories) = proxied store k factories

  unfoldable pub added : S → K → List (Add S K) → Bool
  added store k [] = false
  added store k (a ∷ l) = let rest = added store k l in adds store k a || rest

module _ {S K W : Type 0} (store_dec : Discrete S) (dec : Discrete K) (stores : Stores S K W) where
  -- a lifetime that has not ended, in a world that is still `w`, with the keys that were added
  abbrev running : Dict S (List K) → StaticLifetime S K
  running d = record { keys = d; done = false }

  abbrev pub holds : Dict S (List K) → S → K → Bool
  holds d store k = mem dec k (keys_of_store store_dec dec stores store d)

  pub record Collects (w : W) (s : StaticLifetime S K × W) (known : S → K → Bool) : Type 0 where
    pub keys : Dict S (List K)
    pub state : s ≡ (running keys, w)
    pub keys_known : (store : S) (k : K) → holds keys store k ≡ known store k

  Collects-same :
      (w : W) (s : StaticLifetime S K × W) (known known' : S → K → Bool)
      → ((store : S) (k : K) → known store k ≡ known' store k)
      → Collects w s known
      → Collects w s known'
  Collects-same w s known known' e c = record {
    keys = c.keys;
    state = c.state;
    keys_known = λ store k. c.keys_known store k ∙ e store k;
  }

  -- the entry of a store, with more keys
  abbrev grown : S → List K → Dict S (List K) → Dict S (List K)
  grown owner ks d =
      insert store_dec owner (update dec (keys_of_store store_dec dec stores owner d) ks) d

  keys_of_store-insert :
      (owner : S) (v : List K) (d : Dict S (List K)) (store : S)
      → keys_of_store store_dec dec stores store (insert store_dec owner v d)
        ≡ ite (store_dec owner store) v (keys_of_store store_dec dec stores store d)
  unfolding keys_of_store
  keys_of_store-insert owner v d store =
      ap (λ m. elim m as (λ _. List K) [ none ↦ [] | some ks ↦ ks ])
        (get-insert store_dec owner store v d)
      ∙ ground arith

  grown-holds :
      (owner : S) (ks : List K) (d : Dict S (List K)) (store : S) (k : K)
      → holds (grown owner ks d) store k
        ≡ (holds d store k || given_to store_dec dec owner ks store k)
  grown-holds owner ks d store k =
      let kept : List K = keys_of_store store_dec dec stores owner d in
      ap (mem dec k) (keys_of_store-insert owner (update dec kept ks) d store)
      ∙ elim (store_dec owner store) [
        | yes here ↦
            rw (if_pos _ here) (mem-update dec k kept ks)
            ∙ ap (λ s. mem dec k (keys_of_store store_dec dec stores s d) || mem dec k ks) here
            ∙ ap (λ b. holds d store k || b)
                (sym (if_pos (store_dec owner store) here (mem dec k ks) false))
        | no other ↦ ground arith
      ]

  add_proxies-Collects :
      (w : W) (factories : List (Factory S K)) (d : Dict S (List K))
      → Collects w
          (add_proxies store_dec dec stores factories (running d, w)).1
          (λ store k. holds d store k || proxied store_dec dec store k factories)
  unfolding add_proxies add_key proxied
  add_proxies-Collects w [] d = record {
    keys = d;
    state = refl;
    keys_known = λ store k. ground arith;
  }
  add_proxies-Collects w (other_factory ∷ rest) d = record {
    keys = d;
    state = refl;
    keys_known = λ store k. ground arith;
  }
  add_proxies-Collects w (store_factory owner key ∷ rest) d =
      Collects-same w _ _ _ (λ store k. ground (arith, grown-holds owner (key ∷ []) d store k))
        (add_proxies-Collects w rest (grown owner (key ∷ []) d))

  add-Collects :
      (w : W) (a : Add S K) (d : Dict S (List K))
      → Collects w
          (add store_dec dec stores a (running d, w))
          (λ store k. holds d store k || adds store_dec dec store k a)
  unfolding add add_key add_proxy adds
  add-Collects w (adding_key none ks) d = record {
    keys = d;
    state = refl;
    keys_known = λ store k. ground arith;
  }
  add-Collects w (adding_key (some owner) ks) d = record {
    keys = grown owner ks d;
    state = refl;
    keys_known = λ store k. grown-holds owner ks d store k;
  }
  add-Collects w (adding_proxy factories) d = add_proxies-Collects w factories d

  add_all-Collects :
      (w : W) (l : List (Add S K)) (d : Dict S (List K))
      → Collects w
          (add_all store_dec dec stores l (running d, w))
          (λ store k. holds d store k || added store_dec dec store k l)
  unfolding add_all added
  add_all-Collects w [] d = record { keys = d; state = refl; keys_known = λ store k. ground arith }
  add_all-Collects w (a ∷ l) d =
      let c = add-Collects w a d in
      subst
        (λ s. Collects w (add_all store_dec dec stores l s) (λ store k.
          holds d store k || (adds store_dec dec store k a || added store_dec dec store k l)))
        (sym c.state)
        (Collects-same w _ _ _ (λ store k. ground (arith, c.keys_known store k))
          (add_all-Collects w l c.keys))

  pub new-Collects :
      (w : W) (l : List (Add S K))
      → Collects w
          (add_all store_dec dec stores l (new_static, w))
          (λ store k. added store_dec dec store k l)
  unfolding new_static keys_of_store mem Dict.get
  new-Collects w l = Collects-same w _ _ _ (λ store k. ground arith) (add_all-Collects w l [])
