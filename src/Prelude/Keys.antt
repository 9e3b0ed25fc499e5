-- ===== src/Prelude/Keys.antt =====
-- The keys of a dictionary, as a list without repetition.
use Prim.Native.Nat.{suc}
use mathlib.Core.Path.{◌≡◌, refl}
use mathlib.Core.Logic.{◌≢◌}
use mathlib.Core.Bool.{false}
use mathlib.Core.Option.{none, some}
use mathlib.Core.List.{List, [], ◌∷◌}
use native.Mathlib.Omega.{arith}
use proxy_store.Prelude.Lists.{length}
use proxy_store.Prelude.Sets.{mem, remove, Distinct}
use proxy_store.Prelude.Dict.{Dict, get, contains, insert, erase}

abbrev pub keys {ℓ} : {K V : Type ℓ} → Dict K V → List K
keys [] = []
keys ((k, v) ∷ d) = k ∷ keys d

module _ {ℓ} {K V : Type ℓ} (dec : Discrete K) where
  pub mem-keys : (k : K) (d : Dict K V) → mem dec k (keys d) ≡ contains dec k d
  unfolding mem get
  mem-keys k [] = refl
  mem-keys k ((j, w) ∷ d) = elim (dec j k) [
    | yes p ↦ ground arith
    | no p ↦ ground (arith, mem-keys k d)
  ]

  pub erase_absent : (k : K) (d : Dict K V) → get dec k d ≡ none → erase dec k d ≡ d
  unfolding get erase
  erase_absent k [] h = refl
  erase_absent k ((j, w) ∷ d) h = ground (arith, erase_absent k d)

  pub get_of_mem : (k : K) (d : Dict K V) → mem dec k (keys d) ≡ false → get dec k d ≡ none
  get_of_mem k d h = ground (arith, mem-keys k d)

  pub keys-erase :
      (k : K) (d : Dict K V) → Distinct dec (keys d) → keys (erase dec k d) ≡ remove dec k (keys d)
  unfolding erase remove
  keys-erase k [] h = refl
  keys-erase k ((j, w) ∷ d) h = elim (dec j k) [
    | yes p ↦ ground (arith, erase_absent j d (get_of_mem j d h.0))
    | no p ↦ ground (arith, keys-erase k d h.1)
  ]

  pub length-erase :
      (k : K) (v : V) (d : Dict K V)
      → Distinct dec (keys d)
      → get dec k d ≡ some v
      → suc (length (erase dec k d)) ≡ length d
  unfolding erase get
  length-erase k v [] h e = ground arith
  length-erase k v ((j, w) ∷ d) h e = elim (dec j k) [
    | yes p ↦ ground (arith, erase_absent j d (get_of_mem j d h.0))
    | no p ↦ ground (arith, length-erase k v d h.1)
  ]

  pub length-insert_new :
      (k : K) (v : V) (d : Dict K V)
      → get dec k d ≡ none
      → length (insert dec k v d) ≡ suc (length d)
  unfolding insert get
  length-insert_new k v [] e = refl
  length-insert_new k v ((j, w) ∷ d) e = ground (arith, length-insert_new k v d)

  pub mem-keys-insert :
      (k j : K) (v : V) (d : Dict K V)
      → k ≢ j
      → mem dec j (keys (insert dec k v d)) ≡ mem dec j (keys d)
  unfolding insert mem
  mem-keys-insert k j v [] h = ground arith
  mem-keys-insert k j v ((i, w) ∷ d) h = elim (dec i k) [
    | yes p ↦ ground arith
    | no p ↦ ground (arith, mem-keys-insert k j v d h)
  ]

  pub keys-insert-Distinct :
      (k : K) (v : V) (d : Dict K V)
      → Distinct dec (keys d)
      → Distinct dec (keys (insert dec k v d))
  unfolding insert mem
  keys-insert-Distinct k v [] h = (refl, tt)
  keys-insert-Distinct k v ((i, w) ∷ d) h = elim (dec i k) [
    | yes p ↦ ground arith
    | no p ↦ ground (arith, keys-insert-Distinct k v d h.1, mem-keys-insert k i v d)
  ]
