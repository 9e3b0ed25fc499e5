-- ===== src/Prelude/Dict.antt =====
-- Python's `dict`: an association list in insertion order, over keys with decidable equality.
use Prim.Native.Nat.{suc, ◌≤◌, ◌<◌}
use mathlib.Core.Path.{◌≡◌, refl}
use mathlib.Core.Logic.{◌≢◌, ite}
use mathlib.Core.Bool.{Bool}
use mathlib.Core.Option.{Option, none, some}
use mathlib.Core.List.{List, [], ◌∷◌}
use native.Mathlib.Omega.{arith}
use proxy_store.Prelude.Tests.{is_some}
use proxy_store.Prelude.Lists.{length}

abbrev pub Dict {ℓ} : Type ℓ → Type ℓ → Type ℓ
Dict K V = List (K × V)

module _ {ℓ} {K V : Type ℓ} (dec : Discrete K) where
  -- `d.get(k)`
  unfoldable pub get : K → Dict K V → Option V
  get k [] = none
  get k ((j, v) ∷ d) = ite (dec j k) (some v) (get k d)

  -- `k in d`
  abbrev pub contains : K → Dict K V → Bool
  contains k d = is_some (get k d)

  -- `d[k] = v`: a known key keeps its place, a new one goes to the end
  unfoldable pub insert : K → V → Dict K V → Dict K V
  insert k v [] = (k, v) ∷ []
  insert k v ((j, w) ∷ d) = ite (dec j k) ((k, v) ∷ d) ((j, w) ∷ insert k v d)

  -- `d.pop(k, None)`, and `del d[k]` for a key that is there
  unfoldable pub erase : K → Dict K V → Dict K V
  erase k [] = []
  erase k ((j, w) ∷ d) = ite (dec j k) (erase k d) ((j, w) ∷ erase k d)

  pub get-insert :
      (k j : K) (v : V) (d : Dict K V) → get j (insert k v d) ≡ ite (dec k j) (some v) (get j d)
  unfolding get insert
  get-insert k j v [] = refl
  get-insert k j v ((i, w) ∷ d) = ground (arith, get-insert k j v d)

  pub get-insert_self : (k : K) (v : V) (d : Dict K V) → get k (insert k v d) ≡ some v
  get-insert_self k v d = ground (arith, get-insert k k v d)

  pub get-insert_ne : (k j : K) (v : V) (d : Dict K V) → k ≢ j → get j (insert k v d) ≡ get j d
  get-insert_ne k j v d h = ground (arith, get-insert k j v d)

  pub get-erase : (k j : K) (d : Dict K V) → get j (erase k d) ≡ ite (dec k j) none (get j d)
  unfolding get erase
  get-erase k j [] = ground arith
  get-erase k j ((i, w) ∷ d) = ground (arith, get-erase k j d)

  pub get-erase_self : (k : K) (d : Dict K V) → get k (erase k d) ≡ none
  get-erase_self k d = ground (arith, get-erase k k d)

  pub get-erase_ne : (k j : K) (d : Dict K V) → k ≢ j → get j (erase k d) ≡ get j d
  get-erase_ne k j d h = ground (arith, get-erase k j d)

  pub length-erase-le : (k : K) (d : Dict K V) → length (erase k d) ≤ length d
  unfolding erase
  length-erase-le k [] = omega arith
  length-erase-le k ((j, w) ∷ d) = ground (arith, length-erase-le k d)

  pub length-erase-lt :
      (k : K) (v : V) (d : Dict K V) → get k d ≡ some v → length (erase k d) < length d
  unfolding erase get
  length-erase-lt k v [] h = ground arith
  length-erase-lt k v ((j, w) ∷ d) h = ground (arith, length-erase-le k d, length-erase-lt k v d)

  pub length-insert-le : (k : K) (v : V) (d : Dict K V) → length (insert k v d) ≤ suc (length d)
  unfolding insert
  length-insert-le k v [] = omega arith
  length-insert-le k v ((j, w) ∷ d) = ground (arith, length-insert-le k v d)

pub ruleset dict_laws = (get-insert, get-erase)
