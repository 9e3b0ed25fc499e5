-- ===== src/Prelude/Sets.antt =====
-- Lists used as collections of keys: membership as a Boolean, Python's `list.remove`, and
-- lists without repetition.
use Prim.Native.Nat.{suc}
use mathlib.Core.Path.{◌≡◌, refl}
use mathlib.Core.Logic.{◌≢◌, ite}
use mathlib.Core.Bool.{Bool, true, false}
use mathlib.Core.List.{List, [], ◌∷◌}
use native.Mathlib.Omega.{arith}
use proxy_store.Prelude.Lists.{length}

module _ {ℓ} {K : Type ℓ} (dec : Discrete K) where
  -- `k in l`
  unfoldable pub mem : K → List K → Bool
  mem k [] = false
  mem k (x ∷ l) = elim (dec x k) [ yes _ ↦ true | no _ ↦ mem k l ]

  -- `l.remove(k)` for a `k` that is there: the first occurrence goes
  unfoldable pub remove : K → List K → List K
  remove k [] = []
  remove k (x ∷ l) = ite (dec x k) l (x ∷ remove k l)

  abbrev pub Distinct : List K → Type 0
  Distinct [] = Unit
  Distinct (x ∷ l) = (mem x l ≡ false) × Distinct l

  pub mem-remove_ne : (k j : K) (l : List K) → k ≢ j → mem j (remove k l) ≡ mem j l
  unfolding mem remove
  mem-remove_ne k j [] h = refl
  mem-remove_ne k j (x ∷ l) h = ground (arith, mem-remove_ne k j l h)

  pub mem-remove_self : (k : K) (l : List K) → Distinct l → mem k (remove k l) ≡ false
  unfolding mem remove
  mem-remove_self k [] d = refl
  mem-remove_self k (x ∷ l) d = ground (arith, mem-remove_self k l d.1)

  pub mem_of_mem-remove : (k j : K) (l : List K) → mem j l ≡ false → mem j (remove k l) ≡ false
  unfolding mem remove
  mem_of_mem-remove k j [] h = refl
  mem_of_mem-remove k j (x ∷ l) h = ground (arith, mem_of_mem-remove k j l)

  pub remove-Distinct : (k : K) (l : List K) → Distinct l → Distinct (remove k l)
  unfolding mem remove
  remove-Distinct k [] d = tt
  remove-Distinct k (x ∷ l) d = ground (arith, mem_of_mem-remove k x l d.0, remove-Distinct k l d.1)

  pub length-remove : (k : K) (l : List K) → mem k l ≡ true → suc (length (remove k l)) ≡ length l
  unfolding mem remove
  length-remove k [] h = ground arith
  length-remove k (x ∷ l) h = ground (arith, length-remove k l)
