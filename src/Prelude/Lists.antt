-- ===== src/Prelude/Lists.antt =====
-- Lists measured and indexed by native numbers, under the library's names.
use Prim.Native.Nat.{ℕ, zero, suc, ◌+◌, ◌-◌, ◌≤◌, min}
use mathlib.Core.Path.{◌≡◌, refl, ap}
use mathlib.Core.Option.{Option, none, some}
use mathlib.Core.List.{List, [], ◌∷◌, ◌++◌, map}
use native.Mathlib.Omega.{arith}

module _ {ℓ} {A : Type ℓ} where
  abbrev pub get_elem? : List A → ℕ → Option A
  get_elem? [] i = none
  get_elem? (x ∷ l) zero = some x
  get_elem? (x ∷ l) (suc i) = get_elem? l i

  abbrev pub set : List A → ℕ → A → List A
  set [] i v = []
  set (x ∷ l) zero v = v ∷ l
  set (x ∷ l) (suc i) v = x ∷ set l i v

  abbrev pub take : ℕ → List A → List A
  take zero l = []
  take (suc n) [] = []
  take (suc n) (x ∷ l) = x ∷ take n l

  abbrev pub drop : ℕ → List A → List A
  drop zero l = l
  drop (suc n) [] = []
  drop (suc n) (x ∷ l) = drop n l

  abbrev pub length : List A → ℕ
  length [] = 0
  length (x ∷ l) = suc (length l)

  abbrev pub All {κ} : (A → Type κ) → List A → Type κ
  All P [] = Unit
  All P (x ∷ l) = P x × All P l

module _ {ℓ} {A : Type ℓ} where
  pub length-append : (l m : List A) → length (l ++ m) ≡ length l + length m
  length-append [] m = omega arith
  length-append (x ∷ l) m = omega (arith, length-append l m)

  pub length-take : (n : ℕ) (l : List A) → length (take n l) ≡ min n (length l)
  length-take zero l = omega arith
  length-take (suc n) [] = omega arith
  length-take (suc n) (x ∷ l) = omega (arith, length-take n l)

  pub length-drop : (n : ℕ) (l : List A) → length (drop n l) ≡ length l - n
  length-drop zero l = omega arith
  length-drop (suc n) [] = omega arith
  length-drop (suc n) (x ∷ l) = omega (arith, length-drop n l)

  pub take-append-drop : (n : ℕ) (l : List A) → take n l ++ drop n l ≡ l
  take-append-drop zero l = refl
  take-append-drop (suc n) [] = refl
  take-append-drop (suc n) (x ∷ l) = ap (◌∷◌ x) (take-append-drop n l)

  -- nothing is cut off a list that is not longer
  pub take_of_length-le : (count : ℕ) (l : List A) → length l ≤ count → take count l ≡ l
  take_of_length-le zero [] short = refl
  take_of_length-le (suc count) [] short = refl
  take_of_length-le zero (x ∷ l) short = absurd (omega (arith, short))
  take_of_length-le (suc count) (x ∷ l) short =
      ap (λ rest. x ∷ rest) (take_of_length-le count l (omega (arith, short)))

  pub take-append_left : (l m : List A) → take (length l) (l ++ m) ≡ l
  take-append_left [] m = refl
  take-append_left (x ∷ l) m = ap (◌∷◌ x) (take-append_left l m)

  pub drop-append_left : (l m : List A) → drop (length l) (l ++ m) ≡ m
  drop-append_left [] m = refl
  drop-append_left (x ∷ l) m = drop-append_left l m

  pub length-map {κ} : {B : Type κ} (f : A → B) (l : List A) → length (map f l) ≡ length l
  length-map f [] = refl
  length-map f (x ∷ l) = ap suc (length-map f l)
