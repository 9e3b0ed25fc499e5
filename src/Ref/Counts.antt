-- ===== src/Ref/Counts.antt =====
-- How many references of a heap borrow from a given owner.
use proxy_store.Prelude.{
  ℕ, zero, suc, ◌+◌, ◌≤◌, ◌≡◌, ◌≢◌, refl, ap, ◌⊎◌, inl, inr, ◌==◌, Bool, true, false, Option, none,
  some, List, [], ◌∷◌, ◌++◌, length, get_elem?, set, arith,
}
use proxy_store.Ref.Heap.{ref, ref_mut, Cell}

module _ {A : Type 0} where
  pub get_elem?-set_self :
      (l : List A) (i : ℕ) {c : A} (v : A)
      → get_elem? l i ≡ some c
      → get_elem? (set l i v) i ≡ some v
  get_elem?-set_self [] i v h = cc
  get_elem?-set_self (x ∷ l) zero v h = refl
  get_elem?-set_self (x ∷ l) (suc i) v h = get_elem?-set_self l i v h

  pub get_elem?-set_ne :
      (l : List A) (i j : ℕ) (v : A) → i ≢ j → get_elem? (set l i v) j ≡ get_elem? l j
  get_elem?-set_ne [] i j v h = refl
  get_elem?-set_ne (x ∷ l) zero zero v h = absurd (h refl)
  get_elem?-set_ne (x ∷ l) zero (suc j) v h = refl
  get_elem?-set_ne (x ∷ l) (suc i) zero v h = refl
  get_elem?-set_ne (x ∷ l) (suc i) (suc j) v h = get_elem?-set_ne l i j v (λ e. h (ap suc e))

  pub get_elem?-append_left :
      (l m : List A) (i : ℕ) (c : A) → get_elem? l i ≡ some c → get_elem? (l ++ m) i ≡ some c
  get_elem?-append_left [] m i c h = cc
  get_elem?-append_left (x ∷ l) m zero c h = h
  get_elem?-append_left (x ∷ l) m (suc i) c h = get_elem?-append_left l m i c h

  pub get_elem?-length : (l : List A) (c : A) → get_elem? (l ++ (c ∷ [])) (length l) ≡ some c
  get_elem?-length [] c = refl
  get_elem?-length (x ∷ l) c = get_elem?-length l c

  -- an index of a list with one more element is an old one, or the new one
  pub get_elem?-append_one :
      (l : List A) (x : A) (i : ℕ) (c : A)
      → get_elem? (l ++ (x ∷ [])) i ≡ some c
      → (get_elem? l i ≡ some c) ⊎ ((i ≡ length l) × (c ≡ x))
  get_elem?-append_one [] x zero c h = inr (refl, cc)
  get_elem?-append_one [] x (suc i) c h = cc
  get_elem?-append_one (y ∷ l) x zero c h = inl h
  get_elem?-append_one (y ∷ l) x (suc i) c h = ground (arith, get_elem?-append_one l x i c h)

  pub get_elem?-past : (l : List A) → get_elem? l (length l) ≡ none
  get_elem?-past [] = refl
  get_elem?-past (x ∷ l) = get_elem?-past l

  pub length-set : (l : List A) (i : ℕ) (v : A) → length (set l i v) ≡ length l
  length-set [] i v = refl
  length-set (x ∷ l) zero v = refl
  length-set (x ∷ l) (suc i) v = ap suc (length-set l i v)

  unfoldable pub total : (A → ℕ) → List A → ℕ
  total f [] = 0
  total f (x ∷ l) = f x + total f l

  pub total-set :
      (f : A → ℕ) (l : List A) (i : ℕ) (c v : A)
      → get_elem? l i ≡ some c
      → total f (set l i v) + f c ≡ total f l + f v
  unfolding total
  total-set f [] i c v h = cc
  total-set f (x ∷ l) zero c v h = ground arith
  total-set f (x ∷ l) (suc i) c v h = omega (arith, total-set f l i c v h)

  pub total-append_one :
      (f : A → ℕ) (l : List A) (x : A) → total f (l ++ (x ∷ [])) ≡ total f l + f x
  unfolding total
  total-append_one f [] x = omega arith
  total-append_one f (y ∷ l) x = omega (arith, total-append_one f l x)

  pub total-zero :
      (f : A → ℕ) (l : List A)
      → ((i : ℕ) (c : A) → get_elem? l i ≡ some c → f c ≡ 0)
      → total f l ≡ 0
  unfolding total
  total-zero f [] h = refl
  total-zero f (x ∷ l) h = omega (arith, h 0 x refl, total-zero f l (λ i c at. h (suc i) c at))

  pub le-total : (f : A → ℕ) (l : List A) (i : ℕ) (c : A) → get_elem? l i ≡ some c → f c ≤ total f l
  unfolding total
  le-total f [] i c h = cc
  le-total f (x ∷ l) zero c h = ground arith
  le-total f (x ∷ l) (suc i) c h = omega (arith, le-total f l i c h)

abbrev pub is_at : ℕ → Option ℕ → Bool
is_at o none = false
is_at o (some j) = j == o

abbrev pub one_if : Bool → ℕ
one_if true = 1
one_if false = 0

-- 1 for an immutable reference that `o` owns
abbrev pub ref_to : {K V : Type 0} → ℕ → Cell K V → ℕ
ref_to o c = elim c.kind [ ref ↦ one_if (is_at o c.owner) | _ ↦ 0 ]

-- 1 for a mutable reference that `o` owns
abbrev pub mut_to : {K V : Type 0} → ℕ → Cell K V → ℕ
mut_to o c = elim c.kind [ ref_mut ↦ one_if (is_at o c.owner) | _ ↦ 0 ]
