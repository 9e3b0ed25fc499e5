-- ===== src/Multi/Routing.antt =====
-- Where a `MultiConnector` puts an object, and that it is found there.
use proxy_store.Prelude.{
  ℕ, ◌≡◌, refl, sym, ◌∙◌, ap, inl, inr, ◌⊎◌, Bool-cases, some, Bool, true, false, List, [], ◌∷◌,
  arith,
}
use proxy_store.Prelude.Dict
use proxy_store.Prelude.Dict.{Dict}
use proxy_store.Prelude.Int.{ℤ, pos, negsuc}
use proxy_store.Prelude.Sets.{mem}
use proxy_store.Prelude.Exec.{Result, err, multi_connector_error, map_ok}
use proxy_store.Connector.{Connector}
use proxy_store.Multi.{le_int, Policy, is_valid, insert_name, sort_names, MultiConnector, put_from}

some_pair_injective : {A : Type 0} {x y : A} → some x ≡ some y → x ≡ y
some_pair_injective e = cc

le_int_refl : (m : ℤ) → le_int m m ≡ true
le_int_refl (pos m) = ground arith
le_int_refl (negsuc m) = ground arith

le_int_total : (m n : ℤ) → le_int m n ≡ false → le_int n m ≡ true
le_int_total (pos m) (pos n) h = ground arith
le_int_total (pos m) (negsuc n) h = refl
le_int_total (negsuc m) (pos n) h = cc
le_int_total (negsuc m) (negsuc n) h = ground arith

le_int_trans : (m n p : ℤ) → le_int m n ≡ true → le_int n p ≡ true → le_int m p ≡ true
le_int_trans (pos m) (pos n) (pos p) h k = ground arith
le_int_trans (pos m) (pos n) (negsuc p) h k = cc
le_int_trans (pos m) (negsuc n) p h k = cc
le_int_trans (negsuc m) (pos n) (pos p) h k = refl
le_int_trans (negsuc m) (pos n) (negsuc p) h k = cc
le_int_trans (negsuc m) (negsuc n) (pos p) h k = refl
le_int_trans (negsuc m) (negsuc n) (negsuc p) h k = ground arith

module _ {N : Type 0} (dec : Discrete N) (f : N → ℤ) where
  abbrev pub Descending : List N → Type 0
  Descending [] = Unit
  Descending (x ∷ l) = ((y : N) → mem dec y l ≡ true → le_int (f y) (f x) ≡ true) × Descending l

  mem-cons : (y x : N) (l : List N) → mem dec y (x ∷ l) ≡ true → (x ≡ y) ⊎ (mem dec y l ≡ true)
  unfolding mem
  mem-cons y x l h = ground arith

  mem-head : (x : N) (l : List N) → mem dec x (x ∷ l) ≡ true
  unfolding mem
  mem-head x l = ground arith

  mem-tail : (y x : N) (l : List N) → mem dec y l ≡ true → mem dec y (x ∷ l) ≡ true
  unfolding mem
  mem-tail y x l h = ground arith

  mem-insert_name : (y x : N) (l : List N) → mem dec y (insert_name f x l) ≡ mem dec y (x ∷ l)
  unfolding mem insert_name
  mem-insert_name y x [] = refl
  mem-insert_name y x (z ∷ l) = ground (arith, mem-insert_name y x l)

  pub mem-sort_names : (y : N) (l : List N) → mem dec y (sort_names f l) ≡ mem dec y l
  unfolding mem sort_names
  mem-sort_names y [] = refl
  mem-sort_names y (x ∷ l) =
      ground (arith, mem-insert_name y x (sort_names f l), mem-sort_names y l)

  insert_in :
      (x z : N) (l : List N) → le_int (f z) (f x) ≡ true → insert_name f x (z ∷ l) ≡ x ∷ z ∷ l
  unfolding insert_name
  insert_in x z l e = rw (insert_name, e) refl

  insert_past :
      (x z : N) (l : List N)
      → le_int (f z) (f x) ≡ false
      → insert_name f x (z ∷ l) ≡ z ∷ insert_name f x l
  unfolding insert_name
  insert_past x z l e = rw (insert_name, e) refl

  insert_name-Descending : (x : N) (l : List N) → Descending l → Descending (insert_name f x l)
  unfolding mem insert_name
  insert_name-Descending x [] d = (λ y h. cc, tt)
  insert_name-Descending x (z ∷ l) (top, d) = elim (Bool-cases (le_int (f z) (f x))) [
    | inl e ↦ rw (insert_in x z l e) (
      λ y h. elim (mem-cons y z l h) [
        | inl same ↦ rw (sym same) e
        | inr deeper ↦ le_int_trans (f y) (f z) (f x) (top y deeper) e
      ],
      (top, d),
    )
    | inr e ↦ rw (insert_past x z l e) (
      λ y h. elim (mem-cons y x l (sym (mem-insert_name y x l) ∙ h)) [
        | inl same ↦ rw (sym same) (le_int_total (f z) (f x) e)
        | inr deeper ↦ top y deeper
      ],
      insert_name-Descending x l d,
    )
  ]

  pub sort_names-Descending : (l : List N) → Descending (sort_names f l)
  unfolding sort_names
  sort_names-Descending [] = tt
  sort_names-Descending (x ∷ l) =
      insert_name-Descending x (sort_names f l) (sort_names-Descending l)

module _ {N T S K B C : Type 0} (dec : Discrete N) (tag_dec : Discrete T) (fullmatch : T → T → Bool)
    (hostname : T) (size_of : B → ℕ) (m : MultiConnector N T S K B C) (obj : B)
    (subset_tags superset_tags : List T) where
  -- the policy allows the object
  abbrev pub allows : Policy T → Bool
  allows policy =
      is_valid tag_dec fullmatch hostname policy (some (size_of obj)) (some subset_tags)
        (some superset_tags)

  module _ (name : N) (names : List N) (p : Connector S K B × Policy T) (s : S) where
    put_here :
        Dict.get dec name m.connectors ≡ some p
        → allows p.1 ≡ true
        → put_from dec tag_dec fullmatch hostname size_of m
            (name ∷ names)
            obj
            subset_tags
            superset_tags
            s
          ≡ (map_ok (λ key. (name, key)) ((p.0).put obj s).0, ((p.0).put obj s).1)
    unfolding put_from
    put_here e fits = rw (put_from, e, fits) refl

    put_past :
        Dict.get dec name m.connectors ≡ some p
        → allows p.1 ≡ false
        → put_from dec tag_dec fullmatch hostname size_of m
            (name ∷ names)
            obj
            subset_tags
            superset_tags
            s
          ≡ put_from dec tag_dec fullmatch hostname size_of m names obj subset_tags superset_tags s
    unfolding put_from
    put_past e misfits = rw (put_from, e, misfits) refl

  abbrev pub Chosen : (N → ℤ) → List N → S → Result (N × K) × S → Type 0
  Chosen f names s r =
      ((r ≡ (err multi_connector_error, s))
        × ((name : N) (p : Connector S K B × Policy T)
            → mem dec name names ≡ true
            → Dict.get dec name m.connectors ≡ some p
            → allows p.1 ≡ false))
      ⊎ ((name : N) × ((p : Connector S K B × Policy T) × ((Dict.get dec name m.connectors ≡ some p)
              × ((allows p.1 ≡ true)
                  × ((r ≡ (map_ok (λ key. (name, key)) ((p.0).put obj s).0, ((p.0).put obj s).1))
                      × ((other : N) (q : Connector S K B × Policy T)
                          → mem dec other names ≡ true
                          → Dict.get dec other m.connectors ≡ some q
                          → allows q.1 ≡ true
                          → le_int (f other) (f name) ≡ true))))))

  pub put_from-Chosen :
      (f : N → ℤ) (names : List N) (s : S)
      → Descending dec f names
      → ((name : N)
          → mem dec name names ≡ true
          → (p : Connector S K B × Policy T) × (Dict.get dec name m.connectors ≡ some p))
      → Chosen f names s
          (put_from dec tag_dec fullmatch hostname size_of m names obj subset_tags superset_tags s)
  unfolding put_from mem
  put_from-Chosen f [] s d known = inl (refl, λ name p h e. cc)
  put_from-Chosen f (name ∷ names) s (top, d) known =
      let (p, e) = known name (mem-head dec f name names) in
      elim (Bool-cases (allows p.1)) [
        | inl fits ↦ inr (
          name,
          (
            p,
            (
              e,
              (
                fits,
                (
                  put_here name names p s e fits,
                  λ other q h e' fits'. elim (mem-cons dec f other name names h) [
                    | inl same ↦ rw (sym same) (le_int_refl (f name))
                    | inr deeper ↦ top other deeper
                  ],
                ),
              ),
            ),
          ),
        )
        | inr misfits ↦
            elim (put_from-Chosen f names s d (λ n h. known n (mem-tail dec f n name names h))) [
              | inl (fails, none_fit) ↦ inl (
                put_past name names p s e misfits ∙ fails,
                λ n q h e'. elim (mem-cons dec f n name names h) [
                  | inl same ↦ same_policy n q p same e e' misfits
                  | inr deeper ↦ none_fit n q deeper e'
                ],
              )
              | inr (best, (q, (at_best, (fits, (result, highest))))) ↦ inr (
                best,
                (
                  q,
                  (
                    at_best,
                    (
                      fits,
                      (
                        put_past name names p s e misfits ∙ result,
                        λ other q' h e' fits'. elim (mem-cons dec f other name names h) [
                          | inl same ↦ cc (same_policy other q' p same e e' misfits, fits')
                          | inr deeper ↦ highest other q' deeper e' fits'
                        ],
                      ),
                    ),
                  ),
                ),
              )
            ]
      ]
    where
      same_policy :
          (n : N) (q p : Connector S K B × Policy T)
          → name ≡ n
          → Dict.get dec name m.connectors ≡ some p
          → Dict.get dec n m.connectors ≡ some q
          → allows p.1 ≡ false
          → allows q.1 ≡ false
      same_policy n q p same e e' misfits =
          let q_p : some q ≡ some p = cc (same, e, e') in
          ap (λ (x : Connector S K B × Policy T). allows x.1) (some_pair_injective q_p) ∙ misfits
