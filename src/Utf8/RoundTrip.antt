-- ===== src/Utf8/RoundTrip.antt =====
-- Decoding what was encoded gives the text back, and a decoded text is shorter than its bytes
-- if it has a character that is not ASCII.
use proxy_store.Prelude.{
  ℕ, zero, suc, ◌+◌, ◌≤◌, ◌<◌, ◌≡◌, refl, sym, ◌∙◌, ap, inl, inr, none, some, List, [], ◌∷◌, ◌++◌,
  length, All, length-append, arith, Option-cases,
}
use proxy_store.Prelude.Exec.{ok, err, unicode_error, map_ok, map_ok-eq-ok}
use mathlib.Core.Path.{subst}
use proxy_store.Utf8.{
  encode_char, encode, decode_two, decode_three, decode_four, decode_char, decode_from, decode,
}

decode_char-encode_char :
    (c : ℕ) (bs rest : List ℕ) → encode_char c ≡ some bs → decode_char (bs ++ rest) ≡ some (c, rest)
unfolding encode_char decode_char decode_two decode_three decode_four
decode_char-encode_char c bs rest h = ground arith

encode_char_nonempty : (c : ℕ) (bs : List ℕ) → encode_char c ≡ some bs → 0 < length bs
unfolding encode_char
encode_char_nonempty c bs h = ground arith

decode_char-length :
    (bs : List ℕ) (c : ℕ) (rest : List ℕ)
    → decode_char bs ≡ some (c, rest)
    → (length rest < length bs) × (0x80 ≤ c → suc (length rest) < length bs)
unfolding decode_char decode_two decode_three decode_four
decode_char-length [] c rest h = ground arith
decode_char-length (a ∷ []) c rest h = ground arith
decode_char-length (a ∷ b ∷ []) c rest h = ground arith
decode_char-length (a ∷ b ∷ b' ∷ []) c rest h = ground arith
decode_char-length (a ∷ b ∷ b' ∷ b'' ∷ bs) c rest h = ground arith

-- one more character in front
decode_from_step :
    (fuel c : ℕ) (bs rest s : List ℕ)
    → 0 < length bs
    → decode_char (bs ++ rest) ≡ some (c, rest)
    → decode_from fuel rest ≡ ok s
    → decode_from (suc fuel) (bs ++ rest) ≡ ok (c ∷ s)
unfolding decode_from
decode_from_step fuel c [] rest s pos one more = absurd (omega arith)
decode_from_step fuel c (b ∷ bs) rest s pos one more = ground arith

decode_nothing : (fuel : ℕ) → decode_from fuel [] ≡ ok []
unfolding decode_from
decode_nothing zero = refl
decode_nothing (suc fuel) = refl

no_fuel : (b : ℕ) (bs : List ℕ) → decode_from zero (b ∷ bs) ≡ err unicode_error
unfolding decode_from
no_fuel b bs = refl

ok_injective : {A : Type 0} {a b : A} → ok a ≡ ok b → a ≡ b
ok_injective e = cc

encode_cons_none : (c : ℕ) (s : List ℕ) → encode_char c ≡ none → encode (c ∷ s) ≡ err unicode_error
unfolding encode
encode_cons_none c s bad = ground arith

encode_cons :
    (c : ℕ) (s bs : List ℕ)
    → encode (c ∷ s) ≡ ok bs
    → (front back : List ℕ) × (encode_char c ≡ some front)
      × (encode s ≡ ok back)
      × (bs ≡ front ++ back)
unfolding encode
encode_cons c s bs e = elim (Option-cases (encode_char c)) [
  | inl bad ↦ absurd (cc (encode_cons_none c s bad))
  | inr (front, good) ↦
      let (back, done, eq) =
        map_ok-eq-ok (λ rest. front ++ rest) (encode s) bs (rw (good, encode) at e) in
      (front, back, good, done, eq)
]

decode_from-encode :
    (s bs : List ℕ) (fuel : ℕ) → encode s ≡ ok bs → length bs ≤ fuel → decode_from fuel bs ≡ ok s
unfolding encode
decode_from-encode [] bs fuel e room = rw (← ok_injective e) (decode_nothing fuel)
decode_from-encode (c ∷ s) bs fuel e room =
    let (front, back, one, more, eq) = encode_cons c s bs e in
    let pos = encode_char_nonempty c front one in
    let room' : length front + length back ≤ fuel =
      omega (arith, length-append front back, ap length eq) in
    subst (λ x. decode_from fuel x ≡ ok (c ∷ s)) (sym eq)
      (go fuel front back pos one (λ f r. decode_from-encode s back f more r) room')
  where
    go :
        (fuel : ℕ) (front back : List ℕ)
        → 0 < length front
        → encode_char c ≡ some front
        → ((f : ℕ) → length back ≤ f → decode_from f back ≡ ok s)
        → length front + length back ≤ fuel
        → decode_from fuel (front ++ back) ≡ ok (c ∷ s)
    go zero front back pos one tail room = absurd (omega arith)
    go (suc fuel) front back pos one tail room =
        decode_from_step fuel c front back s pos (decode_char-encode_char c front back one)
          (tail fuel (omega arith))

-- Whatever text can be encoded is decoded to itself.
pub decode-encode : (s bs : List ℕ) → encode s ≡ ok bs → decode bs ≡ ok s
unfolding decode
decode-encode s bs e = decode_from-encode s bs (length bs) e (omega arith)

-- ASCII text is its own encoding.
pub encode_ascii : (s : List ℕ) → All (λ c. c < 0x80) s → encode s ≡ ok s
unfolding encode encode_char
encode_ascii [] h = refl
encode_ascii (c ∷ s) h = ground (arith, encode_ascii s h.1)

decode_from_cons :
    (fuel b : ℕ) (bs s : List ℕ)
    → decode_from (suc fuel) (b ∷ bs) ≡ ok s
    → (c : ℕ) × (rest s' : List ℕ) × (decode_char (b ∷ bs) ≡ some (c, rest))
      × (decode_from fuel rest ≡ ok s')
      × (s ≡ c ∷ s')
decode_from_cons fuel b bs s h = elim (Option-cases (decode_char (b ∷ bs))) [
  | inl bad ↦ absurd (cc (decode_from_none fuel b bs bad))
  | inr ((c, rest), one) ↦
      let (s', done, eq) =
        map_ok-eq-ok (◌∷◌ c) (decode_from fuel rest) s
          (sym (decode_from_some fuel b bs c rest one) ∙ h) in
      (c, rest, s', one, done, eq)
]
  where
    decode_from_none :
        (fuel b : ℕ) (bs : List ℕ)
        → decode_char (b ∷ bs) ≡ none
        → decode_from (suc fuel) (b ∷ bs) ≡ err unicode_error
    decode_from_none fuel b bs bad = unfold decode_from in ground arith

    decode_from_some :
        (fuel b : ℕ) (bs : List ℕ) (c : ℕ) (rest : List ℕ)
        → decode_char (b ∷ bs) ≡ some (c, rest)
        → decode_from (suc fuel) (b ∷ bs) ≡ map_ok (◌∷◌ c) (decode_from fuel rest)
    decode_from_some fuel b bs c rest one = unfold decode_from in ground arith

Fits : List ℕ → List ℕ → Type 0
Fits s bs = (length s ≤ length bs) × (length s ≡ length bs → All (λ c. c < 0x80) s)

decode_from-Fits : (fuel : ℕ) (bs s : List ℕ) → decode_from fuel bs ≡ ok s → Fits s bs
unfolding Fits
decode_from-Fits fuel [] s h = ground (arith, decode_nothing fuel)
decode_from-Fits zero (b ∷ bs) s h = absurd (cc (no_fuel b bs))
decode_from-Fits (suc fuel) (b ∷ bs) s h =
    let (c, rest, s', one, done, eq) = decode_from_cons fuel b bs s h in
    let (shorter, wide) = decode_char-length (b ∷ bs) c rest one in
    let (le, ascii) = decode_from-Fits fuel rest s' done in
    subst (λ x. Fits x (b ∷ bs)) (sym eq) (omega arith, λ e. (ground arith, ascii (omega arith)))

-- A decoded text has at most as many characters as there are bytes, and as many only if it is
-- ASCII.
pub decode-length :
    (bs s : List ℕ)
    → decode bs ≡ ok s
    → (length s ≤ length bs) × (length s ≡ length bs → All (λ c. c < 0x80) s)
unfolding decode Fits
decode-length bs s h = decode_from-Fits (length bs) bs s h
