-- ===== src/Utf8.antt =====
-- `str.encode('utf8')` and `bytes.decode('utf8')`, which the code calls on text: a text is the
-- list of its code points, and both are strict.
pub mod RoundTrip
use proxy_store.Prelude.{
  ℕ, zero, suc, ◌+◌, ◌-◌, ◌*◌, ◌/◌, ◌%◌, ltb, leb, if◌then◌else◌, Bool, ◌&&◌, ◌||◌, Option, none,
  some, List, [], ◌∷◌, ◌++◌, length,
}
use proxy_store.Prelude.Exec.{Result, ok, err, unicode_error, bind, map_ok}

-- a surrogate, or too large for a code point, cannot be encoded
unfoldable pub encode_char : ℕ → Option (List ℕ)
encode_char c =
    if ltb c 0x80
    then some (c ∷ [])
    else if ltb c 0x800
    then some ((0xc0 + c / 64) ∷ (0x80 + c % 64) ∷ [])
    else if leb 0xd800 c && ltb c 0xe000
    then none
    else if ltb c 0x10000
    then some ((0xe0 + c / 4096) ∷ (0x80 + c / 64 % 64) ∷ (0x80 + c % 64) ∷ [])
    else if ltb c 0x110000
    then some
        ((0xf0 + c / 262144) ∷ (0x80 + c / 4096 % 64) ∷ (0x80 + c / 64 % 64) ∷ (0x80 + c % 64) ∷ [])
    else none

unfoldable pub encode : List ℕ → Result (List ℕ)
encode [] = ok []
encode (c ∷ s) = elim (encode_char c) [
  | none ↦ err unicode_error
  | some bs ↦ map_ok (λ rest. bs ++ rest) (encode s)
]

abbrev is_continuation : ℕ → Bool
is_continuation b = leb 0x80 b && ltb b 0xc0

unfoldable pub decode_two : ℕ → List ℕ → Option (ℕ × List ℕ)
decode_two a (b ∷ rest) =
    if is_continuation b then some ((a - 0xc0) * 64 + (b - 0x80), rest) else none
decode_two a [] = none

unfoldable pub decode_three : ℕ → List ℕ → Option (ℕ × List ℕ)
decode_three a (b ∷ b' ∷ rest) =
    let c = (a - 0xe0) * 4096 + (b - 0x80) * 64 + (b' - 0x80) in
    if is_continuation b && is_continuation b' && leb 0x800 c && (ltb c 0xd800 || leb 0xe000 c)
    then some (c, rest)
    else none
decode_three a _ = none

unfoldable pub decode_four : ℕ → List ℕ → Option (ℕ × List ℕ)
decode_four a (b ∷ b' ∷ b'' ∷ rest) =
    let c = (a - 0xf0) * 262144 + (b - 0x80) * 4096 + (b' - 0x80) * 64 + (b'' - 0x80) in
    if is_continuation b
      && is_continuation b'
      && is_continuation b''
      && leb 0x10000 c
      && ltb c 0x110000
    then some (c, rest)
    else none
decode_four a _ = none

-- one code point from the front of the bytes
unfoldable pub decode_char : List ℕ → Option (ℕ × List ℕ)
decode_char [] = none
decode_char (a ∷ rest) =
    if ltb a 0x80
    then some (a, rest)
    else if leb 0xc2 a && ltb a 0xe0
    then decode_two a rest
    else if leb 0xe0 a && ltb a 0xf0
    then decode_three a rest
    else if leb 0xf0 a && ltb a 0xf5
    then decode_four a rest
    else none

-- each round takes a byte at least, so the number of bytes is fuel enough
unfoldable pub decode_from : ℕ → List ℕ → Result (List ℕ)
decode_from fuel [] = ok []
decode_from zero (b ∷ bs) = err unicode_error
decode_from (suc fuel) (b ∷ bs) = elim (decode_char (b ∷ bs)) [
  | none ↦ err unicode_error
  | some (c, rest) ↦ map_ok (◌∷◌ c) (decode_from fuel rest)
]

unfoldable pub decode : List ℕ → Result (List ℕ)
unfolding decode_from decode_char decode_two decode_three decode_four
decode bs = decode_from (length bs) bs
