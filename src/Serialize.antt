-- ===== src/Serialize.antt =====
-- proxystore/serialize.py: an object is written by the first serializer that can, after a line with the
-- identifier of that serializer. A byte is a number.
pub mod Lines
pub mod RoundTrip
mod Tests
use proxy_store.Prelude.{
  ℕ, ◌==◌, if◌then◌else◌, Bool, true, false, ◌&&◌, ◌||◌, Option, none, some, List, [], ◌∷◌, ◌++◌,
}
use proxy_store.Prelude.Exec.{Result, ok, err, assertion_error, serialization_error}

-- `_Serializer`, over the contents of the buffer after the identifier's line
pub record Serializer (V : Type 0) : Type 0 where
  pub identifier : List ℕ
  pub supported : V → Bool
  pub serialize : V → Result (List ℕ)
  pub deserialize : List ℕ → Result V

abbrev pub same_bytes : List ℕ → List ℕ → Bool
same_bytes [] [] = true
same_bytes [] (b ∷ l) = false
same_bytes (a ∷ l) [] = false
same_bytes (a ∷ l) (b ∷ m) = let rest = same_bytes l m in (a == b) && rest

module _ {V : Type 0} where
  -- `_SERIALIZERS[identifier]`
  unfoldable pub find : List ℕ → List (Serializer V) → Option (Serializer V)
  find identifier [] = none
  find identifier (s ∷ l) =
      let rest = find identifier l in if same_bytes s.identifier identifier then some s else rest

  -- `_register_serializer`
  unfoldable pub register : Serializer V → List (Serializer V) → Result (List (Serializer V))
  register s registry = elim (find s.identifier registry) [
    | some current ↦ err assertion_error
    | none ↦ ok (registry ++ (s ∷ []))
  ]

  -- the registrations of the module, in their order, of the serializers that could be imported
  unfoldable pub register_all :
      List (Serializer V) → List (Serializer V) → Result (List (Serializer V))
  register_all [] registry = ok registry
  register_all (s ∷ l) registry = elim (register s registry) [
    | err e ↦ err e
    | ok more ↦ register_all l more
  ]

  -- the loop of `serialize`; `failed` if a serializer raised, so that `last_exception` is set
  unfoldable pub serialize_from : Bool → List (Serializer V) → V → Result (List ℕ)
  serialize_from failed [] obj = if failed then err serialization_error else err assertion_error
  serialize_from failed (s ∷ l) obj =
      let rest = serialize_from (failed || s.supported obj) l obj in
      if s.supported obj
      then elim (s.serialize obj) [ err _ ↦ rest | ok body ↦ ok (s.identifier ++ (10 ∷ body)) ]
      else rest

  -- `serialize`
  unfoldable pub serialize : List (Serializer V) → V → Result (List ℕ)
  serialize registry obj = serialize_from false registry obj

-- what `bytes.strip` strips
abbrev pub is_space : ℕ → Bool
is_space b = (b == 32) || ((b == 9) || ((b == 10) || ((b == 11) || ((b == 12) || (b == 13)))))

-- `buffer.readline()`, and what is left in the buffer
unfoldable pub readline : List ℕ → List ℕ × List ℕ
readline [] = ([], [])
readline (b ∷ l) =
    let (line, rest) = readline l in if b == 10 then (b ∷ [], l) else (b ∷ line, rest)

unfoldable pub lstrip : List ℕ → List ℕ
lstrip [] = []
lstrip (b ∷ l) = let rest = lstrip l in if is_space b then rest else b ∷ l

abbrev pub is_empty : List ℕ → Bool
is_empty [] = true
is_empty (_ ∷ _) = false

unfoldable pub rstrip : List ℕ → List ℕ
rstrip [] = []
rstrip (b ∷ l) = let rest = rstrip l in if is_empty rest && is_space b then [] else b ∷ rest

-- `deserialize`, of bytes; an exception of a serializer becomes a `SerializationError`
unfoldable pub deserialize : {V : Type 0} → List (Serializer V) → List ℕ → Result V
deserialize registry bytes =
    let (line, body) = readline bytes in
    elim (find (rstrip (lstrip line)) registry) [
      | none ↦ err serialization_error
      | some s ↦ elim (s.deserialize body) [ err _ ↦ err serialization_error | ok obj ↦ ok obj ]
    ]
