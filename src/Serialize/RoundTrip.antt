-- ===== src/Serialize/RoundTrip.antt =====
-- Bytes that were serialized are deserialized by the serializer that wrote them.
use mathlib.Core.Path.{subst}
use proxy_store.Prelude.{
  ℕ, ◌≡◌, refl, sym, ◌∙◌, ap, arith, Bool-cases, Option-cases, inl, inr, Bool, true, false, ◌||◌,
  none, some, List, [], ◌∷◌, ◌++◌, All,
}
use proxy_store.Prelude.Exec.{Result, ok, err, Error, Result-cases, serialization_error}
use proxy_store.Serialize.{
  Serializer, same_bytes, find, register, register_all, serialize_from, serialize, lstrip, rstrip,
  deserialize,
}
use proxy_store.Serialize.Lines.{
  IsClean, same_bytes_refl, same_bytes-sym, same_bytes-eq, readline_identifier, strip_identifier,
}

module _ {V : Type 0} where
  -- a serializer with a clean identifier, that reads back what it wrote
  pub record IsLossless (s : Serializer V) : Type 0 where
    pub clean : IsClean s.identifier
    pub reads :
        (obj : V) (body : List ℕ)
        → s.supported obj ≡ true
        → s.serialize obj ≡ ok body
        → s.deserialize body ≡ ok obj

  -- no two serializers have the same identifier
  abbrev Apart : List (Serializer V) → Type 0
  Apart [] = Unit
  Apart (s ∷ l) = (find s.identifier l ≡ none) × Apart l

  find-append :
      (identifier : List ℕ) (l : List (Serializer V)) (s : Serializer V)
      → find identifier l ≡ none
      → same_bytes s.identifier identifier ≡ false
      → find identifier (l ++ (s ∷ [])) ≡ none
  unfolding find
  find-append identifier [] s e ne = rw (find, ne) refl
  find-append identifier (t ∷ l) s e ne = elim (Bool-cases (same_bytes t.identifier identifier)) [
    | inl same ↦ ground (arith, same, e)
    | inr other ↦ rw (find, other) (find-append identifier l s (ground (arith, other, e)) ne)
  ]

  Apart-append :
      (l : List (Serializer V)) (s : Serializer V)
      → find s.identifier l ≡ none
      → Apart l
      → Apart (l ++ (s ∷ []))
  unfolding find
  Apart-append [] s e apart = (refl, tt)
  Apart-append (t ∷ l) s e (here, apart) =
      elim (Bool-cases (same_bytes t.identifier s.identifier)) [
        | inl same ↦ ground (arith, same, e)
        | inr other ↦ (
          find-append t.identifier l s here (same_bytes-sym s.identifier t.identifier ∙ other),
          Apart-append l s (ground (arith, other, e)) apart,
        )
      ]

  register_all-Apart :
      (l registry all : List (Serializer V))
      → Apart registry
      → register_all l registry ≡ ok all
      → Apart all
  unfolding register_all register
  register_all-Apart [] registry all apart e =
      let same : registry ≡ all = cc in subst Apart same apart
  register_all-Apart (s ∷ l) registry all apart e =
      elim (Option-cases (find s.identifier registry)) [
        | inl free ↦
            register_all-Apart l (registry ++ (s ∷ [])) all (Apart-append registry s free apart)
              (ground (arith, free, e))
        | inr (current, taken) ↦ ground (arith, taken, e)
      ]

  -- the serializer that wrote the bytes
  record Wrote (registry : List (Serializer V)) (obj : V) (bytes : List ℕ) : Type 0 where
    writer : Serializer V
    body : List ℕ
    registered : find writer.identifier registry ≡ some writer
    lossless : IsLossless writer
    supports : writer.supported obj ≡ true
    writes : writer.serialize obj ≡ ok body
    layout : bytes ≡ writer.identifier ++ (10 ∷ body)

  find-head : (s : Serializer V) (l : List (Serializer V)) → find s.identifier (s ∷ l) ≡ some s
  unfolding find
  find-head s l = rw (find, same_bytes_refl s.identifier) refl

  find-later :
      (s t : Serializer V) (l : List (Serializer V))
      → find s.identifier l ≡ none
      → find t.identifier l ≡ some t
      → find t.identifier (s ∷ l) ≡ some t
  unfolding find
  find-later s t l free there = elim (Bool-cases (same_bytes s.identifier t.identifier)) [
    | inl same ↦
        absurd (cc (free, there, ap (λ i. find i l) (same_bytes-eq s.identifier t.identifier same)))
    | inr other ↦ rw (find, other) there
  ]

  Wrote-later :
      (s : Serializer V) (l : List (Serializer V)) (obj : V) (bytes : List ℕ)
      → find s.identifier l ≡ none
      → Wrote l obj bytes
      → Wrote (s ∷ l) obj bytes
  Wrote-later s l obj bytes free w = record {
    writer = w.writer;
    body = w.body;
    registered = find-later s w.writer l free w.registered;
    lossless = w.lossless;
    supports = w.supports;
    writes = w.writes;
    layout = w.layout;
  }

  skip_unsupported :
      (failed : Bool) (s : Serializer V) (l : List (Serializer V)) (obj : V)
      → s.supported obj ≡ false
      → serialize_from failed (s ∷ l) obj ≡ serialize_from (failed || s.supported obj) l obj
  unfolding serialize_from
  skip_unsupported failed s l obj no_support = rw (serialize_from, no_support) refl

  skip_failed :
      (failed : Bool) (s : Serializer V) (l : List (Serializer V)) (obj : V) (raised : Error)
      → s.supported obj ≡ true
      → s.serialize obj ≡ err raised
      → serialize_from failed (s ∷ l) obj ≡ serialize_from (failed || s.supported obj) l obj
  unfolding serialize_from
  skip_failed failed s l obj raised supports fails =
      rw (serialize_from, supports, fails) (ap (λ b. serialize_from (failed || b) l obj) supports)

  write_first :
      (failed : Bool) (s : Serializer V) (l : List (Serializer V)) (obj : V) (body : List ℕ)
      → s.supported obj ≡ true
      → s.serialize obj ≡ ok body
      → serialize_from failed (s ∷ l) obj ≡ ok (s.identifier ++ (10 ∷ body))
  unfolding serialize_from
  write_first failed s l obj body supports writes = rw (serialize_from, supports, writes) refl

  written :
      (failed : Bool) (registry : List (Serializer V)) (obj : V) (bytes : List ℕ)
      → Apart registry
      → All IsLossless registry
      → serialize_from failed registry obj ≡ ok bytes
      → Wrote registry obj bytes
  unfolding serialize_from
  written true [] obj bytes apart lossless e = ground arith
  written false [] obj bytes apart lossless e = ground arith
  written failed (s ∷ l) obj bytes (here, apart) (good, lossless) e =
      elim (Bool-cases (s.supported obj)) [
        | inr no_support ↦ Wrote-later s l obj bytes here (
            written (failed || s.supported obj) l obj bytes apart lossless
              (sym (skip_unsupported failed s l obj no_support) ∙ e))
        | inl supports ↦ elim (Result-cases (s.serialize obj)) [
          | inr (raised, fails) ↦ Wrote-later s l obj bytes here (
              written (failed || s.supported obj) l obj bytes apart lossless
                (sym (skip_failed failed s l obj raised supports fails) ∙ e))
          | inl (body, writes) ↦
              let bytes_eq : ok bytes ≡ ok (s.identifier ++ (10 ∷ body)) =
                sym e ∙ write_first failed s l obj body supports writes in
              record {
                writer = s;
                body = body;
                registered = find-head s l;
                lossless = good;
                supports = supports;
                writes = writes;
                layout = cc bytes_eq;
              }
        ]
      ]

  deserialize-layout :
      (registry : List (Serializer V)) (s : Serializer V) (body : List ℕ) (obj : V)
      → IsClean s.identifier
      → find s.identifier registry ≡ some s
      → s.deserialize body ≡ ok obj
      → deserialize registry (s.identifier ++ (10 ∷ body)) ≡ ok obj
  unfolding deserialize
  deserialize-layout registry s body obj clean there reads =
      let read : (List ℕ × List ℕ) → Result V = λ r. elim (find (rstrip (lstrip r.0)) registry) [
        | none ↦ err serialization_error
        | some t ↦ elim (t.deserialize r.1) [ err _ ↦ err serialization_error | ok x ↦ ok x ]
      ] in
      ap read (readline_identifier s.identifier body clean)
      ∙ rw (strip_identifier s.identifier clean, there, reads) refl

  -- The registrations succeed, and the serializers have identifiers without white space and read back
  -- what they wrote. Then whatever `serialize` makes of an object, `deserialize` makes the object of.
  pub deserialize-serialize :
      (given registry : List (Serializer V)) (obj : V) (bytes : List ℕ)
      → register_all given [] ≡ ok registry
      → All IsLossless registry
      → serialize registry obj ≡ ok bytes
      → deserialize registry bytes ≡ ok obj
  unfolding serialize
  deserialize-serialize given registry obj bytes made lossless e =
      let w =
        written false registry obj bytes (register_all-Apart given [] registry tt made) lossless
          e in
      ap (deserialize registry) w.layout
      ∙ deserialize-layout registry w.writer w.body obj w.lossless.clean w.registered
          (w.lossless.reads obj w.body w.supports w.writes)
