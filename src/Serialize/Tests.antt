-- ===== src/Serialize/Tests.antt =====
-- Two serializers of lists: one for short lists, and one for all.
use proxy_store.Prelude.{ℕ, leb, ◌≡◌, refl, true, List, [], ◌∷◌, length, All}
use proxy_store.Prelude.Exec.{Result, ok, err, value_error, assertion_error}
use proxy_store.Serialize.{
  Serializer, find, register, register_all, serialize_from, serialize, deserialize,
}
use proxy_store.Serialize.RoundTrip.{IsLossless, deserialize-serialize}

abbrev short : Serializer (List ℕ)
short = record {
  identifier = 66 ∷ 83 ∷ [];
  supported = λ obj. leb (length obj) 2;
  serialize = λ obj. ok obj;
  deserialize = λ body. ok body;
}

abbrev unmarked : List ℕ → Result (List ℕ)
unmarked [] = err value_error
unmarked (_ ∷ l) = ok l

abbrev any : Serializer (List ℕ)
any = record {
  identifier = 80 ∷ 75 ∷ [];
  supported = λ obj. true;
  serialize = λ obj. ok (0 ∷ obj);
  deserialize = unmarked;
}

abbrev registry : List (Serializer (List ℕ))
registry = short ∷ any ∷ []

any_reads : (obj body : List ℕ) → any.serialize obj ≡ ok body → unmarked body ≡ ok obj
any_reads obj [] e = cc
any_reads obj (x ∷ body) e = cc

lossless : All IsLossless registry
lossless = (
  record { clean = (refl, (refl, tt)); reads = λ obj body supports writes. cc },
  (
    record {
      clean = (refl, (refl, tt));
      reads = λ obj body supports writes. any_reads obj body writes;
    },
    tt,
  ),
)

registered : register_all registry [] ≡ ok registry
unfolding register_all register find
registered = refl

bytes_of : serialize registry (7 ∷ 10 ∷ 7 ∷ []) ≡ ok (80 ∷ 75 ∷ 10 ∷ 0 ∷ 7 ∷ 10 ∷ 7 ∷ [])
unfolding serialize serialize_from
bytes_of = refl

-- the same identifier is not registered twice
registered_twice : register_all (short ∷ any ∷ short ∷ []) [] ≡ err assertion_error
unfolding register_all register find
registered_twice = refl

deserialize-serialize_example :
    deserialize registry (80 ∷ 75 ∷ 10 ∷ 0 ∷ 7 ∷ 10 ∷ 7 ∷ []) ≡ ok (7 ∷ 10 ∷ 7 ∷ [])
deserialize-serialize_example =
    deserialize-serialize registry registry (7 ∷ 10 ∷ 7 ∷ []) (80 ∷ 75 ∷ 10 ∷ 0 ∷ 7 ∷ 10 ∷ 7 ∷ [])
      registered lossless bytes_of
