-- ===== src/Serialize/Lines.antt =====
-- The line of an identifier, and the comparison of bytes.
use proxy_store.Prelude.{ℕ, ◌==◌, ◌≡◌, refl, ◌∙◌, ap, arith, true, false, List, [], ◌∷◌, ◌++◌, All}
use proxy_store.Serialize.{same_bytes, is_space, readline, lstrip, rstrip}

-- an identifier has no white space
abbrev pub IsClean : List ℕ → Type 0
IsClean l = All (λ b. is_space b ≡ false) l

pub same_bytes_refl : (l : List ℕ) → same_bytes l l ≡ true
same_bytes_refl [] = refl
same_bytes_refl (b ∷ l) = ground (arith, same_bytes_refl l)

pub same_bytes-sym : (l m : List ℕ) → same_bytes l m ≡ same_bytes m l
same_bytes-sym [] [] = refl
same_bytes-sym [] (b ∷ m) = refl
same_bytes-sym (a ∷ l) [] = refl
same_bytes-sym (a ∷ l) (b ∷ m) = ground (arith, same_bytes-sym l m)

pub same_bytes-eq : (l m : List ℕ) → same_bytes l m ≡ true → l ≡ m
same_bytes-eq [] [] e = refl
same_bytes-eq [] (b ∷ m) e = ground arith
same_bytes-eq (a ∷ l) [] e = ground arith
same_bytes-eq (a ∷ l) (b ∷ m) e = ground (arith, same_bytes-eq l m)

not_newline : (b : ℕ) → is_space b ≡ false → (b == 10) ≡ false
not_newline b e = ground arith

pub readline_identifier :
    (identifier body : List ℕ)
    → IsClean identifier
    → readline (identifier ++ (10 ∷ body)) ≡ (identifier ++ (10 ∷ []), body)
unfolding readline
readline_identifier [] body clean = refl
readline_identifier (b ∷ l) body (here, clean) =
    rw (readline, not_newline b here, readline_identifier l body clean) refl

rstrip_identifier :
    (identifier : List ℕ) → IsClean identifier → rstrip (identifier ++ (10 ∷ [])) ≡ identifier
unfolding rstrip
rstrip_identifier [] clean = refl
rstrip_identifier (b ∷ l) (here, clean) = ground (arith, rstrip_identifier l clean, here)

lstrip_identifier : (b : ℕ) (l : List ℕ) → is_space b ≡ false → lstrip (b ∷ l) ≡ b ∷ l
unfolding lstrip
lstrip_identifier b l here = rw (lstrip, here) refl

pub strip_identifier :
    (identifier : List ℕ)
    → IsClean identifier
    → rstrip (lstrip (identifier ++ (10 ∷ []))) ≡ identifier
unfolding lstrip rstrip
strip_identifier [] clean = refl
strip_identifier (b ∷ l) (here, clean) =
    ap rstrip (lstrip_identifier b (l ++ (10 ∷ [])) here) ∙ rstrip_identifier (b ∷ l) (here, clean)
