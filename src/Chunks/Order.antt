-- ===== src/Chunks/Order.antt =====
-- Sorting chunks by their number: the order in which they arrive does not matter.
use mathlib.Core.List.{Permᴰ}
use mathlib.Core.Path.{subst, subst₂}
use proxy_store.Prelude.{ℕ, suc, ◌<◌, ◌≡◌, ◌≢◌, refl, sym, ◌∙◌, ap, List, [], ◌∷◌, arith}
use proxy_store.Chunks.{Chunk, insert_chunk, sort_chunks}

-- No chunk of the list has the number `n`.
abbrev pub Lacks : ℕ → List Chunk → Type 0
Lacks n [] = Unit
Lacks n (c ∷ l) = (n ≢ c.seq_id) × Lacks n l

abbrev pub DistinctIds : List Chunk → Type 0
DistinctIds [] = Unit
DistinctIds (c ∷ l) = Lacks c.seq_id l × DistinctIds l

-- the chunks are numbered from `n` on
abbrev pub Numbered : ℕ → List Chunk → Type 0
Numbered n [] = Unit
Numbered n (c ∷ l) = (c.seq_id ≡ n) × Numbered (suc n) l

pub Numbered-Lacks : (m n : ℕ) (l : List Chunk) → m < n → Numbered n l → Lacks m l
Numbered-Lacks m n [] h d = tt
Numbered-Lacks m n (c ∷ l) h d = (omega (arith, d.0), Numbered-Lacks m (suc n) l (omega arith) d.1)

pub Numbered-DistinctIds : (n : ℕ) (l : List Chunk) → Numbered n l → DistinctIds l
Numbered-DistinctIds n [] d = tt
Numbered-DistinctIds n (c ∷ l) d =
    (Numbered-Lacks c.seq_id (suc n) l (omega (arith, d.0)) d.1, Numbered-DistinctIds (suc n) l d.1)

insert-insert :
    (c d : Chunk) (l : List Chunk)
    → c.seq_id ≢ d.seq_id
    → insert_chunk c (insert_chunk d l) ≡ insert_chunk d (insert_chunk c l)
unfolding insert_chunk
insert-insert c d [] h = ground arith
insert-insert c d (e ∷ l) h = ground (arith, insert-insert c d l h)

-- numbered chunks are sorted already
pub sort-Numbered : (n : ℕ) (l : List Chunk) → Numbered n l → sort_chunks l ≡ l
unfolding sort_chunks insert_chunk
sort-Numbered n [] d = refl
sort-Numbered n (c ∷ []) d = refl
sort-Numbered n (c ∷ c' ∷ l) d = ground (arith, sort-Numbered (suc n) (c' ∷ l) d.1)

perm-Lacks : {l m : List Chunk} (n : ℕ) → Permᴰ l m → Lacks n l → Lacks n m
perm-Lacks n Permᴰ.nil h = h
perm-Lacks n (Permᴰ.cons e p) h =
    (λ q. h.0 (q ∙ ap (λ (c : Chunk). c.seq_id) (sym e)), perm-Lacks n p h.1)
perm-Lacks n (Permᴰ.swap e e') h = (
  λ q. h.1.0 (q ∙ ap (λ (c : Chunk). c.seq_id) (sym e')),
  (λ q. h.0 (q ∙ ap (λ (c : Chunk). c.seq_id) (sym e)), h.1.1),
)
perm-Lacks n (Permᴰ.trans p q) h = perm-Lacks n q (perm-Lacks n p h)

perm-DistinctIds : {l m : List Chunk} → Permᴰ l m → DistinctIds l → DistinctIds m
perm-DistinctIds Permᴰ.nil h = h
perm-DistinctIds (Permᴰ.cons {l₂ = m} e p) h =
    (subst (λ (c : Chunk). Lacks c.seq_id m) e (perm-Lacks _ p h.0), perm-DistinctIds p h.1)
perm-DistinctIds (Permᴰ.swap {l = l} e e') h =
    subst₂ (λ (c d : Chunk). DistinctIds (d ∷ c ∷ l)) e e'
      ((λ q. h.0.0 (sym q), h.1.0), (h.0.1, h.1.1))
perm-DistinctIds (Permᴰ.trans p q) h = perm-DistinctIds q (perm-DistinctIds p h)

-- Whatever the order in which chunks with distinct numbers arrive, they are sorted alike.
pub perm-sort : {l m : List Chunk} → Permᴰ l m → DistinctIds l → sort_chunks l ≡ sort_chunks m
unfolding sort_chunks
perm-sort Permᴰ.nil h = refl
perm-sort (Permᴰ.cons e p) h = cc (e, perm-sort p h.1)
perm-sort (Permᴰ.swap {a = a} {b = b} {l = l} e e') h =
    cc (insert-insert a b (sort_chunks l) h.0.0, e, e')
perm-sort (Permᴰ.trans p q) h = perm-sort p h ∙ perm-sort q (perm-DistinctIds p h)
