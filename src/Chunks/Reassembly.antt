-- ===== src/Chunks/Reassembly.antt =====
-- The whole loop of `chunkify`, and the way back through `reconstruct`.
use mathlib.Core.List.{Permᴰ}
use mathlib.Core.Path.{subst}
use proxy_store.Prelude.{
  ℕ, ◌+◌, ◌-◌, ◌*◌, ◌/◌, ◌≤◌, ◌<◌, ◌≡◌, refl, sym, ◌∙◌, ap, List, [], ◌∷◌, length, All, arith,
}
use proxy_store.Prelude.Exec.{ok, map_ok}
use proxy_store.Chunks.{
  Chunk, Payload, raw, text, payload_length, payload_dtype, chunkify_from, chunkify, join_bodies,
  payload_of, join_chunks, reconstruct, sort_chunks,
}
use proxy_store.Chunks.Order.{Numbered-DistinctIds, sort-Numbered, perm-sort}
use proxy_store.Chunks.Rounds.{body, Covers, chunkify_from-Covers}

-- the rounded quotient `seq_len` is the number of rounds
ceil_below : (len size j : ℕ) → 0 < size → j * size < len → j < (len + size - 1) / size
ceil_below len size j pos h = grind arith

ceil_above : (len size j : ℕ) → 0 < size → len ≤ j * size → (len + size - 1) / size ≤ j
ceil_above len size j pos h = grind arith

abbrev pub ceil_div : ℕ → ℕ → ℕ
ceil_div len size = (len + size - 1) / size

chunkify-eq :
    (p : Payload) (size stream : ℕ)
    → 0 < size
    → chunkify p size stream
      ≡ chunkify_from (payload_length p) 0 0 p size (ceil_div (payload_length p) size) stream
unfolding chunkify
chunkify-eq p size stream pos = ground arith

-- Cutting with a positive chunk size never raises, and gives chunks that cover the message: as
-- many as the rounded-up quotient, numbered from 0, each with that length and the stream's id.
pub chunkify-Covers :
    (p : Payload) (size stream : ℕ)
    → 0 < size
    → (l : List Chunk) × (chunkify p size stream ≡ ok l)
      × Covers p 0 (ceil_div (payload_length p) size) stream (body p) l
chunkify-Covers p size stream pos =
    let n = ceil_div (payload_length p) size in
    let (l, rounds, v) =
      chunkify_from-Covers p size n stream pos (λ j. ceil_below (payload_length p) size j pos)
        (λ j. ceil_above (payload_length p) size j pos) (payload_length p) 0 0 (omega arith)
        (omega arith) (omega arith) in
    (l, chunkify-eq p size stream pos ∙ rounds, v)

perm-length : {l m : List Chunk} → Permᴰ l m → length l ≡ length m
perm-length Permᴰ.nil = refl
perm-length (Permᴰ.cons e p) = omega (arith, perm-length p)
perm-length (Permᴰ.swap e e') = refl
perm-length (Permᴰ.trans p q) = perm-length p ∙ perm-length q

perm-All : (P : Chunk → Type 0) {l m : List Chunk} → Permᴰ l m → All P l → All P m
perm-All P Permᴰ.nil h = h
perm-All P (Permᴰ.cons e p) h = (subst P e h.0, perm-All P p h.1)
perm-All P (Permᴰ.swap e e') h = (subst P e' h.1.0, (subst P e h.0, h.1.1))
perm-All P (Permᴰ.trans p q) h = perm-All P q (perm-All P p h)

payload_of-body : (p : Payload) → payload_of (payload_dtype p) (body p) ≡ p
payload_of-body (raw bs) = refl
payload_of-body (text s) = refl

join_chunks-Covers :
    (p : Payload) (i n stream : ℕ) (l : List Chunk)
    → 0 < length l
    → Covers p i n stream (body p) l
    → join_chunks l ≡ ok p
unfolding join_chunks
join_chunks-Covers p i n stream [] pos v = absurd (omega arith)
join_chunks-Covers p i n stream (c ∷ l) pos v =
    ap (λ d. map_ok (payload_of d) (join_bodies d (c ∷ l))) v.typed.0
    ∙ ap (map_ok (payload_of (payload_dtype p))) v.joined
    ∙ ap ok (payload_of-body p)

reconstruct-eq :
    (m : List Chunk) (n stream : ℕ)
    → 0 < length m
    → length m ≡ n
    → All (λ c. (c.seq_len ≡ n) × (c.stream_id ≡ stream)) m
    → reconstruct m ≡ join_chunks (sort_chunks m)
unfolding reconstruct
reconstruct-eq [] n stream pos e h = absurd (omega arith)
reconstruct-eq (c ∷ m) n stream pos e h = ground (arith, h.0.0)

-- A message that is not empty, cut with a positive chunk size, is what `reconstruct` makes of its
-- chunks, in whatever order they come.
pub reconstruct-chunkify :
    (p : Payload) (size stream : ℕ) (l m : List Chunk)
    → 0 < size
    → 0 < payload_length p
    → chunkify p size stream ≡ ok l
    → Permᴰ l m
    → reconstruct m ≡ ok p
reconstruct-chunkify p size stream l m pos some_data cut shuffled =
    let (l', cut', v') = chunkify-Covers p size stream pos in
    let n = ceil_div (payload_length p) size in
    let v : Covers p 0 n stream (body p) l =
      subst (Covers p 0 n stream (body p)) (ok_injective (sym cut' ∙ cut)) v' in
    let full : 0 < n = ceil_below (payload_length p) size 0 pos (omega arith) in
    let many : length m ≡ n = omega (arith, perm-length shuffled, v.counted) in
    let sorted : sort_chunks m ≡ l =
      sym (perm-sort shuffled (Numbered-DistinctIds 0 l v.numbered))
      ∙ sort-Numbered 0 l v.numbered in
    reconstruct-eq m n stream (omega arith) many (perm-All _ shuffled v.labelled)
    ∙ ap join_chunks sorted
    ∙ join_chunks-Covers p 0 n stream l (omega (arith, v.counted)) v
  where
    ok_injective : {A : Type 0} {a b : A} → ok a ≡ ok b → a ≡ b
    ok_injective e = cc
