-- ===== src/Chunks/Rounds.antt =====
-- The rounds of the loop of `chunkify`: the chunks that come from an index on.
use mathlib.Core.Path.{subst}
use native.Mathlib.Nat.{zero-add, suc-add}
use proxy_store.Prelude.{
  ℕ, zero, suc, ◌+◌, ◌-◌, ◌*◌, ◌≤◌, ◌<◌, ◌≡◌, refl, sym, ◌∙◌, ap, min, dec_le, dec_lt, List, [],
  ◌∷◌, ◌++◌, length, take, drop, All, take-append-drop, take_of_length-le, length-drop, arith,
}
use proxy_store.Prelude.Exec.{ok, bind, map_ok}
use proxy_store.Chunks.{
  Chunk, Payload, raw, text, ChunkDtype, payload_length, payload_dtype, slice_payload,
  chunkify_from, body_as, join_bodies,
}
use proxy_store.Chunks.Order.{Numbered}

-- the bytes or the code points
abbrev pub body : Payload → List ℕ
body (raw bs) = bs
body (text s) = s

pub length-body : (p : Payload) → length (body p) ≡ payload_length p
length-body (raw bs) = refl
length-body (text s) = refl

drop_nothing : (k : ℕ) → drop {A = ℕ} k [] ≡ []
drop_nothing zero = refl
drop_nothing (suc k) = refl

drop-drop : (m n : ℕ) (l : List ℕ) → drop n (drop m l) ≡ drop (m + n) l
drop-drop zero n l = rw zero-add
drop-drop (suc m) n [] = drop_nothing n ∙ sym (drop_nothing (suc m + n))
drop-drop (suc m) n (x ∷ l) = drop-drop m n l ∙ rw suc-add

drop_all : (n : ℕ) (l : List ℕ) → length l ≤ n → drop n l ≡ []
drop_all zero [] h = refl
drop_all (suc n) [] h = refl
drop_all zero (x ∷ l) h = absurd (omega arith)
drop_all (suc n) (x ∷ l) h = drop_all n l (omega arith)

-- a slice whose end is cut off at the length
take_cut :
    (l : List ℕ) (x size : ℕ)
    → x < length l
    → take (min (x + size) (length l) - x) (drop x l) ≡ take size (drop x l)
take_cut l x size h = elim (dec_le (x + size) (length l)) [
  | yes p ↦ ap (λ k. take k (drop x l)) (omega arith)
  | no p ↦
      take_of_length-le _ (drop x l) (omega (arith, length-drop x l))
      ∙ sym (take_of_length-le size (drop x l) (omega (arith, length-drop x l)))
]

-- The slice of one round, and what is left behind it.
slice-append-drop :
    (l : List ℕ) (x size : ℕ)
    → x < length l
    → take (min (x + size) (length l) - x) (drop x l) ++ drop (x + size) l ≡ drop x l
slice-append-drop l x size h =
    rw (take_cut l x size h, ← drop-drop x size l) (take-append-drop size (drop x l))

body_as-slice :
    (p : Payload) (x y : ℕ)
    → body_as (payload_dtype p) (slice_payload p x y) ≡ ok (take (y - x) (drop x (body p)))
body_as-slice (raw bs) x y = refl
body_as-slice (text s) x y = refl

dtype-slice : (p : Payload) (x y : ℕ) → payload_dtype (slice_payload p x y) ≡ payload_dtype p
dtype-slice (raw bs) x y = refl
dtype-slice (text s) x y = refl

-- The chunks of a loop: numbered from `i`, of one stream and length, of the payload's type, and
-- holding together what stands from index `x` on.
pub record Covers (p : Payload) (i n stream : ℕ) (rest : List ℕ) (l : List Chunk) : Type 0 where
  pub numbered : Numbered i l
  pub counted : i + length l ≡ n
  pub labelled : All (λ c. (c.seq_len ≡ n) × (c.stream_id ≡ stream)) l
  pub joined : join_bodies (payload_dtype p) l ≡ ok rest
  pub typed : All (λ c. payload_dtype c.payload ≡ payload_dtype p) l

join_bodies_step :
    (d : ChunkDtype) (c : Chunk) (l : List Chunk) (front rest : List ℕ)
    → body_as d c.payload ≡ ok front
    → join_bodies d l ≡ ok rest
    → join_bodies d (c ∷ l) ≡ ok (front ++ rest)
unfolding join_bodies
join_bodies_step d c l front rest h h' = rw (h, h', bind, map_ok)

join_bodies_nothing : (d : ChunkDtype) → join_bodies d [] ≡ ok []
unfolding join_bodies
join_bodies_nothing d = refl

-- the chunk of the round `i`
abbrev round_chunk : Payload → ℕ → ℕ → ℕ → ℕ → ℕ → Chunk
round_chunk p i x size n stream =
    let part = slice_payload p x (min (x + size) (payload_length p)) in
    record {
      stream_id = stream;
      seq_id = i;
      seq_len = n;
      payload = part;
      dtype = payload_dtype part;
    }

chunkify_from_stop :
    (fuel i x : ℕ) (p : Payload) (size n stream : ℕ)
    → payload_length p ≤ x
    → chunkify_from fuel i x p size n stream ≡ ok []
unfolding chunkify_from
chunkify_from_stop zero i x p size n stream h = refl
chunkify_from_stop (suc fuel) i x p size n stream h = ground arith

chunkify_from_round :
    (fuel i x : ℕ) (p : Payload) (size n stream : ℕ) (l : List Chunk)
    → x < payload_length p
    → i < n
    → chunkify_from fuel (i + 1) (x + size) p size n stream ≡ ok l
    → chunkify_from (suc fuel) i x p size n stream ≡ ok (round_chunk p i x size n stream ∷ l)
unfolding chunkify_from
chunkify_from_round fuel i x p size n stream l h h' more = ground arith

module _ (p : Payload) (size n stream : ℕ) (pos : 0 < size) where
  Covers-nothing :
      (i x : ℕ) → payload_length p ≤ x → i ≡ n → Covers p i n stream (drop x (body p)) []
  Covers-nothing i x h e = record {
    numbered = tt;
    counted = omega (arith, e);
    labelled = tt;
    joined =
        join_bodies_nothing (payload_dtype p)
        ∙ ap ok (sym (drop_all x (body p) (omega (arith, length-body p))));
    typed = tt;
  }

  Covers-round :
      (i x : ℕ) (l : List Chunk)
      → x < payload_length p
      → Covers p (i + 1) n stream (drop (x + size) (body p)) l
      → Covers p i n stream (drop x (body p)) (round_chunk p i x size n stream ∷ l)
  Covers-round i x l h v = record {
    numbered = (refl, subst (λ k. Numbered k l) (omega arith) v.numbered);
    counted = omega (arith, v.counted);
    labelled = ((refl, refl), v.labelled);
    joined =
        join_bodies_step (payload_dtype p) (round_chunk p i x size n stream) l _ _
          (body_as-slice p x (min (x + size) (payload_length p))) v.joined
        ∙ ap ok (
            rw (← length-body p)
              (slice-append-drop (body p) x size (omega (arith, length-body p))));
    typed = (dtype-slice p x _, v.typed);
  }

  module _ (below : (j : ℕ) → j * size < payload_length p → j < n)
      (above : (j : ℕ) → payload_length p ≤ j * size → n ≤ j) where
    stopped : (i x : ℕ) → x ≡ i * size → i ≤ n → payload_length p ≤ x → i ≡ n
    stopped i x e le done = omega (arith, above i (subst (λ y. payload_length p ≤ y) e done))

    pub chunkify_from-Covers :
        (fuel i x : ℕ)
        → x ≡ i * size
        → i ≤ n
        → payload_length p ≤ x + fuel
        → (l : List Chunk) × (chunkify_from fuel i x p size n stream ≡ ok l)
          × Covers p i n stream (drop x (body p)) l
    chunkify_from-Covers zero i x e le room = (
      [],
      chunkify_from_stop zero i x p size n stream (omega arith),
      Covers-nothing i x (omega arith) (stopped i x e le (omega arith)),
    )
    chunkify_from-Covers (suc fuel) i x e le room = elim (dec_lt x (payload_length p)) [
      | no done ↦ (
        [],
        chunkify_from_stop (suc fuel) i x p size n stream (omega arith),
        Covers-nothing i x (omega arith) (stopped i x e le (omega arith)),
      )
      | yes more ↦
          let small : i < n = below i (subst (λ y. y < payload_length p) e more) in
          let (l, rounds, v) =
            chunkify_from-Covers fuel (i + 1) (x + size) (omega (arith, e)) (omega arith)
              (omega arith) in
          (
            round_chunk p i x size n stream ∷ l,
            chunkify_from_round fuel i x p size n stream l more small rounds,
            Covers-round i x l more v,
          )
    ]
