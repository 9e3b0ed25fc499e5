-- ===== src/Chunks/Wire.antt =====
-- The bytes of a chunk: `from_bytes` reads back what `__bytes__` wrote.
use proxy_store.Prelude.{
  ℕ, ◌*◌, ◌/◌, ◌%◌, ◌+◌, ◌-◌, ◌^◌, ◌<◌, ◌≡◌, refl, ◌∙◌, ap, some, List, [], ◌∷◌, ◌++◌, length, take,
  take_of_length-le, arith,
}
use proxy_store.Prelude.Exec.{Result, ok, err, bind, map_ok}
use proxy_store.Chunks.{
  Chunk, Payload, raw, ChunkDtype, bytes, string, Header, chunk_header_length, payload_length,
  payload_dtype, dtype_value, dtype_of_value, new_chunk, pack_short, pack_long, pack_header,
  unpack_header, encode_payload, decode_payload, to_bytes, from_bytes, long,
}

abbrev pub long_bytes : ℕ → List ℕ
long_bytes n = n / 2 ^ 24 ∷ n / 2 ^ 16 % 2 ^ 8 ∷ n / 2 ^ 8 % 2 ^ 8 ∷ n % 2 ^ 8 ∷ []

abbrev pub header_bytes : Header → List ℕ
header_bytes h =
    (h.dtype_value / 2 ^ 8 ∷ h.dtype_value % 2 ^ 8 ∷ [])
    ++ (long_bytes h.size
        ++ (long_bytes h.stream_id ++ (long_bytes h.seq_id ++ long_bytes h.seq_len)))

-- every field fits in its place in the header
pub record InRange (h : Header) : Type 0 where
  pub dtype_fits : h.dtype_value < 2 ^ 16
  pub size_fits : h.size < 2 ^ 32
  pub stream_fits : h.stream_id < 2 ^ 32
  pub id_fits : h.seq_id < 2 ^ 32
  pub len_fits : h.seq_len < 2 ^ 32

pack_short-eq : (n : ℕ) → n < 2 ^ 16 → pack_short n ≡ ok (n / 2 ^ 8 ∷ n % 2 ^ 8 ∷ [])
unfolding pack_short
pack_short-eq n h = ground arith

pack_long-eq : (n : ℕ) → n < 2 ^ 32 → pack_long n ≡ ok (long_bytes n)
unfolding pack_long
pack_long-eq n h = ground arith

-- what `pack` writes
pub pack_header-eq :
    (h : Header)
    → InRange h
    → pack_header h.dtype_value h.size h.stream_id h.seq_id h.seq_len ≡ ok (header_bytes h)
unfolding pack_header
pack_header-eq h r = rw (
  pack_short-eq h.dtype_value r.dtype_fits,
  pack_long-eq h.size r.size_fits,
  pack_long-eq h.stream_id r.stream_fits,
  pack_long-eq h.seq_id r.id_fits,
  pack_long-eq h.seq_len r.len_fits,
  bind,
)

short_parts : (n : ℕ) → n < 2 ^ 16 → n / 2 ^ 8 * 2 ^ 8 + n % 2 ^ 8 ≡ n
short_parts n h = omega arith

long_parts :
    (n : ℕ)
    → n < 2 ^ 32
    → long (n / 2 ^ 24) (n / 2 ^ 16 % 2 ^ 8) (n / 2 ^ 8 % 2 ^ 8) (n % 2 ^ 8) ≡ n
long_parts n h = omega arith

-- the header is read back field by field
unpack_header-eq :
    (h : Header) (body : List ℕ) → InRange h → unpack_header (header_bytes h ++ body) ≡ ok h
unfolding unpack_header
unpack_header-eq h body r = λ j. ok (record {
  dtype_value = short_parts h.dtype_value r.dtype_fits j;
  size = long_parts h.size r.size_fits j;
  stream_id = long_parts h.stream_id r.stream_fits j;
  seq_id = long_parts h.seq_id r.id_fits j;
  seq_len = long_parts h.seq_len r.len_fits j;
})

abbrev pub header_of : Chunk → Header
header_of c = record {
  dtype_value = dtype_value c.dtype;
  size = chunk_header_length + payload_length c.payload;
  stream_id = c.stream_id;
  seq_id = c.seq_id;
  seq_len = c.seq_len;
}

-- a chunk that the constructor makes of a payload alone
pub record IsWellFormed (c : Chunk) : Type 0 where
  pub numbered : c.seq_id < c.seq_len
  pub typed : c.dtype ≡ payload_dtype c.payload
  pub in_range : InRange (header_of c)

pub to_bytes-eq :
    (c : Chunk)
    → IsWellFormed c
    → to_bytes c ≡ map_ok (λ body. header_bytes (header_of c) ++ body) (encode_payload c.payload)
unfolding to_bytes
to_bytes-eq c w = rw (pack_header-eq (header_of c) w.in_range, bind)

dtype_of_value-eq : (d : ChunkDtype) → dtype_of_value (dtype_value d) ≡ ok d
unfolding dtype_of_value
dtype_of_value-eq bytes = refl
dtype_of_value-eq string = refl

new_chunk-eq :
    (c : Chunk)
    → c.seq_id < c.seq_len
    → (p : Payload)
    → new_chunk c.stream_id c.seq_id c.seq_len p (some c.dtype) ≡ ok (record c { payload = p })
unfolding new_chunk
new_chunk-eq c h p = ground arith

build :
    (c : Chunk)
    → c.seq_id < c.seq_len
    → (r : Result Payload)
    → bind r (λ p. new_chunk c.stream_id c.seq_id c.seq_len p (some c.dtype))
      ≡ map_ok (λ p. record c { payload = p }) r
build c h (ok p) = new_chunk-eq c h p
build c h (err e) = refl

size_of_body : {n : ℕ} → chunk_header_length + n - chunk_header_length ≡ n
size_of_body = omega arith

-- Reading the header and some bytes behind it decodes as many of them as the header says.
pub from_bytes-eq :
    (c : Chunk) (body : List ℕ)
    → IsWellFormed c
    → from_bytes (header_bytes (header_of c) ++ body)
      ≡ map_ok
          (λ p. record c { payload = p })
          (decode_payload c.dtype (take (payload_length c.payload) body))
unfolding from_bytes
from_bytes-eq c body w =
    rw
      (
        unpack_header-eq (header_of c) body w.in_range,
        dtype_of_value-eq c.dtype,
        bind,
        size_of_body,
      )
      (build c w.numbered _)

-- A chunk of bytes that is well formed can be written, and what is written is read back as the
-- same chunk.
pub from_bytes-to_bytes_raw :
    (c : Chunk) (bs : List ℕ)
    → IsWellFormed c
    → c.payload ≡ raw bs
    → (wire : List ℕ) × (to_bytes c ≡ ok wire) × (from_bytes wire ≡ ok c)
from_bytes-to_bytes_raw c bs w e = (
  header_bytes (header_of c) ++ bs,
  to_bytes-eq c w
      ∙ ap (λ p. map_ok (λ body. header_bytes (header_of c) ++ body) (encode_payload p)) e,
  from_bytes-eq c bs w ∙ ap (map_ok (λ p. record c { payload = p })) whole,
)
  where
    whole : decode_payload c.dtype (take (payload_length c.payload) bs) ≡ ok c.payload
    whole = rw (w.typed, e, take_of_length-le (length bs) bs (omega arith)) refl
