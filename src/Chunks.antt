-- ===== src/Chunks.antt =====
-- proxystore/p2p/chunks.py: the chunks of a long message, their bytes on the wire, and the two
-- functions that cut a message and join it again.
pub mod Wire
pub mod Unicode
pub mod Order
pub mod Rounds
pub mod Reassembly
mod Tests
use proxy_store.Prelude.{
  ℕ, zero, suc, ◌+◌, ◌-◌, ◌*◌, ◌/◌, ◌%◌, ◌^◌, min, ltb, leb, ◌==◌, if◌then◌else◌, Bool, true, false,
  Option, none, some, List, [], ◌∷◌, ◌++◌, map, length, take, drop,
}
use proxy_store.Prelude.Exec.{
  Result, ok, err, value_error, index_error, type_error, struct_error, zero_division_error, bind,
  map_ok,
}
use proxy_store.Utf8.{encode, decode}

abbrev pub chunk_header_length : ℕ
chunk_header_length = 2 + 4 * 4

-- `ChunkDType`
pub data ChunkDtype : Type 0 where
  bytes string : ChunkDtype

abbrev pub dtype_value : ChunkDtype → ℕ
dtype_value bytes = 1
dtype_value string = 2

-- `ChunkDType(value)`
unfoldable pub dtype_of_value : ℕ → Result ChunkDtype
dtype_of_value n = if n == 1 then ok bytes else if n == 2 then ok string else err value_error

-- `bytes | str`: bytes, or the code points of a text
pub data Payload : Type 0 where
  raw : List ℕ → Payload
  text : List ℕ → Payload

-- `len(data)`
abbrev pub payload_length : Payload → ℕ
payload_length (raw bs) = length bs
payload_length (text s) = length s

abbrev pub payload_dtype : Payload → ChunkDtype
payload_dtype (raw _) = bytes
payload_dtype (text _) = string

pub record Chunk : Type 0 where
  pub stream_id : ℕ
  pub seq_id : ℕ
  pub seq_len : ℕ
  pub payload : Payload
  pub dtype : ChunkDtype

-- `Chunk.__init__`
unfoldable pub new_chunk : ℕ → ℕ → ℕ → Payload → Option ChunkDtype → Result Chunk
new_chunk stream_id seq_id seq_len payload dtype =
    if leb seq_len seq_id
    then err value_error
    else ok (record {
      stream_id = stream_id;
      seq_id = seq_id;
      seq_len = seq_len;
      payload = payload;
      dtype = elim dtype [ none ↦ payload_dtype payload | some d ↦ d ];
    })

-- the formats `H` and `L` of `struct`, big-endian
unfoldable pub pack_short : ℕ → Result (List ℕ)
pack_short n = if ltb n (2 ^ 16) then ok (n / 2 ^ 8 ∷ n % 2 ^ 8 ∷ []) else err struct_error

unfoldable pub pack_long : ℕ → Result (List ℕ)
pack_long n =
    if ltb n (2 ^ 32)
    then ok (n / 2 ^ 24 ∷ n / 2 ^ 16 % 2 ^ 8 ∷ n / 2 ^ 8 % 2 ^ 8 ∷ n % 2 ^ 8 ∷ [])
    else err struct_error

-- `pack(CHUNK_HEADER_FORMAT, ...)`
unfoldable pub pack_header : ℕ → ℕ → ℕ → ℕ → ℕ → Result (List ℕ)
pack_header d l s i n = bind (pack_short d) λ a. bind (pack_long l) λ b.
    bind (pack_long s)
      λ c. bind (pack_long i) λ e. bind (pack_long n) λ f. ok (a ++ (b ++ (c ++ (e ++ f))))

abbrev pub encode_payload : Payload → Result (List ℕ)
encode_payload (raw bs) = ok bs
encode_payload (text s) = encode s

-- `Chunk.__bytes__`. What the last lines of the method add to `data` never reaches `chunk`.
unfoldable pub to_bytes : Chunk → Result (List ℕ)
to_bytes c =
    let size = chunk_header_length + payload_length c.payload in
    bind (pack_header (dtype_value c.dtype) size c.stream_id c.seq_id c.seq_len)
      λ header. map_ok (λ body. header ++ body) (encode_payload c.payload)

abbrev pub long : ℕ → ℕ → ℕ → ℕ → ℕ
long a b c d = a * 2 ^ 24 + b * 2 ^ 16 + c * 2 ^ 8 + d

-- `unpack_from(CHUNK_HEADER_FORMAT, chunk)`
pub record Header : Type 0 where
  pub dtype_value : ℕ
  pub size : ℕ
  pub stream_id : ℕ
  pub seq_id : ℕ
  pub seq_len : ℕ

unfoldable pub unpack_header : List ℕ → Result Header
unpack_header
      (d ∷ d' ∷ l ∷ l' ∷ l'' ∷ l3 ∷ s ∷ s' ∷ s'' ∷ s3 ∷ i ∷ i' ∷ i'' ∷ i3 ∷ n ∷ n' ∷ n'' ∷ n3 ∷ _) =
    ok (record {
      dtype_value = d * 2 ^ 8 + d';
      size = long l l' l'' l3;
      stream_id = long s s' s'' s3;
      seq_id = long i i' i'' i3;
      seq_len = long n n' n'' n3;
    })
unpack_header _ = err struct_error

abbrev pub decode_payload : ChunkDtype → List ℕ → Result Payload
decode_payload string bs = map_ok text (decode bs)
decode_payload bytes bs = ok (raw bs)

-- `Chunk.from_bytes`
unfoldable pub from_bytes : List ℕ → Result Chunk
from_bytes chunk = bind (unpack_header chunk) λ h. bind (dtype_of_value h.dtype_value) λ dtype.
    let body = take (h.size - chunk_header_length) (drop chunk_header_length chunk) in
    bind (decode_payload dtype body)
      λ payload. new_chunk h.stream_id h.seq_id h.seq_len payload (some dtype)

abbrev pub on_payload : (List ℕ → List ℕ) → Payload → Payload
on_payload f (raw bs) = raw (f bs)
on_payload f (text s) = text (f s)

-- `data[x : min(x + size, len(data))]`
abbrev pub slice_payload : Payload → ℕ → ℕ → Payload
slice_payload p x y = on_payload (λ l. take (y - x) (drop x l)) p

-- The loop of `chunkify`, from the round `i` at the index `x`. A round moves the index up by
-- `size`, so the length of the data is fuel enough.
unfoldable pub chunkify_from : ℕ → ℕ → ℕ → Payload → ℕ → ℕ → ℕ → Result (List Chunk)
unfolding new_chunk
chunkify_from zero i x p size seq_len stream_id = ok []
chunkify_from (suc fuel) i x p size seq_len stream_id = elim (ltb x (payload_length p)) [
  | false ↦ ok []
  | true ↦
      bind
        (new_chunk stream_id i seq_len (slice_payload p x (min (x + size) (payload_length p))) none)
        λ c. map_ok (◌∷◌ c) (chunkify_from fuel (i + 1) (x + size) p size seq_len stream_id)
]

-- `chunkify`, with the exact value of `math.ceil(len(data) / size)`
unfoldable pub chunkify : Payload → ℕ → ℕ → Result (List Chunk)
unfolding chunkify_from
chunkify p size stream_id =
    if size == 0
    then err zero_division_error
    else chunkify_from (payload_length p) 0 0 p size ((payload_length p + size - 1) / size)
        stream_id

-- `sorted(chunks, key=lambda c: c.seq_id)`, which is stable
unfoldable pub insert_chunk : Chunk → List Chunk → List Chunk
insert_chunk c [] = c ∷ []
insert_chunk c (d ∷ l) = if leb c.seq_id d.seq_id then c ∷ (d ∷ l) else d ∷ insert_chunk c l

unfoldable pub sort_chunks : List Chunk → List Chunk
sort_chunks [] = []
sort_chunks (c ∷ l) = insert_chunk c (sort_chunks l)

-- the content as bytes, or as text; `join` refuses the other type
abbrev pub body_as : ChunkDtype → Payload → Result (List ℕ)
body_as bytes (raw bs) = ok bs
body_as bytes (text s) = err type_error
body_as string (raw bs) = err type_error
body_as string (text s) = ok s

-- `b''.join(...)` and `''.join(...)`
unfoldable pub join_bodies : ChunkDtype → List Chunk → Result (List ℕ)
join_bodies d [] = ok []
join_bodies d (c ∷ l) =
    bind (body_as d c.payload) λ front. map_ok (λ rest. front ++ rest) (join_bodies d l)

abbrev pub payload_of : ChunkDtype → List ℕ → Payload
payload_of bytes l = raw l
payload_of string l = text l

-- the test on the type of the first chunk's data
unfoldable pub join_chunks : List Chunk → Result Payload
join_chunks [] = err index_error
join_chunks (c ∷ l) =
    let d = payload_dtype c.payload in map_ok (payload_of d) (join_bodies d (c ∷ l))

-- `reconstruct`
unfoldable pub reconstruct : List Chunk → Result Payload
unfolding sort_chunks insert_chunk join_chunks join_bodies
reconstruct [] = err value_error
reconstruct (c ∷ l) =
    if length (c ∷ l) == c.seq_len then join_chunks (sort_chunks (c ∷ l)) else err value_error
