-- ===== src/Chunks/Tests.antt =====
-- Chunks at concrete payloads.
use mathlib.Core.List.{Permᴰ}
use proxy_store.Prelude.{ℕ, ◌≡◌, ◌<◌, ◌↔◌, refl, List, [], ◌∷◌, All, arith}
use proxy_store.Prelude.Exec.{ok}
use proxy_store.Chunks.{
  Chunk, raw, text, bytes, string, to_bytes, from_bytes, chunkify, chunkify_from, reconstruct,
  new_chunk, pack_header, pack_short, pack_long,
}
use proxy_store.Utf8.{encode, encode_char}
use proxy_store.Chunks.Wire.{IsWellFormed, from_bytes-to_bytes_raw}
use proxy_store.Chunks.Unicode.{text_survives_iff}
use proxy_store.Chunks.Rounds.{Covers}
use proxy_store.Chunks.Reassembly.{ceil_div, chunkify-Covers, reconstruct-chunkify}

abbrev raw_chunk : Chunk
raw_chunk = record {
  stream_id = 7;
  seq_id = 0;
  seq_len = 1;
  payload = raw (1 ∷ 2 ∷ 3 ∷ []);
  dtype = bytes;
}

raw_chunk-IsWellFormed : IsWellFormed raw_chunk
raw_chunk-IsWellFormed = record {
  numbered = omega arith;
  typed = refl;
  in_range = record {
    dtype_fits = omega arith;
    size_fits = omega arith;
    stream_fits = omega arith;
    id_fits = omega arith;
    len_fits = omega arith;
  };
}

from_bytes-to_bytes_raw_example :
    (wire : List ℕ) × (to_bytes raw_chunk ≡ ok wire) × (from_bytes wire ≡ ok raw_chunk)
from_bytes-to_bytes_raw_example =
    from_bytes-to_bytes_raw raw_chunk (1 ∷ 2 ∷ 3 ∷ []) raw_chunk-IsWellFormed refl

abbrev text_chunk : Chunk
text_chunk = record {
  stream_id = 7;
  seq_id = 0;
  seq_len = 1;
  payload = text (0x68 ∷ 0x69 ∷ []);
  dtype = string;
}

text_chunk-IsWellFormed : IsWellFormed text_chunk
text_chunk-IsWellFormed = record {
  numbered = omega arith;
  typed = refl;
  in_range = record {
    dtype_fits = omega arith;
    size_fits = omega arith;
    stream_fits = omega arith;
    id_fits = omega arith;
    len_fits = omega arith;
  };
}

abbrev text_wire : List ℕ
text_wire =
    0 ∷ 2 ∷ 0 ∷ 0 ∷ 0 ∷ 20 ∷ 0 ∷ 0 ∷ 0 ∷ 7 ∷ 0 ∷ 0 ∷ 0 ∷ 0 ∷ 0 ∷ 0 ∷ 0 ∷ 1 ∷ 0x68 ∷ 0x69 ∷ []

text_chunk_written : to_bytes text_chunk ≡ ok text_wire
unfolding to_bytes pack_header pack_short pack_long encode encode_char
text_chunk_written = refl

text_survives_iff_example :
    (from_bytes text_wire ≡ ok text_chunk) ↔ All (λ x. x < 0x80) (0x68 ∷ 0x69 ∷ [])
text_survives_iff_example =
    text_survives_iff text_chunk (0x68 ∷ 0x69 ∷ []) text_chunk-IsWellFormed refl text_wire
      text_chunk_written

chunkify-Covers_example :
    (l : List Chunk) × (chunkify (raw (1 ∷ 2 ∷ 3 ∷ [])) 2 7 ≡ ok l)
    × Covers (raw (1 ∷ 2 ∷ 3 ∷ [])) 0 (ceil_div 3 2) 7 (1 ∷ 2 ∷ 3 ∷ []) l
chunkify-Covers_example = chunkify-Covers (raw (1 ∷ 2 ∷ 3 ∷ [])) 2 7 (omega arith)

abbrev first_chunk : Chunk
first_chunk = record {
  stream_id = 7;
  seq_id = 0;
  seq_len = 2;
  payload = raw (1 ∷ 2 ∷ []);
  dtype = bytes;
}

abbrev last_chunk : Chunk
last_chunk = record {
  stream_id = 7;
  seq_id = 1;
  seq_len = 2;
  payload = raw (3 ∷ []);
  dtype = bytes;
}

cut_in_two : chunkify (raw (1 ∷ 2 ∷ 3 ∷ [])) 2 7 ≡ ok (first_chunk ∷ last_chunk ∷ [])
unfolding chunkify chunkify_from new_chunk
cut_in_two = refl

reconstruct-chunkify_example :
    reconstruct (last_chunk ∷ first_chunk ∷ []) ≡ ok (raw (1 ∷ 2 ∷ 3 ∷ []))
reconstruct-chunkify_example =
    reconstruct-chunkify (raw (1 ∷ 2 ∷ 3 ∷ [])) 2 7 (first_chunk ∷ last_chunk ∷ [])
      (last_chunk ∷ first_chunk ∷ []) (omega arith) (omega arith) cut_in_two (Permᴰ.swap refl refl)
