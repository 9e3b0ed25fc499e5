-- ===== src/Chunks/Unicode.antt =====
-- Chunks of text. The header gives the number of characters where the reader expects the number
-- of bytes.
use proxy_store.Prelude.{
  ℕ, ◌<◌, ◌≡◌, ◌↔◌, refl, sym, ◌∙◌, ap, List, ◌++◌, length, take, All, length-take,
  take_of_length-le, arith,
}
use proxy_store.Prelude.Exec.{ok, map_ok, map_ok-eq-ok, map_ok-map_ok}
use proxy_store.Utf8.{encode, decode}
use proxy_store.Utf8.RoundTrip.{encode_ascii, decode-encode, decode-length}
use proxy_store.Chunks.{
  Chunk, text, payload_length, encode_payload, decode_payload, to_bytes, from_bytes,
}
use proxy_store.Chunks.Wire.{IsWellFormed, header_of, header_bytes, to_bytes-eq, from_bytes-eq}

ok_injective : {A : Type 0} {a b : A} → ok a ≡ ok b → a ≡ b
ok_injective e = cc

text_injective : {s t : List ℕ} → text s ≡ text t → s ≡ t
text_injective e = cc

module _ (c : Chunk) (s : List ℕ) (w : IsWellFormed c) (e : c.payload ≡ text s) where
  -- what is written: the header and the encoded text
  written :
      (wire : List ℕ)
      → to_bytes c ≡ ok wire
      → (body : List ℕ) × (encode s ≡ ok body) × (wire ≡ header_bytes (header_of c) ++ body)
  written wire h =
      map_ok-eq-ok (λ body. header_bytes (header_of c) ++ body) (encode s) wire
        (ap (λ p. map_ok (λ body. header_bytes (header_of c) ++ body) (encode_payload p)) (sym e)
          ∙ sym (to_bytes-eq c w)
          ∙ h)

  -- what is read: as many bytes of the text as it has characters
  read :
      (body : List ℕ)
      → from_bytes (header_bytes (header_of c) ++ body)
        ≡ map_ok (λ t. record c { payload = text t }) (decode (take (length s) body))
  read body =
      from_bytes-eq c body w
      ∙ ap (map_ok (λ p. record c { payload = p })) as_text
      ∙ map_ok-map_ok (λ p. record c { payload = p }) text (decode (take (length s) body))
    where
      as_text :
          decode_payload c.dtype (take (payload_length c.payload) body)
          ≡ map_ok text (decode (take (length s) body))
      as_text = rw (w.typed, e) refl

  same_chunk : record c { payload = text s } ≡ c
  same_chunk = ap (λ p. record c { payload = p }) (sym e)

  ascii_survives :
      (wire : List ℕ) → to_bytes c ≡ ok wire → All (λ x. x < 0x80) s → from_bytes wire ≡ ok c
  ascii_survives wire h ascii =
      let (body, encoded, eq) = written wire h in
      let plain : body ≡ s = ok_injective (sym encoded ∙ encode_ascii s ascii) in
      let decoded : decode (take (length s) body) ≡ ok s =
        rw (plain, take_of_length-le (length s) s (omega arith))
          (decode-encode s s (encode_ascii s ascii)) in
      ap from_bytes eq
      ∙ read body
      ∙ ap (map_ok (λ t. record c { payload = text t })) decoded
      ∙ ap ok same_chunk

  survivor_is_ascii :
      (wire : List ℕ) → to_bytes c ≡ ok wire → from_bytes wire ≡ ok c → All (λ x. x < 0x80) s
  survivor_is_ascii wire h back =
      let (body, encoded, eq) = written wire h in
      let (t, decoded, same) =
        map_ok-eq-ok (λ t. record c { payload = text t }) (decode (take (length s) body)) c
          (sym (read body) ∙ ap from_bytes (sym eq) ∙ back) in
      let t-s : t ≡ s = text_injective (sym (ap (λ (d : Chunk). d.payload) same) ∙ e) in
      let decoded' : decode (take (length s) body) ≡ ok s = decoded ∙ ap ok t-s in
      let (le, ascii) = decode-length (take (length s) body) s decoded' in
      ascii (omega (arith, le, length-take (length s) body))

  -- A well-formed chunk of text that can be written is read back as the same chunk exactly when
  -- every character of the text is ASCII.
  pub text_survives_iff :
      (wire : List ℕ) → to_bytes c ≡ ok wire → (from_bytes wire ≡ ok c) ↔ All (λ x. x < 0x80) s
  text_survives_iff wire h = (survivor_is_ascii wire h, ascii_survives wire h)
