-- ===== src/Format/Header.antt =====
-- Marshal and ParseChunkHeader of internal/format/format.go.
use secvault.Prelude.{
  ◌≤◌, ◌≡◌, ap, sym, ◌∙◌, ge→ltb, length-append, take-append, arith, ◌++◌, Bytes, zeros, length, ℤ,
  int64, uint64, IsInt64, int64-uint64, uint64-lt, put_uint64, big_endian, big_endian-put_uint64,
  copy-whole,
}
use secvault.Errors.{ok}
use secvault.Layout.{header_size, nonce_size}
use secvault.Format.{ChunkHeader, marshal, parse_chunk_header, magic_chunk}

pub record IsHeader (h : ChunkHeader) : Type 0 where
  pub index : IsInt64 h.index
  pub plain_len : IsInt64 h.plain_len
  pub nonce : length h.nonce ≡ nonce_size

-- The layout of a header: magic, index, length, nonce.
pub marshal_lem :
    (h : ChunkHeader)
    → length h.nonce ≡ nonce_size
    → marshal h
      ≡ magic_chunk ++ put_uint64 (uint64 h.index) ++ put_uint64 (uint64 h.plain_len) ++ h.nonce
unfolding marshal
marshal_lem h e =
    ap
      (λ (r : Bytes).
        magic_chunk ++ put_uint64 (uint64 h.index) ++ put_uint64 (uint64 h.plain_len) ++ r)
      (copy-whole (zeros nonce_size) h.nonce (sym e))

pub length-marshal :
    (h : ChunkHeader) → length h.nonce ≡ nonce_size → length (marshal h) ≡ header_size
length-marshal h e = rw (marshal_lem h e) (omega arith)

field_back : (z : ℤ) → IsInt64 z → int64 (big_endian (put_uint64 (uint64 z))) ≡ z
field_back z h = ap int64 (big_endian-put_uint64 (uint64 z) (uint64-lt z)) ∙ int64-uint64 z h

-- A header that stands in front of any bytes is read back whole: its index and length, of either
-- sign, and its nonce.
pub parse_chunk_header-marshal :
    (h : ChunkHeader) (rest : Bytes) → IsHeader h → parse_chunk_header (marshal h ++ rest) ≡ ok h
unfolding parse_chunk_header
parse_chunk_header-marshal h rest v =
    let index_back = field_back h.index v.index in
    let len_back = field_back h.plain_len v.plain_len in
    let nonce_back = take-append 12 h.nonce rest v.nonce in
    let tail = h.nonce ++ rest in
    let whole =
      magic_chunk ++ put_uint64 (uint64 h.index) ++ put_uint64 (uint64 h.plain_len) ++ tail in
    let long : header_size ≤ length whole = omega (arith, length-append {0} h.nonce rest) in
    rw (marshal_lem h v.nonce, ge→ltb (length whole) header_size long)
      (λ i. ok (record { index = index_back i; plain_len = len_back i; nonce = nonce_back i }))
