-- ===== src/Engine/Container/Intact.antt =====
-- LoadChunk on a blob that encodeJob made and of which some slots were damaged since.
use secvault.Prelude.{
  ℕ, ◌+◌, ◌-◌, ◌*◌, ◌^◌, ◌≤◌, ◌<◌, ◌≡◌, refl, sym, ap, ◌∙◌, arith, List, [], ◌++◌, append-nil,
  Bytes, zeros, replicate, length, take, drop, slice, concat, chunks, All, some, false, pos, int64,
  int64-pos, big_endian, put_uint64, big_endian-put_uint64, copy_at-copy-zeros, copy_at, copy,
  length-append, length-replicate, take-append, drop-append, concat-chunks, chunks-All,
  length-chunks, ltb, ltb_ℤ, ==ℤ_iff, ge→ltb,
}
use secvault.Errors.{ok}
use secvault.Layout.{header_size, tag_size, data_shards, shard_size, chunk_plain_size}
use secvault.Format.{ChunkHeader, marshal, parse_chunk_header}
use secvault.Format.Header.{length-marshal, parse_chunk_header-marshal}
use secvault.Crypto.{Primitives, IsCrypto}
use secvault.Codec.{Coding}
use secvault.Device.{Device}
use secvault.Engine.Strong.Body.{join_shards-concat}
use secvault.Engine.Container.{blob_plain_size, decode_chunk, open_chunk}
use secvault.Engine.Chunk.{chunk_nonce, chunk_header, chunk_area}

nonce_lem :
    (prefix : Bytes) (idx : ℕ)
    → length prefix ≡ 4
    → chunk_nonce prefix idx ≡ prefix ++ put_uint64 idx
unfolding chunk_nonce
nonce_lem prefix idx e =
    let fill : 12 - (length prefix + 8) ≡ 0 = omega arith in
    ap (λ (n : ℕ). copy_at n (copy (zeros 12) prefix) (put_uint64 idx)) (sym e)
    ∙ copy_at-copy-zeros 12 prefix (put_uint64 idx) (omega arith)
    ∙ ap (λ (n : ℕ). prefix ++ (put_uint64 idx ++ zeros n)) fill
    ∙ ap (λ (b : Bytes). prefix ++ b) (unfold zeros replicate in append-nil (put_uint64 idx))

module _ (p : Primitives) (v : IsCrypto p) (aead : p.Aead) (prefix plain : Bytes) (idx : ℕ)
    (e : length prefix ≡ 4) (small : idx < 2 ^ 63) (some_plain : 0 < length plain)
    (fits : length plain ≤ chunk_plain_size) where
  abbrev nonce : Bytes
  nonce = chunk_nonce prefix idx

  length-nonce : length nonce ≡ 12
  length-nonce =
      rw (nonce_lem prefix idx e) (omega (arith, length-append {0} prefix (put_uint64 idx)))

  abbrev header : ChunkHeader
  header = record { index = pos idx; plain_len = pos (length plain); nonce = nonce }

  hdr : Bytes
  hdr = chunk_header prefix idx plain

  hdr-eq : hdr ≡ marshal header
  unfolding hdr chunk_header
  hdr-eq = refl

  length-hdr : length hdr ≡ header_size
  length-hdr = rw hdr-eq (length-marshal header length-nonce)

  ct : Bytes
  ct = p.seal aead nonce plain hdr

  length-ct : length ct ≡ length plain + tag_size
  unfolding ct
  length-ct = v.length-seal aead nonce plain hdr

  fitting : length hdr + length ct ≤ blob_plain_size
  fitting = omega (arith, length-hdr, length-ct)

  -- The test of encodeJob passes.
  pub no_overflow :
      ltb blob_plain_size (
        length (chunk_header prefix idx plain)
        + length (p.seal aead (chunk_nonce prefix idx) plain (chunk_header prefix idx plain)))
      ≡ false
  unfolding hdr ct
  no_overflow = ge→ltb blob_plain_size _ fitting

  abbrev area : Bytes
  area = chunk_area hdr ct

  pad : Bytes
  pad = zeros (blob_plain_size - (length hdr + length ct))

  area-eq : area ≡ hdr ++ (ct ++ pad)
  unfolding chunk_area pad
  area-eq = copy_at-copy-zeros blob_plain_size hdr ct (omega (arith, length-hdr, length-ct))

  length-area : length area ≡ data_shards * shard_size
  unfolding pad zeros
  length-area = rw area-eq (
      omega (
        arith,
        length-append {0} hdr (ct ++ pad),
        length-append {0} ct pad,
        length-replicate {A = ℕ} (blob_plain_size - (length hdr + length ct)) 0,
        length-hdr,
        length-ct,
      ))

  header_back : parse_chunk_header (take header_size area) ≡ ok header
  header_back =
      rw (area-eq, take-append header_size hdr (ct ++ pad) length-hdr, hdr-eq)
        (rw append-nil at (
          parse_chunk_header-marshal header []
            (record { index = small; plain_len = omega arith; nonce = length-nonce })))

  ct_back : slice header_size (header_size + (length plain + 16)) area ≡ ct
  ct_back =
      let width : header_size + (length plain + 16) - header_size ≡ length ct =
        omega (arith, length-ct) in
      rw (area-eq, drop-append header_size hdr (ct ++ pad) length-hdr, width)
        (take-append (length ct) ct pad refl)

  unsealed : p.unseal aead nonce ct hdr ≡ some plain
  unfolding ct
  unsealed = v.unseal-seal aead nonce plain hdr length-nonce

  index_back : int64 (big_endian (drop 4 nonce)) ≡ pos idx
  index_back =
      rw (nonce_lem prefix idx e, drop-append 4 prefix (put_uint64 idx) e)
        (ap int64 (big_endian-put_uint64 idx (omega arith)) ∙ int64-pos idx small)

  unfoldable pub data_part : List Bytes
  unfolding chunks hdr ct
  data_part = chunks data_shards shard_size area

  pub length-data_part : length data_part ≡ data_shards
  unfolding data_part
  length-data_part = length-chunks data_shards shard_size area

  pub data_part-All : All (λ b. length b ≡ shard_size) data_part
  unfolding data_part
  data_part-All = chunks-All data_shards shard_size area (omega (arith, length-area))

  module _ (c : Coding) (d : Device) where
    open-area : open_chunk p c d aead idx area header ≡ ok plain
    unfolding open_chunk
    open-area =
        let front : take header_size area ≡ hdr =
          rw area-eq (take-append header_size hdr (ct ++ pad) length-hdr) in
        let least : ltb_ℤ (pos (length plain)) (pos 1) ≡ false = ground arith in
        let most : ltb_ℤ (pos chunk_plain_size) (pos (length plain)) ≡ false = ground arith in
        let room : ltb blob_plain_size (header_size + (length plain + 16)) ≡ false = ground arith in
        rw
          (
            (==ℤ_iff (pos idx) (pos idx)).1 refl,
            index_back,
            (==ℤ_iff (pos idx) (pos idx)).1 refl,
            least,
            most,
            room,
            ct_back,
            front,
            unsealed,
          )
          refl

    pub decode-data_part :
        (rest : List Bytes) → decode_chunk p c d aead idx (data_part ++ rest) ≡ ok plain
    unfolding decode_chunk
    decode-data_part rest =
        let whole : concat data_part ≡ area =
          unfold data_part in concat-chunks data_shards shard_size area length-area in
        rw
          (
            join_shards-concat data_shards shard_size data_part rest length-data_part data_part-All,
            whole,
            header_back,
          )
          open-area
