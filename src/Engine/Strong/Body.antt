-- ===== src/Engine/Strong/Body.antt =====
-- The data area that Drain of internal/engine/strong.go builds, and decodeStrongArea on it.
use secvault.Prelude.{
  ℕ, zero, suc, ◌+◌, ◌-◌, ◌*◌, ◌^◌, ◌≤◌, ◌<◌, ◌≡◌, refl, arith, List, [], ◌∷◌, ◌++◌, append-nil,
  Bytes, zeros, length, take, slice, concat, chunks, All, some, pos, length-append,
  length-replicate, take-append, drop-append, copy_at-copy-zeros, concat-chunks, chunks-All,
  length-chunks, ==_iff, ge→ltb,
}
use secvault.Errors.{ok}
use secvault.Layout.{header_size, tag_size, k_strong, strong_shard_size}
use secvault.Layout.Small.{strong_shard_size_least}
use secvault.Format.{ChunkHeader, marshal, parse_chunk_header}
use secvault.Format.Header.{IsHeader, length-marshal, parse_chunk_header-marshal}
use secvault.Crypto.{Primitives, IsCrypto}
use secvault.Codec.{Coding}
use secvault.Device.{Device}
use secvault.Engine.Strong.{
  strong_area, join_shards, sealed_area, decode_strong_area, open_strong_area,
}

strong_area_lem :
    (size : ℕ) (hdr ct : Bytes)
    → length hdr + length ct ≤ size * k_strong
    → strong_area size hdr ct ≡ hdr ++ (ct ++ zeros (size * k_strong - (length hdr + length ct)))
unfolding strong_area
strong_area_lem size hdr ct fits = copy_at-copy-zeros (size * k_strong) hdr ct fits

-- Equal shards are joined whole.
pub join_shards-concat :
    (n size : ℕ) (shards rest : List Bytes)
    → length shards ≡ n
    → All (λ b. length b ≡ size) shards
    → join_shards n size (shards ++ rest) ≡ some (concat shards)
unfolding join_shards
join_shards-concat zero size [] rest e h = refl
join_shards-concat zero size (b ∷ shards) rest e h = absurd (omega arith)
join_shards-concat (suc n) size [] rest e h = absurd (omega arith)
join_shards-concat (suc n) size (b ∷ shards) rest e h =
    rw ((==_iff (length b) size).1 h.0, join_shards-concat n size shards rest (omega arith) h.1)
      refl

module _ (p : Primitives) (c : Coding) (d : Device) (v : IsCrypto p) where
  open p use {Aead, seal}

  module _ (aead : Aead) (nonce buf : Bytes) (e : length nonce ≡ 12)
      (small : length buf < 2 ^ 63) where
    header : ChunkHeader
    header = record { index = pos 0; plain_len = pos (length buf); nonce = nonce }

    hdr : Bytes
    unfolding header
    hdr = marshal header

    header-IsHeader : IsHeader header
    unfolding header
    header-IsHeader = record { index = omega arith; plain_len = small; nonce = e }

    length-hdr : length hdr ≡ header_size
    unfolding hdr
    length-hdr = length-marshal header e

    ct : Bytes
    unfolding hdr
    ct = seal aead nonce buf hdr

    length-ct : length ct ≡ length buf + tag_size
    unfolding ct
    length-ct = v.length-seal aead nonce buf hdr

    pad : Bytes
    pad = zeros (strong_shard_size (length buf) * k_strong - (length hdr + length ct))

    area_lem : sealed_area p c d aead nonce buf ≡ hdr ++ (ct ++ pad)
    unfolding sealed_area ct pad
    area_lem =
        strong_area_lem (strong_shard_size (length buf)) hdr ct
          (omega (arith, length-hdr, length-ct, strong_shard_size_least (length buf) 0))

    pub length-area :
        length (sealed_area p c d aead nonce buf) ≡ k_strong * strong_shard_size (length buf)
    unfolding pad zeros
    length-area =
        let size = strong_shard_size (length buf) * k_strong in
        let gap = size - (length hdr + length ct) in
        rw area_lem (
          omega (
            arith,
            length-append {0} hdr (ct ++ pad),
            length-append {0} ct pad,
            length-replicate {A = ℕ} gap 0,
            length-hdr,
            length-ct,
            strong_shard_size_least (length buf) 0,
          ))

    header_back :
        parse_chunk_header (take header_size (sealed_area p c d aead nonce buf)) ≡ ok header
    unfolding hdr
    header_back =
        rw (area_lem, take-append header_size hdr (ct ++ pad) length-hdr)
          (rw append-nil at (parse_chunk_header-marshal header [] header-IsHeader))

    ct_back :
        slice header_size (header_size + (length buf + tag_size)) (sealed_area p c d aead nonce buf)
        ≡ ct
    ct_back =
        let width : header_size + (length buf + tag_size) - header_size ≡ length ct =
          omega (arith, length-ct) in
        rw (area_lem, drop-append header_size hdr (ct ++ pad) length-hdr, width)
          (take-append (length ct) ct pad refl)

    unsealed : p.unseal aead nonce ct hdr ≡ some buf
    unfolding ct
    unsealed = v.unseal-seal aead nonce buf hdr e

    -- The header that was written is read back, and the ciphertext after it opens to the plaintext.
    open-area :
        open_strong_area p c d aead (length buf) (sealed_area p c d aead nonce buf) (ok header)
        ≡ ok buf
    unfolding open_strong_area header
    open-area =
        let room : header_size + (length buf + tag_size)
            ≤ length (sealed_area p c d aead nonce buf) =
          omega (arith, length-area, strong_shard_size_least (length buf) 0) in
        let front : take header_size (sealed_area p c d aead nonce buf) ≡ hdr =
          rw area_lem (take-append header_size hdr (ct ++ pad) length-hdr) in
        rw
          (
            (==_iff (length buf) (length buf)).1 refl,
            ge→ltb (length (sealed_area p c d aead nonce buf)) _ room,
            ct_back,
            front,
            unsealed,
          )
          refl

    unfoldable pub data_part : List Bytes
    unfolding chunks
    data_part = chunks k_strong (strong_shard_size (length buf)) (sealed_area p c d aead nonce buf)

    pub length-data_part : length data_part ≡ k_strong
    unfolding data_part
    length-data_part =
        length-chunks k_strong (strong_shard_size (length buf)) (sealed_area p c d aead nonce buf)

    pub data_part-All : All (λ b. length b ≡ strong_shard_size (length buf)) data_part
    unfolding data_part
    data_part-All = chunks-All k_strong _ _ (omega (arith, length-area))

    -- The data shards of Drain, whatever parity follows them, decode to the plaintext.
    pub decode-data_part :
        (rest : List Bytes)
        → decode_strong_area p c d aead
            (length buf)
            (strong_shard_size (length buf))
            (data_part ++ rest)
          ≡ ok buf
    unfolding decode_strong_area
    decode-data_part rest =
        let whole : concat data_part ≡ sealed_area p c d aead nonce buf =
          unfold data_part in concat-chunks k_strong _ _ length-area in
        rw
          (
            join_shards-concat k_strong _ data_part rest length-data_part data_part-All,
            whole,
            header_back,
          )
          open-area
