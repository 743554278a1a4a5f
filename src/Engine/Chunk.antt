-- ===== src/Engine/Chunk.antt =====
-- internal/engine/pipeline.go, encodeJob: one chunk as a blob of 384 slots. The buffers of the pools
-- are cleared or overwritten whole before they are used, so they are new ones here.
use secvault.Prelude.{
  ℕ, ◌+◌, Bytes, zeros, length, ◌++◌, copy, copy_at, chunks, concat, map, replicate, put_uint64,
  ltb, if◌then◌else◌, List, pos,
}
use secvault.Errors.{Result, ok, err, new, wrap}
use secvault.Layout.{nonce_size, data_shards, parity_shards, shard_size}
use secvault.Format.{marshal}
use secvault.Crypto.{Primitives}
use secvault.Codec.{Coding}
use secvault.Engine.Strong.{slot}
use secvault.Engine.Container.{blob_plain_size}

-- The nonce: the prefix of the file, and the index of the chunk.
unfoldable pub chunk_nonce : Bytes → ℕ → Bytes
unfolding zeros
chunk_nonce prefix idx = copy_at 4 (copy (zeros nonce_size) prefix) (put_uint64 idx)

unfoldable pub chunk_header : Bytes → ℕ → Bytes → Bytes
unfolding chunk_nonce
chunk_header prefix idx plain =
    marshal
      (record { index = pos idx; plain_len = pos (length plain); nonce = chunk_nonce prefix idx })

-- The data area: header, ciphertext, zeros.
unfoldable pub chunk_area : Bytes → Bytes → Bytes
unfolding zeros
chunk_area hdr ct = copy_at (length hdr) (copy (zeros blob_plain_size) hdr) ct

module _ (p : Primitives) (c : Coding) where
  abbrev encoded : Result (List Bytes) → Result (List Bytes × Bytes)
  encoded (err e) = err (wrap "secvault: intra encode" e)
  encoded (ok shards) = ok (shards, concat (map (slot p) shards))

  -- (*Pipeline).encodeJob: the shards, which the parity of the group reads, and the blob on disk.
  unfoldable pub encode_job : p.Aead → c.Encoder → Bytes → ℕ → Bytes → Result (List Bytes × Bytes)
  unfolding chunk_header chunk_area zeros replicate chunks slot
  encode_job aead intra prefix idx plain =
      let hdr = chunk_header prefix idx plain in
      let ct = p.seal aead (chunk_nonce prefix idx) plain hdr in
      if ltb blob_plain_size (length hdr + length ct)
      then err (new "secvault: internal chunk overflow")
      else encoded (
          c.encode intra (
            chunks data_shards shard_size (chunk_area hdr ct)
            ++ replicate parity_shards (zeros shard_size)))
