-- ===== src/Engine/Container/Load.antt =====
-- encodeJob of pipeline.go and LoadChunk of container.go, in internal/engine, one after the other.
use secvault.Prelude.{
  ℕ, ◌+◌, ◌*◌, ◌^◌, ◌≤◌, ◌<◌, ◌≡◌, refl, sym, ap, ◌∙◌, arith, List, [], ◌++◌, append-nil, Bytes,
  zeros, replicate, length, length-replicate, true, pos, ltb_ℤ,
}
use secvault.Errors.{Result, ok, ◌>>=◌}
use secvault.Layout.{
  data_shards, parity_shards, shards_per_blob, shard_size, tag_size, blob_disk_size,
  chunk_plain_size, data_blob_offset,
}
use secvault.Crypto.{Primitives, IsCrypto}
use secvault.Codec.{Coding, IsEncoder}
use secvault.Device.{Device, IsFile, read_buffer, file_read}
use secvault.Device.Reads.{read_buffer_full}
use secvault.Engine.Strong.{gather}
use secvault.Engine.Strong.Damage.{
  Slots, image, payloads, IsSized, Damaged, bad_from, gather-image, length-image, length-Damaged,
}
use secvault.Engine.Strong.Written.{replicate-All, tagged, image-tagged}
use secvault.Engine.Container.{
  Container, gather_blob, load_chunk, load_gathered, decode_repaired, as_chunk_error,
}
use secvault.Engine.Container.Repair.{codeword, codeword-count, repair_intra-Damaged}
use secvault.Engine.Container.Intact.{
  data_part, length-data_part, data_part-All, no_overflow, decode-data_part,
}
use secvault.Engine.Chunk.{encode_job}

module _ (p : Primitives) where
  abbrev gathered_from : Result Bytes → Result (List Bytes × List ℕ)
  gathered_from r = r >>= λ raw. ok (gather p shards_per_blob 0 shard_size raw)

  gather-count :
      (k size : ℕ) (slots : Slots)
      → length slots ≡ k
      → IsSized size slots
      → gather p k 0 size (image slots) ≡ (payloads slots, bad_from p 0 slots)
  gather-count k size slots count sizes =
      ap (λ (n : ℕ). gather p n 0 size (image slots)) (sym count)
      ∙ ap (λ (b : Bytes). gather p (length slots) 0 size b) (sym (append-nil (image slots)))
      ∙ gather-image p 0 size slots [] sizes

module _ (p : Primitives) (c : Coding) (d : Device) (v : IsCrypto p) (f : IsFile d)
    (con : Container p c d) (en : IsEncoder c data_shards parity_shards con.codecs.intra)
    (prefix plain : Bytes) (idx : ℕ) (e : length prefix ≡ 4) (small : idx < 2 ^ 63)
    (some_plain : 0 < length plain) (fits : length plain ≤ chunk_plain_size) where
  abbrev shards : List Bytes
  shards = data_part p v con.aead prefix plain idx e small some_plain fits

  -- The 384 shards of the chunk.
  abbrev pub written : List Bytes
  written =
      codeword p c d v con.codecs.intra en shards
        (length-data_part p v con.aead prefix plain idx e small some_plain fits)
        (data_part-All p v con.aead prefix plain idx e small some_plain fits)

  -- encodeJob of a chunk that is not larger than a chunk may be gives the 384 shards, and the blob
  -- that holds each of them with its tag.
  pub encode_job_lem :
      encode_job p c con.aead con.codecs.intra prefix idx plain
      ≡ ok (written, image (tagged p v written))
  unfolding encode_job data_part
  encode_job_lem =
      let zero_shard : length (zeros shard_size) ≡ shard_size =
        unfold zeros in length-replicate {A = ℕ} shard_size 0 in
      let made =
        en.encode_lem shard_size shards (replicate parity_shards (zeros shard_size)) (omega arith)
          (length-data_part p v con.aead prefix plain idx e small some_plain fits)
          (length-replicate parity_shards (zeros shard_size))
          (data_part-All p v con.aead prefix plain idx e small some_plain fits)
          (replicate-All parity_shards shard_size (zeros shard_size) zero_shard) in
      rw (no_overflow p v con.aead prefix plain idx e small some_plain fits, made)
        (rw (image-tagged p v written) refl)

  module _ (slots : Slots) (n : ℕ) (front rest : Bytes) (dam : Damaged p written slots n)
      (sizes : IsSized shard_size slots) (few : n ≤ parity_shards)
      (there : ltb_ℤ (pos idx) con.man.chunk_count ≡ true)
      (at_offset : length front ≡ data_blob_offset con.spec idx)
      (on_disk : d.contents con.src ≡ front ++ (image slots ++ rest)) where
    slots_384 : length slots ≡ shards_per_blob
    slots_384 =
        length-Damaged p dam
        ∙ codeword-count p c d v con.codecs.intra en shards
            (length-data_part p v con.aead prefix plain idx e small some_plain fits)
            (data_part-All p v con.aead prefix plain idx e small some_plain fits)

    gathered : gather_blob p c d con.src con.spec idx ≡ ok (payloads slots, bad_from p 0 slots)
    unfolding gather_blob
    gathered =
        let long : length (image slots) ≡ blob_disk_size =
          length-image p shard_size slots sizes
          ∙ ap (λ (k : ℕ). k * (shard_size + tag_size)) slots_384 in
        let full : read_buffer blob_disk_size (
              file_read (front ++ (image slots ++ rest)) (data_blob_offset con.spec idx)
                blob_disk_size)
            ≡ ok (image slots) =
          read_buffer_full front (image slots) rest (data_blob_offset con.spec idx) blob_disk_size
            at_offset long (omega arith) in
        let raw = f.read_at_lem con.src (data_blob_offset con.spec idx) blob_disk_size in
        ap (gathered_from p) (
          ap (read_buffer blob_disk_size) raw
          ∙ ap
              (λ (b : Bytes).
                read_buffer blob_disk_size
                  (file_read b (data_blob_offset con.spec idx) blob_disk_size))
              on_disk
          ∙ full)
        ∙ ap ok (gather-count p shards_per_blob shard_size slots slots_384 sizes)

    -- On a file that does not fail, and that holds at the chunk's offset the blob of encodeJob with
    -- at most 128 slots damaged (replaced by bytes whose tag does not verify), LoadChunk returns the
    -- plaintext of the chunk and leaves the cache of encoders as it was.
    pub load_chunk-damaged : load_chunk p c d con (pos idx) ≡ (con.codecs, ok plain)
    unfolding load_chunk load_gathered
    load_chunk-damaged =
        let fixed =
          repair_intra-Damaged p c d v con.codecs.intra en shards
            (length-data_part p v con.aead prefix plain idx e small some_plain fits)
            (data_part-All p v con.aead prefix plain idx e small some_plain fits) slots n dam few in
        let plain_back =
          decode-data_part p v con.aead prefix plain idx e small some_plain fits c d
            (en.parity shards) in
        rw there (
          ap (load_gathered p c d con idx) gathered
          ∙ ap (decode_repaired p c d con idx) fixed
          ∙ ap (λ (r : Result Bytes). (con.codecs, as_chunk_error p c d idx r)) plain_back)
