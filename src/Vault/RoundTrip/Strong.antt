-- ===== src/Vault/RoundTrip/Strong.antt =====
-- An rs-strong container: the steps of its writer.
use secvault.Prelude.{
  ℕ, ◌+◌, ◌*◌, ◌<◌, ◌^◌, ◌≡◌, refl, ap, sym, ◌∙◌, Bytes, length, concat, append_assoc, append-nil,
  some, List, [], ◌∷◌, ◌++◌, pos,
}
use secvault.Errors.{Result, ok}
use secvault.Layout.{
  master_key_size, tag_size, k_strong, m_strong, strong_slots, strong_shard_size, strong_slot_size,
  strong_payload_size,
}
use secvault.Format.{Manifest, build_trailer, scheme_rs_strong}
use secvault.Crypto.{Primitives, IsCrypto, derive_key, new_gcm}
use secvault.Codec.{Coding, Cache, new_cache, IsEncoder}
use secvault.Device.{Device, IsFile}
use secvault.Engine.Strong
use secvault.Engine.Strong.{StrongSink, load_strong, lost}
use secvault.Engine.Strong.Damage.{Slots, image, IsSized, Damaged, length-image, length-Damaged}
use secvault.Engine.Strong.Load.{codeword, codeword-All, length-codeword}
use secvault.Engine.Strong.Written.{
  tagged, tagged-Damaged, tagged-IsSized, drain_empty, load_strong-drain,
}
use secvault.Vault.Writer.{
  WriterOption, apply_options, default_opts, empty_manifest, small_manifest, write_trailer,
}
use secvault.Vault.Writer.Session.{
  Writer, strong_backend, small_writer, new_writer, write_all, put_manifest, close_small, close,
}
use secvault.Vault.RoundTrip.Trailer.{manifest_trailer, write_trailer-end}
use secvault.Vault.RoundTrip.Small.{close_small_ok}

-- The manifest of an rs-strong container of n bytes.
abbrev pub strong_manifest : ℕ → Manifest
strong_manifest n = record (empty_manifest 3 scheme_rs_strong n) {
  k = pos k_strong;
  m = pos m_strong;
  shard_size = pos (strong_shard_size n);
  k_strong = pos k_strong;
  m_strong = pos m_strong;
}

pub made :
    (n : ℕ) → small_manifest 3 scheme_rs_strong n ≡ ok (strong_manifest n, strong_payload_size n)
unfolding small_manifest
made n = refl

module _ (p : Primitives) (c : Coding) (d : Device) where
  abbrev pub strong_sink : d.Disk → p.Aead → Cache c → Bytes → StrongSink p c d
  strong_sink dst aead codecs buf = record {
    dst = dst;
    aead = aead;
    strong = codecs.strong;
    buf = buf;
  }

  abbrev pub strong_writer : d.Disk → p.Aead → p.Aead → Cache c → Bytes → Bytes → Writer p c d
  strong_writer dst man_aead aead codecs file_id buf =
      small_writer p c d man_aead file_id scheme_rs_strong
        (strong_backend (strong_sink dst aead codecs buf))

  pub new_writer-strong :
      (dst : d.Disk) (master_key file_id : Bytes) (opts : List WriterOption) (pfx : Result Bytes)
      (man_aead aead : p.Aead) (codecs : Cache c)
      → length master_key ≡ master_key_size
      → (apply_options opts default_opts).scheme ≡ scheme_rs_strong
      → new_gcm p (derive_key p master_key file_id "secvault/manifest/v1") ≡ ok man_aead
      → new_gcm p (derive_key p master_key file_id "secvault/chunk/v1") ≡ ok aead
      → new_cache c ≡ ok codecs
      → new_writer p c d (some dst) master_key opts (ok file_id) pfx
        ≡ ok (strong_writer dst man_aead aead codecs file_id [])
  unfolding new_writer
  new_writer-strong dst master_key file_id opts pfx man_aead aead codecs ek es em ea ec =
      rw (ek, em, es, ea, ec) refl

  pub write_all-strong :
      (dst : d.Disk) (man_aead aead : p.Aead) (codecs : Cache c) (file_id : Bytes)
      (writes : List Bytes) (buf : Bytes)
      → write_all p c d (strong_writer dst man_aead aead codecs file_id buf) writes
        ≡ strong_writer dst man_aead aead codecs file_id (buf ++ concat writes)
  unfolding write_all
  write_all-strong dst man_aead aead codecs file_id [] buf =
      ap (strong_writer dst man_aead aead codecs file_id) (sym (append-nil buf))
  write_all-strong dst man_aead aead codecs file_id (b ∷ writes) buf =
      write_all-strong dst man_aead aead codecs file_id writes (buf ++ b)
      ∙ ap (strong_writer dst man_aead aead codecs file_id) (append_assoc buf b (concat writes))

  close_steps :
      (checksum : Bytes → ℕ) (print_json : Manifest → Result Bytes) (dst : d.Disk)
      (man_aead aead : p.Aead) (codecs : Cache c) (file_id buf : Bytes)
      (random_nonce random : Result Bytes)
      → (close p c d checksum print_json
          (strong_writer dst man_aead aead codecs file_id buf)
          random_nonce
          random).1
        ≡ close_small p c d checksum print_json
            (strong_writer dst man_aead aead codecs file_id buf)
            (Strong.drain p c d (strong_sink dst aead codecs buf) random_nonce)
            random
  unfolding close
  close_steps checksum print_json dst man_aead aead codecs file_id buf random_nonce random = refl

  module _ (v : IsCrypto p) (f : IsFile d) (aead : p.Aead) (codecs : Cache c)
      (en : IsEncoder c k_strong m_strong codecs.strong) (nonce plain : Bytes)
      (e : length nonce ≡ 12) (small : length plain < 2 ^ 63) where
    abbrev pub shards : List Bytes
    shards = codeword p c d v codecs.strong en aead nonce plain e small

    -- The slots of a container, damaged or not, fill the payload.
    pub length-slots :
        (slots : Slots) (n : ℕ)
        → Damaged p shards slots n
        → IsSized (strong_shard_size (length plain)) slots
        → length (image slots) ≡ strong_payload_size (length plain)
    unfolding strong_payload_size strong_slot_size
    length-slots slots n dam sizes =
        let count : length slots ≡ strong_slots =
          length-Damaged p dam
          ∙ length-codeword p c d v codecs.strong en aead nonce plain e small in
        length-image p (strong_shard_size (length plain)) slots sizes
        ∙ ap (λ (k : ℕ). k * (strong_shard_size (length plain) + tag_size)) count

    abbrev pub whole_slots : Slots
    whole_slots = tagged p v shards

    length-whole : length (image whole_slots) ≡ strong_payload_size (length plain)
    length-whole = length-slots whole_slots 0 (tagged-Damaged p v shards) (
        tagged-IsSized p v (strong_shard_size (length plain)) shards
          (codeword-All p c d v codecs.strong en aead nonce plain e small))

    drained_empty :
        (dst : d.Disk)
        → d.contents dst ≡ []
        → ((Strong.drain p c d (strong_sink dst aead codecs plain) (ok nonce)).1
            ≡ ok (length plain))
          × (d.contents (Strong.drain p c d (strong_sink dst aead codecs plain) (ok nonce)).0
              ≡ image whole_slots)
    drained_empty dst empty_dst = (
      (load_strong-drain p c d v f (strong_sink dst aead codecs plain) en nonce e small).0,
      drain_empty p c d v f (strong_sink dst aead codecs plain) en nonce e small empty_dst,
    )

    -- Close writes the slots and the trailer.
    pub close-strong_writer :
        (checksum : Bytes → ℕ) (print_json : Manifest → Result Bytes) (dst : d.Disk)
        (man_aead : p.Aead) (file_id random mb : Bytes)
        → d.contents dst ≡ []
        → print_json (strong_manifest (length plain)) ≡ ok mb
        → (file : d.Disk) × ((close p c d checksum print_json
              (strong_writer dst man_aead aead codecs file_id plain)
              (ok nonce)
              (ok random)).1
            ≡ (file, ok tt))
          × (d.contents file
              ≡ image whole_slots
                ++ build_trailer checksum (manifest_trailer p man_aead 3 file_id random mb))
    close-strong_writer checksum print_json dst man_aead file_id random mb empty_dst printed =
        let w = strong_writer dst man_aead aead codecs file_id plain in
        let n = length plain in
        let off = strong_payload_size n in
        let drained = Strong.drain p c d (strong_sink dst aead codecs plain) (ok nonce) in
        let (done_, body) = drained_empty dst empty_dst in
        let r =
          write_trailer p d checksum print_json drained.0 man_aead 3 file_id (strong_manifest n) off
            (ok random) in
        let (fine, on_disk) =
          write_trailer-end p c d f checksum print_json drained.0 man_aead 3 file_id
            (strong_manifest n) off random mb printed (ap length body ∙ length-whole) in
        (
          r.0,
          close_steps checksum print_json dst man_aead aead codecs file_id plain (ok nonce)
                (ok random)
              ∙ close_small_ok p c d checksum print_json w drained n (ok random) done_
              ∙ ap (λ m. put_manifest p c d checksum print_json w drained.0 m (ok random)) (made n)
              ∙ ap (λ t. (r.0, t)) fine,
          on_disk
              ∙ ap
                  (λ b.
                    b ++ build_trailer checksum (manifest_trailer p man_aead 3 file_id random mb))
                  body,
        )
