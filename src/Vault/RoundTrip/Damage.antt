-- ===== src/Vault/RoundTrip/Damage.antt =====
-- An rs-strong container from NewWriter to LoadAll, with damage in between.
use secvault.Prelude.{
  ℕ, ◌≤◌, ◌<◌, ◌^◌, ◌≡◌, refl, ap, ◌∙◌, inr, Bytes, length, drop, concat, leb, if◌then◌else◌, none,
  some, List, [], ◌++◌,
}
use secvault.Errors.{Result, ok, err}
use secvault.Layout.{
  nonce_size, master_key_size, k_strong, m_strong, strong_shard_size, strong_payload_size,
}
use secvault.Format.{
  Manifest, build_trailer, parse_trailer_at, resolve_scheme, scheme_rs_strong, file_id_size,
}
use secvault.Format.Frame.{IsChecksum}
use secvault.Crypto.{Primitives, IsCrypto, derive_key, new_gcm}
use secvault.Codec.{Coding, Cache, new_cache, IsEncoder}
use secvault.Layout.Bounds.{strong_payload_size-lt}
use secvault.Device.{Device, IsFile}
use secvault.Engine.Strong.{load_strong, lost}
use secvault.Engine.Strong.Damage.{Slots, image, IsSized, Damaged}
use secvault.Engine.Strong.Load.{load_strong-damaged}
use secvault.Engine.Container.{Container, open_container, load_all}
use secvault.Vault.Writer.{WriterOption, apply_options, default_opts}
use secvault.Vault.Writer.Session.{Writer, new_writer, write_all, close}
use secvault.Vault.RoundTrip.Trailer.{manifest_trailer}
use secvault.Vault.RoundTrip.Small.{data_info, opened, open_small}
use secvault.Vault.RoundTrip.Strong.{
  strong_manifest, made, strong_writer, new_writer-strong, write_all-strong, shards, whole_slots,
  length-slots, close-strong_writer,
}

module _ (p : Primitives) (c : Coding) (d : Device) (checksum : Bytes → ℕ)
    (print_json : Manifest → Result Bytes) (parse_json : Bytes → Result Manifest) where
  info_strong :
      (n : ℕ) → data_info p c d checksum parse_json (strong_manifest n) ≡ "secvault/chunk/v1"
  unfolding resolve_scheme
  info_strong n = refl

  load_all-opened :
      (file : d.Disk) (man_aead aead : p.Aead) (codecs : Cache c) (size n : ℕ)
      → load_all p c d
          (opened p c d checksum parse_json file (strong_manifest n) man_aead aead codecs size)
        ≡ load_strong p c d file aead codecs.strong n
  unfolding load_all
  load_all-opened file man_aead aead codecs size n = refl

  -- On an empty file that does not fail, with options that choose rs-strong, NewWriter, any calls of
  -- Write, and Close succeed and leave the 96 slots and the trailer. If then n slots are damaged, so
  -- that their tags do not verify, Open with the same key succeeds, and LoadAll returns all that was
  -- written if n is at most 64, and otherwise the error for a chunk beyond recovery. The random bytes
  -- have the lengths that were asked for, the key fits, encoding/json reads the manifest that it
  -- wrote, which is short, the plaintext is below 2^60 bytes, and no frame of a trailer begins
  -- inside the trailer by accident.
  pub load_all-Damaged :
      (v : IsCrypto p) (f : IsFile d)
      → IsChecksum checksum
      → (dst : d.Disk) (master_key file_id nonce random mb : Bytes) (opts : List WriterOption)
        (pfx : Result Bytes) (writes : List Bytes) (man_aead aead : p.Aead) (codecs : Cache c)
        (en : IsEncoder c k_strong m_strong codecs.strong) (e : length nonce ≡ nonce_size)
        (small : length (concat writes) < 2 ^ 63)
      → let tr = build_trailer checksum (manifest_trailer p man_aead 3 file_id random mb) in
        d.contents dst ≡ []
        → length master_key ≡ master_key_size
        → (apply_options opts default_opts).scheme ≡ scheme_rs_strong
        → length file_id ≡ file_id_size
        → length random ≡ nonce_size
        → new_gcm p (derive_key p master_key file_id "secvault/manifest/v1") ≡ ok man_aead
        → new_gcm p (derive_key p master_key file_id "secvault/chunk/v1") ≡ ok aead
        → new_cache c ≡ ok codecs
        → print_json (strong_manifest (length (concat writes))) ≡ ok mb
        → parse_json mb ≡ ok (strong_manifest (length (concat writes)))
        → length mb ≤ 65000
        → length (concat writes) < 2 ^ 60
        → ((j : ℕ) → 0 < j → parse_trailer_at checksum (drop j tr) ≡ none)
        → (slots : Slots) (n : ℕ) (damaged : d.Disk)
        → Damaged p (shards p c d v f aead codecs en nonce (concat writes) e small) slots n
        → IsSized (strong_shard_size (length (concat writes))) slots
        → d.contents damaged ≡ image slots ++ tr
        → (w : Writer p c d) × (new_writer p c d (some dst) master_key opts (ok file_id) pfx ≡ ok w)
          × (file : d.Disk) × ((close p c d checksum print_json
                (write_all p c d w writes)
                (ok nonce)
                (ok random)).1
              ≡ (file, ok tt))
          × (d.contents file
              ≡ image (whole_slots p c d v f aead codecs en nonce (concat writes) e small) ++ tr)
          × (con : Container p c d) × (open_container p c d checksum parse_json damaged master_key
              ≡ ok con)
          × (load_all p c d con ≡ (if leb n m_strong then ok (concat writes) else err (lost p c d)))
  load_all-Damaged v f sum dst master_key file_id nonce random mb opts pfx writes man_aead aead
        codecs en e small empty_dst ek es ei er em ea ec printed ej short bound alone slots n
        damaged dam sizes on_disk =
      let plain = concat writes in
      let size = length plain in
      let tr = build_trailer checksum (manifest_trailer p man_aead 3 file_id random mb) in
      let (file, closed_fine, contents) =
        close-strong_writer p c d v f aead codecs en nonce plain e small checksum print_json dst
          man_aead file_id random mb empty_dst printed in
      let con =
        opened p c d checksum parse_json damaged (strong_manifest size) man_aead aead codecs
          (length (image slots ++ tr)) in
      (
        strong_writer p c d dst man_aead aead codecs file_id [],
        new_writer-strong p c d dst master_key file_id opts pfx man_aead aead codecs ek es em ea ec,
        file,
        ap (λ u. (close p c d checksum print_json u (ok nonce) (ok random)).1)
              (write_all-strong p c d dst man_aead aead codecs file_id writes [])
            ∙ closed_fine,
        contents,
        con,
        open_small p c d checksum parse_json v f sum scheme_rs_strong damaged master_key file_id
            (image slots) random mb size (strong_payload_size size) (strong_manifest size) man_aead
            aead codecs (inr refl) (made size)
            (length-slots p c d v f aead codecs en nonce plain e small slots n dam sizes)
            (strong_payload_size-lt size bound) ei er em
            (ap (λ info. new_gcm p (derive_key p master_key file_id info)) (info_strong size) ∙ ea)
            ec ej short alone on_disk,
        load_all-opened damaged man_aead aead codecs (length (image slots ++ tr)) size
            ∙ load_strong-damaged p c d v codecs.strong en aead nonce plain e small slots n dam
                sizes f damaged tr on_disk,
      )
