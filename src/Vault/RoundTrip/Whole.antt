-- ===== src/Vault/RoundTrip/Whole.antt =====
-- A gcm-only container from NewWriter to LoadAll.
use secvault.Prelude.{
  ℕ, ◌≤◌, ◌<◌, ◌^◌, ◌≡◌, ap, ◌∙◌, Bytes, length, drop, concat, none, some, List, [],
}
use secvault.Errors.{Result, ok}
use secvault.Layout.{nonce_size, master_key_size}
use secvault.Format.{Manifest, build_trailer, parse_trailer_at, scheme_gcm_only, file_id_size}
use secvault.Format.Frame.{IsChecksum}
use secvault.Crypto.{Primitives, IsCrypto, derive_key, new_gcm}
use secvault.Codec.{Coding, Cache, new_cache}
use secvault.Device.{Device, IsFile}
use secvault.Engine.Container.{Container, open_container, load_all}
use secvault.Vault.Writer.{WriterOption, apply_options, default_opts, empty_manifest}
use secvault.Vault.Writer.Session.{Writer, new_writer, write_all, close}
use secvault.Vault.RoundTrip.Trailer.{manifest_trailer}
use secvault.Vault.RoundTrip.GcmOnly.{
  gcm_writer, new_writer-gcm, write_all-gcm, close-gcm_writer, open_gcm,
}

module _ (p : Primitives) (c : Coding) (d : Device) (checksum : Bytes → ℕ)
    (print_json : Manifest → Result Bytes) (parse_json : Bytes → Result Manifest) where
  -- On an empty file that does not fail, with options that choose gcm-only, NewWriter, any calls of
  -- Write, and Close succeed, and Open with the same key and LoadAll then return all that was written.
  -- The random bytes have the lengths that were asked for, the key fits, encoding/json reads the
  -- manifest that it wrote, which is short, the plaintext is below 2^61 bytes, and no frame of a
  -- trailer begins inside the trailer by accident.
  pub load_all-close :
      IsCrypto p
      → IsFile d
      → IsChecksum checksum
      → (dst : d.Disk) (master_key file_id nonce random mb : Bytes) (opts : List WriterOption)
        (pfx : Result Bytes) (writes : List Bytes) (man_aead aead : p.Aead) (codecs : Cache c)
      → d.contents dst ≡ []
      → length master_key ≡ master_key_size
      → (apply_options opts default_opts).scheme ≡ scheme_gcm_only
      → length file_id ≡ file_id_size
      → length nonce ≡ nonce_size
      → length random ≡ nonce_size
      → new_gcm p (derive_key p master_key file_id "secvault/manifest/v1") ≡ ok man_aead
      → new_gcm p (derive_key p master_key file_id "secvault/gcm/v1") ≡ ok aead
      → new_cache c ≡ ok codecs
      → print_json (empty_manifest 3 scheme_gcm_only (length (concat writes))) ≡ ok mb
      → parse_json mb ≡ ok (empty_manifest 3 scheme_gcm_only (length (concat writes)))
      → length mb ≤ 65000
      → length (concat writes) < 2 ^ 61
      → ((j : ℕ)
          → 0 < j
          → parse_trailer_at checksum
              (drop j (build_trailer checksum (manifest_trailer p man_aead 3 file_id random mb)))
            ≡ none)
      → (w : Writer p c d) × (new_writer p c d (some dst) master_key opts (ok file_id) pfx ≡ ok w)
        × (file : d.Disk) × ((close p c d checksum print_json
              (write_all p c d w writes)
              (ok nonce)
              (ok random)).1
            ≡ (file, ok tt))
        × (con : Container p c d) × (open_container p c d checksum parse_json file master_key
            ≡ ok con)
        × (load_all p c d con ≡ ok (concat writes))
  load_all-close crypto f sum dst master_key file_id nonce random mb opts pfx writes man_aead aead
        codecs empty_dst ek es ei en er em ea ec printed ej short bound alone =
      let plain = concat writes in
      let w = gcm_writer p c d dst man_aead aead file_id [] in
      let (file, closed_fine, on_disk) =
        close-gcm_writer p c d checksum print_json crypto f dst man_aead aead file_id plain nonce
          random mb empty_dst en printed in
      let (con, opened, loaded) =
        open_gcm p c d checksum print_json parse_json crypto f sum file master_key file_id plain
          nonce random mb man_aead aead codecs ei en er em ea ec ej short bound alone on_disk in
      (
        w,
        new_writer-gcm p c d dst master_key file_id opts pfx man_aead aead ek es em ea,
        file,
        ap (λ u. (close p c d checksum print_json u (ok nonce) (ok random)).1)
              (write_all-gcm p c d dst man_aead aead file_id writes [])
            ∙ closed_fine,
        con,
        opened,
        loaded,
      )
