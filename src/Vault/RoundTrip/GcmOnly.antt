-- ===== src/Vault/RoundTrip/GcmOnly.antt =====
-- A gcm-only container: the steps of its writer, and of its reader on what Close left.

use secvault.Prelude.{
  ℕ, ◌≤◌, ◌<◌, ◌^◌, ◌≡◌, refl, ap, sym, ◌∙◌, arith, Bytes, length, drop, concat, append_assoc,
  append-nil, inl, none, some, List, [], ◌∷◌, ◌++◌,
}
use secvault.Errors.{Result, ok}
use secvault.Layout.{nonce_size, gcm_only_payload_size, master_key_size}
use secvault.Format.{
  Manifest, build_trailer, parse_trailer_at, resolve_scheme, scheme_gcm_only, file_id_size,
}
use secvault.Format.Frame.{IsChecksum}
use secvault.Crypto.{Primitives, IsCrypto, derive_key, new_gcm}
use secvault.Codec.{Coding, Cache, new_cache}
use secvault.Device.{Device, IsFile}
use secvault.Device.Reads.{seek_write_lem}
use secvault.Engine.GcmOnly
use secvault.Engine.GcmOnly.{GcmOnlySink, gcm_body, load_gcm_only}
use secvault.Engine.GcmOnly.Laws.{length-gcm_body, load_gcm_only-body}
use secvault.Engine.Container.{Container, open_container, load_all}
use secvault.Vault.Writer.{
  WriterOption, apply_options, default_opts, empty_manifest, small_manifest, write_trailer,
}
use secvault.Vault.Writer.Session.{
  Writer, gcm_backend, small_writer, new_writer, write_all, put_manifest, close_small, close,
}
use secvault.Vault.RoundTrip.Trailer.{manifest_trailer, overwrite-end, write_trailer-end}
use secvault.Vault.RoundTrip.Small.{data_info, opened, open_small, close_small_ok}

module _ (p : Primitives) (c : Coding) (d : Device) where
  -- The writer of a gcm-only container, with what was given to it.
  abbrev pub gcm_writer : d.Disk → p.Aead → p.Aead → Bytes → Bytes → Writer p c d
  gcm_writer dst man_aead aead file_id buf =
      small_writer p c d man_aead file_id scheme_gcm_only
        (gcm_backend (record { dst = dst; aead = aead; buf = buf }))

  pub new_writer-gcm :
      (dst : d.Disk) (master_key file_id : Bytes) (opts : List WriterOption) (pfx : Result Bytes)
      (man_aead aead : p.Aead)
      → length master_key ≡ master_key_size
      → (apply_options opts default_opts).scheme ≡ scheme_gcm_only
      → new_gcm p (derive_key p master_key file_id "secvault/manifest/v1") ≡ ok man_aead
      → new_gcm p (derive_key p master_key file_id "secvault/gcm/v1") ≡ ok aead
      → new_writer p c d (some dst) master_key opts (ok file_id) pfx
        ≡ ok (gcm_writer dst man_aead aead file_id [])
  unfolding new_writer
  new_writer-gcm dst master_key file_id opts pfx man_aead aead ek es em ea =
      rw (ek, em, es, ea) refl

  pub write_all-gcm :
      (dst : d.Disk) (man_aead aead : p.Aead) (file_id : Bytes) (writes : List Bytes) (buf : Bytes)
      → write_all p c d (gcm_writer dst man_aead aead file_id buf) writes
        ≡ gcm_writer dst man_aead aead file_id (buf ++ concat writes)
  unfolding write_all
  write_all-gcm dst man_aead aead file_id [] buf =
      ap (gcm_writer dst man_aead aead file_id) (sym (append-nil buf))
  write_all-gcm dst man_aead aead file_id (b ∷ writes) buf =
      write_all-gcm dst man_aead aead file_id writes (buf ++ b)
      ∙ ap (gcm_writer dst man_aead aead file_id) (append_assoc buf b (concat writes))

  -- Drain into an empty file.
  drain_empty :
      IsFile d
      → (g : GcmOnlySink p d) (nonce : Bytes) → d.contents g.dst ≡ []
      → ((GcmOnly.drain p d g (ok nonce)).1 ≡ ok (length g.buf))
        × (d.contents (GcmOnly.drain p d g (ok nonce)).0 ≡ gcm_body p d g.aead nonce g.buf)
  unfolding GcmOnly.drain
  drain_empty f g nonce e =
      let body = gcm_body p d g.aead nonce g.buf in
      let (done_, written) = seek_write_lem d f g.dst 0 body in
      (
        rw done_ refl,
        written ∙ overwrite-end (d.contents g.dst) body 0 (ap length e) ∙ ap (λ b. b ++ body) e,
      )

  module _ (checksum : Bytes → ℕ) (print_json : Manifest → Result Bytes) where
    -- Close drains the sink and writes the trailer of its manifest.
    close_steps :
        (dst : d.Disk) (man_aead aead : p.Aead) (file_id buf : Bytes)
        (random_nonce random : Result Bytes)
        → (close p c d checksum print_json
            (gcm_writer dst man_aead aead file_id buf)
            random_nonce
            random).1
          ≡ close_small p c d checksum print_json
              (gcm_writer dst man_aead aead file_id buf)
              (GcmOnly.drain p d (record { dst = dst; aead = aead; buf = buf }) random_nonce)
              random
    unfolding close
    close_steps dst man_aead aead file_id buf random_nonce random = refl

    made :
        (n : ℕ)
        → small_manifest 3 scheme_gcm_only n
          ≡ ok (empty_manifest 3 scheme_gcm_only n, gcm_only_payload_size n)
    unfolding small_manifest
    made n = refl

    pub close-gcm_writer :
        IsCrypto p
        → IsFile d
        → (dst : d.Disk) (man_aead aead : p.Aead) (file_id buf nonce random mb : Bytes)
        → d.contents dst ≡ []
        → length nonce ≡ nonce_size
        → print_json (empty_manifest 3 scheme_gcm_only (length buf)) ≡ ok mb
        → (file : d.Disk) × ((close p c d checksum print_json
              (gcm_writer dst man_aead aead file_id buf)
              (ok nonce)
              (ok random)).1
            ≡ (file, ok tt))
          × (d.contents file
              ≡ gcm_body p d aead nonce buf
                ++ build_trailer checksum (manifest_trailer p man_aead 3 file_id random mb))
    close-gcm_writer crypto f dst man_aead aead file_id buf nonce random mb empty_dst en printed =
        let w = gcm_writer dst man_aead aead file_id buf in
        let man = empty_manifest 3 scheme_gcm_only (length buf) in
        let off = gcm_only_payload_size (length buf) in
        let drained = GcmOnly.drain p d (record { dst = dst; aead = aead; buf = buf }) (ok nonce) in
        let (done_, body) =
          drain_empty f (record { dst = dst; aead = aead; buf = buf }) nonce empty_dst in
        let size : length (d.contents drained.0) ≡ off =
          ap length body ∙ length-gcm_body p crypto d aead nonce buf en in
        let r =
          write_trailer p d checksum print_json drained.0 man_aead 3 file_id man off (ok random) in
        let (fine, on_disk) =
          write_trailer-end p c d f checksum print_json drained.0 man_aead 3 file_id man off random
            mb printed size in
        (
          r.0,
          close_steps dst man_aead aead file_id buf (ok nonce) (ok random)
              ∙ close_small_ok p c d checksum print_json w drained (length buf) (ok random) done_
              ∙ ap (λ m. put_manifest p c d checksum print_json w drained.0 m (ok random))
                  (made (length buf))
              ∙ ap (λ e. (r.0, e)) fine,
          on_disk
              ∙ ap
                  (λ b.
                    b ++ build_trailer checksum (manifest_trailer p man_aead 3 file_id random mb))
                  body,
        )

  module _ (checksum : Bytes → ℕ) (print_json : Manifest → Result Bytes)
      (parse_json : Bytes → Result Manifest) where
    info_gcm :
        (n : ℕ)
        → data_info p c d checksum parse_json (empty_manifest 3 scheme_gcm_only n)
          ≡ "secvault/gcm/v1"
    unfolding resolve_scheme
    info_gcm n = refl

    load_all-gcm :
        (con : Container p c d) (n : ℕ)
        → con.man ≡ empty_manifest 3 scheme_gcm_only n
        → load_all p c d con ≡ load_gcm_only p d con.src con.aead n
    unfolding load_all
    load_all-gcm con n e = rw e refl

    -- Open and LoadAll on what Close left.
    pub open_gcm :
        IsCrypto p
        → IsFile d
        → IsChecksum checksum
        → (file : d.Disk) (master_key file_id plain nonce random mb : Bytes)
          (man_aead aead : p.Aead) (codecs : Cache c)
        → let tr = build_trailer checksum (manifest_trailer p man_aead 3 file_id random mb) in
          length file_id ≡ file_id_size
          → length nonce ≡ nonce_size
          → length random ≡ nonce_size
          → new_gcm p (derive_key p master_key file_id "secvault/manifest/v1") ≡ ok man_aead
          → new_gcm p (derive_key p master_key file_id "secvault/gcm/v1") ≡ ok aead
          → new_cache c ≡ ok codecs
          → parse_json mb ≡ ok (empty_manifest 3 scheme_gcm_only (length plain))
          → length mb ≤ 65000
          → length plain < 2 ^ 61
          → ((j : ℕ) → 0 < j → parse_trailer_at checksum (drop j tr) ≡ none)
          → d.contents file ≡ gcm_body p d aead nonce plain ++ tr
          → (con : Container p c d) × (open_container p c d checksum parse_json file master_key
              ≡ ok con)
            × (load_all p c d con ≡ ok plain)
    open_gcm crypto f sum file master_key file_id plain nonce random mb man_aead aead codecs ei en
          er em ea ec ej short bound alone on_disk =
        let n = length plain in
        let man = empty_manifest 3 scheme_gcm_only n in
        let tr = build_trailer checksum (manifest_trailer p man_aead 3 file_id random mb) in
        let body = gcm_body p d aead nonce plain in
        let con =
          opened p c d checksum parse_json file man man_aead aead codecs (length (body ++ tr)) in
        (
          con,
          open_small p c d checksum parse_json crypto f sum scheme_gcm_only file master_key file_id
              body random mb n (gcm_only_payload_size n) man man_aead aead codecs (inl refl)
              (made checksum print_json n) (length-gcm_body p crypto d aead nonce plain en)
              (unfold gcm_only_payload_size in omega (arith, bound)) ei er em
              (ap (λ info. new_gcm p (derive_key p master_key file_id info)) (info_gcm n) ∙ ea) ec
              ej short alone on_disk,
          load_all-gcm con n refl
              ∙ load_gcm_only-body p crypto d f file aead nonce plain tr en on_disk,
        )
