-- ===== src/Vault/RoundTrip/Small.antt =====
-- Open on the trailer that Close of a small container wrote.
use text.Mathlib.Text.{◌==◌ as str_eq}
use secvault.Prelude.{
  ℕ, ◌+◌, ◌≤◌, ◌<◌, ◌^◌, ◌≡◌, refl, ap, ◌∙◌, arith, ◌⊎◌, inr, Bytes, String, length, length-append,
  drop, if◌then◌else◌, [], ◌++◌, none,
}
use secvault.Errors.{Result, ok, err}
use secvault.Layout.{nonce_size}
use secvault.Format.{
  Manifest, trailer_fixed, build_trailer, parse_trailer_at, validate, resolve_scheme, resolve_spec,
  scheme_gcm_only, scheme_rs_strong, file_id_size,
}
use secvault.Format.Frame.{IsTrailer, IsChecksum, length-build_trailer}
use secvault.Crypto.{Primitives, IsCrypto, derive_key, new_gcm}
use secvault.Codec.{Coding, Cache, new_cache}
use secvault.Device.{Device, IsFile}
use secvault.Engine.Container.{Container, open_trailer, open_container}
use secvault.Vault.Writer.{small_manifest}
use secvault.Vault.Writer.Accepted.{validate-small_manifest}
use secvault.Vault.Writer.Session.{Writer, put_manifest, close_small}
use secvault.Vault.RoundTrip.Trailer.{manifest_trailer, open_container-trailer}

module _ (p : Primitives) (c : Coding) (d : Device) (checksum : Bytes → ℕ)
    (parse_json : Bytes → Result Manifest) where
  abbrev pub data_info : Manifest → String
  data_info man =
      if str_eq (resolve_scheme man) scheme_gcm_only then "secvault/gcm/v1" else "secvault/chunk/v1"

  -- Open on a trailer that Close wrote.
  pub open_trailer-written :
      IsCrypto p
      → (disk : d.Disk) (master_key : Bytes) (size version : ℕ) (file_id nonce mb : Bytes)
        (man : Manifest) (man_aead aead : p.Aead) (codecs : Cache c)
      → length nonce ≡ nonce_size
      → new_gcm p (derive_key p master_key file_id "secvault/manifest/v1") ≡ ok man_aead
      → parse_json mb ≡ ok man
      → validate man size (trailer_fixed + length (p.seal man_aead nonce mb []) + 4) ≡ ok tt
      → new_gcm p (derive_key p master_key file_id (data_info man)) ≡ ok aead
      → new_cache c ≡ ok codecs
      → open_trailer p c d checksum parse_json disk master_key size (record {
        version = version;
        file_id = file_id;
        nonce = nonce;
        payload = p.seal man_aead nonce mb [];
      })
        ≡ ok (record {
          src = disk;
          man = man;
          spec = resolve_spec man;
          aead = aead;
          man_aead = man_aead;
          codecs = codecs;
          file_size = size;
        })
  unfolding open_trailer
  open_trailer-written crypto disk master_key size version file_id nonce mb man man_aead aead codecs
        en em ej ev ea ec =
      rw (em, crypto.unseal-seal man_aead nonce mb [] en, ej, ev, ea, ec) refl

  -- The container that Open makes.
  abbrev pub opened : d.Disk → Manifest → p.Aead → p.Aead → Cache c → ℕ → Container p c d
  opened file man man_aead aead codecs size = record {
    src = file;
    man = man;
    spec = resolve_spec man;
    aead = aead;
    man_aead = man_aead;
    codecs = codecs;
    file_size = size;
  }

  -- Open on a payload of the size that closeSmall computes, with the trailer behind it.
  pub open_small :
      IsCrypto p
      → IsFile d
      → IsChecksum checksum
      → (scheme : String) (file : d.Disk) (master_key file_id body random mb : Bytes) (n off : ℕ)
        (man : Manifest) (man_aead aead : p.Aead) (codecs : Cache c)
      → let tr = build_trailer checksum (manifest_trailer p man_aead 3 file_id random mb) in
        (scheme ≡ scheme_gcm_only) ⊎ (scheme ≡ scheme_rs_strong)
        → small_manifest 3 scheme n ≡ ok (man, off)
        → length body ≡ off
        → off < 2 ^ 62
        → length file_id ≡ file_id_size
        → length random ≡ nonce_size
        → new_gcm p (derive_key p master_key file_id "secvault/manifest/v1") ≡ ok man_aead
        → new_gcm p (derive_key p master_key file_id (data_info man)) ≡ ok aead
        → new_cache c ≡ ok codecs
        → parse_json mb ≡ ok man
        → length mb ≤ 65000
        → ((j : ℕ) → 0 < j → parse_trailer_at checksum (drop j tr) ≡ none)
        → d.contents file ≡ body ++ tr
        → open_container p c d checksum parse_json file master_key
          ≡ ok (opened file man man_aead aead codecs (length (body ++ tr)))
  open_small crypto f sum scheme file master_key file_id body random mb n off man man_aead aead
        codecs small made size bound ei er em ea ec ej short alone on_disk =
      let t = manifest_trailer p man_aead 3 file_id random mb in
      let tr = build_trailer checksum t in
      let sealed = crypto.length-seal man_aead random mb [] in
      let v : IsTrailer t = record {
        version = inr refl;
        file_id = ei;
        nonce = er;
        payload_min = omega (arith, sealed);
        payload_max = omega (arith, sealed, short);
      } in
      let tr_len = trailer_fixed + length t.payload + 4 in
      let tr_size : length tr ≡ tr_len = length-build_trailer checksum t v in
      let whole : length (body ++ tr) ≡ off + tr_len =
        omega (arith, length-append {0} body tr, size, tr_size) in
      let valid : validate man (length (body ++ tr)) tr_len ≡ ok tt =
        ap (λ n. validate man n tr_len) whole
        ∙ validate-small_manifest scheme n tr_len off man small made
            (omega (arith, bound, short, sealed)) in
      open_container-trailer p c d f checksum parse_json file master_key body t sum v
        (omega (arith, tr_size, sealed, short)) alone on_disk
      ∙ open_trailer-written crypto file master_key (length (body ++ tr)) 3 file_id random mb man
          man_aead aead codecs er em ej valid ea ec

module _ (p : Primitives) (c : Coding) (d : Device) (checksum : Bytes → ℕ)
    (print_json : Manifest → Result Bytes) where
  -- closeSmall, when Drain succeeded.
  pub close_small_ok :
      (w : Writer p c d) (r : d.Disk × Result ℕ) (n : ℕ) (random : Result Bytes)
      → r.1 ≡ ok n
      → close_small p c d checksum print_json w r random
        ≡ put_manifest p c d checksum print_json w r.0 (small_manifest w.version w.scheme n) random
  close_small_ok w (disk, ok m) n random e =
      let same : m ≡ n = ground arith in
      ap
        (λ k.
          put_manifest p c d checksum print_json w disk (small_manifest w.version w.scheme k)
            random)
        same
  close_small_ok w (disk, err x) n random e = cc
