-- ===== src/Examples/Sessions.antt =====
-- A gcm-only container at a concrete input, from NewWriter to LoadAll: three bytes in two writes.
use secvault.Prelude.{
  ℕ, suc, zero, ◌<◌, ◌≡◌, refl, arith, Bytes, replicate, length, drop, pos, String, none, some,
  List, [], ◌∷◌,
}
use secvault.Errors.{Result, ok}
use secvault.Format.{Manifest, build_trailer, trailer_body, parse_trailer_at, scheme_gcm_only}
use secvault.Crypto.{derive_key, new_gcm}
use secvault.Codec.{Cache, new_cache}
use secvault.Device.MemFile.{MemFile, mem_file, mem_file-IsFile, empty}
use secvault.Engine.Container.{Container, open_container, load_all}
use secvault.Vault.Writer.{
  re_pull_option, workers_option, apply_options, default_opts, empty_manifest,
}
use secvault.Vault.Writer.Session.{Writer, new_writer, write_all, close}
use secvault.Vault.Writer.Closed.{IsOver, close-IsOver}
use secvault.Vault.RoundTrip.GcmOnly.{gcm_writer}
use secvault.Vault.RoundTrip.Trailer.{manifest_trailer}
use secvault.Vault.RoundTrip.Whole.{load_all-close}
use secvault.Examples.Parameters.{primitives, primitives-IsCrypto, coding}
use secvault.Examples.Theorems.{checksum, no_frame}

abbrev pub key : Bytes
key = replicate 32 5

abbrev pub file_id : Bytes
file_id = replicate 16 4

abbrev pub nonce : Bytes
nonce = replicate 12 9

abbrev pub random : Bytes
random = replicate 12 8

abbrev pub derived : Bytes
derived = replicate 32 32

abbrev pub writes : List Bytes
writes = (7 ∷ 8 ∷ []) ∷ (9 ∷ []) ∷ []

abbrev pub print_json : Manifest → Result Bytes
print_json man = ok (1 ∷ 2 ∷ [])

abbrev parse_json : Bytes → Result Manifest
parse_json b = ok (empty_manifest 3 scheme_gcm_only 3)

abbrev pub codecs : Cache coding
codecs = record { intra = (256, 128); strong = (32, 64); files = [] }

pub alone :
    (j : ℕ)
    → 0 < j
    → parse_trailer_at checksum (
        drop j (
          build_trailer checksum
            (manifest_trailer primitives derived 3 file_id random (1 ∷ 2 ∷ []))))
      ≡ none
unfolding build_trailer trailer_body replicate
alone zero h = absurd (omega arith)
alone (suc j) h =
    no_frame j
      (drop 1 (
        build_trailer checksum (manifest_trailer primitives derived 3 file_id random (1 ∷ 2 ∷ []))))
      (omega arith)

gcm_chosen :
    (apply_options (workers_option (pos 2) ∷ re_pull_option ∷ []) default_opts).scheme
    ≡ scheme_gcm_only
unfolding apply_options
gcm_chosen = refl

pub sizes : (length key ≡ 32) × (length file_id ≡ 16) × (length nonce ≡ 12) × (length random ≡ 12)
unfolding replicate
sizes = (refl, refl, refl, refl)

pub keys :
    (info : String) → new_gcm primitives (derive_key primitives key file_id info) ≡ ok derived
unfolding new_gcm derive_key replicate
keys info = refl

pub cache_made : new_cache coding ≡ ok codecs
unfolding new_cache
cache_made = refl

load_all-close_example :
    (w : Writer primitives coding mem_file) × (new_writer primitives coding mem_file
        (some empty)
        key
        (workers_option (pos 2) ∷ re_pull_option ∷ [])
        (ok file_id)
        (ok [])
      ≡ ok w)
    × (file : MemFile) × ((close primitives coding mem_file checksum print_json
          (write_all primitives coding mem_file w writes)
          (ok nonce)
          (ok random)).1
        ≡ (file, ok tt))
    × (con : Container primitives coding mem_file) × (open_container primitives coding mem_file
          checksum parse_json file key
        ≡ ok con)
    × (load_all primitives coding mem_file con ≡ ok (7 ∷ 8 ∷ 9 ∷ []))
load_all-close_example =
    load_all-close primitives coding mem_file checksum print_json parse_json primitives-IsCrypto
      mem_file-IsFile (λ b. omega arith) empty key file_id nonce random (1 ∷ 2 ∷ [])
      (workers_option (pos 2) ∷ re_pull_option ∷ []) (ok []) writes derived derived codecs refl
      sizes.0 gcm_chosen sizes.1 sizes.2 sizes.3 (keys "secvault/manifest/v1")
      (keys "secvault/gcm/v1") cache_made refl refl (omega arith) (omega arith) alone

close-IsOver_example :
    IsOver primitives coding mem_file checksum print_json
      (close primitives coding mem_file checksum print_json
        (gcm_writer primitives coding mem_file empty derived derived file_id (7 ∷ []))
        (ok nonce)
        (ok random)).0
      (close primitives coding mem_file checksum print_json
        (gcm_writer primitives coding mem_file empty derived derived file_id (7 ∷ []))
        (ok nonce)
        (ok random)).1.0
close-IsOver_example =
    close-IsOver primitives coding mem_file checksum print_json
      (gcm_writer primitives coding mem_file empty derived derived file_id (7 ∷ [])) (ok nonce)
      (ok random)
