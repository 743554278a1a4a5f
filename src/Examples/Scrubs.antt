-- ===== src/Examples/Scrubs.antt =====
-- Verify and Scrub at concrete inputs: a gcm-only container of three bytes.
use secvault.Prelude.{
  ◌≡◌, ◌+◌, ◌^◌, ◌<◌, arith, refl, [], ◌∷◌, ◌++◌, Bytes, length, replicate, ℕ, true, false,
  bytes_equal,
}
use secvault.Errors.{Result, ok}
use secvault.Format.{
  Manifest, build_trailer, scheme_gcm_only, trailer_body, parse_trailer_loop, parse_trailer_at,
  validate_gcm_only, check_gcm_only, check_size,
}
use secvault.Layout.{gcm_only_size, spec_v3, blob_disk_size}
use secvault.Layout.Regions.{Region, IsRegion, region_offset}
use secvault.Device.MemFile.{MemFile, size, read_at, mem_file, mem_file-IsFile}
use secvault.Engine.GcmOnly.{gcm_body}
use secvault.Engine.Container.{Container, open_container}
use secvault.Engine.Stats.{ScrubStats, IsTallied}
use secvault.Engine.Scrub.{scrub as scrub_dual}
use secvault.Engine.Scrub.Reports.{IsReport, scrub-IsReport}
use secvault.Engine.Scrub.Total.{scrub_total}
use secvault.Vault.Scrub.{Options, verify, scrub}
use secvault.Vault.Scrub.Reports.{
  AddsUpIfAny, Reported, InRange, EndsInRange, no_rebuild, verify-AddsUp, scrub-AddsUp,
  verify-scrub_total,
}
use secvault.Examples.Chunks.{container, hurt_file}
use secvault.Vault.Writer.{empty_manifest}
use secvault.Examples.Parameters.{primitives, primitives-IsCrypto, coding}

abbrev key : Bytes
key = replicate 32 5

abbrev nonce : Bytes
nonce = replicate 12 9

abbrev derived : Bytes
derived = replicate 32 32

abbrev manifest : Manifest
manifest = empty_manifest 3 scheme_gcm_only 3

abbrev checksum : Bytes → ℕ
checksum b = length b

abbrev parse_json : Bytes → Result Manifest
parse_json b = ok manifest

abbrev file : MemFile
file = record {
  bytes =
      gcm_body primitives mem_file derived nonce (7 ∷ 8 ∷ 9 ∷ [])
      ++ build_trailer checksum (record {
        version = 3;
        file_id = replicate 16 4;
        nonce = nonce;
        payload = primitives.seal derived nonce (1 ∷ []) [];
      });
  pos = 0;
}

opened :
    (con : Container primitives coding mem_file) × (open_container primitives coding mem_file
        checksum parse_json file key
      ≡ ok con)
    × InRange primitives coding mem_file con
unfolding open_container gcm_body build_trailer replicate size trailer_body read_at
    parse_trailer_loop parse_trailer_at bytes_equal validate_gcm_only check_gcm_only check_size
    gcm_only_size
opened = (_, refl, (omega arith, omega arith, omega arith))

abbrev rebuilding : Options
rebuilding = record { rebuild_parity = true }

verify-scrub_total_example :
    Reported (verify primitives coding mem_file checksum parse_json file key no_rebuild).1
    × Reported (scrub primitives coding mem_file checksum parse_json file key no_rebuild).1
    × EndsInRange primitives coding mem_file opened.0
verify-scrub_total_example =
    verify-scrub_total primitives coding mem_file checksum parse_json primitives-IsCrypto
      mem_file-IsFile file key opened.0 opened.1 opened.2

verify-AddsUp_example :
    AddsUpIfAny (verify primitives coding mem_file checksum parse_json file key rebuilding).1
    × ((verify primitives coding mem_file checksum parse_json file key rebuilding).0 ≡ file)
verify-AddsUp_example =
    verify-AddsUp primitives coding mem_file checksum parse_json file key rebuilding

scrub-AddsUp_example :
    AddsUpIfAny (scrub primitives coding mem_file checksum parse_json file key rebuilding).1
scrub-AddsUp_example =
    scrub-AddsUp primitives coding mem_file checksum parse_json file key rebuilding

-- An rs-dual container of one chunk, with a damaged slot.
scrub_total_example :
    ((st : ScrubStats) × ((scrub_dual primitives coding mem_file true false (container hurt_file)).1
        ≡ ok st)
      × IsTallied st
      × (st.chunks_total ≡ 1))
    × ((r : Region)
        → IsRegion (spec_v3 5) 1 r
        → region_offset (spec_v3 5) 1 r + blob_disk_size < 2 ^ 63)
scrub_total_example =
    scrub_total primitives coding mem_file mem_file-IsFile true (container hurt_file)
      (omega arith, omega arith, omega arith) (omega arith)

scrub-IsReport_example :
    IsReport 1 (scrub_dual primitives coding mem_file false true (container hurt_file)).1
    × (false ≡ false
        → (scrub_dual primitives coding mem_file false true (container hurt_file)).0 ≡ hurt_file)
scrub-IsReport_example = scrub-IsReport primitives coding mem_file false true (container hurt_file)
