-- ===== src/Examples/Theorems.antt =====
-- The theorems at concrete inputs.
use secvault.Prelude.{
  take, ◌-◌, length-replicate, ltb, if◌then◌else◌, ◌↔◌, ℕ, zero, suc, ◌+◌, ◌*◌, ◌%◌, ◌^◌, ◌≤◌, ◌<◌,
  ◌≡◌, ◌≢◌, refl, arith, List, [], ◌∷◌, ◌++◌, Bytes, zeros, length, drop, replicate, All, none,
  true, false, pos, negsuc, ◌⊎◌, inl, inr, bytes_equal, drop-nil, ◌==◌, ==_iff, Bool-cases,
}
use secvault.Errors.{new, ok, err, gcm_only_corrupted, no_manifest, is_error, wrap}
use secvault.Layout.{
  spec_v2, spec_v3, blob_disk_size, total_blob_count, k_strong, m_strong, strong_shard_size,
  gcm_only_size, gcm_only_payload_size, tag_size, group_count, group_parity, parity_count_for,
  data_chunks_in_group, last_group_chunks, group_span,
}
use secvault.Layout.Regions.{Region, data_blob, parity_blob, IsRegion, region_offset}
use secvault.Layout.Regions.Disjoint.{Apart, regions_disjoint}
use secvault.Layout.Regions.Tiling.{regions_cover, region_offset-le}
use secvault.Layout.Bounds.{region_offset-lt}
use secvault.Layout.Small.{strong_shard_size_least}
use secvault.Format.{
  ChunkHeader, marshal, parse_chunk_header, Manifest, validate, Trailer, build_trailer,
  parse_trailer, parse_trailer_at, trailer_body, validate_gcm_only, check_gcm_only, resolve_scheme,
  check_size,
}
use secvault.Format.Header.{parse_chunk_header-marshal}
use secvault.Format.Validate.{validate_other_size}
use secvault.Format.Frame.{IsTrailer, IsFrame, trailer_of}
use secvault.Format.Frame.Scan.{parse_trailer-build_trailer, parse_trailer_sound}
use secvault.Crypto.{verify_tag, shard_tag}
use secvault.Crypto.Tags.{verify_tag_iff}
use secvault.Codec.{Cache, file, IsEncoder}
use secvault.Codec.Files.{IsCache, file_uncached, file_transparent, file_again}
use secvault.Device.MemFile.{read_at, MemFile, mem_file, mem_file-IsFile, empty}
use secvault.Engine.GcmOnly.{open_gcm_only, gcm_header, GcmOnlySink, scrub_gcm_only, load_gcm_only}
use secvault.Engine.GcmOnly.Laws.{load_gcm_only-drain, load_gcm_only_errors, scrub_gcm_only_total}
use secvault.Engine.GcmOnly
use secvault.Engine.Strong
use secvault.Engine.Strong.{StrongSink, load_strong, scrub_strong}
use secvault.Engine.Strong.Damage.{image, IsSized, Damaged}
use secvault.Engine.Strong.Load.{codeword, codeword-All, length-codeword, load_strong-damaged}
use secvault.Engine.Strong.Written.{tagged, load_strong-drain}
use secvault.Engine.Strong.Repair.{stats_of, scrub_strong-damaged}
use secvault.Engine.Stats.{ScrubStats, IsTallied}
use secvault.Layout.{chunk_plain_size}
use secvault.Vault.Reader.{Source, fresh, read_at as read_plain, read_chunk_at}
use secvault.Vault.Reader.Fetch.{IsReader, fresh-IsReader}
use secvault.Vault.Reader.Access.{IsSource, IsAnswer, read_at_lem, read_chunk_at-dual}
use secvault.Examples.Damage.{hurt, hurt-Damaged, hurt-IsSized}
use secvault.Examples.Parameters.{primitives, primitives-IsCrypto, coding, coding-IsEncoder}

-- Layout: 200 chunks of version 3 with 5 parity blobs a group, and of version 2.
parity_there : IsRegion (spec_v3 5) 200 (parity_blob 1 4)
unfolding group_count group_parity parity_count_for data_chunks_in_group last_group_chunks
parity_there = omega arith

slot_there : 70 < total_blob_count spec_v2 200
unfolding total_blob_count group_count last_group_chunks group_span
slot_there = omega arith

regions_disjoint_example :
    Apart
      (region_offset (spec_v3 5) 200 (data_blob 130))
      (region_offset (spec_v3 5) 200 (parity_blob 1 4))
regions_disjoint_example =
    regions_disjoint (spec_v3 5) 200 (data_blob 130) (parity_blob 1 4) (omega arith) (omega arith)
      parity_there (λ e. ground arith)

regions_cover_example :
    (r : Region) × IsRegion spec_v2 200 r × (region_offset spec_v2 200 r ≡ 70 * blob_disk_size)
regions_cover_example = regions_cover spec_v2 200 70 (omega arith) slot_there

region_offset-le_example :
    region_offset (spec_v3 5) 200 (parity_blob 1 4) + blob_disk_size
    ≤ total_blob_count (spec_v3 5) 200 * blob_disk_size
region_offset-le_example =
    region_offset-le (spec_v3 5) 200 (parity_blob 1 4) (omega arith) parity_there

region_offset-lt_example : region_offset (spec_v3 5) 200 (parity_blob 1 4) + blob_disk_size < 2 ^ 63
region_offset-lt_example =
    region_offset-lt (spec_v3 5) 200 (parity_blob 1 4) (omega arith) (omega arith) parity_there

strong_shard_size_least_example :
    (32 + 1000 + tag_size ≤ k_strong * strong_shard_size 1000)
    × (32 + 1000 + tag_size ≤ k_strong * 40 → strong_shard_size 1000 ≤ 40)
strong_shard_size_least_example = strong_shard_size_least 1000 40

-- Format
abbrev nonce : Bytes
nonce = replicate 12 5

abbrev header : ChunkHeader
header = record { index = pos 3; plain_len = negsuc 6; nonce = nonce }

length-nonce : length nonce ≡ 12
unfolding replicate
length-nonce = refl

parse_chunk_header-marshal_example : parse_chunk_header (marshal header ++ (1 ∷ 2 ∷ [])) ≡ ok header
parse_chunk_header-marshal_example =
    parse_chunk_header-marshal header (1 ∷ 2 ∷ [])
      (record { index = omega arith; plain_len = omega arith; nonce = length-nonce })

abbrev gcm_manifest : Manifest
gcm_manifest = record {
  version = pos 3;
  k = pos 0;
  m = pos 0;
  k2 = pos 0;
  m2 = pos 0;
  shard_size = pos 0;
  chunk_plain = pos 0;
  chunk_count = pos 0;
  plain_size = pos 10;
  scheme = "gcm";
  k_strong = pos 0;
  m_strong = pos 0;
}

gcm_accepted : validate gcm_manifest 142 100 ≡ ok tt
unfolding validate validate_gcm_only check_gcm_only gcm_only_size gcm_only_payload_size
    resolve_scheme check_size
gcm_accepted = refl

validate_other_size_example : validate gcm_manifest 141 100 ≡ err no_manifest
validate_other_size_example =
    validate_other_size gcm_manifest 142 141 100 gcm_accepted (omega arith)

abbrev pub checksum : Bytes → ℕ
checksum b = length b % 2 ^ 32

abbrev trailer : Trailer
trailer = record { version = 3; file_id = replicate 16 9; nonce = nonce; payload = replicate 16 7 }

trailer-IsTrailer : IsTrailer trailer
unfolding replicate
trailer-IsTrailer = record {
  version = inr refl;
  file_id = refl;
  nonce = refl;
  payload_min = omega arith;
  payload_max = omega arith;
}

differs : (x : ℕ) → x ≢ b'S' → (x == b'S') ≡ false
differs x h = elim (Bool-cases (x == b'S')) [
  | inl same ↦ absurd (h ((==_iff x b'S').0 same))
  | inr other ↦ other
]

-- No frame begins where no byte is the first one of the magic.
pub no_frame :
    (j : ℕ) (b : Bytes) → All (λ x. x ≢ b'S') b → parse_trailer_at checksum (drop j b) ≡ none
unfolding parse_trailer_at bytes_equal
no_frame j [] h = rw drop-nil refl
no_frame zero (x ∷ b) h = rw (differs x h.0) refl
no_frame (suc j) (x ∷ b) h = no_frame j b h.1

alone : (j : ℕ) → 0 < j → parse_trailer_at checksum (drop j (build_trailer checksum trailer)) ≡ none
unfolding build_trailer trailer_body replicate
alone zero h = absurd (omega arith)
alone (suc j) h = no_frame j (drop 1 (build_trailer checksum trailer)) (omega arith)

trailer_found : parse_trailer checksum ((1 ∷ 2 ∷ []) ++ build_trailer checksum trailer) ≡ ok trailer
trailer_found =
    parse_trailer-build_trailer checksum (1 ∷ 2 ∷ []) trailer (λ b. omega arith) trailer-IsTrailer
      alone

parse_trailer-build_trailer_example :
    parse_trailer checksum ((1 ∷ 2 ∷ []) ++ build_trailer checksum trailer) ≡ ok trailer
parse_trailer-build_trailer_example =
    parse_trailer-build_trailer checksum (1 ∷ 2 ∷ []) trailer (λ b. omega arith) trailer-IsTrailer
      alone

parse_trailer_sound_example :
    (s : ℕ) × (s < length ((1 ∷ 2 ∷ []) ++ build_trailer checksum trailer))
    × IsFrame checksum (drop s ((1 ∷ 2 ∷ []) ++ build_trailer checksum trailer))
    × (trailer_of checksum (drop s ((1 ∷ 2 ∷ []) ++ build_trailer checksum trailer)) ≡ trailer)
    × ((trailer.version ≡ 2) ⊎ (trailer.version ≡ 3))
parse_trailer_sound_example =
    parse_trailer_sound checksum ((1 ∷ 2 ∷ []) ++ build_trailer checksum trailer) trailer
      trailer_found

-- Crypto and the codec cache
verify_tag_iff_example :
    ((verify_tag primitives (4 ∷ 5 ∷ []) (shard_tag primitives (4 ∷ 5 ∷ []))) ≡ true)
    ↔ (shard_tag primitives (4 ∷ 5 ∷ []) ≡ shard_tag primitives (4 ∷ 5 ∷ []))
verify_tag_iff_example =
    verify_tag_iff primitives primitives-IsCrypto (4 ∷ 5 ∷ []) (shard_tag primitives (4 ∷ 5 ∷ []))

abbrev cache : Cache coding
cache = record { intra = (128, 64); strong = (32, 64); files = (70, 64, (70, 64)) ∷ [] }

file_transparent_example :
    ((file coding cache 70 64).1 ≡ file_uncached coding 70 64)
    × IsCache coding (file coding cache 70 64).0
file_transparent_example = file_transparent coding cache 70 64 (refl, tt)

file_again_example : (file coding (file coding cache 5 5).0 70 64).1 ≡ (file coding cache 70 64).1
file_again_example = file_again coding cache 70 64 5 5 (refl, tt)

-- The gcm-only scheme
abbrev text : Bytes
text = 7 ∷ 8 ∷ 9 ∷ []

abbrev key : Bytes
key = replicate 32 1

abbrev gcm_sink : GcmOnlySink primitives mem_file
gcm_sink = record { dst = empty; aead = key; buf = text }

load_gcm_only-drain_example :
    ((GcmOnly.drain primitives mem_file gcm_sink (ok nonce)).1 ≡ ok 3)
    × (load_gcm_only primitives mem_file
          (GcmOnly.drain primitives mem_file gcm_sink (ok nonce)).0
          key
          3
        ≡ ok text)
load_gcm_only-drain_example =
    load_gcm_only-drain primitives primitives-IsCrypto mem_file mem_file-IsFile gcm_sink nonce
      length-nonce

short_file :
    load_gcm_only primitives mem_file empty key 3
    ≡ err (wrap "secvault: gcm-only magic mismatch" gcm_only_corrupted)
unfolding load_gcm_only open_gcm_only gcm_only_payload_size read_at zeros replicate bytes_equal
short_file = refl

load_gcm_only_errors_example :
    is_error (wrap "secvault: gcm-only magic mismatch" gcm_only_corrupted) gcm_only_corrupted ≡ true
load_gcm_only_errors_example =
    load_gcm_only_errors primitives primitives-IsCrypto mem_file mem_file-IsFile empty key 3
      (wrap "secvault: gcm-only magic mismatch" gcm_only_corrupted) short_file

-- The rs-strong scheme
abbrev enc : coding.Encoder
enc = (32, 64)

enc-IsEncoder : IsEncoder coding k_strong m_strong enc
enc-IsEncoder = coding-IsEncoder 32 64 (omega arith)

abbrev strong_sink : StrongSink primitives coding mem_file
strong_sink = record { dst = empty; aead = key; strong = enc; buf = text }

small : length text < 2 ^ 63
small = omega arith

load_strong-drain_example :
    ((Strong.drain primitives coding mem_file strong_sink (ok nonce)).1 ≡ ok 3)
    × (load_strong primitives coding mem_file
          (Strong.drain primitives coding mem_file strong_sink (ok nonce)).0
          key
          enc
          3
        ≡ ok text)
load_strong-drain_example =
    load_strong-drain primitives coding mem_file primitives-IsCrypto mem_file-IsFile strong_sink
      enc-IsEncoder nonce length-nonce small

shards : List Bytes
shards =
    codeword primitives coding mem_file primitives-IsCrypto enc enc-IsEncoder key nonce text
      length-nonce small

hurt_file : MemFile
hurt_file = record { bytes = image (hurt shards) ++ text; pos = 0 }

shards-hurt : Damaged primitives shards (hurt shards) 1
unfolding shards
shards-hurt = hurt-Damaged shards (
    omega (
      arith,
      length-codeword primitives coding mem_file primitives-IsCrypto enc enc-IsEncoder key nonce
          text length-nonce small,
    ))

shards-IsSized : IsSized (strong_shard_size 3) (hurt shards)
unfolding shards
shards-IsSized = hurt-IsSized (strong_shard_size 3) shards (
    codeword-All primitives coding mem_file primitives-IsCrypto enc enc-IsEncoder key nonce text
      length-nonce small)

load_strong-damaged_example : load_strong primitives coding mem_file hurt_file key enc 3 ≡ ok text
unfolding shards hurt_file
load_strong-damaged_example =
    load_strong-damaged primitives coding mem_file primitives-IsCrypto enc enc-IsEncoder key nonce
      text length-nonce small (hurt shards) 1 shards-hurt shards-IsSized mem_file-IsFile hurt_file
      text refl

scrub_strong-damaged_example :
    ((scrub_strong primitives coding mem_file true hurt_file key enc 3).1 ≡ ok (stats_of 1))
    × (mem_file.contents (scrub_strong primitives coding mem_file true hurt_file key enc 3).0
        ≡ image (tagged primitives primitives-IsCrypto shards) ++ text)
unfolding shards hurt_file
scrub_strong-damaged_example =
    scrub_strong-damaged primitives coding mem_file primitives-IsCrypto mem_file-IsFile enc
      enc-IsEncoder key nonce text length-nonce small (hurt shards) 1 hurt_file text true
      shards-hurt shards-IsSized refl

scrub_gcm_only_total_example :
    (st : ScrubStats) × (scrub_gcm_only primitives mem_file empty key 3 ≡ ok st)
    × IsTallied st
    × (st.chunks_clean
        ≡ (elim (load_gcm_only primitives mem_file empty key 3) [ ok plain ↦ 1 | err e ↦ 0 ]))
scrub_gcm_only_total_example =
    scrub_gcm_only_total primitives primitives-IsCrypto mem_file mem_file-IsFile empty key 3

-- The reader, on a container of three chunks of which the last holds three bytes.
abbrev long_text : Bytes
long_text = replicate (2 * chunk_plain_size + 3) 7

abbrev source : Source
source = record {
  scheme = "rs-dual";
  plain_size = length long_text;
  chunk_count = 3;
  load_chunk = λ i. ok (take chunk_plain_size (drop (i * chunk_plain_size) long_text));
  load_all = err no_manifest;
}

source-IsSource : IsSource source long_text
source-IsSource = record {
  plain_size = refl;
  whole = λ e. cc;
  room = λ e. omega (arith, length-replicate {A = ℕ} (2 * chunk_plain_size + 3) 7);
  chunk = λ e i lt. refl;
}

read_at_lem_example :
    IsAnswer source long_text
      (read_plain source fresh 10 (pos (chunk_plain_size - 5)))
      10
      (chunk_plain_size - 5)
read_at_lem_example =
    read_at_lem source long_text fresh 10 (chunk_plain_size - 5) source-IsSource
      (fresh-IsReader source)

read_chunk_at-dual_example :
    ((read_chunk_at source fresh (pos 1) []).1 ≡ (
      if ltb 1 3
      then ok (take chunk_plain_size (drop (1 * chunk_plain_size) long_text))
      else err (new "index out of range")))
    × IsReader source (read_chunk_at source fresh (pos 1) []).0
read_chunk_at-dual_example =
    read_chunk_at-dual source long_text fresh 1 [] source-IsSource (fresh-IsReader source) refl
