-- ===== src/Format.antt =====
-- internal/format/format.go: the 32-byte chunk header, the manifest and its validation, the trailer.
-- encoding/json and hash/crc32 are not part of the repository: the checksum is a parameter of the
-- trailer functions.
pub mod Header
pub mod Validate
pub mod Frame
use secvault.Prelude.{
  ℕ, zero, suc, ◌+◌, ◌-◌, ◌*◌, ◌%◌, ◌==◌, ◌&&◌, ltb_ℤ, ◌==ℤ◌, pos_part, put_uint32, get_or, take,
  drop, Option, none, some, ◌≤◌, ◌<◌, List, [], ◌∷◌, ◌++◌, Bytes, zeros, copy, copy_at, slice,
  length, ℤ, pos, int64, uint64, put_uint64, big_endian, bytes_equal, ltb, not, ◌||◌, Bool, String,
  if◌then◌else◌,
}
use text.Mathlib.Text.{◌==◌ as str_eq}
use secvault.Errors.{Result, ok, err, new, unsupported_format, no_manifest, reject_if, ◌>>=◌, ◌>>◌}
use secvault.Layout.{
  header_size, Spec, spec_v2, spec_v3, data_shards, parity_shards, file_group_chunks,
  file_parity_shards, chunk_plain_size, blob_disk_size, total_blob_count, gcm_only_size,
  strong_shard_size, strong_size, shard_size as layout_shard_size, k_strong as layout_k_strong,
  m_strong as layout_m_strong,
}

abbrev pub format_version : ℕ
format_version = 2

abbrev pub format_version_v3 : ℕ
format_version_v3 = 3

-- "SVLT"
abbrev pub magic_trailer : Bytes
magic_trailer = b'S' ∷ b'V' ∷ b'L' ∷ b'T' ∷ []

-- "SVC1"
abbrev pub magic_chunk : Bytes
magic_chunk = b'S' ∷ b'V' ∷ b'C' ∷ b'1' ∷ []

abbrev pub file_id_size : ℕ
file_id_size = 16

abbrev pub trailer_fixed : ℕ
trailer_fixed = 40

pub record ChunkHeader : Type 0 where
  pub index : ℤ
  pub plain_len : ℤ
  pub nonce : Bytes

-- (*ChunkHeader).Marshal
unfoldable pub marshal : ChunkHeader → Bytes
unfolding zeros
marshal h =
    let b0 = copy (zeros header_size) magic_chunk in
    let b1 = copy_at 4 b0 (put_uint64 (uint64 h.index)) in
    let b2 = copy_at 12 b1 (put_uint64 (uint64 h.plain_len)) in copy_at 20 b2 h.nonce

unfoldable pub parse_chunk_header : Bytes → Result ChunkHeader
unfolding bytes_equal
parse_chunk_header b = do
  reject_if (ltb (length b) header_size || not (bytes_equal (slice 0 4 b) magic_chunk))
      (new "chunk header magic mismatch")
  ok (record {
    index = int64 (big_endian (slice 4 12 b));
    plain_len = int64 (big_endian (slice 12 20 b));
    nonce = slice 20 32 b;
  })

pub record Manifest : Type 0 where
  pub version : ℤ
  pub k : ℤ
  pub m : ℤ
  pub k2 : ℤ
  pub m2 : ℤ
  pub shard_size : ℤ
  pub chunk_plain : ℤ
  pub chunk_count : ℤ
  pub plain_size : ℤ
  pub scheme : String
  pub k_strong : ℤ
  pub m_strong : ℤ

-- The schemes are texts in the program too.
abbrev pub scheme_rs_dual : String
scheme_rs_dual = "rs-dual"

abbrev pub scheme_gcm_only : String
scheme_gcm_only = "gcm"

abbrev pub scheme_rs_strong : String
scheme_rs_strong = "rs-strong"

unfoldable pub resolve_scheme : Manifest → String
resolve_scheme man = if str_eq man.scheme "" then scheme_rs_dual else man.scheme

-- The version test reads a signed number; M2 is at least 0 wherever the spec is resolved.
unfoldable pub resolve_spec : Manifest → Spec
resolve_spec man =
    if ltb_ℤ man.version (pos format_version_v3) then spec_v2 else spec_v3 (pos_part man.m2)

abbrev differs : ℤ → ℕ → Bool
differs z n = not (z ==ℤ pos n)

-- `if expect != size { return ErrNoManifest }`, with the expected size as the program's int64 has it.
unfoldable pub check_size : ℕ → ℕ → Result (Unit {0})
check_size expect size = reject_if (not (int64 expect ==ℤ pos size)) no_manifest

-- What validateRSDual tests before the size. The bounds of the plain size are products in int64.
unfoldable pub check_rs_dual : Manifest → Result (Unit {0})
check_rs_dual man =
    let chunks = pos_part man.chunk_count in
    do
      reject_if
          (differs man.version format_version && differs man.version format_version_v3
            || (differs man.k data_shards
                || differs man.m parity_shards
                || (differs man.k2 file_group_chunks
                    || differs man.shard_size layout_shard_size
                    || differs man.chunk_plain chunk_plain_size)))
          unsupported_format
      reject_if
          (differs man.m2 file_parity_shards
            && (differs man.version format_version_v3
                || ltb_ℤ man.m2 (pos 1)
                || ltb_ℤ (pos file_parity_shards) man.m2))
          unsupported_format
      reject_if (ltb_ℤ man.chunk_count (pos 0) || ltb_ℤ man.plain_size (pos 0)) unsupported_format
      reject_if (man.chunk_count ==ℤ pos 0 && differs man.plain_size 0) unsupported_format
      reject_if
          (ltb_ℤ (pos 0) man.chunk_count
            && (ltb_ℤ man.plain_size (int64 ((chunks - 1) * chunk_plain_size + 1))
                || ltb_ℤ (int64 (chunks * chunk_plain_size)) man.plain_size))
          unsupported_format

unfoldable pub validate_rs_dual : Manifest → ℕ → ℕ → Result (Unit {0})
validate_rs_dual man size trailer_len =
    check_rs_dual man
    >> check_size
        (total_blob_count (resolve_spec man) (pos_part man.chunk_count) * blob_disk_size
          + trailer_len)
        size

unfoldable pub check_gcm_only : Manifest → Result (Unit {0})
check_gcm_only man = do
  reject_if (differs man.version format_version_v3) unsupported_format
  reject_if
      (differs man.k 0
        || differs man.m 0
        || (differs man.k2 0 || differs man.m2 0)
        || (differs man.shard_size 0 || differs man.chunk_plain 0 || differs man.chunk_count 0)
        || (differs man.k_strong 0 || differs man.m_strong 0))
      unsupported_format
  reject_if (ltb_ℤ man.plain_size (pos 0)) unsupported_format

unfoldable pub validate_gcm_only : Manifest → ℕ → ℕ → Result (Unit {0})
validate_gcm_only man size trailer_len =
    check_gcm_only man >> check_size (gcm_only_size (pos_part man.plain_size) trailer_len) size

-- The shard size is computed with no wrap-around, which a plain size below 2^63 - 79 does not reach.
unfoldable pub check_rs_strong : Manifest → Result (Unit {0})
check_rs_strong man = do
  reject_if (differs man.version format_version_v3) unsupported_format
  reject_if
      (differs man.k layout_k_strong
        || differs man.m layout_m_strong
        || (differs man.k_strong layout_k_strong || differs man.m_strong layout_m_strong))
      unsupported_format
  reject_if
      (differs man.k2 0
        || differs man.m2 0
        || (differs man.chunk_plain 0 || differs man.chunk_count 0))
      unsupported_format
  reject_if (ltb_ℤ man.plain_size (pos 0)) unsupported_format
  reject_if (differs man.shard_size (strong_shard_size (pos_part man.plain_size)))
      unsupported_format

unfoldable pub validate_rs_strong : Manifest → ℕ → ℕ → Result (Unit {0})
validate_rs_strong man size trailer_len =
    check_rs_strong man >> check_size (strong_size (pos_part man.plain_size) trailer_len) size

unfoldable pub validate : Manifest → ℕ → ℕ → Result (Unit {0})
validate man size trailer_len =
    let scheme = resolve_scheme man in
    if str_eq scheme scheme_gcm_only
    then validate_gcm_only man size trailer_len
    else if str_eq scheme scheme_rs_strong
    then validate_rs_strong man size trailer_len
    else if str_eq scheme scheme_rs_dual
    then validate_rs_dual man size trailer_len
    else err unsupported_format

pub record Trailer : Type 0 where
  pub version : ℕ
  pub file_id : Bytes
  pub nonce : Bytes
  pub payload : Bytes

-- crc32.Checksum over the Castagnoli table.
module _ (checksum : Bytes → ℕ) where
  -- What BuildTrailer writes before the checksum.
  unfoldable pub trailer_body : Trailer → Bytes
  trailer_body t =
      magic_trailer
      ++ ((t.version % 256)
          ∷ 0
          ∷ 0
          ∷ 0
          ∷ (t.file_id ++ (t.nonce ++ (put_uint32 (length t.payload) ++ t.payload))))

  unfoldable pub build_trailer : Trailer → Bytes
  build_trailer t = let out = trailer_body t in out ++ put_uint32 (checksum out)

  -- One round of ParseTrailer's loop, at the bytes tail[i:]: `none` is `continue`.
  unfoldable pub parse_trailer_at : Bytes → Option (Result Trailer)
  parse_trailer_at b =
      let l = big_endian (slice 36 40 b) in
      let body_len = length b - 4 in
      let version = get_or b 4 0 in
      if not (bytes_equal (take 4 b) magic_trailer)
      then none
      else if ltb (length b) trailer_fixed
      then none
      else if not (trailer_fixed + l + 4 == length b) || ltb l 16
      then none
      else if not (checksum (take body_len b) == big_endian (drop body_len b))
      then none
      else if not (version == format_version) && not (version == format_version_v3)
      then some (err (new "secvault: format version unsupported"))
      else some (
          ok (record {
            version = version;
            file_id = slice 8 24 b;
            nonce = slice 24 36 b;
            payload = slice 40 body_len b;
          }))

  -- The rounds from i = n - 1 down to 0.
  unfoldable pub parse_trailer_loop : ℕ → Bytes → Result Trailer
  parse_trailer_loop zero tail = err no_manifest
  parse_trailer_loop (suc i) tail =
      let rest = parse_trailer_loop i tail in
      elim (parse_trailer_at (drop i tail)) [ none ↦ rest | some r ↦ r ]

  -- The first round is i = len(tail) - 4, and a shorter tail has none.
  unfoldable pub parse_trailer : Bytes → Result Trailer
  parse_trailer tail = parse_trailer_loop (length tail + 1 - 4) tail
