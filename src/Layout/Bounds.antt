-- ===== src/Layout/Bounds.antt =====
-- The offsets of the layout and the range of an int64.
use secvault.Prelude.{ℕ, ◌+◌, ◌-◌, ◌*◌, ◌^◌, ◌≤◌, ◌<◌, arith}
use secvault.Layout.{
  Spec, blob_disk_size, file_parity_shards, group_count, group_span, total_blob_count,
  strong_shard_size, strong_slot_size, strong_payload_size, gcm_only_payload_size,
}
use secvault.Layout.Regions.{IsSpec, Region, IsRegion, region_offset}
use secvault.Layout.Regions.Tiling.{region_offset-le}

-- At most 2^40 chunks, a million terabytes of plaintext.
abbrev pub max_chunks : ℕ
max_chunks = 2 ^ 40

span_le : (s : Spec) → s.m2_cap ≤ file_parity_shards → group_span s ≤ 192
unfolding group_span
span_le s v = ground arith

mul_le : (h n : ℕ) → n ≤ 192 → h * n ≤ h * 192
mul_le h n l = grind arith

total_le :
    (s : Spec) (chunk_count : ℕ)
    → s.m2_cap ≤ file_parity_shards
    → total_blob_count s chunk_count ≤ 3 * (chunk_count + 128)
unfolding total_blob_count
total_le s chunk_count v =
    ground (arith, mul_le (group_count chunk_count - 1) (group_span s) (span_le s v))

-- With at most 2^40 chunks no blob of either version reaches past the largest int64, so the offsets
-- that the program computes in int64 do not wrap.
pub region_offset-lt :
    (s : Spec) (chunk_count : ℕ) (r : Region)
    → IsSpec s
    → chunk_count ≤ max_chunks
    → IsRegion s chunk_count r
    → region_offset s chunk_count r + blob_disk_size < 2 ^ 63
region_offset-lt s chunk_count r v h hr =
    omega (arith, region_offset-le s chunk_count r v hr, total_le s chunk_count v.2)

-- The three sizes of what stands before a trailer, below the largest int64.
pub strong_payload_size-lt : (n : ℕ) → n < 2 ^ 60 → strong_payload_size n < 2 ^ 62
unfolding strong_payload_size strong_slot_size strong_shard_size
strong_payload_size-lt n h = omega arith

pub gcm_only_payload_size-lt : (n : ℕ) → n < 2 ^ 60 → gcm_only_payload_size n < 2 ^ 62
unfolding gcm_only_payload_size
gcm_only_payload_size-lt n h = omega arith

pub total_blob_count-lt :
    (s : Spec) (chunk_count : ℕ)
    → s.m2_cap ≤ file_parity_shards
    → chunk_count ≤ max_chunks
    → total_blob_count s chunk_count * blob_disk_size < 2 ^ 63
total_blob_count-lt s chunk_count v h = omega (arith, total_le s chunk_count v)
