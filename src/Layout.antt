-- ===== src/Layout.antt =====
-- internal/layout/layout.go: the layout constants, and the arithmetic of offsets and blob counts.
-- The numbers of this package are counts and offsets, never negative where the program calls it,
-- and stand as natural numbers; Layout/Bounds is about the range of an int64.
pub mod Regions
pub mod Bounds
pub mod Small
use secvault.Prelude.{
  ℕ, zero, suc, ◌+◌, ◌-◌, ◌*◌, ◌/◌, ◌%◌, min, List, [], ◌∷◌, leb, ◌==◌, if◌then◌else◌,
}

abbrev pub shard_size : ℕ
shard_size = 4096

abbrev pub tag_size : ℕ
tag_size = 16

abbrev pub data_shards : ℕ
data_shards = 256

abbrev pub parity_shards : ℕ
parity_shards = 128

abbrev pub shards_per_blob : ℕ
shards_per_blob = data_shards + parity_shards

abbrev pub header_size : ℕ
header_size = 32

abbrev pub chunk_plain_size : ℕ
chunk_plain_size = data_shards * shard_size - header_size - 16

abbrev pub blob_plain_size : ℕ
blob_plain_size = data_shards * shard_size

abbrev pub slot_size : ℕ
slot_size = shard_size + tag_size

abbrev pub blob_disk_size : ℕ
blob_disk_size = shards_per_blob * slot_size

abbrev pub file_group_chunks : ℕ
file_group_chunks = 128

abbrev pub file_parity_shards : ℕ
file_parity_shards = 64

abbrev pub blobs_per_full_group : ℕ
blobs_per_full_group = file_group_chunks + file_parity_shards

abbrev pub nonce_size : ℕ
nonce_size = 12

abbrev pub master_key_size : ℕ
master_key_size = 32

-- "SVGO"
abbrev pub magic_gcm_only : List ℕ
magic_gcm_only = b'S' ∷ b'V' ∷ b'G' ∷ b'O' ∷ []

abbrev pub gcm_header_size : ℕ
gcm_header_size = 4 + nonce_size

abbrev pub k_strong : ℕ
k_strong = 32

abbrev pub m_strong : ℕ
m_strong = 64

abbrev pub strong_slots : ℕ
strong_slots = k_strong + m_strong

-- The sizes of the two single-blob schemes.
unfoldable pub gcm_only_payload_size : ℕ → ℕ
gcm_only_payload_size plain_size = gcm_header_size + plain_size + tag_size

unfoldable pub gcm_only_size : ℕ → ℕ → ℕ
unfolding gcm_only_payload_size
gcm_only_size plain_size trailer_len = gcm_only_payload_size plain_size + trailer_len

unfoldable pub strong_shard_size : ℕ → ℕ
strong_shard_size plain_size =
    let data_len = header_size + plain_size + tag_size in (data_len + k_strong - 1) / k_strong

unfoldable pub strong_slot_size : ℕ → ℕ
unfolding strong_shard_size
strong_slot_size plain_size = strong_shard_size plain_size + tag_size

unfoldable pub strong_payload_size : ℕ → ℕ
unfolding strong_slot_size
strong_payload_size plain_size = strong_slots * strong_slot_size plain_size

unfoldable pub strong_size : ℕ → ℕ → ℕ
unfolding strong_payload_size
strong_size plain_size trailer_len = strong_payload_size plain_size + trailer_len

-- The groups of the chunks.
unfoldable pub group_count : ℕ → ℕ
group_count chunk_count = if chunk_count == 0 then 0 else (chunk_count - 1) / file_group_chunks + 1

-- chunkCount - (GroupCount - 1) * 128, with the subtraction of the -1 carried out first: no count of
-- chunks makes this difference negative, and it is 128 for none.
unfoldable pub last_group_chunks : ℕ → ℕ
unfolding group_count
last_group_chunks chunk_count =
    chunk_count + file_group_chunks - group_count chunk_count * file_group_chunks

-- The test is g == GroupCount - 1, which holds for no g where there is no group.
unfoldable pub data_chunks_in_group : ℕ → ℕ → ℕ
unfolding group_count last_group_chunks
data_chunks_in_group g chunk_count =
    if g + 1 == group_count chunk_count then last_group_chunks chunk_count else file_group_chunks

pub record Spec : Type 0 where
  pub version : ℕ
  pub m2_cap : ℕ

abbrev pub spec_v2 : Spec
spec_v2 = record { version = 2; m2_cap = file_parity_shards }

abbrev pub spec_v3 : ℕ → Spec
spec_v3 m2_cap = record { version = 3; m2_cap = m2_cap }

unfoldable pub group_span : Spec → ℕ
group_span s = if leb 3 s.version then file_group_chunks + s.m2_cap else blobs_per_full_group

unfoldable pub parity_count_for : Spec → ℕ → ℕ
parity_count_for s k_data = if leb 3 s.version then min s.m2_cap k_data else file_parity_shards

unfoldable pub group_parity : Spec → ℕ → ℕ → ℕ
unfolding parity_count_for
group_parity s g chunk_count = parity_count_for s (data_chunks_in_group g chunk_count)

-- Offsets are natural numbers: the int64 of the program does not wrap for up to 2^40 chunks.
unfoldable pub data_blob_offset : Spec → ℕ → ℕ
unfolding group_span
data_blob_offset s i =
    let g = i / file_group_chunks in
    let base = g * group_span s * blob_disk_size in
    if leb 3 s.version
    then base + i % file_group_chunks * blob_disk_size
    else base + file_parity_shards * blob_disk_size + i % file_group_chunks * blob_disk_size

unfoldable pub parity_blob_offset : Spec → ℕ → ℕ → ℕ → ℕ
unfolding group_span
parity_blob_offset s g k_data q =
    let base = g * group_span s * blob_disk_size in
    if leb 3 s.version
    then base + k_data * blob_disk_size + q * blob_disk_size
    else base + q * blob_disk_size

unfoldable pub total_blob_count : Spec → ℕ → ℕ
unfolding group_span group_count last_group_chunks
total_blob_count s chunk_count =
    let g = group_count chunk_count in
    let k_last = last_group_chunks chunk_count in
    if g == 0
    then 0
    else if leb 3 s.version
    then (g - 1) * group_span s + k_last + min s.m2_cap k_last
    else (g - 1) * group_span s + k_last + file_parity_shards
