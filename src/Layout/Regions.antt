-- ===== src/Layout/Regions.antt =====
-- The blobs of an rs-dual container as regions of the file, by their group and their place in it.
pub mod Groups
pub mod Disjoint
pub mod Tiling
use secvault.Prelude.{
  ℕ, zero, suc, ◌+◌, ◌-◌, ◌*◌, ◌/◌, ◌%◌, ◌≤◌, ◌<◌, min, ◌≡◌, ◌≢◌, ◌⊎◌, inl, inr, refl, ap, sym, ◌∙◌,
  arith, leb, ltb, ◌==◌, if◌then◌else◌, Bool-cases, true, false,
}
use native.Mathlib.Decide.{dec_lt}
use secvault.Layout.{
  Spec, file_group_chunks, file_parity_shards, blob_disk_size, group_count, last_group_chunks,
  data_chunks_in_group, group_span, parity_count_for, group_parity, data_blob_offset,
  parity_blob_offset, total_blob_count,
}

-- The specs that a manifest resolves to: v2 with 64 parity blobs a group, v3 with 1 to 64.
abbrev pub IsSpec : Spec → Type 0
IsSpec s = (2 ≤ s.version) × (1 ≤ s.m2_cap) × (s.m2_cap ≤ file_parity_shards)

pub data Region : Type 0 where
  data_blob : ℕ → Region
  parity_blob : ℕ → ℕ → Region

-- The blobs of a container of `chunk_count` chunks.
abbrev pub IsRegion : Spec → ℕ → Region → Type 0
IsRegion s chunk_count (data_blob i) = i < chunk_count
IsRegion s chunk_count (parity_blob g q) =
    (g < group_count chunk_count) × (q < group_parity s g chunk_count)

abbrev pub region_offset : Spec → ℕ → Region → ℕ
region_offset s chunk_count (data_blob i) = data_blob_offset s i
region_offset s chunk_count (parity_blob g q) =
    parity_blob_offset s g (data_chunks_in_group g chunk_count) q

-- A region by its group and its place in the group.
unfoldable pub region_group : Region → ℕ
region_group (data_blob i) = i / file_group_chunks
region_group (parity_blob g q) = g

unfoldable pub region_place : Spec → ℕ → Region → ℕ
region_place s chunk_count (data_blob i) =
    if leb 3 s.version then i % file_group_chunks else file_parity_shards + i % file_group_chunks
region_place s chunk_count (parity_blob g q) =
    if leb 3 s.version then data_chunks_in_group g chunk_count + q else q

pub region_offset-eq :
    (s : Spec) (chunk_count : ℕ) (r : Region)
    → region_offset s chunk_count r
      ≡ (region_group r * group_span s + region_place s chunk_count r) * blob_disk_size
unfolding region_group region_place data_blob_offset parity_blob_offset
region_offset-eq s chunk_count (data_blob i) = ground arith
region_offset-eq s chunk_count (parity_blob g q) = ground arith
