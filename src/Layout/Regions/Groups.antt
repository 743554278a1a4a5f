-- ===== src/Layout/Regions/Groups.antt =====
-- The arithmetic of groups: how many chunks each has, and where a chunk stands in its group.
use secvault.Prelude.{ℕ, ◌+◌, ◌*◌, ◌/◌, ◌%◌, ◌≤◌, ◌<◌, arith}
use secvault.Layout.{file_group_chunks, group_count, data_chunks_in_group}

pub group_count_bounds :
    (chunk_count g : ℕ)
    → (chunk_count ≤ group_count chunk_count * file_group_chunks)
      × (g < group_count chunk_count → g * file_group_chunks < chunk_count)
unfolding group_count
group_count_bounds chunk_count g = ground arith

-- The chunks of a group: 1 to 128 of them, and all that its number leaves for it.
pub data_chunks_bounds :
    (g chunk_count : ℕ)
    → g < group_count chunk_count
    → (1 ≤ data_chunks_in_group g chunk_count)
      × (data_chunks_in_group g chunk_count ≤ file_group_chunks)
unfolding data_chunks_in_group
data_chunks_bounds g chunk_count h = unfold group_count in ground arith

-- A chunk number is one of the data chunks of its group.
pub data_place-lt :
    (i chunk_count : ℕ)
    → i < chunk_count
    → i % file_group_chunks < data_chunks_in_group (i / file_group_chunks) chunk_count
unfolding data_chunks_in_group
data_place-lt i chunk_count h = ground arith

pub data_group-lt :
    (i chunk_count : ℕ) → i < chunk_count → i / file_group_chunks < group_count chunk_count
unfolding group_count
data_group-lt i chunk_count h = ground arith

pub group_apart : (span g h a b : ℕ) → a < span → g < h → g * span + a < h * span + b
group_apart span g h a b la lt = grind arith

pub data_index-lt :
    (g p chunk_count : ℕ)
    → g < group_count chunk_count
    → p < data_chunks_in_group g chunk_count
    → g * file_group_chunks + p < chunk_count
unfolding data_chunks_in_group
data_index-lt g p chunk_count h k = unfold group_count in ground arith
