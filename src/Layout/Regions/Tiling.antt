-- ===== src/Layout/Regions/Tiling.antt =====
-- The blobs and the slots of the payload before the trailer.
use secvault.Prelude.{
  ℕ, suc, ◌+◌, ◌-◌, ◌*◌, ◌/◌, ◌%◌, ◌≤◌, ◌<◌, ◌≡◌, ◌≢◌, ap, sym, ◌∙◌, arith, leb, ltb, if◌then◌else◌,
}
use native.Mathlib.Decide.{dec_lt}
use secvault.Layout.{
  Spec, file_group_chunks, file_parity_shards, blob_disk_size, group_count, last_group_chunks,
  data_chunks_in_group, group_span, parity_count_for, group_parity, data_blob_offset,
  parity_blob_offset, total_blob_count,
}
use secvault.Layout.Regions.{
  IsSpec, Region, data_blob, parity_blob, IsRegion, region_offset, region_group, region_place,
  region_offset-eq,
}
use secvault.Layout.Regions.Groups.{
  data_chunks_bounds, data_place-lt, data_group-lt, data_index-lt, group_apart,
}

-- The slots of the last group.
last_span : Spec → ℕ → ℕ
last_span s chunk_count =
    last_group_chunks chunk_count + parity_count_for s (last_group_chunks chunk_count)

total_blob_count-eq :
    (s : Spec) (chunk_count h : ℕ)
    → group_count chunk_count ≡ suc h
    → total_blob_count s chunk_count ≡ h * group_span s + last_span s chunk_count
unfolding total_blob_count last_span parity_count_for
total_blob_count-eq s chunk_count h e =
    let k : suc h - 1 ≡ h = omega arith in rw (e, k) (ground arith)

span_pos : (s : Spec) → 0 < group_span s
unfolding group_span
span_pos s = ground arith

split_slot : (t span : ℕ) → 0 < span → (g : ℕ) × (p : ℕ) × (t ≡ g * span + p) × (p < span)
split_slot t span h = (t / span, t % span, grind arith, grind arith)

-- The blob in place `p` of group `g`.
region_at : Spec → ℕ → ℕ → ℕ → Region
region_at s chunk_count g p =
    let k_data = data_chunks_in_group g chunk_count in
    if leb 3 s.version
    then (if ltb p k_data
        then data_blob (g * file_group_chunks + p)
        else parity_blob g (p - k_data))
    else (if ltb p file_parity_shards
        then parity_blob g p
        else data_blob (g * file_group_chunks + (p - file_parity_shards)))

-- The slots in use of group `g`.
group_slots : Spec → ℕ → ℕ → ℕ
group_slots s chunk_count g = data_chunks_in_group g chunk_count + group_parity s g chunk_count

region_at-IsRegion :
    (s : Spec) (chunk_count g p : ℕ)
    → g < group_count chunk_count
    → p < group_slots s chunk_count g
    → IsRegion s chunk_count (region_at s chunk_count g p)
unfolding region_at group_slots group_parity
region_at-IsRegion s chunk_count g p hg hp = ground (
  arith,
  data_index-lt g p chunk_count hg,
  data_index-lt g (p - file_parity_shards) chunk_count hg,
)

region_at-offset :
    (s : Spec) (chunk_count g p : ℕ)
    → g < group_count chunk_count
    → p < group_slots s chunk_count g
    → region_offset s chunk_count (region_at s chunk_count g p)
      ≡ (g * group_span s + p) * blob_disk_size
unfolding region_at group_slots group_parity data_blob_offset parity_blob_offset
region_at-offset s chunk_count g p hg hp = ground (arith, data_chunks_bounds g chunk_count hg)

group_slots_last :
    (s : Spec) (chunk_count h : ℕ)
    → group_count chunk_count ≡ suc h
    → group_slots s chunk_count h ≡ last_span s chunk_count
unfolding group_slots last_span group_parity data_chunks_in_group
group_slots_last s chunk_count h e = ground arith

group_slots_full :
    (s : Spec) (chunk_count g : ℕ)
    → IsSpec s
    → g + 1 ≢ group_count chunk_count
    → group_slots s chunk_count g ≡ group_span s
unfolding group_slots group_parity data_chunks_in_group group_span
group_slots_full s chunk_count g v ne = ground arith

group_slots-le :
    (s : Spec) (chunk_count g : ℕ)
    → IsSpec s
    → g < group_count chunk_count
    → group_slots s chunk_count g ≤ group_span s
unfolding group_slots group_parity group_span
group_slots-le s chunk_count g v h = ground (arith, data_chunks_bounds g chunk_count h)

total_pred :
    (s : Spec) (chunk_count t : ℕ)
    → t < total_blob_count s chunk_count
    → (h : ℕ) × (group_count chunk_count ≡ suc h)
total_pred s chunk_count t lt =
    (group_count chunk_count - 1, unfold total_blob_count in ground arith)

-- A slot below the total lies in a group, at a place that the group uses.
slot_in_group :
    (s : Spec) (chunk_count h g p : ℕ)
    → IsSpec s
    → group_count chunk_count ≡ suc h
    → p < group_span s
    → g * group_span s + p < h * group_span s + group_slots s chunk_count h
    → (g < suc h) × (p < group_slots s chunk_count g)
slot_in_group s chunk_count h g p v e lp lt =
    let small : group_slots s chunk_count h ≤ group_span s =
      group_slots-le s chunk_count h v (omega arith) in
    elim (dec_lt g h) [
      | yes below ↦ (omega arith, rw (group_slots_full s chunk_count g v (omega arith)) lp)
      | no above ↦ elim (dec_lt h g) [
        | yes over ↦ absurd (grind (arith, group_apart (group_span s + 1) h g 0 0))
        | no under ↦
            let same : g ≡ h = omega arith in
            (omega arith, rw same (omega (arith, ap (λ (n : ℕ). n * group_span s) same)))
      ]
    ]

-- The payload has no gap: each slot before the trailer, of the size of a blob, holds a data or a
-- parity blob of the container.
pub regions_cover :
    (s : Spec) (chunk_count t : ℕ)
    → IsSpec s
    → t < total_blob_count s chunk_count
    → (r : Region) × IsRegion s chunk_count r × (region_offset s chunk_count r ≡ t * blob_disk_size)
regions_cover s chunk_count t v lt =
    let (h, e) = total_pred s chunk_count t lt in
    let (g, p, et, lp) = split_slot t (group_span s) (span_pos s) in
    let last = group_slots_last s chunk_count h e in
    let total = total_blob_count-eq s chunk_count h e in
    let (lg, lq) = slot_in_group s chunk_count h g p v e lp (omega arith) in
    let lg' : g < group_count chunk_count = omega arith in
    (
      region_at s chunk_count g p,
      region_at-IsRegion s chunk_count g p lg' lq,
      region_at-offset s chunk_count g p lg' lq ∙ ap (λ (n : ℕ). n * blob_disk_size) (sym et),
    )

region_in_group :
    (s : Spec) (chunk_count : ℕ) (r : Region)
    → IsRegion s chunk_count r
    → (region_group r < group_count chunk_count)
      × (region_place s chunk_count r < group_slots s chunk_count (region_group r))
unfolding region_group region_place group_slots group_parity
region_in_group s chunk_count (data_blob i) h =
    ground (arith, data_place-lt i chunk_count h, data_group-lt i chunk_count h)
region_in_group s chunk_count (parity_blob g q) h = ground arith

group_end :
    (s : Spec) (chunk_count g p : ℕ)
    → IsSpec s
    → g < group_count chunk_count
    → p < group_slots s chunk_count g
    → g * group_span s + p < total_blob_count s chunk_count
group_end s chunk_count g p v lg lp =
    let h = group_count chunk_count - 1 in
    let e : group_count chunk_count ≡ suc h = omega arith in
    let total = total_blob_count-eq s chunk_count h e in
    let last = group_slots_last s chunk_count h e in
    let small = group_slots-le s chunk_count g v lg in
    elim (dec_lt g h) [
      | yes below ↦ omega (arith, group_apart (group_span s) g h p 0 (omega arith) below)
      | no above ↦
          let same : g ≡ h = omega arith in
          let slots = ap (group_slots s chunk_count) same in
          omega (arith, ap (λ (n : ℕ). n * group_span s) same)
    ]

-- Every blob ends at or before the offset where the trailer is written.
pub region_offset-le :
    (s : Spec) (chunk_count : ℕ) (r : Region)
    → IsSpec s
    → IsRegion s chunk_count r
    → region_offset s chunk_count r + blob_disk_size
      ≤ total_blob_count s chunk_count * blob_disk_size
region_offset-le s chunk_count r v h =
    let (lg, lp) = region_in_group s chunk_count r h in
    rw (region_offset-eq s chunk_count r) (omega (arith, group_end s chunk_count _ _ v lg lp))
