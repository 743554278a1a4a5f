-- ===== src/Layout/Regions/Disjoint.antt =====
-- Two blobs and the bytes between their offsets.
use secvault.Prelude.{ℕ, ◌+◌, ◌*◌, ◌≤◌, ◌<◌, ◌≡◌, ◌≢◌, ◌⊎◌, ap, arith}
use secvault.Layout.{Spec, blob_disk_size, group_span, group_parity}
use secvault.Layout.Regions.{
  IsSpec, Region, data_blob, parity_blob, IsRegion, region_offset, region_group, region_place,
  region_offset-eq,
}
use secvault.Layout.Regions.Groups.{data_chunks_bounds, data_place-lt, group_apart}

pub region_place-lt :
    (s : Spec) (chunk_count : ℕ) (r : Region)
    → IsSpec s
    → IsRegion s chunk_count r
    → region_place s chunk_count r < group_span s
unfolding region_place group_span group_parity
region_place-lt s chunk_count (data_blob i) v h = ground arith
region_place-lt s chunk_count (parity_blob g q) v h =
    ground (arith, data_chunks_bounds g chunk_count h.0)

-- Two regions in one group and one place are one.
pub region_injective :
    (s : Spec) (chunk_count : ℕ) (r t : Region)
    → IsRegion s chunk_count r
    → IsRegion s chunk_count t
    → region_group r ≡ region_group t
    → region_place s chunk_count r ≡ region_place s chunk_count t
    → r ≡ t
unfolding region_group region_place group_parity
region_injective s chunk_count (data_blob i) (data_blob j) hr ht eg ep =
    let e : i ≡ j = ground arith in ap data_blob e
region_injective s chunk_count (data_blob i) (parity_blob g q) hr ht eg ep =
    absurd (ground (arith, data_place-lt i chunk_count hr))
region_injective s chunk_count (parity_blob g q) (data_blob i) hr ht eg ep =
    absurd (ground (arith, data_place-lt i chunk_count ht))
region_injective s chunk_count (parity_blob g q) (parity_blob f p) hr ht eg ep = ground arith

abbrev pub Apart : ℕ → ℕ → Type 0
Apart a b = (a + blob_disk_size ≤ b) ⊎ (b + blob_disk_size ≤ a)

slots-Apart : (n m : ℕ) → n ≢ m → Apart (n * blob_disk_size) (m * blob_disk_size)
slots-Apart n m h = omega arith

pub slot_unique :
    (span g h a b : ℕ) → a < span → b < span → g * span + a ≡ h * span + b → (g ≡ h) × (a ≡ b)
slot_unique span g h a b la lb e = grind (arith, group_apart span g h a b, group_apart span h g b a)

-- Two different blobs of a container, data or parity, of either version, never share a byte: the
-- regions of the file at their offsets lie one wholly before the other.
pub regions_disjoint :
    (s : Spec) (chunk_count : ℕ) (r t : Region)
    → IsSpec s
    → IsRegion s chunk_count r
    → IsRegion s chunk_count t
    → r ≢ t
    → Apart (region_offset s chunk_count r) (region_offset s chunk_count t)
regions_disjoint s chunk_count r t v hr ht ne =
    rw (region_offset-eq s chunk_count r, region_offset-eq s chunk_count t)
      (slots-Apart _ _ λ e.
        let (eg, ep) =
          slot_unique (group_span s) (region_group r) (region_group t)
            (region_place s chunk_count r) (region_place s chunk_count t)
            (region_place-lt s chunk_count r v hr) (region_place-lt s chunk_count t v ht) e in
        ne (region_injective s chunk_count r t hr ht eg ep))
