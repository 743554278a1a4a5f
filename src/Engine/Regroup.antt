-- ===== src/Engine/Regroup.antt =====
-- internal/engine/scrub.go, the second pass of Scrub: the chunks that wait are grouped, and each
-- group is rebuilt from its parity.
pub mod Tally
use secvault.Prelude.{
  ℕ, zero, suc, ◌+◌, ◌*◌, ◌/◌, ◌%◌, ◌++◌, Bytes, map, concat, Bool, true, false, leb, ◌==◌, Option,
  none, some, List, [], ◌∷◌, if◌then◌else◌, pos_part,
}
use secvault.Errors.{Error, Result, ok, err}
use secvault.Layout.{file_group_chunks, data_blob_offset}
use secvault.Crypto.{Primitives}
use secvault.Codec.{Coding, Cache}
use secvault.Device.{Device}
use secvault.Engine.Strong.{slot}
use secvault.Engine.Rebuild.{rebuild_missing}
use secvault.Engine.Container.{Container, decode_chunk}
use secvault.Engine.Sweep.{ScrubState, lose, with_disk}

-- byGroup[g] = append(byGroup[g], pos), on the map as a list of its entries.
unfoldable pub add_to_group : ℕ → ℕ → List (ℕ × List ℕ) → List (ℕ × List ℕ)
add_to_group g pos [] = (g, pos ∷ []) ∷ []
add_to_group g pos ((h, positions) ∷ groups) =
    let rest = add_to_group g pos groups in
    if h == g then (h, positions ++ (pos ∷ [])) ∷ groups else (h, positions) ∷ rest

unfoldable pub by_group : List ℕ → List (ℕ × List ℕ) → List (ℕ × List ℕ)
unfolding add_to_group
by_group [] groups = groups
by_group (idx ∷ need_file) groups =
    by_group need_file (add_to_group (idx / file_group_chunks) (idx % file_group_chunks) groups)

-- sort.Slice by the position, and by the group
unfoldable pub insert_position : ℕ → List ℕ → List ℕ
insert_position x [] = x ∷ []
insert_position x (y ∷ ys) =
    let rest = insert_position x ys in if leb x y then x ∷ y ∷ ys else y ∷ rest

unfoldable pub sort_positions : List ℕ → List ℕ
unfolding insert_position
sort_positions [] = []
sort_positions (x ∷ xs) = insert_position x (sort_positions xs)

unfoldable pub insert_group : ℕ × List ℕ → List (ℕ × List ℕ) → List (ℕ × List ℕ)
insert_group (g, positions) [] = (g, positions) ∷ []
insert_group (g, positions) ((h, others) ∷ groups) =
    let rest = insert_group (g, positions) groups in
    if leb g h then (g, positions) ∷ (h, others) ∷ groups else (h, others) ∷ rest

unfoldable pub sort_groups : List (ℕ × List ℕ) → List (ℕ × List ℕ)
unfolding insert_group
sort_groups [] = []
sort_groups (g ∷ groups) = insert_group g (sort_groups groups)

module _ (p : Primitives) (c : Coding) (d : Device) where
  open d use {Disk, write_at}

  -- The chunk is lost, in the report and in lostSet.
  abbrev pub lose_chunk : ScrubState p c d → ℕ → ScrubState p c d
  lose_chunk s idx = record s { rep = lose s.rep idx; lost_set = idx ∷ s.lost_set }

  abbrev pub lose_all : ℕ → List ℕ → ScrubState p c d → ScrubState p c d
  lose_all g [] s = s
  lose_all g (i ∷ positions) s = lose_all g positions (lose_chunk s (g * file_group_chunks + i))

  -- The 384 slots of a blob, each payload with its tag.
  abbrev pub blob_image : List Bytes → Bytes
  blob_image payloads = concat (map (slot p) payloads)

  -- A chunk that was rebuilt, after its decoding.
  unfoldable pub settle_rebuilt :
      Bool
      → Container p c d
      → ScrubState p c d
      → ℕ
      → List Bytes
      → Result Bytes
      → ScrubState p c d × Option Error
  unfolding slot
  settle_rebuilt repair con s idx payloads (err e) = (lose_chunk s idx, none)
  settle_rebuilt repair con s idx payloads (ok plain) =
      let rebuilt = record s { rep = record s.rep { chunks_rebuilt = s.rep.chunks_rebuilt + 1 } } in
      if repair
      then with_disk p c d rebuilt
          (write_at s.disk (data_blob_offset con.spec idx) (blob_image payloads))
      else (rebuilt, none)

  unfoldable pub rebuild_positions :
      Bool
      → Container p c d
      → ℕ
      → (ℕ → List Bytes)
      → List ℕ
      → ScrubState p c d
      → ScrubState p c d × Option Error
  unfolding settle_rebuilt decode_chunk
  rebuild_positions repair con g blobs [] s = (s, none)
  rebuild_positions repair con g blobs (i ∷ positions) s =
      let idx = g * file_group_chunks + i in
      let settled =
        settle_rebuilt repair con s idx (blobs i) (decode_chunk p c d con.aead idx (blobs i)) in
      let rest = rebuild_positions repair con g blobs positions settled.0 in
      elim settled.1 [ none ↦ rest | some e ↦ (settled.0, some e) ]

  -- What follows the call of RebuildMissing.
  unfoldable pub settle_group :
      Bool
      → Container p c d
      → ℕ
      → List ℕ
      → ScrubState p c d
      → Cache c × Option (ℕ → List Bytes)
      → ScrubState p c d × Option Error
  unfolding rebuild_positions
  settle_group repair con g positions s (codecs, none) =
      (lose_all g positions (record s { codecs = codecs }), none)
  settle_group repair con g positions s (codecs, some blobs) =
      rebuild_positions repair con g blobs positions (record s { codecs = codecs })

  -- The loop over the sorted groups.
  unfoldable pub rebuild_groups :
      Bool
      → Container p c d
      → List (ℕ × List ℕ)
      → ScrubState p c d
      → ScrubState p c d × Option Error
  unfolding settle_group rebuild_missing sort_positions
  rebuild_groups repair con [] s = (s, none)
  rebuild_groups repair con ((g, unsorted) ∷ groups) s =
      let positions = sort_positions unsorted in
      let settled = settle_group repair con g positions s (
        rebuild_missing p c d s.disk con.spec (pos_part con.man.chunk_count) s.codecs g
          positions) in
      let rest = rebuild_groups repair con groups settled.0 in
      elim settled.1 [ none ↦ rest | some e ↦ (settled.0, some e) ]

  unfoldable pub regroup :
      Bool → Container p c d → ScrubState p c d → ScrubState p c d × Option Error
  unfolding rebuild_groups sort_groups by_group
  regroup repair con s = rebuild_groups repair con (sort_groups (by_group s.need_file [])) s
