-- ===== src/Engine/Rebuild.antt =====
-- internal/engine/container.go: the rebuild of whole blobs from the file-level parity of their
-- group. The missing positions are natural numbers, since each is a remainder of an index.
use secvault.Prelude.{
  ℕ, zero, suc, ◌+◌, ◌*◌, ◌/◌, ◌%◌, Bytes, get_or, concat, chunks, map, not, Bool, true, false,
  ◌&&◌, ◌||◌, ◌==◌, ltb, Option, none, some, List, [], ◌∷◌, ◌++◌, if◌then◌else◌,
}
use secvault.Errors.{Result, ok, err}
use secvault.Layout.{
  shards_per_blob, shard_size, slot_size, file_group_chunks, Spec, data_chunks_in_group,
  group_parity, data_blob_offset, parity_blob_offset,
}
use secvault.Crypto.{Primitives}
use secvault.Codec.{Coding, Cache, file}
use secvault.Device.{Device}
use secvault.Engine.Strong.{sized}
use secvault.Engine.Window.{read_window}

unfoldable pub elem : ℕ → List ℕ → Bool
elem i [] = false
elem i (x ∷ xs) = let rest = elem i xs in if i == x then true else rest

-- The positions below n in the set, as len(mset) counts them: each once.
unfoldable pub count_set : ℕ → List ℕ → ℕ
unfolding elem
count_set zero missing = 0
count_set (suc n) missing = count_set n missing + (if elem n missing then 1 else 0)

unfoldable pub all_below : ℕ → List ℕ → Bool
all_below n [] = true
all_below n (x ∷ xs) = ltb x n && all_below n xs

-- A window, or nil where it cannot be read or a tag fails.
abbrev pub window_or_nil : Result (Option Bytes) → Option Bytes
window_or_nil (ok o) = o
window_or_nil (err e) = none

unfoldable pub erasures : List (Option Bytes) → ℕ
erasures [] = 0
erasures (none ∷ views) = suc (erasures views)
erasures (some b ∷ views) = erasures views

abbrev pub or_nil : Option Bytes → Bytes
or_nil none = []
or_nil (some b) = b

abbrev pub both : Option (List Bytes) → Option (List (List Bytes)) → Option (List (List Bytes))
both (some shards) (some windows) = some (shards ∷ windows)
both none windows = none
both (some shards) none = none

-- The blob of a position: its windows joined and cut into payloads. Each window was found to have
-- its size, so the joined blob has the size that is tested at the end.
abbrev pub joined : List (List Bytes) → ℕ → List Bytes
joined windows i =
    chunks shards_per_blob shard_size (concat (map (λ shards. get_or shards i []) windows))

abbrev pub joined_if : Option (List (List Bytes)) → Option (ℕ → List Bytes)
joined_if none = none
joined_if (some windows) = some (joined windows)

module _ (p : Primitives) (c : Coding) (d : Device) where
  open c use {Encoder, reconstruct}
  open d use {Disk}

  -- The views of the data blobs from i on, of one window; nil for the missing ones.
  unfoldable pub data_views : Disk → Spec → ℕ → List ℕ → ℕ → ℕ → ℕ → ℕ → List (Option Bytes)
  unfolding elem
  data_views src spec g missing j0 wc i zero = []
  data_views src spec g missing j0 wc i (suc n) =
      let off = data_blob_offset spec (g * file_group_chunks + i) + j0 * slot_size in
      let view = window_or_nil (read_window p d src off wc) in
      (if elem i missing then none else view) ∷ data_views src spec g missing j0 wc (i + 1) n

  unfoldable pub parity_views : Disk → Spec → ℕ → ℕ → ℕ → ℕ → ℕ → ℕ → List (Option Bytes)
  parity_views src spec g k_data j0 wc q zero = []
  parity_views src spec g k_data j0 wc q (suc n) =
      let off = parity_blob_offset spec g k_data q + j0 * slot_size in
      window_or_nil (read_window p d src off wc) ∷ parity_views src spec g k_data j0 wc (q + 1) n

  abbrev pub rebuilt_sized : ℕ → List ℕ → Result (List Bytes) → Option (List Bytes)
  rebuilt_sized size missing (err e) = none
  rebuilt_sized size missing (ok shards) = if sized shards size missing then some shards else none

  -- One window: all its shards after the reconstruction.
  unfoldable pub rebuild_window :
      Disk → Spec → Encoder → ℕ → ℕ → ℕ → List ℕ → ℕ → ℕ → Option (List Bytes)
  unfolding data_views parity_views erasures sized
  rebuild_window src spec rs g k_data m missing j0 wc =
      let views =
        data_views src spec g missing j0 wc 0 k_data ++ parity_views src spec g k_data j0 wc 0 m in
      if ltb m (erasures views)
      then none
      else rebuilt_sized (wc * shard_size) missing (reconstruct rs (map or_nil views))

  -- The windows of 32 columns from j0 on; 32 divides the number of columns.
  unfoldable pub rebuild_windows :
      Disk → Spec → Encoder → ℕ → ℕ → ℕ → List ℕ → ℕ → ℕ → Option (List (List Bytes))
  unfolding rebuild_window
  rebuild_windows src spec rs g k_data m missing j0 zero = some []
  rebuild_windows src spec rs g k_data m missing j0 (suc n) =
      both (rebuild_window src spec rs g k_data m missing j0 32)
        (rebuild_windows src spec rs g k_data m missing (j0 + 32) n)

  unfoldable pub rebuild_with :
      Disk
      → Spec
      → ℕ
      → ℕ
      → ℕ
      → List ℕ
      → Cache c × Result Encoder
      → Cache c × Option (ℕ → List Bytes)
  unfolding rebuild_windows
  rebuild_with src spec g k_data m missing (codecs, err e) = (codecs, none)
  rebuild_with src spec g k_data m missing (codecs, ok rs) =
      (codecs, joined_if (rebuild_windows src spec rs g k_data m missing 0 12))

  -- (*Container).RebuildMissing: the payloads by position; `none` is the answer false.
  unfoldable pub rebuild_missing :
      Disk → Spec → ℕ → Cache c → ℕ → List ℕ → Cache c × Option (ℕ → List Bytes)
  unfolding count_set all_below rebuild_with
  rebuild_missing src spec chunk_count codecs g missing =
      let k_data = data_chunks_in_group g chunk_count in
      let m = group_parity spec g chunk_count in
      if not (all_below k_data missing)
      then (codecs, none)
      else if count_set k_data missing == 0 || ltb m (count_set k_data missing)
      then (codecs, none)
      else rebuild_with src spec g k_data m missing (file c codecs k_data m)

  abbrev pub at_position : ℕ → Cache c × Option (ℕ → List Bytes) → Cache c × Option (List Bytes)
  at_position i (codecs, none) = (codecs, none)
  at_position i (codecs, some blobs) = (codecs, some (blobs i))

  unfoldable pub rebuild_blob_file_level :
      Disk → Spec → ℕ → Cache c → ℕ → Cache c × Option (List Bytes)
  unfolding rebuild_missing
  rebuild_blob_file_level src spec chunk_count codecs index =
      at_position (index % file_group_chunks) (
        rebuild_missing src spec chunk_count codecs (index / file_group_chunks)
          ((index % file_group_chunks) ∷ []))
