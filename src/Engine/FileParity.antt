-- ===== src/Engine/FileParity.antt =====
-- internal/engine/scrub.go, the third pass of Scrub: rebuildFileParity computes the parity blobs of
-- each group anew and corrects the slots that differ.
pub mod Tally
use secvault.Prelude.{
  ℕ, zero, suc, ◌+◌, ◌*◌, ◌++◌, Bytes, zeros, length, take, drop, slice, get_or, replicate,
  bytes_equal, not, Bool, true, false, ◌||◌, Option, none, some, List, [], ◌∷◌, if◌then◌else◌,
  pos_part,
}
use secvault.Errors.{Error, Result, ok, err, eof, ◌>>=◌}
use secvault.Layout.{
  file_group_chunks, shard_size, slot_size, Spec, group_count, data_chunks_in_group, group_parity,
  data_blob_offset, parity_blob_offset,
}
use secvault.Crypto.{Primitives, verify_tag}
use secvault.Codec.{Coding, Cache, file}
use secvault.Device.{Device}
use secvault.Engine.Strong.{new_slot}
use secvault.Engine.Rebuild.{elem}
use secvault.Engine.Window.{read_window}
use secvault.Engine.Container.{Container}
use secvault.Engine.Sweep.{ScrubState}

-- How a step ends: the loops go on, the function returns nil, or it returns an error.
pub data Flow : Type 0 where
  go_on stop : Flow
  fail : Error → Flow

-- Some position of the group below k_data is in lostSet.
unfoldable pub has_lost : List ℕ → ℕ → ℕ → Bool
unfolding elem
has_lost lost_set g zero = false
has_lost lost_set g (suc n) = has_lost lost_set g n || elem (g * file_group_chunks + n) lost_set

-- The buffer after a ReadAt that may be short: what was not read stays.
abbrev pub buffer_read : Bytes → Bytes × Option Error → Result Bytes
buffer_read raw (got, none) = ok (got ++ drop (length got) raw)
buffer_read raw (got, some eof) = ok (got ++ drop (length got) raw)
buffer_read raw (got, some e) = err e

-- A column in front of the later ones; `none` where some column cannot be used.
abbrev pub with_column : Option Bytes → Result (Option (List Bytes)) → Result (Option (List Bytes))
with_column none rest = ok none
with_column (some b) (ok (some columns)) = ok (some (b ∷ columns))
with_column (some b) (ok none) = ok none
with_column (some b) (err e) = err e

module _ (p : Primitives) (c : Coding) (d : Device) where
  open c use {Encoder, encode}
  open d use {Disk, read_at, write_at}

  -- A step, and what follows it if the loops go on.
  abbrev pub and_then : ScrubState p c d × Flow → ScrubState p c d × Flow → ScrubState p c d × Flow
  and_then (s, go_on) rest = rest
  and_then (s, stop) rest = (s, stop)
  and_then (s, fail e) rest = (s, fail e)

  -- The same with the buffer that all reads share.
  abbrev pub and_then_raw :
      (ScrubState p c d × Flow) × Bytes
      → (ScrubState p c d × Flow) × Bytes
      → (ScrubState p c d × Flow) × Bytes
  and_then_raw ((s, go_on), raw) rest = rest
  and_then_raw ((s, stop), raw) rest = ((s, stop), raw)
  and_then_raw ((s, fail e), raw) rest = ((s, fail e), raw)

  -- `if err != nil { return err }`
  abbrev pub or_fail {ℓ} :
      {A : Type ℓ}
      → ScrubState p c d
      → Bytes
      → Result A
      → (A → (ScrubState p c d × Flow) × Bytes)
      → (ScrubState p c d × Flow) × Bytes
  or_fail s raw (err e) next = ((s, fail e), raw)
  or_fail s raw (ok a) next = next a

  -- The data columns of one window, from the blob i on.
  unfoldable pub data_columns : Disk → Spec → ℕ → ℕ → ℕ → ℕ → ℕ → Result (Option (List Bytes))
  unfolding read_window
  data_columns src spec g j0 wc i zero = ok (some [])
  data_columns src spec g j0 wc i (suc n) =
      let off = data_blob_offset spec (g * file_group_chunks + i) + j0 * slot_size in
      let rest = data_columns src spec g j0 wc (i + 1) n in
      read_window p d src off wc >>= λ column. with_column column rest

  abbrev pub slot_written : ScrubState p c d → Disk × Option Error → ScrubState p c d × Flow
  slot_written s (disk, some e) = (record s { disk = disk }, fail e)
  slot_written s (disk, none) = (
    record s {
      disk = disk;
      rep = record s.rep { parity_shards_fixed = s.rep.parity_shards_fixed + 1 };
    },
    go_on,
  )

  -- A slot that differs, at its offset.
  unfoldable pub fix_slot : Bool → ScrubState p c d → ℕ → Bytes → ScrubState p c d × Flow
  unfolding new_slot
  fix_slot repair s off new_col =
      let counted = record s {
        rep = record s.rep { parity_slots_bad = s.rep.parity_slots_bad + 1 };
      } in
      if repair
      then slot_written counted (write_at s.disk off (new_slot p c d shard_size (new_col ∷ []) 0))
      else (counted, go_on)

  -- The loop over the columns of a window, from the column i on.
  unfoldable pub check_slots :
      Bool → ℕ → Bytes → Bytes → ℕ → ℕ → ScrubState p c d → ScrubState p c d × Flow
  unfolding fix_slot bytes_equal
  check_slots repair off raw shard i zero s = (s, go_on)
  check_slots repair off raw shard i (suc n) s =
      let existing = slice (i * slot_size) ((i + 1) * slot_size) raw in
      let new_col = slice (i * shard_size) ((i + 1) * shard_size) shard in
      let fixed = fix_slot repair s (off + i * slot_size) new_col in
      let checked =
        if not (verify_tag p (take shard_size existing) (drop shard_size existing))
          || not (bytes_equal (take shard_size existing) new_col)
        then fixed
        else (s, go_on) in
      let rest = check_slots repair off raw shard (i + 1) n checked.0 in and_then checked rest

  -- The loop over the parity blobs of a group, from the blob q on, in the window at j0; `raw` is the
  -- buffer that all reads share.
  unfoldable pub check_parity :
      Bool
      → Spec
      → ℕ
      → ℕ
      → List Bytes
      → ℕ
      → ℕ
      → ℕ
      → ℕ
      → Bytes
      → ScrubState p c d
      → (ScrubState p c d × Flow) × Bytes
  unfolding check_slots
  check_parity repair spec g k_data shards j0 wc q zero raw s = ((s, go_on), raw)
  check_parity repair spec g k_data shards j0 wc q (suc n) raw s =
      let off = parity_blob_offset spec g k_data q + j0 * slot_size in
      or_fail s raw (buffer_read raw (read_at s.disk off (wc * slot_size))) λ raw'.
        let checked = check_slots repair off raw' (get_or shards (k_data + q) []) 0 wc s in
        and_then_raw (checked, raw')
          (check_parity repair spec g k_data shards j0 wc (q + 1) n raw' checked.0)

  -- One window, after its data columns were read.
  unfoldable pub parity_window :
      Bool
      → Spec
      → Encoder
      → ℕ
      → ℕ
      → ℕ
      → ℕ
      → ℕ
      → Bytes
      → ScrubState p c d
      → Result (Option (List Bytes))
      → (ScrubState p c d × Flow) × Bytes
  unfolding check_parity zeros replicate
  parity_window repair spec rs g k_data m j0 wc raw s (err e) = ((s, fail e), raw)
  parity_window repair spec rs g k_data m j0 wc raw s (ok none) = ((s, stop), raw)
  parity_window repair spec rs g k_data m j0 wc raw s (ok (some columns)) =
      or_fail s raw (encode rs (columns ++ replicate m (zeros (wc * shard_size))))
        λ shards. check_parity repair spec g k_data shards j0 wc 0 m raw s

  -- The windows of 32 columns from j0 on.
  unfoldable pub parity_windows :
      Bool
      → Spec
      → Encoder
      → ℕ
      → ℕ
      → ℕ
      → ℕ
      → ℕ
      → Bytes
      → ScrubState p c d
      → (ScrubState p c d × Flow) × Bytes
  unfolding parity_window data_columns
  parity_windows repair spec rs g k_data m j0 zero raw s = ((s, go_on), raw)
  parity_windows repair spec rs g k_data m j0 (suc n) raw s =
      let columns = data_columns s.disk spec g j0 32 0 k_data in
      let done = parity_window repair spec rs g k_data m j0 32 raw s columns in
      let rest = parity_windows repair spec rs g k_data m (j0 + 32) n done.1 done.0.0 in
      and_then_raw done rest

  abbrev pub parity_encoder :
      Bool
      → Spec
      → ℕ
      → ℕ
      → ℕ
      → Bytes
      → ScrubState p c d
      → Cache c × Result Encoder
      → (ScrubState p c d × Flow) × Bytes
  parity_encoder repair spec g k_data m raw s (codecs, err e) =
      ((record s { codecs = codecs }, fail e), raw)
  parity_encoder repair spec g k_data m raw s (codecs, ok rs) =
      parity_windows repair spec rs g k_data m 0 12 raw (record s { codecs = codecs })

  unfoldable pub parity_group :
      Bool → Container p c d → ℕ → Bytes → ScrubState p c d → (ScrubState p c d × Flow) × Bytes
  unfolding parity_windows has_lost
  parity_group repair con g raw s =
      let chunk_count = pos_part con.man.chunk_count in
      let k_data = data_chunks_in_group g chunk_count in
      let m = group_parity con.spec g chunk_count in
      if has_lost s.lost_set g k_data
      then ((s, go_on), raw)
      else parity_encoder repair con.spec g k_data m raw s (file c s.codecs k_data m)

  -- The loop over the groups from g on.
  unfoldable pub parity_groups :
      Bool → Container p c d → ℕ → ℕ → Bytes → ScrubState p c d → ScrubState p c d × Flow
  unfolding parity_group
  parity_groups repair con g zero raw s = (s, go_on)
  parity_groups repair con g (suc n) raw s =
      let done = parity_group repair con g raw s in
      let rest = parity_groups repair con (g + 1) n done.1 done.0.0 in and_then done.0 rest

  abbrev pub as_error : ScrubState p c d × Flow → ScrubState p c d × Option Error
  as_error (s, go_on) = (s, none)
  as_error (s, stop) = (s, none)
  as_error (s, fail e) = (s, some e)

  -- (*Container).rebuildFileParity
  unfoldable pub rebuild_file_parity :
      Bool → Container p c d → ScrubState p c d → ScrubState p c d × Option Error
  unfolding parity_groups zeros
  rebuild_file_parity repair con s = as_error (
      parity_groups repair con 0 (group_count (pos_part con.man.chunk_count))
        (zeros (32 * slot_size)) s)
