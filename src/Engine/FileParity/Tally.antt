-- ===== src/Engine/FileParity/Tally.antt =====
-- The third pass and the counts of chunks, and the file in a pass with no leave to write.
use secvault.Prelude.{
  if_both, ℕ, zero, suc, ◌+◌, ◌*◌, ◌≡◌, refl, Bytes, zeros, take, drop, slice, get_or, replicate,
  bytes_equal, not, Bool, true, false, ◌||◌, Option, none, some, List, [], ◌∷◌, ◌++◌, if◌then◌else◌,
  pos_part,
}
use secvault.Errors.{Error, Result, ok, err}
use secvault.Layout.{
  shard_size, slot_size, Spec, group_count, data_chunks_in_group, group_parity, parity_blob_offset,
}
use secvault.Crypto.{Primitives, verify_tag}
use secvault.Codec.{Coding, Cache, file}
use secvault.Device.{Device}
use secvault.Engine.Strong.{new_slot}
use secvault.Engine.Container.{Container}
use secvault.Engine.Sweep.{ScrubState}
use secvault.Engine.Sweep.Tally.{IsSwept}
use secvault.Engine.FileParity.{
  and_then, and_then_raw, or_fail, Flow, go_on, stop, fail, has_lost, buffer_read, data_columns,
  slot_written, fix_slot, check_slots, check_parity, parity_window, parity_windows, parity_encoder,
  parity_group, parity_groups, as_error, rebuild_file_parity,
}

module _ (p : Primitives) (c : Coding) (d : Device) (repair : Bool) (disk : d.Disk) (total : ℕ)
    (pending : List ℕ → ℕ) (n : ℕ) where
  -- n chunks are counted or waited, the report has the total, and with no leave the file is as it was.
  abbrev pub Steady : ScrubState p c d → Type 0
  Steady s = IsSwept p c d repair disk total pending (s, none) n

  and_then-Steady :
      (done rest : ScrubState p c d × Flow)
      → Steady done.0
      → Steady rest.0
      → Steady (and_then p c d done rest).0
  and_then-Steady (s, go_on) rest hd hr = hr
  and_then-Steady (s, stop) rest hd hr = hd
  and_then-Steady (s, fail e) rest hd hr = hd

  and_then_raw-Steady :
      (done rest : (ScrubState p c d × Flow) × Bytes)
      → Steady done.0.0
      → Steady rest.0.0
      → Steady (and_then_raw p c d done rest).0.0
  and_then_raw-Steady ((s, go_on), raw) rest hd hr = hr
  and_then_raw-Steady ((s, stop), raw) rest hd hr = hd
  and_then_raw-Steady ((s, fail e), raw) rest hd hr = hd

  or_fail-Steady {ℓ} :
      {A : Type ℓ} (s : ScrubState p c d) (raw : Bytes) (r : Result A)
      (next : A → (ScrubState p c d × Flow) × Bytes)
      → Steady s
      → ((a : A) → Steady (next a).0.0)
      → Steady (or_fail p c d s raw r next).0.0
  or_fail-Steady s raw (err e) next v h = v
  or_fail-Steady s raw (ok a) next v h = h a

  guarded_slot :
      (leave : Bool) (s : ScrubState p c d) (r : d.Disk × Option Error)
      → repair ≡ leave
      → Steady s
      → Steady (if leave then slot_written p c d s r else (s, go_on)).0
  guarded_slot true s (after, none) given v = (v.0, (v.1.0, λ no_leave. cc))
  guarded_slot true s (after, some e) given v = (v.0, (v.1.0, λ no_leave. cc))
  guarded_slot false s r given v = v

  fix_slot-Steady :
      (s : ScrubState p c d) (off : ℕ) (new_col : Bytes)
      → Steady s
      → Steady (fix_slot p c d repair s off new_col).0
  unfolding fix_slot
  fix_slot-Steady s off new_col v =
      guarded_slot repair _ (d.write_at s.disk off (new_slot p c d shard_size (new_col ∷ []) 0))
        refl v

  check_slots-Steady :
      (off : ℕ) (raw shard : Bytes) (i k : ℕ) (s : ScrubState p c d)
      → Steady s
      → Steady (check_slots p c d repair off raw shard i k s).0
  unfolding check_slots
  check_slots-Steady off raw shard i zero s v = v
  check_slots-Steady off raw shard i (suc k) s v =
      let existing = slice (i * slot_size) ((i + 1) * slot_size) raw in
      let new_col = slice (i * shard_size) ((i + 1) * shard_size) shard in
      let differs =
        not (verify_tag p (take shard_size existing) (drop shard_size existing))
        || not (bytes_equal (take shard_size existing) new_col) in
      let fixed = fix_slot p c d repair s (off + i * slot_size) new_col in
      let checked = if differs then fixed else (s, go_on) in
      let step =
        if_both (λ (r : ScrubState p c d × Flow). Steady r.0) differs
          (fix_slot-Steady s (off + i * slot_size) new_col v) v in
      and_then-Steady checked (check_slots p c d repair off raw shard (i + 1) k checked.0) step
        (check_slots-Steady off raw shard (i + 1) k checked.0 step)

  check_parity-Steady :
      (spec : Spec) (g k_data : ℕ) (shards : List Bytes) (j0 wc q k : ℕ) (raw : Bytes)
      (s : ScrubState p c d)
      → Steady s
      → Steady (check_parity p c d repair spec g k_data shards j0 wc q k raw s).0.0
  unfolding check_parity
  check_parity-Steady spec g k_data shards j0 wc q zero raw s v = v
  check_parity-Steady spec g k_data shards j0 wc q (suc k) raw s v =
      let off = parity_blob_offset spec g k_data q + j0 * slot_size in
      or_fail-Steady s raw (buffer_read raw (d.read_at s.disk off (wc * slot_size))) _ v λ raw'.
        let shard = get_or shards (k_data + q) [] in
        let checked = check_slots p c d repair off raw' shard 0 wc s in
        let step = check_slots-Steady off raw' shard 0 wc s v in
        and_then_raw-Steady (checked, raw')
          (check_parity p c d repair spec g k_data shards j0 wc (q + 1) k raw' checked.0) step
          (check_parity-Steady spec g k_data shards j0 wc (q + 1) k raw' checked.0 step)

  parity_window-Steady :
      (spec : Spec) (rs : c.Encoder) (g k_data m j0 wc : ℕ) (raw : Bytes) (s : ScrubState p c d)
      (columns : Result (Option (List Bytes)))
      → Steady s
      → Steady (parity_window p c d repair spec rs g k_data m j0 wc raw s columns).0.0
  unfolding parity_window
  parity_window-Steady spec rs g k_data m j0 wc raw s (err e) v = v
  parity_window-Steady spec rs g k_data m j0 wc raw s (ok none) v = v
  parity_window-Steady spec rs g k_data m j0 wc raw s (ok (some columns)) v =
      or_fail-Steady s raw (c.encode rs (columns ++ replicate m (zeros (wc * shard_size)))) _ v
        λ shards. check_parity-Steady spec g k_data shards j0 wc 0 m raw s v

  parity_windows-Steady :
      (spec : Spec) (rs : c.Encoder) (g k_data m j0 k : ℕ) (raw : Bytes) (s : ScrubState p c d)
      → Steady s
      → Steady (parity_windows p c d repair spec rs g k_data m j0 k raw s).0.0
  unfolding parity_windows
  parity_windows-Steady spec rs g k_data m j0 zero raw s v = v
  parity_windows-Steady spec rs g k_data m j0 (suc k) raw s v =
      let columns = data_columns p c d s.disk spec g j0 32 0 k_data in
      let done = parity_window p c d repair spec rs g k_data m j0 32 raw s columns in
      let step = parity_window-Steady spec rs g k_data m j0 32 raw s columns v in
      and_then_raw-Steady done
        (parity_windows p c d repair spec rs g k_data m (j0 + 32) k done.1 done.0.0) step
        (parity_windows-Steady spec rs g k_data m (j0 + 32) k done.1 done.0.0 step)

  parity_encoder-Steady :
      (spec : Spec) (g k_data m : ℕ) (raw : Bytes) (s : ScrubState p c d)
      (r : Cache c × Result c.Encoder)
      → Steady s
      → Steady (parity_encoder p c d repair spec g k_data m raw s r).0.0
  parity_encoder-Steady spec g k_data m raw s (codecs, err e) v = v
  parity_encoder-Steady spec g k_data m raw s (codecs, ok rs) v =
      parity_windows-Steady spec rs g k_data m 0 12 raw (record s { codecs = codecs }) v

  parity_group-Steady :
      (con : Container p c d) (g : ℕ) (raw : Bytes) (s : ScrubState p c d)
      → Steady s
      → Steady (parity_group p c d repair con g raw s).0.0
  unfolding parity_group
  parity_group-Steady con g raw s v =
      let k_data = data_chunks_in_group g (pos_part con.man.chunk_count) in
      let m = group_parity con.spec g (pos_part con.man.chunk_count) in
      if_both (λ (r : (ScrubState p c d × Flow) × Bytes). Steady r.0.0)
        (has_lost s.lost_set g k_data) v
        (parity_encoder-Steady con.spec g k_data m raw s (file c s.codecs k_data m) v)

  parity_groups-Steady :
      (con : Container p c d) (g k : ℕ) (raw : Bytes) (s : ScrubState p c d)
      → Steady s
      → Steady (parity_groups p c d repair con g k raw s).0
  unfolding parity_groups
  parity_groups-Steady con g zero raw s v = v
  parity_groups-Steady con g (suc k) raw s v =
      let done = parity_group p c d repair con g raw s in
      let step = parity_group-Steady con g raw s v in
      and_then-Steady done.0 (parity_groups p c d repair con (g + 1) k done.1 done.0.0) step
        (parity_groups-Steady con (g + 1) k done.1 done.0.0 step)

  as_error-Steady : (r : ScrubState p c d × Flow) → Steady r.0 → Steady (as_error p c d r).0
  as_error-Steady (s, go_on) v = v
  as_error-Steady (s, stop) v = v
  as_error-Steady (s, fail e) v = v

  -- The third pass keeps the counts of chunks, and with no leave to write the file.
  pub rebuild_file_parity-Steady :
      (con : Container p c d) (s : ScrubState p c d)
      → Steady s
      → Steady (rebuild_file_parity p c d repair con s).0
  unfolding rebuild_file_parity
  rebuild_file_parity-Steady con s v = as_error-Steady _ (
      parity_groups-Steady con 0 (group_count (pos_part con.man.chunk_count))
        (zeros (32 * slot_size)) s v)
