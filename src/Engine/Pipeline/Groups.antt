-- ===== src/Engine/Pipeline/Groups.antt =====
-- internal/engine/pipeline.go: parityLoop and writeParityGroup, the parity of a group from the
-- payloads of its chunks, and the message that Drain sends for the last group.
pub mod Messages
pub mod Windows
pub mod Writes
pub mod Written
pub mod Apart
pub mod Agree
pub mod Both
pub mod Columns
pub mod Data
pub mod Content
pub mod Parity
use secvault.Prelude.{
  ℕ, zero, suc, ◌+◌, ◌-◌, ◌*◌, Bytes, zeros, length, take, drop, get_or, concat, chunks, map,
  replicate, not, ltb, ◌==◌, if◌then◌else◌, Option, none, some, List, [], ◌∷◌, ◌++◌,
}
use secvault.Errors.{Error, Result, ok, err, new, wrap}
use secvault.Layout.{data_shards, shard_size, slot_size, Spec, parity_count_for, parity_blob_offset}
use secvault.Crypto.{Primitives}
use secvault.Codec.{Coding, Cache, file, slice_window}
use secvault.Device.{Device, seek_write}
use secvault.Engine.Strong.{slot}
use secvault.Engine.Pipeline.Order.{ParityMsg, payloads, flush_group, WriteLoop, err_store}

-- The window of a chunk: of the data columns below 256, and of the parity columns from there on.
unfoldable pub window : List Bytes → ℕ → ℕ → Bytes
unfolding slice_window
window shards j0 wc =
    if ltb j0 data_shards
    then slice_window (concat (take data_shards shards)) j0 wc
    else slice_window (concat (drop data_shards shards)) (j0 - data_shards) wc

module _ (p : Primitives) (c : Coding) (d : Device) (spec : Spec) where
  open c use {Encoder, encode}
  open d use {Disk}

  -- What parityLoop has on its stack and writes to; the write loop is done with the file before.
  pub record ParityLoop : Type 0 where
    pub disk : Disk
    pub codecs : Cache c
    pub blobs : List (List Bytes)
    pub stored : Option Error

  -- slotBuf: the columns of a shard, each with its tag.
  unfoldable pub slot_buf : ℕ → Bytes → Bytes
  unfolding slot chunks
  slot_buf wc shard = concat (map (slot p) (chunks wc shard_size shard))

  abbrev pub and_write :
      Disk × Result (Unit {0}) → (Disk → Disk × Result (Unit {0})) → Disk × Result (Unit {0})
  and_write (disk, ok done) next = next disk
  and_write (disk, err e) next = (disk, err e)

  -- The parity blobs from q on, in the window at j0.
  unfoldable pub write_parity_blobs :
      ℕ → ℕ → List Bytes → ℕ → ℕ → ℕ → ℕ → Disk → Disk × Result (Unit {0})
  unfolding slot_buf
  write_parity_blobs g k_data shards j0 wc q zero disk = (disk, ok tt)
  write_parity_blobs g k_data shards j0 wc q (suc n) disk =
      let off = parity_blob_offset spec g k_data q + j0 * slot_size in
      and_write (seek_write d disk off (slot_buf wc (get_or shards (k_data + q) [])))
        (write_parity_blobs g k_data shards j0 wc (q + 1) n)

  abbrev pub write_encoded :
      ℕ → ℕ → ℕ → ℕ → ℕ → Disk → Result (List Bytes) → Disk × Result (Unit {0})
  write_encoded g k_data m j0 wc disk (err e) = (disk, err (wrap "secvault: file-level encode" e))
  write_encoded g k_data m j0 wc disk (ok shards) =
      write_parity_blobs g k_data shards j0 wc 0 m disk

  -- The windows of 32 columns from j0 on; 32 divides the number of columns.
  unfoldable pub write_parity_windows :
      Encoder → ℕ → ℕ → ℕ → List (List Bytes) → ℕ → ℕ → Disk → Disk × Result (Unit {0})
  unfolding write_parity_blobs window zeros replicate
  write_parity_windows rs g k_data m blobs j0 zero disk = (disk, ok tt)
  write_parity_windows rs g k_data m blobs j0 (suc n) disk =
      let shards =
        map (λ shards. window shards j0 32) blobs ++ replicate m (zeros (32 * shard_size)) in
      and_write (write_encoded g k_data m j0 32 disk (encode rs shards))
        (write_parity_windows rs g k_data m blobs (j0 + 32) n)

  abbrev pub with_encoder :
      Disk
      → ℕ
      → ℕ
      → ℕ
      → List (List Bytes)
      → Cache c × Result Encoder
      → Cache c × (Disk × Result (Unit {0}))
  with_encoder disk g k_data m blobs (codecs, err e) = (codecs, (disk, err e))
  with_encoder disk g k_data m blobs (codecs, ok rs) =
      (codecs, write_parity_windows rs g k_data m blobs 0 12 disk)

  -- (*Pipeline).writeParityGroup
  unfoldable pub write_parity_group :
      Disk → Cache c → ℕ → ℕ → List (List Bytes) → Cache c × (Disk × Result (Unit {0}))
  unfolding write_parity_windows parity_count_for
  write_parity_group disk codecs g k_data blobs =
      let m = parity_count_for spec k_data in
      with_encoder disk g k_data m blobs (file c codecs k_data m)

  abbrev pub settle_parity : ParityLoop → Cache c × (Disk × Result (Unit {0})) → ParityLoop
  settle_parity s (codecs, (disk, ok done)) = record s { codecs = codecs; disk = disk; blobs = [] }
  settle_parity s (codecs, (disk, err e)) = record s {
    codecs = codecs;
    disk = disk;
    blobs = [];
    stored = err_store s.stored e;
  }

  -- The message that ends a group.
  unfoldable pub flush_blobs : ParityLoop → ℕ → ℕ → ParityLoop
  unfolding write_parity_group
  flush_blobs s g k_data =
      if not (length s.blobs == k_data)
      then record s { blobs = []; stored = err_store s.stored (new "secvault: parity group") }
      else settle_parity s (write_parity_group s.disk s.codecs g k_data s.blobs)

  abbrev pub parity_msg : ParityLoop → ParityMsg → ParityLoop
  parity_msg s (payloads shards) = record s { blobs = s.blobs ++ (shards ∷ []) }
  parity_msg s (flush_group g k_data) = flush_blobs s g k_data

  -- (*Pipeline).parityLoop on what parCh delivers.
  unfoldable pub parity_loop : ParityLoop → List ParityMsg → ParityLoop
  unfolding flush_blobs
  parity_loop s [] = s
  parity_loop s (msg ∷ msgs) = parity_loop (parity_msg s msg) msgs

  -- What was sent to parCh when Drain closes it: finalGroup and finalKData make the last message.
  unfoldable pub drained : WriteLoop d spec → List ParityMsg
  drained s =
      if ltb 0 s.group_chunks
      then s.par_ch ++ (flush_group s.groups_done s.group_chunks ∷ [])
      else s.par_ch
