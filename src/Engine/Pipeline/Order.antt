-- ===== src/Engine/Pipeline/Order.antt =====
-- internal/engine/pipeline.go, writeLoop: the encoded chunks arrive from the workers in any order and
-- are written in the order of their numbers; each group of 128 is handed to the parity loop. parCh is
-- the list of what was sent to it.
pub mod Arrival
pub mod Any
use secvault.Prelude.{
  ℕ, zero, suc, ◌+◌, Bytes, length, ltb, ◌==◌, if◌then◌else◌, Option, none, some, List, [], ◌∷◌,
  ◌++◌,
}
use secvault.Errors.{Error, Result, ok, err, new}
use secvault.Layout.{file_group_chunks, Spec, data_blob_offset}
use secvault.Device.{Device, seek_write}

-- A chunkJob as a worker sends it on; its body is `none` where it failed, and else the payloads of
-- its 384 slots (blob and par) and the slots with their tags (disk).
pub record Encoded : Type 0 where
  pub idx : ℕ
  pub plain_len : ℕ
  pub body : Option (List Bytes × Bytes)

-- parityMsg: the payloads of one blob, or the end of a group.
pub data ParityMsg : Type 0 where
  payloads : List Bytes → ParityMsg
  flush_group : (g k_data : ℕ) → ParityMsg

-- errStore keeps the first error.
abbrev pub err_store : Option Error → Error → Option Error
err_store none e = some e
err_store (some first) e = some first

-- pending[job.idx] = job
unfoldable pub put_pending : Encoded → List Encoded → List Encoded
put_pending j [] = j ∷ []
put_pending j (x ∷ pending) =
    let rest = put_pending j pending in if x.idx == j.idx then j ∷ pending else x ∷ rest

abbrev pub keep : Encoded → Option (Encoded × List Encoded) → Option (Encoded × List Encoded)
keep x none = none
keep x (some (j, rest)) = some (j, x ∷ rest)

-- The job of the number that is awaited, if it came, taken out of the map.
unfoldable pub take_pending : ℕ → List Encoded → Option (Encoded × List Encoded)
take_pending next [] = none
take_pending next (x ∷ pending) =
    let rest = take_pending next pending in if x.idx == next then some (x, pending) else keep x rest

module _ (d : Device) (spec : Spec) where
  open d use {Disk}

  pub record WriteLoop : Type 0 where
    pub disk : Disk
    pub pending : List Encoded
    pub next : ℕ
    pub plain_size : ℕ
    pub group_chunks : ℕ
    pub groups_done : ℕ
    pub par_ch : List ParityMsg
    pub stored : Option Error

  abbrev pub fresh_loop : Disk → WriteLoop
  fresh_loop disk = record {
    disk = disk;
    pending = [];
    next = 0;
    plain_size = 0;
    group_chunks = 0;
    groups_done = 0;
    par_ch = [];
    stored = none;
  }

  -- What follows the write of a blob.
  unfoldable pub settle_write :
      WriteLoop → Encoded → List Bytes → Disk × Result (Unit {0}) → WriteLoop
  settle_write s j shards (disk, err e) = record s { disk = disk; stored = err_store s.stored e }
  settle_write s j shards (disk, ok done) =
      let sent = record s {
        disk = disk;
        plain_size = s.plain_size + j.plain_len;
        group_chunks = s.group_chunks + 1;
        par_ch = s.par_ch ++ (payloads shards ∷ []);
      } in
      if s.group_chunks + 1 == file_group_chunks
      then record sent {
        par_ch = sent.par_ch ++ (flush_group s.groups_done file_group_chunks ∷ []);
        groups_done = s.groups_done + 1;
        group_chunks = 0;
      }
      else sent

  abbrev pub write_body : WriteLoop → Encoded → Option (List Bytes × Bytes) → WriteLoop
  write_body s j none = s
  write_body s j (some (shards, disk)) =
      settle_write s j shards (seek_write d s.disk (data_blob_offset spec j.idx) disk)

  -- The turn of a job: it is written, and the next number is awaited.
  unfoldable pub turn : WriteLoop → Encoded → WriteLoop
  unfolding settle_write
  turn s j = record (write_body s j j.body) { next = s.next + 1 }

  abbrev pub after_take :
      (WriteLoop → WriteLoop) → WriteLoop → Option (Encoded × List Encoded) → WriteLoop
  after_take again s none = s
  after_take again s (some (j, rest)) = again (turn (record s { pending = rest }) j)

  -- The inner loop; each round takes one job from pending.
  unfoldable pub drain_pending : ℕ → WriteLoop → WriteLoop
  unfolding turn take_pending
  drain_pending zero s = s
  drain_pending (suc fuel) s = after_take (drain_pending fuel) s (take_pending s.next s.pending)

  unfoldable pub arrive : WriteLoop → Encoded → WriteLoop
  unfolding drain_pending put_pending
  arrive s j =
      let pending = put_pending j s.pending in
      drain_pending (length pending) (record s { pending = pending })

  -- The end of the loop.
  abbrev pub check_pending : WriteLoop → WriteLoop
  check_pending s =
      if ltb 0 (length s.pending)
      then record s { stored = err_store s.stored (new "secvault: internal job ordering loss") }
      else s

  unfoldable pub receive : WriteLoop → List Encoded → WriteLoop
  unfolding arrive
  receive s [] = s
  receive s (j ∷ jobs) = receive (arrive s j) jobs

  -- (*Pipeline).writeLoop on what outCh delivers, in this order.
  unfoldable pub write_loop : WriteLoop → List Encoded → WriteLoop
  unfolding receive
  write_loop s jobs = check_pending (receive s jobs)
