-- ===== src/Engine/Sweep.antt =====
-- internal/engine/scrub.go, the state of Scrub and its first pass: every chunk is gathered, repaired
-- inside its blob, decoded, and its bad slots are written back. The container is read from the file
-- that is written to, so both are one state here.
pub mod Tally
use secvault.Prelude.{
  ℕ, zero, suc, ◌+◌, ◌*◌, ◌++◌, Bytes, length, Bool, true, false, ltb, Option, none, some, List, [],
  ◌∷◌, if◌then◌else◌,
}
use secvault.Errors.{Error, Result, ok, err}
use secvault.Layout.{parity_shards, shard_size, slot_size, Spec, data_blob_offset}
use secvault.Crypto.{Primitives}
use secvault.Codec.{Coding, Cache}
use secvault.Device.{Device}
use secvault.Engine.Stats.{ScrubStats}
use secvault.Engine.Strong.{new_slot}
use secvault.Engine.Container.{Container, gather_blob, repair_intra, decode_chunk}

-- rep.ChunksLost = append(rep.ChunksLost, idx)
abbrev pub lose : ScrubStats → ℕ → ScrubStats
lose rep idx = record rep { chunks_lost = rep.chunks_lost ++ (idx ∷ []) }

module _ (p : Primitives) (c : Coding) (d : Device) where
  open d use {Disk, write_at}

  -- The file, the cache of encoders, the report, needFile and lostSet.
  pub record ScrubState : Type 0 where
    pub disk : Disk
    pub codecs : Cache c
    pub rep : ScrubStats
    pub need_file : List ℕ
    pub lost_set : List ℕ

  abbrev pub fresh_state : Container p c d → ScrubStats → ScrubState
  fresh_state con rep = record {
    disk = con.src;
    codecs = con.codecs;
    rep = rep;
    need_file = [];
    lost_set = [];
  }

  -- needFile = append(needFile, idx)
  abbrev pub defer_chunk : ScrubState → ℕ → ScrubState
  defer_chunk s idx = record s { need_file = s.need_file ++ (idx ∷ []) }

  -- The loop that writes the bad slots of a blob back.
  unfoldable pub write_slots : Disk → ℕ → List Bytes → List ℕ → Disk × Option Error
  unfolding new_slot
  write_slots disk base payloads [] = (disk, none)
  write_slots disk base payloads (i ∷ bad) =
      let written = write_at disk (base + i * slot_size) (new_slot p c d shard_size payloads i) in
      let rest = write_slots written.0 base payloads bad in
      elim written.1 [ none ↦ rest | some e ↦ (written.0, some e) ]

  -- What a write leaves of the state.
  abbrev pub with_disk : ScrubState → Disk × Option Error → ScrubState × Option Error
  with_disk s (disk, e) = (record s { disk = disk }, e)

  -- A chunk that was repaired: counted, and written back if there is leave to write.
  unfoldable pub settle_repaired :
      Bool → Spec → ScrubState → ℕ → List ℕ → List Bytes → ScrubState × Option Error
  unfolding write_slots
  settle_repaired repair spec s idx bad payloads =
      let counted = record s {
        rep = record s.rep {
          chunks_repaired = s.rep.chunks_repaired + 1;
          shards_repaired = s.rep.shards_repaired + length bad;
        };
      } in
      if repair
      then with_disk counted (write_slots s.disk (data_blob_offset spec idx) payloads bad)
      else (counted, none)

  -- The decision on the decoded chunk; `repaired` is the program's variable of that name.
  abbrev pub settle_decoded :
      Bool
      → Spec
      → ScrubState
      → ℕ
      → List ℕ
      → List Bytes
      → Bool
      → Result Bytes
      → ScrubState × Option Error
  settle_decoded repair spec s idx bad payloads repaired (err e) =
      (record s { rep = lose s.rep idx }, none)
  settle_decoded repair spec s idx bad payloads true (ok plain) =
      settle_repaired repair spec s idx bad payloads
  settle_decoded repair spec s idx bad payloads false (ok plain) =
      (record s { rep = record s.rep { chunks_clean = s.rep.chunks_clean + 1 } }, none)

  -- The chunk after the repair inside its blob, where there was one.
  abbrev pub settle_fixed :
      Bool
      → Container p c d
      → ScrubState
      → ℕ
      → List ℕ
      → Bool
      → Option (List Bytes)
      → ScrubState × Option Error
  settle_fixed repair con s idx bad repaired none = (defer_chunk s idx, none)
  settle_fixed repair con s idx bad repaired (some payloads) =
      settle_decoded repair con.spec s idx bad payloads repaired
        (decode_chunk p c d con.aead idx payloads)

  unfoldable pub sweep_gathered :
      Bool
      → Container p c d
      → ScrubState
      → ℕ
      → Result (List Bytes × List ℕ)
      → ScrubState × Option Error
  unfolding repair_intra decode_chunk settle_repaired
  sweep_gathered repair con s idx (err e) = (s, some e)
  sweep_gathered repair con s idx (ok (payloads, bad)) =
      let counted = record s {
        rep = record s.rep { shards_bad = s.rep.shards_bad + length bad };
      } in
      if ltb parity_shards (length bad)
      then (defer_chunk counted idx, none)
      else if ltb 0 (length bad)
      then settle_fixed repair con counted idx bad true
          (repair_intra p c d con.codecs.intra payloads bad)
      else settle_fixed repair con counted idx bad false (some payloads)

  -- The loop over the chunks from idx on.
  unfoldable pub sweep : Bool → Container p c d → ℕ → ℕ → ScrubState → ScrubState × Option Error
  unfolding sweep_gathered gather_blob
  sweep repair con zero idx s = (s, none)
  sweep repair con (suc n) idx s =
      let swept = sweep_gathered repair con s idx (gather_blob p c d s.disk con.spec idx) in
      let rest = sweep repair con n (idx + 1) swept.0 in
      elim swept.1 [ none ↦ rest | some e ↦ (swept.0, some e) ]
