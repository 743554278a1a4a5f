-- ===== src/Engine/Scrub/Total.antt =====
-- The first two passes of Scrub on a file that does not fail.
use secvault.Prelude.{
  if_both, ℕ, zero, suc, ◌+◌, ◌^◌, ◌≤◌, ◌<◌, ◌≡◌, ◌≢◌, refl, ap, ◌∙◌, Bytes, length, Bool, true,
  false, ltb, Option, none, some, List, [], ◌∷◌, pos_part,
}
use secvault.Errors.{Error, Result, ok, err, ◌>>=◌}
use secvault.Layout.{
  parity_shards, shards_per_blob, shard_size, blob_disk_size, Spec, data_blob_offset,
}
use secvault.Layout.Regions.{IsSpec, Region, IsRegion, region_offset}
use secvault.Layout.Bounds.{max_chunks, region_offset-lt}
use secvault.Crypto.{Primitives}
use secvault.Codec.{Coding, Cache}
use secvault.Device.{Device, IsFile, read_buffer}
use secvault.Device.Reads.{read_buffer_total}
use secvault.Engine.Strong.{gather}
use secvault.Engine.Stats.{ScrubStats, fresh_stats, IsTallied}
use secvault.Engine.Container.{Container, gather_blob, repair_intra, decode_chunk}
use secvault.Engine.Sweep.{
  ScrubState, fresh_state, write_slots, settle_repaired, settle_decoded, settle_fixed,
  sweep_gathered, sweep,
}
use secvault.Engine.Regroup.{
  blob_image, settle_rebuilt, rebuild_positions, settle_group, rebuild_groups, sort_groups,
  by_group, sort_positions, regroup,
}
use secvault.Engine.Scrub.{and_pass, answer, third_pass, passes, scrub}
use secvault.Engine.Scrub.Reports.{IsReport, scrub-IsReport}

-- No error came with it.
abbrev pub Ended {ℓ} : {A : Type ℓ} → A × Option Error → Type 0
Ended r = r.1 ≡ none

-- A step without an error, and a rest without one.
pub ended {ℓ} :
    {A : Type ℓ} (r rest : A × Option Error)
    → r.1 ≡ none
    → rest.1 ≡ none
    → Ended {A = A} (elim r.1 [ none ↦ rest | some e ↦ (r.0, some e) ])
ended (a, none) rest h hr = hr
ended (a, some e) rest h hr = cc

-- A result that is not an error, through a total function.
pub mapped_fine {ℓ} :
    {A B : Type ℓ} (r : Result A) {a : A} (next : A → B)
    → r ≡ ok a
    → (e : Error) → (r >>= λ x. ok (next x)) ≢ err e
mapped_fine (ok x) next h e = λ eq. cc
mapped_fine (err x) next h e = λ eq. cc

-- The report of a call that returned one whose counts add up.
pub reported :
    (r : Result ScrubStats) (total : ℕ)
    → IsReport total r
    → ((e : Error) → r ≢ err e)
    → (st : ScrubStats) × (r ≡ ok st) × IsTallied st × (st.chunks_total ≡ total)
reported (ok st) total h no_error = (st, refl, h.0, h.1)
reported (err e) total h no_error = absurd (no_error e refl)

module _ (p : Primitives) (c : Coding) (d : Device) (f : IsFile d) where
  write_slots_ends :
      (base : ℕ) (payloads : List Bytes) (bad : List ℕ) (disk : d.Disk)
      → (write_slots p c d disk base payloads bad).1 ≡ none
  unfolding write_slots
  write_slots_ends base payloads [] disk = refl
  write_slots_ends base payloads (i ∷ bad) disk =
      ended (d.write_at disk _ _) _ (f.write_at_lem disk _ _) (write_slots_ends base payloads bad _)

  settle_decoded_ends :
      (repair : Bool) (spec : Spec) (s : ScrubState p c d) (idx : ℕ) (bad : List ℕ)
      (payloads : List Bytes) (repaired : Bool) (r : Result Bytes)
      → (settle_decoded p c d repair spec s idx bad payloads repaired r).1 ≡ none
  unfolding settle_repaired
  settle_decoded_ends repair spec s idx bad payloads repaired (err e) = refl
  settle_decoded_ends repair spec s idx bad payloads true (ok plain) =
      if_both Ended repair (write_slots_ends (data_blob_offset spec idx) payloads bad s.disk) refl
  settle_decoded_ends repair spec s idx bad payloads false (ok plain) = refl

  settle_fixed_ends :
      (repair : Bool) (con : Container p c d) (s : ScrubState p c d) (idx : ℕ) (bad : List ℕ)
      (repaired : Bool) (fixed : Option (List Bytes))
      → (settle_fixed p c d repair con s idx bad repaired fixed).1 ≡ none
  settle_fixed_ends repair con s idx bad repaired none = refl
  settle_fixed_ends repair con s idx bad repaired (some payloads) =
      settle_decoded_ends repair con.spec s idx bad payloads repaired
        (decode_chunk p c d con.aead idx payloads)

  sweep_gathered_ends :
      (repair : Bool) (con : Container p c d) (s : ScrubState p c d) (idx : ℕ)
      (got : Result (List Bytes × List ℕ))
      → ((e : Error) → got ≢ err e)
      → (sweep_gathered p c d repair con s idx got).1 ≡ none
  unfolding sweep_gathered
  sweep_gathered_ends repair con s idx (err e) no_error = absurd (no_error e refl)
  sweep_gathered_ends repair con s idx (ok (payloads, bad)) no_error =
      if_both Ended (ltb parity_shards (length bad)) refl (
        if_both Ended (ltb 0 (length bad))
          (settle_fixed_ends repair con _ idx bad true
            (repair_intra p c d con.codecs.intra payloads bad))
          (settle_fixed_ends repair con _ idx bad false (some payloads)))

  gather_blob_ends :
      (disk : d.Disk) (spec : Spec) (idx : ℕ) (e : Error) → gather_blob p c d disk spec idx ≢ err e
  unfolding gather_blob
  gather_blob_ends disk spec idx e =
      let (got, fine) =
        read_buffer_total (d.contents disk) (data_blob_offset spec idx) blob_disk_size in
      mapped_fine _ (gather p shards_per_blob 0 shard_size)
        (ap (read_buffer blob_disk_size)
            (f.read_at_lem disk (data_blob_offset spec idx) blob_disk_size)
          ∙ fine)
        e

  sweep_ends :
      (repair : Bool) (con : Container p c d) (n idx : ℕ) (s : ScrubState p c d)
      → (sweep p c d repair con n idx s).1 ≡ none
  unfolding sweep
  sweep_ends repair con zero idx s = refl
  sweep_ends repair con (suc n) idx s =
      let got = gather_blob p c d s.disk con.spec idx in
      let swept = sweep_gathered p c d repair con s idx got in
      ended swept (sweep p c d repair con n (idx + 1) swept.0)
        (sweep_gathered_ends repair con s idx got (gather_blob_ends s.disk con.spec idx))
        (sweep_ends repair con n (idx + 1) swept.0)

  settle_rebuilt_ends :
      (repair : Bool) (con : Container p c d) (s : ScrubState p c d) (idx : ℕ)
      (payloads : List Bytes) (r : Result Bytes)
      → (settle_rebuilt p c d repair con s idx payloads r).1 ≡ none
  unfolding settle_rebuilt
  settle_rebuilt_ends repair con s idx payloads (err e) = refl
  settle_rebuilt_ends repair con s idx payloads (ok plain) =
      if_both Ended repair
        (f.write_at_lem s.disk (data_blob_offset con.spec idx) (blob_image p c d payloads)) refl

  rebuild_positions_ends :
      (repair : Bool) (con : Container p c d) (g : ℕ) (blobs : ℕ → List Bytes) (positions : List ℕ)
      (s : ScrubState p c d)
      → (rebuild_positions p c d repair con g blobs positions s).1 ≡ none
  unfolding rebuild_positions
  rebuild_positions_ends repair con g blobs [] s = refl
  rebuild_positions_ends repair con g blobs (i ∷ positions) s =
      ended _ _ (settle_rebuilt_ends repair con s _ (blobs i) _)
        (rebuild_positions_ends repair con g blobs positions _)

  settle_group_ends :
      (repair : Bool) (con : Container p c d) (g : ℕ) (positions : List ℕ) (s : ScrubState p c d)
      (r : Cache c × Option (ℕ → List Bytes))
      → (settle_group p c d repair con g positions s r).1 ≡ none
  unfolding settle_group
  settle_group_ends repair con g positions s (codecs, none) = refl
  settle_group_ends repair con g positions s (codecs, some blobs) =
      rebuild_positions_ends repair con g blobs positions (record s { codecs = codecs })

  rebuild_groups_ends :
      (repair : Bool) (con : Container p c d) (groups : List (ℕ × List ℕ)) (s : ScrubState p c d)
      → (rebuild_groups p c d repair con groups s).1 ≡ none
  unfolding rebuild_groups
  rebuild_groups_ends repair con [] s = refl
  rebuild_groups_ends repair con ((g, unsorted) ∷ groups) s =
      ended _ _ (settle_group_ends repair con g (sort_positions unsorted) s _)
        (rebuild_groups_ends repair con groups _)

  regroup_ends :
      (repair : Bool) (con : Container p c d) (r : ScrubState p c d × Option Error)
      → r.1 ≡ none
      → (and_pass p c d r (regroup p c d repair con)).1 ≡ none
  unfolding regroup
  regroup_ends repair con (s, none) h =
      rebuild_groups_ends repair con (sort_groups (by_group s.need_file [])) s
  regroup_ends repair con (s, some e) h = cc

  no_third_pass :
      (repair : Bool) (con : Container p c d) (r : ScrubState p c d × Option Error)
      → r.1 ≡ none
      → (e : Error)
      → (answer p c d (and_pass p c d r (third_pass p c d repair false con))).1 ≢ err e
  no_third_pass repair con (s, none) h e = λ eq. cc
  no_third_pass repair con (s, some x) h e = cc

  pub scrub_fine :
      (repair : Bool) (con : Container p c d) (e : Error) → (scrub p c d repair false con).1 ≢ err e
  unfolding scrub passes
  scrub_fine repair con =
      let total = pos_part con.man.chunk_count in
      let swept = sweep p c d repair con total 0 (fresh_state p c d con (fresh_stats total)) in
      no_third_pass repair con (and_pass p c d swept (regroup p c d repair con))
        (regroup_ends repair con swept (sweep_ends repair con total 0 _))

  -- On a file that does not fail, whatever it holds, Scrub without RebuildParity of a container with
  -- at most 2^40 chunks and a spec of a manifest returns a report on all chunks of the manifest, never
  -- an error, and its counts add up; and the offset of each blob, with its size, is below 2^63, so
  -- that none is negative in the program's int64.
  pub scrub_total :
      (repair : Bool) (con : Container p c d)
      → IsSpec con.spec
      → pos_part con.man.chunk_count ≤ max_chunks
      → ((st : ScrubStats) × ((scrub p c d repair false con).1 ≡ ok st)
          × IsTallied st
          × (st.chunks_total ≡ pos_part con.man.chunk_count))
        × ((r : Region)
            → IsRegion con.spec (pos_part con.man.chunk_count) r
            → region_offset con.spec (pos_part con.man.chunk_count) r + blob_disk_size < 2 ^ 63)
  scrub_total repair con v h = (
    reported (scrub p c d repair false con).1 (pos_part con.man.chunk_count)
        (scrub-IsReport p c d repair false con).0 (scrub_fine repair con),
    λ r here. region_offset-lt con.spec (pos_part con.man.chunk_count) r v h here,
  )
