-- ===== src/Vault/Scrub/Reports.antt =====
-- What Verify and Scrub report, for every scheme, and what Verify does to the file.
use secvault.Prelude.{
  ℕ, ◌+◌, ◌*◌, ◌^◌, ◌≤◌, ◌<◌, ◌≡◌, ◌≢◌, arith, refl, ◌∙◌, Bytes, length, Bool, true, false, if_both,
  pos_part,
}
use text.Mathlib.Text.{◌==◌ as str_eq}
use secvault.Errors.{Error, Result, ok, err, is_error, gcm_only_corrupted}
use secvault.Layout.{
  blob_disk_size, file_parity_shards, gcm_only_payload_size, strong_payload_size, total_blob_count,
}
use secvault.Layout.Bounds.{
  max_chunks, gcm_only_payload_size-lt, strong_payload_size-lt, total_blob_count-lt,
}
use secvault.Format.{Manifest, Trailer, resolve_scheme, scheme_gcm_only, scheme_rs_strong}
use secvault.Crypto.{Primitives, IsCrypto}
use secvault.Codec.{Coding}
use secvault.Device.{Device, IsFile}
use secvault.Engine.Stats.{ScrubStats, IsTallied}
use secvault.Engine.GcmOnly.{settle_gcm_only, load_gcm_only, scrub_gcm_only}
use secvault.Engine.GcmOnly.Laws.{scrub_gcm_only_total}
use secvault.Engine.Strong.Reports.{scrub_strong-Kept, scrub_strong-Fine}
use secvault.Engine.Container.{Container, open_trailer, open_container}
use secvault.Engine.Scrub.Reports.{IsReport, scrub-IsReport}
use secvault.Engine.Scrub.Total.{scrub_fine}
use secvault.Vault.Scrub.{
  Options, Report, to_report, scrub_stats, report_of, scrub_opened, verify, scrub,
}

-- The sum that the comment of Report promises.
abbrev pub AddsUp : Report → Type 0
AddsUp r =
    r.chunks_clean + r.chunks_repaired + r.chunks_rebuilt + length r.chunks_lost ≡ r.chunks_total

-- A report that adds up; an error makes no report.
abbrev pub AddsUpIfAny : Result Report → Type 0
AddsUpIfAny (ok r) = AddsUp r
AddsUpIfAny (err e) = Unit

-- There is a report, and it adds up.
abbrev pub Reported : Result Report → Type 0
Reported r = (report : Report) × (r ≡ ok report) × AddsUp report

abbrev pub no_rebuild : Options
no_rebuild = record { rebuild_parity = false }

abbrev Tallied : Result ScrubStats → Type 0
Tallied (ok st) = IsTallied st
Tallied (err e) = Unit

report-Tallied : (total : ℕ) (r : Result ScrubStats) → IsReport total r → Tallied r
report-Tallied total (ok st) h = h.0
report-Tallied total (err e) h = tt

module _ (p : Primitives) (c : Coding) (d : Device) where
  settle_gcm_only-Tallied : (r : Result Bytes) → Tallied (settle_gcm_only p d r)
  settle_gcm_only-Tallied (ok plain) = refl
  settle_gcm_only-Tallied (err e) = if_both Tallied (is_error e gcm_only_corrupted) refl tt

  -- Statistics that add up, and with no leave to write the file as it was.
  abbrev Kept : Bool → d.Disk → d.Disk × Result ScrubStats → Type 0
  Kept repair disk r = Tallied r.1 × (repair ≡ false → r.0 ≡ disk)

  scrub_stats-Kept :
      (repair : Bool) (opts : Options) (con : Container p c d)
      → Kept repair con.src (scrub_stats p c d repair opts con)
  unfolding scrub_stats scrub_gcm_only
  scrub_stats-Kept repair opts con =
      let plain_size = pos_part con.man.plain_size in
      let strong = scrub_strong-Kept p c d repair con.src con.aead con.codecs.strong plain_size in
      let dual = scrub-IsReport p c d repair opts.rebuild_parity con in
      if_both (Kept repair con.src) (str_eq (resolve_scheme con.man) scheme_gcm_only)
        (settle_gcm_only-Tallied (load_gcm_only p d con.src con.aead plain_size), λ _. refl)
        (if_both (Kept repair con.src) (str_eq (resolve_scheme con.man) scheme_rs_strong)
          (report-Tallied 1 _ strong.0, strong.1)
          (report-Tallied (pos_part con.man.chunk_count) _ dual.0, dual.1))

  report_of-AddsUp :
      (repair : Bool) (disk : d.Disk) (r : d.Disk × Result ScrubStats)
      → Kept repair disk r
      → AddsUpIfAny (report_of p c d r).1 × (repair ≡ false → (report_of p c d r).0 ≡ disk)
  unfolding to_report
  report_of-AddsUp repair disk (after, ok st) h = h
  report_of-AddsUp repair disk (after, err e) h = h

  -- A call that returned no error.
  abbrev Fine : d.Disk × Result ScrubStats → Type 0
  Fine r = (e : Error) → r.1 ≢ err e

  ok-Fine :
      (disk : d.Disk) (r : Result ScrubStats) → (st : ScrubStats) × (r ≡ ok st) → Fine (disk, r)
  ok-Fine disk r (st, there) e = λ failed. cc

  scrub_stats-Fine :
      IsCrypto p
      → IsFile d
      → (repair : Bool) (con : Container p c d) → Fine (scrub_stats p c d repair no_rebuild con)
  unfolding scrub_stats
  scrub_stats-Fine crypto f repair con =
      let plain_size = pos_part con.man.plain_size in
      let (st, there, sums, clean) =
        scrub_gcm_only_total p crypto d f con.src con.aead plain_size in
      if_both Fine (str_eq (resolve_scheme con.man) scheme_gcm_only) (ok-Fine con.src _ (st, there))
        (if_both Fine (str_eq (resolve_scheme con.man) scheme_rs_strong)
          (scrub_strong-Fine p c d f repair con.src con.aead con.codecs.strong plain_size)
          (scrub_fine p c d f repair con))

  report_of-Reported :
      (r : d.Disk × Result ScrubStats) → Tallied r.1 → Fine r → Reported (report_of p c d r).1
  unfolding to_report
  report_of-Reported (disk, ok st) h fine = (to_report st, refl, h)
  report_of-Reported (disk, err e) h fine = absurd (fine e refl)

  scrub_stats-Reported :
      IsCrypto p
      → IsFile d
      → (repair : Bool) (con : Container p c d)
      → Reported (report_of p c d (scrub_stats p c d repair no_rebuild con)).1
  scrub_stats-Reported crypto f repair con =
      report_of-Reported (scrub_stats p c d repair no_rebuild con)
        (scrub_stats-Kept repair no_rebuild con).0 (scrub_stats-Fine crypto f repair con)

  -- A container that was opened on this file.
  abbrev OpenedOn : d.Disk → Result (Container p c d) → Type 0
  OpenedOn disk (ok con) = con.src ≡ disk
  OpenedOn disk (err e) = Unit

  as_OpenedOn :
      (disk : d.Disk) (r : Result (Container p c d))
      → ((con : Container p c d) → r ≡ ok con → con.src ≡ disk)
      → OpenedOn disk r
  as_OpenedOn disk (ok con) h = h con refl
  as_OpenedOn disk (err e) h = tt

  scrub_opened-AddsUp :
      (repair : Bool) (opts : Options) (disk : d.Disk) (r : Result (Container p c d))
      → OpenedOn disk r
      → AddsUpIfAny (scrub_opened p c d repair opts disk r).1
        × (repair ≡ false → (scrub_opened p c d repair opts disk r).0 ≡ disk)
  scrub_opened-AddsUp repair opts disk (err e) h = (tt, λ _. refl)
  scrub_opened-AddsUp repair opts disk (ok con) h =
      let kept =
        report_of-AddsUp repair con.src (scrub_stats p c d repair opts con)
          (scrub_stats-Kept repair opts con) in
      (kept.0, λ no_leave. kept.1 no_leave ∙ h)

  -- The numbers of the manifest for which the sizes and offsets stay in the range of an int64.
  abbrev pub InRange : Container p c d → Type 0
  InRange con =
      (pos_part con.man.plain_size < 2 ^ 60)
      × (pos_part con.man.chunk_count ≤ max_chunks)
      × (con.spec.m2_cap ≤ file_parity_shards)

  -- The end of the sealed data, of the 96 slots, and of the last blob.
  abbrev pub EndsInRange : Container p c d → Type 0
  EndsInRange con =
      (gcm_only_payload_size (pos_part con.man.plain_size) < 2 ^ 63)
      × (strong_payload_size (pos_part con.man.plain_size) < 2 ^ 63)
      × (total_blob_count con.spec (pos_part con.man.chunk_count) * blob_disk_size < 2 ^ 63)

  in_range-EndsInRange : (con : Container p c d) → InRange con → EndsInRange con
  in_range-EndsInRange con (size, count, cap) = (
    omega (arith, gcm_only_payload_size-lt (pos_part con.man.plain_size) size),
    omega (arith, strong_payload_size-lt (pos_part con.man.plain_size) size),
    total_blob_count-lt con.spec (pos_part con.man.chunk_count) cap count,
  )

  module _ (checksum : Bytes → ℕ) (parse_json : Bytes → Result Manifest) where
    open_trailer-src :
        (disk : d.Disk) (master_key : Bytes) (size : ℕ) (trailer : Trailer) (con : Container p c d)
        → open_trailer p c d checksum parse_json disk master_key size trailer ≡ ok con
        → con.src ≡ disk
    unfolding open_trailer
    open_trailer-src disk master_key size trailer con h = ground arith

    open_container-src :
        (disk : d.Disk) (master_key : Bytes) (con : Container p c d)
        → open_container p c d checksum parse_json disk master_key ≡ ok con
        → con.src ≡ disk
    unfolding open_container
    open_container-src disk master_key con h = ground arith

    open_container-OpenedOn :
        (disk : d.Disk) (master_key : Bytes)
        → OpenedOn disk (open_container p c d checksum parse_json disk master_key)
    open_container-OpenedOn disk master_key =
        as_OpenedOn disk _ (open_container-src disk master_key)

    -- On every device, whatever it holds and whatever fails, the counts of a report of Verify add up
    -- to its total, and Verify leaves the file as it was.
    pub verify-AddsUp :
        (disk : d.Disk) (master_key : Bytes) (opts : Options)
        → AddsUpIfAny (verify p c d checksum parse_json disk master_key opts).1
          × ((verify p c d checksum parse_json disk master_key opts).0 ≡ disk)
    unfolding verify
    verify-AddsUp disk master_key opts =
        let kept =
          scrub_opened-AddsUp false opts disk
            (open_container p c d checksum parse_json disk master_key)
            (open_container-OpenedOn disk master_key) in
        (kept.0, kept.1 refl)

    -- On every device, whatever it holds and whatever fails, the counts of a report of Scrub add up to
    -- its total, with and without the rebuild of the file-level parity.
    pub scrub-AddsUp :
        (disk : d.Disk) (master_key : Bytes) (opts : Options)
        → AddsUpIfAny (scrub p c d checksum parse_json disk master_key opts).1
    unfolding scrub
    scrub-AddsUp disk master_key opts =
        (scrub_opened-AddsUp true opts disk
          (open_container p c d checksum parse_json disk master_key)
          (open_container-OpenedOn disk master_key)).0

    -- On a file that does not fail and that Open accepts, whatever else it holds, with a manifest of
    -- fewer than 2^60 bytes, at most 2^40 chunks and at most 64 parity blobs a group, Verify and Scrub
    -- without RebuildParity return a report, for every scheme, and its counts add up to its total; and
    -- the data of the file in each scheme ends below 2^63, so that no size or offset of it wraps in the
    -- program's int64.
    pub verify-scrub_total :
        IsCrypto p
        → IsFile d
        → (disk : d.Disk) (master_key : Bytes) (con : Container p c d)
        → open_container p c d checksum parse_json disk master_key ≡ ok con
        → InRange con
        → Reported (verify p c d checksum parse_json disk master_key no_rebuild).1
          × Reported (scrub p c d checksum parse_json disk master_key no_rebuild).1
          × EndsInRange con
    unfolding verify scrub
    verify-scrub_total crypto f disk master_key con opened v = rw opened (
      scrub_stats-Reported crypto f false con,
      scrub_stats-Reported crypto f true con,
      in_range-EndsInRange con v,
    )
