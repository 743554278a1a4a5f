-- ===== src/Vault/Scrub.antt =====
-- scrub.go: Verify and Scrub of a container file, by scheme, and the report. `none` of a writer is
-- the argument false.
pub mod Reports
use secvault.Prelude.{ℕ, Bytes, Bool, true, false, List, if◌then◌else◌, pos_part}
use text.Mathlib.Text.{◌==◌ as str_eq}
use secvault.Errors.{Result, ok, err}
use secvault.Format.{Manifest, resolve_scheme, scheme_gcm_only, scheme_rs_strong}
use secvault.Crypto.{Primitives}
use secvault.Codec.{Coding}
use secvault.Device.{Device}
use secvault.Engine.Stats.{ScrubStats}
use secvault.Engine.GcmOnly.{scrub_gcm_only}
use secvault.Engine.Strong.{scrub_strong}
use secvault.Engine.Container.{Container, open_container}
use secvault.Engine.Scrub.{scrub as scrub_dual}

pub record Options : Type 0 where
  pub rebuild_parity : Bool

pub record Report : Type 0 where
  pub chunks_total : ℕ
  pub chunks_clean : ℕ
  pub chunks_repaired : ℕ
  pub chunks_rebuilt : ℕ
  pub chunks_lost : List ℕ
  pub shards_bad : ℕ
  pub shards_repaired : ℕ
  pub parity_slots_bad : ℕ
  pub parity_shards_fixed : ℕ

unfoldable pub to_report : ScrubStats → Report
to_report st = record {
  chunks_total = st.chunks_total;
  chunks_clean = st.chunks_clean;
  chunks_repaired = st.chunks_repaired;
  chunks_rebuilt = st.chunks_rebuilt;
  chunks_lost = st.chunks_lost;
  shards_bad = st.shards_bad;
  shards_repaired = st.shards_repaired;
  parity_slots_bad = st.parity_slots_bad;
  parity_shards_fixed = st.parity_shards_fixed;
}

module _ (p : Primitives) (c : Coding) (d : Device) where
  open d use {Disk}

  -- scrubStats: the file after the call, and the statistics; `repair` is w != nil.
  unfoldable pub scrub_stats : Bool → Options → Container p c d → Disk × Result ScrubStats
  unfolding resolve_scheme scrub_gcm_only scrub_strong scrub_dual
  scrub_stats repair opts con =
      if str_eq (resolve_scheme con.man) scheme_gcm_only
      then (con.src, scrub_gcm_only p d con.src con.aead (pos_part con.man.plain_size))
      else if str_eq (resolve_scheme con.man) scheme_rs_strong
      then scrub_strong p c d repair con.src con.aead con.codecs.strong
          (pos_part con.man.plain_size)
      else scrub_dual p c d repair opts.rebuild_parity con

  abbrev pub report_of : Disk × Result ScrubStats → Disk × Result Report
  report_of (disk, ok st) = (disk, ok (to_report st))
  report_of (disk, err e) = (disk, err e)

  abbrev pub scrub_opened : Bool → Options → Disk → Result (Container p c d) → Disk × Result Report
  scrub_opened repair opts disk (err e) = (disk, err e)
  scrub_opened repair opts disk (ok con) = report_of (scrub_stats repair opts con)

  module _ (checksum : Bytes → ℕ) (parse_json : Bytes → Result Manifest) where
    unfoldable pub verify : Disk → Bytes → Options → Disk × Result Report
    unfolding open_container scrub_stats to_report
    verify disk master_key opts =
        scrub_opened false opts disk (open_container p c d checksum parse_json disk master_key)

    unfoldable pub scrub : Disk → Bytes → Options → Disk × Result Report
    unfolding open_container scrub_stats to_report
    scrub disk master_key opts =
        scrub_opened true opts disk (open_container p c d checksum parse_json disk master_key)
