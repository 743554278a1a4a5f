-- ===== src/Engine/Scrub.antt =====
-- internal/engine/scrub.go, Scrub: the three passes one after the other. An error of a pass ends the
-- call, and what was written stays written.
pub mod Reports
pub mod Total
use secvault.Prelude.{ℕ, Bool, true, false, Option, none, some, if◌then◌else◌, pos_part}
use secvault.Errors.{Error, Result, ok, err}
use secvault.Crypto.{Primitives}
use secvault.Codec.{Coding}
use secvault.Device.{Device}
use secvault.Engine.Stats.{ScrubStats, fresh_stats}
use secvault.Engine.Container.{Container}
use secvault.Engine.Sweep.{ScrubState, fresh_state, sweep}
use secvault.Engine.Regroup.{regroup}
use secvault.Engine.FileParity.{rebuild_file_parity}

module _ (p : Primitives) (c : Coding) (d : Device) where
  -- A pass, and the next one if there was no error.
  abbrev pub and_pass :
      ScrubState p c d × Option Error
      → (ScrubState p c d → ScrubState p c d × Option Error)
      → ScrubState p c d × Option Error
  and_pass (s, none) next = next s
  and_pass (s, some e) next = (s, some e)

  abbrev pub answer : ScrubState p c d × Option Error → d.Disk × Result ScrubStats
  answer (s, none) = (s.disk, ok s.rep)
  answer (s, some e) = (s.disk, err e)

  abbrev pub third_pass :
      Bool → Bool → Container p c d → ScrubState p c d → ScrubState p c d × Option Error
  third_pass repair rebuild_parity con s =
      let checked = rebuild_file_parity p c d repair con s in
      if rebuild_parity then checked else (s, none)

  unfoldable pub passes : Bool → Bool → Container p c d → ScrubState p c d × Option Error
  unfolding sweep regroup rebuild_file_parity
  passes repair rebuild_parity con =
      let total = pos_part con.man.chunk_count in
      let swept = sweep p c d repair con total 0 (fresh_state p c d con (fresh_stats total)) in
      and_pass (and_pass swept (regroup p c d repair con)) (third_pass repair rebuild_parity con)

  -- (*Container).Scrub: the file after the call, and the report; `repair` is w != nil.
  unfoldable pub scrub : Bool → Bool → Container p c d → d.Disk × Result ScrubStats
  unfolding passes
  scrub repair rebuild_parity con = answer (passes repair rebuild_parity con)
