-- ===== src/Engine/Scrub/Reports.antt =====
-- The report of Scrub, and the file in a scrub with no leave to write.
use secvault.Prelude.{
  if_both, ℕ, ◌≡◌, refl, arith, length, Bool, false, Option, none, some, pos_part,
}
use secvault.Errors.{Error, Result, ok, err}
use secvault.Crypto.{Primitives}
use secvault.Codec.{Coding}
use secvault.Device.{Device}
use secvault.Engine.Stats.{ScrubStats, fresh_stats, IsTallied}
use secvault.Engine.Container.{Container}
use secvault.Engine.Sweep.{ScrubState, fresh_state, sweep}
use secvault.Engine.Sweep.Tally.{counted, IsSwept, sweep-IsSwept}
use secvault.Engine.Regroup.{regroup}
use secvault.Engine.Regroup.Tally.{regroup-IsSwept}
use secvault.Engine.FileParity.{rebuild_file_parity}
use secvault.Engine.FileParity.Tally.{rebuild_file_parity-Steady}
use secvault.Engine.Scrub.{and_pass, answer, third_pass, passes, scrub}

-- A report on `total` chunks whose counts add up; an error makes no report.
abbrev pub IsReport : ℕ → Result ScrubStats → Type 0
IsReport total (ok st) = IsTallied st × (st.chunks_total ≡ total)
IsReport total (err e) = Unit

module _ (p : Primitives) (c : Coding) (d : Device) (repair : Bool) (disk : d.Disk)
    (total : ℕ) where
  -- All chunks are counted, and with no leave the file is as it was.
  abbrev Settled : ScrubState p c d × Option Error → Type 0
  Settled r = IsSwept p c d repair disk total (λ _. 0) r total

  -- The second pass, on what the first one left.
  regroup-Settled :
      (con : Container p c d) (swept : ScrubState p c d × Option Error)
      → IsSwept p c d repair disk total length swept total
      → Settled (and_pass p c d swept (regroup p c d repair con))
  regroup-Settled con (s, some e) v = ((λ failed. cc), v.1)
  regroup-Settled con (s, none) v =
      let h =
        regroup-IsSwept p c d repair disk total (λ _. 0) con s (counted s.rep)
          ((λ _. omega arith), v.1) in
      ((λ fine. omega (arith, h.0 fine, v.0 refl)), h.1)

  as_Settled :
      (r : ScrubState p c d × Option Error)
      → IsSwept p c d repair disk total (λ _. 0) (r.0, none) total
      → Settled r
  as_Settled (s, none) v = v
  as_Settled (s, some e) v = ((λ failed. cc), v.1)

  third_pass-Settled :
      (rebuild_parity : Bool) (con : Container p c d) (r : ScrubState p c d × Option Error)
      → Settled r
      → Settled (and_pass p c d r (third_pass p c d repair rebuild_parity con))
  third_pass-Settled rebuild_parity con (s, some e) v = v
  third_pass-Settled rebuild_parity con (s, none) v =
      if_both Settled rebuild_parity
        (as_Settled (rebuild_file_parity p c d repair con s)
          (rebuild_file_parity-Steady p c d repair disk total (λ _. 0) total con s v))
        v

  answer-IsReport :
      (r : ScrubState p c d × Option Error)
      → Settled r
      → IsReport total (answer p c d r).1 × (repair ≡ false → (answer p c d r).0 ≡ disk)
  answer-IsReport (s, none) v = ((omega (arith, v.0 refl, v.1.0), v.1.0), v.1.1)
  answer-IsReport (s, some e) v = (tt, v.1.1)

module _ (p : Primitives) (c : Coding) (d : Device) where
  -- Scrub.
  pub scrub-IsReport :
      (repair rebuild_parity : Bool) (con : Container p c d)
      → IsReport (pos_part con.man.chunk_count) (scrub p c d repair rebuild_parity con).1
        × (repair ≡ false → (scrub p c d repair rebuild_parity con).0 ≡ con.src)
  unfolding scrub passes
  scrub-IsReport repair rebuild_parity con =
      let total = pos_part con.man.chunk_count in
      let start = fresh_state p c d con (fresh_stats total) in
      let swept = sweep p c d repair con total 0 start in
      answer-IsReport p c d repair con.src total (passes p c d repair rebuild_parity con) (
        third_pass-Settled p c d repair con.src total rebuild_parity con
          (and_pass p c d swept (regroup p c d repair con))
          (regroup-Settled p c d repair con.src total con swept (
            sweep-IsSwept p c d repair con.src total con total 0 0 total start (omega arith)
              ((λ _. refl), (refl, λ _. refl)))))
