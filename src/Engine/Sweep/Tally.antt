-- ===== src/Engine/Sweep/Tally.antt =====
-- The counts of the first pass, and the file in a pass with no leave to write.
use secvault.Prelude.{
  if_both, ℕ, zero, suc, ◌+◌, ◌≡◌, refl, arith, Bytes, length, length-append, Bool, true, false,
  ltb, Option, none, some, List, [], ◌∷◌, if◌then◌else◌,
}
use secvault.Errors.{Error, Result, ok, err}
use secvault.Layout.{parity_shards, Spec, data_blob_offset}
use secvault.Crypto.{Primitives}
use secvault.Codec.{Coding}
use secvault.Device.{Device}
use secvault.Engine.Stats.{ScrubStats}
use secvault.Engine.Container.{Container, gather_blob, repair_intra, decode_chunk}
use secvault.Engine.Sweep.{
  ScrubState, defer_chunk, with_disk, write_slots, settle_repaired, settle_decoded, settle_fixed,
  sweep_gathered, sweep,
}

-- The chunks that the report has counted.
abbrev pub counted : ScrubStats → ℕ
counted rep = rep.chunks_clean + rep.chunks_repaired + rep.chunks_rebuilt + length rep.chunks_lost

module _ (p : Primitives) (c : Coding) (d : Device) (repair : Bool) (disk : d.Disk) (total : ℕ)
    (pending : List ℕ → ℕ) where
  -- The report has the total, and with no leave to write the file is as it was.
  abbrev pub IsKept : ScrubState p c d → Type 0
  IsKept s = (s.rep.chunks_total ≡ total) × (repair ≡ false → s.disk ≡ disk)

  -- After a step that succeeds, n chunks are counted or pending.
  abbrev pub IsSwept : ScrubState p c d × Option Error → ℕ → Type 0
  IsSwept (s, e) n = (e ≡ none → counted s.rep + pending s.need_file ≡ n) × IsKept s

  -- A write, with leave, leaves the counts.
  pub guarded_write :
      (leave : Bool) (s : ScrubState p c d) (n : ℕ) (r : d.Disk × Option Error)
      → repair ≡ leave
      → IsSwept (s, none) n
      → IsSwept (if leave then with_disk p c d s r else (s, none)) n
  guarded_write true s n (after, e) given v = ((λ _. v.0 refl), (v.1.0, λ no_leave. cc))
  guarded_write false s n r given v = v

  -- The rounds of a loop that stops at an error.
  pub after_round :
      (rest swept : ScrubState p c d × Option Error) (n : ℕ)
      → (swept.1 ≡ none → IsSwept rest n)
      → IsKept swept.0
      → IsSwept (elim swept.1 [ none ↦ rest | some e ↦ (swept.0, some e) ]) n
  after_round rest (s, none) n h v = h refl
  after_round rest (s, some e) n h v = ((λ failed. cc), v)

module _ (p : Primitives) (c : Coding) (d : Device) (repair : Bool) (disk : d.Disk)
    (total : ℕ) where
  abbrev Swept : ScrubState p c d × Option Error → ℕ → Type 0
  Swept = IsSwept p c d repair disk total length

  settle_repaired-IsSwept :
      (spec : Spec) (s : ScrubState p c d) (n idx : ℕ) (bad : List ℕ) (payloads : List Bytes)
      → Swept (s, none) n
      → Swept (settle_repaired p c d repair spec s idx bad payloads) (suc n)
  unfolding settle_repaired
  settle_repaired-IsSwept spec s n idx bad payloads v =
      guarded_write p c d repair disk total length repair _ (suc n)
        (write_slots p c d s.disk (data_blob_offset spec idx) payloads bad) refl
        ((λ e. omega (arith, v.0 refl)), v.1)

  settle_decoded-IsSwept :
      (spec : Spec) (s : ScrubState p c d) (n idx : ℕ) (bad : List ℕ) (payloads : List Bytes)
      (repaired : Bool) (r : Result Bytes)
      → Swept (s, none) n
      → Swept (settle_decoded p c d repair spec s idx bad payloads repaired r) (suc n)
  settle_decoded-IsSwept spec s n idx bad payloads repaired (err e) v =
      ((λ _. omega (arith, v.0 refl, length-append {0} s.rep.chunks_lost (idx ∷ []))), v.1)
  settle_decoded-IsSwept spec s n idx bad payloads true (ok plain) v =
      settle_repaired-IsSwept spec s n idx bad payloads v
  settle_decoded-IsSwept spec s n idx bad payloads false (ok plain) v =
      ((λ _. omega (arith, v.0 refl)), v.1)

  defer_chunk-IsSwept :
      (s : ScrubState p c d) (n idx : ℕ)
      → Swept (s, none) n
      → Swept (defer_chunk p c d s idx, none) (suc n)
  defer_chunk-IsSwept s n idx v =
      ((λ _. omega (arith, v.0 refl, length-append {0} s.need_file (idx ∷ []))), v.1)

  settle_fixed-IsSwept :
      (con : Container p c d) (s : ScrubState p c d) (n idx : ℕ) (bad : List ℕ) (repaired : Bool)
      (fixed : Option (List Bytes))
      → Swept (s, none) n
      → Swept (settle_fixed p c d repair con s idx bad repaired fixed) (suc n)
  settle_fixed-IsSwept con s n idx bad repaired none v = defer_chunk-IsSwept s n idx v
  settle_fixed-IsSwept con s n idx bad repaired (some payloads) v =
      settle_decoded-IsSwept con.spec s n idx bad payloads repaired
        (decode_chunk p c d con.aead idx payloads) v

  sweep_gathered-IsSwept :
      (con : Container p c d) (s : ScrubState p c d) (n idx : ℕ)
      (got : Result (List Bytes × List ℕ))
      → Swept (s, none) n
      → Swept (sweep_gathered p c d repair con s idx got) (suc n)
  unfolding sweep_gathered
  sweep_gathered-IsSwept con s n idx (err e) v = ((λ failed. cc), v.1)
  sweep_gathered-IsSwept con s n idx (ok (payloads, bad)) v =
      let s' = record s { rep = record s.rep { shards_bad = s.rep.shards_bad + length bad } } in
      if_both (λ r. Swept r (suc n)) (ltb parity_shards (length bad))
        (defer_chunk-IsSwept s' n idx v)
        (if_both (λ r. Swept r (suc n)) (ltb 0 (length bad))
          (settle_fixed-IsSwept con s' n idx bad true
            (repair_intra p c d con.codecs.intra payloads bad) v)
          (settle_fixed-IsSwept con s' n idx bad false (some payloads) v))

  -- A pass over `rounds` chunks counts or defers that many.
  pub sweep-IsSwept :
      (con : Container p c d) (rounds idx n m : ℕ) (s : ScrubState p c d)
      → rounds + n ≡ m
      → Swept (s, none) n
      → Swept (sweep p c d repair con rounds idx s) m
  unfolding sweep
  sweep-IsSwept con zero idx n m s e v = ((λ _. omega (arith, v.0 refl)), v.1)
  sweep-IsSwept con (suc rounds) idx n m s e v =
      let got = gather_blob p c d s.disk con.spec idx in
      let swept = sweep_gathered p c d repair con s idx got in
      let step = sweep_gathered-IsSwept con s n idx got v in
      after_round p c d repair disk total length (sweep p c d repair con rounds (idx + 1) swept.0)
        swept m
        (λ fine.
          sweep-IsSwept con rounds (idx + 1) (suc n) m swept.0 (omega arith)
            ((λ _. step.0 fine), step.1))
        step.1
