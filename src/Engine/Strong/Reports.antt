-- ===== src/Engine/Strong/Reports.antt =====
-- The report of ScrubStrong, on any content, and the file in a scrub with no leave to write.
use secvault.Prelude.{
  if_cases, if_both, ℕ, ◌+◌, ◌*◌, ◌≡◌, ◌≢◌, refl, ap, ◌∙◌, Bytes, length, Bool, true, false, ltb,
  Option, none, some, List, [], ◌∷◌,
}
use secvault.Errors.{Error, Result, ok, err}
use secvault.Layout.{tag_size, strong_slots, strong_shard_size}
use secvault.Crypto.{Primitives}
use secvault.Codec.{Coding}
use secvault.Device.{Device, IsFile, read_buffer}
use secvault.Device.Reads.{read_buffer_total}
use secvault.Engine.Stats.{ScrubStats}
use secvault.Engine.Strong.{
  gather, gather_strong_slots, recover, decode_strong_area, write_back, repaired_stats,
  written_back, settle_strong, settle_recovered, scrub_gathered, scrub_strong,
}
use secvault.Engine.Scrub.Reports.{IsReport}
use secvault.Engine.Scrub.Total.{Ended, ended, mapped_fine}

module _ (p : Primitives) (c : Coding) (d : Device) (repair : Bool) (disk : d.Disk) where
  -- A report on one chunk whose counts add up, and with no leave the file as it was.
  abbrev pub Kept : d.Disk × Result ScrubStats → Type 0
  Kept r = IsReport 1 r.1 × (repair ≡ false → r.0 ≡ disk)

  written_back-Kept :
      (bad : ℕ) (r : d.Disk × Option Error)
      → repair ≡ true
      → Kept (written_back p c d (repaired_stats p c d bad) r)
  written_back-Kept bad (after, none) leave = ((refl, refl), λ no_leave. cc)
  written_back-Kept bad (after, some e) leave = (tt, λ no_leave. cc)

  settle_strong-Kept :
      (shard_size : ℕ) (bad : List ℕ) (fixed : List Bytes) (r : Result Bytes)
      → Kept (settle_strong p c d repair disk shard_size bad fixed r)
  unfolding settle_strong
  settle_strong-Kept shard_size bad fixed (err e) = ((refl, refl), λ _. refl)
  settle_strong-Kept shard_size bad fixed (ok plain) =
      if_cases Kept (ltb 0 (length bad))
        (λ _.
          if_cases Kept repair
            (written_back-Kept (length bad) (write_back p c d disk shard_size fixed bad))
            (λ _. ((refl, refl), λ _. refl)))
        (λ _. ((refl, refl), λ _. refl))

  settle_recovered-Kept :
      (aead : p.Aead) (plain_size : ℕ) (bad : List ℕ) (fixed : Option (List Bytes))
      → Kept (settle_recovered p c d repair disk aead plain_size bad fixed)
  unfolding settle_recovered
  settle_recovered-Kept aead plain_size bad none = ((refl, refl), λ _. refl)
  settle_recovered-Kept aead plain_size bad (some fixed) =
      settle_strong-Kept (strong_shard_size plain_size) bad fixed
        (decode_strong_area p c d aead plain_size (strong_shard_size plain_size) fixed)

  scrub_gathered-Kept :
      (aead : p.Aead) (enc : c.Encoder) (plain_size : ℕ) (got : Result (List Bytes × List ℕ))
      → Kept (scrub_gathered p c d repair disk aead enc plain_size got)
  unfolding scrub_gathered
  scrub_gathered-Kept aead enc plain_size (err e) = (tt, λ _. refl)
  scrub_gathered-Kept aead enc plain_size (ok (shards, bad)) =
      settle_recovered-Kept aead plain_size bad (recover p c d enc shards bad)

  -- ScrubStrong.
  pub scrub_strong-Kept :
      (aead : p.Aead) (enc : c.Encoder) (plain_size : ℕ)
      → Kept (scrub_strong p c d repair disk aead enc plain_size)
  unfolding scrub_strong
  scrub_strong-Kept aead enc plain_size =
      scrub_gathered-Kept aead enc plain_size (gather_strong_slots p c d disk plain_size)

module _ (p : Primitives) (c : Coding) (d : Device) (f : IsFile d) where
  -- A call that returned no error.
  abbrev Fine : d.Disk × Result ScrubStats → Type 0
  Fine r = (e : Error) → r.1 ≢ err e

  write_back_ends :
      (shard_size : ℕ) (fixed : List Bytes) (bad : List ℕ) (disk : d.Disk)
      → Ended (write_back p c d disk shard_size fixed bad)
  unfolding write_back
  write_back_ends shard_size fixed [] disk = refl
  write_back_ends shard_size fixed (i ∷ bad) disk =
      ended (d.write_at disk _ _) _ (f.write_at_lem disk _ _)
        (write_back_ends shard_size fixed bad _)

  written_back-Fine :
      (st : ScrubStats) (r : d.Disk × Option Error) → Ended r → Fine (written_back p c d st r)
  written_back-Fine st (disk, none) h e = λ eq. cc
  written_back-Fine st (disk, some x) h e = cc

  settle_strong-Fine :
      (repair : Bool) (disk : d.Disk) (shard_size : ℕ) (bad : List ℕ) (fixed : List Bytes)
      (r : Result Bytes)
      → Fine (settle_strong p c d repair disk shard_size bad fixed r)
  unfolding settle_strong
  settle_strong-Fine repair disk shard_size bad fixed (err x) = λ e eq. cc
  settle_strong-Fine repair disk shard_size bad fixed (ok plain) =
      if_both Fine (ltb 0 (length bad))
        (if_both Fine repair
          (written_back-Fine _ (write_back p c d disk shard_size fixed bad)
            (write_back_ends shard_size fixed bad disk))
          (λ e eq. cc))
        (λ e eq. cc)

  settle_recovered-Fine :
      (repair : Bool) (disk : d.Disk) (aead : p.Aead) (plain_size : ℕ) (bad : List ℕ)
      (fixed : Option (List Bytes))
      → Fine (settle_recovered p c d repair disk aead plain_size bad fixed)
  unfolding settle_recovered
  settle_recovered-Fine repair disk aead plain_size bad none = λ e eq. cc
  settle_recovered-Fine repair disk aead plain_size bad (some fixed) =
      settle_strong-Fine repair disk (strong_shard_size plain_size) bad fixed
        (decode_strong_area p c d aead plain_size (strong_shard_size plain_size) fixed)

  scrub_gathered-Fine :
      (repair : Bool) (disk : d.Disk) (aead : p.Aead) (enc : c.Encoder) (plain_size : ℕ)
      (got : Result (List Bytes × List ℕ))
      → ((e : Error) → got ≢ err e)
      → Fine (scrub_gathered p c d repair disk aead enc plain_size got)
  unfolding scrub_gathered
  scrub_gathered-Fine repair disk aead enc plain_size (err x) h = absurd (h x refl)
  scrub_gathered-Fine repair disk aead enc plain_size (ok (shards, bad)) h =
      settle_recovered-Fine repair disk aead plain_size bad (recover p c d enc shards bad)

  gather_strong_slots_fine :
      (disk : d.Disk) (plain_size : ℕ) (e : Error)
      → gather_strong_slots p c d disk plain_size ≢ err e
  unfolding gather_strong_slots
  gather_strong_slots_fine disk plain_size e =
      let shard_size = strong_shard_size plain_size in
      let size = strong_slots * (shard_size + tag_size) in
      let (got, whole) = read_buffer_total (d.contents disk) 0 size in
      mapped_fine _ (gather p strong_slots 0 shard_size)
        (ap (read_buffer size) (f.read_at_lem disk 0 size) ∙ whole) e

  -- ScrubStrong on a file that does not fail.
  pub scrub_strong-Fine :
      (repair : Bool) (disk : d.Disk) (aead : p.Aead) (enc : c.Encoder) (plain_size : ℕ)
      → Fine (scrub_strong p c d repair disk aead enc plain_size)
  unfolding scrub_strong
  scrub_strong-Fine repair disk aead enc plain_size =
      scrub_gathered-Fine repair disk aead enc plain_size
        (gather_strong_slots p c d disk plain_size) (gather_strong_slots_fine disk plain_size)
