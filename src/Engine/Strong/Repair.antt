-- ===== src/Engine/Strong/Repair.antt =====
-- ScrubStrong of internal/engine/scrub.go on a file that Drain wrote and that was damaged since.
use secvault.Prelude.{
  ℕ, zero, suc, ◌+◌, ◌*◌, ◌^◌, ◌≤◌, ◌<◌, ◌≡◌, refl, sym, ap, ◌∙◌, arith, List, [], ◌∷◌, ◌++◌,
  append_assoc, Bytes, zeros, replicate, length, get_or, copy, copy_at, All, Bool, true, false,
  Bool-cases, inl, inr, ◌&&◌, lt→ltb, ltb, leb, leb→le, leb→gt, if◌then◌else◌, Option, none, some,
  length-append, length-replicate, replicate-add, copy-append, copy_at-append, copy-whole,
}
use secvault.Errors.{Error, Result, ok}
use secvault.Layout.{tag_size, k_strong, m_strong, strong_shard_size}
use secvault.Crypto.{Primitives, IsCrypto, shard_tag}
use secvault.Crypto.Tags.{length-shard_tag, verify_tag_iff}
use secvault.Codec.{Coding, IsEncoder}
use secvault.Device.{Device, IsFile, overwrite}
use secvault.Device.Reads.{overwrite-middle}
use secvault.Engine.Stats.{ScrubStats, fresh_stats}
use secvault.Engine.Strong.{
  new_slot, write_back, recover, written_back, settle_strong, settle_recovered, scrub_gathered,
  scrub_strong, lost_stats, decode_strong_area,
}
use secvault.Engine.Strong.Damage.{
  Slots, image, payloads, IsSized, Damaged, done, intact, hit, bad_from, length-bad_from,
}
use secvault.Engine.Strong.Body.{data_part, decode-data_part}
use secvault.Engine.Strong.Load.{codeword, codeword-All, gather-disk, recover-damaged, recover-lost}
use secvault.Engine.Strong.Written.{tagged}

-- The buffer of a slot that is written back.
slot_buffer :
    (size : ℕ) (payload tag : Bytes)
    → length payload ≡ size
    → length tag ≡ tag_size
    → copy_at size (copy (zeros (size + tag_size)) payload) tag ≡ payload ++ tag
unfolding zeros
slot_buffer size payload tag ep et =
    ap (λ (z : Bytes). copy_at size (copy z payload) tag) (replicate-add size tag_size 0)
    ∙ ap (λ (z : Bytes). copy_at size z tag)
        (copy-append (replicate size 0) (replicate tag_size 0) payload
          (length-replicate {A = ℕ} size 0 ∙ sym ep))
    ∙ copy_at-append size payload (replicate tag_size 0) tag ep
    ∙ ap (λ (r : Bytes). payload ++ r)
        (copy-whole (replicate tag_size 0) tag (length-replicate {A = ℕ} tag_size 0 ∙ sym et))

pub get_or-middle :
    (front : List Bytes) (b : Bytes) (rest : List Bytes) (i : ℕ)
    → length front ≡ i
    → get_or (front ++ (b ∷ rest)) i [] ≡ b
get_or-middle [] b rest zero e = refl
get_or-middle [] b rest (suc i) e = absurd (omega arith)
get_or-middle (x ∷ front) b rest zero e = absurd (omega arith)
get_or-middle (x ∷ front) b rest (suc i) e = get_or-middle front b rest i (omega arith)

regroup : (pre s x rest : Bytes) → pre ++ ((s ++ x) ++ rest) ≡ (pre ++ s) ++ (x ++ rest)
regroup pre s x rest = simp append_assoc

module _ (p : Primitives) (c : Coding) (d : Device) (v : IsCrypto p) (f : IsFile d) (size : ℕ) where
  abbrev width : ℕ
  width = size + tag_size

  new_slot-middle :
      (front : List Bytes) (b : Bytes) (bs : List Bytes) (i : ℕ)
      → length front ≡ i
      → length b ≡ size
      → new_slot p c d size (front ++ (b ∷ bs)) i ≡ b ++ shard_tag p b
  unfolding new_slot
  new_slot-middle front b bs i ef eb =
      rw (get_or-middle front b bs i ef)
        (slot_buffer size b (shard_tag p b) eb (length-shard_tag p v b))

  -- One round of the loop on a file that does not fail.
  write_back_step :
      (disk : d.Disk) (front : List Bytes) (b : Bytes) (bs : List Bytes) (i : ℕ) (bad : List ℕ)
      → length front ≡ i
      → length b ≡ size
      → write_back p c d disk size (front ++ (b ∷ bs)) (i ∷ bad)
        ≡ write_back p c d
            (d.write_at disk (i * width) (b ++ shard_tag p b)).0
            size
            (front ++ (b ∷ bs))
            bad
  unfolding write_back
  write_back_step disk front b bs i bad ef eb =
      let fixed = front ++ (b ∷ bs) in
      let after = λ (x : Bytes). (d.write_at disk (i * width) x).0 in
      let rest = write_back p c d (after (new_slot p c d size fixed i)) size fixed bad in
      ap
        (λ (o : Option Error). elim o as (λ _. d.Disk × Option Error) [
          | none ↦ rest
          | some e ↦ (after (new_slot p c d size fixed i), some e)
        ])
        (f.write_at_lem disk (i * width) (new_slot p c d size fixed i))
      ∙ ap (λ (x : Bytes). write_back p c d (after x) size fixed bad)
          (new_slot-middle front b bs i ef eb)

  -- The bytes before a slot grow by a slot.
  next_offset :
      (pre payload tag : Bytes) (i : ℕ)
      → length pre ≡ i * width
      → length payload ≡ size
      → length tag ≡ tag_size
      → length (pre ++ (payload ++ tag)) ≡ (i + 1) * width
  next_offset pre payload tag i e ep et =
      grind (arith, length-append pre (payload ++ tag), length-append payload tag)

  abbrev Restored : d.Disk → List Bytes → List ℕ → Bytes → Type 0
  Restored disk fixed bad after =
      ((write_back p c d disk size fixed bad).1 ≡ none)
      × (d.contents (write_back p c d disk size fixed bad).0 ≡ after)

  -- Writing the bad slots back leaves every slot as it was written, and the bytes around them.
  pub write_back-restores :
      {bs : List Bytes} {slots : Slots} {n : ℕ} (front : List Bytes) (pre rest : Bytes) (i : ℕ)
      (disk : d.Disk)
      → Damaged p bs slots n
      → IsSized size slots
      → All (λ b. length b ≡ size) bs
      → length front ≡ i
      → length pre ≡ i * width
      → d.contents disk ≡ pre ++ (image slots ++ rest)
      → Restored disk (front ++ bs) (bad_from p i slots) (pre ++ (image (tagged p v bs) ++ rest))
  unfolding bad_from tagged
  write_back-restores front pre rest i disk done sized all ef ep on_disk =
      unfold write_back in (refl, on_disk)
  write_back-restores front pre rest i disk (intact {b} {bs} {slots} dam) sized all ef ep on_disk =
      let s = b ++ shard_tag p b in
      let (fine, restored) =
        write_back-restores (front ++ (b ∷ [])) (pre ++ s) rest (i + 1) disk dam sized.2 all.1
          (omega (arith, length-append {0} front (b ∷ [])))
          (next_offset pre b (shard_tag p b) i ep sized.0 sized.1)
          (on_disk ∙ regroup pre s (image slots) rest) in
      rw ((verify_tag_iff p v b (shard_tag p b)).1 refl) (
        rw (append_assoc front (b ∷ []) bs) at fine,
        rw (append_assoc front (b ∷ []) bs) at restored
            ∙ sym (regroup pre s (image (tagged p v bs)) rest),
      )
  write_back-restores front pre rest i disk (hit {b} {payload} {tag} {bs} {slots} bad dam) sized all
        ef ep on_disk =
      let s = b ++ shard_tag p b in
      let disk' = (d.write_at disk (i * width) s).0 in
      let same : length (payload ++ tag) ≡ length s = omega (
        arith,
        length-append {0} payload tag,
        length-append {0} b (shard_tag p b),
        length-shard_tag p v b,
        sized.0,
        sized.1,
        all.0,
      ) in
      let written : d.contents disk' ≡ pre ++ (s ++ (image slots ++ rest)) =
        f.write_at_contents disk (i * width) s
        ∙ ap (λ (b : Bytes). overwrite b (i * width) s)
            (on_disk
              ∙ ap (λ (r : Bytes). pre ++ r) (append_assoc (payload ++ tag) (image slots) rest))
        ∙ overwrite-middle pre (payload ++ tag) (image slots ++ rest) s (i * width) ep same in
      let (fine, restored) =
        write_back-restores (front ++ (b ∷ [])) (pre ++ s) rest (i + 1) disk' dam sized.2 all.1
          (omega (arith, length-append {0} front (b ∷ [])))
          (next_offset pre b (shard_tag p b) i ep all.0 (length-shard_tag p v b))
          (written ∙ sym (append_assoc pre s (image slots ++ rest))) in
      rw (bad, write_back_step disk front b bs i (bad_from p (i + 1) slots) ef all.0)
        (
          rw (append_assoc front (b ∷ []) bs) at fine,
          rw (append_assoc front (b ∷ []) bs) at restored
              ∙ sym (regroup pre s (image (tagged p v bs)) rest),
        )

-- The report on a file with n bad slots.
abbrev pub stats_of : ℕ → ScrubStats
stats_of n =
    if leb n m_strong
    then (if ltb 0 n
        then record (fresh_stats 1) { shards_bad = n; chunks_repaired = 1; shards_repaired = n }
        else record (fresh_stats 1) { chunks_clean = 1 })
    else record (fresh_stats 1) { shards_bad = n; chunks_lost = 0 ∷ [] }

module _ (p : Primitives) (c : Coding) (d : Device) where
  written_back-none :
      (st : ScrubStats) (r : d.Disk × Option Error)
      → r.1 ≡ none
      → written_back p c d st r ≡ (r.0, ok st)
  written_back-none st (disk, none) e = refl
  written_back-none st (disk, some x) e = cc

  -- What settle_strong answers for shards that decode, where the loop of writes would succeed.
  settle-restores :
      (repair : Bool) (disk : d.Disk) (size : ℕ) (bad : List ℕ) (fixed : List Bytes)
      (plain after : Bytes)
      → length bad ≤ m_strong
      → (write_back p c d disk size fixed bad).1 ≡ none
      → d.contents (write_back p c d disk size fixed bad).0 ≡ after
      → ((settle_strong p c d repair disk size bad fixed (ok plain)).1 ≡ ok (stats_of (length bad)))
        × (d.contents (settle_strong p c d repair disk size bad fixed (ok plain)).0
            ≡ (if repair then after else d.contents disk))
  unfolding settle_strong
  settle-restores true disk size [] fixed plain after few fine e = (refl, unfold write_back in e)
  settle-restores false disk size [] fixed plain after few fine e = (refl, refl)
  settle-restores true disk size (i ∷ bad) fixed plain after few fine e =
      let within : leb (suc (length bad)) m_strong ≡ true = ground arith in
      rw
        (
          within,
          lt→ltb 0 (suc (length bad)) (omega arith),
          written_back-none _ (write_back p c d disk size fixed (i ∷ bad)) fine,
        )
        (refl, e)
  settle-restores false disk size (i ∷ bad) fixed plain after few fine e =
      let within : leb (suc (length bad)) m_strong ≡ true = ground arith in
      rw (within, lt→ltb 0 (suc (length bad)) (omega arith)) (refl, refl)

module _ (p : Primitives) (c : Coding) (d : Device) (v : IsCrypto p) (f : IsFile d)
    (enc : c.Encoder) (en : IsEncoder c k_strong m_strong enc) (aead : p.Aead) (nonce buf : Bytes)
    (e : length nonce ≡ 12) (small : length buf < 2 ^ 63) where
  abbrev size : ℕ
  size = strong_shard_size (length buf)

  abbrev shards : List Bytes
  shards = codeword p c d v enc en aead nonce buf e small

  module _ (slots : Slots) (n : ℕ) (disk : d.Disk) (rest : Bytes) (repair : Bool)
      (dam : Damaged p shards slots n) (sizes : IsSized size slots)
      (on_disk : d.contents disk ≡ image slots ++ rest) where
    abbrev bad : List ℕ
    bad = bad_from p 0 slots

    count : length bad ≡ n
    count = length-bad_from p v 0 dam

    decoded : decode_strong_area p c d aead (length buf) size shards ≡ ok buf
    unfolding codeword
    decoded =
        decode-data_part p c d v aead nonce buf e small
          (en.parity (data_part p c d v aead nonce buf e small))

    scrub_recovered :
        {o : Option (List Bytes)}
        → recover p c d enc (payloads slots) bad ≡ o
        → scrub_strong p c d repair disk aead enc (length buf)
          ≡ settle_recovered p c d repair disk aead (length buf) bad o
    unfolding scrub_strong scrub_gathered
    scrub_recovered found =
        ap (scrub_gathered p c d repair disk aead enc (length buf))
          (gather-disk p c d v enc en aead nonce buf e small slots n dam sizes f disk rest on_disk)
        ∙ ap (settle_recovered p c d repair disk aead (length buf) bad) found

    scrub_few :
        n ≤ m_strong
        → scrub_strong p c d repair disk aead enc (length buf)
          ≡ settle_strong p c d repair disk size bad shards (ok buf)
    unfolding settle_recovered
    scrub_few few =
        scrub_recovered
          (recover-damaged p c d v enc en aead nonce buf e small slots n dam sizes few)
        ∙ ap (settle_strong p c d repair disk size bad shards) decoded

    scrub_many :
        m_strong < n
        → scrub_strong p c d repair disk aead enc (length buf) ≡ (disk, ok (lost_stats p c d n))
    unfolding settle_recovered
    scrub_many many =
        scrub_recovered (recover-lost p c d v enc en aead nonce buf e small slots n dam sizes many)
        ∙ ap (λ (k : ℕ). (disk, ok (lost_stats p c d k))) count

    abbrev Outcome : d.Disk × Result ScrubStats → Type 0
    Outcome r =
        (r.1 ≡ ok (stats_of n))
        × (d.contents r.0 ≡ (
            if leb n m_strong && repair
            then image (tagged p v shards) ++ rest
            else d.contents disk))

    -- On a file that does not fail, and that holds the 96 slots of Drain with n of them damaged:
    -- ScrubStrong reports one chunk, clean if n is 0, repaired if n is 1 to 64, lost if more, and the
    -- report does not depend on whether it may write. If it may, and n is at most 64, the file holds
    -- afterwards every byte that Drain wrote, and what follows is unchanged; else nothing is written.
    pub scrub_strong-damaged : Outcome (scrub_strong p c d repair disk aead enc (length buf))
    scrub_strong-damaged = elim (Bool-cases (leb n m_strong)) [
      | inl few ↦
          let le : n ≤ m_strong = leb→le n m_strong few in
          let (fine, after) =
            write_back-restores p c d v f size [] [] rest 0 disk dam sizes
              (codeword-All p c d v enc en aead nonce buf e small) refl (omega arith) on_disk in
          let le' : length bad ≤ m_strong = omega (arith, count) in
          let (report, contents) =
            settle-restores p c d repair disk size bad shards buf _ le' fine after in
          rw (scrub_few le, few)
            (report ∙ ap (λ (k : ℕ). ok (stats_of k)) count ∙ rw few refl, contents)
      | inr many ↦ rw (scrub_many (leb→gt n m_strong many), many) (refl, refl)
    ]
