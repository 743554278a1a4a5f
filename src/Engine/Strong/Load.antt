-- ===== src/Engine/Strong/Load.antt =====
-- LoadStrong on a file that Drain wrote and of which some slots were damaged since.
use secvault.Prelude.{
  All-append, ℕ, zero, suc, ◌+◌, ◌*◌, ◌^◌, ◌≤◌, ◌<◌, ◌≡◌, refl, ap, ◌∙◌, arith, List, [], ◌∷◌, ◌++◌,
  append-nil, Bytes, length, get_or, All, true, false, Bool-cases, inl, inr, ◌||◌, ◌==◌, ==_iff,
  ltb, leb, leb→le, leb→gt, if◌then◌else◌, none, some, length-append,
}
use secvault.Errors.{ok, err}
use secvault.Layout.{tag_size, k_strong, m_strong, strong_slots, strong_shard_size}
use secvault.Layout.Small.{strong_shard_size_pos}
use secvault.Crypto.{Primitives, IsCrypto, verify_tag}
use secvault.Codec.{Coding, IsEncoder}
use secvault.Device.{Device, IsFile, read_buffer, file_read}
use secvault.Device.Reads.{read_buffer_full}
use secvault.Engine.Strong.{
  sized, lost, gather_strong_slots, reconstruct_strong, recover, decode_strong_area, load_strong,
}
use secvault.Engine.Strong.Damage.{
  Slots, image, payloads, IsSized, Damaged, bad_from, holes, length-image, gather-image,
  erase-bad_from, length-bad_from, Erased-holes, payloads-undamaged, length-Damaged,
}
use secvault.Engine.Strong.Body.{data_part, length-data_part, data_part-All, decode-data_part}

pub length-get_or :
    (size : ℕ) (xs : List Bytes) (i : ℕ)
    → All (λ b. length b ≡ size) xs
    → i < length xs
    → length (get_or xs i []) ≡ size
length-get_or size [] i h lt = absurd (omega arith)
length-get_or size (x ∷ xs) zero h lt = h.0
length-get_or size (x ∷ xs) (suc i) h lt = length-get_or size xs i h.1 (omega arith)

pub sized-All :
    (size : ℕ) (xs : List Bytes) (bad : List ℕ)
    → All (λ b. length b ≡ size) xs
    → All (λ i. i < length xs) bad
    → sized xs size bad ≡ true
unfolding sized
sized-All size xs [] h lt = refl
sized-All size xs (i ∷ bad) h lt =
    rw ((==_iff _ size).1 (length-get_or size xs i h lt.0)) (sized-All size xs bad h lt.1)

module _ (p : Primitives) where
  pub bad_from-lt :
      (i n : ℕ) (slots : Slots) → i + length slots ≤ n → All (λ j. j < n) (bad_from p i slots)
  unfolding bad_from
  bad_from-lt i n [] h = tt
  bad_from-lt i n ((payload, tag) ∷ slots) h =
      let rest = bad_from-lt (i + 1) n slots (omega arith) in
      elim (Bool-cases (verify_tag p payload tag)) [
        | inl good ↦ rw good rest
        | inr bad ↦ rw bad (omega arith, rest)
      ]

first_payload :
    (size : ℕ) (slots : Slots)
    → IsSized size slots
    → 0 < length slots
    → length (get_or (payloads slots) 0 []) ≡ size
first_payload size [] h lt = absurd (omega arith)
first_payload size ((payload, tag) ∷ slots) h lt = h.0

module _ (p : Primitives) (c : Coding) (d : Device) (v : IsCrypto p) (enc : c.Encoder)
    (en : IsEncoder c k_strong m_strong enc) (aead : p.Aead) (nonce buf : Bytes)
    (e : length nonce ≡ 12) (small : length buf < 2 ^ 63) where
  abbrev size : ℕ
  size = strong_shard_size (length buf)

  abbrev data_shards : List Bytes
  data_shards = data_part p c d v aead nonce buf e small

  -- The 96 shards of the file.
  unfoldable pub codeword : List Bytes
  codeword = data_shards ++ en.parity data_shards

  pub codeword-All : All (λ b. length b ≡ size) codeword
  unfolding codeword
  codeword-All =
      let sizes = data_part-All p c d v aead nonce buf e small in
      All-append (λ b. length b ≡ size) data_shards (en.parity data_shards) sizes
        (en.parity_size size data_shards (strong_shard_size_pos (length buf), inl (omega arith))
          (length-data_part p c d v aead nonce buf e small) sizes)

  pub length-codeword : length codeword ≡ strong_slots
  unfolding codeword
  length-codeword = omega (
    arith,
    length-append {0} data_shards (en.parity data_shards),
    length-data_part p c d v aead nonce buf e small,
    en.length-parity data_shards,
  )

  module _ (slots : Slots) (n : ℕ) (dam : Damaged p codeword slots n)
      (sizes : IsSized size slots) where
    slots_96 : length slots ≡ strong_slots
    slots_96 = length-Damaged p dam ∙ length-codeword

    rebuilt : n ≤ m_strong → c.reconstruct enc (holes p slots) ≡ ok codeword
    unfolding codeword
    rebuilt few =
        en.reconstruct_lem size data_shards (holes p slots) n
          (strong_shard_size_pos (length buf), inl (omega arith))
          (length-data_part p c d v aead nonce buf e small)
          (data_part-All p c d v aead nonce buf e small) (Erased-holes p v dam) few

    abbrev bad : List ℕ
    bad = bad_from p 0 slots

    count : length bad ≡ n
    count = length-bad_from p v 0 dam

    rebuilt_checked :
        n ≤ m_strong → 0 < n → reconstruct_strong p c d enc (payloads slots) bad ≡ some codeword
    unfolding reconstruct_strong
    rebuilt_checked few pos =
        let within : (length bad == 0 || ltb m_strong (length bad)) ≡ false =
          ground (arith, count) in
        let first = first_payload size slots sizes (omega (arith, slots_96)) in
        let fits =
          sized-All size codeword bad codeword-All
            (bad_from-lt p 0 (length codeword) slots (omega (arith, slots_96, length-codeword))) in
        rw (within, erase-bad_from p [] slots 0 refl, rebuilt few, first, fits) refl

    -- Up to 64 bad slots, the shards that are decoded are those that were written.
    pub recover-damaged : n ≤ m_strong → recover p c d enc (payloads slots) bad ≡ some codeword
    unfolding recover
    recover-damaged few = elim (Bool-cases (ltb 0 (length bad))) [
      | inl any ↦ rw any (rebuilt_checked few (ground (arith, count)))
      | inr clean ↦
          let none_bad : n ≡ 0 = ground (arith, count) in
          rw clean (ap some (payloads-undamaged p dam none_bad))
    ]

    -- With more, none are.
    pub recover-lost : m_strong < n → recover p c d enc (payloads slots) bad ≡ none
    unfolding recover reconstruct_strong
    recover-lost many =
        let any : ltb 0 (length bad) ≡ true = ground (arith, count) in
        let over : (length bad == 0 || ltb m_strong (length bad)) ≡ true = ground (arith, count) in
        rw (any, over) refl

    module _ (f : IsFile d) (disk : d.Disk) (rest : Bytes)
        (on_disk : d.contents disk ≡ image slots ++ rest) where
      -- The 96 slots as they stand on disk, and the numbers of the bad ones.
      pub gather-disk : gather_strong_slots p c d disk (length buf) ≡ ok (payloads slots, bad)
      unfolding gather_strong_slots
      gather-disk =
          let total = strong_slots * (size + tag_size) in
          let long : length (image slots) ≡ total =
            length-image p size slots sizes ∙ ap (λ (k : ℕ). k * (size + tag_size)) slots_96 in
          let full : read_buffer total (file_read ([] ++ (image slots ++ rest)) 0 total)
              ≡ ok (image slots) =
            read_buffer_full [] (image slots) rest 0 total refl long (omega arith) in
          let parts = gather-image p 0 size slots [] sizes in
          rw (f.read_at_lem disk 0 total, on_disk, full)
            (ap ok (rw (slots_96, append-nil) at parts))

      -- On a file that does not fail, and that holds the 96 slots that Drain writes with n of them
      -- damaged (replaced by bytes whose tag does not verify), LoadStrong returns the plaintext if n
      -- is at most 64, and otherwise the error for a chunk beyond recovery.
      pub load_strong-damaged :
          load_strong p c d disk aead enc (length buf)
          ≡ (if leb n m_strong then ok buf else err (lost p c d))
      unfolding load_strong
      load_strong-damaged = elim (Bool-cases (leb n m_strong)) [
        | inl few ↦
            let plain : decode_strong_area p c d aead (length buf) size codeword ≡ ok buf =
              unfold codeword in
              decode-data_part p c d v aead nonce buf e small (en.parity data_shards) in
            rw (few, gather-disk, recover-damaged (leb→le n m_strong few), plain) refl
        | inr many ↦ rw (many, gather-disk, recover-lost (leb→gt n m_strong many)) refl
      ]
