-- ===== src/Engine/Container/Repair.antt =====
-- RepairIntra of internal/engine/container.go on a blob of which some slots were damaged.
use secvault.Prelude.{
  All-append, ℕ, ◌+◌, ◌≤◌, ◌<◌, ◌≡◌, refl, ap, ◌∙◌, arith, List, [], ◌∷◌, ◌++◌, append_assoc, Bytes,
  length, length-append, set, All, false, Bool-cases, inl, inr, ◌||◌, ◌==◌, ltb, if◌then◌else◌,
  some,
}
use secvault.Layout.{data_shards, parity_shards, shards_per_blob, shard_size}
use secvault.Crypto.{Primitives, IsCrypto, shard_tag}
use secvault.Crypto.Tags.{verify_tag_iff}
use secvault.Codec.{Coding, IsEncoder, FitsShards}
use secvault.Device.{Device}
use secvault.Engine.Strong.Damage.{
  Slots, payloads, Damaged, done, intact, hit, bad_from, holes, erase-bad_from, length-bad_from,
  Erased-holes, payloads-undamaged, length-Damaged, set-middle,
}
use secvault.Engine.Strong.Repair.{get_or-middle}
use secvault.Engine.Strong.Load.{sized-All, bad_from-lt}
use secvault.Engine.Container.{replace, repair_intra}

replace-middle :
    (pre ps bs : List Bytes) (payload b : Bytes) (i : ℕ) (bad : List ℕ)
    → length pre ≡ i
    → replace (pre ++ (payload ∷ ps)) (pre ++ (b ∷ bs)) (i ∷ bad)
      ≡ replace (pre ++ (b ∷ ps)) (pre ++ (b ∷ bs)) bad
unfolding replace
replace-middle pre ps bs payload b i bad e =
    ap (λ (x : Bytes). replace (set (pre ++ (payload ∷ ps)) i x) (pre ++ (b ∷ bs)) bad)
      (get_or-middle pre b bs i e)
    ∙ ap (λ (l : List Bytes). replace l (pre ++ (b ∷ bs)) bad) (set-middle pre ps payload b i e)

module _ (p : Primitives) (v : IsCrypto p) where
  -- Taking the bad payloads from the shards gives the shards.
  replace-bad_from :
      {bs : List Bytes} {slots : Slots} {n : ℕ} (pre : List Bytes) (i : ℕ)
      → Damaged p bs slots n
      → length pre ≡ i
      → replace (pre ++ payloads slots) (pre ++ bs) (bad_from p i slots) ≡ pre ++ bs
  unfolding bad_from
  replace-bad_from pre i done e = unfold replace in refl
  replace-bad_from pre i (intact {b} {bs} {slots} dam) e =
      let next =
        replace-bad_from (pre ++ (b ∷ [])) (i + 1) dam
          (omega (arith, length-append {0} pre (b ∷ []))) in
      rw ((verify_tag_iff p v b (shard_tag p b)).1 refl)
        (rw (append_assoc pre (b ∷ []) bs, append_assoc pre (b ∷ []) (payloads slots)) at next)
  replace-bad_from pre i (hit {b} {payload} {tag} {bs} {slots} bad dam) e =
      let next =
        replace-bad_from (pre ++ (b ∷ [])) (i + 1) dam
          (omega (arith, length-append {0} pre (b ∷ []))) in
      rw bad (
        replace-middle pre (payloads slots) bs payload b i (bad_from p (i + 1) slots) e
        ∙ rw (append_assoc pre (b ∷ []) bs, append_assoc pre (b ∷ []) (payloads slots)) at next)

module _ (p : Primitives) (c : Coding) (d : Device) (v : IsCrypto p) (enc : c.Encoder)
    (en : IsEncoder c data_shards parity_shards enc) (shards : List Bytes)
    (count : length shards ≡ data_shards) (sizes : All (λ b. length b ≡ shard_size) shards) where
  abbrev pub codeword : List Bytes
  codeword = shards ++ en.parity shards

  fits : FitsShards data_shards parity_shards shard_size
  fits = omega arith

  pub codeword-sizes : All (λ b. length b ≡ shard_size) codeword
  codeword-sizes =
      All-append (λ b. length b ≡ shard_size) shards (en.parity shards) sizes
        (en.parity_size shard_size shards fits count sizes)

  pub codeword-count : length codeword ≡ shards_per_blob
  codeword-count =
      omega (arith, length-append {0} shards (en.parity shards), count, en.length-parity shards)

  module _ (slots : Slots) (n : ℕ) (dam : Damaged p codeword slots n)
      (few : n ≤ parity_shards) where
    abbrev bad : List ℕ
    bad = bad_from p 0 slots

    repaired : 0 < n → repair_intra p c d enc (payloads slots) bad ≡ some codeword
    unfolding repair_intra
    repaired any =
        let within : (length bad == 0 || ltb parity_shards (length bad)) ≡ false =
          ground (arith, length-bad_from p v 0 dam) in
        let rebuilt =
          en.reconstruct_lem shard_size shards (holes p slots) n fits count sizes
            (Erased-holes p v dam) few in
        let whole =
          sized-All shard_size codeword bad codeword-sizes
            (bad_from-lt p 0 (length codeword) slots (omega (arith, length-Damaged p dam))) in
        rw (within, erase-bad_from p [] slots 0 refl, rebuilt, whole)
          (ap some (replace-bad_from p v [] 0 dam refl))

    -- The payloads that are decoded are the shards that were written.
    pub repair_intra-Damaged :
        (if ltb 0 (length bad)
          then repair_intra p c d enc (payloads slots) bad
          else some (payloads slots))
        ≡ some codeword
    repair_intra-Damaged = elim (Bool-cases (ltb 0 (length bad))) [
      | inl any ↦ rw any (repaired (ground (arith, length-bad_from p v 0 dam)))
      | inr clean ↦
          let none_bad : n ≡ 0 = ground (arith, length-bad_from p v 0 dam) in
          rw clean (ap some (payloads-undamaged p dam none_bad))
    ]
