-- ===== src/Engine/Strong/Damage.antt =====
-- Damaged slots: what gatherStrongSlots and the erasure of bad slots make of a file in which some
-- slots were replaced by bytes whose tag does not verify.
use secvault.Prelude.{
  ℕ, zero, suc, ◌+◌, ◌-◌, ◌*◌, ◌≡◌, refl, ap, ◌∙◌, arith, List, [], ◌∷◌, ◌++◌, append_assoc, Bytes,
  length, set, false, Bool-cases, inl, inr, if◌then◌else◌, length-append, take-append, drop-append,
  drop-past,
}
use secvault.Layout.{tag_size}
use secvault.Crypto.{Primitives, IsCrypto, shard_tag, verify_tag}
use secvault.Crypto.Tags.{verify_tag_iff}
use secvault.Codec.{Erased, none_left, kept, missing}
use secvault.Engine.Strong.{gather, erase}

-- Slots on disk: payload and tag.
abbrev pub Slots : Type 0
Slots = List (Bytes × Bytes)

abbrev pub image : Slots → Bytes
image [] = []
image ((payload, tag) ∷ slots) = (payload ++ tag) ++ image slots

abbrev pub payloads : Slots → List Bytes
payloads [] = []
payloads ((payload, tag) ∷ slots) = payload ∷ payloads slots

abbrev pub IsSized : ℕ → Slots → Type 0
IsSized size [] = Unit {0}
IsSized size ((payload, tag) ∷ slots) =
    (length payload ≡ size) × (length tag ≡ tag_size) × IsSized size slots

pub set-middle :
    (pre rest : List Bytes) (x v : Bytes) (i : ℕ)
    → length pre ≡ i
    → set (pre ++ (x ∷ rest)) i v ≡ pre ++ (v ∷ rest)
set-middle [] rest x v zero e = refl
set-middle [] rest x v (suc i) e = absurd (omega arith)
set-middle (y ∷ pre) rest x v zero e = absurd (omega arith)
set-middle (y ∷ pre) rest x v (suc i) e = ap (◌∷◌ y) (set-middle pre rest x v i (omega arith))

module _ (p : Primitives) where
  -- The slots that hold `shards`, all but n of them with their tags; the n others have a tag that
  -- does not verify.
  pub data Damaged : List Bytes → Slots → ℕ → Type 0 where
    done : Damaged [] [] 0
    intact :
        {b : Bytes} {bs : List Bytes} {slots : Slots} {n : ℕ}
        → Damaged bs slots n
        → Damaged (b ∷ bs) ((b, shard_tag p b) ∷ slots) n
    hit :
        {b payload tag : Bytes} {bs : List Bytes} {slots : Slots} {n : ℕ}
        → verify_tag p payload tag ≡ false
        → Damaged bs slots n
        → Damaged (b ∷ bs) ((payload, tag) ∷ slots) (suc n)

  -- The numbers of the bad slots, from i on, and the payloads with the bad ones left out.
  unfoldable pub bad_from : ℕ → Slots → List ℕ
  bad_from i [] = []
  bad_from i ((payload, tag) ∷ slots) =
      let rest = bad_from (i + 1) slots in if verify_tag p payload tag then rest else i ∷ rest

  unfoldable pub holes : Slots → List Bytes
  holes [] = []
  holes ((payload, tag) ∷ slots) = (if verify_tag p payload tag then payload else []) ∷ holes slots

  pub length-image :
      (size : ℕ) (slots : Slots)
      → IsSized size slots
      → length (image slots) ≡ length slots * (size + tag_size)
  length-image size [] h = omega arith
  length-image size ((payload, tag) ∷ slots) h = grind (
    arith,
    length-append (payload ++ tag) (image slots),
    length-append payload tag,
    length-image size slots h.2,
  )

  pub gather-image :
      (i size : ℕ) (slots : Slots) (rest : Bytes)
      → IsSized size slots
      → gather p (length slots) i size (image slots ++ rest) ≡ (payloads slots, bad_from i slots)
  unfolding gather bad_from
  gather-image i size [] rest h = refl
  gather-image i size ((payload, tag) ∷ slots) rest h =
      let whole : ((payload ++ tag) ++ image slots) ++ rest
          ≡ payload ++ (tag ++ (image slots ++ rest)) =
        simp append_assoc in
      let width : size + tag_size - size ≡ tag_size = omega arith in
      rw
        (
          whole,
          width,
          take-append size payload (tag ++ (image slots ++ rest)) h.0,
          drop-append size payload (tag ++ (image slots ++ rest)) h.0,
          take-append tag_size tag (image slots ++ rest) h.1,
          drop-past size tag_size payload (tag ++ (image slots ++ rest)) h.0,
          drop-append tag_size tag (image slots ++ rest) h.1,
          gather-image (i + 1) size slots rest h.2,
        )
        refl

  pub erase-bad_from :
      (pre : List Bytes) (slots : Slots) (i : ℕ)
      → length pre ≡ i
      → erase (pre ++ payloads slots) (bad_from i slots) ≡ pre ++ holes slots
  unfolding erase bad_from holes
  erase-bad_from pre [] i e = refl
  erase-bad_from pre ((payload, tag) ∷ slots) i e =
      let go = λ (x : Bytes).
        rw (append_assoc pre (x ∷ []) (payloads slots), append_assoc pre (x ∷ []) (holes slots)) at
          (erase-bad_from (pre ++ (x ∷ [])) slots (i + 1)
            (omega (arith, length-append {0} pre (x ∷ [])))) in
      elim (Bool-cases (verify_tag p payload tag)) [
        | inl good ↦ rw good (go payload)
        | inr bad ↦
            let cleared = set-middle pre (payloads slots) payload [] i e in
            rw bad (ap (λ (v : List Bytes). erase v (bad_from (i + 1) slots)) cleared ∙ go [])
      ]

  pub length-bad_from :
      (c : IsCrypto p) {bs : List Bytes} {slots : Slots} {n : ℕ} (i : ℕ)
      → Damaged bs slots n
      → length (bad_from i slots) ≡ n
  unfolding bad_from
  length-bad_from c i done = refl
  length-bad_from c i (intact {b} d) =
      rw ((verify_tag_iff p c b (shard_tag p b)).1 refl) (length-bad_from c (i + 1) d)
  length-bad_from c i (hit bad d) = rw bad (ap suc (length-bad_from c (i + 1) d))

  pub Erased-holes :
      (c : IsCrypto p) {bs : List Bytes} {slots : Slots} {n : ℕ}
      → Damaged bs slots n
      → Erased bs (holes slots) n
  unfolding holes
  Erased-holes c done = none_left
  Erased-holes c (intact {b} d) =
      rw ((verify_tag_iff p c b (shard_tag p b)).1 refl) (kept (Erased-holes c d))
  Erased-holes c (hit bad d) = rw bad (missing (Erased-holes c d))

  -- With no bad slot the payloads are the shards.
  pub payloads-undamaged :
      {bs : List Bytes} {slots : Slots} {n : ℕ} → Damaged bs slots n → n ≡ 0 → payloads slots ≡ bs
  payloads-undamaged done e = refl
  payloads-undamaged (intact {b} d) e = ap (◌∷◌ b) (payloads-undamaged d e)
  payloads-undamaged (hit bad d) e = absurd (omega arith)

  pub length-Damaged :
      {bs : List Bytes} {slots : Slots} {n : ℕ} → Damaged bs slots n → length slots ≡ length bs
  length-Damaged done = refl
  length-Damaged (intact d) = ap suc (length-Damaged d)
  length-Damaged (hit bad d) = ap suc (length-Damaged d)
