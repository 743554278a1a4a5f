-- ===== src/Prelude/Slices.antt =====
-- Go's slices as lists: b[lo:hi], copy, the overwriting of a region, concatenation of equal parts.
use Prim.Native.Nat.{ℕ, zero, suc, ◌+◌, ◌-◌, ◌*◌, ◌≤◌}
use mathlib.Core.Path.{◌≡◌, refl, ap, sym, ◌∙◌}
use mathlib.Core.List.{List, [], ◌∷◌, ◌++◌, append_assoc}
use native.Mathlib.Omega.{arith}
use secvault.Prelude.Lists.{
  length, take, drop, replicate, All, length-append, length-take, length-drop, length-replicate,
  take-append, drop-append,
}

module _ {ℓ} {A : Type ℓ} where
  -- b[lo:hi]
  abbrev pub slice : ℕ → ℕ → List A → List A
  slice lo hi b = take (hi - lo) (drop lo b)

  -- copy(dst, src): the first min(len(dst), len(src)) elements are replaced.
  abbrev pub copy : List A → List A → List A
  copy [] src = []
  copy (d ∷ dst) [] = d ∷ dst
  copy (d ∷ dst) (s ∷ src) = s ∷ copy dst src

  -- copy(dst[off:], src)
  abbrev pub copy_at : ℕ → List A → List A → List A
  copy_at zero dst src = copy dst src
  copy_at (suc off) [] src = []
  copy_at (suc off) (d ∷ dst) src = d ∷ copy_at off dst src

  abbrev pub concat : List (List A) → List A
  concat [] = []
  concat (x ∷ xs) = x ++ concat xs

  -- n consecutive parts of `size` elements each.
  unfoldable pub chunks : ℕ → ℕ → List A → List (List A)
  chunks zero size b = []
  chunks (suc n) size b = take size b ∷ chunks n size (drop size b)

module _ {ℓ} {A : Type ℓ} where
  pub length-copy : (dst src : List A) → length (copy dst src) ≡ length dst
  length-copy [] src = refl
  length-copy (d ∷ dst) [] = refl
  length-copy (d ∷ dst) (s ∷ src) = ap suc (length-copy dst src)

  pub length-copy_at : (off : ℕ) (dst src : List A) → length (copy_at off dst src) ≡ length dst
  length-copy_at zero dst src = length-copy dst src
  length-copy_at (suc off) [] src = refl
  length-copy_at (suc off) (d ∷ dst) src = ap suc (length-copy_at off dst src)

  -- A source that fits replaces a front of its length.
  pub copy-append :
      (old rest src : List A) → length old ≡ length src → copy (old ++ rest) src ≡ src ++ rest
  copy-append [] [] [] e = refl
  copy-append [] (r ∷ rest) [] e = refl
  copy-append [] rest (s ∷ src) e = absurd (omega arith)
  copy-append (o ∷ old) rest [] e = absurd (omega arith)
  copy-append (o ∷ old) rest (s ∷ src) e = ap (◌∷◌ s) (copy-append old rest src (omega arith))

  pub copy_at-append :
      (off : ℕ) (front dst src : List A)
      → length front ≡ off
      → copy_at off (front ++ dst) src ≡ front ++ copy dst src
  copy_at-append zero [] dst src e = refl
  copy_at-append zero (f ∷ front) dst src e = absurd (omega arith)
  copy_at-append (suc off) [] dst src e = absurd (omega arith)
  copy_at-append (suc off) (f ∷ front) dst src e =
      ap (◌∷◌ f) (copy_at-append off front dst src (omega arith))

  pub copy-whole : (dst src : List A) → length dst ≡ length src → copy dst src ≡ src
  copy-whole [] [] e = refl
  copy-whole [] (s ∷ src) e = absurd (omega arith)
  copy-whole (d ∷ dst) [] e = absurd (omega arith)
  copy-whole (d ∷ dst) (s ∷ src) e = ap (◌∷◌ s) (copy-whole dst src (omega arith))

  pub replicate-add : (n m : ℕ) (a : A) → replicate (n + m) a ≡ replicate n a ++ replicate m a
  unfolding replicate
  replicate-add zero m a = ap (λ (k : ℕ). replicate k a) (omega arith)
  replicate-add (suc n) m a =
      let e : suc n + m ≡ suc (n + m) = omega arith in
      ap (λ (k : ℕ). replicate k a) e ∙ ap (◌∷◌ a) (replicate-add n m a)

  pub length-chunks : (n size : ℕ) (b : List A) → length (chunks n size b) ≡ n
  unfolding chunks
  length-chunks zero size b = refl
  length-chunks (suc n) size b = ap suc (length-chunks n size (drop size b))

  pub concat-append : (xs ys : List (List A)) → concat (xs ++ ys) ≡ concat xs ++ concat ys
  concat-append [] ys = refl
  concat-append (x ∷ xs) ys =
      ap (λ (r : List A). x ++ r) (concat-append xs ys)
      ∙ sym (append_assoc x (concat xs) (concat ys))

  -- Cutting a concatenation of equal parts gives the parts back.
  pub chunks-concat :
      (size : ℕ) (parts : List (List A)) (rest : List A)
      → All (λ p. length p ≡ size) parts
      → chunks (length parts) size (concat parts ++ rest) ≡ parts
  unfolding chunks
  chunks-concat size [] rest h = refl
  chunks-concat size (p ∷ ps) rest h = rw (
    append_assoc p (concat ps) rest,
    take-append size p (concat ps ++ rest) h.0,
    drop-append size p (concat ps ++ rest) h.0,
    chunks-concat size ps rest h.1,
  )

  pub concat-chunks : (n size : ℕ) (b : List A) → length b ≡ n * size → concat (chunks n size b) ≡ b
  unfolding chunks
  concat-chunks zero size [] e = refl
  concat-chunks zero size (x ∷ b) e = absurd (omega arith)
  concat-chunks (suc n) size b e =
      ap (λ (r : List A). take size b ++ r)
        (concat-chunks n size (drop size b) (grind (arith, length-drop size b)))
      ∙ secvault.Prelude.Lists.take-append-drop size b

  pub chunks-All :
      (n size : ℕ) (b : List A) → n * size ≤ length b → All (λ p. length p ≡ size) (chunks n size b)
  unfolding chunks
  chunks-All zero size b h = tt
  chunks-All (suc n) size b h = (
    grind (arith, length-take size b),
    chunks-All n size (drop size b) (grind (arith, length-drop size b)),
  )
