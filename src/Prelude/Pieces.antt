-- ===== src/Prelude/Pieces.antt =====
-- A list cut into pieces of one length, the last one shorter.
use Prim.Native.Nat.{ℕ, zero, suc, ◌-◌, ◌*◌, ◌≤◌, ◌<◌, min}
use mathlib.Core.Path.{◌≡◌, refl, ap, ◌∙◌, subst}
use mathlib.Core.List.{List, [], ◌∷◌, ◌++◌, append_assoc}
use native.Mathlib.Omega.{arith}
use secvault.Prelude.Lists.{
  length, take, drop, get_or, All, All-take, All-drop, length-take, length-drop, take-append,
  drop-append, take_self, drop-all, length-append,
}
use secvault.Prelude.Slices.{concat}

module _ {ℓ} {A : Type ℓ} where
  -- Fuel: the length of the list.
  unfoldable pub pieces : ℕ → ℕ → List A → List (List A)
  pieces zero n b = []
  pieces (suc fuel) n [] = []
  pieces (suc fuel) n (x ∷ b) = take n (x ∷ b) ∷ pieces fuel n (drop n (x ∷ b))

  -- The piece that is left, if it is not empty.
  abbrev pub last_piece : List A → List (List A)
  last_piece [] = []
  last_piece (x ∷ b) = (x ∷ b) ∷ []

  pieces-nil : (fuel n : ℕ) → pieces fuel n [] ≡ []
  unfolding pieces
  pieces-nil zero n = refl
  pieces-nil (suc fuel) n = refl

  pieces-last :
      (fuel n : ℕ) (b : List A) → length b < n → length b ≤ fuel → pieces fuel n b ≡ last_piece b
  unfolding pieces
  pieces-last fuel n [] short h = pieces-nil fuel n
  pieces-last zero n (x ∷ b) short h = absurd (omega arith)
  pieces-last (suc fuel) n (x ∷ b) short h =
      rw (take_self n (x ∷ b) (omega arith), drop-all n (x ∷ b) (omega arith), pieces-nil fuel n)
        refl

  pub pieces-concat :
      (fuel n : ℕ) (fulls : List (List A)) (b : List A)
      → All (λ f. length f ≡ n) fulls
      → length b < n
      → length (concat fulls ++ b) ≤ fuel
      → pieces fuel n (concat fulls ++ b) ≡ fulls ++ last_piece b
  unfolding pieces
  pieces-concat fuel n [] b hf short h = pieces-last fuel n b short h
  pieces-concat fuel n ([] ∷ fulls) b hf short h = absurd (omega (arith, hf.0))
  pieces-concat zero n ((x ∷ f) ∷ fulls) b hf short h = absurd (omega arith)
  pieces-concat (suc fuel) n ((x ∷ f) ∷ fulls) b hf short h =
      let e : ((x ∷ f) ++ concat fulls) ++ b ≡ (x ∷ f) ++ (concat fulls ++ b) =
        append_assoc (x ∷ f) (concat fulls) b in
      let rest = concat fulls ++ b in
      let len = length-append (x ∷ f) rest in
      let bound : length ((x ∷ f) ++ rest) ≤ suc fuel = subst (λ r. length r ≤ suc fuel) e h in
      ap (pieces (suc fuel) n) e
      ∙ rw (take-append n (x ∷ f) rest hf.0, drop-append n (x ∷ f) rest hf.0)
          (ap (◌∷◌ (x ∷ f)) (pieces-concat fuel n fulls b hf.1 short (omega (arith, bound, len))))

-- The list of the numbers below n.
abbrev pub upto : ℕ → List ℕ
upto zero = []
upto (suc n) = upto n ++ (n ∷ [])

module _ {ℓ} {A : Type ℓ} where
  -- Each piece, by its number.
  pub length-piece :
      (fuel n : ℕ) (b : List A) (g : ℕ)
      → 0 < n
      → length b ≤ fuel
      → length (get_or (pieces fuel n b) g []) ≡ min n (length b - g * n)
  unfolding pieces
  length-piece zero n [] g pos_n h = omega arith
  length-piece zero n (x ∷ b) g pos_n h = absurd (omega arith)
  length-piece (suc fuel) n [] g pos_n h = omega arith
  length-piece (suc fuel) n (x ∷ b) zero pos_n h = omega (arith, length-take n (x ∷ b))
  length-piece (suc fuel) n (x ∷ b) (suc g) pos_n h = grind (
    arith,
    length-piece fuel n (drop n (x ∷ b)) g pos_n (omega (arith, length-drop n (x ∷ b))),
    length-drop n (x ∷ b),
  )

  pub pieces-All {κ} :
      (P : A → Type κ) (fuel n : ℕ) (b : List A)
      → 0 < n
      → All P b
      → All (λ piece. (0 < length piece) × (length piece ≤ n) × All P piece) (pieces fuel n b)
  unfolding pieces
  pieces-All P zero n b pos_n h = tt
  pieces-All P (suc fuel) n [] pos_n h = tt
  pieces-All P (suc fuel) n (x ∷ b) pos_n h = (
    (
      omega (arith, length-take n (x ∷ b)),
      omega (arith, length-take n (x ∷ b)),
      All-take P n (x ∷ b) h,
    ),
    pieces-All P fuel n (drop n (x ∷ b)) pos_n (All-drop P n (x ∷ b) h),
  )
