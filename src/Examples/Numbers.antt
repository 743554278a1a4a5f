-- ===== src/Examples/Numbers.antt =====
-- Lists of numbers packed into one number, for the parity of the example code.
use secvault.Prelude.{
  ℕ, zero, suc, ◌+◌, ◌-◌, ◌*◌, ◌/◌, ◌%◌, ◌≤◌, ◌<◌, ◌≡◌, refl, ap, ◌∙◌, arith, List, [], ◌∷◌, ◌==◌,
  if◌then◌else◌, Bool-cases, inl, inr, true, false, ==_iff,
}

-- m shifted to the left a times.
shift : ℕ → ℕ → ℕ
shift zero m = m
shift (suc a) m = 2 * shift a m

pub pack : List ℕ → ℕ
unfolding shift
pack [] = 0
pack (x ∷ xs) = shift x (2 * pack xs + 1)

-- x zeros were shifted out before.
unpack_from : ℕ → ℕ → ℕ → List ℕ
unpack_from zero x n = []
unpack_from (suc fuel) x n =
    let even = unpack_from fuel (x + 1) (n / 2) in
    let odd = x ∷ unpack_from fuel 0 (n / 2) in
    if n == 0 then [] else if n % 2 == 0 then even else odd

pub unpack : ℕ → List ℕ
unfolding unpack_from
unpack n = unpack_from n 0 n

-- The rounds that a list takes.
rounds : List ℕ → ℕ
rounds [] = 0
rounds (x ∷ xs) = x + 1 + rounds xs

shift_pos : (a m : ℕ) → 0 < m → a + m ≤ shift a m
unfolding shift
shift_pos zero m h = omega arith
shift_pos (suc a) m h = omega (arith, shift_pos a m h)

rounds-le : (xs : List ℕ) → rounds xs ≤ pack xs
unfolding rounds pack
rounds-le [] = omega arith
rounds-le (x ∷ xs) = omega (arith, rounds-le xs, shift_pos x (2 * pack xs + 1) (omega arith))

==_true : (a b : ℕ) → a ≡ b → (a == b) ≡ true
==_true a b e = (==_iff a b).1 e

==_false : (a b : ℕ) → ¬ (a ≡ b) → (a == b) ≡ false
==_false a b n = elim (Bool-cases (a == b)) [
  | inl same ↦ absurd (n ((==_iff a b).0 same))
  | inr other ↦ other
]

halved : (m : ℕ) → (2 * m) / 2 ≡ m
halved m = omega arith

evened : (m : ℕ) → (2 * m) % 2 ≡ 0
evened m = omega arith

unpack_shift :
    (a x c f : ℕ) → unpack_from (suc (a + f)) x (shift a (2 * c + 1)) ≡ (x + a) ∷ unpack_from f 0 c
unfolding unpack_from shift
unpack_shift zero x c f =
    let half : (2 * c + 1) / 2 ≡ c = omega arith in
    let same : x ≡ x + 0 = omega arith in
    let fuel : 0 + f ≡ f = omega arith in rw (half, fuel) (ground (arith, same))
unpack_shift (suc a) x c f =
    let m : ℕ = shift a (2 * c + 1) in
    let pos : 0 < m = omega (arith, shift_pos a (2 * c + 1) (omega arith)) in
    let half : (2 * m) / 2 ≡ m = halved m in
    let even : ((2 * m) % 2 == 0) ≡ true = ==_true ((2 * m) % 2) 0 (evened m) in
    let some_left : ((2 * m) == 0) ≡ false = ==_false (2 * m) 0 (λ e. omega arith) in
    let fuel : suc a + f ≡ suc (a + f) = omega arith in
    let next : x + 1 + a ≡ x + suc a = omega arith in
    rw (some_left, even, half)
      (ap (λ (k : ℕ). unpack_from k (x + 1) m) fuel
        ∙ unpack_shift a (x + 1) c f
        ∙ ap (λ (y : ℕ). y ∷ unpack_from f 0 c) next)

nothing_left : (fuel x : ℕ) → unpack_from fuel x 0 ≡ []
unfolding unpack_from
nothing_left zero x = refl
nothing_left (suc fuel) x = refl

unpack_pack : (xs : List ℕ) (f : ℕ) → unpack_from (rounds xs + f) 0 (pack xs) ≡ xs
unfolding rounds pack
unpack_pack [] f = nothing_left (0 + f) 0
unpack_pack (x ∷ xs) f =
    let fuel : x + 1 + rounds xs + f ≡ suc (x + (rounds xs + f)) = omega arith in
    rw (fuel, unpack_shift x 0 (pack xs) (rounds xs + f), unpack_pack xs f)
      (ap (λ (y : ℕ). y ∷ xs) (omega arith))

-- Unpacking undoes packing.
pub unpack-pack : (xs : List ℕ) → unpack (pack xs) ≡ xs
unfolding unpack
unpack-pack xs =
    let enough : pack xs ≡ rounds xs + (pack xs - rounds xs) = omega (arith, rounds-le xs) in
    ap (λ (fuel : ℕ). unpack_from fuel 0 (pack xs)) enough ∙ unpack_pack xs (pack xs - rounds xs)
