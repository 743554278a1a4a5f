-- ===== src/Prelude/Words.antt =====
-- Bytes, and the big-endian words of encoding/binary.
use Prim.Native.Nat.{ℕ, ◌+◌, ◌-◌, ◌≤◌, ◌*◌, ◌/◌, ◌%◌, ◌^◌, ◌<◌}
use mathlib.Core.Path.{◌≡◌, refl, ap, ◌∙◌}
use mathlib.Core.List.{List, [], ◌∷◌, ◌++◌}
use mathlib.Core.Bool.{Bool, true, false, ◌&&◌}
use native.Mathlib.Omega.{arith}
use secvault.Prelude.Tests.{◌==◌}
use secvault.Prelude.Lists.{length, replicate, length-replicate}
use secvault.Prelude.Slices.{copy, copy_at, copy-append, copy_at-append, replicate-add}

abbrev pub Bytes : Type 0
Bytes = List ℕ

abbrev pub IsByte : ℕ → Type 0
IsByte b = b < 256

-- make([]byte, n)
unfoldable pub zeros : ℕ → Bytes
unfolding replicate
zeros n = replicate n 0

-- bytes.Equal, and == on strings of bytes
unfoldable pub bytes_equal : Bytes → Bytes → Bool
bytes_equal [] [] = true
bytes_equal (x ∷ xs) (y ∷ ys) = x == y && bytes_equal xs ys
bytes_equal _ _ = false

-- binary.BigEndian.PutUint64 and PutUint32, as the bytes that they store.
abbrev pub put_uint64 : ℕ → Bytes
put_uint64 v =
    (v / 2 ^ 56 % 256)
    ∷ (v / 2 ^ 48 % 256)
    ∷ (v / 2 ^ 40 % 256)
    ∷ (v / 2 ^ 32 % 256)
    ∷ (v / 2 ^ 24 % 256)
    ∷ (v / 2 ^ 16 % 256)
    ∷ (v / 2 ^ 8 % 256)
    ∷ (v % 256)
    ∷ []

abbrev pub put_uint32 : ℕ → Bytes
put_uint32 v = (v / 2 ^ 24 % 256) ∷ (v / 2 ^ 16 % 256) ∷ (v / 2 ^ 8 % 256) ∷ (v % 256) ∷ []

-- The big-endian number of some bytes: binary.BigEndian.Uint64 of 8 and Uint32 of 4.
abbrev pub big_endian_from : ℕ → Bytes → ℕ
big_endian_from acc [] = acc
big_endian_from acc (b ∷ bs) = big_endian_from (acc * 256 + b) bs

abbrev pub big_endian : Bytes → ℕ
big_endian bs = big_endian_from 0 bs

pub big_endian-put_uint64 : (v : ℕ) → v < 2 ^ 64 → big_endian (put_uint64 v) ≡ v
big_endian-put_uint64 v h = omega arith

pub big_endian-put_uint32 : (v : ℕ) → v < 2 ^ 32 → big_endian (put_uint32 v) ≡ v
big_endian-put_uint32 v h = omega arith

pub bytes_equal_refl : (b : Bytes) → bytes_equal b b ≡ true
unfolding bytes_equal
bytes_equal_refl [] = refl
bytes_equal_refl (x ∷ b) = ground (arith, bytes_equal_refl b)

pub bytes_equal→eq : (a b : Bytes) → bytes_equal a b ≡ true → a ≡ b
unfolding bytes_equal
bytes_equal→eq [] [] h = refl
bytes_equal→eq [] (y ∷ b) h = cc
bytes_equal→eq (x ∷ a) [] h = cc
bytes_equal→eq (x ∷ a) (y ∷ b) h = ground (arith, bytes_equal→eq a b)

-- Two copies over zeros that have room for them.
pub copy_at-copy-zeros :
    (n : ℕ) (hdr ct : Bytes)
    → length hdr + length ct ≤ n
    → copy_at (length hdr) (copy (zeros n) hdr) ct
      ≡ hdr ++ (ct ++ zeros (n - (length hdr + length ct)))
unfolding zeros
copy_at-copy-zeros n hdr ct fits =
    let pad = n - (length hdr + length ct) in
    let total : n ≡ length hdr + (length ct + pad) = omega arith in
    let split : replicate {A = ℕ} n 0
        ≡ replicate (length hdr) 0 ++ (replicate (length ct) 0 ++ replicate pad 0) =
      ap (λ (k : ℕ). replicate {A = ℕ} k 0) total
      ∙ replicate-add (length hdr) (length ct + pad) 0
      ∙ ap (λ (r : Bytes). replicate (length hdr) 0 ++ r) (replicate-add (length ct) pad 0) in
    let body = replicate {A = ℕ} (length ct) 0 ++ replicate pad 0 in
    ap (λ (z : Bytes). copy_at (length hdr) (copy z hdr) ct) split
    ∙ ap (λ (z : Bytes). copy_at (length hdr) z ct)
        (copy-append (replicate (length hdr) 0) body hdr (length-replicate {A = ℕ} (length hdr) 0))
    ∙ copy_at-append (length hdr) hdr body ct refl
    ∙ ap (λ (r : Bytes). hdr ++ r)
        (copy-append (replicate (length ct) 0) (replicate pad 0) ct
          (length-replicate {A = ℕ} (length ct) 0))
