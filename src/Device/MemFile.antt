-- ===== src/Device/MemFile.antt =====
-- The file in memory of internal/testutil/testutil.go. The lock makes each method one step, and an
-- offset is never negative.
use secvault.Prelude.{
  ℕ, ◌+◌, ◌-◌, ◌≤◌, ◌<◌, ltb→lt, ==_iff, Bytes, [], ◌++◌, append-nil, zeros, replicate, length,
  take, drop, Option, none, some, ◌≡◌, refl, ap, sym, ◌∙◌, arith, leb, ltb, ◌==◌, if◌then◌else◌,
  copy_at, length-append, length-replicate, drop-all, take_self, append_assoc, Bool-cases, inl, inr,
  copy, zero, suc, ◌∷◌, take-append, replicate-add,
}
use secvault.Errors.{Error, ok, eof}
use secvault.Device.{Device, IsFile, overwrite}

pub record MemFile : Type 0 where
  pub bytes : Bytes
  pub pos : ℕ

abbrev pub empty : MemFile
empty = record { bytes = []; pos = 0 }

-- The rounds of the loop append zeros, as many as are missing in all.
unfoldable pub resize : ℕ → Bytes → Bytes
unfolding zeros
resize end bytes = bytes ++ zeros (end - length bytes)

-- A write at an offset: appended where the offset is the end, else copied into the resized bytes.
unfoldable pub put : Bytes → ℕ → Bytes → Bytes
unfolding resize
put bytes off p =
    let end = off + length p in
    if ltb (length bytes) end
    then (if off == length bytes then bytes ++ p else copy_at off (resize end bytes) p)
    else copy_at off bytes p

unfoldable pub write : MemFile → Bytes → MemFile × ℕ × Option Error
unfolding put
write m p = (record { bytes = put m.bytes m.pos p; pos = m.pos + length p }, length p, none)

unfoldable pub write_at : MemFile → ℕ → Bytes → MemFile × Option Error
unfolding put
write_at m off p = (record m { bytes = put m.bytes off p }, none)

unfoldable pub seek : MemFile → ℕ → MemFile × Option Error
seek m off = (record m { pos = off }, none)

unfoldable pub read_at : MemFile → ℕ → ℕ → Bytes × Option Error
read_at m off n =
    let got = take n (drop off m.bytes) in
    if leb (length m.bytes) off
    then ([], some eof)
    else (got, if ltb (length got) n then some eof else none)

unfoldable pub size : MemFile → ℕ
size m = length m.bytes

abbrev pub mem_file : Device
mem_file = record {
  Disk = MemFile;
  contents = λ m. m.bytes;
  read_at = read_at;
  write_at = write_at;
  seek = seek;
  write = write;
  size = λ m. ok (size m);
}

copy-eq : (b p : Bytes) → length p ≤ length b → copy b p ≡ p ++ drop (length p) b
copy-eq [] [] h = refl
copy-eq (x ∷ b) [] h = refl
copy-eq [] (y ∷ p) h = absurd (omega arith)
copy-eq (x ∷ b) (y ∷ p) h = ap (◌∷◌ y) (copy-eq b p (omega arith))

-- copy at an offset within the bytes is a replacement there.
copy_at-eq :
    (off : ℕ) (b p : Bytes)
    → off + length p ≤ length b
    → copy_at off b p ≡ take off b ++ (p ++ drop (off + length p) b)
copy_at-eq zero b p h =
    let e : length p ≡ 0 + length p = omega arith in
    copy-eq b p (omega arith) ∙ ap (λ (n : ℕ). p ++ drop n b) e
copy_at-eq (suc off) [] p h = absurd (omega arith)
copy_at-eq (suc off) (x ∷ b) p h =
    let e : suc (off + length p) ≡ suc off + length p = omega arith in
    ap (◌∷◌ x) (copy_at-eq off b p (omega arith))
    ∙ ap (λ (n : ℕ). x ∷ (take off b ++ (p ++ drop n (x ∷ b)))) e

take_front : (off : ℕ) (b z : Bytes) → off ≤ length b → take off (b ++ z) ≡ take off b
take_front zero b z h = refl
take_front (suc off) [] z h = absurd (omega arith)
take_front (suc off) (x ∷ b) z h = ap (◌∷◌ x) (take_front off b z (omega arith))

take_gap :
    (off n : ℕ) (b : Bytes)
    → off ≤ length b + n
    → take off (b ++ zeros n) ≡ take off (b ++ zeros (off - length b))
unfolding zeros
take_gap off n b h = elim (Bool-cases (leb off (length b))) [
  | inl within ↦
      let le : off ≤ length b = ground arith in take_front off b _ le ∙ sym (take_front off b _ le)
  | inr past ↦
      let gap = zeros (off - length b) in
      let e : n ≡ off - length b + (n - (off - length b)) = ground arith in
      let whole : length (b ++ gap) ≡ off =
        ground (arith, length-append {0} b gap, length-replicate {A = ℕ} (off - length b) 0) in
      let split : zeros n ≡ gap ++ zeros (n - (off - length b)) =
        ap (λ (k : ℕ). zeros k) e ∙ replicate-add (off - length b) _ 0 in
      rw (split, ← append_assoc b gap (zeros (n - (off - length b))))
        (take-append off (b ++ gap) _ whole ∙ sym (take_self off (b ++ gap) (omega arith)))
]

-- A copy to the end of the resized bytes.
copy_at_end :
    (off : ℕ) (b p : Bytes)
    → length b < off + length p
    → copy_at off (b ++ zeros (off + length p - length b)) p
      ≡ take off (b ++ zeros (off - length b)) ++ p
unfolding zeros
copy_at_end off b p h =
    let n = off + length p - length b in
    let total : length (b ++ zeros n) ≡ off + length p =
      omega (arith, length-append {0} b (zeros n), length-replicate {A = ℕ} n 0) in
    let gap : take off (b ++ zeros n) ≡ take off (b ++ zeros (off - length b)) =
      take_gap off n b (omega arith) in
    copy_at-eq off (b ++ zeros n) p (omega arith)
    ∙ rw (drop-all (off + length p) (b ++ zeros n) (omega arith), append-nil p, gap)

append_end :
    (off : ℕ) (b p : Bytes) → off ≡ length b → b ++ p ≡ take off (b ++ zeros (off - length b)) ++ p
unfolding zeros replicate
append_end off b p e =
    let no_gap : off - length b ≡ 0 = omega arith in
    rw (no_gap, append-nil b, take_self off b (omega arith))

put-overwrite : (b : Bytes) (off : ℕ) (p : Bytes) → put b off p ≡ overwrite b off p
unfolding put overwrite zeros
put-overwrite b off p = elim (Bool-cases (ltb (length b) (off + length p))) [
  | inl longer ↦
      let lt = ltb→lt (length b) (off + length p) longer in
      rw (longer, drop-all (off + length p) b (omega arith), append-nil p)
        (elim (Bool-cases (off == length b)) [
          | inl at_end ↦ rw at_end (append_end off b p ((==_iff off (length b)).0 at_end))
          | inr elsewhere ↦ rw elsewhere (copy_at_end off b p lt)
        ])
  | inr within ↦
      let none_left : off - length b ≡ 0 = ground arith in
      let fits : off + length p ≤ length b = ground arith in
      rw (within, none_left) (unfold replicate in rw append-nil (copy_at-eq off b p fits))
]

pub mem_file-IsFile : IsFile mem_file
unfolding read_at write_at seek write size
mem_file-IsFile = record {
  read_at_lem = λ m off n. refl;
  write_at_lem = λ m off b. refl;
  write_at_contents = λ m off b. put-overwrite m.bytes off b;
  seek_lem = λ m off. refl;
  write_lem = λ m b. (refl, refl);
  write_contents = λ m off b. put-overwrite m.bytes off b;
  size_lem = λ m. refl;
}
