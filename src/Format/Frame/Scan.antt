-- ===== src/Format/Frame/Scan.antt =====
-- The scan of a file's tail for its trailer.
use secvault.Prelude.{
  ℕ, zero, suc, ◌+◌, ◌-◌, ◌<◌, ◌≡◌, refl, ap, ◌∙◌, arith, ◌++◌, Bytes, length, length-append, drop,
  drop-append, drop-past, Option, none, some, ◌⊎◌,
}
use native.Mathlib.Decide.{dec_lt}
use secvault.Errors.{Result, ok}
use secvault.Format.{Trailer, build_trailer, parse_trailer_at, parse_trailer_loop, parse_trailer}
use secvault.Format.Frame.{
  IsTrailer, IsChecksum, length-build_trailer, trailer_of, IsFrame, parse_trailer_at_sound,
}
use secvault.Format.Frame.Written.{parse_trailer_at-build_trailer}

module _ (checksum : Bytes → ℕ) where
  -- The loop answers with the last frame that it meets.
  parse_trailer_loop-last :
      (n s : ℕ) (tail : Bytes) (r : Result Trailer)
      → s < n
      → parse_trailer_at checksum (drop s tail) ≡ some r
      → ((j : ℕ) → s < j → parse_trailer_at checksum (drop j tail) ≡ none)
      → parse_trailer_loop checksum n tail ≡ r
  unfolding parse_trailer_loop
  parse_trailer_loop-last zero s tail r lt e later = absurd (omega arith)
  parse_trailer_loop-last (suc n) s tail r lt e later = elim (dec_lt s n) [
    | yes below ↦
        rw (later n below, parse_trailer_loop) (parse_trailer_loop-last n s tail r below e later)
    | no above ↦ let same : n ≡ s = omega arith in rw (same, e, parse_trailer_loop)
  ]

  parse_trailer_loop-found :
      (n : ℕ) (tail : Bytes) (t : Trailer)
      → parse_trailer_loop checksum n tail ≡ ok t
      → (s : ℕ) × (s < n) × (parse_trailer_at checksum (drop s tail) ≡ some (ok t))
  unfolding parse_trailer_loop
  parse_trailer_loop-found zero tail t e = cc
  parse_trailer_loop-found (suc n) tail t e =
      found (parse_trailer_at checksum (drop n tail)) refl e (parse_trailer_loop-found n tail t)
    where
      found :
          (o : Option (Result Trailer))
          → parse_trailer_at checksum (drop n tail) ≡ o
          → (elim o [ none ↦ parse_trailer_loop checksum n tail | some r ↦ r ]) ≡ ok t
          → (parse_trailer_loop checksum n tail ≡ ok t
              → (s : ℕ) × (s < n) × (parse_trailer_at checksum (drop s tail) ≡ some (ok t)))
          → (s : ℕ) × (s < suc n) × (parse_trailer_at checksum (drop s tail) ≡ some (ok t))
      found none o e ih = let (s, lt, at) = ih e in (s, omega arith, at)
      found (some r) o e ih = (n, omega arith, o ∙ ap some e)

  -- Where no frame begins inside the trailer by accident, ParseTrailer finds at the end of a file
  -- the trailer that BuildTrailer wrote there, whatever stands before it.
  pub parse_trailer-build_trailer :
      (front : Bytes) (t : Trailer)
      → IsChecksum checksum
      → IsTrailer t
      → ((j : ℕ) → 0 < j → parse_trailer_at checksum (drop j (build_trailer checksum t)) ≡ none)
      → parse_trailer checksum (front ++ build_trailer checksum t) ≡ ok t
  unfolding parse_trailer
  parse_trailer-build_trailer front t small v alone =
      let b = build_trailer checksum t in
      let total = length-append {0} front b in
      parse_trailer_loop-last (length (front ++ b) + 1 - 4) (length front) (front ++ b) (ok t)
        (omega (arith, total, length-build_trailer checksum t v))
        (rw (drop-append (length front) front b refl)
          (parse_trailer_at-build_trailer checksum t v small))
        (λ j lt.
          let e : length front + (j - length front) ≡ j = omega arith in
          rw (← e) (
            rw (drop-past (length front) (j - length front) front b refl)
              (alone (j - length front) (omega arith))))

  -- What ParseTrailer accepts stands at the end of the file: a frame that begins with the magic,
  -- whose length field is its length, whose checksum fits, of version 2 or 3, and the result is made
  -- of its fields.
  pub parse_trailer_sound :
      (tail : Bytes) (t : Trailer)
      → parse_trailer checksum tail ≡ ok t
      → (s : ℕ) × (s < length tail)
        × IsFrame checksum (drop s tail)
        × (trailer_of checksum (drop s tail) ≡ t)
        × ((t.version ≡ 2) ⊎ (t.version ≡ 3))
  unfolding parse_trailer
  parse_trailer_sound tail t e =
      let (s, lt, at) = parse_trailer_loop-found _ tail t e in
      let (frame, fields, version) = parse_trailer_at_sound checksum (drop s tail) t at in
      (s, omega arith, frame, fields, version)
