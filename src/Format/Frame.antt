-- ===== src/Format/Frame.antt =====
-- The trailer frame: what one round of ParseTrailer tests, and what it returns.
pub mod Written
pub mod Scan
use secvault.Prelude.{
  ℕ, zero, suc, ◌+◌, ◌-◌, ◌*◌, ◌%◌, ◌^◌, ◌≤◌, ◌<◌, ◌≡◌, ◌≢◌, refl, ap, sym, ◌∙◌, arith, List, [],
  ◌∷◌, ◌++◌, append_assoc, Bytes, length, length-append, take, drop, slice, take-append,
  drop-append, drop-past, put_uint32, big_endian, big_endian-put_uint32, bytes_equal, get_or,
  if◌then◌else◌, ltb, ◌==◌, Option, none, some, ◌⊎◌, inl, inr, true, false, Bool, not, ◌&&◌, ◌||◌,
  ==_iff,
}
use native.Mathlib.Decide.{dec_lt}
use secvault.Errors.{Result, ok, err, new, no_manifest}
use secvault.Format.{
  Trailer, magic_trailer, trailer_fixed, file_id_size, trailer_body, build_trailer,
  parse_trailer_at, parse_trailer_loop, parse_trailer,
}

-- What the writer's trailers satisfy.
pub record IsTrailer (t : Trailer) : Type 0 where
  pub version : (t.version ≡ 2) ⊎ (t.version ≡ 3)
  pub file_id : length t.file_id ≡ file_id_size
  pub nonce : length t.nonce ≡ 12
  pub payload_min : 16 ≤ length t.payload
  pub payload_max : length t.payload < 2 ^ 32

passes {ℓ} :
    {A : Type ℓ} (c : Bool) (x : Option A) {r : A}
    → (if c then none else x) ≡ some r
    → (c ≡ false) × (x ≡ some r)
passes true x e = cc
passes false x e = (refl, e)

not-eq-false : (c : Bool) → not c ≡ false → c ≡ true
not-eq-false true e = refl
not-eq-false false e = cc

frame_ends :
    (n l : ℕ)
    → (not (trailer_fixed + l + 4 == n) || ltb l 16) ≡ false
    → (n ≡ trailer_fixed + l + 4) × (16 ≤ l)
frame_ends n l e = ground arith

version_passes :
    (v : ℕ) (u t : Trailer)
    → (if not (v == 2) && not (v == 3)
        then some (err (new "secvault: format version unsupported"))
        else some (ok u))
      ≡ some (ok t)
    → ((v ≡ 2) ⊎ (v ≡ 3)) × (u ≡ t)
version_passes v u t e = ground arith

module _ (checksum : Bytes → ℕ) where
  abbrev pub IsChecksum : Type 0
  IsChecksum = (b : Bytes) → checksum b < 2 ^ 32

  length-trailer_body :
      (t : Trailer) → IsTrailer t → length (trailer_body checksum t) ≡ 40 + length t.payload
  unfolding trailer_body
  length-trailer_body t v = omega (
    arith,
    length-append {0} t.file_id (t.nonce ++ (put_uint32 (length t.payload) ++ t.payload)),
    length-append {0} t.nonce (put_uint32 (length t.payload) ++ t.payload),
    v.file_id,
    v.nonce,
  )

  -- The trailer of a frame starts 44 bytes and a payload before the end of the file.
  pub length-build_trailer :
      (t : Trailer)
      → IsTrailer t
      → length (build_trailer checksum t) ≡ trailer_fixed + length t.payload + 4
  unfolding build_trailer
  length-build_trailer t v = omega (
    arith,
    length-trailer_body t v,
    length-append {0} (trailer_body checksum t) (put_uint32 (checksum (trailer_body checksum t))),
  )

  -- The trailer that the bytes at b describe.
  abbrev pub trailer_of : Bytes → Trailer
  trailer_of b = record {
    version = get_or b 4 0;
    file_id = slice 8 24 b;
    nonce = slice 24 36 b;
    payload = slice 40 (length b - 4) b;
  }

  -- The tests of a frame that starts at b and ends with it.
  pub record IsFrame (b : Bytes) : Type 0 where
    pub magic : bytes_equal (take 4 b) magic_trailer ≡ true
    pub whole : length b ≡ trailer_fixed + big_endian (slice 36 40 b) + 4
    pub payload_min : 16 ≤ big_endian (slice 36 40 b)
    pub checked : checksum (take (length b - 4) b) ≡ big_endian (drop (length b - 4) b)

  pub parse_trailer_at-IsFrame :
      (b : Bytes)
      → IsFrame b
      → (get_or b 4 0 ≡ 2) ⊎ (get_or b 4 0 ≡ 3)
      → parse_trailer_at checksum b ≡ some (ok (trailer_of b))
  unfolding parse_trailer_at
  parse_trailer_at-IsFrame b f v = ground arith

  pub parse_trailer_at_sound :
      (b : Bytes) (t : Trailer)
      → parse_trailer_at checksum b ≡ some (ok t)
      → IsFrame b × (trailer_of b ≡ t) × ((t.version ≡ 2) ⊎ (t.version ≡ 3))
  unfolding parse_trailer_at
  parse_trailer_at_sound b t e =
      let (magic, e1) = passes _ _ e in
      let (_, e2) = passes _ _ e1 in
      let (ends, e3) = passes _ _ e2 in
      let (sum, e4) = passes _ _ e3 in
      let (known, same) = version_passes (get_or b 4 0) (trailer_of b) t e4 in
      (
        record {
          magic = not-eq-false _ magic;
          whole = (frame_ends (length b) (big_endian (slice 36 40 b)) ends).0;
          payload_min = (frame_ends (length b) (big_endian (slice 36 40 b)) ends).1;
          checked = (==_iff _ _).0 (not-eq-false _ sum);
        },
        same,
        rw (← same) known,
      )
