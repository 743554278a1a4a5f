-- ===== src/Format/Frame/Written.antt =====
-- The tests of ParseTrailer on the frame that BuildTrailer writes.
use secvault.Prelude.{
  ℕ, ◌-◌, ◌%◌, ◌≡◌, refl, ap, sym, ◌∙◌, arith, ◌∷◌, ◌++◌, append_assoc, Bytes, length,
  length-append, take, drop, slice, take-append, drop-append, drop-past, put_uint32, big_endian,
  big_endian-put_uint32, bytes_equal, get_or, some,
}
use secvault.Errors.{ok}
use secvault.Format.{Trailer, magic_trailer, trailer_body, build_trailer, parse_trailer_at}
use secvault.Format.Frame.{
  IsTrailer, IsChecksum, length-build_trailer, trailer_of, IsFrame, parse_trailer_at-IsFrame,
}

module _ (checksum : Bytes → ℕ) where
  -- The fields of a written trailer, at their places.
  build_trailer_shape :
      (t : Trailer)
      → build_trailer checksum t
        ≡ magic_trailer
          ++ ((t.version % 256)
              ∷ 0
              ∷ 0
              ∷ 0
              ∷ (t.file_id
                  ++ (t.nonce
                      ++ (put_uint32 (length t.payload)
                          ++ (t.payload ++ put_uint32 (checksum (trailer_body checksum t)))))))
  unfolding build_trailer trailer_body
  build_trailer_shape t = simp append_assoc

  module _ (t : Trailer) (v : IsTrailer t) where
    rest3 : Bytes
    rest3 = t.payload ++ put_uint32 (checksum (trailer_body checksum t))

    rest2 : Bytes
    unfolding rest3
    rest2 = put_uint32 (length t.payload) ++ rest3

    rest1 : Bytes
    unfolding rest2
    rest1 = t.nonce ++ rest2

    frame : Bytes
    unfolding rest1
    frame = magic_trailer ++ ((t.version % 256) ∷ 0 ∷ 0 ∷ 0 ∷ (t.file_id ++ rest1))

    drop-24 : drop 24 frame ≡ rest1
    unfolding frame
    drop-24 = drop-append 16 t.file_id rest1 v.file_id

    drop-36 : drop 36 frame ≡ rest2
    unfolding frame
    drop-36 = drop-past 16 12 t.file_id rest1 v.file_id ∙ drop-append 12 t.nonce rest2 v.nonce

    drop-40 : drop 40 frame ≡ rest3
    unfolding frame
    drop-40 = drop-past 16 16 t.file_id rest1 v.file_id ∙ drop-past 12 4 t.nonce rest2 v.nonce

    drop-body :
        (body crc : Bytes)
        → length crc ≡ 4
        → (take (length (body ++ crc) - 4) (body ++ crc) ≡ body)
          × (drop (length (body ++ crc) - 4) (body ++ crc) ≡ crc)
    drop-body body crc e =
        let n : length body ≡ length (body ++ crc) - 4 =
          omega (arith, length-append {0} body crc) in
        (take-append _ body crc n, drop-append _ body crc n)

    frame-eq : build_trailer checksum t ≡ frame
    unfolding frame
    frame-eq = build_trailer_shape t

    frame_payload : slice 40 (length frame - 4) frame ≡ t.payload
    unfolding rest3
    frame_payload =
        let n : length t.payload ≡ length frame - 4 - 40 =
          omega (arith, ap length (sym frame-eq), length-build_trailer checksum t v) in
        rw drop-40 (take-append _ t.payload (put_uint32 (checksum (trailer_body checksum t))) n)

    frame-length : big_endian (slice 36 40 frame) ≡ length t.payload
    unfolding rest2
    frame-length = rw drop-36 (big_endian-put_uint32 (length t.payload) v.payload_max)

    frame_checked :
        IsChecksum checksum
        → checksum (take (length frame - 4) frame) ≡ big_endian (drop (length frame - 4) frame)
    unfolding build_trailer
    frame_checked small =
        let body = trailer_body checksum t in
        let (front, back) = drop-body body (put_uint32 (checksum body)) refl in
        rw (← frame-eq)
          (rw (front, back) (sym (big_endian-put_uint32 (checksum body) (small body))))

    frame-IsFrame : IsChecksum checksum → IsFrame checksum frame
    frame-IsFrame small = record {
      magic = unfold frame bytes_equal in refl;
      whole = rw frame-length (ap length (sym frame-eq) ∙ length-build_trailer checksum t v);
      payload_min = rw frame-length v.payload_min;
      checked = frame_checked small;
    }

    trailer_of-frame : trailer_of checksum frame ≡ t
    trailer_of-frame =
        let version : get_or frame 4 0 ≡ t.version = unfold frame in ground (arith, v.version) in
        let file_id : slice 8 24 frame ≡ t.file_id =
          unfold frame in take-append 16 t.file_id rest1 v.file_id in
        let nonce : slice 24 36 frame ≡ t.nonce =
          rw drop-24 (unfold rest1 in take-append 12 t.nonce rest2 v.nonce) in
        λ i. record {
          version = version i;
          file_id = file_id i;
          nonce = nonce i;
          payload = frame_payload i;
        }

    pub parse_trailer_at-build_trailer :
        IsChecksum checksum → parse_trailer_at checksum (build_trailer checksum t) ≡ some (ok t)
    parse_trailer_at-build_trailer small =
        let version : get_or frame 4 0 ≡ t.version =
          ap (λ (u : Trailer). u.version) trailer_of-frame in
        rw frame-eq (
          parse_trailer_at-IsFrame checksum frame (frame-IsFrame small) (rw version v.version)
          ∙ ap (λ (u : Trailer). some (ok u)) trailer_of-frame)
