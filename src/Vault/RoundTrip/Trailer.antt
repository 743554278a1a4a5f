-- ===== src/Vault/RoundTrip/Trailer.antt =====
-- The trailer that Close writes at the end of a file, and Open on such a file.
use secvault.Prelude.{
  ℕ, ◌+◌, ◌-◌, ◌≤◌, ◌<◌, ◌≡◌, refl, ap, sym, ◌∙◌, arith, min, Bytes, zeros, replicate, length,
  length-append, length-take, length-drop, take, drop, take-append-drop, drop-all, take-append,
  append_assoc, append-nil, ltb, false, Option, none, some, [], ◌++◌,
}
use secvault.Errors.{Error, Result, ok}
use secvault.Format.{Manifest, Trailer, build_trailer, trailer_fixed, parse_trailer_at}
use secvault.Format.Frame.{IsTrailer, IsChecksum, length-build_trailer}
use secvault.Format.Frame.Scan.{parse_trailer-build_trailer}
use secvault.Crypto.{Primitives}
use secvault.Codec.{Coding}
use secvault.Device.{Device, IsFile, overwrite, read_buffer, file_read}
use secvault.Device.Reads.{read_buffer_full}
use secvault.Engine.Container.{open_trailer, open_container}
use secvault.Vault.Writer.{after_trailer, write_at_end, put_trailer, write_trailer}

-- A write at the end of the file.
pub overwrite-end :
    (front src : Bytes) (off : ℕ) → length front ≡ off → overwrite front off src ≡ front ++ src
unfolding overwrite zeros replicate
overwrite-end front src off e =
    let gap : off - length front ≡ 0 = omega arith in
    rw (gap, append-nil front, drop-all (off + length src) front (omega arith), append-nil src)
      (ap (λ r. r ++ src) (ap (take off) (sym (append-nil front)) ∙ take-append off front [] e))

module _ (p : Primitives) where
  -- The trailer of a manifest, with the nonce that was drawn.
  abbrev pub manifest_trailer : p.Aead → ℕ → Bytes → Bytes → Bytes → Trailer
  manifest_trailer man_aead version file_id nonce mb = record {
    version = version;
    file_id = file_id;
    nonce = nonce;
    payload = p.seal man_aead nonce mb [];
  }

module _ (p : Primitives) (c : Coding) (d : Device) (f : IsFile d) (checksum : Bytes → ℕ)
    (print_json : Manifest → Result Bytes) where
  write_at_end_fine :
      (tr : Bytes) (r : d.Disk × Option Error)
      → r.1 ≡ none
      → write_at_end p d checksum print_json tr r
        ≡ after_trailer p d checksum print_json (d.write r.0 tr)
  write_at_end_fine tr (disk, none) e = refl
  write_at_end_fine tr (disk, some x) e = cc

  after_trailer_fine :
      (r : d.Disk × ℕ × Option Error)
      → r.2 ≡ none
      → after_trailer p d checksum print_json r ≡ (r.0, ok tt)
  after_trailer_fine (disk, n, none) e = refl
  after_trailer_fine (disk, n, some x) e = cc

  -- writeTrailer on a file that ends at the offset.
  pub write_trailer-end :
      (disk : d.Disk) (man_aead : p.Aead) (version : ℕ) (file_id : Bytes) (man : Manifest) (off : ℕ)
      (nonce mb : Bytes)
      → print_json man ≡ ok mb
      → length (d.contents disk) ≡ off
      → ((write_trailer p d checksum print_json disk man_aead version file_id man off (ok nonce)).1
          ≡ ok tt)
        × (d.contents
              (write_trailer p d checksum print_json disk man_aead version file_id man off
                (ok nonce)).0
            ≡ d.contents disk
              ++ build_trailer checksum (manifest_trailer p man_aead version file_id nonce mb))
  unfolding write_trailer put_trailer
  write_trailer-end disk man_aead version file_id man off nonce mb printed e =
      let tr = build_trailer checksum (manifest_trailer p man_aead version file_id nonce mb) in
      let at = d.seek disk off in
      rw
        (
          printed,
          write_at_end_fine tr at (f.seek_lem disk off),
          after_trailer_fine (d.write at.0 tr) (f.write_lem at.0 tr).1,
        )
        (refl, f.write_contents disk off tr ∙ overwrite-end (d.contents disk) tr off e)

-- The end of a file that holds a whole trailer.
tail_split :
    (front tr : Bytes) (n : ℕ)
    → n ≤ length (front ++ tr)
    → length tr ≤ n
    → front ++ tr
      ≡ take (length (front ++ tr) - n) front
        ++ ((drop (length (front ++ tr) - n) front ++ tr) ++ [])
tail_split front tr n h fits =
    let k = length (front ++ tr) - n in
    ap (λ r. r ++ tr) (sym (take-append-drop k front))
    ∙ append_assoc (take k front) (drop k front) tr
    ∙ ap (λ r. take k front ++ r) (sym (append-nil (drop k front ++ tr)))

module _ (p : Primitives) (c : Coding) (d : Device) (f : IsFile d) (checksum : Bytes → ℕ)
    (parse_json : Bytes → Result Manifest) where
  -- Open finds the trailer, and goes on with it.
  pub open_container-trailer :
      (disk : d.Disk) (master_key front : Bytes) (t : Trailer)
      → IsChecksum checksum
      → IsTrailer t
      → length (build_trailer checksum t) ≤ 65536
      → ((j : ℕ) → 0 < j → parse_trailer_at checksum (drop j (build_trailer checksum t)) ≡ none)
      → d.contents disk ≡ front ++ build_trailer checksum t
      → open_container p c d checksum parse_json disk master_key
        ≡ open_trailer p c d checksum parse_json disk master_key
            (length (front ++ build_trailer checksum t))
            t
  unfolding open_container
  open_container-trailer disk master_key front t sum v fits alone on_disk =
      let tr = build_trailer checksum t in
      let size = length (front ++ tr) in
      let n = min size 65536 in
      let k = size - n in
      let len = length-append {0} front tr in
      let tr_len = length-build_trailer checksum t v in
      let enough : ltb n (trailer_fixed + 4 + 16) ≡ false =
        ground (arith, len, tr_len, v.payload_min) in
      let tail_len : length (drop k front ++ tr) ≡ n =
        omega (
          arith,
          length-append {0} (drop k front) tr,
          length-drop {0} k front,
          len,
          tr_len,
          fits,
        ) in
      let front_len : length (take k front) ≡ k =
        omega (arith, length-take {0} k front, len, tr_len, fits) in
      let full : read_buffer n (file_read (front ++ tr) k n) ≡ ok (drop k front ++ tr) =
        ap (λ b. read_buffer n (file_read b k n))
          (tail_split front tr n (omega arith) (omega (arith, len, fits)))
        ∙ read_buffer_full (take k front) (drop k front ++ tr) [] k n front_len tail_len
            (omega (arith, len, tr_len)) in
      rw
        (
          f.size_lem disk,
          on_disk,
          enough,
          f.read_at_lem disk k n,
          on_disk,
          full,
          parse_trailer-build_trailer checksum (drop k front) t sum v alone,
        )
        refl
