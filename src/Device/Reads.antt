-- ===== src/Device/Reads.antt =====
-- What reads and writes do on a file that does not fail.
use secvault.Prelude.{
  ℕ, ◌-◌, ◌<◌, ◌≡◌, refl, arith, Bytes, ◌++◌, append-nil, append_assoc, zeros, length, take, drop,
  replicate, Option, none, some, leb, ltb, false, length-append, take-append, drop-append,
  drop-past, Bool-cases, inl, inr, ==_iff,
}
use secvault.Errors.{Error, ok}
use secvault.Device.{
  Device, IsFile, file_read, overwrite, read_buffer, seek_write, after_seek, after_write,
}

-- A buffer that the file fills.
pub read_buffer_full :
    (front mid back : Bytes) (off n : ℕ)
    → length front ≡ off
    → length mid ≡ n
    → 0 < n
    → read_buffer n (file_read (front ++ (mid ++ back)) off n) ≡ ok mid
unfolding zeros replicate
read_buffer_full front mid back off n ef em pos =
    let total = length-append {0} front (mid ++ back) in
    let more = length-append {0} mid back in
    let got : take n (drop off (front ++ (mid ++ back))) ≡ mid =
      rw (drop-append off front (mid ++ back) ef) (take-append n mid back em) in
    let here : leb (length (front ++ (mid ++ back))) off ≡ false = ground arith in
    let whole : ltb (length mid) n ≡ false = ground arith in
    let none_left : n - length mid ≡ 0 = omega arith in
    rw (here, got, whole, none_left, append-nil) refl

-- No read of a file that does not fail is an error: a short one leaves zeros in the buffer.
pub read_buffer_total :
    (b : Bytes) (off n : ℕ) → (got : Bytes) × (read_buffer n (file_read b off n) ≡ ok got)
read_buffer_total b off n = elim (Bool-cases (leb (length b) off)) [
  | inl past ↦ (zeros (n - 0), rw past)
  | inr here ↦ elim (Bool-cases (ltb (length (take n (drop off b))) n)) [
    | inl short ↦
        (take n (drop off b) ++ zeros (n - length (take n (drop off b))), rw (here, short))
    | inr whole ↦
        (take n (drop off b) ++ zeros (n - length (take n (drop off b))), rw (here, whole))
  ]
]

-- Replacing a part by one of its length.
pub overwrite-middle :
    (front old back src : Bytes) (off : ℕ)
    → length front ≡ off
    → length old ≡ length src
    → overwrite (front ++ (old ++ back)) off src ≡ front ++ (src ++ back)
unfolding overwrite
overwrite-middle front old back src off ef eo =
    let gap = zeros (off - length (front ++ (old ++ back))) in
    rw (
      append_assoc front (old ++ back) gap,
      take-append off front ((old ++ back) ++ gap) ef,
      drop-past off (length src) front (old ++ back) ef,
      drop-append (length src) old back eo,
    )

module _ (d : Device) (f : IsFile d) where
  open d use {Disk, contents}

  after_seek_ok :
      (b : Bytes) (r : Disk × Option Error)
      → r.1 ≡ none
      → after_seek d b r ≡ after_write d (length b) (d.write r.0 b)
  after_seek_ok b (disk, none) e = refl
  after_seek_ok b (disk, some x) e = cc

  after_write_ok :
      (n : ℕ) (r : Disk × ℕ × Option Error)
      → r.1 ≡ n
      → r.2 ≡ none
      → after_write d n r ≡ (r.0, ok tt)
  after_write_ok n (disk, written, none) e e' = rw ((==_iff written n).1 e)
  after_write_ok n (disk, written, some x) e e' = cc

  -- A seek and a write succeed and replace the bytes at the offset.
  pub seek_write_lem :
      (disk : Disk) (off : ℕ) (b : Bytes)
      → ((seek_write d disk off b).1 ≡ ok tt)
        × (contents (seek_write d disk off b).0 ≡ overwrite (contents disk) off b)
  unfolding seek_write
  seek_write_lem disk off b =
      let at = (d.seek disk off).0 in
      let (count, fine) = f.write_lem at b in
      rw
        (
          after_seek_ok b (d.seek disk off) (f.seek_lem disk off),
          after_write_ok (length b) (d.write at b) count fine,
        )
        (refl, f.write_contents disk off b)
