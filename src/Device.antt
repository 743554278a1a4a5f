-- ===== src/Device.antt =====
-- The interfaces io.ReaderAt, io.WriterAt, io.Seeker and io.Writer that a container is read and
-- written through, as one record of operations over a state, and the laws of a file that does not
-- fail. Device/MemFile fills them with the file in memory of internal/testutil/testutil.go.
pub mod MemFile
pub mod Reads
pub mod Writes
pub mod Faults
use secvault.Prelude.{
  ℕ, ◌+◌, ◌-◌, ◌≤◌, List, [], ◌++◌, Bytes, zeros, length, take, drop, Option, none, some, Bool,
  true, false, ◌≡◌, leb, ltb, ◌==◌, if◌then◌else◌,
}
use secvault.Errors.{Error, Result, ok, err, eof, short_write}

-- A call returns what it returns in Go: the bytes or the count, and an error or none.
pub record Device : Type 1 where
  pub Disk : Type 0
  pub contents : Disk → Bytes
  -- ReadAt(buf, off) with the length of the buffer
  pub read_at : Disk → ℕ → ℕ → Bytes × Option Error
  -- WriteAt(p, off)
  pub write_at : Disk → ℕ → Bytes → Disk × Option Error
  -- Seek(off, io.SeekStart)
  pub seek : Disk → ℕ → Disk × Option Error
  -- Write(p)
  pub write : Disk → Bytes → Disk × ℕ × Option Error
  -- Stat().Size() or Size()
  pub size : Disk → Result ℕ

-- The bytes from an offset on, as many as there are.
abbrev pub file_read : Bytes → ℕ → ℕ → Bytes × Option Error
file_read b off n =
    let got = take n (drop off b) in
    if leb (length b) off
    then ([], some eof)
    else (got, if ltb (length got) n then some eof else none)

-- A write past the end fills the gap with zeros.
unfoldable pub overwrite : Bytes → ℕ → Bytes → Bytes
overwrite b off src = take off (b ++ zeros (off - length b)) ++ (src ++ drop (off + length src) b)

-- A file that does not fail.
pub record IsFile (d : Device) : Type 0 where
  pub read_at_lem :
      (disk : d.Disk) (off n : ℕ) → d.read_at disk off n ≡ file_read (d.contents disk) off n
  pub write_at_lem : (disk : d.Disk) (off : ℕ) (b : Bytes) → (d.write_at disk off b).1 ≡ none
  pub write_at_contents :
      (disk : d.Disk) (off : ℕ) (b : Bytes)
      → d.contents (d.write_at disk off b).0 ≡ overwrite (d.contents disk) off b
  pub seek_lem : (disk : d.Disk) (off : ℕ) → (d.seek disk off).1 ≡ none
  pub write_lem :
      (disk : d.Disk) (b : Bytes) → ((d.write disk b).1 ≡ length b) × ((d.write disk b).2 ≡ none)
  pub write_contents :
      (disk : d.Disk) (off : ℕ) (b : Bytes)
      → d.contents (d.write (d.seek disk off).0 b).0 ≡ overwrite (d.contents disk) off b
  pub size_lem : (disk : d.Disk) → d.size disk ≡ ok (length (d.contents disk))

-- `if _, err := src.ReadAt(buf, off); err != nil && err != io.EOF { return err }` on a buffer of n
-- zero bytes: the buffer after a read that was whole or short.
abbrev pub read_buffer : ℕ → Bytes × Option Error → Result Bytes
read_buffer n (got, none) = ok (got ++ zeros (n - length got))
read_buffer n (got, some eof) = ok (got ++ zeros (n - length got))
read_buffer n (got, some e) = err e

module _ (d : Device) where
  open d use {Disk, seek, write}

  abbrev pub after_write : ℕ → Disk × ℕ × Option Error → Disk × Result (Unit {0})
  after_write n (disk, written, some e) = (disk, err e)
  after_write n (disk, written, none) = (disk, if written == n then ok tt else err short_write)

  abbrev pub after_seek : Bytes → Disk × Option Error → Disk × Result (Unit {0})
  after_seek b (disk, some e) = (disk, err e)
  after_seek b (disk, none) = after_write (length b) (write disk b)

  -- Seek to an offset, Write there, and refuse a short write.
  unfoldable pub seek_write : Disk → ℕ → Bytes → Disk × Result (Unit {0})
  seek_write disk off b = after_seek b (seek disk off)
