-- ===== src/Device/Faults.antt =====
-- internal/testutil/testutil.go: the injection of faults into a file. A call of t.Fatalf is an error
-- here; slots and chunks are those of version 2.
use secvault.Prelude.{
  ℕ, ◌+◌, ◌-◌, ◌*◌, ◌<◌, ◌≡◌, refl, ap, sym, ◌∙◌, arith, Bytes, zeros, length, get_or, drop-append,
  length-append, leb, false, if◌then◌else◌, Option, none, some, [], ◌∷◌, ◌++◌,
}
use secvault.Errors.{Error, new}
use secvault.Layout.{shard_size, slot_size, tag_size, blob_disk_size, spec_v2, data_blob_offset}
use secvault.Device.{Device, IsFile, file_read, overwrite}
use secvault.Device.Reads.{overwrite-middle}

module _ (d : Device) where
  open d use {Disk, contents, read_at, write_at}

  -- What follows the read of the byte; b ^ 0xFF is 255 - b.
  abbrev flip_read : Disk → ℕ → Bytes × Option Error → Disk × Option Error
  flip_read disk off (b, some e) = (disk, some e)
  flip_read disk off (b, none) = write_at disk off ((255 - get_or b 0 0) ∷ [])

  unfoldable pub flip_byte : Disk → ℕ → Disk × Option Error
  flip_byte disk off = flip_read disk off (read_at disk off 1)

  unfoldable pub corrupt_slot : Disk → ℕ → ℕ → ℕ → Disk × Option Error
  unfolding flip_byte data_blob_offset
  corrupt_slot disk chunk slot inner =
      if leb shard_size inner
      then (disk, some (new "inner out of payload range"))
      else flip_byte disk (data_blob_offset spec_v2 chunk + slot * slot_size + inner)

  unfoldable pub corrupt_tag : Disk → ℕ → ℕ → ℕ → Disk × Option Error
  unfolding flip_byte data_blob_offset
  corrupt_tag disk chunk slot inner =
      if leb tag_size inner
      then (disk, some (new "inner out of tag range"))
      else flip_byte disk (data_blob_offset spec_v2 chunk + slot * slot_size + shard_size + inner)

  unfoldable pub zero_blob : Disk → ℕ → Disk × Option Error
  unfolding data_blob_offset zeros
  zero_blob disk chunk = write_at disk (data_blob_offset spec_v2 chunk) (zeros blob_disk_size)

  module _ (f : IsFile d) where
    one_byte :
        (front back : Bytes) (x off : ℕ)
        → length front ≡ off
        → file_read (front ++ (x ∷ back)) off 1 ≡ (x ∷ [], none)
    one_byte front back x off e =
        let here : leb (length (front ++ (x ∷ back))) off ≡ false =
          ground (arith, length-append {0} front (x ∷ back)) in
        rw (here, drop-append off front (x ∷ back) e) refl

    -- FlipByte inside a file succeeds and flips the byte.
    flip_byte_lem :
        (disk : Disk) (front back : Bytes) (x off : ℕ)
        → contents disk ≡ front ++ (x ∷ back)
        → length front ≡ off
        → ((flip_byte disk off).1 ≡ none)
          × (contents (flip_byte disk off).0 ≡ front ++ ((255 - x) ∷ back))
    unfolding flip_byte
    flip_byte_lem disk front back x off on_disk e =
        let read : read_at disk off 1 ≡ (x ∷ [], none) =
          f.read_at_lem disk off 1
          ∙ ap (λ b. file_read b off 1) on_disk
          ∙ one_byte front back x off e in
        rw read (
          f.write_at_lem disk off ((255 - x) ∷ []),
          f.write_at_contents disk off ((255 - x) ∷ [])
              ∙ ap (λ b. overwrite b off ((255 - x) ∷ [])) on_disk
              ∙ overwrite-middle front (x ∷ []) back ((255 - x) ∷ []) off e refl,
        )

    -- On a file that does not fail, FlipByte at an offset inside it changes the byte there to another
    -- one, and a second FlipByte restores the file.
    pub flip_byte-flip_byte :
        (disk : Disk) (front back : Bytes) (x off : ℕ)
        → contents disk ≡ front ++ (x ∷ back)
        → length front ≡ off
        → x < 256
        → (contents (flip_byte disk off).0 ≡ front ++ ((255 - x) ∷ back))
          × (contents (flip_byte (flip_byte disk off).0 off).0 ≡ contents disk)
    flip_byte-flip_byte disk front back x off on_disk e byte =
        let once = (flip_byte_lem disk front back x off on_disk e).1 in
        let twice = (flip_byte_lem (flip_byte disk off).0 front back (255 - x) off once e).1 in
        let same : 255 - (255 - x) ≡ x = omega arith in
        (once, twice ∙ ap (λ y. front ++ (y ∷ back)) same ∙ sym on_disk)
