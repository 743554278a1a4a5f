-- ===== src/Examples/Faults.antt =====
-- The injection of faults at a concrete input.
use secvault.Prelude.{◌≡◌, refl, arith, [], ◌∷◌}
use secvault.Device.Faults.{flip_byte, flip_byte-flip_byte}
use secvault.Device.MemFile.{MemFile, mem_file, mem_file-IsFile}

abbrev file : MemFile
file = record { bytes = 7 ∷ 8 ∷ 9 ∷ []; pos = 0 }

flip_byte-flip_byte_example :
    ((flip_byte mem_file file 1).0.bytes ≡ 7 ∷ 247 ∷ 9 ∷ [])
    × ((flip_byte mem_file (flip_byte mem_file file 1).0 1).0.bytes ≡ 7 ∷ 8 ∷ 9 ∷ [])
flip_byte-flip_byte_example =
    flip_byte-flip_byte mem_file mem_file-IsFile file (7 ∷ []) (9 ∷ []) 8 1 refl refl (omega arith)
