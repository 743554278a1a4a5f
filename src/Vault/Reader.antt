-- ===== src/Vault/Reader.antt =====
-- reader.go: random access to the plaintext of a container of any scheme, with the caches of the
-- last chunk and of the whole plaintext. The locks make each method one step.
pub mod Fetch
pub mod Access
use secvault.Prelude.{
  ℕ, zero, suc, ◌+◌, ◌-◌, ◌/◌, ◌%◌, Bytes, [], ◌++◌, length, take, drop, Option, none, some, Bool,
  true, false, ◌&&◌, ◌||◌, not, leb, ltb, ◌==◌, if◌then◌else◌, ℤ, pos, negsuc, ◌==ℤ◌, ltb_ℤ, String,
}
use text.Mathlib.Text.{◌==◌ as str_eq}
use secvault.Errors.{Error, Result, ok, err, new, eof, negative_offset, engine_chunk, chunk}
use secvault.Layout.{chunk_plain_size}
use secvault.Format.{scheme_rs_dual}

-- What the reader uses of an engine.Container: parts of its manifest, and its two ways to load.
pub record Source : Type 0 where
  pub scheme : String
  pub plain_size : ℕ
  pub chunk_count : ℕ
  pub load_chunk : ℕ → Result Bytes
  pub load_all : Result Bytes

-- The plaintext of an empty cache is the empty one, since nil has no bytes.
pub record Reader : Type 0 where
  pub cache_idx : ℤ
  pub cache_plain : Bytes
  pub all_loaded : Bool
  pub all_plain : Bytes

-- The reader that Open returns.
abbrev pub fresh : Reader
fresh = record { cache_idx = negsuc 0; cache_plain = []; all_loaded = false; all_plain = [] }

unfoldable pub wrap_chunk_err : Error → Error
wrap_chunk_err (engine_chunk index e) = chunk index e
wrap_chunk_err e = e

-- append(buf[:0], src...) on a buffer that is large enough: the source's bytes, in a slice that is
-- not the cache's.
abbrev pub clone_into : Bytes → Bytes → Bytes
clone_into buf src = src

unfoldable pub cached : Reader → ℕ → Option Bytes
cached r idx =
    if (r.cache_idx ==ℤ pos idx) && ltb 0 (length r.cache_plain) then some r.cache_plain else none

abbrev pub keep_all : Reader → Result Bytes → Reader × Result Bytes
keep_all r (err e) = (r, err e)
keep_all r (ok plain) = (record r { all_loaded = true; all_plain = plain }, ok plain)

abbrev pub keep_chunk : Reader → ℕ → Result Bytes → Reader × Result Bytes
keep_chunk r idx (err e) = (r, err (wrap_chunk_err e))
keep_chunk r idx (ok plain) = (record r { cache_idx = pos idx; cache_plain = plain }, ok plain)

abbrev pub cached_or_loaded : Reader → ℕ → Result Bytes → Option Bytes → Reader × Result Bytes
cached_or_loaded r idx loaded (some plain) = (r, ok plain)
cached_or_loaded r idx loaded none = keep_chunk r idx loaded

abbrev pub bytes_of : Result Bytes → Bytes
bytes_of (ok b) = b
bytes_of (err e) = []

-- The end of a round: an error leaves the loop, and bytes stand before those of the later rounds.
unfoldable pub round :
    Reader → Result Bytes → Bytes → Reader × Bytes × Option Error → Reader × Bytes × Option Error
round r (err e) part rest = (r, [], some e)
round r (ok plain) part rest = (rest.0, part ++ rest.1, rest.2)

module _ (s : Source) where
  abbrev pub single_blob : Bool
  single_blob = not (str_eq s.scheme scheme_rs_dual)

  unfoldable pub load_all_plain : Reader → Reader × Result Bytes
  load_all_plain r = if r.all_loaded then (r, ok r.all_plain) else keep_all r s.load_all

  -- The chunk from the cache, or loaded and kept in the cache.
  unfoldable pub fetch : Reader → ℕ → Reader × Result Bytes
  unfolding cached wrap_chunk_err
  fetch r idx = cached_or_loaded r idx (s.load_chunk idx) (cached r idx)

  abbrev pub cloned : Bytes → Reader × Result Bytes → Reader × Result Bytes
  cloned buf (r, err e) = (r, err e)
  cloned buf (r, ok plain) = (r, ok (clone_into buf plain))

  -- (*Reader).ReadChunkAt
  unfoldable pub read_chunk_at : Reader → ℤ → Bytes → Reader × Result Bytes
  unfolding load_all_plain fetch
  read_chunk_at r (negsuc i) buf = (
    r,
    err (
        new (
          if single_blob then "index out of range (single-blob scheme)" else "index out of range")),
  )
  read_chunk_at r (pos i) buf =
      if single_blob
      then (if not (i == 0)
          then (r, err (new "index out of range (single-blob scheme)"))
          else cloned buf (load_all_plain r))
      else if leb s.chunk_count i
      then (r, err (new "index out of range"))
      else cloned buf (fetch r i)

  -- The loop of ReadAt at the offset abs, with `want` bytes missing. Every round copies a byte, so
  -- `want` rounds are enough where the chunks have their sizes.
  unfoldable pub read_loop : ℕ → Reader → ℕ → ℕ → Reader × Bytes × Option Error
  unfolding round
  read_loop zero r want abs = (r, [], none)
  read_loop (suc fuel) r want abs =
      let (r', got) = fetch r (abs / chunk_plain_size) in
      let part = take want (drop (abs % chunk_plain_size) (bytes_of got)) in
      let rest = read_loop fuel r' (want - length part) (abs + length part) in
      if want == 0 || leb s.plain_size abs then (r, [], none) else round r' got part rest

  -- io.EOF after a short read
  abbrev pub short_read : ℕ → Reader × Bytes × Option Error → Reader × Bytes × Option Error
  short_read want (r, got, some e) = (r, got, some e)
  short_read want (r, got, none) = (r, got, if ltb (length got) want then some eof else none)

  abbrev pub slice_all : ℕ → ℕ → Reader × Result Bytes → Reader × Bytes × Option Error
  slice_all want off (r, err e) = (r, [], some e)
  slice_all want off (r, ok plain) =
      if leb (length plain) off
      then (r, [], some eof)
      else short_read want (r, take want (drop off plain), none)

  unfoldable pub read_at_small : Reader → ℕ → ℕ → Reader × Bytes × Option Error
  unfolding load_all_plain
  read_at_small r want off = slice_all want off (load_all_plain r)

  -- (*Reader).ReadAt with the length of the buffer: the bytes that it stores there, and the error.
  unfoldable pub read_at : Reader → ℕ → ℤ → Reader × Bytes × Option Error
  unfolding read_loop read_at_small
  read_at r want (negsuc off) = (r, [], some negative_offset)
  read_at r want (pos off) =
      if want == 0
      then (r, [], none)
      else if single_blob
      then read_at_small r want off
      else short_read want (read_loop want r want off)
