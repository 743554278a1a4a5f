-- ===== src/Engine/GcmOnly.antt =====
-- internal/engine/gcm_only.go: the gcm-only write back end, its read path and its scrub.
pub mod Laws
use secvault.Prelude.{
  ℕ, zero, suc, ◌+◌, ◌++◌, Bytes, zeros, length, slice, take, drop, copy, copy_at, bytes_equal, not,
  Bool, true, false, Option, none, some, List, [], ◌∷◌, if◌then◌else◌,
}
use secvault.Errors.{
  Result, ok, err, gcm_only_corrupted, wrap, is_error, or_err, reject_if, ◌>>=◌, ◌>>◌,
}
use secvault.Layout.{tag_size, gcm_header_size, magic_gcm_only, gcm_only_payload_size}
use secvault.Crypto.{Primitives}
use secvault.Device.{Device, read_buffer, seek_write}
use secvault.Engine.Stats.{ScrubStats, fresh_stats}

-- The 16 bytes before the ciphertext: the magic and the nonce.
unfoldable pub gcm_header : Bytes → Bytes
unfolding zeros
gcm_header nonce = copy_at 4 (copy (zeros gcm_header_size) magic_gcm_only) nonce

module _ (p : Primitives) (d : Device) where
  open p use {Aead, seal, unseal}
  open d use {Disk, read_at}

  pub record GcmOnlySink : Type 0 where
    pub dst : Disk
    pub aead : Aead
    pub buf : Bytes

  -- The sink after the call, and the count.
  unfoldable pub write : GcmOnlySink → Bytes → GcmOnlySink × ℕ
  write g b = (record g { buf = g.buf ++ b }, length b)

  unfoldable pub gcm_body : Aead → Bytes → Bytes → Bytes
  unfolding gcm_header
  gcm_body aead nonce buf = let header = gcm_header nonce in header ++ seal aead nonce buf header

  -- The argument is what RandomBytes returned for a nonce; the result is the destination after the
  -- call, and the plain size.
  unfoldable pub drain : GcmOnlySink → Result Bytes → Disk × Result ℕ
  unfolding gcm_body
  drain g (err e) = (g.dst, err e)
  drain g (ok nonce) =
      let (disk, done) = seek_write d g.dst 0 (gcm_body g.aead nonce g.buf) in
      (disk, done >>= λ _. ok (length g.buf))

  -- What LoadGCMOnly makes of the payload that it read.
  unfoldable pub open_gcm_only : Aead → ℕ → Bytes → Result Bytes
  unfolding bytes_equal
  open_gcm_only aead plain_size buf =
      let header = take gcm_header_size buf in
      let ct = slice gcm_header_size (gcm_header_size + plain_size + tag_size) buf in
      do
        reject_if (not (bytes_equal (take 4 header) magic_gcm_only))
            (wrap "secvault: gcm-only magic mismatch" gcm_only_corrupted)
        or_err (unseal aead (drop 4 header) ct header) gcm_only_corrupted

  -- (*Container).LoadGCMOnly
  unfoldable pub load_gcm_only : Disk → Aead → ℕ → Result Bytes
  unfolding open_gcm_only
  load_gcm_only disk aead plain_size = do
    let payload_size = gcm_only_payload_size plain_size
    buf ← read_buffer payload_size (read_at disk 0 payload_size)
    open_gcm_only aead plain_size buf

  -- The report on what LoadGCMOnly answered.
  abbrev pub settle_gcm_only : Result Bytes → Result ScrubStats
  settle_gcm_only (ok plain) = ok (record (fresh_stats 1) { chunks_clean = 1 })
  settle_gcm_only (err e) =
      if is_error e gcm_only_corrupted
      then ok (record (fresh_stats 1) { chunks_lost = 0 ∷ [] })
      else err e

  -- (*Container).ScrubGCMOnly
  unfoldable pub scrub_gcm_only : Disk → Aead → ℕ → Result ScrubStats
  unfolding load_gcm_only is_error
  scrub_gcm_only disk aead plain_size = settle_gcm_only (load_gcm_only disk aead plain_size)
