-- ===== src/Engine/Window.antt =====
-- internal/engine/window.go: a window of slots, read and checked slot by slot.
use secvault.Prelude.{
  ℕ, zero, suc, ◌+◌, ◌*◌, Bytes, slice, Bool, true, ◌&&◌, Option, none, some, if◌then◌else◌,
}
use secvault.Errors.{Result, ok, ◌>>=◌}
use secvault.Layout.{shard_size, slot_size}
use secvault.Crypto.{Primitives, verify_tag}
use secvault.Codec.{extract_payloads}
use secvault.Device.{Device, read_buffer}

module _ (p : Primitives) (d : Device) where
  -- The tags of the first slots of a window all verify.
  unfoldable pub tags_verify : Bytes → ℕ → Bool
  tags_verify raw zero = true
  tags_verify raw (suc c) =
      tags_verify raw c
      && verify_tag p (slice (c * slot_size) (c * slot_size + shard_size) raw)
          (slice (c * slot_size + shard_size) ((c + 1) * slot_size) raw)

  -- `none` is the answer (nil, false, nil): some tag does not verify.
  unfoldable pub read_window : d.Disk → ℕ → ℕ → Result (Option Bytes)
  unfolding tags_verify
  read_window disk off wc = do
    raw ← read_buffer (wc * slot_size) (d.read_at disk off (wc * slot_size))
    ok (if tags_verify raw wc then some (extract_payloads raw wc) else none)
