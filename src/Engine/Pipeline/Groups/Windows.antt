-- ===== src/Engine/Pipeline/Groups/Windows.antt =====
-- The windows of the chunks of a group: their sizes, and the sizes of the tagged columns of a shard.
use secvault.Prelude.{
  ℕ, ◌+◌, ◌-◌, ◌*◌, ◌≤◌, ◌<◌, ◌≡◌, ap, ◌∙◌, arith, Bytes, length, length-append, length-take,
  length-drop, length-chunks, chunks, chunks-All, concat, take, drop, map, All, All-take, All-drop,
  ltb, true, false, if_cases, List, [], ◌∷◌,
}
use secvault.Layout.{data_shards, shards_per_blob, shard_size, slot_size}
use secvault.Crypto.{Primitives, IsCrypto, shard_tag}
use secvault.Crypto.Tags.{length-shard_tag}
use secvault.Codec.{Coding, slice_window}
use secvault.Device.{Device}
use secvault.Layout.{Spec}
use secvault.Engine.Strong.{slot}
use secvault.Engine.Pipeline.Groups.{window, slot_buf}

-- The payloads of a chunk: 384 shards of 4096 bytes.
abbrev pub IsShards : List Bytes → Type 0
IsShards shards = (length shards ≡ shards_per_blob) × All (λ b. length b ≡ shard_size) shards

length-concat :
    (xs : List Bytes)
    → All (λ b. length b ≡ shard_size) xs
    → length (concat xs) ≡ length xs * shard_size
length-concat [] h = omega arith
length-concat (x ∷ xs) h = omega (arith, length-append {0} x (concat xs), h.0, length-concat xs h.1)

slice_window-length :
    (buf : Bytes) (j n : ℕ)
    → length buf ≡ n * shard_size
    → j + 32 ≤ n
    → length (slice_window buf j 32) ≡ 32 * shard_size
unfolding slice_window
slice_window-length buf j n e h =
    let off = j * shard_size in
    omega (arith, e, length-take (off + 32 * shard_size - off) (drop off buf), length-drop off buf)

abbrev pub IsFull : Bytes → Type 0
IsFull b = length b ≡ 32 * shard_size

-- The columns from some shard on.
part-IsFull :
    (part : List Bytes) (j n : ℕ)
    → All (λ b. length b ≡ shard_size) part
    → length part ≡ n
    → j + 32 ≤ n
    → IsFull (slice_window (concat part) j 32)
part-IsFull part j n h e fits =
    slice_window-length (concat part) j n (omega (arith, length-concat part h, e)) fits

pub data_window_fits : (w : ℕ) → ltb (w * 32) data_shards ≡ true → w * 32 + 32 ≤ data_shards
data_window_fits w e = ground arith

parity_window_fits :
    (w : ℕ) → w < 12 → ltb (w * 32) data_shards ≡ false → w * 32 - data_shards + 32 ≤ 128
parity_window_fits w l e = ground arith

-- A window that starts at a multiple of 32 is full.
pub window-IsFull :
    (shards : List Bytes) (w : ℕ) → IsShards shards → w < 12 → IsFull (window shards (w * 32) 32)
unfolding window
window-IsFull shards w h l =
    let data_part = All-take (λ b. length b ≡ shard_size) data_shards shards h.1 in
    let parity_part = All-drop (λ b. length b ≡ shard_size) data_shards shards h.1 in
    if_cases IsFull (ltb (w * 32) data_shards)
      (λ below.
        part-IsFull (take data_shards shards) (w * 32) data_shards data_part
          (omega (arith, length-take data_shards shards, h.0)) (data_window_fits w below))
      (λ above.
        part-IsFull (drop data_shards shards) (w * 32 - data_shards) 128 parity_part
          (omega (arith, length-drop data_shards shards, h.0)) (parity_window_fits w l above))

pub windows-All :
    (group : List (List Bytes)) (w : ℕ)
    → All IsShards group
    → w < 12
    → All IsFull (map (λ shards. window shards (w * 32) 32) group)
windows-All [] w h l = tt
windows-All (shards ∷ group) w h l = (window-IsFull shards w h.0 l, windows-All group w h.1 l)

module _ (p : Primitives) (v : IsCrypto p) (c : Coding) (d : Device) (spec : Spec) where
  length-slots :
      (parts : List Bytes)
      → All (λ b. length b ≡ shard_size) parts
      → length (concat (map (slot p) parts)) ≡ length parts * slot_size
  unfolding slot
  length-slots [] h = omega arith
  length-slots (b ∷ parts) h = omega (
    arith,
    length-append {0} (slot p b) (concat (map (slot p) parts)),
    length-append {0} b (shard_tag p b),
    length-shard_tag p v b,
    h.0,
    length-slots parts h.1,
  )

  -- The tagged columns of a full window.
  pub length-slot_buf : (b : Bytes) → IsFull b → length (slot_buf p c d spec 32 b) ≡ 32 * slot_size
  unfolding slot_buf
  length-slot_buf b h =
      length-slots (chunks 32 shard_size b) (chunks-All 32 shard_size b (omega (arith, h)))
      ∙ ap (λ n. n * slot_size) (length-chunks 32 shard_size b)
