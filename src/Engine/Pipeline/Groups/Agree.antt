-- ===== src/Engine/Pipeline/Groups/Agree.antt =====
-- No two writes of the parity of successive groups collide.
use secvault.Prelude.{
  ℕ, ◌+◌, ◌*◌, ◌≤◌, ◌<◌, ◌≡◌, ◌≢◌, ◌⊎◌, inl, inr, refl, ap, ◌∙◌, sym, subst, arith, Bytes, length,
  get_or, leb, ◌==◌, ==_iff, Bool-cases, List, [], ◌∷◌, if◌then◌else◌,
}
use secvault.Layout.{
  file_group_chunks, blob_disk_size, shard_size, slot_size, Spec, group_span, parity_count_for,
  parity_blob_offset,
}
use secvault.Layout.Regions.{IsSpec}
use secvault.Layout.Regions.Disjoint.{slot_unique}
use secvault.Crypto.{Primitives, IsCrypto}
use secvault.Codec.{Coding, IsCoding}
use secvault.Device.{Device}
use secvault.Device.Writes.{Write, Away, Agree}
use secvault.Engine.Strong.Load.{length-get_or}
use secvault.Engine.Pipeline.Groups.{window}
use secvault.Engine.Pipeline.Groups.Windows.{IsFull, windows-All, length-slot_buf}
use secvault.Engine.Pipeline.Groups.Writes.{windows, length-map}
use secvault.Engine.Pipeline.Groups.Written.{IsGroup, some_chunk, parity_of}
use secvault.Engine.Pipeline.Groups.Apart.{parity_write, parity_count}

-- The place of a parity blob in its group.
unfoldable pub parity_place : Spec → ℕ → ℕ → ℕ
parity_place s k_data q = if leb 3 s.version then k_data + q else q

pub parity_blob_offset-place :
    (s : Spec) (g k_data q : ℕ)
    → parity_blob_offset s g k_data q
      ≡ (g * group_span s + parity_place s k_data q) * blob_disk_size
unfolding parity_blob_offset parity_place
parity_blob_offset-place s g k_data q = ground arith

pub parity_place-lt :
    (s : Spec) (k_data q : ℕ)
    → IsSpec s
    → k_data ≤ file_group_chunks
    → q < parity_count_for s k_data
    → parity_place s k_data q < group_span s
unfolding parity_place parity_count_for group_span
parity_place-lt s k_data q v few l = ground arith

parity_place-injective :
    (s : Spec) (k_data q r : ℕ) → parity_place s k_data q ≡ parity_place s k_data r → q ≡ r
unfolding parity_place
parity_place-injective s k_data q r e = ground arith

-- Windows of 32 slots in two blobs, or in one.
abbrev pub IsWindow : Write → ℕ → ℕ → Type 0
IsWindow x n w = (x.0 ≡ n * blob_disk_size + (w * 32) * slot_size) × (length x.1 ≡ 32 * slot_size)

blobs-Away :
    (n m v w : ℕ) (x y : Write)
    → IsWindow x n v
    → IsWindow y m w
    → v < 12
    → w < 12
    → n ≢ m
    → Away x y
blobs-Away n m v w x y hx hy lv lw ne = omega (arith, hx.0, hx.1, hy.0, hy.1)

windows-Away :
    (n m v w : ℕ) (x y : Write) → IsWindow x n v → IsWindow y m w → n ≡ m → v ≢ w → Away x y
windows-Away n m v w x y hx hy e ne = omega (arith, hx.0, hx.1, hy.0, hy.1)

pub decide : (m n : ℕ) → (m ≡ n) ⊎ (m ≢ n)
decide m n = elim (Bool-cases (m == n)) [
  | inl same ↦ inl ((==_iff m n).0 same)
  | inr other ↦ inr (λ e. absurd (ground (arith, e)))
]

module _ (p : Primitives) (c : Coding) (d : Device) (spec : Spec) (lib : IsCoding c)
    (crypto : IsCrypto p) (v : IsSpec spec) where
  abbrev write : ℕ → List (List Bytes) → ℕ → ℕ → Write
  write g group w q = parity_write p c d spec lib g group w q

  abbrev pub place : ℕ → List (List Bytes) → ℕ → ℕ
  place g group q = g * group_span spec + parity_place spec (length group) q

  parity_of-IsFull :
      (group : List (List Bytes)) (w q : ℕ)
      → IsGroup group
      → w < 12
      → q < parity_count p c d spec lib group
      → IsFull (get_or (parity_of p c d spec lib group (windows (w * 32) group)) q [])
  unfolding parity_of
  parity_of-IsFull [] w q h l lq = absurd (omega (arith, h.0))
  parity_of-IsFull (first ∷ group) w q h l lq =
      let k_data = length (first ∷ group) in
      let m = parity_count_for spec k_data in
      let en = lib.encoder_lem k_data m (some_chunk first group) in
      let cols = windows (w * 32) (first ∷ group) in
      length-get_or (32 * shard_size) (en.parity cols) q
        (en.parity_size (32 * shard_size) cols (omega arith, inr refl)
          (length-map (λ shards. window shards (w * 32) 32) (first ∷ group))
          (windows-All (first ∷ group) w h.2 l))
        (omega (arith, lq, en.length-parity cols))

  write-IsWindow :
      (g : ℕ) (group : List (List Bytes)) (w q : ℕ)
      → IsGroup group
      → w < 12
      → q < parity_count p c d spec lib group
      → IsWindow (write g group w q) (place g group q) w
  unfolding parity_write
  write-IsWindow g group w q h l lq = (
    ap (λ off. off + (w * 32) * slot_size) (parity_blob_offset-place spec g (length group) q),
    length-slot_buf p crypto c d spec _ (parity_of-IsFull group w q h l lq),
  )

  module _ (at : ℕ → List (List Bytes)) where
    -- A write of the parity of the group that stands at its number.
    pub record IsParityWrite (x : Write) : Type 0 where
      pub g : ℕ
      pub w : ℕ
      pub q : ℕ
      pub sized : IsGroup (at g)
      pub some_window : w < 12
      pub some_blob : q < parity_count p c d spec lib (at g)
      pub same : x ≡ write g (at g) w q

    one_blob :
        (x y : Write) (a : IsParityWrite x) (b : IsParityWrite y)
        → place a.g (at a.g) a.q ≡ place b.g (at b.g) b.q
        → (a.g ≡ b.g) × (a.q ≡ b.q)
    one_blob x y a b e =
        let (eg, ep) =
          slot_unique (group_span spec) a.g b.g (parity_place spec (length (at a.g)) a.q)
            (parity_place spec (length (at b.g)) b.q)
            (parity_place-lt spec (length (at a.g)) a.q v a.sized.1 a.some_blob)
            (parity_place-lt spec (length (at b.g)) b.q v b.sized.1 b.some_blob) e in
        (
          eg,
          parity_place-injective spec (length (at a.g)) a.q b.q
              (ep ∙ ap (λ g. parity_place spec (length (at g)) b.q) (sym eg)),
        )

    pub parity-IsWindow :
        (x : Write) (a : IsParityWrite x) → IsWindow x (place a.g (at a.g) a.q) a.w
    parity-IsWindow x a =
        subst (λ y. IsWindow y (place a.g (at a.g) a.q) a.w) (sym a.same)
          (write-IsWindow a.g (at a.g) a.w a.q a.sized a.some_window a.some_blob)

    pub parity_writes-Agree : (x y : Write) → IsParityWrite x → IsParityWrite y → Agree x y
    parity_writes-Agree x y a b =
        let hx = parity-IsWindow x a in
        let hy = parity-IsWindow y b in
        elim (decide (place a.g (at a.g) a.q) (place b.g (at b.g) b.q)) [
          | inr other ↦ inr (blobs-Away _ _ a.w b.w x y hx hy a.some_window b.some_window other)
          | inl same ↦ elim (decide a.w b.w) [
            | inr later ↦ inr (windows-Away _ _ a.w b.w x y hx hy same later)
            | inl window_same ↦
                let (eg, eq) = one_blob x y a b same in
                inl (
                  a.same
                  ∙ ap (λ g. write g (at g) a.w a.q) eg
                  ∙ ap (λ w. write b.g (at b.g) w a.q) window_same
                  ∙ ap (λ q. write b.g (at b.g) b.w q) eq
                  ∙ sym b.same)
          ]
        ]
