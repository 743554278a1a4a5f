-- ===== src/Engine/Pipeline/Groups/Both.antt =====
-- The data blobs and the parity of successive groups in one file: no two writes collide.
use secvault.Prelude.{
  ℕ, ◌+◌, ◌*◌, ◌/◌, ◌%◌, ◌<◌, ◌≡◌, ◌≢◌, ◌⊎◌, inl, inr, ap, ◌∙◌, sym, subst, arith, Bytes, length,
  leb, List, if◌then◌else◌,
}
use secvault.Layout.{
  file_group_chunks, file_parity_shards, blob_disk_size, Spec, group_span, parity_count_for,
  data_blob_offset,
}
use secvault.Layout.Regions.{IsSpec}
use secvault.Layout.Regions.Disjoint.{slot_unique}
use secvault.Crypto.{Primitives, IsCrypto}
use secvault.Codec.{Coding, IsCoding}
use secvault.Device.{Device}
use secvault.Device.Writes.{Write, Away, Agree}
use secvault.Engine.Pipeline.Groups.Agree.{
  decide, parity_place, parity_place-lt, place, IsWindow, IsParityWrite, parity-IsWindow,
  parity_writes-Agree,
}

-- The place of a data blob in its group.
unfoldable data_place : Spec → ℕ → ℕ
data_place s i =
    if leb 3 s.version then i % file_group_chunks else file_parity_shards + i % file_group_chunks

data_blob_offset-place :
    (s : Spec) (i : ℕ)
    → data_blob_offset s i
      ≡ ((i / file_group_chunks) * group_span s + data_place s i) * blob_disk_size
unfolding data_blob_offset data_place
data_blob_offset-place s i = ground arith

data_place-lt-span : (s : Spec) (i : ℕ) → data_place s i < group_span s
unfolding data_place group_span
data_place-lt-span s i = ground arith

data_place-injective :
    (s : Spec) (i j : ℕ)
    → i / file_group_chunks ≡ j / file_group_chunks
    → data_place s i ≡ data_place s j
    → i ≡ j
unfolding data_place
data_place-injective s i j eg ep = ground arith

-- Data and parity of one group have different places.
data_place-parity_place :
    (s : Spec) (i k_data q : ℕ)
    → IsSpec s
    → i % file_group_chunks < k_data
    → q < parity_count_for s k_data
    → data_place s i ≢ parity_place s k_data q
unfolding data_place parity_place parity_count_for
data_place-parity_place s i k_data q v l lq e = absurd (ground arith)

abbrev IsBlob : Write → ℕ → Type 0
IsBlob x n = (x.0 ≡ n * blob_disk_size) × (length x.1 ≡ blob_disk_size)

blob-Away : (n m : ℕ) (x y : Write) → IsBlob x n → IsBlob y m → n ≢ m → Away x y
blob-Away n m x y hx hy ne = omega (arith, hx.0, hx.1, hy.0, hy.1)

blob-window-Away :
    (n m w : ℕ) (x y : Write) → IsBlob x n → IsWindow y m w → w < 12 → n ≢ m → Away x y × Away y x
blob-window-Away n m w x y hx hy lw ne =
    (omega (arith, hx.0, hx.1, hy.0, hy.1), omega (arith, hx.0, hx.1, hy.0, hy.1))

module _ (p : Primitives) (c : Coding) (d : Device) (spec : Spec) (lib : IsCoding c)
    (crypto : IsCrypto p) (v : IsSpec spec) (at : ℕ → List (List Bytes)) (image : ℕ → Bytes) where
  -- The write of a data blob of the group that stands at its number.
  pub record IsDataWrite (x : Write) : Type 0 where
    pub i : ℕ
    pub sized : length (image i) ≡ blob_disk_size
    pub some_chunk : i % file_group_chunks < length (at (i / file_group_chunks))
    pub same : x ≡ (data_blob_offset spec i, image i)

  abbrev data_slot : ℕ → ℕ
  data_slot i = (i / file_group_chunks) * group_span spec + data_place spec i

  data-IsBlob : (x : Write) (a : IsDataWrite x) → IsBlob x (data_slot a.i)
  data-IsBlob x a =
      subst (λ y. IsBlob y (data_slot a.i)) (sym a.same) (data_blob_offset-place spec a.i, a.sized)

  data_writes-Agree : (x y : Write) → IsDataWrite x → IsDataWrite y → Agree x y
  data_writes-Agree x y a b = elim (decide (data_slot a.i) (data_slot b.i)) [
    | inr other ↦ inr (blob-Away _ _ x y (data-IsBlob x a) (data-IsBlob y b) other)
    | inl same_slot ↦
        let (eg, ep) =
          slot_unique (group_span spec) (a.i / file_group_chunks) (b.i / file_group_chunks)
            (data_place spec a.i) (data_place spec b.i) (data_place-lt-span spec a.i)
            (data_place-lt-span spec b.i) same_slot in
        let e : a.i ≡ b.i = data_place-injective spec a.i b.i eg ep in
        inl (a.same ∙ ap (λ (i : ℕ). (data_blob_offset spec i, image i)) e ∙ sym b.same)
  ]

  abbrev Parity : Write → Type 0
  Parity x = IsParityWrite p c d spec lib crypto v at x

  abbrev parity_slot : (y : Write) → Parity y → ℕ
  parity_slot y b = place p c d spec lib crypto v b.g (at b.g) b.q

  other_slots : (x y : Write) (a : IsDataWrite x) (b : Parity y) → data_slot a.i ≢ parity_slot y b
  other_slots x y a b e =
      let (eg, ep) =
        slot_unique (group_span spec) (a.i / file_group_chunks) b.g (data_place spec a.i)
          (parity_place spec (length (at b.g)) b.q) (data_place-lt-span spec a.i)
          (parity_place-lt spec (length (at b.g)) b.q v b.sized.1 b.some_blob) e in
      data_place-parity_place spec a.i (length (at b.g)) b.q v
        (subst (λ g. a.i % file_group_chunks < length (at g)) eg a.some_chunk) b.some_blob ep

  data_slot-Away : (x y : Write) → IsDataWrite x → Parity y → Away x y × Away y x
  data_slot-Away x y a b =
      blob-window-Away (data_slot a.i) (parity_slot y b) b.w x y (data-IsBlob x a)
        (parity-IsWindow p c d spec lib crypto v at y b) b.some_window (other_slots x y a b)

  abbrev pub IsEither : Write → Type 0
  IsEither x = IsDataWrite x ⊎ Parity x

  pub either_writes-Agree : (x y : Write) → IsEither x → IsEither y → Agree x y
  either_writes-Agree x y (inl a) (inl b) = data_writes-Agree x y a b
  either_writes-Agree x y (inl a) (inr b) = inr (data_slot-Away x y a b).0
  either_writes-Agree x y (inr a) (inl b) = inr (data_slot-Away y x b a).1
  either_writes-Agree x y (inr a) (inr b) = parity_writes-Agree p c d spec lib crypto v at x y a b
