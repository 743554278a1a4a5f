-- ===== src/Engine/Pipeline/Groups/Writes.antt =====
-- What writeParityGroup writes, as a list of writes: the tagged columns of each parity blob, window by
-- window.

use secvault.Prelude.{
  ℕ, zero, suc, ◌+◌, ◌*◌, ◌≤◌, ◌≡◌, refl, ap, ◌∙◌, sym, subst, arith, inr, Bytes, zeros, replicate,
  length, length-replicate, get_or, map, All, List, [], ◌∷◌, ◌++◌,
}
use secvault.Errors.{Result, ok, err}
use secvault.Layout.{shard_size, slot_size, Spec, parity_count_for, parity_blob_offset}
use secvault.Crypto.{Primitives}
use secvault.Codec.{Coding, IsEncoder}
use secvault.Device.{Device, IsFile, overwrite, seek_write}
use secvault.Device.Reads.{seek_write_lem}
use secvault.Device.Writes.{Write, put_all, put_all-append}
use secvault.Engine.Strong.Written.{replicate-All}
use secvault.Engine.Pipeline.Groups.Windows.{IsShards, IsFull, windows-All}
use secvault.Engine.Pipeline.Groups.{
  window, slot_buf, and_write, write_parity_blobs, write_encoded, write_parity_windows,
}

-- The data columns of a group in the window at j0.
abbrev pub windows : ℕ → List (List Bytes) → List Bytes
windows j0 group = map (λ shards. window shards j0 32) group

get_or-past : (xs ys : List Bytes) (i : ℕ) → get_or (xs ++ ys) (length xs + i) [] ≡ get_or ys i []
get_or-past [] ys i = ap (λ k. get_or ys k []) (omega arith)
get_or-past (x ∷ xs) ys i =
    let e : length (x ∷ xs) + i ≡ suc (length xs + i) = omega arith in
    ap (λ k. get_or ((x ∷ xs) ++ ys) k []) e ∙ get_or-past xs ys i

pub length-map : (f : List Bytes → Bytes) (xs : List (List Bytes)) → length (map f xs) ≡ length xs
length-map f [] = refl
length-map f (x ∷ xs) = ap suc (length-map f xs)

module _ (p : Primitives) (c : Coding) (d : Device) (spec : Spec) where
  -- The writes of the parity shards from q on in the window at j0.
  unfoldable pub blob_writes : ℕ → ℕ → List Bytes → ℕ → ℕ → ℕ → List Write
  blob_writes g k_data parity j0 q zero = []
  blob_writes g k_data parity j0 q (suc n) =
      (
        parity_blob_offset spec g k_data q + j0 * slot_size,
        slot_buf p c d spec 32 (get_or parity q []),
      )
      ∷ blob_writes g k_data parity j0 (q + 1) n

  -- The writes of n windows from the window w on, where `parity` gives the parity of data columns.
  unfoldable pub window_writes :
      ℕ → List (List Bytes) → (List Bytes → List Bytes) → ℕ → ℕ → List Write
  unfolding blob_writes
  window_writes g group parity w zero = []
  window_writes g group parity w (suc n) =
      blob_writes g (length group) (parity (windows (w * 32) group)) (w * 32) 0
        (parity_count_for spec (length group))
      ++ window_writes g group parity (suc w) n

pub ok-injective : {A : Type 0} {x y : A} → ok x ≡ ok y → x ≡ y
ok-injective e = cc

module _ (p : Primitives) (c : Coding) (d : Device) (spec : Spec) (f : IsFile d) where
  -- A call that succeeded with these bytes in the file.
  abbrev pub Wrote : Bytes → d.Disk × Result (Unit {0}) → Type 0
  Wrote b r = (r.1 ≡ ok tt) × (d.contents r.0 ≡ b)

  and_write_ok :
      (r : d.Disk × Result (Unit {0})) (next : d.Disk → d.Disk × Result (Unit {0}))
      → r.1 ≡ ok tt
      → and_write p c d spec r next ≡ next r.0
  and_write_ok (disk, ok done_) next e = refl
  and_write_ok (disk, err x) next e = cc

  write_parity_blobs-Wrote :
      (g : ℕ) (data_part parity : List Bytes) (j0 q n : ℕ) (disk : d.Disk)
      → Wrote
          (put_all (d.contents disk) (blob_writes p c d spec g (length data_part) parity j0 q n))
          (write_parity_blobs p c d spec g (length data_part) (data_part ++ parity) j0 32 q n disk)
  unfolding write_parity_blobs blob_writes put_all
  write_parity_blobs-Wrote g data_part parity j0 q zero disk = (refl, refl)
  write_parity_blobs-Wrote g data_part parity j0 q (suc n) disk =
      let k_data = length data_part in
      let off = parity_blob_offset spec g k_data q + j0 * slot_size in
      let src = slot_buf p c d spec 32 (get_or (data_part ++ parity) (k_data + q) []) in
      let (fine, on_disk) = seek_write_lem d f disk off src in
      let same : src ≡ slot_buf p c d spec 32 (get_or parity q []) =
        ap (slot_buf p c d spec 32) (get_or-past data_part parity q) in
      let rest =
        write_parity_blobs-Wrote g data_part parity j0 (q + 1) n (seek_write d disk off src).0 in
      let step =
        and_write_ok (seek_write d disk off src)
          (write_parity_blobs p c d spec g k_data (data_part ++ parity) j0 32 (q + 1) n) fine in
      (
        ap (λ r. r.1) step ∙ rest.0,
        ap (λ r. d.contents r.0) step
            ∙ rest.1
            ∙ ap (λ b. put_all b (blob_writes p c d spec g k_data parity j0 (q + 1) n))
                (on_disk ∙ ap (overwrite (d.contents disk) off) same),
      )

  -- The parity of a window is encoded and written.
  write_encoded-Wrote :
      (g k_data m j0 : ℕ) (data_part parity : List Bytes) (disk : d.Disk) (r : Result (List Bytes))
      → r ≡ ok (data_part ++ parity)
      → length data_part ≡ k_data
      → Wrote
          (put_all (d.contents disk) (blob_writes p c d spec g k_data parity j0 0 m))
          (write_encoded p c d spec g k_data m j0 32 disk r)
  write_encoded-Wrote g k_data m j0 data_part parity disk (err x) e size = cc
  write_encoded-Wrote g k_data m j0 data_part parity disk (ok shards) e size = rw (ok-injective e) (
      subst
        (λ k.
          Wrote (put_all (d.contents disk) (blob_writes p c d spec g k parity j0 0 m))
            (write_parity_blobs p c d spec g k (data_part ++ parity) j0 32 0 m disk))
        size (write_parity_blobs-Wrote g data_part parity j0 0 m disk))

  abbrev parity_count : List (List Bytes) → ℕ
  parity_count group = parity_count_for spec (length group)

  pub write_parity_windows-Wrote :
      (rs : c.Encoder) (group : List (List Bytes))
      (en : IsEncoder c (length group) (parity_count group) rs) (g : ℕ)
      → All IsShards group
      → (n w : ℕ) (disk : d.Disk) → w + n ≤ 12
      → Wrote (put_all (d.contents disk) (window_writes p c d spec g group en.parity w n)) (
          write_parity_windows p c d spec rs g
            (length group)
            (parity_count group)
            group
            (w * 32)
            n
            disk)
  unfolding write_parity_windows window_writes put_all
  write_parity_windows-Wrote rs group en g sizes zero w disk l = (refl, refl)
  write_parity_windows-Wrote rs group en g sizes (suc n) w disk l =
      let k_data = length group in
      let m = parity_count group in
      let cols = windows (w * 32) group in
      let out = replicate m (zeros (32 * shard_size)) in
      let zeros_full : IsFull (zeros (32 * shard_size)) =
        unfold zeros in length-replicate {A = ℕ} (32 * shard_size) 0 in
      let encoded : c.encode rs (cols ++ out) ≡ ok (cols ++ en.parity cols) =
        en.encode_lem (32 * shard_size) cols out (omega arith, inr refl)
          (length-map (λ shards. window shards (w * 32) 32) group)
          (length-replicate m (zeros (32 * shard_size)))
          (windows-All group w sizes (omega (arith, l)))
          (replicate-All m (32 * shard_size) (zeros (32 * shard_size)) zeros_full) in
      let first =
        write_encoded p c d spec g k_data m (w * 32) 32 disk (c.encode rs (cols ++ out)) in
      let (fine, on_disk) =
        write_encoded-Wrote g k_data m (w * 32) cols (en.parity cols) disk
          (c.encode rs (cols ++ out)) encoded
          (length-map (λ shards. window shards (w * 32) 32) group) in
      let next_w : suc w * 32 ≡ w * 32 + 32 = omega arith in
      let next = λ (j : ℕ). write_parity_windows p c d spec rs g k_data m group j n in
      let rest =
        write_parity_windows-Wrote rs group en g sizes n (suc w) first.0 (omega (arith, l)) in
      let step =
        and_write_ok first (next (w * 32 + 32)) fine ∙ ap (λ j. next j first.0) (sym next_w) in
      let ws = blob_writes p c d spec g k_data (en.parity cols) (w * 32) 0 m in
      let vs = window_writes p c d spec g group en.parity (suc w) n in
      (
        ap (λ r. r.1) step ∙ rest.0,
        ap (λ r. d.contents r.0) step
            ∙ rest.1
            ∙ ap (λ b. put_all b vs) on_disk
            ∙ sym (put_all-append (d.contents disk) ws vs),
      )
