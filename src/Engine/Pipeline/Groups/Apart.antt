-- ===== src/Engine/Pipeline/Groups/Apart.antt =====
-- The writes of the parity of successive groups, by group, window and parity blob: which there are,
-- and that no two of them collide.
use secvault.Prelude.{
  ℕ, zero, suc, ◌+◌, ◌*◌, ◌<◌, ◌≡◌, subst, arith, Bytes, length, get_or, All, All-append, List, [],
  ◌∷◌, ◌++◌,
}
use secvault.Layout.{slot_size, Spec, parity_count_for, parity_blob_offset}
use secvault.Crypto.{Primitives}
use secvault.Codec.{Coding, IsCoding}
use secvault.Device.{Device}
use secvault.Device.Writes.{Write}
use secvault.Engine.Pipeline.Groups.{slot_buf}
use secvault.Engine.Pipeline.Groups.Writes.{windows, blob_writes, window_writes}
use secvault.Engine.Pipeline.Groups.Written.{parity_of, group_writes}

pub All-both : (P : Write → Type 0) (xs ys : List Write) → All P (xs ++ ys) → All P xs × All P ys
All-both P [] ys h = (tt, h)
All-both P (x ∷ xs) ys h = let (hx, hy) = All-both P xs ys h.1 in ((h.0, hx), hy)

module _ (p : Primitives) (c : Coding) (d : Device) (spec : Spec) (lib : IsCoding c) where
  -- The tagged columns of parity blob q of a group in window w, and where they go.
  unfoldable pub parity_write : ℕ → List (List Bytes) → ℕ → ℕ → Write
  parity_write g group w q = (
    parity_blob_offset spec g (length group) q + (w * 32) * slot_size,
    slot_buf p c d spec 32 (get_or (parity_of p c d spec lib group (windows (w * 32) group)) q []),
  )

  blob_writes-All :
      (P : Write → Type 0) (g : ℕ) (group : List (List Bytes)) (w q n : ℕ)
      → ((i : ℕ) → i < n → P (parity_write g group w (q + i)))
      → All P (
          blob_writes p c d spec g
            (length group)
            (parity_of p c d spec lib group (windows (w * 32) group))
            (w * 32)
            q
            n)
  unfolding blob_writes parity_write
  blob_writes-All P g group w q zero h = tt
  blob_writes-All P g group w q (suc n) h =
      let e : q + 0 ≡ q = omega arith in
      (
        subst (λ k. P (parity_write g group w k)) e (h 0 (omega arith)),
        blob_writes-All P g group w (q + 1) n λ i l.
            let s : q + suc i ≡ (q + 1) + i = omega arith in
            subst (λ k. P (parity_write g group w k)) s (h (suc i) (omega (arith, l))),
      )

  blob_writes_each :
      (P : Write → Type 0) (g : ℕ) (group : List (List Bytes)) (w q n i : ℕ)
      → All P (
          blob_writes p c d spec g
            (length group)
            (parity_of p c d spec lib group (windows (w * 32) group))
            (w * 32)
            q
            n)
      → i < n
      → P (parity_write g group w (q + i))
  unfolding blob_writes parity_write
  blob_writes_each P g group w q zero i h l = absurd (omega arith)
  blob_writes_each P g group w q (suc n) zero h l =
      let e : q ≡ q + 0 = omega arith in subst (λ k. P (parity_write g group w k)) e h.0
  blob_writes_each P g group w q (suc n) (suc i) h l =
      let s : (q + 1) + i ≡ q + suc i = omega arith in
      subst (λ k. P (parity_write g group w k)) s
        (blob_writes_each P g group w (q + 1) n i h.1 (omega (arith, l)))

  abbrev pub parity_count : List (List Bytes) → ℕ
  parity_count group = parity_count_for spec (length group)

  window_writes-All :
      (P : Write → Type 0) (g : ℕ) (group : List (List Bytes)) (n w : ℕ)
      → ((x q : ℕ) → x < w + n → q < parity_count group → P (parity_write g group x q))
      → All P (window_writes p c d spec g group (parity_of p c d spec lib group) w n)
  unfolding window_writes
  window_writes-All P g group zero w h = tt
  window_writes-All P g group (suc n) w h =
      All-append P _ _
        (blob_writes-All P g group w 0 (parity_count group)
          λ i l. h w (0 + i) (omega arith) (omega (arith, l)))
        (window_writes-All P g group n (suc w) λ x q l lq. h x q (omega (arith, l)) lq)

  window_writes_each :
      (P : Write → Type 0) (g : ℕ) (group : List (List Bytes)) (n w x q : ℕ)
      → All P (window_writes p c d spec g group (parity_of p c d spec lib group) w n)
      → x < n
      → q < parity_count group
      → P (parity_write g group (w + x) q)
  unfolding window_writes
  window_writes_each P g group zero w x q h l lq = absurd (omega arith)
  window_writes_each P g group (suc n) w zero q h l lq =
      let e : w ≡ w + 0 = omega arith in
      let eq : 0 + q ≡ q = omega arith in
      subst (λ k. P (parity_write g group k q)) e
        (subst (λ k. P (parity_write g group w k)) eq
          (blob_writes_each P g group w 0 (parity_count group) q (All-both P _ _ h).0 lq))
  window_writes_each P g group (suc n) w (suc x) q h l lq =
      let s : suc w + x ≡ w + suc x = omega arith in
      subst (λ k. P (parity_write g group k q)) s
        (window_writes_each P g group n (suc w) x q (All-both P _ _ h).1 (omega (arith, l)) lq)

  pub group_writes-All :
      (P : Write → Type 0) (groups : List (List (List Bytes))) (g : ℕ)
      → ((i x q : ℕ)
          → i < length groups
          → x < 12
          → q < parity_count (get_or groups i [])
          → P (parity_write (g + i) (get_or groups i []) x q))
      → All P (group_writes p c d spec lib g groups)
  unfolding group_writes
  group_writes-All P [] g h = tt
  group_writes-All P (group ∷ groups) g h =
      let e : g + 0 ≡ g = omega arith in
      All-append P _ _
        (window_writes-All P g group 12 0 λ x q l lq.
          subst (λ k. P (parity_write k group x q)) e (h 0 x q (omega arith) (omega (arith, l)) lq))
        (group_writes-All P groups (suc g) λ i x q li l lq.
          let s : g + suc i ≡ suc g + i = omega arith in
          subst (λ k. P (parity_write k (get_or groups i []) x q)) s
            (h (suc i) x q (omega (arith, li)) l lq))

  pub group_writes_each :
      (P : Write → Type 0) (groups : List (List (List Bytes))) (g i x q : ℕ)
      → All P (group_writes p c d spec lib g groups)
      → i < length groups
      → x < 12
      → q < parity_count (get_or groups i [])
      → P (parity_write (g + i) (get_or groups i []) x q)
  unfolding group_writes
  group_writes_each P [] g i x q h li l lq = absurd (omega arith)
  group_writes_each P (group ∷ groups) g zero x q h li l lq =
      let e : g ≡ g + 0 = omega arith in
      let ex : 0 + x ≡ x = omega arith in
      subst (λ k. P (parity_write k group x q)) e
        (subst (λ k. P (parity_write g group k q)) ex
          (window_writes_each P g group 12 0 x q (All-both P _ _ h).0 l lq))
  group_writes_each P (group ∷ groups) g (suc i) x q h li l lq =
      let s : suc g + i ≡ g + suc i = omega arith in
      subst (λ k. P (parity_write k (get_or groups i []) x q)) s
        (group_writes_each P groups (suc g) i x q (All-both P _ _ h).1 (omega (arith, li)) l lq)
