-- ===== src/Engine/Pipeline/Groups/Data.antt =====
-- The writes of the data blobs by the write loop, in the order of the chunks.
use mathlib.Core.List.{map-append}
use secvault.Prelude.{
  ℕ, zero, suc, ◌+◌, ◌-◌, ◌*◌, ◌/◌, ◌%◌, ◌<◌, min, ◌≡◌, ◌⊎◌, inl, inr, refl, ap, ◌∙◌, sym, subst,
  arith, Bytes, length, length-append, map, upto, All, All-append, ◌==◌, if_cases, none, some, List,
  [], ◌∷◌,
}
use secvault.Errors.{Result, ok, err}
use secvault.Layout.{file_group_chunks, Spec, data_blob_offset}
use secvault.Device.{Device, IsFile, overwrite, seek_write}
use secvault.Device.Reads.{seek_write_lem}
use secvault.Device.Writes.{Write, put_all, put_all-append}
use secvault.Engine.Pipeline.Order.{Encoded, WriteLoop, fresh_loop, settle_write, write_body, turn}
use secvault.Engine.Pipeline.Order.Arrival.{in_order}
use secvault.Engine.Pipeline.Groups.Apart.{All-both}

module _ {A : Type 0} (f : ℕ → A) where
  pub length-upto : (n : ℕ) → length (map f (upto n)) ≡ n
  length-upto zero = refl
  length-upto (suc n) =
      ap length (map-append f (upto n) (n ∷ []))
      ∙ omega (arith, length-append {0} (map f (upto n)) (f n ∷ []), length-upto n)

  pub upto-All : (P : A → Type 0) (n : ℕ) → ((i : ℕ) → i < n → P (f i)) → All P (map f (upto n))
  upto-All P zero h = tt
  upto-All P (suc n) h = subst (All P) (sym (map-append f (upto n) (n ∷ []))) (
      All-append P (map f (upto n)) (f n ∷ []) (upto-All P n λ i l. h i (omega (arith, l)))
        (h n (omega arith), tt))

i_below : (n i : ℕ) → i < suc n → (i < n) ⊎ (i ≡ n)
i_below n i l = omega (arith, l)

pub upto_each :
    (f : ℕ → Write) (P : Write → Type 0) (n i : ℕ) → All P (map f (upto n)) → i < n → P (f i)
upto_each f P zero i h l = absurd (omega arith)
upto_each f P (suc n) i h l =
    let (before, last) =
      All-both P (map f (upto n)) (f n ∷ []) (subst (All P) (map-append f (upto n) (n ∷ [])) h) in
    elim (i_below n i l) [
      | inl lower ↦ upto_each f P n i before lower
      | inr same ↦ subst (λ k. P (f k)) (sym same) last.0
    ]

-- A chunk is one of its piece.
pub chunk_in_piece :
    (i n : ℕ)
    → i < n
    → i % file_group_chunks
      < min file_group_chunks (n - (i / file_group_chunks) * file_group_chunks)
chunk_in_piece i n l = ground arith

module _ (d : Device) (f : IsFile d) (spec : Spec) (image : ℕ → Bytes) where
  abbrev pub data_write : ℕ → Write
  data_write i = (data_blob_offset spec i, image i)

  -- A write loop without an error, and the bytes of its file.
  abbrev pub Stands : Bytes → WriteLoop d spec → Type 0
  Stands b s = (d.contents s.disk ≡ b) × (s.stored ≡ none)

  settle_write-Stands :
      (s : WriteLoop d spec) (j : Encoded) (shards : List Bytes) (r : d.Disk × Result (Unit {0}))
      → r.1 ≡ ok tt
      → s.stored ≡ none
      → Stands (d.contents r.0) (settle_write d spec s j shards r)
  unfolding settle_write
  settle_write-Stands s j shards (disk, err e) h none_yet = cc
  settle_write-Stands s j shards (disk, ok done_) h none_yet =
      if_cases (Stands (d.contents disk)) (s.group_chunks + 1 == file_group_chunks)
        (λ full. (refl, none_yet)) (λ open_group. (refl, none_yet))

  pub in_order-Stands :
      (job : ℕ → Encoded) (disk : d.Disk) (shards : ℕ → List Bytes)
      → ((k : ℕ) → (job k).idx ≡ k)
      → ((k : ℕ) → (job k).body ≡ some (shards k, image k))
      → (n : ℕ)
      → Stands
          (put_all (d.contents disk) (map data_write (upto n)))
          (in_order d spec job (fresh_loop d spec disk) n)
  unfolding in_order turn put_all
  in_order-Stands job disk shards named bodies zero = (refl, refl)
  in_order-Stands job disk shards named bodies (suc n) =
      let s = in_order d spec job (fresh_loop d spec disk) n in
      let off = data_blob_offset spec (job n).idx in
      let r = seek_write d s.disk off (image n) in
      let done_ = settle_write d spec s (job n) (shards n) r in
      let e : done_ ≡ write_body d spec s (job n) (job n).body =
        sym (ap (write_body d spec s (job n)) (bodies n)) in
      let (before, none_yet) = in_order-Stands job disk shards named bodies n in
      let (fine, on_disk) = seek_write_lem d f s.disk off (image n) in
      let (now, none_still) = settle_write-Stands s (job n) (shards n) r fine none_yet in
      let start = d.contents disk in
      let written : d.contents done_.disk ≡ put_all start (map data_write (upto (suc n))) =
        now
        ∙ on_disk
        ∙ ap (λ (k : ℕ). overwrite (d.contents s.disk) (data_blob_offset spec k) (image n))
            (named n)
        ∙ ap (λ b. overwrite b (data_blob_offset spec n) (image n)) before
        ∙ sym (put_all-append start (map data_write (upto n)) (data_write n ∷ []))
        ∙ ap (put_all start) (sym (map-append data_write (upto n) (n ∷ []))) in
      subst (Stands (put_all start (map data_write (upto (suc n))))) e (written, none_still)
