-- ===== src/Engine/Regroup/Tally.antt =====
-- The counts of the second pass, and the file in a pass with no leave to write.
use secvault.Prelude.{
  ℕ, suc, ◌+◌, ◌*◌, ◌/◌, ◌%◌, ◌≡◌, refl, arith, Bytes, length, length-append, Bool, Option, none,
  some, List, [], ◌∷◌, pos_part,
}
use secvault.Errors.{Error, Result, ok, err}
use secvault.Layout.{file_group_chunks, data_blob_offset}
use secvault.Crypto.{Primitives}
use secvault.Codec.{Coding, Cache}
use secvault.Device.{Device}
use secvault.Engine.Rebuild.{rebuild_missing}
use secvault.Engine.Container.{Container, decode_chunk}
use secvault.Engine.Sweep.{ScrubState}
use secvault.Engine.Sweep.Tally.{IsSwept, guarded_write, after_round}
use secvault.Engine.Regroup.{
  add_to_group, by_group, insert_position, sort_positions, insert_group, sort_groups, lose_chunk,
  lose_all, blob_image, settle_rebuilt, rebuild_positions, settle_group, rebuild_groups, regroup,
}

-- The chunks in all groups.
sizes : List (ℕ × List ℕ) → ℕ
sizes [] = 0
sizes ((g, positions) ∷ groups) = length positions + sizes groups

sizes-add_to_group :
    (g i : ℕ) (groups : List (ℕ × List ℕ)) → sizes (add_to_group g i groups) ≡ suc (sizes groups)
unfolding sizes add_to_group
sizes-add_to_group g i [] = refl
sizes-add_to_group g i ((h, positions) ∷ groups) =
    ground (arith, sizes-add_to_group g i groups, length-append {0} positions (i ∷ []))

sizes-by_group :
    (need : List ℕ) (groups : List (ℕ × List ℕ))
    → sizes (by_group need groups) ≡ length need + sizes groups
unfolding by_group
sizes-by_group [] groups = omega arith
sizes-by_group (idx ∷ need) groups =
    let more = add_to_group (idx / file_group_chunks) (idx % file_group_chunks) groups in
    omega (
      arith,
      sizes-by_group need more,
      sizes-add_to_group (idx / file_group_chunks) (idx % file_group_chunks) groups,
    )

sizes-insert_group :
    (g : ℕ × List ℕ) (groups : List (ℕ × List ℕ))
    → sizes (insert_group g groups) ≡ length g.1 + sizes groups
unfolding sizes insert_group
sizes-insert_group (g, positions) [] = refl
sizes-insert_group (g, positions) ((h, others) ∷ groups) =
    ground (arith, sizes-insert_group (g, positions) groups)

sizes-sort_groups : (groups : List (ℕ × List ℕ)) → sizes (sort_groups groups) ≡ sizes groups
unfolding sizes sort_groups
sizes-sort_groups [] = refl
sizes-sort_groups ((g, positions) ∷ groups) =
    omega (arith, sizes-insert_group (g, positions) (sort_groups groups), sizes-sort_groups groups)

length-insert_position : (x : ℕ) (xs : List ℕ) → length (insert_position x xs) ≡ suc (length xs)
unfolding insert_position
length-insert_position x [] = refl
length-insert_position x (y ∷ ys) = ground (arith, length-insert_position x ys)

length-sort_positions : (xs : List ℕ) → length (sort_positions xs) ≡ length xs
unfolding sort_positions
length-sort_positions [] = refl
length-sort_positions (x ∷ xs) =
    omega (arith, length-insert_position x (sort_positions xs), length-sort_positions xs)

module _ (p : Primitives) (c : Coding) (d : Device) (repair : Bool) (disk : d.Disk) (total : ℕ)
    (pending : List ℕ → ℕ) where
  abbrev Swept : ScrubState p c d × Option Error → ℕ → Type 0
  Swept = IsSwept p c d repair disk total pending

  lose_chunk-IsSwept :
      (s : ScrubState p c d) (n idx : ℕ)
      → Swept (s, none) n
      → Swept (lose_chunk p c d s idx, none) (suc n)
  lose_chunk-IsSwept s n idx v =
      ((λ _. omega (arith, v.0 refl, length-append {0} s.rep.chunks_lost (idx ∷ []))), v.1)

  lose_all-IsSwept :
      (g : ℕ) (positions : List ℕ) (s : ScrubState p c d) (n m : ℕ)
      → length positions + n ≡ m
      → Swept (s, none) n
      → Swept (lose_all p c d g positions s, none) m
  lose_all-IsSwept g [] s n m e v = ((λ _. omega (arith, v.0 refl)), v.1)
  lose_all-IsSwept g (i ∷ positions) s n m e v =
      lose_all-IsSwept g positions (lose_chunk p c d s (g * file_group_chunks + i)) (suc n) m
        (omega arith) (lose_chunk-IsSwept s n (g * file_group_chunks + i) v)

  settle_rebuilt-IsSwept :
      (con : Container p c d) (s : ScrubState p c d) (n idx : ℕ) (payloads : List Bytes)
      (r : Result Bytes)
      → Swept (s, none) n
      → Swept (settle_rebuilt p c d repair con s idx payloads r) (suc n)
  unfolding settle_rebuilt
  settle_rebuilt-IsSwept con s n idx payloads (err e) v = lose_chunk-IsSwept s n idx v
  settle_rebuilt-IsSwept con s n idx payloads (ok plain) v =
      guarded_write p c d repair disk total pending repair _ (suc n)
        (d.write_at s.disk (data_blob_offset con.spec idx) (blob_image p c d payloads)) refl
        ((λ e. omega (arith, v.0 refl)), v.1)

  rebuild_positions-IsSwept :
      (con : Container p c d) (g : ℕ) (blobs : ℕ → List Bytes) (positions : List ℕ)
      (s : ScrubState p c d) (n m : ℕ)
      → length positions + n ≡ m
      → Swept (s, none) n
      → Swept (rebuild_positions p c d repair con g blobs positions s) m
  unfolding rebuild_positions
  rebuild_positions-IsSwept con g blobs [] s n m e v = ((λ _. omega (arith, v.0 refl)), v.1)
  rebuild_positions-IsSwept con g blobs (i ∷ positions) s n m e v =
      let idx = g * file_group_chunks + i in
      let decoded = decode_chunk p c d con.aead idx (blobs i) in
      let settled = settle_rebuilt p c d repair con s idx (blobs i) decoded in
      let step = settle_rebuilt-IsSwept con s n idx (blobs i) decoded v in
      after_round p c d repair disk total pending
        (rebuild_positions p c d repair con g blobs positions settled.0) settled m
        (λ fine.
          rebuild_positions-IsSwept con g blobs positions settled.0 (suc n) m (omega arith)
            ((λ _. step.0 fine), step.1))
        step.1

  settle_group-IsSwept :
      (con : Container p c d) (g : ℕ) (positions : List ℕ) (s : ScrubState p c d) (n m : ℕ)
      (r : Cache c × Option (ℕ → List Bytes))
      → length positions + n ≡ m
      → Swept (s, none) n
      → Swept (settle_group p c d repair con g positions s r) m
  unfolding settle_group
  settle_group-IsSwept con g positions s n m (codecs, none) e v =
      lose_all-IsSwept g positions (record s { codecs = codecs }) n m e v
  settle_group-IsSwept con g positions s n m (codecs, some blobs) e v =
      rebuild_positions-IsSwept con g blobs positions (record s { codecs = codecs }) n m e v

  rebuild_groups-IsSwept :
      (con : Container p c d) (groups : List (ℕ × List ℕ)) (s : ScrubState p c d) (n m : ℕ)
      → sizes groups + n ≡ m
      → Swept (s, none) n
      → Swept (rebuild_groups p c d repair con groups s) m
  unfolding rebuild_groups sizes
  rebuild_groups-IsSwept con [] s n m e v = ((λ _. omega (arith, v.0 refl)), v.1)
  rebuild_groups-IsSwept con ((g, unsorted) ∷ groups) s n m e v =
      let positions = sort_positions unsorted in
      let rebuilt =
        rebuild_missing p c d s.disk con.spec (pos_part con.man.chunk_count) s.codecs g positions in
      let settled = settle_group p c d repair con g positions s rebuilt in
      let step = settle_group-IsSwept con g positions s n (length positions + n) rebuilt refl v in
      after_round p c d repair disk total pending (rebuild_groups p c d repair con groups settled.0)
        settled m
        (λ fine.
          rebuild_groups-IsSwept con groups settled.0 (length positions + n) m
            (omega (arith, length-sort_positions unsorted)) ((λ _. step.0 fine), step.1))
        step.1

  -- The second pass counts each chunk that waited, once.
  pub regroup-IsSwept :
      (con : Container p c d) (s : ScrubState p c d) (n : ℕ)
      → Swept (s, none) n
      → Swept (regroup p c d repair con s) (length s.need_file + n)
  unfolding regroup
  regroup-IsSwept con s n v =
      rebuild_groups-IsSwept con (sort_groups (by_group s.need_file [])) s n
        (length s.need_file + n)
        (unfold sizes in
          omega (arith, sizes-sort_groups (by_group s.need_file []), sizes-by_group s.need_file []))
        v
