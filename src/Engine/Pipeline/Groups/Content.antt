-- ===== src/Engine/Pipeline/Groups/Content.antt =====
-- What the file holds after a whole run of the write loop and the parity loop.

use secvault.Prelude.{
  concat, chunks, ℕ, zero, suc, ◌+◌, ◌-◌, ◌*◌, ◌/◌, ◌%◌, ◌<◌, min, ◌≡◌, inl, inr, refl, ap, ◌∙◌,
  sym, subst, arith, Bytes, length, get_or, map, upto, pieces, length-piece, pieces-All, All,
  All-append, none, some, List, [], ◌∷◌, ◌++◌,
}
use secvault.Layout.{
  file_group_chunks, blob_disk_size, Spec, parity_count_for, parity_blob_offset, shard_size,
  slot_size, data_blob_offset,
}
use secvault.Layout.Regions.{IsSpec}
use secvault.Crypto.{Primitives, IsCrypto}
use secvault.Codec.{Coding, IsCoding, Cache}
use secvault.Codec.Files.{IsCache}
use secvault.Device.{Device, IsFile}
use secvault.Device.Writes.{Write, Holds, HoldsWrite, put_all, put_all-append, put_all-All}
use secvault.Engine.Pipeline.Order.{Encoded, WriteLoop, fresh_loop, write_loop}
use secvault.Engine.Pipeline.Order.Arrival.{in_order, IsOrder}
use secvault.Engine.Pipeline.Order.Any.{write_loop_lem}
use secvault.Engine.Pipeline.Groups.{ParityLoop, slot_buf, parity_loop, drained}
use secvault.Engine.Strong.{slot}
use secvault.Engine.Pipeline.Groups.Windows.{IsShards}
use secvault.Engine.Pipeline.Groups.Columns.{columns, windows-columns}
use secvault.Engine.Pipeline.Groups.Written.{
  IsGroup, parity_of, group_writes, write_groups-Finished,
}
use secvault.Engine.Pipeline.Groups.Parity.{
  write_groups, drained-write_loop, parity_loop-all_messages,
}
use secvault.Engine.Pipeline.Groups.Apart.{
  All-both, parity_write, group_writes-All, group_writes_each,
}
use secvault.Engine.Pipeline.Groups.Both.{IsEither, either_writes-Agree}
use secvault.Engine.Pipeline.Groups.Data.{
  length-upto, upto-All, upto_each, chunk_in_piece, data_write, in_order-Stands,
}

all_at :
    (P : List (List Bytes) → Type 0) (xs : List (List (List Bytes))) (i : ℕ)
    → All P xs
    → i < length xs
    → P (get_or xs i [])
all_at P [] i h l = absurd (omega arith)
all_at P (x ∷ xs) zero h l = h.0
all_at P (x ∷ xs) (suc i) h l = all_at P xs i h.1 (omega (arith, l))

module _ (p : Primitives) (c : Coding) (d : Device) (spec : Spec) (lib : IsCoding c)
    (crypto : IsCrypto p) (f : IsFile d) (v : IsSpec spec) (shards : ℕ → List Bytes)
    (image : ℕ → Bytes) (n : ℕ) (whole : (k : ℕ) → IsShards (shards k))
    (sized : (k : ℕ) → length (image k) ≡ blob_disk_size) where
  -- The groups of 128 successive chunks, the last one shorter.
  abbrev pub groups_of : List (List (List Bytes))
  groups_of = pieces (length (map shards (upto n))) file_group_chunks (map shards (upto n))

  abbrev at : ℕ → List (List Bytes)
  at g = get_or groups_of g []

  abbrev data_writes : List Write
  data_writes = map (data_write d f spec image) (upto n)

  abbrev parity_writes : List Write
  parity_writes = group_writes p c d spec lib 0 groups_of

  groups-All : All IsGroup groups_of
  groups-All =
      pieces-All IsShards (length (map shards (upto n))) file_group_chunks (map shards (upto n))
        (omega arith) (upto-All shards IsShards n λ i l. whole i)

  data_in_group : (i : ℕ) → i < n → i % file_group_chunks < length (at (i / file_group_chunks))
  data_in_group i l =
      let size =
        length-piece (length (map shards (upto n))) file_group_chunks (map shards (upto n))
          (i / file_group_chunks) (omega arith) (omega arith) in
      subst (λ k. i % file_group_chunks < k)
        (ap (λ (k : ℕ). min file_group_chunks (k - (i / file_group_chunks) * file_group_chunks))
            (sym (length-upto shards n))
          ∙ sym size)
        (chunk_in_piece i n l)

  abbrev Either : Write → Type 0
  Either x = IsEither p c d spec lib crypto v at image x

  all_writes-All : All Either (data_writes ++ parity_writes)
  all_writes-All =
      All-append Either data_writes parity_writes
        (upto-All (data_write d f spec image) Either n λ i l.
          inl (record { i = i; sized = sized i; some_chunk = data_in_group i l; same = refl }))
        (group_writes-All p c d spec lib Either groups_of 0 λ i x q li l lq.
          let e : i ≡ 0 + i = omega arith in
          subst (λ k. Either (parity_write p c d spec lib k (at i) x q)) e
            (inr (record {
              g = i;
              w = x;
              q = q;
              sized = all_at IsGroup groups_of i groups-All li;
              some_window = l;
              some_blob = lq;
              same = refl;
            })))

  -- Columns w * 32 to w * 32 + 31 of parity blob q of a group, each with its tag, from those columns
  -- of its chunks, and their place in the file.
  abbrev pub parity_columns : ℕ → List (List Bytes) → ℕ → ℕ → Write
  parity_columns g group w q =
      let parity = parity_of p c d spec lib group (map (columns (w * 32)) group) in
      (
        parity_blob_offset spec g (length group) q + (w * 32) * slot_size,
        concat (map (slot p) (chunks 32 shard_size (get_or parity q []))),
      )

  parity_write-columns :
      (g : ℕ) (group : List (List Bytes)) (w q : ℕ)
      → IsGroup group
      → parity_write p c d spec lib g group w q ≡ parity_columns g group w q
  unfolding parity_write slot_buf
  parity_write-columns g group w q h =
      ap
        (λ (cols : List Bytes). (
          parity_blob_offset spec g (length group) q + (w * 32) * slot_size,
          concat (
              map (slot p)
                (chunks 32 shard_size (get_or (parity_of p c d spec lib group cols) q []))),
        ))
        (windows-columns group w h.2)

  -- The bytes of all data blobs, and of all columns of all parity blobs.
  abbrev pub HoldsAll : Bytes → Type 0
  HoldsAll b =
      ((i : ℕ) → i < n → Holds b (data_blob_offset spec i) (image i))
      × ((g w q : ℕ)
          → g < length groups_of
          → w < 12
          → q < parity_count_for spec (length (get_or groups_of g []))
          → HoldsWrite b (parity_columns g (get_or groups_of g []) w q))

  put_all-HoldsAll : (start : Bytes) → HoldsAll (put_all start (data_writes ++ parity_writes))
  put_all-HoldsAll start =
      let b = put_all start (data_writes ++ parity_writes) in
      let (held, parity_held) = All-both (HoldsWrite b) data_writes parity_writes (
        put_all-All Either (either_writes-Agree p c d spec lib crypto v at image)
          (data_writes ++ parity_writes) start all_writes-All) in
      (
        λ i l. upto_each (data_write d f spec image) (HoldsWrite b) n i held l,
        λ g w q lg l lq.
            let e : 0 + g ≡ g = omega arith in
            subst (HoldsWrite b)
              (parity_write-columns g (at g) w q (all_at IsGroup groups_of g groups-All lg))
              (subst (λ k. HoldsWrite b (parity_write p c d spec lib k (at g) w q)) e
                (group_writes_each p c d spec lib (HoldsWrite b) groups_of 0 g w q parity_held lg l
                  lq)),
      )

  -- The parity loop on the file that the write loop left.
  abbrev pub parity_start : d.Disk → Cache c → ParityLoop p c d spec
  parity_start disk codecs = record { disk = disk; codecs = codecs; blobs = []; stored = none }

  -- The write loop and then the parity loop, on one file and on what the workers delivered.
  abbrev pub both_loops : d.Disk → Cache c → List Encoded → ParityLoop p c d spec
  both_loops disk codecs jobs =
      let written = write_loop d spec (fresh_loop d spec disk) jobs in
      parity_loop p c d spec (parity_start written.disk codecs) (drained p c d spec written)

  -- On a file that does not fail, with the encoders of the library and a spec of a manifest: when n
  -- chunks of 384 shards of 4096 bytes were encoded and the workers delivered them in any order, and
  -- the parity loop runs on the messages of the write loop and on the file that it left, then neither
  -- stores an error; the data blob of each chunk stands at its offset; and for each group of 128
  -- successive chunks, the last one shorter, the parity that the library's encoder gives for the
  -- group's columns stands, with the tags, in each parity blob of the group, whatever the file held
  -- before.
  pub parity_loop-write_loop :
      (job : ℕ → Encoded) (disk : d.Disk) (codecs : Cache c)
      → ((k : ℕ) → (job k).idx ≡ k)
      → ((k : ℕ) → (job k).body ≡ some (shards k, image k))
      → IsCache c codecs
      → (order : List ℕ) → IsOrder n order
      → ((write_loop d spec (fresh_loop d spec disk) (map job order)).stored ≡ none)
        × ((both_loops disk codecs (map job order)).stored ≡ none)
        × HoldsAll (d.contents (both_loops disk codecs (map job order)).disk)
  parity_loop-write_loop job disk codecs named bodies built order every =
      let written = write_loop d spec (fresh_loop d spec disk) (map job order) in
      let start = parity_start written.disk codecs in
      let t = in_order d spec job (fresh_loop d spec disk) n in
      let sorted : written ≡ t = (write_loop_lem d spec job disk n order named every).0 in
      let (on_disk, none_stored) = in_order-Stands d f spec image job disk shards named bodies n in
      let same : both_loops disk codecs (map job order)
          ≡ write_groups p c d spec start 0 groups_of =
        ap (parity_loop p c d spec start)
          (drained-write_loop p c d spec f job disk shards image named bodies n order every)
        ∙ parity_loop-all_messages p c d spec groups_of start 0 refl in
      let finished =
        write_groups-Finished p c d spec lib f v groups_of start 0 refl built groups-All in
      let content : d.contents (both_loops disk codecs (map job order)).disk
          ≡ put_all (d.contents disk) (data_writes ++ parity_writes) =
        ap (λ (s : ParityLoop p c d spec). d.contents s.disk) same
        ∙ finished.0
        ∙ ap (λ b. put_all b parity_writes)
            (ap (λ (s : WriteLoop d spec). d.contents s.disk) sorted ∙ on_disk)
        ∙ sym (put_all-append (d.contents disk) data_writes parity_writes) in
      (
        ap (λ (s : WriteLoop d spec). s.stored) sorted ∙ none_stored,
        ap (λ (s : ParityLoop p c d spec). s.stored) same ∙ finished.1,
        subst HoldsAll (sym content) (put_all-HoldsAll (d.contents disk)),
      )
