-- ===== src/Engine/Pipeline/Groups/Parity.antt =====
-- The messages of a whole run of the write loop, and the parity loop on messages of whole groups.
use secvault.Prelude.{
  ℕ, suc, ◌≡◌, refl, ap, sym, ◌∙◌, subst, arith, Bytes, length, map, pieces, last_piece,
  pieces-concat, upto, append_assoc, append-nil, ltb, ◌==◌, ==_iff, true, false, if◌then◌else◌,
  some, List, [], ◌∷◌, ◌++◌,
}
use secvault.Errors.{Result, ok, err}
use secvault.Layout.{file_group_chunks, Spec}
use secvault.Crypto.{Primitives}
use secvault.Codec.{Coding, Cache}
use secvault.Device.{Device, IsFile}
use secvault.Engine.Pipeline.Order.{
  Encoded, ParityMsg, payloads, flush_group, fresh_loop, write_loop,
}
use secvault.Engine.Pipeline.Order.Arrival.{in_order, IsOrder}
use secvault.Engine.Pipeline.Order.Any.{write_loop_lem}
use secvault.Engine.Pipeline.Groups.{
  ParityLoop, write_parity_group, settle_parity, flush_blobs, parity_loop, drained,
}
use secvault.Engine.Pipeline.Groups.Messages.{
  all_messages, group_messages, IsGrouped, sent_flush, in_order-Grouped,
}

pieces-IsGrouped :
    (wrote : List (List Bytes)) (par_ch : List ParityMsg) (g n : ℕ) (v : IsGrouped wrote par_ch g n)
    → pieces (length wrote) file_group_chunks wrote ≡ v.groups ++ last_piece v.part
pieces-IsGrouped wrote par_ch g n v =
    subst (λ w. pieces (length w) file_group_chunks w ≡ v.groups ++ last_piece v.part) v.whole
      (pieces-concat _ file_group_chunks v.groups v.part v.all_full v.room (omega arith))

-- The messages when Drain closes the channel, by the part of a group that is left.
drained_part :
    (wrote : List (List Bytes)) (par_ch : List ParityMsg) (g n : ℕ) (v : IsGrouped wrote par_ch g n)
    (part : List (List Bytes))
    → v.part ≡ part
    → (if ltb 0 n then par_ch ++ (flush_group g n ∷ []) else par_ch)
      ≡ all_messages 0 (v.groups ++ last_piece part)
drained_part wrote par_ch g n v [] e =
    let none_left : ltb 0 n ≡ false = ground (arith, v.part_count, ap length e) in
    rw none_left (
      v.sent
      ∙ ap (λ part. all_messages 0 v.groups ++ map payloads part) e
      ∙ append-nil (all_messages 0 v.groups)
      ∙ ap (all_messages 0) (sym (append-nil v.groups)))
drained_part wrote par_ch g n v (first ∷ part) e =
    let some_left : ltb 0 n ≡ true = ground (arith, v.part_count, ap length e) in
    rw some_left (
      sent_flush par_ch v.groups (first ∷ part) g n
        (v.sent ∙ ap (λ part. all_messages 0 v.groups ++ map payloads part) e) v.groups_count
        (v.part_count ∙ ap length e))

-- On a file that does not fail, when n chunks were encoded and the workers delivered them in any
-- order, what the write loop and Drain sent to the parity loop are the payloads of the groups of 128
-- successive chunks, the last one shorter, and after each group its number and its size.
pub drained-write_loop :
    (p : Primitives) (c : Coding) (d : Device) (spec : Spec)
    → IsFile d
    → (job : ℕ → Encoded) (disk : d.Disk) (shards : ℕ → List Bytes) (image : ℕ → Bytes)
    → ((k : ℕ) → (job k).idx ≡ k)
    → ((k : ℕ) → (job k).body ≡ some (shards k, image k))
    → (n : ℕ) (order : List ℕ) → IsOrder n order
    → drained p c d spec (write_loop d spec (fresh_loop d spec disk) (map job order))
      ≡ all_messages 0
          (pieces (length (map shards (upto n))) file_group_chunks (map shards (upto n)))
unfolding drained
drained-write_loop p c d spec f job disk shards image named bodies n order every =
    let t = in_order d spec job (fresh_loop d spec disk) n in
    let wrote = map shards (upto n) in
    let v : IsGrouped wrote t.par_ch t.groups_done t.group_chunks =
      in_order-Grouped d f spec job disk shards image bodies n in
    ap (drained p c d spec) (write_loop_lem d spec job disk n order named every).0
    ∙ drained_part wrote t.par_ch t.groups_done t.group_chunks v v.part refl
    ∙ ap (all_messages 0) (sym (pieces-IsGrouped wrote t.par_ch t.groups_done t.group_chunks v))

module _ (p : Primitives) (c : Coding) (d : Device) (spec : Spec) where
  -- The parity of groups that are numbered from g on, one after another.
  unfoldable pub write_groups :
      ParityLoop p c d spec → ℕ → List (List (List Bytes)) → ParityLoop p c d spec
  write_groups s g [] = s
  write_groups s g (group ∷ groups) =
      write_groups
        (settle_parity p c d spec s
          (write_parity_group p c d spec s.disk s.codecs g (length group) group))
        (suc g) groups

  parity_loop-payloads :
      (s : ParityLoop p c d spec) (group : List (List Bytes)) (rest : List ParityMsg)
      → parity_loop p c d spec s (map payloads group ++ rest)
        ≡ parity_loop p c d spec (record s { blobs = s.blobs ++ group }) rest
  unfolding parity_loop
  parity_loop-payloads s [] rest =
      ap (λ (b : List (List Bytes)). parity_loop p c d spec (record s { blobs = b }) rest)
        (sym (append-nil s.blobs))
  parity_loop-payloads s (first ∷ group) rest =
      parity_loop-payloads (record s { blobs = s.blobs ++ (first ∷ []) }) group rest
      ∙ ap (λ (b : List (List Bytes)). parity_loop p c d spec (record s { blobs = b }) rest)
          (append_assoc s.blobs (first ∷ []) group)

  settle_parity_blobs :
      (s : ParityLoop p c d spec) (blobs : List (List Bytes))
      (r : Cache c × (d.Disk × Result (Unit {0})))
      → settle_parity p c d spec (record s { blobs = blobs }) r ≡ settle_parity p c d spec s r
  settle_parity_blobs s blobs (codecs, (disk, ok done_)) = refl
  settle_parity_blobs s blobs (codecs, (disk, err e)) = refl

  settled_empty :
      (s : ParityLoop p c d spec) (r : Cache c × (d.Disk × Result (Unit {0})))
      → (settle_parity p c d spec s r).blobs ≡ []
  settled_empty s (codecs, (disk, ok done_)) = refl
  settled_empty s (codecs, (disk, err e)) = refl

  flush_blobs_whole :
      (s : ParityLoop p c d spec) (g : ℕ) (group : List (List Bytes))
      → flush_blobs p c d spec (record s { blobs = group }) g (length group)
        ≡ settle_parity p c d spec s
            (write_parity_group p c d spec s.disk s.codecs g (length group) group)
  unfolding flush_blobs
  flush_blobs_whole s g group =
      let same : (length group == length group) ≡ true =
        (==_iff (length group) (length group)).1 refl in
      rw same (
        settle_parity_blobs s group
          (write_parity_group p c d spec s.disk s.codecs g (length group) group))

  parity_loop-flush_group :
      (s : ParityLoop p c d spec) (g n : ℕ) (rest : List ParityMsg)
      → parity_loop p c d spec s (flush_group g n ∷ rest)
        ≡ parity_loop p c d spec (flush_blobs p c d spec s g n) rest
  unfolding parity_loop
  parity_loop-flush_group s g n rest = refl

  parity_loop-group_messages :
      (s : ParityLoop p c d spec) (g : ℕ) (group : List (List Bytes)) (rest : List ParityMsg)
      → s.blobs ≡ []
      → parity_loop p c d spec s (group_messages g group ++ rest)
        ≡ parity_loop p c d spec
            (settle_parity p c d spec s
              (write_parity_group p c d spec s.disk s.codecs g (length group) group))
            rest
  parity_loop-group_messages s g group rest e =
      let flush = flush_group g (length group) in
      ap (parity_loop p c d spec s) (append_assoc (map payloads group) (flush ∷ []) rest)
      ∙ parity_loop-payloads s group (flush ∷ rest)
      ∙ ap
          (λ (b : List (List Bytes)).
            parity_loop p c d spec (record s { blobs = b ++ group }) (flush ∷ rest))
          e
      ∙ parity_loop-flush_group (record s { blobs = group }) g (length group) rest
      ∙ ap (λ t. parity_loop p c d spec t rest) (flush_blobs_whole s g group)

  pub parity_loop-all_messages :
      (groups : List (List (List Bytes))) (s : ParityLoop p c d spec) (g : ℕ)
      → s.blobs ≡ []
      → parity_loop p c d spec s (all_messages g groups) ≡ write_groups s g groups
  unfolding all_messages write_groups parity_loop
  parity_loop-all_messages [] s g e = refl
  parity_loop-all_messages (group ∷ groups) s g e =
      let written = write_parity_group p c d spec s.disk s.codecs g (length group) group in
      parity_loop-group_messages s g group (all_messages (suc g) groups) e
      ∙ parity_loop-all_messages groups (settle_parity p c d spec s written) (suc g)
          (settled_empty s written)
