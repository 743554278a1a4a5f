-- ===== src/Engine/Pipeline/Groups/Messages.antt =====
-- What the write loop tells the parity loop, and what the parity loop makes of it.
use mathlib.Core.List.{map-append}
use secvault.Prelude.{
  ℕ, zero, suc, ◌+◌, ◌<◌, ◌≡◌, refl, ap, sym, ◌∙◌, subst, arith, Bytes, length, length-append,
  concat, concat-append, map, All, All-append, upto, append_assoc, append-nil, ◌==◌, ==_iff,
  if_cases, some, List, [], ◌∷◌, ◌++◌,
}
use secvault.Errors.{Result, ok, err}
use secvault.Layout.{file_group_chunks, Spec, data_blob_offset}
use secvault.Device.{Device, IsFile, seek_write}
use secvault.Device.Reads.{seek_write_lem}
use secvault.Engine.Pipeline.Order.{
  Encoded, ParityMsg, payloads, flush_group, WriteLoop, fresh_loop, settle_write, write_body, turn,
}
use secvault.Engine.Pipeline.Order.Arrival.{in_order}

-- The messages of groups that are numbered from g on.
abbrev pub group_messages : ℕ → List (List Bytes) → List ParityMsg
group_messages g group = map payloads group ++ (flush_group g (length group) ∷ [])

unfoldable pub all_messages : ℕ → List (List (List Bytes)) → List ParityMsg
all_messages g [] = []
all_messages g (group ∷ groups) = group_messages g group ++ all_messages (suc g) groups

all_messages-snoc :
    (g : ℕ) (groups : List (List (List Bytes))) (group : List (List Bytes))
    → all_messages g (groups ++ (group ∷ []))
      ≡ all_messages g groups ++ group_messages (g + length groups) group
unfolding all_messages
all_messages-snoc g [] group =
    append-nil (group_messages g group) ∙ ap (λ n. group_messages n group) (omega arith)
all_messages-snoc g (first ∷ groups) group =
    ap (λ r. group_messages g first ++ r)
      (all_messages-snoc (suc g) groups group
        ∙ ap (λ n. all_messages (suc g) groups ++ group_messages n group) (omega arith))
    ∙ sym (append_assoc (group_messages g first) (all_messages (suc g) groups) _)

-- What was sent for the payloads `wrote`: whole groups, and a part of one.
pub record IsGrouped (wrote : List (List Bytes)) (par_ch : List ParityMsg)
    (groups_done group_chunks : ℕ) : Type 0 where
  pub groups : List (List (List Bytes))
  pub part : List (List Bytes)
  pub sent : par_ch ≡ all_messages 0 groups ++ map payloads part
  pub groups_count : groups_done ≡ length groups
  pub part_count : group_chunks ≡ length part
  pub all_full : All (λ group. length group ≡ file_group_chunks) groups
  pub whole : concat groups ++ part ≡ wrote
  pub room : length part < file_group_chunks

sent_payloads :
    (wrote : List (List Bytes)) (par_ch : List ParityMsg) (g n : ℕ) (shards : List Bytes)
    (v : IsGrouped wrote par_ch g n)
    → par_ch ++ (payloads shards ∷ [])
      ≡ all_messages 0 v.groups ++ map payloads (v.part ++ (shards ∷ []))
sent_payloads wrote par_ch g n shards v =
    ap (λ r. r ++ (payloads shards ∷ [])) v.sent
    ∙ append_assoc (all_messages 0 v.groups) (map payloads v.part) (payloads shards ∷ [])
    ∙ ap (λ r. all_messages 0 v.groups ++ r) (sym (map-append payloads v.part (shards ∷ [])))

-- One chunk more, in a group that stays open, and in one that it fills.
part-IsGrouped :
    (wrote : List (List Bytes)) (par_ch : List ParityMsg) (g n : ℕ) (shards : List Bytes)
    → IsGrouped wrote par_ch g n
    → n + 1 < file_group_chunks
    → IsGrouped (wrote ++ (shards ∷ [])) (par_ch ++ (payloads shards ∷ [])) g (n + 1)
part-IsGrouped wrote par_ch g n shards v h = record {
  groups = v.groups;
  part = v.part ++ (shards ∷ []);
  sent = sent_payloads wrote par_ch g n shards v;
  groups_count = v.groups_count;
  part_count = omega (arith, v.part_count, length-append {0} v.part (shards ∷ []));
  all_full = v.all_full;
  whole =
      sym (append_assoc (concat v.groups) v.part (shards ∷ []))
      ∙ ap (λ r. r ++ (shards ∷ [])) v.whole;
  room = omega (arith, v.part_count, length-append {0} v.part (shards ∷ []));
}

-- The end of a group, after its payloads.
pub sent_flush :
    (par_ch : List ParityMsg) (groups : List (List (List Bytes))) (group : List (List Bytes))
    (g n : ℕ)
    → par_ch ≡ all_messages 0 groups ++ map payloads group
    → g ≡ length groups
    → n ≡ length group
    → par_ch ++ (flush_group g n ∷ []) ≡ all_messages 0 (groups ++ (group ∷ []))
sent_flush par_ch groups group g n e eg en =
    let number : g ≡ 0 + length groups = omega (arith, eg) in
    ap (λ r. r ++ (flush_group g n ∷ [])) e
    ∙ append_assoc (all_messages 0 groups) (map payloads group) (flush_group g n ∷ [])
    ∙ ap (λ i. all_messages 0 groups ++ (map payloads group ++ (flush_group i n ∷ []))) number
    ∙ ap
        (λ i.
          all_messages 0 groups ++ (map payloads group ++ (flush_group (0 + length groups) i ∷ [])))
        en
    ∙ sym (all_messages-snoc 0 groups group)

full-IsGrouped :
    (wrote : List (List Bytes)) (par_ch : List ParityMsg) (g n : ℕ) (shards : List Bytes)
    → IsGrouped wrote par_ch g n
    → n + 1 ≡ file_group_chunks
    → IsGrouped
        (wrote ++ (shards ∷ []))
        ((par_ch ++ (payloads shards ∷ [])) ++ (flush_group g file_group_chunks ∷ []))
        (g + 1)
        0
full-IsGrouped wrote par_ch g n shards v h =
    let group = v.part ++ (shards ∷ []) in
    let size : file_group_chunks ≡ length group =
      omega (arith, h, v.part_count, length-append {0} v.part (shards ∷ [])) in
    record {
      groups = v.groups ++ (group ∷ []);
      part = [];
      sent =
          sent_flush (par_ch ++ (payloads shards ∷ [])) v.groups group g file_group_chunks
            (sent_payloads wrote par_ch g n shards v) v.groups_count size
          ∙ sym (append-nil (all_messages 0 (v.groups ++ (group ∷ []))));
      groups_count = omega (arith, v.groups_count, length-append {0} v.groups (group ∷ []));
      part_count = refl;
      all_full =
          All-append (λ x. length x ≡ file_group_chunks) v.groups (group ∷ []) v.all_full
            (sym size, tt);
      whole =
          append-nil (concat (v.groups ++ (group ∷ [])))
          ∙ concat-append v.groups (group ∷ [])
          ∙ ap (λ r. concat v.groups ++ r) (append-nil group)
          ∙ sym (append_assoc (concat v.groups) v.part (shards ∷ []))
          ∙ ap (λ r. r ++ (shards ∷ [])) v.whole;
      room = omega arith;
    }

module _ (d : Device) (f : IsFile d) (spec : Spec) where
  abbrev pub Grouped : List (List Bytes) → WriteLoop d spec → Type 0
  Grouped wrote s = IsGrouped wrote s.par_ch s.groups_done s.group_chunks

  settle_write-Grouped :
      (wrote : List (List Bytes)) (s : WriteLoop d spec) (j : Encoded) (shards : List Bytes)
      (r : d.Disk × Result (Unit {0}))
      → r.1 ≡ ok tt
      → Grouped wrote s
      → Grouped (wrote ++ (shards ∷ [])) (settle_write d spec s j shards r)
  unfolding settle_write
  settle_write-Grouped wrote s j shards (disk, err e) h v = cc
  settle_write-Grouped wrote s j shards (disk, ok done_) h v =
      if_cases (Grouped (wrote ++ (shards ∷ []))) (s.group_chunks + 1 == file_group_chunks)
        (λ full.
          full-IsGrouped wrote s.par_ch s.groups_done s.group_chunks shards v
            ((==_iff (s.group_chunks + 1) file_group_chunks).0 full))
        (λ open_group.
          part-IsGrouped wrote s.par_ch s.groups_done s.group_chunks shards v
            (ground (arith, v.room, v.part_count)))

  -- The jobs 0 to n - 1, none of which failed.
  pub in_order-Grouped :
      (job : ℕ → Encoded) (disk : d.Disk) (shards : ℕ → List Bytes) (image : ℕ → Bytes)
      → ((k : ℕ) → (job k).body ≡ some (shards k, image k))
      → (n : ℕ) → Grouped (map shards (upto n)) (in_order d spec job (fresh_loop d spec disk) n)
  unfolding in_order turn all_messages
  in_order-Grouped job disk shards image bodies zero = record {
    groups = [];
    part = [];
    sent = refl;
    groups_count = refl;
    part_count = refl;
    all_full = tt;
    whole = refl;
    room = omega arith;
  }
  in_order-Grouped job disk shards image bodies (suc n) =
      let s = in_order d spec job (fresh_loop d spec disk) n in
      let off = data_blob_offset spec (job n).idx in
      let done_ = settle_write d spec s (job n) (shards n) (seek_write d s.disk off (image n)) in
      let e : done_ ≡ write_body d spec s (job n) (job n).body =
        sym (ap (write_body d spec s (job n)) (bodies n)) in
      subst (λ t. Grouped (map shards (upto (suc n))) t) e
        (subst (λ w. Grouped w done_) (sym (map-append shards (upto n) (n ∷ [])))
          (settle_write-Grouped (map shards (upto n)) s (job n) (shards n)
            (seek_write d s.disk off (image n)) (seek_write_lem d f s.disk off (image n)).0
            (in_order-Grouped job disk shards image bodies n)))
