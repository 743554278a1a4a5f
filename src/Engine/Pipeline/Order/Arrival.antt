-- ===== src/Engine/Pipeline/Order/Arrival.antt =====
-- The write loop under every order of arrival, against the jobs written one after another.
use secvault.Prelude.{
  ℕ, zero, suc, ◌+◌, ◌≤◌, ◌≡◌, refl, ap, sym, ◌∙◌, subst, arith, Bytes, length, All, ltb, ◌==◌,
  ==_iff, Bool, true, false, if◌then◌else◌, if_cases, Option, none, some, List, [], ◌∷◌,
}
use secvault.Errors.{Result, ok, err}
use secvault.Layout.{Spec, data_blob_offset, file_group_chunks}
use secvault.Device.{Device, seek_write}
use secvault.Engine.Pipeline.Order.{
  Encoded, put_pending, keep, take_pending, WriteLoop, settle_write, write_body, turn, after_take,
  drain_pending, arrive,
}

-- How often a number stands in a list.
unfoldable pub occurrences : ℕ → List ℕ → ℕ
occurrences i [] = 0
occurrences i (x ∷ xs) = (if i == x then 1 else 0) + occurrences i xs

-- Each number below n stands in the list once, and no other does.
abbrev pub IsOrder : ℕ → List ℕ → Type 0
IsOrder n order = (i : ℕ) → occurrences i order ≡ (if ltb i n then 1 else 0)

-- How many of the jobs that wait have the number i.
unfoldable pub waits : ℕ → List Encoded → ℕ
waits i [] = 0
waits i (x ∷ pending) = (if i == x.idx then 1 else 0) + waits i pending

waits-empty : (i : ℕ) (pending : List Encoded) → length pending ≤ 0 → waits i pending ≡ 0
unfolding waits
waits-empty i [] h = refl
waits-empty i (x ∷ pending) h = absurd (omega arith)

pub no_waits : (pending : List Encoded) → ((i : ℕ) → waits i pending ≡ 0) → pending ≡ []
unfolding waits
no_waits [] h = refl
no_waits (x ∷ pending) h = let here = h x.idx in absurd (ground (arith))

waits-put_pending :
    (i : ℕ) (j : Encoded) (pending : List Encoded)
    → waits j.idx pending ≡ 0
    → waits i (put_pending j pending) ≡ (if i == j.idx then 1 else 0) + waits i pending
unfolding waits put_pending
waits-put_pending i j [] h = refl
waits-put_pending i j (x ∷ pending) h = ground (arith, waits-put_pending i j pending)

module _ (job : ℕ → Encoded) where
  abbrev pub IsJob : Encoded → Type 0
  IsJob j = j ≡ job j.idx

  put_pending-All :
      (j : Encoded) (pending : List Encoded)
      → IsJob j
      → All IsJob pending
      → All IsJob (put_pending j pending)
  unfolding put_pending
  put_pending-All j [] hj h = (hj, tt)
  put_pending-All j (x ∷ pending) hj h =
      if_cases (All IsJob) (x.idx == j.idx) (λ same. (hj, h.1))
        (λ other. (h.0, put_pending-All j pending hj h.1))

  -- What a look into pending finds: nothing, or one job, and the others stay.
  Taken : ℕ → List Encoded → Option (Encoded × List Encoded) → Type 0
  Taken next pending none = waits next pending ≡ 0
  Taken next pending (some (j, rest)) =
      (j.idx ≡ next)
      × ((i : ℕ) → waits i pending ≡ (if i == next then 1 else 0) + waits i rest)
      × IsJob j
      × All IsJob rest
      × (length pending ≡ suc (length rest))

  keep-Taken :
      (next : ℕ) (x : Encoded) (pending : List Encoded) (r : Option (Encoded × List Encoded))
      → (x.idx == next) ≡ false
      → IsJob x
      → Taken next pending r
      → Taken next (x ∷ pending) (keep x r)
  unfolding Taken waits
  keep-Taken next x pending none other hx h = ground arith
  keep-Taken next x pending (some (j, rest)) other hx (e, counts, hj, hrest, len) =
      (e, (λ i. ground (arith, counts i)), hj, (hx, hrest), ap suc len)

  take_pending-Taken :
      (next : ℕ) (pending : List Encoded)
      → All IsJob pending
      → Taken next pending (take_pending next pending)
  unfolding Taken take_pending waits
  take_pending-Taken next [] h = refl
  take_pending-Taken next (x ∷ pending) h =
      if_cases (Taken next (x ∷ pending)) (x.idx == next)
        (λ same.
          let e = (==_iff x.idx next).0 same in (e, (λ i. ground (arith, e)), h.0, h.1, refl))
        (λ other.
          keep-Taken next x pending (take_pending next pending) other h.0
            (take_pending-Taken next pending h.1))

module _ (d : Device) (spec : Spec) where
  if_pending :
      (test : Bool) (a b : WriteLoop d spec) (waiting : List Encoded)
      → (if test then record a { pending = waiting } else record b { pending = waiting })
        ≡ record (if test then a else b) { pending = waiting }
  if_pending true a b waiting = refl
  if_pending false a b waiting = refl

  settle_write_pending :
      (s : WriteLoop d spec) (waiting : List Encoded) (j : Encoded) (shards : List Bytes)
      (r : d.Disk × Result (Unit {0}))
      → settle_write d spec (record s { pending = waiting }) j shards r
        ≡ record (settle_write d spec s j shards r) { pending = waiting }
  unfolding settle_write
  settle_write_pending s waiting j shards (disk, err e) = refl
  settle_write_pending s waiting j shards (disk, ok done_) =
      if_pending (s.group_chunks + 1 == file_group_chunks) _ _ waiting

  write_body_pending :
      (s : WriteLoop d spec) (waiting : List Encoded) (j : Encoded)
      (body : Option (List Bytes × Bytes))
      → write_body d spec (record s { pending = waiting }) j body
        ≡ record (write_body d spec s j body) { pending = waiting }
  write_body_pending s waiting j none = refl
  write_body_pending s waiting j (some (shards, disk)) =
      settle_write_pending s waiting j shards
        (seek_write d s.disk (data_blob_offset spec j.idx) disk)

  -- The turn of a job does not look at those that wait.
  pub turn_pending :
      (s : WriteLoop d spec) (waiting : List Encoded) (j : Encoded)
      → turn d spec (record s { pending = waiting }) j
        ≡ record (turn d spec s j) { pending = waiting }
  unfolding turn
  turn_pending s waiting j =
      ap (λ (r : WriteLoop d spec). record r { next = s.next + 1 })
        (write_body_pending s waiting j j.body)

  module _ (job : ℕ → Encoded) (start : WriteLoop d spec) where
    -- The first k jobs, one after another.
    unfoldable pub in_order : ℕ → WriteLoop d spec
    in_order zero = start
    in_order (suc k) = turn d spec (in_order k) (job k)

    -- The jobs below next were written in order, and the others that came wait.
    pub record IsArrived (seen : List ℕ) (s : WriteLoop d spec) : Type 0 where
      pub core : s ≡ record (in_order s.next) { pending = s.pending }
      pub counts :
          (i : ℕ) → occurrences i seen ≡ (if ltb i s.next then 1 else 0) + waits i s.pending
      pub all_jobs : All (IsJob job) s.pending

    next_turn :
        (seen : List ℕ) (s : WriteLoop d spec) (j : Encoded) (rest : List Encoded)
        → IsArrived seen s
        → j.idx ≡ s.next
        → IsJob job j
        → turn d spec (record s { pending = rest }) j
          ≡ record (in_order (suc s.next)) { pending = rest }
    unfolding in_order
    next_turn seen s j rest v e hj =
        ap (λ t. turn d spec (record t { pending = rest }) j) v.core
        ∙ ap (turn d spec (record (in_order s.next) { pending = rest })) (hj ∙ ap job e)
        ∙ turn_pending (in_order s.next) rest (job s.next)

    -- The job that is awaited goes from those that wait to those that are written.
    next-IsArrived :
        (seen : List ℕ) (s : WriteLoop d spec) (rest : List Encoded)
        → IsArrived seen s
        → ((i : ℕ) → waits i s.pending ≡ (if i == s.next then 1 else 0) + waits i rest)
        → All (IsJob job) rest
        → IsArrived seen (record (in_order (suc s.next)) { pending = rest })
    unfolding in_order turn
    next-IsArrived seen s rest v counts hrest =
        let here : s.next ≡ (in_order s.next).next = ap (λ t. t.next) v.core in
        let after : suc s.next ≡ (in_order s.next).next + 1 = omega arith in
        record {
          core = ap (λ k. record (in_order k) { pending = rest }) after;
          counts = λ i. ground (arith, v.counts i, counts i);
          all_jobs = hrest;
        }

    after_take-IsArrived :
        (seen : List ℕ) (fuel : ℕ) (s : WriteLoop d spec) (r : Option (Encoded × List Encoded))
        (again : WriteLoop d spec → WriteLoop d spec)
        → length s.pending ≤ suc fuel
        → IsArrived seen s
        → Taken job s.next s.pending r
        → ((t : WriteLoop d spec)
            → length t.pending ≤ fuel
            → IsArrived seen t
            → IsArrived seen (again t) × (waits (again t).next (again t).pending ≡ 0))
        → IsArrived seen (after_take d spec again s r)
          × (waits (after_take d spec again s r).next (after_take d spec again s r).pending ≡ 0)
    unfolding Taken
    after_take-IsArrived seen fuel s none again h v taken next = (v, taken)
    after_take-IsArrived seen fuel s (some (j, rest)) again h v (e, counts, hj, hrest, len) next =
        subst (λ t. IsArrived seen (again t) × (waits (again t).next (again t).pending ≡ 0))
          (sym (next_turn seen s j rest v e hj))
          (next (record (in_order (suc s.next)) { pending = rest }) (omega arith)
            (next-IsArrived seen s rest v counts hrest))

    -- The fuel suffices: the loop ends when the job that is awaited does not wait.
    drain_pending-IsArrived :
        (fuel : ℕ) (seen : List ℕ) (s : WriteLoop d spec)
        → length s.pending ≤ fuel
        → IsArrived seen s
        → IsArrived seen (drain_pending d spec fuel s)
          × (waits (drain_pending d spec fuel s).next (drain_pending d spec fuel s).pending ≡ 0)
    unfolding drain_pending
    drain_pending-IsArrived zero seen s h v = (v, waits-empty s.next s.pending h)
    drain_pending-IsArrived (suc fuel) seen s h v =
        after_take-IsArrived seen fuel s (take_pending s.next s.pending) (drain_pending d spec fuel)
          h v (take_pending-Taken job s.next s.pending v.all_jobs)
          (λ t ht vt. drain_pending-IsArrived fuel seen t ht vt)

    -- A job that did not come before.
    pub arrive-IsArrived :
        (seen : List ℕ) (s : WriteLoop d spec) (k : ℕ)
        → (job k).idx ≡ k
        → occurrences k seen ≡ 0
        → IsArrived seen s
        → IsArrived (k ∷ seen) (arrive d spec s (job k))
          × (waits (arrive d spec s (job k)).next (arrive d spec s (job k)).pending ≡ 0)
    unfolding arrive occurrences
    arrive-IsArrived seen s k e new v =
        let pending = put_pending (job k) s.pending in
        let before = v.counts k in
        let none_waits : waits (job k).idx s.pending ≡ 0 =
          ap (λ i. waits i s.pending) e ∙ omega arith in
        drain_pending-IsArrived (length pending) (k ∷ seen) (record s { pending = pending })
          (omega arith)
          (record {
            core = ap (λ (t : WriteLoop d spec). record t { pending = pending }) v.core;
            counts = λ i.
                ground (arith, v.counts i, waits-put_pending i (job k) s.pending none_waits, e);
            all_jobs = put_pending-All job (job k) s.pending (sym (ap job e)) v.all_jobs;
          })
