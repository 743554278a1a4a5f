-- ===== src/Engine/Pipeline/Order/Any.antt =====
-- The whole write loop, whatever the order of arrival.
use secvault.Prelude.{
  ℕ, zero, suc, ◌+◌, false, ◌≤◌, ◌≡◌, refl, ap, sym, ◌∙◌, arith, length, map, ltb, List, [], ◌∷◌,
}
use secvault.Layout.{Spec}
use secvault.Device.{Device}
use secvault.Engine.Pipeline.Order.{
  Encoded, WriteLoop, fresh_loop, arrive, check_pending, receive, write_loop,
}
use secvault.Engine.Pipeline.Order.Arrival.{
  occurrences, IsOrder, waits, no_waits, turn_pending, in_order, IsArrived, arrive-IsArrived,
}

-- The list in reverse, before another.
rev_onto : List ℕ → List ℕ → List ℕ
rev_onto [] seen = seen
rev_onto (k ∷ order) seen = rev_onto order (k ∷ seen)

occurrences-rev_onto :
    (i : ℕ) (order seen : List ℕ)
    → occurrences i (rev_onto order seen) ≡ occurrences i order + occurrences i seen
unfolding occurrences rev_onto
occurrences-rev_onto i [] seen = omega arith
occurrences-rev_onto i (k ∷ order) seen = omega (arith, occurrences-rev_onto i order (k ∷ seen))

module _ (d : Device) (spec : Spec) (job : ℕ → Encoded) (disk : d.Disk) where
  abbrev reference : ℕ → WriteLoop d spec
  reference = in_order d spec job (fresh_loop d spec disk)

  -- What has arrived, when the loop waits for the next job.
  abbrev IsWaiting : List ℕ → WriteLoop d spec → Type 0
  IsWaiting seen s =
      IsArrived d spec job (fresh_loop d spec disk) seen s × (waits s.next s.pending ≡ 0)

  receive-IsWaiting :
      (order seen : List ℕ) (s : WriteLoop d spec)
      → ((k : ℕ) → (job k).idx ≡ k)
      → ((i : ℕ) → occurrences i order + occurrences i seen ≤ 1)
      → IsWaiting seen s
      → IsWaiting (rev_onto order seen) (receive d spec s (map job order))
  unfolding rev_onto receive occurrences
  receive-IsWaiting [] seen s named once v = v
  receive-IsWaiting (k ∷ order) seen s named once v =
      let first = once k in
      receive-IsWaiting order (k ∷ seen) (arrive d spec s (job k)) named
        (λ i. omega (arith, once i))
        (arrive-IsArrived d spec job (fresh_loop d spec disk) seen s k (named k) (ground arith) v.0)

  reference_pending : (n : ℕ) → (reference n).pending ≡ []
  unfolding in_order
  reference_pending zero = refl
  reference_pending (suc n) =
      ap (λ (t : WriteLoop d spec). t.pending)
        (turn_pending d spec (reference n) (reference n).pending (job n))
      ∙ reference_pending n

  fresh-IsWaiting : IsWaiting [] (fresh_loop d spec disk)
  unfolding in_order occurrences waits
  fresh-IsWaiting = (record { core = refl; counts = λ i. ground arith; all_jobs = tt }, refl)

  -- When all jobs below n have come, none waits.
  all-IsWaiting :
      (n : ℕ) (seen : List ℕ) (s : WriteLoop d spec)
      → IsWaiting seen s
      → IsOrder n seen
      → (s ≡ reference n) × (s.pending ≡ [])
  all-IsWaiting n seen s (v, stuck) every =
      let last : s.next ≡ n =
        ground (arith, v.counts s.next, v.counts n, every s.next, every n, stuck) in
      let left : s.pending ≡ [] =
        no_waits s.pending (λ i. ground (arith, v.counts i, every i, last)) in
      (
        v.core
            ∙ ap (λ (waiting : List Encoded). record (reference s.next) { pending = waiting })
                (left ∙ sym (reference_pending s.next))
            ∙ ap reference last,
        left,
      )

  settled_end :
      (n : ℕ) (s : WriteLoop d spec)
      → (s ≡ reference n) × (s.pending ≡ [])
      → (check_pending d spec s ≡ reference n) × ((reference n).pending ≡ [])
  settled_end n s (e, left) =
      let empty_map : ltb 0 (length s.pending) ≡ false =
        ap (λ (w : List Encoded). ltb 0 (length w)) left in
      (rw empty_map e, reference_pending n)

  -- Whatever order the workers deliver the jobs 0 to n - 1 in, the write loop ends as if it had got
  -- them one after another: the same file, the same messages to the parity loop, the same size and
  -- errors, and no job waits, so that it does not report an ordering loss.
  pub write_loop_lem :
      (n : ℕ) (order : List ℕ)
      → ((k : ℕ) → (job k).idx ≡ k)
      → IsOrder n order
      → (write_loop d spec (fresh_loop d spec disk) (map job order) ≡ reference n)
        × ((reference n).pending ≡ [])
  unfolding write_loop
  write_loop_lem n order named every =
      let start = fresh_loop d spec disk in
      let once : (i : ℕ) → occurrences i order + occurrences i [] ≤ 1 =
        λ i. unfold occurrences in ground (arith, every i) in
      let all : IsOrder n (rev_onto order []) =
        λ i. unfold occurrences in occurrences-rev_onto i order [] ∙ omega (arith, every i) in
      settled_end n (receive d spec start (map job order)) (
        all-IsWaiting n (rev_onto order []) (receive d spec start (map job order))
          (receive-IsWaiting order [] start named once fresh-IsWaiting) all)
