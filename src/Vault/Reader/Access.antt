-- ===== src/Vault/Reader/Access.antt =====
-- ReadAt and ReadChunkAt of reader.go against a read of the plaintext.
use secvault.Prelude.{
  ℕ, zero, suc, ◌+◌, ◌-◌, ◌*◌, ◌/◌, ◌%◌, ◌≤◌, ◌<◌, ◌≡◌, refl, sym, ap, ◌∙◌, arith, [], ◌∷◌, ◌++◌,
  Bytes, length, take, drop, length-take, length-drop, drop-all, drop-drop, Option, none, some,
  true, false, ◌||◌, ltb, lt→ltb, leb, ◌==◌, leb→le, leb→gt, if◌then◌else◌, Bool-cases, inl, inr,
  pos,
}
use secvault.Errors.{Error, Result, ok, err, new, eof}
use secvault.Layout.{chunk_plain_size}
use secvault.Vault.Reader.{
  Source, Reader, round, single_blob, read_loop, read_at_small, read_at, short_read, slice_all,
  fetch, load_all_plain, read_chunk_at, cloned,
}
use secvault.Vault.Reader.Fetch.{IsReader, fetch_lem, load_all_plain_lem, wrapped}

-- A container of the plaintext: the whole of it in the single-blob schemes, else chunk by chunk.
pub record IsSource (s : Source) (plain : Bytes) : Type 0 where
  pub plain_size : s.plain_size ≡ length plain
  pub whole : single_blob s ≡ true → s.load_all ≡ ok plain
  pub room : single_blob s ≡ false → length plain ≤ s.chunk_count * chunk_plain_size
  pub chunk :
      single_blob s ≡ false
      → (i : ℕ) → i < s.chunk_count
      → s.load_chunk i ≡ ok (take chunk_plain_size (drop (i * chunk_plain_size) plain))

-- What io.ReaderAt promises on the bytes of the plaintext.
pub spec_read : Bytes → ℕ → ℕ → Bytes × Option Error
spec_read plain want off =
    let got = take want (drop off plain) in (got, if ltb (length got) want then some eof else none)

take_nil : (n : ℕ) → take {A = ℕ} n [] ≡ []
take_nil zero = refl
take_nil (suc n) = refl

drop-take : (r c : ℕ) (b : Bytes) → drop r (take c b) ≡ take (c - r) (drop r b)
drop-take zero c b = let same : c ≡ c - 0 = omega arith in ap (λ (n : ℕ). take n b) same
drop-take (suc r) zero b =
    let none_left : 0 ≡ 0 - suc r = omega arith in ap (λ (n : ℕ). take n (drop (suc r) b)) none_left
drop-take (suc r) (suc c) [] = sym (take_nil (suc c - suc r))
drop-take (suc r) (suc c) (x ∷ b) =
    let less : c - r ≡ suc c - suc r = omega arith in
    drop-take r c b ∙ ap (λ (n : ℕ). take n (drop r b)) less

-- A read is a shorter one and the rest.
take-split :
    (want k : ℕ) (b : Bytes)
    → take want b
      ≡ take want (take k b)
        ++ take (want - length (take want (take k b))) (drop (length (take want (take k b))) b)
take-split zero k b = refl
take-split (suc want) zero b =
    let same : suc want ≡ suc want - 0 = omega arith in ap (λ (n : ℕ). take n b) same
take-split (suc want) (suc k) [] = sym (take_nil (suc want - 0))
take-split (suc want) (suc k) (x ∷ b) =
    let less : want - length (take want (take k b))
        ≡ suc want - suc (length (take want (take k b))) =
      omega arith in
    ap (λ (r : Bytes). x ∷ r)
      (take-split want k b
        ∙ ap (λ (n : ℕ). take want (take k b) ++ take n (drop (length (take want (take k b))) b))
            less)

module _ (s : Source) (plain : Bytes) (v : IsSource s plain) (dual : single_blob s ≡ false) where
  -- The bytes that a round copies, of the chunk in which the offset lies.
  part : ℕ → ℕ → Bytes
  part want abs = take want (
      drop (abs % chunk_plain_size)
        (take chunk_plain_size (drop (abs / chunk_plain_size * chunk_plain_size) plain)))

  part_lem :
      (want abs : ℕ)
      → part want abs
        ≡ take want (take (chunk_plain_size - abs % chunk_plain_size) (drop abs plain))
  unfolding part
  part_lem want abs =
      let chunk = abs / chunk_plain_size * chunk_plain_size in
      let whole : chunk + abs % chunk_plain_size ≡ abs = omega arith in
      ap (λ (b : Bytes). take want b)
        (drop-take (abs % chunk_plain_size) chunk_plain_size (drop chunk plain)
          ∙ ap (λ (b : Bytes). take (chunk_plain_size - abs % chunk_plain_size) b)
              (drop-drop chunk (abs % chunk_plain_size) plain ∙ ap (λ (n : ℕ). drop n plain) whole))

  part_pos : (want abs : ℕ) → 0 < want → abs < length plain → 0 < length (part want abs)
  part_pos want abs some_left inside =
      let k = chunk_plain_size - abs % chunk_plain_size in
      rw (part_lem want abs) (
        omega (
          arith,
          length-take want (take k (drop abs plain)),
          length-take k (drop abs plain),
          length-drop abs plain,
        ))

  rest_of :
      (want abs : ℕ)
      → take want (drop abs plain)
        ≡ part want abs
          ++ take (want - length (part want abs)) (drop (abs + length (part want abs)) plain)
  rest_of want abs =
      let k = chunk_plain_size - abs % chunk_plain_size in
      rw (part_lem want abs) (
        take-split want k (drop abs plain)
        ∙ ap
            (λ (b : Bytes).
              take want (take k (drop abs plain))
              ++ take (want - length (take want (take k (drop abs plain)))) b)
            (drop-drop abs (length (take want (take k (drop abs plain)))) plain))

  loaded :
      (r : Reader) (abs : ℕ)
      → IsReader s r
      → abs < length plain
      → ((fetch s r (abs / chunk_plain_size)).1
          ≡ ok (take chunk_plain_size (drop (abs / chunk_plain_size * chunk_plain_size) plain)))
        × IsReader s (fetch s r (abs / chunk_plain_size)).0
  loaded r abs u inside =
      let there : abs / chunk_plain_size < s.chunk_count = omega (arith, v.room dual) in
      let (got, kept) = fetch_lem s r (abs / chunk_plain_size) u in
      (
        got ∙ ap wrapped (v.chunk dual (abs / chunk_plain_size) there) ∙ unfold wrapped in refl,
        kept,
      )

  abbrev Reads : Reader × Bytes × Option Error → ℕ → ℕ → Type 0
  Reads out want abs = (out.1 ≡ take want (drop abs plain)) × (out.2 ≡ none) × IsReader s out.0

  read_loop_over :
      (fuel : ℕ) (r : Reader) (want abs : ℕ)
      → (want == 0 || leb s.plain_size abs) ≡ true
      → read_loop s (suc fuel) r want abs ≡ (r, [], none)
  unfolding read_loop
  read_loop_over fuel r want abs over = rw over refl

  read_loop_step :
      (fuel : ℕ) (r : Reader) (want abs : ℕ) (chunk : Bytes)
      → (want == 0 || leb s.plain_size abs) ≡ false
      → (fetch s r (abs / chunk_plain_size)).1 ≡ ok chunk
      → read_loop s (suc fuel) r want abs
        ≡ round
            (fetch s r (abs / chunk_plain_size)).0
            (ok chunk)
            (take want (drop (abs % chunk_plain_size) chunk))
            (read_loop s fuel
              (fetch s r (abs / chunk_plain_size)).0
              (want - length (take want (drop (abs % chunk_plain_size) chunk)))
              (abs + length (take want (drop (abs % chunk_plain_size) chunk))))
  unfolding read_loop
  read_loop_step fuel r want abs chunk more got = rw (more, got) refl

  nothing_left :
      (want abs : ℕ) → (want == 0 || leb s.plain_size abs) ≡ true → [] ≡ take want (drop abs plain)
  nothing_left zero abs over = refl
  nothing_left (suc want) abs over =
      let past : length plain ≤ abs = ground (arith, v.plain_size) in
      rw (drop-all abs plain past) refl

  read_loop_lem :
      (fuel : ℕ) (r : Reader) (want abs : ℕ)
      → want ≤ fuel
      → IsReader s r
      → Reads (read_loop s fuel r want abs) want abs
  unfolding part round
  read_loop_lem zero r want abs h u =
      let none_wanted : want ≡ 0 = omega arith in
      rw none_wanted (unfold read_loop in (refl, refl, u))
  read_loop_lem (suc fuel) r want abs h u = elim (Bool-cases (want == 0 || leb s.plain_size abs)) [
    | inl over ↦ rw (read_loop_over fuel r want abs over) (nothing_left want abs over, refl, u)
    | inr more ↦
        let some_left : 0 < want = ground arith in
        let inside : abs < length plain = ground (arith, v.plain_size) in
        let (got, kept) = loaded r abs u inside in
        let copied = part_pos want abs some_left inside in
        let (bytes, fine, kept') =
          read_loop_lem fuel (fetch s r (abs / chunk_plain_size)).0 (want - length (part want abs))
            (abs + length (part want abs)) (omega arith) kept in
        rw (read_loop_step fuel r want abs _ more got)
          (ap (λ (b : Bytes). part want abs ++ b) bytes ∙ sym (rest_of want abs), fine, kept')
  ]

module _ (s : Source) (plain : Bytes) where
  -- The answer of a read, and the caches after it.
  abbrev pub IsAnswer : Reader × Bytes × Option Error → ℕ → ℕ → Type 0
  IsAnswer out want off =
      (out.1 ≡ (spec_read plain want off).0)
      × (out.2 ≡ (spec_read plain want off).1)
      × IsReader s out.0

  short_read_lem :
      (want off : ℕ) (out : Reader × Bytes × Option Error)
      → out.1 ≡ take want (drop off plain)
      → out.2 ≡ none
      → IsReader s out.0
      → IsAnswer (short_read s want out) want off
  unfolding spec_read
  short_read_lem want off (r, got, some e) eg en u = cc
  short_read_lem want off (r, got, none) eg en u =
      (eg, ap (λ (b : Bytes). if ltb (length b) want then some eof else none) eg, u)

  past_end :
      (want off : ℕ) → 0 < want → length plain ≤ off → spec_read plain want off ≡ ([], some eof)
  unfolding spec_read
  past_end (suc want) off some_left past =
      rw (drop-all off plain past, lt→ltb 0 (suc want) some_left) refl
  past_end zero off some_left past = absurd (omega arith)

  slice_all_lem :
      (want off : ℕ) (out : Reader × Result Bytes)
      → 0 < want
      → out.1 ≡ ok plain
      → IsReader s out.0
      → IsAnswer (slice_all s want off out) want off
  slice_all_lem want off (r, err e) some_left eq u = cc
  slice_all_lem want off (r, ok b) some_left eq u =
      let same : b ≡ plain = cc in
      elim (Bool-cases (leb (length plain) off)) [
        | inl past ↦
            rw (same, past, past_end want off some_left (leb→le (length plain) off past))
              (refl, refl, u)
        | inr inside ↦
            rw (same, inside)
              (short_read_lem want off (r, take want (drop off plain), none) refl refl u)
      ]

  read_at-single :
      (r : Reader) (want off : ℕ)
      → 0 < want
      → single_blob s ≡ true
      → read_at s r want (pos off) ≡ slice_all s want off (load_all_plain s r)
  unfolding read_at read_at_small
  read_at-single r want off some_left single =
      let some_wanted : (want == 0) ≡ false = ground arith in rw (some_wanted, single) refl

  read_at-dual :
      (r : Reader) (want off : ℕ)
      → 0 < want
      → single_blob s ≡ false
      → read_at s r want (pos off) ≡ short_read s want (read_loop s want r want off)
  unfolding read_at
  read_at-dual r want off some_left dual =
      let some_wanted : (want == 0) ≡ false = ground arith in rw (some_wanted, dual) refl

  -- On a container of a plaintext, of any scheme, and with caches that hold what the container would
  -- load, ReadAt at an offset that is not negative gives the bytes of the plaintext from there on, as
  -- many as there are, io.EOF exactly if they are fewer than were asked for, and such caches again.
  pub read_at_lem :
      (r : Reader) (want off : ℕ)
      → IsSource s plain
      → IsReader s r
      → IsAnswer (read_at s r want (pos off)) want off
  read_at_lem r zero off v u = unfold read_at spec_read in (refl, refl, u)
  read_at_lem r (suc want) off v u = elim (Bool-cases (single_blob s)) [
    | inl single ↦
        let (whole, kept) = load_all_plain_lem s r u in
        rw (read_at-single r (suc want) off (omega arith) single) (
          slice_all_lem (suc want) off (load_all_plain s r) (omega arith) (whole ∙ v.whole single)
            kept)
    | inr dual ↦
        let (bytes, fine, kept) =
          read_loop_lem s plain v dual (suc want) r (suc want) off (omega arith) u in
        rw (read_at-dual r (suc want) off (omega arith) dual)
          (short_read_lem (suc want) off (read_loop s (suc want) r (suc want) off) bytes fine kept)
  ]

  cloned_lem :
      (buf : Bytes) (got : Result Bytes) (out : Reader × Result Bytes)
      → out.1 ≡ got
      → IsReader s out.0
      → ((cloned s buf out).1 ≡ got) × IsReader s (cloned s buf out).0
  cloned_lem buf got (r, ok plain) e u = (e, u)
  cloned_lem buf got (r, err x) e u = (e, u)

  -- On such a container, and with such caches, ReadChunkAt of an rs-dual container returns the bytes
  -- of the chunk for each index below the chunk count, and otherwise an error; the caches stay right.
  pub read_chunk_at-dual :
      (r : Reader) (i : ℕ) (buf : Bytes)
      → IsSource s plain
      → IsReader s r
      → single_blob s ≡ false
      → ((read_chunk_at s r (pos i) buf).1 ≡ (
          if ltb i s.chunk_count
          then ok (take chunk_plain_size (drop (i * chunk_plain_size) plain))
          else err (new "index out of range")))
        × IsReader s (read_chunk_at s r (pos i) buf).0
  unfolding read_chunk_at
  read_chunk_at-dual r i buf v u dual = elim (Bool-cases (leb s.chunk_count i)) [
    | inl out ↦ let no : ltb i s.chunk_count ≡ false = ground arith in rw (dual, out, no) (refl, u)
    | inr inside ↦
        let yes : ltb i s.chunk_count ≡ true = ground arith in
        let (got, kept) = fetch_lem s r i u in
        let chunk = got ∙ ap wrapped (v.chunk dual i (leb→gt s.chunk_count i inside)) in
        rw (dual, inside, yes) (cloned_lem buf _ (fetch s r i) (unfold wrapped in chunk) kept)
  ]
