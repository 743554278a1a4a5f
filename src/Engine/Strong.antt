-- ===== src/Engine/Strong.antt =====
-- internal/engine/strong.go and the rs-strong part of internal/engine/scrub.go: a file as one blob
-- of 96 slots, its write back end, its read path and its repair in place.
pub mod Damage
pub mod Body
pub mod Load
pub mod Written
pub mod Repair
pub mod Reports
use secvault.Prelude.{
  ℕ, zero, suc, ◌+◌, ◌-◌, ◌*◌, ◌++◌, Bytes, zeros, length, slice, take, drop, copy, copy_at, get_or,
  concat, chunks, replicate, map, set, not, Bool, true, false, ◌||◌, ◌==◌, ltb, Option, none, some,
  List, [], ◌∷◌, if◌then◌else◌, ℤ, pos, ◌==ℤ◌, pos_part, String,
}
use mathlib.Core.List.{foldl}
use secvault.Errors.{
  Error, Result, ok, err, chunk_unrecoverable, engine_chunk, wrap, or_err, reject_if, ◌>>=◌, ◌>>◌,
}
use secvault.Layout.{header_size, tag_size, k_strong, m_strong, strong_slots, strong_shard_size}
use secvault.Format.{ChunkHeader, marshal, parse_chunk_header}
use secvault.Crypto.{Primitives, shard_tag, verify_tag}
use secvault.Codec.{Coding}
use secvault.Device.{Device, read_buffer, seek_write}
use secvault.Engine.Stats.{ScrubStats, fresh_stats}

-- The data area: header, ciphertext and zeros.
unfoldable pub strong_area : ℕ → Bytes → Bytes → Bytes
unfolding zeros
strong_area shard_size hdr ct = copy_at (length hdr) (copy (zeros (shard_size * k_strong)) hdr) ct

-- for _, i := range bad { views[i] = nil }
unfoldable pub erase : List Bytes → List ℕ → List Bytes
erase shards bad = foldl (λ views i. set views i []) shards bad

-- for _, i := range bad { if len(views[i]) != size { return false } }
unfoldable pub sized : List Bytes → ℕ → List ℕ → Bool
sized views size [] = true
sized views size (i ∷ bad) =
    let rest = sized views size bad in if length (get_or views i []) == size then rest else false

-- The first n shards joined; `none` where one of them has not the size of a shard.
unfoldable pub join_shards : ℕ → ℕ → List Bytes → Option Bytes
join_shards zero size shards = some []
join_shards (suc n) size [] = none
join_shards (suc n) size (b ∷ shards) =
    let rest = join_shards n size shards in
    if length b == size then elim rest [ none ↦ none | some area ↦ some (b ++ area) ] else none

module _ (p : Primitives) where
  -- A slot on disk: the payload and its tag.
  unfoldable pub slot : Bytes → Bytes
  slot payload = payload ++ shard_tag p payload

  -- The payloads of n slots, and the numbers, from i on, of those whose tag does not verify.
  unfoldable pub gather : ℕ → ℕ → ℕ → Bytes → List Bytes × List ℕ
  gather zero i shard_size raw = ([], [])
  gather (suc n) i shard_size raw =
      let payload = take shard_size raw in
      let tag = slice shard_size (shard_size + tag_size) raw in
      let (shards, bad) = gather n (i + 1) shard_size (drop (shard_size + tag_size) raw) in
      (payload ∷ shards, if verify_tag p payload tag then bad else i ∷ bad)

module _ (p : Primitives) (c : Coding) (d : Device) where
  open p use {Aead, seal, unseal}
  open c use {Encoder, encode, reconstruct}
  open d use {Disk, read_at, write_at}

  pub record StrongSink : Type 0 where
    pub dst : Disk
    pub aead : Aead
    pub strong : Encoder
    pub buf : Bytes

  unfoldable pub write : StrongSink → Bytes → StrongSink × ℕ
  write s b = (record s { buf = s.buf ++ b }, length b)

  abbrev wrap_err {ℓ} : {A : Type ℓ} → String → Result A → Result A
  wrap_err msg (ok a) = ok a
  wrap_err msg (err e) = err (wrap msg e)

  -- The header of the one chunk, and the area that is cut into the data shards.
  unfoldable pub sealed_area : Aead → Bytes → Bytes → Bytes
  unfolding strong_area
  sealed_area aead nonce buf =
      let hdr = marshal (record { index = pos 0; plain_len = pos (length buf); nonce = nonce }) in
      strong_area (strong_shard_size (length buf)) hdr (seal aead nonce buf hdr)

  unfoldable pub encode_shards : StrongSink → Bytes → Result (List Bytes)
  unfolding sealed_area chunks replicate zeros
  encode_shards s nonce =
      let shard_size = strong_shard_size (length s.buf) in
      let area = sealed_area s.aead nonce s.buf in
      wrap_err "secvault: strong encode"
        (encode s.strong (chunks k_strong shard_size area ++ replicate m_strong (zeros shard_size)))

  -- The argument is what RandomBytes returned for a nonce; the result is the destination after the
  -- call, and the plain size.
  abbrev pub write_shards : StrongSink → Result (List Bytes) → Disk × Result ℕ
  write_shards s (err e) = (s.dst, err e)
  write_shards s (ok shards) =
      let (disk, done) = seek_write d s.dst 0 (concat (map (slot p) shards)) in
      (disk, done >>= λ _. ok (length s.buf))

  unfoldable pub drain : StrongSink → Result Bytes → Disk × Result ℕ
  unfolding encode_shards
  drain s (err e) = (s.dst, err e)
  drain s (ok nonce) = write_shards s (encode_shards s nonce)

  -- (*Container).gatherStrongSlots, on natural numbers: the program's int64 product of 96 slots does not
  -- wrap for a plain size below 2^60.
  unfoldable pub gather_strong_slots : Disk → ℕ → Result (List Bytes × List ℕ)
  gather_strong_slots disk plain_size =
      let shard_size = strong_shard_size plain_size in
      let size = strong_slots * (shard_size + tag_size) in
      do raw ← read_buffer size (read_at disk 0 size); ok (gather p strong_slots 0 shard_size raw)

  abbrev pub check_rebuilt : ℕ → List ℕ → Result (List Bytes) → Option (List Bytes)
  check_rebuilt size bad (err e) = none
  check_rebuilt size bad (ok views) = if sized views size bad then some views else none

  -- (*Container).reconstructStrong; `none` is the answer (nil, false)
  unfoldable pub reconstruct_strong : Encoder → List Bytes → List ℕ → Option (List Bytes)
  unfolding erase sized
  reconstruct_strong enc shards bad =
      if length bad == 0 || ltb m_strong (length bad)
      then none
      else check_rebuilt (length (get_or shards 0 [])) bad (reconstruct enc (erase shards bad))

  abbrev pub lost : Error
  lost = engine_chunk 0 chunk_unrecoverable

  -- What follows the parse of the header in decodeStrongArea.
  unfoldable pub open_strong_area : Aead → ℕ → Bytes → Result ChunkHeader → Result Bytes
  open_strong_area aead plain_size area (err e) = err lost
  open_strong_area aead plain_size area (ok hdr) =
      let need = pos_part hdr.plain_len + tag_size in
      do
        reject_if (not (hdr.index ==ℤ pos 0) || not (hdr.plain_len ==ℤ pos plain_size)) lost
        reject_if (ltb (length area) (header_size + need)) lost
        or_err
            (unseal aead hdr.nonce (slice header_size (header_size + need) area)
              (take header_size area))
            (engine_chunk 0 (wrap "(gcm auth)" chunk_unrecoverable))

  -- (*Container).decodeStrongArea
  unfoldable pub decode_strong_area : Aead → ℕ → ℕ → List Bytes → Result Bytes
  unfolding join_shards open_strong_area
  decode_strong_area aead plain_size shard_size shards = do
    area ← or_err (join_shards k_strong shard_size shards) lost
    open_strong_area aead plain_size area (parse_chunk_header (take header_size area))

  -- The shards that are decoded: those read, or the rebuilt ones where some are bad.
  unfoldable pub recover : Encoder → List Bytes → List ℕ → Option (List Bytes)
  unfolding reconstruct_strong
  recover enc shards bad =
      if ltb 0 (length bad) then reconstruct_strong enc shards bad else some shards

  -- (*Container).LoadStrong
  unfoldable pub load_strong : Disk → Aead → Encoder → ℕ → Result Bytes
  unfolding gather_strong_slots recover decode_strong_area
  load_strong disk aead enc plain_size = do
    (shards, bad) ← gather_strong_slots disk plain_size
    fixed ← or_err (recover enc shards bad) lost
    decode_strong_area aead plain_size (strong_shard_size plain_size) fixed

  -- The buffer of slot i: the payload and its tag, copied over zeros.
  unfoldable pub new_slot : ℕ → List Bytes → ℕ → Bytes
  unfolding zeros
  new_slot shard_size fixed i =
      let payload = get_or fixed i [] in
      copy_at shard_size (copy (zeros (shard_size + tag_size)) payload) (shard_tag p payload)

  -- The loop that writes the bad slots back.
  unfoldable pub write_back : Disk → ℕ → List Bytes → List ℕ → Disk × Option Error
  write_back disk shard_size fixed [] = (disk, none)
  write_back disk shard_size fixed (i ∷ bad) =
      let written = write_at disk (i * (shard_size + tag_size)) (new_slot shard_size fixed i) in
      let rest = write_back written.0 shard_size fixed bad in
      elim written.1 [ none ↦ rest | some e ↦ (written.0, some e) ]

  abbrev pub lost_stats : ℕ → ScrubStats
  lost_stats bad = record (fresh_stats 1) { shards_bad = bad; chunks_lost = 0 ∷ [] }

  abbrev pub repaired_stats : ℕ → ScrubStats
  repaired_stats bad = record (fresh_stats 1) {
    shards_bad = bad;
    chunks_repaired = 1;
    shards_repaired = bad;
  }

  abbrev pub written_back : ScrubStats → Disk × Option Error → Disk × Result ScrubStats
  written_back st (disk, some e) = (disk, err e)
  written_back st (disk, none) = (disk, ok st)

  -- The decision on the decoded shards; `repair` is w != nil.
  unfoldable pub settle_strong :
      Bool → Disk → ℕ → List ℕ → List Bytes → Result Bytes → Disk × Result ScrubStats
  unfolding write_back
  settle_strong repair disk shard_size bad fixed (err e) = (disk, ok (lost_stats (length bad)))
  settle_strong repair disk shard_size bad fixed (ok plain) =
      if ltb 0 (length bad)
      then (if repair
          then written_back (repaired_stats (length bad)) (write_back disk shard_size fixed bad)
          else (disk, ok (repaired_stats (length bad))))
      else (disk, ok (record (fresh_stats 1) { chunks_clean = 1 }))

  -- The shards that are judged, if there are any.
  unfoldable pub settle_recovered :
      Bool → Disk → Aead → ℕ → List ℕ → Option (List Bytes) → Disk × Result ScrubStats
  unfolding settle_strong decode_strong_area
  settle_recovered repair disk aead plain_size bad none = (disk, ok (lost_stats (length bad)))
  settle_recovered repair disk aead plain_size bad (some fixed) =
      let shard_size = strong_shard_size plain_size in
      settle_strong repair disk shard_size bad fixed
        (decode_strong_area aead plain_size shard_size fixed)

  unfoldable pub scrub_gathered :
      Bool → Disk → Aead → Encoder → ℕ → Result (List Bytes × List ℕ) → Disk × Result ScrubStats
  unfolding recover settle_recovered
  scrub_gathered repair disk aead enc plain_size (err e) = (disk, err e)
  scrub_gathered repair disk aead enc plain_size (ok (shards, bad)) =
      settle_recovered repair disk aead plain_size bad (recover enc shards bad)

  -- (*Container).ScrubStrong
  unfoldable pub scrub_strong : Bool → Disk → Aead → Encoder → ℕ → Disk × Result ScrubStats
  unfolding gather_strong_slots scrub_gathered
  scrub_strong repair disk aead enc plain_size =
      scrub_gathered repair disk aead enc plain_size (gather_strong_slots disk plain_size)
