-- ===== src/Codec.antt =====
-- internal/codec/codec.go: the cache of Reed-Solomon encoders, and views of payload windows. The
-- encoders of klauspost/reedsolomon are a parameter, with what their documentation says.
pub mod Files
use secvault.Prelude.{
  ℕ, zero, suc, ◌+◌, ◌-◌, ◌*◌, ◌≤◌, ◌<◌, List, [], ◌∷◌, ◌++◌, Bytes, zeros, String, length, slice,
  replicate, All, Option, none, some, Bool, true, false, ◌≡◌, ◌⊎◌, ◌%◌, ◌==◌, ◌&&◌, ◌||◌, ltb,
  if◌then◌else◌,
}
use secvault.Errors.{Error, Result, ok, err, new, wrap, reject_if, ◌>>=◌, ◌>>◌}
use secvault.Layout.{
  data_shards, parity_shards, shards_per_blob, k_strong, m_strong, strong_slots, file_group_chunks,
  file_parity_shards, shard_size, slot_size,
}

pub record Coding : Type 1 where
  -- reedsolomon.Encoder
  pub Encoder : Type 0
  -- reedsolomon.New(dataShards, parityShards)
  pub new_encoder : ℕ → ℕ → Result Encoder
  -- Encode: the shards after the call
  pub encode : Encoder → List Bytes → Result (List Bytes)
  -- Reconstruct: the shards after the call; an empty shard is a missing one
  pub reconstruct : Encoder → List Bytes → Result (List Bytes)

-- A set of shards of which some are missing.
pub data Erased : List Bytes → List Bytes → ℕ → Type 0 where
  none_left : Erased [] [] 0
  kept : {b : Bytes} {bs cs : List Bytes} {n : ℕ} → Erased bs cs n → Erased (b ∷ bs) (b ∷ cs) n
  missing :
      {b : Bytes} {bs cs : List Bytes} {n : ℕ} → Erased bs cs n → Erased (b ∷ bs) ([] ∷ cs) (suc n)

-- The shard sizes that an encoder takes: up to 256 shards any, and multiples of 64 beyond that.
abbrev pub FitsShards : ℕ → ℕ → ℕ → Type 0
FitsShards k m size = (0 < size) × ((k + m ≤ 256) ⊎ (size % 64 ≡ 0))

-- The documented behaviour of an encoder of `k` data and `m` parity shards.
pub record IsEncoder (c : Coding) (k m : ℕ) (e : c.Encoder) : Type 0 where
  -- the parity of some data shards
  pub parity : List Bytes → List Bytes
  pub length-parity : (shards : List Bytes) → length (parity shards) ≡ m
  pub parity_size :
      (size : ℕ) (shards : List Bytes)
      → FitsShards k m size
      → length shards ≡ k
      → All (λ b. length b ≡ size) shards
      → All (λ b. length b ≡ size) (parity shards)
  pub encode_lem :
      (size : ℕ) (shards out : List Bytes)
      → FitsShards k m size
      → length shards ≡ k
      → length out ≡ m
      → All (λ b. length b ≡ size) shards
      → All (λ b. length b ≡ size) out
      → c.encode e (shards ++ out) ≡ ok (shards ++ parity shards)
  pub reconstruct_lem :
      (size : ℕ) (shards views : List Bytes) (n : ℕ)
      → FitsShards k m size
      → length shards ≡ k
      → All (λ b. length b ≡ size) shards
      → Erased (shards ++ parity shards) views n
      → n ≤ m
      → c.reconstruct e views ≡ ok (shards ++ parity shards)

-- The documented behaviour of reedsolomon.New for the numbers of shards that File takes.
pub record IsCoding (c : Coding) : Type 0 where
  pub encoder_of : ℕ → ℕ → c.Encoder
  pub new_encoder_lem :
      (k m : ℕ)
      → 0 < k
      → k ≤ file_group_chunks
      → 0 < m
      → m ≤ file_parity_shards
      → c.new_encoder k m ≡ ok (encoder_of k m)
  pub encoder_lem : (k m : ℕ) → 0 < k → IsEncoder c k m (encoder_of k m)

module _ (c : Coding) where
  open c use {Encoder, new_encoder, encode}

  -- The map from (k, m) to encoders; the lock around it makes each call of `file` one step.
  pub record Cache : Type 0 where
    pub intra : Encoder
    pub strong : Encoder
    pub files : List (ℕ × ℕ × Encoder)

  -- n shards of 64 zero bytes are encoded, and the outcome is dropped.
  unfoldable pub warmup_n : Encoder → ℕ → Result (Unit {0})
  unfolding replicate zeros
  warmup_n enc n = do shards ← encode enc (replicate n (zeros 64)); ok tt

  abbrev wrap_err {ℓ} : {A : Type ℓ} → String → Result A → Result A
  wrap_err msg (ok a) = ok a
  wrap_err msg (err e) = err (wrap msg e)

  unfoldable pub new_cache : Result Cache
  unfolding warmup_n
  new_cache = do
    intra ← wrap_err "secvault: intra codec" (new_encoder data_shards parity_shards)
    wrap_err "secvault: intra warmup" (warmup_n intra shards_per_blob)
    strong ← wrap_err "secvault: strong codec" (new_encoder k_strong m_strong)
    wrap_err "secvault: strong warmup" (warmup_n strong strong_slots)
    ok (record { intra = intra; strong = strong; files = [] })

  unfoldable pub find_file : ℕ → ℕ → List (ℕ × ℕ × Encoder) → Option Encoder
  find_file k m [] = none
  find_file k m ((i, j, rs) ∷ files) = if i == k && j == m then some rs else find_file k m files

  abbrev pub add_file : Cache → ℕ → ℕ → Result Encoder → Cache × Result Encoder
  add_file cache k m (err e) = (cache, err (wrap "secvault: file codec" e))
  add_file cache k m (ok rs) = (record cache { files = (k, m, rs) ∷ cache.files }, ok rs)

  -- `if rs, ok := c.files[key]; ok { return rs, nil }`, and the insertion of a new encoder.
  abbrev pub cached_or_new : Cache → ℕ → ℕ → Option Encoder → Cache × Result Encoder
  cached_or_new cache k m (some rs) = (cache, ok rs)
  cached_or_new cache k m none = add_file cache k m (new_encoder k m)

  -- (*Cache).File: the cache after the call, and the encoder.
  unfoldable pub file : Cache → ℕ → ℕ → Cache × Result Encoder
  file cache k m =
      if ltb k 1 || ltb file_group_chunks k
      then (cache, err (new "secvault: bad file-level k"))
      else if ltb m 1 || ltb file_parity_shards m
      then (cache, err (new "secvault: bad file-level m (1<=m<=FileParityShards)"))
      else cached_or_new cache k m (find_file k m cache.files)

-- A loop over the columns: the payload of each slot, the tag left out.
unfoldable pub extract_payloads : Bytes → ℕ → Bytes
extract_payloads raw zero = []
extract_payloads raw (suc cols) =
    extract_payloads raw cols ++ slice (cols * slot_size) (cols * slot_size + shard_size) raw

unfoldable pub slice_window : Bytes → ℕ → ℕ → Bytes
slice_window buf j0 wc = let off = j0 * shard_size in slice off (off + wc * shard_size) buf
