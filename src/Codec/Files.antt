-- ===== src/Codec/Files.antt =====
-- (*Cache).File of internal/codec/codec.go, against a cache that is not there.
use secvault.Prelude.{
  ℕ, ◌<◌, ◌≤◌, ◌≡◌, refl, ap, false, sym, Bool-cases, inl, inr, ◌∙◌, arith, List, [], ◌∷◌, Option,
  none, some, ◌||◌, ltb, if◌then◌else◌, All,
}
use secvault.Errors.{Result, ok, err, new, wrap}
use secvault.Layout.{file_group_chunks, file_parity_shards}
use secvault.Codec.{Coding, IsCoding, Cache, find_file, add_file, cached_or_new, file}

module _ (c : Coding) where
  open c use {Encoder, new_encoder}

  abbrev IsBuilt : ℕ × ℕ × Encoder → Type 0
  IsBuilt (k, m, rs) = new_encoder k m ≡ ok rs

  -- Each encoder in the cache is the one that the library builds for its key.
  abbrev pub IsCache : Cache c → Type 0
  IsCache cache = All IsBuilt cache.files

  find_file_built :
      (k m : ℕ) (files : List (ℕ × ℕ × Encoder)) (rs : Encoder)
      → All IsBuilt files
      → find_file c k m files ≡ some rs
      → new_encoder k m ≡ ok rs
  unfolding find_file
  find_file_built k m [] rs h e = cc
  find_file_built k m ((i, j, x) ∷ files) rs h e = ground (arith, find_file_built k m files rs h.1)

  built : Result Encoder → Result Encoder
  built (ok rs) = ok rs
  built (err e) = err (wrap "secvault: file codec" e)

  -- The encoder that the parameters stand for, with no cache.
  pub file_uncached : ℕ → ℕ → Result Encoder
  file_uncached k m =
      if ltb k 1 || ltb file_group_chunks k
      then err (new "secvault: bad file-level k")
      else if ltb m 1 || ltb file_parity_shards m
      then err (new "secvault: bad file-level m (1<=m<=FileParityShards)")
      else built (new_encoder k m)

  add_file-built :
      (cache : Cache c) (k m : ℕ) (r : Result Encoder)
      → new_encoder k m ≡ r
      → IsCache cache
      → ((add_file c cache k m r).1 ≡ built r) × IsCache (add_file c cache k m r).0
  unfolding built
  add_file-built cache k m (ok rs) e h = (refl, (e, h))
  add_file-built cache k m (err x) e h = (refl, h)

  cached_or_new-built :
      (cache : Cache c) (k m : ℕ) (o : Option Encoder)
      → find_file c k m cache.files ≡ o
      → IsCache cache
      → ((cached_or_new c cache k m o).1 ≡ built (new_encoder k m))
        × IsCache (cached_or_new c cache k m o).0
  unfolding built
  cached_or_new-built cache k m (some rs) e h = (rw (find_file_built k m cache.files rs h e), h)
  cached_or_new-built cache k m none e h = add_file-built cache k m (new_encoder k m) refl h

  -- File answers as if there were no cache, on every branch, and keeps the cache's entries right.
  pub file_transparent :
      (cache : Cache c) (k m : ℕ)
      → IsCache cache
      → ((file c cache k m).1 ≡ file_uncached k m) × IsCache (file c cache k m).0
  unfolding file file_uncached
  file_transparent cache k m h = elim (Bool-cases (ltb k 1 || ltb file_group_chunks k)) [
    | inl bad ↦ rw bad (refl, h)
    | inr good ↦ elim (Bool-cases (ltb m 1 || ltb file_parity_shards m)) [
      | inl bad ↦ rw (good, bad) (refl, h)
      | inr fits ↦
          rw (good, fits) (cached_or_new-built cache k m (find_file c k m cache.files) refl h)
    ]
  ]

  -- A second call with the same parameters answers as the first one did.
  pub file_again :
      (cache : Cache c) (k m i j : ℕ)
      → IsCache cache
      → (file c (file c cache i j).0 k m).1 ≡ (file c cache k m).1
  file_again cache k m i j h =
      let (first, kept) = file_transparent cache i j h in
      (file_transparent (file c cache i j).0 k m kept).0 ∙ sym (file_transparent cache k m h).0

  -- File gives the library's encoder for the numbers that it takes.
  pub file-IsCoding :
      (lib : IsCoding c) (cache : Cache c) (k m : ℕ)
      → IsCache cache
      → 0 < k
      → k ≤ file_group_chunks
      → 0 < m
      → m ≤ file_parity_shards
      → ((file c cache k m).1 ≡ ok (lib.encoder_of k m)) × IsCache (file c cache k m).0
  unfolding file_uncached built
  file-IsCoding lib cache k m h pos_k few_k pos_m few_m =
      let good_k : (ltb k 1 || ltb file_group_chunks k) ≡ false = ground arith in
      let good_m : (ltb m 1 || ltb file_parity_shards m) ≡ false = ground arith in
      let (same, kept) = file_transparent cache k m h in
      (
        same ∙ rw (good_k, good_m) (ap built (lib.new_encoder_lem k m pos_k few_k pos_m few_m)),
        kept,
      )
