-- ===== src/Vault/Reader/Fetch.antt =====
-- The caches of reader.go against the container.
use secvault.Prelude.{
  ℕ, ◌<◌, ◌≡◌, refl, Bytes, length, Option, none, some, Bool, true, false, ◌&&◌, ltb, if◌then◌else◌,
  Bool-cases, inl, inr, pos, ◌==ℤ◌, ==ℤ_iff, arith, sym, ap, ◌∙◌,
}
use secvault.Errors.{Result, ok, err}
use secvault.Vault.Reader.{
  Source, Reader, fresh, wrap_chunk_err, cached, keep_all, keep_chunk, cached_or_loaded,
  load_all_plain, fetch,
}

-- What the caches hold is what the container would load.
pub record IsReader (s : Source) (r : Reader) : Type 0 where
  pub chunk_right :
      (i : ℕ) → r.cache_idx ≡ pos i → 0 < length r.cache_plain → s.load_chunk i ≡ ok r.cache_plain
  pub all_right : r.all_loaded ≡ true → s.load_all ≡ ok r.all_plain

pub fresh-IsReader : (s : Source) → IsReader s fresh
fresh-IsReader s = record { chunk_right = λ i e h. cc; all_right = λ e. cc }

unfoldable pub wrapped : Result Bytes → Result Bytes
unfolding wrap_chunk_err
wrapped (ok b) = ok b
wrapped (err e) = err (wrap_chunk_err e)

cached-some :
    (s : Source) (r : Reader) (i : ℕ) (plain : Bytes)
    → IsReader s r
    → cached r i ≡ some plain
    → s.load_chunk i ≡ ok plain
unfolding cached
cached-some s r i plain v e =
    elim (Bool-cases ((r.cache_idx ==ℤ pos i) && ltb 0 (length r.cache_plain))) [
      | inl hit ↦
          let same : r.cache_idx ≡ pos i = (==ℤ_iff r.cache_idx (pos i)).0 (ground arith) in
          let full : 0 < length r.cache_plain = ground arith in
          let plain_eq : r.cache_plain ≡ plain = ground arith in
          v.chunk_right i same full ∙ ap ok plain_eq
      | inr miss ↦ cc (rw miss at e)
    ]

pos-inj : (i j : ℕ) → pos i ≡ pos j → i ≡ j
pos-inj i j e = cc

keep_chunk_lem :
    (s : Source) (r : Reader) (i : ℕ) (got : Result Bytes)
    → IsReader s r
    → s.load_chunk i ≡ got
    → ((keep_chunk r i got).1 ≡ wrapped got) × IsReader s (keep_chunk r i got).0
unfolding wrapped wrap_chunk_err
keep_chunk_lem s r i (err e) v h = (refl, v)
keep_chunk_lem s r i (ok plain) v h = (
  refl,
  record {
    chunk_right = λ j e full. ap s.load_chunk (sym (pos-inj i j e)) ∙ h;
    all_right = v.all_right;
  },
)

cached_or_loaded_lem :
    (s : Source) (r : Reader) (i : ℕ) (o : Option Bytes)
    → IsReader s r
    → cached r i ≡ o
    → ((cached_or_loaded r i (s.load_chunk i) o).1 ≡ wrapped (s.load_chunk i))
      × IsReader s (cached_or_loaded r i (s.load_chunk i) o).0
unfolding wrapped
cached_or_loaded_lem s r i (some plain) v e = (rw (cached-some s r i plain v e) refl, v)
cached_or_loaded_lem s r i none v e = keep_chunk_lem s r i (s.load_chunk i) v refl

-- A chunk from the cache is the chunk that would be loaded, errors included.
pub fetch_lem :
    (s : Source) (r : Reader) (i : ℕ)
    → IsReader s r
    → ((fetch s r i).1 ≡ wrapped (s.load_chunk i)) × IsReader s (fetch s r i).0
unfolding fetch
fetch_lem s r i v = cached_or_loaded_lem s r i (cached r i) v refl

keep_all_lem :
    (s : Source) (r : Reader) (got : Result Bytes)
    → IsReader s r
    → s.load_all ≡ got
    → ((keep_all r got).1 ≡ got) × IsReader s (keep_all r got).0
keep_all_lem s r (err e) v h = (refl, v)
keep_all_lem s r (ok plain) v h = (refl, record { chunk_right = v.chunk_right; all_right = λ e. h })

kept_or_loaded :
    (s : Source) (r : Reader) (loaded : Bool)
    → IsReader s r
    → r.all_loaded ≡ loaded
    → ((if loaded then (r, ok r.all_plain) else keep_all r s.load_all).1 ≡ s.load_all)
      × IsReader s (if loaded then (r, ok r.all_plain) else keep_all r s.load_all).0
kept_or_loaded s r true v e = (sym (v.all_right e), v)
kept_or_loaded s r false v e = keep_all_lem s r s.load_all v refl

-- The whole plaintext likewise.
pub load_all_plain_lem :
    (s : Source) (r : Reader)
    → IsReader s r
    → ((load_all_plain s r).1 ≡ s.load_all) × IsReader s (load_all_plain s r).0
unfolding load_all_plain
load_all_plain_lem s r v = kept_or_loaded s r r.all_loaded v refl
