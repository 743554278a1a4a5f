-- ===== src/Vault/Writer/Accepted.antt =====
-- The options of writer.go, and the manifests of closeSmall under Validate.
use secvault.Prelude.{
  ℕ, ◌+◌, ◌^◌, ◌≤◌, ◌<◌, ◌≡◌, refl, ap, sym, ◌∙◌, arith, ◌⊎◌, inl, inr, Bool, true, false, ◌&&◌,
  leb, ge→ltb, if◌then◌else◌, pos, negsuc, int64-pos, ==ℤ_iff, String, List, [], ◌∷◌,
}
use secvault.Errors.{Result, ok, err}
use secvault.Layout.{
  file_parity_shards, gcm_only_payload_size, gcm_only_size, strong_shard_size, strong_payload_size,
  strong_size,
}
use secvault.Format.{
  Manifest, validate, validate_gcm_only, check_gcm_only, validate_rs_strong, check_rs_strong,
  check_size, resolve_scheme, scheme_gcm_only, scheme_rs_strong,
}
use secvault.Vault.Writer.{
  WriterOpts, with_workers, with_inflight, with_file_parity, with_re_pull, with_strong_rs,
  small_manifest, WriterOption, workers_option, inflight_option, parity_option, re_pull_option,
  strong_option, apply_option, apply_options,
}

-- What the pipeline may be started with.
abbrev pub IsOpts : WriterOpts → Type 0
IsOpts o =
    (1 ≤ o.workers)
    × (o.workers ≤ 16)
    × (4 ≤ o.inflight)
    × (o.inflight ≤ 256)
    × (1 ≤ o.m2cap)
    × (o.m2cap ≤ file_parity_shards)

guarded :
    (test : Bool) (changed o : WriterOpts)
    → (test ≡ true → IsOpts changed)
    → IsOpts o
    → IsOpts (if test then changed else o)
guarded true changed o h v = h refl
guarded false changed o h v = v

apply_option-IsOpts : (f : WriterOption) (o : WriterOpts) → IsOpts o → IsOpts (apply_option f o)
unfolding apply_option with_workers with_inflight with_file_parity with_re_pull with_strong_rs
apply_option-IsOpts (workers_option (pos n)) o v =
    guarded (leb 1 n && leb n 16) _ o (λ h. ground (arith, v)) v
apply_option-IsOpts (workers_option (negsuc n)) o v = v
apply_option-IsOpts (inflight_option (pos n)) o v =
    guarded (leb 4 n && leb n 256) _ o (λ h. ground (arith, v)) v
apply_option-IsOpts (inflight_option (negsuc n)) o v = v
apply_option-IsOpts (parity_option (pos m)) o v =
    guarded (leb 1 m && leb m file_parity_shards) _ o (λ h. ground (arith, v)) v
apply_option-IsOpts (parity_option (negsuc m)) o v = v
apply_option-IsOpts re_pull_option o v = v
apply_option-IsOpts strong_option o v = v

-- Whatever options a caller gives, with whatever numbers, the workers stay 1 to 16, the chunks in
-- flight 4 to 256, and the cap of the file-level parity 1 to 64.
pub apply_options-IsOpts :
    (opts : List WriterOption) (o : WriterOpts) → IsOpts o → IsOpts (apply_options opts o)
unfolding apply_options
apply_options-IsOpts [] o v = v
apply_options-IsOpts (f ∷ opts) o v =
    apply_options-IsOpts opts (apply_option f o) (apply_option-IsOpts f o v)

-- Validate accepts the manifest at the size that the file has.
Accepted : Result (Manifest × ℕ) → ℕ → Type 0
Accepted (err e) trailer_len = Unit {0}
Accepted (ok (man, off)) trailer_len =
    off + trailer_len < 2 ^ 63 → validate man (off + trailer_len) trailer_len ≡ ok tt

same_size : (n : ℕ) → n < 2 ^ 63 → check_size n n ≡ ok tt
unfolding check_size
same_size n h = rw (int64-pos n h, (==ℤ_iff (pos n) (pos n)).1 refl) refl

gcm_only-Accepted :
    (plain_size trailer_len : ℕ)
    → Accepted (small_manifest 3 scheme_gcm_only plain_size) trailer_len
unfolding Accepted small_manifest validate validate_gcm_only check_gcm_only resolve_scheme
    gcm_only_size
gcm_only-Accepted plain_size trailer_len h =
    rw (ge→ltb plain_size 0 (omega arith))
      (same_size (gcm_only_payload_size plain_size + trailer_len) h)

strong-Accepted :
    (plain_size trailer_len : ℕ)
    → Accepted (small_manifest 3 scheme_rs_strong plain_size) trailer_len
unfolding Accepted small_manifest validate validate_rs_strong check_rs_strong resolve_scheme
    strong_size
strong-Accepted plain_size trailer_len h =
    let same =
      (==ℤ_iff (pos (strong_shard_size plain_size)) (pos (strong_shard_size plain_size))).1 refl in
    rw (ge→ltb plain_size 0 (omega arith), same)
      (same_size (strong_payload_size plain_size + trailer_len) h)

-- The manifest that closeSmall makes for a gcm-only or an rs-strong container is accepted by
-- Validate, where the trailer stands at the offset that closeSmall computes and ends the file, and
-- the size of the file is below 2^63.
pub validate-small_manifest :
    (scheme : String) (plain_size trailer_len off : ℕ) (man : Manifest)
    → (scheme ≡ scheme_gcm_only) ⊎ (scheme ≡ scheme_rs_strong)
    → small_manifest 3 scheme plain_size ≡ ok (man, off)
    → off + trailer_len < 2 ^ 63
    → validate man (off + trailer_len) trailer_len ≡ ok tt
unfolding Accepted
validate-small_manifest scheme plain_size trailer_len off man (inl gcm) made h =
    (rw (ap (λ (s : String). small_manifest 3 s plain_size) (sym gcm) ∙ made) at
        (gcm_only-Accepted plain_size trailer_len))
      h
validate-small_manifest scheme plain_size trailer_len off man (inr strong) made h =
    (rw (ap (λ (s : String). small_manifest 3 s plain_size) (sym strong) ∙ made) at
        (strong-Accepted plain_size trailer_len))
      h
