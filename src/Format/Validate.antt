-- ===== src/Format/Validate.antt =====
-- Validate of internal/format/format.go, on a truncated or extended file.
use secvault.Prelude.{ℕ, ◌≡◌, ◌≢◌, arith, Bool-cases, inl, inr}
use text.Mathlib.Text.{◌==◌ as str_eq}
use secvault.Errors.{Result, ok, err, no_manifest, ◌>>◌}
use secvault.Format.{
  Manifest, resolve_scheme, scheme_gcm_only, scheme_rs_strong, scheme_rs_dual, check_size,
  validate_gcm_only, validate_rs_strong, validate_rs_dual, validate,
}

check_size_other :
    (p : Result (Unit {0})) (expect size other : ℕ)
    → (p >> check_size expect size) ≡ ok tt
    → other ≢ size
    → (p >> check_size expect other) ≡ err no_manifest
unfolding check_size
check_size_other (err e) expect size other h ne = cc
check_size_other (ok u) expect size other h ne = ground arith

-- Where Validate accepts a manifest at a file size, it answers ErrNoManifest at every other size,
-- whatever the scheme.
pub validate_other_size :
    (man : Manifest) (size other trailer_len : ℕ)
    → validate man size trailer_len ≡ ok tt
    → other ≢ size
    → validate man other trailer_len ≡ err no_manifest
unfolding validate validate_gcm_only validate_rs_strong validate_rs_dual
validate_other_size man size other trailer_len h ne =
    elim (Bool-cases (str_eq (resolve_scheme man) scheme_gcm_only)) [
      | inl g ↦ rw g (check_size_other _ _ size other (rw g at h) ne)
      | inr ng ↦ elim (Bool-cases (str_eq (resolve_scheme man) scheme_rs_strong)) [
        | inl s ↦ rw (ng, s) (check_size_other _ _ size other (rw (ng, s) at h) ne)
        | inr ns ↦ elim (Bool-cases (str_eq (resolve_scheme man) scheme_rs_dual)) [
          | inl d ↦ rw (ng, ns, d) (check_size_other _ _ size other (rw (ng, ns, d) at h) ne)
          | inr nd ↦ absurd (cc (rw (ng, ns, nd) at h))
        ]
      ]
    ]
