-- ===== src/Examples/Writers.antt =====
-- The theorems on the writer at concrete inputs.
use secvault.Prelude.{◌+◌, ◌≡◌, refl, arith, pos, negsuc, inl, [], ◌∷◌}
use secvault.Errors.{ok}
use secvault.Layout.{gcm_only_payload_size}
use secvault.Format.{validate, scheme_gcm_only}
use secvault.Vault.Writer.{
  workers_option, inflight_option, parity_option, apply_options, default_opts, small_manifest,
  empty_manifest,
}
use secvault.Vault.Writer.Accepted.{IsOpts, apply_options-IsOpts, validate-small_manifest}

apply_options-IsOpts_example : IsOpts (
    apply_options
      (parity_option (pos 5) ∷ workers_option (negsuc 2) ∷ inflight_option (pos 300) ∷ [])
      default_opts)
apply_options-IsOpts_example =
    apply_options-IsOpts
      (parity_option (pos 5) ∷ workers_option (negsuc 2) ∷ inflight_option (pos 300) ∷ [])
      default_opts (omega arith)

made : small_manifest 3 scheme_gcm_only 10 ≡ ok (empty_manifest 3 scheme_gcm_only 10, 42)
unfolding small_manifest gcm_only_payload_size
made = refl

validate-small_manifest_example :
    validate (empty_manifest 3 scheme_gcm_only 10) (42 + 100) 100 ≡ ok tt
validate-small_manifest_example =
    validate-small_manifest scheme_gcm_only 10 100 42 (empty_manifest 3 scheme_gcm_only 10)
      (inl refl) made (omega arith)
