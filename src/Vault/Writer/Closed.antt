-- ===== src/Vault/Writer/Closed.antt =====
-- The calls of a writer after Close.
use secvault.Prelude.{ℕ, ◌≡◌, refl, subst, Bytes, true, if_cases, some}
use secvault.Errors.{Result, err, closed as err_closed}
use secvault.Format.{Manifest}
use secvault.Crypto.{Primitives}
use secvault.Codec.{Coding}
use secvault.Device.{Device}
use secvault.Vault.Writer.Session.{
  Writer, Backend, pipeline_backend, gcm_backend, strong_backend, dst_of, with_dst, write, close,
  close_backend,
}

module _ (p : Primitives) (c : Coding) (d : Device) (checksum : Bytes → ℕ)
    (print_json : Manifest → Result Bytes) where
  -- The writer refuses every call, and the file stays.
  abbrev pub IsOver : Writer p c d → d.Disk → Type 0
  IsOver w file =
      ((b : Bytes) → write p c d w b ≡ (w, 0, some err_closed))
      × ((random_nonce random : Result Bytes)
          → close p c d checksum print_json w random_nonce random ≡ (w, (file, err err_closed)))

  closed-IsOver : (w : Writer p c d) → w.closed ≡ true → IsOver w (dst_of p c d w.backend)
  unfolding write close
  closed-IsOver w over = ((λ b. rw over refl), λ random_nonce random. rw over refl)

  dst_of-with_dst :
      (b : Backend p c d) (file : d.Disk) → dst_of p c d (with_dst p c d b file) ≡ file
  dst_of-with_dst (pipeline_backend pipe) file = refl
  dst_of-with_dst (gcm_backend sink) file = refl
  dst_of-with_dst (strong_backend sink) file = refl

  abbrev IsClosed : Writer p c d × (d.Disk × Result (Unit {0})) → Type 0
  IsClosed r = (r.0.closed ≡ true) × (dst_of p c d r.0.backend ≡ r.1.0)

  close-IsClosed :
      (w : Writer p c d) (random_nonce random : Result Bytes)
      → IsClosed (close p c d checksum print_json w random_nonce random)
  unfolding close
  close-IsClosed w random_nonce random =
      if_cases IsClosed w.closed (λ over. (over, refl))
        (λ open_. (
          refl,
          dst_of-with_dst w.backend
              (close_backend p c d checksum print_json w w.backend random_nonce random).0,
        ))

  -- After Close, whether it succeeded or not and for every scheme, Write and Close return ErrClosed,
  -- take no bytes and change neither the writer nor the file that Close left.
  pub close-IsOver :
      (w : Writer p c d) (random_nonce random : Result Bytes)
      → IsOver
          (close p c d checksum print_json w random_nonce random).0
          (close p c d checksum print_json w random_nonce random).1.0
  close-IsOver w random_nonce random =
      let r = close p c d checksum print_json w random_nonce random in
      let (over, file) = close-IsClosed w random_nonce random in
      subst (IsOver r.0) file (closed-IsOver r.0 over)
