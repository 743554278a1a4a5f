-- ===== src/Engine/GcmOnly/Laws.antt =====
-- Drain, LoadGCMOnly and ScrubGCMOnly of internal/engine on a file that does not fail.
use secvault.Prelude.{
  ◌∷◌, ℕ, ◌+◌, ◌-◌, ◌≤◌, ◌≡◌, refl, sym, ap, ◌∙◌, arith, Bytes, [], ◌++◌, zeros, length, take, drop,
  copy-whole, length-append, take-append, take_self, replicate, drop-append, bytes_equal, Option,
  none, some, inl, inr, true, not, Bool-cases,
}
use secvault.Errors.{Result, Error, ok, err, is_error, wrap, gcm_only_corrupted, or_err}
use secvault.Layout.{gcm_header_size, tag_size, magic_gcm_only, gcm_only_payload_size, nonce_size}
use secvault.Crypto.{Primitives, IsCrypto}
use secvault.Device.{Device, IsFile, read_buffer, seek_write, overwrite, file_read}
use secvault.Device.Reads.{read_buffer_full, read_buffer_total, seek_write_lem}
use secvault.Engine.Stats.{ScrubStats, fresh_stats, IsTallied}
use secvault.Engine.GcmOnly.{
  settle_gcm_only, scrub_gcm_only, GcmOnlySink, gcm_header, gcm_body, drain, open_gcm_only,
  load_gcm_only,
}

header_lem :
    (nonce : Bytes) → length nonce ≡ nonce_size → gcm_header nonce ≡ magic_gcm_only ++ nonce
unfolding gcm_header zeros replicate
header_lem nonce e =
    ap (λ (r : Bytes). magic_gcm_only ++ r) (copy-whole (zeros nonce_size) nonce (sym e))

module _ (p : Primitives) (c : IsCrypto p) (d : Device) where
  open p use {Aead, seal}
  open d use {Disk, contents, read_at}

  body_lem :
      (aead : Aead) (nonce buf : Bytes)
      → length nonce ≡ nonce_size
      → gcm_body p d aead nonce buf
        ≡ (magic_gcm_only ++ nonce) ++ seal aead nonce buf (magic_gcm_only ++ nonce)
  unfolding gcm_body
  body_lem aead nonce buf e = ap (λ (h : Bytes). h ++ seal aead nonce buf h) (header_lem nonce e)

  pub length-gcm_body :
      (aead : Aead) (nonce buf : Bytes)
      → length nonce ≡ nonce_size
      → length (gcm_body p d aead nonce buf) ≡ gcm_only_payload_size (length buf)
  unfolding gcm_only_payload_size
  length-gcm_body aead nonce buf e =
      let header = magic_gcm_only ++ nonce in
      let ct = seal aead nonce buf header in
      rw (body_lem aead nonce buf e)
        (omega (arith, length-append {0} header ct, c.length-seal aead nonce buf header))

  -- The payload that was sealed opens to its plaintext.
  open-body :
      (aead : Aead) (nonce buf : Bytes)
      → length nonce ≡ nonce_size
      → open_gcm_only p d aead (length buf) (gcm_body p d aead nonce buf) ≡ ok buf
  unfolding open_gcm_only
  open-body aead nonce buf e =
      let header = magic_gcm_only ++ nonce in
      let ct = seal aead nonce buf header in
      let size : length header ≡ gcm_header_size = omega arith in
      let fits : length ct ≤ gcm_header_size + length buf + tag_size - gcm_header_size =
        omega (arith, c.length-seal aead nonce buf header) in
      rw
        (
          body_lem aead nonce buf e,
          take-append gcm_header_size header ct size,
          drop-append gcm_header_size header ct size,
          take_self (gcm_header_size + length buf + tag_size - gcm_header_size) ct fits,
          take-append nonce_size nonce ct e,
          c.unseal-seal aead nonce buf header e,
        )
        (unfold bytes_equal in refl)

  -- A file that begins with the payload of Drain, whatever follows it, loads to the plaintext.
  pub load_gcm_only-body :
      IsFile d
      → (disk : Disk) (aead : Aead) (nonce buf rest : Bytes) → length nonce ≡ nonce_size
      → contents disk ≡ gcm_body p d aead nonce buf ++ rest
      → load_gcm_only p d disk aead (length buf) ≡ ok buf
  unfolding load_gcm_only
  load_gcm_only-body f disk aead nonce buf rest e on_disk =
      let body = gcm_body p d aead nonce buf in
      let size = gcm_only_payload_size (length buf) in
      let full : read_buffer size (file_read ([] ++ (body ++ rest)) 0 size) ≡ ok body =
        read_buffer_full [] body rest 0 size refl (length-gcm_body aead nonce buf e)
          (unfold gcm_only_payload_size in omega arith) in
      rw (f.read_at_lem disk 0 size, on_disk, full) (open-body aead nonce buf e)

  -- Drain and then LoadGCMOnly: on a file that does not fail, the plaintext that was buffered.
  pub load_gcm_only-drain :
      IsFile d
      → (g : GcmOnlySink p d) (nonce : Bytes) → length nonce ≡ nonce_size
      → ((drain p d g (ok nonce)).1 ≡ ok (length g.buf))
        × (load_gcm_only p d (drain p d g (ok nonce)).0 g.aead (length g.buf) ≡ ok g.buf)
  unfolding drain
  load_gcm_only-drain f g nonce e =
      let body = gcm_body p d g.aead nonce g.buf in
      let (done, written) = seek_write_lem d f g.dst 0 body in
      (
        rw done refl,
        load_gcm_only-body f (seek_write d g.dst 0 body).0 g.aead nonce g.buf
            (drop (0 + length body) (contents g.dst)) e (written ∙ unfold overwrite in refl),
      )

  or_err_corrupted :
      (o : Option Bytes) (e : Error)
      → or_err o gcm_only_corrupted ≡ err e
      → is_error e gcm_only_corrupted ≡ true
  unfolding is_error
  or_err_corrupted none e h = let h' : gcm_only_corrupted ≡ e = ground arith in rw (← h') refl
  or_err_corrupted (some b) e h = cc

  open_gcm_only_errors :
      (aead : Aead) (plain_size : ℕ) (buf : Bytes) (e : Error)
      → open_gcm_only p d aead plain_size buf ≡ err e
      → is_error e gcm_only_corrupted ≡ true
  unfolding open_gcm_only is_error
  open_gcm_only_errors aead plain_size buf e h =
      elim (Bool-cases (not (bytes_equal (take 4 (take gcm_header_size buf)) magic_gcm_only))) [
        | inl wrong ↦
            let h' : wrap "secvault: gcm-only magic mismatch" gcm_only_corrupted ≡ e =
              cc (rw wrong at h) in
            rw (← h') refl
        | inr right ↦ or_err_corrupted _ e (rw right at h)
      ]

  -- On a file that does not fail, whatever it holds, LoadGCMOnly fails with no error but one that
  -- errors.Is matches with ErrGCMOnlyCorrupted.
  pub load_gcm_only_errors :
      IsFile d
      → (disk : Disk) (aead : Aead) (plain_size : ℕ) (e : Error)
      → load_gcm_only p d disk aead plain_size ≡ err e
      → is_error e gcm_only_corrupted ≡ true
  unfolding load_gcm_only
  load_gcm_only_errors f disk aead plain_size e h =
      let size = gcm_only_payload_size plain_size in
      let (buf, got) = read_buffer_total (contents disk) 0 size in
      open_gcm_only_errors aead plain_size buf e (rw (f.read_at_lem disk 0 size, got) at h)

  -- The answers that scrub_gcm_only settles.
  Settled : Result Bytes → Type 0
  Settled r =
      (st : ScrubStats) × (settle_gcm_only p d r ≡ ok st)
      × IsTallied st
      × (st.chunks_clean ≡ (elim r [ ok plain ↦ 1 | err e ↦ 0 ]))

  settled :
      (r : Result Bytes)
      → ((e : Error) → r ≡ err e → is_error e gcm_only_corrupted ≡ true)
      → Settled r
  unfolding Settled
  settled (ok plain) only = (record (fresh_stats 1) { chunks_clean = 1 }, refl, refl, refl)
  settled (err e) only =
      (record (fresh_stats 1) { chunks_lost = 0 ∷ [] }, rw (only e refl) refl, refl, refl)

  -- On a file that does not fail, whatever it holds, ScrubGCMOnly returns a report, never an error:
  -- of one chunk, which is clean if LoadGCMOnly returns the plaintext and lost if not, so that the
  -- counts add up to the total.
  pub scrub_gcm_only_total :
      IsFile d
      → (disk : Disk) (aead : Aead) (plain_size : ℕ)
      → (st : ScrubStats) × (scrub_gcm_only p d disk aead plain_size ≡ ok st)
        × IsTallied st
        × (st.chunks_clean
            ≡ (elim (load_gcm_only p d disk aead plain_size) [ ok plain ↦ 1 | err e ↦ 0 ]))
  unfolding scrub_gcm_only Settled
  scrub_gcm_only_total f disk aead plain_size =
      settled (load_gcm_only p d disk aead plain_size) (load_gcm_only_errors f disk aead plain_size)
