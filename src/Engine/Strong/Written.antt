-- ===== src/Engine/Strong/Written.antt =====
-- What Drain of the rs-strong sink writes, and LoadStrong on it.
use secvault.Prelude.{
  ℕ, zero, suc, ◌+◌, ◌^◌, ◌<◌, ◌≡◌, refl, ap, ◌∙◌, arith, List, [], ◌∷◌, ◌++◌, Bytes, length, map,
  concat, All, drop, drop-nil, append-nil, zeros, replicate, length-replicate, inl,
}
use secvault.Errors.{Result, ok}
use secvault.Layout.{k_strong, m_strong, strong_shard_size}
use secvault.Layout.Small.{strong_shard_size_pos}
use secvault.Crypto.{Primitives, IsCrypto, shard_tag}
use secvault.Crypto.Tags.{length-shard_tag}
use secvault.Codec.{Coding, IsEncoder}
use secvault.Device.{Device, IsFile, overwrite, seek_write}
use secvault.Device.Reads.{seek_write_lem}
use secvault.Engine.Strong.{StrongSink, slot, load_strong, drain, encode_shards}
use secvault.Engine.Strong.Damage.{Slots, image, IsSized, Damaged, done, intact}
use secvault.Engine.Strong.Body.{data_part, length-data_part, data_part-All}
use secvault.Engine.Strong.Load.{codeword, codeword-All, load_strong-damaged}

module _ (p : Primitives) (v : IsCrypto p) where
  -- Slots with their own tags.
  unfoldable pub tagged : List Bytes → Slots
  tagged [] = []
  tagged (b ∷ bs) = (b, shard_tag p b) ∷ tagged bs

  pub tagged-Damaged : (bs : List Bytes) → Damaged p bs (tagged bs) 0
  unfolding tagged
  tagged-Damaged [] = done
  tagged-Damaged (b ∷ bs) = intact (tagged-Damaged bs)

  pub tagged-IsSized :
      (size : ℕ) (bs : List Bytes) → All (λ b. length b ≡ size) bs → IsSized size (tagged bs)
  unfolding tagged
  tagged-IsSized size [] h = tt
  tagged-IsSized size (b ∷ bs) h = (h.0, length-shard_tag p v b, tagged-IsSized size bs h.1)

  pub image-tagged : (bs : List Bytes) → image (tagged bs) ≡ concat (map (slot p) bs)
  unfolding tagged slot
  image-tagged [] = refl
  image-tagged (b ∷ bs) = ap (λ (r : Bytes). (b ++ shard_tag p b) ++ r) (image-tagged bs)

pub replicate-All :
    (n size : ℕ) (b : Bytes) → length b ≡ size → All (λ x. length x ≡ size) (replicate n b)
unfolding replicate
replicate-All zero size b h = tt
replicate-All (suc n) size b h = (h, replicate-All n size b h)

module _ (p : Primitives) (c : Coding) (d : Device) (v : IsCrypto p) (f : IsFile d)
    (s : StrongSink p c d) (en : IsEncoder c k_strong m_strong s.strong) (nonce : Bytes)
    (e : length nonce ≡ 12) (small : length s.buf < 2 ^ 63) where
  abbrev shards : List Bytes
  shards = codeword p c d v s.strong en s.aead nonce s.buf e small

  encoded : encode_shards p c d s nonce ≡ ok shards
  unfolding encode_shards codeword data_part
  encoded =
      let size = strong_shard_size (length s.buf) in
      let zero_shard : length (zeros size) ≡ size =
        unfold zeros in length-replicate {A = ℕ} size 0 in
      let made =
        en.encode_lem size (data_part p c d v s.aead nonce s.buf e small)
          (replicate m_strong (zeros size))
          (strong_shard_size_pos (length s.buf), inl (omega arith))
          (length-data_part p c d v s.aead nonce s.buf e small)
          (length-replicate m_strong (zeros size))
          (data_part-All p c d v s.aead nonce s.buf e small)
          (replicate-All m_strong size (zeros size) zero_shard) in
      rw made refl

  body : Bytes
  body = concat (map (slot p) shards)

  drained : drain p c d s (ok nonce) ≡ ((seek_write d s.dst 0 body).0, ok (length s.buf))
  unfolding drain body
  drained = rw (encoded, (seek_write_lem d f s.dst 0 body).0) refl

  contents_after :
      d.contents (drain p c d s (ok nonce)).0
      ≡ image (tagged p v shards) ++ drop (0 + length body) (d.contents s.dst)
  unfolding body
  contents_after = rw drained (
      rw (image-tagged p v shards) ((seek_write_lem d f s.dst 0 body).1 ∙ unfold overwrite in refl))

  -- In an empty file, the 96 slots and nothing else.
  pub drain_empty :
      d.contents s.dst ≡ [] → d.contents (drain p c d s (ok nonce)).0 ≡ image (tagged p v shards)
  drain_empty e =
      contents_after
      ∙ ap (λ (b : Bytes). image (tagged p v shards) ++ drop (0 + length body) b) e
      ∙ ap (λ (b : Bytes). image (tagged p v shards) ++ b) (drop-nil (0 + length body))
      ∙ append-nil (image (tagged p v shards))

  -- On a file that does not fail, Drain of the rs-strong sink succeeds with the plain size, and
  -- LoadStrong then returns the plaintext that was written to the sink.
  pub load_strong-drain :
      ((drain p c d s (ok nonce)).1 ≡ ok (length s.buf))
      × (load_strong p c d (drain p c d s (ok nonce)).0 s.aead s.strong (length s.buf) ≡ ok s.buf)
  load_strong-drain = (
    ap (λ (r : d.Disk × Result ℕ). r.1) drained,
    load_strong-damaged p c d v s.strong en s.aead nonce s.buf e small (tagged p v shards) 0
        (tagged-Damaged p v shards)
        (tagged-IsSized p v _ shards (codeword-All p c d v s.strong en s.aead nonce s.buf e small))
        f (drain p c d s (ok nonce)).0 _ contents_after,
  )
