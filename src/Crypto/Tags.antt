-- ===== src/Crypto/Tags.antt =====
-- ShardTag and VerifyTag of internal/crypto/crypto.go.
use secvault.Prelude.{
  ◌≡◌, sym, arith, Bytes, length, length-take, bytes_equal_refl, bytes_equal→eq, true, ◌↔◌,
}
use secvault.Crypto.{Primitives, IsCrypto, shard_tag, verify_tag}

module _ (p : Primitives) (v : IsCrypto p) where
  pub length-shard_tag : (payload : Bytes) → length (shard_tag p payload) ≡ 16
  unfolding shard_tag
  length-shard_tag payload =
      omega (arith, length-take 16 (p.sha256 payload), v.length-sha256 payload)

  -- VerifyTag accepts exactly the tag that ShardTag computes.
  pub verify_tag_iff :
      (payload tag : Bytes) → (verify_tag p payload tag ≡ true) ↔ (tag ≡ shard_tag p payload)
  unfolding verify_tag
  verify_tag_iff payload tag = (
    λ h. sym (bytes_equal→eq (shard_tag p payload) tag (ground arith)),
    λ e. rw (e, length-shard_tag payload) (bytes_equal_refl (shard_tag p payload)),
  )
