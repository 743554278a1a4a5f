-- ===== src/Layout/Small.antt =====
-- The sizes of the gcm-only and rs-strong payloads.
use secvault.Prelude.{ℕ, ◌+◌, ◌*◌, ◌≤◌, ◌<◌, arith}
use secvault.Layout.{header_size, tag_size, k_strong, strong_shard_size}

-- The 32 data shards hold the header, the ciphertext and its tag, and the shard size is the least
-- with this property.
pub strong_shard_size_least :
    (plain_size size : ℕ)
    → (header_size + plain_size + tag_size ≤ k_strong * strong_shard_size plain_size)
      × (header_size + plain_size + tag_size ≤ k_strong * size
          → strong_shard_size plain_size ≤ size)
unfolding strong_shard_size
strong_shard_size_least plain_size size = omega arith

-- A shard is never empty.
pub strong_shard_size_pos : (plain_size : ℕ) → 0 < strong_shard_size plain_size
unfolding strong_shard_size
strong_shard_size_pos plain_size = omega arith
