-- ===== src/Crypto.antt =====
-- internal/crypto/crypto.go: key derivation, AES-256-GCM, the shard tags. The primitives of the
-- standard library and of golang.org/x/crypto are a parameter, with what their documentation says.
pub mod Tags
use secvault.Prelude.{
  ℕ, ◌+◌, ◌<◌, List, [], ◌∷◌, Bytes, length, take, bytes_equal, Option, none, some, Bool, true,
  false, ◌≡◌, ◌==◌, String, if◌then◌else◌, All, IsByte,
}
use secvault.Errors.{Result, ok, err}

pub record Primitives : Type 1 where
  -- cipher.AEAD
  pub Aead : Type 0
  -- aes.NewCipher and cipher.NewGCM
  pub new_aead : Bytes → Result Aead
  -- aead.Seal(nil, nonce, plaintext, additionalData)
  pub seal : Aead → Bytes → Bytes → Bytes → Bytes
  -- aead.Open(nil, nonce, ciphertext, additionalData)
  pub unseal : Aead → Bytes → Bytes → Bytes → Option Bytes
  -- sha256.Sum256
  pub sha256 : Bytes → Bytes
  -- the first bytes of the reader hkdf.New(sha256.New, secret, salt, info)
  pub hkdf : Bytes → Bytes → String → ℕ → Bytes

-- The documented behaviour of the primitives.
pub record IsCrypto (p : Primitives) : Type 0 where
  pub new_aead-ok : (key : Bytes) → length key ≡ 32 → (a : p.Aead) × (p.new_aead key ≡ ok a)
  pub length-seal :
      (a : p.Aead) (nonce plain aad : Bytes) → length (p.seal a nonce plain aad) ≡ length plain + 16
  pub unseal-seal :
      (a : p.Aead) (nonce plain aad : Bytes)
      → length nonce ≡ 12
      → p.unseal a nonce (p.seal a nonce plain aad) aad ≡ some plain
  pub length-sha256 : (b : Bytes) → length (p.sha256 b) ≡ 32
  pub length-hkdf :
      (secret salt : Bytes) (info : String) (n : ℕ) → length (p.hkdf secret salt info n) ≡ n

module _ (p : Primitives) where
  open p use {Aead, new_aead, sha256, hkdf}

  -- The read of 32 bytes from HKDF cannot fail, and the panic on its failure is not reached.
  unfoldable pub derive_key : Bytes → Bytes → String → Bytes
  derive_key master file_id info = hkdf master file_id info 32

  unfoldable pub new_gcm : Bytes → Result Aead
  new_gcm key = new_aead key

  unfoldable pub shard_tag : Bytes → Bytes
  shard_tag payload = take 16 (sha256 payload)

  -- The comparison in constant time answers as bytes.Equal does on slices of one length.
  unfoldable pub verify_tag : Bytes → Bytes → Bool
  unfolding shard_tag
  verify_tag payload tag = if length tag == 16 then bytes_equal (shard_tag payload) tag else false
