-- ===== src/Examples/Damage.antt =====
-- Slots of which the first has a wrong tag.
use secvault.Prelude.{
  ℕ, ◌<◌, ◌≡◌, refl, arith, List, [], ◌∷◌, Bytes, length, All, replicate, false, bytes_equal,
}
use secvault.Crypto.{verify_tag, shard_tag}
use secvault.Engine.Strong.Damage.{Slots, IsSized, Damaged, hit}
use secvault.Engine.Strong.Written.{tagged, tagged-Damaged, tagged-IsSized}
use secvault.Examples.Parameters.{primitives, primitives-IsCrypto}

abbrev pub wrong_tag : Bytes
wrong_tag = 1 ∷ replicate 15 0

-- The first slot has a wrong tag.
abbrev pub hurt : List Bytes → Slots
hurt [] = []
hurt (b ∷ bs) = (b, wrong_tag) ∷ tagged primitives primitives-IsCrypto bs

wrong_tag-fails : (b : Bytes) → verify_tag primitives b wrong_tag ≡ false
unfolding verify_tag shard_tag bytes_equal replicate
wrong_tag-fails b = refl

pub hurt-Damaged : (bs : List Bytes) → 0 < length bs → Damaged primitives bs (hurt bs) 1
hurt-Damaged [] h = absurd (omega arith)
hurt-Damaged (b ∷ bs) h = hit (wrong_tag-fails b) (tagged-Damaged primitives primitives-IsCrypto bs)

pub hurt-IsSized :
    (size : ℕ) (bs : List Bytes) → All (λ b. length b ≡ size) bs → IsSized size (hurt bs)
unfolding replicate
hurt-IsSized size [] h = tt
hurt-IsSized size (b ∷ bs) h =
    (h.0, refl, tagged-IsSized primitives primitives-IsCrypto size bs h.1)
