-- ===== src/Examples/Parameters.antt =====
-- Primitives, an encoder and a file on which the theorems are run: each keeps what its record of
-- documented behaviour says.
use secvault.Prelude.{
  ℕ, zero, suc, ◌+◌, ◌-◌, ◌≤◌, ◌<◌, ◌≡◌, refl, sym, ap, ◌∙◌, arith, List, [], ◌∷◌, ◌++◌, Bytes,
  zeros, length, get_or, take, drop, concat, chunks, replicate, All, Option, none, some,
  if◌then◌else◌, ◌==◌, ==_iff, bytes_equal, bytes_equal_refl, length-append, length-replicate,
  take-append, drop-append, chunks-concat, append-nil, inl, inr, ◌⊎◌,
}
use secvault.Errors.{ok, err, new}
use secvault.Crypto.{Primitives, IsCrypto}
use secvault.Codec.{Coding, IsEncoder, Erased, none_left, kept, missing}
use secvault.Examples.Numbers.{pack, unpack, unpack-pack}

-- A digest and a mac that tell lengths and first bytes.
abbrev pub digest : Bytes → Bytes
digest b = 0 ∷ length b ∷ get_or b 0 0 ∷ replicate 29 0

abbrev mac : Bytes → Bytes → Bytes → Bytes → Bytes
mac key nonce plain aad = length key ∷ length nonce ∷ length plain ∷ length aad ∷ replicate 12 0

abbrev pub primitives : Primitives
primitives = record {
  Aead = Bytes;
  new_aead = λ key. if length key == 32 then ok key else err (new "bad key size");
  seal = λ key nonce plain aad. plain ++ mac key nonce plain aad;
  unseal = λ key nonce ct aad.
      let plain = take (length ct - 16) ct in
      if bytes_equal (drop (length ct - 16) ct) (mac key nonce plain aad) then some plain else none;
  sha256 = digest;
  hkdf = λ secret salt info n. replicate n (length secret);
}

pub primitives-IsCrypto : IsCrypto primitives
unfolding replicate
primitives-IsCrypto = record {
  new_aead-ok = λ key e. (key, rw ((==_iff (length key) 32).1 e) refl);
  length-seal = λ a nonce plain aad. length-append plain (mac a nonce plain aad);
  unseal-seal = λ a nonce plain aad e.
      let m = mac a nonce plain aad in
      let cut : length (plain ++ m) - 16 ≡ length plain =
        omega (arith, length-append {0} plain m) in
      rw
        (
          cut,
          take-append (length plain) plain m refl,
          drop-append (length plain) plain m refl,
          bytes_equal_refl m,
        )
        refl;
  length-sha256 = λ b. refl;
  length-hkdf = λ secret salt info n. length-replicate n (length secret);
}

-- A parity shard tells all data shards in its first element.
abbrev parity_shard : List Bytes → Bytes
parity_shard shards = pack (concat shards) ∷ zeros (length (get_or shards 0 []) - 1)

abbrev parity_of : ℕ → List Bytes → List Bytes
parity_of m shards = replicate m (parity_shard shards)

pub first_kept : List Bytes → Option Bytes
first_kept [] = none
first_kept ([] ∷ bs) = first_kept bs
first_kept ((x ∷ b) ∷ bs) = some (x ∷ b)

pub rebuild : ℕ → ℕ → List Bytes → Option Bytes → List Bytes
rebuild k m views none = take k views ++ parity_of m (take k views)
rebuild k m views (some b) =
    let shards = chunks k (length b) (unpack (get_or b 0 0)) in shards ++ parity_of m shards

abbrev pub coding : Coding
coding = record {
  Encoder = ℕ × ℕ;
  new_encoder = λ k m. ok (k, m);
  encode = λ (k, m) shards. ok (take k shards ++ parity_of m (take k shards));
  reconstruct = λ (k, m) views. ok (rebuild k m views (first_kept (drop k views)));
}

-- The views of two lists of shards.
data Split (xs ys views : List Bytes) (n : ℕ) : Type 0 where
  split_at :
      (vs ws : List Bytes) (i j : ℕ)
      → views ≡ vs ++ ws
      → i + j ≡ n
      → Erased xs vs i
      → Erased ys ws j
      → Split xs ys views n

Split-Erased : (xs ys views : List Bytes) (n : ℕ) → Erased (xs ++ ys) views n → Split xs ys views n
Split-Erased [] ys views n h = split_at [] views 0 n refl (omega arith) none_left h
Split-Erased (x ∷ xs) ys views n (kept {cs} h) = elim (Split-Erased xs ys cs n h) [
  | split_at vs ws i j e sum hv hw ↦ split_at (x ∷ vs) ws i j (ap (◌∷◌ x) e) sum (kept hv) hw
]
Split-Erased (x ∷ xs) ys views (suc n) (missing {cs} h) = elim (Split-Erased xs ys cs n h) [
  | split_at vs ws i j e sum hv hw ↦
      split_at ([] ∷ vs) ws (suc i) j (ap (◌∷◌ []) e) (omega arith) (missing hv) hw
]

length-Erased : {xs vs : List Bytes} {n : ℕ} → Erased xs vs n → length vs ≡ length xs
length-Erased none_left = refl
length-Erased (kept h) = ap suc (length-Erased h)
length-Erased (missing h) = ap suc (length-Erased h)

none-Erased : {xs vs : List Bytes} {n : ℕ} → Erased xs vs n → n ≡ 0 → vs ≡ xs
none-Erased none_left e = refl
none-Erased (kept {b} h) e = ap (◌∷◌ b) (none-Erased h e)
none-Erased (missing h) e = absurd (omega arith)

-- Either some parity shard is left, or all are missing.
first_kept-Erased :
    (m x : ℕ) (b : Bytes) (ws : List Bytes) (j : ℕ)
    → Erased (replicate m (x ∷ b)) ws j
    → (first_kept ws ≡ some (x ∷ b)) ⊎ ((first_kept ws ≡ none) × (j ≡ m))
unfolding first_kept replicate
first_kept-Erased zero x b ws j none_left = inr (refl, refl)
first_kept-Erased (suc m) x b ws j (kept h) = inl refl
first_kept-Erased (suc m) x b ws (suc j) (missing {cs} h) = elim (first_kept-Erased m x b cs j h) [
  | inl found ↦ inl found
  | inr lost ↦ inr (lost.0, ap suc lost.1)
]

length-first :
    (k size : ℕ) (shards : List Bytes)
    → 0 < k
    → length shards ≡ k
    → All (λ b. length b ≡ size) shards
    → length (get_or shards 0 []) ≡ size
length-first k size [] pos e h = absurd (omega arith)
length-first k size (b ∷ shards) pos e h = h.0

module _ (k m size : ℕ) (shards : List Bytes) (pos_k : 0 < k) (pos : 0 < size)
    (e : length shards ≡ k) (h : All (λ b. length b ≡ size) shards) where
  length-parity_shard : length (parity_shard shards) ≡ size
  unfolding zeros
  length-parity_shard =
      let first = length-first k size shards pos_k e h in
      omega (arith, length-replicate {A = ℕ} (length (get_or shards 0 []) - 1) 0, first)

  -- The shards come back from one parity shard.
  rebuild-some :
      (views : List Bytes)
      → rebuild k m views (some (parity_shard shards)) ≡ shards ++ parity_of m shards
  unfolding rebuild
  rebuild-some views =
      let back : chunks k (length (parity_shard shards)) (unpack (pack (concat shards))) ≡ shards =
        ap (λ (n : ℕ). chunks k n (unpack (pack (concat shards)))) length-parity_shard
        ∙ ap (chunks k size) (unpack-pack (concat shards))
        ∙ ap (λ (b : Bytes). chunks k size b) (sym (append-nil (concat shards)))
        ∙ ap (λ (n : ℕ). chunks n size (concat shards ++ [])) (sym e)
        ∙ chunks-concat size shards [] h in
      ap (λ (s : List Bytes). s ++ parity_of m s) back

  pub reconstructed :
      (views : List Bytes) (n : ℕ)
      → Erased (shards ++ parity_of m shards) views n
      → n ≤ m
      → rebuild k m views (first_kept (drop k views)) ≡ shards ++ parity_of m shards
  reconstructed views n erased few =
      elim (Split-Erased shards (parity_of m shards) views n erased) [
        | split_at vs ws i j eq sum hv hw ↦
            let long : length vs ≡ k = length-Erased hv ∙ e in
            let back = drop-append k vs ws long in
            elim (first_kept-Erased m (pack (concat shards))
              (zeros (length (get_or shards 0 []) - 1)) ws j hw) [
                | inl found ↦ rw (eq, back, found) (rebuild-some (vs ++ ws))
                | inr lost ↦
                    let same : take k (vs ++ ws) ≡ shards =
                      take-append k vs ws long ∙ none-Erased hv (omega (arith, lost.1)) in
                    rw (eq, back, lost.0)
                      (unfold rebuild in ap (λ (s : List Bytes). s ++ parity_of m s) same)
              ]
      ]

replicate-All :
    (n size : ℕ) (b : Bytes) → length b ≡ size → All (λ x. length x ≡ size) (replicate n b)
unfolding replicate
replicate-All zero size b h = tt
replicate-All (suc n) size b h = (h, replicate-All n size b h)

pub coding-IsEncoder : (k m : ℕ) → 0 < k → IsEncoder coding k m (k, m)
coding-IsEncoder k m pos_k = record {
  parity = parity_of m;
  length-parity = λ shards. length-replicate m (parity_shard shards);
  parity_size = λ size shards fits e h.
      replicate-All m size (parity_shard shards)
        (length-parity_shard k m size shards pos_k fits.0 e h);
  encode_lem = λ size shards out fits e eo h ho.
      ap (λ (s : List Bytes). ok (s ++ parity_of m s)) (take-append k shards out e);
  reconstruct_lem = λ size shards views n fits e h erased few.
      ap ok (reconstructed k m size shards pos_k fits.0 e h views n erased few);
}
