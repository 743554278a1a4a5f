-- ===== src/Engine/Pipeline/Groups/Columns.antt =====
-- A window of a chunk, as the shards at its columns one after another.
use secvault.Prelude.{
  ℕ, zero, suc, ◌+◌, ◌-◌, ◌*◌, ◌≤◌, ◌≡◌, refl, ap, ◌∙◌, arith, Bytes, length, concat, take, drop,
  drop-nil, drop-drop, drop-past, map, All, All-take, All-drop, ltb, false, if_cases, List, [], ◌∷◌,
  ◌++◌,
}
use secvault.Layout.{data_shards, shard_size}
use secvault.Codec.{slice_window}
use secvault.Device.Writes.{take-past}
use secvault.Engine.Pipeline.Groups.{window}
use secvault.Engine.Pipeline.Groups.Windows.{IsShards, data_window_fits}
use secvault.Engine.Pipeline.Groups.Writes.{windows}

-- The 32 shards from the column j on.
abbrev pub columns : ℕ → List Bytes → Bytes
columns j shards = concat (take 32 (drop j shards))

abbrev AllSized : List Bytes → Type 0
AllSized xs = All (λ b. length b ≡ shard_size) xs

take-nil : (n : ℕ) → take {A = ℕ} n [] ≡ []
take-nil zero = refl
take-nil (suc n) = refl

ltb-false : (a b : ℕ) → ltb a b ≡ false → b ≤ a
ltb-false a b e = ground arith

drop-concat :
    (j : ℕ) (xs : List Bytes) → AllSized xs → drop (j * shard_size) (concat xs) ≡ concat (drop j xs)
drop-concat zero xs h = refl
drop-concat (suc j) [] h = drop-nil (suc j * shard_size)
drop-concat (suc j) (x ∷ xs) h =
    let e : suc j * shard_size ≡ shard_size + j * shard_size = omega arith in
    ap (λ n. drop n (x ++ concat xs)) e
    ∙ drop-past shard_size (j * shard_size) x (concat xs) h.0
    ∙ drop-concat j xs h.1

take-concat :
    (n : ℕ) (xs : List Bytes) → AllSized xs → take (n * shard_size) (concat xs) ≡ concat (take n xs)
take-concat zero xs h = refl
take-concat (suc n) [] h = take-nil (suc n * shard_size)
take-concat (suc n) (x ∷ xs) h =
    let e : suc n * shard_size ≡ shard_size + n * shard_size = omega arith in
    ap (λ m. take m (x ++ concat xs)) e
    ∙ take-past shard_size (n * shard_size) x (concat xs) h.0
    ∙ ap (λ r. x ++ r) (take-concat n xs h.1)

take-drop-take :
    (n j m : ℕ) (xs : List Bytes) → j + n ≤ m → take n (drop j (take m xs)) ≡ take n (drop j xs)
take-drop-take zero j m xs h = refl
take-drop-take (suc n) zero zero xs h = absurd (omega (arith, h))
take-drop-take (suc n) zero (suc m) [] h = refl
take-drop-take (suc n) zero (suc m) (x ∷ xs) h =
    ap (◌∷◌ x) (take-drop-take n zero m xs (omega (arith, h)))
take-drop-take (suc n) (suc j) zero xs h = absurd (omega (arith, h))
take-drop-take (suc n) (suc j) (suc m) [] h = refl
take-drop-take (suc n) (suc j) (suc m) (x ∷ xs) h = take-drop-take (suc n) j m xs (omega (arith, h))

slice_window-columns :
    (j : ℕ) (part : List Bytes) → AllSized part → slice_window (concat part) j 32 ≡ columns j part
unfolding slice_window
slice_window-columns j part h =
    let e : (j * shard_size + 32 * shard_size) - j * shard_size ≡ 32 * shard_size = omega arith in
    ap (λ n. take n (drop (j * shard_size) (concat part))) e
    ∙ ap (take (32 * shard_size)) (drop-concat j part h)
    ∙ take-concat 32 (drop j part) (All-drop (λ b. length b ≡ shard_size) j part h)

-- A window that starts at a multiple of 32, in the data shards or in the parity shards.
pub window-columns :
    (shards : List Bytes) (w : ℕ)
    → IsShards shards
    → window shards (w * 32) 32 ≡ columns (w * 32) shards
unfolding window
window-columns shards w h =
    let j = w * 32 in
    if_cases (λ (b : Bytes). b ≡ columns j shards) (ltb j data_shards)
      (λ below.
        slice_window-columns j (take data_shards shards)
          (All-take (λ b. length b ≡ shard_size) data_shards shards h.1)
        ∙ ap concat (take-drop-take 32 j data_shards shards (data_window_fits w below)))
      (λ above.
        let past : data_shards + (j - data_shards) ≡ j =
          omega (arith, ltb-false j data_shards above) in
        slice_window-columns (j - data_shards) (drop data_shards shards)
          (All-drop (λ b. length b ≡ shard_size) data_shards shards h.1)
        ∙ ap (λ (r : List Bytes). concat (take 32 r))
            (drop-drop data_shards (j - data_shards) shards)
        ∙ ap (λ n. columns n shards) past)

pub windows-columns :
    (group : List (List Bytes)) (w : ℕ)
    → All IsShards group
    → windows (w * 32) group ≡ map (columns (w * 32)) group
windows-columns [] w h = refl
windows-columns (shards ∷ group) w h =
    ap (λ b. b ∷ windows (w * 32) group) (window-columns shards w h.0)
    ∙ ap (λ r. columns (w * 32) shards ∷ r) (windows-columns group w h.1)
