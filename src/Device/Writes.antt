-- ===== src/Device/Writes.antt =====
-- Several writes to a file one after another, and the bytes that stand in it in the end.
use secvault.Prelude.{
  ℕ, zero, suc, ◌+◌, ◌-◌, ◌≤◌, ◌≡◌, ◌⊎◌, inl, inr, refl, ap, ◌∙◌, sym, subst, arith, Bytes, zeros,
  length, replicate, length-replicate, take, drop, length-drop, length-append, length-take,
  append_assoc, All, List, [], ◌∷◌, ◌++◌,
}
use secvault.Device.{overwrite}

-- The bytes `src` stand in the file at the offset.
pub record Holds (b : Bytes) (off : ℕ) (src : Bytes) : Type 0 where
  pub front : Bytes
  pub back : Bytes
  pub whole : b ≡ front ++ (src ++ back)
  pub place : length front ≡ off

-- A write is an offset and the bytes that go there.
abbrev pub Write : Type 0
Write = ℕ × Bytes

abbrev pub HoldsWrite : Bytes → Write → Type 0
HoldsWrite b w = Holds b w.0 w.1

unfoldable pub put_all : Bytes → List Write → Bytes
put_all b [] = b
put_all b (w ∷ ws) = put_all (overwrite b w.0 w.1) ws

pub put_all-append :
    (b : Bytes) (ws vs : List Write) → put_all b (ws ++ vs) ≡ put_all (put_all b ws) vs
unfolding put_all
put_all-append b [] vs = refl
put_all-append b (w ∷ ws) vs = put_all-append (overwrite b w.0 w.1) ws vs

pub take-past :
    (n m : ℕ) (xs ys : Bytes) → length xs ≡ n → take (n + m) (xs ++ ys) ≡ xs ++ take m ys
take-past zero m [] ys e = ap (λ k. take k ys) (omega arith)
take-past zero m (x ∷ xs) ys e = absurd (omega arith)
take-past (suc n) m [] ys e = absurd (omega arith)
take-past (suc n) m (x ∷ xs) ys e =
    let s : suc n + m ≡ suc (n + m) = omega arith in
    ap (λ k. take k ((x ∷ xs) ++ ys)) s ∙ ap (◌∷◌ x) (take-past n m xs ys (omega arith))

drop-inside : (n : ℕ) (xs ys : Bytes) → n ≤ length xs → drop n (xs ++ ys) ≡ drop n xs ++ ys
drop-inside zero xs ys h = refl
drop-inside (suc n) [] ys h = absurd (omega arith)
drop-inside (suc n) (x ∷ xs) ys h = drop-inside n xs ys (omega arith)

length-gap : (b : Bytes) (off : ℕ) → off ≤ length (b ++ zeros (off - length b))
unfolding zeros
length-gap b off = omega (
  arith,
  length-append {0} b (replicate (off - length b) 0),
  length-replicate {A = ℕ} (off - length b) 0,
)

-- What was written stands there.
pub overwrite-Holds : (b : Bytes) (off : ℕ) (src : Bytes) → Holds (overwrite b off src) off src
unfolding overwrite
overwrite-Holds b off src = record {
  front = take off (b ++ zeros (off - length b));
  back = drop (off + length src) b;
  whole = refl;
  place = omega (arith, length-take off (b ++ zeros (off - length b)), length-gap b off);
}

-- Two writes that share no byte.
abbrev pub Away : Write → Write → Type 0
Away w x = (w.0 + length w.1 ≤ x.0) ⊎ (x.0 + length x.1 ≤ w.0)

overwrite-before :
    (front mid back src : Bytes) (off : ℕ)
    → length front + length mid ≤ off
    → Holds (overwrite (front ++ (mid ++ back)) off src) (length front) mid
unfolding overwrite
overwrite-before front mid back src off h =
    let b = front ++ (mid ++ back) in
    let gap = zeros (off - length b) in
    let rest = src ++ drop (off + length src) b in
    let n = off - length front in
    let m = n - length mid in
    let en : off ≡ length front + n = omega arith in
    let em : n ≡ length mid + m = omega arith in
    let cut : take off (b ++ gap) ≡ front ++ (mid ++ take m (back ++ gap)) =
      ap (take off) (append_assoc front (mid ++ back) gap)
      ∙ ap (λ k. take k (front ++ ((mid ++ back) ++ gap))) en
      ∙ take-past (length front) n front ((mid ++ back) ++ gap) refl
      ∙ ap (λ r. front ++ r)
          (ap (take n) (append_assoc mid back gap)
            ∙ ap (λ k. take k (mid ++ (back ++ gap))) em
            ∙ take-past (length mid) m mid (back ++ gap) refl) in
    record {
      front = front;
      back = take m (back ++ gap) ++ rest;
      whole =
          ap (λ r. r ++ rest) cut
          ∙ append_assoc front (mid ++ take m (back ++ gap)) rest
          ∙ ap (λ r. front ++ r) (append_assoc mid (take m (back ++ gap)) rest);
      place = refl;
    }

overwrite-after :
    (front mid back src : Bytes) (off : ℕ)
    → off + length src ≤ length front
    → Holds (overwrite (front ++ (mid ++ back)) off src) (length front) mid
unfolding overwrite
overwrite-after front mid back src off h =
    let b = front ++ (mid ++ back) in
    let head = take off (b ++ zeros (off - length b)) in
    let tail = drop (off + length src) front in
    let e = drop-inside (off + length src) front (mid ++ back) h in
    record {
      front = head ++ (src ++ tail);
      back = back;
      whole =
          ap (λ r. head ++ (src ++ r)) e
          ∙ ap (λ r. head ++ r) (sym (append_assoc src tail (mid ++ back)))
          ∙ sym (append_assoc head (src ++ tail) (mid ++ back));
      place = omega (
        arith,
        length-append {0} head (src ++ tail),
        length-append {0} src tail,
        length-take off (b ++ zeros (off - length b)),
        length-gap b off,
        length-drop (off + length src) front,
      );
    }

-- A write elsewhere leaves it.
pub overwrite-Away :
    (b : Bytes) (w x : Write) → HoldsWrite b w → Away w x → HoldsWrite (overwrite b x.0 x.1) w
overwrite-Away b (off, mid) (at, src) h away =
    let moved : Holds (overwrite (h.front ++ (mid ++ h.back)) at src) (length h.front) mid =
      elim away [
        | inl before ↦ overwrite-before h.front mid h.back src at (omega (arith, before, h.place))
        | inr after ↦ overwrite-after h.front mid h.back src at (omega (arith, after, h.place))
      ] in
    subst (λ n. Holds (overwrite b at src) n mid) h.place
      (subst (λ r. Holds (overwrite r at src) (length h.front) mid) (sym h.whole) moved)

-- Writes that are the same one, or share no byte.
abbrev pub Agree : Write → Write → Type 0
Agree w x = (w ≡ x) ⊎ Away w x

overwrite-HoldsWrite :
    (b : Bytes) (w x : Write) → HoldsWrite b w → Agree w x → HoldsWrite (overwrite b x.0 x.1) w
overwrite-HoldsWrite b w x h (inl same) =
    subst (λ y. HoldsWrite (overwrite b x.0 x.1) y) (sym same) (overwrite-Holds b x.0 x.1)
overwrite-HoldsWrite b w x h (inr away) = overwrite-Away b w x h away

pub put_all-HoldsWrite :
    (ws : List Write) (b : Bytes) (w : Write)
    → HoldsWrite b w
    → All (Agree w) ws
    → HoldsWrite (put_all b ws) w
unfolding put_all
put_all-HoldsWrite [] b w h every = h
put_all-HoldsWrite (x ∷ ws) b w h every =
    put_all-HoldsWrite ws (overwrite b x.0 x.1) w (overwrite-HoldsWrite b w x h every.0) every.1

every_pair :
    (P : Write → Type 0) (w : Write) (ws : List Write)
    → ((x : Write) → P x → Agree w x)
    → All P ws
    → All (Agree w) ws
every_pair P w [] agree every = tt
every_pair P w (x ∷ ws) agree every = (agree x every.0, every_pair P w ws agree every.1)

-- All of the writes of one kind stand in the file, if no two of the kind collide.
pub put_all-All :
    (P : Write → Type 0)
    → ((w x : Write) → P w → P x → Agree w x)
    → (ws : List Write) (b : Bytes) → All P ws
    → All (HoldsWrite (put_all b ws)) ws
unfolding put_all
put_all-All P agree [] b every = tt
put_all-All P agree (w ∷ ws) b every = (
  put_all-HoldsWrite ws (overwrite b w.0 w.1) w (overwrite-Holds b w.0 w.1)
      (every_pair P w ws (λ x. agree w x every.0) every.1),
  put_all-All P agree ws (overwrite b w.0 w.1) every.1,
)
