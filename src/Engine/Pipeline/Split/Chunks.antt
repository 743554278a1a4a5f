-- ===== src/Engine/Pipeline/Split/Chunks.antt =====
-- The chunks that the producer sends, against a splitting of the whole plaintext.
use secvault.Prelude.{
  ℕ, zero, suc, ◌+◌, ◌≤◌, ◌<◌, ◌≡◌, refl, ap, sym, ◌∙◌, subst, arith, Bytes, length, take, drop,
  concat, concat-append, All-append, pieces, last_piece, pieces-concat, if_cases, ==_iff,
  take-append-drop, length-append, length-take, length-drop, append_assoc, append-nil, All, ltb,
  ◌==◌, Option, none, some, List, [], ◌∷◌, ◌++◌,
}
use secvault.Layout.{chunk_plain_size}
use secvault.Engine.Pipeline.Split.{
  Job, Producer, fresh_producer, enqueue_chunk, buffered, round_size, write_round, write_loop,
  write, flush_buf, flush, write_all,
}

-- The chunks numbered from k on.
unfoldable pub numbered : ℕ → List Bytes → List Job
numbered k [] = []
numbered k (plain ∷ plains) = record { idx = k; plain = plain } ∷ numbered (suc k) plains

numbered-append :
    (k : ℕ) (xs ys : List Bytes)
    → numbered k (xs ++ ys) ≡ numbered k xs ++ numbered (k + length xs) ys
unfolding numbered
numbered-append k [] ys = ap (λ n. numbered n ys) (omega arith)
numbered-append k (x ∷ xs) ys =
    ap (◌∷◌ (record { idx = k; plain = x }))
      (numbered-append (suc k) xs ys ∙ ap (λ n. numbered (suc k) xs ++ numbered n ys) (omega arith))

from_zero : (n : ℕ) → 0 + n ≡ n
from_zero n = omega arith

-- Full chunks were sent for `given`, but for what is in the buffer.
record IsSplit (given : Bytes) (s : Producer) : Type 0 where
  fulls : List Bytes
  sent : s.encode_ch ≡ numbered 0 fulls
  count : s.chunk_idx ≡ length fulls
  all_full : All (λ b. length b ≡ chunk_plain_size) fulls
  whole : concat fulls ++ buffered s.chunk_buf ≡ given
  room : length (buffered s.chunk_buf) < chunk_plain_size

-- One chunk more.
enqueue_chunk_sent :
    (given plain : Bytes) (s : Producer) (v : IsSplit given s)
    → ((enqueue_chunk s plain).encode_ch ≡ numbered 0 (v.fulls ++ (plain ∷ [])))
      × ((enqueue_chunk s plain).chunk_idx ≡ length (v.fulls ++ (plain ∷ [])))
unfolding enqueue_chunk numbered
enqueue_chunk_sent given plain s v = (
  ap (λ jobs. jobs ++ (record { idx = s.chunk_idx; plain = plain } ∷ [])) v.sent
      ∙ ap (λ n. numbered 0 v.fulls ++ (record { idx = n; plain = plain } ∷ []))
          (v.count ∙ sym (from_zero (length v.fulls)))
      ∙ sym (numbered-append 0 v.fulls (plain ∷ [])),
  omega (arith, v.count, length-append {0} v.fulls (plain ∷ [])),
)

-- The buffer is full.
full-IsSplit :
    (given more : Bytes) (s : Producer)
    → IsSplit given s
    → length (buffered s.chunk_buf ++ more) ≡ chunk_plain_size
    → IsSplit
        (given ++ more)
        (record (enqueue_chunk s (buffered s.chunk_buf ++ more)) { chunk_buf = none })
unfolding enqueue_chunk numbered
full-IsSplit given more s v e =
    let buf = buffered s.chunk_buf ++ more in
    record {
      fulls = v.fulls ++ (buf ∷ []);
      sent = (enqueue_chunk_sent given buf s v).0;
      count = (enqueue_chunk_sent given buf s v).1;
      all_full =
          All-append (λ b. length b ≡ chunk_plain_size) v.fulls (buf ∷ []) v.all_full (e, tt);
      whole =
          append-nil (concat (v.fulls ++ (buf ∷ [])))
          ∙ concat-append v.fulls (buf ∷ [])
          ∙ ap (λ b. concat v.fulls ++ b) (append-nil buf)
          ∙ sym (append_assoc (concat v.fulls) (buffered s.chunk_buf) more)
          ∙ ap (λ b. b ++ more) v.whole;
      room = omega arith;
    }

-- The buffer is not full.
short-IsSplit :
    (given more : Bytes) (s : Producer)
    → IsSplit given s
    → length (buffered s.chunk_buf ++ more) < chunk_plain_size
    → IsSplit (given ++ more) (record s { chunk_buf = some (buffered s.chunk_buf ++ more) })
short-IsSplit given more s v e = record {
  fulls = v.fulls;
  sent = v.sent;
  count = v.count;
  all_full = v.all_full;
  whole =
      sym (append_assoc (concat v.fulls) (buffered s.chunk_buf) more) ∙ ap (λ b. b ++ more) v.whole;
  room = e;
}

write_round-IsSplit :
    (given b : Bytes) (s : Producer)
    → IsSplit given s
    → IsSplit (given ++ take (round_size s b) b) (write_round s b)
unfolding write_round
write_round-IsSplit given b s v =
    let more = take (round_size s b) b in
    let buf = buffered s.chunk_buf in
    let sum = length-append {0} buf more in
    let taken = length-take {0} (round_size s b) b in
    if_cases (IsSplit (given ++ more)) (length (buf ++ more) == chunk_plain_size)
      (λ full.
        full-IsSplit given more s v ((==_iff (length (buf ++ more)) chunk_plain_size).0 full))
      (λ short. short-IsSplit given more s v (ground (arith, v.room)))

-- The fuel suffices: all bytes are taken.
write_loop-IsSplit :
    (fuel : ℕ) (given b : Bytes) (s : Producer) (written : ℕ)
    → length b ≤ fuel
    → IsSplit given s
    → IsSplit (given ++ b) (write_loop fuel s b written).0
      × ((write_loop fuel s b written).1 ≡ written + length b)
unfolding write_loop
write_loop-IsSplit zero given [] s written h v =
    (subst (λ g. IsSplit g s) (sym (append-nil given)) v, omega arith)
write_loop-IsSplit zero given (x ∷ b) s written h v = absurd (omega arith)
write_loop-IsSplit (suc fuel) given [] s written h v =
    (subst (λ g. IsSplit g s) (sym (append-nil given)) v, omega arith)
write_loop-IsSplit (suc fuel) given (x ∷ b) s written h v =
    let n = round_size s (x ∷ b) in
    let left = length-drop {0} n (x ∷ b) in
    let e : (given ++ take n (x ∷ b)) ++ drop n (x ∷ b) ≡ given ++ (x ∷ b) =
      append_assoc given (take n (x ∷ b)) (drop n (x ∷ b))
      ∙ ap (λ r. given ++ r) (take-append-drop n (x ∷ b)) in
    let step =
      write_loop-IsSplit fuel (given ++ take n (x ∷ b)) (drop n (x ∷ b)) (write_round s (x ∷ b))
        (written + n) (omega (arith, v.room)) (write_round-IsSplit given (x ∷ b) s v) in
    (
      subst
          (λ g.
            IsSplit g (write_loop fuel (write_round s (x ∷ b)) (drop n (x ∷ b)) (written + n)).0)
          e step.0,
      omega (arith, step.1, v.room),
    )

write_all-IsSplit :
    (writes : List Bytes) (given : Bytes) (s : Producer)
    → IsSplit given s
    → IsSplit (given ++ concat writes) (write_all s writes)
unfolding write_all write
write_all-IsSplit [] given s v = subst (λ g. IsSplit g s) (sym (append-nil given)) v
write_all-IsSplit (b ∷ writes) given s v =
    let next = (write none s b).0 in
    let step = (write_loop-IsSplit (length b) given b s 0 (omega arith) v).0 in
    subst (λ g. IsSplit g (write_all next writes)) (append_assoc given b (concat writes))
      (write_all-IsSplit writes (given ++ b) next step)

fresh-IsSplit : IsSplit [] fresh_producer
unfolding numbered
fresh-IsSplit = record {
  fulls = [];
  sent = refl;
  count = refl;
  all_full = tt;
  whole = refl;
  room = omega arith;
}

pieces-whole :
    (given : Bytes) (s : Producer) (v : IsSplit given s)
    → pieces (length given) chunk_plain_size given ≡ v.fulls ++ last_piece (buffered s.chunk_buf)
pieces-whole given s v =
    subst (λ g. pieces (length g) chunk_plain_size g ≡ v.fulls ++ last_piece (buffered s.chunk_buf))
      v.whole
      (pieces-concat _ chunk_plain_size v.fulls (buffered s.chunk_buf) v.all_full v.room
        (omega arith))

abbrev SentPieces : Bytes → Producer → Type 0
SentPieces given s =
    (s.encode_ch ≡ numbered 0 (pieces (length given) chunk_plain_size given))
    × (s.chunk_idx ≡ length (pieces (length given) chunk_plain_size given))

-- Nothing is left in the buffer.
empty-SentPieces :
    (given : Bytes) (s : Producer)
    → IsSplit given s
    → buffered s.chunk_buf ≡ []
    → SentPieces given s
empty-SentPieces given s v e =
    let all : pieces (length given) chunk_plain_size given ≡ v.fulls =
      pieces-whole given s v ∙ ap (λ b. v.fulls ++ last_piece b) e ∙ append-nil v.fulls in
    (v.sent ∙ ap (numbered 0) (sym all), v.count ∙ ap length (sym all))

-- The chunk that is not full, at the end.
flush_buf-SentPieces :
    (given : Bytes) (s : Producer)
    → IsSplit given s
    → (b : Option Bytes) → s.chunk_buf ≡ b
    → SentPieces given (flush_buf s b)
flush_buf-SentPieces given s v none e = empty-SentPieces given s v (ap buffered e)
flush_buf-SentPieces given s v (some []) e = empty-SentPieces given s v (ap buffered e)
flush_buf-SentPieces given s v (some (x ∷ buf)) e =
    let all : pieces (length given) chunk_plain_size given ≡ v.fulls ++ ((x ∷ buf) ∷ []) =
      pieces-whole given s v ∙ ap (λ b. v.fulls ++ last_piece (buffered b)) e in
    let sent = enqueue_chunk_sent given (x ∷ buf) s v in
    if_cases (λ r. SentPieces given (record r { chunk_buf = none })) (ltb 0 (suc (length buf)))
      (λ some_left. (sent.0 ∙ ap (numbered 0) (sym all), sent.1 ∙ ap length (sym all)))
      (λ none_left. absurd (ground arith))

-- Whatever calls of Write a caller makes, Drain leaves on encodeCh the pieces of ChunkPlainSize bytes
-- of all that was written, the last one shorter but not empty, numbered from 0, and chunkIdx is their
-- number.
pub flush-write_all :
    (writes : List Bytes)
    → ((flush (write_all fresh_producer writes)).encode_ch
        ≡ numbered 0 (pieces (length (concat writes)) chunk_plain_size (concat writes)))
      × ((flush (write_all fresh_producer writes)).chunk_idx
          ≡ length (pieces (length (concat writes)) chunk_plain_size (concat writes)))
unfolding flush
flush-write_all writes =
    let s = write_all fresh_producer writes in
    flush_buf-SentPieces (concat writes) s
      (write_all-IsSplit writes [] fresh_producer fresh-IsSplit) s.chunk_buf refl
