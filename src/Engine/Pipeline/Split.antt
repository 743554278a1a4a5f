-- ===== src/Engine/Pipeline/Split.antt =====
-- internal/engine/pipeline.go, the side of the producer: Write cuts the plaintext into chunks, and
-- Drain enqueues what is left. encodeCh is the list of what was sent to it.
pub mod Chunks
use secvault.Prelude.{
  ℕ, zero, suc, ◌+◌, ◌-◌, min, Bytes, length, take, drop, ltb, ◌==◌, if◌then◌else◌, Option, none,
  some, List, [], ◌∷◌, ◌++◌,
}
use secvault.Errors.{Error}
use secvault.Layout.{chunk_plain_size}

pub record Job : Type 0 where
  pub idx : ℕ
  pub plain : Bytes

-- chunkIdx, chunkBuf (`none` for nil) and encodeCh.
pub record Producer : Type 0 where
  pub chunk_idx : ℕ
  pub chunk_buf : Option Bytes
  pub encode_ch : List Job

abbrev pub fresh_producer : Producer
fresh_producer = record { chunk_idx = 0; chunk_buf = none; encode_ch = [] }

unfoldable pub enqueue_chunk : Producer → Bytes → Producer
enqueue_chunk s plain = record s {
  encode_ch = s.encode_ch ++ (record { idx = s.chunk_idx; plain = plain } ∷ []);
  chunk_idx = s.chunk_idx + 1;
}

abbrev pub buffered : Option Bytes → Bytes
buffered none = []
buffered (some buf) = buf

-- The bytes that one round of the loop takes.
abbrev pub round_size : Producer → Bytes → ℕ
round_size s b = min (chunk_plain_size - length (buffered s.chunk_buf)) (length b)

unfoldable pub write_round : Producer → Bytes → Producer
unfolding enqueue_chunk
write_round s b =
    let buf = buffered s.chunk_buf ++ take (round_size s b) b in
    if length buf == chunk_plain_size
    then record (enqueue_chunk s buf) { chunk_buf = none }
    else record s { chunk_buf = some buf }

-- The loop while len(b) > 0; each round takes one byte at least.
unfoldable pub write_loop : ℕ → Producer → Bytes → ℕ → Producer × ℕ
unfolding write_round
write_loop zero s b written = (s, written)
write_loop (suc fuel) s [] written = (s, written)
write_loop (suc fuel) s (x ∷ b) written =
    let n = round_size s (x ∷ b) in
    write_loop fuel (write_round s (x ∷ b)) (drop n (x ∷ b)) (written + n)

-- (*Pipeline).Write; the first argument is what errLoad returns.
unfoldable pub write : Option Error → Producer → Bytes → Producer × ℕ × Option Error
unfolding write_loop
write (some e) s b = (s, 0, some e)
write none s b = let r = write_loop (length b) s b 0 in (r.0, r.1, none)

-- The first part of Drain: the chunk that is not full.
abbrev pub flush_buf : Producer → Option Bytes → Producer
flush_buf s none = s
flush_buf s (some buf) = record (if ltb 0 (length buf) then enqueue_chunk s buf else s) {
  chunk_buf = none;
}

unfoldable pub flush : Producer → Producer
unfolding enqueue_chunk
flush s = flush_buf s s.chunk_buf

-- The calls of Write that a caller makes, while no error was stored.
unfoldable pub write_all : Producer → List Bytes → Producer
unfolding write
write_all s [] = s
write_all s (b ∷ writes) = write_all (write none s b).0 writes
