-- ===== src/Examples/Pipelines.antt =====
-- The pipeline at concrete inputs: three writes, three chunks that come as 2, 0, 1.
use secvault.Prelude.{
  none, ℕ, ◌≡◌, refl, arith, Bytes, length, concat, map, pieces, upto, zeros, replicate,
  length-replicate, some, List, [], ◌∷◌,
}
use secvault.Layout.{
  chunk_plain_size, file_group_chunks, spec_v3, shards_per_blob, shard_size, blob_disk_size,
}
use secvault.Layout.Regions.{IsSpec}
use secvault.Device.MemFile.{mem_file, mem_file-IsFile, empty}
use secvault.Engine.Pipeline.Split.{fresh_producer, flush, write_all}
use secvault.Engine.Pipeline.Split.Chunks.{numbered, flush-write_all}
use secvault.Engine.Pipeline.Order.{Encoded, fresh_loop, write_loop}
use secvault.Engine.Pipeline.Order.Arrival.{IsOrder, occurrences, in_order}
use secvault.Engine.Pipeline.Order.Any.{write_loop_lem}
use secvault.Engine.Pipeline.Groups.{ParityLoop, drained}
use secvault.Engine.Pipeline.Groups.Messages.{all_messages}
use secvault.Engine.Pipeline.Groups.Parity.{drained-write_loop}
use secvault.Engine.Pipeline.Groups.Windows.{IsShards}
use secvault.Engine.Pipeline.Groups.Content.{both_loops, HoldsAll, parity_loop-write_loop}
use secvault.Engine.Strong.Written.{replicate-All}
use secvault.Codec.{IsCoding, Cache}
use secvault.Examples.Parameters.{primitives, primitives-IsCrypto, coding, coding-IsEncoder}

abbrev writes : List Bytes
writes = (1 ∷ 2 ∷ []) ∷ [] ∷ (3 ∷ []) ∷ []

flush-write_all_example :
    ((flush (write_all fresh_producer writes)).encode_ch
      ≡ numbered 0 (pieces (length (concat writes)) chunk_plain_size (concat writes)))
    × ((flush (write_all fresh_producer writes)).chunk_idx
        ≡ length (pieces (length (concat writes)) chunk_plain_size (concat writes)))
flush-write_all_example = flush-write_all writes

abbrev shards : ℕ → List Bytes
shards k = (k ∷ 1 ∷ []) ∷ (k ∷ 2 ∷ []) ∷ []

abbrev image : ℕ → Bytes
image k = k ∷ 1 ∷ k ∷ 2 ∷ []

abbrev job : ℕ → Encoded
job k = record { idx = k; plain_len = 3; body = some (shards k, image k) }

abbrev order : List ℕ
order = 2 ∷ 0 ∷ 1 ∷ []

order-IsOrder : IsOrder 3 order
unfolding occurrences
order-IsOrder i = ground arith

write_loop_lem_example :
    (write_loop mem_file (spec_v3 5) (fresh_loop mem_file (spec_v3 5) empty) (map job order)
      ≡ in_order mem_file (spec_v3 5) job (fresh_loop mem_file (spec_v3 5) empty) 3)
    × ((in_order mem_file (spec_v3 5) job (fresh_loop mem_file (spec_v3 5) empty) 3).pending ≡ [])
write_loop_lem_example =
    write_loop_lem mem_file (spec_v3 5) job empty 3 order (λ k. refl) order-IsOrder

drained-write_loop_example :
    drained primitives coding mem_file
      (spec_v3 5)
      (write_loop mem_file (spec_v3 5) (fresh_loop mem_file (spec_v3 5) empty) (map job order))
    ≡ all_messages 0 (pieces (length (map shards (upto 3))) file_group_chunks (map shards (upto 3)))
drained-write_loop_example =
    drained-write_loop primitives coding mem_file (spec_v3 5) mem_file-IsFile job empty shards image
      (λ k. refl) (λ k. refl) 3 order order-IsOrder

-- Three chunks of zeros.
abbrev zero_shards : ℕ → List Bytes
zero_shards k = replicate shards_per_blob (zeros shard_size)

abbrev zero_image : ℕ → Bytes
zero_image k = zeros blob_disk_size

length-zeros : (n : ℕ) → length (zeros n) ≡ n
unfolding zeros
length-zeros n = length-replicate {A = ℕ} n 0

zero_shards-IsShards : (k : ℕ) → IsShards (zero_shards k)
zero_shards-IsShards k = (
  length-replicate shards_per_blob (zeros shard_size),
  replicate-All shards_per_blob shard_size (zeros shard_size) (length-zeros shard_size),
)

abbrev zero_job : ℕ → Encoded
zero_job k = record { idx = k; plain_len = 3; body = some (zero_shards k, zero_image k) }

abbrev codecs : Cache coding
codecs = record { intra = (256, 128); strong = (32, 64); files = [] }

coding-IsCoding : IsCoding coding
coding-IsCoding = record {
  encoder_of = λ k m. (k, m);
  new_encoder_lem = λ k m pos_k few_k pos_m few_m. refl;
  encoder_lem = coding-IsEncoder;
}

spec_5-IsSpec : IsSpec (spec_v3 5)
spec_5-IsSpec = (omega arith, omega arith, omega arith)

zero_image-size : (k : ℕ) → length (zero_image k) ≡ blob_disk_size
zero_image-size k = length-zeros blob_disk_size

abbrev both : ParityLoop primitives coding mem_file (spec_v3 5)
both =
    both_loops primitives coding mem_file (spec_v3 5) coding-IsCoding primitives-IsCrypto
      mem_file-IsFile spec_5-IsSpec zero_shards zero_image 3 zero_shards-IsShards zero_image-size
      empty codecs (map zero_job order)

parity_loop-write_loop_example :
    ((write_loop mem_file
        (spec_v3 5)
        (fresh_loop mem_file (spec_v3 5) empty)
        (map zero_job order)).stored
      ≡ none)
    × (both.stored ≡ none)
    × HoldsAll primitives coding mem_file
        (spec_v3 5)
        coding-IsCoding
        primitives-IsCrypto
        mem_file-IsFile
        spec_5-IsSpec
        zero_shards
        zero_image
        3
        zero_shards-IsShards
        zero_image-size
        both.disk.bytes
parity_loop-write_loop_example =
    parity_loop-write_loop primitives coding mem_file (spec_v3 5) coding-IsCoding
      primitives-IsCrypto mem_file-IsFile spec_5-IsSpec zero_shards zero_image 3
      zero_shards-IsShards zero_image-size zero_job empty codecs (λ k. refl) (λ k. refl) tt order
      order-IsOrder
