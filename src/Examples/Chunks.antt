-- ===== src/Examples/Chunks.antt =====
-- The theorems on a chunk of an rs-dual container at a concrete input: chunk 0, of three bytes.
use secvault.Prelude.{◌^◌, ◌≤◌, ◌<◌, ◌≡◌, refl, arith, List, [], ◌∷◌, ◌++◌, Bytes, length, All, pos}
use secvault.Errors.{ok}
use secvault.Layout.{spec_v3, data_shards, parity_shards, shard_size, data_blob_offset, group_span}
use secvault.Format.{Manifest}
use secvault.Codec.{IsEncoder}
use secvault.Device.MemFile.{MemFile, mem_file, mem_file-IsFile, empty}
use secvault.Engine.Strong.Damage.{image, Damaged}
use secvault.Engine.Strong.Written.{tagged}
use secvault.Engine.Container.{Container, load_chunk}
use secvault.Engine.Container.Repair.{codeword-count, codeword-sizes}
use secvault.Engine.Container.Intact.{data_part, length-data_part, data_part-All}
use secvault.Engine.Container.Load.{written, encode_job_lem, load_chunk-damaged}
use secvault.Engine.Chunk.{encode_job}
use secvault.Examples.Damage.{hurt, hurt-Damaged, hurt-IsSized}
use secvault.Examples.Parameters.{primitives, primitives-IsCrypto, coding, coding-IsEncoder}

abbrev text : Bytes
text = 7 ∷ 8 ∷ 9 ∷ []

abbrev prefix : Bytes
prefix = 1 ∷ 2 ∷ 3 ∷ 4 ∷ []

abbrev manifest : Manifest
manifest = record {
  version = pos 3;
  k = pos 256;
  m = pos 128;
  k2 = pos 128;
  m2 = pos 5;
  shard_size = pos 4096;
  chunk_plain = pos 1048528;
  chunk_count = pos 1;
  plain_size = pos 3;
  scheme = "rs-dual";
  k_strong = pos 0;
  m_strong = pos 0;
}

abbrev pub container : MemFile → Container primitives coding mem_file
container src = record {
  src = src;
  man = manifest;
  spec = spec_v3 5;
  aead = 1 ∷ [];
  man_aead = 1 ∷ [];
  codecs = record { intra = (256, 128); strong = (32, 64); files = [] };
  file_size = 0;
}

enc-IsEncoder : IsEncoder coding data_shards parity_shards (256, 128)
enc-IsEncoder = coding-IsEncoder 256 128 (omega arith)

short : length text ≤ 1048528
short = omega arith

index_small : 0 < 2 ^ 63
index_small = omega arith

some_text : 0 < length text
some_text = omega arith

-- The shards that the writer makes of the text.
shards : List Bytes
shards =
    written primitives coding mem_file primitives-IsCrypto mem_file-IsFile (container empty)
      enc-IsEncoder prefix text 0 refl index_small some_text short

encode_job_lem_example :
    encode_job primitives coding (1 ∷ []) (256, 128) prefix 0 text
    ≡ ok (shards, image (tagged primitives primitives-IsCrypto shards))
unfolding shards
encode_job_lem_example =
    encode_job_lem primitives coding mem_file primitives-IsCrypto mem_file-IsFile (container empty)
      enc-IsEncoder prefix text 0 refl index_small some_text short

pub hurt_file : MemFile
hurt_file = record { bytes = image (hurt shards) ++ text; pos = 0 }

-- The data shards of the text, and all its shards.
count : length shards ≡ 384
unfolding shards
count =
    codeword-count primitives coding mem_file primitives-IsCrypto (256, 128) enc-IsEncoder
      (data_part primitives primitives-IsCrypto (1 ∷ []) prefix text 0 refl index_small some_text
        short)
      (length-data_part primitives primitives-IsCrypto (1 ∷ []) prefix text 0 refl index_small
        some_text short)
      (data_part-All primitives primitives-IsCrypto (1 ∷ []) prefix text 0 refl index_small
        some_text short)

sizes : All (λ b. length b ≡ shard_size) shards
unfolding shards
sizes =
    codeword-sizes primitives coding mem_file primitives-IsCrypto (256, 128) enc-IsEncoder
      (data_part primitives primitives-IsCrypto (1 ∷ []) prefix text 0 refl index_small some_text
        short)
      (length-data_part primitives primitives-IsCrypto (1 ∷ []) prefix text 0 refl index_small
        some_text short)
      (data_part-All primitives primitives-IsCrypto (1 ∷ []) prefix text 0 refl index_small
        some_text short)

first_blob : 0 ≡ data_blob_offset (spec_v3 5) 0
unfolding data_blob_offset group_span
first_blob = omega arith

shards-Damaged : Damaged primitives shards (hurt shards) 1
shards-Damaged = hurt-Damaged shards (omega (arith, count))

load_chunk-damaged_example :
    load_chunk primitives coding mem_file (container hurt_file) (pos 0)
    ≡ ((container hurt_file).codecs, ok text)
unfolding shards hurt_file
load_chunk-damaged_example =
    load_chunk-damaged primitives coding mem_file primitives-IsCrypto mem_file-IsFile
      (container hurt_file) enc-IsEncoder prefix text 0 refl index_small some_text short
      (hurt shards) 1 [] text shards-Damaged (hurt-IsSized shard_size shards sizes) (omega arith)
      refl first_blob refl
