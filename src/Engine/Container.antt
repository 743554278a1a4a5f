-- ===== src/Engine/Container.antt =====
-- internal/engine/container.go: the opening of a container, and the read path of an rs-dual chunk:
-- gathering, repair inside the blob, rebuild from the file-level parity, decoding. encoding/json is
-- a parameter. An index or a position is a natural number here, except where the program tests it.
pub mod Repair
pub mod Intact
pub mod Load
use secvault.Prelude.{
  ℕ, zero, suc, ◌+◌, ◌-◌, ◌*◌, ◌/◌, ◌%◌, min, Bytes, length, slice, take, drop, get_or, set, concat,
  chunks, map, not, Bool, true, false, ◌&&◌, ◌||◌, ◌==◌, leb, ltb, Option, none, some, List, [],
  ◌∷◌, ◌++◌, if◌then◌else◌, ℤ, pos, negsuc, ◌==ℤ◌, ltb_ℤ, pos_part, int64, big_endian, String,
  zeros,
}
use text.Mathlib.Text.{◌==◌ as str_eq}
use secvault.Errors.{
  Error, Result, ok, err, new, wrap, no_manifest, manifest_auth, chunk_unrecoverable, engine_chunk,
  or_err, reject_if, ◌>>=◌, ◌>>◌,
}
use secvault.Layout.{
  header_size, data_shards, parity_shards, shards_per_blob, shard_size, slot_size, blob_disk_size,
  chunk_plain_size, file_group_chunks, Spec, data_chunks_in_group, group_parity, data_blob_offset,
  parity_blob_offset,
}
use secvault.Format.{
  ChunkHeader, parse_chunk_header, Manifest, resolve_scheme, resolve_spec, scheme_gcm_only,
  scheme_rs_strong, validate, Trailer, trailer_fixed, parse_trailer,
}
use secvault.Crypto.{Primitives, derive_key, new_gcm}
use secvault.Codec.{Coding, Cache, new_cache, file}
use secvault.Device.{Device, read_buffer}
use secvault.Engine.Strong.{load_strong, gather, erase, sized, join_shards}
use secvault.Engine.GcmOnly.{load_gcm_only}
use secvault.Engine.Rebuild.{rebuild_blob_file_level}

abbrev pub blob_plain_size : ℕ
blob_plain_size = data_shards * shard_size

-- for _, i := range bad { payloads[i] = views[i] }
unfoldable pub replace : List Bytes → List Bytes → List ℕ → List Bytes
replace payloads views [] = payloads
replace payloads views (i ∷ bad) = replace (set payloads i (get_or views i [])) views bad

module _ (p : Primitives) (c : Coding) (d : Device) where
  open p use {Aead, unseal}
  open c use {Encoder, reconstruct}
  open d use {Disk, read_at}

  pub record Container : Type 0 where
    pub src : Disk
    pub man : Manifest
    pub spec : Spec
    pub aead : Aead
    pub man_aead : Aead
    pub codecs : Cache c
    pub file_size : ℕ

  -- (*Container).GatherBlob, at an offset that is a natural number: the program's int64 offset does not
  -- wrap for up to 2^40 chunks.
  unfoldable pub gather_blob : Disk → Spec → ℕ → Result (List Bytes × List ℕ)
  unfolding gather
  gather_blob src spec index = do
    raw ← read_buffer blob_disk_size (read_at src (data_blob_offset spec index) blob_disk_size)
    ok (gather p shards_per_blob 0 shard_size raw)

  abbrev pub replaced : List Bytes → List ℕ → Result (List Bytes) → Option (List Bytes)
  replaced payloads bad (err e) = none
  replaced payloads bad (ok views) =
      if sized views shard_size bad then some (replace payloads views bad) else none

  -- (*Container).RepairIntra; `none` is the answer false
  unfoldable pub repair_intra : Encoder → List Bytes → List ℕ → Option (List Bytes)
  unfolding erase sized replace
  repair_intra enc payloads bad =
      if length bad == 0 || ltb parity_shards (length bad)
      then none
      else replaced payloads bad (reconstruct enc (erase payloads bad))

  -- What follows the parse of the header in DecodeChunk.
  unfoldable pub open_chunk : Aead → ℕ → Bytes → ChunkHeader → Result Bytes
  open_chunk aead index flat hdr =
      let need = pos_part hdr.plain_len + 16 in
      do
        reject_if (not (hdr.index ==ℤ pos index)) (new "header index")
        reject_if (not (int64 (big_endian (drop 4 hdr.nonce)) ==ℤ pos index))
            (new "nonce/index mismatch")
        reject_if (ltb_ℤ hdr.plain_len (pos 1) || ltb_ℤ (pos chunk_plain_size) hdr.plain_len)
            (new "bad plainLen")
        reject_if (ltb blob_plain_size (header_size + need)) (new "plainLen overflow")
        or_err
            (unseal aead hdr.nonce (slice header_size (header_size + need) flat)
              (take header_size flat))
            (wrap "(gcm auth)" chunk_unrecoverable)

  -- (*Container).DecodeChunk
  unfoldable pub decode_chunk : Aead → ℕ → List Bytes → Result Bytes
  unfolding join_shards open_chunk
  decode_chunk aead index payloads = do
    flat ← or_err (join_shards data_shards shard_size payloads) (new "shard missing after recovery")
    hdr ← parse_chunk_header (take header_size flat)
    open_chunk aead index flat hdr

  abbrev pub as_chunk_error : ℕ → Result Bytes → Result Bytes
  as_chunk_error index (ok plain) = ok plain
  as_chunk_error index (err e) = err (engine_chunk index e)

  -- The payloads after the rebuild, decoded.
  abbrev pub decode_rebuilt : Aead → ℕ → Cache c × Option (List Bytes) → Cache c × Result Bytes
  decode_rebuilt aead index (codecs, none) = (codecs, err (engine_chunk index chunk_unrecoverable))
  decode_rebuilt aead index (codecs, some payloads) =
      (codecs, as_chunk_error index (decode_chunk aead index payloads))

  abbrev pub decode_repaired : Container → ℕ → Option (List Bytes) → Cache c × Result Bytes
  decode_repaired con index (some payloads) =
      (con.codecs, as_chunk_error index (decode_chunk con.aead index payloads))
  decode_repaired con index none = decode_rebuilt con.aead index (
      rebuild_blob_file_level p c d con.src con.spec (pos_part con.man.chunk_count) con.codecs
        index)

  unfoldable pub load_gathered :
      Container → ℕ → Result (List Bytes × List ℕ) → Cache c × Result Bytes
  unfolding repair_intra decode_chunk rebuild_blob_file_level
  load_gathered con index (err e) = (con.codecs, err e)
  load_gathered con index (ok (payloads, bad)) =
      decode_repaired con index
        (if ltb 0 (length bad) then repair_intra con.codecs.intra payloads bad else some payloads)

  -- (*Container).LoadChunk: the cache of encoders after the call, and the plaintext.
  unfoldable pub load_chunk : Container → ℤ → Cache c × Result Bytes
  unfolding gather_blob load_gathered
  load_chunk con (negsuc i) = (con.codecs, err (new "chunk index out of range"))
  load_chunk con (pos index) =
      if not (ltb_ℤ (pos index) con.man.chunk_count)
      then (con.codecs, err (new "chunk index out of range"))
      else load_gathered con index (gather_blob con.src con.spec index)

  -- (*Container).LoadAll
  unfoldable pub load_all : Container → Result Bytes
  unfolding resolve_scheme load_gcm_only load_strong
  load_all con =
      if str_eq (resolve_scheme con.man) scheme_gcm_only
      then load_gcm_only p d con.src con.aead (pos_part con.man.plain_size)
      else if str_eq (resolve_scheme con.man) scheme_rs_strong
      then load_strong p c d con.src con.aead con.codecs.strong (pos_part con.man.plain_size)
      else err (new "secvault: LoadAll on rs-dual (use LoadChunk)")

  module _ (checksum : Bytes → ℕ) (parse_json : Bytes → Result Manifest) where
    -- What Open does with the trailer that it found.
    unfoldable pub open_trailer : Disk → Bytes → ℕ → Trailer → Result Container
    unfolding derive_key new_gcm validate resolve_scheme resolve_spec new_cache
    open_trailer src master_key size tr = do
      man_aead ← new_gcm p (derive_key p master_key tr.file_id "secvault/manifest/v1")
      mb ← or_err (unseal man_aead tr.nonce tr.payload []) manifest_auth
      man ← parse_json mb
      validate man size (trailer_fixed + length tr.payload + 4)
      let info =
          if str_eq (resolve_scheme man) scheme_gcm_only
          then "secvault/gcm/v1"
          else "secvault/chunk/v1"
      aead ← new_gcm p (derive_key p master_key tr.file_id info)
      codecs ← new_cache c
      ok (record {
        src = src;
        man = man;
        spec = resolve_spec man;
        aead = aead;
        man_aead = man_aead;
        codecs = codecs;
        file_size = size;
      })

    -- Open, with the 64 KB at the end of the file in which the trailer is looked for.
    unfoldable pub open_container : Disk → Bytes → Result Container
    unfolding open_trailer parse_trailer
    open_container src master_key = do
      size ← d.size src
      let tail_n = min size 65536
      reject_if (ltb tail_n (trailer_fixed + 4 + 16)) no_manifest
      tail ← read_buffer tail_n (read_at src (size - tail_n) tail_n)
      tr ← parse_trailer checksum tail
      open_trailer src master_key size tr
