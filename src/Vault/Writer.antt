-- ===== src/Vault/Writer.antt =====
-- writer.go: the options of a writer, the manifests that Close makes, and the trailer that it writes.
-- encoding/json and the checksum are parameters, and the random bytes of the nonce an argument.
pub mod Accepted
pub mod Session
pub mod Closed
use secvault.Prelude.{
  ℕ, ◌*◌, Bytes, [], length, Bool, true, false, ◌&&◌, leb, ◌==◌, if◌then◌else◌, String, ℤ, pos,
  negsuc, Option, none, some, List, ◌∷◌,
}
use text.Mathlib.Text.{◌==◌ as str_eq}
use secvault.Errors.{Error, Result, ok, err, new, wrap, ◌>>=◌}
use secvault.Layout.{
  Spec, data_shards, parity_shards, file_group_chunks, file_parity_shards, chunk_plain_size,
  blob_disk_size, total_blob_count, gcm_only_payload_size, strong_shard_size, strong_payload_size,
  k_strong as layout_k_strong, m_strong as layout_m_strong, shard_size as layout_shard_size,
}
use secvault.Format.{
  Manifest, Trailer, build_trailer, scheme_rs_dual, scheme_gcm_only, scheme_rs_strong,
}
use secvault.Crypto.{Primitives}
use secvault.Device.{Device}

pub record WriterOpts : Type 0 where
  pub workers : ℕ
  pub inflight : ℕ
  pub m2cap : ℕ
  pub format_v3 : Bool
  pub scheme : String

abbrev pub default_opts : WriterOpts
default_opts = record {
  workers = 4;
  inflight = 16;
  m2cap = file_parity_shards;
  format_v3 = false;
  scheme = "";
}

-- The options, as functions on what they set. No negative number passes a test.
unfoldable pub with_workers : ℤ → WriterOpts → WriterOpts
with_workers (negsuc n) o = o
with_workers (pos n) o = if leb 1 n && leb n 16 then record o { workers = n } else o

unfoldable pub with_inflight : ℤ → WriterOpts → WriterOpts
with_inflight (negsuc n) o = o
with_inflight (pos n) o = if leb 4 n && leb n 256 then record o { inflight = n } else o

unfoldable pub with_file_parity : ℤ → WriterOpts → WriterOpts
with_file_parity (negsuc m) o = o
with_file_parity (pos m) o =
    if leb 1 m && leb m file_parity_shards
    then record o { m2cap = m; format_v3 = true; scheme = scheme_rs_dual }
    else o

unfoldable pub with_re_pull : WriterOpts → WriterOpts
with_re_pull o = record o { scheme = scheme_gcm_only; format_v3 = true }

unfoldable pub with_strong_rs : WriterOpts → WriterOpts
with_strong_rs o = record o { scheme = scheme_rs_strong; format_v3 = true }

-- The options that a caller may give.
pub data WriterOption : Type 0 where
  workers_option inflight_option parity_option : ℤ → WriterOption
  re_pull_option strong_option : WriterOption

unfoldable pub apply_option : WriterOption → WriterOpts → WriterOpts
unfolding with_workers with_inflight with_file_parity with_re_pull with_strong_rs
apply_option (workers_option n) o = with_workers n o
apply_option (inflight_option n) o = with_inflight n o
apply_option (parity_option m) o = with_file_parity m o
apply_option re_pull_option o = with_re_pull o
apply_option strong_option o = with_strong_rs o

-- for _, f := range opts { f(&o) }
unfoldable pub apply_options : List WriterOption → WriterOpts → WriterOpts
unfolding apply_option
apply_options [] o = o
apply_options (f ∷ opts) o = apply_options opts (apply_option f o)

abbrev pub empty_manifest : ℕ → String → ℕ → Manifest
empty_manifest version scheme plain_size = record {
  version = pos version;
  k = pos 0;
  m = pos 0;
  k2 = pos 0;
  m2 = pos 0;
  shard_size = pos 0;
  chunk_plain = pos 0;
  chunk_count = pos 0;
  plain_size = pos plain_size;
  scheme = scheme;
  k_strong = pos 0;
  m_strong = pos 0;
}

-- The manifest of closeRSDual, and the offset of its trailer.
unfoldable pub rs_dual_manifest : ℕ → ℕ → ℕ → ℕ → Manifest
rs_dual_manifest version m2cap chunk_count plain_size =
    record (empty_manifest version "" plain_size) {
      k = pos data_shards;
      m = pos parity_shards;
      k2 = pos file_group_chunks;
      m2 = pos m2cap;
      shard_size = pos layout_shard_size;
      chunk_plain = pos chunk_plain_size;
      chunk_count = pos chunk_count;
    }

unfoldable pub rs_dual_offset : Spec → ℕ → ℕ
unfolding total_blob_count
rs_dual_offset spec chunk_count = total_blob_count spec chunk_count * blob_disk_size

-- The manifest and the offset of closeSmall, by scheme.
unfoldable pub small_manifest : ℕ → String → ℕ → Result (Manifest × ℕ)
unfolding gcm_only_payload_size strong_shard_size strong_payload_size
small_manifest version scheme plain_size =
    if str_eq scheme scheme_gcm_only
    then ok (empty_manifest version scheme plain_size, gcm_only_payload_size plain_size)
    else if str_eq scheme scheme_rs_strong
    then ok (
      record (empty_manifest version scheme plain_size) {
        k = pos layout_k_strong;
        m = pos layout_m_strong;
        shard_size = pos (strong_shard_size plain_size);
        k_strong = pos layout_k_strong;
        m_strong = pos layout_m_strong;
      },
      strong_payload_size plain_size,
    )
    else err (new "secvault: unknown writer scheme")

module _ (p : Primitives) (d : Device) (checksum : Bytes → ℕ)
    (print_json : Manifest → Result Bytes) where
  abbrev pub after_trailer : d.Disk × ℕ × Option Error → d.Disk × Result (Unit {0})
  after_trailer (disk, written, none) = (disk, ok tt)
  after_trailer (disk, written, some e) = (disk, err e)

  abbrev pub write_at_end : Bytes → d.Disk × Option Error → d.Disk × Result (Unit {0})
  write_at_end tr (disk, some e) = (disk, err e)
  write_at_end tr (disk, none) = after_trailer (d.write disk tr)

  -- The count of bytes that Write returns is not compared with the length of the trailer.
  unfoldable pub put_trailer :
      d.Disk → p.Aead → ℕ → Bytes → ℕ → Result (Bytes × Bytes) → d.Disk × Result (Unit {0})
  unfolding build_trailer
  put_trailer disk man_aead version file_id off (err e) = (disk, err e)
  put_trailer disk man_aead version file_id off (ok (mb, nonce)) =
      let tr = build_trailer checksum (record {
        version = version;
        file_id = file_id;
        nonce = nonce;
        payload = p.seal man_aead nonce mb [];
      }) in
      write_at_end tr (d.seek disk off)

  abbrev json_error : Result Bytes → Result Bytes
  json_error (ok b) = ok b
  json_error (err e) = err (wrap "secvault: manifest json" e)

  -- (*Writer).writeTrailer; the last argument is what RandomBytes returned for the nonce.
  unfoldable pub write_trailer :
      d.Disk → p.Aead → ℕ → Bytes → Manifest → ℕ → Result Bytes → d.Disk × Result (Unit {0})
  unfolding put_trailer
  write_trailer disk man_aead version file_id man off random =
      put_trailer disk man_aead version file_id off
        (json_error (print_json man) >>= λ mb. random >>= λ nonce. ok (mb, nonce))
