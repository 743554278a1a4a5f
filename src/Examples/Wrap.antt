-- ===== src/Examples/Wrap.antt =====
-- Validate on a manifest whose number of chunks makes the sizes of int64 wrap around: that of a file
-- of one chunk, with 2^60 chunks more.
use secvault.Prelude.{ℕ, ◌+◌, ◌*◌, ◌^◌, ◌≡◌, refl, pos}
use secvault.Errors.{ok}
use secvault.Layout.{total_blob_count, group_count, last_group_chunks, group_span}
use secvault.Format.{
  Manifest, validate, validate_rs_dual, check_rs_dual, check_size, resolve_scheme, resolve_spec,
}

abbrev manifest : ℕ → Manifest
manifest chunk_count = record {
  version = pos 2;
  k = pos 256;
  m = pos 128;
  k2 = pos 128;
  m2 = pos 64;
  shard_size = pos 4096;
  chunk_plain = pos 1048528;
  chunk_count = pos chunk_count;
  plain_size = pos 3;
  scheme = "";
  k_strong = pos 0;
  m_strong = pos 0;
}

accepted_wrapped : validate (manifest (2 ^ 60 + 1)) (65 * 1579008 + 100) 100 ≡ ok tt
unfolding validate validate_rs_dual check_rs_dual check_size resolve_scheme resolve_spec
    total_blob_count group_count last_group_chunks group_span
accepted_wrapped = refl
