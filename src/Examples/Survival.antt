-- ===== src/Examples/Survival.antt =====
-- An rs-strong container at a concrete input, from NewWriter to LoadAll with a damaged slot.
use secvault.Prelude.{◌<◌, ◌^◌, ◌≡◌, refl, arith, Bytes, length, concat, some, List, [], ◌∷◌, ◌++◌}
use secvault.Errors.{Result, ok}
use secvault.Layout.{strong_shard_size, k_strong, m_strong}
use secvault.Format.{Manifest, build_trailer, scheme_rs_strong}
use secvault.Codec.{IsEncoder}
use secvault.Device.MemFile.{MemFile, mem_file, mem_file-IsFile, empty}
use secvault.Engine.Strong.Damage.{image, IsSized, Damaged}
use secvault.Engine.Strong.Load.{codeword, codeword-All, length-codeword}
use secvault.Engine.Container.{Container, open_container, load_all}
use secvault.Vault.Writer.{strong_option, apply_options, default_opts}
use secvault.Vault.Writer.Session.{Writer, new_writer, write_all, close}
use secvault.Vault.RoundTrip.Trailer.{manifest_trailer}
use secvault.Vault.RoundTrip.Strong.{strong_manifest, whole_slots}
use secvault.Vault.RoundTrip.Damage.{load_all-Damaged}
use secvault.Examples.Damage.{hurt, hurt-Damaged, hurt-IsSized}
use secvault.Examples.Parameters.{primitives, primitives-IsCrypto, coding, coding-IsEncoder}
use secvault.Examples.Theorems.{checksum}
use secvault.Examples.Sessions.{
  key, file_id, nonce, random, derived, writes, print_json, codecs, alone, sizes, keys, cache_made,
}

abbrev parse_json : Bytes → Result Manifest
parse_json b = ok (strong_manifest 3)

enc-IsEncoder : IsEncoder coding k_strong m_strong (32, 64)
enc-IsEncoder = coding-IsEncoder 32 64 (omega arith)

small : length (concat writes) < 2 ^ 63
small = omega arith

strong_chosen : (apply_options (strong_option ∷ []) default_opts).scheme ≡ scheme_rs_strong
unfolding apply_options
strong_chosen = refl

shards : List Bytes
shards =
    codeword primitives coding mem_file primitives-IsCrypto (32, 64) enc-IsEncoder derived nonce
      (concat writes) (sizes.2) small

abbrev tr : Bytes
tr = build_trailer checksum (manifest_trailer primitives derived 3 file_id random (1 ∷ 2 ∷ []))

damaged : MemFile
damaged = record { bytes = image (hurt shards) ++ tr; pos = 0 }

shards-hurt : Damaged primitives shards (hurt shards) 1
unfolding shards
shards-hurt = hurt-Damaged shards (
    omega (
      arith,
      length-codeword primitives coding mem_file primitives-IsCrypto (32, 64) enc-IsEncoder derived
          nonce (concat writes) sizes.2 small,
    ))

shards-IsSized : IsSized (strong_shard_size 3) (hurt shards)
unfolding shards
shards-IsSized = hurt-IsSized (strong_shard_size 3) shards (
    codeword-All primitives coding mem_file primitives-IsCrypto (32, 64) enc-IsEncoder derived nonce
      (concat writes) sizes.2 small)

load_all-Damaged_example :
    (w : Writer primitives coding mem_file) × (new_writer primitives coding mem_file
        (some empty)
        key
        (strong_option ∷ [])
        (ok file_id)
        (ok [])
      ≡ ok w)
    × (file : MemFile) × ((close primitives coding mem_file checksum print_json
          (write_all primitives coding mem_file w writes)
          (ok nonce)
          (ok random)).1
        ≡ (file, ok tt))
    × (file.bytes
        ≡ image (
            whole_slots primitives coding mem_file primitives-IsCrypto mem_file-IsFile derived
              codecs enc-IsEncoder nonce
              (concat writes)
              sizes.2
              small)
          ++ tr)
    × (con : Container primitives coding mem_file) × (open_container primitives coding mem_file
          checksum parse_json damaged key
        ≡ ok con)
    × (load_all primitives coding mem_file con ≡ ok (7 ∷ 8 ∷ 9 ∷ []))
unfolding shards damaged
load_all-Damaged_example =
    load_all-Damaged primitives coding mem_file checksum print_json parse_json primitives-IsCrypto
      mem_file-IsFile (λ b. omega arith) empty key file_id nonce random (1 ∷ 2 ∷ [])
      (strong_option ∷ []) (ok []) writes derived derived codecs enc-IsEncoder sizes.2 small refl
      sizes.0 strong_chosen sizes.1 sizes.3 (keys "secvault/manifest/v1") (keys "secvault/chunk/v1")
      cache_made refl refl (omega arith) (omega arith) alone (hurt shards) 1 damaged shards-hurt
      shards-IsSized refl
