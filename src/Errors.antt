-- ===== src/Errors.antt =====
-- internal/errors/errors.go and errors.go: the error sentinels, wrapping, and errors.Is.
-- An error that a library or a device makes is an `external` one with its number. The text of an
-- error is kept where it is constant; the numbers that a message prints are left out.
use secvault.Prelude.{ℕ, ◌+◌, String, Bool, true, false, Option, none, some, ◌==◌}

pub data Error : Type 0 where
  no_manifest manifest_auth unsupported_format chunk_unrecoverable : Error
  gcm_only_corrupted bad_key closed negative_offset : Error
  eof short_write : Error
  external : ℕ → Error
  new : String → Error
  wrap : String → Error → Error
  engine_chunk : ℕ → Error → Error
  chunk : ℕ → Error → Error

-- fmtErr, which Wrap calls: a nil error stays nil.
unfoldable pub fmt_err : String → Option Error → Option Error
fmt_err msg none = none
fmt_err msg (some e) = some (wrap msg e)

-- The identity of the errors that are variables of a package; every other one is new at its return.
unfoldable pub sentinel_id : Error → Option ℕ
sentinel_id no_manifest = some 0
sentinel_id manifest_auth = some 1
sentinel_id unsupported_format = some 2
sentinel_id chunk_unrecoverable = some 3
sentinel_id gcm_only_corrupted = some 4
sentinel_id bad_key = some 5
sentinel_id closed = some 6
sentinel_id negative_offset = some 7
sentinel_id eof = some 8
sentinel_id short_write = some 9
sentinel_id (external n) = some (n + 10)
sentinel_id _ = none

abbrev same_id : Option ℕ → Option ℕ → Bool
same_id (some a) (some b) = a == b
same_id _ _ = false

-- errors.Is(err, target) for a sentinel target, along the Unwrap methods of *wrapped and of the two
-- types ChunkError.
unfoldable pub is_error : Error → Error → Bool
unfolding sentinel_id
is_error (wrap msg e) target = is_error e target
is_error (engine_chunk index e) target = is_error e target
is_error (chunk index e) target = is_error e target
is_error e target = same_id (sentinel_id e) (sentinel_id target)

-- The error that a call returns, or its value.
pub data Result {ℓ} (Value : Type ℓ) : Type ℓ where
  err : Error → Result Value
  ok : Value → Result Value

-- `if test { return nil, e }`
abbrev pub reject_if : Bool → Error → Result (Unit {0})
reject_if true e = err e
reject_if false e = ok tt

-- What an optional value is read as where its absence is an error.
abbrev pub or_err {ℓ} : {Value : Type ℓ} → Option Value → Error → Result Value
or_err none e = err e
or_err (some v) e = ok v

infixl 5 ◌>>=◌
abbrev pub ◌>>=◌ {ℓ κ} : {V : Type ℓ} {W : Type κ} → Result V → (V → Result W) → Result W
err e >>= next = err e
ok v >>= next = next v

-- One statement after another.
infixl 5 ◌>>◌
abbrev pub ◌>>◌ {ℓ} : {W : Type ℓ} → Result (Unit {0}) → Result W → Result W
first >> then_ = first >>= λ done. then_
