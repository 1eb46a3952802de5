-- ===== src/Wal/Limits.antt =====
-- internal/wal/limits.go. A negative file size limit, which `WithDefaults` replaces as it does a
-- zero one, is read as zero.
use pebble_db.Prelude.{ℕ, ◌+◌, ◌*◌, ◌^◌, ltb, ◌==◌, if◌then◌else◌, Option, none, some}
use pebble_db.Codec.{ReadError}

-- `io.EOF` and `io.ErrUnexpectedEOF`, the package's own errors, and the errors of a callback.
pub data WalError : Type 0 where
  read_error : ReadError → WalError
  wal_too_large key_too_large value_too_large record_too_large : WalError
  callback : ℕ → WalError

pub record ReplayLimits : Type 0 where
  pub max_file_size : ℕ
  pub max_key_size : ℕ
  pub max_value_size : ℕ
  pub max_record_size : ℕ

abbrev pub default_replay_limits : ReplayLimits
default_replay_limits = record {
  max_file_size = 64 * 2 ^ 20;
  max_key_size = 2 ^ 20;
  max_value_size = 16 * 2 ^ 20;
  max_record_size = 17 * 2 ^ 20;
}

abbrev pub record_header_size : ℕ
record_header_size = 4 + 4 + 1 + 4

or_default : ℕ → ℕ → ℕ
or_default n d = if n == 0 then d else n

unfoldable pub with_defaults : ReplayLimits → ReplayLimits
unfolding or_default
with_defaults l = record {
  max_file_size = or_default l.max_file_size default_replay_limits.max_file_size;
  max_key_size = or_default l.max_key_size default_replay_limits.max_key_size;
  max_value_size = or_default l.max_value_size default_replay_limits.max_value_size;
  max_record_size = or_default l.max_record_size default_replay_limits.max_record_size;
}

-- `none` is the nil error. The sum is taken in 64 bits, where it cannot wrap.
unfoldable pub validate_record : ReplayLimits → ℕ → ℕ → Option WalError
validate_record l key_len value_len =
    if ltb l.max_key_size key_len
    then some key_too_large
    else if ltb l.max_value_size value_len
    then some value_too_large
    else if ltb l.max_record_size (record_header_size + key_len + value_len)
    then some record_too_large
    else none
