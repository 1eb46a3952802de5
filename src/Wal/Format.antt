-- ===== src/Wal/Format.antt =====
-- One record on disk: keyLen(4) | key | valueLen(4) | value | tombstone(1) | checksum(4), as
-- `encodeRecord` writes it and `readOneRecord` reads it in internal/wal/wal.go.
pub mod RoundTrip
pub mod Torn
pub mod Size
use pebble_db.Prelude.{
  ℕ, ◌+◌, ◌-◌, ◌%◌, ◌^◌, Bool, true, false, ltb, ◌==◌, if◌then◌else◌, Option, none, some, List, [],
  ◌∷◌, ◌++◌, length, leb,
}
use pebble_db.Bytes.{Bytes}
use pebble_db.Result.{Result, ok, err, ensure, ◌>>=◌, ◌>>◌}
use pebble_db.Codec.{ReadError, eof, unexpected_eof, put_uint32, uint32, read_full, crc32}
use pebble_db.Wal.Limits.{
  ReplayLimits, WalError, read_error, key_too_large, value_too_large, validate_record,
}

pub record Record : Type 0 where
  pub key : Bytes
  pub value : Bytes
  pub tombstone : Bool

abbrev pub tomb_byte : Bool → ℕ
tomb_byte b = if b then 1 else 0

-- What the checksum covers. Both lengths are cast to `uint32`.
unfoldable pub body : Bytes → Bytes → ℕ → Bytes
body key value tomb =
    put_uint32 (length key) ++ (key ++ (put_uint32 (length value) ++ (value ++ tomb ∷ [])))

-- `if err := …; err != nil { return err }`
abbrev pub from_option : Option WalError → Result WalError (Unit {0})
from_option none = ok tt
from_option (some e) = err e

unfoldable pub encode_record : ReplayLimits → Record → Result WalError Bytes
unfolding body
encode_record limits rec =
    let buf = body rec.key rec.value (tomb_byte rec.tombstone) in
    from_option (validate_record limits (length rec.key % 2 ^ 32) (length rec.value % 2 ^ 32))
    >> ok (buf ++ put_uint32 (crc32 buf))

-- A plain read error, as the length of the key is read.
unfoldable pub plain : {A : Type 0} → Result ReadError A → Result WalError A
plain (ok a) = ok a
plain (err e) = err (read_error e)

-- `mapRecordEOF`: inside a record, the end of the file is always unexpected.
unfoldable pub map_record_eof : {A : Type 0} → Result ReadError A → Result WalError A
map_record_eof (ok a) = ok a
map_record_eof (err _) = err (read_error unexpected_eof)

abbrev pub first_byte : Bytes → ℕ
first_byte [] = 0
first_byte (b ∷ _) = b

unfoldable pub check_sum : Bytes → Bytes → ℕ → ℕ → Bytes → Result WalError (Record × ℕ × Bytes)
unfolding body
check_sum key value tomb checksum rest =
    if crc32 (body key value tomb) == checksum
    then ok (
      record { key = key; value = value; tombstone = tomb == 1 },
      4 + length key + 4 + length value + 1 + 4,
      rest,
    )
    else err (read_error unexpected_eof)

pub read_checksum : Bytes → Bytes → ℕ → Bytes → Result WalError (Record × ℕ × Bytes)
read_checksum key value tomb r = do
  (cb, rest) ← map_record_eof (read_full 4 r)
  check_sum key value tomb (uint32 cb) rest

pub read_tombstone : Bytes → Bytes → Bytes → Result WalError (Record × ℕ × Bytes)
read_tombstone key value r = do
  (tb, r') ← map_record_eof (read_full 1 r)
  read_checksum key value (first_byte tb) r'

pub read_value : ReplayLimits → ℕ → Bytes → Bytes → Result WalError (Record × ℕ × Bytes)
read_value limits key_len key r = do
  (vb, r') ← map_record_eof (read_full 4 r)
  let value_len = uint32 vb
  ensure (leb value_len limits.max_value_size) value_too_large
  from_option (validate_record limits key_len value_len)
  (value, r'') ← map_record_eof (read_full value_len r')
  read_tombstone key value r''

-- The record, the number of bytes it takes, and what stands behind it. The `none` of an error is
-- the source's zero record.
unfoldable pub read_one_record : ReplayLimits → Bytes → Result WalError (Record × ℕ × Bytes)
unfolding read_value read_tombstone read_checksum plain map_record_eof
read_one_record limits r = do
  (kb, r') ← plain (read_full 4 r)
  let key_len = uint32 kb
  ensure (leb key_len limits.max_key_size) key_too_large
  (key, r'') ← map_record_eof (read_full key_len r')
  read_value limits key_len key r''
