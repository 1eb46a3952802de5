-- ===== src/Wal/Format/RoundTrip.antt =====
-- What `encode_record` writes, `read_one_record` reads back.
use pebble_db.Prelude.{
  ℕ, ◌+◌, ◌%◌, ◌^◌, ◌<◌, ◌≡◌, refl, Bool, true, false, [], ◌∷◌, ◌++◌, arith, length, length-append,
  append_assoc, leb, none,
}
use native.Mathlib.Nat.{mod-eq_of_lt}
use pebble_db.Bytes.{Bytes}
use pebble_db.Result.{ok}
use pebble_db.Codec.{put_uint32, crc32}
use pebble_db.Codec.Laws.{length-put_uint32, uint32-put_self, crc32-lt, read_full-append}
use pebble_db.Wal.Limits.{ReplayLimits, validate_record}
use pebble_db.Wal.Format.{
  Record, tomb_byte, body, encode_record, map_record_eof, check_sum, read_checksum, read_tombstone,
  read_value, read_one_record,
}

-- The bytes of a record that passes the limits.
unfoldable pub wire : Record → Bytes
wire rec =
    let buf = body rec.key rec.value (tomb_byte rec.tombstone) in buf ++ put_uint32 (crc32 buf)

pub record Fits (limits : ReplayLimits) (rec : Record) : Type 0 where
  pub key_fits : length rec.key < 2 ^ 32
  pub value_fits : length rec.value < 2 ^ 32
  pub valid : validate_record limits (length rec.key) (length rec.value) ≡ none

pub encode_record-wire :
    (limits : ReplayLimits) (rec : Record)
    → Fits limits rec
    → encode_record limits rec ≡ ok (wire rec)
unfolding encode_record wire
encode_record-wire limits rec h = rw (mod-eq_of_lt h.key_fits, mod-eq_of_lt h.value_fits, h.valid)

-- The tests that `readOneRecord` makes on its own are among those of `validateRecord`.
pub validate_parts :
    (limits : ReplayLimits) (k v : ℕ)
    → validate_record limits k v ≡ none
    → (leb k limits.max_key_size ≡ true) × (leb v limits.max_value_size ≡ true)
unfolding validate_record
validate_parts limits k v h = ground arith

pub wire-split :
    (rec : Record) (rest : Bytes)
    → wire rec ++ rest
      ≡ put_uint32 (length rec.key)
        ++ (rec.key
            ++ (put_uint32 (length rec.value)
                ++ (rec.value
                    ++ ((tomb_byte rec.tombstone ∷ [])
                        ++ (put_uint32 (crc32 (body rec.key rec.value (tomb_byte rec.tombstone)))
                            ++ rest)))))
unfolding wire body
wire-split rec rest = simp append_assoc

module _ (limits : ReplayLimits) (key value : Bytes) where
  read_checksum-append :
      (tomb c : ℕ) (rest : Bytes)
      → read_checksum key value tomb (put_uint32 c ++ rest)
        ≡ check_sum key value tomb (c % 2 ^ 32) rest
  unfolding read_checksum map_record_eof
  read_checksum-append tomb c rest =
      rw (read_full-append 4 (put_uint32 c) rest (length-put_uint32 c), uint32-put_self c)

  pub read_tombstone-append :
      (tomb : ℕ) (r : Bytes)
      → read_tombstone key value ((tomb ∷ []) ++ r) ≡ read_checksum key value tomb r
  unfolding read_tombstone map_record_eof
  read_tombstone-append tomb r = rw (read_full-append 1 (tomb ∷ []) r refl)

  pub read_value-append :
      (r : Bytes)
      → length value < 2 ^ 32
      → validate_record limits (length key) (length value) ≡ none
      → read_value limits (length key) key (put_uint32 (length value) ++ (value ++ r))
        ≡ read_tombstone key value r
  unfolding read_value map_record_eof
  read_value-append r small valid = rw (
    read_full-append 4 (put_uint32 (length value)) (value ++ r) (length-put_uint32 _),
    uint32-put_self (length value),
    mod-eq_of_lt small,
    (validate_parts limits (length key) (length value) valid).1,
    valid,
    read_full-append (length value) value r refl,
  )

  pub read_one_record-append :
      (r : Bytes)
      → length key < 2 ^ 32
      → validate_record limits (length key) (length value) ≡ none
      → read_one_record limits (put_uint32 (length key) ++ (key ++ r))
        ≡ read_value limits (length key) key r
  unfolding read_one_record
  read_one_record-append r small valid = rw (
    read_full-append 4 (put_uint32 (length key)) (key ++ r) (length-put_uint32 _),
    uint32-put_self (length key),
    mod-eq_of_lt small,
    (validate_parts limits (length key) (length value) valid).0,
    read_full-append (length key) key r refl,
  )

  check_sum_lem :
      (tomb : Bool) (rest : Bytes)
      → check_sum key value (tomb_byte tomb) (crc32 (body key value (tomb_byte tomb))) rest
        ≡ ok (
          record { key = key; value = value; tombstone = tomb },
          13 + length key + length value,
          rest,
        )
  unfolding check_sum
  check_sum_lem true rest = ground arith
  check_sum_lem false rest = ground arith

pub length-wire : (rec : Record) → length (wire rec) ≡ 13 + length rec.key + length rec.value
unfolding wire body
length-wire rec =
    let tail = rec.value ++ tomb_byte rec.tombstone ∷ [] in
    let back = put_uint32 (length rec.value) ++ tail in
    omega (
      arith,
      length-append (body rec.key rec.value (tomb_byte rec.tombstone))
          (put_uint32 (crc32 (body rec.key rec.value (tomb_byte rec.tombstone)))),
      length-append (put_uint32 (length rec.key)) (rec.key ++ back),
      length-append rec.key back,
      length-append (put_uint32 (length rec.value)) tail,
      length-append rec.value (tomb_byte rec.tombstone ∷ []),
      length-put_uint32,
    )

-- A record that fits the limits is read back whole from the bytes that it is written as, whatever
-- stands behind them, with its exact size and the rest of the file.
pub read_one_record-wire :
    (limits : ReplayLimits) (rec : Record) (rest : Bytes)
    → Fits limits rec
    → read_one_record limits (wire rec ++ rest) ≡ ok (rec, length (wire rec), rest)
read_one_record-wire limits rec rest h =
    let c = crc32 (body rec.key rec.value (tomb_byte rec.tombstone)) in
    rw (
      wire-split rec rest,
      read_one_record-append limits rec.key rec.value _ h.key_fits h.valid,
      read_value-append limits rec.key rec.value _ h.value_fits h.valid,
      read_tombstone-append limits rec.key rec.value (tomb_byte rec.tombstone) _,
      read_checksum-append limits rec.key rec.value (tomb_byte rec.tombstone) c rest,
      mod-eq_of_lt (crc32-lt (body rec.key rec.value (tomb_byte rec.tombstone))),
      check_sum_lem limits rec.key rec.value rec.tombstone rest,
      length-wire rec,
    )
