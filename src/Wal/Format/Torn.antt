-- ===== src/Wal/Format/Torn.antt =====
-- A crash in the middle of a write leaves a proper prefix of a record's bytes, and
-- `read_one_record` reports it as the unexpected end of the file.
use pebble_db.Prelude.{
  ℕ, zero, suc, ◌+◌, ◌-◌, ◌^◌, ◌<◌, ◌≡◌, refl, ◌∙◌, [], ◌∷◌, ◌++◌, arith, length, take,
  take-append_ge, length-take, length-append, append-nil, none,
}
use native.Mathlib.Decide.{dec_lt}
use native.Mathlib.Nat.{mod-eq_of_lt}
use pebble_db.Bytes.{Bytes}
use pebble_db.Result.{err}
use pebble_db.Codec.{put_uint32, read_full, crc32, unexpected_eof}
use pebble_db.Codec.Laws.{
  length-put_uint32, uint32-put_self, read_full-append, read_full-nil, read_full_short,
}
use pebble_db.Wal.Limits.{ReplayLimits, read_error, validate_record}
use pebble_db.Wal.Format.{
  Record, tomb_byte, body, plain, map_record_eof, read_checksum, read_tombstone, read_value,
  read_one_record,
}
use pebble_db.Wal.Format.RoundTrip.{
  wire, wire-split, length-wire, Fits, read_one_record-append, read_value-append,
  read_tombstone-append, validate_parts,
}

-- Inside a record, every short read is the same error.
map_record_eof-short :
    (n : ℕ) (xs : Bytes)
    → length xs < n
    → map_record_eof (read_full n xs) ≡ err (read_error unexpected_eof)
unfolding map_record_eof
map_record_eof-short n [] h = rw (read_full-nil n h)
map_record_eof-short n (x ∷ xs) h = rw (read_full_short n (x ∷ xs) (omega arith) h)

length-take_short :
    (k n : ℕ) (xs ys : Bytes) → k < n → length xs ≡ n → length (take k (xs ++ ys)) < n
length-take_short k n xs ys h e = omega (arith, length-take k (xs ++ ys))

module _ (limits : ReplayLimits) (key value : Bytes) where
  read_checksum-torn :
      (tomb c k : ℕ)
      → k < 4
      → read_checksum key value tomb (take k (put_uint32 c)) ≡ err (read_error unexpected_eof)
  unfolding read_checksum
  read_checksum-torn tomb c k h =
      rw (
        map_record_eof-short 4 (take k (put_uint32 c))
          (omega (arith, length-take k (put_uint32 c))))

  read_tombstone-torn :
      (tomb c k : ℕ)
      → k < 5
      → read_tombstone key value (take k ((tomb ∷ []) ++ put_uint32 c))
        ≡ err (read_error unexpected_eof)
  read_tombstone-torn tomb c zero h =
      unfold read_tombstone in rw (map_record_eof-short 1 [] (omega arith))
  read_tombstone-torn tomb c (suc k) h =
      read_tombstone-append limits key value tomb (take k (put_uint32 c))
      ∙ read_checksum-torn tomb c k (omega arith)

  -- The value's bytes run out.
  read_value-short :
      (d : Bytes)
      → length value < 2 ^ 32
      → validate_record limits (length key) (length value) ≡ none
      → length d < length value
      → read_value limits (length key) key (put_uint32 (length value) ++ d)
        ≡ err (read_error unexpected_eof)
  unfolding read_value map_record_eof
  read_value-short d small valid h = rw (
    read_full-append 4 (put_uint32 (length value)) d (length-put_uint32 _),
    uint32-put_self (length value),
    mod-eq_of_lt small,
    (validate_parts limits (length key) (length value) valid).1,
    valid,
    map_record_eof-short (length value) d h,
  )

  read_value-torn :
      (tomb c k : ℕ)
      → length value < 2 ^ 32
      → validate_record limits (length key) (length value) ≡ none
      → k < length value + 9
      → read_value limits
          (length key)
          key
          (take k (put_uint32 (length value) ++ (value ++ ((tomb ∷ []) ++ put_uint32 c))))
        ≡ err (read_error unexpected_eof)
  read_value-torn tomb c k small valid h =
      let tail : Bytes = (tomb ∷ []) ++ put_uint32 c in
      elim (dec_lt k 4) [
        | yes p ↦
            unfold read_value in
            rw (
              map_record_eof-short 4 (take k (put_uint32 (length value) ++ (value ++ tail))) (
                length-take_short k 4 (put_uint32 (length value)) (value ++ tail) p
                  (length-put_uint32 _)))
        | no p ↦
            rw
              (take-append_ge k (put_uint32 (length value)) (value ++ tail)
                (omega (arith, length-put_uint32 (length value))))
              (elim (dec_lt (k - 4) (length value)) [
                | yes q ↦
                    read_value-short (take (k - length (put_uint32 (length value))) (value ++ tail))
                      small valid
                      (length-take_short (k - length (put_uint32 (length value))) (length value)
                        value tail (omega (arith, length-put_uint32 (length value))) refl)
                | no q ↦
                    rw
                      (
                        take-append_ge (k - length (put_uint32 (length value))) value tail
                            (omega (arith, length-put_uint32 (length value))),
                        read_value-append limits key value
                            (take (k - length (put_uint32 (length value)) - length value) tail)
                            small valid,
                      )
                      (read_tombstone-torn tomb c
                        (k - length (put_uint32 (length value)) - length value)
                        (omega (arith, length-put_uint32 (length value))))
              ])
      ]

  -- The key's bytes run out.
  read_one_record-short :
      (d : Bytes)
      → length key < 2 ^ 32
      → validate_record limits (length key) (length value) ≡ none
      → length d < length key
      → read_one_record limits (put_uint32 (length key) ++ d) ≡ err (read_error unexpected_eof)
  unfolding read_one_record map_record_eof
  read_one_record-short d small valid h = rw (
    read_full-append 4 (put_uint32 (length key)) d (length-put_uint32 _),
    uint32-put_self (length key),
    mod-eq_of_lt small,
    (validate_parts limits (length key) (length value) valid).0,
    map_record_eof-short (length key) d h,
  )

module _ (limits : ReplayLimits) (rec : Record) (fits : Fits limits rec) where
  abbrev tail : Bytes
  tail =
      (tomb_byte rec.tombstone ∷ [])
      ++ put_uint32 (crc32 (body rec.key rec.value (tomb_byte rec.tombstone)))

  abbrev back : Bytes
  back = put_uint32 (length rec.value) ++ (rec.value ++ tail)

  wire-parts : wire rec ≡ put_uint32 (length rec.key) ++ (rec.key ++ back)
  wire-parts = simp append-nil at (wire-split rec [])

  -- Past the four bytes of the key's length.
  read_key-torn :
      (k : ℕ)
      → k < length rec.key + length rec.value + 9
      → read_one_record limits (put_uint32 (length rec.key) ++ take k (rec.key ++ back))
        ≡ err (read_error unexpected_eof)
  read_key-torn k h = elim (dec_lt k (length rec.key)) [
    | yes p ↦
        read_one_record-short limits rec.key rec.value (take k (rec.key ++ back)) fits.key_fits
          fits.valid (length-take_short k (length rec.key) rec.key back p refl)
    | no p ↦
        rw
          (
            take-append_ge k rec.key back (omega arith),
            read_one_record-append limits rec.key rec.value (take (k - length rec.key) back)
                fits.key_fits fits.valid,
          )
          (read_value-torn limits rec.key rec.value (tomb_byte rec.tombstone)
            (crc32 (body rec.key rec.value (tomb_byte rec.tombstone))) (k - length rec.key)
            fits.value_fits fits.valid (omega arith))
  ]

  -- If a write stops after some, but not all, of a record's bytes, reading that tail reports the
  -- unexpected end of the file, for every place at which it may stop.
  pub read_one_record-torn :
      (k : ℕ)
      → 0 < k
      → k < length (wire rec)
      → read_one_record limits (take k (wire rec)) ≡ err (read_error unexpected_eof)
  read_one_record-torn k pos h = rw wire-parts (elim (dec_lt k 4) [
    | yes p ↦
        unfold read_one_record plain in
        rw (
          read_full_short 4 (take k (put_uint32 (length rec.key) ++ (rec.key ++ back)))
            (omega (
              arith,
              length-take k (put_uint32 (length rec.key) ++ (rec.key ++ back)),
              length-append (put_uint32 (length rec.key)) (rec.key ++ back),
              length-put_uint32 (length rec.key),
            ))
            (length-take_short k 4 (put_uint32 (length rec.key)) (rec.key ++ back) p
              (length-put_uint32 _)))
    | no p ↦
        rw
          (take-append_ge k (put_uint32 (length rec.key)) (rec.key ++ back)
            (omega (arith, length-put_uint32 (length rec.key))))
          (read_key-torn (k - length (put_uint32 (length rec.key)))
            (omega (arith, length-put_uint32 (length rec.key), length-wire rec)))
  ])
