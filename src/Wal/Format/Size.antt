-- ===== src/Wal/Format/Size.antt =====
-- How many bytes a record that was read takes.
use pebble_db.Prelude.{ℕ, ◌+◌, ◌≤◌, ◌≡◌, length, arith, length-drop, length-take, leb}
use pebble_db.Bytes.{Bytes}
use pebble_db.Result.{ok, ensure, >>=-eq-ok}
use pebble_db.Codec.{read_full, uint32}
use pebble_db.Wal.Limits.{ReplayLimits, validate_record, key_too_large, value_too_large}
use pebble_db.Wal.Format.{
  Record, read_one_record, map_record_eof, plain, from_option, check_sum, read_checksum,
  read_tombstone, read_value,
}

read_full-inv :
    (n : ℕ) (d : Bytes) (p : Bytes × Bytes)
    → read_full n d ≡ ok p
    → (length p.0 ≡ n) × (length d ≡ n + length p.1)
unfolding read_full
read_full-inv n d p h = ground (arith, length-take n d, length-drop n d)

map_record_eof-inv :
    (n : ℕ) (d : Bytes) (p : Bytes × Bytes)
    → map_record_eof (read_full n d) ≡ ok p
    → (length p.0 ≡ n) × (length d ≡ n + length p.1)
unfolding map_record_eof
map_record_eof-inv n d p h = ground (arith, read_full-inv n d p)

plain-inv :
    (n : ℕ) (d : Bytes) (p : Bytes × Bytes)
    → plain (read_full n d) ≡ ok p
    → (length p.0 ≡ n) × (length d ≡ n + length p.1)
unfolding plain
plain-inv n d p h = ground (arith, read_full-inv n d p)

-- `r` was read from `d` behind `before` bytes of the same record.
abbrev pub Took : ℕ → Bytes → Record × ℕ × Bytes → Type 0
Took before d r = (13 ≤ r.1) × (r.1 + length r.2 ≡ before + length d)

module _ (key : Bytes) where
  read_checksum-Took :
      (value : Bytes) (tomb : ℕ) (d : Bytes) (r : Record × ℕ × Bytes)
      → read_checksum key value tomb d ≡ ok r
      → Took (9 + length key + length value) d r
  unfolding read_checksum check_sum
  read_checksum-Took value tomb d r h =
      let (p, e, g) = >>=-eq-ok (map_record_eof (read_full 4 d)) _ h in
      ground (arith, map_record_eof-inv 4 d p e)

  read_tombstone-Took :
      (value : Bytes) (d : Bytes) (r : Record × ℕ × Bytes)
      → read_tombstone key value d ≡ ok r
      → Took (8 + length key + length value) d r
  unfolding read_tombstone
  read_tombstone-Took value d r h =
      let (p, e, g) = >>=-eq-ok (map_record_eof (read_full 1 d)) _ h in
      omega (arith, map_record_eof-inv 1 d p e, read_checksum-Took value _ p.1 r g)

  read_value-Took :
      (limits : ReplayLimits) (key_len : ℕ) (d : Bytes) (r : Record × ℕ × Bytes)
      → read_value limits key_len key d ≡ ok r
      → Took (4 + length key) d r
  unfolding read_value
  read_value-Took limits key_len d r h =
      let (p, e, g) = >>=-eq-ok (map_record_eof (read_full 4 d)) _ h in
      let len = uint32 p.0 in
      let (_, _, g') = >>=-eq-ok (ensure (leb len limits.max_value_size) value_too_large) _ g in
      let (_, _, g'') = >>=-eq-ok (from_option (validate_record limits key_len len)) _ g' in
      let (q, e', k) = >>=-eq-ok (map_record_eof (read_full len p.1)) _ g'' in
      omega (
        arith,
        map_record_eof-inv 4 d p e,
        map_record_eof-inv (uint32 p.0) p.1 q e',
        read_tombstone-Took q.0 q.1 r k,
      )

-- A record that was read takes at least thirteen bytes, all of them in the file, and what is left
-- is the rest of it.
pub read_one_record-Took :
    (limits : ReplayLimits) (d : Bytes) (r : Record × ℕ × Bytes)
    → read_one_record limits d ≡ ok r
    → Took 0 d r
unfolding read_one_record
read_one_record-Took limits d r h =
    let (p, e, g) = >>=-eq-ok (plain (read_full 4 d)) _ h in
    let len = uint32 p.0 in
    let (_, _, g') = >>=-eq-ok (ensure (leb len limits.max_key_size) key_too_large) _ g in
    let (q, e', k) = >>=-eq-ok (map_record_eof (read_full len p.1)) _ g' in
    omega (
      arith,
      plain-inv 4 d p e,
      map_record_eof-inv (uint32 p.0) p.1 q e',
      read_value-Took q.0 limits (uint32 p.0) q.1 r k,
    )
