-- ===== src/Codec/Laws.antt =====
-- Round trips of the integer codecs, and how reads behave at the seam of two pieces.
use pebble_db.Prelude.{
  ℕ, ◌%◌, ◌^◌, ◌<◌, ◌≡◌, refl, [], ◌∷◌, ◌++◌, arith, length, take-append, drop-append,
  length-append, le→leb,
}
use pebble_db.Bytes.{Bytes}
use pebble_db.Result.{ok, err}
use pebble_db.Codec.{put_uint32, uint32, put_uint64, uint64, read_full, crc32, eof, unexpected_eof}

pub length-put_uint32 : (n : ℕ) → length (put_uint32 n) ≡ 4
unfolding put_uint32
length-put_uint32 n = refl

pub uint32-put : (n : ℕ) (rest : Bytes) → uint32 (put_uint32 n ++ rest) ≡ n % 2 ^ 32
unfolding put_uint32 uint32
uint32-put n rest = omega arith

pub uint32-put_self : (n : ℕ) → uint32 (put_uint32 n) ≡ n % 2 ^ 32
unfolding put_uint32 uint32
uint32-put_self n = omega arith

pub length-put_uint64 : (n : ℕ) → length (put_uint64 n) ≡ 8
unfolding put_uint64
length-put_uint64 n = refl

pub uint64-put : (n : ℕ) (rest : Bytes) → n < 2 ^ 64 → uint64 (put_uint64 n ++ rest) ≡ n
unfolding put_uint64 uint64
uint64-put n rest h = omega arith

pub uint64-put_self : (n : ℕ) → n < 2 ^ 64 → uint64 (put_uint64 n) ≡ n
unfolding put_uint64 uint64
uint64-put_self n h = omega arith

pub crc32-lt : (data' : Bytes) → crc32 data' < 2 ^ 32
unfolding crc32
crc32-lt data' = omega arith

pub read_full-append :
    (n : ℕ) (xs ys : Bytes) → length xs ≡ n → read_full n (xs ++ ys) ≡ ok (xs, ys)
unfolding read_full
read_full-append n xs ys h = rw (
  le→leb n (length (xs ++ ys)) (omega (arith, length-append xs ys)),
  take-append n xs ys h,
  drop-append n xs ys h,
)

pub read_full_short :
    (n : ℕ) (xs : Bytes) → 0 < length xs → length xs < n → read_full n xs ≡ err unexpected_eof
unfolding read_full
read_full_short n xs h k = ground arith

pub read_full-nil : (n : ℕ) → 0 < n → read_full n [] ≡ err eof
unfolding read_full
read_full-nil n h = ground arith

-- The published check value of the polynomial: the digits one to nine.
crc32_check_value :
    crc32 (b'1' ∷ b'2' ∷ b'3' ∷ b'4' ∷ b'5' ∷ b'6' ∷ b'7' ∷ b'8' ∷ b'9' ∷ []) ≡ 0xcbf43926
unfolding crc32
crc32_check_value = refl
