-- ===== src/Codec.antt =====
-- The standard library's codecs that the on-disk formats use: `binary.BigEndian`, `io.ReadFull`
-- and `crc32.ChecksumIEEE`.
pub mod Laws
use Prim.Native.Nat.{bit_xor}
use mathlib.Core.List.{foldl}
use pebble_db.Prelude.{
  ℕ, zero, suc, ◌+◌, ◌*◌, ◌/◌, ◌%◌, ◌^◌, List, [], ◌∷◌, ◌++◌, leb, ◌==◌, if◌then◌else◌, length,
  take, drop,
}
use pebble_db.Bytes.{Bytes}
use pebble_db.Result.{Result, ok, err}

-- `PutUint32` and `AppendUint32`: four bytes, the highest first, of a value modulo 2 ^ 32.
unfoldable pub put_uint32 : ℕ → Bytes
put_uint32 n = (n / 0x1000000 % 256) ∷ (n / 0x10000 % 256) ∷ (n / 0x100 % 256) ∷ (n % 256) ∷ []

-- `Uint32` reads the first four bytes. Every caller has checked that they are there.
unfoldable pub uint32 : Bytes → ℕ
uint32 (a ∷ b ∷ c ∷ d ∷ _) = a * 0x1000000 + b * 0x10000 + c * 0x100 + d
uint32 _ = 0

unfoldable pub put_uint64 : ℕ → Bytes
unfolding put_uint32
put_uint64 n = put_uint32 (n / 2 ^ 32) ++ put_uint32 n

unfoldable pub uint64 : Bytes → ℕ
unfolding uint32
uint64 data' = uint32 data' * 2 ^ 32 + uint32 (drop 4 data')

pub data ReadError : Type 0 where
  eof unexpected_eof : ReadError

-- `io.ReadFull`: the bytes read, and those left. No byte at all is `EOF`, too few `ErrUnexpectedEOF`.
unfoldable pub read_full : ℕ → Bytes → Result ReadError (Bytes × Bytes)
read_full n r =
    if leb n (length r)
    then ok (take n r, drop n r)
    else if length r == 0
    then err eof
    else err unexpected_eof

-- One bit of the reflected CRC with the IEEE polynomial.
crc_bit : ℕ → ℕ
crc_bit c = if c % 2 == 1 then bit_xor (c / 2) 0xedb88320 else c / 2

crc_bits : ℕ → ℕ → ℕ
unfolding crc_bit
crc_bits zero c = c
crc_bits (suc n) c = crc_bits n (crc_bit c)

crc_byte : ℕ → ℕ → ℕ
unfolding crc_bits
crc_byte c b = crc_bits 8 (bit_xor c b)

unfoldable pub crc32 : Bytes → ℕ
unfolding crc_byte
crc32 data' = bit_xor (foldl crc_byte 0xffffffff data') 0xffffffff % 2 ^ 32
