-- ===== src/Bloom/Encoding.antt =====
-- The filter on disk.
use pebble_db.Prelude.{
  ◌+◌, ◌/◌, ◌^◌, ◌<◌, ◌≡◌, refl, ◌∙◌, ltb, ◌==◌, false, some, ◌++◌, length, take, drop, arith,
  length-append, drop-append, take_all,
}
use native.Mathlib.Nat.{mod-eq_of_lt}
use pebble_db.Codec.{put_uint32, uint32}
use pebble_db.Codec.Laws.{uint32-put, length-put_uint32}
use pebble_db.Bloom.{Filter, encode, decode}

-- A filter with bits and hash functions, numbers of 32 bits, is read back as it was written, but for
-- the count of its keys, which is not stored.
pub decode-encode :
    (f : Filter)
    → 0 < f.m
    → f.m < 2 ^ 32
    → 0 < f.k
    → f.k < 2 ^ 32
    → length f.bits ≡ (f.m + 7) / 8
    → decode (encode f) ≡ some (record f { n = 0 })
unfolding decode
decode-encode f pm hm pk hk size =
    let rest = put_uint32 f.m ++ f.bits in
    let k : uint32 (encode f) ≡ f.k = unfold encode in (uint32-put f.k rest ∙ mod-eq_of_lt hk) in
    let back : drop 4 (encode f) ≡ rest =
      unfold encode in drop-append 4 (put_uint32 f.k) rest (length-put_uint32 f.k) in
    let m : uint32 rest ≡ f.m = uint32-put f.m f.bits ∙ mod-eq_of_lt hm in
    let bits : drop 8 (encode f) ≡ f.bits = unfold encode put_uint32 in refl in
    let long : length (encode f) ≡ 8 + length f.bits =
      unfold encode in
      omega (
        arith,
        length-append (put_uint32 f.k) rest,
        length-append (put_uint32 f.m) f.bits,
        length-put_uint32 f.k,
        length-put_uint32 f.m,
      ) in
    let f1 : ltb (length (encode f)) 8 ≡ false = ground (arith, long) in
    let f2 : (f.m == 0) ≡ false = ground (arith, pm) in
    let f3 : (f.k == 0) ≡ false = ground (arith, pk) in
    let f4 : ltb (length f.bits) ((f.m + 7) / 8) ≡ false = ground (arith, size) in
    let f5 : take ((f.m + 7) / 8) f.bits ≡ f.bits =
      take_all ((f.m + 7) / 8) f.bits (omega (arith, size)) in
    rw (f1, back, m, k, bits, f2, f3, f4, f5) refl

pub length-encode : (f : Filter) → length (encode f) ≡ 8 + length f.bits
unfolding encode
length-encode f =
    let rest = put_uint32 f.m ++ f.bits in
    omega (
      arith,
      length-append (put_uint32 f.k) rest,
      length-append (put_uint32 f.m) f.bits,
      length-put_uint32 f.k,
      length-put_uint32 f.m,
    )
