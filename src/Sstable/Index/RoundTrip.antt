-- ===== src/Sstable/Index/RoundTrip.antt =====
-- An encoded index is decoded to its entries.
use native.Mathlib.Nat.{mod-eq_of_lt}
use pebble_db.Prelude.{
  ℕ, zero, suc, ◌+◌, ◌^◌, ◌<◌, ◌≤◌, ◌≡◌, refl, sym, ap, ◌∙◌, ltb, ◌==◌, false, List, [], ◌∷◌, ◌++◌,
  length, take, drop, arith, All, append_assoc, length-append, take-append, drop-append, drop-drop,
}
use pebble_db.Bytes.{Bytes}
use pebble_db.Result.{ok}
use pebble_db.Codec.{put_uint32, uint32, put_uint64, uint64}
use pebble_db.Codec.Laws.{uint32-put, length-put_uint32, uint64-put, length-put_uint64}
use pebble_db.Sstable.Index.{IndexEntry, entry_bytes, encode, prepend, decode_loop, decode_index}

pub record Fits (e : IndexEntry) : Type 0 where
  pub key : length e.last_key < 2 ^ 32
  pub offset : e.offset < 2 ^ 64
  pub length' : e.length' < 2 ^ 64

flat :
    (e : IndexEntry) (rest : Bytes)
    → entry_bytes e ++ rest
      ≡ put_uint32 (length e.last_key)
        ++ (e.last_key ++ (put_uint64 e.offset ++ (put_uint64 e.length' ++ rest)))
unfolding entry_bytes
flat e rest =
    let n = put_uint32 (length e.last_key) in
    let tail = put_uint64 e.offset ++ put_uint64 e.length' in
    append_assoc n (e.last_key ++ tail) rest
    ∙ ap (λ b. n ++ b)
        (append_assoc e.last_key tail rest
          ∙ ap (λ b. e.last_key ++ b)
              (append_assoc (put_uint64 e.offset) (put_uint64 e.length') rest))

length-entry_bytes : (e : IndexEntry) → length (entry_bytes e) ≡ 4 + length e.last_key + 16
unfolding entry_bytes
length-entry_bytes e =
    let tail = put_uint64 e.offset ++ put_uint64 e.length' in
    omega (
      arith,
      length-append (put_uint32 (length e.last_key)) (e.last_key ++ tail),
      length-append e.last_key tail,
      length-append (put_uint64 e.offset) (put_uint64 e.length'),
      length-put_uint32 (length e.last_key),
      length-put_uint64 e.offset,
      length-put_uint64 e.length',
    )

decode_loop-entry :
    (fuel : ℕ) (e : IndexEntry) (rest : Bytes)
    → Fits e
    → decode_loop (suc fuel) (entry_bytes e ++ rest) ≡ prepend e (decode_loop fuel rest)
unfolding decode_loop
decode_loop-entry fuel e rest h =
    let bs = entry_bytes e ++ rest in
    let n = length e.last_key in
    let numbers = put_uint64 e.offset ++ (put_uint64 e.length' ++ rest) in
    let size = length-put_uint32 n in
    let whole : length bs ≡ 4 + n + 16 + length rest =
      omega (arith, length-append (entry_bytes e) rest, length-entry_bytes e) in
    let len : uint32 bs ≡ n =
      ap uint32 (flat e rest) ∙ uint32-put n (e.last_key ++ numbers) ∙ mod-eq_of_lt h.key in
    let four : drop 4 bs ≡ e.last_key ++ numbers =
      ap (drop 4) (flat e rest) ∙ drop-append 4 (put_uint32 n) (e.last_key ++ numbers) size in
    let key : take n (drop 4 bs) ≡ e.last_key =
      ap (take n) four ∙ take-append n e.last_key numbers refl in
    let behind : drop (4 + n) bs ≡ numbers =
      sym (drop-drop 4 n bs) ∙ ap (drop n) four ∙ drop-append n e.last_key numbers refl in
    let offset : uint64 numbers ≡ e.offset =
      uint64-put e.offset (put_uint64 e.length' ++ rest) h.offset in
    let eight : drop 8 numbers ≡ put_uint64 e.length' ++ rest =
      drop-append 8 (put_uint64 e.offset) (put_uint64 e.length' ++ rest)
        (length-put_uint64 e.offset) in
    let size' : uint64 (put_uint64 e.length' ++ rest) ≡ e.length' =
      uint64-put e.length' rest h.length' in
    let tail : drop (4 + n + 16) bs ≡ rest =
      drop-append (4 + n + 16) (entry_bytes e) rest (length-entry_bytes e) in
    let f0 : (length bs == 0) ≡ false = ground (arith, whole) in
    let f1 : ltb (length bs) 4 ≡ false = ground (arith, whole) in
    let f2 : ltb (length bs) (4 + n) ≡ false = ground (arith, whole) in
    let f3 : ltb (length bs) (4 + n + 16) ≡ false = ground (arith, whole) in
    rw (f0, f1, len, f2, f3, key, behind, offset, eight, size', tail) refl

decode_loop-encode :
    (es : List IndexEntry) (fuel : ℕ)
    → All Fits es
    → length (encode es) ≤ fuel
    → decode_loop fuel (encode es) ≡ ok es
unfolding encode prepend
decode_loop-encode [] zero h enough = unfold decode_loop in refl
decode_loop-encode [] (suc fuel) h enough = unfold decode_loop in refl
decode_loop-encode (e ∷ es) zero h enough =
    absurd (omega (arith, length-append (entry_bytes e) (encode es), length-entry_bytes e))
decode_loop-encode (e ∷ es) (suc fuel) h enough =
    decode_loop-entry fuel e (encode es) h.0
    ∙ ap (prepend e) (
        decode_loop-encode es fuel h.1
          (omega (arith, length-append (entry_bytes e) (encode es), length-entry_bytes e)))

-- The entries of an encoded index are read back, all of them and in order, if the lengths of the keys
-- have 32 bits and the offsets and lengths 64.
pub decode_index-encode : (es : List IndexEntry) → All Fits es → decode_index (encode es) ≡ ok es
unfolding decode_index
decode_index-encode es h = decode_loop-encode es (length (encode es)) h (omega arith)
