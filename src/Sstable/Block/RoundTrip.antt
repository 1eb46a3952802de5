-- ===== src/Sstable/Block/RoundTrip.antt =====
-- What is appended to a block is read from it.
use native.Mathlib.Nat.{mod-eq_of_lt}
use pebble_db.Prelude.{
  ℕ, suc, ◌+◌, ◌^◌, ◌<◌, ◌≤◌, ◌≡◌, refl, sym, ap, ◌∙◌, leb, ◌==◌, if◌then◌else◌, Bool, true, false,
  some, [], ◌∷◌, ◌++◌, length, take, drop, arith, le→ltb, append_assoc, length-append, take-append,
  drop-append, drop-drop, length-drop,
}
use pebble_db.Bytes.{Bytes}
use pebble_db.Codec.{put_uint32, uint32}
use pebble_db.Codec.Laws.{uint32-put, length-put_uint32}
use pebble_db.Sstable.Block.{entry_bytes, BlockIterator, next_tombstone, next_value, next}

-- A field behind its length, at a position of the data.
record FieldAt (data' : Bytes) (pos : ℕ) (field tail : Bytes) : Type 0 where
  len : uint32 (drop pos data') ≡ length field
  has_len : pos + 4 ≤ length data'
  has_field : pos + 4 + length field ≤ length data'
  read : take (length field) (drop (pos + 4) data') ≡ field
  behind : drop (pos + 4 + length field) data' ≡ tail

field_at :
    (data' : Bytes) (pos : ℕ) (field tail : Bytes)
    → drop pos data' ≡ put_uint32 (length field) ++ (field ++ tail)
    → pos ≤ length data'
    → length field < 2 ^ 32
    → FieldAt data' pos field tail
field_at data' pos field tail at inside fits =
    let size = length-put_uint32 (length field) in
    let four : drop (pos + 4) data' ≡ field ++ tail =
      sym (drop-drop pos 4 data')
      ∙ ap (drop 4) at
      ∙ drop-append 4 (put_uint32 (length field)) (field ++ tail) size in
    let left : length (drop pos data') ≡ 4 + (length field + length tail) =
      ap length at
      ∙ omega (
        arith,
        length-append (put_uint32 (length field)) (field ++ tail),
        length-append field tail,
        size,
      ) in
    let whole = length-drop pos data' in
    record {
      len = ap uint32 at ∙ uint32-put (length field) (field ++ tail) ∙ mod-eq_of_lt fits;
      has_len = omega (arith, left, whole);
      has_field = omega (arith, left, whole);
      read = ap (take (length field)) four ∙ take-append (length field) field tail refl;
      behind =
          sym (drop-drop (pos + 4) (length field) data')
          ∙ ap (drop (length field)) four
          ∙ drop-append (length field) field tail refl;
    }

bit-tombstone : (b : Bool) → ((if b then 1 else 0) == 1) ≡ b
bit-tombstone true = refl
bit-tombstone false = refl

next_tombstone-ok :
    (it : BlockIterator) (b : ℕ) (rest : Bytes)
    → drop it.pos it.data' ≡ b ∷ rest
    → it.pos < length it.data'
    → next_tombstone it ≡ (record it { pos = it.pos + 1; tombstone = b == 1 }, true)
unfolding next_tombstone
next_tombstone-ok it b rest at inside =
    let f : leb (length it.data') it.pos ≡ false = ground (arith, inside) in rw (f, at)

next_value-ok :
    (it : BlockIterator) (value tail : Bytes)
    → FieldAt it.data' it.pos value tail
    → next_value it
      ≡ next_tombstone (record it { pos = it.pos + 4 + length value; val = some value })
unfolding next_value
next_value-ok it value tail f = rw (
  le→ltb (length it.data') (it.pos + 4) f.has_len,
  f.len,
  le→ltb (length it.data') (it.pos + 4 + length value) f.has_field,
  f.read,
)

next-ok :
    (it : BlockIterator) (key tail : Bytes)
    → FieldAt it.data' it.pos key tail
    → next it ≡ next_value (record it { pos = it.pos + 4 + length key; key = some key })
unfolding next
next-ok it key tail f = rw (
  le→ltb (length it.data') (it.pos + 4) f.has_len,
  f.len,
  le→ltb (length it.data') (it.pos + 4 + length key) f.has_field,
  f.read,
)

entry_bytes-flat :
    (key value rest : Bytes) (tombstone : Bool)
    → entry_bytes key value tombstone ++ rest
      ≡ put_uint32 (length key)
        ++ (key ++ (put_uint32 (length value) ++ (value ++ (if tombstone then 1 else 0) ∷ rest)))
unfolding entry_bytes
entry_bytes-flat key value rest tombstone =
    let bit : Bytes = (if tombstone then 1 else 0) ∷ [] in
    let n = put_uint32 (length value) in
    append_assoc (put_uint32 (length key)) (key ++ (n ++ (value ++ bit))) rest
    ∙ ap (λ b. put_uint32 (length key) ++ b)
        (append_assoc key (n ++ (value ++ bit)) rest
          ∙ ap (λ b. key ++ b)
              (append_assoc n (value ++ bit) rest ∙ ap (λ b. n ++ b) (append_assoc value bit rest)))

pub length-entry_bytes :
    (key value : Bytes) (tombstone : Bool)
    → length (entry_bytes key value tombstone) ≡ 4 + length key + (4 + length value + 1)
unfolding entry_bytes
length-entry_bytes key value tombstone =
    let bit : Bytes = (if tombstone then 1 else 0) ∷ [] in
    let n = put_uint32 (length value) in
    omega (
      arith,
      length-append (put_uint32 (length key)) (key ++ (n ++ (value ++ bit))),
      length-append key (n ++ (value ++ bit)),
      length-append n (value ++ bit),
      length-append value bit,
      length-put_uint32 (length key),
      length-put_uint32 (length value),
    )

-- Where the data has an appended entry behind the position, `Next` returns true and stands at that
-- entry's key, value and tombstone flag, at the position behind it. The position is in the data, and
-- key and value are of lengths of 32 bits.
pub next-entry_bytes :
    (it : BlockIterator) (key value : Bytes) (tombstone : Bool) (rest : Bytes)
    → it.pos ≤ length it.data'
    → length key < 2 ^ 32
    → length value < 2 ^ 32
    → drop it.pos it.data' ≡ entry_bytes key value tombstone ++ rest
    → next it ≡ (
      record {
        data' = it.data';
        pos = it.pos + length (entry_bytes key value tombstone);
        key = some key;
        val = some value;
        tombstone = tombstone;
      },
      true,
    )
next-entry_bytes it key value tombstone rest inside hk hv at =
    let d = it.data' in
    let bit : ℕ = if tombstone then 1 else 0 in
    let value_part : Bytes = put_uint32 (length value) ++ (value ++ bit ∷ rest) in
    let k =
      field_at d it.pos key value_part (at ∙ entry_bytes-flat key value rest tombstone) inside hk in
    let p = it.pos + 4 + length key in
    let v = field_at d p value (bit ∷ rest) k.behind k.has_field hv in
    let q = p + 4 + length value in
    let it1 : BlockIterator = record it { pos = p; key = some key } in
    let it2 : BlockIterator = record it1 { pos = q; val = some value } in
    let left : length (drop q d) ≡ suc (length rest) = ap length v.behind in
    let ends : q + 1 ≡ it.pos + length (entry_bytes key value tombstone) =
      omega (arith, length-entry_bytes key value tombstone) in
    next-ok it key value_part k
    ∙ next_value-ok it1 value (bit ∷ rest) v
    ∙ next_tombstone-ok it2 bit rest v.behind (omega (arith, left, length-drop q d))
    ∙ ap (λ n. (record it2 { pos = n; tombstone = bit == 1 }, true)) ends
    ∙ ap
        (λ t. (
          record it2 { pos = it.pos + length (entry_bytes key value tombstone); tombstone = t },
          true,
        ))
        (bit-tombstone tombstone)
