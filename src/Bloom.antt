-- ===== src/Bloom.antt =====
-- The Bloom filter of internal/bloom/bloom.go. The two sizes that `New` computes in floating point
-- are arguments of the model's `new`; from there on it does what the source does.
pub mod Bits
pub mod Member
pub mod Encoding
pub mod New
use Prim.Native.Nat.{bit_and, bit_or, bit_xor}
use mathlib.Core.List.{foldl}
use pebble_db.Prelude.{
  ℕ, zero, suc, ◌+◌, ◌-◌, ◌*◌, ◌/◌, ◌%◌, ◌^◌, ltb, leb, ◌==◌, if◌then◌else◌, Bool, true, false,
  Option, none, some, List, [], ◌∷◌, ◌++◌, length, take, drop,
}
use pebble_db.Bytes.{Bytes}
use pebble_db.Codec.{put_uint32, uint32}

-- `uint` has 64 bits; `k` is the number of hash functions, `m` the size in bits.
pub record Filter : Type 0 where
  pub bits : Bytes
  pub k : ℕ
  pub n : ℕ
  pub m : ℕ

unfoldable pub zeros : ℕ → Bytes
zeros zero = []
zeros (suc n) = 0 ∷ zeros n

unfoldable pub clamp : ℕ → ℕ
clamp k = if ltb k 1 then 1 else if ltb 30 k then 30 else k

-- `m` and `k` as the two formulas give them. `(m + 7) & ^7` is the next multiple of eight.
unfoldable pub new : ℕ → ℕ → Filter
unfolding zeros clamp
new m k =
    let aligned = (m + 7) / 8 * 8 in
    record { bits = zeros (aligned / 8); k = clamp k; n = 0; m = aligned }

-- `hash/fnv` with 64 bits, the variant that xors first.
unfoldable pub fnv_step : ℕ → ℕ → ℕ
fnv_step h b = bit_xor h b * 0x100000001b3 % 2 ^ 64

unfoldable pub fnv64a : Bytes → ℕ
unfolding fnv_step
fnv64a key = foldl fnv_step 0xcbf29ce484222325 key

-- The bit that hash function `i` gives, from the sum of the key.
unfoldable pub bit_index : ℕ → ℕ → ℕ → ℕ
bit_index m sum i = (sum + i * (sum / 2 ^ 32) % 2 ^ 64) % 2 ^ 64 % m

-- `f.bits[j] |= 1 << b` and `f.bits[j] & (1 << b) != 0`. An index is in range by construction.
unfoldable pub set_bit : Bytes → ℕ → ℕ → Bytes
set_bit [] j b = []
set_bit (x ∷ r) zero b = bit_or x (2 ^ b) ∷ r
set_bit (x ∷ r) (suc j) b = x ∷ set_bit r j b

pub test_bit : Bytes → ℕ → ℕ → Bool
test_bit [] j b = false
test_bit (x ∷ r) zero b = if bit_and x (2 ^ b) == 0 then false else true
test_bit (x ∷ r) (suc j) b = test_bit r j b

unfoldable pub set_index : Bytes → ℕ → Bytes
unfolding set_bit
set_index bits idx = set_bit bits (idx / 8) (idx % 8)

pub test_index : Bytes → ℕ → Bool
unfolding test_bit
test_index bits idx = test_bit bits (idx / 8) (idx % 8)

-- The loops over the hash functions `i`, with the number of them that are left.
unfoldable pub add_loop : ℕ → ℕ → ℕ → ℕ → Bytes → Bytes
unfolding set_index bit_index
add_loop m sum i zero bits = bits
add_loop m sum i (suc left) bits = add_loop m sum (i + 1) left (set_index bits (bit_index m sum i))

pub may_loop : ℕ → ℕ → ℕ → ℕ → Bytes → Bool
unfolding test_index bit_index
may_loop m sum i zero bits = true
may_loop m sum i (suc left) bits =
    let later = may_loop m sum (i + 1) left bits in
    if test_index bits (bit_index m sum i) then later else false

-- A nil filter is `none`.
unfoldable pub add : Filter → Bytes → Filter
unfolding fnv64a add_loop
add f key =
    if f.m == 0 then f else record f { bits = add_loop f.m (fnv64a key) 0 f.k f.bits; n = f.n + 1 }

unfoldable pub may_contain : Option Filter → Bytes → Bool
unfolding fnv64a may_loop
may_contain none key = true
may_contain (some f) key = if f.m == 0 then true else may_loop f.m (fnv64a key) 0 f.k f.bits

unfoldable pub encode : Filter → Bytes
encode f = put_uint32 f.k ++ (put_uint32 f.m ++ f.bits)

unfoldable pub decode : Bytes → Option Filter
decode data' =
    if ltb (length data') 8
    then none
    else (let k = uint32 data' in
        let m = uint32 (drop 4 data') in
        if m == 0
        then none
        else if k == 0
        then none
        else (let bits = drop 8 data' in
            let expected = (m + 7) / 8 in
            if ltb (length bits) expected
            then none
            else some (record { bits = take expected bits; k = k; n = 0; m = m })))
