-- ===== src/Bloom/Bits.antt =====
-- Setting a bit of a byte and testing one: all the values of a byte and of two bit numbers, checked.
use Prim.Native.Nat.{bit_and, bit_or}
use pebble_db.Prelude.{
  ℕ, zero, suc, ◌/◌, ◌%◌, ◌^◌, ◌<◌, ◌≡◌, refl, ltb, ◌==◌, if◌then◌else◌, Bool, true, false, ◌&&◌,
  ◌||◌, arith,
}

abbrev pub byte_test : ℕ → ℕ → Bool
byte_test x b = if bit_and x (2 ^ b) == 0 then false else true

abbrev pub agree : Bool → Bool → Bool
agree a b = if a then b else if b then false else true

-- `n` counts triples: a byte, the bit that is set, and the bit that is tested.
unfoldable pub holds_at : ℕ → Bool
holds_at n =
    let x = n / 64 in
    let j = n / 8 % 8 in
    let i = n % 8 in
    ltb (bit_or x (2 ^ j)) 256 && agree (byte_test (bit_or x (2 ^ j)) i) (i == j || byte_test x i)

-- A test of every number below a bound.
unfoldable pub passes : (ℕ → Bool) → ℕ → Bool
passes test zero = true
passes test (suc bound) = elim (test bound) [ true ↦ passes test bound | false ↦ false ]

pub test-true_of_passes :
    (test : ℕ → Bool) (bound at : ℕ) → at < bound → passes test bound ≡ true → test at ≡ true
unfolding passes
test-true_of_passes test zero at inside all = absurd (omega arith)
test-true_of_passes test (suc bound) at inside all =
    ground (arith, test-true_of_passes test bound at)

pub table : passes holds_at 16384 ≡ true
unfolding passes holds_at
table = refl
