-- ===== src/Bytes.antt =====
-- Byte slices as lists of byte values, and how keys are ordered: `less` and `equal` of
-- internal/memtable/skiplist.go, and the standard library's `bytes.Compare`.
pub mod Order
use pebble_db.Prelude.{
  ℕ, zero, suc, compare, Ordering, ltb, ◌==◌, if◌then◌else◌, Bool, true, false, List, [], ◌∷◌,
  length, Option, none, some, not,
}

abbrev pub Bytes : Type 0
Bytes = List ℕ

-- `bytes.Compare`
unfoldable pub compare_bytes : Bytes → Bytes → Ordering
compare_bytes [] [] = Ordering.eq
compare_bytes [] (y ∷ b) = Ordering.lt
compare_bytes (x ∷ a) [] = Ordering.gt
compare_bytes (x ∷ a) (y ∷ b) = elim (compare x y) [
  | Ordering.lt ↦ Ordering.lt
  | Ordering.eq ↦ compare_bytes a b
  | Ordering.gt ↦ Ordering.gt
]

-- The loop runs while both slices last; the first difference decides, else the lengths do.
unfoldable pub less : Bytes → Bytes → Bool
less [] b = ltb 0 (length b)
less (x ∷ a) [] = false
less (x ∷ a) (y ∷ b) = let rest = less a b in if x == y then rest else ltb x y

equal_loop : Bytes → Bytes → Bool
equal_loop (x ∷ a) (y ∷ b) = let rest = equal_loop a b in if x == y then rest else false
equal_loop a b = true

unfoldable pub equal : Bytes → Bytes → Bool
unfolding equal_loop
equal a b = if length a == length b then equal_loop a b else false

-- `append([]byte(nil), b...)`: a copy, which is `nil` where there is nothing to append.
unfoldable pub copy_slice : Bytes → Option Bytes
copy_slice [] = none
copy_slice (x ∷ b) = some (x ∷ b)
