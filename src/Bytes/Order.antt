-- ===== src/Bytes/Order.antt =====
-- `compare_bytes` is a total order, and `less` and `equal` are its tests.
use pebble_db.Prelude.{◌≡◌, ◌≢◌, subst, sym, refl, Ordering, Bool, true, false, [], ◌∷◌, arith}
use pebble_db.Bytes.{Bytes, compare_bytes, less, equal}

pub compare_bytes_refl : (a : Bytes) → compare_bytes a a ≡ Ordering.eq
unfolding compare_bytes
compare_bytes_refl [] = refl
compare_bytes_refl (x ∷ a) = ground (arith, compare_bytes_refl a)

pub eq_of_compare_bytes : (a b : Bytes) → compare_bytes a b ≡ Ordering.eq → a ≡ b
unfolding compare_bytes
eq_of_compare_bytes [] [] h = refl
eq_of_compare_bytes [] (y ∷ b) h = cc
eq_of_compare_bytes (x ∷ a) [] h = cc
eq_of_compare_bytes (x ∷ a) (y ∷ b) h = ground (arith, eq_of_compare_bytes a b)

pub gt_of_lt : (a b : Bytes) → compare_bytes a b ≡ Ordering.lt → compare_bytes b a ≡ Ordering.gt
unfolding compare_bytes
gt_of_lt [] [] h = cc
gt_of_lt [] (y ∷ b) h = refl
gt_of_lt (x ∷ a) [] h = cc
gt_of_lt (x ∷ a) (y ∷ b) h = ground (arith, gt_of_lt a b)

pub lt_of_gt : (a b : Bytes) → compare_bytes a b ≡ Ordering.gt → compare_bytes b a ≡ Ordering.lt
unfolding compare_bytes
lt_of_gt [] [] h = cc
lt_of_gt [] (y ∷ b) h = cc
lt_of_gt (x ∷ a) [] h = refl
lt_of_gt (x ∷ a) (y ∷ b) h = ground (arith, lt_of_gt a b)

pub lt_trans :
    (a b c : Bytes)
    → compare_bytes a b ≡ Ordering.lt
    → compare_bytes b c ≡ Ordering.lt
    → compare_bytes a c ≡ Ordering.lt
unfolding compare_bytes
lt_trans [] [] c h k = cc
lt_trans [] (y ∷ b) [] h k = cc
lt_trans [] (y ∷ b) (z ∷ c) h k = refl
lt_trans (x ∷ a) [] c h k = cc
lt_trans (x ∷ a) (y ∷ b) [] h k = cc
lt_trans (x ∷ a) (y ∷ b) (z ∷ c) h k = ground (arith, lt_trans a b c)

abbrev pub is_lt : Ordering → Bool
is_lt o = elim o [ Ordering.lt ↦ true | _ ↦ false ]

abbrev pub is_eq : Ordering → Bool
is_eq o = elim o [ Ordering.eq ↦ true | _ ↦ false ]

-- The memtable's hand-written `less` agrees with the library's comparison.
pub less-compare : (a b : Bytes) → less a b ≡ is_lt (compare_bytes a b)
unfolding less compare_bytes
less-compare [] [] = refl
less-compare [] (y ∷ b) = ground arith
less-compare (x ∷ a) [] = refl
less-compare (x ∷ a) (y ∷ b) = ground (arith, less-compare a b)

-- The memtable's hand-written `equal` agrees with the library's comparison.
pub equal-compare : (a b : Bytes) → equal a b ≡ is_eq (compare_bytes a b)
unfolding equal compare_bytes
equal-compare [] [] = refl
equal-compare [] (y ∷ b) = ground arith
equal-compare (x ∷ a) [] = ground arith
equal-compare (x ∷ a) (y ∷ b) = ground (arith, equal-compare a b)

infix 50 ◌≺◌ ◌≼◌
abbrev pub ◌≺◌ : Bytes → Bytes → Type 0
a ≺ b = compare_bytes a b ≡ Ordering.lt

-- Not above: the form in which a test that fails hands it over.
abbrev pub ◌≼◌ : Bytes → Bytes → Type 0
a ≼ b = compare_bytes b a ≢ Ordering.lt

pub data Trichotomy (a b : Bytes) : Type 0 where
  below : a ≺ b → Trichotomy a b
  same : a ≡ b → Trichotomy a b
  above : b ≺ a → Trichotomy a b

Trichotomy-of : (a b : Bytes) (o : Ordering) → compare_bytes a b ≡ o → Trichotomy a b
Trichotomy-of a b Ordering.lt h = below h
Trichotomy-of a b Ordering.eq h = same (eq_of_compare_bytes a b h)
Trichotomy-of a b Ordering.gt h = above (lt_of_gt a b h)

pub trichotomy : (a b : Bytes) → Trichotomy a b
trichotomy a b = Trichotomy-of a b (compare_bytes a b) refl

pub lt_irrefl : (a : Bytes) → ¬ (a ≺ a)
lt_irrefl a h = cc (compare_bytes_refl a)

pub lt_asymm : (a b : Bytes) → a ≺ b → ¬ (b ≺ a)
lt_asymm a b h k = lt_irrefl a (lt_trans a b a h k)

pub lt_of_lt_of_le : (a b c : Bytes) → a ≺ b → b ≼ c → a ≺ c
lt_of_lt_of_le a b c h k = elim (trichotomy b c) [
  | below p ↦ lt_trans a b c h p
  | same p ↦ subst (λ x. a ≺ x) p h
  | above p ↦ absurd (k p)
]

-- The tests on keys, decided by where they stand.
pub is_eq_refl : (a : Bytes) → is_eq (compare_bytes a a) ≡ true
is_eq_refl a = rw (compare_bytes_refl a)

pub is_eq-lt : (a b : Bytes) → a ≺ b → is_eq (compare_bytes a b) ≡ false
is_eq-lt a b h = rw h

pub is_eq-gt : (a b : Bytes) → b ≺ a → is_eq (compare_bytes a b) ≡ false
is_eq-gt a b h = rw (gt_of_lt b a h)

pub eq_of_is_eq : (a b : Bytes) → is_eq (compare_bytes a b) ≡ true → a ≡ b
eq_of_is_eq a b h = eq_of_compare_bytes a b (ground (arith, h))

pub le_trans : (a b c : Bytes) → a ≼ b → b ≼ c → a ≼ c
le_trans a b c h k q = elim (trichotomy b c) [
  | below p ↦ h (lt_trans b c a p q)
  | same p ↦ h (subst (λ x. x ≺ a) (sym p) q)
  | above p ↦ k p
]

pub le_of_lt : (a b : Bytes) → a ≺ b → a ≼ b
le_of_lt a b h k = lt_asymm a b h k
