-- ===== src/Bloom/Member.antt =====
-- The filter has no false negatives.
use Prim.Native.Nat.{bit_or}
use pebble_db.Prelude.{
  ℕ, zero, suc, ◌+◌, ◌*◌, ◌/◌, ◌%◌, ◌^◌, ◌<◌, ◌≡◌, refl, sym, ap, ◌∙◌, ltb→lt, ◌==◌, ==-refl, Bool,
  true, false, ◌&&◌, ◌||◌, Bool-cases, inl, inr, some, [], ◌∷◌, length, All, arith,
}
use pebble_db.Bytes.{Bytes}
use pebble_db.Bloom.{
  Filter, fnv64a, bit_index, set_bit, test_bit, set_index, test_index, add_loop, may_loop, add,
  may_contain,
}
use pebble_db.Bloom.Bits.{byte_test, agree, holds_at, test-true_of_passes, table}

abbrev pub IsByte : ℕ → Type 0
IsByte x = x < 256

-- A filter whose bytes are bytes, and which has as many bits as it says.
pub record IsWhole (f : Filter) : Type 0 where
  pub bytes : All IsByte f.bits
  pub size : f.m ≡ length f.bits * 8

and-parts : (a b : Bool) → (a && b) ≡ true → (a ≡ true) × (b ≡ true)
and-parts true b h = (refl, h)
and-parts false b h = cc

agree-eq : (a b : Bool) → agree a b ≡ true → a ≡ b
agree-eq true b h = sym h
agree-eq false true h = cc
agree-eq false false h = refl

or_facts :
    (x j i : ℕ)
    → x < 256
    → j < 8
    → i < 8
    → (bit_or x (2 ^ j) < 256) × (byte_test (bit_or x (2 ^ j)) i ≡ (i == j || byte_test x i))
unfolding holds_at
or_facts x j i hx hj hi =
    let n = x * 64 + j * 8 + i in
    let ex : n / 64 ≡ x = omega arith in
    let ej : n / 8 % 8 ≡ j = omega arith in
    let ei : n % 8 ≡ i = omega arith in
    let all : holds_at n ≡ true = test-true_of_passes holds_at 16384 n (omega arith) table in
    let (small, same) = and-parts _ _ (rw (ex, ej, ei) at all) in
    (ltb→lt (bit_or x (2 ^ j)) 256 small, agree-eq _ _ same)

set_bit-length : (bits : Bytes) (q j : ℕ) → length (set_bit bits q j) ≡ length bits
unfolding set_bit
set_bit-length [] q j = refl
set_bit-length (x ∷ r) zero j = refl
set_bit-length (x ∷ r) (suc q) j = ap suc (set_bit-length r q j)

set_bit-bytes : (bits : Bytes) (q j : ℕ) → j < 8 → All IsByte bits → All IsByte (set_bit bits q j)
unfolding set_bit
set_bit-bytes [] q j hj h = h
set_bit-bytes (x ∷ r) zero j hj h = ((or_facts x j j h.0 hj hj).0, h.1)
set_bit-bytes (x ∷ r) (suc q) j hj h = (h.0, set_bit-bytes r q j hj h.1)

or-true : (a b : Bool) → b ≡ true → (a || b) ≡ true
or-true true b h = refl
or-true false b h = h

-- The bit that is set tests true, and no bit is cleared.
test_bit-set_bit :
    (bits : Bytes) (q j : ℕ)
    → q < length bits
    → j < 8
    → All IsByte bits
    → test_bit (set_bit bits q j) q j ≡ true
unfolding test_bit set_bit
test_bit-set_bit [] q j hq hj h = absurd (omega arith)
test_bit-set_bit (x ∷ r) zero j hq hj h =
    (or_facts x j j h.0 hj hj).1 ∙ ap (λ b. b || byte_test x j) (==-refl j)
test_bit-set_bit (x ∷ r) (suc q) j hq hj h = test_bit-set_bit r q j (omega (arith, hq)) hj h.1

test_bit-kept :
    (bits : Bytes) (q j p i : ℕ)
    → j < 8
    → i < 8
    → All IsByte bits
    → test_bit bits p i ≡ true
    → test_bit (set_bit bits q j) p i ≡ true
unfolding test_bit set_bit
test_bit-kept [] q j p i hj hi h t = t
test_bit-kept (x ∷ r) zero j zero i hj hi h t =
    (or_facts x j i h.0 hj hi).1 ∙ or-true (i == j) (byte_test x i) t
test_bit-kept (x ∷ r) zero j (suc p) i hj hi h t = t
test_bit-kept (x ∷ r) (suc q) j zero i hj hi h t = t
test_bit-kept (x ∷ r) (suc q) j (suc p) i hj hi h t = test_bit-kept r q j p i hj hi h.1 t

-- `bits'` tests true wherever `bits` does.
abbrev pub Keeps : Bytes → Bytes → Type 0
Keeps bits bits' = (idx : ℕ) → test_index bits idx ≡ true → test_index bits' idx ≡ true

module _ (m sum : ℕ) (pos : 0 < m) where
  abbrev pub IsSized : Bytes → Type 0
  IsSized bits = All IsByte bits × (m ≡ length bits * 8)

  set_index-IsSized : (bits : Bytes) (idx : ℕ) → IsSized bits → IsSized (set_index bits idx)
  unfolding set_index
  set_index-IsSized bits idx h = (
    set_bit-bytes bits (idx / 8) (idx % 8) (omega arith) h.0,
    omega (arith, h.1, set_bit-length bits (idx / 8) (idx % 8)),
  )

  set_index-Keeps : (bits : Bytes) (idx : ℕ) → IsSized bits → Keeps bits (set_index bits idx)
  unfolding set_index test_index
  set_index-Keeps bits idx h i t =
      test_bit-kept bits (idx / 8) (idx % 8) (i / 8) (i % 8) (omega arith) (omega arith) h.0 t

  test_index-set_index :
      (bits : Bytes) (i : ℕ)
      → IsSized bits
      → test_index (set_index bits (bit_index m sum i)) (bit_index m sum i) ≡ true
  unfolding set_index test_index
  test_index-set_index bits i h =
      let inside : bit_index m sum i < m = unfold bit_index in omega (arith, pos) in
      test_bit-set_bit bits (bit_index m sum i / 8) (bit_index m sum i % 8)
        (omega (arith, inside, h.1)) (omega arith) h.0

  pub add_loop-Keeps :
      (left i : ℕ) (bits : Bytes)
      → IsSized bits
      → IsSized (add_loop m sum i left bits) × Keeps bits (add_loop m sum i left bits)
  unfolding add_loop
  add_loop-Keeps zero i bits h = (h, λ idx t. t)
  add_loop-Keeps (suc left) i bits h =
      let bits' = set_index bits (bit_index m sum i) in
      let (sized, kept) =
        add_loop-Keeps left (i + 1) bits' (set_index-IsSized bits (bit_index m sum i) h) in
      (sized, λ idx t. kept idx (set_index-Keeps bits (bit_index m sum i) h idx t))

  may_loop-add_loop :
      (left i : ℕ) (bits later : Bytes)
      → IsSized bits
      → Keeps (add_loop m sum i left bits) later
      → may_loop m sum i left later ≡ true
  unfolding may_loop add_loop
  may_loop-add_loop zero i bits later h k = refl
  may_loop-add_loop (suc left) i bits later h k =
      let bits' = set_index bits (bit_index m sum i) in
      let sized = set_index-IsSized bits (bit_index m sum i) h in
      rw
        (k (bit_index m sum i) (
          (add_loop-Keeps left (i + 1) bits' sized).1 (bit_index m sum i)
            (test_index-set_index bits i h)))
        (may_loop-add_loop left (i + 1) bits' later sized k)

  pub may_loop-Keeps :
      (left i : ℕ) (bits later : Bytes)
      → Keeps bits later
      → may_loop m sum i left bits ≡ true
      → may_loop m sum i left later ≡ true
  unfolding may_loop
  may_loop-Keeps zero i bits later k h = refl
  may_loop-Keeps (suc left) i bits later k h =
      elim (Bool-cases (test_index bits (bit_index m sum i))) [
        | inl set ↦
            rw (k (bit_index m sum i) set) (may_loop-Keeps left (i + 1) bits later k (rw set at h))
        | inr clear ↦ absurd (ground (arith, h, clear))
      ]

-- A key that has been added is reported as present, and still is when another key has been added
-- after it. The filter has bits, and as many as its bytes have.
pub may_contain-add :
    (f : Filter) (key other : Bytes)
    → IsWhole f
    → 0 < f.m
    → (may_contain (some (add f key)) key ≡ true)
      × (may_contain (some (add (add f key) other)) key ≡ true)
unfolding may_contain add
may_contain-add f key other w pos =
    let sum = fnv64a key in
    let bits = add_loop f.m sum 0 f.k f.bits in
    let sized : All IsByte f.bits × (f.m ≡ length f.bits * 8) = (w.bytes, w.size) in
    let (sized', kept) = add_loop-Keeps f.m sum pos f.k 0 f.bits sized in
    let nonzero : (f.m == 0) ≡ false = ground (arith, pos) in
    let once = may_loop-add_loop f.m sum pos f.k 0 f.bits bits sized (λ idx t. t) in
    let later = (add_loop-Keeps f.m (fnv64a other) pos f.k 0 bits sized').1 in
    (
      simp (nonzero, once),
      simp (
        nonzero,
        may_loop-Keeps f.m sum pos f.k 0 bits (add_loop f.m (fnv64a other) 0 f.k bits) later once,
      ),
    )
