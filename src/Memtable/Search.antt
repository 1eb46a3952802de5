-- ===== src/Memtable/Search.antt =====
-- The search through the express lanes ends where a plain search along level 0 does.
use pebble_db.Prelude.{
  ℕ, zero, suc, ◌-◌, ◌<◌, ◌≡◌, refl, sym, ap, ◌∙◌, List, [], ◌∷◌, ◌++◌, arith, All, length, take,
  drop, if◌then◌else◌, true, false, Bool-cases, ◌⊎◌, inl, inr, lt→ltb, take-append, length-append,
}
use pebble_db.Bytes.{Bytes, less}
use pebble_db.Bytes.Order.{◌≺◌, ◌≼◌, is_lt, less-compare, lt_trans}
use pebble_db.Memtable.{Node, walk, descend, before}

-- The nodes from the first whose key is not below `key`, and those before it.
unfoldable pub drop_less : Bytes → List Node → List Node
drop_less key [] = []
drop_less key (n ∷ r) = if less n.key key then drop_less key r else n ∷ r

unfoldable pub take_less : Bytes → List Node → List Node
take_less key [] = []
take_less key (n ∷ r) = if less n.key key then n ∷ take_less key r else []

abbrev pub Sorted : List Node → Type 0
Sorted [] = Unit
Sorted (n ∷ r) = All (λ (x : Node). n.key ≺ x.key) r × Sorted r

abbrev pub HasTowers : List Node → Type 0
HasTowers = All (λ (n : Node). 0 < n.tower)

pub less-of_lt : (a b : Bytes) → a ≺ b → less a b ≡ true
less-of_lt a b h = less-compare a b ∙ ap is_lt h

pub lt_of_less : (a b : Bytes) → less a b ≡ true → a ≺ b
lt_of_less a b h = let e = sym (less-compare a b) ∙ h in ground (arith, e)

pub not_lt_of_less : (a b : Bytes) → less a b ≡ false → b ≼ a
not_lt_of_less a b h k = cc (h, less-of_lt a b k)

-- Behind a node that is not below the key, no node is.
walk-eq-zero :
    (i : ℕ) (key : Bytes) (r : List Node) → All (λ (x : Node). key ≼ x.key) r → walk i key r ≡ 0
unfolding walk
walk-eq-zero i key [] h = refl
walk-eq-zero i key (n ∷ r) h = elim (Bool-cases (less n.key key)) [
  | inl p ↦ absurd (h.0 (lt_of_less n.key key p))
  | inr p ↦ let ih = walk-eq-zero i key r h.1 in ground (arith, ih, p)
]

not_less_behind :
    (key : Bytes) (n : Node) (r : List Node)
    → less n.key key ≡ false
    → All (λ (x : Node). n.key ≺ x.key) r
    → All (λ (x : Node). key ≼ x.key) r
not_less_behind key n [] h s = tt
not_less_behind key n (x ∷ r) h s = (
  (λ lt. not_lt_of_less n.key key h (lt_trans n.key x.key key s.0 lt)),
  not_less_behind key n r h s.1,
)

walk-cons :
    (i : ℕ) (key : Bytes) (n : Node) (r : List Node)
    → (walk i key (n ∷ r) ≡ 0) ⊎ (walk i key (n ∷ r) ≡ suc (walk i key r))
unfolding walk
walk-cons i key n r = ground arith

-- A walk at any level passes only nodes whose keys are below the key.
drop_less-walk :
    (i : ℕ) (key : Bytes) (l : List Node)
    → Sorted l
    → drop_less key (drop (walk i key l) l) ≡ drop_less key l
unfolding drop_less
drop_less-walk i key [] s = unfold walk in refl
drop_less-walk i key (n ∷ r) s = elim (Bool-cases (less n.key key)) [
  | inl p ↦ elim (walk-cons i key n r) [
    | inl z ↦ rw z
    | inr more ↦ rw (more, p) (drop_less-walk i key r s.1)
  ]
  | inr p ↦
      let all : All (λ (x : Node). key ≼ x.key) (n ∷ r) =
        (not_lt_of_less n.key key p, not_less_behind key n r p s.0) in
      rw (walk-eq-zero i key (n ∷ r) all)
]

-- At level 0, where every node stands, the walk passes all of them.
drop-walk_zero :
    (key : Bytes) (l : List Node) → HasTowers l → Sorted l → drop (walk 0 key l) l ≡ drop_less key l
unfolding walk drop_less
drop-walk_zero key [] t s = refl
drop-walk_zero key (n ∷ r) t s = elim (Bool-cases (less n.key key)) [
  | inl p ↦ rw (lt→ltb 0 n.tower t.0, p) (drop-walk_zero key r t.1 s.1)
  | inr p ↦ rw (lt→ltb 0 n.tower t.0, p)
]

drop-Sorted : (n : ℕ) (l : List Node) → Sorted l → Sorted (drop n l)
drop-Sorted zero l s = s
drop-Sorted (suc n) [] s = tt
drop-Sorted (suc n) (x ∷ l) s = drop-Sorted n l s.1

drop-HasTowers : (n : ℕ) (l : List Node) → HasTowers l → HasTowers (drop n l)
drop-HasTowers zero l s = s
drop-HasTowers (suc n) [] s = tt
drop-HasTowers (suc n) (x ∷ l) s = drop-HasTowers n l s.1

-- Whatever the towers above level 0, the search from any height of at least one ends in front of the
-- first node whose key is not below the key: the express lanes change how far each step goes, and
-- never where the search ends. The nodes are sorted, and each stands at level 0.
pub descend-eq-drop_less :
    (height : ℕ) (key : Bytes) (l : List Node)
    → 0 < height
    → HasTowers l
    → Sorted l
    → descend height key l ≡ drop_less key l
unfolding descend
descend-eq-drop_less zero key l h t s = absurd (omega arith)
descend-eq-drop_less (suc zero) key l h t s = drop-walk_zero key l t s
descend-eq-drop_less (suc (suc i)) key l h t s =
    let n = walk (suc i) key l in
    descend-eq-drop_less (suc i) key (drop n l) (omega arith) (drop-HasTowers n l t)
      (drop-Sorted n l s)
    ∙ drop_less-walk (suc i) key l s

pub take_less-append-drop_less :
    (key : Bytes) (l : List Node) → take_less key l ++ drop_less key l ≡ l
unfolding take_less drop_less
take_less-append-drop_less key [] = refl
take_less-append-drop_less key (n ∷ r) = elim (Bool-cases (less n.key key)) [
  | inl p ↦ rw p (ap (◌∷◌ n) (take_less-append-drop_less key r))
  | inr p ↦ rw p
]

-- What the methods keep in front of the place that the search finds.
pub before-drop_less : (key : Bytes) (l : List Node) → before l (drop_less key l) ≡ take_less key l
unfolding before
before-drop_less key l =
    let e = take_less-append-drop_less key l in
    let size = length-append (take_less key l) (drop_less key l) in
    let count : length (take_less key l) ≡ length l - length (drop_less key l) =
      omega (arith, size, ap (λ (x : List Node). length x) e) in
    ap (take (length l - length (drop_less key l))) (sym e)
    ∙ take-append (length l - length (drop_less key l)) (take_less key l) (drop_less key l) count

-- The nodes before the place are below the key, and those behind it are not.
pub take_less-below :
    (key : Bytes) (l : List Node) → All (λ (x : Node). x.key ≺ key) (take_less key l)
unfolding take_less
take_less-below key [] = tt
take_less-below key (n ∷ r) = elim (Bool-cases (less n.key key)) [
  | inl p ↦ rw p (lt_of_less n.key key p, take_less-below key r)
  | inr p ↦ rw p tt
]

pub drop_less-above :
    (key : Bytes) (l : List Node) → Sorted l → All (λ (x : Node). key ≼ x.key) (drop_less key l)
unfolding drop_less
drop_less-above key [] s = tt
drop_less-above key (n ∷ r) s = elim (Bool-cases (less n.key key)) [
  | inl p ↦ rw p (drop_less-above key r s.1)
  | inr p ↦ rw p (not_lt_of_less n.key key p, not_less_behind key n r p s.0)
]

pub drop_less-Sorted : (key : Bytes) (l : List Node) → Sorted l → Sorted (drop_less key l)
unfolding drop_less
drop_less-Sorted key [] s = tt
drop_less-Sorted key (n ∷ r) s = elim (Bool-cases (less n.key key)) [
  | inl p ↦ rw p (drop_less-Sorted key r s.1)
  | inr p ↦ rw p s
]
