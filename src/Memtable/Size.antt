-- ===== src/Memtable/Size.antt =====
-- The size that decides when a memtable is flushed: it is the sum of the weights of the nodes, so the
-- subtractions in the methods never pass below zero.
use pebble_db.Prelude.{
  ℕ, zero, suc, ◌+◌, ◌-◌, ◌≤◌, ◌≡◌, refl, sym, ap, ◌∙◌, List, [], ◌∷◌, ◌++◌, arith, length,
  Bool-cases, inl, inr, length-append, take, drop, take-append, take-append-drop, append_assoc,
}
use pebble_db.Bytes.{Bytes, equal}
use pebble_db.Iterator.{Entry}
use pebble_db.Memtable.{
  Node, SkipList, weight, before, splice, put_at, put, delete_at, delete, descend, walk,
}

unfoldable pub sum : List Node → ℕ
sum [] = 0
sum (n ∷ r) = weight n + sum r

-- `size` and `length` are those of the nodes, as they stand.
pub record IsCounted (sl : SkipList) : Type 0 where
  pub size_is : sl.size ≡ sum sl.nodes
  pub length_is : sl.length' ≡ length sl.nodes

sum-append : (a b : List Node) → sum (a ++ b) ≡ sum a + sum b
unfolding sum
sum-append [] b = omega arith
sum-append (n ∷ a) b = omega (arith, sum-append a b)

-- The search ends behind a leading part of the nodes.
abbrev Ends : List Node → List Node → Type 0
Ends nodes l = (a : List Node) × (nodes ≡ a ++ l)

descend-Ends : (h : ℕ) (key : Bytes) (l : List Node) → Ends l (descend h key l)
unfolding descend
descend-Ends zero key l = ([], refl)
descend-Ends (suc i) key l =
    let n = walk i key l in
    let (a, e) = descend-Ends i key (drop n l) in
    (
      take n l ++ a,
      sym (take-append-drop n l)
          ∙ ap (λ b. take n l ++ b) e
          ∙ sym (append_assoc (take n l) a (descend i key (drop n l))),
    )

before-append : (a l : List Node) → before (a ++ l) l ≡ a
unfolding before
before-append a l =
    take-append (length (a ++ l) - length l) a l
      (let e : length a ≡ length (a ++ l) - length l = omega (arith, length-append a l) in e)

module _ (sl : SkipList) (key : Bytes) (drawn : ℕ) (c : IsCounted sl) where
  splice-IsCounted : (l : List Node) (e : Entry) → Ends sl.nodes l → IsCounted (splice sl l e drawn)
  unfolding splice sum
  splice-IsCounted l e (a, whole) =
      let n : Node = record { entry = e; tower = drawn } in
      let cut : before sl.nodes l ≡ a = ap (λ b. before b l) whole ∙ before-append a l in
      record {
        size_is =
            rw cut (omega (arith, c.size_is, ap sum whole, sum-append a l, sum-append a (n ∷ l)));
        length_is = rw cut (
            omega (
              arith,
              c.length_is,
              ap (λ (x : List Node). length x) whole,
              length-append a l,
              length-append a (n ∷ l),
            ));
      }

  -- A node that is replaced by another.
  replace-IsCounted :
      (x x' : Node) (r : List Node) (size : ℕ)
      → Ends sl.nodes (x ∷ r)
      → size + weight x ≡ sl.size + weight x'
      → IsCounted (record sl { nodes = before sl.nodes (x ∷ r) ++ x' ∷ r; size = size })
  unfolding sum
  replace-IsCounted x x' r size (a, whole) balance =
      let cut : before sl.nodes (x ∷ r) ≡ a =
        ap (λ b. before b (x ∷ r)) whole ∙ before-append a (x ∷ r) in
      record {
        size_is = rw cut (
            omega (
              arith,
              balance,
              c.size_is,
              ap sum whole,
              sum-append a (x ∷ r),
              sum-append a (x' ∷ r),
            ));
        length_is = rw cut (
            omega (
              arith,
              c.length_is,
              ap (λ (y : List Node). length y) whole,
              length-append a (x ∷ r),
              length-append a (x' ∷ r),
            ));
      }

  weight-le-size : (x : Node) (r : List Node) → Ends sl.nodes (x ∷ r) → weight x ≤ sl.size
  unfolding sum
  weight-le-size x r (a, whole) = omega (arith, c.size_is, ap sum whole, sum-append a (x ∷ r))

  put_at-IsCounted :
      (value : Bytes) (l : List Node) → Ends sl.nodes l → IsCounted (put_at sl key value drawn l)
  unfolding put_at
  put_at-IsCounted value [] ends = splice-IsCounted [] _ ends
  put_at-IsCounted value (x ∷ r) ends = elim (Bool-cases (equal x.key key)) [
    | inl here ↦ rw here (replace-IsCounted x _ r _ ends (omega (arith, weight-le-size x r ends)))
    | inr gone ↦ rw gone (splice-IsCounted (x ∷ r) _ ends)
  ]

  delete_at-IsCounted : (l : List Node) → Ends sl.nodes l → IsCounted (delete_at sl key drawn l)
  unfolding delete_at
  delete_at-IsCounted [] ends = splice-IsCounted [] _ ends
  delete_at-IsCounted (x ∷ r) ends = elim (Bool-cases (equal x.key key)) [
    | inl here ↦ elim (Bool-cases x.tombstone) [
      | inl dead ↦ ground (arith, here, dead, c)
      | inr live ↦
          rw (here, live) (replace-IsCounted x _ r _ ends (omega (arith, weight-le-size x r ends)))
    ]
    | inr gone ↦ rw gone (splice-IsCounted (x ∷ r) _ ends)
  ]

  -- A put keeps the size and the length those of the nodes, whether it replaces a node or adds one.
  pub put-IsCounted : (value : Bytes) → IsCounted (put sl key value drawn)
  unfolding put
  put-IsCounted value =
      put_at-IsCounted value (descend sl.height key sl.nodes) (descend-Ends sl.height key sl.nodes)

  -- A delete keeps the size and the length those of the nodes, for a live key, a tombstone, and a key
  -- that is not there.
  pub delete-IsCounted : IsCounted (delete sl key drawn)
  unfolding delete
  delete-IsCounted =
      delete_at-IsCounted (descend sl.height key sl.nodes) (descend-Ends sl.height key sl.nodes)
