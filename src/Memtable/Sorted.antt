-- ===== src/Memtable/Sorted.antt =====
-- Puts and deletes leave the nodes sorted, and each at level 0.
use pebble_db.Prelude.{
  ℕ, ◌≤◌, ◌<◌, ◌≡◌, refl, sym, ap, subst, ◌∙◌, List, [], ◌∷◌, ◌++◌, arith, All, All-append,
  All-append_left, All-append_right, All-map, true, false, Bool-cases, inl, inr, none,
}
use pebble_db.Bytes.{Bytes, equal, copy_slice, compare_bytes}
use pebble_db.Bytes.Order.{
  ◌≺◌, ◌≼◌, is_eq, equal-compare, is_eq_refl, trichotomy, below, same, above, lt_trans,
}
use pebble_db.Iterator.{Entry}
use pebble_db.Memtable.{Node, SkipList, descend, splice, put_at, put, delete_at, delete}
use pebble_db.Memtable.Search.{
  drop_less, take_less, Sorted, take_less-append-drop_less, take_less-below, drop_less-above,
}
use pebble_db.Memtable.Order.{
  IsBare, IsOrdered, skip_equal, Upserted, eq_of_equal, put-Upserted, delete-Upserted,
}

-- What an upsert does to the order.
skip_equal-above :
    (k : Bytes) (l : List Node)
    → Sorted l
    → All (λ (x : Node). k ≼ x.key) l
    → All (λ (x : Node). k ≺ x.key) (skip_equal k l)
unfolding skip_equal
skip_equal-above k [] s h = tt
skip_equal-above k (x ∷ r) s h = elim (Bool-cases (equal x.key k)) [
  | inl here ↦ rw here (subst (λ k. All (λ (y : Node). k ≺ y.key) r) (eq_of_equal x.key k here) s.0)
  | inr gone ↦ elim (trichotomy x.key k) [
    | below lt ↦ absurd (h.0 lt)
    | same eq ↦ cc (
      gone,
      equal-compare x.key k,
      subst (λ y. is_eq (compare_bytes x.key y) ≡ true) eq (is_eq_refl x.key),
    )
    | above gt ↦ rw gone (
      gt,
      All-map (λ (y : Node). x.key ≺ y.key) (λ (y : Node). k ≺ y.key) r
          (λ y lt. lt_trans k x.key y.key gt lt) s.0,
    )
  ]
]

skip_equal-keeps :
    (P : Node → Type 0) (k : Bytes) (l : List Node) → All P l → All P (skip_equal k l)
unfolding skip_equal
skip_equal-keeps P k [] h = tt
skip_equal-keeps P k (x ∷ r) h = elim (Bool-cases (equal x.key k)) [
  | inl here ↦ rw here h.1
  | inr gone ↦ rw gone h
]

skip_equal-Sorted : (k : Bytes) (l : List Node) → Sorted l → Sorted (skip_equal k l)
unfolding skip_equal
skip_equal-Sorted k [] s = tt
skip_equal-Sorted k (x ∷ r) s = elim (Bool-cases (equal x.key k)) [
  | inl here ↦ rw here s.1
  | inr gone ↦ rw gone s
]

Sorted-append_left : (a b : List Node) → Sorted (a ++ b) → Sorted a
Sorted-append_left [] b s = tt
Sorted-append_left (x ∷ a) b s =
    (All-append_left (λ (y : Node). x.key ≺ y.key) a b s.0, Sorted-append_left a b s.1)

Sorted-append_right : (a b : List Node) → Sorted (a ++ b) → Sorted b
Sorted-append_right [] b s = s
Sorted-append_right (x ∷ a) b s = Sorted-append_right a b s.1

Sorted-join :
    (a : List Node) (n : Node) (b : List Node)
    → Sorted a
    → Sorted b
    → All (λ (x : Node). x.key ≺ n.key) a
    → All (λ (x : Node). n.key ≺ x.key) b
    → Sorted (a ++ n ∷ b)
Sorted-join [] n b sa sb la lb = (lb, sb)
Sorted-join (x ∷ a) n b sa sb la lb = (
  All-append (λ (y : Node). x.key ≺ y.key) a (n ∷ b) sa.0
      (
        la.0,
        All-map (λ (y : Node). n.key ≺ y.key) (λ (y : Node). x.key ≺ y.key) b
            (λ y lt. lt_trans x.key n.key y.key la.0 lt) lb,
      ),
  Sorted-join a n b sa.1 sb la.1 lb,
)

module _ (nodes nodes' : List Node) (e : Entry) (u : Upserted nodes e nodes') where
  abbrev front : List Node
  front = take_less e.key nodes

  abbrev back : List Node
  back = skip_equal e.key (drop_less e.key nodes)

  Upserted-keeps : (P : Node → Type 0) → (All P nodes) → P u.0 → All P nodes'
  Upserted-keeps P all pn =
      let both = subst (All P) (sym (take_less-append-drop_less e.key nodes)) all in
      rw u.1 (
        All-append P front (u.0 ∷ back) (All-append_left P front (drop_less e.key nodes) both) (
          pn,
          skip_equal-keeps P e.key (drop_less e.key nodes)
              (All-append_right P front (drop_less e.key nodes) both),
        ))

  Upserted-Sorted : Sorted nodes → Sorted nodes'
  Upserted-Sorted s =
      let both = subst Sorted (sym (take_less-append-drop_less e.key nodes)) s in
      let sd = Sorted-append_right front (drop_less e.key nodes) both in
      let key : u.0.key ≡ e.key = ap (λ (x : Entry). x.key) u.2 in
      rw u.1 (
        Sorted-join front u.0 back (Sorted-append_left front (drop_less e.key nodes) both)
          (skip_equal-Sorted e.key (drop_less e.key nodes) sd)
          (subst (λ k. All (λ (x : Node). x.key ≺ k) front) (sym key) (take_less-below e.key nodes))
          (subst (λ k. All (λ (x : Node). k ≺ x.key) back) (sym key)
            (skip_equal-above e.key (drop_less e.key nodes) sd (drop_less-above e.key nodes s))))

height-put_at :
    (sl : SkipList) (key value : Bytes) (drawn : ℕ) (l : List Node)
    → sl.height ≤ (put_at sl key value drawn l).height
unfolding put_at splice
height-put_at sl key value drawn [] = ground arith
height-put_at sl key value drawn (x ∷ r) = ground arith

height-delete_at :
    (sl : SkipList) (key : Bytes) (drawn : ℕ) (l : List Node)
    → sl.height ≤ (delete_at sl key drawn l).height
unfolding delete_at splice
height-delete_at sl key drawn [] = ground arith
height-delete_at sl key drawn (x ∷ r) = ground arith

IsBare-of : (n : Node) (e : Entry) → n.entry ≡ e → (e.tombstone ≡ true → e.value ≡ none) → IsBare n
IsBare-of n e h b t =
    ap (λ (x : Entry). x.value) h ∙ b (sym (ap (λ (x : Entry). x.tombstone) h) ∙ t)

-- A put into a list that is sorted by key, with every node at level 0, leaves such a list.
pub put-IsOrdered :
    (sl : SkipList) (key value : Bytes) (drawn : ℕ)
    → IsOrdered sl
    → 0 < drawn
    → IsOrdered (put sl key value drawn)
put-IsOrdered sl key value drawn o up =
    let u = put-Upserted sl key drawn o up value in
    let e : Entry = record { key = key; value = copy_slice value; tombstone = false } in
    let nodes' = (put sl key value drawn).nodes in
    record {
      sorted = Upserted-Sorted sl.nodes nodes' e u o.sorted;
      towers = Upserted-keeps sl.nodes nodes' e u (λ (n : Node). 0 < n.tower) o.towers u.3;
      bare = Upserted-keeps sl.nodes nodes' e u IsBare o.bare (IsBare-of u.0 e u.2 (λ h. cc));
      tall =
          unfold put in
          omega (arith, height-put_at sl key value drawn (descend sl.height key sl.nodes), o.tall);
    }

-- A delete from a list that is sorted by key, with every node at level 0, leaves such a list.
pub delete-IsOrdered :
    (sl : SkipList) (key : Bytes) (drawn : ℕ)
    → IsOrdered sl
    → 0 < drawn
    → IsOrdered (delete sl key drawn)
delete-IsOrdered sl key drawn o up =
    let u = delete-Upserted sl key drawn o up in
    let e : Entry = record { key = key; value = none; tombstone = true } in
    let nodes' = (delete sl key drawn).nodes in
    record {
      sorted = Upserted-Sorted sl.nodes nodes' e u o.sorted;
      towers = Upserted-keeps sl.nodes nodes' e u (λ (n : Node). 0 < n.tower) o.towers u.3;
      bare = Upserted-keeps sl.nodes nodes' e u IsBare o.bare (IsBare-of u.0 e u.2 (λ h. refl));
      tall =
          unfold delete in
          omega (arith, height-delete_at sl key drawn (descend sl.height key sl.nodes), o.tall);
    }
