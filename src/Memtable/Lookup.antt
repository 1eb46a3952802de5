-- ===== src/Memtable/Lookup.antt =====
-- What a get and a snapshot show after a put or a delete.
use pebble_db.Prelude.{
  ℕ, ◌<◌, ◌≡◌, refl, sym, ap, subst, ◌∙◌, List, [], ◌∷◌, ◌++◌, arith, All, All-append_left, All-map,
  All-append_right, if◌then◌else◌, Bool, true, false, Bool-cases, inl, inr, Option, none, some,
}
use pebble_db.Bytes.{Bytes, equal, copy_slice, compare_bytes}
use pebble_db.Bytes.Order.{
  ◌≺◌, ◌≼◌, is_eq, eq_of_is_eq, equal-compare, is_eq_refl, is_eq-lt, is_eq-gt, trichotomy, below,
  same, above, lt_trans,
}
use pebble_db.Iterator.{Entry}
use pebble_db.Iterator.Merge.Lists.{find}
use pebble_db.Memtable.{Node, SkipList, put, delete, get, get_at, snapshot, snapshot_nodes}
use pebble_db.Memtable.Search.{
  drop_less, take_less, Sorted, take_less-append-drop_less, take_less-below, drop_less-above,
  descend-eq-drop_less, drop_less-Sorted,
}
use pebble_db.Memtable.Order.{
  IsBare, IsOrdered, skip_equal, Upserted, eq_of_equal, put-Upserted, delete-Upserted,
}
use pebble_db.Memtable.Sorted.{put-IsOrdered, delete-IsOrdered}

-- The snapshot's entry of a node without a stray value is the node's own.
shown :
    (n : Node)
    → IsBare n
    → (if n.tombstone then record { key = n.key; value = none; tombstone = true } else n.entry)
      ≡ n.entry
shown n bare = elim (Bool-cases n.tombstone) [
  | inl dead ↦ ground (arith, dead, bare dead)
  | inr live ↦ rw live
]

find-snapshot_cons :
    (k : Bytes) (n : Node) (r : List Node)
    → IsBare n
    → find k (snapshot_nodes (n ∷ r))
      ≡ (if is_eq (compare_bytes k n.key) then some n.entry else find k (snapshot_nodes r))
unfolding find snapshot_nodes
find-snapshot_cons k n r bare = rw (shown n bare)

module _ (k : Bytes) where
  abbrev look : List Node → Option Entry
  look l = find k (snapshot_nodes l)

  look-above : (l : List Node) → All IsBare l → All (λ (x : Node). k ≺ x.key) l → look l ≡ none
  look-above [] b h = unfold find snapshot_nodes in refl
  look-above (n ∷ r) b h =
      find-snapshot_cons k n r b.0 ∙ rw (is_eq-lt k n.key h.0) (look-above r b.1 h.1)

  -- Nodes before the key hide nothing.
  look-below :
      (a b : List Node) → All IsBare a → All (λ (x : Node). x.key ≺ k) a → look (a ++ b) ≡ look b
  look-below [] b bare h = refl
  look-below (n ∷ a) b bare h =
      find-snapshot_cons k n (a ++ b) bare.0 ∙ rw (is_eq-gt k n.key h.0) (look-below a b bare.1 h.1)

  -- A node with another key can be put anywhere.
  look-insert_ne :
      (a : List Node) (n : Node) (b : List Node)
      → All IsBare (a ++ n ∷ b)
      → is_eq (compare_bytes k n.key) ≡ false
      → look (a ++ n ∷ b) ≡ look (a ++ b)
  look-insert_ne [] n b bare h = find-snapshot_cons k n b bare.0 ∙ rw h
  look-insert_ne (x ∷ a) n b bare h =
      find-snapshot_cons k x (a ++ n ∷ b) bare.0
      ∙ ap (λ t. if is_eq (compare_bytes k x.key) then some x.entry else t)
          (look-insert_ne a n b bare.1 h)
      ∙ sym (find-snapshot_cons k x (a ++ b) bare.0)

  look-skip_equal :
      (a : List Node) (key : Bytes) (d : List Node)
      → All IsBare (a ++ d)
      → is_eq (compare_bytes k key) ≡ false
      → look (a ++ skip_equal key d) ≡ look (a ++ d)
  unfolding skip_equal
  look-skip_equal a key [] bare h = refl
  look-skip_equal a key (x ∷ r) bare h = elim (Bool-cases (equal x.key key)) [
    | inl here ↦ rw here (
        sym (
          look-insert_ne a x r bare
            (subst (λ y. is_eq (compare_bytes k y) ≡ false) (sym (eq_of_equal x.key key here)) h)))
    | inr gone ↦ rw gone
  ]

-- The lookup law of an upsert.
look-Upserted :
    (nodes nodes' : List Node) (e : Entry) (k : Bytes)
    → Sorted nodes
    → All IsBare nodes
    → All IsBare nodes'
    → Upserted nodes e nodes'
    → find k (snapshot_nodes nodes')
      ≡ (if is_eq (compare_bytes k e.key) then some e else find k (snapshot_nodes nodes))
look-Upserted nodes nodes' e k sorted bare bare' u =
    let front = take_less e.key nodes in
    let back = skip_equal e.key (drop_less e.key nodes) in
    let whole = take_less-append-drop_less e.key nodes in
    let bare_parts = subst (All IsBare) u.1 bare' in
    let key : u.0.key ≡ e.key = ap (λ (x : Entry). x.key) u.2 in
    elim (Bool-cases (is_eq (compare_bytes k e.key))) [
      | inl same_key ↦
          let at : k ≡ e.key = eq_of_is_eq k e.key same_key in
          rw (u.1, same_key)
            (look-below k front (u.0 ∷ back) (All-append_left IsBare front (u.0 ∷ back) bare_parts)
                (subst (λ y. All (λ (x : Node). x.key ≺ y) front) (sym at)
                  (take_less-below e.key nodes))
              ∙ find-snapshot_cons k u.0 back
                  (All-append_right IsBare front (u.0 ∷ back) bare_parts).0
              ∙ rw (subst (λ y. is_eq (compare_bytes k y) ≡ true) (sym key) same_key) (ap some u.2))
      | inr other ↦
          rw (u.1, other)
            (look-insert_ne k front u.0 back bare_parts
                (subst (λ y. is_eq (compare_bytes k y) ≡ false) (sym key) other)
              ∙ look-skip_equal k front e.key (drop_less e.key nodes)
                  (subst (All IsBare) (sym whole) bare) other
              ∙ ap (look k) whole)
    ]

-- The answer of `Get` for what a snapshot holds of a key.
abbrev pub answer : Option Entry → Option Bytes × Bool × Bool
answer none = (none, false, false)
answer (some e) = if e.tombstone then (none, true, true) else (e.value, true, false)

get_at-eq-answer :
    (key : Bytes) (l : List Node)
    → Sorted l
    → All IsBare l
    → All (λ (x : Node). key ≼ x.key) l
    → get_at key l ≡ answer (find key (snapshot_nodes l))
unfolding get_at
get_at-eq-answer key [] s b h = unfold find snapshot_nodes in refl
get_at-eq-answer key (x ∷ r) s b h = elim (trichotomy key x.key) [
  | below lt ↦ rw (
    equal-compare x.key key,
    is_eq-gt x.key key lt,
    find-snapshot_cons key x r b.0,
    is_eq-lt key x.key lt,
    look-above key r b.1 (
        All-map (λ (y : Node). x.key ≺ y.key) (λ (y : Node). key ≺ y.key) r
          (λ y gt. lt_trans key x.key y.key lt gt) s.0),
  )
  | same eq ↦ rw (
    equal-compare x.key key,
    eq,
    is_eq_refl x.key,
    find-snapshot_cons x.key x r b.0,
    is_eq_refl x.key,
  )
  | above gt ↦ absurd (h.0 gt)
]

-- On an ordered list, a get answers by the snapshot: not found, a tombstone, or the value.
pub get-eq-answer :
    (sl : SkipList) (key : Bytes) → IsOrdered sl → get sl key ≡ answer (find key (snapshot sl))
unfolding get snapshot
get-eq-answer sl key o =
    let whole = take_less-append-drop_less key sl.nodes in
    let bare = subst (All IsBare) (sym whole) o.bare in
    rw (descend-eq-drop_less sl.height key sl.nodes o.tall o.towers o.sorted) (
      get_at-eq-answer key (drop_less key sl.nodes) (drop_less-Sorted key sl.nodes o.sorted)
        (All-append_right IsBare (take_less key sl.nodes) (drop_less key sl.nodes) bare)
        (drop_less-above key sl.nodes o.sorted)
      ∙ ap answer (
          sym (
            look-below key (take_less key sl.nodes) (drop_less key sl.nodes)
              (All-append_left IsBare (take_less key sl.nodes) (drop_less key sl.nodes) bare)
              (take_less-below key sl.nodes))
          ∙ ap (look key) whole))

-- After a put, a snapshot holds the new value under the key, and every other key as before.
pub find-put :
    (sl : SkipList) (key value : Bytes) (drawn : ℕ) (k : Bytes)
    → IsOrdered sl
    → 0 < drawn
    → find k (snapshot (put sl key value drawn)) ≡ (
        if is_eq (compare_bytes k key)
        then some (record { key = key; value = copy_slice value; tombstone = false })
        else find k (snapshot sl))
unfolding snapshot
find-put sl key value drawn k o up =
    look-Upserted sl.nodes (put sl key value drawn).nodes
      (record { key = key; value = copy_slice value; tombstone = false }) k o.sorted o.bare
      (put-IsOrdered sl key value drawn o up).bare (put-Upserted sl key drawn o up value)

-- After a delete, a snapshot holds a tombstone under the key, present before or not, and every other key as
-- before.
pub find-delete :
    (sl : SkipList) (key : Bytes) (drawn : ℕ) (k : Bytes)
    → IsOrdered sl
    → 0 < drawn
    → find k (snapshot (delete sl key drawn)) ≡ (
        if is_eq (compare_bytes k key)
        then some (record { key = key; value = none; tombstone = true })
        else find k (snapshot sl))
unfolding snapshot
find-delete sl key drawn k o up =
    look-Upserted sl.nodes (delete sl key drawn).nodes
      (record { key = key; value = none; tombstone = true }) k o.sorted o.bare
      (delete-IsOrdered sl key drawn o up).bare (delete-Upserted sl key drawn o up)
