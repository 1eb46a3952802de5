-- ===== src/Memtable.antt =====
-- The skip list of internal/memtable/skiplist.go. The list is its nodes in the order of level 0,
-- each with the height of its tower: the next pointer of a node at level `i` leads to the first
-- node behind it whose tower is higher than `i`, since every node is spliced into all the levels
-- of its tower. The height that `randomHeight` draws is an argument. The lock, which serialises the
-- methods, is not modelled.
pub mod Search
pub mod Order
pub mod Sorted
pub mod Lookup
pub mod Size
use pebble_db.Prelude.{
  ℕ, zero, suc, ◌+◌, ◌-◌, ltb, leb, ◌==◌, if◌then◌else◌, Bool, true, false, Option, none, some,
  List, [], ◌∷◌, ◌++◌, length, take, drop,
}
use pebble_db.Bytes.{Bytes, less, equal, copy_slice}
use pebble_db.Iterator.{Entry}

-- A node's slices are nil where they are empty, as `copy_slice` makes them.
pub record Node : Type 0 where
  pub entry : Entry
  pub open entry use *
  pub tower : ℕ

abbrev pub max_height : ℕ
max_height = 20

pub record SkipList : Type 0 where
  pub nodes : List Node
  pub height : ℕ
  pub length' : ℕ
  pub size : ℕ

abbrev pub new_skip_list : SkipList
new_skip_list = record { nodes = []; height = 1; length' = 0; size = 0 }

-- How many of the nodes behind `x` the inner loop passes at level `i`.
pub walk : ℕ → Bytes → List Node → ℕ
walk i key [] = 0
walk i key (n ∷ r) =
    let further = walk i key r in
    if ltb i n.tower
    then (if less n.key key then suc further else 0)
    else (if further == 0 then 0 else suc further)

-- The outer loop, from a level down to level 0: the nodes behind the `x` that it ends with.
unfoldable pub descend : ℕ → Bytes → List Node → List Node
unfolding walk
descend zero key behind = behind
descend (suc i) key behind = descend i key (drop (walk i key behind) behind)

abbrev pub value_length : Option Bytes → ℕ
value_length none = 0
value_length (some v) = length v

-- What a node adds to `size`.
abbrev pub weight : Node → ℕ
weight n = length n.key + value_length n.value + 8

-- The nodes up to the end of the search, which are not behind its `x`.
pub before : List Node → List Node → List Node
before nodes behind = take (length nodes - length behind) nodes

raise : ℕ → ℕ → ℕ
raise height drawn = if ltb height drawn then drawn else height

pub splice : SkipList → List Node → Entry → ℕ → SkipList
unfolding before raise
splice sl behind e drawn =
    let n : Node = record { entry = e; tower = drawn } in
    record {
      nodes = before sl.nodes behind ++ n ∷ behind;
      height = raise sl.height drawn;
      length' = sl.length' + 1;
      size = sl.size + weight n;
    }

put_at : SkipList → Bytes → Bytes → ℕ → List Node → SkipList
unfolding splice
put_at sl key value drawn [] =
    splice sl [] (record { key = key; value = copy_slice value; tombstone = false }) drawn
put_at sl key value drawn (x ∷ r) =
    if equal x.key key
    then (let x' : Node = record x {
      entry = record { key = key; value = copy_slice value; tombstone = false };
    } in
        record sl {
          nodes = before sl.nodes (x ∷ r) ++ x' ∷ r;
          size = sl.size - weight x + weight x';
        })
    else splice sl (x ∷ r) (record { key = key; value = copy_slice value; tombstone = false }) drawn

unfoldable pub put : SkipList → Bytes → Bytes → ℕ → SkipList
unfolding put_at
put sl key value drawn = put_at sl key value drawn (descend sl.height key sl.nodes)

delete_at : SkipList → Bytes → ℕ → List Node → SkipList
unfolding splice
delete_at sl key drawn [] =
    splice sl [] (record { key = key; value = none; tombstone = true }) drawn
delete_at sl key drawn (x ∷ r) =
    if equal x.key key
    then (if x.tombstone
        then sl
        else (let x' : Node = record x {
          entry = record { key = x.key; value = none; tombstone = true };
        } in
            record sl {
              nodes = before sl.nodes (x ∷ r) ++ x' ∷ r;
              size = sl.size - value_length x.value;
            }))
    else splice sl (x ∷ r) (record { key = key; value = none; tombstone = true }) drawn

unfoldable pub delete : SkipList → Bytes → ℕ → SkipList
unfolding delete_at
delete sl key drawn = delete_at sl key drawn (descend sl.height key sl.nodes)

-- The value, whether the key was found, and whether it is a tombstone.
get_at : Bytes → List Node → Option Bytes × Bool × Bool
get_at key [] = (none, false, false)
get_at key (x ∷ r) =
    if equal x.key key
    then (if x.tombstone then (none, true, true) else (x.value, true, false))
    else (none, false, false)

unfoldable pub get : SkipList → Bytes → Option Bytes × Bool × Bool
unfolding get_at
get sl key = get_at key (descend sl.height key sl.nodes)

-- internal/memtable/snapshot.go: `Snapshot` copies every entry of level 0.
unfoldable pub snapshot_nodes : List Node → List Entry
snapshot_nodes [] = []
snapshot_nodes (n ∷ r) =
    (if n.tombstone then record { key = n.key; value = none; tombstone = true } else n.entry)
    ∷ snapshot_nodes r

unfoldable pub snapshot : SkipList → List Entry
unfolding snapshot_nodes
snapshot sl = snapshot_nodes sl.nodes
