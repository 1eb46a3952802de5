-- ===== src/Tests/Lists.antt =====
-- The memtable, and the merge of two snapshots, at concrete entries.
use pebble_db.Prelude.{
  ◌<◌, ◌≡◌, refl, none, some, List, [], ◌∷◌, true, false, map, arith, if◌then◌else◌,
}
use pebble_db.Bytes.{Bytes, copy_slice, compare_bytes}
use pebble_db.Bytes.Order.{◌≺◌, is_eq}
use pebble_db.Iterator.{Entry}
use pebble_db.Iterator.Merge.{for_each_merged, zip_sources}
use pebble_db.Iterator.Merge.Lists.{find, IsRun}
use pebble_db.Iterator.Merge.Views.{AllRuns, total, newest}
use pebble_db.Iterator.Merge.Rounds.{view}
use pebble_db.Iterator.Merge.Spec.{visible}
use pebble_db.Iterator.Merge.Output.{emitted, collect, Ascending, for_each_merged-newest}
use pebble_db.Memtable.{Node, SkipList, put, delete, snapshot, descend}
use pebble_db.Memtable
use pebble_db.Memtable.Search.{drop_less, descend-eq-drop_less}
use pebble_db.Memtable.Order.{IsOrdered}
use pebble_db.Memtable.Sorted.{put-IsOrdered}
use pebble_db.Memtable.Lookup.{answer, get-eq-answer, find-put, find-delete}
use pebble_db.Memtable.Size.{IsCounted, sum}
use pebble_db.Db.Scan.{SnapshotMemIter, new_snapshot_mem_iter, snapshot_ops}
use pebble_db.Db.Scan.Walks.{rest_of, bare_all, snapshot_ops-Walks}

abbrev pub a_live : Entry
a_live = record { key = 97 ∷ []; value = some (1 ∷ []); tombstone = false }

abbrev pub a_newer : Entry
a_newer = record { key = 97 ∷ []; value = some (2 ∷ []); tombstone = false }

abbrev pub b_dead : Entry
b_dead = record { key = 98 ∷ []; value = none; tombstone = true }

abbrev pub two_nodes : SkipList
two_nodes = record {
  nodes = record { entry = a_live; tower = 2 } ∷ record { entry = b_dead; tower = 1 } ∷ [];
  height = 2;
  length' = 2;
  size = 19;
}

pub a_below_b : a_live.key ≺ b_dead.key
unfolding compare_bytes
a_below_b = refl

pub two_nodes-IsOrdered : IsOrdered two_nodes
two_nodes-IsOrdered = record {
  sorted = ((a_below_b, tt), (tt, tt));
  towers = (omega arith, (omega arith, tt));
  bare = ((λ h. cc), ((λ h. refl), tt));
  tall = omega arith;
}

two_nodes-IsCounted : IsCounted two_nodes
two_nodes-IsCounted = record { size_is = unfold sum in refl; length_is = refl }

put-IsOrdered_example : IsOrdered (put two_nodes (97 ∷ []) (5 ∷ []) 1)
put-IsOrdered_example =
    put-IsOrdered two_nodes (97 ∷ []) (5 ∷ []) 1 two_nodes-IsOrdered (omega arith)

find-put_example : find (98 ∷ []) (snapshot (put two_nodes (97 ∷ []) (5 ∷ []) 1)) ≡ (
    if is_eq (compare_bytes (98 ∷ []) (97 ∷ []))
    then some (record { key = 97 ∷ []; value = copy_slice (5 ∷ []); tombstone = false })
    else find (98 ∷ []) (snapshot two_nodes))
find-put_example =
    find-put two_nodes (97 ∷ []) (5 ∷ []) 1 (98 ∷ []) two_nodes-IsOrdered (omega arith)

find-delete_example : find (97 ∷ []) (snapshot (delete two_nodes (97 ∷ []) 1)) ≡ (
    if is_eq (compare_bytes (97 ∷ []) (97 ∷ []))
    then some (record { key = 97 ∷ []; value = none; tombstone = true })
    else find (97 ∷ []) (snapshot two_nodes))
find-delete_example = find-delete two_nodes (97 ∷ []) 1 (97 ∷ []) two_nodes-IsOrdered (omega arith)

get-eq-answer_example :
    Memtable.get two_nodes (98 ∷ []) ≡ answer (find (98 ∷ []) (snapshot two_nodes))
get-eq-answer_example = get-eq-answer two_nodes (98 ∷ []) two_nodes-IsOrdered

descend-eq-drop_less_example :
    descend 2 (98 ∷ []) two_nodes.nodes ≡ drop_less (98 ∷ []) two_nodes.nodes
descend-eq-drop_less_example =
    descend-eq-drop_less 2 (98 ∷ []) two_nodes.nodes (omega arith) two_nodes-IsOrdered.towers
      two_nodes-IsOrdered.sorted

-- Two runs, the older first.
abbrev pub older_run : List Entry
older_run = a_live ∷ b_dead ∷ []

abbrev pub newer_run : List Entry
newer_run = a_newer ∷ []

pub older_run-IsRun : IsRun older_run
older_run-IsRun = ((λ h. cc), (a_below_b, tt), ((λ h. cc), tt, tt))

pub newer_run-IsRun : IsRun newer_run
newer_run-IsRun = ((λ h. cc), tt, tt)

abbrev pub two_iters : List SnapshotMemIter
two_iters = new_snapshot_mem_iter older_run ∷ new_snapshot_mem_iter newer_run ∷ []

runs : AllRuns (view rest_of (zip_sources snapshot_ops two_iters (0 ∷ 1 ∷ [])))
unfolding view rest_of bare_all zip_sources
runs = (older_run-IsRun, (newer_run-IsRun, tt))

few : total (view rest_of (zip_sources snapshot_ops two_iters (0 ∷ 1 ∷ []))) < 9
unfolding view rest_of bare_all total zip_sources
few = omega arith

for_each_merged-newest_example :
    (out : List Entry) × (for_each_merged snapshot_ops 9 two_iters (0 ∷ 1 ∷ []) true collect []
      ≡ some (map emitted out, none))
    × Ascending out
    × ((k : Bytes)
        → find k out
          ≡ visible true
              (newest k (view rest_of (zip_sources snapshot_ops two_iters (0 ∷ 1 ∷ [])))))
for_each_merged-newest_example =
    for_each_merged-newest snapshot_ops rest_of snapshot_ops-Walks true 9 two_iters (0 ∷ 1 ∷ [])
      refl runs few
