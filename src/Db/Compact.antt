-- ===== src/Db/Compact.antt =====
-- internal/db/compaction.go and compactor.go, with `mergeReaders` of internal/sstable/merge_adapter.go.
pub mod Order
use pebble_db.Prelude.{
  ℕ, zero, suc, ◌+◌, ◌==◌, ltb, leb, if◌then◌else◌, ◌||◌, ◌&&◌, not, Bool, true, false, Option,
  none, some, List, [], ◌∷◌, ◌++◌, take, map, length,
}
use pebble_db.Bytes.{Bytes}
use pebble_db.Result.{Result, ok, err}
use pebble_db.Iterator.{Entry, Iterator, IterError}
use pebble_db.Iterator.Merge.{as_bytes, for_each_merged}
use pebble_db.Iterator.Merge.Output.{Emit, collect}
use pebble_db.Db.{Table, Builder, Db}

abbrev pub default_compact_pick_count : ℕ
default_compact_pick_count = 2

-- A reader is a pointer in the source; two readers are the same if they have the same id.
module _ {R : Type 0} (table : Table R) where
  pub pick_ssts : Db R → List R
  pick_ssts db =
      let n =
        if ltb (length db.sstables) default_compact_pick_count
        then length db.sstables
        else default_compact_pick_count in
      if ltb (length db.sstables) db.compact_threshold
      then []
      else if ltb n 2
      then []
      else take n db.sstables

  unfoldable pub is_among : R → List R → Bool
  is_among want [] = false
  is_among want (r ∷ rs) = table.id r == table.id want || is_among want rs

  pub readers_still_present : List R → List R → Bool
  unfolding is_among
  readers_still_present all [] = true
  readers_still_present all (want ∷ rest) = is_among want all && readers_still_present all rest

  -- The loop that leaves out the compacted readers.
  pub without : List R → List R → List R
  unfolding is_among
  without picked [] = []
  without picked (r ∷ rs) = if is_among r picked then without picked rs else r ∷ without picked rs

  pub live_ids_from_readers : List R → List ℕ
  live_ids_from_readers rs = map table.id rs

-- The priorities 0, 1, … of the readers.
pub count_from : ℕ → ℕ → List ℕ
count_from p zero = []
count_from p (suc n) = p ∷ count_from (p + 1) n

-- The entry that `Writer.Add` stores for what the merge hands to it; a nil key is stored as an empty one.
pub added : Emit → Entry
added (key, value, tombstone) = record { key = as_bytes key; value = value; tombstone = tombstone }

-- The calls of `Writer.Add`, and the merge's error.
pub add_all : List Emit × Option IterError → List Entry × Option IterError
unfolding added
add_all (calls, e) = (map added calls, e)

pub add_result : Option (List Emit × Option IterError) → Option (List Entry × Option IterError)
unfolding add_all
add_result none = none
add_result (some r) = some (add_all r)

-- How `mergeSSTables` ends: it takes an id once the entries are counted.
pub data MergeResult (R : Type 0) : Type 0 where
  not_counted : MergeResult R
  merge_failed : MergeResult R
  merged_to : R → MergeResult R

module _ {I R : Type 0} (ops : Iterator I) (new_iterator : R → I) where
  -- `mergeReaders`: what the writer has been given, and the error.
  pub merge_readers : ℕ → List R → Bool → Option (List Entry × Option IterError)
  unfolding count_from add_result
  merge_readers fuel readers keep_tombstones =
      if length readers == 0
      then some ([], none)
      else add_result (
          for_each_merged ops fuel (map new_iterator readers) (count_from 0 (length readers))
            (not keep_tombstones) collect [])

  pub finish_merge : Builder R → ℕ → ℕ → Option (List Entry × Option IterError) → MergeResult R
  finish_merge builder id expected none = merge_failed
  finish_merge builder id expected (some (es, some e)) = merge_failed
  finish_merge builder id expected (some (es, none)) = elim (builder.build id expected es) [
    | ok r ↦ merged_to r
    | err e ↦ merge_failed
  ]

  -- `mergeSSTables`, with the sum of the readers' entry counts, which may fail to be read.
  pub merge_sstables : Builder R → ℕ → Option ℕ → ℕ → List R → MergeResult R
  unfolding merge_readers finish_merge
  merge_sstables builder fuel none id readers = not_counted
  merge_sstables builder fuel (some count) id readers =
      finish_merge builder id (if ltb count 1 then 1 else count) (merge_readers fuel readers true)

-- What happens in `doCompaction` besides: the tables that flushes publish while the merge runs, those
-- that they publish between the second lock and the manifest's append, and the manifest's error.
pub record Meanwhile (R : Type 0) : Type 0 where
  pub during_merge : List R
  pub manifest_error : Option ℕ
  pub during_commit : List R

module _ {R : Type 0} (table : Table R) where
  pub publish_tables : Db R → List R → Db R
  unfolding live_ids_from_readers
  publish_tables db rs = record db {
    sstables = db.sstables ++ rs;
    live_ids = db.live_ids ++ live_ids_from_readers table rs;
  }

  -- From the second lock on. The new list and the manifest's list are made from the tables before
  -- `during_commit`; `old_ids` are those of the first lock.
  pub commit : List ℕ → Db R → List R → R → Meanwhile R → Db R
  unfolding without live_ids_from_readers publish_tables readers_still_present
  commit old_ids db picked merged w =
      let new_list = without table picked db.sstables ++ merged ∷ [] in
      let later = publish_tables db w.during_commit in
      let swapped : Db R = record later {
        sstables = new_list;
        live_ids = live_ids_from_readers table new_list;
      } in
      let rolled_back : Db R = record later { live_ids = old_ids } in
      if readers_still_present table db.sstables picked
      then elim w.manifest_error [
        | some e ↦ later
        | none ↦ if readers_still_present table later.sstables picked then swapped else rolled_back
      ]
      else db

  pub merged_or_not : Db R → List R → MergeResult R → Meanwhile R → Db R
  unfolding commit publish_tables
  merged_or_not db picked not_counted w = publish_tables db w.during_merge
  merged_or_not db picked merge_failed w =
      publish_tables (record db { next_sst_id = db.next_sst_id + 1 }) w.during_merge
  merged_or_not db picked (merged_to merged) w =
      commit (live_ids_from_readers table db.sstables)
        (publish_tables (record db { next_sst_id = db.next_sst_id + 1 }) w.during_merge) picked
        merged w

  pub compact_picked : (ℕ → List R → MergeResult R) → Db R → List R → Meanwhile R → Db R
  unfolding readers_still_present merged_or_not
  compact_picked merge db picked w =
      let merging = merged_or_not db picked (merge (db.next_sst_id + 1) picked) w in
      if ltb (length picked) 2
      then db
      else if readers_still_present table db.sstables picked
      then merging
      else db

  -- `doCompaction`, with the merge of the picked readers under a new id. What follows the swap, the
  -- manifest's own compaction and the removal of the old files, changes nothing of this state.
  unfoldable pub do_compaction : (ℕ → List R → MergeResult R) → Db R → Meanwhile R → Db R
  unfolding pick_ssts compact_picked
  do_compaction merge db w = compact_picked merge db (pick_ssts table db) w
