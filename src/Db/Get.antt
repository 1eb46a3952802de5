-- ===== src/Db/Get.antt =====
-- internal/db/get.go, and `lookupPendingBatch` of internal/db/batch.go.
pub mod Layers
use pebble_db.Prelude.{
  ℕ, Bool, true, false, Option, none, some, List, [], ◌∷◌, if◌then◌else◌, reverse,
}
use pebble_db.Bytes.{Bytes, equal, copy_slice}
use pebble_db.Result.{Result, ok, err}
use pebble_db.Wal.Format.{Record}
use pebble_db.Memtable.{SkipList}
use pebble_db.Memtable
use pebble_db.Db.{
  ReadFault, closed_file, read_fault, Table, FlushQueueEntry, Db, DbError, err_closed,
  err_not_found, table_error,
}

-- `memLookupResult`, with the value that goes with a hit.
pub data Lookup : Type 0 where
  miss : Lookup
  hit : Option Bytes → Lookup
  tombstone : Lookup

-- The loop from the last record of the batch to the first, over the records in that order.
pub lookup_newest_first : List Record → Bytes → Lookup
lookup_newest_first [] key = miss
lookup_newest_first (rec ∷ older) key =
    let next = lookup_newest_first older key in
    if equal rec.key key
    then (if rec.tombstone then tombstone else hit (copy_slice rec.value))
    else next

pub lookup_pending_batch : List Record → Bytes → Lookup
unfolding lookup_newest_first
lookup_pending_batch batch key = lookup_newest_first (reverse batch) key

-- `mt.Get`'s three results.
pub of_get : Option Bytes × Bool × Bool → Lookup
of_get (val, found, tomb) = if found then (if tomb then tombstone else hit val) else miss

pub lookup_memtable : SkipList → Bytes → Lookup
unfolding of_get
lookup_memtable mt key = of_get (Memtable.get mt key)

pub or_older : Lookup → Lookup → Lookup
or_older miss older = older
or_older (hit v) older = hit v
or_older tombstone older = tombstone

-- The loop over the queued memtables, given from the newest to the oldest.
pub lookup_queue : List FlushQueueEntry → Bytes → Lookup
unfolding lookup_memtable or_older
lookup_queue [] key = miss
lookup_queue (q ∷ older) key = or_older (lookup_memtable q.mem key) (lookup_queue older key)

-- A value and whether the key was found; a tombstone is found without a value.
abbrev pub Found : Type 0
Found = Option Bytes × Bool

pub after_read :
    Result ReadFault (Option Bytes × Bool × Bool) → Result ReadFault Found → Result ReadFault Found
after_read (err closed_file) older = older
after_read (err (read_fault e)) older = err (read_fault e)
after_read (ok (val, false, tomb)) older = older
after_read (ok (val, true, tomb)) older = if tomb then ok (none, true) else ok (val, true)

module _ {R : Type 0} (table : Table R) where
  -- The loop of `lookupSSTReaders`, over the readers from the newest to the oldest.
  pub lookup_readers : List R → Bytes → Result ReadFault Found
  unfolding after_read
  lookup_readers [] key = ok (none, false)
  lookup_readers (r ∷ older) key =
      let next = lookup_readers older key in
      if table.may_contain r key then after_read (table.get r key) next else next

  pub lookup_sst_readers : List R → Bytes → Result ReadFault Found
  unfolding lookup_readers
  lookup_sst_readers readers key = lookup_readers (reverse readers) key

-- The end of `Get`: a nil value is not found.
pub from_tables : Result ReadFault Found → Result DbError (Option Bytes)
from_tables (err e) = err (table_error e)
from_tables (ok (val, false)) = err err_not_found
from_tables (ok (none, true)) = err err_not_found
from_tables (ok (some v, true)) = ok (some v)

-- One layer of memory, and what is asked where it does not have the key.
pub or_else : Lookup → Result DbError (Option Bytes) → Result DbError (Option Bytes)
or_else miss rest = rest
or_else (hit v) rest = ok v
or_else tombstone rest = err err_not_found

unfoldable pub get : {R : Type 0} → Table R → Db R → Bytes → Result DbError (Option Bytes)
unfolding or_else lookup_pending_batch lookup_memtable lookup_queue from_tables lookup_sst_readers
get table db key =
    let from_layers = or_else (lookup_pending_batch db.pending_batch key) (
      or_else (lookup_memtable db.active key) (
        or_else (lookup_queue (reverse db.pending_flush) key)
          (from_tables (lookup_sst_readers table db.sstables key)))) in
    if db.closed then err err_closed else from_layers
