-- ===== src/Db/Scan.antt =====
-- The sources of a scan, internal/db/scan.go: the iterator over a memtable's snapshot, the snapshot of
-- the batch, and the priorities that `Scan` gives to its sources.
pub mod Walks
use pebble_db.Prelude.{
  ℕ, zero, suc, ◌+◌, ◌-◌, ltb, ◌&&◌, if◌then◌else◌, Bool, true, false, Option, none, some, List, [],
  ◌∷◌, ◌++◌, length, drop, map, reverse,
}
use pebble_db.Bytes.{Bytes, copy_slice, compare_bytes}
use pebble_db.Bytes.Order.{is_lt}
use pebble_db.Iterator.{Entry, Iterator, IterError}
use pebble_db.Wal.Format.{Record}
use pebble_db.Memtable.{snapshot}
use pebble_db.Db.{Db, FlushQueueEntry}

-- `snapshotMemIter`. `idx` is never negative.
pub record SnapshotMemIter : Type 0 where
  pub entries : List Entry
  pub idx : ℕ

abbrev pub new_snapshot_mem_iter : List Entry → SnapshotMemIter
new_snapshot_mem_iter entries = record { entries = entries; idx = 0 }

pub valid : SnapshotMemIter → Bool
valid s = ltb s.idx (length s.entries)

pub first_key : List Entry → Option Bytes
first_key [] = none
first_key (e ∷ es) = copy_slice e.key

pub first_value : List Entry → Option Bytes
first_value [] = none
first_value (e ∷ es) = if e.tombstone then none else e.value

pub first_is_tombstone : List Entry → Bool
first_is_tombstone [] = false
first_is_tombstone (e ∷ es) = e.tombstone

-- `s.entries[s.idx]` is the first of what the index leaves. The keys are copies, nil where empty.
pub key : SnapshotMemIter → Option Bytes
unfolding first_key
key s = first_key (drop s.idx s.entries)

pub value : SnapshotMemIter → Option Bytes
unfolding first_value
value s = first_value (drop s.idx s.entries)

pub is_tombstone : SnapshotMemIter → Bool
unfolding first_is_tombstone
is_tombstone s = first_is_tombstone (drop s.idx s.entries)

pub next : SnapshotMemIter → SnapshotMemIter × Option IterError
next s = (if ltb s.idx (length s.entries) then record s { idx = s.idx + 1 } else s, none)

-- The loop of `Seek`, over the entries that the index leaves.
pub seek_loop : Bytes → ℕ → List Entry → ℕ
seek_loop target idx [] = idx
seek_loop target idx (e ∷ es) =
    let further = seek_loop target (idx + 1) es in
    if is_lt (compare_bytes e.key target) then further else idx

pub seek : SnapshotMemIter → Bytes → SnapshotMemIter × Option IterError
unfolding seek_loop
seek s target = (record s { idx = seek_loop target 0 s.entries }, none)

abbrev pub snapshot_ops : Iterator SnapshotMemIter
snapshot_ops = record {
  valid = valid;
  next = next;
  key = key;
  value = value;
  is_tombstone = is_tombstone;
  seek = seek;
}

abbrev pub scan_priority_pending_batch : ℕ
scan_priority_pending_batch = 1000001

abbrev pub scan_priority_active : ℕ
scan_priority_active = 1000000

abbrev pub scan_priority_immutable : ℕ
scan_priority_immutable = 999999

-- The loop over the flush queue, from the newest memtable to the oldest: `passed` have been seen.
pub queue_sources : ℕ → List FlushQueueEntry → List SnapshotMemIter × List ℕ
queue_sources passed [] = ([], [])
queue_sources passed (q ∷ older) =
    let rest = queue_sources (passed + 1) older in
    (new_snapshot_mem_iter (snapshot q.mem) ∷ rest.0, (scan_priority_immutable - passed) ∷ rest.1)

-- The memory's sources of `Scan`, with a snapshot of the batch that may be empty.
unfoldable pub memory_sources : {R : Type 0} → List Entry → Db R → List SnapshotMemIter × List ℕ
unfolding queue_sources
memory_sources [] db =
    let rest = queue_sources 0 (reverse db.pending_flush) in
    (new_snapshot_mem_iter (snapshot db.active) ∷ rest.0, scan_priority_active ∷ rest.1)
memory_sources (e ∷ es) db =
    let rest = queue_sources 0 (reverse db.pending_flush) in
    (
      new_snapshot_mem_iter (e ∷ es) ∷ new_snapshot_mem_iter (snapshot db.active) ∷ rest.0,
      scan_priority_pending_batch ∷ scan_priority_active ∷ rest.1,
    )
