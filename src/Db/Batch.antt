-- ===== src/Db/Batch.antt =====
-- internal/db/batch.go and write.go: the group commit. Records are queued, written to the log in one
-- batch, and only then put into the active memtable.
pub mod Sizes
pub mod Visible
use pebble_db.Prelude.{
  ℕ, zero, suc, ◌+◌, ◌*◌, leb, ltb, ◌||◌, Bool, true, false, Option, none, some, List, [], ◌∷◌,
  ◌++◌, if◌then◌else◌, length,
}
use pebble_db.Bytes.{Bytes}
use pebble_db.Result.{Result, ok, err}
use pebble_db.Wal.Limits.{WalError}
use pebble_db.Wal.Format.{Record}
use pebble_db.Wal.Log.{Wal, Answer, append_batch, size}
use pebble_db.Memtable.{SkipList, new_skip_list, put, delete}
use pebble_db.Db.{Db, DbError, err_closed, wal_failed, background, FlushQueueEntry}

abbrev pub batch_max_records : ℕ
batch_max_records = 64

abbrev pub batch_max_bytes : ℕ
batch_max_bytes = 16 * 1024

abbrev pub record_wire_size : Record → ℕ
record_wire_size rec = 4 + length rec.key + 4 + length rec.value + 1 + 4

-- The random heights of the nodes are drawn in the order of the records.
pub next_height : List ℕ → ℕ
next_height [] = 1
next_height (h ∷ _) = h

pub later_heights : List ℕ → List ℕ
later_heights [] = []
later_heights (_ ∷ hs) = hs

-- `applyRecordToMemtable`, and its loop over a batch.
pub apply_record : SkipList → Record → ℕ → SkipList
apply_record sl rec drawn =
    if rec.tombstone then delete sl rec.key drawn else put sl rec.key rec.value drawn

unfoldable pub apply_batch : SkipList → List Record → List ℕ → SkipList
unfolding apply_record next_height later_heights
apply_batch sl [] hs = sl
apply_batch sl (rec ∷ rs) hs =
    apply_batch (apply_record sl rec (next_height hs)) rs (later_heights hs)

-- What the loop of `restorePendingBatchLocked` adds up.
unfoldable pub wire_sizes : List Record → ℕ
wire_sizes [] = 0
wire_sizes (rec ∷ rs) = record_wire_size rec + wire_sizes rs

-- What an operation of a database leaves behind, and its `error`.
abbrev pub Outcome : Type 0 → Type 0
Outcome R = Db R × Option DbError

-- internal/db/bg_errors.go: `writeBlockingBackgroundErr` joins the errors that block writes.
join_errors : Option WalError → Option ℕ → Option DbError
join_errors none none = none
join_errors (some w) f = some (background (some w) f)
join_errors none (some f) = some (background none (some f))

module _ {R : Type 0} where
  pub take_batch : Db R → List Record → List Record × Db R
  take_batch db [] = ([], db)
  take_batch db (rec ∷ rs) = (rec ∷ rs, record db { pending_batch = []; batch_size_bytes = 0 })

  pub take_pending_batch : Db R → List Record × Db R
  unfolding take_batch
  take_pending_batch db = take_batch db db.pending_batch

  pub restore_pending_batch : Db R → List Record → Db R
  unfolding wire_sizes
  restore_pending_batch db batch = record db {
    pending_batch = batch ++ db.pending_batch;
    batch_size_bytes = db.batch_size_bytes + wire_sizes batch;
  }

  -- The queueing in `writeRecord`, under the lock.
  pub queue_record : Db R → Record → Db R
  queue_record db rec = record db {
    pending_batch = db.pending_batch ++ rec ∷ [];
    batch_size_bytes = db.batch_size_bytes + record_wire_size rec;
  }

  pub queue_all : Db R → List Record → Db R
  unfolding queue_record
  queue_all db [] = db
  queue_all db (rec ∷ rs) = queue_all (queue_record db rec) rs

  -- `maybeFlushLocked`: the memtable with the size of the log, which may not be known.
  pub rotate : Db R → Option WalError → Db R × Bool × Option WalError
  rotate db (some e) = (db, false, some e)
  rotate db none = (
    record db {
      pending_flush =
          db.pending_flush
          ++ record { mem = db.active; wal_cutoff = size db.wal; retries = 0 } ∷ [];
      active = new_skip_list;
    },
    true,
    none,
  )

  pub maybe_flush : Db R → Option WalError → Db R × Bool × Option WalError
  unfolding rotate
  maybe_flush db size_error =
      if leb db.active.size db.memtable_size then (db, false, none) else rotate db size_error

  pub report : Db R × Bool × Option WalError → Outcome R
  report (db, _, none) = (db, none)
  report (db, _, some e) = (db, some (wal_failed e))

  -- What follows the write of the batch to the log, with its result.
  pub persisted : Db R → List Record → List ℕ → Option WalError → Wal × Option WalError → Outcome R
  unfolding restore_pending_batch apply_batch report maybe_flush
  persisted db batch hs size_error (w, some e) = (
    restore_pending_batch (record db { wal = w; bg_errs = record db.bg_errs { wal = some e } })
        batch,
    some (wal_failed e),
  )
  persisted db batch hs size_error (w, none) =
      report
        (maybe_flush (record db { wal = w; active = apply_batch db.active batch hs }) size_error)

  -- `flushPendingBatch`. The lock is free while the log is written: `meanwhile` are the records that
  -- other writers queue then. The other arguments are what the operating system answers to the
  -- writes, the sync and the query of the log's size, and the heights that are drawn.
  pub flush_batch :
      Db R
      → List Record
      → List Record
      → List Answer
      → Option WalError
      → List ℕ
      → Option WalError
      → Outcome R
  unfolding queue_all persisted
  flush_batch db [] meanwhile answers sync hs size_error = (queue_all db meanwhile, none)
  flush_batch db (rec ∷ rs) meanwhile answers sync hs size_error =
      persisted (queue_all db meanwhile) (rec ∷ rs) hs size_error
        (append_batch db.wal (rec ∷ rs) answers sync)

  unfoldable pub flush_pending_batch :
      Db R → List Record → List Answer → Option WalError → List ℕ → Option WalError → Outcome R
  unfolding flush_batch take_pending_batch
  flush_pending_batch db meanwhile answers sync hs size_error =
      let (batch, taken) = take_pending_batch db in
      flush_batch taken batch meanwhile answers sync hs size_error

  pub write_blocking_error : Db R → Option DbError
  unfolding join_errors
  write_blocking_error db =
      join_errors db.bg_errs.wal (if db.block_writes_on_flush_error then db.bg_errs.flush else none)

  pub flush_now : Db R → Bool
  flush_now db =
      db.sync_writes
      || leb batch_max_records (length db.pending_batch)
      || leb batch_max_bytes db.batch_size_bytes
      || ltb db.memtable_size (db.active.size + db.batch_size_bytes)

  pub or_write : Db R → Option DbError → Outcome R → Outcome R
  or_write db (some e) written = (db, some e)
  or_write db none written = written

  -- `writeRecord`, with the batch's flush in the flusher where one is due at once.
  unfoldable pub write_record :
      Db R
      → Record
      → List Record
      → List Answer
      → Option WalError
      → List ℕ
      → Option WalError
      → Outcome R
  unfolding or_write write_blocking_error queue_record flush_now
  write_record db rec meanwhile answers sync hs size_error =
      let queued = queue_record db rec in
      or_write db (write_blocking_error db) (
        if db.closed
        then (db, some err_closed)
        else if flush_now queued
        then flush_pending_batch queued meanwhile answers sync hs size_error
        else (queued, none))

-- `Put` and `Delete`
abbrev pub put_record : Bytes → Bytes → Record
put_record key value = record { key = key; value = value; tombstone = false }

abbrev pub delete_record : Bytes → Record
delete_record key = record { key = key; value = []; tombstone = true }
