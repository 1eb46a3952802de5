-- ===== src/Db/Batch/Sizes.antt =====
-- The byte count of the batch.
use pebble_db.Prelude.{
  ℕ, ◌+◌, ◌≡◌, refl, Bool, true, false, Bool-cases, inl, inr, Option, none, some, List, [], ◌∷◌,
  ◌++◌, leb, if◌then◌else◌, arith,
}
use pebble_db.Wal.Limits.{WalError}
use pebble_db.Wal.Format.{Record}
use pebble_db.Wal.Log.{Wal, Answer, append_batch}
use pebble_db.Db.{Db, DbError, err_closed}
use pebble_db.Db.Batch.{
  wire_sizes, apply_batch, record_wire_size, queue_record, queue_all, rotate, maybe_flush,
  take_pending_batch, restore_pending_batch, persisted, report, flush_batch, or_write, take_batch,
  flush_pending_batch, flush_now, write_blocking_error, write_record, Outcome,
}

-- The count is the size of the records that wait.
abbrev pub IsCounted : {R : Type 0} → Db R → Type 0
IsCounted db = db.batch_size_bytes ≡ wire_sizes db.pending_batch

wire_sizes-append : (a b : List Record) → wire_sizes (a ++ b) ≡ wire_sizes a + wire_sizes b
unfolding wire_sizes
wire_sizes-append [] b = omega arith
wire_sizes-append (rec ∷ a) b = omega (arith, wire_sizes-append a b)

module _ {R : Type 0} where
  queue_record-IsCounted :
      (db : Db R) (rec : Record) → IsCounted db → IsCounted (queue_record db rec)
  unfolding queue_record
  queue_record-IsCounted db rec h =
      let one : wire_sizes (rec ∷ []) ≡ record_wire_size rec = unfold wire_sizes in omega arith in
      omega (arith, h, wire_sizes-append db.pending_batch (rec ∷ []), one)

  pub queue_all-IsCounted :
      (db : Db R) (rs : List Record) → IsCounted db → IsCounted (queue_all db rs)
  unfolding queue_all
  queue_all-IsCounted db [] h = h
  queue_all-IsCounted db (rec ∷ rs) h =
      queue_all-IsCounted (queue_record db rec) rs (queue_record-IsCounted db rec h)

  restore-IsCounted :
      (db : Db R) (batch : List Record) → IsCounted db → IsCounted (restore_pending_batch db batch)
  unfolding restore_pending_batch
  restore-IsCounted db batch h = omega (arith, h, wire_sizes-append batch db.pending_batch)

  rotate-IsCounted :
      (db : Db R) (size_error : Option WalError) → IsCounted db → IsCounted (rotate db size_error).0
  unfolding rotate
  rotate-IsCounted db none h = h
  rotate-IsCounted db (some e) h = h

  maybe_flush-IsCounted :
      (db : Db R) (size_error : Option WalError)
      → IsCounted db
      → IsCounted (maybe_flush db size_error).0
  unfolding maybe_flush
  maybe_flush-IsCounted db size_error h = elim (Bool-cases (leb db.active.size db.memtable_size)) [
    | inl small ↦ rw small h
    | inr large ↦ rw large (rotate-IsCounted db size_error h)
  ]

  report-IsCounted : (x : Db R × Bool × Option WalError) → IsCounted x.0 → IsCounted (report x).0
  unfolding report
  report-IsCounted (db, b, none) h = h
  report-IsCounted (db, b, some e) h = h

  persisted-IsCounted :
      (db : Db R) (batch : List Record) (hs : List ℕ) (size_error : Option WalError)
      (r : Wal × Option WalError)
      → IsCounted db
      → IsCounted (persisted db batch hs size_error r).0
  unfolding persisted
  persisted-IsCounted db batch hs size_error (w, some e) h =
      restore-IsCounted (record db { wal = w; bg_errs = record db.bg_errs { wal = some e } }) batch
        h
  persisted-IsCounted db batch hs size_error (w, none) h =
      let db' : Db R = record db { wal = w; active = apply_batch db.active batch hs } in
      report-IsCounted (maybe_flush db' size_error) (maybe_flush-IsCounted db' size_error h)

  flush_batch-IsCounted :
      (db : Db R) (batch meanwhile : List Record) (answers : List Answer) (sync : Option WalError)
      (hs : List ℕ) (size_error : Option WalError)
      → IsCounted db
      → IsCounted (flush_batch db batch meanwhile answers sync hs size_error).0
  unfolding flush_batch
  flush_batch-IsCounted db [] meanwhile answers sync hs size_error h =
      queue_all-IsCounted db meanwhile h
  flush_batch-IsCounted db (rec ∷ rs) meanwhile answers sync hs size_error h =
      persisted-IsCounted (queue_all db meanwhile) (rec ∷ rs) hs size_error
        (append_batch db.wal (rec ∷ rs) answers sync) (queue_all-IsCounted db meanwhile h)

  take_batch-IsCounted :
      (db : Db R) (batch : List Record) → IsCounted db → IsCounted (take_batch db batch).1
  unfolding take_batch
  take_batch-IsCounted db [] h = h
  take_batch-IsCounted db (rec ∷ rs) h = unfold wire_sizes in refl

  flush_pending_batch-IsCounted :
      (db : Db R) (meanwhile : List Record) (answers : List Answer) (sync : Option WalError)
      (hs : List ℕ) (size_error : Option WalError)
      → IsCounted db
      → IsCounted (flush_pending_batch db meanwhile answers sync hs size_error).0
  unfolding flush_pending_batch take_pending_batch
  flush_pending_batch-IsCounted db meanwhile answers sync hs size_error h =
      flush_batch-IsCounted (take_pending_batch db).1 (take_pending_batch db).0 meanwhile answers
        sync hs size_error (take_batch-IsCounted db db.pending_batch h)

  or_write-IsCounted :
      (db : Db R) (e : Option DbError) (o : Outcome R)
      → IsCounted db
      → IsCounted o.0
      → IsCounted (or_write db e o).0
  unfolding or_write
  or_write-IsCounted db (some e) o h ho = h
  or_write-IsCounted db none o h ho = ho

  if-IsCounted :
      (b : Bool) (x y : Outcome R)
      → IsCounted x.0
      → IsCounted y.0
      → IsCounted (if b then x else y).0
  if-IsCounted true x y hx hy = hx
  if-IsCounted false x y hx hy = hy

  -- A write keeps the batch's byte count equal to the sizes on disk of the records that wait, on
  -- every path: blocked by a background error, on a closed database, queued, or flushed to the log
  -- with or without an error, whatever other writers queue meanwhile.
  pub write_record-IsCounted :
      (db : Db R) (rec : Record) (meanwhile : List Record) (answers : List Answer)
      (sync : Option WalError) (hs : List ℕ) (size_error : Option WalError)
      → IsCounted db
      → IsCounted (write_record db rec meanwhile answers sync hs size_error).0
  unfolding write_record
  write_record-IsCounted db rec meanwhile answers sync hs size_error h =
      let queued = queue_record db rec in
      let counted = queue_record-IsCounted db rec h in
      let flushed = flush_pending_batch queued meanwhile answers sync hs size_error in
      let open_outcome = if flush_now queued then flushed else (queued, none) in
      or_write-IsCounted db (write_blocking_error db)
        (if db.closed then (db, some err_closed) else open_outcome) h
        (if-IsCounted db.closed (db, some err_closed) open_outcome h
          (if-IsCounted (flush_now queued) flushed (queued, none)
            (flush_pending_batch-IsCounted queued meanwhile answers sync hs size_error counted)
            counted))
