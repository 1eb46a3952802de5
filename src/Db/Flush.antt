-- ===== src/Db/Flush.antt =====
-- internal/db/flush.go: the flusher, which turns the oldest queued memtable into a table, publishes it
-- and cuts the log. Log lines, crash points, the retry's delay and the manifest's own
-- compaction are left out.
pub mod Keeps
pub mod Empties
use pebble_db.Prelude.{
  ℕ, zero, suc, ◌+◌, ltb, leb, if◌then◌else◌, Bool, true, false, Option, none, some, List, [], ◌∷◌,
  ◌++◌, drop,
}
use pebble_db.Bytes.{Bytes}
use pebble_db.Result.{Result, ok, err}
use pebble_db.Wal.Log.{Disk, truncate_before}
use pebble_db.Memtable.{SkipList, snapshot}
use pebble_db.Db.{Builder, Db, FlushQueueEntry}

-- Where the clean-up of the log fails: as `wal.flush` is written, as the log is cut, or as
-- `wal.flush` is removed.
pub data CleanupFault : Type 0 where
  at_write_state : ℕ → CleanupFault
  at_truncate : ℕ → CleanupFault
  at_remove_state : ℕ → CleanupFault

-- What the file system answers to one attempt to flush, apart from the builder.
pub record FlushAnswers : Type 0 where
  pub manifest_error : Option ℕ
  pub cleanup_fault : Option CleanupFault

wal_of_last : Bytes → List Disk → Bytes
wal_of_last file [] = file
wal_of_last file (d ∷ ds) = wal_of_last d.wal ds

-- The log when `TruncateBefore` has returned.
pub truncated : Bytes → ℕ → Bytes
unfolding wal_of_last
truncated file at = wal_of_last file (truncate_before file at)

pub replace_first : List FlushQueueEntry → FlushQueueEntry → List FlushQueueEntry
replace_first [] q = []
replace_first (_ ∷ qs) q = q ∷ qs

module _ {R : Type 0} where
  pub cut_log : Db R → ℕ → Db R
  unfolding truncated
  cut_log db cutoff = record db { wal = record db.wal { file = truncated db.wal.file cutoff } }

  unfoldable pub complete_wal_after_flush : Db R → ℕ → ℕ → Option CleanupFault → Db R × Option ℕ
  unfolding cut_log
  complete_wal_after_flush db cutoff id fault =
      let marked : Db R = record db {
        flush_state = some (record { freeze_offset = cutoff; sst_id = id });
      } in
      elim fault [
        | none ↦ (record (cut_log marked cutoff) { flush_state = none }, none)
        | some f ↦ elim f [
          | at_write_state e ↦ (db, some e)
          | at_truncate e ↦ (marked, some e)
          | at_remove_state e ↦ (cut_log marked cutoff, some e)
        ]
      ]

  -- A failed clean-up is noted; the table stays.
  pub after_cleanup : Db R × Option ℕ → Db R
  after_cleanup (db, e) = record db { bg_errs = record db.bg_errs { wal_cleanup = e } }

  -- From the manifest's commit on.
  pub publish : Db R → ℕ → ℕ → R → FlushAnswers → Db R × Option ℕ
  unfolding after_cleanup
  publish db cutoff id r answers = elim answers.manifest_error [
    | some e ↦ (db, some e)
    | none ↦
        let published : Db R = record db {
          sstables = db.sstables ++ r ∷ [];
          live_ids = db.live_ids ++ id ∷ [];
        } in
        (after_cleanup (complete_wal_after_flush published cutoff id answers.cleanup_fault), none)
  ]

  pub built : Db R → ℕ → ℕ → Result ℕ R → FlushAnswers → Db R × Option ℕ
  unfolding publish
  built db cutoff id (err e) answers = (db, some e)
  built db cutoff id (ok r) answers = publish db cutoff id r answers

  unfoldable pub flush_immutable : Builder R → Db R → SkipList → ℕ → FlushAnswers → Db R × Option ℕ
  unfolding built
  flush_immutable builder db imm cutoff answers =
      let id = db.next_sst_id + 1 in
      let expected = if ltb imm.length' 1 then 1 else imm.length' in
      built (record db { next_sst_id = id }) cutoff id (builder.build id expected (snapshot imm))
        answers

  -- What `drainPendingFlush` does with the result of an attempt.
  pub after_flush : FlushQueueEntry → Db R × Option ℕ → Db R
  unfolding replace_first
  after_flush q (db, some e) = record db {
    pending_flush = replace_first db.pending_flush (record q { retries = q.retries + 1 });
    bg_errs = record db.bg_errs { flush = some e };
  }
  after_flush q (db, none) = record db {
    pending_flush = drop 1 db.pending_flush;
    bg_errs = record db.bg_errs { flush = none };
  }

  pub flush_first : Builder R → Db R → FlushAnswers → List FlushQueueEntry → Db R
  unfolding after_flush
  flush_first builder db answers [] = db
  flush_first builder db answers (q ∷ _) =
      after_flush q (flush_immutable builder db q.mem q.wal_cutoff answers)

  -- One turn of the loop of `drainPendingFlush`, and as many turns as there are answers.
  unfoldable pub drain_round : Builder R → FlushAnswers → Db R → Db R
  unfolding flush_first
  drain_round builder answers db = flush_first builder db answers db.pending_flush

  unfoldable pub drain_pending_flush : Builder R → List FlushAnswers → Db R → Db R
  unfolding drain_round
  drain_pending_flush builder [] db = db
  drain_pending_flush builder (a ∷ as') db =
      drain_pending_flush builder as' (drain_round builder a db)
