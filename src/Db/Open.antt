-- ===== src/Db/Open.antt =====
-- internal/db/db.go: `Open`, over the directory's files. The lock of the directory, the making of the
-- directory and the files' handles have their faults as arguments.
pub mod Recovers
use mathlib.Core.List.{foldl}
use pebble_db.Prelude.{
  ℕ, zero, suc, ◌+◌, ◌*◌, ltb, leb, ◌==◌, ◌||◌, not, if◌then◌else◌, Bool, true, false, Option, none,
  some, List, [], ◌∷◌, ◌++◌, length,
}
use pebble_db.Bytes.{Bytes}
use pebble_db.Result.{Result, ok, err, ensure, ◌>>=◌, ◌>>◌}
use pebble_db.Wal.Limits.{ReplayLimits, WalError, with_defaults}
use pebble_db.Wal.Format.{Record}
use pebble_db.Wal.Log.{Wal}
use pebble_db.Wal.Replay.{Replayed, replay_from_with_recovery}
use pebble_db.Memtable.{SkipList, new_skip_list}
use pebble_db.Manifest.{
  ManifestError, Log, AppendAnswer, replay, bootstrap_if_empty, live_ids, is_live,
}
use pebble_db.Db.{WalFlushState, Db}
use pebble_db.Db.Batch.{apply_record, next_height, later_heights}
use pebble_db.Db.WalState
use pebble_db.Db.WalState.{Content, Stat, size_is, no_log, StateError, wal_replay_start_offset}

-- `CompactionThreshold`, an `int`: a negative one disables compaction.
pub data Threshold : Type 0 where
  tables : ℕ → Threshold
  disabled : Threshold

-- A memtable size that is zero stands for one that is not positive, too.
pub record Options : Type 0 where
  pub has_dir : Bool
  pub memtable_size : ℕ
  pub compaction_threshold : Threshold
  pub wal_replay_limits : ReplayLimits
  pub sync_writes : Bool
  pub block_writes_on_flush_error : Option Bool

-- What `Open` finds: the manifest, the ids of the `sst_` files, each of the tables or why it cannot be
-- opened, the log, and `wal.flush`.
pub record Directory (R : Type 0) : Type 0 where
  pub manifest : Bytes
  pub sst_ids : List ℕ
  pub open_table : ℕ → Result ℕ R
  pub log : Option Bytes
  pub flush_file : Content

-- The faults of the calls, and the drawn heights of the replayed nodes.
pub record OpenAnswers : Type 0 where
  pub make_dir : Option ℕ
  pub lock : Option ℕ
  pub open_manifest : Option ℕ
  pub read_dir : Option ℕ
  pub bootstrap : AppendAnswer
  pub open_log : Option ℕ
  pub heights : List ℕ

-- `stuck` is the fuel of a replay running out.
pub data OpenFault : Type 0 where
  err_empty_dir stuck : OpenFault
  fault : ℕ → OpenFault
  bad_manifest : ManifestError → OpenFault
  bad_table : ℕ → OpenFault
  bad_state : StateError → OpenFault
  bad_log : WalError → OpenFault

abbrev pub default_memtable_size : ℕ
default_memtable_size = 4 * 0x100000

abbrev pub default_compact_threshold : ℕ
default_compact_threshold = 4

abbrev pub or_default : ℕ → ℕ → ℕ
or_default value default' = if value == 0 then default' else value

-- In the handle, zero stands for a threshold that is not positive.
abbrev pub threshold_of : Threshold → ℕ
threshold_of (tables n) = or_default n default_compact_threshold
threshold_of disabled = 0

abbrev pub unless_set : Option Bool → Bool
unless_set none = true
unless_set (some b) = b

abbrev pub no_fault : Option ℕ → Result OpenFault (Unit {0})
no_fault none = ok tt
no_fault (some e) = err (fault e)

abbrev pub opened_log : Option (Result ManifestError Log) → Result OpenFault Log
opened_log none = err stuck
opened_log (some (err e)) = err (bad_manifest e)
opened_log (some (ok l)) = ok l

abbrev pub bootstrapped : Log × Option ℕ → Result OpenFault Log
bootstrapped (l, none) = ok l
bootstrapped (l, some e) = err (fault e)

abbrev pub table_read : {R : Type 0} → Result ℕ R → Result OpenFault R
table_read (err e) = err (bad_table e)
table_read (ok r) = ok r

-- The loop of `loadSSTables`: the open tables, and the largest id so far.
unfoldable pub load_loop :
    {R : Type 0} → (ℕ → Result ℕ R) → List ℕ → List R → ℕ → Result OpenFault (List R × ℕ)
load_loop open_table [] readers largest = ok (readers, largest)
load_loop open_table (id ∷ ids) readers largest = table_read (open_table id) >>= λ r.
    load_loop open_table ids (readers ++ r ∷ []) (if ltb largest id then id else largest)

-- `removeOrphanSSTFiles`: the files that stay where they are. Renaming is taken to succeed; a file that
-- cannot be renamed stays, and is not read either.
unfoldable pub without_orphans : List ℕ → List ℕ → List ℕ
without_orphans live [] = []
without_orphans live (id ∷ ids) =
    if is_live id live then id ∷ without_orphans live ids else without_orphans live ids

-- The callback of the replay, with the heights that are left.
abbrev pub replay_record : SkipList × List ℕ → Record → SkipList × List ℕ
replay_record (sl, hs) rec = (apply_record sl rec (next_height hs), later_heights hs)

abbrev pub log_stat : Option Bytes → Stat
log_stat none = no_log
log_stat (some file) = size_is (length file)

abbrev pub replayed_log :
    Option (Replayed (SkipList × List ℕ)) → Result OpenFault (SkipList × Bytes)
replayed_log none = err stuck
replayed_log (some r) = elim r.error [ some e ↦ err (bad_log e) | none ↦ ok (r.state.0, r.file) ]

abbrev pub state_read : Result StateError ℕ → Result OpenFault ℕ
state_read (err e) = err (bad_state e)
state_read (ok n) = ok n

abbrev pub flush_state_of : Content → Option WalFlushState
flush_state_of file = elim (WalState.read_wal_flush_state file) [ err _ ↦ none | ok st ↦ st ]

module _ {R : Type 0} where
  -- `walReplayStartOffset` and the replay.
  unfoldable pub recover_log :
      Directory R → ReplayLimits → Log → List ℕ → Result OpenFault (SkipList × Bytes)
  recover_log dir limits manifest heights =
      state_read (
        wal_replay_start_offset dir.flush_file (λ id. is_live id manifest.live_set)
          (log_stat dir.log))
      >>= λ (start : ℕ). replayed_log (
          replay_from_with_recovery (λ s rec. (replay_record s rec, none)) dir.log limits start
            (new_skip_list, heights))

  -- The handle that `Open` returns.
  abbrev pub handle : Options → Directory R → Log → List R × ℕ → SkipList × Bytes → Db R
  handle opts dir manifest (readers, largest) (active, log) = record {
    closed = false;
    pending_batch = [];
    batch_size_bytes = 0;
    active = active;
    pending_flush = [];
    sstables = readers;
    wal = record { file = log; limits = with_defaults opts.wal_replay_limits };
    memtable_size = or_default opts.memtable_size default_memtable_size;
    sync_writes = opts.sync_writes;
    block_writes_on_flush_error = unless_set opts.block_writes_on_flush_error;
    next_sst_id = largest;
    live_ids = manifest.live_set;
    flush_state = flush_state_of dir.flush_file;
    compact_threshold = threshold_of opts.compaction_threshold;
    bg_errs = record { wal = none; flush = none; compaction = none; wal_cleanup = none };
  }

  -- `Open`, with the ids of the table files that it leaves in the directory.
  unfoldable pub open_db : Options → Directory R → OpenAnswers → Result OpenFault (Db R × List ℕ)
  unfolding load_loop recover_log without_orphans
  open_db opts dir a =
      ensure opts.has_dir err_empty_dir
      >> no_fault a.make_dir
      >> no_fault a.lock
      >> no_fault a.open_manifest
      >> opened_log (replay dir.manifest)
      >>= λ (l : Log).
          no_fault a.read_dir
          >> bootstrapped (bootstrap_if_empty l dir.sst_ids a.bootstrap)
          >>= λ (manifest : Log).
              load_loop dir.open_table (live_ids manifest) [] 0 >>= λ (loaded : List R × ℕ).
              recover_log dir (with_defaults opts.wal_replay_limits) manifest a.heights
              >>= λ (recovered : SkipList × Bytes).
                  no_fault a.open_log
                  >> ok (
                    handle opts dir manifest loaded recovered,
                    without_orphans manifest.live_set dir.sst_ids,
                  )
