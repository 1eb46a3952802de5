-- ===== src/Db.antt =====
-- The database handle of internal/db: the layers it keeps, and the operations that move records
-- from one to the next. The locks, which make each operation one step, are not modelled.
pub mod Get
pub mod Batch
pub mod Flush
pub mod Compact
pub mod WalState
pub mod Scan
pub mod Open
use pebble_db.Prelude.{ℕ, Bool, Option, List}
use pebble_db.Bytes.{Bytes}
use pebble_db.Result.{Result}
use pebble_db.Iterator.{Entry}
use pebble_db.Wal.Format.{Record}
use pebble_db.Wal.Limits.{WalError}
use pebble_db.Wal.Log.{Wal}
use pebble_db.Memtable.{SkipList}

-- Why a table could not be read: its file is closed, or the read failed.
pub data ReadFault : Type 0 where
  closed_file : ReadFault
  read_fault : ℕ → ReadFault

-- What the database uses of an open SSTable: the Bloom filter's test, and a lookup, which returns
-- the value, whether the key was found, and whether it is a tombstone.
pub record Table (R : Type 0) : Type 0 where
  pub may_contain : R → Bytes → Bool
  pub get : R → Bytes → Result ReadFault (Option Bytes × Bool × Bool)
  pub id : R → ℕ

-- What it uses of the writer and of opening a table: `build` is the id, the number of entries that is
-- expected and the entries, in order.
pub record Builder (R : Type 0) : Type 0 where
  pub build : ℕ → ℕ → List Entry → Result ℕ R

-- An entry of the flush queue.
pub record FlushQueueEntry : Type 0 where
  pub mem : SkipList
  pub wal_cutoff : ℕ
  pub retries : ℕ

-- `backgroundErrStore`: the last error of each kind of background work.
pub record BackgroundErrs : Type 0 where
  pub wal : Option WalError
  pub flush : Option ℕ
  pub compaction : Option ℕ
  pub wal_cleanup : Option ℕ

-- `walFlushState`, the content of the file `wal.flush`.
pub record WalFlushState : Type 0 where
  pub freeze_offset : ℕ
  pub sst_id : ℕ

-- `live_ids` are the ids in the manifest, `flush_state` the file `wal.flush`. `sstables` has the newest table last.
pub record Db (R : Type 0) : Type 0 where
  pub closed : Bool
  pub pending_batch : List Record
  pub batch_size_bytes : ℕ
  pub active : SkipList
  pub pending_flush : List FlushQueueEntry
  pub sstables : List R
  pub wal : Wal
  pub memtable_size : ℕ
  pub sync_writes : Bool
  pub block_writes_on_flush_error : Bool
  pub next_sst_id : ℕ
  pub live_ids : List ℕ
  pub flush_state : Option WalFlushState
  -- Zero stands for a threshold that is not positive: no compaction is triggered then.
  pub compact_threshold : ℕ
  pub bg_errs : BackgroundErrs

pub data DbError : Type 0 where
  wal_failed : WalError → DbError
  background : Option WalError → Option ℕ → DbError
  err_closed : DbError
  err_not_found : DbError
  table_error : ReadFault → DbError
