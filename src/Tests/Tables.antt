-- ===== src/Tests/Tables.antt =====
-- The database over tables that are lists in memory.
use pebble_db.Prelude.{
  ℕ, ◌≡◌, refl, sym, ap, none, some, List, [], ◌∷◌, ◌++◌, true, false, arith, All, if◌then◌else◌,
  reverse,
}
use pebble_db.Bytes.{Bytes}
use pebble_db.Result.{Result, ok, err}
use pebble_db.Iterator.{Entry}
use pebble_db.Iterator.Merge.Lists.{find}
use pebble_db.Wal.Limits.{default_replay_limits}
use pebble_db.Wal.Log.{written, failed}
use pebble_db.Memtable.{new_skip_list}
use pebble_db.Memtable.Order.{IsOrdered}
use pebble_db.Memtable.Lookup.{answer}
use pebble_db.Db.{Table, Builder, Db, FlushQueueEntry, err_closed}
use pebble_db.Db.Get.{get}
use pebble_db.Db.Get.Layers.{Holds, memory, stored, table_entries, or_find, reply, get-eq-reply}
use pebble_db.Db.Batch.{
  put_record, delete_record, queue_all, wire_sizes, flush_pending_batch, write_record,
}
use pebble_db.Db.Batch.Sizes.{IsCounted, write_record-IsCounted}
use pebble_db.Db.Batch.Visible.{IsBareRecord, flush_pending_batch-keeps}
use pebble_db.Db.Flush.{FlushAnswers, at_truncate, flush_immutable, drain_pending_flush}
use pebble_db.Db.Flush.Empties.{drain_pending_flush-eq-nil}
use pebble_db.Db.Flush.Keeps.{Builds, everything, drain_pending_flush-keeps, flush_immutable-keeps}
use pebble_db.Db.Compact.{MergeResult, merged_to, Meanwhile, is_among, do_compaction}
use pebble_db.Db.Compact.Order.{Compacts, do_compaction-tables, do_compaction-find}
use pebble_db.Tests.Lists.{a_newer, b_dead, two_nodes, two_nodes-IsOrdered, older_run, newer_run}

pub record ListTable : Type 0 where
  pub number : ℕ
  pub entries : List Entry

abbrev pub content : ListTable → List Entry
content t = t.entries

abbrev pub list_table : Table ListTable
list_table = record {
  may_contain = λ t k. true;
  get = λ t k. ok (answer (find k t.entries));
  id = λ t. t.number;
}

pub list_table-Holds : Holds list_table content
list_table-Holds = record { skips = λ t k h. cc; reads = λ t k. refl }

abbrev list_builder : Builder ListTable
list_builder = record { build = λ id expected es. ok (record { number = id; entries = es }) }

abbrev built_entries : List Entry → Result ℕ ListTable → List Entry
built_entries es (ok t) = t.entries
built_entries es (err e) = es

list_builder-Builds : Builds list_builder content
list_builder-Builds = record { holds_entries = λ id expected es r h. sym (ap (built_entries es) h) }

abbrev older_table : ListTable
older_table = record { number = 1; entries = older_run }

abbrev newer_table : ListTable
newer_table = record { number = 2; entries = newer_run }

abbrev other_table : ListTable
other_table = record { number = 3; entries = b_dead ∷ [] }

abbrev merged_table : ListTable
merged_table = record { number = 5; entries = a_newer ∷ b_dead ∷ [] }

-- A database with records in every layer.
abbrev queued : FlushQueueEntry
queued = record { mem = two_nodes; wal_cutoff = 30; retries = 0 }

abbrev db : Db ListTable
db = record {
  closed = false;
  pending_batch = put_record (97 ∷ []) (3 ∷ []) ∷ delete_record (99 ∷ []) ∷ [];
  batch_size_bytes = 29;
  active = new_skip_list;
  pending_flush = queued ∷ [];
  sstables = older_table ∷ newer_table ∷ other_table ∷ [];
  wal = record { file = []; limits = default_replay_limits };
  memtable_size = 1000;
  sync_writes = true;
  block_writes_on_flush_error = true;
  next_sst_id = 4;
  live_ids = 1 ∷ 2 ∷ 3 ∷ [];
  flush_state = none;
  compact_threshold = 3;
  bg_errs = record { wal = none; flush = none; compaction = none; wal_cleanup = none };
}

empty-IsOrdered : IsOrdered new_skip_list
empty-IsOrdered = record { sorted = tt; towers = tt; bare = tt; tall = omega arith }

get-eq-reply_example : get list_table db (97 ∷ []) ≡ (
    if db.closed
    then err err_closed
    else reply (find (97 ∷ []) (memory db)) (find (97 ∷ []) (stored content db)))
get-eq-reply_example =
    get-eq-reply list_table content list_table-Holds db (97 ∷ []) empty-IsOrdered
      (two_nodes-IsOrdered, tt)

bare_records : All IsBareRecord db.pending_batch
bare_records = ((λ h. cc), ((λ h. refl), tt))

flush_pending_batch-keeps_example :
    find (97 ∷ []) (
      memory
        (flush_pending_batch db
          (delete_record (97 ∷ []) ∷ [])
          (written ∷ failed 3 1 ∷ [])
          none
          (2 ∷ [])
          none).0)
    ≡ find (97 ∷ []) (memory (queue_all db (delete_record (97 ∷ []) ∷ [])))
flush_pending_batch-keeps_example =
    flush_pending_batch-keeps db (delete_record (97 ∷ []) ∷ []) (written ∷ failed 3 1 ∷ []) none
      (2 ∷ []) none (97 ∷ []) empty-IsOrdered (omega arith, tt) bare_records

db-IsCounted : IsCounted db
unfolding wire_sizes
db-IsCounted = omega arith

write_record-IsCounted_example :
    IsCounted (write_record db (put_record (100 ∷ []) []) [] (written ∷ []) none [] none).0
write_record-IsCounted_example =
    write_record-IsCounted db (put_record (100 ∷ []) []) [] (written ∷ []) none [] none db-IsCounted

abbrev failing : FlushAnswers
failing = record { manifest_error = some 5; cleanup_fault = none }

abbrev untidy : FlushAnswers
untidy = record { manifest_error = none; cleanup_fault = some (at_truncate 6) }

drain_pending_flush-keeps_example :
    find
      (98 ∷ [])
      (everything content (drain_pending_flush list_builder (failing ∷ untidy ∷ []) db))
    ≡ find (98 ∷ []) (everything content db)
drain_pending_flush-keeps_example =
    drain_pending_flush-keeps content list_builder list_builder-Builds (failing ∷ untidy ∷ []) db
      (98 ∷ [])

flush_immutable-keeps_example :
    find
      (98 ∷ [])
      (everything content (flush_immutable list_builder db queued.mem queued.wal_cutoff untidy).0)
    ≡ find (98 ∷ []) (everything content db)
flush_immutable-keeps_example =
    flush_immutable-keeps content list_builder list_builder-Builds db queued [] untidy (98 ∷ [])
      refl

-- Tables whose tombstones have no values are read as they are.
abbrev quiet_meanwhile : Meanwhile ListTable
quiet_meanwhile = record { during_merge = []; manifest_error = none; during_commit = [] }

abbrev merge : ℕ → List ListTable → MergeResult ListTable
merge id rs = merged_to merged_table

compacts : Compacts list_table content db older_table newer_table (other_table ∷ []) quiet_meanwhile
compacts = record {
  tables = refl;
  due = omega arith;
  apart = (unfold is_among in refl, tt);
  manifest_ok = refl;
}

do_compaction-tables_example :
    (do_compaction list_table merge db quiet_meanwhile).sstables
    ≡ ((other_table ∷ []) ++ []) ++ merged_table ∷ []
do_compaction-tables_example =
    do_compaction-tables list_table content merge db older_table newer_table merged_table
      (other_table ∷ []) quiet_meanwhile compacts refl

merges :
    (j : Bytes)
    → find j (content merged_table)
      ≡ or_find (find j (content newer_table)) (find j (content older_table))
unfolding find or_find
merges j = ground arith

do_compaction-find_example :
    find (98 ∷ []) (stored content (do_compaction list_table merge db quiet_meanwhile))
    ≡ or_find
        (or_find (find (98 ∷ []) (content newer_table)) (find (98 ∷ []) (content older_table)))
        (find (98 ∷ []) (table_entries content (reverse ((other_table ∷ []) ++ []))))
do_compaction-find_example =
    do_compaction-find list_table content merge db older_table newer_table merged_table
      (other_table ∷ []) quiet_meanwhile (98 ∷ []) compacts refl merges

drain_pending_flush-eq-nil_example :
    (drain_pending_flush list_builder (untidy ∷ untidy ∷ []) db).pending_flush ≡ []
drain_pending_flush-eq-nil_example =
    drain_pending_flush-eq-nil list_builder (untidy ∷ untidy ∷ []) db ((λ id. (_, refl)), tt)
      (refl, (refl, tt)) (omega arith)
