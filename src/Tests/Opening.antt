-- ===== src/Tests/Opening.antt =====
-- A directory that is opened after a crash.
use pebble_db.Prelude.{
  ℕ, ◌≤◌, ◌≡◌, refl, sym, subst, true, false, none, some, List, [], ◌∷◌, ◌++◌, arith, All, take,
  reverse, map, ◌&&◌,
}
use mathlib.Core.List.{foldl}
use pebble_db.Bytes.{Bytes}
use pebble_db.Result.{ok}
use pebble_db.Codec.{put_uint32}
use pebble_db.Iterator.Merge.Lists.{find}
use pebble_db.Wal.Limits.{default_replay_limits, with_defaults}
use pebble_db.Wal.Format.{body}
use pebble_db.Wal.Format.RoundTrip.{wire, length-wire, Fits}
use pebble_db.Wal.Replay.Prefix.{wires}
use pebble_db.Manifest.{Log, insert_id, is_live, synced, bootstrap_if_empty, live_ids}
use pebble_db.Manifest.Records.{edited, new_file, payload_of, length-encode_record}
use pebble_db.Manifest.Replay.{entries_of, entry_of, replay-entries}
use pebble_db.Db.{Db}
use pebble_db.Db.Get
use pebble_db.Db.Get.Layers.{batch_entries, table_entries, reply}
use pebble_db.Db.WalState.{not_there, wal_replay_start_offset, read_wal_flush_state}
use pebble_db.Db.Open.{Options, Directory, disabled, open_db}
use pebble_db.Db.Open.Recovers.{calm, LogIs, TablesAre, open_db-recovers}
use pebble_db.Tests.Logs.{apple, pear, apple-Fits, pear-Fits, defaults}
use pebble_db.Tests.Tables.{ListTable, content, list_table, list_table-Holds}
use pebble_db.Tests.Lists.{older_run}

abbrev log_bytes : Bytes
log_bytes = [] ++ (wires (apple ∷ pear ∷ []) ++ take 5 (wire apple))

abbrev live_log : Log
live_log = record {
  file = entries_of (new_file 3 ∷ new_file 2 ∷ []);
  live_set = foldl edited [] (new_file 3 ∷ new_file 2 ∷ []);
  record_count = 2;
}

abbrev numbered : ℕ → ListTable
numbered n = record { number = n; entries = older_run }

abbrev crashed : Directory ListTable
crashed = record {
  manifest = entries_of (new_file 3 ∷ new_file 2 ∷ []) ++ take 3 (entry_of (new_file 6));
  sst_ids = 2 ∷ 3 ∷ 6 ∷ [];
  open_table = λ n. ok (numbered n);
  log = some log_bytes;
  flush_file = not_there;
}

abbrev options : Options
options = record {
  has_dir = true;
  memtable_size = 0;
  compaction_threshold = disabled;
  wal_replay_limits = default_replay_limits;
  sync_writes = false;
  block_writes_on_flush_error = none;
}

every_table : (ids : List ℕ) → All (λ (id : ℕ). crashed.open_table id ≡ ok (numbered id)) ids
every_table [] = tt
every_table (id ∷ ids) = (refl, every_table ids)

crashed-TablesAre :
    TablesAre crashed options live_log
      (1 ∷ [])
      (apple ∷ pear ∷ [])
      apple
      5
      []
      live_log
      synced
      numbered
crashed-TablesAre = record {
  has_dir = refl;
  manifest_read =
      replay-entries (new_file 3 ∷ new_file 2 ∷ []) (new_file 6) 3 (omega arith, (omega arith, tt))
        (omega arith) (omega (arith, length-encode_record (payload_of (new_file 6))));
  booted = unfold bootstrap_if_empty insert_id is_live in refl;
  tables = every_table (live_ids live_log);
}

crashed-LogIs : LogIs crashed options live_log (1 ∷ []) (apple ∷ pear ∷ []) apple 5 []
crashed-LogIs = record {
  log = refl;
  fits = subst (λ l. All (Fits l) (apple ∷ pear ∷ [])) (sym defaults) (apple-Fits, (pear-Fits, tt));
  torn_fits = subst (λ l. Fits l apple) (sym defaults) apple-Fits;
  torn = omega (arith, length-wire apple);
  defaults = unfold with_defaults in refl;
  size = unfold wires wire body put_uint32 with_defaults in omega arith;
  starts = unfold wal_replay_start_offset read_wal_flush_state in refl;
}

open_db-recovers_example :
    (db : Db ListTable) × (kept : List ℕ) × (open_db options crashed (calm synced (1 ∷ []))
      ≡ ok (db, kept))
    × (db.wal.file ≡ [] ++ wires (apple ∷ pear ∷ []))
    × All (λ (id : ℕ). id ≤ db.next_sst_id) (live_ids live_log)
    × (is_live 6 kept ≡ (is_live 6 crashed.sst_ids && is_live 6 live_log.live_set))
    × (Get.get list_table db (97 ∷ [])
        ≡ reply
            (find (97 ∷ []) (batch_entries (reverse (apple ∷ pear ∷ []))))
            (find (97 ∷ []) (table_entries content (reverse (map numbered (live_ids live_log))))))
open_db-recovers_example =
    open_db-recovers crashed options live_log (1 ∷ []) (apple ∷ pear ∷ []) apple 5 [] live_log
      synced numbered list_table content (97 ∷ []) 6 list_table-Holds crashed-TablesAre
      crashed-LogIs (omega arith, tt) ((λ h. cc), ((λ h. refl), tt))
