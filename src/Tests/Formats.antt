-- ===== src/Tests/Formats.antt =====
-- The other files' formats, and the manifest, at concrete values.
use mathlib.Core.List.{foldl}
use pebble_db.Prelude.{
  ℕ, ◌+◌, ◌^◌, ◌<◌, ◌≡◌, refl, some, List, [], ◌∷◌, ◌++◌, true, length, take, drop, arith, All, ltb,
  ◌==◌, if◌then◌else◌,
}
use pebble_db.Bytes.{Bytes}
use pebble_db.Result.{Result, ok}
use pebble_db.Codec.{put_uint32, put_uint64}
use pebble_db.Manifest.{
  Log, encode_new_file, new_file_payload, replay, append_new_file, synced, write_failed, sort,
  insert_sorted,
}
use pebble_db.Manifest.Records.{
  new_file, set_file_set, payload_of, edited, IsEdit, length-encode_record,
}
use pebble_db.Manifest.Replay.{entry_of, entries_of, replay-entries}
use pebble_db.Manifest.Commits.{IsRecorded, append_new_file-reopens}
use pebble_db.Bloom
use pebble_db.Bloom.{Filter, may_contain}
use pebble_db.Bloom.Member.{IsWhole, may_contain-add}
use pebble_db.Sstable.Index.{IndexEntry}
use pebble_db.Db.WalState.{StateError, state_bytes, content, size_is, wal_replay_start_offset}
use pebble_db.Db.WalState.Laws.{wal_replay_start_offset-after_crash}

small_ids : All (λ (id : ℕ). id < 2 ^ 64) (2 ∷ 5 ∷ [])
small_ids = (omega arith, (omega arith, tt))

two_files : IsEdit (set_file_set (2 ∷ 5 ∷ []))
two_files = (small_ids, omega arith)

replay-entries_example :
    replay
      (entries_of (new_file 1 ∷ set_file_set (2 ∷ 5 ∷ []) ∷ []) ++ take 3 (entry_of (new_file 6)))
    ≡ some (
        ok (record {
          file = entries_of (new_file 1 ∷ set_file_set (2 ∷ 5 ∷ []) ∷ []);
          live_set = foldl edited [] (new_file 1 ∷ set_file_set (2 ∷ 5 ∷ []) ∷ []);
          record_count = length (new_file 1 ∷ set_file_set (2 ∷ 5 ∷ []) ∷ []);
        }))
replay-entries_example =
    replay-entries (new_file 1 ∷ set_file_set (2 ∷ 5 ∷ []) ∷ []) (new_file 6) 3
      (omega arith, (two_files, tt)) (omega arith)
      (omega (arith, length-encode_record (payload_of (new_file 6))))

abbrev new_log : Log
new_log = record { file = []; live_set = []; record_count = 0 }

new_log-IsRecorded : IsRecorded new_log
new_log-IsRecorded = record {
  edits = [];
  good = tt;
  file = unfold entries_of in refl;
  live = refl;
  count = refl;
}

append_new_file-reopens_example :
    (replay (append_new_file new_log 4 synced).0.file
      ≡ some (ok (append_new_file new_log 4 synced).0))
    × (replay (append_new_file new_log 4 (write_failed 9 1)).0.file ≡ some (ok new_log))
unfolding put_uint32 put_uint64
append_new_file-reopens_example =
    append_new_file-reopens new_log 4 9 1 new_log-IsRecorded (omega arith)
      (unfold encode_new_file in omega (arith, length-encode_record (new_file_payload 4)))

sorted_ids : All (λ (id : ℕ). id < 2 ^ 64) (sort (5 ∷ 2 ∷ []))
unfolding sort insert_sorted
sorted_ids = small_ids

abbrev filter : Filter
filter = record { bits = 0 ∷ 0 ∷ []; k = 3; n = 0; m = 16 }

filter-IsWhole : IsWhole filter
filter-IsWhole = record { bytes = (omega arith, (omega arith, tt)); size = omega arith }

may_contain-add_example :
    (may_contain (some (Bloom.add filter (97 ∷ []))) (97 ∷ []) ≡ true)
    × (may_contain (some (Bloom.add (Bloom.add filter (97 ∷ [])) (98 ∷ []))) (97 ∷ []) ≡ true)
may_contain-add_example = may_contain-add filter (97 ∷ []) (98 ∷ []) filter-IsWhole (omega arith)

abbrev index : List IndexEntry
index =
    record { last_key = 97 ∷ []; offset = 0; length' = 16 }
    ∷ record { last_key = []; offset = 16; length' = 9 }
    ∷ []

abbrev four_bytes : Bytes
four_bytes = 1 ∷ 2 ∷ 3 ∷ 4 ∷ []

wal_replay_start_offset-after_crash_example :
    let started : ℕ → Result StateError ℕ = λ n.
      wal_replay_start_offset
        (content (state_bytes (record { freeze_offset = 2; sst_id = 1 })))
        (λ id. id == 1)
        (size_is n) in
    (started (length four_bytes) ≡ ok 2)
    × (started (length (drop 2 four_bytes)) ≡ ok (if ltb (length four_bytes) (2 + 2) then 0 else 2))
wal_replay_start_offset-after_crash_example =
    wal_replay_start_offset-after_crash four_bytes 2 1 (λ id. id == 1) (omega arith) (omega arith)
      refl (omega arith)
