-- ===== src/Tests/Disk.antt =====
-- A table that is written, opened and read.
use pebble_db.Prelude.{
  Option, ◌⊎◌, ap, Bool-cases, inl, inr, arith, ◌<◌, Bool, leb, inl, if◌then◌else◌, ℕ, ◌≡◌, refl,
  none, some, List, [], ◌∷◌, true, false, arith, All, ◌^◌, length,
}
use pebble_db.Bytes.{Bytes, copy_slice, compare_bytes}
use pebble_db.Codec.{put_uint32, uint32, put_uint64, uint64, read_full}
use pebble_db.Bloom
use pebble_db.Bloom.{zeros, clamp, fnv_step, fnv64a, bit_index, set_bit, set_index, add_loop}
use pebble_db.Result.{Result, ok, err, on_success}
use pebble_db.Wal.Log.{written, next_answer, later_answers}
use pebble_db.Iterator.{Entry}
use pebble_db.Iterator.Merge.Lists.{find}
use pebble_db.Iterator.Merge.Output.{Ascending}
use pebble_db.Memtable.Lookup.{answer}
use pebble_db.Sstable.Cache
use pebble_db.Sstable.Cache.{BlockCache, BlockCacheKey, Lru, same_key}
use pebble_db.Sstable.Block
use pebble_db.Sstable.Block.{append_entry}
use pebble_db.Sstable.Index
use pebble_db.Sstable.Index.{prepend, decode_loop, decode_index}
use pebble_db.Sstable.Footer
use pebble_db.Sstable.Footer.{read_footer, validate}
use pebble_db.Sstable.Writer.{
  new_writer, add, append_to_block, flush_block, write, write_part, write_tail, finish, close,
}
use pebble_db.Sstable.Reader.{
  read_at, read_block, from_file, get_from, may_contain, search_index, Reader, get, open_reader,
  footer_in, check_bounds, index_end, read_index, read_bloom,
}
use pebble_db.Sstable.Reader.Lookup.{IsStored}
use pebble_db.Sstable.Reader.Opens.{no_faults}
use pebble_db.Sstable.Table.{TableAnswers, TableError, add_entries, added, reopened, make_table}
use pebble_db.Sstable.Table.Built.{make_table-get}
use pebble_db.Sstable.Table.Serves.{DiskTable, entries_of, disk_table, get-disk_tables}
use pebble_db.Sstable.Iterator.{new_iterator}
use pebble_db.Sstable.Iterator.Stands.{visit, new_iterator-visits}
use pebble_db.Sstable.Cache.Transparent.{Honest}
use pebble_db.Sstable.Reader.Cached.{Files, CacheHolds, get-cached}
use pebble_db.Sstable.Search.{IsFirst, sort_search, sort_search-IsFirst}
use pebble_db.Wal.Limits.{default_replay_limits}
use pebble_db.Db.{Db, err_closed}
use pebble_db.Db.Get
use pebble_db.Db.Get.Layers.{memory, stored, reply}
use pebble_db.Tests.Lists.{two_nodes, two_nodes-IsOrdered}

-- A cache that keeps nothing.
abbrev no_lru : Lru (Unit {0})
no_lru = record {
  lookup = λ l key. (none, l);
  insert = λ l key block. l;
  remove_oldest = λ l. (none, l);
  count = λ l. 0;
}

abbrev rows : List Entry
rows =
    record { key = 97 ∷ []; value = some (1 ∷ []); tombstone = false }
    ∷ record { key = 98 ∷ []; value = none; tombstone = true }
    ∷ record { key = 98 ∷ 99 ∷ []; value = none; tombstone = false }
    ∷ []

abbrev good_answers : TableAnswers
good_answers = record {
  adds = [];
  close' = record {
    block = written;
    index = written;
    bloom = written;
    footer = written;
    sync = none;
    close = none;
    rename = none;
  };
  open' = no_faults;
}

abbrev two_sizes : ℕ → ℕ × ℕ
two_sizes n = (16, 3)

abbrev no_reader : Reader
no_reader = record {
  file = [];
  footer = record {
    index_offset = 0;
    index_length = 0;
    bloom_offset = 0;
    bloom_length = 0;
    version = 0;
    magic = 0;
  };
  index = [];
  bloom = none;
  file_id = 0;
  file_closed = false;
}

abbrev reader_in : Result TableError Reader → Reader
reader_in (ok r) = r
reader_in (err e) = no_reader

rows_reader : Reader
rows_reader = reader_in (make_table two_sizes 7 3 rows good_answers)

rows_made :
    (make_table two_sizes 7 3 rows good_answers ≡ ok rows_reader)
    × (length rows_reader.file < 2 ^ 62)
unfolding make_table rows_reader on_success new_writer add append_entry copy_slice compare_bytes
    put_uint32 close open_reader read_footer Index.encode put_uint64 Bloom.encode Bloom.add
    Bloom.new Footer.encode uint32 uint64 Block.entry_bytes Footer.decode Index.entry_bytes
    add_entries added reopened append_to_block finish flush_block write write_part write_tail
    later_answers next_answer footer_in check_bounds index_end read_index read_bloom zeros clamp
    fnv_step fnv64a bit_index set_bit set_index add_loop prepend decode_loop decode_index validate
    read_full Bloom.decode
rows_made = (refl, omega arith)

rows_ascend : Ascending rows
unfolding compare_bytes
rows_ascend = ((refl, (refl, tt)), ((refl, tt), (tt, tt)))

rows_stored : All IsStored rows
unfolding copy_slice
rows_stored = (
  record { key_fits = omega arith; value_fits = omega arith; canonical = refl; bare = λ h. cc },
  (
    record { key_fits = omega arith; value_fits = omega arith; canonical = refl; bare = λ h. refl },
    (
      record { key_fits = omega arith; value_fits = omega arith; canonical = refl; bare = λ h. cc },
      tt,
    ),
  ),
)

make_table-get_example :
    get no_lru rows_reader none (98 ∷ []) none ≡ (ok (answer (find (98 ∷ []) rows)), none)
make_table-get_example =
    make_table-get no_lru two_sizes 7 3 rows good_answers rows_reader (98 ∷ []) (omega arith)
      (omega arith) rows_ascend rows_stored rows_made.1 rows_made.0

new_iterator-visits_example :
    visit no_lru (λ i. none) 5 (new_iterator no_lru (λ i. none) rows_reader none) ≡ rows
new_iterator-visits_example =
    new_iterator-visits no_lru (λ i. none) two_sizes 7 3 rows good_answers rows_reader 5 (λ i. refl)
      (omega arith) (omega arith) rows_stored rows_made.1 rows_made.0 (omega arith)

abbrev rows_table : DiskTable
rows_table = record {
  reader = rows_reader;
  entries = rows;
  ascending = rows_ascend;
  stored' = rows_stored;
  sizes = two_sizes;
  file_id = 7;
  expected = 3;
  answers = good_answers;
  bits = omega arith;
  fits = omega arith;
  small = rows_made.1;
  made = rows_made.0;
}

abbrev disk_db : Db DiskTable
disk_db = record {
  closed = false;
  pending_batch = [];
  batch_size_bytes = 0;
  active = two_nodes;
  pending_flush = [];
  sstables = rows_table ∷ [];
  wal = record { file = []; limits = default_replay_limits };
  memtable_size = 1000;
  sync_writes = true;
  block_writes_on_flush_error = true;
  next_sst_id = 2;
  live_ids = 1 ∷ [];
  flush_state = none;
  compact_threshold = 3;
  bg_errs = record { wal = none; flush = none; compaction = none; wal_cleanup = none };
}

get-disk_tables_example : Get.get (disk_table no_lru) disk_db (98 ∷ 99 ∷ []) ≡ (
    if disk_db.closed
    then err err_closed
    else reply
        (find (98 ∷ 99 ∷ []) (memory disk_db))
        (find (98 ∷ 99 ∷ []) (stored entries_of disk_db)))
get-disk_tables_example = get-disk_tables no_lru disk_db (98 ∷ 99 ∷ []) two_nodes-IsOrdered tt

-- A cache of one block: an insertion evicts the block that is there.
abbrev Slot : Type 0
Slot = Option (BlockCacheKey × Bytes)

abbrev held_in : Slot → BlockCacheKey → Option Bytes
held_in none k = none
held_in (some (key, block)) k = if same_key k key then some block else none

abbrev emptied : Slot → Option Bytes × Slot
emptied none = (none, none)
emptied (some (key, block)) = (some block, none)

abbrev held_count : Slot → ℕ
held_count none = 0
held_count (some x) = 1

abbrev one_slot : Lru Slot
one_slot = record {
  lookup = λ l key. (held_in l key, l);
  insert = λ l key block. some (key, block);
  remove_oldest = emptied;
  count = held_count;
}

one_slot-drops :
    (l : Slot) (k : BlockCacheKey)
    → (held_in (emptied l).1 k ≡ none) ⊎ (held_in (emptied l).1 k ≡ held_in l k)
one_slot-drops none k = inl refl
one_slot-drops (some x) k = inl refl

one_slot-Honest : Honest one_slot held_in
one_slot-Honest = record {
  looks = λ l key. refl;
  moves = λ l key k. refl;
  inserts = λ l key block k. elim (Bool-cases (same_key k key)) [
    | inl same ↦ inr (rw same refl)
    | inr other ↦ inl (rw other refl)
  ];
  drops = one_slot-drops;
}

abbrev short_reader : Reader
short_reader = record no_reader {
  file = 7 ∷ 7 ∷ 7 ∷ [];
  index = record { last_key = 97 ∷ []; offset = 0; length' = 3 } ∷ [];
}

abbrev short_files : Files
short_files = record { reader = λ id. short_reader; size = λ id offset. 3 }

-- The block of a file is in the cache.
abbrev one_block : ℕ → BlockCache Slot
one_block file_id = record {
  inner = some (record { file_id = file_id; offset = 0 }, 7 ∷ 7 ∷ 7 ∷ []);
  bytes = 3;
  max = 10;
}

one_block-CacheHolds : (file_id : ℕ) → CacheHolds held_in short_files (some (one_block file_id))
unfolding read_at
one_block-CacheHolds file_id k block h =
    elim (Bool-cases (same_key k (record { file_id = file_id; offset = 0 }))) [
      | inl same ↦
          let at : k.offset ≡ 0 = ground (arith, same) in
          let is : 7 ∷ 7 ∷ 7 ∷ [] ≡ block = cc (rw same at h) in rw at (ap (λ b. ok b) is)
      | inr other ↦ cc (rw other at h)
    ]

-- A hit.
get-cached_example :
    ((get one_slot short_reader (some (one_block 0)) (97 ∷ []) none).0
      ≡ (get one_slot short_reader none (97 ∷ []) none).0)
    × CacheHolds held_in short_files
        (get one_slot short_reader (some (one_block 0)) (97 ∷ []) none).1
get-cached_example =
    get-cached one_slot held_in short_files short_reader (one_block 0) (97 ∷ []) one_slot-Honest
      (record { known = refl; sizes = (refl, tt); open' = refl }) (one_block-CacheHolds 0)

-- A miss, which evicts the block of another file.
evicting :
    (get one_slot short_reader (some (one_block 9)) (97 ∷ []) none).1
    ≡ some (record (one_block 0) { bytes = 6 })
unfolding get Cache.get Cache.add Cache.evict read_at read_block from_file get_from may_contain
    search_index sort_search compare_bytes Bloom.may_contain
evicting = refl

at_least_three : ℕ → Bool
at_least_three i = leb 3 i

sort_search-IsFirst_example : IsFirst at_least_three 9 (sort_search 9 at_least_three)
sort_search-IsFirst_example =
    sort_search-IsFirst at_least_three 9
      (λ i j le inside h. unfold at_least_three in ground (arith, h, le))
