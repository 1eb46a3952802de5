-- ===== src/Sstable/Reader.antt =====
-- internal/sstable/reader.go: `OpenReader`, the read of a block through the cache, and `Get`. The
-- faults of the operating system are arguments.
pub mod Opens
pub mod Cached
pub mod Faults
pub mod Lookup
use pebble_db.Prelude.{
  ℕ, zero, suc, ◌+◌, ◌-◌, ◌^◌, ◌%◌, ltb, leb, ◌==◌, ◌&&◌, ◌||◌, not, if◌then◌else◌, Bool, true,
  false, Option, none, some, List, [], ◌∷◌, length, take, drop, Ordering,
}
use pebble_db.Bytes.{Bytes, compare_bytes}
use pebble_db.Bytes.Order.{is_lt}
use pebble_db.Result.{Result, ok, err, ensure, ◌>>=◌, ◌>>◌}
use pebble_db.Codec.{ReadError, read_full}
use pebble_db.Bloom
use pebble_db.Iterator.Merge.{as_bytes}
use pebble_db.Sstable.Search.{sort_search}
use pebble_db.Sstable.Block.{BlockIterator, new_block_iterator, next, copied}
use pebble_db.Sstable.Index.{IndexEntry, IndexError, decode_index}
use pebble_db.Sstable.Footer.{Footer, FooterError, footer_size, read_footer}
use pebble_db.Sstable.Cache.{BlockCacheKey, BlockCache, Lru}
use pebble_db.Sstable.Cache
use pebble_db.Db.{ReadFault, closed_file, read_fault}

-- A length that no slice can have makes the source panic.
pub data OpenError : Type 0 where
  open_fault : ℕ → OpenError
  bad_footer : FooterError → OpenError
  corrupt_index corrupt_bloom short_bloom length_panic : OpenError
  short_index : ReadError → OpenError

-- `file` is the content of the open file; a reader without a filter has `none`.
pub record Reader : Type 0 where
  pub file : Bytes
  pub footer : Footer
  pub index : List IndexEntry
  pub bloom : Option Bloom.Filter
  pub file_id : ℕ
  pub file_closed : Bool

-- The faults of opening, of `Stat` and of the reads.
pub record OpenAnswers : Type 0 where
  pub open' : Option ℕ
  pub stat : Option ℕ
  pub seek : Option ℕ
  pub index : Option ℕ
  pub bloom : Option ℕ

abbrev pub not_failed : Option ℕ → Result OpenError (Unit {0})
not_failed none = ok tt
not_failed (some e) = err (open_fault e)

-- `int64(u) < 0` and `int64(u) > limit`, for a limit that is not negative.
abbrev pub is_negative : ℕ → Bool
is_negative u = leb (2 ^ 63) u

abbrev pub exceeds : ℕ → ℕ → Bool
exceeds u limit = ltb u (2 ^ 63) && ltb limit u

abbrev pub footer_error : Result FooterError Footer → Result OpenError Footer
footer_error (err e) = err (bad_footer e)
footer_error (ok f) = ok f

unfoldable pub footer_in : Bytes → Result OpenError Footer
footer_in file = footer_error (read_footer file)

unfoldable pub index_end : Footer → ℕ
index_end f = (f.index_offset + f.index_length) % 2 ^ 64

unfoldable pub check_bounds : Footer → ℕ → Result OpenError (Unit {0})
unfolding index_end
check_bounds f data_end =
    let bloom_end = (f.bloom_offset + f.bloom_length) % 2 ^ 64 in
    let bloom_checks =
      ensure (not (is_negative f.bloom_offset || exceeds bloom_end data_end)) corrupt_bloom
      >> ensure (not (ltb f.bloom_offset (index_end f))) corrupt_bloom in
    ensure (not (is_negative f.index_offset || exceeds (index_end f) data_end)) corrupt_index
    >> (if ltb 0 f.bloom_length then bloom_checks else ok tt)

abbrev pub index_error : Result IndexError (List IndexEntry) → Result OpenError (List IndexEntry)
index_error (err _) = err corrupt_index
index_error (ok entries) = ok entries

abbrev pub indexed : Result ReadError (Bytes × Bytes) → Result OpenError (List IndexEntry)
indexed (err e) = err (short_index e)
indexed (ok (index_data, _)) = index_error (decode_index index_data)

-- `make`, `ReadFull` at the place that `Seek` has set, and `decodeIndex`.
unfoldable pub read_index : Bytes → Footer → Result OpenError (List IndexEntry)
read_index file f =
    ensure (ltb f.index_length (2 ^ 63)) length_panic
    >> indexed (read_full f.index_length (drop f.index_offset file))

abbrev pub decoded : Option Bloom.Filter → Result OpenError (Option Bloom.Filter)
decoded none = err corrupt_bloom
decoded (some filter) = ok (some filter)

-- `ReadAt` and `bloom.Decode`.
unfoldable pub read_bloom : Bytes → Footer → Option ℕ → Result OpenError (Option Bloom.Filter)
read_bloom file f fault =
    let at = drop f.bloom_offset file in
    let read =
      ensure (ltb f.bloom_length (2 ^ 63)) length_panic
      >> not_failed fault
      >> ensure (leb f.bloom_length (length at)) short_bloom
      >> decoded (Bloom.decode (take f.bloom_length at)) in
    if ltb 0 f.bloom_length then read else ok none

-- `OpenReader`, on the file's content and the next file id.
unfoldable pub open_reader : Bytes → ℕ → OpenAnswers → Result OpenError Reader
unfolding footer_in check_bounds read_index read_bloom
open_reader file file_id a = not_failed a.open' >> footer_in file >>= λ (f : Footer).
    not_failed a.stat
    >> check_bounds f (length file - footer_size)
    >> not_failed a.seek
    >> not_failed a.index
    >> read_index file f
    >>= λ (index : List IndexEntry). read_bloom file f a.bloom >>= λ (filter : Option Bloom.Filter).
        ok (record {
          file = file;
          footer = f;
          index = index;
          bloom = filter;
          file_id = file_id;
          file_closed = false;
        })

-- `MayContain`
unfoldable pub may_contain : Reader → Bytes → Bool
may_contain r key = Bloom.may_contain r.bloom key

-- `ReadAt` on the file. A read past the end is an error, as is a fault.
unfoldable pub read_at : Reader → ℕ → ℕ → Option ℕ → Result ReadFault Bytes
read_at r offset size (some e) = err (read_fault e)
read_at r offset size none =
    if ltb (length r.file) (offset + size)
    then err (read_fault 0)
    else ok (take size (drop offset r.file))

-- `bytes.Compare(key, r.index[i].LastKey) <= 0`
abbrev pub reaches : Bytes → IndexEntry → Bool
reaches key e = not (is_lt (compare_bytes e.last_key key))

abbrev pub at : List IndexEntry → ℕ → IndexEntry
at [] i = record { last_key = []; offset = 0; length' = 0 }
at (e ∷ es) zero = e
at (e ∷ es) (suc i) = at es i

-- The place in the index: `at` is asked for places inside only.
unfoldable pub search_index : List IndexEntry → Bytes → ℕ
search_index index key = sort_search (length index) (λ i. reaches key (at index i))

-- What a turn of the loop over a block does with the order of the key and the iterator's; `later` is
-- the rest of the loop.
abbrev pub judged :
    Ordering → BlockIterator → Option Bytes × Bool × Bool → Option Bytes × Bool × Bool
judged Ordering.eq it later = (copied it.val, true, it.tombstone)
judged Ordering.lt it later = (none, false, false)
judged Ordering.gt it later = later

-- The loop over the block: each turn moves the position, so the length is enough fuel.
unfoldable pub scan_block : ℕ → Bytes → BlockIterator → Option Bytes × Bool × Bool
scan_block zero key it = (none, false, false)
scan_block (suc fuel) key it =
    let (it', more) = next it in
    let later = scan_block fuel key it' in
    if more
    then judged (compare_bytes key (as_bytes (copied it'.key))) it' later
    else (none, false, false)

abbrev pub in_block : Bytes → Result ReadFault Bytes → Result ReadFault (Option Bytes × Bool × Bool)
in_block key (err e) = err e
in_block key (ok block) = ok (scan_block (length block + 1) key (new_block_iterator block))

module _ {L : Type 0} (lru : Lru L) where
  abbrev pub stored :
      Option (BlockCache L)
      → BlockCacheKey
      → Result ReadFault Bytes
      → Result ReadFault Bytes × Option (BlockCache L)
  stored none key read = (read, none)
  stored (some c) key (err e) = (err e, some c)
  stored (some c) key (ok block) = (ok block, some (Cache.add lru c key block))

  abbrev or_read :
      Option Bytes × BlockCache L
      → (BlockCache L → Result ReadFault Bytes × Option (BlockCache L))
      → Result ReadFault Bytes × Option (BlockCache L)
  or_read (some block, c) miss = (ok block, some c)
  or_read (none, c) miss = miss c

  unfoldable pub from_file :
      Reader
      → BlockCacheKey
      → ℕ
      → Option ℕ
      → Option (BlockCache L)
      → Result ReadFault Bytes × Option (BlockCache L)
  from_file r key size fault cache =
      if r.file_closed
      then (err closed_file, cache)
      else stored cache key (read_at r key.offset size fault)

  -- `readBlock`
  unfoldable pub read_block :
      Reader
      → Option (BlockCache L)
      → ℕ
      → ℕ
      → Option ℕ
      → Result ReadFault Bytes × Option (BlockCache L)
  unfolding from_file
  read_block r none offset size fault =
      from_file r (record { file_id = r.file_id; offset = offset }) size fault none
  read_block r (some c) offset size fault =
      let key : BlockCacheKey = record { file_id = r.file_id; offset = offset } in
      or_read (Cache.get lru c key) (λ c'. from_file r key size fault (some c'))

  -- The part of `Get` from the result of the search on: the entries of the index from there.
  unfoldable pub get_from :
      Reader
      → Option (BlockCache L)
      → Bytes
      → Option ℕ
      → List IndexEntry
      → Result ReadFault (Option Bytes × Bool × Bool) × Option (BlockCache L)
  get_from r cache key fault [] = (ok (none, false, false), cache)
  get_from r cache key fault (e ∷ _) =
      let (block, cache') = read_block r cache e.offset e.length' fault in
      (in_block key block, cache')

  unfoldable pub get :
      Reader
      → Option (BlockCache L)
      → Bytes
      → Option ℕ
      → Result ReadFault (Option Bytes × Bool × Bool) × Option (BlockCache L)
  unfolding get_from
  get r cache key fault =
      let found = get_from r cache key fault (drop (search_index r.index key) r.index) in
      if may_contain r key then found else (ok (none, false, false), cache)
