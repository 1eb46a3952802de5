-- ===== src/Sstable/Iterator.antt =====
-- internal/sstable/iterator.go: the iterator over all entries of a table. What a read of a block
-- answers is given by the number of the block.
pub mod Stands
use pebble_db.Prelude.{
  ℕ, zero, suc, ◌+◌, ◌==◌, leb, if◌then◌else◌, Bool, true, false, Option, none, some, List, [], ◌∷◌,
  length, drop,
}
use pebble_db.Bytes.{Bytes, copy_slice}
use pebble_db.Result.{Result, ok, err}
use pebble_db.Db.{ReadFault}
use pebble_db.Sstable.Index.{IndexEntry}
use pebble_db.Sstable.Block.{BlockIterator, new_block_iterator, next, copied, seek}
use pebble_db.Sstable.Cache.{BlockCache, Lru}
use pebble_db.Sstable.Reader.{Reader, read_block, search_index}

-- `next_block` is the source's `blockIdx + 1`, which starts at -1. `cache` is the reader's block cache.
pub record TableIterator (L : Type 0) : Type 0 where
  pub reader : Reader
  pub cache : Option (BlockCache L)
  pub next_block : ℕ
  pub block_it : Option BlockIterator
  pub key' : Option Bytes
  pub value' : Option Bytes
  pub tombstone : Bool
  pub valid' : Bool
  pub fault : Option ReadFault

-- `Key` and `Value`: copies, nil where there is nothing to copy.
abbrev pub copy_of : Option Bytes → Option Bytes
copy_of none = none
copy_of (some b) = copy_slice b

-- `it.blockIt != nil && it.blockIt.Next()`, with the block iterator that it leaves.
abbrev pub tried : Option BlockIterator → Option BlockIterator × Bool
tried none = (none, false)
tried (some b) = let (b', more) = next b in (some b', more)

module _ {L : Type 0} where
  -- The entry at which a block iterator stands becomes the current one.
  abbrev pub show : TableIterator L → BlockIterator → TableIterator L
  show it b = record it {
    block_it = some b;
    key' = copied b.key;
    value' = copied b.val;
    tombstone = b.tombstone;
    valid' = true;
  }

  abbrev pub shown : TableIterator L → Option BlockIterator → TableIterator L
  shown it none = it
  shown it (some b) = show it b

  -- The next block's iterator, or the fault of its read, after which the loop ends.
  abbrev pub loaded :
      TableIterator L → Result ReadFault Bytes × Option (BlockCache L) → TableIterator L × Bool
  loaded it (err e, cache) = (record it { cache = cache; valid' = false; fault = some e }, false)
  loaded it (ok block, cache) =
      (record it { cache = cache; block_it = some (new_block_iterator block) }, true)

  module _ (lru : Lru L) (answer : ℕ → Option ℕ) where
    abbrev pub load_from : TableIterator L → ℕ → List IndexEntry → TableIterator L × Bool
    load_from it bi [] = (record it { next_block = bi + 1; valid' = false }, false)
    load_from it bi (e ∷ _) =
        loaded (record it { next_block = bi + 1 })
          (read_block lru it.reader it.cache e.offset e.length' (answer bi))

    -- `it.blockIdx++` and what follows it in the loop of `advance`.
    abbrev pub load_block : TableIterator L → TableIterator L × Bool
    load_block it = load_from it it.next_block (drop it.next_block it.reader.index)

    -- The loop of `advance`: a turn that does not end it opens another block.
    unfoldable pub advance_loop : ℕ → TableIterator L → TableIterator L
    advance_loop zero it = it
    advance_loop (suc fuel) it =
        let (b, more) = tried it.block_it in
        let (it', again) = load_block (record it { block_it = b }) in
        let later = advance_loop fuel it' in
        if more then shown it b else (if again then later else it')

    unfoldable pub advance : TableIterator L → TableIterator L
    unfolding advance_loop
    advance it = advance_loop (length it.reader.index + 2) it

    unfoldable pub new_iterator : Reader → Option (BlockCache L) → TableIterator L
    unfolding advance
    new_iterator r cache =
        let it : TableIterator L = record {
          reader = r;
          cache = cache;
          next_block = 0;
          block_it = none;
          key' = none;
          value' = none;
          tombstone = false;
          valid' = false;
          fault = none;
        } in
        advance it

    -- `Next`
    unfoldable pub next_entry : TableIterator L → TableIterator L
    unfolding advance
    next_entry it = let it' = advance it in if it.valid' then it' else it

    -- The loop of `Seek` over the blocks from `bi` on.
    abbrev pub landed :
        TableIterator L → ℕ → BlockIterator × Bool → TableIterator L → TableIterator L
    landed it bi (b, true) later = record (show it b) { next_block = bi + 1 }
    landed it bi (b, false) later = later

    abbrev pub sought :
        TableIterator L
        → ℕ
        → Bytes
        → Result ReadFault Bytes × Option (BlockCache L)
        → (TableIterator L → TableIterator L)
        → TableIterator L
    sought it bi key (err e, cache) later = record it {
      cache = cache;
      valid' = false;
      fault = some e;
    }
    sought it bi key (ok block, cache) later =
        let it' = record it { cache = cache } in
        landed it' bi (seek (new_block_iterator block) key) (later it')

    unfoldable pub seek_blocks : Bytes → ℕ → List IndexEntry → TableIterator L → TableIterator L
    seek_blocks key bi [] it = record it { valid' = false }
    seek_blocks key bi (e ∷ es) it =
        sought it bi key (read_block lru it.reader it.cache e.offset e.length' (answer bi))
          (seek_blocks key (bi + 1) es)

    -- `Seek`; its result is the fault that it leaves.
    unfoldable pub seek_entry : TableIterator L → Bytes → TableIterator L
    unfolding advance seek_blocks
    seek_entry it key =
        let fresh = record it { fault = none } in
        let first = advance (record fresh { next_block = 0; block_it = none }) in
        let idx = search_index it.reader.index key in
        let there = seek_blocks key idx (drop idx it.reader.index) fresh in
        if length it.reader.index == 0
        then record fresh { valid' = false }
        else if length key == 0
        then first
        else if leb (length it.reader.index) idx
        then record fresh { valid' = false }
        else there
