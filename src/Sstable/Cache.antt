-- ===== src/Sstable/Cache.antt =====
-- internal/sstable/cache.go: a cache of blocks, bounded in bytes, over the third-party LRU cache.
pub mod Transparent
use pebble_db.Prelude.{
  ℕ, zero, suc, ◌+◌, ◌-◌, ltb, leb, ◌==◌, ◌&&◌, ◌/◌, ◌*◌, if◌then◌else◌, Bool, true, false, Option,
  none, some, length,
}
use pebble_db.Bytes.{Bytes}

pub record BlockCacheKey : Type 0 where
  pub file_id : ℕ
  pub offset : ℕ

abbrev pub same_key : BlockCacheKey → BlockCacheKey → Bool
same_key a b = a.file_id == b.file_id && a.offset == b.offset

-- What the block cache uses of `lru.Cache`: a lookup, which moves the entry to the front, an insertion,
-- the removal of the oldest entry, and the number of entries.
pub record Lru (L : Type 0) : Type 0 where
  pub lookup : L → BlockCacheKey → Option Bytes × L
  pub insert : L → BlockCacheKey → Bytes → L
  pub remove_oldest : L → Option Bytes × L
  pub count : L → ℕ

pub record BlockCache (L : Type 0) : Type 0 where
  pub inner : L
  pub bytes : ℕ
  pub max : ℕ

abbrev pub default_block_cache_bytes : ℕ
default_block_cache_bytes = 32 * 0x100000

abbrev pub capacity : ℕ → ℕ
capacity max_bytes = if leb max_bytes 0 then default_block_cache_bytes else max_bytes

-- `NewBlockCache`, where `empty` makes a cache of at most so many entries.
pub new_block_cache : {L : Type 0} → (ℕ → L) → ℕ → BlockCache L
new_block_cache empty max_bytes = record {
  inner = empty (capacity max_bytes / 256);
  bytes = 0;
  max = capacity max_bytes;
}

abbrev pub replaced_size : Option Bytes → ℕ
replaced_size none = 0
replaced_size (some v) = length v

module _ {L : Type 0} (lru : Lru L) where
  unfoldable pub get : BlockCache L → BlockCacheKey → Option Bytes × BlockCache L
  get c key = let (found, inner) = lru.lookup c.inner key in (found, record c { inner = inner })

  -- The loop that evicts; the number of entries is its fuel.
  unfoldable pub evict : ℕ → BlockCache L → BlockCache L
  evict zero c = c
  evict (suc fuel) c =
      let (oldest, inner) = lru.remove_oldest c.inner in
      let c' : BlockCache L = elim oldest [
        | none ↦ record c { inner = inner }
        | some v ↦ evict fuel (record c { inner = inner; bytes = c.bytes - length v })
      ] in
      if ltb c.max c.bytes then c' else c

  unfoldable pub add : BlockCache L → BlockCacheKey → Bytes → BlockCache L
  unfolding evict
  add c key block =
      let (existing, inner) = lru.lookup c.inner key in
      let inserted = lru.insert inner key block in
      evict (lru.count inserted + 1)
        (record c { inner = inserted; bytes = c.bytes - replaced_size existing + length block })
