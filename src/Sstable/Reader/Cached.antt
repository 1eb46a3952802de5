-- ===== src/Sstable/Reader/Cached.antt =====
-- A cache that the readers of several files share changes no answer of `Get`.
use pebble_db.Prelude.{
  ℕ, ◌≡◌, refl, sym, ap, ◌∙◌, Option-cases, inl, inr, Option, none, some, false, List, [], ◌∷◌, All,
  drop, Bool-cases, zero, suc,
}
use pebble_db.Bytes.{Bytes}
use pebble_db.Result.{Result, ok, err}
use pebble_db.Db.{ReadFault}
use pebble_db.Sstable.Index.{IndexEntry}
use pebble_db.Sstable.Cache.{BlockCacheKey, Lru, BlockCache}
use pebble_db.Sstable.Cache
use pebble_db.Sstable.Cache.Transparent.{Honest, IsSound, get-IsSound, get-hit, add-IsSound}
use pebble_db.Sstable.Reader.{
  Reader, read_at, read_block, from_file, in_block, get_from, get, may_contain, search_index,
  stored,
}

-- The open readers by their file ids, and the sizes of their blocks by offset.
pub record Files : Type 0 where
  pub reader : ℕ → Reader
  pub size : ℕ → ℕ → ℕ

-- A block that is what a read of its file gives.
abbrev pub IsRead : Files → BlockCacheKey → Bytes → Type 0
IsRead fs k block =
    read_at (fs.reader k.file_id) k.offset (fs.size k.file_id k.offset) none ≡ ok block

abbrev pub CacheHolds :
    {L : Type 0} → (L → BlockCacheKey → Option Bytes) → Files → Option (BlockCache L) → Type 0
CacheHolds held fs none = Unit
CacheHolds held fs (some c) = IsSound held (IsRead fs) c.inner

pub record IsOpenFile (fs : Files) (r : Reader) : Type 0 where
  pub known : fs.reader r.file_id ≡ r
  pub sizes : All (λ (e : IndexEntry). e.length' ≡ fs.size r.file_id e.offset) r.index
  pub open' : r.file_closed ≡ false

module _ {L : Type 0} (lru : Lru L) (held : L → BlockCacheKey → Option Bytes)
    (honest : Honest lru held) (fs : Files) where
  abbrev Agrees : Reader → ℕ → ℕ → Result ReadFault Bytes × Option (BlockCache L) → Type 0
  Agrees r offset size p = (p.0 ≡ read_at r offset size none) × CacheHolds held fs p.1

  stored-Agrees :
      (r : Reader) (c : BlockCache L) (key : BlockCacheKey) (size : ℕ)
      (read : Result ReadFault Bytes)
      → CacheHolds held fs (some c)
      → read_at r key.offset size none ≡ read
      → read_at r key.offset size none
        ≡ read_at (fs.reader key.file_id) key.offset (fs.size key.file_id key.offset) none
      → Agrees r key.offset size (stored lru (some c) key read)
  stored-Agrees r c key size (err e) sound h same = (sym h, sound)
  stored-Agrees r c key size (ok block) sound h same =
      (sym h, add-IsSound lru held honest (IsRead fs) c key block sound (sym same ∙ h))

  read_block-Agrees :
      (r : Reader) (c : BlockCache L) (e : IndexEntry)
      → IsOpenFile fs r
      → e.length' ≡ fs.size r.file_id e.offset
      → CacheHolds held fs (some c)
      → Agrees r e.offset e.length' (read_block lru r (some c) e.offset e.length' none)
  unfolding read_block from_file read_at
  read_block-Agrees r c e o size sound =
      let key : BlockCacheKey = record { file_id = r.file_id; offset = e.offset } in
      let same : read_at r e.offset e.length' none
          ≡ read_at (fs.reader r.file_id) e.offset (fs.size r.file_id e.offset) none =
        rw (o.known, size) in
      let sound' = get-IsSound lru held honest (IsRead fs) c key sound in
      elim (Option-cases (Cache.get lru c key).0) [
        | inr (block, hit) ↦
            rw hit (sym (same ∙ get-hit lru held honest (IsRead fs) c key block sound hit), sound')
        | inl miss ↦
            rw (miss, o.open')
              (stored-Agrees r (Cache.get lru c key).1 key e.length'
                (read_at r e.offset e.length' none) sound' refl same)
      ]

  read_block-uncached :
      (r : Reader) (e : IndexEntry)
      → r.file_closed ≡ false
      → read_block lru r none e.offset e.length' none ≡ (read_at r e.offset e.length' none, none)
  unfolding read_block from_file
  read_block-uncached r e o = rw o

  get_from-cached :
      (r : Reader) (c : BlockCache L) (key : Bytes) (es : List IndexEntry)
      → IsOpenFile fs r
      → All (λ (e : IndexEntry). e.length' ≡ fs.size r.file_id e.offset) es
      → CacheHolds held fs (some c)
      → ((get_from lru r (some c) key none es).0 ≡ (get_from lru r none key none es).0)
        × CacheHolds held fs (get_from lru r (some c) key none es).1
  unfolding get_from
  get_from-cached r c key [] o sizes sound = (refl, sound)
  get_from-cached r c key (e ∷ es) o sizes sound =
      let (same, sound') = read_block-Agrees r c e o sizes.0 sound in
      (ap (in_block key) (same ∙ sym (ap (λ p. p.0) (read_block-uncached r e o.open'))), sound')

All-drop {ℓ} : {A : Type ℓ} (P : A → Type 0) (n : ℕ) (xs : List A) → All P xs → All P (drop n xs)
All-drop P zero xs h = h
All-drop P (suc n) [] h = tt
All-drop P (suc n) (x ∷ xs) h = All-drop P n xs h.1

-- While a read of the file does not fail, a lookup through a shared cache answers as one without a
-- cache, and the cache still holds nothing but blocks of the files: whatever it evicts, and whichever
-- file the other blocks are of. The reader's file is open, it is the file of its id, and blocks at one
-- offset have one size.
pub get-cached :
    {L : Type 0} (lru : Lru L) (held : L → BlockCacheKey → Option Bytes) (fs : Files) (r : Reader)
    (c : BlockCache L) (key : Bytes)
    → Honest lru held
    → IsOpenFile fs r
    → CacheHolds held fs (some c)
    → ((get lru r (some c) key none).0 ≡ (get lru r none key none).0)
      × CacheHolds held fs (get lru r (some c) key none).1
unfolding get
get-cached lru held fs r c key honest o sound = elim (Bool-cases (may_contain r key)) [
  | inr never ↦ rw never (refl, sound)
  | inl maybe ↦ rw maybe (
      let n = search_index r.index key in
      get_from-cached lru held honest fs r c key (drop n r.index) o
        (All-drop (λ (e : IndexEntry). e.length' ≡ fs.size r.file_id e.offset) n r.index o.sizes)
        sound)
]
