-- ===== src/Sstable/Table/Facts.antt =====
-- What the lookups of a table rest on, and that they find its entries.
use pebble_db.Prelude.{
  ◌^◌, ◌<◌, ◌≡◌, refl, sym, ap, subst, ◌∙◌, false, Bool-cases, inl, inr, none, some, List, ◌++◌,
  length, arith, All, drop,
}
use pebble_db.Bytes.{Bytes}
use pebble_db.Result.{ok}
use pebble_db.Bloom
use pebble_db.Bloom.Member.{IsWhole}
use pebble_db.Iterator.{Entry}
use pebble_db.Iterator.Merge.Lists.{find}
use pebble_db.Iterator.Merge.Output.{Ascending}
use pebble_db.Memtable.Lookup.{answer}
use pebble_db.Sstable.Cache.{Lru}
use pebble_db.Sstable.Reader.{Reader, may_contain, search_index, get_from, get}
use pebble_db.Sstable.Reader.Lookup.{IsStored, block_bytes}
use pebble_db.Sstable.Groups.{flat, index_of, AllFilled}
use pebble_db.Sstable.Indexed.{search_index-eq}
use pebble_db.Sstable.Found.{get_from-find}
use pebble_db.Sstable.Filter.{filled-skips}
use pebble_db.Sstable.Writer.Layout.{filled}

-- What the lookups of a reader rest on: its file begins with the blocks of the entries, its index is
-- that of the blocks, and its filter has the keys.
pub record IsTableOf (r : Reader) (es : List Entry) : Type 0 where
  pub groups : List (List Entry)
  pub rest : Bytes
  pub start : Bloom.Filter
  pub whole : flat groups ≡ es
  pub no_empty : AllFilled groups
  pub file : r.file ≡ block_bytes (flat groups) ++ rest
  pub index : r.index ≡ index_of 0 groups
  pub bloom : r.bloom ≡ some (record (filled start (flat groups)) { n = 0 })
  pub fresh : IsWhole start
  pub bits : 0 < start.m
  pub not_closed : r.file_closed ≡ false
  pub small : length r.file < 2 ^ 64

-- The filter's count of keys plays no part in its test.
may_contain-count :
    (f : Bloom.Filter) (key : Bytes)
    → Bloom.may_contain (some (record f { n = 0 })) key ≡ Bloom.may_contain (some f) key
unfolding Bloom.may_contain
may_contain-count f key = refl

pub table-skips :
    (r : Reader) (es : List Entry) (key : Bytes)
    → IsTableOf r es
    → may_contain r key ≡ false
    → find key es ≡ none
unfolding may_contain
table-skips r es key t h =
    subst (λ x. find key x ≡ none) t.whole
      (filled-skips t.start (flat t.groups) key t.fresh t.bits (
        sym (may_contain-count (filled t.start (flat t.groups)) key)
        ∙ ap (λ b. Bloom.may_contain b key) (sym t.bloom)
        ∙ h))

-- `Get` of a table answers as a lookup in its entries.
pub table-get :
    {L : Type 0} (lru : Lru L) (r : Reader) (es : List Entry) (key : Bytes)
    → Ascending es
    → All IsStored es
    → IsTableOf r es
    → get lru r none key none ≡ (ok (answer (find key es)), none)
unfolding get
table-get lru r es key asc stored t = elim (Bool-cases (may_contain r key)) [
  | inr never ↦ rw (never, table-skips r es key t never) refl
  | inl maybe ↦
      let asc' = subst Ascending (sym t.whole) asc in
      let stored' = subst (All IsStored) (sym t.whole) stored in
      rw maybe (
        ap (get_from lru r none key none) (
          ap (λ i. drop (search_index i key) i) t.index
          ∙ search_index-eq 0 t.groups key t.no_empty asc')
        ∙ get_from-find lru r t.not_closed 0 t.groups key t.rest t.no_empty asc' stored' t.small
            (omega arith) t.file
        ∙ ap (λ x. (ok (answer (find key x)), none)) t.whole)
]
