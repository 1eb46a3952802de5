-- ===== src/Sstable/Table/Serves.antt =====
-- Tables on disk are what the database's reads ask of a table.
use pebble_db.Prelude.{ℕ, ◌+◌, ◌<◌, ◌^◌, length, ◌≡◌, ap, none, List, All, if◌then◌else◌, reverse}
use pebble_db.Bytes.{Bytes}
use pebble_db.Result.{ok, err}
use pebble_db.Iterator.{Entry}
use pebble_db.Iterator.Merge.Lists.{find}
use pebble_db.Iterator.Merge.Output.{Ascending}
use pebble_db.Memtable.Order.{IsOrdered}
use pebble_db.Db.{Table, Db, err_closed}
use pebble_db.Db.Get
use pebble_db.Db.Get.Layers.{Holds, AllOrdered, memory, stored, reply, get-eq-reply}
use pebble_db.Sstable.Cache.{Lru}
use pebble_db.Sstable.Reader.{Reader, may_contain, get}
use pebble_db.Sstable.Reader.Lookup.{IsStored}
use pebble_db.Sstable.Writer.{at_least_one}
use pebble_db.Sstable.Table.{TableAnswers, make_table}
use pebble_db.Sstable.Table.Built.{make_table-IsTableOf}
use pebble_db.Sstable.Table.Facts.{IsTableOf, table-skips, table-get}

-- A table that was made from its entries, written and opened again, without a reported error: the answers
-- of the operating system, the sizes of the filter, and what the flush asked for.
pub record DiskTable : Type 0 where
  pub reader : Reader
  pub entries : List Entry
  pub ascending : Ascending entries
  pub stored' : All IsStored entries
  pub sizes : ℕ → ℕ × ℕ
  pub file_id : ℕ
  pub expected : ℕ
  pub answers : TableAnswers
  pub bits : 0 < (sizes (at_least_one expected)).0
  pub fits : (sizes (at_least_one expected)).0 + 8 < 2 ^ 32
  pub small : length reader.file < 2 ^ 62
  pub made : make_table sizes file_id expected entries answers ≡ ok reader

laid_out : (t : DiskTable) → IsTableOf t.reader t.entries
laid_out t =
    make_table-IsTableOf t.sizes t.file_id t.expected t.entries t.answers t.reader t.bits t.fits
      t.stored' t.small t.made

abbrev pub entries_of : DiskTable → List Entry
entries_of t = t.entries

module _ {L : Type 0} (lru : Lru L) where
  -- The interface, by the reader's methods.
  pub disk_table : Table DiskTable
  disk_table = record {
    may_contain = λ t k. may_contain t.reader k;
    get = λ t k. (get lru t.reader none k none).0;
    id = λ t. t.reader.file_id;
  }

  pub disk_table-Holds : Holds disk_table entries_of
  unfolding disk_table
  disk_table-Holds = record {
    skips = λ t k h. table-skips t.reader t.entries k (laid_out t) h;
    reads = λ t k.
        ap (λ p. p.0) (table-get lru t.reader t.entries k t.ascending t.stored' (laid_out t));
  }

  -- Over tables that were written by the writer and opened without a reported error, and are read by
  -- their filters, their indexes and their blocks, a get of the database answers by one lookup in the
  -- entries that were put into memory and into the tables, the newer first. The memtables and the tables'
  -- entries are ordered, the files are not too large, and no read of a block fails.
  pub get-disk_tables :
      (db : Db DiskTable) (k : Bytes)
      → IsOrdered db.active
      → AllOrdered (reverse db.pending_flush)
      → Get.get disk_table db k ≡ (
          if db.closed
          then err err_closed
          else reply (find k (memory db)) (find k (stored entries_of db)))
  get-disk_tables = get-eq-reply disk_table entries_of disk_table-Holds
