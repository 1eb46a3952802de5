-- ===== src/Db/Get/Layers.antt =====
-- What `Get` finds, as one lookup through all the layers.
use pebble_db.Prelude.{
  true, false, Bool-cases, inl, inr, Option, none, some, List, [], ◌∷◌, ◌++◌, if◌then◌else◌,
  reverse, ◌≡◌, refl, sym, ap, ◌∙◌, All, arith,
}
use pebble_db.Bytes.{Bytes, equal, copy_slice, compare_bytes}
use pebble_db.Bytes.Order.{is_eq, equal-compare, eq_of_is_eq}
use pebble_db.Result.{Result, ok, err}
use pebble_db.Iterator.{Entry}
use pebble_db.Iterator.Merge.Lists.{find}
use pebble_db.Wal.Format.{Record}
use pebble_db.Memtable.{SkipList, snapshot}
use pebble_db.Memtable.Order.{IsOrdered}
use pebble_db.Memtable.Lookup.{answer, get-eq-answer}
use pebble_db.Db.{Table, FlushQueueEntry, Db, DbError, err_closed}
use pebble_db.Db.Get.{
  Lookup, miss, hit, tombstone, lookup_newest_first, lookup_pending_batch, of_get, lookup_memtable,
  lookup_queue, or_older, Found, lookup_readers, lookup_sst_readers, after_read, from_tables,
  or_else, get,
}

-- A table whose reads do not fail, and what it holds.
pub record Holds {R : Type 0} (table : Table R) (content : R → List Entry) : Type 0 where
  pub skips : (r : R) (k : Bytes) → table.may_contain r k ≡ false → find k (content r) ≡ none
  pub reads : (r : R) (k : Bytes) → table.get r k ≡ ok (answer (find k (content r)))

abbrev pub batch_entry : Record → Entry
batch_entry rec = record { key = rec.key; value = copy_slice rec.value; tombstone = rec.tombstone }

unfoldable pub batch_entries : List Record → List Entry
batch_entries [] = []
batch_entries (rec ∷ older) = batch_entry rec ∷ batch_entries older

unfoldable pub queue_entries : List FlushQueueEntry → List Entry
queue_entries [] = []
queue_entries (q ∷ older) = snapshot q.mem ++ queue_entries older

unfoldable pub table_entries : {R : Type 0} → (R → List Entry) → List R → List Entry
table_entries content [] = []
table_entries content (r ∷ older) = content r ++ table_entries content older

-- The entries in memory and in the tables, the newer ones first.
unfoldable pub memory : {R : Type 0} → Db R → List Entry
unfolding batch_entries queue_entries
memory db =
    batch_entries (reverse db.pending_batch)
    ++ (snapshot db.active ++ queue_entries (reverse db.pending_flush))

unfoldable pub stored : {R : Type 0} → (R → List Entry) → Db R → List Entry
unfolding table_entries
stored content db = table_entries content (reverse db.sstables)

unfoldable pub or_find : Option Entry → Option Entry → Option Entry
or_find none b = b
or_find (some e) b = some e

pub find-append : (k : Bytes) (a b : List Entry) → find k (a ++ b) ≡ or_find (find k a) (find k b)
unfolding find or_find
find-append k [] b = refl
find-append k (e ∷ a) b = elim (Bool-cases (is_eq (compare_bytes k e.key))) [
  | inl h ↦ rw h
  | inr h ↦ rw h (find-append k a b)
]

-- What a layer of memory answers for what it holds.
abbrev pub lookup_of : Option Entry → Lookup
lookup_of none = miss
lookup_of (some e) = if e.tombstone then tombstone else hit e.value

pub is_eq_comm : (a b : Bytes) → is_eq (compare_bytes a b) ≡ is_eq (compare_bytes b a)
is_eq_comm a b = elim (Bool-cases (is_eq (compare_bytes a b))) [
  | inl h ↦ let e : a ≡ b = eq_of_is_eq a b h in rw e
  | inr h ↦ elim (Bool-cases (is_eq (compare_bytes b a))) [
    | inl g ↦ let e : b ≡ a = eq_of_is_eq b a g in rw e
    | inr g ↦ h ∙ sym g
  ]
]

batch-lookup :
    (b : List Record) (k : Bytes) → lookup_newest_first b k ≡ lookup_of (find k (batch_entries b))
unfolding lookup_newest_first find batch_entries
batch-lookup [] k = refl
batch-lookup (rec ∷ older) k = elim (Bool-cases (equal rec.key k)) [
  | inl h ↦ rw (h, is_eq_comm k rec.key, ← equal-compare rec.key k, h)
  | inr h ↦ rw (h, is_eq_comm k rec.key, ← equal-compare rec.key k, h) (batch-lookup older k)
]

of_get-answer : (m : Option Entry) → of_get (answer m) ≡ lookup_of m
unfolding of_get
of_get-answer none = refl
of_get-answer (some e) = ground arith

memtable-lookup :
    (sl : SkipList) (k : Bytes)
    → IsOrdered sl
    → lookup_memtable sl k ≡ lookup_of (find k (snapshot sl))
unfolding lookup_memtable
memtable-lookup sl k o = rw (get-eq-answer sl k o) (of_get-answer (find k (snapshot sl)))

abbrev pub AllOrdered : List FlushQueueEntry → Type 0
AllOrdered = All (λ (q : FlushQueueEntry). IsOrdered q.mem)

lookup_of-or : (a b : Option Entry) → lookup_of (or_find a b) ≡ or_older (lookup_of a) (lookup_of b)
unfolding or_find or_older
lookup_of-or none b = refl
lookup_of-or (some e) b = ground arith

queue-lookup :
    (qs : List FlushQueueEntry) (k : Bytes)
    → AllOrdered qs
    → lookup_queue qs k ≡ lookup_of (find k (queue_entries qs))
unfolding queue_entries lookup_queue
queue-lookup [] k o = unfold find in refl
queue-lookup (q ∷ older) k o =
    rw
      (
        memtable-lookup q.mem k o.0,
        queue-lookup older k o.1,
        find-append k (snapshot q.mem) (queue_entries older),
      )
      (sym (lookup_of-or (find k (snapshot q.mem)) (find k (queue_entries older))))

-- What the tables answer for what they hold.
abbrev pub found_of : Option Entry → Found
found_of none = (none, false)
found_of (some e) = if e.tombstone then (none, true) else (e.value, true)

-- What a get answers: for what memory holds of the key, else for what the tables hold of it, where
-- an entry without a value counts as absent.
abbrev pub reply : Option Entry → Option Entry → Result DbError (Option Bytes)
reply mem sst = or_else (lookup_of mem) (from_tables (ok (found_of sst)))

module _ {R : Type 0} (table : Table R) (content : R → List Entry)
    (holds : Holds table content) where
  or_found : Option Entry → Found → Found
  or_found none older = older
  or_found (some e) older = found_of (some e)

  after_read-answer :
      (m : Option Entry) (older : Found)
      → after_read (ok (answer m)) (ok older) ≡ ok (or_found m older)
  unfolding after_read or_found
  after_read-answer none older = refl
  after_read-answer (some e) older = ground arith

  or_found-or : (a b : Option Entry) → or_found a (found_of b) ≡ found_of (or_find a b)
  unfolding or_found or_find
  or_found-or none b = refl
  or_found-or (some e) b = refl

  readers-lookup :
      (rs : List R) (k : Bytes)
      → lookup_readers table rs k ≡ ok (found_of (find k (table_entries content rs)))
  unfolding lookup_readers table_entries
  readers-lookup [] k = unfold find in refl
  readers-lookup (r ∷ older) k = elim (Bool-cases (table.may_contain r k)) [
    | inl maybe ↦
        rw
          (
            maybe,
            holds.reads r k,
            readers-lookup older k,
            after_read-answer (find k (content r))
                (found_of (find k (table_entries content older))),
            find-append k (content r) (table_entries content older),
          )
          (ap (ok) (or_found-or (find k (content r)) (find k (table_entries content older))))
    | inr never ↦
        rw
          (
            never,
            readers-lookup older k,
            find-append k (content r) (table_entries content older),
            holds.skips r k never,
          )
          (unfold or_find in refl)
  ]

  or_else-or :
      (a b : Option Entry) (rest : Result DbError (Option Bytes))
      → or_else (lookup_of a) (or_else (lookup_of b) rest) ≡ or_else (lookup_of (or_find a b)) rest
  unfolding or_else or_find
  or_else-or none b rest = refl
  or_else-or (some e) b rest = ground arith

  -- A get answers by what memory, with the batch first, then the active memtable, then the queued
  -- ones from the newest on, holds of the key, and by the tables, from the newest on, only where
  -- memory holds nothing of it: a tombstone is not found, a live entry gives its value, and a live
  -- entry of a table without a value is not found either. The memtables are ordered, and the reads
  -- of the tables do not fail.
  pub get-eq-reply :
      (db : Db R) (k : Bytes)
      → IsOrdered db.active
      → AllOrdered (reverse db.pending_flush)
      → get table db k ≡ (
          if db.closed
          then err err_closed
          else reply (find k (memory db)) (find k (stored content db)))
  unfolding get memory stored lookup_pending_batch lookup_sst_readers
  get-eq-reply db k oa oq =
      let b = batch_entries (reverse db.pending_batch) in
      let q = queue_entries (reverse db.pending_flush) in
      let rest =
        from_tables (ok (found_of (find k (table_entries content (reverse db.sstables))))) in
      ap (λ t. if db.closed then err err_closed else t)
        (rw (
          batch-lookup (reverse db.pending_batch) k,
          memtable-lookup db.active k oa,
          queue-lookup (reverse db.pending_flush) k oq,
          readers-lookup (reverse db.sstables) k,
          or_else-or (find k (snapshot db.active)) (find k q) rest,
          or_else-or (find k b) (or_find (find k (snapshot db.active)) (find k q)) rest,
          find-append k b (snapshot db.active ++ q),
          find-append k (snapshot db.active) q,
        ))
