-- ===== src/Db/Batch/Visible.antt =====
-- What readers see of the batch as it goes to the log and into the memtable.
use pebble_db.Prelude.{
  ℕ, ◌<◌, ◌≡◌, refl, sym, ap, ◌∙◌, subst, Bool, true, Bool-cases, inl, inr, Option, none, some,
  List, [], ◌∷◌, ◌++◌, leb, if◌then◌else◌, arith, reverse, append_assoc, append-nil, All,
}
use mathlib.Core.List.{reverse-append, reverse-cons}
use pebble_db.Bytes.{Bytes, copy_slice, compare_bytes}
use pebble_db.Bytes.Order.{is_eq}
use pebble_db.Iterator.{Entry}
use pebble_db.Iterator.Merge.Lists.{find}
use pebble_db.Wal.Limits.{WalError}
use pebble_db.Wal.Format.{Record}
use pebble_db.Wal.Log.{Wal, Answer, append_batch}
use pebble_db.Memtable.{SkipList, snapshot, new_skip_list}
use pebble_db.Memtable.Order.{IsOrdered}
use pebble_db.Memtable.Sorted.{put-IsOrdered, delete-IsOrdered}
use pebble_db.Memtable.Lookup.{find-put, find-delete}
use pebble_db.Db.{Db, FlushQueueEntry}
use pebble_db.Db.Get.Layers.{
  batch_entry, batch_entries, queue_entries, memory, or_find, find-append,
}
use pebble_db.Db.Batch.{
  apply_record, apply_batch, next_height, later_heights, queue_record, queue_all, rotate,
  maybe_flush, take_pending_batch, restore_pending_batch, persisted, report, flush_batch,
  take_batch, flush_pending_batch,
}

-- A deletion carries no value.
abbrev pub IsBareRecord : Record → Type 0
IsBareRecord rec = rec.tombstone ≡ true → rec.value ≡ []

next_height-pos : (hs : List ℕ) → All (λ (h : ℕ). 0 < h) hs → 0 < next_height hs
unfolding next_height
next_height-pos [] h = omega arith
next_height-pos (x ∷ hs) h = h.0

later_heights-pos :
    (hs : List ℕ) → All (λ (h : ℕ). 0 < h) hs → All (λ (h : ℕ). 0 < h) (later_heights hs)
unfolding later_heights
later_heights-pos [] h = tt
later_heights-pos (x ∷ hs) h = h.1

apply_record-IsOrdered :
    (sl : SkipList) (rec : Record) (drawn : ℕ)
    → IsOrdered sl
    → 0 < drawn
    → IsOrdered (apply_record sl rec drawn)
unfolding apply_record
apply_record-IsOrdered sl rec drawn o up = elim (Bool-cases rec.tombstone) [
  | inl dead ↦ rw dead (delete-IsOrdered sl rec.key drawn o up)
  | inr live ↦ rw live (put-IsOrdered sl rec.key rec.value drawn o up)
]

find-apply_record :
    (sl : SkipList) (rec : Record) (drawn : ℕ) (k : Bytes)
    → IsOrdered sl
    → 0 < drawn
    → IsBareRecord rec
    → find k (snapshot (apply_record sl rec drawn))
      ≡ (if is_eq (compare_bytes k rec.key) then some (batch_entry rec) else find k (snapshot sl))
unfolding apply_record
find-apply_record sl rec drawn k o up bare = elim (Bool-cases rec.tombstone) [
  | inl dead ↦
      rw (dead, bare dead) (find-delete sl rec.key drawn k o up ∙ (unfold copy_slice in refl))
  | inr live ↦ rw live (find-put sl rec.key rec.value drawn k o up)
]

find-cons :
    (k : Bytes) (e : Entry) (es : List Entry)
    → find k (e ∷ es) ≡ (if is_eq (compare_bytes k e.key) then some e else find k es)
unfolding find
find-cons k e es = refl

batch_entries-append :
    (a b : List Record) → batch_entries (a ++ b) ≡ batch_entries a ++ batch_entries b
unfolding batch_entries
batch_entries-append [] b = refl
batch_entries-append (rec ∷ a) b = ap (◌∷◌ (batch_entry rec)) (batch_entries-append a b)

-- A batch that is applied reads as the same batch, still waiting in front of the memtable.
pub apply_batch-lem :
    (rs : List Record) (sl : SkipList) (hs : List ℕ) (k : Bytes)
    → IsOrdered sl
    → All (λ (h : ℕ). 0 < h) hs
    → All IsBareRecord rs
    → IsOrdered (apply_batch sl rs hs)
      × (find k (snapshot (apply_batch sl rs hs))
          ≡ find k (batch_entries (reverse rs) ++ snapshot sl))
unfolding apply_batch batch_entries
apply_batch-lem [] sl hs k o up bare = (o, refl)
apply_batch-lem (rec ∷ rs) sl hs k o up bare =
    let h0 = next_height-pos hs up in
    let sl' = apply_record sl rec (next_height hs) in
    let (o', e) =
      apply_batch-lem rs sl' (later_heights hs) k
        (apply_record-IsOrdered sl rec (next_height hs) o h0) (later_heights-pos hs up) bare.1 in
    (
      o',
      e
          ∙ find-append k (batch_entries (reverse rs)) (snapshot sl')
          ∙ ap (or_find (find k (batch_entries (reverse rs)))) (
              find-apply_record sl rec (next_height hs) k o h0 bare.0
              ∙ sym (find-cons k (batch_entry rec) (snapshot sl)))
          ∙ sym (find-append k (batch_entries (reverse rs)) (batch_entry rec ∷ snapshot sl))
          ∙ ap (find k) (
              sym (append_assoc (batch_entries (reverse rs)) (batch_entry rec ∷ []) (snapshot sl))
              ∙ ap (λ b. b ++ snapshot sl)
                  (sym (batch_entries-append (reverse rs) (rec ∷ []))
                    ∙ ap batch_entries (sym (reverse-cons rec rs)))),
    )

-- What memory holds, from its three parts.
abbrev memory_of : List Record → SkipList → List FlushQueueEntry → List Entry
memory_of batch active queue =
    batch_entries (reverse batch) ++ (snapshot active ++ queue_entries (reverse queue))

memory_of-append :
    (batch later : List Record) (active : SkipList) (queue : List FlushQueueEntry)
    → memory_of (batch ++ later) active queue
      ≡ batch_entries (reverse later)
        ++ (batch_entries (reverse batch) ++ (snapshot active ++ queue_entries (reverse queue)))
memory_of-append batch later active queue =
    let rest = snapshot active ++ queue_entries (reverse queue) in
    ap (λ b. b ++ rest)
      (ap batch_entries (reverse-append batch later)
        ∙ batch_entries-append (reverse later) (reverse batch))
    ∙ append_assoc (batch_entries (reverse later)) (batch_entries (reverse batch)) rest

module _ {R : Type 0} where
  queue_all-fields :
      (db : Db R) (rs : List Record)
      → ((queue_all db rs).active ≡ db.active)
        × ((queue_all db rs).pending_flush ≡ db.pending_flush)
        × ((queue_all db rs).pending_batch ≡ db.pending_batch ++ rs)
  unfolding queue_all queue_record
  queue_all-fields db [] = (refl, refl, sym (append-nil db.pending_batch))
  queue_all-fields db (rec ∷ rs) =
      let (a, q, b) = queue_all-fields (queue_record db rec) rs in
      (a, q, b ∙ append_assoc db.pending_batch (rec ∷ []) rs)

  queue_all-memory :
      (db : Db R) (rs : List Record)
      → memory (queue_all db rs) ≡ memory_of (db.pending_batch ++ rs) db.active db.pending_flush
  unfolding memory
  queue_all-memory db rs = let (a, q, b) = queue_all-fields db rs in rw (a, q, b)

  rotate-memory :
      (db : Db R) (size_error : Option WalError) → memory (rotate db size_error).0 ≡ memory db
  unfolding rotate memory
  rotate-memory db (some e) = refl
  rotate-memory db none =
      ap (λ q. batch_entries (reverse db.pending_batch) ++ q)
        (ap (λ q. snapshot new_skip_list ++ queue_entries q) (reverse-append db.pending_flush _)
          ∙ (unfold queue_entries snapshot in refl))

  maybe_flush-memory :
      (db : Db R) (size_error : Option WalError) → memory (maybe_flush db size_error).0 ≡ memory db
  unfolding maybe_flush
  maybe_flush-memory db size_error = elim (Bool-cases (leb db.active.size db.memtable_size)) [
    | inl small ↦ simp small
    | inr large ↦ simp (large, rotate-memory db size_error)
  ]

  report-memory : (x : Db R × Bool × Option WalError) → memory (report x).0 ≡ memory x.0
  unfolding report
  report-memory (db, b, none) = refl
  report-memory (db, b, some e) = refl

  -- Written or not, the batch reads as if it still waited in front of the later records.
  persisted-memory :
      (db : Db R) (batch : List Record) (hs : List ℕ) (size_error : Option WalError)
      (r : Wal × Option WalError) (k : Bytes)
      → IsOrdered db.active
      → All (λ (h : ℕ). 0 < h) hs
      → All IsBareRecord batch
      → find k (memory (persisted db batch hs size_error r).0)
        ≡ find k (memory_of (batch ++ db.pending_batch) db.active db.pending_flush)
  unfolding persisted memory
  persisted-memory db batch hs size_error (w, some e) k o up bare =
      unfold restore_pending_batch in refl
  persisted-memory db batch hs size_error (w, none) k o up bare =
      let db' : Db R = record db { wal = w; active = apply_batch db.active batch hs } in
      let queue = queue_entries (reverse db.pending_flush) in
      let newer = batch_entries (reverse db.pending_batch) in
      let applied = (apply_batch-lem batch db.active hs k o up bare).1 in
      ap (find k) (report-memory (maybe_flush db' size_error) ∙ maybe_flush-memory db' size_error)
      ∙ find-append k newer (snapshot db'.active ++ queue)
      ∙ ap (or_find (find k newer)) (
          find-append k (snapshot db'.active) queue
          ∙ ap (λ m. or_find m (find k queue)) applied
          ∙ sym (find-append k (batch_entries (reverse batch) ++ snapshot db.active) queue)
          ∙ ap (find k) (append_assoc (batch_entries (reverse batch)) (snapshot db.active) queue))
      ∙ sym (find-append k newer (batch_entries (reverse batch) ++ (snapshot db.active ++ queue)))
      ∙ ap (find k) (sym (memory_of-append batch db.pending_batch db.active db.pending_flush))

  -- The same, from the state that `queue_all` makes of one without a batch.
  flushed-memory :
      (db : Db R) (batch meanwhile : List Record) (hs : List ℕ) (size_error : Option WalError)
      (r : Wal × Option WalError) (k : Bytes)
      → db.pending_batch ≡ []
      → IsOrdered db.active
      → All (λ (h : ℕ). 0 < h) hs
      → All IsBareRecord batch
      → find k (memory (persisted (queue_all db meanwhile) batch hs size_error r).0)
        ≡ find k (memory_of (batch ++ meanwhile) db.active db.pending_flush)
  flushed-memory db batch meanwhile hs size_error r k empty o up bare =
      let (a, q, b) = queue_all-fields db meanwhile in
      persisted-memory (queue_all db meanwhile) batch hs size_error r k (subst IsOrdered (sym a) o)
        up bare
      ∙ rw (a, q, b, empty)

  take_batch-flush :
      (db : Db R) (batch meanwhile : List Record) (answers : List Answer) (sync : Option WalError)
      (hs : List ℕ) (size_error : Option WalError) (k : Bytes)
      → db.pending_batch ≡ batch
      → IsOrdered db.active
      → All (λ (h : ℕ). 0 < h) hs
      → All IsBareRecord batch
      → find k (
          memory
            (flush_batch
              (take_batch db batch).1
              (take_batch db batch).0
              meanwhile
              answers
              sync
              hs
              size_error).0)
        ≡ find k (memory_of (batch ++ meanwhile) db.active db.pending_flush)
  unfolding take_batch flush_batch
  take_batch-flush db [] meanwhile answers sync hs size_error k same o up bare =
      ap (find k) (queue_all-memory db meanwhile)
      ∙ ap (λ b. find k (memory_of (b ++ meanwhile) db.active db.pending_flush)) same
  take_batch-flush db (rec ∷ rs) meanwhile answers sync hs size_error k same o up bare =
      let taken : Db R = record db { pending_batch = []; batch_size_bytes = 0 } in
      flushed-memory taken (rec ∷ rs) meanwhile hs size_error
        (append_batch db.wal (rec ∷ rs) answers sync) k refl o up bare

  -- The group commit is invisible to readers once it is over. Whether the log was written or not,
  -- whether the memtable was rotated or not, and whatever records other writers queued meanwhile,
  -- memory then holds for every key what the queue with all those records held: a failed batch is
  -- back in front of the later records, an applied one behind them.
  pub flush_pending_batch-keeps :
      (db : Db R) (meanwhile : List Record) (answers : List Answer) (sync : Option WalError)
      (hs : List ℕ) (size_error : Option WalError) (k : Bytes)
      → IsOrdered db.active
      → All (λ (h : ℕ). 0 < h) hs
      → All IsBareRecord db.pending_batch
      → find k (memory (flush_pending_batch db meanwhile answers sync hs size_error).0)
        ≡ find k (memory (queue_all db meanwhile))
  unfolding flush_pending_batch take_pending_batch
  flush_pending_batch-keeps db meanwhile answers sync hs size_error k o up bare =
      take_batch-flush db db.pending_batch meanwhile answers sync hs size_error k refl o up bare
      ∙ ap (find k) (sym (queue_all-memory db meanwhile))
