-- ===== src/Db/Flush/Keeps.antt =====
-- A flush moves entries from memory to a table, and readers see no difference.
use pebble_db.Prelude.{
  ℕ, ◌+◌, ◌≡◌, refl, sym, ap, ◌∙◌, Option, none, some, List, [], ◌∷◌, ◌++◌, drop, reverse, ◌⊎◌, inl,
  inr, append_assoc, append-nil, ltb, if◌then◌else◌,
}
use mathlib.Core.List.{reverse-append, reverse-cons}
use pebble_db.Bytes.{Bytes}
use pebble_db.Result.{Result, ok, err}
use pebble_db.Iterator.{Entry}
use pebble_db.Iterator.Merge.Lists.{find}
use pebble_db.Wal.Format.{Record}
use pebble_db.Memtable.{SkipList, snapshot}
use pebble_db.Db.{Builder, Db, FlushQueueEntry}
use pebble_db.Db.Get.Layers.{
  batch_entries, queue_entries, table_entries, memory, stored, or_find, find-append,
}
use pebble_db.Db.Flush.{
  FlushAnswers, CleanupFault, at_write_state, at_truncate, at_remove_state,
  complete_wal_after_flush, cut_log, after_cleanup, publish, built, flush_immutable, replace_first,
  after_flush, flush_first, drain_round, drain_pending_flush,
}

-- Tables hold the entries that they were built from.
pub record Builds {R : Type 0} (builder : Builder R) (content : R → List Entry) : Type 0 where
  pub holds_entries :
      (id expected : ℕ) (es : List Entry) (r : R)
      → builder.build id expected es ≡ ok r
      → content r ≡ es

-- All that the database holds, the newer entries first.
abbrev pub everything : {R : Type 0} → (R → List Entry) → Db R → List Entry
everything content db = memory db ++ stored content db

queue_entries-append :
    (a b : List FlushQueueEntry) → queue_entries (a ++ b) ≡ queue_entries a ++ queue_entries b
unfolding queue_entries
queue_entries-append [] b = refl
queue_entries-append (q ∷ a) b =
    ap (λ e. snapshot q.mem ++ e) (queue_entries-append a b)
    ∙ sym (append_assoc (snapshot q.mem) (queue_entries a) (queue_entries b))

queue_entries-reverse_cons :
    (q : FlushQueueEntry) (qs : List FlushQueueEntry)
    → queue_entries (reverse (q ∷ qs)) ≡ queue_entries (reverse qs) ++ snapshot q.mem
queue_entries-reverse_cons q qs =
    ap queue_entries (reverse-cons q qs)
    ∙ queue_entries-append (reverse qs) (q ∷ [])
    ∙ ap (λ e. queue_entries (reverse qs) ++ e)
        (unfold queue_entries in append-nil (snapshot q.mem))

-- A later copy of a list of entries changes no lookup.
or_find-twice : (a : Option Entry) (b : Option Entry) → or_find a (or_find a b) ≡ or_find a b
unfolding or_find
or_find-twice none b = refl
or_find-twice (some e) b = refl

module _ {R : Type 0} (content : R → List Entry) where
  abbrev upper : List Record → SkipList → List FlushQueueEntry → List Entry
  upper b a q = batch_entries (reverse b) ++ (snapshot a ++ queue_entries (reverse q))

  stored-append :
      (rs : List R) (r : R)
      → table_entries content (reverse (rs ++ r ∷ []))
        ≡ content r ++ table_entries content (reverse rs)
  stored-append rs r =
      ap (table_entries content) (reverse-append rs (r ∷ [])) ∙ (unfold table_entries in refl)

  upper-first :
      (b : List Record) (a : SkipList) (q : FlushQueueEntry) (qs : List FlushQueueEntry)
      → upper b a (q ∷ qs) ≡ upper b a qs ++ snapshot q.mem
  upper-first b a q qs =
      let waiting = batch_entries (reverse b) in
      let older = queue_entries (reverse qs) in
      ap (λ e. waiting ++ (snapshot a ++ e)) (queue_entries-reverse_cons q qs)
      ∙ ap (λ e. waiting ++ e) (sym (append_assoc (snapshot a) older (snapshot q.mem)))
      ∙ sym (append_assoc waiting (snapshot a ++ older) (snapshot q.mem))

  -- A state with these layers.
  abbrev Layers : Db R → List Record → SkipList → List FlushQueueEntry → List R → Type 0
  Layers db b a q t =
      (db.pending_batch ≡ b) × (db.active ≡ a) × (db.pending_flush ≡ q) × (db.sstables ≡ t)

  abbrev flat : List Record → SkipList → List FlushQueueEntry → List R → List Entry
  flat b a q t = upper b a q ++ table_entries content (reverse t)

  everything-Layers :
      (db : Db R) (b : List Record) (a : SkipList) (q : List FlushQueueEntry) (t : List R)
      → Layers db b a q t
      → everything content db ≡ flat b a q t
  unfolding memory stored
  everything-Layers db b a q t (hb, ha, hq, ht) = rw (hb, ha, hq, ht)

  -- What an attempt to flush a memtable comes to: an error and the same layers, or one more table.
  abbrev Attempted : Db R → SkipList → Db R × Option ℕ → Type 0
  Attempted db imm o =
      ((e : ℕ) × (o.1 ≡ some e)
        × Layers o.0 db.pending_batch db.active db.pending_flush db.sstables)
      ⊎ ((r : R) × (o.1 ≡ none)
          × (content r ≡ snapshot imm)
          × Layers o.0 db.pending_batch db.active db.pending_flush (db.sstables ++ r ∷ []))

  cleanup-Layers :
      (db : Db R) (cutoff id : ℕ) (fault : Option CleanupFault)
      → Layers
          (after_cleanup (complete_wal_after_flush db cutoff id fault))
          db.pending_batch
          db.active
          db.pending_flush
          db.sstables
  unfolding complete_wal_after_flush after_cleanup cut_log
  cleanup-Layers db cutoff id none = (refl, refl, refl, refl)
  cleanup-Layers db cutoff id (some (at_write_state e)) = (refl, refl, refl, refl)
  cleanup-Layers db cutoff id (some (at_truncate e)) = (refl, refl, refl, refl)
  cleanup-Layers db cutoff id (some (at_remove_state e)) = (refl, refl, refl, refl)

  publish-Attempted :
      (db : Db R) (imm : SkipList) (cutoff id : ℕ) (r : R) (m : Option ℕ)
      (fault : Option CleanupFault)
      → content r ≡ snapshot imm
      → Attempted db imm
          (publish db cutoff id r (record { manifest_error = m; cleanup_fault = fault }))
  unfolding publish
  publish-Attempted db imm cutoff id r (some e) fault h = inl (e, refl, (refl, refl, refl, refl))
  publish-Attempted db imm cutoff id r none fault h =
      let published : Db R = record db {
        sstables = db.sstables ++ r ∷ [];
        live_ids = db.live_ids ++ id ∷ [];
      } in
      inr (r, refl, h, cleanup-Layers published cutoff id fault)

  built-Attempted :
      (db : Db R) (imm : SkipList) (cutoff id : ℕ) (b : Result ℕ R) (answers : FlushAnswers)
      → ((r : R) → b ≡ ok r → content r ≡ snapshot imm)
      → Attempted db imm (built db cutoff id b answers)
  unfolding built
  built-Attempted db imm cutoff id (err e) answers h = inl (e, refl, (refl, refl, refl, refl))
  built-Attempted db imm cutoff id (ok r) answers h =
      publish-Attempted db imm cutoff id r answers.manifest_error answers.cleanup_fault (h r refl)

  module _ (builder : Builder R) (builds : Builds builder content) where
    flush_immutable-Attempted :
        (db : Db R) (imm : SkipList) (cutoff : ℕ) (answers : FlushAnswers)
        → Attempted db imm (flush_immutable builder db imm cutoff answers)
    unfolding flush_immutable
    flush_immutable-Attempted db imm cutoff answers =
        let id = db.next_sst_id + 1 in
        let expected = if ltb imm.length' 1 then 1 else imm.length' in
        built-Attempted (record db { next_sst_id = id }) imm cutoff id
          (builder.build id expected (snapshot imm)) answers
          (λ r h. builds.holds_entries id expected (snapshot imm) r h)

    after_flush-keeps :
        (db : Db R) (q : FlushQueueEntry) (qs : List FlushQueueEntry) (o : Db R × Option ℕ)
        (k : Bytes)
        → db.pending_flush ≡ q ∷ qs
        → Attempted db q.mem o
        → find k (everything content (after_flush q o)) ≡ find k (everything content db)
    unfolding after_flush replace_first
    after_flush-keeps db q qs (db', some e) k at (inl (e', same, (b, a, f, t))) =
        let q' : FlushQueueEntry = record q { retries = q.retries + 1 } in
        let now : Db R = after_flush q (db', some e) in
        ap (find k) (
          everything-Layers now db.pending_batch db.active (q' ∷ qs) db.sstables
            (b, a, ap (λ p. replace_first p q') (f ∙ at), t)
          ∙ ap (λ u. (u ++ table_entries content (reverse db.sstables)))
              (upper-first db.pending_batch db.active q' qs
                ∙ sym (upper-first db.pending_batch db.active q qs))
          ∙ sym (
              everything-Layers db db.pending_batch db.active (q ∷ qs) db.sstables
                (refl, refl, at, refl)))
    after_flush-keeps db q qs (db', none) k at (inl (e', same, l)) = cc
    after_flush-keeps db q qs (db', some e) k at (inr (r, same, h, l)) = cc
    after_flush-keeps db q qs (db', none) k at (inr (r, same, h, (b, a, f, t))) =
        let now : Db R = after_flush q (db', none) in
        let lower = table_entries content (reverse db.sstables) in
        let rest = upper db.pending_batch db.active qs in
        ap (find k) (
          everything-Layers now db.pending_batch db.active qs (db.sstables ++ r ∷ [])
            (b, a, ap (drop 1) (f ∙ at), t)
          ∙ ap (λ e. rest ++ e) (stored-append db.sstables r ∙ ap (λ c. c ++ lower) h)
          ∙ sym (append_assoc rest (snapshot q.mem) lower)
          ∙ ap (λ u. u ++ lower) (sym (upper-first db.pending_batch db.active q qs))
          ∙ sym (
              everything-Layers db db.pending_batch db.active (q ∷ qs) db.sstables
                (refl, refl, at, refl)))

    -- Between the publication of the table and the removal of the memtable from the queue, both hold
    -- its entries.
    Attempted-keeps :
        (db : Db R) (q : FlushQueueEntry) (qs : List FlushQueueEntry) (o : Db R × Option ℕ)
        (k : Bytes)
        → db.pending_flush ≡ q ∷ qs
        → Attempted db q.mem o
        → find k (everything content o.0) ≡ find k (everything content db)
    Attempted-keeps db q qs o k at (inl (e, same, l)) = ap (find k) (
        everything-Layers o.0 db.pending_batch db.active db.pending_flush db.sstables l
        ∙ sym (
            everything-Layers db db.pending_batch db.active db.pending_flush db.sstables
              (refl, refl, refl, refl)))
    Attempted-keeps db q qs o k at (inr (r, same, h, (b, a, f, t))) =
        let lower = table_entries content (reverse db.sstables) in
        let mem = snapshot q.mem in
        let rest = upper db.pending_batch db.active qs in
        let twice : find k (mem ++ (mem ++ lower)) ≡ find k (mem ++ lower) =
          find-append k mem (mem ++ lower)
          ∙ ap (or_find (find k mem)) (find-append k mem lower)
          ∙ or_find-twice (find k mem) (find k lower)
          ∙ sym (find-append k mem lower) in
        ap (find k) (
          everything-Layers o.0 db.pending_batch db.active (q ∷ qs) (db.sstables ++ r ∷ [])
            (b, a, f ∙ at, t)
          ∙ ap (λ u. u ++ table_entries content (reverse (db.sstables ++ r ∷ [])))
              (upper-first db.pending_batch db.active q qs)
          ∙ append_assoc rest mem (table_entries content (reverse (db.sstables ++ r ∷ [])))
          ∙ ap (λ e. rest ++ (mem ++ e)) (stored-append db.sstables r ∙ ap (λ c. c ++ lower) h))
        ∙ find-append k rest (mem ++ (mem ++ lower))
        ∙ ap (or_find (find k rest)) twice
        ∙ sym (find-append k rest (mem ++ lower))
        ∙ ap (find k) (
            sym (append_assoc rest mem lower)
            ∙ ap (λ u. u ++ lower) (sym (upper-first db.pending_batch db.active q qs))
            ∙ sym (
                everything-Layers db db.pending_batch db.active (q ∷ qs) db.sstables
                  (refl, refl, at, refl)))

    flush_first-keeps :
        (db : Db R) (answers : FlushAnswers) (qs : List FlushQueueEntry) (k : Bytes)
        → db.pending_flush ≡ qs
        → find k (everything content (flush_first builder db answers qs))
          ≡ find k (everything content db)
    unfolding flush_first
    flush_first-keeps db answers [] k at = refl
    flush_first-keeps db answers (q ∷ qs) k at =
        after_flush-keeps db q qs (flush_immutable builder db q.mem q.wal_cutoff answers) k at
          (flush_immutable-Attempted db q.mem q.wal_cutoff answers)

    -- However many attempts the flusher makes, and whichever of them fail at whatever point, the
    -- newest entry of every key stays the same: nothing is lost on its way from memory to a table.
    pub drain_pending_flush-keeps :
        (answers : List FlushAnswers) (db : Db R) (k : Bytes)
        → find k (everything content (drain_pending_flush builder answers db))
          ≡ find k (everything content db)
    unfolding drain_pending_flush drain_round
    drain_pending_flush-keeps [] db k = refl
    drain_pending_flush-keeps (a ∷ as') db k =
        drain_pending_flush-keeps as' (drain_round builder a db) k
        ∙ flush_first-keeps db a db.pending_flush k refl

    -- While a flush is between the publication of its table and the removal of the memtable from
    -- the queue, where it stands in both, and where it has failed, the newest entry of every key is
    -- also the same.
    pub flush_immutable-keeps :
        (db : Db R) (q : FlushQueueEntry) (qs : List FlushQueueEntry) (answers : FlushAnswers)
        (k : Bytes)
        → db.pending_flush ≡ q ∷ qs
        → find k (everything content (flush_immutable builder db q.mem q.wal_cutoff answers).0)
          ≡ find k (everything content db)
    flush_immutable-keeps db q qs answers k at =
        Attempted-keeps db q qs (flush_immutable builder db q.mem q.wal_cutoff answers) k at
          (flush_immutable-Attempted db q.mem q.wal_cutoff answers)
