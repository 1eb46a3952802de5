-- ===== src/Db/Flush/Empties.antt =====
-- The flusher gets through the whole queue.
use pebble_db.Prelude.{
  ℕ, ◌+◌, ◌-◌, ◌≤◌, ◌≡◌, refl, sym, subst, ap, ◌∙◌, Option, none, some, List, [], ◌∷◌, drop, length,
  length-drop, arith, All, ltb, if◌then◌else◌,
}
use pebble_db.Result.{Result, ok, err}
use pebble_db.Memtable.{snapshot}
use pebble_db.Db.{Builder, Db, FlushQueueEntry}
use pebble_db.Db.Flush.{
  FlushAnswers, CleanupFault, at_write_state, at_truncate, at_remove_state,
  complete_wal_after_flush, cut_log, after_cleanup, publish, built, flush_immutable, after_flush,
  flush_first, drain_round, drain_pending_flush,
}

-- A queued memtable whose table is built, whatever its id.
abbrev pub CanBuild : {R : Type 0} → Builder R → FlushQueueEntry → Type 0
CanBuild {R} builder q =
    (id : ℕ)
    → (r : R) × (builder.build id (if ltb q.mem.length' 1 then 1 else q.mem.length')
          (snapshot q.mem)
        ≡ ok r)

All-drop_one : {A : Type 0} (P : A → Type 0) (xs : List A) → All P xs → All P (drop 1 xs)
All-drop_one P [] h = tt
All-drop_one P (x ∷ xs) h = h.1

-- An attempt that the manifest lets through.
abbrev pub IsCommitted : FlushAnswers → Type 0
IsCommitted a = a.manifest_error ≡ none

module _ {R : Type 0} where
  cleanup-queue :
      (db : Db R) (cutoff id : ℕ) (fault : Option CleanupFault)
      → (after_cleanup (complete_wal_after_flush db cutoff id fault)).pending_flush
        ≡ db.pending_flush
  unfolding complete_wal_after_flush after_cleanup cut_log
  cleanup-queue db cutoff id none = refl
  cleanup-queue db cutoff id (some (at_write_state e)) = refl
  cleanup-queue db cutoff id (some (at_truncate e)) = refl
  cleanup-queue db cutoff id (some (at_remove_state e)) = refl

  publish-queue :
      (db : Db R) (q : FlushQueueEntry) (id : ℕ) (r : R) (m : Option ℕ)
      (fault : Option CleanupFault)
      → m ≡ none
      → (after_flush q (
          publish db q.wal_cutoff id r
            (record { manifest_error = m; cleanup_fault = fault }))).pending_flush
        ≡ drop 1 db.pending_flush
  unfolding publish after_flush
  publish-queue db q id r (some e) fault h = cc
  publish-queue db q id r none fault h = ap (drop 1) (cleanup-queue _ q.wal_cutoff id fault)

  module _ (builder : Builder R) where
    built-queue :
        (db : Db R) (q : FlushQueueEntry) (id : ℕ) (b : Result ℕ R) (r : R) (a : FlushAnswers)
        → b ≡ ok r
        → IsCommitted a
        → (after_flush q (built db q.wal_cutoff id b a)).pending_flush ≡ drop 1 db.pending_flush
    unfolding built
    built-queue db q id (err e) r a h c = cc
    built-queue db q id (ok r') r a h c =
        publish-queue db q id r' a.manifest_error a.cleanup_fault c

    flush_first-queue :
        (db : Db R) (a : FlushAnswers) (qs : List FlushQueueEntry)
        → db.pending_flush ≡ qs
        → All (CanBuild builder) qs
        → IsCommitted a
        → (flush_first builder db a qs).pending_flush ≡ drop 1 qs
    unfolding flush_first flush_immutable
    flush_first-queue db a [] at can c = at
    flush_first-queue db a (q ∷ qs) at can c =
        let id = db.next_sst_id + 1 in
        let expected = if ltb q.mem.length' 1 then 1 else q.mem.length' in
        let (r, made) = can.0 id in
        built-queue (record db { next_sst_id = id }) q id
          (builder.build id expected (snapshot q.mem)) r a made c
        ∙ ap (drop 1) at

    -- As soon as the tables of the queued memtables can be built and the manifest lets them through, as
    -- many attempts as there are queued memtables empty the queue, whether or not the clean-up of the log
    -- works.
    pub drain_pending_flush-eq-nil :
        (answers : List FlushAnswers) (db : Db R)
        → All (CanBuild builder) db.pending_flush
        → All IsCommitted answers
        → length db.pending_flush ≤ length answers
        → (drain_pending_flush builder answers db).pending_flush ≡ []
    unfolding drain_pending_flush drain_round
    drain_pending_flush-eq-nil [] db can c enough = go db.pending_flush enough
      where
        go : (qs : List FlushQueueEntry) → length qs ≤ 0 → qs ≡ []
        go [] h = refl
        go (q ∷ qs) h = absurd (omega arith)
    drain_pending_flush-eq-nil (a ∷ as') db can c enough =
        let next = flush_first-queue db a db.pending_flush refl can c.0 in
        let left : length (drop 1 db.pending_flush) ≡ length db.pending_flush - 1 =
          length-drop 1 db.pending_flush in
        drain_pending_flush-eq-nil as' (drain_round builder a db)
          (subst (All (CanBuild builder)) (sym next)
            (All-drop_one (CanBuild builder) db.pending_flush can))
          c.1 (omega (arith, enough, left, ap (λ (l : List FlushQueueEntry). length l) next))
