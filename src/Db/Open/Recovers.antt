-- ===== src/Db/Open/Recovers.antt =====
-- What a database that has been opened again shows.
use mathlib.Core.List.{foldl}
use pebble_db.Prelude.{
  ℕ, ◌<◌, ◌≤◌, ◌≡◌, refl, sym, subst, ap, ◌∙◌, ◌&&◌, ◌==◌, Bool-cases, inl, inr, true, false, none,
  some, List, [], ◌∷◌, ◌++◌, length, take, map, reverse, arith, All, append_assoc, append-nil, ltb,
  if◌then◌else◌,
}
use pebble_db.Bytes.{Bytes}
use pebble_db.Result.{Result, ok}
use pebble_db.Iterator.{Entry}
use pebble_db.Iterator.Merge.Lists.{find}
use pebble_db.Wal.Limits.{with_defaults}
use pebble_db.Wal.Format.{Record}
use pebble_db.Wal.Format.RoundTrip.{wire, Fits}
use pebble_db.Wal.Replay.Prefix.{wires, replay_recovers}
use pebble_db.Memtable.{SkipList, new_skip_list, snapshot, snapshot_nodes}
use pebble_db.Memtable.Order.{IsOrdered}
use pebble_db.Manifest.{Log, AppendAnswer, replay, bootstrap_if_empty, live_ids, is_live}
use pebble_db.Db.{Table, Db}
use pebble_db.Db.Get
use pebble_db.Db.Get.Layers.{
  Holds, batch_entries, queue_entries, table_entries, memory, stored, reply, get-eq-reply,
}
use pebble_db.Db.Batch.{apply_record, apply_batch, next_height, later_heights}
use pebble_db.Db.Batch.Visible.{IsBareRecord, apply_batch-lem}
use pebble_db.Db.WalState.{wal_replay_start_offset}
use pebble_db.Db.Open.{
  Options, Directory, OpenAnswers, load_loop, without_orphans, replay_record, recover_log, handle,
  open_db, log_stat,
}

-- Answers without a fault.
abbrev pub calm : AppendAnswer → List ℕ → OpenAnswers
calm bootstrap heights = record {
  make_dir = none;
  lock = none;
  open_manifest = none;
  read_dir = none;
  bootstrap = bootstrap;
  open_log = none;
  heights = heights;
}

empty-IsOrdered : IsOrdered new_skip_list
empty-IsOrdered = record { sorted = tt; towers = tt; bare = tt; tall = omega arith }

-- What stays is what is there and live.
without_orphans-lem :
    (live ids : List ℕ) (id : ℕ)
    → is_live id (without_orphans live ids) ≡ (is_live id ids && is_live id live)
unfolding without_orphans is_live
without_orphans-lem live [] id = refl
without_orphans-lem live (x ∷ ids) id =
    let ih = without_orphans-lem live ids id in
    elim (Bool-cases (is_live x live)) [
      | inl in_use ↦ rw in_use (elim (Bool-cases (id == x)) [
        | inl same ↦
            let e : id ≡ x = ground (arith, same) in
            let live_too : is_live id live ≡ true =
              subst (λ (n : ℕ). is_live n live ≡ true) (sym e) in_use in
            rw (same, live_too) refl
        | inr other ↦ rw (other, ih) refl
      ])
      | inr orphan ↦
          rw (orphan, ih)
            (elim (Bool-cases (id == x)) [
              | inl same ↦
                  let e : id ≡ x = ground (arith, same) in
                  let dead : is_live id live ≡ false =
                    subst (λ (n : ℕ). is_live n live ≡ false) (sym e) orphan in
                  rw (same, dead)
                    (elim (Bool-cases (is_live id ids)) [ inl h ↦ rw h refl | inr h ↦ rw h refl ])
              | inr other ↦ rw other refl
            ])
    ]

foldl-apply_batch :
    (recs : List Record) (sl : SkipList) (hs : List ℕ)
    → (foldl replay_record (sl, hs) recs).0 ≡ apply_batch sl recs hs
unfolding apply_batch
foldl-apply_batch [] sl hs = refl
foldl-apply_batch (rec ∷ recs) sl hs =
    foldl-apply_batch recs (apply_record sl rec (next_height hs)) (later_heights hs)

module _ {R : Type 0} (open_table : ℕ → Result ℕ R) (table_of : ℕ → R) where
  -- All tables are opened, in the order of their ids, and no id is above the largest.
  load_loop-lem :
      (ids : List ℕ) (readers : List R) (largest : ℕ)
      → All (λ (id : ℕ). open_table id ≡ ok (table_of id)) ids
      → (n : ℕ) × (load_loop open_table ids readers largest ≡ ok (readers ++ map table_of ids, n))
        × (largest ≤ n)
        × All (λ (id : ℕ). id ≤ n) ids
  unfolding load_loop
  load_loop-lem [] readers largest h =
      (largest, ap (λ rs. ok (rs, largest)) (sym (append-nil readers)), omega arith, tt)
  load_loop-lem (id ∷ ids) readers largest h =
      let next = if ltb largest id then id else largest in
      let bounds : (id ≤ next) × (largest ≤ next) = ground arith in
      let (n, e, le, all) = load_loop-lem ids (readers ++ table_of id ∷ []) next h.1 in
      (
        n,
        rw h.0 (
            e ∙ ap (λ rs. ok (rs, n)) (append_assoc readers (table_of id ∷ []) (map table_of ids))),
        omega (arith, le, bounds.1),
        (omega (arith, le, bounds.0), all),
      )

module _ {R : Type 0} (dir : Directory R) (opts : Options) (manifest : Log) (heights : List ℕ)
    (recs : List Record) (rec : Record) (k : ℕ) (pre : Bytes) where
  -- A log of whole records behind the start of the replay, and a torn one.
  pub record LogIs : Type 0 where
    pub log : dir.log ≡ some (pre ++ (wires recs ++ take k (wire rec)))
    pub fits : All (Fits (with_defaults opts.wal_replay_limits)) recs
    pub torn_fits : Fits (with_defaults opts.wal_replay_limits) rec
    pub torn : k < length (wire rec)
    pub defaults :
        with_defaults (with_defaults opts.wal_replay_limits) ≡ with_defaults opts.wal_replay_limits
    pub size :
        length (pre ++ (wires recs ++ take k (wire rec)))
        ≤ (with_defaults opts.wal_replay_limits).max_file_size
    pub starts :
        wal_replay_start_offset dir.flush_file
          (λ id. is_live id manifest.live_set)
          (log_stat (some (pre ++ (wires recs ++ take k (wire rec)))))
        ≡ ok (length pre)

  recover_log-eq :
      LogIs
      → recover_log dir (with_defaults opts.wal_replay_limits) manifest heights
        ≡ ok (apply_batch new_skip_list recs heights, pre ++ wires recs)
  unfolding recover_log
  recover_log-eq h =
      rw
        (
          h.log,
          h.starts,
          replay_recovers replay_record (with_defaults opts.wal_replay_limits) recs rec k pre
              (new_skip_list, heights) h.fits h.torn_fits h.torn h.defaults h.size,
          foldl-apply_batch recs new_skip_list heights,
        )
        refl

  module _ (l : Log) (bootstrap : AppendAnswer) (table_of : ℕ → R) where
    -- A directory whose manifest can be read and whose live tables can be opened.
    pub record TablesAre : Type 0 where
      pub has_dir : opts.has_dir ≡ true
      pub manifest_read : replay dir.manifest ≡ some (ok l)
      pub booted : bootstrap_if_empty l dir.sst_ids bootstrap ≡ (manifest, none)
      pub tables : All (λ (id : ℕ). dir.open_table id ≡ ok (table_of id)) (live_ids manifest)

    -- The handle after such an open, for a largest id.
    abbrev pub reopened_db : ℕ → Db R
    reopened_db n =
        handle opts dir manifest (map table_of (live_ids manifest), n)
          (apply_batch new_skip_list recs heights, pre ++ wires recs)

    open_db-eq :
        TablesAre
        → LogIs
        → (n : ℕ) × (open_db opts dir (calm bootstrap heights)
            ≡ ok (reopened_db n, without_orphans manifest.live_set dir.sst_ids))
          × All (λ (id : ℕ). id ≤ n) (live_ids manifest)
    unfolding open_db
    open_db-eq t h =
        let (n, loads, le, all) =
          load_loop-lem dir.open_table table_of (live_ids manifest) [] 0 t.tables in
        (n, rw (t.has_dir, t.manifest_read, t.booted, loads, recover_log-eq h) refl, all)

    reopened_db-active :
        (n : ℕ) (key : Bytes)
        → All (λ (x : ℕ). 0 < x) heights
        → All IsBareRecord recs
        → IsOrdered (reopened_db n).active
          × (find key (memory (reopened_db n)) ≡ find key (batch_entries (reverse recs)))
    reopened_db-active n key up bare =
        let (ordered, found) =
          apply_batch-lem recs new_skip_list heights key empty-IsOrdered up bare in
        (
          ordered,
          unfold memory batch_entries queue_entries snapshot snapshot_nodes in
              (ap (find key) (append-nil (snapshot (apply_batch new_skip_list recs heights)))
                ∙ found
                ∙ ap (find key) (append-nil (batch_entries (reverse recs)))),
        )

    -- Opening a directory whose log has, from where the replay starts, whole records and then a torn one
    -- succeeds. It cuts the log behind the whole records, leaves of the table files those that the manifest
    -- lists as live, and no other, sets the counter of table ids to no less than any live id, so that no new table
    -- replaces a live one, and every get then answers for the newest of those records of the key, or else
    -- by the live tables in the order of their ids, the last first. The manifest can be read, the live
    -- tables can be opened and their reads do not fail, no call fails, the records fit the limits, and the
    -- limits have their defaults filled in.
    pub open_db-recovers :
        (table : Table R) (content : R → List Entry) (key : Bytes) (id : ℕ)
        → Holds table content
        → TablesAre
        → LogIs
        → All (λ (x : ℕ). 0 < x) heights
        → All IsBareRecord recs
        → (db : Db R) × (kept : List ℕ) × (open_db opts dir (calm bootstrap heights)
            ≡ ok (db, kept))
          × (db.wal.file ≡ pre ++ wires recs)
          × All (λ (id : ℕ). id ≤ db.next_sst_id) (live_ids manifest)
          × (is_live id kept ≡ (is_live id dir.sst_ids && is_live id manifest.live_set))
          × (Get.get table db key
              ≡ reply
                  (find key (batch_entries (reverse recs)))
                  (find key (table_entries content (reverse (map table_of (live_ids manifest))))))
    open_db-recovers table content key id holds t h up bare =
        let (n, opens, largest) = open_db-eq t h in
        let (ordered, found) = reopened_db-active n key up bare in
        (
          reopened_db n,
          without_orphans manifest.live_set dir.sst_ids,
          opens,
          refl,
          largest,
          without_orphans-lem manifest.live_set dir.sst_ids id,
          get-eq-reply table content holds (reopened_db n) key ordered tt
              ∙ ap (λ m. reply m (find key (stored content (reopened_db n)))) found
              ∙ (unfold stored in refl),
        )
