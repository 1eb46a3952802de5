-- ===== src/Db/Compact/Order.antt =====
-- Where a compaction puts the tables that it merges, and what a lookup finds then.
use pebble_db.Prelude.{
  ℕ, suc, ◌+◌, ◌≤◌, ◌<◌, ==-refl, true, false, Option, none, some, List, [], ◌∷◌, ◌++◌, map, length,
  ◌≡◌, refl, sym, ap, ◌∙◌, subst, All, arith, reverse,
}
use mathlib.Core.List.{reverse-append}
use pebble_db.Bytes.{Bytes, copy_slice}
use pebble_db.Iterator.{Entry, Iterator, Walks}
use pebble_db.Iterator.Merge.{as_bytes, zip_sources}
use pebble_db.Iterator.Merge.Lists.{find, IsRun}
use pebble_db.Iterator.Merge.Views.{newest, better, at_priority, total}
use pebble_db.Iterator.Merge.Rounds.{view}
use pebble_db.Iterator.Merge.Spec.{visible}
use pebble_db.Iterator.Merge.Output.{emitted, Ascending, for_each_merged-newest}
use pebble_db.Db.{Table, Db}
use pebble_db.Db.Get.Layers.{table_entries, stored, or_find, find-append}
use pebble_db.Db.Compact.{
  pick_ssts, is_among, readers_still_present, without, live_ids_from_readers, count_from, added,
  add_all, add_result, merge_readers, Meanwhile, publish_tables, commit, compact_picked,
  merged_or_not, do_compaction, MergeResult, merged_to,
}

as_bytes-copy_slice : (b : Bytes) → as_bytes (copy_slice b) ≡ b
unfolding copy_slice
as_bytes-copy_slice [] = refl
as_bytes-copy_slice (x ∷ b) = refl

added-emitted : (e : Entry) → added (emitted e) ≡ e
unfolding added
added-emitted e = ap (λ b. record e { key = b }) (as_bytes-copy_slice e.key)

map-added : (es : List Entry) → map added (map emitted es) ≡ es
map-added [] = refl
map-added (e ∷ es) = cc (added-emitted e, map-added es)

module _ {I R : Type 0} (ops : Iterator I) (rest : I → List Entry) (walks : Walks ops rest)
    (new_iterator : R → I) (content : R → List Entry)
    (opens : (r : R) → rest (new_iterator r) ≡ content r) where
  newest_of_two :
      (f g : Option Entry)
      → visible false (better (at_priority 0 f) (better (at_priority 1 g) none)) ≡ or_find g f
  unfolding better at_priority or_find
  newest_of_two none none = refl
  newest_of_two (some e) none = ground arith
  newest_of_two none (some f) = ground arith
  newest_of_two (some e) (some f) = ground arith

  -- Merging two tables, the older first, keeps for each key the entry of the newer table that has it,
  -- tombstones included, in ascending order of the keys. No key is empty, both tables ascend, and there is
  -- one turn more than there are entries.
  pub merge_readers-two :
      (fuel : ℕ) (older newer : R)
      → IsRun (content older)
      → IsRun (content newer)
      → length (content older) + length (content newer) < fuel
      → (es : List Entry) × (merge_readers ops new_iterator fuel (older ∷ newer ∷ []) true
          ≡ some (es, none))
        × Ascending es
        × ((k : Bytes) → find k es ≡ or_find (find k (content newer)) (find k (content older)))
  unfolding merge_readers count_from add_result add_all view total newest zip_sources
  merge_readers-two fuel older newer run_o run_n enough =
      let (es, run, asc, found) =
        for_each_merged-newest ops rest walks false fuel
          (new_iterator older ∷ new_iterator newer ∷ []) (0 ∷ 1 ∷ []) refl
          (subst IsRun (sym (opens older)) run_o, (subst IsRun (sym (opens newer)) run_n, tt))
          (rw (opens older, opens newer) (omega arith)) in
      (
        es,
        rw run (ap (λ l. some (l, none)) (map-added es)),
        asc,
        λ k.
            found k
            ∙ rw (opens older, opens newer)
                (newest_of_two (find k (content older)) (find k (content newer))),
      )

module _ {R : Type 0} (table : Table R) (content : R → List Entry) where
  -- None of the readers is one of the two.
  abbrev pub Apart : R → R → List R → Type 0
  Apart a b = All (λ (x : R). is_among table x (a ∷ b ∷ []) ≡ false)

  without-Apart : (a b : R) (rs : List R) → Apart a b rs → without table (a ∷ b ∷ []) rs ≡ rs
  unfolding without
  without-Apart a b [] h = refl
  without-Apart a b (r ∷ rs) h = rw (h.0, without-Apart a b rs h.1)

  among_two :
      (a b : R) → (is_among table a (a ∷ b ∷ []) ≡ true) × (is_among table b (a ∷ b ∷ []) ≡ true)
  unfolding is_among
  among_two a b = (rw (==-refl (table.id a)), ground (arith, ==-refl (table.id b)))

  without-two :
      (a b : R) (rs : List R) → Apart a b rs → without table (a ∷ b ∷ []) (a ∷ b ∷ rs) ≡ rs
  without-two a b rs h =
      unfold without in rw ((among_two a b).0, (among_two a b).1) (without-Apart a b rs h)

  present : (a b : R) (rs : List R) → readers_still_present table (a ∷ b ∷ rs) (a ∷ b ∷ []) ≡ true
  unfolding readers_still_present is_among
  present a b rs = ground (arith, ==-refl (table.id a), ==-refl (table.id b))

  -- What a compaction of `older` and `newer` needs to come to its end.
  pub record Compacts (db : Db R) (older newer : R) (others : List R) (w : Meanwhile R)
      : Type 0 where
    pub tables : db.sstables ≡ older ∷ newer ∷ others
    pub due : db.compact_threshold ≤ length db.sstables
    pub apart : Apart older newer (others ++ w.during_merge)
    pub manifest_ok : w.manifest_error ≡ none

  commit-tables :
      (old_ids : List ℕ) (db : Db R) (older newer merged : R) (others : List R) (w : Meanwhile R)
      → db.sstables ≡ older ∷ newer ∷ others
      → Apart older newer others
      → w.manifest_error ≡ none
      → (commit table old_ids db (older ∷ newer ∷ []) merged w).sstables ≡ others ++ merged ∷ []
  unfolding commit publish_tables
  commit-tables old_ids db older newer merged others w at apart fine = simp (
    at,
    fine,
    present older newer others,
    present older newer (others ++ w.during_commit),
    without-two older newer others apart,
  )

  picks :
      (db : Db R) (older newer : R) (others : List R)
      → db.sstables ≡ older ∷ newer ∷ others
      → db.compact_threshold ≤ length db.sstables
      → pick_ssts table db ≡ older ∷ newer ∷ []
  unfolding pick_ssts
  picks db older newer others at due =
      let two : db.compact_threshold ≤ suc (suc (length others)) =
        subst (λ l. db.compact_threshold ≤ length l) at due in
      rw at (ground (arith, two))

  -- After a compaction that comes to its end, the two oldest tables are gone and the merged one
  -- stands last, behind the tables that were there and those that were published during the merge.
  pub do_compaction-tables :
      (merge : ℕ → List R → MergeResult R) (db : Db R) (older newer merged : R) (others : List R)
      (w : Meanwhile R)
      → Compacts db older newer others w
      → merge (db.next_sst_id + 1) (older ∷ newer ∷ []) ≡ merged_to merged
      → (do_compaction table merge db w).sstables ≡ (others ++ w.during_merge) ++ merged ∷ []
  unfolding do_compaction compact_picked merged_or_not publish_tables
  do_compaction-tables merge db older newer merged others w c m =
      let at : db.sstables ≡ older ∷ newer ∷ others = c.tables in
      let there : readers_still_present table db.sstables (older ∷ newer ∷ []) ≡ true =
        subst (λ l. readers_still_present table l (older ∷ newer ∷ []) ≡ true) (sym at)
          (present older newer others) in
      let started : Db R = record db { next_sst_id = db.next_sst_id + 1 } in
      ap (λ p. (compact_picked table merge db p w).sstables) (picks db older newer others at c.due)
      ∙ simp (there, m)
          (commit-tables (live_ids_from_readers table db.sstables)
            (publish_tables table started w.during_merge) older newer merged
            (others ++ w.during_merge) w (ap (λ l. l ++ w.during_merge) at) c.apart c.manifest_ok)

  stored-compacted :
      (merge : ℕ → List R → MergeResult R) (db : Db R) (older newer merged : R) (others : List R)
      (w : Meanwhile R)
      → Compacts db older newer others w
      → merge (db.next_sst_id + 1) (older ∷ newer ∷ []) ≡ merged_to merged
      → stored content (do_compaction table merge db w)
        ≡ content merged ++ table_entries content (reverse (others ++ w.during_merge))
  unfolding stored table_entries
  stored-compacted merge db older newer merged others w c m =
      ap (λ l. table_entries content (reverse l))
        (do_compaction-tables merge db older newer merged others w c m)
      ∙ ap (table_entries content) (reverse-append (others ++ w.during_merge) (merged ∷ []))

  -- The merged table, which holds the oldest entries, is asked first after the compaction: what it
  -- holds of a key hides what the newer tables hold.
  pub do_compaction-find :
      (merge : ℕ → List R → MergeResult R) (db : Db R) (older newer merged : R) (others : List R)
      (w : Meanwhile R) (k : Bytes)
      → Compacts db older newer others w
      → merge (db.next_sst_id + 1) (older ∷ newer ∷ []) ≡ merged_to merged
      → ((j : Bytes)
          → find j (content merged) ≡ or_find (find j (content newer)) (find j (content older)))
      → find k (stored content (do_compaction table merge db w))
        ≡ or_find
            (or_find (find k (content newer)) (find k (content older)))
            (find k (table_entries content (reverse (others ++ w.during_merge))))
  do_compaction-find merge db older newer merged others w k c m merges =
      ap (find k) (stored-compacted merge db older newer merged others w c m)
      ∙ find-append k (content merged) (table_entries content (reverse (others ++ w.during_merge)))
      ∙ ap (λ a. or_find a (find k (table_entries content (reverse (others ++ w.during_merge)))))
          (merges k)
