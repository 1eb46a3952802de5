-- ===== src/Iterator/Cursor.antt =====
-- `MergeIterator` of internal/iterator/merge.go: the merge as an iterator that hides tombstones.
use pebble_db.Prelude.{
  ℕ, ◌==◌, if◌then◌else◌, Bool, true, false, Option, none, some, List, [], ◌∷◌, length, ◌&&◌,
}
use pebble_db.Bytes.{Bytes}
use pebble_db.Result.{Result, ok, err}
use pebble_db.Iterator.{Iterator, IterError, priority_mismatch}
use pebble_db.Iterator.Merge.{
  Source, Merged, exhausted, entry, failed, merge_step, zip_sources, as_bytes,
}

pub record MergeIterator (I : Type 0) : Type 0 where
  pub sources : List (Source I)
  pub key : Option Bytes
  pub value : Option Bytes
  pub valid : Bool
  pub fault : Option IterError

-- `append(old[:0], new...)`, which is nil where both are.
refilled : Option Bytes → Bytes → Option Bytes
refilled none [] = none
refilled none (x ∷ b) = some (x ∷ b)
refilled (some old) b = some b

-- A nil value stays nil.
refilled_value : Option Bytes → Option Bytes → Option Bytes
unfolding refilled
refilled_value old none = none
refilled_value old (some b) = refilled old b

module _ {I : Type 0} (ops : Iterator I) where
  pub new_merge_iterator : List I → List ℕ → Result IterError (MergeIterator I)
  new_merge_iterator its priorities =
      if length its == length priorities
      then ok (record {
        sources = zip_sources ops its priorities;
        key = none;
        value = none;
        valid = false;
        fault = none;
      })
      else err priority_mismatch

  -- What `advance` does with the result of the step.
  stepped : MergeIterator I → Merged I → MergeIterator I × Option IterError
  unfolding refilled refilled_value
  stepped m (failed e srcs) = (record m { sources = srcs; fault = some e; valid = false }, some e)
  stepped m (exhausted srcs) =
      (record m { sources = srcs; valid = false; key = none; value = none }, m.fault)
  stepped m (entry w srcs) = (
    record m {
      sources = srcs;
      key = refilled m.key (as_bytes w.key);
      value = refilled_value m.value w.value;
      valid = true;
    },
    none,
  )

  -- The fuel is that of the step; `none` is the fuel running out.
  pub cursor_advance : ℕ → MergeIterator I → Option (MergeIterator I × Option IterError)
  unfolding stepped
  cursor_advance fuel m = elim (merge_step ops fuel true m.sources) [
    | none ↦ none
    | some r ↦ some (stepped m r)
  ]

  pub cursor_next : ℕ → MergeIterator I → Option (MergeIterator I × Option IterError)
  unfolding cursor_advance
  cursor_next fuel m = elim m.fault [ some e ↦ some (m, some e) | none ↦ cursor_advance fuel m ]

  pub cursor_valid : MergeIterator I → Bool
  cursor_valid m = m.valid && (elim m.fault [ none ↦ true | some e ↦ false ])

  after_seek :
      Source I
      → I × Option IterError
      → List (Source I)
      → List (Source I) × Option IterError
      → List (Source I) × Option IterError
  after_seek s (it, none) srcs rest = (record s { it = it } ∷ rest.0, rest.1)
  after_seek s (it, some e) srcs rest = (record s { it = it } ∷ srcs, some e)

  -- `Seek` on each source, up to the first that fails.
  pub seek_sources : Bytes → List (Source I) → List (Source I) × Option IterError
  unfolding after_seek
  seek_sources target [] = ([], none)
  seek_sources target (s ∷ srcs) =
      after_seek s (ops.seek s.it target) srcs (seek_sources target srcs)

  sought :
      ℕ
      → MergeIterator I
      → List (Source I) × Option IterError
      → Option (MergeIterator I × Option IterError)
  unfolding cursor_advance
  sought fuel m (srcs, some e) =
      some (record m { sources = srcs; fault = some e; valid = false }, some e)
  sought fuel m (srcs, none) = cursor_advance fuel (record m { sources = srcs; fault = none })

  pub cursor_seek : ℕ → MergeIterator I → Bytes → Option (MergeIterator I × Option IterError)
  unfolding seek_sources sought
  cursor_seek fuel m target = sought fuel m (seek_sources target m.sources)
