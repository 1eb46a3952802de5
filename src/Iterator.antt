-- ===== src/Iterator.antt =====
-- internal/iterator/iterator.go: the `Iterator` interface, with what its users rely on.
pub mod Merge
pub mod Cursor
use pebble_db.Prelude.{ℕ, ◌≡◌, Bool, true, false, Option, none, some, List, [], ◌∷◌}
use pebble_db.Bytes.{Bytes, copy_slice}

-- One entry of a sorted run. A value is `none` where the source has a nil slice: for a tombstone,
-- and for the copy of an empty value.
pub record Entry : Type 0 where
  pub key : Bytes
  pub value : Option Bytes
  pub tombstone : Bool

-- The errors of iterators and of the callbacks that they feed.
pub data IterError : Type 0 where
  priority_mismatch : IterError
  io_error : ℕ → IterError
  callback_error : ℕ → IterError

-- `Close` frees what an iterator holds and has no result that the merge looks at.
pub record Iterator (I : Type 0) : Type 0 where
  pub valid : I → Bool
  pub next : I → I × Option IterError
  pub key : I → Option Bytes
  pub value : I → Option Bytes
  pub is_tombstone : I → Bool
  pub seek : I → Bytes → I × Option IterError

abbrev pub is_cons : List Entry → Bool
is_cons [] = false
is_cons (_ ∷ _) = true

-- An iterator without faults walks a list of entries: `rest` is what it has before it.
pub record Walks {I : Type 0} (ops : Iterator I) (rest : I → List Entry) : Type 0 where
  pub valid_iff : (i : I) → ops.valid i ≡ is_cons (rest i)
  pub key_at :
      (i : I) (e : Entry) (es : List Entry) → rest i ≡ e ∷ es → ops.key i ≡ copy_slice e.key
  pub value_at : (i : I) (e : Entry) (es : List Entry) → rest i ≡ e ∷ es → ops.value i ≡ e.value
  pub tombstone_at :
      (i : I) (e : Entry) (es : List Entry) → rest i ≡ e ∷ es → ops.is_tombstone i ≡ e.tombstone
  pub next_ok : (i : I) (e : Entry) (es : List Entry) → rest i ≡ e ∷ es → (ops.next i).1 ≡ none
  pub next_at : (i : I) (e : Entry) (es : List Entry) → rest i ≡ e ∷ es → rest (ops.next i).0 ≡ es
