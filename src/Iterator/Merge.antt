-- ===== src/Iterator/Merge.antt =====
-- The k-way merge of internal/iterator/merge_core.go, over any implementation of `Iterator`.
pub mod Lists
pub mod Views
pub mod Rounds
pub mod Spec
pub mod Output
use pebble_db.Prelude.{
  ℕ, zero, suc, ◌+◌, ltb, leb, ◌==◌, if◌then◌else◌, ◌&&◌, ◌||◌, Bool, true, false, not, Option,
  none, some, List, [], ◌∷◌, length, Ordering,
}
use pebble_db.Bytes.{Bytes, compare_bytes}
use pebble_db.Bytes.Order.{is_lt, is_eq}
use pebble_db.Iterator.{Iterator, IterError, priority_mismatch}

-- A nil slice compares as an empty one.
abbrev pub as_bytes : Option Bytes → Bytes
as_bytes none = []
as_bytes (some b) = b

abbrev pub is_nil : Option Bytes → Bool
is_nil none = true
is_nil (some _) = false

pub record Source (I : Type 0) : Type 0 where
  pub it : I
  pub priority : ℕ

-- `bestPri`, one higher, so that the -1 it starts from is 0; the other winners' variables.
pub record Winner : Type 0 where
  pub best : ℕ
  pub key : Option Bytes
  pub value : Option Bytes
  pub tombstone : Bool

abbrev pub no_winner : Winner
no_winner = record { best = 0; key = none; value = none; tombstone = false }

-- What a step of the merge returns, beside the sources that it has moved.
pub data Merged (I : Type 0) : Type 0 where
  exhausted : List (Source I) → Merged I
  entry : Winner → List (Source I) → Merged I
  failed : IterError → List (Source I) → Merged I

abbrev pub Callback : Type 0 → Type 0
Callback S = S → Option Bytes → Option Bytes → Bool → S × Option IterError

module _ {I : Type 0} (ops : Iterator I) where
  pub min_loop : Option Bytes → List (Source I) → Option Bytes
  min_loop min_key [] = min_key
  min_loop min_key (s ∷ srcs) =
      min_loop
        (if ops.valid s.it
          then (let k = ops.key s.it in
              if is_nil min_key || is_lt (compare_bytes (as_bytes k) (as_bytes min_key))
              then k
              else min_key)
          else min_key)
        srcs

  pub min_key_across_sources : List (Source I) → Option Bytes
  unfolding min_loop
  min_key_across_sources srcs = min_loop none srcs

  -- The two `continue`s of the loop over the sources.
  pub stands_at : Bytes → Source I → Bool
  stands_at min_key s = ops.valid s.it && is_eq (compare_bytes (as_bytes (ops.key s.it)) min_key)

  pub pick : Bytes → Winner → List (Source I) → Winner
  unfolding stands_at
  pick min_key w [] = w
  pick min_key w (s ∷ srcs) =
      pick min_key
        (if stands_at min_key s && ltb w.best (s.priority + 1)
          then record {
            best = s.priority + 1;
            key = ops.key s.it;
            value = ops.value s.it;
            tombstone = ops.is_tombstone s.it;
          }
          else w)
        srcs

  -- Where `Next` fails, the sources behind this one are not moved.
  after_next :
      Source I
      → I
      → Option IterError
      → List (Source I) × Option IterError
      → List (Source I)
      → List (Source I) × Option IterError
  after_next s it none rest srcs = (record s { it = it } ∷ rest.0, rest.1)
  after_next s it (some e) rest srcs = (record s { it = it } ∷ srcs, some e)

  -- `Next` on each source that stands at the minimum, up to the first that fails.
  pub advance : Bytes → List (Source I) → List (Source I) × Option IterError
  unfolding stands_at after_next
  advance min_key [] = ([], none)
  advance min_key (s ∷ srcs) =
      let rest = advance min_key srcs in
      if stands_at min_key s
      then after_next s (ops.next s.it).0 (ops.next s.it).1 rest srcs
      else (s ∷ rest.0, rest.1)

  -- One turn of `mergeStep`'s loop.
  pub merge_round : List (Source I) → Merged I
  unfolding min_key_across_sources pick advance
  merge_round srcs = elim (min_key_across_sources srcs) [
    | none ↦ exhausted srcs
    | some m ↦ elim (advance m srcs).1 [
      | none ↦ entry (pick m no_winner srcs) (advance m srcs).0
      | some e ↦ failed e (advance m srcs).0
    ]
  ]

  -- The loop goes on past a tombstone that is to be omitted. Each turn that ends in an entry moves a
  -- source, so one turn more than there are entries left is enough; `none` is the fuel running out.
  pub merge_step : ℕ → Bool → List (Source I) → Option (Merged I)
  unfolding merge_round
  merge_step zero omit srcs = none
  merge_step (suc fuel) omit srcs = elim (merge_round srcs) [
    | entry w srcs' ↦
        let again = merge_step fuel omit srcs' in
        if w.tombstone && omit then again else some (entry w srcs')
    | exhausted srcs' ↦ some (exhausted srcs')
    | failed e srcs' ↦ some (failed e srcs')
  ]

  -- The loop of `ForEachMerged`: the callback gets a key, a value and a tombstone flag, works on a
  -- state and may fail. The fuel is one more than there are entries left, as above.
  pub for_each :
      {S : Type 0} → ℕ → Bool → Callback S → List (Source I) → S → Option (S × Option IterError)
  for_each zero omit fn srcs s = none
  for_each (suc fuel) omit fn srcs s = elim (merge_step (suc fuel) omit srcs) [
    | none ↦ none
    | some m ↦ elim m [
      | exhausted srcs' ↦ some (s, none)
      | failed e srcs' ↦ some (s, some e)
      | entry w srcs' ↦
          let (s', err) = fn s w.key w.value w.tombstone in
          elim err [ none ↦ for_each fuel omit fn srcs' s' | some e ↦ some (s', some e) ]
    ]
  ]

  unfoldable pub zip_sources : List I → List ℕ → List (Source I)
  zip_sources (i ∷ its) (p ∷ ps) = record { it = i; priority = p } ∷ zip_sources its ps
  zip_sources _ _ = []

  unfoldable pub for_each_merged :
      {S : Type 0} → ℕ → List I → List ℕ → Bool → Callback S → S → Option (S × Option IterError)
  unfolding for_each
  for_each_merged fuel sources priorities omit fn s =
      if length sources == length priorities
      then for_each fuel omit fn (zip_sources sources priorities) s
      else some (s, some priority_mismatch)
