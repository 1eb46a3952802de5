-- ===== src/Sstable/Indexed.antt =====
-- The search in the index of a table leads to the one block that can have the key.
use pebble_db.Prelude.{
  ℕ, zero, suc, ◌+◌, ◌<◌, ◌≤◌, ◌≡◌, refl, Bool, true, false, List, [], ◌∷◌, length, drop, arith,
  All, All-append_left, All-append_right, if◌then◌else◌, Bool-cases, inl, inr,
}
use pebble_db.Bytes.{Bytes}
use pebble_db.Bytes.Order.{◌≺◌, ◌≼◌, lt_irrefl, le_trans, le_of_lt}
use pebble_db.Iterator.{Entry}
use pebble_db.Iterator.Merge.Output.{Ascending}
use pebble_db.Sstable.Index.{IndexEntry}
use pebble_db.Sstable.Search.{IsMonotone, IsFirst, sort_search, sort_search-IsFirst}
use pebble_db.Sstable.Reader.{reaches, at, search_index}
use pebble_db.Sstable.Reader.Lookup.{block_bytes}
use pebble_db.Sstable.Groups.{
  flat, last_of, index_of, AllFilled, last_of-holds, last_of-below, Ascending-right,
}

abbrev Rising : List IndexEntry → Type 0
Rising [] = Unit
Rising (e ∷ es) = All (λ (x : IndexEntry). e.last_key ≺ x.last_key) es × Rising es

index_of-All :
    (Q : Bytes → Type 0) (start : ℕ) (gs : List (List Entry))
    → AllFilled gs
    → All (λ (e : Entry). Q e.key) (flat gs)
    → All (λ (x : IndexEntry). Q x.last_key) (index_of start gs)
unfolding index_of flat
index_of-All Q start [] filled h = tt
index_of-All Q start (g ∷ gs) filled h = (
  last_of-holds Q g filled.0 (All-append_left (λ (e : Entry). Q e.key) g (flat gs) h),
  index_of-All Q (start + length (block_bytes g)) gs filled.1
      (All-append_right (λ (e : Entry). Q e.key) g (flat gs) h),
)

index_of-Rising :
    (start : ℕ) (gs : List (List Entry))
    → AllFilled gs
    → Ascending (flat gs)
    → Rising (index_of start gs)
unfolding index_of flat
index_of-Rising start [] filled asc = tt
index_of-Rising start (g ∷ gs) filled asc = (
  index_of-All (λ k. last_of g ≺ k) (start + length (block_bytes g)) gs filled.1
      (last_of-below g (flat gs) filled.0 asc),
  index_of-Rising (start + length (block_bytes g)) gs filled.1 (Ascending-right g (flat gs) asc),
)

at-All :
    (P : IndexEntry → Type 0) (index : List IndexEntry) (i : ℕ)
    → i < length index
    → All P index
    → P (at index i)
at-All P [] i h all = absurd (omega arith)
at-All P (e ∷ es) zero h all = all.0
at-All P (e ∷ es) (suc i) h all = at-All P es i (omega arith) all.1

Rising-at :
    (index : List IndexEntry) (i j : ℕ)
    → Rising index
    → i ≤ j
    → j < length index
    → (at index i).last_key ≼ (at index j).last_key
Rising-at [] i j rising le inside = absurd (omega arith)
Rising-at (e ∷ es) zero zero rising le inside = lt_irrefl e.last_key
Rising-at (e ∷ es) zero (suc j) rising le inside =
    le_of_lt e.last_key (at es j).last_key
      (at-All (λ (x : IndexEntry). e.last_key ≺ x.last_key) es j (omega arith) rising.0)
Rising-at (e ∷ es) (suc i) zero rising le inside = absurd (omega arith)
Rising-at (e ∷ es) (suc i) (suc j) rising le inside =
    Rising-at es i j rising.1 (omega arith) (omega arith)

pub le_of_reaches : (key : Bytes) (e : IndexEntry) → reaches key e ≡ true → key ≼ e.last_key
le_of_reaches key e h lt = cc (rw lt at h)

pub lt_of_reaches : (key : Bytes) (e : IndexEntry) → reaches key e ≡ false → e.last_key ≺ key
lt_of_reaches key e h = ground (arith, h)

reaches_of_le : (key : Bytes) (e : IndexEntry) → key ≼ e.last_key → reaches key e ≡ true
reaches_of_le key e h = elim (Bool-cases (reaches key e)) [
  | inl t ↦ t
  | inr f ↦ absurd (h (lt_of_reaches key e f))
]

reaches-IsMonotone :
    (key : Bytes) (index : List IndexEntry)
    → Rising index
    → IsMonotone (λ i. reaches key (at index i)) (length index)
reaches-IsMonotone key index rising i j le inside h = reaches_of_le key (at index j) (
    le_trans key (at index i).last_key (at index j).last_key (le_of_reaches key (at index i) h)
      (Rising-at index i j rising le inside))

-- The entries from the first that reaches the key on, by a plain walk.
unfoldable pub from_first : Bytes → List IndexEntry → List IndexEntry
from_first key [] = []
from_first key (e ∷ es) = if reaches key e then e ∷ es else from_first key es

drop-first :
    (key : Bytes) (index : List IndexEntry) (p : ℕ)
    → IsFirst (λ i. reaches key (at index i)) (length index) p
    → drop p index ≡ from_first key index
unfolding from_first
drop-first key [] zero f = refl
drop-first key [] (suc p) f = refl
drop-first key (e ∷ es) zero f = rw (f.holds (omega arith))
drop-first key (e ∷ es) (suc p) f = rw (f.before 0 (omega arith)) (
    drop-first key es p (record {
      within = let le = f.within in omega arith;
      before = λ i lt. f.before (suc i) (omega (arith, lt));
      holds = λ lt. f.holds (omega (arith, lt));
    }))

-- On the index of a table whose keys ascend, the binary search ends where a linear one would.
pub search_index-eq :
    (start : ℕ) (gs : List (List Entry)) (key : Bytes)
    → AllFilled gs
    → Ascending (flat gs)
    → drop (search_index (index_of start gs) key) (index_of start gs)
      ≡ from_first key (index_of start gs)
unfolding search_index
search_index-eq start gs key filled asc =
    let index = index_of start gs in
    let f : ℕ → Bool = λ i. reaches key (at index i) in
    drop-first key index (sort_search (length index) f) (
      sort_search-IsFirst f (length index)
        (reaches-IsMonotone key index (index_of-Rising start gs filled asc)))
