-- ===== src/Sstable/Groups.antt =====
-- The entries of a table in the groups that its blocks hold, and the index of such blocks.
use pebble_db.Prelude.{
  ℕ, ◌+◌, ◌%◌, ◌^◌, ◌≡◌, ◌≢◌, refl, sym, ap, ◌∙◌, none, List, [], ◌∷◌, ◌++◌, length, arith, All,
  All-append_left, append_assoc, append-nil, length-append,
}
use pebble_db.Bytes.{Bytes}
use pebble_db.Bytes.Order.{◌≺◌, is_eq-gt, lt_trans}
use pebble_db.Iterator.{Entry}
use pebble_db.Iterator.Merge.Lists.{find}
use pebble_db.Iterator.Merge.Output.{Ascending}
use pebble_db.Sstable.Index.{IndexEntry}
use pebble_db.Sstable.Reader.Lookup.{block_bytes, block_bytes-append}

unfoldable pub flat : List (List Entry) → List Entry
flat [] = []
flat (g ∷ gs) = g ++ flat gs

unfoldable pub last_of : List Entry → Bytes
last_of [] = []
last_of (e ∷ []) = e.key
last_of (e ∷ x ∷ es) = last_of (x ∷ es)

abbrev pub group_entry : ℕ → List Entry → IndexEntry
group_entry start g = record {
  last_key = last_of g;
  offset = start % 2 ^ 64;
  length' = length (block_bytes g);
}

-- The index of blocks that stand one behind another from an offset on.
unfoldable pub index_of : ℕ → List (List Entry) → List IndexEntry
index_of start [] = []
index_of start (g ∷ gs) = group_entry start g ∷ index_of (start + length (block_bytes g)) gs

abbrev pub AllFilled : List (List Entry) → Type 0
AllFilled = All (λ (g : List Entry). g ≢ [])

pub flat-snoc : (gs : List (List Entry)) (g : List Entry) → flat (gs ++ g ∷ []) ≡ flat gs ++ g
unfolding flat
flat-snoc [] g = append-nil g
flat-snoc (h ∷ gs) g = ap (λ t. h ++ t) (flat-snoc gs g) ∙ sym (append_assoc h (flat gs) g)

pub index_of-snoc :
    (start : ℕ) (gs : List (List Entry)) (g : List Entry)
    → index_of start (gs ++ g ∷ [])
      ≡ index_of start gs ++ group_entry (start + length (block_bytes (flat gs))) g ∷ []
unfolding index_of flat
index_of-snoc start [] g =
    ap (λ n. group_entry n g ∷ [])
      (let e : start ≡ start + length (block_bytes []) = unfold block_bytes in omega arith in e)
index_of-snoc start (h ∷ gs) g =
    ap (λ t. group_entry start h ∷ t)
      (index_of-snoc (start + length (block_bytes h)) gs g
        ∙ ap (λ n. index_of (start + length (block_bytes h)) gs ++ group_entry n g ∷ [])
            (let size : length (block_bytes (h ++ flat gs))
                  ≡ length (block_bytes h) + length (block_bytes (flat gs)) =
                ap (λ (b : Bytes). length b) (block_bytes-append h (flat gs))
                ∙ length-append (block_bytes h) (block_bytes (flat gs)) in
              omega (arith, size)))

-- What holds of every key holds of the last one.
pub last_of-holds :
    (Q : Bytes → Type 0) (g : List Entry) → g ≢ [] → All (λ (e : Entry). Q e.key) g → Q (last_of g)
unfolding last_of
last_of-holds Q [] filled h = absurd (filled refl)
last_of-holds Q (e ∷ []) filled h = h.0
last_of-holds Q (e ∷ x ∷ es) filled h = last_of-holds Q (x ∷ es) (λ p. cc p) h.1

-- The last key of a first part is below every key of the second.
pub last_of-below :
    (a b : List Entry) → a ≢ [] → Ascending (a ++ b) → All (λ (e : Entry). last_of a ≺ e.key) b
unfolding last_of
last_of-below [] b filled asc = absurd (filled refl)
last_of-below (e ∷ []) b filled asc = asc.0
last_of-below (e ∷ x ∷ es) b filled asc = last_of-below (x ∷ es) b (λ p. cc p) asc.1

pub Ascending-left : (a b : List Entry) → Ascending (a ++ b) → Ascending a
Ascending-left [] b asc = tt
Ascending-left (e ∷ a) b asc =
    (All-append_left (λ (x : Entry). e.key ≺ x.key) a b asc.0, Ascending-left a b asc.1)

pub Ascending-right : (a b : List Entry) → Ascending (a ++ b) → Ascending b
Ascending-right [] b asc = asc
Ascending-right (e ∷ a) b asc = Ascending-right a b asc.1

-- A key above the last one is not found.
pub find_beyond : (key : Bytes) (g : List Entry) → Ascending g → last_of g ≺ key → find key g ≡ none
unfolding find last_of
find_beyond key [] asc h = refl
find_beyond key (e ∷ []) asc h = rw (is_eq-gt key e.key h)
find_beyond key (e ∷ x ∷ es) asc h =
    let low =
      lt_trans e.key (last_of (x ∷ es)) key
        (last_of-holds (λ k. e.key ≺ k) (x ∷ es) (λ p. cc p) asc.0) h in
    rw (is_eq-gt key e.key low) (find_beyond key (x ∷ es) asc.1 h)
