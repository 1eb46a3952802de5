-- ===== src/Db/Scan/Walks.antt =====
-- The snapshot's iterator walks its entries, as the merge relies on, and seeks by key.
use pebble_db.Prelude.{
  ℕ, zero, suc, ◌+◌, ◌<◌, ◌≡◌, refl, ap, ◌∙◌, ltb, if◌then◌else◌, true, none, List, [], ◌∷◌, length,
  drop, arith, lt→ltb,
}
use mathlib.Core.List.{head-eq_of_cons-eq, tail-eq_of_cons-eq}
use pebble_db.Bytes.{copy_slice}
use pebble_db.Iterator.{Entry, is_cons, Walks}
use pebble_db.Db.Scan.{
  SnapshotMemIter, valid, first_key, first_value, first_is_tombstone, key, value, is_tombstone,
  next, snapshot_ops,
}

-- A tombstone's value is not shown.
abbrev pub bared : Entry → Entry
bared e = record e { value = if e.tombstone then none else e.value }

unfoldable pub bare_all : List Entry → List Entry
bare_all [] = []
bare_all (e ∷ es) = bared e ∷ bare_all es

unfoldable pub rest_of : SnapshotMemIter → List Entry
unfolding bare_all
rest_of s = bare_all (drop s.idx s.entries)

valid-bare : (n : ℕ) (es : List Entry) → ltb n (length es) ≡ is_cons (bare_all (drop n es))
unfolding bare_all
valid-bare zero [] = refl
valid-bare zero (e ∷ es) = ground arith
valid-bare (suc n) [] = ground arith
valid-bare (suc n) (e ∷ es) =
    (let z : ltb (suc n) (suc (length es)) ≡ ltb n (length es) = ground arith in z)
    ∙ valid-bare n es

-- What the first entry shows.
shows :
    (l : List Entry) (e : Entry) (es : List Entry)
    → bare_all l ≡ e ∷ es
    → (first_key l ≡ copy_slice e.key)
      × (first_value l ≡ e.value)
      × (first_is_tombstone l ≡ e.tombstone)
unfolding bare_all first_key first_value first_is_tombstone
shows [] e es h = cc
shows (x ∷ l) e es h =
    let head : bared x ≡ e = head-eq_of_cons-eq h in
    (
      ap (λ (y : Entry). copy_slice y.key) head,
      ap (λ (y : Entry). y.value) head,
      ap (λ (y : Entry). y.tombstone) head,
    )

bare_all-drop_tail :
    (n : ℕ) (l : List Entry) (e : Entry) (es : List Entry)
    → bare_all (drop n l) ≡ e ∷ es
    → (n < length l) × (bare_all (drop (n + 1) l) ≡ es)
unfolding bare_all
bare_all-drop_tail zero [] e es h = cc
bare_all-drop_tail zero (x ∷ l) e es h = (omega arith, tail-eq_of_cons-eq h)
bare_all-drop_tail (suc n) [] e es h = cc
bare_all-drop_tail (suc n) (x ∷ l) e es h =
    let (lt, rest) = bare_all-drop_tail n l e es h in
    (
      omega (arith, lt),
      ap (λ k. bare_all (drop k (x ∷ l))) (let z : suc n + 1 ≡ suc (n + 1) = omega arith in z)
          ∙ rest,
    )

next-rest :
    (s : SnapshotMemIter) (e : Entry) (es : List Entry)
    → rest_of s ≡ e ∷ es
    → rest_of (next s).0 ≡ es
unfolding rest_of next
next-rest s e es h =
    let (lt, rest) = bare_all-drop_tail s.idx s.entries e es h in
    let inside : ltb s.idx (length s.entries) ≡ true = lt→ltb s.idx (length s.entries) lt in
    rw inside rest

-- The iterator over a snapshot walks the snapshot's entries, a tombstone's without its value: what
-- the merge relies on in a source.
pub snapshot_ops-Walks : Walks snapshot_ops rest_of
snapshot_ops-Walks =
    unfold valid key value is_tombstone next rest_of in
    record {
      valid_iff = λ s. valid-bare s.idx s.entries;
      key_at = λ s e es h. (shows (drop s.idx s.entries) e es h).0;
      value_at = λ s e es h. (shows (drop s.idx s.entries) e es h).1;
      tombstone_at = λ s e es h. (shows (drop s.idx s.entries) e es h).2;
      next_ok = λ s e es h. refl;
      next_at = λ s e es h. next-rest s e es h;
    }
