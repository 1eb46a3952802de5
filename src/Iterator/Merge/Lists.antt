-- ===== src/Iterator/Merge/Lists.antt =====
-- Runs: strictly ascending lists of entries with non-empty keys, looked up by key.
use pebble_db.Prelude.{
  ◌≤◌, ◌≡◌, ◌≢◌, refl, sym, subst, Option, none, some, List, [], ◌∷◌, arith, All, All-map, length,
  if◌then◌else◌, Bool-cases, some-inj, inl, inr,
}
use pebble_db.Bytes.{Bytes, compare_bytes}
use pebble_db.Bytes.Order.{
  ◌≺◌, ◌≼◌, below, same, above, trichotomy, lt_trans, lt_of_lt_of_le, is_eq, is_eq_refl, is_eq-lt,
  is_eq-gt, eq_of_is_eq,
}
use pebble_db.Iterator.{Entry}

unfoldable pub find : Bytes → List Entry → Option Entry
find k [] = none
find k (e ∷ es) = if is_eq (compare_bytes k e.key) then some e else find k es

abbrev pub IsRun : List Entry → Type 0
IsRun [] = Unit
IsRun (e ∷ es) = (e.key ≢ []) × All (λ (x : Entry). e.key ≺ x.key) es × IsRun es

-- The first key of the run is not below `m`.
abbrev pub StartsAt : Bytes → List Entry → Type 0
StartsAt m [] = Unit
StartsAt m (e ∷ es) = m ≼ e.key

-- What is left of a run when the merge has passed the key `m`.
unfoldable pub drop_head : Bytes → List Entry → List Entry
drop_head m [] = []
drop_head m (e ∷ es) = if is_eq (compare_bytes e.key m) then es else e ∷ es

unfoldable pub head_at : Bytes → List Entry → Option Entry
head_at m [] = none
head_at m (e ∷ es) = if is_eq (compare_bytes e.key m) then some e else none

pub find-eq-none_of_above :
    (k : Bytes) (es : List Entry) → All (λ (x : Entry). k ≺ x.key) es → find k es ≡ none
unfolding find
find-eq-none_of_above k [] h = refl
find-eq-none_of_above k (e ∷ es) h = rw (is_eq-lt k e.key h.0) (find-eq-none_of_above k es h.1)

pub above_trans :
    (k m : Bytes) (es : List Entry)
    → k ≺ m
    → All (λ (x : Entry). m ≺ x.key) es
    → All (λ (x : Entry). k ≺ x.key) es
above_trans k m es h all =
    All-map (λ (x : Entry). m ≺ x.key) (λ (x : Entry). k ≺ x.key) es (λ x p. lt_trans k m x.key h p)
      all

pub above_head :
    (k : Bytes) (e : Entry) (es : List Entry)
    → IsRun (e ∷ es)
    → k ≺ e.key
    → All (λ (x : Entry). k ≺ x.key) (e ∷ es)
above_head k e es run h = (h, above_trans k e.key es h run.1)

-- Every key of a run that starts at `m` is above what is below `m`.
pub above_start :
    (k m : Bytes) (es : List Entry)
    → IsRun es
    → StartsAt m es
    → k ≺ m
    → All (λ (x : Entry). k ≺ x.key) es
above_start k m [] run s h = tt
above_start k m (e ∷ es) run s h = above_head k e es run (lt_of_lt_of_le k m e.key h s)

pub find-eq-head_at :
    (m : Bytes) (es : List Entry) → IsRun es → StartsAt m es → find m es ≡ head_at m es
unfolding find head_at
find-eq-head_at m [] run s = refl
find-eq-head_at m (e ∷ es) run s = elim (trichotomy m e.key) [
  | below p ↦
      rw (is_eq-lt m e.key p, is_eq-gt e.key m p)
        (find-eq-none_of_above m es (above_trans m e.key es p run.1))
  | same p ↦ rw (← p, is_eq_refl m)
  | above p ↦ absurd (s p)
]

pub drop_head-IsRun : (m : Bytes) (es : List Entry) → IsRun es → IsRun (drop_head m es)
unfolding drop_head
drop_head-IsRun m [] run = tt
drop_head-IsRun m (e ∷ es) run = elim (Bool-cases (is_eq (compare_bytes e.key m))) [
  | inl p ↦ rw p run.2
  | inr p ↦ rw p run
]

-- Behind the key `m` nothing changes.
pub find-drop_head : (k m : Bytes) (es : List Entry) → m ≺ k → find k (drop_head m es) ≡ find k es
unfolding find drop_head
find-drop_head k m [] h = refl
find-drop_head k m (e ∷ es) h = elim (Bool-cases (is_eq (compare_bytes e.key m))) [
  | inl p ↦
      let at : e.key ≡ m = eq_of_is_eq e.key m p in
      rw (p, is_eq-gt k e.key (subst (λ x. x ≺ k) (sym at) h))
  | inr p ↦ rw p
]

-- And all keys that are left are behind it.
pub drop_head-above :
    (m : Bytes) (es : List Entry)
    → IsRun es
    → StartsAt m es
    → All (λ (x : Entry). m ≺ x.key) (drop_head m es)
unfolding drop_head
drop_head-above m [] run s = tt
drop_head-above m (e ∷ es) run s = elim (trichotomy e.key m) [
  | below p ↦ absurd (s p)
  | same p ↦ rw (p, is_eq_refl m) (subst (λ y. All (λ (x : Entry). y ≺ x.key) es) p run.1)
  | above p ↦ rw (is_eq-gt e.key m p) (above_head m e es run p)
]

pub length-drop_head : (m : Bytes) (es : List Entry) → length (drop_head m es) ≤ length es
unfolding drop_head
length-drop_head m [] = omega arith
length-drop_head m (e ∷ es) = ground arith

pub find-key : (k : Bytes) (es : List Entry) (e : Entry) → find k es ≡ some e → e.key ≡ k
unfolding find
find-key k [] e h = cc
find-key k (x ∷ es) e h = elim (Bool-cases (is_eq (compare_bytes k x.key))) [
  | inl p ↦
      let same : x ≡ e = some-inj (rw p at h) in
      subst (λ (y : Entry). y.key ≡ k) same (sym (eq_of_is_eq k x.key p))
  | inr p ↦ find-key k es e (rw p at h)
]
