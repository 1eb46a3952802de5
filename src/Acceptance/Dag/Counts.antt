-- ===== src/Acceptance/Dag/Counts.antt =====
-- The counts that the algorithm keeps are those of the dependencies that are still to run.
use pebble_db.Prelude.{
  ℕ, suc, ◌+◌, ◌-◌, ◌≤◌, ◌≡◌, refl, sym, ap, subst, ltb, ◌==◌, if◌then◌else◌, true, false,
  Bool-cases, inl, inr, List, [], ◌∷◌, ◌++◌, length, arith, All,
}
use pebble_db.Bytes.{Bytes}
use pebble_db.Bytes.Order.{eq_of_is_eq}
use pebble_db.Acceptance.Dag.{
  Edge, same_name, has_name, successors, indegree_of, lowered, release, insert_ranked, sort_loop,
}

-- How many dependencies of a module are not among `done`.
unfoldable pub missing_deps : List Bytes → List Edge → Bytes → ℕ
missing_deps done [] name = 0
missing_deps done (e ∷ es) name =
    let others = missing_deps done es name in
    if same_name name e.node then (if has_name done e.dep then others else suc others) else others

-- How many edges start at a module that is not among `done`.
unfoldable pub open_edges : List Bytes → List Edge → ℕ
open_edges done [] = 0
open_edges done (e ∷ es) =
    let others = open_edges done es in if has_name done e.dep then others else suc others

unfoldable pub occurrences : Bytes → List Bytes → ℕ
occurrences name [] = 0
occurrences name (x ∷ xs) =
    let others = occurrences name xs in if same_name name x then suc others else others

pub missing_deps-nil :
    (es : List Edge) (name : Bytes) → missing_deps [] es name ≡ indegree_of es name
unfolding missing_deps indegree_of has_name
missing_deps-nil [] name = refl
missing_deps-nil (e ∷ es) name =
    ap (λ n. if same_name name e.node then suc n else n) (missing_deps-nil es name)

pub open_edges-nil : (es : List Edge) → open_edges [] es ≡ length es
unfolding open_edges has_name
open_edges-nil [] = refl
open_edges-nil (e ∷ es) = ap suc (open_edges-nil es)

has_name-snoc :
    (done : List Bytes) (name x : Bytes)
    → has_name (done ++ name ∷ []) x ≡ (if same_name x name then true else has_name done x)
unfolding has_name
has_name-snoc [] name x = refl
has_name-snoc (y ∷ done) name x =
    let ih = has_name-snoc done name x in
    elim (Bool-cases (same_name x y)) [
      | inl here ↦ rw here (elim (Bool-cases (same_name x name)) [ inl h ↦ rw h | inr h ↦ rw h ])
      | inr other ↦ rw other ih
    ]

-- A name that was not done before is not done by an edge of another module.
not_done :
    (done : List Bytes) (name dep : Bytes)
    → has_name done name ≡ false
    → same_name dep name ≡ true
    → has_name done dep ≡ false
not_done done name dep h same =
    subst (λ x. has_name done x ≡ false) (sym (eq_of_is_eq dep name same)) h

-- One module more among those that are done: the edges from it no longer count.
pub missing_deps-snoc :
    (es : List Edge) (done : List Bytes) (name m : Bytes)
    → has_name done name ≡ false
    → missing_deps (done ++ name ∷ []) es m + occurrences m (successors es name)
      ≡ missing_deps done es m
unfolding missing_deps occurrences successors
missing_deps-snoc [] done name m h = omega arith
missing_deps-snoc (e ∷ es) done name m h =
    let ih = missing_deps-snoc es done name m h in
    elim (Bool-cases (same_name e.dep name)) [
      | inr other ↦ rw (has_name-snoc done name e.dep, other) (ground (arith, ih))
      | inl here ↦
          rw (has_name-snoc done name e.dep, here, not_done done name e.dep h here)
            (ground (arith, ih))
    ]

pub open_edges-snoc :
    (es : List Edge) (done : List Bytes) (name : Bytes)
    → has_name done name ≡ false
    → open_edges (done ++ name ∷ []) es + length (successors es name) ≡ open_edges done es
unfolding open_edges successors
open_edges-snoc [] done name h = omega arith
open_edges-snoc (e ∷ es) done name h =
    let ih = open_edges-snoc es done name h in
    elim (Bool-cases (same_name e.dep name)) [
      | inr other ↦ rw (has_name-snoc done name e.dep, other) (ground (arith, ih))
      | inl here ↦
          rw (has_name-snoc done name e.dep, here, not_done done name e.dep h here)
            (ground (arith, ih))
    ]

pub release-counts :
    (succs : List Bytes) (f : Bytes → ℕ) (m : Bytes)
    → (release f succs).0 m ≡ f m - occurrences m succs
unfolding release occurrences
release-counts [] f m = omega arith
release-counts (x ∷ xs) f m = let ih = release-counts xs (lowered f x) m in ground (arith, ih)

-- Whatever is freed has no dependency left.
pub release-freed :
    (succs : List Bytes) (f : Bytes → ℕ)
    → All (λ (n : Bytes). (release f succs).0 n ≡ 0) (release f succs).1
unfolding release
release-freed [] f = tt
release-freed (x ∷ xs) f =
    let next = lowered f x in
    let ih = release-freed xs next in
    let count = release-counts xs next x in
    elim (Bool-cases (next x == 0)) [
      | inl none_left ↦
          let z : next x ≡ 0 = ground (arith, none_left) in
          rw none_left (omega (arith, count, z), ih)
      | inr some_left ↦ rw some_left ih
    ]

pub release-length :
    (succs : List Bytes) (f : Bytes → ℕ) → length (release f succs).1 ≤ length succs
unfolding release
release-length [] f = omega arith
release-length (x ∷ xs) f =
    let ih = release-length xs (lowered f x) in
    elim (Bool-cases (lowered f x x == 0)) [
      | inl h ↦ rw h (omega (arith, ih))
      | inr h ↦ rw h (omega (arith, ih))
    ]

module _ (rank : Bytes → ℕ) (P : Bytes → Type 0) where
  insert_ranked-All :
      (name : Bytes) (xs : List Bytes) → P name → All P xs → All P (insert_ranked rank name xs)
  unfolding insert_ranked
  insert_ranked-All name [] p h = (p, tt)
  insert_ranked-All name (x ∷ xs) p h = elim (Bool-cases (ltb (rank name) (rank x))) [
    | inl lt ↦ rw lt (p, h)
    | inr ge ↦ rw ge (h.0, insert_ranked-All name xs p h.1)
  ]

  pub sort_loop-All :
      (sorted xs : List Bytes) → All P sorted → All P xs → All P (sort_loop rank sorted xs)
  unfolding sort_loop
  sort_loop-All sorted [] hs h = hs
  sort_loop-All sorted (x ∷ xs) hs h =
      sort_loop-All (insert_ranked rank x sorted) xs (insert_ranked-All x sorted h.0 hs) h.1

insert_ranked-length :
    (rank : Bytes → ℕ) (name : Bytes) (xs : List Bytes)
    → length (insert_ranked rank name xs) ≡ suc (length xs)
unfolding insert_ranked
insert_ranked-length rank name [] = refl
insert_ranked-length rank name (x ∷ xs) = elim (Bool-cases (ltb (rank name) (rank x))) [
  | inl lt ↦ rw lt refl
  | inr ge ↦ rw ge (ap suc (insert_ranked-length rank name xs))
]

pub sort_loop-length :
    (rank : Bytes → ℕ) (sorted xs : List Bytes)
    → length (sort_loop rank sorted xs) ≡ length sorted + length xs
unfolding sort_loop
sort_loop-length rank sorted [] = omega arith
sort_loop-length rank sorted (x ∷ xs) = omega (
  arith,
  sort_loop-length rank (insert_ranked rank x sorted) xs,
  insert_ranked-length rank x sorted,
)
