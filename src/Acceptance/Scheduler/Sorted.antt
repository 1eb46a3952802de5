-- ===== src/Acceptance/Scheduler/Sorted.antt =====
-- The order of a campaign: every scenario once, by priority.
use mathlib.Core.List.{Perm}
use mathlib.Core.List.Perm
use pebble_db.Prelude.{
  ltb, ◌≤◌, ◌≡◌, ◌==◌, true, false, Bool-cases, inl, inr, List, [], ◌∷◌, arith, All, All-map,
}
use pebble_db.Acceptance.Scheduler.{Scenario, resolve_dependencies, comes_before, insert_scenario}

-- Scenarios in the order of their priorities.
abbrev pub ByPriority : List Scenario → Type 0
ByPriority [] = Unit
ByPriority (s ∷ ss) = All (λ (x : Scenario). s.priority ≤ x.priority) ss × ByPriority ss

All-insert_scenario :
    (P : Scenario → Type 0) (s : Scenario) (ss : List Scenario)
    → P s
    → All P ss
    → All P (insert_scenario s ss)
unfolding insert_scenario
All-insert_scenario P s [] h hs = (h, tt)
All-insert_scenario P s (x ∷ xs) h hs = elim (Bool-cases (comes_before x s)) [
  | inl first ↦ rw first (hs.0, All-insert_scenario P s xs h hs.1)
  | inr later ↦ rw later (h, hs)
]

first_priority : (a b : Scenario) → comes_before a b ≡ true → a.priority ≤ b.priority
first_priority a b h = elim (Bool-cases (a.priority == b.priority)) [
  | inl same ↦ ground (arith, same)
  | inr other ↦ let less : ltb a.priority b.priority ≡ true = rw other at h in ground (arith, less)
]

later_priority : (a b : Scenario) → comes_before a b ≡ false → b.priority ≤ a.priority
later_priority a b h = elim (Bool-cases (a.priority == b.priority)) [
  | inl same ↦ ground (arith, same)
  | inr other ↦ let less : ltb a.priority b.priority ≡ false = rw other at h in ground (arith, less)
]

insert_scenario-ByPriority :
    (s : Scenario) (ss : List Scenario) → ByPriority ss → ByPriority (insert_scenario s ss)
unfolding insert_scenario
insert_scenario-ByPriority s [] h = (tt, tt)
insert_scenario-ByPriority s (x ∷ xs) h = elim (Bool-cases (comes_before x s)) [
  | inl first ↦ rw first (
    All-insert_scenario (λ (y : Scenario). x.priority ≤ y.priority) s xs (first_priority x s first)
        h.0,
    insert_scenario-ByPriority s xs h.1,
  )
  | inr later ↦
      let least : s.priority ≤ x.priority = later_priority x s later in
      rw later (
        (
          least,
          All-map (λ (y : Scenario). x.priority ≤ y.priority)
              (λ (y : Scenario). s.priority ≤ y.priority) xs (λ y hy. omega (arith, least, hy)) h.0,
        ),
        h,
      )
]

insert_scenario-Perm : (s : Scenario) (ss : List Scenario) → Perm (insert_scenario s ss) (s ∷ ss)
unfolding insert_scenario
insert_scenario-Perm s [] = Perm.refl (s ∷ [])
insert_scenario-Perm s (x ∷ xs) = elim (Bool-cases (comes_before x s)) [
  | inl first ↦ rw first (Perm.trans (Perm.cons x (insert_scenario-Perm s xs)) (Perm.swap s x xs))
  | inr later ↦ rw later (Perm.refl (s ∷ x ∷ xs))
]

pub resolve_dependencies-ByPriority : (q : List Scenario) → ByPriority (resolve_dependencies q)
unfolding resolve_dependencies
resolve_dependencies-ByPriority [] = tt
resolve_dependencies-ByPriority (s ∷ q) =
    insert_scenario-ByPriority s (resolve_dependencies q) (resolve_dependencies-ByPriority q)

pub resolve_dependencies-Perm : (q : List Scenario) → Perm (resolve_dependencies q) q
unfolding resolve_dependencies
resolve_dependencies-Perm [] = Perm.refl []
resolve_dependencies-Perm (s ∷ q) =
    Perm.trans (insert_scenario-Perm s (resolve_dependencies q))
      (Perm.cons s (resolve_dependencies-Perm q))
