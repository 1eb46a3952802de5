-- ===== src/Acceptance/Scheduler/Gate.antt =====
-- The priority gate, and that every scenario has a result.
use mathlib.Core.List.{Perm}
use pebble_db.Prelude.{
  ℕ, ◌+◌, ◌≤◌, ◌≡◌, ◌⊎◌, refl, sym, ap, ◌∙◌, subst, ◌==◌, not, ◌||◌, if◌then◌else◌, Bool, true,
  false, Bool-cases, inl, inr, List, [], ◌∷◌, ◌++◌, map, arith, All, All-map, All-append,
  append_assoc, append-nil,
}
use pebble_db.Acceptance.Scheduler.{
  Scenario, Status, pass, blocked, is_pass, Stage, context_canceled, gate_closed, CampaignScheduler,
  resolve_dependencies, close_tier, group_loop, group_by_priority, World, Entry, run_tier,
  block_tier, all_passed, execute_tiers, execute,
}
use pebble_db.Acceptance.Scheduler.Sorted.{
  ByPriority, resolve_dependencies-Perm, resolve_dependencies-ByPriority,
}

abbrev pub HasPriority : ℕ → List Scenario → Type 0
HasPriority p = All (λ (s : Scenario). s.priority ≡ p)

-- Tiers of one priority each.
abbrev pub AreTiers : List (List Scenario) → Type 0
AreTiers = All (λ (tier : List Scenario). (p : ℕ) × HasPriority p tier)

-- `x` may follow `e`: it has the same priority, or `e` has passed, or `x` is blocked.
abbrev pub MayFollow : Entry → Entry → Type 0
MayFollow e x =
    (x.scenario.priority ≡ e.scenario.priority)
    ⊎ (e.result.status ≡ pass)
    ⊎ (x.result.status ≡ blocked)

abbrev pub scenario_of : Entry → Scenario
scenario_of e = e.scenario

abbrev pub IsGated : List Entry → Type 0
IsGated [] = Unit
IsGated (e ∷ es) = All (λ (x : Entry). MayFollow e x) es × IsGated es

IsGated-append :
    (a b : List Entry)
    → IsGated a
    → IsGated b
    → All (λ (e : Entry). All (λ (x : Entry). MayFollow e x) b) a
    → IsGated (a ++ b)
IsGated-append [] b ha hb h = hb
IsGated-append (e ∷ a) b ha hb h =
    (All-append (λ (x : Entry). MayFollow e x) a b ha.0 h.0, IsGated-append a b ha.1 hb h.1)

-- What a tier's entries have: their scenarios' priority.
abbrev EntriesHave : ℕ → List Entry → Type 0
EntriesHave p = All (λ (e : Entry). e.scenario.priority ≡ p)

abbrev AreBlocked : List Entry → Type 0
AreBlocked = All (λ (e : Entry). e.result.status ≡ blocked)

same_tier-IsGated : (p : ℕ) (es : List Entry) → EntriesHave p es → IsGated es
same_tier-IsGated p [] h = tt
same_tier-IsGated p (e ∷ es) h = (
  All-map (λ (x : Entry). x.scenario.priority ≡ p) (λ (x : Entry). MayFollow e x) es
      (λ x hx. inl (hx ∙ sym h.0)) h.1,
  same_tier-IsGated p es h.1,
)

run_tier-EntriesHave :
    (w : World) (n p : ℕ) (tier : List Scenario)
    → HasPriority p tier
    → EntriesHave p (run_tier w n tier)
unfolding run_tier
run_tier-EntriesHave w n p [] h = tt
run_tier-EntriesHave w n p (s ∷ tier) h = (h.0, run_tier-EntriesHave w n p tier h.1)

block_tier-EntriesHave :
    (reason : Stage) (p : ℕ) (tier : List Scenario)
    → HasPriority p tier
    → EntriesHave p (block_tier reason tier)
unfolding block_tier
block_tier-EntriesHave reason p [] h = tt
block_tier-EntriesHave reason p (s ∷ tier) h = (h.0, block_tier-EntriesHave reason p tier h.1)

block_tier-AreBlocked :
    (reason : Stage) (tier : List Scenario) → AreBlocked (block_tier reason tier)
unfolding block_tier
block_tier-AreBlocked reason [] = tt
block_tier-AreBlocked reason (s ∷ tier) = (refl, block_tier-AreBlocked reason tier)

pass_of_is_pass : (s : Status) → is_pass s ≡ true → s ≡ pass
pass_of_is_pass s h = ground (arith, h)

all_passed-All :
    (es : List Entry) → all_passed es ≡ true → All (λ (e : Entry). e.result.status ≡ pass) es
unfolding all_passed
all_passed-All [] h = tt
all_passed-All (e ∷ es) h = elim (Bool-cases (is_pass e.result.status)) [
  | inl here ↦ (pass_of_is_pass e.result.status here, all_passed-All es (rw here at h))
  | inr not_here ↦ cc (rw not_here at h)
]

-- A cancelled context stays cancelled.
abbrev pub StaysCancelled : World → Type 0
StaysCancelled w = (i j : ℕ) → i ≤ j → w.cancelled_tier i ≡ true → w.cancelled_tier j ≡ true

module _ (w : World) (n : ℕ) (stays : StaysCancelled w) where
  still_shut :
      (gate_open : Bool) (i : ℕ)
      → (not gate_open || w.cancelled_tier i) ≡ true
      → (not gate_open || w.cancelled_tier (i + 1)) ≡ true
  still_shut true i h = stays i (i + 1) (omega arith) h
  still_shut false i h = refl

  -- Behind a closed gate, and under a cancelled context, everything is blocked.
  execute_tiers-AreBlocked :
      (tiers : List (List Scenario)) (i : ℕ) (gate_open : Bool)
      → (not gate_open || w.cancelled_tier i) ≡ true
      → AreBlocked (execute_tiers w n i gate_open tiers)
  unfolding execute_tiers
  execute_tiers-AreBlocked [] i gate_open h = tt
  execute_tiers-AreBlocked (tier ∷ tiers) i gate_open h =
      let reason = if w.cancelled_tier i then context_canceled else gate_closed in
      rw h (
        All-append (λ (e : Entry). e.result.status ≡ blocked) (block_tier reason tier)
          (execute_tiers w n (i + 1) gate_open tiers) (block_tier-AreBlocked reason tier)
          (execute_tiers-AreBlocked tiers (i + 1) gate_open (still_shut gate_open i h)))

  follow_blocked :
      (a b : List Entry)
      → AreBlocked b
      → All (λ (e : Entry). All (λ (x : Entry). MayFollow e x) b) a
  follow_blocked [] b h = tt
  follow_blocked (e ∷ a) b h = (
    All-map (λ (x : Entry). x.result.status ≡ blocked) (λ (x : Entry). MayFollow e x) b
        (λ x p. inr (inr p)) h,
    follow_blocked a b h,
  )

  every_follows :
      (e : Entry) (b : List Entry) → e.result.status ≡ pass → All (λ (x : Entry). MayFollow e x) b
  every_follows e [] h = tt
  every_follows e (x ∷ b) h = (inr (inl h), every_follows e b h)

  follow_passed :
      (a b : List Entry)
      → All (λ (e : Entry). e.result.status ≡ pass) a
      → All (λ (e : Entry). All (λ (x : Entry). MayFollow e x) b) a
  follow_passed a b h =
      All-map (λ (e : Entry). e.result.status ≡ pass)
        (λ (e : Entry). All (λ (x : Entry). MayFollow e x) b) a (λ e p. every_follows e b p) h

  execute_tiers-IsGated :
      (tiers : List (List Scenario)) (i : ℕ) (gate_open : Bool)
      → AreTiers tiers
      → IsGated (execute_tiers w n i gate_open tiers)
  unfolding execute_tiers
  execute_tiers-IsGated [] i gate_open h = tt
  execute_tiers-IsGated (tier ∷ tiers) i gate_open ((p, same), h) =
      let reason = if w.cancelled_tier i then context_canceled else gate_closed in
      let results = run_tier w n tier in
      elim (Bool-cases (not gate_open || w.cancelled_tier i)) [
        | inl shut ↦
            let rest = execute_tiers w n (i + 1) gate_open tiers in
            let here = block_tier reason tier in
            rw shut (
              IsGated-append here rest
                (same_tier-IsGated p here (block_tier-EntriesHave reason p tier same))
                (execute_tiers-IsGated tiers (i + 1) gate_open h)
                (follow_blocked here rest
                  (execute_tiers-AreBlocked tiers (i + 1) gate_open (still_shut gate_open i shut))))
        | inr open' ↦
            let rest = execute_tiers w n (i + 1) (all_passed results) tiers in
            rw open' (
              IsGated-append results rest
                (same_tier-IsGated p results (run_tier-EntriesHave w n p tier same))
                (execute_tiers-IsGated tiers (i + 1) (all_passed results) h)
                (elim (Bool-cases (all_passed results)) [
                  | inl all ↦ follow_passed results rest (all_passed-All results all)
                  | inr some_failed ↦ follow_blocked results rest (
                      execute_tiers-AreBlocked tiers (i + 1) (all_passed results)
                        (rw some_failed refl))
                ]))
      ]

run_tier-scenarios :
    (w : World) (n : ℕ) (tier : List Scenario) → map scenario_of (run_tier w n tier) ≡ tier
unfolding run_tier
run_tier-scenarios w n [] = refl
run_tier-scenarios w n (s ∷ tier) = ap (◌∷◌ s) (run_tier-scenarios w n tier)

block_tier-scenarios :
    (reason : Stage) (tier : List Scenario) → map scenario_of (block_tier reason tier) ≡ tier
unfolding block_tier
block_tier-scenarios reason [] = refl
block_tier-scenarios reason (s ∷ tier) = ap (◌∷◌ s) (block_tier-scenarios reason tier)

-- The scenarios of some tiers, one tier behind another.
abbrev joined : List (List Scenario) → List Scenario
joined [] = []
joined (tier ∷ tiers) = tier ++ joined tiers

map-append : (a b : List Entry) → map scenario_of (a ++ b) ≡ map scenario_of a ++ map scenario_of b
map-append [] b = refl
map-append (e ∷ a) b = ap (◌∷◌ e.scenario) (map-append a b)

execute_tiers-scenarios :
    (w : World) (n : ℕ) (tiers : List (List Scenario)) (i : ℕ) (gate_open : Bool)
    → map scenario_of (execute_tiers w n i gate_open tiers) ≡ joined tiers
unfolding execute_tiers
execute_tiers-scenarios w n [] i gate_open = refl
execute_tiers-scenarios w n (tier ∷ tiers) i gate_open =
    let reason = if w.cancelled_tier i then context_canceled else gate_closed in
    let results = run_tier w n tier in
    elim (Bool-cases (not gate_open || w.cancelled_tier i)) [
      | inl shut ↦ rw shut (
          map-append (block_tier reason tier) (execute_tiers w n (i + 1) gate_open tiers)
          ∙ rw
              (
                block_tier-scenarios reason tier,
                execute_tiers-scenarios w n tiers (i + 1) gate_open,
              )
              refl)
      | inr open' ↦ rw open' (
          map-append results (execute_tiers w n (i + 1) (all_passed results) tiers)
          ∙ rw
              (
                run_tier-scenarios w n tier,
                execute_tiers-scenarios w n tiers (i + 1) (all_passed results),
              )
              refl)
    ]

close_tier-joined : (cur : List Scenario) → joined (close_tier cur []) ≡ cur
close_tier-joined [] = refl
close_tier-joined (s ∷ cur) = append-nil (s ∷ cur)

group_loop-joined :
    (prev : ℕ) (cur ss : List Scenario) → joined (group_loop prev cur ss) ≡ cur ++ ss
unfolding group_loop
group_loop-joined prev cur [] = close_tier-joined cur ∙ sym (append-nil cur)
group_loop-joined prev cur (s ∷ ss) = elim (Bool-cases (s.priority == prev)) [
  | inl same ↦ rw same (group_loop-joined prev (cur ++ s ∷ []) ss ∙ append_assoc cur (s ∷ []) ss)
  | inr other ↦ rw other (ap (λ t. cur ++ t) (group_loop-joined s.priority (s ∷ []) ss))
]

group_loop-AreTiers :
    (prev : ℕ) (cur ss : List Scenario) → HasPriority prev cur → AreTiers (group_loop prev cur ss)
unfolding group_loop
group_loop-AreTiers prev [] [] h = tt
group_loop-AreTiers prev (x ∷ cur) [] h = ((prev, h), tt)
group_loop-AreTiers prev cur (s ∷ ss) h = elim (Bool-cases (s.priority == prev)) [
  | inl same ↦
      let e : s.priority ≡ prev = ground (arith, same) in
      rw same (
        group_loop-AreTiers prev (cur ++ s ∷ []) ss
          (All-append (λ (x : Scenario). x.priority ≡ prev) cur (s ∷ []) h (e, tt)))
  | inr other ↦ rw other ((prev, h), group_loop-AreTiers s.priority (s ∷ []) ss (refl, tt))
]

grouped : (q : List Scenario) → AreTiers (group_by_priority q) × (joined (group_by_priority q) ≡ q)
unfolding group_by_priority
grouped [] = (tt, refl)
grouped (s ∷ ss) =
    (group_loop-AreTiers s.priority [] (s ∷ ss) tt, group_loop-joined s.priority [] (s ∷ ss))

-- A campaign gives every submitted scenario one result, and no other: the scenarios of the results are a
-- permutation of the queue. They come in the order of their priorities and keep the gate: of two
-- scenarios of different priorities, the later one is blocked unless the earlier one has passed. A
-- context that is cancelled stays cancelled. It holds whatever the executors give and however often they
-- are tried.
pub execute-IsGated :
    (w : World) (c : CampaignScheduler)
    → StaysCancelled w
    → IsGated (execute w c)
      × Perm (map scenario_of (execute w c)) c.pending_queue
      × ByPriority (map scenario_of (execute w c))
unfolding execute
execute-IsGated w c stays =
    let queue = resolve_dependencies c.pending_queue in
    let (tiers, whole) = grouped queue in
    let same = execute_tiers-scenarios w c.max_retries (group_by_priority queue) 0 true ∙ whole in
    (
      execute_tiers-IsGated w c.max_retries stays (group_by_priority queue) 0 true tiers,
      subst (λ (l : List Scenario). Perm l c.pending_queue) (sym same)
          (resolve_dependencies-Perm c.pending_queue),
      subst ByPriority (sym same) (resolve_dependencies-ByPriority c.pending_queue),
    )
