-- ===== src/Acceptance/Scheduler.antt =====
-- scheduler/scheduler.go: a campaign runs its scenarios by priority, tier by tier, and blocks the tiers
-- behind one that has not passed. The workers of a tier, which run at the same time, share nothing, so
-- that a tier is the results of its scenarios.
pub mod Sorted
pub mod Gate
use pebble_db.Prelude.{
  ℕ, zero, suc, ◌+◌, ltb, leb, ◌==◌, not, ◌&&◌, ◌||◌, if◌then◌else◌, Bool, true, false, Option,
  none, some, List, [], ◌∷◌, ◌++◌, length, map,
}
use pebble_db.Bytes.{Bytes, compare_bytes}
use pebble_db.Bytes.Order.{is_lt, is_eq}

pub record Scenario : Type 0 where
  pub id : Bytes
  pub priority : ℕ

pub data Status : Type 0 where
  pass fail blocked inconclusive unset : Status

abbrev pub is_pass : Status → Bool
is_pass pass = true
is_pass _ = false

pub data Stage : Type 0 where
  no_stage context_canceled gate_closed : Stage

pub record ScenarioResult : Type 0 where
  pub scenario_id : Bytes
  pub status : Status
  pub retries : ℕ
  pub failure_stage : Stage

-- `completed`, the worker counts and the channels do nothing for the results.
pub record CampaignScheduler : Type 0 where
  pub pending_queue : List Scenario
  pub running : Bool
  pub stop_chan_closed : Bool
  pub max_retries : ℕ

pub has_id : Bytes → List Scenario → Bool
has_id id [] = false
has_id id (s ∷ ss) = if is_eq (compare_bytes id s.id) then true else has_id id ss

-- `Submit`, and whether it reports a scenario that was submitted already. What was submitted is the
-- queue: it is put into another order and never shortened.
pub submit : CampaignScheduler → Scenario → CampaignScheduler × Bool
unfolding has_id
submit c s =
    if has_id s.id c.pending_queue
    then (c, false)
    else (record c { pending_queue = c.pending_queue ++ s ∷ [] }, true)

-- The order of `sort.Slice`: by priority, then by id.
abbrev pub comes_before : Scenario → Scenario → Bool
comes_before a b =
    if a.priority == b.priority then is_lt (compare_bytes a.id b.id) else ltb a.priority b.priority

unfoldable pub insert_scenario : Scenario → List Scenario → List Scenario
insert_scenario s [] = s ∷ []
insert_scenario s (x ∷ xs) = if comes_before x s then x ∷ insert_scenario s xs else s ∷ x ∷ xs

-- `resolveDependencies`. The ids differ, so that there is one such order.
unfoldable pub resolve_dependencies : List Scenario → List Scenario
unfolding insert_scenario
resolve_dependencies [] = []
resolve_dependencies (s ∷ ss) = insert_scenario s (resolve_dependencies ss)

-- `Start`
pub start : CampaignScheduler → CampaignScheduler
unfolding resolve_dependencies
start c =
    if c.running
    then c
    else record c { running = true; pending_queue = resolve_dependencies c.pending_queue }

-- `none` is a panic: `stopChan` is closed a second time.
pub stop : CampaignScheduler → Option CampaignScheduler
stop c =
    if c.running
    then (if c.stop_chan_closed
        then none
        else some (record c { running = false; stop_chan_closed = true }))
    else some c

abbrev pub set_max_retries : CampaignScheduler → ℕ → CampaignScheduler
set_max_retries c n = record c { max_retries = n }

abbrev pub close_tier : List Scenario → List (List Scenario) → List (List Scenario)
close_tier [] tiers = tiers
close_tier (s ∷ cur) tiers = (s ∷ cur) ∷ tiers

-- The loop of `groupByPriority`, with the tier so far and its priority.
unfoldable pub group_loop : ℕ → List Scenario → List Scenario → List (List Scenario)
group_loop prev cur [] = close_tier cur []
group_loop prev cur (s ∷ ss) =
    let same = group_loop prev (cur ++ s ∷ []) ss in
    let next = cur ∷ group_loop s.priority (s ∷ []) ss in if s.priority == prev then same else next

unfoldable pub group_by_priority : List Scenario → List (List Scenario)
unfolding group_loop
group_by_priority [] = []
group_by_priority (s ∷ ss) = group_loop s.priority [] (s ∷ ss)

-- What an executor gives for an attempt: its result, and whether it came with an error.
pub record Attempt : Type 0 where
  pub id : Bytes
  pub status : Status
  pub failure_stage : Stage
  pub failed : Bool

-- The world around a campaign: whether the context is cancelled at a tier, or before an attempt, and what
-- an attempt gives.
pub record World : Type 0 where
  pub cancelled_tier : ℕ → Bool
  pub cancelled : Scenario → ℕ → Bool
  pub attempt : Scenario → ℕ → Attempt

abbrev pub blocked_result : Scenario → Stage → ScenarioResult
blocked_result s reason = record {
  scenario_id = s.id;
  status = blocked;
  retries = 0;
  failure_stage = reason;
}

abbrev pub named : Scenario → ScenarioResult → ScenarioResult
named s r = if length r.scenario_id == 0 then record r { scenario_id = s.id; status = fail } else r

-- The loop of `runOne`, with the attempts that are left.
unfoldable pub attempts_from : World → Scenario → ℕ → ℕ → ScenarioResult → ScenarioResult
attempts_from w s zero n last = named s last
attempts_from w s (suc left) n last =
    let a = w.attempt s n in
    let r : ScenarioResult = record {
      scenario_id = a.id;
      status = a.status;
      retries = n;
      failure_stage = a.failure_stage;
    } in
    let later = attempts_from w s left (n + 1) r in
    if w.cancelled s n
    then blocked_result s context_canceled
    else (if not a.failed && is_pass a.status then r else later)

unfoldable pub run_one : World → ℕ → Scenario → ScenarioResult
unfolding attempts_from
run_one w max_retries s =
    attempts_from w s (max_retries + 1) 0
      (record { scenario_id = []; status = unset; retries = 0; failure_stage = no_stage })

-- A scenario of the campaign with its result.
pub record Entry : Type 0 where
  pub scenario : Scenario
  pub result : ScenarioResult

unfoldable pub run_tier : World → ℕ → List Scenario → List Entry
run_tier w max_retries [] = []
run_tier w max_retries (s ∷ ss) =
    record { scenario = s; result = run_one w max_retries s } ∷ run_tier w max_retries ss

unfoldable pub block_tier : Stage → List Scenario → List Entry
block_tier reason [] = []
block_tier reason (s ∷ ss) =
    record { scenario = s; result = blocked_result s reason } ∷ block_tier reason ss

unfoldable pub all_passed : List Entry → Bool
all_passed [] = true
all_passed (e ∷ es) = let rest = all_passed es in if is_pass e.result.status then rest else false

-- The loop of `Execute` over the tiers, from the `i`-th on.
unfoldable pub execute_tiers : World → ℕ → ℕ → Bool → List (List Scenario) → List Entry
unfolding run_tier block_tier all_passed
execute_tiers w max_retries i gate_open [] = []
execute_tiers w max_retries i gate_open (tier ∷ tiers) =
    let reason = if w.cancelled_tier i then context_canceled else gate_closed in
    let results = run_tier w max_retries tier in
    let skipped = block_tier reason tier ++ execute_tiers w max_retries (i + 1) gate_open tiers in
    let ran = results ++ execute_tiers w max_retries (i + 1) (all_passed results) tiers in
    if not gate_open || w.cancelled_tier i then skipped else ran

-- `Execute`, with a factory set: the results in the order in which the tracker is given them.
unfoldable pub execute : World → CampaignScheduler → List Entry
unfolding execute_tiers
execute w c =
    execute_tiers w c.max_retries 0 true (group_by_priority (resolve_dependencies c.pending_queue))
