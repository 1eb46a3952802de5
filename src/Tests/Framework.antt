-- ===== src/Tests/Framework.antt =====
-- Modules, a campaign, crash points and a workload.
use mathlib.Core.List.{Perm}
use pebble_db.Prelude.{
  ◌&&◌, ℕ, ◌+◌, ◌%◌, ◌≡◌, ◌⊎◌, refl, leb, ◌==◌, if◌then◌else◌, Bool, true, false, Option, none,
  some, List, [], ◌∷◌, length, map, arith,
}
use pebble_db.Bytes.{Bytes, copy_slice, compare_bytes}
use pebble_db.Result.{ok, err}
use pebble_db.Iterator.Merge.Lists.{find}
use pebble_db.Db.Get.Layers.{batch_entries}
use pebble_db.Acceptance.Dag.{DagError, ModuleOrder, has_name, resolve_module_order}
use pebble_db.Acceptance.Dag.Edges.{has_edge, lists}
use pebble_db.Acceptance.Dag.Counts.{missing_deps}
use pebble_db.Acceptance.Dag.Order.{IsInOrder, resolve_module_order-IsInOrder}
use pebble_db.Acceptance.Scheduler.{
  pass, fail, no_stage, CampaignScheduler, resolve_dependencies, execute,
}
use pebble_db.Acceptance.Scheduler
use pebble_db.Acceptance.Scheduler.Sorted.{ByPriority}
use pebble_db.Acceptance.Scheduler.Gate.{scenario_of, IsGated, execute-IsGated}
use pebble_db.Acceptance.Crash.{
  is_empty, same_string, CrashPoint, CrashHook, Entry, Registry, entry_of, id_of_hook,
  validate_point, register, resolve,
}
use pebble_db.Acceptance.Crash.Policy.{no_invocations, validate, evaluate}
use pebble_db.Acceptance.Crash.Manager.{
  Decision, Manager, trigger, validate_config, should_crash, child_env, evaluate_for_scenario,
}
use pebble_db.Acceptance.Crash.Elects.{
  IsElected, should_crash-IsElected, evaluate_for_scenario-tells, told_by, hook_for,
}
use pebble_db.Acceptance.Crash.Nth.{every, after_points, times, evaluate-nth}
use pebble_db.Acceptance.Crash.Registered.{IsWired, or_new, register-resolves}
use pebble_db.Acceptance.Dataset.{
  SequentialGenerator, Run, get, set, put, delete, fill, overwrite, bury, generate,
}
use pebble_db.Acceptance.Dataset.Agrees.{entry_at, generate-Agrees}

abbrev pub wal : Bytes
wal = 119 ∷ []

abbrev pub sst : Bytes
sst = 115 ∷ []

abbrev bloom : Bytes
bloom = 98 ∷ []

abbrev modules : List Bytes
modules = bloom ∷ sst ∷ wal ∷ []

abbrev dag : List (Bytes × List Bytes)
dag = (bloom, sst ∷ wal ∷ []) ∷ (sst, wal ∷ []) ∷ []

resolve_module_order-IsInOrder_example :
    ((e : DagError) × (resolve_module_order modules dag ≡ some (err e)))
    ⊎ ((order : ModuleOrder) × (resolve_module_order modules dag ≡ some (ok order))
        × (has_edge order.deps sst wal
            ≡ (lists dag sst wal && (has_name modules wal && has_name modules sst)))
        × IsInOrder order.deps [] order.modules
        × (length order.modules ≡ 3))
resolve_module_order-IsInOrder_example =
    resolve_module_order-IsInOrder modules dag sst wal
      (unfold has_name missing_deps compare_bytes in (refl, refl, (refl, refl, (refl, refl, tt))))

abbrev campaign : CampaignScheduler
campaign = record {
  pending_queue =
      record { id = 99 ∷ []; priority = 2 }
      ∷ record { id = 98 ∷ []; priority = 1 }
      ∷ record { id = 97 ∷ []; priority = 0 }
      ∷ [];
  running = true;
  stop_chan_closed = false;
  max_retries = 1;
}

-- The second attempt passes, but for the scenario of priority one.
abbrev world : Scheduler.World
world = record {
  cancelled_tier = λ i. leb 3 i;
  cancelled = λ s n. false;
  attempt = λ s n. record {
    id = s.id;
    status = if s.priority == 1 then fail else if n == 1 then pass else fail;
    failure_stage = no_stage;
    failed = false;
  };
}

execute-IsGated_example :
    IsGated (execute world campaign)
    × Perm (map scenario_of (execute world campaign)) campaign.pending_queue
    × ByPriority (map scenario_of (execute world campaign))
execute-IsGated_example = execute-IsGated world campaign (λ i j h c. ground (arith, h, c))

abbrev before_sync : CrashPoint
before_sync = record {
  id = 1 ∷ [];
  name = 1 ∷ [];
  category = 1 ∷ [];
  phase = 1 ∷ [];
  engine_hook = 7 ∷ [];
  enabled = true;
  requires_flush = false;
  dependencies = [];
}

abbrev after_sync : CrashPoint
after_sync = record before_sync { id = 2 ∷ []; engine_hook = 8 ∷ [] }

abbrev first_hook : CrashHook Bool
first_hook = record { id = 1 ∷ []; supports = λ b. b; executes = λ b. true }

abbrev second_hook : CrashHook Bool
second_hook = record { id = 2 ∷ []; supports = λ b. b; executes = λ b. true }

abbrev first_entry : Entry Bool
first_entry = record { point = before_sync; hook = first_hook }

abbrev one_point : Registry Bool
one_point = record { by_id = first_entry ∷ []; by_hook = (7 ∷ [], 1 ∷ []) ∷ [] }

abbrev two_points : Registry Bool
two_points = record {
  by_id = first_entry ∷ record { point = after_sync; hook = second_hook } ∷ [];
  by_hook = (7 ∷ [], 1 ∷ []) ∷ (8 ∷ [], 2 ∷ []) ∷ [];
}

one_point-IsWired : IsWired one_point
unfolding entry_of compare_bytes
one_point-IsWired = ((first_entry, refl), tt)

register-resolves_example :
    IsWired two_points
    × (resolve two_points (8 ∷ []) ≡ (
        if same_string (8 ∷ []) (2 ∷ [])
        then ok (record { point = after_sync; hook = second_hook })
        else or_new
            (resolve one_point (8 ∷ []))
            (same_string (8 ∷ []) (8 ∷ []))
            (record { point = after_sync; hook = second_hook })))
register-resolves_example =
    register-resolves one_point after_sync second_hook two_points (8 ∷ []) one_point-IsWired
      (unfold register validate_point entry_of id_of_hook compare_bytes in refl)

abbrev manager : Manager Bool
manager = record {
  registry = two_points;
  config = record {
    crash_point_id = 1 ∷ [];
    policy = every 1;
    enabled = true;
    dry_run = false;
    validation_only = false;
  };
  evaluator = no_invocations;
}

abbrev crash_now : Decision
crash_now = trigger manager.config (1 ∷ []) (7 ∷ [])

should_crash-IsElected_example :
    (child_env crash_now ≡ []) ⊎ IsElected manager true [] false (child_env crash_now)
should_crash-IsElected_example =
    should_crash-IsElected manager true [] false crash_now
      (unfold should_crash validate_config validate resolve entry_of evaluate compare_bytes in refl)

evaluate_for_scenario-tells_example :
    told_by (evaluate_for_scenario manager true (7 ∷ []) false).0
    ≡ (if is_empty (7 ∷ []) then [] else hook_for (resolve two_points (7 ∷ [])) true)
evaluate_for_scenario-tells_example = evaluate_for_scenario-tells manager true (7 ∷ []) false

evaluate-nth_example :
    (evaluate (after_points 3 no_invocations (wal ∷ sst ∷ wal ∷ [])) wal [] (every 3) [] false).0
    ≡ ok ((times wal (wal ∷ sst ∷ wal ∷ []) + 1) % 3 == 0)
evaluate-nth_example = evaluate-nth (wal ∷ sst ∷ wal ∷ []) 3 wal (omega arith)

abbrev pub workload : SequentialGenerator
workload = record {
  count = 2;
  overwrite_count = 1;
  tombstone_every = 2;
  fmt_key = λ i. i ∷ [];
  first_value = λ i. 10 ∷ i ∷ [];
  drawn_index = λ i. 1;
  next_value = λ i. 20 ∷ i ∷ [];
}

abbrev pub calm : ℕ → Option ℕ
calm n = none

abbrev pub workload_run : Run
workload_run = record {
  written =
      record { key = 0 ∷ []; value = []; tombstone = true }
      ∷ record { key = 1 ∷ []; value = 20 ∷ 0 ∷ []; tombstone = false }
      ∷ record { key = 1 ∷ []; value = 10 ∷ 1 ∷ []; tombstone = false }
      ∷ record { key = 0 ∷ []; value = 10 ∷ 0 ∷ []; tombstone = false }
      ∷ [];
  expected =
      (0 ∷ [], record { value = none; tombstone = true; version = 2 })
      ∷ (1 ∷ [], record { value = some (20 ∷ 0 ∷ []); tombstone = false; version = 2 })
      ∷ [];
}

generate-Agrees_example :
    entry_at (1 ∷ []) (get workload_run.expected (1 ∷ []))
    ≡ find (1 ∷ []) (batch_entries workload_run.written)
generate-Agrees_example =
    generate-Agrees workload calm (1 ∷ []) workload_run
      (unfold generate fill overwrite bury put delete get set compare_bytes copy_slice in refl)
