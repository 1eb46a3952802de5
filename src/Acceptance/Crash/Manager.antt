-- ===== src/Acceptance/Crash/Manager.antt =====
-- crash/config.go and manager.go: the decision whether a run is to crash.
use pebble_db.Prelude.{if◌then◌else◌, Bool, true, false, not, ◌&&◌, Option, none, some, []}
use pebble_db.Bytes.{Bytes}
use pebble_db.Result.{Result, ok, err, ensure, ◌>>◌}
use pebble_db.Acceptance.Crash.{
  CrashError, invalid_config, hook_execute, is_empty, Entry, Registry, resolve,
}
use pebble_db.Acceptance.Crash.Policy.{
  PolicyKind, never, always, scenario_controlled, Policy, validate, Evaluator, evaluate,
}

-- The seed, which the draws of the random policies start from, is not a part of the model.
pub record Config : Type 0 where
  pub crash_point_id : Bytes
  pub policy : Policy
  pub enabled : Bool
  pub dry_run : Bool
  pub validation_only : Bool

abbrev pub may_lack_point : PolicyKind → Bool
may_lack_point never = true
may_lack_point scenario_controlled = true
may_lack_point _ = false

-- `Validate`
unfoldable pub validate_config : Config → Result CrashError (Unit {0})
validate_config c =
    let rest =
      validate c.policy
      >> ensure (not (is_empty c.crash_point_id && c.enabled && not (may_lack_point c.policy.kind)))
          invalid_config in
    ensure (not (c.validation_only && c.dry_run)) invalid_config
    >> (if not c.enabled && not c.validation_only then ok tt else rest)

pub record Decision : Type 0 where
  pub should_crash : Bool
  pub crash_point_id : Bytes
  pub engine_hook : Bytes
  pub skipped : Bool
  pub hook_executed : Bool

abbrev pub skip : Bytes → Bytes → Decision
skip id hook = record {
  should_crash = false;
  crash_point_id = id;
  engine_hook = hook;
  skipped = true;
  hook_executed = false;
}

abbrev pub trigger : Config → Bytes → Bytes → Decision
trigger c id hook = record {
  should_crash = not c.dry_run;
  crash_point_id = id;
  engine_hook = hook;
  skipped = c.dry_run;
  hook_executed = true;
}

pub record Manager (E : Type 0) : Type 0 where
  pub registry : Registry E
  pub config : Config
  pub evaluator : Evaluator

abbrev pub requested : Config → Bytes → Bytes
requested c request = if is_empty c.crash_point_id then request else c.crash_point_id

abbrev pub validated : Config → Result CrashError (Unit {0}) → Result CrashError Decision
validated c (err e) = err e
validated c (ok _) = ok (skip c.crash_point_id [])

abbrev pub with_valid :
    Evaluator
    → Result CrashError (Unit {0})
    → Result CrashError Decision × Evaluator
    → Result CrashError Decision × Evaluator
with_valid ev (err e) decided = (err e, ev)
with_valid ev (ok _) decided = decided

module _ {E : Type 0} where
  abbrev pub known_name : Result CrashError (Entry E) → Result CrashError (Unit {0})
  known_name (err e) = err e
  known_name (ok _) = ok tt

  abbrev pub resolves : Registry E → Bytes → Result CrashError (Unit {0})
  resolves r id = known_name (resolve r id)

  abbrev pub configured :
      Manager E → Config → Result CrashError (Unit {0}) → Manager E × Option CrashError
  configured m c (err e) = (m, some e)
  configured m c (ok _) = (record m { config = c }, none)

  -- `Configure`
  unfoldable pub configure : Manager E → Config → Manager E × Option CrashError
  unfolding validate_config
  configure m c =
      let known =
        if c.enabled && not (is_empty c.crash_point_id)
        then resolves m.registry c.crash_point_id
        else ok tt in
      configured m c (validate_config c >> known)

  -- The end of `ShouldCrash`, from what the policy elects on.
  abbrev pub elected : Config → E → Entry E → Result CrashError Bool → Result CrashError Decision
  elected c env e (err x) = err x
  elected c env e (ok false) = ok (skip e.point.id e.point.engine_hook)
  elected c env e (ok true) =
      if e.hook.supports env
      then (if e.hook.executes env
          then ok (trigger c e.point.id e.point.engine_hook)
          else err hook_execute)
      else ok (skip e.point.id e.point.engine_hook)

  abbrev pub at_point :
      Config
      → Evaluator
      → E
      → Bytes
      → Bool
      → Result CrashError (Entry E)
      → Result CrashError Decision × Evaluator
  at_point c ev env request drawn (err x) = (err x, ev)
  at_point c ev env request drawn (ok e) =
      let (crash, ev') = evaluate ev e.point.id e.point.engine_hook c.policy request drawn in
      if e.point.enabled
      then (elected c env e crash, ev')
      else (ok (skip e.point.id e.point.engine_hook), ev)

  -- `ShouldCrash`, for the crash that the scenario requests and the environment of the run.
  unfoldable pub should_crash :
      Manager E → E → Bytes → Bool → Result CrashError Decision × Evaluator
  unfolding validate_config
  should_crash m env request drawn =
      let c = m.config in
      let id = requested c request in
      let checked =
        validated c
          (if is_empty c.crash_point_id then ok tt else resolves m.registry c.crash_point_id) in
      let decided = at_point c m.evaluator env request drawn (resolve m.registry id) in
      with_valid m.evaluator (validate_config c) (
        if c.validation_only
        then (checked, m.evaluator)
        else if not c.enabled
        then (ok (skip [] []), m.evaluator)
        else if is_empty id
        then (ok (skip [] []), m.evaluator)
        else decided)

  -- `PrepareForScenario`
  unfoldable pub prepare_for_scenario : Manager E → Bytes → Manager E × Option CrashError
  unfolding configure
  prepare_for_scenario m crash_point = configure m (
      if is_empty crash_point
      then record {
        crash_point_id = [];
        policy = record { kind = never; probability_fits = true; n = 0 };
        enabled = false;
        dry_run = false;
        validation_only = false;
      }
      else record {
        crash_point_id = crash_point;
        policy = record { kind = always; probability_fits = true; n = 0 };
        enabled = true;
        dry_run = false;
        validation_only = false;
      })

-- `ChildEnv`: the value of `PEBBLEDB_CRASH_AT`.
unfoldable pub child_env : Decision → Bytes
child_env d = if d.should_crash && not (is_empty d.engine_hook) then d.engine_hook else []

abbrev pub after_prepare :
    {E : Type 0}
    → Manager E × Option CrashError
    → E
    → Bytes
    → Bool
    → Result CrashError Decision × Evaluator
after_prepare (m, some e) env request drawn = (err e, m.evaluator)
after_prepare (m, none) env request drawn = should_crash m env request drawn

-- `EvaluateForScenario`
unfoldable pub evaluate_for_scenario :
    {E : Type 0} → Manager E → E → Bytes → Bool → Result CrashError Decision × Evaluator
unfolding prepare_for_scenario
evaluate_for_scenario m env crash_point drawn =
    after_prepare (prepare_for_scenario m crash_point) env crash_point drawn
