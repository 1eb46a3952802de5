-- ===== src/Acceptance/Crash/Policy.antt =====
-- crash/policy.go: the policies that elect a crash.
use pebble_db.Prelude.{ℕ, ◌+◌, ◌%◌, ltb, ◌==◌, if◌then◌else◌, Bool, true, false, not, ◌&&◌, ◌||◌}
use pebble_db.Bytes.{Bytes}
use pebble_db.Result.{Result, ok, err, ensure}
use pebble_db.Acceptance.Crash.{
  CrashError, invalid_config, policy_unsupported, same_string, is_empty,
}

pub data PolicyKind : Type 0 where
  always never probability nth_invocation random_seed time_based scenario_controlled : PolicyKind
  not_set : PolicyKind
  unknown : Bytes → PolicyKind

-- The probability is known by whether it is in the unit interval. `n` below one is zero.
pub record Policy : Type 0 where
  pub kind : PolicyKind
  pub probability_fits : Bool
  pub n : ℕ

abbrev pub validate_kind : PolicyKind → Policy → Result CrashError (Unit {0})
validate_kind always p = ok tt
validate_kind never p = ok tt
validate_kind scenario_controlled p = ok tt
validate_kind probability p = ensure p.probability_fits invalid_config
validate_kind nth_invocation p = ensure (not (ltb p.n 1)) invalid_config
validate_kind random_seed p = ok tt
validate_kind time_based p = err policy_unsupported
validate_kind not_set p = err invalid_config
validate_kind (unknown _) p = err invalid_config

-- `Validate`
unfoldable pub validate : Policy → Result CrashError (Unit {0})
validate p = validate_kind p.kind p

-- The evaluator keeps a count for each point.
abbrev pub Evaluator : Type 0
Evaluator = Bytes → ℕ

abbrev pub no_invocations : Evaluator
no_invocations id = 0

abbrev pub counted : Evaluator → Bytes → Evaluator
counted e point_id id = if same_string id point_id then e id + 1 else e id

-- `policy.N` is one or more here: a remainder by zero is never computed.
abbrev pub elect :
    PolicyKind → Evaluator → Bytes → Bytes → ℕ → Bytes → Bool → Result CrashError Bool × Evaluator
elect always e point_id hook n request drawn = (ok true, e)
elect never e point_id hook n request drawn = (ok false, e)
elect scenario_controlled e point_id hook n request drawn =
    (ok (not (is_empty request) && (same_string request point_id || same_string request hook)), e)
elect nth_invocation e point_id hook n request drawn =
    (ok (counted e point_id point_id % n == 0), counted e point_id)
elect probability e point_id hook n request drawn = (ok drawn, e)
elect random_seed e point_id hook n request drawn = (ok drawn, e)
elect time_based e point_id hook n request drawn = (err policy_unsupported, e)
elect not_set e point_id hook n request drawn = (err invalid_config, e)
elect (unknown _) e point_id hook n request drawn = (err invalid_config, e)

abbrev pub if_valid :
    Result CrashError (Unit {0})
    → Evaluator
    → Result CrashError Bool × Evaluator
    → Result CrashError Bool × Evaluator
if_valid (err x) e elected = (err x, e)
if_valid (ok _) e elected = elected

-- `evaluate`: whether it elects to crash, for the crash that the scenario requests. `drawn` is what the
-- random source of the seed gives, less than the probability or not.
unfoldable pub evaluate :
    Evaluator → Bytes → Bytes → Policy → Bytes → Bool → Result CrashError Bool × Evaluator
unfolding validate
evaluate e point_id hook p request drawn =
    if_valid (validate p) e (elect p.kind e point_id hook p.n request drawn)
