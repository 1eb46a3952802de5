-- ===== src/Acceptance/Crash.antt =====
-- crash/policy.go, point.go, registry.go, config.go and manager.go: when a run is made to crash, and
-- where. Strings are their bytes. Events, metrics and log lines are left out, and so are the fields that
-- only they read.
pub mod Policy
pub mod Manager
pub mod Elects
pub mod Nth
pub mod Registered
use pebble_db.Prelude.{
  ℕ, ◌==◌, if◌then◌else◌, Bool, true, false, Option, none, some, List, [], ◌∷◌, ◌++◌, length, not,
  ◌||◌,
}
use pebble_db.Bytes.{Bytes, compare_bytes}
use pebble_db.Bytes.Order.{is_eq}
use pebble_db.Result.{Result, ok, err, ensure, ◌>>◌}

abbrev pub same_string : Bytes → Bytes → Bool
same_string a b = is_eq (compare_bytes a b)

abbrev pub is_empty : Bytes → Bool
is_empty b = length b == 0

-- The code of a `crash.Error`.
pub data CrashError : Type 0 where
  invalid_config policy_unsupported duplicate_point unknown_point dependency hook_execute :
      CrashError

pub record CrashPoint : Type 0 where
  pub id : Bytes
  pub name : Bytes
  pub category : Bytes
  pub phase : Bytes
  pub engine_hook : Bytes
  pub enabled : Bool
  pub requires_flush : Bool
  pub dependencies : List Bytes

-- `Validate` of a crash point.
unfoldable pub validate_point : CrashPoint → Result CrashError (Unit {0})
validate_point p =
    ensure (not (is_empty p.id)) invalid_config
    >> ensure (not (is_empty p.name)) invalid_config
    >> ensure (not (is_empty p.engine_hook)) invalid_config
    >> ensure (not (is_empty p.category)) invalid_config
    >> ensure (not (is_empty p.phase)) invalid_config

-- A hook: its id, and what it answers for the environment of a run.
pub record CrashHook (E : Type 0) : Type 0 where
  pub id : Bytes
  pub supports : E → Bool
  pub executes : E → Bool

pub record Entry (E : Type 0) : Type 0 where
  pub point : CrashPoint
  pub hook : CrashHook E

-- `byID` in the order of registration, and `byHook`.
pub record Registry (E : Type 0) : Type 0 where
  pub by_id : List (Entry E)
  pub by_hook : List (Bytes × Bytes)

unfoldable pub id_of_hook : List (Bytes × Bytes) → Bytes → Option Bytes
id_of_hook [] hook = none
id_of_hook ((h, id) ∷ hs) hook = if same_string hook h then some id else id_of_hook hs hook

abbrev pub is_none : {A : Type 0} → Option A → Bool
is_none none = true
is_none (some _) = false

module _ {E : Type 0} where
  unfoldable pub entry_of : List (Entry E) → Bytes → Option (Entry E)
  entry_of [] id = none
  entry_of (e ∷ es) id = if same_string id e.point.id then some e else entry_of es id

  -- `Register`
  unfoldable pub register : Registry E → CrashPoint → CrashHook E → Result CrashError (Registry E)
  unfolding validate_point entry_of id_of_hook
  register r point hook =
      validate_point point
      >> ensure (same_string hook.id point.id) invalid_config
      >> ensure (is_none (entry_of r.by_id point.id)) duplicate_point
      >> ensure (is_none (id_of_hook r.by_hook point.engine_hook)) duplicate_point
      >> ok (record {
        by_id = r.by_id ++ record { point = point; hook = hook } ∷ [];
        by_hook = r.by_hook ++ (point.engine_hook, point.id) ∷ [];
      })

  abbrev pub or_unknown : Option (Entry E) → Result CrashError (Entry E)
  or_unknown none = err unknown_point
  or_unknown (some e) = ok e

  abbrev pub through_hook : Registry E → Option Bytes → Result CrashError (Entry E)
  through_hook r none = err unknown_point
  through_hook r (some id) = or_unknown (entry_of r.by_id id)

  abbrev pub or_else_hook : Registry E → Bytes → Option (Entry E) → Result CrashError (Entry E)
  or_else_hook r name (some e) = ok e
  or_else_hook r name none = through_hook r (id_of_hook r.by_hook name)

  -- `Resolve`, on an id or the value of a hook. An id in `byHook` is in `byID`.
  unfoldable pub resolve : Registry E → Bytes → Result CrashError (Entry E)
  unfolding entry_of id_of_hook
  resolve r name = or_else_hook r name (entry_of r.by_id name)

  unfoldable pub deps_known : Registry E → List Bytes → Bool
  unfolding entry_of
  deps_known r [] = true
  deps_known r (d ∷ ds) = if is_none (entry_of r.by_id d) then false else deps_known r ds

  -- `ValidateDependencies`
  unfoldable pub dependencies_from : Registry E → List (Entry E) → Bool
  unfolding deps_known
  dependencies_from r [] = true
  dependencies_from r (e ∷ es) =
      if deps_known r e.point.dependencies then dependencies_from r es else false
