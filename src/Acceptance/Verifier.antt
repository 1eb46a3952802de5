-- ===== src/Acceptance/Verifier.antt =====
-- verifier/result.go, helpers.go and get.go: what a module reports, and the module that looks every
-- expected key up. A database is what its `Get` answers. Texts and durations are left out.
pub mod Engine
pub mod Reads
pub mod Modules
pub mod Sound
pub mod Written
use pebble_db.Prelude.{
  ℕ, ◌+◌, ◌==◌, ◌&&◌, if◌then◌else◌, Bool, true, false, Option, none, some, List, [], ◌∷◌, ◌++◌,
  length,
}
use pebble_db.Bytes.{Bytes, compare_bytes}
use pebble_db.Iterator.Merge.{as_bytes}
use pebble_db.Bytes.Order.{is_lt, is_eq}
use pebble_db.Result.{Result, ok, err}
use pebble_db.Db.{DbError, err_not_found}
use pebble_db.Acceptance.Dataset.{ValueSnapshot, State, get}

pub data Reason : Type 0 where
  deleted_key_present unexpected_get_error missing_key value_mismatch : Reason
  dependency_skipped nil_result reopen_failed : Reason

-- `warning` is the severity of a warning; a failure without it is an error.
pub record Failure : Type 0 where
  pub verifier : Bytes
  pub key : Bytes
  pub reason : Reason
  pub warning : Bool

pub record ModuleResult : Type 0 where
  pub name : Bytes
  pub passed : Bool
  pub failures : List Failure
  pub passed_checks : ℕ
  pub failed_checks : ℕ
  pub keys_verified : ℕ
  pub warnings : ℕ

pub record VerificationReport : Type 0 where
  pub passed : Bool
  pub module_results : List ModuleResult
  pub passed_checks : ℕ
  pub failed_checks : ℕ
  pub failure_summary : List Failure
  pub aborted : Bool

abbrev pub empty_module_result : Bytes → ModuleResult
empty_module_result name = record {
  name = name;
  passed = true;
  failures = [];
  passed_checks = 0;
  failed_checks = 0;
  keys_verified = 0;
  warnings = 0;
}

-- `addModule`
abbrev pub add_module : VerificationReport → ModuleResult → VerificationReport
add_module r m = record r {
  passed = r.passed && m.passed;
  module_results = r.module_results ++ m ∷ [];
  passed_checks = r.passed_checks + m.passed_checks;
  failed_checks = r.failed_checks + m.failed_checks;
  failure_summary = if m.passed then r.failure_summary else r.failure_summary ++ m.failures;
}

pub count_warnings : List Failure → ℕ
count_warnings [] = 0
count_warnings (f ∷ fs) = if f.warning then count_warnings fs + 1 else count_warnings fs

-- `finalizeModule`
unfoldable pub finalize_module : ModuleResult → ModuleResult
unfolding count_warnings
finalize_module res = record res {
  failed_checks = length res.failures;
  passed = if length res.failures == 0 then res.passed else false;
  warnings = res.warnings + count_warnings res.failures;
}

-- What `Get` of a database answers.
abbrev pub Reader : Type 0
Reader = Bytes → Result DbError (Option Bytes)

abbrev pub is_not_found : DbError → Bool
is_not_found err_not_found = true
is_not_found _ = false

-- `Keys`, in order.
unfoldable pub insert_key : Bytes → List Bytes → List Bytes
insert_key k [] = k ∷ []
insert_key k (x ∷ xs) = if is_lt (compare_bytes x k) then x ∷ insert_key k xs else k ∷ x ∷ xs

unfoldable pub keys : State → List Bytes
unfolding insert_key
keys [] = []
keys ((k, s) ∷ m) = insert_key k (keys m)

-- The checks of one key: whether it is expected to be deleted, its value, and what `Get` answers. `none`
-- is a check that passed.
unfoldable pub check : Bool → Option Bytes → Result DbError (Option Bytes) → Option Reason
check true value (ok v) = some deleted_key_present
check true value (err e) = if is_not_found e then none else some unexpected_get_error
check false value (err e) = some missing_key
check false value (ok v) =
    if is_eq (compare_bytes (as_bytes v) (as_bytes value)) then none else some value_mismatch

abbrev pub get_verifier_name : Bytes
get_verifier_name = 103 ∷ 101 ∷ 116 ∷ 95 ∷ 118 ∷ 101 ∷ 114 ∷ 105 ∷ 102 ∷ 105 ∷ 101 ∷ 114 ∷ []

abbrev pub checked : ModuleResult → Bytes → Option Reason → ModuleResult
checked res key none = record res {
  keys_verified = res.keys_verified + 1;
  passed_checks = res.passed_checks + 1;
}
checked res key (some reason) = record res {
  keys_verified = res.keys_verified + 1;
  failures =
      res.failures
      ++ record { verifier = get_verifier_name; key = key; reason = reason; warning = false } ∷ [];
}

abbrev pub visited : Reader → ModuleResult → Bytes → Option ValueSnapshot → ModuleResult
visited reader res key none = res
visited reader res key (some s) = checked res key (check s.tombstone s.value (reader key))

module _ (reader : Reader) (cancelled : Bytes → Bool) (expected : State) where
  -- The loop over the keys. A cancelled context ends it, with what it has so far.
  unfoldable pub get_loop : ModuleResult → List Bytes → Result ModuleResult ModuleResult
  unfolding finalize_module check
  get_loop res [] = ok (finalize_module res)
  get_loop res (key ∷ ks) =
      let rest = get_loop (visited reader res key (get expected key)) ks in
      if cancelled key then err (finalize_module res) else rest

  -- `Verify` of the get verifier.
  unfoldable pub verify_gets : Result ModuleResult ModuleResult
  unfolding get_loop keys
  verify_gets = get_loop (empty_module_result get_verifier_name) (keys expected)
