-- ===== src/Tests/Verifying.antt =====
-- A verification of a workload.
use pebble_db.Prelude.{◌≡◌, refl, if◌then◌else◌, true, false, none, some, [], ◌∷◌, arith, All}
use pebble_db.Bytes.{Bytes, copy_slice, compare_bytes}
use pebble_db.Result.{ok, err}
use pebble_db.Iterator.Merge.Lists.{find}
use pebble_db.Db.Get.Layers.{batch_entries}
use pebble_db.Acceptance.Dag.{
  ModuleOrder, has_name, resolve_module_order, first_unhealthy_dep, kahn, kahn_loop, round, roots,
  release, successors, indegree_of, insert_ranked, sort_loop, rank_from,
}
use pebble_db.Acceptance.Dataset.{get, set, put, delete, fill, overwrite, bury, generate}
use pebble_db.Bytes.Order.{is_eq}
use pebble_db.Db.{err_not_found}
use pebble_db.Acceptance.Verifier.{
  ModuleResult, VerificationReport, empty_module_result, finalize_module, Reader, insert_key, keys,
  check, get_verifier_name, get_loop, verify_gets,
}
use pebble_db.Acceptance.Verifier.Reads.{Answers}
use pebble_db.Acceptance.Verifier.Engine.{
  World, module_step, module_loop, reopen_step, reopen_loop, verify,
}
use pebble_db.Acceptance.Verifier.Sound.{verify-modules}
use pebble_db.Acceptance.Verifier.Written.{verify-Written}
use pebble_db.Acceptance.Verifier.Modules.{HasPassed}
use pebble_db.Tests.Framework.{wal, sst, workload, calm, workload_run}

-- A reader that has what the workload leaves.
abbrev reads : Reader
reads k = if is_eq (compare_bytes k (1 ∷ [])) then ok (some (20 ∷ 0 ∷ [])) else err err_not_found

abbrev good_result : ModuleResult
good_result = empty_module_result wal

abbrev recovered : World
recovered = record {
  idempotent_reopens = 1;
  registered = sst ∷ wal ∷ [];
  dag = (sst, wal ∷ []) ∷ [];
  oracle = ok workload_run.expected;
  open_fault = none;
  cancelled = λ i. false;
  run = λ name. record { result = some good_result; error = none };
  scan = none;
  close = none;
  reopen = λ i. record { cancelled = false; database = ok reads; cancelled_at = λ k. false };
}

abbrev get_result : ModuleResult
get_result = record {
  name = get_verifier_name;
  passed = true;
  failures = [];
  passed_checks = 2;
  failed_checks = 0;
  keys_verified = 2;
  warnings = 0;
}

abbrev report : VerificationReport
report = record {
  passed = true;
  module_results = good_result ∷ good_result ∷ get_result ∷ [];
  passed_checks = 2;
  failed_checks = 0;
  failure_summary = [];
  aborted = false;
}

recovered-verify : verify recovered ≡ ok report
unfolding verify module_loop module_step first_unhealthy_dep reopen_loop reopen_step verify_gets
    get_loop finalize_module check keys insert_key get compare_bytes resolve_module_order kahn
    kahn_loop round roots release successors indegree_of has_name insert_ranked sort_loop rank_from
recovered-verify = refl

verify-modules_example :
    (order : ModuleOrder) × (resolve_module_order recovered.registered recovered.dag
      ≡ some (ok order))
    × All (λ (name : Bytes). HasPassed (recovered.run name)) order.modules
verify-modules_example = verify-modules recovered report recovered-verify

verify-Written_example :
    (reader : Reader) × ((recovered.reopen 0).database ≡ ok reader)
    × Answers false (some (20 ∷ 0 ∷ [])) (reader (1 ∷ []))
verify-Written_example =
    verify-Written workload calm workload_run recovered report 0 (1 ∷ [])
      (record { key = 1 ∷ []; value = some (20 ∷ 0 ∷ []); tombstone = false })
      (unfold generate fill overwrite bury put delete get set compare_bytes copy_slice in refl) refl
      recovered-verify (omega arith) (unfold find batch_entries compare_bytes copy_slice in refl)
