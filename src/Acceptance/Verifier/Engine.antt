-- ===== src/Acceptance/Verifier/Engine.antt =====
-- verifier/engine.go: a verification run. What its surroundings answer is a world: the oracle that is
-- loaded, the database that is opened, cancellations, and the modules' results.
use pebble_db.Prelude.{
  ℕ, zero, suc, ◌+◌, if◌then◌else◌, Bool, true, false, Option, none, some, List, [], ◌∷◌,
}
use pebble_db.Bytes.{Bytes}
use pebble_db.Result.{Result, ok, err, ensure, ◌>>=◌, ◌>>◌}
use pebble_db.Acceptance.Dag.{
  Edge, DagError, ModuleOrder, same_name, resolve_module_order, first_unhealthy_dep,
}
use pebble_db.Acceptance.Dataset.{State}
use pebble_db.Acceptance.Verifier.{
  ModuleResult, VerificationReport, dependency_skipped, nil_result, reopen_failed,
  empty_module_result, add_module, Reader, get_verifier_name, verify_gets,
}

-- What a module gives: a result, unless it is nil, and an error.
pub record ModuleRun : Type 0 where
  pub result : Option ModuleResult
  pub error : Option ℕ

-- A database that is opened again, with the keys at which the context is cancelled.
pub record Reopened : Type 0 where
  pub cancelled : Bool
  pub database : Result ℕ Reader
  pub cancelled_at : Bytes → Bool

pub record World : Type 0 where
  pub idempotent_reopens : ℕ
  pub registered : List Bytes
  pub dag : List (Bytes × List Bytes)
  pub oracle : Result ℕ State
  pub open_fault : Option ℕ
  pub cancelled : ℕ → Bool
  pub run : Bytes → ModuleRun
  pub scan : Option ℕ
  pub close : Option ℕ
  pub reopen : ℕ → Reopened

-- `stuck` is the fuel of the module order running out.
pub data VerifyError : Type 0 where
  oracle_failed open_failed scan_failed close_failed : ℕ → VerifyError
  dag_failed : DagError → VerifyError
  stuck context_done reopen_refused checks_failed : VerifyError
  module_error : ℕ → VerifyError

-- The report is there next to an error, too.
abbrev pub Stopped : Type 0
Stopped = VerificationReport × VerifyError

abbrev pub aborted : VerificationReport → VerifyError → Stopped
aborted r e = (record r { passed = false; aborted = true }, e)

abbrev pub failed : VerificationReport → VerifyError → Stopped
failed r e = (record r { passed = false }, e)

abbrev pub new_report : VerificationReport
new_report = record {
  passed = true;
  module_results = [];
  passed_checks = 0;
  failed_checks = 0;
  failure_summary = [];
  aborted = false;
}

abbrev pub loaded : Result ℕ State → Result Stopped State
loaded (err e) = err (aborted new_report (oracle_failed e))
loaded (ok s) = ok s

abbrev pub opened : Option ℕ → Result Stopped (Unit {0})
opened none = ok tt
opened (some e) = err (aborted new_report (open_failed e))

abbrev pub planned : Option (Result DagError ModuleOrder) → Result Stopped ModuleOrder
planned none = err (aborted new_report stuck)
planned (some (err e)) = err (aborted new_report (dag_failed e))
planned (some (ok order)) = ok order

-- `order.deps[name]`
pub deps_of : List Edge → Bytes → List Bytes
deps_of [] name = []
deps_of (e ∷ es) name =
    let rest = deps_of es name in if same_name e.node name then e.dep ∷ rest else rest

-- The loop over the modules keeps the report and the unhealthy ones.
pub record Progress : Type 0 where
  pub report : VerificationReport
  pub unhealthy : Bytes → Bool

abbrev pub marked : (Bytes → Bool) → Bytes → Bytes → Bool
marked unhealthy name n = if same_name n name then true else unhealthy n

abbrev pub skipped : Bytes → ModuleResult
skipped name = record (empty_module_result name) {
  warnings = 1;
  failures = record { verifier = name; key = []; reason = dependency_skipped; warning = true } ∷ [];
}

abbrev pub result_of : Bytes → Option ModuleResult → ModuleResult
result_of name (some r) = r
result_of name none = record (empty_module_result name) {
  passed = false;
  failures = record { verifier = name; key = []; reason = nil_result; warning = false } ∷ [];
}

abbrev pub after_module : Progress → Bytes → ModuleResult → Option ℕ → Result Stopped Progress
after_module s name r (some e) = err (aborted (add_module s.report r) (module_error e))
after_module s name r none = ok (record {
  report = add_module s.report r;
  unhealthy = if r.passed then s.unhealthy else marked s.unhealthy name;
})

abbrev pub unless_blocked : Progress → Bytes → ModuleRun → Option Bytes → Result Stopped Progress
unless_blocked s name run (some blocked_by) =
    ok (record { report = add_module s.report (skipped name); unhealthy = marked s.unhealthy name })
unless_blocked s name run none = after_module s name (result_of name run.result) run.error

module _ (w : World) where
  -- A turn of the loop over the modules, the `i`-th.
  unfoldable pub module_step : List Edge → ℕ → Bytes → Progress → Result Stopped Progress
  unfolding deps_of
  module_step deps i name s =
      ensure (if w.cancelled i then false else true) (aborted s.report context_done)
      >> unless_blocked s name (w.run name) (first_unhealthy_dep (deps_of deps name) s.unhealthy)

  unfoldable pub module_loop : List Edge → ℕ → List Bytes → Progress → Result Stopped Progress
  unfolding module_step
  module_loop deps i [] s = ok s
  module_loop deps i (name ∷ names) s =
      module_step deps i name s >>= λ (s' : Progress). module_loop deps (i + 1) names s'

  -- A reopened database that did not open, or what the get verifier says of it. The names of the rounds
  -- are left out.
  abbrev pub reopen_result : Result ModuleResult ModuleResult → ModuleResult × Bool
  reopen_result (err r) = (r, false)
  reopen_result (ok r) = (r, r.passed)

  abbrev pub reopen_failure : ModuleResult
  reopen_failure = record (empty_module_result get_verifier_name) {
    passed = false;
    failed_checks = 1;
    failures =
        record { verifier = get_verifier_name; key = []; reason = reopen_failed; warning = false }
        ∷ [];
  }

  abbrev pub judged : VerificationReport → ModuleResult × Bool → Result Stopped VerificationReport
  judged r (m, good) =
      if good then ok (add_module r m) else err (failed (add_module r m) reopen_refused)

  abbrev pub looked_at :
      State
      → VerificationReport
      → (Bytes → Bool)
      → Result ℕ Reader
      → Result Stopped VerificationReport
  looked_at expected r cancelled_at (err e) =
      err (failed (add_module r reopen_failure) (open_failed e))
  looked_at expected r cancelled_at (ok reader) =
      judged r (reopen_result (verify_gets reader cancelled_at expected))

  unfoldable pub reopen_step : State → ℕ → VerificationReport → Result Stopped VerificationReport
  reopen_step expected i r =
      ensure (if (w.reopen i).cancelled then false else true) (failed r context_done)
      >> looked_at expected r (w.reopen i).cancelled_at (w.reopen i).database

  -- `idempotentReopen`, from the `i`-th round on.
  unfoldable pub reopen_loop :
      State → ℕ → ℕ → VerificationReport → Result Stopped VerificationReport
  unfolding reopen_step
  reopen_loop expected zero i r = ok r
  reopen_loop expected (suc left) i r =
      reopen_step expected i r >>= λ (r' : VerificationReport). reopen_loop expected left (i + 1) r'

  abbrev pub unless_fault : Option ℕ → Stopped → Result Stopped (Unit {0})
  unless_fault none stop = ok tt
  unless_fault (some e) stop = err stop

  abbrev pub fault_of : Option ℕ → ℕ
  fault_of none = 0
  fault_of (some e) = e

  -- `Verify`: the report where it returns no error.
  unfoldable pub verify : Result Stopped VerificationReport
  unfolding module_loop reopen_loop
  verify = loaded w.oracle >>= λ (expected : State).
      opened w.open_fault
      >> planned (resolve_module_order w.registered w.dag)
      >>= λ (order : ModuleOrder).
          module_loop order.deps 0 order.modules
            (record { report = new_report; unhealthy = λ name. false })
          >>= λ (s : Progress).
              unless_fault w.scan (failed s.report (scan_failed (fault_of w.scan)))
              >> unless_fault w.close (aborted s.report (close_failed (fault_of w.close)))
              >> (if s.report.passed
                  then reopen_loop expected w.idempotent_reopens 0 s.report
                  else ok s.report)
              >>= λ (r : VerificationReport). ensure r.passed (r, checks_failed) >> ok r
