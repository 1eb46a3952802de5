-- ===== src/Acceptance/Verifier/Modules.antt =====
-- The modules behind a report that has passed.
use pebble_db.Prelude.{
  ℕ, ◌+◌, ◌≡◌, refl, sym, subst, ◌&&◌, if◌then◌else◌, Bool, true, false, Option, none, some, List,
  [], ◌∷◌, All,
}
use pebble_db.Bytes.{Bytes}
use pebble_db.Result.{ok, ensure, >>=-eq-ok}
use pebble_db.Acceptance.Dag.{Edge, first_unhealthy_dep}
use pebble_db.Acceptance.Verifier.{ModuleResult, add_module}
use pebble_db.Acceptance.Verifier.Engine.{
  ModuleRun, World, Progress, deps_of, skipped, marked, result_of, after_module, unless_blocked,
  module_step, module_loop,
}

-- A module that ran without an error, with a result that passed.
abbrev pub HasPassed : ModuleRun → Type 0
HasPassed run = (r : ModuleResult) × (run.result ≡ some r) × (r.passed ≡ true) × (run.error ≡ none)

-- Nothing is unhealthy while the report has passed.
abbrev pub IsHealthy : Progress → Type 0
IsHealthy s = s.report.passed ≡ true → (n : Bytes) → s.unhealthy n ≡ false

both_true : (a b : Bool) → (a && b) ≡ true → (a ≡ true) × (b ≡ true)
both_true true true h = (refl, refl)
both_true true false h = cc h
both_true false b h = cc h

no_unhealthy :
    (deps : List Bytes) (unhealthy : Bytes → Bool)
    → ((n : Bytes) → unhealthy n ≡ false)
    → first_unhealthy_dep deps unhealthy ≡ none
unfolding first_unhealthy_dep
no_unhealthy [] unhealthy h = refl
no_unhealthy (d ∷ deps) unhealthy h = rw (h d) (no_unhealthy deps unhealthy h)

given_result :
    (name : Bytes) (o : Option ModuleResult)
    → (result_of name o).passed ≡ true
    → (r : ModuleResult) × (o ≡ some r) × (r.passed ≡ true)
given_result name none h = cc h
given_result name (some r) h = (r, refl, h)

after_module-eq :
    (s s' : Progress) (name : Bytes) (r : ModuleResult) (e : Option ℕ)
    → after_module s name r e ≡ ok s'
    → (e ≡ none)
      × (record {
        report = add_module s.report r;
        unhealthy = if r.passed then s.unhealthy else marked s.unhealthy name;
      }
          ≡ s')
after_module-eq s s' name r (some e) h = cc h
after_module-eq s s' name r none h = (refl, cc h)

IsHealthy-after :
    (s : Progress) (name : Bytes) (r : ModuleResult)
    → IsHealthy s
    → IsHealthy (record {
      report = add_module s.report r;
      unhealthy = if r.passed then s.unhealthy else marked s.unhealthy name;
    })
IsHealthy-after s name r h passed n =
    let (before, good) = both_true s.report.passed r.passed passed in rw good (h before n)

unless_blocked-passed :
    (s s' : Progress) (name : Bytes) (run : ModuleRun) (o : Option Bytes)
    → unless_blocked s name run o ≡ ok s'
    → IsHealthy s
    → (s.report.passed ≡ true → o ≡ none)
    → IsHealthy s' × (s'.report.passed ≡ true → (s.report.passed ≡ true) × HasPassed run)
unless_blocked-passed s s' name run (some b) e h free =
    let same : record {
      report = add_module s.report (skipped name);
      unhealthy = marked s.unhealthy name;
    }
        ≡ s' =
      cc e in
    subst
      (λ (x : Progress).
        IsHealthy x × (x.report.passed ≡ true → (s.report.passed ≡ true) × HasPassed run))
      same
      (
        (λ p n. let no = free ((both_true s.report.passed true p).0) in cc no),
        (λ p. let no = free ((both_true s.report.passed true p).0) in cc no),
      )
unless_blocked-passed s s' name run none e h free =
    let r = result_of name run.result in
    let (no_error, same) = after_module-eq s s' name r run.error e in
    subst
      (λ (x : Progress).
        IsHealthy x × (x.report.passed ≡ true → (s.report.passed ≡ true) × HasPassed run))
      same
      (
        IsHealthy-after s name r h,
        (λ p.
            let (before, good) = both_true s.report.passed r.passed p in
            let (given, is, passed) = given_result name run.result good in
            (before, (given, is, passed, no_error))),
      )

module _ (w : World) where
  module_step-passed :
      (deps : List Edge) (i : ℕ) (name : Bytes) (s s' : Progress)
      → module_step w deps i name s ≡ ok s'
      → IsHealthy s
      → IsHealthy s' × (s'.report.passed ≡ true → (s.report.passed ≡ true) × HasPassed (w.run name))
  unfolding module_step
  module_step-passed deps i name s s' e h =
      let (u, on, stepped) = >>=-eq-ok (ensure (if w.cancelled i then false else true) _) _ e in
      unless_blocked-passed s s' name (w.run name)
        (first_unhealthy_dep (deps_of deps name) s.unhealthy) stepped h
        (λ passed. no_unhealthy (deps_of deps name) s.unhealthy (h passed))

  pub module_loop-passed :
      (deps : List Edge) (i : ℕ) (names : List Bytes) (s s' : Progress)
      → module_loop w deps i names s ≡ ok s'
      → IsHealthy s
      → s'.report.passed ≡ true
      → (s.report.passed ≡ true) × All (λ (name : Bytes). HasPassed (w.run name)) names
  unfolding module_loop
  module_loop-passed deps i [] s s' e h passed =
      let same : s ≡ s' = cc e in
      (subst (λ (x : Progress). x.report.passed ≡ true) (sym same) passed, tt)
  module_loop-passed deps i (name ∷ names) s s' e h passed =
      let (mid, stepped, rest) = >>=-eq-ok (module_step w deps i name s) _ e in
      let (healthy, back) = module_step-passed deps i name s mid stepped h in
      let (mid_passed, others) = module_loop-passed deps (i + 1) names mid s' rest healthy passed in
      let (before, here) = back mid_passed in (before, (here, others))
