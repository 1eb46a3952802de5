-- ===== src/Acceptance/Verifier/Sound.antt =====
-- What a verification without an error shows.
use pebble_db.Prelude.{
  ℕ, zero, suc, ◌+◌, ◌<◌, ◌≡◌, refl, sym, subst, ap, ◌∙◌, if◌then◌else◌, Bool, true, false,
  Bool-cases, inl, inr, Option, none, some, arith, All,
}
use pebble_db.Bytes.{Bytes}
use pebble_db.Result.{Result, ok, err, ensure, ensure-eq-ok, ◌>>◌, >>=-eq-ok}
use pebble_db.Acceptance.Dag.{DagError, ModuleOrder, resolve_module_order}
use pebble_db.Acceptance.Dataset.{ValueSnapshot, State, get}
use pebble_db.Acceptance.Verifier.{ModuleResult, VerificationReport, Reader, verify_gets}
use pebble_db.Acceptance.Verifier.Reads.{Answers, verify_gets-Answers}
use pebble_db.Acceptance.Verifier.Engine.{
  World, Progress, loaded, opened, planned, new_report, module_loop, reopen_result, judged,
  looked_at, reopen_step, reopen_loop, unless_fault, verify, failed, aborted, scan_failed,
  close_failed, checks_failed, fault_of,
}
use pebble_db.Acceptance.Verifier.Modules.{HasPassed, module_loop-passed}

module _ (w : World) where
  judged-passed :
      (expected : State) (r r' : VerificationReport) (res : Result ModuleResult ModuleResult)
      → judged w r (reopen_result w res) ≡ ok r'
      → (m : ModuleResult) × (res ≡ ok m) × (m.passed ≡ true)
  judged-passed expected r r' (err m) e = cc e
  judged-passed expected r r' (ok m) e = elim (Bool-cases m.passed) [
    | inl good ↦ (m, refl, good)
    | inr bad ↦ cc (rw bad at e)
  ]

  looked_at-Answers :
      (expected : State) (r r' : VerificationReport) (cancelled_at : Bytes → Bool)
      (database : Result ℕ Reader) (key : Bytes) (s : ValueSnapshot)
      → looked_at w expected r cancelled_at database ≡ ok r'
      → get expected key ≡ some s
      → (reader : Reader) × (database ≡ ok reader) × Answers s.tombstone s.value (reader key)
  looked_at-Answers expected r r' cancelled_at (err x) key s e found = cc e
  looked_at-Answers expected r r' cancelled_at (ok reader) key s e found =
      let (m, gets, good) =
        judged-passed expected r r' (verify_gets reader cancelled_at expected) e in
      (reader, refl, verify_gets-Answers reader cancelled_at expected m key s gets good found)

  reopen_loop-Answers :
      (expected : State) (left i j : ℕ) (r r' : VerificationReport) (key : Bytes)
      (s : ValueSnapshot)
      → reopen_loop w expected left i r ≡ ok r'
      → j < left
      → get expected key ≡ some s
      → (reader : Reader) × ((w.reopen (i + j)).database ≡ ok reader)
        × Answers s.tombstone s.value (reader key)
  unfolding reopen_loop reopen_step
  reopen_loop-Answers expected zero i j r r' key s e less found = absurd (omega (arith, less))
  reopen_loop-Answers expected (suc left) i zero r r' key s e less found =
      let (mid, stepped, rest) = >>=-eq-ok (reopen_step w expected i r) _ e in
      let (u, on, seen) =
        >>=-eq-ok (ensure (if (w.reopen i).cancelled then false else true) _) _ stepped in
      let here : i ≡ i + 0 = omega arith in
      subst
        (λ (n : ℕ).
          (reader : Reader) × ((w.reopen n).database ≡ ok reader)
          × Answers s.tombstone s.value (reader key))
        here
        (looked_at-Answers expected r mid (w.reopen i).cancelled_at (w.reopen i).database key s seen
          found)
  reopen_loop-Answers expected (suc left) i (suc j) r r' key s e less found =
      let (mid, stepped, rest) = >>=-eq-ok (reopen_step w expected i r) _ e in
      let e' : i + 1 + j ≡ i + suc j = omega arith in
      subst
        (λ (n : ℕ).
          (reader : Reader) × ((w.reopen n).database ≡ ok reader)
          × Answers s.tombstone s.value (reader key))
        e'
        (reopen_loop-Answers expected left (i + 1) j mid r' key s rest (omega (arith, less)) found)

  loaded-eq : (o : Result ℕ State) (expected : State) → loaded o ≡ ok expected → o ≡ ok expected
  loaded-eq (ok x) expected e = let same : x ≡ expected = cc e in ap (λ (y : State). ok y) same
  loaded-eq (err x) expected e = cc e

  planned-eq :
      (o : Option (Result DagError ModuleOrder)) (order : ModuleOrder)
      → planned o ≡ ok order
      → o ≡ some (ok order)
  planned-eq none order e = cc e
  planned-eq (some (err x)) order e = cc e
  planned-eq (some (ok x)) order e =
      let same : x ≡ order = cc e in ap (λ (y : ModuleOrder). some (ok y)) same

  -- The parts of a run without an error.
  record Parts (report : VerificationReport) : Type 0 where
    expected : State
    oracle : w.oracle ≡ ok expected
    order : ModuleOrder
    plan : resolve_module_order w.registered w.dag ≡ some (ok order)
    modules : All (λ (name : Bytes). HasPassed (w.run name)) order.modules
    reported : VerificationReport
    reopens : reopen_loop w expected w.idempotent_reopens 0 reported ≡ ok report

  reopened-eq :
      (expected : State) (b : Bool) (r r' : VerificationReport)
      → (if b then reopen_loop w expected w.idempotent_reopens 0 r else ok r) ≡ ok r'
      → b ≡ r.passed
      → r'.passed ≡ true
      → (r.passed ≡ true) × (reopen_loop w expected w.idempotent_reopens 0 r ≡ ok r')
  reopened-eq expected true r r' e b h = (sym b, e)
  reopened-eq expected false r r' e b h =
      let same : r ≡ r' = cc e in
      let passed : r.passed ≡ true =
        subst (λ (x : VerificationReport). x.passed ≡ true) (sym same) h in
      cc (b ∙ passed)

  verify-Parts : (report : VerificationReport) → verify w ≡ ok report → Parts report
  unfolding verify
  verify-Parts report e =
      let (expected, oracle, e1) = >>=-eq-ok (loaded w.oracle) _ e in
      let (order, plan, e2) =
        >>=-eq-ok (opened w.open_fault >> planned (resolve_module_order w.registered w.dag)) _ e1 in
      let (u1, open_at, plan') = >>=-eq-ok (opened w.open_fault) _ plan in
      let first : Progress = record { report = new_report; unhealthy = λ name. false } in
      let (s, ran, e3) = >>=-eq-ok (module_loop w order.deps 0 order.modules first) _ e2 in
      let calm =
        unless_fault w w.scan (failed s.report (scan_failed (fault_of w w.scan)))
        >> unless_fault w w.close (aborted s.report (close_failed (fault_of w w.close))) in
      let reopened =
        if s.report.passed
        then reopen_loop w expected w.idempotent_reopens 0 s.report
        else ok s.report in
      let (r, whole, e4) = >>=-eq-ok (calm >> reopened) _ e3 in
      let (u2, calm_at, e5) = >>=-eq-ok calm _ whole in
      let (u3, all, last) = >>=-eq-ok (ensure r.passed (r, checks_failed)) _ e4 in
      let passed = ensure-eq-ok r.passed (r, checks_failed) all in
      let (s_passed, rounds) = reopened-eq expected s.report.passed s.report r e5 refl passed in
      let same : r ≡ report = cc last in
      record {
        expected = expected;
        oracle = loaded-eq w.oracle expected oracle;
        order = order;
        plan = planned-eq (resolve_module_order w.registered w.dag) order plan';
        modules =
            (module_loop-passed w order.deps 0 order.modules first s ran (λ p n. refl) s_passed).1;
        reported = s.report;
        reopens =
            subst
              (λ (x : VerificationReport).
                reopen_loop w expected w.idempotent_reopens 0 s.report ≡ ok x)
              same rounds;
      }

  -- Where a verification returns no error, the modules had a valid order, and every one of them ran
  -- without an error and passed: none was skipped.
  pub verify-modules :
      (report : VerificationReport)
      → verify w ≡ ok report
      → (order : ModuleOrder) × (resolve_module_order w.registered w.dag ≡ some (ok order))
        × All (λ (name : Bytes). HasPassed (w.run name)) order.modules
  verify-modules report e = let p = verify-Parts report e in (p.order, p.plan, p.modules)

  -- Where a verification returns no error, the database opened again in every round, and in each of them
  -- `Get` answered for every key of the oracle as it expects.
  pub verify-Answers :
      (report : VerificationReport) (expected : State) (round : ℕ) (key : Bytes) (s : ValueSnapshot)
      → verify w ≡ ok report
      → w.oracle ≡ ok expected
      → round < w.idempotent_reopens
      → get expected key ≡ some s
      → (reader : Reader) × ((w.reopen round).database ≡ ok reader)
        × Answers s.tombstone s.value (reader key)
  verify-Answers report expected round key s e oracle less found =
      let p = verify-Parts report e in
      let both : ok p.expected ≡ ok expected = sym p.oracle ∙ oracle in
      let same : p.expected ≡ expected = cc both in
      let at : get p.expected key ≡ some s =
        subst (λ (m : State). get m key ≡ some s) (sym same) found in
      let from_zero : 0 + round ≡ round = omega arith in
      subst
        (λ (n : ℕ).
          (reader : Reader) × ((w.reopen n).database ≡ ok reader)
          × Answers s.tombstone s.value (reader key))
        from_zero
        (reopen_loop-Answers p.expected w.idempotent_reopens 0 round p.reported report key s
          p.reopens less at)
