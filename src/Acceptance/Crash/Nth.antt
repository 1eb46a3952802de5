-- ===== src/Acceptance/Crash/Nth.antt =====
-- The policy that crashes on every Nth evaluation of a point.
use pebble_db.Prelude.{
  ℕ, suc, ◌+◌, ◌%◌, ◌<◌, ◌≡◌, refl, ap, ltb, ◌==◌, if◌then◌else◌, true, false, List, [], ◌∷◌, arith,
}
use pebble_db.Bytes.{Bytes}
use pebble_db.Bytes.Order.{is_eq_refl}
use pebble_db.Result.{ok}
use pebble_db.Acceptance.Crash.{same_string}
use pebble_db.Acceptance.Crash.Policy.{
  Policy, nth_invocation, Evaluator, no_invocations, counted, validate, evaluate,
}

abbrev pub every : ℕ → Policy
every n = record { kind = nth_invocation; probability_fits = true; n = n }

-- The evaluator after evaluations of some points, one after another.
unfoldable pub after_points : ℕ → Evaluator → List Bytes → Evaluator
after_points n e [] = e
after_points n e (p ∷ ps) = after_points n (evaluate e p [] (every n) [] false).1 ps

-- How often a point is among them.
unfoldable pub times : Bytes → List Bytes → ℕ
times id [] = 0
times id (p ∷ ps) = if same_string id p then suc (times id ps) else times id ps

evaluate-eq :
    (e : Evaluator) (p : Bytes) (n : ℕ)
    → 0 < n
    → evaluate e p [] (every n) [] false ≡ (ok ((e p + 1) % n == 0), counted e p)
unfolding evaluate validate
evaluate-eq e p n pos =
    let fits : ltb n 1 ≡ false = ground (arith, pos) in rw (fits, is_eq_refl p) refl

after_points-times :
    (ps : List Bytes) (n : ℕ) (e : Evaluator) (id : Bytes)
    → 0 < n
    → after_points n e ps id ≡ e id + times id ps
unfolding after_points times
after_points-times [] n e id pos = omega arith
after_points-times (p ∷ ps) n e id pos =
    let ih = after_points-times ps n (counted e p) id pos in
    rw (evaluate-eq e p n pos) (ground (arith, ih))

-- An evaluation of a point elects a crash exactly where the number of its evaluations, this one among
-- them, is a multiple of N, however many evaluations of other points came in between. N is one or more.
pub evaluate-nth :
    (ps : List Bytes) (n : ℕ) (id : Bytes)
    → 0 < n
    → (evaluate (after_points n no_invocations ps) id [] (every n) [] false).0
      ≡ ok ((times id ps + 1) % n == 0)
evaluate-nth ps n id pos =
    rw
      (
        evaluate-eq (after_points n no_invocations ps) id n pos,
        after_points-times ps n no_invocations id pos,
      )
      (ap (λ m. ok ((m + 1) % n == 0)) (let e : 0 + times id ps ≡ times id ps = omega arith in e))
