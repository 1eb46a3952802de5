-- ===== src/Acceptance/Crash/Elects.antt =====
-- When the child of a run is told to crash.
use pebble_db.Prelude.{
  sym, ◌∷◌, arith, ◌≡◌, ◌⊎◌, inl, inr, refl, subst, if◌then◌else◌, Bool, true, false, Bool-cases,
  not, ◌&&◌, none, [],
}
use pebble_db.Bytes.{Bytes}
use pebble_db.Result.{Result-cases, Result, ok, err}
use pebble_db.Acceptance.Crash.{CrashError, is_empty, Entry, resolve}
use pebble_db.Acceptance.Crash.Policy.{never, always, Evaluator, evaluate, validate}
use pebble_db.Acceptance.Crash.Manager.{
  Config, validate_config, validated, Decision, trigger, Manager, configure, elected, at_point,
  requested, with_valid, should_crash, prepare_for_scenario, evaluate_for_scenario, child_env,
}

-- What stands behind a crash: the manager is on, it is no rehearsal, the requested point is registered
-- and on, the policy elects it, and its hook has run.
pub record IsElected {E : Type 0} (m : Manager E) (env : E) (request : Bytes) (drawn : Bool)
    (hook : Bytes) : Type 0 where
  pub entry : Entry E
  pub on : m.config.enabled ≡ true
  pub real : m.config.validation_only ≡ false
  pub wet : m.config.dry_run ≡ false
  pub registered : resolve m.registry (requested m.config request) ≡ ok entry
  pub point_on : entry.point.enabled ≡ true
  pub policy :
      (evaluate m.evaluator entry.point.id entry.point.engine_hook m.config.policy request drawn).0
      ≡ ok true
  pub supports : entry.hook.supports env ≡ true
  pub executes : entry.hook.executes env ≡ true
  pub names : hook ≡ entry.point.engine_hook

-- No crash, or one that was elected.
abbrev Sound : {E : Type 0} → Manager E → E → Bytes → Bool → Result CrashError Decision → Type 0
Sound m env request drawn (err e) = Unit
Sound m env request drawn (ok d) =
    (d.should_crash ≡ false) ⊎ IsElected m env request drawn d.engine_hook

module _ {E : Type 0} (m : Manager E) (env : E) (request : Bytes) (drawn : Bool) where
  abbrev S : Result CrashError Decision × Evaluator → Type 0
  S x = Sound m env request drawn x.0

  if-S :
      (b : Bool) (x y : Result CrashError Decision × Evaluator)
      → (b ≡ true → S x)
      → (b ≡ false → S y)
      → S (if b then x else y)
  if-S true x y hx hy = hx refl
  if-S false x y hx hy = hy refl

  if-Sound :
      (b : Bool) (x y : Result CrashError Decision)
      → (b ≡ true → Sound m env request drawn x)
      → (b ≡ false → Sound m env request drawn y)
      → Sound m env request drawn (if b then x else y)
  if-Sound true x y hx hy = hx refl
  if-Sound false x y hx hy = hy refl

  with_valid-S :
      (r : Result CrashError (Unit {0})) (x : Result CrashError Decision × Evaluator)
      → S x
      → S (with_valid m.evaluator r x)
  with_valid-S (err e) x h = tt
  with_valid-S (ok u) x h = h

  validated-Sound :
      (r : Result CrashError (Unit {0})) → Sound m env request drawn (validated m.config r)
  validated-Sound (err e) = tt
  validated-Sound (ok u) = inl refl

  module _ (on : m.config.enabled ≡ true) (real : m.config.validation_only ≡ false) (e : Entry E)
      (registered : resolve m.registry (requested m.config request) ≡ ok e) where
    abbrev result : Result CrashError Bool
    result = (evaluate m.evaluator e.point.id e.point.engine_hook m.config.policy request drawn).0

    triggered :
        (b : Bool)
        → m.config.dry_run ≡ b
        → e.point.enabled ≡ true
        → result ≡ ok true
        → e.hook.supports env ≡ true
        → e.hook.executes env ≡ true
        → (not b ≡ false) ⊎ IsElected m env request drawn e.point.engine_hook
    triggered true dry point_on policy supports executes = inl refl
    triggered false dry point_on policy supports executes = inr (record {
      entry = e;
      on = on;
      real = real;
      wet = dry;
      registered = registered;
      point_on = point_on;
      policy = policy;
      supports = supports;
      executes = executes;
      names = refl;
    })

    elected-Sound :
        (r : Result CrashError Bool)
        → result ≡ r
        → e.point.enabled ≡ true
        → Sound m env request drawn (elected m.config env e r)
    elected-Sound (err x) at point_on = tt
    elected-Sound (ok false) at point_on = inl refl
    elected-Sound (ok true) at point_on =
        if-Sound (e.hook.supports env) _ _
          (λ supports.
            if-Sound (e.hook.executes env) _ _
              (λ executes. triggered m.config.dry_run refl point_on at supports executes)
              (λ broken. tt))
          (λ unfit. inl refl)

  at_point-S :
      (r : Result CrashError (Entry E))
      → resolve m.registry (requested m.config request) ≡ r
      → m.config.enabled ≡ true
      → m.config.validation_only ≡ false
      → S (at_point m.config m.evaluator env request drawn r)
  at_point-S (err x) at on real = tt
  at_point-S (ok e) at on real =
      if-S e.point.enabled _ _ (λ point_on. elected-Sound on real e at _ refl point_on)
        (λ off. inl refl)

  on_of : (b : Bool) → not b ≡ false → b ≡ true
  on_of true h = refl
  on_of false h = cc h

  told :
      (d : Decision)
      → Sound m env request drawn (ok d)
      → (child_env d ≡ []) ⊎ IsElected m env request drawn (child_env d)
  unfolding child_env
  told d (inl no_crash) = inl (rw no_crash refl)
  told d (inr elected) = elim (Bool-cases (d.should_crash && not (is_empty d.engine_hook))) [
    | inl crash ↦ rw crash (inr elected)
    | inr silent ↦ inl (rw silent refl)
  ]

  -- A run is told to crash only where the manager is on and neither validates nor rehearses, where the point
  -- that the configuration or else the scenario names is registered and on, the policy elects it, and its
  -- hook supports the environment and has run; and it is then told the hook of that point.
  pub should_crash-IsElected :
      (d : Decision)
      → (should_crash m env request drawn).0 ≡ ok d
      → (child_env d ≡ []) ⊎ IsElected m env request drawn (child_env d)
  unfolding should_crash child_env
  should_crash-IsElected d h =
      let c = m.config in
      let sound : S (should_crash m env request drawn) = with_valid-S (validate_config c) _ (
        if-S c.validation_only _ _ (λ checks. validated-Sound _)
          (λ real.
            if-S (not c.enabled) _ _ (λ off. inl refl)
              (λ on.
                if-S (is_empty (requested c request)) _ _ (λ nothing. inl refl)
                  (λ some_point. at_point-S _ refl (on_of c.enabled on) real)))) in
      told d (subst (Sound m env request drawn) h sound)

abbrev always_at : Bytes → Config
always_at crash_point = record {
  crash_point_id = crash_point;
  policy = record { kind = always; probability_fits = true; n = 0 };
  enabled = true;
  dry_run = false;
  validation_only = false;
}

module _ {E : Type 0} (m : Manager E) (env : E) (crash_point : Bytes) (drawn : Bool)
    (e : Entry E) where
  prepared : Manager E
  prepared = record m { config = always_at crash_point }

  prepare-eq :
      is_empty crash_point ≡ false
      → resolve m.registry crash_point ≡ ok e
      → prepare_for_scenario m crash_point ≡ (prepared, none)
  unfolding prepare_for_scenario configure validate_config validate prepared
  prepare-eq named registered = rw (named, registered) (rw named refl)

-- What the child of a run is told.
abbrev pub told_by : Result CrashError Decision → Bytes
told_by (err e) = []
told_by (ok d) = child_env d

-- What a scenario that names a crash point asks for: the hook of the point, if it is registered and on, and
-- its hook supports the environment and runs.
abbrev pub hook_for : {E : Type 0} → Result CrashError (Entry E) → E → Bytes
hook_for (err x) env = []
hook_for (ok e) env =
    if e.point.enabled && (e.hook.supports env && e.hook.executes env)
    then e.point.engine_hook
    else []

nil_of_is_empty : (b : Bytes) → is_empty b ≡ true → b ≡ []
nil_of_is_empty [] h = refl
nil_of_is_empty (x ∷ b) h = absurd (ground (arith, h))

crash_told :
    (c : Config) (id hook : Bytes) → c.dry_run ≡ false → child_env (trigger c id hook) ≡ hook
unfolding child_env
crash_told c id hook wet = elim (Bool-cases (is_empty hook)) [
  | inl nothing ↦ rw (wet, nothing) (sym (nil_of_is_empty hook nothing))
  | inr given ↦ rw (wet, given) refl
]

module _ {E : Type 0} (m : Manager E) (env : E) (crash_point : Bytes) (drawn : Bool) where
  prepared_told :
      (e : Entry E)
      → is_empty crash_point ≡ false
      → resolve m.registry crash_point ≡ ok e
      → told_by (should_crash (record m { config = always_at crash_point }) env crash_point drawn).0
        ≡ hook_for (ok e) env
  unfolding should_crash validate_config validate evaluate child_env
  prepared_told e named registered = elim (Bool-cases e.point.enabled) [
    | inr off ↦ rw (named, registered, off) (rw named refl)
    | inl on ↦ elim (Bool-cases (e.hook.supports env)) [
      | inr unfit ↦ rw (named, registered, on, unfit) (rw named refl)
      | inl fit ↦ elim (Bool-cases (e.hook.executes env)) [
        | inr breaks ↦ rw (named, registered, on, fit, breaks) (rw named refl)
        | inl runs ↦
            rw (named, registered, on, fit, runs)
              (rw named (crash_told (always_at crash_point) e.point.id e.point.engine_hook refl))
      ]
    ]
  ]

  abbrev never_at : Config
  never_at = record {
    crash_point_id = [];
    policy = record { kind = never; probability_fits = true; n = 0 };
    enabled = false;
    dry_run = false;
    validation_only = false;
  }

  disabled_told :
      told_by (should_crash (record m { config = never_at }) env crash_point drawn).0 ≡ []
  unfolding should_crash validate_config child_env
  disabled_told = refl

  -- What the child of a scenario is told, whatever the manager was configured to do and had evaluated
  -- before: nothing where the scenario names no crash point, and else the hook of the point that it names
  -- by its id or its hook, where that is registered and on, and its hook supports the environment and
  -- runs; in every other case nothing.
  pub evaluate_for_scenario-tells :
      told_by (evaluate_for_scenario m env crash_point drawn).0
      ≡ (if is_empty crash_point then [] else hook_for (resolve m.registry crash_point) env)
  unfolding evaluate_for_scenario prepare_for_scenario configure validate_config validate prepared
  evaluate_for_scenario-tells = elim (Bool-cases (is_empty crash_point)) [
    | inl nothing ↦ rw nothing disabled_told
    | inr named ↦ elim (Result-cases (resolve m.registry crash_point)) [
      | inl (x, unknown) ↦ rw (named, unknown) (rw named refl)
      | inr (e, registered) ↦
          rw (prepare-eq m env crash_point drawn e named registered, named, registered)
            (prepared_told e named registered)
    ]
  ]
