-- ===== src/Acceptance/Crash/Registered.antt =====
-- The registry resolves what was registered.
use pebble_db.Prelude.{
  Bool, ap, ◌∙◌, subst, All, All-append, All-map, ◌≡◌, refl, sym, true, Bool-cases, inl, inr,
  if◌then◌else◌, Option, none, some, List, [], ◌∷◌, ◌++◌, Option-cases,
}
use pebble_db.Bytes.{Bytes}
use pebble_db.Bytes.Order.{is_eq_refl, eq_of_is_eq}
use pebble_db.Result.{Result, ok, err, ensure, ◌>>◌, >>=-eq-ok, ensure-eq-ok}
use pebble_db.Acceptance.Crash.{
  CrashError, same_string, CrashPoint, CrashHook, Entry, Registry, is_none, entry_of, id_of_hook,
  validate_point, register, resolve,
}

module _ {E : Type 0} where
  entry_of-snoc_new :
      (es : List (Entry E)) (e : Entry E) (id : Bytes)
      → entry_of es id ≡ none
      → entry_of (es ++ e ∷ []) id ≡ (if same_string id e.point.id then some e else none)
  unfolding entry_of
  entry_of-snoc_new [] e id h = refl
  entry_of-snoc_new (x ∷ es) e id h = elim (Bool-cases (same_string id x.point.id)) [
    | inl here ↦ cc (rw here at h)
    | inr other ↦ rw other (entry_of-snoc_new es e id (rw other at h))
  ]

  entry_of-snoc_old :
      (es : List (Entry E)) (e x : Entry E) (id : Bytes)
      → entry_of es id ≡ some x
      → entry_of (es ++ e ∷ []) id ≡ some x
  unfolding entry_of
  entry_of-snoc_old [] e x id h = cc h
  entry_of-snoc_old (y ∷ es) e x id h = elim (Bool-cases (same_string id y.point.id)) [
    | inl here ↦ rw here (rw here at h)
    | inr other ↦ rw other (entry_of-snoc_old es e x id (rw other at h))
  ]

id_of_hook-snoc :
    (hs : List (Bytes × Bytes)) (h : Bytes × Bytes) (name id : Bytes)
    → id_of_hook hs name ≡ some id
    → id_of_hook (hs ++ h ∷ []) name ≡ some id
unfolding id_of_hook
id_of_hook-snoc [] h name id at = cc at
id_of_hook-snoc ((k, v) ∷ hs) h name id at = elim (Bool-cases (same_string name k)) [
  | inl here ↦ rw here (rw here at at)
  | inr other ↦ rw other (id_of_hook-snoc hs h name id (rw other at at))
]

id_of_hook-snoc_new :
    (hs : List (Bytes × Bytes)) (h : Bytes × Bytes) (name : Bytes)
    → id_of_hook hs name ≡ none
    → id_of_hook (hs ++ h ∷ []) name ≡ (if same_string name h.0 then some h.1 else none)
unfolding id_of_hook
id_of_hook-snoc_new [] h name at = refl
id_of_hook-snoc_new ((k, v) ∷ hs) h name at = elim (Bool-cases (same_string name k)) [
  | inl here ↦ cc (rw here at at)
  | inr other ↦ rw other (id_of_hook-snoc_new hs h name (rw other at at))
]

none_of_is_none : {A : Type 0} (o : Option A) → is_none o ≡ true → o ≡ none
none_of_is_none none h = refl
none_of_is_none (some a) h = cc h

-- The id of every hook is the id of a registered point.
abbrev pub IsWired : {E : Type 0} → Registry E → Type 0
IsWired {E} r =
    All (λ (h : Bytes × Bytes). (e : Entry E) × (entry_of r.by_id h.1 ≡ some e)) r.by_hook

wired_entry :
    {E : Type 0} (es : List (Entry E)) (hs : List (Bytes × Bytes)) (name id : Bytes)
    → All (λ (h : Bytes × Bytes). (e : Entry E) × (entry_of es h.1 ≡ some e)) hs
    → id_of_hook hs name ≡ some id
    → (e : Entry E) × (entry_of es id ≡ some e)
unfolding id_of_hook
wired_entry es [] name id h at = cc at
wired_entry {E} es ((k, v) ∷ hs) name id h at = elim (Bool-cases (same_string name k)) [
  | inl here ↦
      let same : v ≡ id = cc (rw here at at) in
      subst (λ (i : Bytes). (e : Entry E) × (entry_of es i ≡ some e)) same h.0
  | inr other ↦ wired_entry es hs name id h.1 (rw other at at)
]

-- What a name that was not resolved is resolved to, if it is the hook of a new point.
abbrev pub or_new :
    {E : Type 0} → Result CrashError (Entry E) → Bool → Entry E → Result CrashError (Entry E)
or_new (ok e) is_hook new = ok e
or_new (err x) is_hook new = if is_hook then ok new else err x

module _ {E : Type 0} (r : Registry E) (point : CrashPoint) (hook : CrashHook E) where
  abbrev extended : Registry E
  extended = record {
    by_id = r.by_id ++ record { point = point; hook = hook } ∷ [];
    by_hook = r.by_hook ++ (point.engine_hook, point.id) ∷ [];
  }

  register-eq :
      {r' : Registry E}
      → register r point hook ≡ ok r'
      → (entry_of r.by_id point.id ≡ none) × (r' ≡ extended)
  unfolding register
  register-eq h =
      let c1 = validate_point point in
      let c2 = c1 >> ensure (same_string hook.id point.id) CrashError.invalid_config in
      let c3 = c2 >> ensure (is_none (entry_of r.by_id point.id)) CrashError.duplicate_point in
      let c4 =
        c3
        >> ensure (is_none (id_of_hook r.by_hook point.engine_hook)) CrashError.duplicate_point in
      let (u4, h4, last) = >>=-eq-ok c4 _ h in
      let (u3, h3, e4) = >>=-eq-ok c3 _ h4 in
      let (u2, h2, e3) = >>=-eq-ok c2 _ h3 in
      (
        none_of_is_none (entry_of r.by_id point.id)
            (ensure-eq-ok (is_none (entry_of r.by_id point.id)) CrashError.duplicate_point e3),
        sym (registry_in last),
      )
    where
      registry_in :
          {r' : Registry E}
          → ◌≡◌ {A = Result CrashError (Registry E)} (ok extended) (ok r')
          → extended ≡ r'
      registry_in e = cc e

  abbrev new_entry : Entry E
  new_entry = record { point = point; hook = hook }

  extended-IsWired : IsWired r → entry_of r.by_id point.id ≡ none → IsWired extended
  extended-IsWired wired fresh =
      All-append (λ (h : Bytes × Bytes). (e : Entry E) × (entry_of extended.by_id h.1 ≡ some e))
        r.by_hook ((point.engine_hook, point.id) ∷ [])
        (All-map (λ (h : Bytes × Bytes). (e : Entry E) × (entry_of r.by_id h.1 ≡ some e))
          (λ (h : Bytes × Bytes). (e : Entry E) × (entry_of extended.by_id h.1 ≡ some e)) r.by_hook
          (λ h known. (known.0, entry_of-snoc_old r.by_id new_entry known.0 h.1 known.1)) wired)
        (
          (
            new_entry,
            rw (entry_of-snoc_new r.by_id new_entry point.id fresh, is_eq_refl point.id) refl,
          ),
          tt,
        )

  resolve-extended :
      (name : Bytes)
      → IsWired r
      → entry_of r.by_id point.id ≡ none
      → resolve extended name ≡ (
          if same_string name point.id
          then ok new_entry
          else or_new (resolve r name) (same_string name point.engine_hook) new_entry)
  unfolding resolve
  resolve-extended name wired fresh = elim (Option-cases (entry_of r.by_id name)) [
    | inr (x, found) ↦ elim (Bool-cases (same_string name point.id)) [
      | inl same ↦
          let e : name ≡ point.id = eq_of_is_eq name point.id same in
          cc (sym found ∙ ap (entry_of r.by_id) e ∙ fresh)
      | inr other ↦ rw (entry_of-snoc_old r.by_id new_entry x name found, found, other) refl
    ]
    | inl absent ↦
        rw (entry_of-snoc_new r.by_id new_entry name absent, absent)
          (elim (Bool-cases (same_string name point.id)) [
            | inl same ↦ rw same refl
            | inr other ↦ rw other (elim (Option-cases (id_of_hook r.by_hook name)) [
              | inl no_hook ↦
                  rw
                    (
                      id_of_hook-snoc_new r.by_hook (point.engine_hook, point.id) name no_hook,
                      no_hook,
                    )
                    (elim (Bool-cases (same_string name point.engine_hook)) [
                      | inl hooked ↦
                          rw
                            (
                              hooked,
                              entry_of-snoc_new r.by_id new_entry point.id fresh,
                              is_eq_refl point.id,
                            )
                            refl
                      | inr not_hooked ↦ rw not_hooked refl
                    ])
              | inr (id, by_hook) ↦
                  let (x, there) = wired_entry r.by_id r.by_hook name id wired by_hook in
                  rw
                    (
                      id_of_hook-snoc r.by_hook (point.engine_hook, point.id) name id by_hook,
                      by_hook,
                      entry_of-snoc_old r.by_id new_entry x id there,
                      there,
                    )
                    refl
            ])
          ])
  ]

  -- After a registration the new point is resolved by its id, and by its engine hook if that name was not
  -- resolved before; every other name is resolved, or not, as before. An id that was the hook of another
  -- point now hides it. The ids of all hooks are registered, before and then again.
  pub register-resolves :
      (r' : Registry E) (name : Bytes)
      → IsWired r
      → register r point hook ≡ ok r'
      → IsWired r'
        × (resolve r' name ≡ (
            if same_string name point.id
            then ok (record { point = point; hook = hook })
            else or_new
                (resolve r name)
                (same_string name point.engine_hook)
                (record { point = point; hook = hook })))
  register-resolves r' name wired done =
      let (fresh, same) = register-eq done in
      (
        subst IsWired (sym same) (extended-IsWired wired fresh),
        ap (λ (x : Registry E). resolve x name) same ∙ resolve-extended name wired fresh,
      )
