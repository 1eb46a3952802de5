-- ===== src/Acceptance/Verifier/Reads.antt =====
-- What the get verifier passes.
use pebble_db.Prelude.{
  ◌≡◌, refl, sym, subst, ◌==◌, Bool, true, false, Bool-cases, inl, inr, Option, none, some, List,
  [], ◌∷◌, length, arith, All, length-append,
}
use pebble_db.Bytes.{Bytes, compare_bytes}
use pebble_db.Bytes.Order.{is_lt, is_eq, eq_of_is_eq}
use pebble_db.Iterator.Merge.{as_bytes}
use pebble_db.Result.{Result, ok, err}
use pebble_db.Db.{DbError, err_not_found}
use pebble_db.Acceptance.Dataset.{ValueSnapshot, State, get}
use pebble_db.Acceptance.Verifier.{
  ModuleResult, Reason, finalize_module, empty_module_result, Reader, insert_key, keys, check,
  checked, get_verifier_name, visited, get_loop, verify_gets,
}

-- What `Get` should answer: that a deleted key is not found, and the value of another; nil is the empty
-- value.
abbrev pub Answers : Bool → Option Bytes → Result DbError (Option Bytes) → Type 0
Answers true value a = a ≡ err err_not_found
Answers false value a = (v : Option Bytes) × (a ≡ ok v) × (as_bytes v ≡ as_bytes value)

check-Answers :
    (deleted : Bool) (value : Option Bytes) (a : Result DbError (Option Bytes))
    → check deleted value a ≡ none
    → Answers deleted value a
unfolding check
check-Answers true value (ok v) h = cc h
check-Answers true value (err err_not_found) h = refl
check-Answers true value (err e) h = cc h
check-Answers false value (err e) h = cc h
check-Answers false value (ok v) h =
    elim (Bool-cases (is_eq (compare_bytes (as_bytes v) (as_bytes value)))) [
      | inl same ↦ (v, refl, eq_of_is_eq (as_bytes v) (as_bytes value) same)
      | inr other ↦ cc (rw other at h)
    ]

module _ {κ} (P : Bytes → Type κ) where
  All-insert_key : (k : Bytes) (ks : List Bytes) → All P (insert_key k ks) → P k × All P ks
  unfolding insert_key
  All-insert_key k [] h = h
  All-insert_key k (x ∷ xs) h = elim (Bool-cases (is_lt (compare_bytes x k))) [
    | inl before ↦
        let h' : All P (x ∷ insert_key k xs) = rw before at h in
        let (at, rest) = All-insert_key k xs h'.1 in (at, (h'.0, rest))
    | inr after ↦ rw after at h
  ]

  All-keys :
      (m : State) (key : Bytes) (s : ValueSnapshot) → get m key ≡ some s → All P (keys m) → P key
  unfolding get keys
  All-keys [] key s found h = cc found
  All-keys ((k, x) ∷ m) key s found h =
      let (at, rest) = All-insert_key k (keys m) h in
      elim (Bool-cases (is_eq (compare_bytes key k))) [
        | inl same ↦ let e : key ≡ k = eq_of_is_eq key k same in rw e at
        | inr other ↦ All-keys m key s (rw other at found) rest
      ]

module _ (reader : Reader) (cancelled : Bytes → Bool) (expected : State) where
  abbrev Reads : Bytes → Type 0
  Reads key =
      (s : ValueSnapshot)
      → get expected key ≡ some s
      → check s.tombstone s.value (reader key) ≡ none

  finalize-passed :
      (res : ModuleResult) → (finalize_module res).passed ≡ true → length res.failures ≡ 0
  unfolding finalize_module
  finalize-passed res h = elim (Bool-cases (length res.failures == 0)) [
    | inl e ↦ ground (arith, e)
    | inr e ↦ cc (rw e at h)
  ]

  checked-passed :
      (res : ModuleResult) (key : Bytes) (r : Option Reason)
      → length (checked res key r).failures ≡ 0
      → (length res.failures ≡ 0) × (r ≡ none)
  checked-passed res key none h = (h, refl)
  checked-passed res key (some r) h = absurd (
      omega (
        arith,
        h,
        length-append res.failures
            (record { verifier = get_verifier_name; key = key; reason = r; warning = false } ∷ []),
      ))

  visited-passed :
      (res : ModuleResult) (key : Bytes) (o : Option ValueSnapshot)
      → length (visited reader res key o).failures ≡ 0
      → (length res.failures ≡ 0)
        × ((s : ValueSnapshot) → o ≡ some s → check s.tombstone s.value (reader key) ≡ none)
  visited-passed res key none h = (h, λ s e. cc e)
  visited-passed res key (some x) h =
      let (before, good) = checked-passed res key (check x.tombstone x.value (reader key)) h in
      (before, λ s e. let same : x ≡ s = cc e in rw (← same) good)

  get_loop-Reads :
      (ks : List Bytes) (res res' : ModuleResult)
      → get_loop reader cancelled expected res ks ≡ ok res'
      → res'.passed ≡ true
      → (length res.failures ≡ 0) × All Reads ks
  unfolding get_loop
  get_loop-Reads [] res res' e h =
      let same : finalize_module res ≡ res' = cc e in
      (finalize-passed res (subst (λ (r : ModuleResult). r.passed ≡ true) (sym same) h), tt)
  get_loop-Reads (key ∷ ks) res res' e h = elim (Bool-cases (cancelled key)) [
    | inl stop ↦ cc (rw stop at e)
    | inr on ↦
        let (none_yet, rest) =
          get_loop-Reads ks (visited reader res key (get expected key)) res' (rw on at e) h in
        let (before, good) = visited-passed res key (get expected key) none_yet in
        (before, (good, rest))
  ]

  -- Where the get verifier passes, `Get` finds no key that is expected to be deleted, and for every other
  -- expected key gives its value.
  pub verify_gets-Answers :
      (res : ModuleResult) (key : Bytes) (s : ValueSnapshot)
      → verify_gets reader cancelled expected ≡ ok res
      → res.passed ≡ true
      → get expected key ≡ some s
      → Answers s.tombstone s.value (reader key)
  unfolding verify_gets
  verify_gets-Answers res key s e h found =
      let (start, reads) =
        get_loop-Reads (keys expected) (empty_module_result get_verifier_name) res e h in
      check-Answers s.tombstone s.value (reader key)
        (All-keys Reads expected key s found reads s found)
