-- ===== src/Acceptance/Dataset/Agrees.antt =====
-- What the generator expects is what its writes mean.
use pebble_db.Prelude.{
  ℕ, zero, suc, ◌+◌, ◌≤◌, ◌≡◌, refl, sym, ap, ◌∙◌, subst, ltb, leb, if◌then◌else◌, Bool, true,
  false, Bool-cases, inl, inr, Option, none, some, [], ◌∷◌, length, arith,
}
use pebble_db.Bytes.{Bytes, copy_slice, compare_bytes}
use pebble_db.Bytes.Order.{is_eq, eq_of_is_eq}
use pebble_db.Result.{Result, ok, err, ◌>>=◌, >>=-eq-ok}
use pebble_db.Iterator.{Entry}
use pebble_db.Iterator.Merge.Lists.{find}
use pebble_db.Db.Get.Layers.{batch_entries, is_eq_comm}
use pebble_db.Acceptance.Dataset.{
  ValueSnapshot, State, get, set, SequentialGenerator, Run, GenerateError, unless, put, delete,
  fill, overwrite, bury, generate, version_of, at_least_two,
}

-- A snapshot as the entry that a lookup of the key gives.
abbrev pub entry_at : Bytes → Option ValueSnapshot → Option Entry
entry_at key none = none
entry_at key (some s) = some (record { key = key; value = s.value; tombstone = s.tombstone })

get-set :
    (m : State) (key k : Bytes) (snap : ValueSnapshot)
    → get (set m key snap) k ≡ (if is_eq (compare_bytes k key) then some snap else get m k)
unfolding get set
get-set [] key k snap = refl
get-set ((x, s) ∷ m) key k snap = elim (Bool-cases (is_eq (compare_bytes key x))) [
  | inl here ↦
      let e : key ≡ x = eq_of_is_eq key x here in
      rw (here, e)
        (elim (Bool-cases (is_eq (compare_bytes k x))) [ inl h ↦ rw h refl | inr h ↦ rw h refl ])
  | inr other ↦ rw other (elim (Bool-cases (is_eq (compare_bytes k x))) [
    | inl h ↦
        let e : k ≡ x = eq_of_is_eq k x h in
        let apart : is_eq (compare_bytes k key) ≡ false =
          subst (λ (b : Bytes). is_eq (compare_bytes b key) ≡ false) (sym e)
            (is_eq_comm x key ∙ other) in
        rw h (rw apart refl)
    | inr h ↦ rw h (get-set m key k snap)
  ])
]

module _ (g : SequentialGenerator) (fault : ℕ → Option ℕ) (k : Bytes) where
  -- The key is expected as the newest of the records has it.
  abbrev Agrees : Run → Type 0
  Agrees r = entry_at k (get r.expected k) ≡ find k (batch_entries r.written)

  set-Agrees :
      (r : Run) (key : Bytes) (val : Bytes) (tomb : Bool) (version : ℕ)
      → Agrees r
      → Agrees (record {
        written = record { key = key; value = val; tombstone = tomb } ∷ r.written;
        expected =
            set r.expected key
              (record { value = copy_slice val; tombstone = tomb; version = version });
      })
  unfolding find batch_entries
  set-Agrees r key val tomb version h =
      ap (entry_at k) (
        get-set r.expected key k
          (record { value = copy_slice val; tombstone = tomb; version = version }))
      ∙ elim (Bool-cases (is_eq (compare_bytes k key))) [
        | inl same ↦
            let e : k ≡ key = eq_of_is_eq k key same in
            rw same (
              subst
                (λ (b : Bytes).
                  ◌≡◌ {A = Option Entry}
                    (some (record { key = k; value = copy_slice val; tombstone = tomb }))
                    (some (record { key = b; value = copy_slice val; tombstone = tomb })))
                e refl)
        | inr other ↦ rw other h
      ]

  unless-Agrees : (r r' : Run) (o : Option ℕ) → unless o r ≡ ok r' → Agrees r → Agrees r'
  unless-Agrees r r' none e h = let same : r ≡ r' = cc e in subst Agrees same h
  unless-Agrees r r' (some x) e h = cc e

  put-Agrees :
      (r r' : Run) (key val : Bytes) (version : ℕ)
      → put g fault r key val version ≡ ok r'
      → Agrees r
      → Agrees r'
  unfolding put
  put-Agrees r r' key val version e h =
      unless-Agrees _ r' (fault (length r.written)) e (set-Agrees r key val false version h)

  delete-Agrees : (r r' : Run) (key : Bytes) → delete g fault r key ≡ ok r' → Agrees r → Agrees r'
  unfolding delete copy_slice
  delete-Agrees r r' key e h =
      unless-Agrees _ r' (fault (length r.written)) e
        (set-Agrees r key [] true (version_of (get r.expected key) + 1) h)

  fill-Agrees : (left i : ℕ) (r r' : Run) → fill g fault left i r ≡ ok r' → Agrees r → Agrees r'
  unfolding fill
  fill-Agrees zero i r r' e h = let same : r ≡ r' = cc e in subst Agrees same h
  fill-Agrees (suc left) i r r' e h =
      let (mid, wrote, rest) = >>=-eq-ok (put g fault r (g.fmt_key i) (g.first_value i) 1) _ e in
      fill-Agrees left (i + 1) mid r' rest
        (put-Agrees r mid (g.fmt_key i) (g.first_value i) 1 wrote h)

  overwrite-Agrees :
      (left i : ℕ) (r r' : Run) → overwrite g fault left i r ≡ ok r' → Agrees r → Agrees r'
  unfolding overwrite
  overwrite-Agrees zero i r r' e h = let same : r ≡ r' = cc e in subst Agrees same h
  overwrite-Agrees (suc left) i r r' e h =
      let key = g.fmt_key (g.drawn_index i) in
      let version = at_least_two g fault (version_of (get r.expected key) + 1) in
      let (mid, wrote, rest) = >>=-eq-ok (put g fault r key (g.next_value i) version) _ e in
      overwrite-Agrees left (i + 1) mid r' rest
        (put-Agrees r mid key (g.next_value i) version wrote h)

  bury-Agrees : (left i : ℕ) (r r' : Run) → bury g fault left i r ≡ ok r' → Agrees r → Agrees r'
  unfolding bury
  bury-Agrees zero i r r' e h = let same : r ≡ r' = cc e in subst Agrees same h
  bury-Agrees (suc left) i r r' e h = elim (Bool-cases (ltb i g.count)) [
    | inl more ↦
        let (mid, wrote, rest) = >>=-eq-ok (delete g fault r (g.fmt_key i)) _ (rw more at e) in
        bury-Agrees left (i + g.tombstone_every) mid r' rest
          (delete-Agrees r mid (g.fmt_key i) wrote h)
    | inr done ↦
        let last : ok r ≡ ok r' = rw done at e in let same : r ≡ r' = cc last in subst Agrees same h
  ]

  buried-Agrees :
      (b : Bool) (r r' : Run)
      → (if b then bury g fault g.count 0 r else ok r) ≡ ok r'
      → Agrees r
      → Agrees r'
  buried-Agrees true r r' e h = bury-Agrees g.count 0 r r' e h
  buried-Agrees false r r' e h = let same : r ≡ r' = cc e in subst Agrees same h

  -- Where the generator ends without an error, the state that it expects has for every key the value and
  -- the tombstone of the newest of its writes with that key, and nothing where there is none.
  pub generate-Agrees :
      (r : Run)
      → generate g fault ≡ ok r
      → entry_at k (get r.expected k) ≡ find k (batch_entries r.written)
  unfolding generate get find batch_entries
  generate-Agrees r e = elim (Bool-cases (leb g.count 0)) [
    | inl few ↦ cc (rw few at e)
    | inr many ↦
        let start : Run = record { written = []; expected = [] } in
        let c1 = fill g fault g.count 0 start in
        let c2 = c1 >>= (λ (r : Run). overwrite g fault g.overwrite_count 0 r) in
        let c3 =
          c2
          >>= (λ (r : Run). if ltb 0 g.tombstone_every then bury g fault g.count 0 r else ok r) in
        let (r3, h3, e4) = >>=-eq-ok c3 _ (rw many at e) in
        let (r2, h2, e3) = >>=-eq-ok c2 _ h3 in
        let (r1, h1, e2) = >>=-eq-ok c1 _ h2 in
        unless-Agrees r3 r (fault (length r3.written)) e4 (
          buried-Agrees (ltb 0 g.tombstone_every) r2 r3 e3 (
            overwrite-Agrees g.overwrite_count 0 r1 r2 e2 (fill-Agrees g.count 0 start r1 h1 refl)))
  ]

after_either :
    (first : Result GenerateError Run) (b : Bool) (r : Run) (f f' : Run → Result GenerateError Run)
    → ((x : Run) → f x ≡ f' x)
    → (if b then first >>= f else ok r) ≡ (if b then first >>= f' else ok r)
after_either (err e) b r f f' h = refl
after_either (ok x) b r f f' h = ap (λ (y : Result GenerateError Run). if b then y else ok r) (h x)

-- More turns than there are keys change nothing, as a step is one or more.
bury-enough :
    (g : SequentialGenerator) (fault : ℕ → Option ℕ) (turns left i : ℕ) (r : Run)
    → 1 ≤ g.tombstone_every
    → left ≤ turns
    → g.count ≤ left + i
    → bury g fault turns i r ≡ bury g fault left i r
unfolding bury
bury-enough g fault zero zero i r step fewer all = refl
bury-enough g fault zero (suc left) i r step fewer all = absurd (omega (arith, fewer))
bury-enough g fault (suc turns) zero i r step fewer all =
    let past : ltb i g.count ≡ false = ground (arith, all) in rw past refl
bury-enough g fault (suc turns) (suc left) i r step fewer all =
    after_either (delete g fault r (g.fmt_key i)) (ltb i g.count) r
      (λ (x : Run). bury g fault turns (i + g.tombstone_every) x)
      (λ (x : Run). bury g fault left (i + g.tombstone_every) x)
      (λ x.
        bury-enough g fault turns left (i + g.tombstone_every) x step (omega (arith, fewer))
          (omega (arith, step, all)))
