-- ===== src/Sstable/Search.antt =====
-- The standard library's `sort.Search`, which the reader and its iterator use on the index.
use pebble_db.Prelude.{
  ℕ, zero, suc, ◌+◌, ◌-◌, ◌/◌, ◌≤◌, ◌<◌, ◌≡◌, ltb, if◌then◌else◌, Bool, true, false, arith,
  Bool-cases, inl, inr, ltb→lt,
}

-- The loop halves the range, so its length is enough fuel.
unfoldable pub search_loop : ℕ → (ℕ → Bool) → ℕ → ℕ → ℕ
search_loop zero f i j = i
search_loop (suc fuel) f i j =
    let h = (i + j) / 2 in
    let upper = search_loop fuel f (h + 1) j in
    let lower = search_loop fuel f i h in if ltb i j then (if f h then lower else upper) else i

unfoldable pub sort_search : ℕ → (ℕ → Bool) → ℕ
unfolding search_loop
sort_search n f = search_loop n f 0 n

-- True from some index on, among those below `n`.
abbrev pub IsMonotone : (ℕ → Bool) → ℕ → Type 0
IsMonotone f n = (i j : ℕ) → i ≤ j → j < n → f i ≡ true → f j ≡ true

-- The first index below `n` at which `f` is true, or `n`.
pub record IsFirst (f : ℕ → Bool) (n p : ℕ) : Type 0 where
  pub within : p ≤ n
  pub before : (i : ℕ) → i < p → f i ≡ false
  pub holds : p < n → f p ≡ true

module _ (f : ℕ → Bool) (n : ℕ) (mono : IsMonotone f n) where
  not_before : (h i : ℕ) → h < n → f h ≡ false → i < h + 1 → f i ≡ false
  not_before h i inside fh lt = elim (Bool-cases (f i)) [
    | inl t ↦ absurd (let e = mono i h (omega (arith, lt)) inside t in cc (e, fh))
    | inr e ↦ e
  ]

  search_loop-IsFirst :
      (fuel i j : ℕ)
      → j - i ≤ fuel
      → i ≤ j
      → j ≤ n
      → ((k : ℕ) → k < i → f k ≡ false)
      → (j < n → f j ≡ true)
      → IsFirst f n (search_loop fuel f i j)
  unfolding search_loop
  search_loop-IsFirst zero i j enough le inside low high = record {
    within = omega arith;
    before = low;
    holds = λ lt. let e : i ≡ j = omega arith in rw e (high (omega arith));
  }
  search_loop-IsFirst (suc fuel) i j enough le inside low high =
      let h = (i + j) / 2 in
      elim (Bool-cases (ltb i j)) [
        | inl open' ↦
            let lt = ltb→lt i j open' in
            elim (Bool-cases (f h)) [
              | inl t ↦
                  rw (open', t)
                    (search_loop-IsFirst fuel i h (omega arith) (omega arith) (omega arith) low
                      (λ k. t))
              | inr u ↦
                  rw (open', u)
                    (search_loop-IsFirst fuel (h + 1) j (omega arith) (omega arith) inside
                      (λ k. not_before h k (omega arith) u) high)
            ]
        | inr shut ↦
            let e : i ≡ j = ground (arith, shut, le) in
            rw shut (record {
              within = omega arith;
              before = low;
              holds = λ lt. rw e (high (omega arith));
            })
      ]

  -- `sort.Search` ends within its fuel, at the first index at which a monotone test is true, or at `n`
  -- where there is none.
  pub sort_search-IsFirst : IsFirst f n (sort_search n f)
  unfolding sort_search
  sort_search-IsFirst =
      search_loop-IsFirst n 0 n (omega arith) (omega arith) (omega arith)
        (λ k lt. absurd (omega (arith, lt))) (λ lt. absurd (omega (arith, lt)))
