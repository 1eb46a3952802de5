-- ===== src/Iterator/Merge/Spec.antt =====
-- What the merge yields: for every key the newest entry, in ascending order of the keys.
use pebble_db.Prelude.{
  ℕ, zero, suc, ◌<◌, ◌≡◌, refl, sym, subst, Bool, true, false, Option, none, some, List, arith,
  if◌then◌else◌, Bool-cases, ◌⊎◌, inl, inr, ap, ◌∙◌, Option-cases, ◌&&◌,
}
use pebble_db.Bytes.{Bytes}
use pebble_db.Bytes.Order.{◌≺◌, trichotomy, below, same, above, lt_trans}
use pebble_db.Iterator.{Entry, Iterator, Walks}
use pebble_db.Iterator.Merge.{
  Source, Winner, Merged, exhausted, entry, no_winner, min_key_across_sources, pick, advance,
  merge_round, merge_step,
}
use pebble_db.Iterator.Merge.Views.{
  View, AllRuns, behind_below, Behind, newest, total, newest-eq-none_of_behind, behind_start,
  drop_heads-AllRuns, drop_heads-Behind, newest-drop_heads, total-drop_heads_lt, newest-key,
  newest-ne_none,
}
use pebble_db.Iterator.Merge.Rounds.{
  view, winner_of, against, pick-eq-newest, view-advance, min_key-eq-none, min_key-eq-some,
}

-- What a reader is shown of the newest entry of a key: none if it is a tombstone to be omitted.
abbrev pub visible : Bool → Option (ℕ × Entry) → Option Entry
visible omit none = none
visible omit (some (p, e)) = if e.tombstone && omit then none else some e

merge_round-entry :
    {I : Type 0} (ops : Iterator I) (srcs : List (Source I)) (w : Winner) (m : Bytes)
    → min_key_across_sources ops srcs ≡ some m
    → (advance ops m srcs).1 ≡ none
    → pick ops m no_winner srcs ≡ w
    → merge_round ops srcs ≡ entry w (advance ops m srcs).0
unfolding merge_round
merge_round-entry ops srcs w m at fine won = ground (arith, at, fine, won)

module _ {I : Type 0} (ops : Iterator I) (fuel : ℕ) (omit : Bool) (srcs : List (Source I)) where
  merge_step-exhausted :
      merge_round ops srcs ≡ exhausted srcs
      → merge_step ops (suc fuel) omit srcs ≡ some (exhausted srcs)
  unfolding merge_step
  merge_step-exhausted h = ground (arith, h)

  merge_step-shown :
      (w : Winner) (srcs' : List (Source I))
      → merge_round ops srcs ≡ entry w srcs'
      → (w.tombstone && omit) ≡ false
      → merge_step ops (suc fuel) omit srcs ≡ some (entry w srcs')
  unfolding merge_step
  merge_step-shown w srcs' h shown = ground (arith, h, shown)

  merge_step-omitted :
      (w : Winner) (srcs' : List (Source I))
      → merge_round ops srcs ≡ entry w srcs'
      → (w.tombstone && omit) ≡ true
      → merge_step ops (suc fuel) omit srcs ≡ merge_step ops fuel omit srcs'
  unfolding merge_step
  merge_step-omitted w srcs' h gone = ground (arith, h, gone)

tombstone-winner_of : (p : ℕ) (e : Entry) → (winner_of p e).tombstone ≡ e.tombstone
unfolding winner_of
tombstone-winner_of p e = refl

against-no_winner : (p : ℕ) (e : Entry) → against no_winner (some (p, e)) ≡ winner_of p e
unfolding against winner_of
against-no_winner p e = ground arith

module _ {I : Type 0} (ops : Iterator I) (rest : I → List Entry) (walks : Walks ops rest) where
  abbrev pub sees : List (Source I) → View
  sees = view rest

  -- A turn that finds the entry `e` at the front of the view.
  record Front (srcs srcs' : List (Source I)) (p : ℕ) (e : Entry) : Type 0 where
    pub runs : AllRuns (sees srcs')
    pub smaller : total (sees srcs') < total (sees srcs)
    pub behind : Behind e.key (sees srcs')
    pub before : (k : Bytes) → k ≺ e.key → newest k (sees srcs) ≡ none
    pub at : newest e.key (sees srcs) ≡ some (p, e)
    pub after : (k : Bytes) → e.key ≺ k → newest k (sees srcs') ≡ newest k (sees srcs)

  merge_round-lem :
      (srcs : List (Source I))
      → AllRuns (sees srcs)
      → ((merge_round ops srcs ≡ exhausted srcs) × ((k : Bytes) → newest k (sees srcs) ≡ none))
        ⊎ ((p : ℕ) × (e : Entry) × (srcs' : List (Source I)) × (merge_round ops srcs
              ≡ entry (winner_of p e) srcs')
            × Front srcs srcs' p e)
  unfolding merge_round
  merge_round-lem srcs runs = elim (Option-cases (min_key_across_sources ops srcs)) [
    | inl none_left ↦
        inl (ground (arith, none_left), min_key-eq-none ops rest walks srcs runs none_left)
    | inr (m, at) ↦
        let (starts, head) = min_key-eq-some ops rest walks srcs m runs at in
        let (fine, dropped) = view-advance ops rest walks m srcs runs in
        let won = pick-eq-newest ops rest walks m no_winner srcs runs starts in
        elim (Option-cases (newest m (sees srcs))) [
          | inl e ↦ absurd (newest-ne_none m (sees srcs) head e)
          | inr ((p, e), e_at) ↦
              let key : e.key ≡ m = newest-key m (sees srcs) p e e_at in
              inr (
                p,
                e,
                (advance ops m srcs).0,
                merge_round-entry ops srcs (winner_of p e) m at fine
                    (won ∙ ap (against no_winner) e_at ∙ against-no_winner p e),
                record {
                  runs = rw dropped (drop_heads-AllRuns m (sees srcs) runs);
                  smaller = rw dropped (total-drop_heads_lt m (sees srcs) head);
                  behind = rw (dropped, key) (drop_heads-Behind m (sees srcs) runs starts);
                  before = λ k lt.
                      newest-eq-none_of_behind k (sees srcs)
                        (behind_start k m (sees srcs) runs starts (subst (λ x. k ≺ x) key lt));
                  at = ap (λ k. newest k (sees srcs)) key ∙ e_at;
                  after = λ k lt.
                      ap (newest k) dropped
                      ∙ newest-drop_heads k m (sees srcs) (subst (λ x. x ≺ k) key lt);
                },
              )
        ]
  ]

  -- A step that yields `e`: what is before it is not to be seen, and what is behind it is left.
  pub record Stepped (omit : Bool) (srcs srcs' : List (Source I)) (p : ℕ) (e : Entry) : Type 0 where
    pub runs : AllRuns (sees srcs')
    pub smaller : total (sees srcs') < total (sees srcs)
    pub behind : Behind e.key (sees srcs')
    pub before : (k : Bytes) → k ≺ e.key → visible omit (newest k (sees srcs)) ≡ none
    pub at : newest e.key (sees srcs) ≡ some (p, e)
    pub shown : (e.tombstone && omit) ≡ false
    pub after : (k : Bytes) → e.key ≺ k → newest k (sees srcs') ≡ newest k (sees srcs)

  abbrev pub Steps : Bool → List (Source I) → Option (Merged I) → Type 0
  Steps omit srcs r =
      ((srcs' : List (Source I)) × (r ≡ some (exhausted srcs'))
        × ((k : Bytes) → visible omit (newest k (sees srcs)) ≡ none))
      ⊎ ((p : ℕ) × (e : Entry) × (srcs' : List (Source I)) × (r
            ≡ some (entry (winner_of p e) srcs'))
          × Stepped omit srcs srcs' p e)

  -- A key that has an entry behind the front is behind its key.
  front_lt :
      (srcs srcs' : List (Source I)) (p q : ℕ) (e x : Entry)
      → Front srcs srcs' p e
      → newest x.key (sees srcs') ≡ some (q, x)
      → e.key ≺ x.key
  front_lt srcs srcs' p q e x f at = elim (trichotomy x.key e.key) [
    | below lt ↦ cc (
      at,
      newest-eq-none_of_behind x.key (sees srcs')
          (behind_below e.key x.key (sees srcs') lt f.behind),
    )
    | same eq ↦ cc (at, newest-eq-none_of_behind x.key (sees srcs') (rw eq f.behind))
    | above gt ↦ gt
  ]

  hidden :
      (omit : Bool) (srcs srcs' : List (Source I)) (p : ℕ) (e : Entry) (k : Bytes)
      → Front srcs srcs' p e
      → (e.tombstone && omit) ≡ true
      → visible omit (newest k (sees srcs')) ≡ none
      → visible omit (newest k (sees srcs)) ≡ none
  hidden omit srcs srcs' p e k f gone h = elim (trichotomy k e.key) [
    | below lt ↦ rw (f.before k lt)
    | same eq ↦ rw (eq, f.at, gone)
    | above gt ↦ ap (visible omit) (sym (f.after k gt)) ∙ h
  ]

  pub merge_step-Steps :
      (omit : Bool) (fuel : ℕ) (srcs : List (Source I))
      → AllRuns (sees srcs)
      → total (sees srcs) < fuel
      → Steps omit srcs (merge_step ops fuel omit srcs)
  merge_step-Steps omit zero srcs runs enough = absurd (omega arith)
  merge_step-Steps omit (suc fuel) srcs runs enough = elim (merge_round-lem srcs runs) [
    | inl (e, empty) ↦ inl (srcs, merge_step-exhausted ops fuel omit srcs e, λ k. rw (empty k))
    | inr (p, e, srcs', at, f) ↦ elim (Bool-cases (e.tombstone && omit)) [
      | inr shown ↦ inr (
        p,
        e,
        srcs',
        merge_step-shown ops fuel omit srcs (winner_of p e) srcs' at
            (rw (tombstone-winner_of p e) shown),
        record {
          runs = f.runs;
          smaller = f.smaller;
          behind = f.behind;
          before = λ k lt. rw (f.before k lt);
          at = f.at;
          shown = shown;
          after = f.after;
        },
      )
      | inl gone ↦
          let again : merge_step ops (suc fuel) omit srcs ≡ merge_step ops fuel omit srcs' =
            merge_step-omitted ops fuel omit srcs (winner_of p e) srcs' at
              (rw (tombstone-winner_of p e) gone) in
          elim (merge_step-Steps omit fuel srcs' f.runs (omega (arith, f.smaller))) [
            | inl (last, done, empty) ↦
                inl (last, again ∙ done, λ k. hidden omit srcs srcs' p e k f gone (empty k))
            | inr (q, x, last, done, st) ↦
                let lt = front_lt srcs srcs' p q e x f st.at in
                inr (
                  q,
                  x,
                  last,
                  again ∙ done,
                  record {
                    runs = st.runs;
                    smaller = omega (arith, st.smaller, f.smaller);
                    behind = st.behind;
                    before = λ k below'. hidden omit srcs srcs' p e k f gone (st.before k below');
                    at = sym (f.after x.key lt) ∙ st.at;
                    shown = st.shown;
                    after = λ k gt. st.after k gt ∙ f.after k (lt_trans e.key x.key k lt gt);
                  },
                )
          ]
    ]
  ]
