-- ===== src/Iterator/Merge/Output.antt =====
-- The whole output of `ForEachMerged`, as a callback that collects it sees it.
use pebble_db.Prelude.{
  ℕ, zero, suc, ◌<◌, ◌≡◌, sym, subst, Bool, Option, none, some, List, [], ◌∷◌, ◌++◌, arith, All,
  length, inl, inr, ap, ◌∙◌, map, ==-refl, append_assoc, append-nil,
}
use pebble_db.Bytes.{Bytes, copy_slice}
use pebble_db.Bytes.Order.{◌≺◌, is_eq_refl, is_eq-lt, is_eq-gt, trichotomy, below, same, above}
use pebble_db.Iterator.{Entry, Iterator, Walks}
use pebble_db.Iterator.Merge.{
  Source, exhausted, entry, Callback, merge_step, for_each, zip_sources, for_each_merged,
}
use pebble_db.Iterator.Merge.Lists.{find, above_trans, find-eq-none_of_above}
use pebble_db.Iterator.Merge.Views.{
  AllRuns, Behind, newest, total, newest-eq-none_of_behind, behind_below,
}
use pebble_db.Iterator.Merge.Rounds.{view, winner_of}
use pebble_db.Iterator.Merge.Spec.{visible, Stepped, merge_step-Steps}

abbrev pub Emit : Type 0
Emit = Option Bytes × Option Bytes × Bool

abbrev pub emitted : Entry → Emit
emitted e = (copy_slice e.key, e.value, e.tombstone)

abbrev pub collect : Callback (List Emit)
collect s k v t = (s ++ (k, v, t) ∷ [], none)

abbrev pub Ascending : List Entry → Type 0
Ascending [] = Unit
Ascending (e ∷ es) = All (λ (x : Entry). e.key ≺ x.key) es × Ascending es

module _ {I : Type 0} (ops : Iterator I) (rest : I → List Entry) (walks : Walks ops rest)
    (omit : Bool) where
  -- What is emitted from the sources: in order, and for each key what is to be seen of it.
  pub record Output (srcs : List (Source I)) (out : List Entry) : Type 0 where
    pub ascending : Ascending out
    pub found : (k : Bytes) → find k out ≡ visible omit (newest k (view rest srcs))
    pub kept_behind : (m : Bytes) → Behind m (view rest srcs) → All (λ (x : Entry). m ≺ x.key) out

  for_each-exhausted :
      (fuel : ℕ) (srcs srcs' : List (Source I)) (acc : List Emit)
      → merge_step ops (suc fuel) omit srcs ≡ some (exhausted srcs')
      → for_each ops (suc fuel) omit collect srcs acc ≡ some (acc, none)
  unfolding for_each
  for_each-exhausted fuel srcs srcs' acc h = ground (arith, h)

  for_each-entry :
      (fuel : ℕ) (srcs srcs' : List (Source I)) (acc : List Emit) (p : ℕ) (e : Entry)
      → merge_step ops (suc fuel) omit srcs ≡ some (entry (winner_of p e) srcs')
      → for_each ops (suc fuel) omit collect srcs acc
        ≡ for_each ops fuel omit collect srcs' (acc ++ emitted e ∷ [])
  unfolding for_each winner_of
  for_each-entry fuel srcs srcs' acc p e h = ground (arith, h)

  Output-cons :
      (srcs srcs' : List (Source I)) (p : ℕ) (e : Entry) (out : List Entry)
      → Stepped ops rest walks omit srcs srcs' p e
      → Output srcs' out
      → Output srcs (e ∷ out)
  unfolding find
  Output-cons srcs srcs' p e out st o =
      let tail : All (λ (x : Entry). e.key ≺ x.key) out = o.kept_behind e.key st.behind in
      record {
        ascending = (tail, o.ascending);
        found = λ k. elim (trichotomy k e.key) [
          | below lt ↦
              rw (is_eq-lt k e.key lt, st.before k lt)
                (find-eq-none_of_above k out (above_trans k e.key out lt tail))
          | same eq ↦ rw (eq, is_eq_refl e.key, st.at, st.shown)
          | above gt ↦ rw (is_eq-gt k e.key gt) (o.found k ∙ ap (visible omit) (st.after k gt))
        ];
        kept_behind = λ m behind. elim (trichotomy m e.key) [
          | below lt ↦ (lt, above_trans m e.key out lt tail)
          | same eq ↦ cc (
            st.at,
            newest-eq-none_of_behind e.key (view rest srcs)
                (subst (λ x. Behind x (view rest srcs)) eq behind),
          )
          | above gt ↦ cc (
            st.at,
            newest-eq-none_of_behind e.key (view rest srcs)
                (behind_below m e.key (view rest srcs) gt behind),
          )
        ];
      }

  for_each-Output :
      (fuel : ℕ) (srcs : List (Source I)) (acc : List Emit)
      → AllRuns (view rest srcs)
      → total (view rest srcs) < fuel
      → (out : List Entry) × (for_each ops fuel omit collect srcs acc
          ≡ some (acc ++ map emitted out, none))
        × Output srcs out
  for_each-Output zero srcs acc runs enough = absurd (omega arith)
  for_each-Output (suc fuel) srcs acc runs enough =
      elim (merge_step-Steps ops rest walks omit (suc fuel) srcs runs enough) [
        | inl (last, done, empty) ↦ (
          [],
          for_each-exhausted fuel srcs last acc done
              ∙ ap (λ a. some (a, none)) (sym (append-nil acc)),
          record {
            ascending = tt;
            found = λ k. unfold find in sym (empty k);
            kept_behind = λ m b. tt;
          },
        )
        | inr (p, e, srcs', step, st) ↦
            let (out, run, o) =
              for_each-Output fuel srcs' (acc ++ emitted e ∷ []) st.runs
                (omega (arith, st.smaller)) in
            (
              e ∷ out,
              for_each-entry fuel srcs srcs' acc p e step
                  ∙ run
                  ∙ ap (λ a. some (a, none)) (append_assoc acc (emitted e ∷ []) (map emitted out)),
              Output-cons srcs srcs' p e out st o,
            )
      ]

  -- Over iterators that walk strictly ascending runs of non-empty keys, with a priority for each,
  -- the merge ends without an error and hands to the callback, in strictly ascending order of the
  -- keys, exactly one entry for each key that some run holds: that of the run with the highest
  -- priority. Where tombstones are omitted, a key whose newest entry is one is left out.
  pub for_each_merged-newest :
      (fuel : ℕ) (its : List I) (ps : List ℕ)
      → length its ≡ length ps
      → AllRuns (view rest (zip_sources ops its ps))
      → total (view rest (zip_sources ops its ps)) < fuel
      → (out : List Entry) × (for_each_merged ops fuel its ps omit collect []
          ≡ some (map emitted out, none))
        × Ascending out
        × ((k : Bytes) → find k out ≡ visible omit (newest k (view rest (zip_sources ops its ps))))
  unfolding for_each_merged
  for_each_merged-newest fuel its ps same_length runs enough =
      let (out, run, o) = for_each-Output fuel (zip_sources ops its ps) [] runs enough in
      (out, rw (same_length, ==-refl (length ps)) run, o.ascending, o.found)
