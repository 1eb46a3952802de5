-- ===== src/Iterator/Merge/Rounds.antt =====
-- One turn of the merge, over iterators that walk runs.
use pebble_db.Prelude.{
  ℕ, ◌+◌, ◌≡◌, ◌≢◌, refl, sym, subst, true, false, Option, none, some, List, [], ◌∷◌, arith, All,
  ltb, if◌then◌else◌, Bool-cases, ◌⊎◌, inl, inr, ap, ◌∙◌, some-inj, ◌||◌,
}
use pebble_db.Bytes.{Bytes, copy_slice, compare_bytes}
use pebble_db.Bytes.Order.{◌≺◌, ◌≼◌, is_lt, is_eq, lt_irrefl, le_trans, le_of_lt}
use pebble_db.Iterator.{Entry, Iterator, Walks, is_cons}
use pebble_db.Iterator.Merge.{
  Source, Winner, as_bytes, is_nil, min_loop, min_key_across_sources, stands_at, pick, advance,
}
use pebble_db.Iterator.Merge.Lists.{find, IsRun, drop_head, head_at, find-eq-head_at}
use pebble_db.Iterator.Merge.Views.{
  View, AllRuns, AllStartAt, HasHead, newest, better, at_priority, drop_heads,
}

copy_slice-ne_nil : (b : Bytes) → b ≢ [] → copy_slice b ≡ some b
unfolding copy_slice
copy_slice-ne_nil [] h = absurd (h refl)
copy_slice-ne_nil (x ∷ b) h = refl

List-cases : (l : List Entry) → (l ≡ []) ⊎ ((e : Entry) × (es : List Entry) × (l ≡ e ∷ es))
List-cases [] = inl refl
List-cases (e ∷ es) = inr (e, es, refl)

-- The lower of the minimum so far and a key.
abbrev lower : Option Bytes → Bytes → Option Bytes
lower acc k = if is_nil acc || is_lt (compare_bytes k (as_bytes acc)) then some k else acc

-- It is one of the two, and above neither.
record Lower (acc : Option Bytes) (k a : Bytes) : Type 0 where
  is : lower acc k ≡ some a
  le_key : a ≼ k
  le_acc : (b : Bytes) → acc ≡ some b → a ≼ b
  one_of : (acc ≡ some a) ⊎ (k ≡ a)

smaller_key : (acc : Option Bytes) (k : Bytes) → (a : Bytes) × Lower acc k a
smaller_key none k =
    (k, record { is = refl; le_key = lt_irrefl k; le_acc = λ b e. cc; one_of = inr refl })
smaller_key (some a) k = elim (Bool-cases (is_lt (compare_bytes k a))) [
  | inl p ↦
      let lt : k ≺ a = ground (arith, p) in
      (
        k,
        record {
          is = rw p;
          le_key = lt_irrefl k;
          le_acc = λ b e. subst (λ x. k ≼ x) (some-inj e) (le_of_lt k a lt);
          one_of = inr refl;
        },
      )
  | inr p ↦ (
    a,
    record {
      is = rw p;
      le_key = λ lt. cc (p, ap is_lt lt);
      le_acc = λ b e. subst (λ x. a ≼ x) (some-inj e) (lt_irrefl a);
      one_of = inl refl;
    },
  )
]

-- What the loop over the sources keeps of an entry.
unfoldable pub winner_of : ℕ → Entry → Winner
winner_of p e = record {
  best = p + 1;
  key = copy_slice e.key;
  value = e.value;
  tombstone = e.tombstone;
}

-- A winner so far against the newest entry of the sources that are left.
unfoldable pub against : Winner → Option (ℕ × Entry) → Winner
against w none = w
against w (some (p, e)) = if ltb w.best (p + 1) then winner_of p e else w

-- A winner against one entry and then against others is the winner against the newest of all.
against-better :
    (w : Winner) (p : ℕ) (e : Entry) (n : Option (ℕ × Entry))
    → against (against w (some (p, e))) n ≡ against w (better (at_priority p (some e)) n)
unfolding against winner_of better at_priority
against-better w p e none = refl
against-better w p e (some (q, f)) = ground arith

-- The sources as runs with priorities.
unfoldable pub view : {I : Type 0} → (I → List Entry) → List (Source I) → View
view rest [] = []
view rest (s ∷ srcs) = (s.priority, rest s.it) ∷ view rest srcs

module _ {I : Type 0} (ops : Iterator I) (rest : I → List Entry) (walks : Walks ops rest) where
  min_loop-nil :
      (acc : Option Bytes) (s : Source I) (srcs : List (Source I))
      → rest s.it ≡ []
      → min_loop ops acc (s ∷ srcs) ≡ min_loop ops acc srcs
  unfolding min_loop
  min_loop-nil acc s srcs h =
      let e : ops.valid s.it ≡ false = walks.valid_iff s.it ∙ ap is_cons h in rw e

  min_loop-cons :
      (acc : Option Bytes) (s : Source I) (srcs : List (Source I)) (e : Entry) (es : List Entry)
      → rest s.it ≡ e ∷ es
      → e.key ≢ []
      → min_loop ops acc (s ∷ srcs) ≡ min_loop ops (lower acc e.key) srcs
  unfolding min_loop
  min_loop-cons acc s srcs e es h ne =
      let ok : ops.valid s.it ≡ true = walks.valid_iff s.it ∙ ap is_cons h in
      let key : ops.key s.it ≡ some e.key = walks.key_at s.it e es h ∙ copy_slice-ne_nil e.key ne in
      rw (ok, key)

  min_loop-eq-none :
      (acc : Option Bytes) (srcs : List (Source I))
      → AllRuns (view rest srcs)
      → min_loop ops acc srcs ≡ none
      → (acc ≡ none) × All (λ (s : Source I). rest s.it ≡ []) srcs
  unfolding view
  min_loop-eq-none acc [] runs h = unfold min_loop in (h, tt)
  min_loop-eq-none acc (s ∷ srcs) runs h = elim (List-cases (rest s.it)) [
    | inl e ↦
        let ih = min_loop-eq-none acc srcs runs.1 (rw (min_loop-nil acc s srcs e) at h) in
        (ih.0, (e, ih.1))
    | inr (x, xs, e) ↦
        let run = subst IsRun e runs.0 in
        let ih =
          min_loop-eq-none (lower acc x.key) srcs runs.1
            (rw (min_loop-cons acc s srcs x xs e run.0) at h) in
        cc (ih.0, (smaller_key acc x.key).1.is)
  ]

  min_loop-eq-some :
      (acc : Option Bytes) (srcs : List (Source I)) (m : Bytes)
      → AllRuns (view rest srcs)
      → min_loop ops acc srcs ≡ some m
      → AllStartAt m (view rest srcs)
        × ((a : Bytes) → acc ≡ some a → m ≼ a)
        × ((acc ≡ some m) ⊎ HasHead m (view rest srcs))
  unfolding view
  min_loop-eq-some acc [] m runs h =
      let e : acc ≡ some m = unfold min_loop in h in
      (tt, (λ a p. subst (λ x. m ≼ x) (some-inj (sym e ∙ p)) (lt_irrefl m)), inl e)
  min_loop-eq-some acc (s ∷ srcs) m runs h = elim (List-cases (rest s.it)) [
    | inl e ↦
        let (starts, low, from) =
          min_loop-eq-some acc srcs m runs.1 (rw (min_loop-nil acc s srcs e) at h) in
        ((rw e tt, starts), low, elim from [ inl p ↦ inl p | inr p ↦ inr (inr p) ])
    | inr (x, xs, e) ↦
        let run = subst IsRun e runs.0 in
        let (starts, low, from) =
          min_loop-eq-some (lower acc x.key) srcs m runs.1
            (rw (min_loop-cons acc s srcs x xs e run.0) at h) in
        let (a, l) = smaller_key acc x.key in
        let at = low a l.is in
        (
          (rw e (le_trans m a x.key at l.le_key), starts),
          (λ b p. le_trans m a b at (l.le_acc b p)),
          elim from [
            | inl p ↦
                let same : a ≡ m = some-inj (sym l.is ∙ p) in
                elim l.one_of [
                  | inl q ↦ inl (q ∙ ap some same)
                  | inr q ↦ inr (inl (x, xs, e, q ∙ same))
                ]
            | inr p ↦ inr (inr p)
          ],
        )
  ]

  -- Whether a source stands at the key that the merge stands at.
  stands_at-head :
      (m : Bytes) (s : Source I) (e : Entry) (es : List Entry)
      → rest s.it ≡ e ∷ es
      → e.key ≢ []
      → stands_at ops m s ≡ is_eq (compare_bytes e.key m)
  unfolding stands_at
  stands_at-head m s e es h ne =
      let ok : ops.valid s.it ≡ true = walks.valid_iff s.it ∙ ap is_cons h in
      let key : ops.key s.it ≡ some e.key = walks.key_at s.it e es h ∙ copy_slice-ne_nil e.key ne in
      rw (ok, key)

  stands_at-nil : (m : Bytes) (s : Source I) → rest s.it ≡ [] → stands_at ops m s ≡ false
  unfolding stands_at
  stands_at-nil m s h = let e : ops.valid s.it ≡ false = walks.valid_iff s.it ∙ ap is_cons h in rw e

  pick-skip :
      (m : Bytes) (w : Winner) (s : Source I) (srcs : List (Source I))
      → stands_at ops m s ≡ false
      → pick ops m w (s ∷ srcs) ≡ pick ops m w srcs
  unfolding pick
  pick-skip m w s srcs h = rw h

  pick-here :
      (m : Bytes) (w : Winner) (s : Source I) (srcs : List (Source I)) (e : Entry) (es : List Entry)
      → rest s.it ≡ e ∷ es
      → stands_at ops m s ≡ true
      → pick ops m w (s ∷ srcs) ≡ pick ops m (against w (some (s.priority, e))) srcs
  unfolding pick against winner_of
  pick-here m w s srcs e es at h =
      rw
        (h, walks.key_at s.it e es at, walks.value_at s.it e es at, walks.tombstone_at s.it e es at)

  pub pick-eq-newest :
      (m : Bytes) (w : Winner) (srcs : List (Source I))
      → AllRuns (view rest srcs)
      → AllStartAt m (view rest srcs)
      → pick ops m w srcs ≡ against w (newest m (view rest srcs))
  unfolding view newest head_at
  pick-eq-newest m w [] runs s = unfold pick against in refl
  pick-eq-newest m w (s ∷ srcs) runs starts = elim (List-cases (rest s.it)) [
    | inl e ↦
        pick-skip m w s srcs (stands_at-nil m s e)
        ∙ pick-eq-newest m w srcs runs.1 starts.1
        ∙ rw (e, find-eq-head_at m [] tt tt)
    | inr (x, xs, e) ↦
        let run = subst IsRun e runs.0 in
        let found : find m (rest s.it) ≡ head_at m (x ∷ xs) =
          find-eq-head_at m (rest s.it) runs.0 starts.0 ∙ ap (head_at m) e in
        let stands = stands_at-head m s x xs e run.0 in
        elim (Bool-cases (is_eq (compare_bytes x.key m))) [
          | inl p ↦
              pick-here m w s srcs x xs e (stands ∙ p)
              ∙ pick-eq-newest m (against w (some (s.priority, x))) srcs runs.1 starts.1
              ∙ against-better w s.priority x (newest m (view rest srcs))
              ∙ rw (found, p)
          | inr p ↦
              pick-skip m w s srcs (stands ∙ p)
              ∙ pick-eq-newest m w srcs runs.1 starts.1
              ∙ rw (found, p)
        ]
  ]

  pub view-advance :
      (m : Bytes) (srcs : List (Source I))
      → AllRuns (view rest srcs)
      → ((advance ops m srcs).1 ≡ none)
        × (view rest (advance ops m srcs).0 ≡ drop_heads m (view rest srcs))
  unfolding view advance drop_heads drop_head
  view-advance m [] runs = (refl, refl)
  view-advance m (s ∷ srcs) runs =
      let ih = view-advance m srcs runs.1 in
      elim (List-cases (rest s.it)) [
        | inl e ↦ rw (e, stands_at-nil m s e) (ih.0, cc (ih.1, e))
        | inr (x, xs, e) ↦
            let run = subst IsRun e runs.0 in
            elim (Bool-cases (is_eq (compare_bytes x.key m))) [
              | inl p ↦
                  rw
                    (
                      e,
                      stands_at-head m s x xs e run.0,
                      p,
                      walks.next_ok s.it x xs e,
                      walks.next_at s.it x xs e,
                    )
                    (ih.0, cc ih.1)
              | inr p ↦ rw (e, stands_at-head m s x xs e run.0, p) (ih.0, cc (ih.1, e))
            ]
      ]

  -- Where no source has a minimum, nothing is left.
  rest_of_none :
      (srcs : List (Source I))
      → All (λ (s : Source I). rest s.it ≡ []) srcs
      → (k : Bytes) → newest k (view rest srcs) ≡ none
  unfolding newest view find
  rest_of_none [] all k = refl
  rest_of_none (s ∷ srcs) all k = rw (all.0, rest_of_none srcs all.1 k)

  pub min_key-eq-none :
      (srcs : List (Source I))
      → AllRuns (view rest srcs)
      → min_key_across_sources ops srcs ≡ none
      → (k : Bytes) → newest k (view rest srcs) ≡ none
  unfolding min_key_across_sources
  min_key-eq-none srcs runs h = rest_of_none srcs (min_loop-eq-none none srcs runs h).1

  pub min_key-eq-some :
      (srcs : List (Source I)) (m : Bytes)
      → AllRuns (view rest srcs)
      → min_key_across_sources ops srcs ≡ some m
      → AllStartAt m (view rest srcs) × HasHead m (view rest srcs)
  unfolding min_key_across_sources
  min_key-eq-some srcs m runs h =
      let (starts, _, from) = min_loop-eq-some none srcs m runs h in
      (starts, elim from [ inl e ↦ cc | inr p ↦ p ])
