-- ===== src/Iterator/Merge/Views.antt =====
-- What the merge sees of its sources: runs with priorities, and the newest entry of a key.
use pebble_db.Prelude.{
  ℕ, ◌+◌, ◌≤◌, ◌<◌, ◌≡◌, ◌≢◌, refl, sym, subst, Option, none, some, List, [], ◌∷◌, arith, All,
  length, ltb, if◌then◌else◌, Bool-cases, Option-cases, some-inj, ◌⊎◌, inl, inr, ap, ◌∙◌,
}
use pebble_db.Bytes.{Bytes}
use pebble_db.Bytes.Order.{◌≺◌, is_eq_refl}
use pebble_db.Iterator.{Entry}
use pebble_db.Iterator.Merge.Lists.{
  find, find-key, above_trans, IsRun, StartsAt, drop_head, find-eq-none_of_above, above_start,
  drop_head-IsRun, find-drop_head, drop_head-above, length-drop_head,
}

-- A run and its priority; a larger one is newer.
abbrev pub View : Type 0
View = List (ℕ × List Entry)

abbrev pub AllRuns : View → Type 0
AllRuns = All (λ (x : ℕ × List Entry). IsRun x.1)

abbrev pub AllStartAt : Bytes → View → Type 0
AllStartAt m = All (λ (x : ℕ × List Entry). StartsAt m x.1)

-- Every key of every run is behind `m`.
abbrev pub Behind : Bytes → View → Type 0
Behind m = All (λ (x : ℕ × List Entry). All (λ (e : Entry). m ≺ e.key) x.1)

unfoldable pub total : View → ℕ
total [] = 0
total ((p, run) ∷ v) = length run + total v

-- The newer of two finds, the first where neither is newer.
unfoldable pub better : Option (ℕ × Entry) → Option (ℕ × Entry) → Option (ℕ × Entry)
better none b = b
better (some a) none = some a
better (some (p, e)) (some (q, f)) = if ltb p q then some (q, f) else some (p, e)

unfoldable pub at_priority : ℕ → Option Entry → Option (ℕ × Entry)
at_priority p none = none
at_priority p (some e) = some (p, e)

-- The entry that counts for a key: that of the newest run which has the key.
unfoldable pub newest : Bytes → View → Option (ℕ × Entry)
unfolding better at_priority
newest k [] = none
newest k ((p, run) ∷ v) = better (at_priority p (find k run)) (newest k v)

unfoldable pub drop_heads : Bytes → View → View
drop_heads m [] = []
drop_heads m ((p, run) ∷ v) = (p, drop_head m run) ∷ drop_heads m v

pub newest-eq-none_of_behind : (k : Bytes) (v : View) → Behind k v → newest k v ≡ none
unfolding newest
newest-eq-none_of_behind k [] h = refl
newest-eq-none_of_behind k ((p, run) ∷ v) h =
    rw (find-eq-none_of_above k run h.0, newest-eq-none_of_behind k v h.1)

pub behind_below : (m k : Bytes) (v : View) → k ≺ m → Behind m v → Behind k v
behind_below m k [] h b = tt
behind_below m k ((p, run) ∷ v) h b = (above_trans k m run h b.0, behind_below m k v h b.1)

pub behind_start : (k m : Bytes) (v : View) → AllRuns v → AllStartAt m v → k ≺ m → Behind k v
behind_start k m [] runs s h = tt
behind_start k m ((p, run) ∷ v) runs s h =
    (above_start k m run runs.0 s.0 h, behind_start k m v runs.1 s.1 h)

pub drop_heads-AllRuns : (m : Bytes) (v : View) → AllRuns v → AllRuns (drop_heads m v)
unfolding drop_heads
drop_heads-AllRuns m [] runs = tt
drop_heads-AllRuns m ((p, run) ∷ v) runs =
    (drop_head-IsRun m run runs.0, drop_heads-AllRuns m v runs.1)

pub drop_heads-Behind :
    (m : Bytes) (v : View) → AllRuns v → AllStartAt m v → Behind m (drop_heads m v)
unfolding drop_heads
drop_heads-Behind m [] runs s = tt
drop_heads-Behind m ((p, run) ∷ v) runs s =
    (drop_head-above m run runs.0 s.0, drop_heads-Behind m v runs.1 s.1)

pub newest-drop_heads : (k m : Bytes) (v : View) → m ≺ k → newest k (drop_heads m v) ≡ newest k v
unfolding newest drop_heads
newest-drop_heads k m [] h = refl
newest-drop_heads k m ((p, run) ∷ v) h = rw (find-drop_head k m run h, newest-drop_heads k m v h)

pub total-drop_heads : (m : Bytes) (v : View) → total (drop_heads m v) ≤ total v
unfolding total drop_heads
total-drop_heads m [] = omega arith
total-drop_heads m ((p, run) ∷ v) = omega (arith, total-drop_heads m v, length-drop_head m run)

-- Some run has `m` for its first key.
abbrev pub HasHead : Bytes → View → Type 0
HasHead m [] = ⊥
HasHead m ((p, run) ∷ v) =
    ((e : Entry) × (es : List Entry) × (run ≡ e ∷ es) × (e.key ≡ m)) ⊎ HasHead m v

length-drop_head_lt :
    (m : Bytes) (run : List Entry) (e : Entry) (es : List Entry)
    → run ≡ e ∷ es
    → e.key ≡ m
    → length (drop_head m run) < length run
unfolding drop_head
length-drop_head_lt m run e es h k = rw (h, k, is_eq_refl m) (omega arith)

pub total-drop_heads_lt : (m : Bytes) (v : View) → HasHead m v → total (drop_heads m v) < total v
unfolding total drop_heads
total-drop_heads_lt m [] h = absurd h
total-drop_heads_lt m ((p, run) ∷ v) (inl (e, es, h, k)) =
    omega (arith, total-drop_heads m v, length-drop_head_lt m run e es h k)
total-drop_heads_lt m ((p, run) ∷ v) (inr h) =
    omega (arith, total-drop_heads_lt m v h, length-drop_head m run)

better-of :
    (P : ℕ × Entry → Type 0) (a b : Option (ℕ × Entry)) (r : ℕ × Entry)
    → better a b ≡ some r
    → ((x : ℕ × Entry) → a ≡ some x → P x)
    → ((x : ℕ × Entry) → b ≡ some x → P x)
    → P r
unfolding better
better-of P none b r h f g = g r h
better-of P (some a) none r h f g = f r h
better-of P (some (p, e)) (some (q, x)) r h f g = elim (Bool-cases (ltb p q)) [
  | inl lt ↦ g r (rw lt at h)
  | inr ge ↦ f r (rw ge at h)
]

-- The entry that counts for a key has that key.
pub newest-key : (k : Bytes) (v : View) (p : ℕ) (e : Entry) → newest k v ≡ some (p, e) → e.key ≡ k
unfolding newest at_priority
newest-key k [] p e h = cc
newest-key k ((q, run) ∷ v) p e h =
    better-of (λ (x : ℕ × Entry). x.1.key ≡ k) (at_priority q (find k run)) (newest k v) (p, e) h
      (λ x g. elim (Option-cases (find k run)) [
        | inl f ↦ cc (g, ap (at_priority q) f)
        | inr (y, f) ↦
            let same : (q, y) ≡ x = some-inj (sym (ap (at_priority q) f) ∙ g) in
            subst (λ (z : ℕ × Entry). z.1.key ≡ k) same (find-key k run y f)
      ])
      (λ x g. newest-key k v x.0 x.1 g)

at_head :
    (p : ℕ) (m : Bytes) (run : List Entry) (x : Entry) (xs : List Entry)
    → run ≡ x ∷ xs
    → x.key ≡ m
    → at_priority p (find m run) ≡ some (p, x)
unfolding at_priority find
at_head p m run x xs at key = rw (at, ← key, is_eq_refl x.key)

better-ne_none : (a b : Option (ℕ × Entry)) → (a ≢ none) ⊎ (b ≢ none) → better a b ≢ none
unfolding better
better-ne_none none b (inl h) e = h refl
better-ne_none none b (inr h) e = h e
better-ne_none (some a) none h e = cc
better-ne_none (some (p, e)) (some (q, x)) h g = ground (arith, g)

-- A key that stands at the head of some run has an entry that counts.
pub newest-ne_none : (m : Bytes) (v : View) → HasHead m v → newest m v ≢ none
unfolding newest at_priority find
newest-ne_none m [] h e = absurd h
newest-ne_none m ((p, run) ∷ v) (inl (x, xs, at, key)) e =
    better-ne_none (at_priority p (find m run)) (newest m v)
      (inl (λ g. cc (g, at_head p m run x xs at key))) e
newest-ne_none m ((p, run) ∷ v) (inr h) e =
    better-ne_none (at_priority p (find m run)) (newest m v) (inr (newest-ne_none m v h)) e
