-- ===== src/Acceptance/Dag/Order.antt =====
-- The order that the verifier runs its modules in respects the dependencies.
use pebble_db.Prelude.{
  ◌&&◌, ℕ, zero, suc, ◌+◌, ◌-◌, ◌≤◌, ◌≡◌, ◌⊎◌, refl, sym, ap, ◌∙◌, subst, ◌==◌, false, Bool-cases,
  inl, inr, some, List, [], ◌∷◌, ◌++◌, length, arith, All, All-map, All-append, length-append,
  append_assoc, append-nil,
}
use pebble_db.Bytes.{Bytes}
use pebble_db.Result.{Result-cases, ok, err}
use pebble_db.Acceptance.Dag.Edges.{has_edge, lists, collect_edges-has}
use pebble_db.Acceptance.Dag.{
  collect_edges, Edge, DagError, cycle, ModuleOrder, Kahn, has_name, successors, indegree_of,
  release, sort_loop, rank_in, round, kahn_loop, roots, first_state, finished, kahn, collect_edges,
  resolve_module_order,
}
use pebble_db.Acceptance.Dag.Counts.{
  missing_deps, open_edges, occurrences, missing_deps-nil, open_edges-nil, missing_deps-snoc,
  open_edges-snoc, release-counts, release-freed, release-length, sort_loop-All, sort_loop-length,
}

-- No module stands twice, and each has all its dependencies among those before it.
abbrev pub IsInOrder : List Edge → List Bytes → List Bytes → Type 0
IsInOrder edges done [] = Unit
IsInOrder edges done (n ∷ ns) =
    (has_name done n ≡ false)
    × (missing_deps done edges n ≡ 0)
    × IsInOrder edges (done ++ n ∷ []) ns

-- Names that differ from one another.
abbrev pub AllDifferent : List Bytes → Type 0
AllDifferent names = IsInOrder [] [] names

IsInOrder-snoc :
    (edges : List Edge) (done xs : List Bytes) (n : Bytes)
    → IsInOrder edges done xs
    → has_name (done ++ xs) n ≡ false
    → missing_deps (done ++ xs) edges n ≡ 0
    → IsInOrder edges done (xs ++ n ∷ [])
IsInOrder-snoc edges done [] n h new free =
    let whole = append-nil done in
    (
      subst (λ d. has_name d n ≡ false) whole new,
      subst (λ d. missing_deps d edges n ≡ 0) whole free,
      tt,
    )
IsInOrder-snoc edges done (x ∷ xs) n h new free =
    let whole = sym (append_assoc done (x ∷ []) xs) in
    (
      h.0,
      h.1,
      IsInOrder-snoc edges (done ++ x ∷ []) xs n h.2 (subst (λ d. has_name d n ≡ false) whole new)
          (subst (λ d. missing_deps d edges n ≡ 0) whole free),
    )

module _ (reg_order : List Bytes) (edges : List Edge) where
  -- What holds between two rounds.
  record IsGood (s : Kahn) : Type 0 where
    counts : (m : Bytes) → s.indegree m ≡ missing_deps s.ordered edges m
    free : All (λ (n : Bytes). s.indegree n ≡ 0) s.queue
    in_order : IsInOrder edges [] s.ordered

  -- What is left to do.
  work : Kahn → ℕ
  work s = length s.queue + open_edges s.ordered edges

  round-IsGood :
      (s : Kahn) (name : Bytes) (rest : List Bytes)
      → s.queue ≡ name ∷ rest
      → IsGood s
      → IsGood (round reg_order edges s name rest)
        × (suc (work (round reg_order edges s name rest)) ≤ work s)
  unfolding round work
  round-IsGood s name rest at g =
      let free = subst (All (λ (n : Bytes). s.indegree n ≡ 0)) at g.free in
      let size = ap (λ (q : List Bytes). length q) at in
      elim (Bool-cases (has_name s.ordered name)) [
        | inl seen ↦ rw seen (
          record { counts = g.counts; free = free.1; in_order = g.in_order },
          omega (arith, size),
        )
        | inr new ↦
            let succs = successors edges name in
            let (indegree, freed) = release s.indegree succs in
            let rank = rank_in reg_order in
            let sorted = sort_loop rank [] freed in
            let lower : (m : Bytes) → indegree m ≡ s.indegree m - occurrences m succs =
              λ m. release-counts succs s.indegree m in
            rw new (
              record {
                counts = λ m.
                    omega
                      (arith, lower m, g.counts m, missing_deps-snoc edges s.ordered name m new);
                free =
                    All-append (λ (n : Bytes). indegree n ≡ 0) rest sorted
                      (All-map (λ (n : Bytes). s.indegree n ≡ 0) (λ (n : Bytes). indegree n ≡ 0)
                        rest (λ n z. omega (arith, lower n, z)) free.1)
                      (sort_loop-All rank (λ (n : Bytes). indegree n ≡ 0) [] freed tt
                        (release-freed succs s.indegree));
                in_order =
                    IsInOrder-snoc edges [] s.ordered name g.in_order new
                      (sym (g.counts name) ∙ free.0);
              },
              omega (
                arith,
                size,
                length-append rest sorted,
                sort_loop-length rank [] freed,
                release-length succs s.indegree,
                open_edges-snoc edges s.ordered name new,
              ),
            )
      ]

  -- The loop ends with an empty queue.
  kahn_loop-ends :
      (fuel : ℕ) (s : Kahn) (queue : List Bytes)
      → s.queue ≡ queue
      → IsGood s
      → work s ≤ fuel
      → (s' : Kahn) × (kahn_loop reg_order edges fuel s ≡ some s') × IsGood s'
  unfolding kahn_loop
  kahn_loop-ends zero s [] at g enough = (s, rw at refl, g)
  kahn_loop-ends zero s (n ∷ rest) at g enough = absurd (
      let size = ap (λ (q : List Bytes). length q) at in unfold work in omega (arith, size, enough))
  kahn_loop-ends (suc fuel) s [] at g enough = (s, rw at refl, g)
  kahn_loop-ends (suc fuel) s (n ∷ rest) at g enough =
      let (g', less) = round-IsGood s n rest at g in
      let next = round reg_order edges s n rest in
      let (s', e, good) =
        kahn_loop-ends fuel next next.queue refl g' (omega (arith, less, enough)) in
      (s', rw at e, good)

  roots-free :
      (names : List Bytes)
      → All (λ (n : Bytes). indegree_of edges n ≡ 0) (roots reg_order edges names)
  unfolding roots
  roots-free [] = tt
  roots-free (n ∷ names) = elim (Bool-cases (indegree_of edges n == 0)) [
    | inl z ↦ rw z ((let e : indegree_of edges n ≡ 0 = ground (arith, z) in e), roots-free names)
    | inr more ↦ rw more (roots-free names)
  ]

  roots-length : (names : List Bytes) → length (roots reg_order edges names) ≤ length names
  unfolding roots
  roots-length [] = omega arith
  roots-length (n ∷ names) =
      let ih = roots-length names in
      elim (Bool-cases (indegree_of edges n == 0)) [
        | inl z ↦ rw z (omega (arith, ih))
        | inr more ↦ rw more (omega (arith, ih))
      ]

  finished-cases :
      (s : Kahn)
      → IsGood s
      → ((e : DagError) × (finished reg_order edges (some s) ≡ some (err e)))
        ⊎ ((order : ModuleOrder) × (finished reg_order edges (some s) ≡ some (ok order))
            × (order.deps ≡ edges)
            × IsInOrder order.deps [] order.modules
            × (length order.modules ≡ length reg_order))
  finished-cases s g = elim (Bool-cases (length s.ordered == length reg_order)) [
    | inl all ↦ inr (
      record { modules = s.ordered; deps = edges },
      rw all refl,
      refl,
      g.in_order,
      (let e : length s.ordered ≡ length reg_order = ground (arith, all) in e),
    )
    | inr fewer ↦ inl (cycle (length reg_order - length s.ordered), rw fewer refl)
  ]

  kahn-cases :
      ((e : DagError) × (kahn reg_order edges ≡ some (err e)))
      ⊎ ((order : ModuleOrder) × (kahn reg_order edges ≡ some (ok order))
          × (order.deps ≡ edges)
          × IsInOrder order.deps [] order.modules
          × (length order.modules ≡ length reg_order))
  unfolding kahn
  kahn-cases =
      let first = first_state reg_order edges in
      let good : IsGood first = record {
        counts = λ m. sym (missing_deps-nil edges m);
        free = roots-free reg_order;
        in_order = tt;
      } in
      let (s, ends, g) =
        kahn_loop-ends (length reg_order + length edges) first first.queue refl good
          (unfold work in omega (arith, roots-length reg_order, open_edges-nil edges)) in
      rw ends (finished-cases s g)

-- The plan always comes to an end. It is refused with an error, or it has as many modules as are
-- registered, none of them twice, and each stands behind all the modules that it depends on. A module
-- depends on another one in the plan exactly where the given map lists it and both are registered. The
-- registered names differ.
pub resolve_module_order-IsInOrder :
    (reg_order : List Bytes) (dag : List (Bytes × List Bytes)) (node dep : Bytes)
    → AllDifferent reg_order
    → ((e : DagError) × (resolve_module_order reg_order dag ≡ some (err e)))
      ⊎ ((order : ModuleOrder) × (resolve_module_order reg_order dag ≡ some (ok order))
          × (has_edge order.deps node dep
              ≡ (lists dag node dep && (has_name reg_order dep && has_name reg_order node)))
          × IsInOrder order.deps [] order.modules
          × (length order.modules ≡ length reg_order))
unfolding resolve_module_order has_edge lists
resolve_module_order-IsInOrder reg_order [] node dep different =
    inr (record { modules = reg_order; deps = [] }, refl, refl, different, refl)
resolve_module_order-IsInOrder reg_order (entry ∷ dag) node dep different =
    elim (Result-cases (collect_edges reg_order (entry ∷ dag))) [
      | inl (e, refused) ↦ inl (e, rw refused refl)
      | inr (edges, collected) ↦ elim (kahn-cases reg_order edges) [
        | inl (e, refused) ↦ inl (e, rw collected refused)
        | inr (order, planned, same, in_order, whole) ↦ inr (
          order,
          rw collected planned,
          ap (λ (es : List Edge). has_edge es node dep) same
              ∙ collect_edges-has reg_order node dep (entry ∷ dag) edges collected,
          in_order,
          whole,
        )
      ]
    ]
