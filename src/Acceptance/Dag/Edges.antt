-- ===== src/Acceptance/Dag/Edges.antt =====
-- The edges of a plan are the dependencies that were asked for.
use pebble_db.Prelude.{
  ◌≡◌, refl, sym, ap, ◌∙◌, ◌&&◌, ◌||◌, if◌then◌else◌, Bool, true, false, Bool-cases, inl, inr, List,
  [], ◌∷◌,
}
use pebble_db.Bytes.{Bytes}
use pebble_db.Bytes.Order.{eq_of_is_eq}
use pebble_db.Result.{Result, ok, err}
use pebble_db.Acceptance.Dag.{
  Edge, DagError, same_name, has_name, prepend_edge, node_edges, collect_edges,
}

-- Whether a list of edges has the one from a node to what it depends on.
unfoldable pub has_edge : List Edge → Bytes → Bytes → Bool
has_edge [] node dep = false
has_edge (e ∷ es) node dep = (same_name node e.node && same_name dep e.dep) || has_edge es node dep

-- Whether the map of dependencies lists one for a node.
unfoldable pub lists : List (Bytes × List Bytes) → Bytes → Bytes → Bool
lists [] node dep = false
lists ((n, deps) ∷ dag) node dep = (same_name node n && has_name deps dep) || lists dag node dep

drop_and_false : (m r : Bool) → r ≡ ((m && false) || r)
drop_and_false true r = refl
drop_and_false false r = refl

taken_in :
    (m s a k r : Bool)
    → (s ≡ true → k ≡ true)
    → ((m && s) || ((m && (a && k)) || r)) ≡ ((m && ((if s then true else a) && k)) || r)
taken_in false s a k r h = refl
taken_in true false a k r h = refl
taken_in true true a true r h = refl
taken_in true true a false r h = cc (h refl)

left_out :
    (m s a k r : Bool)
    → (s ≡ true → k ≡ false)
    → ((m && (a && k)) || r) ≡ ((m && ((if s then true else a) && k)) || r)
left_out false s a k r h = refl
left_out true false a k r h = refl
left_out true true a true r h = cc (h refl)
left_out true true true false r h = refl
left_out true true false false r h = refl

node_known :
    (m a l k n : Bool)
    → (m ≡ true → n ≡ true)
    → ((m && (a && k)) || (l && (k && n))) ≡ (((m && a) || l) && (k && n))
node_known false a l k n h = refl
node_known true false l k n h = refl
node_known true true true k true h = elim (Bool-cases k) [ inl e ↦ rw e refl | inr e ↦ rw e refl ]
node_known true true false true true h = refl
node_known true true false false true h = refl
node_known true true l k false h = cc (h refl)

node_unknown :
    (m a l k n : Bool) → (m ≡ true → n ≡ false) → (l && (k && n)) ≡ (((m && a) || l) && (k && n))
node_unknown false a l k n h = refl
node_unknown true false l k n h = refl
node_unknown true true true k n h = refl
node_unknown true true false k true h = cc (h refl)
node_unknown true true false true false h = refl
node_unknown true true false false false h = refl

prepended :
    (e : Edge) (r : Result DagError (List Edge)) (es : List Edge)
    → prepend_edge e r ≡ ok es
    → (rest : List Edge) × (r ≡ ok rest) × (e ∷ rest ≡ es)
prepended e (err x) es h = cc h
prepended e (ok rest) es h = (rest, refl, cc h)

module _ (registered : List Bytes) (node dep : Bytes) where
  known_name : (x d : Bytes) → same_name x d ≡ true → has_name registered d ≡ has_name registered x
  known_name x d same = let e : x ≡ d = eq_of_is_eq x d same in rw e refl

  node_edges-has :
      (n : Bytes) (deps : List Bytes) (later : Result DagError (List Edge)) (es : List Edge)
      → node_edges registered n deps later ≡ ok es
      → (rest : List Edge) × (later ≡ ok rest)
        × (has_edge es node dep ≡ (
            (same_name node n && (has_name deps dep && has_name registered dep))
            || has_edge rest node dep))
  unfolding node_edges has_edge has_name
  node_edges-has n [] later es h = (es, h, drop_and_false (same_name node n) (has_edge es node dep))
  node_edges-has n (d ∷ deps) later es h = elim (Bool-cases (has_name registered d)) [
    | inl known ↦ elim (Bool-cases (same_name d n)) [
      | inl own ↦ cc (rw (known, own) at h)
      | inr other ↦
          let (more, made, whole) =
            prepended (record { dep = d; node = n }) (node_edges registered n deps later) es
              (rw (known, other) at h) in
          let (rest, end', has) = node_edges-has n deps later more made in
          (
            rest,
            end',
            ap (λ (x : List Edge). has_edge x node dep) (sym whole)
                ∙ ap (λ (b : Bool). (same_name node n && same_name dep d) || b) has
                ∙ taken_in (same_name node n) (same_name dep d) (has_name deps dep)
                    (has_name registered dep) (has_edge rest node dep)
                    (λ same. sym (known_name dep d same) ∙ known),
          )
    ]
    | inr unknown ↦
        let (rest, end', has) = node_edges-has n deps later es (rw unknown at h) in
        (
          rest,
          end',
          has
              ∙ left_out (same_name node n) (same_name dep d) (has_name deps dep)
                  (has_name registered dep) (has_edge rest node dep)
                  (λ same. sym (known_name dep d same) ∙ unknown),
        )
  ]

  -- An edge is there where the map lists it and both modules are registered.
  pub collect_edges-has :
      (dag : List (Bytes × List Bytes)) (es : List Edge)
      → collect_edges registered dag ≡ ok es
      → has_edge es node dep
        ≡ (lists dag node dep && (has_name registered dep && has_name registered node))
  unfolding collect_edges lists has_edge
  collect_edges-has [] es h =
      let none_at : [] ≡ es = cc h in ap (λ (x : List Edge). has_edge x node dep) (sym none_at)
  collect_edges-has ((n, raw) ∷ dag) es h = elim (Bool-cases (has_name registered n)) [
    | inl known ↦
        let (rest, later, has) =
          node_edges-has n raw (collect_edges registered dag) es (rw known at h) in
        has
        ∙ ap
            (λ (b : Bool). (same_name node n && (has_name raw dep && has_name registered dep)) || b)
            (collect_edges-has dag rest later)
        ∙ node_known (same_name node n) (has_name raw dep) (lists dag node dep)
            (has_name registered dep) (has_name registered node)
            (λ same. sym (known_name node n same) ∙ known)
    | inr unknown ↦
        collect_edges-has dag es (rw unknown at h)
        ∙ node_unknown (same_name node n) (has_name raw dep) (lists dag node dep)
            (has_name registered dep) (has_name registered node)
            (λ same. sym (known_name node n same) ∙ unknown)
  ]
