-- ===== src/Acceptance/Dag.antt =====
-- verifier/dag.go: the order in which the verifier runs its modules. A module is its name. A Go map is a
-- list of its entries in the order in which the loop meets them, which is any.
pub mod Counts
pub mod Edges
pub mod Order
use pebble_db.Prelude.{
  ℕ, zero, suc, ◌+◌, ◌-◌, ltb, ◌==◌, if◌then◌else◌, Bool, true, false, Option, none, some, List, [],
  ◌∷◌, ◌++◌, length,
}
use pebble_db.Bytes.{Bytes, compare_bytes}
use pebble_db.Bytes.Order.{is_eq}
use pebble_db.Result.{Result, ok, err}

abbrev pub same_name : Bytes → Bytes → Bool
same_name a b = is_eq (compare_bytes a b)

unfoldable pub has_name : List Bytes → Bytes → Bool
has_name [] name = false
has_name (x ∷ xs) name = if same_name name x then true else has_name xs name

-- `node` depends on `dep`.
pub record Edge : Type 0 where
  pub dep : Bytes
  pub node : Bytes

pub data DagError : Type 0 where
  depends_on_itself : Bytes → DagError
  cycle : ℕ → DagError

-- `deps` is the map from a module to its dependencies, as the edges that make it.
pub record ModuleOrder : Type 0 where
  pub modules : List Bytes
  pub deps : List Edge

abbrev pub prepend_edge : Edge → Result DagError (List Edge) → Result DagError (List Edge)
prepend_edge e (err x) = err x
prepend_edge e (ok es) = ok (e ∷ es)

-- The inner loop: edges between registered modules only.
unfoldable pub node_edges :
    List Bytes → Bytes → List Bytes → Result DagError (List Edge) → Result DagError (List Edge)
node_edges registered node [] later = later
node_edges registered node (dep ∷ deps) later =
    let rest = node_edges registered node deps later in
    if has_name registered dep
    then (if same_name dep node
        then err (depends_on_itself node)
        else prepend_edge (record { dep = dep; node = node }) rest)
    else rest

unfoldable pub collect_edges : List Bytes → List (Bytes × List Bytes) → Result DagError (List Edge)
unfolding node_edges
collect_edges registered [] = ok []
collect_edges registered ((node, raw_deps) ∷ dag) =
    let rest = collect_edges registered dag in
    if has_name registered node then node_edges registered node raw_deps rest else rest

-- `adj[name]`: the modules that depend on it.
unfoldable pub successors : List Edge → Bytes → List Bytes
successors [] name = []
successors (e ∷ es) name =
    if same_name e.dep name then e.node ∷ successors es name else successors es name

-- `indegree`, before the first round.
unfoldable pub indegree_of : List Edge → Bytes → ℕ
indegree_of [] name = 0
indegree_of (e ∷ es) name =
    if same_name name e.node then suc (indegree_of es name) else indegree_of es name

abbrev pub lowered : (Bytes → ℕ) → Bytes → Bytes → ℕ
lowered indegree succ name = if same_name name succ then indegree name - 1 else indegree name

-- The loop over the successors: what they free, and the counts that it leaves.
unfoldable pub release : (Bytes → ℕ) → List Bytes → (Bytes → ℕ) × List Bytes
release indegree [] = (indegree, [])
release indegree (succ ∷ succs) =
    let next = lowered indegree succ in
    let (final, freed) = release next succs in
    (final, if next succ == 0 then succ ∷ freed else freed)

-- `rank`: the place in the registration order; the last one, if there are several, and 0 if there is none.
unfoldable pub rank_from : ℕ → List Bytes → Bytes → ℕ → ℕ
rank_from i [] name rank = rank
rank_from i (x ∷ xs) name rank = rank_from (i + 1) xs name (if same_name name x then i else rank)

abbrev pub rank_in : List Bytes → Bytes → ℕ
rank_in reg_order name = rank_from 0 reg_order name 0

-- `sortByRegOrder` is an insertion sort. The part before an element is in order already, so that the
-- swaps stop in front of the first name of a higher rank.
unfoldable pub insert_ranked : (Bytes → ℕ) → Bytes → List Bytes → List Bytes
insert_ranked rank name [] = name ∷ []
insert_ranked rank name (x ∷ xs) =
    if ltb (rank name) (rank x) then name ∷ x ∷ xs else x ∷ insert_ranked rank name xs

unfoldable pub sort_loop : (Bytes → ℕ) → List Bytes → List Bytes → List Bytes
unfolding insert_ranked
sort_loop rank sorted [] = sorted
sort_loop rank sorted (x ∷ xs) = sort_loop rank (insert_ranked rank x sorted) xs

abbrev pub sort_by_reg_order : List Bytes → List Bytes → List Bytes
sort_by_reg_order names reg_order = sort_loop (rank_in reg_order) [] names

pub record Kahn : Type 0 where
  pub indegree : Bytes → ℕ
  pub queue : List Bytes
  pub ordered : List Bytes

module _ (reg_order : List Bytes) (edges : List Edge) where
  -- A round on the head of the queue. What has been seen is what is ordered.
  unfoldable pub round : Kahn → Bytes → List Bytes → Kahn
  round s name rest =
      let (indegree, freed) = release s.indegree (successors edges name) in
      let next : Kahn = record {
        indegree = indegree;
        queue = rest ++ sort_by_reg_order freed reg_order;
        ordered = s.ordered ++ name ∷ [];
      } in
      if has_name s.ordered name then record s { queue = rest } else next

  -- The loop over the queue; `none` is the fuel running out.
  unfoldable pub kahn_loop : ℕ → Kahn → Option Kahn
  unfolding round
  kahn_loop zero s = elim s.queue [ [] ↦ some s | _ ∷ _ ↦ none ]
  kahn_loop (suc fuel) s = elim s.queue [
    | [] ↦ some s
    | name ∷ rest ↦ kahn_loop fuel (round s name rest)
  ]

  -- The modules without dependencies, in the registration order.
  unfoldable pub roots : List Bytes → List Bytes
  roots [] = []
  roots (name ∷ names) = if indegree_of edges name == 0 then name ∷ roots names else roots names

  abbrev pub first_state : Kahn
  first_state = record { indegree = indegree_of edges; queue = roots reg_order; ordered = [] }

  abbrev pub finished : Option Kahn → Option (Result DagError ModuleOrder)
  finished none = none
  finished (some s) =
      if length s.ordered == length reg_order
      then some (ok (record { modules = s.ordered; deps = edges }))
      else some (err (cycle (length reg_order - length s.ordered)))

  unfoldable pub kahn : Option (Result DagError ModuleOrder)
  unfolding kahn_loop roots
  kahn = finished (kahn_loop (length reg_order + length edges) first_state)

abbrev pub ordered_by :
    List Bytes → Result DagError (List Edge) → Option (Result DagError ModuleOrder)
ordered_by reg_order (err e) = some (err e)
ordered_by reg_order (ok edges) = kahn reg_order edges

-- `resolveModuleOrder`, on the names of the registered modules, which differ.
unfoldable pub resolve_module_order :
    List Bytes → List (Bytes × List Bytes) → Option (Result DagError ModuleOrder)
unfolding collect_edges
resolve_module_order reg_order [] = some (ok (record { modules = reg_order; deps = [] }))
resolve_module_order reg_order (entry ∷ dag) =
    ordered_by reg_order (collect_edges reg_order (entry ∷ dag))

-- `firstUnhealthyDep`, with the unhealthy modules as a test.
unfoldable pub first_unhealthy_dep : List Bytes → (Bytes → Bool) → Option Bytes
first_unhealthy_dep [] unhealthy = none
first_unhealthy_dep (d ∷ deps) unhealthy =
    if unhealthy d then some d else first_unhealthy_dep deps unhealthy
