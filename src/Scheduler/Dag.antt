-- ===== src/Scheduler/Dag.antt =====
-- internal/scheduler/dag.go: the dependency graph, its operations as functions on a record.
-- An edge map lists the successors of each node; the in-degrees are Go's `int`, which may pass
-- below 0. Loops run on fuel; that it is enough is proved in the children.
pub mod Reach
pub mod Acyclic
pub mod Degrees
pub mod WellFormed
pub mod Progress
pub mod Validate
mod Samples
use daedalus.Prelude.{
  ℕ, zero, suc, ◌+◌, ◌≡◌, Bool, true, false, not, ◌&&◌, Option, none, some, List, [], ◌∷◌, ◌++◌,
  if◌then◌else◌, length, keep, Str, str_eq, Map, lookup, insert, member, add, sort_strings, Result,
  ok, err, ◌>>=◌, ◌>>◌, fail_if, sort_by,
}
use daedalus.Prelude.Int.{ℤ, pos, sub_ℕ, inc, dec, is_zero}

pub record Dag : Type 0 where
  pub nodes : List Str
  pub edges : Map (List Str)
  pub in_degree : Map ℤ
  pub completed : List Str

-- The errors of AddEdge and Validate, with the node that their text names.
pub data DagError : Type 0 where
  self_loop : Str → DagError
  node_not_found : Str → DagError
  would_create_cycle : Str → Str → DagError
  graph_is_empty : DagError
  cycle_detected : Str → DagError

-- NewDAG
abbrev pub new_dag : Dag
new_dag = record { nodes = []; edges = []; in_degree = []; completed = [] }

-- `d.edges[id]`: nil on a missing key.
abbrev pub succs_of : Map (List Str) → Str → List Str
succs_of m id = elim (lookup id m) [ none ↦ [] | some ss ↦ ss ]

-- `d.inDegree[id]`: 0 on a missing key.
abbrev pub degree_of : Map ℤ → Str → ℤ
degree_of m id = elim (lookup id m) [ none ↦ pos 0 | some n ↦ n ]

-- AddNode
unfoldable pub add_node : Str → Dag → Dag
unfolding add
add_node id d = if member id d.nodes then d else record d {
  nodes = add id d.nodes;
  in_degree = elim (lookup id d.in_degree) [
    | none ↦ insert id (pos 0) d.in_degree
    | some _ ↦ d.in_degree
  ];
}

-- The inner loop of `reachable`: `none` if the target is a successor, else the longer stack.
unfoldable pub scan : Str → List Str → List Str → Option (List Str)
scan target stack [] = some stack
scan target stack (next ∷ ns) = if str_eq next target then none else scan target (next ∷ stack) ns

-- The outer loop; the head of `stack` is the end of the Go slice. `none`: the fuel ran out.
unfoldable pub reach_loop : ℕ → Map (List Str) → Str → List Str → List Str → Option Bool
unfolding scan
reach_loop zero edges target visited stack = none
reach_loop (suc f) edges target visited [] = some false
reach_loop (suc f) edges target visited (curr ∷ stack) =
    let again = reach_loop f edges target visited stack in
    let fresh : Option Bool = elim (scan target stack (succs_of edges curr)) [
      | none ↦ some true
      | some longer ↦ reach_loop f edges target (curr ∷ visited) longer
    ] in
    if member curr visited then again else fresh

-- How many edges there are.
unfoldable pub edge_count : Map (List Str) → ℕ
edge_count [] = 0
edge_count ((k, ss) ∷ m) = length ss + edge_count m

abbrev pub is_found : Option Bool → Bool
is_found (some b) = b
is_found none = false

-- reachable
unfoldable pub reachable : Map (List Str) → Str → Str → Bool
unfolding reach_loop edge_count
reachable edges start target =
    if str_eq start target
    then true
    else is_found (reach_loop (suc (suc (edge_count edges))) edges target [] (start ∷ []))

-- The writes of AddEdge, behind its guards.
abbrev pub linked : Str → Str → Dag → Dag
linked from to d = record d {
  edges = insert from (succs_of d.edges from ++ to ∷ []) d.edges;
  in_degree = insert to (inc (degree_of d.in_degree to)) d.in_degree;
}

-- AddEdge
unfoldable pub add_edge : Str → Str → Dag → Result DagError Dag
unfolding reachable
add_edge from to d = do
  fail_if (str_eq from to) (self_loop from)
  fail_if (not (member from d.nodes)) (node_not_found from)
  fail_if (not (member to d.nodes)) (node_not_found to)
  fail_if (reachable d.edges to from) (would_create_cycle from to)
  ok (linked from to d)

abbrev pub is_ready : Dag → Str → Bool
is_ready d id = not (member id d.completed) && is_zero (degree_of d.in_degree id)

-- Ready
unfoldable pub ready : Dag → List Str
unfolding sort_by
ready d = sort_strings (keep (is_ready d) d.nodes)

-- The loop of Complete over the successors: the new in-degrees and the newly ready nodes.
unfoldable pub release : List Str → List Str → Map ℤ → Map ℤ × List Str
release done [] degrees = (degrees, [])
release done (s ∷ ss) degrees =
    let fewer = insert s (dec (degree_of degrees s)) degrees in
    let (final, newly) = release done ss fewer in
    (final, if is_zero (degree_of fewer s) && not (member s done) then s ∷ newly else newly)

-- Complete
unfoldable pub complete : Str → Dag → Dag × List Str
unfolding release add
complete id d =
    let done = add id d.completed in
    let (degrees, newly) = release done (succs_of d.edges id) d.in_degree in
    if member id d.completed
    then (d, [])
    else (record d { in_degree = degrees; completed = done }, newly)

-- Size, Remaining and Dependents
abbrev pub size : Dag → ℕ
size d = length d.nodes

abbrev pub remaining : Dag → ℤ
remaining d = sub_ℕ (length d.nodes) (length d.completed)

abbrev pub dependents : Dag → Str → List Str
dependents d id = succs_of d.edges id

pub data Color : Type 0 where
  white gray black : Color

abbrev pub color_of : Map Color → Str → Color
color_of m id = elim (lookup id m) [ none ↦ white | some c ↦ c ]

-- How a depth-first search ends.
pub data Dfs : Type 0 where
  explored : Map Color → Dfs
  cycle_at : Str → Dfs
  out_of_fuel : Dfs

-- The loop of `dfs` over the successors; `search` is the recursive call.
unfoldable pub dfs_succs : (Map Color → Str → Dfs) → Map Color → List Str → Dfs
dfs_succs descend color [] = explored color
dfs_succs descend color (s ∷ ss) = elim (color_of color s) [
  | gray ↦ cycle_at s
  | black ↦ dfs_succs descend color ss
  | white ↦ elim (descend color s) [ explored color' ↦ dfs_succs descend color' ss | other ↦ other ]
]

unfoldable pub dfs : ℕ → Map (List Str) → Map Color → Str → Dfs
unfolding dfs_succs
dfs zero edges color id = out_of_fuel
dfs (suc f) edges color id =
    elim (dfs_succs (dfs f edges) (insert id gray color) (succs_of edges id)) [
      | explored color' ↦ explored (insert id black color')
      | other ↦ other
    ]

-- The outer loop of Validate over the nodes: start a search at each white one.
unfoldable pub dfs_all : ℕ → Map (List Str) → Map Color → List Str → Dfs
unfolding dfs
dfs_all fuel edges color [] = explored color
dfs_all fuel edges color (id ∷ ids) = elim (color_of color id) [
  | white ↦ elim (dfs fuel edges color id) [
    | explored color' ↦ dfs_all fuel edges color' ids
    | other ↦ other
  ]
  | _ ↦ dfs_all fuel edges color ids
]

abbrev pub dfs_verdict : Dfs → Option (Result DagError (Unit {0}))
dfs_verdict (explored _) = some (ok tt)
dfs_verdict (cycle_at s) = some (err (cycle_detected s))
dfs_verdict out_of_fuel = none

-- Validate
unfoldable pub validate : Dag → Option (Result DagError (Unit {0}))
unfolding dfs_all
validate d = elim d.nodes [
  | [] ↦ some (err graph_is_empty)
  | n ∷ ns ↦ dfs_verdict (dfs_all (suc (length d.nodes)) d.edges [] d.nodes)
]
