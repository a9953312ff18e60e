-- ===== src/Scheduler/Dag/Samples.antt =====
-- A small graph of internal/scheduler/dag.go, and the theorems at it.
use daedalus.Prelude.{
  ◌≡◌, ◌≢◌, ◌↔◌, refl, true, some, [], Str, codes, str_eq, str_lt, lookup, insert, member, add,
  sort_by, ok,
}
use daedalus.Scheduler.Dag.{
  Dag, new_dag, add_node, add_edge, ready, complete, validate, reachable, linked,
}
use daedalus.Scheduler.Dag.Reach.{Edge}
use daedalus.Scheduler.Dag.Acyclic.{IsAcyclic, add_edge-IsAcyclic}
use daedalus.Scheduler.Dag.WellFormed.{IsWf, new_dag-IsWf, add_node-IsWf, add_edge-IsWf}
use daedalus.Scheduler.Dag.Progress.{ready_progress}
use daedalus.Scheduler.Dag.Validate.Sound.{validate_iff}

abbrev x : Str
x = codes "x"

abbrev y : Str
y = codes "y"

program : Unit {0}
unfolding add_node add_edge ready complete reachable lookup insert member add str_eq str_lt sort_by
program = tt

abbrev two : Dag
unfolding program
two = add_node y (add_node x new_dag)

abbrev edge : Dag
edge = linked x y two

two-IsWf : IsWf two
unfolding program
two-IsWf = add_node-IsWf y (add_node x new_dag) (add_node-IsWf x new_dag new_dag-IsWf)

added : add_edge x y two ≡ ok edge
unfolding program
added = refl

edge-IsWf : IsWf edge
edge-IsWf = add_edge-IsWf x y two edge added (unfold program in refl) two-IsWf

no-Edge : (a b : Str) → Edge two.edges a b → ⊥
unfolding program
no-Edge a b e = cc

edge-IsAcyclic : IsAcyclic edge.edges
edge-IsAcyclic = add_edge-IsAcyclic x y two edge added (λ a b e. absurd (no-Edge a b e))

ready_progress_example : (r : Str) × (member r (ready edge) ≡ true)
ready_progress_example = ready_progress edge edge-IsWf edge-IsAcyclic (unfold program in refl)

validate_iff_example : (validate edge ≡ some (ok tt)) ↔ ((edge.nodes ≢ []) × IsAcyclic edge.edges)
validate_iff_example = validate_iff edge edge-IsWf
