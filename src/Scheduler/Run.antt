-- ===== src/Scheduler/Run.antt =====
-- internal/scheduler/scheduler.go: Schedule. The goroutines of a batch are the calls of `World`;
-- their results are taken up one by one, in the order of arrival.
pub mod Settle
pub mod Phases
pub mod Batch
pub mod Loop
pub mod Build
pub mod Schedule
pub mod Outcomes
use daedalus.Prelude.{
  ℕ, zero, suc, ◌+◌, Bool, true, false, not, Option, none, some, List, [], ◌∷◌, ◌++◌, map,
  if◌then◌else◌, Str, codes, str_eq, is_empty, Map, lookup, insert, has_key, keys, member, add,
  Result, ok, err, ◌>>=◌, ◌>>◌, fail_if, wrap, length, is_nil,
}
use daedalus.Prelude.Int.{ℤ, pos, negsuc, lt_ℤ}
use daedalus.A2a.{TaskState}
use daedalus.A2a
use daedalus.Dispatch.Types.{TaskSpec}
use daedalus.Scheduler.Dag.{
  Dag, new_dag, add_node, add_edge, validate, ready, complete, remaining, dependents,
}
use daedalus.Scheduler.Types.{
  ScheduledTask, ScheduleRequest, ScheduleResult, ScheduleError, no_tasks, empty_task_id,
  duplicate_task_id, unknown_dependency, dag_error, TaskOutcome, TaskError, dispatch_error,
  wait_error, WaitError, canceled_error, deadline_exceeded, other_error, World,
}

-- The loop that indexes the tasks by ID.
unfoldable pub index_tasks :
    ℕ → Map ScheduledTask → List ScheduledTask → Result ScheduleError (Map ScheduledTask)
index_tasks i by_id [] = ok by_id
index_tasks i by_id (t ∷ ts) =
    let rest = index_tasks (i + 1) (insert t.spec.id t by_id) ts in
    do
      fail_if (is_empty t.spec.id) (empty_task_id i)
      fail_if (has_key t.spec.id by_id) (duplicate_task_id t.spec.id i)
      rest

unfoldable pub add_nodes : List Str → Dag → Dag
add_nodes [] d = d
add_nodes (id ∷ ids) d = add_nodes ids (add_node id d)

-- The edges of one task, and of all tasks.
unfoldable pub add_deps : Map ScheduledTask → Str → List Str → Dag → Result ScheduleError Dag
add_deps by_id id [] d = ok d
add_deps by_id id (dep ∷ deps) d = do
  fail_if (not (has_key dep by_id)) (unknown_dependency id dep)
  d' ← wrap dag_error (add_edge dep id d)
  add_deps by_id id deps d'

unfoldable pub add_all_deps :
    Map ScheduledTask → List ScheduledTask → Dag → Result ScheduleError Dag
unfolding add_deps
add_all_deps by_id [] d = ok d
add_all_deps by_id (t ∷ ts) d = do
  d' ← add_deps by_id t.spec.id t.depends_on d
  add_all_deps by_id ts d'

-- The variables of the dispatch loop.
pub record Run : Type 0 where
  pub dag : Dag
  pub outcomes : Map TaskOutcome
  pub execution_order : List (List Str)
  pub skip : List Str
  pub batch_num : ℕ

-- `skip[succ] = true` for each successor.
unfoldable pub mark_all : List Str → List Str → List Str
mark_all [] skip = skip
mark_all (s ∷ ss) skip = mark_all ss (add s skip)

-- What each of the four ends of a task does: write the outcome, mark the dependents if `marks`, and
-- complete the node.
unfoldable pub settle : Str → TaskOutcome → Bool → Run → Run
unfolding mark_all
settle id outcome marks s = record s {
  outcomes = insert id outcome s.outcomes;
  skip = if marks then mark_all (dependents s.dag id) s.skip else s.skip;
  dag = (complete id s.dag).0;
}

abbrev pub outcome_of : Str → Str → Option TaskError → ℕ → TaskOutcome
outcome_of id status error batch = record {
  task_id = id;
  status = status;
  error = error;
  batch = pos batch;
}

abbrev pub skipped : Str
skipped = codes "skipped"

-- The loop over the ready nodes: skip those marked, and gather the others. The third result is
-- `skippedThisRound`.
unfoldable pub partition : List Str → Run → Run × List Str × Bool
unfolding settle
partition [] s = (s, [], false)
partition (id ∷ ids) s =
    let skipping : Run × List Str × Bool =
      (let (s', waiting, _) =
          partition ids (settle id (outcome_of id skipped none s.batch_num) true s) in
        (s', waiting, true)) in
    let gathering : Run × List Str × Bool =
      (let (s', waiting, any) = partition ids s in (s', id ∷ waiting, any)) in
    if member id s.skip then skipping else gathering

-- outcomeStatus
unfoldable pub outcome_status : TaskState → Str
outcome_status state =
    if str_eq state A2a.completed
    then codes "completed"
    else if str_eq state A2a.failed
    then codes "failed"
    else if str_eq state A2a.canceled
    then codes "canceled"
    else state

module _ (w : World) (context_id : Str) (by_id : Map ScheduledTask) where
  -- `taskByID[id]`, with the spec's ID set to the scheduled one.
  abbrev pub spec_of : Str → TaskSpec
  spec_of id = elim (lookup id by_id) [
    | none ↦ record { id = id; skill_id = []; tags = []; prompt = []; metadata = [] }
    | some t ↦ record t.spec { id = id }
  ]

  -- Phase 2: settle the tasks whose dispatch failed; the others, with their dispatch IDs, are
  -- waited for.
  unfoldable pub dispatched : List Str → Run → Run × List (Str × Str)
  unfolding settle
  dispatched [] s = (s, [])
  dispatched (id ∷ ids) s = elim (w.dispatch s.batch_num (spec_of id) context_id) [
    | err e ↦
        dispatched ids
          (settle id (outcome_of id A2a.failed (some (dispatch_error e)) s.batch_num) true s)
    | ok dispatch_id ↦ let (s', waiting) = dispatched ids s in (s', (id, dispatch_id) ∷ waiting)
  ]

abbrev pub wait_status : WaitError → Str
wait_status canceled_error = A2a.canceled
wait_status deadline_exceeded = A2a.canceled
wait_status (other_error e) = A2a.failed

-- One result out of the channel.
unfoldable pub receive : Str → Result WaitError TaskState → Run → Run
unfolding settle outcome_status
receive id (err e) s =
    settle id (outcome_of id (wait_status e) (some (wait_error e)) s.batch_num) true s
receive id (ok state) s =
    let status = outcome_status state in
    settle id (outcome_of id status none s.batch_num) (not (str_eq status A2a.completed)) s

module _ (w : World) where
  unfoldable pub collect : ℕ → List (Str × Str) → Run → Run
  unfolding receive
  collect batch [] s = s
  collect batch ((id, dispatch_id) ∷ rest) s =
      collect batch rest (receive id (w.wait_for batch dispatch_id) s)

-- A round ends with `break` or goes on.
pub data Round : Type 0 where
  break : Run → Round
  go_on : Run → Round

module _ (w : World) (context_id : Str) (by_id : Map ScheduledTask) where
  -- A batch: both phases, and the collection of the results.
  unfoldable pub run_batch : List Str → Run → Run
  unfolding dispatched collect
  run_batch to_dispatch s =
      let opened = record s { execution_order = s.execution_order ++ to_dispatch ∷ [] } in
      let (s', waiting) = dispatched w context_id by_id to_dispatch opened in
      let collected = collect w s.batch_num (w.arrival s.batch_num waiting) s' in
      record collected { batch_num = s.batch_num + 1 }

  after_partition : Run × List Str × Bool → Round
  unfolding run_batch
  after_partition (s, [], true) = go_on s
  after_partition (s, [], false) = break s
  after_partition (s, id ∷ ids, _) = elim (w.ctx_err s.batch_num) [
    | some _ ↦ break s
    | none ↦ go_on (run_batch (id ∷ ids) s)
  ]

  unfoldable pub round : Run → Round
  unfolding partition after_partition
  round s = after_partition (partition (ready s.dag) s)

  -- The loop; `none`: the fuel ran out.
  unfoldable pub run_loop : ℕ → Run → Option Run
  unfolding round
  run_loop zero s = none
  run_loop (suc f) s =
      let next : Option Run = elim (round s) [ break s' ↦ some s' | go_on s' ↦ run_loop f s' ] in
      if lt_ℤ (pos 0) (remaining s.dag) then next else some s

abbrev pub canceled_outcome : Str → TaskOutcome
canceled_outcome id = record { task_id = id; status = A2a.canceled; error = none; batch = negsuc 0 }

-- The last loop: tasks with no outcome are canceled.
unfoldable pub cancel_rest : List Str → Map TaskOutcome → Map TaskOutcome
cancel_rest [] outcomes = outcomes
cancel_rest (id ∷ ids) outcomes =
    cancel_rest ids
      (if has_key id outcomes then outcomes else insert id (canceled_outcome id) outcomes)

-- What precedes the loop: index, graph and validation.
unfoldable pub build : ScheduleRequest → Result ScheduleError (Map ScheduledTask × Dag)
unfolding index_tasks add_nodes add_all_deps
build req = do
  fail_if (is_nil req.tasks) no_tasks
  by_id ← index_tasks 0 [] req.tasks
  d ← add_all_deps by_id req.tasks (add_nodes (keys by_id) new_dag)
  ok (by_id, d)

abbrev pub start : Dag → Run
start d = record { dag = d; outcomes = []; execution_order = []; skip = []; batch_num = 0 }

abbrev pub finish :
    ScheduleRequest → World → Map ScheduledTask → Run → ScheduleResult × Option WaitError
finish req w by_id s = (
  record {
    context_id = req.context_id;
    task_results = cancel_rest (keys by_id) s.outcomes;
    execution_order = s.execution_order;
  },
  w.ctx_err s.batch_num,
)

-- Schedule: `none` if a loop ran out of fuel.
unfoldable pub schedule :
    World → ScheduleRequest → Option (Result ScheduleError (ScheduleResult × Option WaitError))
unfolding build run_loop cancel_rest
schedule w req = elim (build req) [
  | err e ↦ some (err e)
  | ok (by_id, d) ↦ elim (validate d) [
    | none ↦ none
    | some (err e) ↦ some (err (dag_error e))
    | some (ok _) ↦ elim (run_loop w req.context_id by_id (suc (length d.nodes)) (start d)) [
      | none ↦ none
      | some s ↦ some (ok (finish req w by_id s))
    ]
  ]
]
