-- ===== src/Scheduler/Samples.antt =====
-- Small graphs and requests for internal/scheduler, and the theorems at them.
use mathlib.Core.List.{Permᴰ}
use daedalus.Prelude.{
  Map, ℕ, ◌≡◌, ◌↔◌, ◌⊎◌, refl, true, false, Option, none, some, List, [], ◌∷◌, Str, codes, str_eq,
  str_lt, lookup, insert, member, add, has_key, sort_by, ok, err, if◌then◌else◌, Distinct, inl, inr,
}
use daedalus.A2a
use daedalus.A2a.{TaskState}
use daedalus.Scheduler.Types.{
  World, ScheduleRequest, ScheduleResult, ScheduledTask, TaskOutcome, WaitError, ScheduleError,
  dag_error,
}
use daedalus.Scheduler.Dag.{
  Dag, add_node, add_edge, ready, complete, validate, would_create_cycle, dfs_all,
}
use daedalus.Scheduler.Run.{build, schedule, run_loop, cancel_rest, outcome_of, skipped}
use daedalus.Scheduler.Run.Loop.{flat}
use daedalus.Scheduler.Run.Settle.{succeeded}
use daedalus.Scheduler.Run.Build.{task_ids, Depends}
use daedalus.Scheduler.Run.Outcomes.{schedule_total, schedule-deps_first, schedule-dispatched_iff}

abbrev a : Str
a = codes "a"

abbrev b : Str
b = codes "b"

abbrev c : Str
c = codes "c"

abbrev d : Str
d = codes "d"

abbrev task : Str → List Str → ScheduledTask
task id deps = record {
  spec = record { id = id; skill_id = codes "code"; tags = []; prompt = codes "go"; metadata = [] };
  depends_on = deps;
}

-- Later results arrive before the first one.
abbrev rotate : ℕ → List (Str × Str) → List (Str × Str)
rotate n [] = []
rotate n (x ∷ []) = x ∷ []
rotate n (x ∷ y ∷ l) = y ∷ x ∷ l

rotate-perm : (n : ℕ) (l : List (Str × Str)) → Permᴰ (rotate n l) l
rotate-perm n [] = Permᴰ.nil
rotate-perm n (x ∷ []) = Permᴰ.cons refl Permᴰ.nil
rotate-perm n (x ∷ y ∷ l) = Permᴰ.swap refl refl

-- Task b fails on the worker.
abbrev failing : World
failing = record {
  dispatch = λ n spec context. ok spec.id;
  wait_for = λ n id. ok (if str_eq id (codes "b") then A2a.failed else A2a.completed);
  ctx_err = λ n. none;
  arrival = rotate;
  arrival-perm = rotate-perm;
}

abbrev request : ScheduleRequest
request = record {
  tasks = task a [] ∷ task b (a ∷ []) ∷ task c (b ∷ []) ∷ task d (a ∷ []) ∷ [];
  context_id = codes "ctx";
}

abbrev result : ScheduleResult
result = record {
  context_id = codes "ctx";
  task_results =
      (a, outcome_of a A2a.completed none 0)
      ∷ (d, outcome_of d A2a.completed none 1)
      ∷ (b, outcome_of b A2a.failed none 1)
      ∷ (c, outcome_of c skipped none 2)
      ∷ [];
  execution_order = (a ∷ []) ∷ (b ∷ d ∷ []) ∷ [];
}

program : Unit {0}
unfolding schedule build run_loop cancel_rest validate ready complete lookup insert member add
    str_eq str_lt sort_by dfs_all add_node add_edge
program = tt

schedule-request : schedule failing request ≡ some (ok (result, none))
unfolding program
schedule-request = refl

schedule_total_example :
    ((e : ScheduleError) × (build request ≡ err e) × (schedule failing request ≡ some (err e)))
    ⊎ (((b : Map ScheduledTask × Dag) × (build request ≡ ok b))
        × ((r : ScheduleResult × Option WaitError) × (schedule failing request ≡ some (ok r))
            × ((n : Str) → has_key n r.0.task_results ≡ member n (task_ids request.tasks))
            × Distinct (flat r.0.execution_order)))
schedule_total_example = schedule_total failing request

schedule-deps_first_example : succeeded result.task_results a ≡ true
schedule-deps_first_example =
    schedule-deps_first failing request result schedule-request d a (unfold member str_eq in refl)
      (inr (inr (inr (inl (refl, unfold member str_eq in refl)))))

schedule-dispatched_iff_example :
    ((member c (flat result.execution_order) ≡ true)
      ↔ ((p : Str) → Depends request.tasks p c → succeeded result.task_results p ≡ true))
    × (member c (flat result.execution_order) ≡ false
        → (o : TaskOutcome) × (lookup c result.task_results ≡ some o) × (o.status ≡ skipped))
schedule-dispatched_iff_example =
    schedule-dispatched_iff failing request result schedule-request c refl
      (unfold member str_eq in refl)

schedule_cyclic :
    schedule failing (record { tasks = task a (b ∷ []) ∷ task b (a ∷ []) ∷ []; context_id = [] })
    ≡ some (err (dag_error (would_create_cycle a b)))
unfolding program
schedule_cyclic = refl
