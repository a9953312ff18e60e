-- ===== src/Scheduler/Types.antt =====
-- internal/scheduler/types.go, and what a run meets outside the scheduler: the dispatcher, the
-- result collector, the caller's context and the order in which results arrive.
use mathlib.Core.List.{Permᴰ}
use daedalus.Prelude.{ℕ, Str, Map, List, Option, Result}
use daedalus.Prelude.Int.{ℤ}
use daedalus.A2a.{TaskState}
use daedalus.Dispatch.Types.{TaskSpec}
use daedalus.Scheduler.Dag.{DagError}

pub record ScheduledTask : Type 0 where
  pub spec : TaskSpec
  pub depends_on : List Str

pub record ScheduleRequest : Type 0 where
  pub tasks : List ScheduledTask
  pub context_id : Str

-- context.Canceled and context.DeadlineExceeded, and any other error by its text.
pub data WaitError : Type 0 where
  canceled_error deadline_exceeded : WaitError
  other_error : Str → WaitError

pub data TaskError : Type 0 where
  dispatch_error : Str → TaskError
  wait_error : WaitError → TaskError

pub record TaskOutcome : Type 0 where
  pub task_id : Str
  pub status : Str
  pub error : Option TaskError
  pub batch : ℤ

pub record ScheduleResult : Type 0 where
  pub context_id : Str
  pub task_results : Map TaskOutcome
  pub execution_order : List (List Str)

pub data ScheduleError : Type 0 where
  no_tasks : ScheduleError
  empty_task_id : ℕ → ScheduleError
  duplicate_task_id : Str → ℕ → ScheduleError
  unknown_dependency : Str → Str → ScheduleError
  dag_error : DagError → ScheduleError

-- The answers of the dispatcher (the dispatch ID) and of the collector (the state of the result),
-- by batch; `ctx.Err()` before each batch; and the order in which the results of a batch come out of
-- the channel, a permutation of the tasks that were waited for.
pub record World : Type 0 where
  pub dispatch : ℕ → TaskSpec → Str → Result Str Str
  pub wait_for : ℕ → Str → Result WaitError TaskState
  pub ctx_err : ℕ → Option WaitError
  pub arrival : ℕ → List (Str × Str) → List (Str × Str)
  pub arrival-perm : (n : ℕ) (xs : List (Str × Str)) → Permᴰ (arrival n xs) xs
