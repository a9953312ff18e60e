-- ===== src/Orchestrator/Types.antt =====
-- internal/orchestrator/types.go. An instant is a number, 0 for the zero time.
use daedalus.Prelude.{
  ℕ, ◌+◌, Str, Map, List, [], ◌∷◌, Option, is_nil, is_empty, Result, ok, ◌>>◌, fail_if,
}
use daedalus.A2a.{TaskState, Task, Json}
use daedalus.Dispatch.Types.{TaskSpec}

pub record FanOutRequest : Type 0 where
  pub tasks : List TaskSpec
  pub context_id : Str
  pub metadata : Map Json

pub record TaskResult : Type 0 where
  pub task_id : Str
  pub skill_id : Str
  pub status : TaskState
  pub task : Option Task
  pub error : Option Str
  pub dispatched_at : ℕ
  pub completed_at : ℕ

pub record FanOutResult : Type 0 where
  pub context_id : Str
  pub tasks : List TaskResult
  pub started_at : ℕ
  pub completed_at : ℕ

-- The errors of Validate.
pub data RequestError : Type 0 where
  no_tasks : RequestError
  skill_id_required : ℕ → RequestError
  prompt_required : ℕ → RequestError

-- The loop of Validate.
unfoldable pub validate_tasks : ℕ → List TaskSpec → Result RequestError (Unit {0})
validate_tasks i [] = ok tt
validate_tasks i (t ∷ ts) = do
  fail_if (is_empty t.skill_id) (skill_id_required i)
  fail_if (is_empty t.prompt) (prompt_required i)
  validate_tasks (i + 1) ts

-- FanOutRequest.Validate
unfoldable pub validate_request : FanOutRequest → Result RequestError (Unit {0})
unfolding validate_tasks
validate_request r = do fail_if (is_nil r.tasks) no_tasks; validate_tasks 0 r.tasks
