-- ===== src/Orchestrator/FanOut.antt =====
-- internal/orchestrator/orchestrator.go: FanOut. One goroutine per task dispatches it and sends its
-- indexed result; the results come out of the channel in the order of sending.
pub mod Slots
pub mod Valid
use mathlib.Core.List.{Permᴰ}
use daedalus.Prelude.{
  ℕ, zero, suc, ◌+◌, ◌<◌, ltb, leb, ◌==◌, ==_iff, ◌≡◌, refl, sym, ap, ◌∙◌, subst, inl, inr, Bool,
  true, false, ◌||◌, ◌&&◌, Option, none, some, List, [], ◌∷◌, map, length, get_elem?, arith,
  if◌then◌else◌, Str, is_empty, Result, ok, err, ◌>>=◌, ◌>>◌, wrap, and_then-eq-ok, Bool-cases,
  Option-cases,
}
use daedalus.A2a
use daedalus.Dispatch.Types.{TaskSpec}
use daedalus.Orchestrator.Types.{
  FanOutRequest, FanOutResult, TaskResult, RequestError, validate_request,
}

-- The dispatcher's answer (task ID and subject) and the instants, by task; `generateContextID`; the
-- instants of start and end; `ctx.Err()` at the end; and the order in which the results are sent.
pub record Env : Type 0 where
  pub dispatch : ℕ → TaskSpec → Str → Result Str (Str × Str)
  pub dispatched_at : ℕ → ℕ
  pub completed_at : ℕ → ℕ
  pub generate_context_id : Result Str Str
  pub started : ℕ
  pub ended : ℕ
  pub ctx_err : Option Str
  pub arrival : List (ℕ × TaskResult) → List (ℕ × TaskResult)
  pub arrival-perm : (rs : List (ℕ × TaskResult)) → Permᴰ (arrival rs) rs

pub data FanOutError : Type 0 where
  bad_request : RequestError → FanOutError
  no_context_id : Str → FanOutError

-- The body of a goroutine.
unfoldable pub task_result : Env → Str → ℕ → TaskSpec → TaskResult
task_result env context_id idx s = elim (env.dispatch idx s context_id) [
  | err e ↦ record {
    task_id = s.id;
    skill_id = s.skill_id;
    status = A2a.failed;
    task = none;
    error = some e;
    dispatched_at = env.dispatched_at idx;
    completed_at = env.completed_at idx;
  }
  | ok (task_id, _) ↦ record {
    task_id = task_id;
    skill_id = s.skill_id;
    status = A2a.submitted;
    task = none;
    error = none;
    dispatched_at = env.dispatched_at idx;
    completed_at = env.completed_at idx;
  }
]

-- The loop that launches the goroutines.
unfoldable pub launch : Env → Str → ℕ → List TaskSpec → List (ℕ × TaskResult)
launch env context_id i [] = []
launch env context_id i (s ∷ ss) =
    (i, task_result env context_id i s) ∷ launch env context_id (i + 1) ss

abbrev pub zero_result : TaskResult
zero_result = record {
  task_id = [];
  skill_id = [];
  status = [];
  task = none;
  error = none;
  dispatched_at = 0;
  completed_at = 0;
}

-- `result.Tasks[r.idx] = r.result`; out of range the code panics, and nothing is written here.
unfoldable pub set_at : ℕ → TaskResult → List TaskResult → List TaskResult
set_at i r [] = []
set_at zero r (t ∷ ts) = r ∷ ts
set_at (suc i) r (t ∷ ts) = t ∷ set_at i r ts

-- The loop over the closed channel.
unfoldable pub place : List (ℕ × TaskResult) → List TaskResult → List TaskResult
unfolding set_at
place [] slots = slots
place ((i, r) ∷ rs) slots = place rs (set_at i r slots)

unfoldable pub context_id_of : Env → FanOutRequest → Result FanOutError Str
context_id_of env req =
    if is_empty req.context_id
    then wrap no_context_id env.generate_context_id
    else ok req.context_id

-- What follows the launch.
unfoldable pub finish : Env → FanOutRequest → Str → FanOutResult × Option Str
unfolding launch place
finish env req context_id =
    let sent = env.arrival (launch env context_id 0 req.tasks) in
    (
      record {
        context_id = context_id;
        tasks = place sent (map (λ s. zero_result) req.tasks);
        started_at = env.started;
        completed_at = env.ended;
      },
      env.ctx_err,
    )

-- FanOut: the result, and the error of a context that ended meanwhile.
unfoldable pub fan_out : Env → FanOutRequest → Result FanOutError (FanOutResult × Option Str)
unfolding validate_request context_id_of finish
fan_out env req = do
  wrap bad_request (validate_request req)
  context_id ← context_id_of env req
  ok (finish env req context_id)
