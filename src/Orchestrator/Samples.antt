-- ===== src/Orchestrator/Samples.antt =====
-- Small runs of internal/orchestrator, and the theorems at them.
use mathlib.Core.List.{Permᴰ, Memᴰ}
use daedalus.Prelude.{
  has_key, ℕ, zero, suc, ◌≡◌, ◌↔◌, refl, true, Option, none, some, List, [], ◌∷◌, Str, codes,
  str_eq, lookup, insert, delete, has_key, member, has_prefix, drop_len, trim_prefix, get_elem?,
  Result, ok, err,
}
use daedalus.A2a
use daedalus.A2a.{Task, TaskStatus}
use daedalus.Dispatch.Types.{TaskSpec}
use daedalus.Orchestrator.Types.{
  TaskResult, FanOutRequest, FanOutResult, validate_request, validate_tasks,
}
use daedalus.Orchestrator.Collector.{
  Collector, new_collector, wait_for, handle_result, handle_status, commit_status, Msg, result_of,
  status_result, store_and_notify, waiters_of, send_all, is_terminal, receive_result, replaceable,
}
use daedalus.Orchestrator.Collector.Steps.{
  Steps, stay, and_then, waits, gets_result, gets_status, commits,
}
use daedalus.Orchestrator.Collector.Promises.{
  Supersedes, blocked-delivered_iff, result_stays, handle_result-answers,
}
use daedalus.Orchestrator.FanOut.{
  Env, fan_out, finish, launch, place, set_at, task_result, context_id_of,
}
use daedalus.Orchestrator.FanOut.Slots.{fan_out-slots}
use daedalus.Orchestrator.WaitForAll.{wait_for_all, gather, wait_for_all-gathers}

program : Unit {0}
unfolding wait_for handle_result handle_status commit_status store_and_notify waiters_of send_all
    is_terminal receive_result lookup insert delete has_prefix drop_len trim_prefix str_eq fan_out
    finish launch place set_at task_result context_id_of validate_request validate_tasks
    wait_for_all gather member
program = tt

-- A codec that reads a task ID, and a status.
abbrev status : Str → TaskStatus
status state = record { state = state; message = none; timestamp = [] }

abbrev task : Str → Task
task id = record {
  id = id;
  context_id = [];
  status = status A2a.completed;
  artifacts = [];
  metadata = [];
}

abbrev read_task : Str → Option Task
read_task text = some (task text)

abbrev read_status : Str → Option TaskStatus
read_status text = some (status text)

abbrev t : Str
t = codes "t"

abbrev on_status : Msg
on_status = record { subject = codes "agent.status.t"; payload = A2a.failed }

abbrev on_result : Msg
on_result = record { subject = codes "agent.results.x"; payload = t }

-- A call waits for t; then a status of t is in flight.
abbrev waiting : Collector
unfolding program
waiting = (wait_for t new_collector).0

abbrev flying : Collector
unfolding program
flying = handle_status read_status on_status waiting

abbrev partial : Collector
unfolding program
partial = commit_status flying

abbrev whole : Collector
unfolding program
whole = handle_result read_task on_result partial

to_waiting : Steps read_task read_status new_collector waiting
unfolding program
to_waiting = and_then stay (waits t)

to_partial : Steps read_task read_status new_collector partial
unfolding program
to_partial = and_then (and_then to_waiting (gets_status on_status refl)) commits

to_whole : Steps read_task read_status partial whole
unfolding program
to_whole = and_then stay (gets_result on_result)

partial_has : lookup t partial.results ≡ some (status_result t (status A2a.failed))
unfolding program
partial_has = refl

-- The call got the status; the result that came later replaces it in the store.
whole_has :
    (lookup t whole.results ≡ some (result_of t (task t)))
    × (whole.buffer 0 ≡ some (status_result t (status A2a.failed)))
unfolding program
whole_has = (refl, refl)

blocked-delivered_iff_example :
    ((v : TaskResult) × (partial.buffer 0 ≡ some v) × (v.task_id ≡ t))
    ↔ (has_key t partial.results ≡ true)
unfolding program
blocked-delivered_iff_example =
    blocked-delivered_iff read_task read_status partial to_partial t 0 refl

result_stays_example :
    (q : TaskResult) × (lookup t whole.results ≡ some q)
    × Supersedes q (status_result t (status A2a.failed))
result_stays_example =
    result_stays read_task read_status partial whole to_partial to_whole t
      (status_result t (status A2a.failed)) partial_has

handle_result-answers_example :
    ((i : ℕ)
      → waiting.blocked i ≡ some t
      → waiting.buffer i ≡ none
      → (handle_result read_task on_result waiting).buffer i ≡ some (result_of t (task t)))
    × (replaceable (lookup t waiting.results) ≡ true
        → (d : Collector)
        → Steps read_task read_status (handle_result read_task on_result waiting) d
        → (wait_for t d).1 ≡ some (result_of t (task t)))
handle_result-answers_example =
    handle_result-answers read_task read_status waiting to_waiting on_result (task t)
      (unfold program in refl) refl refl

abbrev spec : Str → TaskSpec
spec id = record { id = id; skill_id = codes "code"; tags = []; prompt = codes "go"; metadata = [] }

abbrev swap_two : List (ℕ × TaskResult) → List (ℕ × TaskResult)
swap_two [] = []
swap_two (x ∷ []) = x ∷ []
swap_two (x ∷ y ∷ l) = y ∷ x ∷ l

swap_two-perm : (l : List (ℕ × TaskResult)) → Permᴰ (swap_two l) l
swap_two-perm [] = Permᴰ.nil
swap_two-perm (x ∷ []) = Permᴰ.cons refl Permᴰ.nil
swap_two-perm (x ∷ y ∷ l) = Permᴰ.swap refl refl

-- The second dispatch fails, and finishes first.
abbrev env : Env
env = record {
  dispatch = λ n s context. elim n [
    | zero ↦ ok (s.id, codes "agent.inbox")
    | suc _ ↦ err (codes "no route")
  ];
  dispatched_at = λ n. 1;
  completed_at = λ n. 2;
  generate_context_id = ok (codes "ctx-1");
  started = 1;
  ended = 3;
  ctx_err = none;
  arrival = swap_two;
  arrival-perm = swap_two-perm;
}

abbrev request : FanOutRequest
request = record {
  tasks = spec (codes "a") ∷ spec (codes "b") ∷ [];
  context_id = [];
  metadata = [];
}

abbrev fanned : FanOutResult
unfolding program
fanned = (finish env request (codes "ctx-1")).0

fan_out-request : fan_out env request ≡ ok (fanned, none)
unfolding program
fan_out-request = refl

fan_out-slots_example :
    (none ≡ env.ctx_err)
    × (context_id_of env request ≡ ok fanned.context_id)
    × ((j : ℕ)
        → get_elem? fanned.tasks j ≡ elim (get_elem? request.tasks j) [
          | none ↦ none
          | some s ↦ some (task_result env fanned.context_id j s)
        ])
fan_out-slots_example = fan_out-slots env request fanned none fan_out-request

-- Two calls for one ID, and one that is cancelled.
abbrev calls : List (Str × Result Str TaskResult)
calls =
    (t, ok (result_of t (task t)))
    ∷ (codes "u", err (codes "canceled"))
    ∷ (t, ok (status_result t (status A2a.failed)))
    ∷ []

abbrev arrived : List (Str × Result Str TaskResult)
arrived =
    (codes "u", err (codes "canceled"))
    ∷ (t, ok (result_of t (task t)))
    ∷ (t, ok (status_result t (status A2a.failed)))
    ∷ []

wait_for_all-gathers_example :
    ((id : Str) (r : TaskResult)
      → lookup id (wait_for_all arrived).0 ≡ some r
      → Memᴰ (id, ok r) calls)
    × ((id : Str) (r : TaskResult)
        → Memᴰ (id, ok r) calls
        → has_key id (wait_for_all arrived).0 ≡ true)
    × ((e : Str) → (wait_for_all arrived).1 ≡ some e → (id : Str) × Memᴰ (id, err e) calls)
    × ((id e : Str) → Memᴰ (id, err e) calls → (x : Str) × ((wait_for_all arrived).1 ≡ some x))
wait_for_all-gathers_example = wait_for_all-gathers calls arrived (Permᴰ.swap refl refl)
