-- ===== src/Orchestrator/Collector.antt =====
-- internal/orchestrator/collector.go: ResultCollector. Code under the mutex is one operation. A
-- channel is a number; its buffer of one slot is a cell of the state, as is the WaitFor call that
-- blocks on it. The handler of status messages looks at the results and stores in two locked
-- regions, so a status may be in flight between them.

pub mod Sound
pub mod Steps
pub mod Promises
use daedalus.Prelude.{
  ℕ, suc, ◌==◌, Bool, true, false, not, ◌||◌, Option, none, some, List, [], ◌∷◌, ◌++◌, keep, is_nil,
  if◌then◌else◌, Str, codes, str_eq, is_empty, trim_prefix, Map, lookup, insert, delete, has_key,
}
use daedalus.A2a
use daedalus.A2a.{TaskState, Task, TaskStatus}
use daedalus.Orchestrator.Types.{TaskResult}

pub record Collector : Type 0 where
  pub results : Map TaskResult
  pub waiters : Map (List ℕ)
  -- The next channel that `make` returns.
  pub next : ℕ
  pub buffer : ℕ → Option TaskResult
  -- The task that the WaitFor call with this channel blocks for.
  pub blocked : ℕ → Option Str
  -- What the status handler is about to store.
  pub in_flight : Option (Str × TaskResult)

-- A cell of the state is written.
abbrev pub put {ℓ} : {A : Type ℓ} → ℕ → Option A → (ℕ → Option A) → ℕ → Option A
put i value cells j = if i == j then value else cells j

-- NewResultCollector
abbrev pub new_collector : Collector
new_collector = record {
  results = [];
  waiters = [];
  next = 0;
  buffer = λ i. none;
  blocked = λ i. none;
  in_flight = none;
}

-- `rc.waiters[taskID]`, nil if the key is missing.
unfoldable pub waiters_of : Str → Map (List ℕ) → List ℕ
unfolding lookup
waiters_of id ws = elim (lookup id ws) [ none ↦ [] | some channels ↦ channels ]

-- WaitFor up to its select: the stored result, or a new channel that the call blocks on.
unfoldable pub wait_for : Str → Collector → Collector × Option TaskResult
unfolding waiters_of insert
wait_for id c = elim (lookup id c.results) [
  | some r ↦ (c, some r)
  | none ↦ (
    record c {
      waiters = insert id (waiters_of id c.waiters ++ c.next ∷ []) c.waiters;
      next = suc c.next;
      blocked = put c.next (some id) c.blocked;
    },
    none,
  )
]

-- `case r := <-ch`: the call returns what is in its buffer.
unfoldable pub receive_result : ℕ → Collector → Collector × Option TaskResult
receive_result channel c = elim (c.buffer channel) [
  | none ↦ (c, none)
  | some r ↦ (
    record c { buffer = put channel none c.buffer; blocked = put channel none c.blocked },
    some r,
  )
]

abbrev pub others : ℕ → List ℕ → List ℕ
others channel = keep (λ w. not (w == channel))

-- `case <-ctx.Done()`: the call takes its channel off the list and returns the context's error.
unfoldable pub cancel_wait : Str → ℕ → Collector → Collector
unfolding waiters_of insert delete
cancel_wait id channel c =
    let updated = others channel (waiters_of id c.waiters) in
    record c {
      waiters = if is_nil updated then delete id c.waiters else insert id updated c.waiters;
      blocked = put channel none c.blocked;
    }

-- The non-blocking sends to all waiters: a full buffer stays as it is.
unfoldable pub send_all : TaskResult → List ℕ → (ℕ → Option TaskResult) → ℕ → Option TaskResult
send_all tr [] cells = cells
send_all tr (channel ∷ channels) cells =
    send_all tr channels
      (elim (cells channel) [ none ↦ put channel (some tr) cells | some _ ↦ cells ])

-- The guard of the store: nothing stored yet, or only a status.
abbrev pub replaceable : Option TaskResult → Bool
replaceable none = true
replaceable (some existing) = elim existing.task [ none ↦ true | some _ ↦ false ]

unfoldable pub store_and_notify : Str → TaskResult → Collector → Collector
unfolding lookup insert delete waiters_of send_all
store_and_notify id tr c = record c {
  results = if replaceable (lookup id c.results) then insert id tr c.results else c.results;
  buffer = send_all tr (waiters_of id c.waiters) c.buffer;
  waiters = delete id c.waiters;
}

-- extractSuffix
abbrev pub extract_suffix : Str → Str → Str
extract_suffix subject prefix = trim_prefix subject prefix

unfoldable pub is_terminal : TaskState → Bool
unfolding str_eq
is_terminal state =
    str_eq state A2a.completed
    || str_eq state A2a.failed
    || str_eq state A2a.canceled
    || str_eq state A2a.rejected

-- A NATS message; headers only carry the trace.
pub record Msg : Type 0 where
  pub subject : Str
  pub payload : Str

abbrev pub result_of : Str → Task → TaskResult
result_of id task = record {
  task_id = id;
  skill_id = [];
  status = task.status.state;
  task = some task;
  error = none;
  dispatched_at = 0;
  completed_at = 0;
}

abbrev pub status_result : Str → TaskStatus → TaskResult
status_result id status = record {
  task_id = id;
  skill_id = [];
  status = status.state;
  task = none;
  error = none;
  dispatched_at = 0;
  completed_at = 0;
}

-- `json.Unmarshal` is the parameter.
unfoldable pub handle_result : (Str → Option Task) → Msg → Collector → Collector
unfolding store_and_notify trim_prefix
handle_result unmarshal msg c =
    let suffix = extract_suffix msg.subject (codes "agent.results.") in
    if is_empty suffix then c else elim (unmarshal msg.payload) [
      | none ↦ c
      | some task ↦
          let id = if is_empty task.id then suffix else task.id in
          store_and_notify id (result_of id task) c
    ]

-- handleStatus up to its second locked region.
unfoldable pub handle_status : (Str → Option TaskStatus) → Msg → Collector → Collector
unfolding lookup is_terminal trim_prefix
handle_status unmarshal msg c =
    let id = extract_suffix msg.subject (codes "agent.status.") in
    if is_empty id then c else elim (unmarshal msg.payload) [
      | none ↦ c
      | some status ↦
          let done = has_key id c.results in
          if not (is_terminal status.state) || done
          then c
          else record c { in_flight = some (id, status_result id status) }
    ]

-- The second locked region of handleStatus.
unfoldable pub commit_status : Collector → Collector
unfolding store_and_notify
commit_status c = elim c.in_flight [
  | none ↦ c
  | some (id, tr) ↦ let stored = store_and_notify id tr c in record stored { in_flight = none }
]
