-- ===== src/Proxy/Handler.antt =====
-- internal/proxy/handler.go: Handle, one call from start to end. The ACP client, the publisher, the
-- decoder, the clock and the trace are the parameter Env; errors are their texts. Spans and log lines
-- change no state of the handler and are left out.
pub mod Answered
pub mod Released
use daedalus.Prelude.{
  ℕ, suc, ◌+◌, ◌-◌, ◌/◌, Bool, true, false, Option, none, some, List, [], ◌∷◌, ◌++◌, length,
  if◌then◌else◌, Str, codes, str_eq, is_empty, is_nil, Map, insert, member, add, keep, not, Result,
  ok, err,
}
use daedalus.Prelude.Int.{ℤ, pos, lt_ℤ}
use daedalus.A2a
use daedalus.A2a.{Message, TaskState, TaskStatus, Task, Artifact, Part, Json, extract_prompt_text}
use daedalus.ContextMgmt.Tracker.{
  Tracker, SessionMetrics, start_session, update_tokens, end_session, get_metrics,
}

-- What goes out through PublishJSON.
pub data Payload : Type 0 where
  status_update : TaskStatus → Payload
  task_result : Task → Payload

pub record Env : Type 0 where
  pub unmarshal : Str → Result Str Message
  pub initialize : Option Str
  pub new_session : Result Str Str
  pub prompt : Str → Str → Result Str Str
  -- None for a nil publisher; else the error of PublishJSON by subject and payload.
  pub publish_json : Option (Str → Payload → Option Str)
  -- The clock's text when so many calls of PublishJSON have been made.
  pub timestamp : ℕ → Str
  pub now : ℕ
  -- The trace ID of a valid span context.
  pub trace_id : Option Json
  -- The JSON of the contextUsage map of a session.
  pub context_usage : SessionMetrics → Json

pub record Handler : Type 0 where
  pub shutting_down : Bool
  -- The Once and its stored error: nothing as long as Initialize was not called.
  pub init : Option (Option Str)
  pub sessions : List Str
  -- The counter of the WaitGroup.
  pub in_flight : ℕ
  pub context_tracker : Option Tracker
  -- The calls of PublishJSON so far.
  pub published : List (Str × Payload)

abbrev pub tracking : (Tracker → Tracker) → Handler → Handler
tracking f h = record h {
  context_tracker = elim h.context_tracker [ none ↦ none | some t ↦ some (f t) ];
}

-- A call of PublishJSON, if there is a publisher.
unfoldable pub publish : Env → Str → Payload → Handler → Handler × Option Str
publish env subject payload h = elim env.publish_json [
  | none ↦ (h, none)
  | some send ↦
      (record h { published = h.published ++ (subject, payload) ∷ [] }, send subject payload)
]

abbrev pub status_of : Env → ℕ → TaskState → Option Message → TaskStatus
status_of env calls state message = record {
  state = state;
  message = message;
  timestamp = env.timestamp calls;
}

-- publishStatus
abbrev pub publish_status : Env → Str → TaskState → Option Message → Handler → Handler × Option Str
publish_status env task_id state message h =
    publish env (codes "agent.status." ++ task_id)
      (status_update (status_of env (length h.published) state message)) h

abbrev pub agent_message : Str → Str → Str → Message
agent_message message_id task_id text = record {
  message_id = message_id;
  context_id = [];
  task_id = task_id;
  role = codes "agent";
  parts = record { text = text; media = [] } ∷ [];
  metadata = [];
}

-- fail: its error is the one that it is given.
unfoldable pub fail : Env → Str → Str → Handler → Handler × Option Str
unfolding publish
fail env task_id e h = (
  (publish_status env task_id A2a.failed
      (some (agent_message (task_id ++ codes "-error") task_id e)) h).0,
  some e,
)

-- initOnce.Do
unfoldable pub init_once : Env → Handler → Handler
init_once env h = elim h.init [ none ↦ record h { init = some env.initialize } | some _ ↦ h ]

abbrev pub init_err : Handler → Option Str
init_err h = elim h.init [ none ↦ none | some e ↦ e ]

abbrev pub register_session : Str → Handler → Handler
register_session id h = record h { sessions = add id h.sessions }

abbrev pub deregister_session : Str → Handler → Handler
deregister_session id h = record h { sessions = keep (λ s. not (str_eq s id)) h.sessions }

abbrev pub task_id_of : Message → Str
task_id_of m = if is_empty m.task_id then m.message_id else m.task_id

-- The metadata: usage of the session, if it is tracked, and the trace.
abbrev pub usage_metadata : Env → Str → Handler → Map Json
usage_metadata env session_id h = elim h.context_tracker [
  | none ↦ []
  | some t ↦ elim (get_metrics session_id t) [
    | none ↦ []
    | some metrics ↦ (codes "contextUsage", env.context_usage metrics) ∷ []
  ]
]

abbrev pub task_metadata : Env → Str → Handler → Map Json
task_metadata env session_id h = elim env.trace_id [
  | none ↦ usage_metadata env session_id h
  | some id ↦ insert (codes "trace_id") id (usage_metadata env session_id h)
]

abbrev pub result_message : Str → Str → Message
result_message task_id content = agent_message (task_id ++ codes "-result") task_id content

abbrev pub build_task : Env → Message → Str → Str → Handler → Task
build_task env m session_id content h = record {
  id = task_id_of m;
  context_id = m.context_id;
  status =
      status_of env (length h.published) A2a.completed
        (some (result_message (task_id_of m) content));
  artifacts =
      record {
        artifact_id = task_id_of m ++ codes "-response";
        name = codes "agent-response";
        parts = record { text = content; media = [] } ∷ [];
      }
      ∷ [];
  metadata = task_metadata env session_id h;
}

-- The publication of the result and of the completed status.
unfoldable pub publish_result : Env → Message → Str → Str → Handler → Handler × Option Str
unfolding publish
publish_result env m session_id content h =
    let (h', bad) =
      publish env (codes "agent.results." ++ task_id_of m)
        (task_result (build_task env m session_id content h)) h in
    elim bad [
      | some e ↦ (h', some (codes "proxy: publish result: " ++ e))
      | none ↦ (
        (publish_status env (task_id_of m) A2a.completed
            (some (result_message (task_id_of m) content)) h').0,
        none,
      )
    ]

-- From the prompt to the result, within a session.
unfoldable pub in_session : Env → Message → Str → Handler → Handler × Option Str
unfolding fail publish_result extract_prompt_text
in_session env m session_id h =
    let prompt = extract_prompt_text m in
    if is_empty prompt
    then fail env (task_id_of m) (codes "proxy: no text content in message parts") h
    else elim (env.prompt session_id prompt) [
      | err e ↦ fail env (task_id_of m) (codes "proxy: acp session/prompt: " ++ e) h
      | ok content ↦
          let tokens = pos ((length prompt + length content) / 4) in
          publish_result env m session_id content (tracking (update_tokens session_id tokens) h)
    ]

-- Registration of the session, and the deferred deregistration.
unfoldable pub with_session : Env → Message → Str → Handler → Handler × Option Str
unfolding in_session
with_session env m session_id h =
    let opened =
      tracking (start_session session_id (task_id_of m) (pos 0) env.now)
        (register_session session_id h) in
    let (h', e) = in_session env m session_id opened in
    (tracking (λ t. (end_session session_id t).0) (deregister_session session_id h'), e)

-- What follows the decoding.
unfoldable pub process : Env → Message → Handler → Handler × Option Str
unfolding with_session init_once
process env m h =
    let working = (publish_status env (task_id_of m) A2a.working none h).0 in
    let ready = init_once env working in
    elim (init_err ready) [
      | some e ↦ fail env (task_id_of m) (codes "proxy: acp initialize: " ++ e) ready
      | none ↦ elim env.new_session [
        | err e ↦ fail env (task_id_of m) (codes "proxy: acp session/new: " ++ e) ready
        | ok session_id ↦ with_session env m session_id ready
      ]
    ]

-- Between wg.Add and the deferred wg.Done.
unfoldable pub accepted : Env → Str → Handler → Handler × Option Str
unfolding process
accepted env text h = elim (env.unmarshal text) [
  | err e ↦ (h, some (codes "proxy: unmarshal SendMessageRequest: " ++ e))
  | ok m ↦ process env m h
]

-- Handle: the error is none for nil.
unfoldable pub handle : Env → Str → Handler → Handler × Option Str
unfolding accepted
handle env text h =
    let (h', e) = accepted env text (record h { in_flight = suc h.in_flight }) in
    if h.shutting_down
    then (h, some (codes "proxy: rejecting message, shutdown in progress"))
    else (record h' { in_flight = h'.in_flight - 1 }, e)
