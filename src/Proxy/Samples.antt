-- ===== src/Proxy/Samples.antt =====
-- A task through the handler of internal/proxy, and a shutdown; the theorems at them.
use daedalus.Prelude.{
  ◌≡◌, refl, true, false, Option, none, some, [], ◌∷◌, ◌++◌, Str, codes, str_eq, member, add,
  lookup, insert, delete, ok,
}
use daedalus.A2a.{Message, Task, Part, extract_prompt_text, prompt_from}
use daedalus.A2a
use daedalus.Orchestrator.Collector.{Collector, handle_result, wait_for, replaceable, result_of}
use daedalus.ContextMgmt.Tracker.{default_config, start_session, update_tokens, end_session}
use daedalus.Proxy.Handler.{
  Env, Handler, Payload, status_update, publish, fail, init_once, publish_result, in_session,
  with_session, process, accepted, handle, status_of,
}
use daedalus.Proxy.Handler.Answered.{Ends, status_subject, handle-Ends}
use daedalus.Proxy.Handler.Released.{handle-releases}
use daedalus.Proxy.Delivered.{Completes, handle-delivers}
use daedalus.Proxy.Shutdown.{
  Proxy, new_proxy, enter, begin, return_with, cancel_work, cancel_sessions, cancels_sessions,
  Steps, stay, and_then, enters, leaves, begins, grace_ends, drained, shutdown_safe,
}

program : Unit {0}
unfolding publish fail init_once publish_result in_session with_session process accepted handle
    start_session update_tokens end_session lookup insert delete member add str_eq
    extract_prompt_text prompt_from
program = tt

abbrev message : Message
message = record {
  message_id = codes "m1";
  context_id = codes "ctx";
  task_id = codes "t1";
  role = codes "user";
  parts = record { text = codes "go"; media = [] } ∷ [];
  metadata = [];
}

abbrev send : Str → Payload → Option Str
send subject payload = none

abbrev env : Env
env = record {
  unmarshal = λ text. ok message;
  initialize = none;
  new_session = ok (codes "s1");
  prompt = λ session text. ok (codes "done");
  publish_json = some send;
  timestamp = λ n. codes "now";
  now = 5;
  trace_id = none;
  context_usage = λ metrics. codes "{}";
}

abbrev handler : Handler
handler = record {
  shutting_down = false;
  init = none;
  sessions = [];
  in_flight = 0;
  context_tracker = some (record { config = default_config; sessions = [] });
  published = [];
}

handled : (handle env [] handler).1 ≡ none
unfolding program
handled = refl

handle-Ends_example :
    Ends env send message
      ([]
        ++ (status_subject env send message, status_update (status_of env 0 A2a.working none)) ∷ [])
      (handle env [] handler).0.published
      (handle env [] handler).1
handle-Ends_example = handle-Ends env send message [] handler refl refl refl

handle-releases_example :
    ((handle env [] handler).0.in_flight ≡ 0)
    × ((handle env [] handler).0.shutting_down ≡ false)
    × ((s : Str) → member s (handle env [] handler).0.sessions ≡ true → member s [] ≡ true)
handle-releases_example = handle-releases env [] handler

handle-delivers_example :
    (t : Task) × Completes message t (handle env [] handler).0.published
    × ((unmarshal : Str → Option Task) (body : Str) (c : Collector)
        → unmarshal body ≡ some t
        → replaceable (lookup (codes "t1") c.results) ≡ true
        → (wait_for (codes "t1") (
            handle_result unmarshal
              (record { subject = codes "agent.results.t1"; payload = body })
              c)).1
          ≡ some (result_of (codes "t1") t))
handle-delivers_example = handle-delivers env send message [] handler refl refl refl refl handled

-- A call is in flight when the grace period ends, and leaves before the exit buffer does.
abbrev stopped : Proxy
unfolding enter
stopped =
    return_with none
      (record (cancel_sessions (cancel_work (begin (enter new_proxy)))) { in_flight = 0 })

abbrev no_error : Option Str
no_error = none

to_stopped : Steps new_proxy stopped
unfolding enter
to_stopped =
    let graced = and_then (and_then (and_then stay enters) (begins refl)) (grace_ends refl) in
    and_then (and_then (and_then graced (cancels_sessions refl)) (leaves 0 refl))
      (drained refl refl)

shutdown_safe_example :
    (stopped.work_canceled ≡ true)
    × (enter stopped ≡ stopped)
    × (no_error ≡ none → stopped.in_flight ≡ 0)
unfolding stopped
shutdown_safe_example = shutdown_safe stopped no_error to_stopped refl
