-- ===== src/Proxy/Delivered.antt =====
-- The handler of internal/proxy/handler.go and the collector of internal/orchestrator/collector.go:
-- what the worker publishes is what the orchestrator waits for.
use daedalus.Prelude.{
  ◌≡◌, refl, ap, ◌∙◌, true, false, Option, none, some, List, [], ◌∷◌, ◌++◌, arith, Str, codes,
  is_empty, str_eq_refl, lookup, ok, trim_prefix-append,
}
use daedalus.A2a
use daedalus.A2a.{Message, Task}
use daedalus.Orchestrator.Collector.{
  Collector, Msg, replaceable, result_of, wait_for, handle_result, extract_suffix,
}
use daedalus.Orchestrator.Collector.Sound.{stored, stored_result}
use daedalus.Orchestrator.Collector.Promises.{handle_result-stored}
use daedalus.Proxy.Handler.{Env, Handler, Payload, status_update, task_result, task_id_of, handle}
use daedalus.Proxy.Handler.Answered.{Ends, done, failed, unsent, status_subject, handle-Ends}

-- `t` is the completed task of the message `m`, and the last publication but one is `t` on the subject of its
-- result.
abbrev pub Completes : Message → Task → List (Str × Payload) → Type 0
Completes m t published =
    (t.id ≡ task_id_of m)
    × (t.status.state ≡ A2a.completed)
    × ((before : List (Str × Payload)) × (last : Str × Payload) × (published
          ≡ before ++ (codes "agent.results." ++ task_id_of m, task_result t) ∷ last ∷ []))

Ends-Completes :
    (env : Env) (send : Str → Payload → Option Str) (m : Message)
    (before after : List (Str × Payload)) (e : Option Str)
    → Ends env send m before after e
    → e ≡ none
    → (t : Task) × Completes m t after
Ends-Completes env send m before after e (done t s named over _ _) h =
    (t, (named, over, (before, (status_subject env send m, status_update s), refl)))
Ends-Completes env send m before after e (failed s x _ _) h = absurd (cc)
Ends-Completes env send m before after e (unsent t x y bad) h = absurd (cc)

-- A collector with neither a result nor more than a status of the task takes up the message.
collects :
    (unmarshal : Str → Option Task) (text : Str) (m : Message) (t : Task) (c : Collector)
    → unmarshal text ≡ some t
    → t.id ≡ task_id_of m
    → is_empty (task_id_of m) ≡ false
    → replaceable (lookup (task_id_of m) c.results) ≡ true
    → (wait_for (task_id_of m) (
        handle_result unmarshal
          (record { subject = codes "agent.results." ++ task_id_of m; payload = text })
          c)).1
      ≡ some (result_of (task_id_of m) t)
unfolding wait_for
collects unmarshal text m t c decoded named given free =
    let msg : Msg = record { subject = codes "agent.results." ++ task_id_of m; payload = text } in
    let suffix : extract_suffix msg.subject (codes "agent.results.") ≡ task_id_of m =
      trim_prefix-append (codes "agent.results.") (task_id_of m) in
    let whole : is_empty (extract_suffix msg.subject (codes "agent.results.")) ≡ false =
      ap is_empty suffix ∙ given in
    let e : handle_result unmarshal msg c ≡ stored t.id (result_of t.id t) c =
      handle_result-stored unmarshal c msg t whole decoded (ap is_empty named ∙ given) in
    let renamed : stored t.id (result_of t.id t) c
        ≡ stored (task_id_of m) (result_of (task_id_of m) t) c =
      ap (λ i. stored i (result_of i t) c) named in
    let found : lookup (task_id_of m) (stored (task_id_of m) (result_of (task_id_of m) t) c).results
        ≡ some (result_of (task_id_of m) t) =
      ground (
        arith,
        stored_result (task_id_of m) (result_of (task_id_of m) t) c (task_id_of m),
        str_eq_refl (task_id_of m),
      ) in
    ap (λ d. (wait_for (task_id_of m) d).1) (e ∙ renamed) ∙ rw (found, wait_for) refl

-- If there is a publisher, no shutdown has begun, the message can be decoded and has an ID, and Handle
-- returns no error: its last publication but one is a completed task of the message on the subject of
-- its result; and a collector that has no result of the task, or only a status, and can decode the
-- text of the task, returns that task from WaitFor after it took up the text on that subject.
pub handle-delivers :
    (env : Env) (send : Str → Payload → Option Str) (m : Message) (text : Str) (h : Handler)
    → env.publish_json ≡ some send
    → h.shutting_down ≡ false
    → env.unmarshal text ≡ ok m
    → is_empty (task_id_of m) ≡ false
    → (handle env text h).1 ≡ none
    → (t : Task) × Completes m t (handle env text h).0.published
      × ((unmarshal : Str → Option Task) (body : Str) (c : Collector)
          → unmarshal body ≡ some t
          → replaceable (lookup (task_id_of m) c.results) ≡ true
          → (wait_for (task_id_of m) (
              handle_result unmarshal
                (record { subject = codes "agent.results." ++ task_id_of m; payload = body })
                c)).1
            ≡ some (result_of (task_id_of m) t))
handle-delivers env send m text h there up decoded given fine =
    let (t, completes) =
      Ends-Completes env send m _ _ _ (handle-Ends env send m text h there up decoded) fine in
    (
      t,
      completes,
      λ unmarshal body c reads free. collects unmarshal body m t c reads completes.0 given free,
    )
