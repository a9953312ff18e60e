-- ===== src/Proxy/Handler/Answered.antt =====
-- What one call of Handle (internal/proxy/handler.go) leaves behind.
use daedalus.Prelude.{
  Result-cases, length, suc, ◌-◌, ◌≡◌, refl, sym, ap, ◌∙◌, subst, inl, inr, false, Option, none,
  some, List, [], ◌∷◌, ◌++◌, arith, Str, codes, is_empty, ok, Option-cases, Bool-cases,
}
use mathlib.Core.List.{append_assoc}
use daedalus.A2a
use daedalus.A2a.{Message, TaskState, TaskStatus, Task, extract_prompt_text}
use daedalus.Proxy.Handler.{
  Env, Handler, Payload, status_update, task_result, publish, status_of, publish_status,
  result_message, agent_message, fail, init_once, init_err, task_id_of, build_task, publish_result,
  in_session, with_session, process, accepted, handle,
}

module _ (env : Env) (send : Str → Payload → Option Str) (m : Message) where
  abbrev pub id : Str
  id = task_id_of m

  abbrev pub status_subject : Str
  status_subject = codes "agent.status." ++ id

  abbrev pub result_subject : Str
  result_subject = codes "agent.results." ++ id

  abbrev pub failed_message : Str → Message
  failed_message e = agent_message (id ++ codes "-error") id e

  -- How the list of publications goes on, and the error with it: a completed task and a status of it;
  -- or a failed status that tells the error; or a task that could not be published.
  pub data Ends (before : List (Str × Payload)) : List (Str × Payload) → Option Str → Type 0 where
    done :
        (t : Task) (s : TaskStatus)
        → t.id ≡ id
        → t.status.state ≡ A2a.completed
        → s.state ≡ A2a.completed
        → s.message ≡ t.status.message
        → Ends before
            (before ++ (result_subject, task_result t) ∷ (status_subject, status_update s) ∷ [])
            none
    failed :
        (s : TaskStatus) (e : Str)
        → s.state ≡ A2a.failed
        → s.message ≡ some (failed_message e)
        → Ends before (before ++ (status_subject, status_update s) ∷ []) (some e)
    unsent :
        (t : Task) (x e : Str)
        → send result_subject (task_result t) ≡ some x
        → Ends before (before ++ (result_subject, task_result t) ∷ []) (some e)

  module _ (there : env.publish_json ≡ some send) where
    publish-eq :
        (subject : Str) (payload : Payload) (h : Handler)
        → publish env subject payload h
          ≡ (record h { published = h.published ++ (subject, payload) ∷ [] }, send subject payload)
    unfolding publish
    publish-eq subject payload h = ground arith

    fail-Ends :
        (e : Str) (h : Handler) → Ends h.published (fail env id e h).0.published (fail env id e h).1
    unfolding fail
    fail-Ends e h =
        subst (λ l. Ends h.published l (some e))
          (ap (λ r. r.0.published)
            (sym (
              publish-eq status_subject
                (status_update
                  (status_of env (length h.published) A2a.failed (some (failed_message e))))
                h)))
          (failed (status_of env (length h.published) A2a.failed (some (failed_message e))) e refl
            refl)

    publish_result-Ends :
        (session_id content : Str) (h : Handler)
        → Ends h.published
            (publish_result env m session_id content h).0.published
            (publish_result env m session_id content h).1
    unfolding publish_result
    publish_result-Ends session_id content h =
        let t = build_task env m session_id content h in
        let first = publish-eq result_subject (task_result t) h in
        let sent : Handler = record h {
          published = h.published ++ (result_subject, task_result t) ∷ [];
        } in
        let last : TaskStatus =
          status_of env (length sent.published) A2a.completed (some (result_message id content)) in
        let second = publish-eq status_subject (status_update last) sent in
        elim (Option-cases (send result_subject (task_result t))) [
          | inr (x, bad) ↦
              let e : publish_result env m session_id content h
                  ≡ (sent, some (codes "proxy: publish result: " ++ x)) =
                ground arith in
              subst (λ r. Ends h.published r.0.published r.1) (sym e)
                (unsent t x (codes "proxy: publish result: " ++ x) bad)
          | inl good ↦
              let e : publish_result env m session_id content h ≡ (
                record sent {
                  published = sent.published ++ (status_subject, status_update last) ∷ [];
                },
                none,
              ) =
                ground arith in
              subst (λ r. Ends h.published r.0.published r.1) (sym e)
                (subst (λ l. Ends h.published l none)
                  (sym (
                    append_assoc h.published ((result_subject, task_result t) ∷ [])
                      ((status_subject, status_update last) ∷ [])))
                  (done t last refl refl refl refl))
        ]

    in_session-Ends :
        (session_id : Str) (h : Handler)
        → Ends h.published
            (in_session env m session_id h).0.published
            (in_session env m session_id h).1
    unfolding in_session
    in_session-Ends session_id h = elim (Bool-cases (is_empty (extract_prompt_text m))) [
      | inl empty ↦
          rw (empty, in_session) (fail-Ends (codes "proxy: no text content in message parts") h)
      | inr given ↦ elim (Result-cases (env.prompt session_id (extract_prompt_text m))) [
        | inl (e, bad) ↦
            rw (given, bad, in_session) (fail-Ends (codes "proxy: acp session/prompt: " ++ e) h)
        | inr (content, good) ↦
            rw (given, good, in_session) (publish_result-Ends session_id content _)
      ]
    ]

    with_session-Ends :
        (session_id : Str) (h : Handler)
        → Ends h.published
            (with_session env m session_id h).0.published
            (with_session env m session_id h).1
    unfolding with_session
    with_session-Ends session_id h = in_session-Ends session_id _

    init_once_published : (h : Handler) → (init_once env h).published ≡ h.published
    unfolding init_once
    init_once_published h = elim (Option-cases h.init) [
      | inl first ↦ ground arith
      | inr (e, again) ↦ ground arith
    ]

    abbrev pub working_entry : Handler → Str × Payload
    working_entry h =
        (status_subject, status_update (status_of env (length h.published) A2a.working none))

    abbrev ready : Handler → Handler
    ready h = init_once env (publish_status env id A2a.working none h).0

    ready_published : (h : Handler) → (ready h).published ≡ h.published ++ working_entry h ∷ []
    ready_published h =
        init_once_published (publish_status env id A2a.working none h).0
        ∙ ap (λ r. r.0.published)
            (publish-eq status_subject
              (status_update (status_of env (length h.published) A2a.working none)) h)

    process-Ends :
        (h : Handler)
        → Ends
            (h.published ++ working_entry h ∷ [])
            (process env m h).0.published
            (process env m h).1
    unfolding process
    process-Ends h =
        let r = ready h in
        let go : Ends r.published (process env m h).0.published (process env m h).1 =
          elim (Option-cases (init_err r)) [
            | inr (e, bad) ↦
                let x : process env m h ≡ fail env id (codes "proxy: acp initialize: " ++ e) r =
                  ground arith in
                subst (λ p. Ends r.published p.0.published p.1) (sym x)
                  (fail-Ends (codes "proxy: acp initialize: " ++ e) r)
            | inl fine ↦ elim (Result-cases env.new_session) [
              | inl (e, bad) ↦
                  let x : process env m h ≡ fail env id (codes "proxy: acp session/new: " ++ e) r =
                    ground arith in
                  subst (λ p. Ends r.published p.0.published p.1) (sym x)
                    (fail-Ends (codes "proxy: acp session/new: " ++ e) r)
              | inr (session_id, good) ↦
                  let x : process env m h ≡ with_session env m session_id r = ground arith in
                  subst (λ p. Ends r.published p.0.published p.1) (sym x)
                    (with_session-Ends session_id r)
            ]
          ] in
        subst (λ l. Ends l (process env m h).0.published (process env m h).1) (ready_published h) go

-- If there is a publisher, no shutdown has begun and the message can be decoded, then Handle publishes
-- the status working and after it: the completed task and its status, and returns no error; or the
-- status failed with the text of the error that it returns; or a task that the publisher refuses,
-- and returns an error.
pub handle-Ends :
    (env : Env) (send : Str → Payload → Option Str) (m : Message) (text : Str) (h : Handler)
    → env.publish_json ≡ some send
    → h.shutting_down ≡ false
    → env.unmarshal text ≡ ok m
    → Ends env send m
        (h.published
          ++ (
            status_subject env send m,
            status_update (status_of env (length h.published) A2a.working none),
          )
            ∷ [])
        (handle env text h).0.published
        (handle env text h).1
unfolding handle accepted
handle-Ends env send m text h there up decoded =
    let before : List (Str × Payload) =
      h.published
      ++ (
        status_subject env send m,
        status_update (status_of env (length h.published) A2a.working none),
      )
        ∷ [] in
    let entered : Handler = record h { in_flight = suc h.in_flight } in
    let x : accepted env text entered ≡ process env m entered = ground arith in
    let (h', e) = accepted env text entered in
    let y : handle env text h ≡ (record h' { in_flight = h'.in_flight - 1 }, e) = ground arith in
    subst (λ p. Ends env send m before p.0.published p.1) (sym y)
      (subst (λ p. Ends env send m before p.0.published p.1) (sym x)
        (process-Ends env send m there entered))
