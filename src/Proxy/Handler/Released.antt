-- ===== src/Proxy/Handler/Released.antt =====
-- Handle of internal/proxy/handler.go gives back what it takes: its place in the WaitGroup and its
-- session.
use daedalus.Prelude.{
  Result-cases, length, suc, ◌≡◌, refl, sym, ap, ◌∙◌, subst, inl, inr, true, none, some, ◌++◌,
  arith, Str, codes, str_eq, is_empty, member, add, member-add, member-keep, not, Option-cases,
  Bool-cases,
}
use daedalus.A2a
use daedalus.A2a.{Message, extract_prompt_text}
use daedalus.Prelude.Int.{pos}
use daedalus.ContextMgmt.Tracker.{start_session}
use daedalus.Proxy.Handler.{
  Env, Handler, Payload, status_update, task_result, publish, status_of, publish_status,
  agent_message, fail, init_once, init_err, task_id_of, build_task, result_message, publish_result,
  in_session, with_session, process, accepted, handle, tracking, register_session,
}

-- What of the state `g` is as in `h`: flag, counter and sessions.
record Same (g h : Handler) : Type 0 where
  flag : g.shutting_down ≡ h.shutting_down
  count : g.in_flight ≡ h.in_flight
  open_sessions : g.sessions ≡ h.sessions

Same-trans : {f g h : Handler} → Same f g → Same g h → Same f h
Same-trans x y = record {
  flag = x.flag ∙ y.flag;
  count = x.count ∙ y.count;
  open_sessions = x.open_sessions ∙ y.open_sessions;
}

-- As Same, but sessions may be gone.
record Within (g h : Handler) : Type 0 where
  flag : g.shutting_down ≡ h.shutting_down
  count : g.in_flight ≡ h.in_flight
  no_new : (s : Str) → member s g.sessions ≡ true → member s h.sessions ≡ true

Same-Within : {f g h : Handler} → Within f g → Same g h → Within f h
Same-Within {f} {g} {h} x y = record {
  flag = x.flag ∙ y.flag;
  count = x.count ∙ y.count;
  no_new = λ s m. subst (λ l. member s l ≡ true) y.open_sessions (x.no_new s m);
}

weaken : {g h : Handler} → Same g h → Within g h
weaken x = record {
  flag = x.flag;
  count = x.count;
  no_new = λ s m. subst (λ l. member s l ≡ true) x.open_sessions m;
}

module _ (env : Env) where
  publish-Same :
      (subject : Str) (payload : Payload) (h : Handler) → Same (publish env subject payload h).0 h
  unfolding publish
  publish-Same subject payload h = elim (Option-cases env.publish_json) [
    | inl nobody ↦ record {
      flag = ground arith;
      count = ground arith;
      open_sessions = ground arith;
    }
    | inr (send, there) ↦ record {
      flag = ground arith;
      count = ground arith;
      open_sessions = ground arith;
    }
  ]

  fail-Same : (id e : Str) (h : Handler) → Same (fail env id e h).0 h
  unfolding fail
  fail-Same id e h =
      publish-Same (codes "agent.status." ++ id)
        (status_update (
          status_of env (length h.published) A2a.failed
            (some (agent_message (id ++ codes "-error") id e))))
        h

  publish_result-Same :
      (m : Message) (session_id content : Str) (h : Handler)
      → Same (publish_result env m session_id content h).0 h
  unfolding publish_result
  publish_result-Same m session_id content h =
      let subject = codes "agent.results." ++ task_id_of m in
      let payload = task_result (build_task env m session_id content h) in
      let sent = publish env subject payload h in
      elim (Option-cases sent.1) [
        | inr (x, bad) ↦
            let e : (publish_result env m session_id content h).0 ≡ sent.0 = ground arith in
            subst (λ g. Same g h) (sym e) (publish-Same subject payload h)
        | inl good ↦
            let e : (publish_result env m session_id content h).0
                ≡ (publish_status env (task_id_of m) A2a.completed
                    (some (result_message (task_id_of m) content)) sent.0).0 =
              ground arith in
            subst (λ g. Same g h) (sym e)
              (Same-trans
                (publish-Same (codes "agent.status." ++ task_id_of m)
                  (status_update (
                    status_of env (length sent.0.published) A2a.completed
                      (some (result_message (task_id_of m) content))))
                  sent.0)
                (publish-Same subject payload h))
      ]

  in_session-Same :
      (m : Message) (session_id : Str) (h : Handler) → Same (in_session env m session_id h).0 h
  unfolding in_session
  in_session-Same m session_id h =
      let id = task_id_of m in
      elim (Bool-cases (is_empty (extract_prompt_text m))) [
        | inl empty ↦
            let x : (in_session env m session_id h).0
                ≡ (fail env id (codes "proxy: no text content in message parts") h).0 =
              ground arith in
            subst (λ g. Same g h) (sym x)
              (fail-Same id (codes "proxy: no text content in message parts") h)
        | inr given ↦ elim (Result-cases (env.prompt session_id (extract_prompt_text m))) [
          | inl (e, bad) ↦
              let x : (in_session env m session_id h).0
                  ≡ (fail env id (codes "proxy: acp session/prompt: " ++ e) h).0 =
                ground arith in
              subst (λ g. Same g h) (sym x)
                (fail-Same id (codes "proxy: acp session/prompt: " ++ e) h)
          | inr (content, good) ↦
              rw (given, good, in_session)
                (let s = publish_result-Same m session_id content (tracking _ h) in
                  record { flag = s.flag; count = s.count; open_sessions = s.open_sessions })
        ]
      ]

  with_session-Within :
      (m : Message) (session_id : Str) (h : Handler) → Within (with_session env m session_id h).0 h
  unfolding with_session
  with_session-Within m session_id h =
      let opened : Handler =
        tracking (start_session session_id (task_id_of m) (pos 0) env.now)
          (register_session session_id h) in
      let inner = in_session-Same m session_id opened in
      record {
        flag = inner.flag;
        count = inner.count;
        no_new = λ s present.
            let kept =
              member-keep (λ t. not (str_eq t session_id)) s
                (in_session env m session_id opened).0.sessions in
            let was : member s (in_session env m session_id opened).0.sessions
                ≡ member s (add session_id h.sessions) =
              ap (member s) inner.open_sessions in
            ground (arith, member-add session_id s h.sessions);
      }

  init_once-Same : (h : Handler) → Same (init_once env h) h
  unfolding init_once
  init_once-Same h = elim (Option-cases h.init) [
    | inl first ↦ record { flag = ground arith; count = ground arith; open_sessions = ground arith }
    | inr (e, again) ↦ record {
      flag = ground arith;
      count = ground arith;
      open_sessions = ground arith;
    }
  ]

  process-Within : (m : Message) (h : Handler) → Within (process env m h).0 h
  unfolding process
  process-Within m h =
      let id = task_id_of m in
      let r = init_once env (publish_status env id A2a.working none h).0 in
      let calm : Same r h =
        Same-trans (init_once-Same (publish_status env id A2a.working none h).0) (
          publish-Same (codes "agent.status." ++ id)
            (status_update (status_of env (length h.published) A2a.working none)) h) in
      elim (Option-cases (init_err r)) [
        | inr (e, bad) ↦
            let x : (process env m h).0 ≡ (fail env id (codes "proxy: acp initialize: " ++ e) r).0 =
              ground arith in
            subst (λ g. Within g h) (sym x)
              (weaken (Same-trans (fail-Same id (codes "proxy: acp initialize: " ++ e) r) calm))
        | inl fine ↦ elim (Result-cases env.new_session) [
          | inl (e, bad) ↦
              let x : (process env m h).0
                  ≡ (fail env id (codes "proxy: acp session/new: " ++ e) r).0 =
                ground arith in
              subst (λ g. Within g h) (sym x)
                (weaken (Same-trans (fail-Same id (codes "proxy: acp session/new: " ++ e) r) calm))
          | inr (session_id, good) ↦
              let x : (process env m h).0 ≡ (with_session env m session_id r).0 = ground arith in
              subst (λ g. Within g h) (sym x)
                (Same-Within (with_session-Within m session_id r) calm)
        ]
      ]

  accepted-Within : (text : Str) (h : Handler) → Within (accepted env text h).0 h
  unfolding accepted
  accepted-Within text h = elim (Result-cases (env.unmarshal text)) [
    | inl (e, bad) ↦
        let x : (accepted env text h).0 ≡ h = ground arith in
        subst (λ g. Within g h) (sym x) (record { flag = refl; count = refl; no_new = λ s m. m })
    | inr (m, good) ↦
        let x : (accepted env text h).0 ≡ (process env m h).0 = ground arith in
        subst (λ g. Within g h) (sym x) (process-Within m h)
  ]

-- On every way through Handle, errors included: the WaitGroup counts as many calls after it as before
-- it, the shutdown flag is as it was, and no session is tracked that was not tracked before.
pub handle-releases :
    (env : Env) (text : Str) (h : Handler)
    → ((handle env text h).0.in_flight ≡ h.in_flight)
      × ((handle env text h).0.shutting_down ≡ h.shutting_down)
      × ((s : Str) → member s (handle env text h).0.sessions ≡ true → member s h.sessions ≡ true)
unfolding handle
handle-releases env text h =
    let inside = accepted-Within env text (record h { in_flight = suc h.in_flight }) in
    elim (Bool-cases h.shutting_down) [
      | inl late ↦ (ground arith, ground arith, λ s m. ground arith)
      | inr early ↦ (
        ground (arith, inside.count),
        ground (arith, inside.flag),
        λ s m. inside.no_new s (ground arith),
      )
    ]
