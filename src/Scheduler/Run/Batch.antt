-- ===== src/Scheduler/Run/Batch.antt =====
-- A batch of Schedule (internal/scheduler/scheduler.go): dispatch, waiting, and the results in their
-- order of arrival.
use mathlib.Core.List.{Permᴰ}
use daedalus.Prelude.{
  ℕ, ◌≡◌, refl, sym, ap, ◌∙◌, ◌⊎◌, inl, inr, true, false, not, none, some, List, [], ◌∷◌, ◌++◌, map,
  arith, Str, str_eq, Map, member, Bool-cases, str_eq_iff, str_eq_refl, str_eq_comm, subst,
  member_cons, member_nil, Distinct, Result, ok, err,
}
use daedalus.A2a
use daedalus.A2a.{TaskState}
use daedalus.Scheduler.Types.{
  TaskOutcome, ScheduledTask, World, WaitError, dispatch_error, wait_error, canceled_error,
  deadline_exceeded, other_error,
}
use daedalus.Scheduler.Run.{
  Run, settle, outcome_of, dispatched, receive, collect, outcome_status, spec_of, wait_status,
  run_batch,
}
use daedalus.Scheduler.Run.Settle.{IsSound, Extends, Cleared, settle-IsSound}
use daedalus.Scheduler.Run.Phases.{Phase, Phase-nil, Phase-settle, Phase-gather, Cleared-settle}

-- The tasks of a list of pairs with dispatch IDs.
abbrev pub ids_of : List (Str × Str) → List Str
ids_of ps = map (λ p. p.0) ps

-- `outcomeStatus` is the identity on task states.
pub outcome_status-id : (state : TaskState) → outcome_status state ≡ state
unfolding outcome_status
outcome_status-id state = ground (
  arith,
  str_eq_iff state A2a.completed,
  str_eq_iff state A2a.failed,
  str_eq_iff state A2a.canceled,
)

wait_status_bad : (e : WaitError) → str_eq (wait_status e) A2a.completed ≡ false
unfolding str_eq
wait_status_bad canceled_error = refl
wait_status_bad deadline_exceeded = refl
wait_status_bad (other_error e) = refl

failed_bad : str_eq A2a.failed A2a.completed ≡ false
unfolding str_eq
failed_bad = refl

module _ (w : World) (context_id : Str) (by_id : Map ScheduledTask) where
  abbrev answer : Str → Run → Result Str Str
  answer id s = w.dispatch s.batch_num (spec_of w context_id by_id id) context_id

  abbrev not_sent : Str → Str → Run → Run
  not_sent id e s =
      settle id (outcome_of id A2a.failed (some (dispatch_error e)) s.batch_num) true s

  dispatched_err :
      (id e : Str) (ids : List Str) (s : Run)
      → answer id s ≡ err e
      → dispatched w context_id by_id (id ∷ ids) s
        ≡ dispatched w context_id by_id ids (not_sent id e s)
  unfolding dispatched
  dispatched_err id e ids s h = rw (h, dispatched)

  dispatched_ok :
      (id dispatch_id : Str) (ids : List Str) (s : Run)
      → answer id s ≡ ok dispatch_id
      → dispatched w context_id by_id (id ∷ ids) s ≡ (
          let (t, waiting) = dispatched w context_id by_id ids s in
          (t, (id, dispatch_id) ∷ waiting))
  unfolding dispatched
  dispatched_ok id dispatch_id ids s h = rw (h, dispatched)

  abbrev DispatchPhase : List Str → Run → Run × List (Str × Str) → Type 0
  DispatchPhase ids s r = Phase s ids r.0 (ids_of r.1)

  pub dispatched-Phase :
      (ids : List Str) (s : Run)
      → IsSound s
      → Distinct ids
      → ((n : Str) → member n ids ≡ true → Cleared s n)
      → DispatchPhase ids s (dispatched w context_id by_id ids s)
  unfolding member
  dispatched-Phase [] s i d clear = unfold dispatched in Phase-nil s i
  dispatched-Phase (id ∷ ids) s i d clear =
      by_answer (answer id s) refl (λ t. dispatched-Phase ids t)
    where
      here : Cleared s id
      here = clear id (ground (arith, str_eq_refl id))

      later : (n : Str) → member n ids ≡ true → Cleared s n
      later n h = clear n (ground arith)

      by_answer :
          (r : Result Str Str)
          → answer id s ≡ r
          → ((t : Run)
              → IsSound t
              → Distinct ids
              → ((n : Str) → member n ids ≡ true → Cleared t n)
              → DispatchPhase ids t (dispatched w context_id by_id ids t))
          → DispatchPhase (id ∷ ids) s (dispatched w context_id by_id (id ∷ ids) s)
      by_answer (err e) h ih =
          let o = outcome_of id A2a.failed (some (dispatch_error e)) s.batch_num in
          subst (DispatchPhase (id ∷ ids) s) (sym (dispatched_err id e ids s h)) (
            Phase-settle id o true s ids here.unsettled d.0 (
              ih (settle id o true s)
                (settle-IsSound id o true s here.unsettled here.known (rw failed_bad) i) d.1
                (λ n m. Cleared-settle id o true s ids here.unsettled d.0 n m (later n m))))
      by_answer (ok dispatch_id) h ih =
          subst (DispatchPhase (id ∷ ids) s) (sym (dispatched_ok id dispatch_id ids s h))
            (Phase-gather id s ids here d.0 (ih s i d.1 later))

-- A received result settles its task.
abbrev received : Str → Result WaitError TaskState → ℕ → TaskOutcome
received id (err e) n = outcome_of id (wait_status e) (some (wait_error e)) n
received id (ok state) n = outcome_of id (outcome_status state) none n

receive-settle :
    (id : Str) (r : Result WaitError TaskState) (s : Run)
    → receive id r s
      ≡ settle id
          (received id r s.batch_num)
          (not (str_eq (received id r s.batch_num).status A2a.completed))
          s
unfolding receive
receive-settle id (err e) s = rw (wait_status_bad e)
receive-settle id (ok state) s = refl

pub collect-Phase :
    (w : World) (batch : ℕ) (ps : List (Str × Str)) (s : Run)
    → IsSound s
    → Distinct (ids_of ps)
    → ((n : Str) → member n (ids_of ps) ≡ true → Cleared s n)
    → Phase s (ids_of ps) (collect w batch ps s) []
unfolding collect member
collect-Phase w batch [] s i d clear = Phase-nil s i
collect-Phase w batch ((id, dispatch_id) ∷ ps) s i d clear =
    let r = w.wait_for batch dispatch_id in
    let o = received id r s.batch_num in
    let marks = not (str_eq o.status A2a.completed) in
    let here : Cleared s id = clear id (ground (arith, str_eq_refl id)) in
    let t = settle id o marks s in
    rw (receive-settle id r s) (
      Phase-settle id o marks s (ids_of ps) here.unsettled d.0 (
        collect-Phase w batch ps t (settle-IsSound id o marks s here.unsettled here.known refl i)
          d.1
          (λ n m.
            Cleared-settle id o marks s (ids_of ps) here.unsettled d.0 n m
              (clear n (ground arith)))))

member-perm :
    (x : Str) {ps qs : List (Str × Str)} → Permᴰ ps qs → member x (ids_of ps) ≡ member x (ids_of qs)
unfolding member
member-perm x Permᴰ.nil = refl
member-perm x (Permᴰ.cons e d) = ground (arith, ap (λ (p : Str × Str). p.0) e, member-perm x d)
member-perm x (Permᴰ.swap e f) =
    ground (arith, ap (λ (p : Str × Str). p.0) e, ap (λ (p : Str × Str). p.0) f)
member-perm x (Permᴰ.trans d e) = member-perm x d ∙ member-perm x e

Distinct-perm :
    {ps qs : List (Str × Str)} → Permᴰ ps qs → Distinct (ids_of qs) → Distinct (ids_of ps)
Distinct-perm Permᴰ.nil d = tt
Distinct-perm (Permᴰ.cons {b = b} {l₁ = ps} {l₂ = qs} e p) d = (
  subst (λ z. member z (ids_of ps) ≡ false) (sym (ap (λ (q : Str × Str). q.0) e))
      (member-perm b.0 p ∙ d.0),
  Distinct-perm p d.1,
)
Distinct-perm (Permᴰ.swap {a = a} {b = b} {a' = c} {b' = g} {l = l} e f) d =
    let ea = ap (λ (q : Str × Str). q.0) e in
    let eb = ap (λ (q : Str × Str). q.0) f in
    let apart : str_eq g.0 c.0 ≡ false =
      ground (arith, str_eq_comm c.0 g.0, member_cons c.0 g.0 (ids_of l)) in
    (
      subst (λ z. member z (b.0 ∷ ids_of l) ≡ false) (sym ea)
          (subst (λ z. member g.0 (z ∷ ids_of l) ≡ false) (sym eb)
            (ground (arith, member_cons g.0 c.0 (ids_of l)))),
      (
        subst (λ z. member z (ids_of l) ≡ false) (sym eb)
            (ground (arith, member_cons c.0 g.0 (ids_of l))),
        d.1.1,
      ),
    )
Distinct-perm (Permᴰ.trans p q) d = Distinct-perm p (Distinct-perm q d)

-- The batch takes its tasks, all cleared, to their ends, whatever order the results arrive in.
pub record Ran (s : Run) (ids : List Str) (t : Run) : Type 0 where
  pub sound : IsSound t
  pub extends : Extends s t
  pub order : t.execution_order ≡ s.execution_order ++ ids ∷ []
  pub ends : (n : Str) → member n ids ≡ true → member n t.dag.completed ≡ true
  pub only :
      (n : Str)
      → member n t.dag.completed ≡ true
      → (member n s.dag.completed ≡ true) ⊎ (member n ids ≡ true)

pub run_batch-Ran :
    (w : World) (context_id : Str) (by_id : Map ScheduledTask) (ids : List Str) (s : Run)
    → IsSound s
    → Distinct ids
    → ((n : Str) → member n ids ≡ true → Cleared s n)
    → Ran s ids (run_batch w context_id by_id ids s)
unfolding run_batch
run_batch-Ran w context_id by_id ids s i d clear = record {
  sound = record {
    wf = ended.sound.wf;
    acyclic = ended.sound.acyclic;
    recorded = ended.sound.recorded;
    marked = ended.sound.marked;
    blamed = λ c h.
        let b = ended.sound.blamed c h in
        record { culprit = b.culprit; into = b.into; over = b.over; bad = b.bad };
  };
  extends = record {
    nodes = ended.extends.nodes ∙ sent.extends.nodes;
    edges = ended.extends.edges ∙ sent.extends.edges;
    stays = λ n h. ended.extends.stays n (sent.extends.stays n h);
    fixed = λ n h. ended.extends.fixed n (sent.extends.stays n h) ∙ sent.extends.fixed n h;
  };
  order = ended.same_order ∙ sent.same_order;
  ends = λ n h. elim (Bool-cases (member n (ids_of waiting))) [
    | inl waits ↦
        ended.settled n (member-perm n (w.arrival-perm s.batch_num waiting) ∙ waits) (member_nil n)
    | inr over ↦ ended.extends.stays n (sent.settled n h over)
  ];
  only = λ n h. elim (Bool-cases (member n (ids_of waiting))) [
    | inl waits ↦ inr (sent.within n waits)
    | inr gone ↦
        ground
          (arith, ended.only n h, member-perm n (w.arrival-perm s.batch_num waiting), sent.only n)
  ];
}
  where
    opened : Run
    opened = record s { execution_order = s.execution_order ++ ids ∷ [] }

    opened-IsSound : IsSound opened
    opened-IsSound = record {
      wf = i.wf;
      acyclic = i.acyclic;
      recorded = i.recorded;
      marked = i.marked;
      blamed = λ c h.
          let b = i.blamed c h in
          record { culprit = b.culprit; into = b.into; over = b.over; bad = b.bad };
    }

    sent_to : Run × List (Str × Str)
    sent_to = dispatched w context_id by_id ids opened

    waiting : List (Str × Str)
    waiting = sent_to.1

    sent : Phase opened ids sent_to.0 (ids_of waiting)
    sent = dispatched-Phase w context_id by_id ids opened opened-IsSound d λ n h.
        let c = clear n h in record { known = c.known; unsettled = c.unsettled; preds = c.preds }

    arrived : List (Str × Str)
    arrived = w.arrival s.batch_num waiting

    ended : Phase sent_to.0 (ids_of arrived) (collect w s.batch_num arrived sent_to.0) []
    ended =
        collect-Phase w s.batch_num arrived sent_to.0 sent.sound
          (Distinct-perm (w.arrival-perm s.batch_num waiting) sent.distinct)
          (λ n h. sent.cleared n (sym (member-perm n (w.arrival-perm s.batch_num waiting)) ∙ h))
