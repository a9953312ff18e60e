-- ===== src/Scheduler/Run/Outcomes.antt =====
-- The outcomes that Schedule (internal/scheduler/scheduler.go) returns, and the order it dispatched in.
use daedalus.Prelude.{
  ◌⊎◌, err, ◌≤◌, ◌≡◌, sym, ap, ◌∙◌, ◌↔◌, inl, inr, true, false, ◌||◌, Option, none, some, List, [],
  ◌∷◌, arith, Str, str_eq, Map, lookup, has_key, member, Bool-cases, str_eq_iff, subst, member_cons,
  ok, Distinct, length, length-le_of_Within, lookup-insert, keys, insert,
}
use daedalus.Scheduler.Dag.Reach.{Edge}
use daedalus.Scheduler.Dag.{Dag}
use daedalus.Scheduler.Types.{
  ScheduleError, ScheduledTask, World, ScheduleRequest, ScheduleResult, TaskOutcome, WaitError,
}
use daedalus.Scheduler.Run.{schedule, build, skipped, cancel_rest, canceled_outcome}
use daedalus.Scheduler.Run.Settle.{succeeded, WasSkipped}
use daedalus.Scheduler.Run.Loop.{flat}
use daedalus.Scheduler.Run.Build.{task_ids, Depends}
use daedalus.Scheduler.Run.Schedule.{Origin, schedule-Origin, schedule-returns, cancel_rest-lookup}

cancel_rest-has_key :
    (ids : List Str) (outcomes : Map TaskOutcome) (n : Str)
    → has_key n (cancel_rest ids outcomes) ≡ (has_key n outcomes || member n ids)
unfolding cancel_rest member
cancel_rest-has_key [] outcomes n = ground arith
cancel_rest-has_key (id ∷ ids) outcomes n = elim (Bool-cases (has_key id outcomes)) [
  | inl old ↦ rw old (elim (Bool-cases (str_eq n id)) [
    | inl same ↦
        let old' : has_key n outcomes ≡ true =
          subst (λ z. has_key z outcomes ≡ true) (sym ((str_eq_iff n id).0 same)) old in
        ground (arith, cancel_rest-has_key ids outcomes n)
    | inr other ↦ ground (arith, cancel_rest-has_key ids outcomes n)
  ])
  | inr new ↦ rw new (
      ground (
        arith,
        cancel_rest-has_key ids (insert id (canceled_outcome id) outcomes) n,
        lookup-insert id n (canceled_outcome id) outcomes,
        str_eq_iff id n,
        str_eq_iff n id,
      ))
]

module _ (w : World) (req : ScheduleRequest) (res : ScheduleResult) {over : Option WaitError}
    (returned : schedule w req ≡ some (ok (res, over))) where
  abbrev origin : Origin w req res over
  origin = schedule-Origin w req res over returned

  open origin use {last, kept, built}

  settled_lookup :
      (n : Str)
      → member n last.dag.completed ≡ true
      → lookup n res.task_results ≡ lookup n last.outcomes
  settled_lookup n h =
      ap (lookup n) origin.results
      ∙ cancel_rest-lookup (keys origin.by_id) last.outcomes n (kept.sound.recorded n ∙ h)

  is_dep : (p n : Str) → Depends req.tasks p n → Edge last.dag.edges p n
  is_dep p n d = subst (λ m. Edge m p n) (sym kept.extends.edges) ((built.edges p n).1 d)

  listed :
      (n : Str)
      → member n (flat res.execution_order) ≡ true
      → member n (flat last.execution_order) ≡ true
  listed n h = subst (λ l. member n (flat l) ≡ true) origin.order h

  is_task : (n : Str) → member n last.dag.nodes ≡ member n (task_ids req.tasks)
  is_task n = ap (member n) kept.extends.nodes ∙ built.nodes n

  -- Every task of the request has an outcome, and nothing else has one.
  schedule-outcomes : (n : Str) → has_key n res.task_results ≡ member n (task_ids req.tasks)
  schedule-outcomes n =
      ap (λ m. has_key n m) origin.results
      ∙ ground (
        arith,
        cancel_rest-has_key (keys origin.by_id) last.outcomes n,
        kept.sound.recorded n,
        built.ids n,
        is_task n,
        kept.sound.wf.done_known n,
      )

  -- A task is dispatched only if each of its dependencies has the outcome "completed".
  pub schedule-deps_first :
      (n p : Str)
      → member n (flat res.execution_order) ≡ true
      → Depends req.tasks p n
      → succeeded res.task_results p ≡ true
  schedule-deps_first n p h d =
      let (done, good) = kept.ordered.after_preds n p (listed n h) (is_dep p n d) in
      ground (arith, settled_lookup p done)

  -- No task is dispatched twice.
  schedule-once : Distinct (flat res.execution_order)
  schedule-once = subst (λ l. Distinct (flat l)) (sym origin.order) kept.ordered.once

  pub schedule-accounts :
      Distinct (flat res.execution_order)
      × ((n : Str) → has_key n res.task_results ≡ member n (task_ids req.tasks))
  schedule-accounts = (schedule-once, schedule-outcomes)

  all_settled :
      over ≡ none
      → (n : Str) → member n (task_ids req.tasks) ≡ true
      → member n last.dag.completed ≡ true
  all_settled calm n h = elim (Bool-cases (member n last.dag.completed)) [
    | inl done ↦ done
    | inr open_task ↦ elim origin.ends [
      | inr (e, ended) ↦
          let both : none ≡ some e = sym calm ∙ (origin.context ∙ ended) in absurd (cc)
      | inl none_left ↦
          let room : length (n ∷ last.dag.completed) ≤ length last.dag.nodes =
            length-le_of_Within (n ∷ last.dag.completed) last.dag.nodes
              (open_task, kept.sound.wf.done_distinct)
              (λ x m. elim (Bool-cases (str_eq x n)) [
                | inl same ↦
                    subst (λ z. member z last.dag.nodes ≡ true) (sym ((str_eq_iff x n).0 same))
                      (is_task n ∙ h)
                | inr other ↦
                    kept.sound.wf.done_known x (ground (arith, member_cons x n last.dag.completed))
              ]) in
          absurd (ground arith)
    ]
  ]

  listed_back :
      (n : Str)
      → member n (flat last.execution_order) ≡ true
      → member n (flat res.execution_order) ≡ true
  listed_back n h = subst (λ l. member n (flat l) ≡ true) (sym origin.order) h

  skip_in_result :
      (n : Str)
      → member n last.dag.completed ≡ true
      → WasSkipped last n
      → ((p : Str) × Depends req.tasks p n × (succeeded res.task_results p ≡ false))
        × ((o : TaskOutcome) × (lookup n res.task_results ≡ some o) × (o.status ≡ skipped))
  skip_in_result n done k = (
    (
      k.blame.culprit,
      (built.edges k.blame.culprit n).0
          (subst (λ m. Edge m k.blame.culprit n) kept.extends.edges k.blame.into),
      ground (arith, settled_lookup k.blame.culprit k.blame.over, k.blame.bad),
    ),
    (k.outcome, settled_lookup n done ∙ k.stored, k.status),
  )

  -- Without cancellation a task is dispatched exactly when all its dependencies completed, and a
  -- task that is not dispatched has the outcome "skipped".
  pub schedule-dispatched_iff :
      (n : Str)
      → over ≡ none
      → member n (task_ids req.tasks) ≡ true
      → ((member n (flat res.execution_order) ≡ true)
          ↔ ((p : Str) → Depends req.tasks p n → succeeded res.task_results p ≡ true))
        × (member n (flat res.execution_order) ≡ false
            → (o : TaskOutcome) × (lookup n res.task_results ≡ some o) × (o.status ≡ skipped))
  schedule-dispatched_iff n calm h =
      let done = all_settled calm n h in
      elim (kept.ordered.accounted n done) [
        | inl ran ↦ (
          (λ r p d. schedule-deps_first n p r d, λ good. listed_back n ran),
          λ out. let back = listed_back n ran in absurd (cc),
        )
        | inr k ↦
            let ((p, d, bad), stored) = skip_in_result n done k in
            (
              (λ r q e. schedule-deps_first n q r e, λ good. let fine = good p d in absurd (cc)),
              λ out. stored,
            )
      ]

-- Schedule always comes to a result, its fuel is never used up. Either build refuses the request (no
-- task, an empty or repeated ID, an unknown dependency, or an edge that closes a cycle), and Schedule
-- returns that error; or build accepts it, and Schedule returns a result in which exactly the IDs of
-- the request's tasks have outcomes, and no task stands twice in the execution order.
pub schedule_total :
    (w : World) (req : ScheduleRequest)
    → ((e : ScheduleError) × (build req ≡ err e) × (schedule w req ≡ some (err e)))
      ⊎ (((b : Map ScheduledTask × Dag) × (build req ≡ ok b))
          × ((r : ScheduleResult × Option WaitError) × (schedule w req ≡ some (ok r))
              × ((n : Str) → has_key n r.0.task_results ≡ member n (task_ids req.tasks))
              × Distinct (flat r.0.execution_order)))
schedule_total w req = elim (schedule-returns w req) [
  | inl refused ↦ inl refused
  | inr (b, built, (res, over), returned) ↦
      let (once, outcomes) = schedule-accounts w req res returned in
      inr ((b, built), ((res, over), returned, outcomes, once))
]
