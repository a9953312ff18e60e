-- ===== src/Scheduler/Run/Schedule.antt =====
-- What Schedule (internal/scheduler/scheduler.go) promises of a whole run.
use daedalus.Prelude.{
  ok-injective, Result-cases, suc, ◌≡◌, refl, sym, ap, ◌∙◌, ◌⊎◌, inl, inr, true, Option, some, List,
  [], ◌∷◌, arith, Str, Map, lookup, has_key, keys, member, Bool-cases, str_eq_iff, lookup-insert,
  Result, ok, err, length,
}
use daedalus.Scheduler.Dag.{Dag}
use daedalus.Scheduler.Types.{
  World, ScheduleRequest, ScheduleResult, ScheduleError, ScheduledTask, TaskOutcome, WaitError,
}
use daedalus.Scheduler.Run.{Run, start, cancel_rest, canceled_outcome, build, finish, schedule}
use daedalus.Scheduler.Run.Settle.{IsSound}
use daedalus.Scheduler.Run.Loop.{InOrder, Kept, Ends, run_loop-Kept}
use daedalus.Scheduler.Run.Build.{IsFresh, Built, build-Built, build-validate}

start-IsSound : (d : Dag) → IsFresh d → IsSound (start d)
unfolding member lookup
start-IsSound d f = record {
  wf = f.wf;
  acyclic = f.acyclic;
  recorded = λ n. ground (arith, ap (member n) f.unstarted);
  marked = λ n c h e b. absurd (ground (arith, ap (member n) f.unstarted));
  blamed = λ c h. absurd (cc);
}

start-InOrder : (d : Dag) → IsFresh d → InOrder (start d)
unfolding member
start-InOrder d f = record {
  once = tt;
  over = λ n h. absurd (cc);
  after_preds = λ n p h e. absurd (cc);
  accounted = λ n h. absurd (ground (arith, ap (member n) f.unstarted));
}

-- A run of an accepted request.
record Completes (w : World) (req : ScheduleRequest) (by_id : Map ScheduledTask) (d : Dag)
    : Type 0 where
  last : Run
  kept : Kept (start d) last
  ends : Ends w req.context_id by_id last
  runs : schedule w req ≡ some (ok (finish req w by_id last))

build-Completes :
    (w : World) (req : ScheduleRequest) (by_id : Map ScheduledTask) (d : Dag)
    → build req ≡ ok (by_id, d)
    → Completes w req by_id d
unfolding schedule
build-Completes w req by_id d h =
    let b = build-Built req by_id d h in
    let (t, ran, kept, ends) =
      run_loop-Kept w req.context_id by_id (suc (length d.nodes)) (start d)
        (start-IsSound d b.fresh) (start-InOrder d b.fresh) (omega arith) in
    record {
      last = t;
      kept = kept;
      ends = ends;
      runs =
          rw (h, schedule) (rw (build-validate req by_id d h, schedule) (rw (ran, schedule) refl));
    }

schedule_of_rejected :
    (w : World) (req : ScheduleRequest) (e : ScheduleError)
    → build req ≡ err e
    → schedule w req ≡ some (err e)
unfolding schedule
schedule_of_rejected w req e h = rw (h, schedule) refl

-- Schedule returns an error of build if build refuses the request, else a result.
pub schedule-returns :
    (w : World) (req : ScheduleRequest)
    → ((e : ScheduleError) × (build req ≡ err e) × (schedule w req ≡ some (err e)))
      ⊎ ((b : Map ScheduledTask × Dag) × (build req ≡ ok b)
          × (r : ScheduleResult × Option WaitError) × (schedule w req ≡ some (ok r)))
schedule-returns w req = elim (Result-cases (build req)) [
  | inl (e, refused) ↦ inl (e, refused, schedule_of_rejected w req e refused)
  | inr ((by_id, d), built) ↦
      let c = build-Completes w req by_id d built in
      inr ((by_id, d), built, finish req w by_id c.last, c.runs)
]

-- What a returned result comes from.
pub record Origin (w : World) (req : ScheduleRequest) (res : ScheduleResult)
    (over : Option WaitError) : Type 0 where
  pub by_id : Map ScheduledTask
  pub graph : Dag
  pub built : Built req by_id graph
  pub last : Run
  pub kept : Kept (start graph) last
  pub ends : Ends w req.context_id by_id last
  pub results : res.task_results ≡ cancel_rest (keys by_id) last.outcomes
  pub order : res.execution_order ≡ last.execution_order
  pub context : over ≡ w.ctx_err last.batch_num

pub schedule-Origin :
    (w : World) (req : ScheduleRequest) (res : ScheduleResult) (over : Option WaitError)
    → schedule w req ≡ some (ok (res, over))
    → Origin w req res over
schedule-Origin w req res over h = elim (Result-cases (build req)) [
  | inl (e, refused) ↦ let h' = sym (schedule_of_rejected w req e refused) ∙ h in absurd (cc)
  | inr ((by_id, d), built) ↦
      let c = build-Completes w req by_id d built in
      let both : finish req w by_id c.last ≡ (res, over) =
        ok-injective (some-injective (sym c.runs ∙ h)) in
      record {
        by_id = by_id;
        graph = d;
        built = build-Built req by_id d built;
        last = c.last;
        kept = c.kept;
        ends = c.ends;
        results = sym (ap (λ (p : ScheduleResult × Option WaitError). p.0.task_results) both);
        order = sym (ap (λ (p : ScheduleResult × Option WaitError). p.0.execution_order) both);
        context = sym (ap (λ (p : ScheduleResult × Option WaitError). p.1) both);
      }
]
  where
    Value : Type 0
    Value = Result ScheduleError (ScheduleResult × Option WaitError)

    some-injective : {a b : Value} → ◌≡◌ {A = Option Value} (some a) (some b) → a ≡ b
    some-injective e = cc

-- The last loop leaves the outcomes there are, and gives each other task one.
pub cancel_rest-lookup :
    (ids : List Str) (outcomes : Map TaskOutcome) (n : Str)
    → has_key n outcomes ≡ true
    → lookup n (cancel_rest ids outcomes) ≡ lookup n outcomes
unfolding cancel_rest
cancel_rest-lookup [] outcomes n h = refl
cancel_rest-lookup (id ∷ ids) outcomes n h = elim (Bool-cases (has_key id outcomes)) [
  | inl old ↦ rw old (cancel_rest-lookup ids outcomes n h)
  | inr new ↦ rw new (
      cancel_rest-lookup ids _ n (ground (arith, lookup-insert id n (canceled_outcome id) outcomes))
      ∙ ground (arith, lookup-insert id n (canceled_outcome id) outcomes, str_eq_iff id n))
]
