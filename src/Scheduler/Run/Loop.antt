-- ===== src/Scheduler/Run/Loop.antt =====
-- The dispatch loop of Schedule (internal/scheduler/scheduler.go): it ends, and what holds then.
use mathlib.Core.List.{append_assoc, append-nil}
use daedalus.Prelude.{
  ℕ, zero, suc, ◌+◌, ◌<◌, ◌≡◌, refl, sym, ap, ◌∙◌, ◌⊎◌, inl, inr, Bool, true, false, ◌||◌, some,
  List, [], ◌∷◌, ◌++◌, arith, Str, str_eq, Map, member, Bool-cases, Option-cases, str_eq_iff, subst,
  member_cons, member_nil, member-append, Distinct, length, length-le_of_Within, keep,
  sort_strings-Distinct, keep-Distinct, member_head,
}
use daedalus.Prelude.Int.{lt_ℤ, pos}
use daedalus.Scheduler.Dag.{remaining, ready, is_ready}
use daedalus.Scheduler.Dag.Reach.{Edge}
use daedalus.Scheduler.Dag.WellFormed.{ready_iff}
use daedalus.Scheduler.Dag.Progress.{ready_progress}
use daedalus.Scheduler.Types.{World, WaitError, ScheduledTask}
use daedalus.Scheduler.Run.{
  Run, Round, break, go_on, partition, run_batch, after_partition, round, run_loop,
}
use daedalus.Scheduler.Run.Settle.{
  WasSkipped, WasSkipped-Extends, IsSound, Extends, Extends-refl, Extends-trans, Cleared, succeeded,
}
use daedalus.Scheduler.Run.Phases.{
  IsOpen, Phase, partition-Phase, partition-none_skipped, partition-WasSkipped,
}
use daedalus.Scheduler.Run.Batch.{Ran, run_batch-Ran}

-- All dispatched tasks, in order.
abbrev pub flat : List (List Str) → List Str
flat [] = []
flat (b ∷ bs) = b ++ flat bs

flat-snoc :
    (bs : List (List Str)) (b : List Str) (x : Str)
    → member x (flat (bs ++ b ∷ [])) ≡ (member x (flat bs) || member x b)
flat-snoc [] b x = ground (arith, member-append x b [], member_nil x)
flat-snoc (c ∷ bs) b x =
    ground (
      arith,
      member-append x c (flat (bs ++ b ∷ [])),
      member-append x c (flat bs),
      flat-snoc bs b x,
    )

Distinct-append :
    (xs ys : List Str)
    → Distinct xs
    → Distinct ys
    → ((x : Str) → member x xs ≡ true → member x ys ≡ false)
    → Distinct (xs ++ ys)
unfolding member
Distinct-append [] ys d e apart = e
Distinct-append (x ∷ xs) ys d e apart = (
  ground (arith, member-append x xs ys, apart x, str_eq_iff x x),
  Distinct-append xs ys d.1 e (λ z h. apart z (ground arith)),
)

flat-snoc_eq : (bs : List (List Str)) (b : List Str) → flat (bs ++ b ∷ []) ≡ flat bs ++ b
flat-snoc_eq [] b = append-nil b
flat-snoc_eq (c ∷ bs) b = rw (flat-snoc_eq bs b) (sym (append_assoc c (flat bs) b))

-- The dispatched tasks are distinct and settled, and all their predecessors succeeded.
pub record InOrder (s : Run) : Type 0 where
  pub once : Distinct (flat s.execution_order)
  pub over : (n : Str) → member n (flat s.execution_order) ≡ true → member n s.dag.completed ≡ true
  pub after_preds :
      (n p : Str)
      → member n (flat s.execution_order) ≡ true
      → Edge s.dag.edges p n
      → (member p s.dag.completed ≡ true) × (succeeded s.outcomes p ≡ true)
  pub accounted :
      (n : Str)
      → member n s.dag.completed ≡ true
      → (member n (flat s.execution_order) ≡ true) ⊎ WasSkipped s n

InOrder-Extends :
    {s t : Run}
    → Extends s t
    → t.execution_order ≡ s.execution_order
    → ((n : Str)
        → member n t.dag.completed ≡ true
        → (member n s.dag.completed ≡ true) ⊎ WasSkipped t n)
    → InOrder s
    → InOrder t
InOrder-Extends {s} {t} x same skips o = record {
  once = subst (λ l. Distinct (flat l)) (sym same) o.once;
  over = λ n h. x.stays n (o.over n (subst (λ l. member n (flat l) ≡ true) same h));
  after_preds = λ n p h e.
      let (done, good) =
        o.after_preds n p (subst (λ l. member n (flat l) ≡ true) same h)
          (subst (λ m. Edge m p n) x.edges e) in
      (x.stays p done, ground (arith, x.fixed p done));
  accounted = λ n h. elim (skips n h) [
    | inr skip ↦ inr skip
    | inl before ↦ elim (o.accounted n before) [
      | inl listed ↦ inl (subst (λ l. member n (flat l) ≡ true) (sym same) listed)
      | inr skip ↦ inr (WasSkipped-Extends x before skip)
    ]
  ];
}

InOrder-Ran :
    {s t : Run} (ids : List Str)
    → Distinct ids
    → ((n : Str) → member n ids ≡ true → Cleared s n)
    → InOrder s
    → Ran s ids t
    → InOrder t
InOrder-Ran {s} {t} ids d clear o r = record {
  once =
      subst (λ l. Distinct (flat l)) (sym r.order)
        (subst Distinct (sym (flat-snoc_eq s.execution_order ids)) (
          Distinct-append (flat s.execution_order) ids o.once d λ n h.
            elim (Bool-cases (member n ids)) [
              | inl twice ↦ absurd (ground (arith, o.over n h, (clear n twice).unsettled))
              | inr new ↦ new
            ]));
  over = λ n h. elim (where_from n h) [
    | inl old ↦ r.extends.stays n (o.over n old)
    | inr new ↦ r.ends n new
  ];
  after_preds = λ n p h e.
      let e' : Edge s.dag.edges p n = subst (λ m. Edge m p n) r.extends.edges e in
      let (done, good) : (member p s.dag.completed ≡ true) × (succeeded s.outcomes p ≡ true) =
        elim (where_from n h) [
          | inl old ↦ o.after_preds n p old e'
          | inr new ↦ (clear n new).preds p e'
        ] in
      (r.extends.stays p done, ground (arith, r.extends.fixed p done));
  accounted = λ n h. elim (r.only n h) [
    | inr new ↦ inl (listed_now n (inr new))
    | inl before ↦ elim (o.accounted n before) [
      | inl listed ↦ inl (listed_now n (inl listed))
      | inr skip ↦ inr (WasSkipped-Extends r.extends before skip)
    ]
  ];
}
  where
    listed_now :
        (n : Str)
        → (member n (flat s.execution_order) ≡ true) ⊎ (member n ids ≡ true)
        → member n (flat t.execution_order) ≡ true
    listed_now n h =
        subst (λ l. member n (flat l) ≡ true) (sym r.order)
          (ground (arith, flat-snoc s.execution_order ids n))

    where_from :
        (n : Str)
        → member n (flat t.execution_order) ≡ true
        → (member n (flat s.execution_order) ≡ true) ⊎ (member n ids ≡ true)
    where_from n h =
        let h' : member n (flat (s.execution_order ++ ids ∷ [])) ≡ true =
          subst (λ l. member n (flat l) ≡ true) r.order h in
        ground (arith, flat-snoc s.execution_order ids n)

ready-Distinct : (s : Run) → IsSound s → Distinct (ready s.dag)
unfolding ready
ready-Distinct s i =
    sort_strings-Distinct (keep (is_ready s.dag) s.dag.nodes)
      (keep-Distinct (is_ready s.dag) s.dag.nodes i.wf.nodes_distinct)

-- Settling a task that was not settled makes the settled ones more.
more_settled :
    {s t : Run} (n : Str)
    → IsSound s
    → Extends s t
    → member n s.dag.completed ≡ false
    → member n t.dag.completed ≡ true
    → length s.dag.completed < length t.dag.completed
more_settled {s} {t} n i x before now =
    length-le_of_Within (n ∷ s.dag.completed) t.dag.completed (before, i.wf.done_distinct)
      λ z h. elim (Bool-cases (str_eq z n)) [
        | inl same ↦
            subst (λ u. member u t.dag.completed ≡ true) (sym ((str_eq_iff z n).0 same)) now
        | inr other ↦ x.stays z (ground (arith, member_cons z n s.dag.completed))
      ]

pub record Kept (s t : Run) : Type 0 where
  pub sound : IsSound t
  pub ordered : InOrder t
  pub extends : Extends s t

Kept-trans : {s t u : Run} → Kept s t → Kept t u → Kept s u
Kept-trans a b = record {
  sound = b.sound;
  ordered = b.ordered;
  extends = Extends-trans a.extends b.extends;
}

module _ (w : World) (context_id : Str) (by_id : Map ScheduledTask) where
  Advances : Run → Round → Type 0
  Advances s r =
      ((t : Run) × (r ≡ go_on t) × Kept s t × (length s.dag.completed < length t.dag.completed))
      ⊎ ((t : Run) × (e : WaitError) × (r ≡ break t) × Kept s t × (w.ctx_err t.batch_num ≡ some e))

  -- While tasks are left, a round settles one, or the context is over.
  round-Advances :
      (s : Run)
      → IsSound s
      → InOrder s
      → lt_ℤ (pos 0) (remaining s.dag) ≡ true
      → Advances s (round w context_id by_id s)
  unfolding Advances round
  round-Advances s i o left =
      by_result (partition ids s).0 (partition ids s).1 (partition ids s).2 refl phase
        (partition-none_skipped ids s)
    where
      ids : List Str
      ids = ready s.dag

      is_open : (n : Str) → member n ids ≡ true → IsOpen s n
      is_open n h =
          let (known, free, preds) = (ready_iff s.dag n i.wf).0 h in
          record { known = known; unsettled = free; preds = preds }

      phase : Phase s ids (partition ids s).0 (partition ids s).1
      phase = partition-Phase ids s i (ready-Distinct s i) is_open

      some_ready : (r : Str) × (member r ids ≡ true)
      some_ready = ready_progress s.dag i.wf i.acyclic left

      skips :
          (t : Run) (waiting : List Str) (any : Bool)
          → partition ids s ≡ (t, waiting, any)
          → (n : Str) → member n t.dag.completed ≡ true
          → (member n s.dag.completed ≡ true) ⊎ WasSkipped t n
      skips t waiting any e =
          subst
            (λ (q : Run × List Str × Bool).
              (n : Str)
              → member n q.0.dag.completed ≡ true
              → (member n s.dag.completed ≡ true) ⊎ WasSkipped q.0 n)
            e (partition-WasSkipped ids s i (ready-Distinct s i) is_open)

      by_result :
          (t : Run) (waiting : List Str) (any : Bool)
          → partition ids s ≡ (t, waiting, any)
          → Phase s ids t waiting
          → (any ≡ false → waiting ≡ ids)
          → Advances s (round w context_id by_id s)
      by_result t [] true e p none_skipped = inl (
        t,
        ap (after_partition w context_id by_id) e,
        record {
          sound = p.sound;
          ordered = InOrder-Extends p.extends p.same_order (skips t [] true e) o;
          extends = p.extends;
        },
        let (r, h) = some_ready in
            more_settled r i p.extends (is_open r h).unsettled (p.settled r h (member_nil r)),
      )
      by_result t [] false e p none_skipped =
          let (r, h) = some_ready in
          absurd (
            ground
              (arith, member_nil r, subst (λ l. member r l ≡ true) (sym (none_skipped refl)) h))
      by_result t (id ∷ rest) any e p none_skipped = elim (Option-cases (w.ctx_err t.batch_num)) [
        | inl going ↦
            let ran = run_batch-Ran w context_id by_id (id ∷ rest) t p.sound p.distinct p.cleared in
            inl (
              run_batch w context_id by_id (id ∷ rest) t,
              ap (after_partition w context_id by_id) e ∙ rw (going, after_partition) refl,
              record {
                sound = ran.sound;
                ordered =
                    InOrder-Ran (id ∷ rest) p.distinct p.cleared
                      (InOrder-Extends p.extends p.same_order (skips t (id ∷ rest) any e) o) ran;
                extends = Extends-trans p.extends ran.extends;
              },
              let here : member id (id ∷ rest) ≡ true = member_head id rest in
                  more_settled id i (Extends-trans p.extends ran.extends)
                    (is_open id (p.within id here)).unsettled (ran.ends id here),
            )
        | inr (err, over) ↦ inr (
          t,
          err,
          ap (after_partition w context_id by_id) e ∙ rw (over, after_partition) refl,
          record {
            sound = p.sound;
            ordered = InOrder-Extends p.extends p.same_order (skips t (id ∷ rest) any e) o;
            extends = p.extends;
          },
          over,
        )
      ]

  -- How the loop ends: no task is left, or the context is over.
  abbrev pub Ends : Run → Type 0
  Ends t =
      (lt_ℤ (pos 0) (remaining t.dag) ≡ false)
      ⊎ ((e : WaitError) × (w.ctx_err t.batch_num ≡ some e))

  pub run_loop-Kept :
      (f : ℕ) (s : Run)
      → IsSound s
      → InOrder s
      → length s.dag.nodes < f + length s.dag.completed
      → (t : Run) × (run_loop w context_id by_id f s ≡ some t) × Kept s t × Ends t
  unfolding run_loop Advances
  run_loop-Kept zero s i o room = absurd (
      omega
        (arith, length-le_of_Within s.dag.completed s.dag.nodes i.wf.done_distinct i.wf.done_known))
  run_loop-Kept (suc f) s i o room = elim (Bool-cases (lt_ℤ (pos 0) (remaining s.dag))) [
    | inr done ↦
        (s, rw done refl, record { sound = i; ordered = o; extends = Extends-refl s }, inl done)
    | inl left ↦ elim (round-Advances s i o left) [
      | inl (t, ran, kept, more) ↦
          let (u, rest, kept', ends) =
            run_loop-Kept f t kept.sound kept.ordered
              (omega (arith, ap (λ (l : List Str). length l) kept.extends.nodes)) in
          (u, rw (left, ran) rest, Kept-trans kept kept', ends)
      | inr (t, e, ran, kept, over) ↦ (t, rw (left, ran) refl, kept, inr (e, over))
    ]
  ]
