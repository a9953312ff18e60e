-- ===== src/Scheduler/Run/Settle.antt =====
-- The invariant of the loop of Schedule (internal/scheduler/scheduler.go), and how it passes through
-- the end of one task.
use daedalus.Prelude.{
  ◌≡◌, refl, sym, ◌∙◌, inl, inr, Bool, true, false, not, ◌||◌, none, some, List, [], ◌∷◌,
  if◌then◌else◌, arith, Str, str_eq, Map, lookup, insert, has_key, member, add, lookup-insert,
  member-add, Bool-cases, str_eq_iff, str_eq_refl, subst, member_cons,
}
use daedalus.A2a
use daedalus.Scheduler.Dag.{Dag, complete, dependents}
use daedalus.Scheduler.Dag.Reach.{Edge}
use daedalus.Scheduler.Dag.Acyclic.{IsAcyclic}
use daedalus.Scheduler.Dag.WellFormed.{IsWf, complete-IsWf}
use daedalus.Scheduler.Types.{TaskOutcome}
use daedalus.Scheduler.Run.{Run, mark_all, settle, outcome_of, skipped}

-- The outcome of `n` is "completed".
abbrev pub succeeded : Map TaskOutcome → Str → Bool
succeeded outcomes n = elim (lookup n outcomes) [
  | none ↦ false
  | some o ↦ str_eq o.status A2a.completed
]

-- A predecessor that is done without success.
pub record Blame (s : Run) (c : Str) : Type 0 where
  pub culprit : Str
  pub into : Edge s.dag.edges culprit c
  pub over : member culprit s.dag.completed ≡ true
  pub bad : succeeded s.outcomes culprit ≡ false

pub record IsSound (s : Run) : Type 0 where
  pub wf : IsWf s.dag
  pub acyclic : IsAcyclic s.dag.edges
  pub recorded : (n : Str) → has_key n s.outcomes ≡ member n s.dag.completed
  pub marked :
      (n c : Str)
      → member n s.dag.completed ≡ true
      → Edge s.dag.edges n c
      → succeeded s.outcomes n ≡ false
      → member c s.skip ≡ true
  pub blamed : (c : Str) → member c s.skip ≡ true → Blame s c

-- `t` comes after `s`: the graph is the same, and what was settled stays as it is.
pub record Extends (s t : Run) : Type 0 where
  pub nodes : t.dag.nodes ≡ s.dag.nodes
  pub edges : t.dag.edges ≡ s.dag.edges
  pub stays : (n : Str) → member n s.dag.completed ≡ true → member n t.dag.completed ≡ true
  pub fixed :
      (n : Str) → member n s.dag.completed ≡ true → lookup n t.outcomes ≡ lookup n s.outcomes

pub Extends-refl : (s : Run) → Extends s s
Extends-refl s = record { nodes = refl; edges = refl; stays = λ n h. h; fixed = λ n h. refl }

pub Extends-trans : {s t u : Run} → Extends s t → Extends t u → Extends s u
Extends-trans x y = record {
  nodes = y.nodes ∙ x.nodes;
  edges = y.edges ∙ x.edges;
  stays = λ n h. y.stays n (x.stays n h);
  fixed = λ n h. y.fixed n (x.stays n h) ∙ x.fixed n h;
}

-- A known task that is not settled, and whose predecessors all succeeded.
pub record Cleared (s : Run) (id : Str) : Type 0 where
  pub known : member id s.dag.nodes ≡ true
  pub unsettled : member id s.dag.completed ≡ false
  pub preds :
      (p : Str)
      → Edge s.dag.edges p id
      → (member p s.dag.completed ≡ true) × (succeeded s.outcomes p ≡ true)

pub Cleared-Extends :
    {s t : Run} {id : Str}
    → Extends s t
    → member id t.dag.completed ≡ false
    → Cleared s id
    → Cleared t id
Cleared-Extends {id = id} x free c = record {
  known = subst (λ ns. member id ns ≡ true) (sym x.nodes) c.known;
  unsettled = free;
  preds = λ p e.
      let (over, good) = c.preds p (subst (λ m. Edge m p id) x.edges e) in
      (x.stays p over, ground (arith, x.fixed p over));
}

pub member-mark_all :
    (x : Str) (ss skip : List Str) → member x (mark_all ss skip) ≡ (member x ss || member x skip)
unfolding mark_all member
member-mark_all x [] skip = refl
member-mark_all x (s ∷ ss) skip =
    ground (arith, member-mark_all x ss (add s skip), member-add s x skip)

complete_writes :
    (id : Str) (d : Dag)
    → member id d.completed ≡ false
    → ((complete id d).0.nodes ≡ d.nodes)
      × ((complete id d).0.edges ≡ d.edges)
      × ((complete id d).0.completed ≡ id ∷ d.completed)
unfolding complete
complete_writes id d fresh = ground arith

module _ (id : Str) (o : TaskOutcome) (marks : Bool) (s : Run)
    (fresh : member id s.dag.completed ≡ false) where
  open s use {dag}

  abbrev after : Run
  after = settle id o marks s

  pub settle_writes :
      (after.dag.nodes ≡ s.dag.nodes)
      × (after.dag.edges ≡ s.dag.edges)
      × (after.dag.completed ≡ id ∷ s.dag.completed)
      × (after.outcomes ≡ insert id o s.outcomes)
      × (after.execution_order ≡ s.execution_order)
      × (after.batch_num ≡ s.batch_num)
      × (after.skip ≡ (if marks then mark_all (dependents s.dag id) s.skip else s.skip))
  unfolding settle
  settle_writes = ground (arith, complete_writes id s.dag fresh)

  pub settle-Extends : Extends s after
  settle-Extends =
      let (same_nodes, same_edges, longer, written, _, _, _) = settle_writes in
      record {
        nodes = same_nodes;
        edges = same_edges;
        stays = λ n h. ground (arith, member_cons n id s.dag.completed);
        fixed = λ n h. elim (Bool-cases (str_eq id n)) [
          | inl same ↦
              let again : member id s.dag.completed ≡ true =
                subst (λ z. member z s.dag.completed ≡ true) (sym ((str_eq_iff id n).0 same)) h in
              absurd (cc)
          | inr other ↦ ground (arith, lookup-insert id n o s.outcomes)
        ];
      }

  pub settle-IsSound :
      member id s.dag.nodes ≡ true
      → marks ≡ not (str_eq o.status A2a.completed)
      → IsSound s
      → IsSound after
  settle-IsSound known fits i =
      let (same_nodes, same_edges, longer, written, _, _, marking) = settle_writes in
      let old_out : (n : Str)
          → member n s.dag.completed ≡ true
          → succeeded after.outcomes n ≡ succeeded s.outcomes n =
        λ n h. ground (arith, settle-Extends.fixed n h) in
      let own : succeeded after.outcomes id ≡ str_eq o.status A2a.completed =
        ground (arith, lookup-insert id id o s.outcomes, str_eq_refl id) in
      record {
        wf = unfold settle in complete-IsWf id s.dag known i.wf;
        acyclic = subst IsAcyclic (sym same_edges) i.acyclic;
        recorded = λ n. ground (
          arith,
          i.recorded n,
          lookup-insert id n o s.outcomes,
          member_cons n id s.dag.completed,
          str_eq_iff id n,
          str_eq_iff n id,
        );
        marked = λ n c over e bad.
            let e' : Edge s.dag.edges n c = subst (λ m. Edge m n c) same_edges e in
            elim (Bool-cases (str_eq n id)) [
              | inl same ↦
                  let p : n ≡ id = (str_eq_iff n id).0 same in
                  let e'' : Edge s.dag.edges id c = subst (λ z. Edge s.dag.edges z c) p e' in
                  let bad' : succeeded after.outcomes id ≡ false =
                    subst (λ z. succeeded after.outcomes z ≡ false) p bad in
                  ground (arith, member-mark_all c (dependents s.dag id) s.skip)
              | inr other ↦
                  let h : member n s.dag.completed ≡ true =
                    ground (arith, member_cons n id s.dag.completed) in
                  ground (
                    arith,
                    i.marked n c h e',
                    old_out n h,
                    member-mark_all c (dependents s.dag id) s.skip,
                  )
            ];
        blamed = λ c hit. elim (Bool-cases (member c s.skip)) [
          | inl old ↦
              let b = i.blamed c old in
              record {
                culprit = b.culprit;
                into = subst (λ m. Edge m b.culprit c) (sym same_edges) b.into;
                over = settle-Extends.stays b.culprit b.over;
                bad = old_out b.culprit b.over ∙ b.bad;
              }
          | inr new ↦
              let from_id : (marks ≡ true) × (member c (dependents s.dag id) ≡ true) =
                ground (arith, member-mark_all c (dependents s.dag id) s.skip) in
              record {
                culprit = id;
                into = subst (λ m. Edge m id c) (sym same_edges) from_id.1;
                over = ground (arith, member_cons id id s.dag.completed, str_eq_refl id);
                bad = ground arith;
              }
        ];
      }

-- A task that was skipped for a predecessor that did not succeed.
pub record WasSkipped (s : Run) (n : Str) : Type 0 where
  pub blame : Blame s n
  pub outcome : TaskOutcome
  pub stored : lookup n s.outcomes ≡ some outcome
  pub status : outcome.status ≡ skipped

pub WasSkipped-Extends :
    {s t : Run} {n : Str}
    → Extends s t
    → member n s.dag.completed ≡ true
    → WasSkipped s n
    → WasSkipped t n
WasSkipped-Extends {s} {t} {n} x over k = record {
  blame = record {
    culprit = k.blame.culprit;
    into = subst (λ m. Edge m k.blame.culprit n) (sym x.edges) k.blame.into;
    over = x.stays k.blame.culprit k.blame.over;
    bad = ground (arith, x.fixed k.blame.culprit k.blame.over, k.blame.bad);
  };
  outcome = k.outcome;
  stored = x.fixed n over ∙ k.stored;
  status = k.status;
}

-- Skipping a marked task.
pub settle-WasSkipped :
    (id : Str) (s : Run)
    → IsSound s
    → member id s.dag.completed ≡ false
    → member id s.skip ≡ true
    → WasSkipped (settle id (outcome_of id skipped none s.batch_num) true s) id
settle-WasSkipped id s i fresh hit =
    let o = outcome_of id skipped none s.batch_num in
    let x = settle-Extends id o true s fresh in
    let (_, _, _, written, _, _, _) = settle_writes id o true s fresh in
    let b = i.blamed id hit in
    record {
      blame = record {
        culprit = b.culprit;
        into = subst (λ m. Edge m b.culprit id) (sym x.edges) b.into;
        over = x.stays b.culprit b.over;
        bad = ground (arith, x.fixed b.culprit b.over, b.bad);
      };
      outcome = o;
      stored = ground (arith, lookup-insert id id o s.outcomes, str_eq_refl id);
      status = refl;
    }
