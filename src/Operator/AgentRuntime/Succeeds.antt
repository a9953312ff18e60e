-- ===== src/Operator/AgentRuntime/Succeeds.antt =====
-- What a Reconcile of operator/internal/controller/agentruntime_controller.go went through if it
-- returned no error.
use daedalus.Prelude.{
  ◌≡◌, refl, sym, ap, ◌∙◌, subst, ◌⊎◌, inl, inr, Option, none, some, arith, Str, codes, str_eq,
  str_eq_iff, Bool-cases, Option-cases,
}
use daedalus.Operator.Types.{AgentRuntime}
use daedalus.Operator.Cluster.{
  Cluster, Env, State, Outcome, put, and_then, labelled, update_status, get, runtime_kind,
}
use daedalus.Operator.Children.{reconcile_config_map, reconcile_service}
use daedalus.Operator.Scaling.{
  mode_of, reconcile_workload, reconcile_scaled_job, reconcile_deployment,
  delete_deployment_if_exists, delete_scaled_job_if_exists,
}
use daedalus.Operator.AgentRuntime.{
  reconcile_children, progressing, with_final_status, persisted, persist, reconcile_runtime,
  reconcile,
}
use daedalus.Operator.AgentRuntime.Steps.{
  RefusedOr, ConfigMapDone, config_map-cases, ServiceDone, service-cases, DeploymentDone,
  deployment-cases, JobDone, job-cases, Undeployed, undeploy-cases, Unscheduled, unschedule-cases,
}

RefusedOr-ok :
    {s : State} {P : State → Type 0} {o : Outcome} {t : State}
    → RefusedOr s P o
    → o ≡ (t, none)
    → P t
RefusedOr-ok (inl (e, bad)) h = absurd (cc)
RefusedOr-ok {P = P} (inr (u, good, p)) h = subst P (ap (λ o. o.0) (sym good ∙ h)) p

and_then-ok :
    (next : State → Outcome) (o : Outcome) {t : State}
    → and_then next o ≡ (t, none)
    → (u : State) × (o ≡ (u, none)) × (next u ≡ (t, none))
and_then-ok next (s, none) h = (s, refl, h)
and_then-ok next (s, some e) h = absurd (cc)

labelled-ok :
    (context : Str) (o : Outcome) {t : State} → labelled context o ≡ (t, none) → o ≡ (t, none)
labelled-ok context (s, none) h = h
labelled-ok context (s, some e) h = absurd (cc)

-- The workload by the mode.
abbrev pub WorkloadDone : Env → AgentRuntime → State → State → Type 0
WorkloadDone env rt s t =
    ((mode_of rt ≡ codes "ScaledJob") × ((u : State) × Undeployed env rt s u × JobDone env rt u t))
    ⊎ ((mode_of rt ≡ codes "Static")
        × ((u : State) × Unscheduled env rt s u × DeploymentDone env rt u t))

workload-Done :
    (env : Env) (rt : AgentRuntime) (s : State) {t : State}
    → reconcile_workload env rt s ≡ (t, none)
    → WorkloadDone env rt s t
unfolding reconcile_workload
workload-Done env rt s h = elim (Bool-cases (str_eq (mode_of rt) (codes "ScaledJob"))) [
  | inl jobs ↦
      let (u, gone, written) =
        and_then-ok (reconcile_scaled_job env rt) (delete_deployment_if_exists env rt s)
          (rw jobs at h) in
      inl (
        (str_eq_iff _ _).0 jobs,
        (u, RefusedOr-ok (undeploy-cases env rt s) gone, RefusedOr-ok (job-cases env rt u) written),
      )
  | inr other ↦ elim (Bool-cases (str_eq (mode_of rt) (codes "Static"))) [
    | inl static ↦
        let (u, gone, written) =
          and_then-ok (reconcile_deployment env rt) (delete_scaled_job_if_exists env rt s)
            (rw (other, static) at h) in
        inr (
          (str_eq_iff _ _).0 static,
          (
            u,
            RefusedOr-ok (unschedule-cases env rt s) gone,
            RefusedOr-ok (deployment-cases env rt u) written,
          ),
        )
    | inr unknown ↦ absurd (ground arith)
  ]
]

-- The states between the three steps.
pub record ChildrenDone (env : Env) (rt : AgentRuntime) (s t : State) : Type 0 where
  pub mapped : State
  pub served : State
  pub config_map : ConfigMapDone env rt s mapped
  pub service : ServiceDone env rt mapped served
  pub workload : WorkloadDone env rt served t

pub children-Done :
    (env : Env) (rt : AgentRuntime) (s : State) {t : State}
    → reconcile_children env rt s ≡ (t, none)
    → ChildrenDone env rt s t
unfolding reconcile_children
children-Done env rt s h =
    let (served, before, last) =
      and_then-ok (λ s'. labelled (codes "reconciling workload") (reconcile_workload env rt s'))
        (and_then (λ s'. labelled (codes "reconciling Service") (reconcile_service env rt s'))
          (labelled (codes "reconciling ConfigMap") (reconcile_config_map env rt s)))
        h in
    let (mapped, first, second) =
      and_then-ok (λ s'. labelled (codes "reconciling Service") (reconcile_service env rt s'))
        (labelled (codes "reconciling ConfigMap") (reconcile_config_map env rt s)) before in
    record {
      mapped = mapped;
      served = served;
      config_map =
          RefusedOr-ok (config_map-cases env rt s)
            (labelled-ok (codes "reconciling ConfigMap") _ first);
      service =
          RefusedOr-ok (service-cases env rt mapped)
            (labelled-ok (codes "reconciling Service") _ second);
      workload = workload-Done env rt served (labelled-ok (codes "reconciling workload") _ last);
    }

abbrev pub start : Env → AgentRuntime → Cluster → State
start env rt c = record { cluster = c; status = progressing env rt }

-- The cluster with the new status of the runtime.
abbrev pub with_status : Env → AgentRuntime → State → Cluster
with_status env rt s = record (s.cluster) {
  runtimes = put rt.namespace rt.name (some (with_final_status env none rt s)) s.cluster.runtimes;
}

persisted-ok :
    (rt : AgentRuntime) (e : Option Str) (s : State) (answer : Option Str) {c' : Cluster}
    → persisted rt e s answer ≡ (c', none)
    → (e ≡ none)
      × (c'
          ≡ record (s.cluster) { runtimes = put rt.namespace rt.name (some rt) s.cluster.runtimes })
persisted-ok rt e s (some bad) h = absurd (cc)
persisted-ok rt e s none h = (ap (λ p. p.1) h, ap (λ p. p.0) (sym h))

persist-ok :
    (env : Env) (rt : AgentRuntime) (o : Outcome) {c' : Cluster}
    → persist env rt o ≡ (c', none)
    → (t : State) × (o ≡ (t, none)) × (c' ≡ with_status env rt t)
persist-ok env rt (t, some e) h = absurd (
    let (bad, _) =
      persisted-ok (with_final_status env (some e) rt t) (some e) t
        (env.refuses (update_status (with_final_status env (some e) rt t))) h in
    cc)
persist-ok env rt (t, none) h = (
  t,
  refl,
  (persisted-ok (with_final_status env none rt t) none t
      (env.refuses (update_status (with_final_status env none rt t))) h).1,
)

-- A Reconcile that returned no error for a runtime that is there.
pub reconcile-Done :
    (env : Env) (rt : AgentRuntime) (c : Cluster) {c' : Cluster}
    → c.runtimes rt.namespace rt.name ≡ some rt
    → reconcile env rt.namespace rt.name c ≡ (c', none)
    → (t : State) × ChildrenDone env rt (start env rt c) t × (c' ≡ with_status env rt t)
unfolding reconcile reconcile_runtime
reconcile-Done env rt c {c'} there h = elim (Option-cases (env.refuses (get runtime_kind))) [
  | inr (e, bad) ↦ absurd (ground arith)
  | inl answers ↦
      let run : persist env rt (reconcile_children env rt (start env rt c)) ≡ (c', none) =
        ground arith in
      let (t, done, same) = persist-ok env rt (reconcile_children env rt (start env rt c)) run in
      (t, children-Done env rt (start env rt c) done, same)
]
