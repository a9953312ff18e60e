-- ===== src/Operator/AgentRuntime/Exclusive.antt =====
-- A runtime of operator/internal/controller/agentruntime_controller.go has one workload.
use daedalus.Prelude.{◌≡◌, sym, ap, ◌∙◌, subst, ◌⊎◌, inl, inr, false, none, some}
use daedalus.Operator.Types.{AgentRuntime}
use daedalus.Operator.Cluster.{Cluster, Env, State, Outcome, and_then}
use daedalus.Operator.Children.{reconcile_config_map, reconcile_service}
use daedalus.Operator.Scaling.{
  reconcile_scaled_job, reconcile_deployment, delete_deployment_if_exists,
  delete_scaled_job_if_exists,
}
use daedalus.Operator.AgentRuntime.{reconcile_children, reconcile}
use daedalus.Operator.AgentRuntime.Steps.{
  RefusedOr, config_map-cases, service-cases, deployment-cases, job-cases, undeploy-cases,
  unschedule-cases,
}
use daedalus.Operator.AgentRuntime.Succeeds.{start}
use daedalus.Operator.AgentRuntime.Settled.{Undeployed-none, Unscheduled-none}
use daedalus.Operator.AgentRuntime.Elsewhere.{
  Keeps, RefusedOr-Keeps, children-Keeps, workload-Keeps, reconcile-cluster,
}

-- Not both a Deployment and a ScaledJob of the runtime's name.
abbrev pub Exclusive : AgentRuntime → Cluster → Type 0
Exclusive rt c =
    (c.deployments rt.namespace rt.name ≡ none) ⊎ (c.scaled_jobs rt.namespace rt.name ≡ none)

-- If the part that a predicate reads is the same, it still holds.
Exclusive-same :
    (rt : AgentRuntime) (c d : Cluster)
    → d.deployments ≡ c.deployments
    → d.scaled_jobs ≡ c.scaled_jobs
    → Exclusive rt c
    → Exclusive rt d
Exclusive-same rt c d ds js (inl h) = inl (ap (λ m. m rt.namespace rt.name) ds ∙ h)
Exclusive-same rt c d ds js (inr h) = inr (ap (λ m. m rt.namespace rt.name) js ∙ h)

-- The second of two steps starts from where the first succeeded.
and_then-from :
    (P Q : State → Type 0) (next : State → Outcome) {R : State → Type 0} (s : State) (o : Outcome)
    → RefusedOr s R o
    → P s
    → ((t : State) → R t → Q t)
    → ((t : State) → Q t → P (next t).0)
    → P (and_then next o).0
and_then-from P Q next s o (inl (e, bad)) h start_ then_ =
    subst (λ x. P (and_then next x).0) (sym bad) h
and_then-from P Q next s o (inr (t, good, r)) h start_ then_ =
    subst (λ x. P (and_then next x).0) (sym good) (then_ t (start_ t r))

module _ (env : Env) (rt : AgentRuntime) (installed : env.no_match ≡ false) where
  abbrev One : State → Type 0
  One s = Exclusive rt s.cluster

  jobs-One :
      Keeps One (λ s. and_then (reconcile_scaled_job env rt) (delete_deployment_if_exists env rt s))
  jobs-One s h =
      and_then-from One (λ t. t.cluster.deployments rt.namespace rt.name ≡ none)
        (reconcile_scaled_job env rt) s (delete_deployment_if_exists env rt s)
        (undeploy-cases env rt s) h (λ t. Undeployed-none env rt s)
        (λ t gone.
          RefusedOr-Keeps One t (reconcile_scaled_job env rt t) (job-cases env rt t)
            (λ u written. inl (ap (λ x. x.cluster.deployments rt.namespace rt.name) written ∙ gone))
            (inl gone))

  deploys-One :
      Keeps One (λ s. and_then (reconcile_deployment env rt) (delete_scaled_job_if_exists env rt s))
  deploys-One s h =
      and_then-from One (λ t. t.cluster.scaled_jobs rt.namespace rt.name ≡ none)
        (reconcile_deployment env rt) s (delete_scaled_job_if_exists env rt s)
        (unschedule-cases env rt s) h (λ t gone. Unscheduled-none env rt s gone installed)
        (λ t gone.
          RefusedOr-Keeps One t (reconcile_deployment env rt t) (deployment-cases env rt t)
            (λ u (cs, _, written).
              inr (ap (λ x. x.cluster.scaled_jobs rt.namespace rt.name) written ∙ gone))
            (inr gone))

  children-One : Keeps One (reconcile_children env rt)
  children-One =
      children-Keeps One env rt
        (λ s h.
          RefusedOr-Keeps One s (reconcile_config_map env rt s) (config_map-cases env rt s)
            (λ t (json, _, written). subst One (sym written) h) h)
        (λ s h.
          RefusedOr-Keeps One s (reconcile_service env rt s) (service-cases env rt s)
            (λ t written. subst One (sym written) h) h)
        (workload-Keeps One env rt jobs-One deploys-One)

-- Let the type of the ScaledJob be installed, and a runtime that is there not have both a Deployment
-- and a ScaledJob. However Reconcile ends, it does not have both afterwards, although the mode may have
-- changed.
pub reconcile-Exclusive :
    (env : Env) (rt : AgentRuntime) (c : Cluster)
    → env.no_match ≡ false
    → c.runtimes rt.namespace rt.name ≡ some rt
    → Exclusive rt c
    → Exclusive rt (reconcile env rt.namespace rt.name c).0
reconcile-Exclusive env rt c installed there h =
    reconcile-cluster (Exclusive rt) env rt c there h
      (children-One env rt installed (start env rt c) h) (λ d rt' k. k)
