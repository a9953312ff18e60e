-- ===== src/Operator/AgentRuntime/Elsewhere.antt =====
-- What a Reconcile of operator/internal/controller/agentruntime_controller.go leaves alone, however it
-- ends.
use daedalus.Prelude.{
  ◌≡◌, refl, sym, ap, subst, inl, inr, false, Option, none, some, ◌&&◌, ◌++◌, arith, Str, codes,
  str_eq, Option-cases, Bool-cases,
}
use daedalus.Operator.Types.{AgentRuntime}
use daedalus.Operator.Cluster.{
  ConfigMap, Service, Deployment, ScaledJob, Cluster, Objects, Env, State, Outcome, put, and_then,
  labelled, get, runtime_kind, update_status,
}
use daedalus.Operator.Children.{
  config_map_name, service_name, reconcile_config_map, reconcile_service,
}
use daedalus.Operator.Scaling.{
  mode_of, reconcile_workload, reconcile_scaled_job, reconcile_deployment,
  delete_deployment_if_exists, delete_scaled_job_if_exists,
}
use daedalus.Operator.AgentRuntime.{
  reconcile_children, with_final_status, persisted, persist, reconcile_runtime, reconcile,
}
use daedalus.Operator.AgentRuntime.Steps.{
  RefusedOr, config_map-cases, service-cases, deployment-cases, job-cases, Undeployed,
  undeploy-cases, Unscheduled, unschedule-cases,
}
use daedalus.Operator.AgentRuntime.Succeeds.{start}

-- The objects of a kind are the same but for one key.
abbrev pub SameBut : {V : Type 0} → Str → Str → Objects V → Objects V → Type 0
SameBut ns n m m' = (a b : Str) → (str_eq ns a && str_eq n b) ≡ false → m' a b ≡ m a b

pub put-SameBut :
    {V : Type 0} {m₀ : Objects V} (ns n : Str) (v : Option V) (m : Objects V)
    → SameBut ns n m₀ m
    → SameBut ns n m₀ (put ns n v m)
unfolding put
put-SameBut ns n v m same a b other = rw other (same a b other)

-- The only objects that may differ are the runtime, its ConfigMap, its Service, and the Deployment and
-- the ScaledJob with its name.
pub record Elsewhere (rt : AgentRuntime) (c c' : Cluster) : Type 0 where
  pub runtimes : SameBut rt.namespace rt.name c.runtimes c'.runtimes
  pub config_maps : SameBut rt.namespace (config_map_name rt) c.config_maps c'.config_maps
  pub services : SameBut rt.namespace (service_name rt) c.services c'.services
  pub deployments : SameBut rt.namespace rt.name c.deployments c'.deployments
  pub scaled_jobs : SameBut rt.namespace rt.name c.scaled_jobs c'.scaled_jobs

-- A property of states that a step keeps, whatever its outcome.
abbrev pub Keeps : (State → Type 0) → (State → Outcome) → Type 0
Keeps P step = (s : State) → P s → P (step s).0

module _ (P : State → Type 0) where
  pub RefusedOr-Keeps :
      {Q : State → Type 0} (s : State) (o : Outcome)
      → RefusedOr s Q o
      → ((t : State) → Q t → P t)
      → P s
      → P o.0
  RefusedOr-Keeps s o (inl (e, bad)) done h = subst P (ap (λ x. x.0) (sym bad)) h
  RefusedOr-Keeps s o (inr (t, good, q)) done h = subst P (ap (λ x. x.0) (sym good)) (done t q)

  pub and_then-Keeps :
      (next : State → Outcome) (o : Outcome) → Keeps P next → P o.0 → P (and_then next o).0
  and_then-Keeps next (s, none) keeps h = keeps s h
  and_then-Keeps next (s, some e) keeps h = h

  pub labelled-Keeps : (context : Str) (o : Outcome) → P o.0 → P (labelled context o).0
  labelled-Keeps context (s, none) h = h
  labelled-Keeps context (s, some e) h = h

  -- The children keep what each step keeps.
  pub children-Keeps :
      (env : Env) (rt : AgentRuntime)
      → Keeps P (reconcile_config_map env rt)
      → Keeps P (reconcile_service env rt)
      → Keeps P (reconcile_workload env rt)
      → Keeps P (reconcile_children env rt)
  unfolding reconcile_children
  children-Keeps env rt maps serves works s h =
      and_then-Keeps (λ t. labelled (codes "reconciling workload") (reconcile_workload env rt t))
        (and_then (λ t. labelled (codes "reconciling Service") (reconcile_service env rt t))
          (labelled (codes "reconciling ConfigMap") (reconcile_config_map env rt s)))
        (λ t p.
          labelled-Keeps (codes "reconciling workload") (reconcile_workload env rt t) (works t p))
        (and_then-Keeps (λ t. labelled (codes "reconciling Service") (reconcile_service env rt t))
          (labelled (codes "reconciling ConfigMap") (reconcile_config_map env rt s))
          (λ t p.
            labelled-Keeps (codes "reconciling Service") (reconcile_service env rt t) (serves t p))
          (labelled-Keeps (codes "reconciling ConfigMap") (reconcile_config_map env rt s)
            (maps s h)))

  -- So does the workload, with each of the two ways.
  pub workload-Keeps :
      (env : Env) (rt : AgentRuntime)
      → Keeps P (λ s. and_then (reconcile_scaled_job env rt) (delete_deployment_if_exists env rt s))
      → Keeps P (λ s. and_then (reconcile_deployment env rt) (delete_scaled_job_if_exists env rt s))
      → Keeps P (reconcile_workload env rt)
  unfolding reconcile_workload
  workload-Keeps env rt jobs deploys s h =
      elim (Bool-cases (str_eq (mode_of rt) (codes "ScaledJob"))) [
        | inl scaled ↦ rw scaled (jobs s h)
        | inr other ↦ elim (Bool-cases (str_eq (mode_of rt) (codes "Static"))) [
          | inl static ↦ rw (other, static) (deploys s h)
          | inr unknown ↦ rw (other, unknown) h
        ]
      ]

-- With the persisted status, or without.
module _ (P : Cluster → Type 0) where
  abbrev pub AllowsStatus : AgentRuntime → Type 0
  AllowsStatus rt =
      (c : Cluster) (rt' : AgentRuntime)
      → P c
      → P (record c { runtimes = put rt.namespace rt.name (some rt') c.runtimes })

  persisted-cluster :
      (rt : AgentRuntime) (e : Option Str) (s : State) (answer : Option Str)
      → AllowsStatus rt
      → P s.cluster
      → P (persisted rt e s answer).0
  persisted-cluster rt e s (some bad) status h = h
  persisted-cluster rt e s none status h = status s.cluster rt h

  persist-cluster :
      (env : Env) (rt : AgentRuntime) (o : Outcome)
      → AllowsStatus rt
      → P o.0.cluster
      → P (persist env rt o).0
  persist-cluster env rt (s, e) status h =
      persisted-cluster (with_final_status env e rt s) e s
        (env.refuses (update_status (with_final_status env e rt s))) status h

  pub reconcile-cluster :
      (env : Env) (rt : AgentRuntime) (c : Cluster)
      → c.runtimes rt.namespace rt.name ≡ some rt
      → P c
      → P (reconcile_children env rt (start env rt c)).0.cluster
      → AllowsStatus rt
      → P (reconcile env rt.namespace rt.name c).0
  unfolding reconcile reconcile_runtime
  reconcile-cluster env rt c there before children status =
      elim (Option-cases (env.refuses (get runtime_kind))) [
        | inr (e, bad) ↦
            let q : reconcile env rt.namespace rt.name c
                ≡ (c, some (codes "fetching AgentRuntime: " ++ e)) =
              ground arith in
            subst (λ o. P o.0) (sym q) before
        | inl answers ↦
            let q : reconcile env rt.namespace rt.name c
                ≡ persist env rt (reconcile_children env rt (start env rt c)) =
              ground arith in
            subst (λ o. P o.0) (sym q)
              (persist-cluster env rt (reconcile_children env rt (start env rt c)) status children)
      ]

-- A write, or a deletion, of an object of the runtime.
module _ {rt : AgentRuntime} {c d : Cluster} (h : Elsewhere rt c d) where
  runtimes-Elsewhere :
      (v : Option AgentRuntime)
      → Elsewhere rt c (record d { runtimes = put rt.namespace rt.name v d.runtimes })
  runtimes-Elsewhere v = record {
    runtimes = put-SameBut rt.namespace rt.name v d.runtimes h.runtimes;
    config_maps = h.config_maps;
    services = h.services;
    deployments = h.deployments;
    scaled_jobs = h.scaled_jobs;
  }

  config_maps-Elsewhere :
      (v : Option ConfigMap)
      → Elsewhere rt c
          (record d { config_maps = put rt.namespace (config_map_name rt) v d.config_maps })
  config_maps-Elsewhere v = record {
    runtimes = h.runtimes;
    config_maps = put-SameBut rt.namespace (config_map_name rt) v d.config_maps h.config_maps;
    services = h.services;
    deployments = h.deployments;
    scaled_jobs = h.scaled_jobs;
  }

  services-Elsewhere :
      (v : Option Service)
      → Elsewhere rt c (record d { services = put rt.namespace (service_name rt) v d.services })
  services-Elsewhere v = record {
    runtimes = h.runtimes;
    config_maps = h.config_maps;
    services = put-SameBut rt.namespace (service_name rt) v d.services h.services;
    deployments = h.deployments;
    scaled_jobs = h.scaled_jobs;
  }

  deployments-Elsewhere :
      (v : Option Deployment)
      → Elsewhere rt c (record d { deployments = put rt.namespace rt.name v d.deployments })
  deployments-Elsewhere v = record {
    runtimes = h.runtimes;
    config_maps = h.config_maps;
    services = h.services;
    deployments = put-SameBut rt.namespace rt.name v d.deployments h.deployments;
    scaled_jobs = h.scaled_jobs;
  }

  scaled_jobs-Elsewhere :
      (v : Option ScaledJob)
      → Elsewhere rt c (record d { scaled_jobs = put rt.namespace rt.name v d.scaled_jobs })
  scaled_jobs-Elsewhere v = record {
    runtimes = h.runtimes;
    config_maps = h.config_maps;
    services = h.services;
    deployments = h.deployments;
    scaled_jobs = put-SameBut rt.namespace rt.name v d.scaled_jobs h.scaled_jobs;
  }

module _ (env : Env) (rt : AgentRuntime) (c : Cluster) where
  abbrev Apart : State → Type 0
  Apart s = Elsewhere rt c s.cluster

  config_map-Keeps : Keeps Apart (reconcile_config_map env rt)
  config_map-Keeps s h =
      RefusedOr-Keeps Apart s (reconcile_config_map env rt s) (config_map-cases env rt s)
        (λ t (json, _, written). subst Apart (sym written) (config_maps-Elsewhere h _)) h

  service-Keeps : Keeps Apart (reconcile_service env rt)
  service-Keeps s h =
      RefusedOr-Keeps Apart s (reconcile_service env rt s) (service-cases env rt s)
        (λ t written. subst Apart (sym written) (services-Elsewhere h _)) h

  job-Keeps : Keeps Apart (reconcile_scaled_job env rt)
  job-Keeps s h =
      RefusedOr-Keeps Apart s (reconcile_scaled_job env rt s) (job-cases env rt s)
        (λ t written. subst Apart (sym written) (scaled_jobs-Elsewhere h _)) h

  deployment-Keeps : Keeps Apart (reconcile_deployment env rt)
  deployment-Keeps s h =
      RefusedOr-Keeps Apart s (reconcile_deployment env rt s) (deployment-cases env rt s)
        (λ t (cs, _, written). subst Apart (sym written) (deployments-Elsewhere h _)) h

  Undeployed-Apart : (s t : State) → Apart s → Undeployed env rt s t → Apart t
  Undeployed-Apart s t h (inl (same, _)) = subst Apart (sym same) h
  Undeployed-Apart s t h (inr gone) = subst Apart (sym gone) (deployments-Elsewhere h none)

  Unscheduled-Apart : (s t : State) → Apart s → Unscheduled env rt s t → Apart t
  Unscheduled-Apart s t h (inl (same, _)) = subst Apart (sym same) h
  Unscheduled-Apart s t h (inr (_, gone)) = subst Apart (sym gone) (scaled_jobs-Elsewhere h none)

  children-Apart : Keeps Apart (reconcile_children env rt)
  children-Apart = children-Keeps Apart env rt config_map-Keeps service-Keeps (
      workload-Keeps Apart env rt
        (λ s h.
          and_then-Keeps Apart (reconcile_scaled_job env rt) (delete_deployment_if_exists env rt s)
            job-Keeps
            (RefusedOr-Keeps Apart s (delete_deployment_if_exists env rt s)
              (undeploy-cases env rt s) (λ t. Undeployed-Apart s t h) h))
        (λ s h.
          and_then-Keeps Apart (reconcile_deployment env rt) (delete_scaled_job_if_exists env rt s)
            deployment-Keeps
            (RefusedOr-Keeps Apart s (delete_scaled_job_if_exists env rt s)
              (unschedule-cases env rt s) (λ t. Unscheduled-Apart s t h) h)))

-- However Reconcile for a runtime that is there ends, errors of the server included: the only objects
-- that may differ afterwards are the runtime, the ConfigMap and the Service with the names made from
-- its name, and the Deployment and the ScaledJob of its name, all in its namespace.
pub reconcile-Elsewhere :
    (env : Env) (rt : AgentRuntime) (c : Cluster)
    → c.runtimes rt.namespace rt.name ≡ some rt
    → Elsewhere rt c (reconcile env rt.namespace rt.name c).0
reconcile-Elsewhere env rt c there =
    let all : Elsewhere rt c c = record {
      runtimes = λ a b h. refl;
      config_maps = λ a b h. refl;
      services = λ a b h. refl;
      deployments = λ a b h. refl;
      scaled_jobs = λ a b h. refl;
    } in
    reconcile-cluster (Elsewhere rt c) env rt c there all
      (children-Apart env rt c (start env rt c) all) (λ d rt' h. runtimes-Elsewhere h (some rt'))
