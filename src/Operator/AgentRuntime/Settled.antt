-- ===== src/Operator/AgentRuntime/Settled.antt =====
-- What a Reconcile of operator/internal/controller/agentruntime_controller.go that returns no error
-- leaves in the cluster.
use daedalus.Prelude.{
  ◌≡◌, refl, sym, ap, ◌∙◌, subst, ◌⊎◌, inl, inr, false, Option, none, some, List, [], ◌∷◌, arith,
  Str, codes, str_eq_refl, ok,
}
use daedalus.Operator.Types.{AgentRuntime}
use daedalus.Operator.Workload.{
  Container, port_of, child_labels, build_scaled_job, build_containers, registry_entry,
}
use daedalus.Operator.Cluster.{
  ConfigMap, Service, Deployment, ScaledJob, Cluster, Objects, Env, State, put,
}
use daedalus.Operator.Children.{
  config_map_name, config_map_of, updated_config_map, service_name, service_of, updated_service,
}
use daedalus.Operator.Scaling.{mode_of, replicas_of, deployment_of, updated_deployment}
use daedalus.Operator.AgentRuntime.{reconcile}
use daedalus.Operator.AgentRuntime.Steps.{over, JobDone, DeploymentWritten, Undeployed, Unscheduled}
use daedalus.Operator.AgentRuntime.Succeeds.{WorkloadDone, ChildrenDone, reconcile-Done}

pub put_self : {V : Type 0} (ns n : Str) (v : Option V) (m : Objects V) → put ns n v m ns n ≡ v
unfolding put
put_self ns n v m = ground (arith, str_eq_refl ns, str_eq_refl n)

-- The data of the ConfigMap is the registry entry of the runtime and nothing else.
abbrev pub HasRegistry : Env → AgentRuntime → Option ConfigMap → Type 0
HasRegistry env rt stored =
    (m : ConfigMap) × (stored ≡ some m)
    × (json : Str) × (env.marshal (registry_entry rt) ≡ ok json)
    × (m.contents ≡ (codes "agent-registry.json", json) ∷ [])

-- The Service leads to the port of the agent, on the pods with the labels of the runtime.
abbrev pub HasService : AgentRuntime → Option Service → Type 0
HasService rt stored =
    (v : Service) × (stored ≡ some v) × (v.port ≡ port_of rt) × (v.selector ≡ child_labels rt)

abbrev pub HasJob : AgentRuntime → Option ScaledJob → Type 0
HasJob rt stored =
    (j : ScaledJob) × (stored ≡ some j)
    × (j.content ≡ build_scaled_job rt rt.name)
    × (j.owners ≡ rt.name ∷ [])

abbrev pub HasDeployment : Env → AgentRuntime → Option Deployment → Type 0
HasDeployment env rt stored =
    (d : Deployment) × (stored ≡ some d)
    × (build_containers env.parser rt (port_of rt) ≡ ok d.containers)
    × (d.replicas ≡ replicas_of rt)
    × (d.template_labels ≡ child_labels rt)

-- One workload, of the kind that the mode says.
abbrev pub HasWorkload : Env → AgentRuntime → Cluster → Type 0
HasWorkload env rt c =
    ((mode_of rt ≡ codes "ScaledJob")
      × (c.deployments rt.namespace rt.name ≡ none)
      × HasJob rt (c.scaled_jobs rt.namespace rt.name))
    ⊎ ((mode_of rt ≡ codes "Static")
        × (env.no_match ≡ false → c.scaled_jobs rt.namespace rt.name ≡ none)
        × HasDeployment env rt (c.deployments rt.namespace rt.name))

abbrev pub Settled : Env → AgentRuntime → Cluster → Type 0
Settled env rt c =
    HasRegistry env rt (c.config_maps rt.namespace (config_map_name rt))
    × HasService rt (c.services rt.namespace (service_name rt))
    × HasWorkload env rt c

over_config_map :
    (rt : AgentRuntime) (json : Str) (stored : Option ConfigMap)
    → (over updated_config_map (config_map_of rt json) stored).contents
      ≡ (codes "agent-registry.json", json) ∷ []
over_config_map rt json none = refl
over_config_map rt json (some m) = refl

over_service :
    (rt : AgentRuntime) (stored : Option Service)
    → ((over updated_service (service_of rt) stored).port ≡ port_of rt)
      × ((over updated_service (service_of rt) stored).selector ≡ child_labels rt)
over_service rt none = (refl, refl)
over_service rt (some v) = (refl, refl)

over_deployment :
    (rt : AgentRuntime) (cs : List Container) (stored : Option Deployment)
    → ((over updated_deployment (deployment_of rt cs) stored).containers ≡ cs)
      × ((over updated_deployment (deployment_of rt cs) stored).replicas ≡ replicas_of rt)
      × ((over updated_deployment (deployment_of rt cs) stored).template_labels ≡ child_labels rt)
over_deployment rt cs none = (refl, refl, refl)
over_deployment rt cs (some v) = (refl, refl, refl)

-- A part of the cluster that is neither the Deployments nor the ScaledJobs stays in the last step.
abbrev pub Apart : {A : Type 0} → (Cluster → A) → Type 0
Apart part =
    (c : Cluster) (ds : Objects Deployment) (js : Objects ScaledJob)
    → part (record c { deployments = ds; scaled_jobs = js }) ≡ part c

module _ {A : Type 0} (part : Cluster → A) (apart : Apart part) where
  pub workload-part :
      (env : Env) (rt : AgentRuntime) {s t : State}
      → WorkloadDone env rt s t
      → part t.cluster ≡ part s.cluster
  workload-part env rt {s} (inl (_, (u, inl (same, _), job))) =
      ap (λ x. part x.cluster) job
      ∙ apart u.cluster u.cluster.deployments _
      ∙ ap (λ x. part x.cluster) same
  workload-part env rt {s} (inl (_, (u, inr gone, job))) =
      ap (λ x. part x.cluster) job
      ∙ apart u.cluster u.cluster.deployments _
      ∙ ap (λ x. part x.cluster) gone
      ∙ apart s.cluster _ s.cluster.scaled_jobs
  workload-part env rt {s} (inr (_, (u, inl (same, _), (cs, built, deployed)))) =
      ap (λ x. part x.cluster) deployed
      ∙ apart u.cluster _ u.cluster.scaled_jobs
      ∙ ap (λ x. part x.cluster) same
  workload-part env rt {s} (inr (_, (u, inr (_, gone), (cs, built, deployed)))) =
      ap (λ x. part x.cluster) deployed
      ∙ apart u.cluster _ u.cluster.scaled_jobs
      ∙ ap (λ x. part x.cluster) gone
      ∙ apart s.cluster s.cluster.deployments _

module _ (env : Env) (rt : AgentRuntime) (s : State) where
  pub Undeployed-none :
      {u : State} → Undeployed env rt s u → u.cluster.deployments rt.namespace rt.name ≡ none
  Undeployed-none (inl (same, fresh)) =
      ap (λ x. x.cluster.deployments rt.namespace rt.name) same ∙ fresh
  Undeployed-none (inr gone) =
      ap (λ x. x.cluster.deployments rt.namespace rt.name) gone
      ∙ put_self rt.namespace rt.name none _

  pub Unscheduled-none :
      {u : State}
      → Unscheduled env rt s u
      → env.no_match ≡ false
      → u.cluster.scaled_jobs rt.namespace rt.name ≡ none
  Unscheduled-none (inl (same, inl missing)) installed = absurd (cc)
  Unscheduled-none (inl (same, inr fresh)) installed =
      ap (λ x. x.cluster.scaled_jobs rt.namespace rt.name) same ∙ fresh
  Unscheduled-none (inr (_, gone)) installed =
      ap (λ x. x.cluster.scaled_jobs rt.namespace rt.name) gone
      ∙ put_self rt.namespace rt.name none _

  JobDone-HasJob :
      {t : State} → JobDone env rt s t → HasJob rt (t.cluster.scaled_jobs rt.namespace rt.name)
  JobDone-HasJob job = (
    _,
    ap (λ x. x.cluster.scaled_jobs rt.namespace rt.name) job ∙ put_self rt.namespace rt.name _ _,
    refl,
    refl,
  )

  DeploymentWritten-HasDeployment :
      {t : State} (cs : List Container)
      → build_containers env.parser rt (port_of rt) ≡ ok cs
      → DeploymentWritten env rt s cs t
      → HasDeployment env rt (t.cluster.deployments rt.namespace rt.name)
  DeploymentWritten-HasDeployment cs built deployed =
      let stored = s.cluster.deployments rt.namespace rt.name in
      let (same, replicas, labels) = over_deployment rt cs stored in
      (
        over updated_deployment (deployment_of rt cs) stored,
        ap (λ x. x.cluster.deployments rt.namespace rt.name) deployed
            ∙ put_self rt.namespace rt.name _ _,
        built ∙ ap ok (sym same),
        replicas,
        labels,
      )

module _ (env : Env) (rt : AgentRuntime) (s : State) where
  workload-HasWorkload : {t : State} → WorkloadDone env rt s t → HasWorkload env rt t.cluster
  workload-HasWorkload (inl (mode, (u, gone, job))) = inl (
    mode,
    ap (λ x. x.cluster.deployments rt.namespace rt.name) job ∙ Undeployed-none env rt s gone,
    JobDone-HasJob env rt u job,
  )
  workload-HasWorkload (inr (mode, (u, gone, (cs, built, deployed)))) = inr (
    mode,
    λ installed.
        ap (λ x. x.cluster.scaled_jobs rt.namespace rt.name) deployed
        ∙ Unscheduled-none env rt s gone installed,
    DeploymentWritten-HasDeployment env rt u cs built deployed,
  )

module _ (env : Env) (rt : AgentRuntime) {s t : State} (done : ChildrenDone env rt s t) where
  open done use {mapped, served, config_map, service, workload}

  children-HasRegistry :
      HasRegistry env rt (t.cluster.config_maps rt.namespace (config_map_name rt))
  children-HasRegistry =
      let (json, encoded, written) = config_map in
      let stored = s.cluster.config_maps rt.namespace (config_map_name rt) in
      (
        over updated_config_map (config_map_of rt json) stored,
        ap (λ m. m rt.namespace (config_map_name rt))
              (workload-part (λ c. c.config_maps) (λ c ds js. refl) env rt workload
                ∙ ap (λ x. x.cluster.config_maps) service
                ∙ ap (λ x. x.cluster.config_maps) written)
            ∙ put_self rt.namespace (config_map_name rt) _ _,
        json,
        encoded,
        over_config_map rt json stored,
      )

  children-HasService : HasService rt (t.cluster.services rt.namespace (service_name rt))
  children-HasService =
      let stored = mapped.cluster.services rt.namespace (service_name rt) in
      let (port, selector) = over_service rt stored in
      (
        over updated_service (service_of rt) stored,
        ap (λ m. m rt.namespace (service_name rt))
              (workload-part (λ c. c.services) (λ c ds js. refl) env rt workload
                ∙ ap (λ x. x.cluster.services) service)
            ∙ put_self rt.namespace (service_name rt) _ _,
        port,
        selector,
      )

  children-Settled : Settled env rt t.cluster
  children-Settled =
      (children-HasRegistry, children-HasService, workload-HasWorkload env rt served workload)

-- If the runtime is there and Reconcile returns no error, then the data of the ConfigMap is exactly its
-- registry entry, the Service leads to its port on the pods with its labels, and there is one workload: in mode
-- ScaledJob the ScaledJob of its spec, owned by it, and no Deployment; in mode Static a Deployment with
-- its containers and replicas, and no ScaledJob if that type is installed. No other mode succeeds.
pub reconcile-Settled :
    (env : Env) (rt : AgentRuntime) (c c' : Cluster)
    → c.runtimes rt.namespace rt.name ≡ some rt
    → reconcile env rt.namespace rt.name c ≡ (c', none)
    → Settled env rt c'
reconcile-Settled env rt c c' there h =
    let (t, done, same) = reconcile-Done env rt c there h in
    subst (Settled env rt) (sym same) (children-Settled env rt done)
