-- ===== src/Operator/AgentRuntime/Repeated.antt =====
-- A second Reconcile of operator/internal/controller/agentruntime_controller.go.
use daedalus.Prelude.{ok-injective, ◌≡◌, refl, sym, ap, ◌∙◌, subst, inl, inr, none, some}
use daedalus.Operator.Types.{AgentRuntime, AgentRuntimeStatus}
use daedalus.Operator.Environment.{context_management_env_vars}
use daedalus.Operator.Workload.{port_of, build_scaled_job}
use daedalus.Operator.Cluster.{Cluster, Env, State}
use daedalus.Operator.Children.{
  config_map_name, config_map_of, updated_config_map, service_name, service_of, updated_service,
}
use daedalus.Operator.Scaling.{deployment_of, updated_deployment}
use daedalus.Operator.AgentRuntime.{reconcile, with_final_status}
use daedalus.Operator.AgentRuntime.Succeeds.{
  WorkloadDone, ChildrenDone, start, with_status, reconcile-Done,
}
use daedalus.Operator.AgentRuntime.Settled.{put_self, Undeployed-none, Unscheduled-none}
use daedalus.Operator.AgentRuntime.Rewritten.{
  Same, written_again, config_map-Idempotent, service-Idempotent, deployment-Idempotent, restated,
  registry_entry-restated, build_containers-restated, config_maps-Written, services-Written,
  deployments-kept, scaled_jobs-kept, Undeployed-parts, Unscheduled-parts, gone_again,
  jobs_gone_again, job_again,
}

abbrev SameWorkload : Cluster → Cluster → Type 0
SameWorkload c c' = Same c.deployments c'.deployments × Same c.scaled_jobs c'.scaled_jobs

-- The ConfigMaps, the Services, the Deployments and the ScaledJobs.
abbrev pub SameChildren : Cluster → Cluster → Type 0
SameChildren c c' =
    Same c.config_maps c'.config_maps × Same c.services c'.services × SameWorkload c c'

-- The workload of a run, and that of a run for the same runtime with another status that starts where
-- the first ended.
module _ (env : Env) (rt : AgentRuntime) (status : AgentRuntimeStatus) where
  workload_again :
      (s t s' t' : State)
      → s'.cluster.deployments ≡ t.cluster.deployments
      → s'.cluster.scaled_jobs ≡ t.cluster.scaled_jobs
      → WorkloadDone env rt s t
      → WorkloadDone env (restated rt status) s' t'
      → SameWorkload t.cluster t'.cluster
  unfolding build_scaled_job context_management_env_vars
  workload_again s t s' t' deployments jobs (inl (mode, _)) (inr (other, _)) = absurd (cc)
  workload_again s t s' t' deployments jobs (inr (mode, _)) (inl (other, _)) = absurd (cc)
  workload_again s t s' t' deployments jobs (inl (_, (u, gone, job))) (inl (_, (u', gone', job'))) =
      let (removed, kept) = Undeployed-parts env (restated rt status) s' gone' in
      let fresh : t.cluster.deployments rt.namespace rt.name ≡ none =
        ap (λ x. x.cluster.deployments rt.namespace rt.name) job ∙ Undeployed-none env rt s gone in
      (
        λ a b.
            ap (λ x. x.cluster.deployments a b) job'
            ∙ gone_again rt t.cluster.deployments s'.cluster.deployments u'.cluster.deployments
                deployments fresh removed a b,
        job_again env rt u.cluster.scaled_jobs t.cluster.scaled_jobs u'.cluster.scaled_jobs
            t'.cluster.scaled_jobs (ap (λ x. x.cluster.scaled_jobs) job) (kept ∙ jobs)
            (ap (λ x. x.cluster.scaled_jobs) job'),
      )
  workload_again s t s' t' deployments jobs (inr (_, (u, gone, (cs, built, deployed))))
        (inr (_, (u', gone', (cs', built', deployed')))) =
      let (removed, kept) = Unscheduled-parts env (restated rt status) s' gone' in
      (
        written_again updated_deployment rt.namespace rt.name (deployment_of rt cs)
            (deployment_of rt cs') u.cluster.deployments t.cluster.deployments
            u'.cluster.deployments t'.cluster.deployments
            (deployment-Idempotent (deployment_of rt cs) rt.namespace rt.name)
            (ap (deployment_of rt) (
              ok-injective
                (sym built' ∙ build_containers-restated rt status env.parser (port_of rt) ∙ built)))
            (ap (λ x. x.cluster.deployments) deployed) (kept ∙ deployments)
            (ap (λ x. x.cluster.deployments) deployed'),
        λ a b.
            ap (λ x. x.cluster.scaled_jobs a b) deployed'
            ∙ jobs_gone_again env rt s t s' u' jobs removed
                (λ installed.
                  ap (λ x. x.cluster.scaled_jobs rt.namespace rt.name) deployed
                  ∙ Unscheduled-none env rt s gone installed)
                a b,
      )

  children_again :
      (s t s' t' : State)
      → s'.cluster.config_maps ≡ t.cluster.config_maps
      → s'.cluster.services ≡ t.cluster.services
      → s'.cluster.deployments ≡ t.cluster.deployments
      → s'.cluster.scaled_jobs ≡ t.cluster.scaled_jobs
      → ChildrenDone env rt s t
      → ChildrenDone env (restated rt status) s' t'
      → SameChildren t.cluster t'.cluster
  children_again s t s' t' maps services deployments jobs done done' =
      let (json, encoded, first) = config_maps-Written env rt done in
      let (json', encoded', second) = config_maps-Written env (restated rt status) done' in
      (
        written_again updated_config_map rt.namespace (config_map_name rt) (config_map_of rt json)
            (config_map_of rt json') s.cluster.config_maps t.cluster.config_maps
            s'.cluster.config_maps t'.cluster.config_maps
            (config_map-Idempotent (config_map_of rt json) rt.namespace (config_map_name rt))
            (ap (config_map_of rt) (
              ok-injective (
                sym encoded'
                ∙ ap (λ e. env.marshal e) (registry_entry-restated rt status)
                ∙ encoded)))
            first maps second,
        written_again updated_service rt.namespace (service_name rt) (service_of rt) (service_of rt)
            s.cluster.services t.cluster.services s'.cluster.services t'.cluster.services
            (service-Idempotent (service_of rt) rt.namespace (service_name rt)) refl
            (services-Written env rt done) services
            (services-Written env (restated rt status) done'),
        workload_again done.served t done'.served t'
            (deployments-kept env (restated rt status) done' ∙ deployments)
            (scaled_jobs-kept env (restated rt status) done' ∙ jobs) done.workload done'.workload,
      )

-- If the runtime is there, Reconcile returns no error, and a second Reconcile of the same request in
-- the cluster that the first left returns no error either, then the second leaves the same ConfigMap,
-- Service, Deployment and ScaledJob under every namespace and name.
pub reconcile-Repeated :
    (env : Env) (rt : AgentRuntime) (c c1 c2 : Cluster)
    → c.runtimes rt.namespace rt.name ≡ some rt
    → reconcile env rt.namespace rt.name c ≡ (c1, none)
    → reconcile env rt.namespace rt.name c1 ≡ (c2, none)
    → SameChildren c1 c2
reconcile-Repeated env rt c c1 c2 there h h' =
    let (t, done, same) = reconcile-Done env rt c there h in
    let rt1 = with_final_status env none rt t in
    let there1 : c1.runtimes rt.namespace rt.name ≡ some rt1 =
      ap (λ x. x.runtimes rt.namespace rt.name) same ∙ put_self rt.namespace rt.name _ _ in
    let (t', done', same') = reconcile-Done env rt1 c1 there1 h' in
    subst (λ x. SameChildren x c2) (sym same)
      (subst (SameChildren (with_status env rt t)) (sym same') (
        children_again env rt rt1.status (start env rt c) t (start env rt1 c1) t'
          (ap (λ x. x.config_maps) same) (ap (λ x. x.services) same) (ap (λ x. x.deployments) same)
          (ap (λ x. x.scaled_jobs) same) done done'))
