-- ===== src/Operator/AgentRuntime/Steps.antt =====
-- The outcomes of the steps of operator/internal/controller/agentruntime_controller.go: an error that
-- leaves all as it is, or the write of one object.
use daedalus.Prelude.{
  ◌≡◌, refl, sym, subst, ◌⊎◌, inl, inr, true, false, Option, none, some, List, [], if◌then◌else◌,
  Str, codes, Result, ok, err, Bool-cases,
}
use daedalus.Operator.Types.{AgentRuntime}
use daedalus.Operator.Workload.{Container, registry_entry, build_containers, port_of}
use daedalus.Operator.Cluster.{
  ScaledJob, Kind, Found, not_found, found, get_failed, no_match_error, Env, State, Outcome, put,
  unless_err, deployment_kind, scaled_job_kind, config_map_kind, get, delete, service_kind,
  get_object, get_scaled_job, write_config_map, write_service, write_scaled_job, write_deployment,
}
use daedalus.Operator.Children.{
  config_map_name, config_map_of, updated_config_map, store_config_map, reconcile_config_map,
  service_name, service_of, updated_service, store_service, reconcile_service, save_config_map,
  encoded_config_map, save_service,
}
use daedalus.Operator.Scaling.{
  write_job, delete_found, delete_deployment_if_exists, delete_scaled_job_if_exists, scaled_job_of,
  store_scaled_job, reconcile_scaled_job, deployment_of, updated_deployment, store_deployment,
  reconcile_deployment, save_scaled_job, save_deployment, deploy,
}

-- An error and the old state, or the new state of a step that succeeded.
abbrev pub RefusedOr : State → (State → Type 0) → Outcome → Type 0
RefusedOr s P o = ((e : Str) × (o ≡ (s, some e))) ⊎ ((t : State) × (o ≡ (t, none)) × P t)

-- What is written over what is stored.
abbrev pub over : {V : Type 0} → (V → V → V) → V → Option V → V
over update desired none = desired
over update desired (some existing) = update desired existing

abbrev pub version_of : Option ScaledJob → Str
version_of none = []
version_of (some j) = j.resource_version

module _ {s : State} {P : State → Type 0} where
  unless_err-RefusedOr :
      (e : Option Str) (context : Str) (rest : Outcome)
      → RefusedOr s P rest
      → RefusedOr s P (unless_err e context rest s)
  unless_err-RefusedOr none context rest h = h
  unless_err-RefusedOr (some bad) context rest h = inl (_, refl)

  -- A Get, and what follows it.
  get_object-RefusedOr :
      {V : Type 0} (env : Env) (kind : Kind) (stored : Option V) (next : Found V → Outcome)
      → ((e : Str) → RefusedOr s P (next (get_failed e)))
      → (stored ≡ none → RefusedOr s P (next not_found))
      → ((v : V) → stored ≡ some v → RefusedOr s P (next (found v)))
      → RefusedOr s P (next (get_object env kind stored))
  get_object-RefusedOr env kind none next failing fresh there =
      elim (env.refuses (get kind))
        as (λ r. RefusedOr s P (next (elim r [ some e ↦ get_failed e | none ↦ not_found ]))) [
          | some e ↦ failing e
          | none ↦ fresh refl
        ]
  get_object-RefusedOr env kind (some v) next failing fresh there =
      elim (env.refuses (get kind))
        as (λ r. RefusedOr s P (next (elim r [ some e ↦ get_failed e | none ↦ found v ]))) [
          | some e ↦ failing e
          | none ↦ there v refl
        ]

module _ (env : Env) (rt : AgentRuntime) (s : State) where
  -- The ConfigMap that is stored by a success.
  abbrev pub MapWritten : Str → State → Type 0
  MapWritten json t =
      t
      ≡ store_config_map rt (config_map_name rt)
          (over updated_config_map (config_map_of rt json)
            (s.cluster.config_maps rt.namespace (config_map_name rt)))
          s

  abbrev pub ConfigMapDone : State → Type 0
  ConfigMapDone t = (json : Str) × (env.marshal (registry_entry rt) ≡ ok json) × MapWritten json t

  encoded_config_map-cases :
      (r : Result Str Str)
      → env.marshal (registry_entry rt) ≡ r
      → RefusedOr s ConfigMapDone (encoded_config_map env rt s r)
  encoded_config_map-cases (err e) h = inl (_, refl)
  encoded_config_map-cases (ok json) h =
      unless_err-RefusedOr {P = ConfigMapDone} (env.owner_err config_map_kind)
        (codes "setting owner reference on ConfigMap") _
        (get_object-RefusedOr env config_map_kind
          (s.cluster.config_maps rt.namespace (config_map_name rt))
          (save_config_map env rt (config_map_of rt json) s) (λ e. inl (_, refl))
          (λ fresh.
            unless_err-RefusedOr {P = ConfigMapDone}
              (env.refuses (write_config_map (config_map_of rt json))) (codes "creating ConfigMap")
              _ (inr (_, refl, (json, h, rw fresh refl))))
          (λ old there.
            unless_err-RefusedOr
              (env.refuses (write_config_map (updated_config_map (config_map_of rt json) old)))
              (codes "updating ConfigMap") _ (inr (_, refl, (json, h, rw there refl)))))

  pub config_map-cases : RefusedOr s ConfigMapDone (reconcile_config_map env rt s)
  unfolding reconcile_config_map
  config_map-cases = encoded_config_map-cases (env.marshal (registry_entry rt)) refl

  abbrev pub ServiceDone : State → Type 0
  ServiceDone t =
      t
      ≡ store_service rt (service_name rt)
          (over updated_service (service_of rt) (s.cluster.services rt.namespace (service_name rt)))
          s

  pub service-cases : RefusedOr s ServiceDone (reconcile_service env rt s)
  unfolding reconcile_service
  service-cases =
      unless_err-RefusedOr {P = ServiceDone} (env.owner_err service_kind)
        (codes "setting owner reference on Service") _
        (get_object-RefusedOr {P = ServiceDone} env service_kind
          (s.cluster.services rt.namespace (service_name rt)) (save_service env rt s)
          (λ e. inl (_, refl))
          (λ fresh.
            unless_err-RefusedOr {P = ServiceDone} (env.refuses (write_service (service_of rt)))
              (codes "creating Service") _ (inr (_, refl, rw fresh refl)))
          (λ old there.
            unless_err-RefusedOr {P = ServiceDone}
              (env.refuses (write_service (updated_service (service_of rt) old)))
              (codes "updating Service") _ (inr (_, refl, rw there refl))))

  abbrev pub DeploymentWritten : List Container → State → Type 0
  DeploymentWritten containers t =
      t
      ≡ store_deployment rt
          (over updated_deployment (deployment_of rt containers)
            (s.cluster.deployments rt.namespace rt.name))
          s

  abbrev pub DeploymentDone : State → Type 0
  DeploymentDone t =
      (containers : List Container) × (build_containers env.parser rt (port_of rt) ≡ ok containers)
      × DeploymentWritten containers t

  deploy-cases :
      (r : Result Str (List Container))
      → build_containers env.parser rt (port_of rt) ≡ r
      → RefusedOr s DeploymentDone (deploy env rt s r)
  deploy-cases (err e) h = inl (_, refl)
  deploy-cases (ok cs) h =
      unless_err-RefusedOr {P = DeploymentDone} (env.owner_err deployment_kind)
        (codes "setting owner reference on Deployment") _
        (get_object-RefusedOr {P = DeploymentDone} env deployment_kind
          (s.cluster.deployments rt.namespace rt.name)
          (save_deployment env rt (deployment_of rt cs) s) (λ e. inl (_, refl))
          (λ fresh.
            unless_err-RefusedOr {P = DeploymentDone}
              (env.refuses (write_deployment (deployment_of rt cs))) (codes "creating Deployment") _
              (inr (_, refl, (cs, h, rw fresh refl))))
          (λ old there.
            unless_err-RefusedOr {P = DeploymentDone}
              (env.refuses (write_deployment (updated_deployment (deployment_of rt cs) old)))
              (codes "updating Deployment") _ (inr (_, refl, (cs, h, rw there refl)))))

  pub deployment-cases : RefusedOr s DeploymentDone (reconcile_deployment env rt s)
  unfolding reconcile_deployment
  deployment-cases = deploy-cases (build_containers env.parser rt (port_of rt)) refl

  -- The version that the ScaledJob is sent with.
  abbrev pub JobDone : State → Type 0
  JobDone t =
      t
      ≡ store_scaled_job rt
          (scaled_job_of rt
            (if env.no_match then [] else version_of (s.cluster.scaled_jobs rt.namespace rt.name)))
          s

  write_job-Done :
      (context version : Str)
      → (if env.no_match then [] else version_of (s.cluster.scaled_jobs rt.namespace rt.name))
        ≡ version
      → RefusedOr s JobDone (write_job env rt context (scaled_job_of rt version) s)
  write_job-Done context version h =
      unless_err-RefusedOr {P = JobDone} (env.refuses (write_scaled_job (scaled_job_of rt version)))
        context _ (inr (_, refl, rw h refl))

  -- What follows the Get of the ScaledJob.
  get_scaled_job-RefusedOr :
      {P : State → Type 0} (next : Found ScaledJob → Outcome)
      → ((e : Str) → RefusedOr s P (next (get_failed e)))
      → (env.no_match ≡ true → RefusedOr s P (next no_match_error))
      → (env.no_match ≡ false
          → s.cluster.scaled_jobs rt.namespace rt.name ≡ none
          → RefusedOr s P (next not_found))
      → ((v : ScaledJob)
          → env.no_match ≡ false
          → s.cluster.scaled_jobs rt.namespace rt.name ≡ some v
          → RefusedOr s P (next (found v)))
      → RefusedOr s P (next (get_scaled_job env (s.cluster.scaled_jobs rt.namespace rt.name)))
  get_scaled_job-RefusedOr {P} next failing missing fresh there =
      let stored = s.cluster.scaled_jobs rt.namespace rt.name in
      let answer = get_object env scaled_job_kind stored in
      elim (Bool-cases env.no_match) [
        | inl e ↦
            subst (λ b. RefusedOr s P (next (if b then no_match_error else answer))) (sym e)
              (missing e)
        | inr e ↦
            subst (λ b. RefusedOr s P (next (if b then no_match_error else answer))) (sym e)
              (get_object-RefusedOr {P = P} env scaled_job_kind stored next failing (fresh e)
                (λ v. there v e))
      ]

  pub job-cases : RefusedOr s JobDone (reconcile_scaled_job env rt s)
  unfolding reconcile_scaled_job
  job-cases =
      unless_err-RefusedOr {P = JobDone} (env.owner_err scaled_job_kind)
        (codes "setting owner reference on ScaledJob") _
        (get_scaled_job-RefusedOr {P = JobDone} (save_scaled_job env rt s) (λ e. inl (_, refl))
          (λ missing. write_job-Done (codes "creating ScaledJob") [] (rw missing refl))
          (λ installed fresh.
            write_job-Done (codes "creating ScaledJob") [] (rw (installed, fresh) refl))
          (λ v installed there.
            write_job-Done (codes "updating ScaledJob") v.resource_version
              (rw (installed, there) refl)))

  delete_found-RefusedOr :
      {V : Type 0} {P : State → Type 0} (kind : Kind) (gone : State) (v : V)
      → P gone
      → RefusedOr s P (delete_found env kind gone s (found v))
  delete_found-RefusedOr {P = P} kind gone v h =
      elim (env.refuses (delete kind))
        as (λ r. RefusedOr s P (elim r [ some e ↦ (s, some e) | none ↦ (gone, none) ])) [
          | some e ↦ inl (e, refl)
          | none ↦ inr (gone, refl, h)
        ]

  abbrev pub without_deployment : State
  without_deployment = record s {
    cluster = record (s.cluster) {
      deployments = put rt.namespace rt.name none s.cluster.deployments;
    };
  }

  abbrev pub Undeployed : State → Type 0
  Undeployed t =
      ((t ≡ s) × (s.cluster.deployments rt.namespace rt.name ≡ none)) ⊎ (t ≡ without_deployment)

  pub undeploy-cases : RefusedOr s Undeployed (delete_deployment_if_exists env rt s)
  unfolding delete_deployment_if_exists
  undeploy-cases =
      get_object-RefusedOr {P = Undeployed} env deployment_kind
        (s.cluster.deployments rt.namespace rt.name)
        (delete_found env deployment_kind without_deployment s) (λ e. inl (e, refl))
        (λ fresh. inr (s, refl, inl (refl, fresh)))
        (λ old there.
          delete_found-RefusedOr {P = Undeployed} deployment_kind without_deployment old (inr refl))

  abbrev pub without_scaled_job : State
  without_scaled_job = record s {
    cluster = record (s.cluster) {
      scaled_jobs = put rt.namespace rt.name none s.cluster.scaled_jobs;
    };
  }

  abbrev pub Unscheduled : State → Type 0
  Unscheduled t =
      ((t ≡ s) × ((env.no_match ≡ true) ⊎ (s.cluster.scaled_jobs rt.namespace rt.name ≡ none)))
      ⊎ ((env.no_match ≡ false) × (t ≡ without_scaled_job))

  pub unschedule-cases : RefusedOr s Unscheduled (delete_scaled_job_if_exists env rt s)
  unfolding delete_scaled_job_if_exists
  unschedule-cases =
      get_scaled_job-RefusedOr {P = Unscheduled}
        (delete_found env scaled_job_kind without_scaled_job s) (λ e. inl (e, refl))
        (λ missing. inr (s, refl, inl (refl, inl missing)))
        (λ installed fresh. inr (s, refl, inl (refl, inr fresh)))
        (λ old installed there.
          delete_found-RefusedOr {P = Unscheduled} scaled_job_kind without_scaled_job old
            (inr (installed, refl)))
