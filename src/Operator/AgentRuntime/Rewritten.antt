-- ===== src/Operator/AgentRuntime/Rewritten.antt =====
-- What operator/internal/controller/agentruntime_controller.go writes over what it wrote before.
use daedalus.Prelude.{
  ◌≡◌, refl, sym, ap, ◌∙◌, ◌⊎◌, inl, inr, Bool, true, false, Option, none, some, [], ◌&&◌, arith,
  if◌then◌else◌, Str, str_eq, str_eq_iff, ok, Bool-cases,
}
use daedalus.Prelude.Int.{ℤ}
use daedalus.Operator.Types.{AgentRuntime, AgentRuntimeStatus}
use daedalus.Operator.Resources.{Parser}
use daedalus.Operator.Environment.{context_management_env_vars, context_management_env_vars_typed}
use daedalus.Operator.Workload.{build_scaled_job, build_containers, registry_entry}
use daedalus.Operator.Cluster.{ConfigMap, Service, Deployment, ScaledJob, Objects, Env, State, put}
use daedalus.Operator.Children.{
  config_map_name, config_map_of, updated_config_map, service_name, service_of, updated_service,
}
use daedalus.Operator.Scaling.{updated_deployment, scaled_job_of}
use daedalus.Operator.AgentRuntime.Steps.{over, version_of, Undeployed, Unscheduled}
use daedalus.Operator.AgentRuntime.Succeeds.{ChildrenDone}
use daedalus.Operator.AgentRuntime.Settled.{put_self, workload-part}

-- The same object under each key.
abbrev pub Same : {V : Type 0} → Objects V → Objects V → Type 0
Same m m' = (a b : Str) → m' a b ≡ m a b

-- To write what is stored changes nothing.
put_again :
    {V : Type 0} (ns n : Str) (v : Option V) (m : Objects V) → m ns n ≡ v → Same m (put ns n v m)
unfolding put
put_again ns n v m there a b = elim (Bool-cases (str_eq ns a && str_eq n b)) [
  | inr other ↦ rw other refl
  | inl same ↦
      let e : ns ≡ a = (str_eq_iff ns a).0 (ground arith) in
      let q : n ≡ b = (str_eq_iff n b).0 (ground arith) in
      rw same (sym there ∙ ap (λ x. m x n) e ∙ ap (m a) q)
]

-- Two writes of one object over what is stored under a key, the second where the first ended.
module _ {V : Type 0} (update : V → V → V) (ns n : Str) where
  -- Written over the object it wrote before, an update of this kind leaves that object.
  abbrev pub Idempotent : V → Type 0
  Idempotent d = (stored : Option V) → update d (over update d stored) ≡ over update d stored

  abbrev pub write_over : V → Objects V → Objects V
  write_over d m = put ns n (some (over update d (m ns n))) m

  pub written_again :
      (d d' : V) (m m1 m1' m2 : Objects V)
      → Idempotent d
      → d' ≡ d
      → m1 ≡ write_over d m
      → m1' ≡ m1
      → m2 ≡ write_over d' m1'
      → Same m1 m2
  written_again d d' m m1 m1' m2 again equal first same second a b =
      let there : m1 ns n ≡ some (over update d (m ns n)) =
        ap (λ x. x ns n) first ∙ put_self ns n _ m in
      ap (λ x. x a b) (second ∙ ap (λ x. write_over x m1') equal ∙ ap (write_over d) same)
      ∙ put_again ns n _ m1
          (there ∙ ap some (sym (again (m ns n))) ∙ ap (λ x. some (over update d x)) (sym there)) a
          b

pub config_map-Idempotent : (d : ConfigMap) (ns n : Str) → Idempotent updated_config_map ns n d
config_map-Idempotent d ns n none = refl
config_map-Idempotent d ns n (some m) = refl

pub service-Idempotent : (d : Service) (ns n : Str) → Idempotent updated_service ns n d
service-Idempotent d ns n none = refl
service-Idempotent d ns n (some m) = refl

pub deployment-Idempotent : (d : Deployment) (ns n : Str) → Idempotent updated_deployment ns n d
deployment-Idempotent d ns n none = refl
deployment-Idempotent d ns n (some m) = refl

-- The runtime with another status: what is built of it is the same.
module _ (rt : AgentRuntime) (status : AgentRuntimeStatus) where
  abbrev pub restated : AgentRuntime
  restated = record rt { status = status }

  pub registry_entry-restated : registry_entry restated ≡ registry_entry rt
  unfolding registry_entry
  registry_entry-restated = refl

  build_scaled_job-restated : build_scaled_job restated rt.name ≡ build_scaled_job rt rt.name
  unfolding build_scaled_job context_management_env_vars
  build_scaled_job-restated = refl

  pub build_containers-restated :
      (parser : Parser) (port : ℤ)
      → build_containers parser restated port ≡ build_containers parser rt port
  unfolding build_containers context_management_env_vars_typed
  build_containers-restated parser port = refl

-- What the steps before the workload write.
module _ (env : Env) (rt : AgentRuntime) {s t : State} (done : ChildrenDone env rt s t) where
  open done use {mapped, served, config_map, service, workload}

  pub config_maps-Written :
      (json : Str) × (env.marshal (registry_entry rt) ≡ ok json)
      × (t.cluster.config_maps
          ≡ write_over updated_config_map rt.namespace
              (config_map_name rt)
              (config_map_of rt json)
              s.cluster.config_maps)
  config_maps-Written =
      let (json, encoded, written) = config_map in
      (
        json,
        encoded,
        workload-part (λ c. c.config_maps) (λ c ds js. refl) env rt workload
            ∙ ap (λ x. x.cluster.config_maps) service
            ∙ ap (λ x. x.cluster.config_maps) written,
      )

  pub services-Written :
      t.cluster.services
      ≡ write_over updated_service rt.namespace (service_name rt) (service_of rt) s.cluster.services
  services-Written =
      workload-part (λ c. c.services) (λ c ds js. refl) env rt workload
      ∙ ap (λ x. x.cluster.services) service
      ∙ ap
          (λ x.
            write_over updated_service rt.namespace (service_name rt) (service_of rt)
              x.cluster.services)
          config_map.2

  pub deployments-kept : served.cluster.deployments ≡ s.cluster.deployments
  deployments-kept =
      ap (λ x. x.cluster.deployments) service ∙ ap (λ x. x.cluster.deployments) config_map.2

  pub scaled_jobs-kept : served.cluster.scaled_jobs ≡ s.cluster.scaled_jobs
  scaled_jobs-kept =
      ap (λ x. x.cluster.scaled_jobs) service ∙ ap (λ x. x.cluster.scaled_jobs) config_map.2

-- What the removal of the other workload does to the Deployments and the ScaledJobs.
abbrev pub KeptOrGone : AgentRuntime → {V : Type 0} → Objects V → Objects V → Type 0
KeptOrGone rt m u = (u ≡ m) ⊎ (u ≡ put rt.namespace rt.name none m)

module _ (env : Env) (rt : AgentRuntime) (s : State) where
  pub Undeployed-parts :
      {u : State}
      → Undeployed env rt s u
      → KeptOrGone rt s.cluster.deployments u.cluster.deployments
        × (u.cluster.scaled_jobs ≡ s.cluster.scaled_jobs)
  Undeployed-parts (inl (same, _)) =
      (inl (ap (λ x. x.cluster.deployments) same), ap (λ x. x.cluster.scaled_jobs) same)
  Undeployed-parts (inr gone) =
      (inr (ap (λ x. x.cluster.deployments) gone), ap (λ x. x.cluster.scaled_jobs) gone)

  pub Unscheduled-parts :
      {u : State}
      → Unscheduled env rt s u
      → ((u.cluster.scaled_jobs ≡ s.cluster.scaled_jobs)
          ⊎ ((env.no_match ≡ false)
              × (u.cluster.scaled_jobs ≡ put rt.namespace rt.name none s.cluster.scaled_jobs)))
        × (u.cluster.deployments ≡ s.cluster.deployments)
  Unscheduled-parts (inl (same, _)) =
      (inl (ap (λ x. x.cluster.scaled_jobs) same), ap (λ x. x.cluster.deployments) same)
  Unscheduled-parts (inr (installed, gone)) =
      (inr (installed, ap (λ x. x.cluster.scaled_jobs) gone), ap (λ x. x.cluster.deployments) gone)

pub gone_again :
    (rt : AgentRuntime) {V : Type 0} (m m' u : Objects V)
    → m' ≡ m
    → m rt.namespace rt.name ≡ none
    → KeptOrGone rt m' u
    → Same m u
gone_again rt m m' u same fresh (inl kept) a b = ap (λ x. x a b) (kept ∙ same)
gone_again rt m m' u same fresh (inr gone) a b =
    ap (λ x. x a b) (gone ∙ ap (put rt.namespace rt.name none) same)
    ∙ put_again rt.namespace rt.name none m fresh a b

-- The same, with the version the ScaledJob is written with.
module _ (env : Env) (rt : AgentRuntime) where
  pub jobs_gone_again :
      (s t s' u : State)
      → s'.cluster.scaled_jobs ≡ t.cluster.scaled_jobs
      → ((u.cluster.scaled_jobs ≡ s'.cluster.scaled_jobs)
          ⊎ ((env.no_match ≡ false)
              × (u.cluster.scaled_jobs ≡ put rt.namespace rt.name none s'.cluster.scaled_jobs)))
      → (env.no_match ≡ false → t.cluster.scaled_jobs rt.namespace rt.name ≡ none)
      → Same t.cluster.scaled_jobs u.cluster.scaled_jobs
  jobs_gone_again s t s' u same (inl kept) fresh a b = ap (λ x. x a b) (kept ∙ same)
  jobs_gone_again s t s' u same (inr (installed, gone)) fresh a b =
      gone_again rt t.cluster.scaled_jobs s'.cluster.scaled_jobs u.cluster.scaled_jobs same
        (fresh installed) (inr gone) a b

  abbrev pub version_in : Objects ScaledJob → Str
  version_in m = if env.no_match then [] else version_of (m rt.namespace rt.name)

  abbrev pub with_job : Objects ScaledJob → Objects ScaledJob
  with_job m = put rt.namespace rt.name (some (scaled_job_of rt (version_in m))) m

  version_again :
      (m : Objects ScaledJob) (b : Bool) → env.no_match ≡ b → version_in (with_job m) ≡ version_in m
  version_again m true missing = rw missing refl
  version_again m false installed = rw installed (ap version_of (put_self rt.namespace rt.name _ m))

  pub job_again :
      (m m1 m1' m2 : Objects ScaledJob)
      → m1 ≡ with_job m
      → m1' ≡ m1
      → m2 ≡ with_job m1'
      → Same m1 m2
  job_again m m1 m1' m2 first same second a b =
      ap (λ x. x a b) (second ∙ ap with_job same)
      ∙ put_again rt.namespace rt.name _ m1
          (ap (λ x. x rt.namespace rt.name) first
            ∙ put_self rt.namespace rt.name _ m
            ∙ ap (λ v. some (scaled_job_of rt v))
                (sym (ap version_in first ∙ version_again m env.no_match refl)))
          a b
