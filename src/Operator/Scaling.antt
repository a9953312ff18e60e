-- ===== src/Operator/Scaling.antt =====
-- operator/internal/controller/agentruntime_controller.go: reconcileWorkload, a ScaledJob or a
-- Deployment by the scaling mode.
use daedalus.Prelude.{
  Result, none, some, List, [], ◌∷◌, ◌++◌, if◌then◌else◌, Str, codes, str_eq, is_empty, ok, err,
}
use daedalus.Prelude.Int.{ℤ, pos}
use daedalus.Operator.Types.{AgentRuntime}
use daedalus.Operator.Workload.{
  Container, port_of, child_labels, build_scaled_job, build_containers,
}
use daedalus.Operator.Cluster.{
  Deployment, ScaledJob, put, Kind, Env, Found, get_object, get_scaled_job, State, Outcome, failed,
  unless_err, owned_meta, and_then, deployment_kind, scaled_job_kind, delete, write_deployment,
  write_scaled_job, not_found, no_match_error, get_failed, found,
}

-- A Delete of what is there; without the object, nothing is called.
abbrev pub delete_found : {V : Type 0} → Env → Kind → State → State → Found V → Outcome
delete_found env kind gone s not_found = (s, none)
delete_found env kind gone s no_match_error = (s, none)
delete_found env kind gone s (get_failed e) = (s, some e)
delete_found env kind gone s (found v) = elim (env.refuses (delete kind)) [
  | some e ↦ (s, some e)
  | none ↦ (gone, none)
]

-- deleteDeploymentIfExists
unfoldable pub delete_deployment_if_exists : Env → AgentRuntime → State → Outcome
unfolding put
delete_deployment_if_exists env rt s =
    let m = s.cluster.deployments in
    delete_found env deployment_kind
      (record s { cluster = record (s.cluster) { deployments = put rt.namespace rt.name none m } })
      s (get_object env deployment_kind (m rt.namespace rt.name))

-- deleteScaledJobIfExists
unfoldable pub delete_scaled_job_if_exists : Env → AgentRuntime → State → Outcome
unfolding put
delete_scaled_job_if_exists env rt s =
    let m = s.cluster.scaled_jobs in
    delete_found env scaled_job_kind
      (record s { cluster = record (s.cluster) { scaled_jobs = put rt.namespace rt.name none m } })
      s (get_scaled_job env (m rt.namespace rt.name))

abbrev pub store_scaled_job : AgentRuntime → ScaledJob → State → State
store_scaled_job rt j s = record {
  cluster = record (s.cluster) {
    scaled_jobs = put rt.namespace rt.name (some j) s.cluster.scaled_jobs;
  };
  status = record (s.status) { scaled_job_name = rt.name };
}

abbrev pub scaled_job_of : AgentRuntime → Str → ScaledJob
scaled_job_of rt version = record {
  content = build_scaled_job rt rt.name;
  owners = rt.name ∷ [];
  resource_version = version;
}

abbrev pub write_job : Env → AgentRuntime → Str → ScaledJob → State → Outcome
write_job env rt context j s =
    unless_err (env.refuses (write_scaled_job j)) context (store_scaled_job rt j s, none) s

-- What follows the Get.
abbrev pub save_scaled_job : Env → AgentRuntime → State → Found ScaledJob → Outcome
save_scaled_job env rt s not_found =
    write_job env rt (codes "creating ScaledJob") (scaled_job_of rt []) s
save_scaled_job env rt s no_match_error =
    write_job env rt (codes "creating ScaledJob") (scaled_job_of rt []) s
save_scaled_job env rt s (get_failed e) = failed (codes "getting ScaledJob") e s
save_scaled_job env rt s (found existing) =
    write_job env rt (codes "updating ScaledJob") (scaled_job_of rt existing.resource_version) s

-- reconcileScaledJob
unfoldable pub reconcile_scaled_job : Env → AgentRuntime → State → Outcome
unfolding put build_scaled_job
reconcile_scaled_job env rt s =
    unless_err (env.owner_err scaled_job_kind) (codes "setting owner reference on ScaledJob")
      (save_scaled_job env rt s (get_scaled_job env (s.cluster.scaled_jobs rt.namespace rt.name))) s

abbrev pub replicas_of : AgentRuntime → ℤ
replicas_of rt = elim rt.spec.scaling [
  | none ↦ pos 1
  | some scaling ↦ elim scaling.replicas [ none ↦ pos 1 | some n ↦ n ]
]

abbrev pub deployment_of : AgentRuntime → List Container → Deployment
deployment_of rt containers = record {
  meta = owned_meta rt rt.name;
  replicas = replicas_of rt;
  selector = child_labels rt;
  template_labels = child_labels rt;
  containers = containers;
  image_pull_secrets = rt.spec.container.image_pull_secrets;
}

abbrev pub updated_deployment : Deployment → Deployment → Deployment
updated_deployment desired existing = record desired {
  meta = record (existing.meta) { labels = desired.meta.labels };
}

abbrev pub store_deployment : AgentRuntime → Deployment → State → State
store_deployment rt d s = record {
  cluster = record (s.cluster) {
    deployments = put rt.namespace rt.name (some d) s.cluster.deployments;
  };
  status = record (s.status) { scaled_job_name = [] };
}

abbrev pub write_workload : Env → AgentRuntime → Str → Deployment → State → Outcome
write_workload env rt context d s =
    unless_err (env.refuses (write_deployment d)) context (store_deployment rt d s, none) s

-- What follows the Get.
abbrev pub save_deployment : Env → AgentRuntime → Deployment → State → Found Deployment → Outcome
save_deployment env rt desired s not_found =
    write_workload env rt (codes "creating Deployment") desired s
save_deployment env rt desired s no_match_error =
    failed (codes "getting Deployment") (codes "no match") s
save_deployment env rt desired s (get_failed e) = failed (codes "getting Deployment") e s
save_deployment env rt desired s (found existing) =
    write_workload env rt (codes "updating Deployment") (updated_deployment desired existing) s

-- What follows buildContainers.
abbrev pub deploy : Env → AgentRuntime → State → Result Str (List Container) → Outcome
deploy env rt s (err e) = failed (codes "building containers") e s
deploy env rt s (ok containers) =
    unless_err (env.owner_err deployment_kind) (codes "setting owner reference on Deployment")
      (save_deployment env rt (deployment_of rt containers) s
        (get_object env deployment_kind (s.cluster.deployments rt.namespace rt.name)))
      s

-- reconcileDeployment
unfoldable pub reconcile_deployment : Env → AgentRuntime → State → Outcome
unfolding put build_containers
reconcile_deployment env rt s = deploy env rt s (build_containers env.parser rt (port_of rt))

abbrev pub mode_of : AgentRuntime → Str
mode_of rt = elim rt.spec.scaling [
  | none ↦ codes "ScaledJob"
  | some scaling ↦ if is_empty scaling.mode then codes "ScaledJob" else scaling.mode
]

-- reconcileWorkload
unfoldable pub reconcile_workload : Env → AgentRuntime → State → Outcome
unfolding delete_deployment_if_exists delete_scaled_job_if_exists reconcile_scaled_job
    reconcile_deployment
reconcile_workload env rt s =
    if str_eq (mode_of rt) (codes "ScaledJob")
    then and_then (reconcile_scaled_job env rt) (delete_deployment_if_exists env rt s)
    else if str_eq (mode_of rt) (codes "Static")
    then and_then (reconcile_deployment env rt) (delete_scaled_job_if_exists env rt s)
    else (s, some (codes "unsupported scaling mode: " ++ mode_of rt))
