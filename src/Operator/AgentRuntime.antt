-- ===== src/Operator/AgentRuntime.antt =====
-- operator/internal/controller/agentruntime_controller.go: one Reconcile, from the request to the
-- status.
pub mod Steps
pub mod Succeeds
pub mod Settled
pub mod Elsewhere
pub mod Exclusive
pub mod Conditions
pub mod Rewritten
pub mod Repeated
mod Samples
use daedalus.Prelude.{
  ℕ, Bool, true, false, ◌&&◌, Option, none, some, List, [], ◌∷◌, ◌++◌, if◌then◌else◌, Str, codes,
  str_eq, is_empty, Map, Result, ok, err,
}
use daedalus.Prelude.Int.{ℤ, pos}
use daedalus.Operator.Types.{Condition, AgentRuntimeStatus, AgentRuntime}
use daedalus.Operator.Value.{Value}
use daedalus.Operator.Resources.{Parser}
use daedalus.Operator.Workload.{
  Container, RegistryEntry, port_of, child_labels, build_scaled_job, build_containers,
  registry_entry,
}
use daedalus.Operator.Cluster.{
  Found, ObjectMeta, ConfigMap, Service, Deployment, ScaledJob, Objects, put, Cluster, Kind, Call,
  Env, Found, get_object, get_scaled_job, State, Outcome, failed, unless_err, owned_meta, and_then,
  labelled, runtime_kind, config_map_kind, service_kind, deployment_kind, scaled_job_kind, get,
  delete, write_config_map, write_service, write_deployment, write_scaled_job, update_status,
  not_found, no_match_error, get_failed, found,
}
use daedalus.Operator.Children.{
  store_config_map, config_map_of, updated_config_map, reconcile_config_map, store_service,
  service_of, updated_service, reconcile_service,
}
use daedalus.Operator.Scaling.{
  delete_found, delete_deployment_if_exists, delete_scaled_job_if_exists, store_scaled_job,
  scaled_job_of, write_job, reconcile_scaled_job, replicas_of, deployment_of, updated_deployment,
  store_deployment, write_workload, reconcile_deployment, mode_of, reconcile_workload,
}

-- The three child resources, up to the first error.
unfoldable pub reconcile_children : Env → AgentRuntime → State → Outcome
unfolding reconcile_config_map reconcile_service reconcile_workload
reconcile_children env rt s =
    and_then (λ s'. labelled (codes "reconciling workload") (reconcile_workload env rt s'))
      (and_then (λ s'. labelled (codes "reconciling Service") (reconcile_service env rt s'))
        (labelled (codes "reconciling ConfigMap") (reconcile_config_map env rt s)))

abbrev pub condition_of : AgentRuntime → Str → Bool → Str → Str → Condition
condition_of rt kind status reason message = record {
  kind = kind;
  status = status;
  observed_generation = rt.generation;
  reason = reason;
  message = message;
}

-- The condition at the start.
abbrev pub progressing : Env → AgentRuntime → AgentRuntimeStatus
progressing env rt = record (rt.status) {
  conditions =
      env.set_status_condition
        (condition_of rt (codes "Progressing") true (codes "Reconciling")
          (codes "Reconciliation in progress"))
        rt.status.conditions;
}

-- The status at the end, by the error of the children.
unfoldable pub final_conditions : Env → AgentRuntime → Option Str → List Condition → List Condition
final_conditions env rt (some e) cs =
    env.set_status_condition
      (condition_of rt (codes "Progressing") false (codes "ReconcileFailed") e)
      (env.set_status_condition
        (condition_of rt (codes "Available") false (codes "ReconcileError") e)
        (env.set_status_condition
          (condition_of rt (codes "Degraded") true (codes "ReconcileError") e) cs))
final_conditions env rt none cs =
    env.set_status_condition
      (condition_of rt (codes "Progressing") false (codes "ReconcileComplete")
        (codes "Reconciliation complete"))
      (env.set_status_condition
        (condition_of rt (codes "Degraded") false (codes "ReconcileSuccess")
          (codes "All child resources reconciled successfully"))
        (env.set_status_condition
          (condition_of rt (codes "Available") true (codes "ReconcileSuccess")
            (codes "All child resources reconciled successfully"))
          cs))

abbrev pub final_status : Env → AgentRuntime → Option Str → AgentRuntimeStatus → AgentRuntimeStatus
final_status env rt e status = record status {
  observed_generation = rt.generation;
  conditions = final_conditions env rt e status.conditions;
}

abbrev pub with_final_status : Env → Option Str → AgentRuntime → State → AgentRuntime
with_final_status env e rt s = record rt { status = final_status env rt e s.status }

-- What follows the update of the status: its error, or that of the children.
abbrev pub persisted : AgentRuntime → Option Str → State → Option Str → Cluster × Option Str
persisted rt e s (some bad) = (s.cluster, some (codes "updating status: " ++ bad))
persisted rt e s none =
    (record (s.cluster) { runtimes = put rt.namespace rt.name (some rt) s.cluster.runtimes }, e)

-- Status().Update
abbrev pub persist : Env → AgentRuntime → Outcome → Cluster × Option Str
persist env rt (s, e) =
    persisted (with_final_status env e rt s) e s
      (env.refuses (update_status (with_final_status env e rt s)))

unfoldable pub reconcile_runtime : Env → AgentRuntime → Cluster → Cluster × Option Str
unfolding put reconcile_children final_conditions
reconcile_runtime env rt c =
    persist env rt (reconcile_children env rt (record { cluster = c; status = progressing env rt }))

-- What follows the Get.
abbrev pub reconcile_found : Env → Cluster → Found AgentRuntime → Cluster × Option Str
reconcile_found env c not_found = (c, none)
reconcile_found env c no_match_error = (c, some (codes "fetching AgentRuntime: no match"))
reconcile_found env c (get_failed e) = (c, some (codes "fetching AgentRuntime: " ++ e))
reconcile_found env c (found rt) = reconcile_runtime env rt c

-- Reconcile of a request, which is a namespace and a name.
unfoldable pub reconcile : Env → Str → Str → Cluster → Cluster × Option Str
unfolding reconcile_runtime
reconcile env namespace name c =
    reconcile_found env c (get_object env runtime_kind (c.runtimes namespace name))
