-- ===== src/Operator/Cluster.antt =====
-- What operator/internal/controller/agentruntime_controller.go reads and writes through the API server:
-- its objects by kind, namespace and name. The answers of the server, the owner references, apimeta's
-- conditions and the encoders are the parameter Env.
use daedalus.Prelude.{
  Bool, ◌&&◌, Option, none, some, List, [], ◌∷◌, ◌++◌, if◌then◌else◌, Str, codes, str_eq, Map,
  Result,
}
use daedalus.Prelude.Int.{ℤ}
use daedalus.Operator.Types.{Condition, AgentRuntimeStatus, AgentRuntime}
use daedalus.Operator.Value.{Value}
use daedalus.Operator.Resources.{Parser}
use daedalus.Operator.Workload.{Container, RegistryEntry, child_labels}

-- The metadata that the controller writes; `owners` are the names of owner references.
pub record ObjectMeta : Type 0 where
  pub name : Str
  pub namespace : Str
  pub labels : Map Str
  pub owners : List Str

pub record ConfigMap : Type 0 where
  pub meta : ObjectMeta
  pub contents : Map Str
  pub binary_data : Map Str

-- The one port, with its target, is named a2a.
pub record Service : Type 0 where
  pub meta : ObjectMeta
  pub service_type : Str
  pub selector : Map Str
  pub port : ℤ

pub record Deployment : Type 0 where
  pub meta : ObjectMeta
  pub replicas : ℤ
  pub selector : Map Str
  pub template_labels : Map Str
  pub containers : List Container
  pub image_pull_secrets : List Str

-- The unstructured object, but for its owner references and its resource version.
pub record ScaledJob : Type 0 where
  pub content : Value
  pub owners : List Str
  pub resource_version : Str

-- Objects of one kind by namespace and name.
abbrev pub Objects : Type 0 → Type 0
Objects V = Str → Str → Option V

unfoldable pub put : {V : Type 0} → Str → Str → Option V → Objects V → Objects V
unfolding str_eq
put namespace name v m ns n = if str_eq namespace ns && str_eq name n then v else m ns n

pub record Cluster : Type 0 where
  pub runtimes : Objects AgentRuntime
  pub config_maps : Objects ConfigMap
  pub services : Objects Service
  pub deployments : Objects Deployment
  pub scaled_jobs : Objects ScaledJob

pub data Kind : Type 0 where
  runtime_kind config_map_kind service_kind deployment_kind scaled_job_kind : Kind

-- The calls of the API server with what they send.
pub data Call : Type 0 where
  get : Kind → Call
  delete : Kind → Call
  write_config_map : ConfigMap → Call
  write_service : Service → Call
  write_deployment : Deployment → Call
  write_scaled_job : ScaledJob → Call
  update_status : AgentRuntime → Call

pub record Env : Type 0 where
  -- The error of a call, if it fails otherwise than by NotFound and NoMatch.
  pub refuses : Call → Option Str
  -- No resource type of that kind: the definition of KEDA's ScaledJob is not installed.
  pub no_match : Bool
  -- SetControllerReference on a new object.
  pub owner_err : Kind → Option Str
  -- json.MarshalIndent
  pub marshal : RegistryEntry → Result Str Str
  pub parser : Parser
  pub set_status_condition : Condition → List Condition → List Condition

-- What a Get answers.
pub data Found (V : Type 0) : Type 0 where
  not_found : Found V
  no_match_error : Found V
  get_failed : Str → Found V
  found : V → Found V

abbrev pub get_object : {V : Type 0} → Env → Kind → Option V → Found V
get_object env kind stored = elim (env.refuses (get kind)) [
  | some e ↦ get_failed e
  | none ↦ elim stored [ none ↦ not_found | some v ↦ found v ]
]

abbrev pub get_scaled_job : Env → Option ScaledJob → Found ScaledJob
get_scaled_job env stored =
    if env.no_match then no_match_error else get_object env scaled_job_kind stored

-- The server's objects and the status in the controller's copy.
pub record State : Type 0 where
  pub cluster : Cluster
  pub status : AgentRuntimeStatus

-- An error, or none for nil, with the state afterwards.
abbrev pub Outcome : Type 0
Outcome = State × Option Str

abbrev pub failed : Str → Str → State → Outcome
failed context e s = (s, some (context ++ codes ": " ++ e))

-- `if err := check; err != nil { return fmt.Errorf(context, err) }`, then the rest.
abbrev pub unless_err : Option Str → Str → Outcome → State → Outcome
unless_err e context rest s = elim e [ some bad ↦ failed context bad s | none ↦ rest ]

abbrev pub owned_meta : AgentRuntime → Str → ObjectMeta
owned_meta rt name = record {
  name = name;
  namespace = rt.namespace;
  labels = child_labels rt;
  owners = rt.name ∷ [];
}

-- The second step, if the first returned no error.
abbrev pub and_then : (State → Outcome) → Outcome → Outcome
and_then next (s, none) = next s
and_then next (s, some e) = (s, some e)

abbrev pub labelled : Str → Outcome → Outcome
labelled context (s, none) = (s, none)
labelled context (s, some e) = failed context e s
