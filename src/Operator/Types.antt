-- ===== src/Operator/Types.antt =====
-- operator/api/v1alpha1: the records that the controllers read and write. A nil pointer is none; an
-- int32 or int64 is an integer, in the range that the API server lets in. allowedNamespaces, which no
-- code reads, is left out.
use daedalus.Prelude.{ℕ, Bool, Option, List, Str, Map}
use daedalus.Prelude.Int.{ℤ}

pub record TypedReference : Type 0 where
  pub kind : Str
  pub api_group : Str
  pub name : Str
  pub namespace : Str

pub record KeySelector : Type 0 where
  pub name : Str
  pub key : Str

pub record ValueSource : Type 0 where
  pub config_map_key_ref : Option KeySelector
  pub secret_key_ref : Option KeySelector

pub record ValueRef : Type 0 where
  pub name : Str
  pub value : Str
  pub value_from : Option ValueSource

pub record SingleValueRef : Type 0 where
  pub value : Str
  pub value_from : Option ValueSource

-- metav1.Condition without the time of its last transition.
pub record Condition : Type 0 where
  pub kind : Str
  pub status : Bool
  pub observed_generation : ℕ
  pub reason : Str
  pub message : Str

pub record ResourceQuantity : Type 0 where
  pub cpu : Str
  pub memory : Str

pub record ResourceSpec : Type 0 where
  pub requests : Option ResourceQuantity
  pub limits : Option ResourceQuantity

pub record ContainerSpec : Type 0 where
  pub image : Str
  pub port : ℤ
  pub work_dir : Str
  pub resources : Option ResourceSpec
  pub image_pull_policy : Str
  pub image_pull_secrets : List Str
  pub startup_timeout : Str
  pub termination_grace_period : Str

pub record QueueBinding : Type 0 where
  pub subject : Str
  pub stream : Str
  pub durable_name : Str

pub record KedaSpec : Type 0 where
  pub polling_interval : ℤ
  pub max_replica_count : ℤ
  pub active_deadline_seconds : ℤ
  pub backoff_limit : ℤ
  pub lag_threshold : Str
  pub activation_lag_threshold : Str
  pub nats_monitoring_endpoint : Str

pub record ScalingSpec : Type 0 where
  pub mode : Str
  pub replicas : Option ℤ
  pub keda : Option KedaSpec

pub record ResurrectionSpec : Type 0 where
  pub full_threshold : ℤ
  pub checkpoint_threshold : ℤ

pub record ContextManagementSpec : Type 0 where
  pub compaction_interval : Str
  pub token_threshold : ℤ
  pub event_retention_size : ℤ
  pub summarizer : Option TypedReference
  pub overlap_size : ℤ
  pub resurrection : Option ResurrectionSpec

pub record SkillSpec : Type 0 where
  pub id : Str
  pub name : Str
  pub description : Str
  pub tags : List Str
  pub examples : List Str

pub record CapabilitiesSpec : Type 0 where
  pub streaming : Bool
  pub push_notifications : Bool

pub record AgentCardInline : Type 0 where
  pub name : Str
  pub description : Str
  pub version : Str
  pub skills : List SkillSpec
  pub default_input_modes : List Str
  pub default_output_modes : List Str
  pub capabilities : Option CapabilitiesSpec

pub record AgentRuntimeSpec : Type 0 where
  pub runtime_type : Str
  pub conformance_level : Str
  pub container : ContainerSpec
  pub queue : QueueBinding
  pub scaling : Option ScalingSpec
  pub agent_card : Option AgentCardInline
  pub agent_card_ref : Option TypedReference
  pub model_config_ref : Option TypedReference
  pub mcp_servers : List TypedReference
  pub context_management : Option ContextManagementSpec
  pub env : List ValueRef

-- What a controller writes of the status; the usage metrics are the proxy's.
pub record AgentRuntimeStatus : Type 0 where
  pub conditions : List Condition
  pub observed_generation : ℕ
  pub scaled_job_name : Str
  pub config_map_name : Str
  pub service_name : Str

pub record AgentRuntime : Type 0 where
  pub namespace : Str
  pub name : Str
  pub generation : ℕ
  pub annotations : Map Str
  pub spec : AgentRuntimeSpec
  pub status : AgentRuntimeStatus
