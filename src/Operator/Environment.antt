-- ===== src/Operator/Environment.antt =====
-- operator/internal/controller/agentruntime_controller.go: the environment of the containers, built
-- once as unstructured values for a ScaledJob and once typed for a Deployment.
pub mod Decoded
use daedalus.Prelude.{
  sprint_int, ℕ, zero, suc, ◌+◌, ◌/◌, ◌%◌, ltb, Option, none, some, List, [], ◌∷◌, ◌++◌, map,
  if◌then◌else◌, Str, codes, is_empty,
}
use daedalus.Prelude.Int.{ℤ, pos, negsuc}
use daedalus.Operator.Types.{
  KeySelector, ValueSource, ValueRef, ContextManagementSpec, ResurrectionSpec, AgentRuntime,
}
use daedalus.Operator.Value.{Value, text, object, fields}

-- corev1.EnvVarSource, as far as the code sets it.
pub data EnvVarSource : Type 0 where
  secret_key_ref : KeySelector → EnvVarSource
  config_map_key_ref : KeySelector → EnvVarSource

pub record EnvVar : Type 0 where
  pub name : Str
  pub value : Str
  pub value_from : Option EnvVarSource

abbrev pub plain_var : Str → Str → EnvVar
plain_var name value = record { name = name; value = value; value_from = none }

abbrev pub plain_value : Str → Str → Value
plain_value name value =
    object (fields ((codes "name", text name) ∷ (codes "value", text value) ∷ []))

abbrev pub key_selector : KeySelector → Value
key_selector ref =
    object (fields ((codes "name", text ref.name) ∷ (codes "key", text ref.key) ∷ []))

abbrev pub source_value : Str → Str → KeySelector → Value
source_value name kind ref = object (
    fields (
      (codes "name", text name)
      ∷ (codes "valueFrom", object (fields ((kind, key_selector ref) ∷ [])))
      ∷ []))

-- One round of the loop of buildEnvVars; a source without a reference adds nothing.
unfoldable pub env_values : ValueRef → List Value
env_values v = elim v.value_from [
  | none ↦ plain_value v.name v.value ∷ []
  | some source ↦ elim source.secret_key_ref [
    | some ref ↦ source_value v.name (codes "secretKeyRef") ref ∷ []
    | none ↦ elim source.config_map_key_ref [
      | some ref ↦ source_value v.name (codes "configMapKeyRef") ref ∷ []
      | none ↦ []
    ]
  ]
]

unfoldable pub build_envs : List ValueRef → List Value
unfolding env_values
build_envs [] = []
build_envs (v ∷ vs) = env_values v ++ build_envs vs

-- buildEnvVars
abbrev pub build_env_vars : AgentRuntime → List Value
build_env_vars rt = build_envs rt.spec.env

-- One round of the loop of buildEnvVarsTyped.
unfoldable pub env_vars : ValueRef → List EnvVar
env_vars v = elim v.value_from [
  | none ↦ plain_var v.name v.value ∷ []
  | some source ↦ elim source.secret_key_ref [
    | some ref ↦
        record { name = v.name; value = []; value_from = some (EnvVarSource.secret_key_ref ref) }
        ∷ []
    | none ↦ elim source.config_map_key_ref [
      | some ref ↦
          record {
            name = v.name;
            value = [];
            value_from = some (EnvVarSource.config_map_key_ref ref);
          }
          ∷ []
      | none ↦ []
    ]
  ]
]

unfoldable pub build_envs_typed : List ValueRef → List EnvVar
unfolding env_vars
build_envs_typed [] = []
build_envs_typed (v ∷ vs) = env_vars v ++ build_envs_typed vs

-- buildEnvVarsTyped
abbrev pub build_env_vars_typed : AgentRuntime → List EnvVar
build_env_vars_typed rt = build_envs_typed rt.spec.env

abbrev pub compaction_interval_of : ContextManagementSpec → Str
compaction_interval_of cm =
    if is_empty cm.compaction_interval then codes "5m" else cm.compaction_interval

-- contextManagementEnvVars
unfoldable pub context_management_env_vars : AgentRuntime → List Value
unfolding sprint_int
context_management_env_vars rt = elim rt.spec.context_management [
  | none ↦ []
  | some cm ↦
      (plain_value (codes "CONTEXT_COMPACTION_INTERVAL") (compaction_interval_of cm)
        ∷ plain_value (codes "CONTEXT_TOKEN_THRESHOLD") (sprint_int cm.token_threshold)
        ∷ plain_value (codes "CONTEXT_EVENT_RETENTION_SIZE") (sprint_int cm.event_retention_size)
        ∷ plain_value (codes "CONTEXT_OVERLAP_SIZE") (sprint_int cm.overlap_size)
        ∷ [])
      ++ elim cm.resurrection [
        | none ↦ []
        | some r ↦
            plain_value (codes "CONTEXT_RESURRECTION_FULL_THRESHOLD") (sprint_int r.full_threshold)
            ∷ plain_value (codes "CONTEXT_RESURRECTION_CHECKPOINT_THRESHOLD")
                (sprint_int r.checkpoint_threshold)
            ∷ []
      ]
]

-- contextManagementEnvVarsTyped
unfoldable pub context_management_env_vars_typed : AgentRuntime → List EnvVar
unfolding sprint_int
context_management_env_vars_typed rt = elim rt.spec.context_management [
  | none ↦ []
  | some cm ↦
      (plain_var (codes "CONTEXT_COMPACTION_INTERVAL") (compaction_interval_of cm)
        ∷ plain_var (codes "CONTEXT_TOKEN_THRESHOLD") (sprint_int cm.token_threshold)
        ∷ plain_var (codes "CONTEXT_EVENT_RETENTION_SIZE") (sprint_int cm.event_retention_size)
        ∷ plain_var (codes "CONTEXT_OVERLAP_SIZE") (sprint_int cm.overlap_size)
        ∷ [])
      ++ elim cm.resurrection [
        | none ↦ []
        | some r ↦
            plain_var (codes "CONTEXT_RESURRECTION_FULL_THRESHOLD") (sprint_int r.full_threshold)
            ∷ plain_var (codes "CONTEXT_RESURRECTION_CHECKPOINT_THRESHOLD")
                (sprint_int r.checkpoint_threshold)
            ∷ []
      ]
]
