-- ===== src/Operator/Workload.antt =====
-- operator/internal/controller/agentruntime_controller.go: the objects that are built for a runtime.
mod Decoded
mod Samples
use daedalus.Prelude.{
  sprint_int, Bool, Option, none, some, List, [], ◌∷◌, ◌++◌, map, if◌then◌else◌, is_nil, Str, codes,
  is_empty, Map, Result, ok, err,
}
use daedalus.Prelude.Int.{ℤ, pos, lt_ℤ, is_zero}
use daedalus.Operator.Types.{
  ContainerSpec, KedaSpec, ScalingSpec, AgentCardInline, ContextManagementSpec, AgentRuntime,
}
use daedalus.Operator.Value.{Value, text, int, items, object, values, fields, string_fields}
use daedalus.Operator.Environment.{
  EnvVar, plain_var, plain_value, build_env_vars, build_env_vars_typed, context_management_env_vars,
  context_management_env_vars_typed,
}
use daedalus.Operator.Resources.{
  Parser, ResourceRequirements, build_resource_requirements, build_resource_requirements_typed,
}

abbrev pub proxy_image : Str
proxy_image = codes "ghcr.io/raykao/daedalus-proxy:latest"

-- `port := rt.Spec.Container.Port; if port == 0 { port = 8080 }`
abbrev pub port_of : AgentRuntime → ℤ
port_of rt = if is_zero rt.spec.container.port then pos 8080 else rt.spec.container.port

-- childLabels
abbrev pub child_labels : AgentRuntime → Map Str
child_labels rt =
    (codes "app.kubernetes.io/name", codes "agentruntime")
    ∷ (codes "app.kubernetes.io/instance", rt.name)
    ∷ (codes "app.kubernetes.io/managed-by", codes "daedalus-operator")
    ∷ []

-- childLabelsMap
abbrev pub child_labels_map : AgentRuntime → Value
child_labels_map rt = object (string_fields (child_labels rt))

-- queueStream
abbrev pub queue_stream : AgentRuntime → Str
queue_stream rt =
    if is_empty rt.spec.queue.stream then codes "AGENT_TASKS" else rt.spec.queue.stream

abbrev pub keda_of : AgentRuntime → Option KedaSpec
keda_of rt = elim rt.spec.scaling [ none ↦ none | some scaling ↦ scaling.keda ]

abbrev pub or_default : Str → Str → Str
or_default fallback s = if is_empty s then fallback else s

-- natsMonitoringEndpoint
unfoldable pub nats_monitoring_endpoint : AgentRuntime → Str
nats_monitoring_endpoint rt = elim (keda_of rt) [
  | none ↦ codes "nats.nats.svc.cluster.local:8222"
  | some keda ↦ or_default (codes "nats.nats.svc.cluster.local:8222") keda.nats_monitoring_endpoint
]

abbrev pub positive_or : ℤ → ℤ → ℤ
positive_or fallback n = if lt_ℤ (pos 0) n then n else fallback

-- The defaults of buildScaledJob, and what the KEDA spec sets over them.
unfoldable pub keda_settings : AgentRuntime → KedaSpec
unfolding nats_monitoring_endpoint
keda_settings rt = elim (keda_of rt) [
  | none ↦ record {
    polling_interval = pos 15;
    max_replica_count = pos 5;
    active_deadline_seconds = pos 600;
    backoff_limit = pos 2;
    lag_threshold = codes "1";
    activation_lag_threshold = codes "0";
    nats_monitoring_endpoint = nats_monitoring_endpoint rt;
  }
  | some keda ↦ record {
    polling_interval = positive_or (pos 15) keda.polling_interval;
    max_replica_count = positive_or (pos 5) keda.max_replica_count;
    active_deadline_seconds = positive_or (pos 600) keda.active_deadline_seconds;
    backoff_limit = positive_or (pos 2) keda.backoff_limit;
    lag_threshold = or_default (codes "1") keda.lag_threshold;
    activation_lag_threshold = or_default (codes "0") keda.activation_lag_threshold;
    nats_monitoring_endpoint = nats_monitoring_endpoint rt;
  }
]

-- imagePullSecretsUnstructured
abbrev pub image_pull_secrets_unstructured : AgentRuntime → List Value
image_pull_secrets_unstructured rt =
    map (λ name. object (fields ((codes "name", text name) ∷ [])))
      rt.spec.container.image_pull_secrets

abbrev pub port_value : ℤ → Str → Value
port_value port name = object (
    fields (
      (codes "containerPort", int port)
      ∷ (codes "name", text name)
      ∷ (codes "protocol", text (codes "TCP"))
      ∷ []))

abbrev pub container_fields : Str → Str → ℤ → Str → List Value → List (Str × Value)
container_fields name image port port_name env =
    (codes "name", text name)
    ∷ (codes "image", text image)
    ∷ (codes "ports", items (values (port_value port port_name ∷ [])))
    ∷ (codes "env", items (values env))
    ∷ []

-- workerContainer
unfoldable pub worker_container : AgentRuntime → Value
worker_container rt =
    let c = rt.spec.container in
    object (
      fields (
        container_fields (codes "agent") c.image (port_of rt) (codes "a2a") (build_env_vars rt)
        ++ (if is_empty c.image_pull_policy
            then []
            else (codes "imagePullPolicy", text c.image_pull_policy) ∷ [])
        ++ elim (build_resource_requirements c.resources) [
          | none ↦ []
          | some r ↦ (codes "resources", r) ∷ []
        ]))

-- proxyEnv
unfoldable pub proxy_env : AgentRuntime → List Value
proxy_env rt =
    (plain_value (codes "AGENT_PORT") (sprint_int (port_of rt))
      ∷ plain_value (codes "NATS_SUBJECT") rt.spec.queue.subject
      ∷ plain_value (codes "NATS_STREAM") (queue_stream rt)
      ∷ [])
    ++ context_management_env_vars rt

-- proxyContainer
unfoldable pub proxy_container : AgentRuntime → Value
unfolding proxy_env
proxy_container rt = object (
    fields (container_fields (codes "proxy") proxy_image (pos 9090) (codes "proxy") (proxy_env rt)))

-- podSpec
unfoldable pub pod_spec : AgentRuntime → Value
unfolding worker_container proxy_container
pod_spec rt =
    let secrets = image_pull_secrets_unstructured rt in
    object (
      fields (
        ((codes "containers", items (values (worker_container rt ∷ proxy_container rt ∷ [])))
          ∷ (codes "restartPolicy", text (codes "Never"))
          ∷ [])
        ++ (if is_nil secrets
            then []
            else (codes "imagePullSecrets", items (values secrets)) ∷ [])))

-- The metadata of the NATS JetStream trigger.
unfoldable pub trigger : AgentRuntime → Value
unfolding keda_settings
trigger rt =
    let keda = keda_settings rt in
    object (
      fields (
        (codes "type", text (codes "nats-jetstream"))
        ∷ (
          codes "metadata",
          object (
              string_fields (
                (codes "natsServerMonitoringEndpoint", keda.nats_monitoring_endpoint)
                ∷ (codes "account", codes "$G")
                ∷ (codes "stream", queue_stream rt)
                ∷ (codes "consumer", or_default rt.name rt.spec.queue.durable_name)
                ∷ (codes "lagThreshold", keda.lag_threshold)
                ∷ (codes "activationLagThreshold", keda.activation_lag_threshold)
                ∷ [])),
        )
        ∷ []))

-- jobTargetRef
unfoldable pub job_target_ref : AgentRuntime → Value
unfolding keda_settings pod_spec
job_target_ref rt =
    let keda = keda_settings rt in
    object (
      fields (
        (codes "activeDeadlineSeconds", int keda.active_deadline_seconds)
        ∷ (codes "backoffLimit", int keda.backoff_limit)
        ∷ (
          codes "template",
          object (
              fields (
                (codes "metadata", object (fields ((codes "labels", child_labels_map rt) ∷ [])))
                ∷ (codes "spec", pod_spec rt)
                ∷ [])),
        )
        ∷ []))

-- buildScaledJob
unfoldable pub build_scaled_job : AgentRuntime → Str → Value
unfolding job_target_ref trigger keda_settings
build_scaled_job rt name =
    let keda = keda_settings rt in
    object (
      fields (
        (codes "apiVersion", text (codes "keda.sh/v1alpha1"))
        ∷ (codes "kind", text (codes "ScaledJob"))
        ∷ (
          codes "metadata",
          object (
              fields (
                (codes "name", text name)
                ∷ (codes "namespace", text rt.namespace)
                ∷ (codes "labels", child_labels_map rt)
                ∷ [])),
        )
        ∷ (
          codes "spec",
          object (
              fields (
                (codes "pollingInterval", int keda.polling_interval)
                ∷ (codes "maxReplicaCount", int keda.max_replica_count)
                ∷ (codes "jobTargetRef", job_target_ref rt)
                ∷ (codes "triggers", items (values (trigger rt ∷ [])))
                ∷ [])),
        )
        ∷ []))

-- corev1.Container with its one TCP port.
pub record Container : Type 0 where
  pub name : Str
  pub image : Str
  pub port : ℤ
  pub port_name : Str
  pub env : List EnvVar
  pub image_pull_policy : Str
  pub resources : ResourceRequirements

abbrev pub no_resources : ResourceRequirements
no_resources = record { requests = none; limits = none }

abbrev pub agent_container : AgentRuntime → ℤ → ResourceRequirements → Container
agent_container rt port resources = record {
  name = codes "agent";
  image = rt.spec.container.image;
  port = port;
  port_name = codes "a2a";
  env = build_env_vars_typed rt;
  image_pull_policy = rt.spec.container.image_pull_policy;
  resources = resources;
}

abbrev pub proxy_container_typed : AgentRuntime → ℤ → Container
proxy_container_typed rt port = record {
  name = codes "proxy";
  image = proxy_image;
  port = pos 9090;
  port_name = codes "proxy";
  env =
      (plain_var (codes "AGENT_PORT") (sprint_int port)
        ∷ plain_var (codes "NATS_SUBJECT") rt.spec.queue.subject
        ∷ plain_var (codes "NATS_STREAM") (queue_stream rt)
        ∷ [])
      ++ context_management_env_vars_typed rt;
  image_pull_policy = [];
  resources = no_resources;
}

-- buildContainers
unfoldable pub build_containers : Parser → AgentRuntime → ℤ → Result Str (List Container)
unfolding build_resource_requirements_typed
build_containers parse rt port =
    elim (build_resource_requirements_typed parse rt.spec.container.resources) [
      | err e ↦ err (codes "building resource requirements: " ++ e)
      | ok resources ↦ ok (agent_container rt port resources ∷ proxy_container_typed rt port ∷ [])
    ]

-- The card of a registry entry.
pub data Card : Type 0 where
  inline : AgentCardInline → Card
  reference : Str → Str → Card
  minimal : Str → Card

-- agentRegistryEntry
pub record RegistryEntry : Type 0 where
  pub card : Card
  pub queue_subject : Str
  pub runtime : Str
  pub acp_port : ℤ
  pub context_management : Option ContextManagementSpec

-- The entry that buildRegistryJSON marshals.
unfoldable pub registry_entry : AgentRuntime → RegistryEntry
registry_entry rt = record {
  card = elim rt.spec.agent_card [
    | some card ↦ inline card
    | none ↦ elim rt.spec.agent_card_ref [
      | some ref ↦ reference ref.name ref.kind
      | none ↦ minimal rt.name
    ]
  ];
  queue_subject = rt.spec.queue.subject;
  runtime = rt.spec.runtime_type;
  acp_port = port_of rt;
  context_management = rt.spec.context_management;
}
