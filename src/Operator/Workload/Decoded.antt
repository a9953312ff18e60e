-- ===== src/Operator/Workload/Decoded.antt =====
-- The containers that operator/internal/controller/agentruntime_controller.go writes into a ScaledJob,
-- as the API server reads them.
use daedalus.Prelude.{
  sprint_int, Result-cases, ◌≡◌, refl, sym, ap, ◌∙◌, inl, inr, Option, none, some, List, [], ◌∷◌,
  ◌++◌, arith, if◌then◌else◌, Str, codes, str_eq, is_empty, ok,
}
use daedalus.Prelude.Int.{ℤ, pos}
use daedalus.Operator.Types.{AgentRuntime}
use daedalus.Operator.Value.{
  Value, Values, nil, cons, text, int, items, object, values, fields, member_of, field_of,
}
use daedalus.Operator.Environment.{
  EnvVar, plain_value, build_env_vars, build_env_vars_typed, context_management_env_vars,
}
use daedalus.Operator.Environment.Decoded.{
  text_at, read_envs, read_envs-append, build_env_vars-read, context_management_env_vars-read,
  read_env,
}
use daedalus.Operator.Resources.{
  Parser, build_resource_requirements, build_resource_requirements_typed,
}
use daedalus.Operator.Workload.{
  Container, container_fields, port_of, queue_stream, proxy_image, worker_container, proxy_env,
  proxy_container, pod_spec, no_resources, agent_container, proxy_container_typed, build_containers,
}

abbrev pub list_of : Values → List Value
list_of nil = []
list_of (cons v vs) = v ∷ list_of vs

list_of-values : (vs : List Value) → list_of (values vs) ≡ vs
list_of-values [] = refl
list_of-values (v ∷ vs) = ap (λ rest. v ∷ rest) (list_of-values vs)

abbrev pub items_of : Value → List Value
items_of (text s) = []
items_of (int n) = []
items_of (items vs) = list_of vs
items_of (object fs) = []

-- A field that is a list; none if there is no such field.
abbrev pub items_at : Str → Value → List Value
items_at k v = elim (member_of k v) [ none ↦ [] | some w ↦ items_of w ]

abbrev pub int_of : Value → Option ℤ
int_of (text s) = none
int_of (int n) = some n
int_of (items vs) = none
int_of (object fs) = none

abbrev pub int_at : Str → Value → Option ℤ
int_at k v = elim (member_of k v) [ none ↦ none | some w ↦ int_of w ]

-- The number and the name of the one port.
abbrev pub read_port : List Value → Option (ℤ × Str)
read_port [] = none
read_port (p ∷ ps) = elim (int_at (codes "containerPort") p) [
  | none ↦ none
  | some n ↦ elim (text_at (codes "name") p) [ none ↦ none | some name ↦ some (n, name) ]
]

abbrev pub text_or_empty : Str → Value → Str
text_or_empty k v = elim (text_at k v) [ none ↦ [] | some s ↦ s ]

abbrev pub container_of : Value → ℤ × Str → List EnvVar → Container
container_of v (port, port_name) env = record {
  name = text_or_empty (codes "name") v;
  image = text_or_empty (codes "image") v;
  port = port;
  port_name = port_name;
  env = env;
  image_pull_policy = text_or_empty (codes "imagePullPolicy") v;
  resources = no_resources;
}

-- A container but for its resources.
unfoldable pub read_container : Value → Option Container
unfolding member_of field_of str_eq
read_container v = elim (read_port (items_at (codes "ports") v)) [
  | none ↦ none
  | some port ↦ elim (read_envs (items_at (codes "env") v)) [
    | none ↦ none
    | some env ↦ some (container_of v port env)
  ]
]

abbrev pub read_containers : List Value → Option (List Container)
read_containers [] = some []
read_containers (v ∷ vs) = elim (read_container v) [
  | none ↦ none
  | some c ↦ elim (read_containers vs) [ none ↦ none | some cs ↦ some (c ∷ cs) ]
]

abbrev pub without_resources : List Container → List Container
without_resources [] = []
without_resources (c ∷ cs) = record c { resources = no_resources } ∷ without_resources cs

proxy_env-read :
    (rt : AgentRuntime)
    → read_envs (proxy_env rt) ≡ some (proxy_container_typed rt (port_of rt)).env
unfolding proxy_env read_env
proxy_env-read rt =
    read_envs-append
      (plain_value (codes "AGENT_PORT") (sprint_int (port_of rt))
        ∷ plain_value (codes "NATS_SUBJECT") rt.spec.queue.subject
        ∷ plain_value (codes "NATS_STREAM") (queue_stream rt)
        ∷ [])
      (context_management_env_vars rt) refl (context_management_env_vars-read rt)

-- The fields of a container, and further ones.
container_fields-read :
    (name image : Str) (port : ℤ) (port_name : Str) (env : List Value) (vars : List EnvVar)
    (rest : List (Str × Value))
    → read_envs env ≡ some vars
    → read_container (object (fields (container_fields name image port port_name env ++ rest)))
      ≡ some (record {
        name = name;
        image = image;
        port = port;
        port_name = port_name;
        env = vars;
        image_pull_policy = text_or_empty (codes "imagePullPolicy") (object (fields rest));
        resources = no_resources;
      })
unfolding read_container
container_fields-read name image port port_name env vars rest h =
    let v = object (fields (container_fields name image port port_name env ++ rest)) in
    let found : Option (List EnvVar) → Option Container =
      λ o. elim o [ none ↦ none | some es ↦ some (container_of v (port, port_name) es) ] in
    ap found (ap read_envs (list_of-values env) ∙ h)

proxy_container-read :
    (rt : AgentRuntime)
    → read_container (proxy_container rt) ≡ some (proxy_container_typed rt (port_of rt))
unfolding proxy_container member_of field_of
proxy_container-read rt =
    container_fields-read (codes "proxy") proxy_image (pos 9090) (codes "proxy") (proxy_env rt)
      (proxy_container_typed rt (port_of rt)).env [] (proxy_env-read rt)

-- The pull policy among the fields that may be left out.
policy_of :
    (policy : Str) (resources : Option Value)
    → text_or_empty (codes "imagePullPolicy") (
        object (
          fields (
            (if is_empty policy then [] else (codes "imagePullPolicy", text policy) ∷ [])
            ++ elim resources [ none ↦ [] | some r ↦ (codes "resources", r) ∷ [] ])))
      ≡ policy
unfolding member_of field_of str_eq
policy_of [] none = refl
policy_of [] (some r) = refl
policy_of (x ∷ xs) none = refl
policy_of (x ∷ xs) (some r) = refl

worker_container-read :
    (rt : AgentRuntime)
    → read_container (worker_container rt) ≡ some (agent_container rt (port_of rt) no_resources)
unfolding worker_container
worker_container-read rt =
    let c = rt.spec.container in
    let rest =
      (if is_empty c.image_pull_policy
        then []
        else (codes "imagePullPolicy", text c.image_pull_policy) ∷ [])
      ++ elim (build_resource_requirements c.resources) [
        | none ↦ []
        | some r ↦ (codes "resources", r) ∷ []
      ] in
    container_fields-read (codes "agent") c.image (port_of rt) (codes "a2a") (build_env_vars rt)
      (build_env_vars_typed rt) rest (build_env_vars-read rt)
    ∙ ap
        (λ policy.
          some
            (record (agent_container rt (port_of rt) no_resources) { image_pull_policy = policy }))
        (policy_of c.image_pull_policy (build_resource_requirements c.resources))

pod_spec-containers :
    (rt : AgentRuntime)
    → items_at (codes "containers") (pod_spec rt) ≡ worker_container rt ∷ proxy_container rt ∷ []
unfolding pod_spec member_of field_of str_eq
pod_spec-containers rt = refl

both-read :
    (rt : AgentRuntime)
    → read_containers (worker_container rt ∷ proxy_container rt ∷ [])
      ≡ some (
          agent_container rt (port_of rt) no_resources ∷ proxy_container_typed rt (port_of rt) ∷ [])
both-read rt = ground (arith, worker_container-read rt, proxy_container-read rt)

built :
    (parser : Parser) (rt : AgentRuntime) (cs : List Container)
    → build_containers parser rt (port_of rt) ≡ ok cs
    → without_resources cs
      ≡ agent_container rt (port_of rt) no_resources ∷ proxy_container_typed rt (port_of rt) ∷ []
unfolding build_containers
built parser rt cs h =
    elim (Result-cases (build_resource_requirements_typed parser rt.spec.container.resources)) [
      | inl (e, bad) ↦ absurd (ground arith)
      | inr (r, good) ↦
          let q : agent_container rt (port_of rt) r ∷ proxy_container_typed rt (port_of rt) ∷ []
              ≡ cs =
            ground arith in
          ap without_resources (sym q)
    ]

-- The containers of the pod that buildScaledJob describes are read by the API server, but for their
-- resources, as those that buildContainers makes for a Deployment, if it returns no error: names,
-- images, ports, pull policy, and environment with the context management.
pub pod_spec-reads :
    (parser : Parser) (rt : AgentRuntime) (cs : List Container)
    → build_containers parser rt (port_of rt) ≡ ok cs
    → read_containers (items_at (codes "containers") (pod_spec rt)) ≡ some (without_resources cs)
pod_spec-reads parser rt cs h =
    ap read_containers (pod_spec-containers rt)
    ∙ both-read rt
    ∙ ap some (sym (built parser rt cs h))
