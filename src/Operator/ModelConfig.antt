-- ===== src/Operator/ModelConfig.antt =====
-- operator/internal/controller/modelconfig_controller.go: one Reconcile. The state is what the API
-- server has: the ModelConfig and the AgentRuntimes. The answers of the server, SHA-256 and
-- apimeta.SetStatusCondition are the parameter Env.
mod Propagated
mod Samples
use daedalus.Prelude.{
  ℕ, Bool, true, false, not, ◌&&◌, Option, none, some, List, [], ◌∷◌, ◌++◌, if◌then◌else◌, Str,
  codes, str_eq, is_empty, is_nil, Map, lookup, insert, keys, sort_strings, sort_by, Result, ok,
  err,
}
use daedalus.Operator.Types.{KeySelector, SingleValueRef, Condition, AgentRuntime}

pub record ModelConfig : Type 0 where
  pub namespace : Str
  pub name : Str
  pub generation : ℕ
  pub api_key : Option SingleValueRef
  -- The status.
  pub secret_hash : Str
  pub observed_generation : ℕ
  pub conditions : List Condition

pub record Cluster : Type 0 where
  pub config : Option ModelConfig
  pub runtimes : List AgentRuntime

-- Errors of the calls, if they fail; the data of a secret by namespace and name.
pub record Env : Type 0 where
  pub get_err : Option Str
  pub get_secret : Str → Str → Result Str (Map Str)
  pub list_err : Option Str
  pub update_err : AgentRuntime → Option Str
  pub status_err : Option Str
  pub sha256_hex : Str → Str
  pub set_status_condition : Condition → List Condition → List Condition

pub data Outcome : Type 0 where
  reconciled requeue_after_30s : Outcome
  failed : Str → Outcome

-- secretRefFromModelConfig
unfoldable pub secret_ref : ModelConfig → Option KeySelector
secret_ref mc = elim mc.api_key [
  | none ↦ none
  | some key ↦ elim key.value_from [ none ↦ none | some source ↦ source.secret_key_ref ]
]

-- What is written to the hash, key by key.
unfoldable pub hash_input : Map Str → List Str → Str
unfolding lookup
hash_input secret [] = []
hash_input secret (k ∷ ks) =
    (k ++ codes "=" ++ elim (lookup k secret) [ none ↦ [] | some v ↦ v ] ++ 10 ∷ [])
    ++ hash_input secret ks

-- hashSecretData
unfoldable pub hash_secret_data : Env → Map Str → Str
unfolding hash_input sort_by
hash_secret_data env secret =
    if is_nil secret
    then []
    else codes "sha256:" ++ env.sha256_hex (hash_input secret (sort_strings (keys secret)))

-- resolveSecretHash
unfoldable pub resolve_secret_hash : Env → ModelConfig → Result Str Str
unfolding secret_ref hash_secret_data
resolve_secret_hash env mc = elim (secret_ref mc) [
  | none ↦ ok []
  | some ref ↦ elim (env.get_secret mc.namespace ref.name) [
    | err e ↦ err e
    | ok secret ↦ ok (hash_secret_data env secret)
  ]
]

-- referencesModelConfig
unfoldable pub references_model_config : AgentRuntime → ModelConfig → Bool
unfolding str_eq
references_model_config rt mc = elim rt.spec.model_config_ref [
  | none ↦ false
  | some ref ↦
      str_eq ref.name mc.name
      && str_eq (if is_empty ref.namespace then rt.namespace else ref.namespace) mc.namespace
]

abbrev pub hash_annotation : Str
hash_annotation = codes "daedalus.dev/model-config-hash"

-- The annotation of a runtime, empty if there is none.
unfoldable pub annotation : AgentRuntime → Str
unfolding lookup
annotation rt = elim (lookup hash_annotation rt.annotations) [ none ↦ [] | some v ↦ v ]

abbrev pub annotate : Str → AgentRuntime → AgentRuntime
annotate hash rt = record rt { annotations = insert hash_annotation hash rt.annotations }

-- The loop of propagateHashToAgentRuntimes: it ends at the first update that fails.
unfoldable pub propagate :
    Env → ModelConfig → Str → List AgentRuntime → List AgentRuntime × Option Str
unfolding references_model_config annotation
propagate env mc hash [] = ([], none)
propagate env mc hash (rt ∷ rts) =
    let (rest, e) = propagate env mc hash rts in
    if not (references_model_config rt mc)
    then (rt ∷ rest, e)
    else if str_eq (annotation rt) hash
    then (rt ∷ rest, e)
    else elim (env.update_err (annotate hash rt)) [
      | some bad ↦ (rt ∷ rts, some bad)
      | none ↦ (annotate hash rt ∷ rest, e)
    ]

abbrev pub condition_of : ModelConfig → Str → Bool → Str → Str → Condition
condition_of mc kind status reason message = record {
  kind = kind;
  status = status;
  observed_generation = mc.generation;
  reason = reason;
  message = message;
}

abbrev pub degraded : Env → Str → ModelConfig → ModelConfig
degraded env e mc = record mc {
  conditions =
      env.set_status_condition
        (condition_of mc (codes "Available") false (codes "SecretNotFound")
          (codes "ModelConfig is unavailable because the referenced secret was not found."))
        (env.set_status_condition
          (condition_of mc (codes "Degraded") true (codes "SecretNotFound")
            (codes "Referenced secret not found: " ++ e))
          mc.conditions);
  observed_generation = mc.generation;
}

abbrev pub available : Env → Str → ModelConfig → ModelConfig
available env hash mc = record mc {
  secret_hash = hash;
  observed_generation = mc.generation;
  conditions =
      env.set_status_condition
        (condition_of mc (codes "Available") true (codes "ConfigValid")
          (codes "ModelConfig is available and all references are resolved."))
        (env.set_status_condition
          (condition_of mc (codes "Degraded") false (codes "Resolved")
            (codes "All references resolved successfully."))
          mc.conditions);
}

-- Status().Update
abbrev pub update_status : Env → ModelConfig → Outcome → Cluster → Cluster × Outcome
update_status env mc fine s = elim env.status_err [
  | some e ↦ (s, failed e)
  | none ↦ (record s { config = some mc }, fine)
]

-- Step 5: the runtimes afterwards, and the error.
unfoldable pub propagated : Env → ModelConfig → Str → Cluster → Cluster × Option Str
unfolding propagate
propagated env mc hash s =
    let (rts, e) = propagate env mc hash s.runtimes in
    let result : Cluster × Option Str = elim env.list_err [
      | some bad ↦ (s, some bad)
      | none ↦ (record s { runtimes = rts }, e)
    ] in
    if str_eq hash mc.secret_hash then (s, none) else result

-- Steps 2 to 6.
unfoldable pub reconcile_config : Env → ModelConfig → Cluster → Cluster × Outcome
unfolding resolve_secret_hash propagated
reconcile_config env mc s = elim (resolve_secret_hash env mc) [
  | err e ↦ update_status env (degraded env e mc) requeue_after_30s s
  | ok hash ↦
      let (s', bad) = propagated env mc hash s in
      elim bad [
        | some e ↦ (s', failed e)
        | none ↦ update_status env (available env hash mc) reconciled s'
      ]
]

-- Reconcile
unfoldable pub reconcile : Env → Cluster → Cluster × Outcome
unfolding reconcile_config
reconcile env s = elim s.config [
  | none ↦ (s, elim env.get_err [ none ↦ reconciled | some e ↦ failed e ])
  | some mc ↦ elim env.get_err [ some e ↦ (s, failed e) | none ↦ reconcile_config env mc s ]
]
