-- ===== src/Operator/Environment/Decoded.antt =====
-- What the API server reads from the unstructured environment of
-- operator/internal/controller/agentruntime_controller.go.
use daedalus.Prelude.{
  ◌≡◌, refl, inl, inr, Option, none, some, List, [], ◌∷◌, ◌++◌, arith, Str, codes, str_eq,
  Option-cases,
}
use daedalus.Operator.Types.{KeySelector, ValueRef, AgentRuntime}
use daedalus.Operator.Value.{Value, text, int, items, object, member_of, field_of}
use daedalus.Operator.Environment.{
  EnvVar, EnvVarSource, env_values, build_envs, build_env_vars, env_vars, build_envs_typed,
  build_env_vars_typed, context_management_env_vars, context_management_env_vars_typed, plain_var,
  plain_value,
}

abbrev pub text_of : Value → Option Str
text_of (text s) = some s
text_of (int n) = none
text_of (items vs) = none
text_of (object fs) = none

-- A field that is a string.
abbrev pub text_at : Str → Value → Option Str
text_at k v = elim (member_of k v) [ none ↦ none | some w ↦ text_of w ]

abbrev pub read_selector : Value → Option KeySelector
read_selector v = elim (text_at (codes "name") v) [
  | none ↦ none
  | some name ↦ elim (text_at (codes "key") v) [
    | none ↦ none
    | some key ↦ some (record { name = name; key = key })
  ]
]

abbrev pub read_source : Value → Option EnvVarSource
read_source v = elim (member_of (codes "secretKeyRef") v) [
  | some ref ↦ elim (read_selector ref) [
    | none ↦ none
    | some selector ↦ some (EnvVarSource.secret_key_ref selector)
  ]
  | none ↦ elim (member_of (codes "configMapKeyRef") v) [
    | none ↦ none
    | some ref ↦ elim (read_selector ref) [
      | none ↦ none
      | some selector ↦ some (EnvVarSource.config_map_key_ref selector)
    ]
  ]
]

-- A variable has a name, and a source or a value, which is empty if it is left out.
abbrev pub read_named : Str → Value → Option EnvVar
read_named name v = elim (member_of (codes "valueFrom") v) [
  | some from ↦ elim (read_source from) [
    | none ↦ none
    | some source ↦ some (record { name = name; value = []; value_from = some source })
  ]
  | none ↦ elim (member_of (codes "value") v) [
    | none ↦ some (plain_var name [])
    | some w ↦ elim (text_of w) [ none ↦ none | some value ↦ some (plain_var name value) ]
  ]
]

unfoldable pub read_env : Value → Option EnvVar
unfolding member_of field_of str_eq
read_env v = elim (text_at (codes "name") v) [ none ↦ none | some name ↦ read_named name v ]

abbrev pub read_envs : List Value → Option (List EnvVar)
read_envs [] = some []
read_envs (v ∷ vs) = elim (read_env v) [
  | none ↦ none
  | some var ↦ elim (read_envs vs) [ none ↦ none | some rest ↦ some (var ∷ rest) ]
]

pub read_envs-append :
    (vs bs : List Value) {xs ys : List EnvVar}
    → read_envs vs ≡ some xs
    → read_envs bs ≡ some ys
    → read_envs (vs ++ bs) ≡ some (xs ++ ys)
read_envs-append [] bs h k = ground arith
read_envs-append (a ∷ vs) bs h k = elim (Option-cases (read_env a)) [
  | inl bad ↦ absurd (ground arith)
  | inr (x, good) ↦ elim (Option-cases (read_envs vs)) [
    | inl bad ↦ absurd (ground arith)
    | inr (rest, fine) ↦ ground (arith, read_envs-append vs bs fine k)
  ]
]

env_values-read : (v : ValueRef) → read_envs (env_values v) ≡ some (env_vars v)
unfolding env_values env_vars read_env
env_values-read v = elim (Option-cases v.value_from) [
  | inl plain ↦ rw plain refl
  | inr (source, from) ↦ elim (Option-cases source.secret_key_ref) [
    | inr (ref, secret) ↦ rw (from, secret) refl
    | inl other ↦ elim (Option-cases source.config_map_key_ref) [
      | inr (ref, config) ↦ rw (from, other, config) refl
      | inl nothing ↦ rw (from, other, nothing) refl
    ]
  ]
]

build_envs-read : (vs : List ValueRef) → read_envs (build_envs vs) ≡ some (build_envs_typed vs)
unfolding build_envs build_envs_typed
build_envs-read [] = refl
build_envs-read (v ∷ vs) =
    read_envs-append (env_values v) (build_envs vs) (env_values-read v) (build_envs-read vs)

-- The variables of a runtime that buildEnvVars makes are read by the API server as those that
-- buildEnvVarsTyped makes.
pub build_env_vars-read :
    (rt : AgentRuntime) → read_envs (build_env_vars rt) ≡ some (build_env_vars_typed rt)
build_env_vars-read rt = build_envs-read rt.spec.env

pub plain_value-read :
    (name value : Str) → read_env (plain_value name value) ≡ some (plain_var name value)
unfolding read_env
plain_value-read name value = refl

pub context_management_env_vars-read :
    (rt : AgentRuntime)
    → read_envs (context_management_env_vars rt) ≡ some (context_management_env_vars_typed rt)
unfolding context_management_env_vars context_management_env_vars_typed read_env
context_management_env_vars-read rt = elim (Option-cases rt.spec.context_management) [
  | inl nothing ↦ rw nothing refl
  | inr (cm, configured) ↦ elim (Option-cases cm.resurrection) [
    | inl plain ↦ rw (configured, plain) refl
    | inr (r, given) ↦ rw (configured, given) refl
  ]
]
