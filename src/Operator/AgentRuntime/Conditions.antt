-- ===== src/Operator/AgentRuntime/Conditions.antt =====
-- The status that a Reconcile of operator/internal/controller/agentruntime_controller.go persists.
use daedalus.Prelude.{
  ◌≡◌, refl, sym, ap, ◌∙◌, subst, Bool, true, false, Option, none, some, List, [], ◌∷◌, arith,
  if◌then◌else◌, Str, codes, str_eq, str_eq_iff,
}
use daedalus.Operator.Types.{Condition, AgentRuntime}
use daedalus.Operator.Cluster.{Cluster, Env, Outcome, get, runtime_kind, update_status}
use daedalus.Operator.AgentRuntime.{
  condition_of, final_conditions, with_final_status, persisted, persist, reconcile_children,
  reconcile_runtime, reconcile,
}
use daedalus.Operator.AgentRuntime.Succeeds.{start}
use daedalus.Operator.AgentRuntime.Settled.{put_self}

-- apimeta.FindStatusCondition
unfoldable pub find_status_condition : Str → List Condition → Option Condition
unfolding str_eq
find_status_condition kind [] = none
find_status_condition kind (c ∷ cs) =
    if str_eq c.kind kind then some c else find_status_condition kind cs

-- What is documented of apimeta.SetStatusCondition: it replaces or adds the condition of its type, and
-- leaves the others.
abbrev pub SetsCondition : (Condition → List Condition → List Condition) → Type 0
SetsCondition set =
    (kind : Str) (c : Condition) (cs : List Condition)
    → find_status_condition kind (set c cs)
      ≡ (if str_eq c.kind kind then some c else find_status_condition kind cs)

-- The condition of a type has this status and message, for this generation.
abbrev pub Tells : AgentRuntime → Str → Bool → Str → List Condition → Type 0
Tells rt kind status message cs =
    (reason : Str) × (find_status_condition kind cs
      ≡ some (condition_of rt kind status reason message))

-- Available without an error, degraded with the error in its message, and in no case progressing.
abbrev pub Reports : AgentRuntime → Option Str → List Condition → Type 0
Reports rt none cs =
    Tells rt (codes "Available") true (codes "All child resources reconciled successfully") cs
    × Tells rt (codes "Degraded") false (codes "All child resources reconciled successfully") cs
    × Tells rt (codes "Progressing") false (codes "Reconciliation complete") cs
Reports rt (some e) cs =
    Tells rt (codes "Available") false e cs
    × Tells rt (codes "Degraded") true e cs
    × Tells rt (codes "Progressing") false e cs

-- A condition is found under two others of other types.
module _ (env : Env) (law : SetsCondition env.set_status_condition) where
  first :
      (c : Condition) (cs : List Condition)
      → find_status_condition c.kind (env.set_status_condition c cs) ≡ some c
  first c cs = ground (arith, law c.kind c cs, str_eq_iff c.kind c.kind)

  below :
      (kind : Str) (c : Condition) (cs : List Condition)
      → str_eq c.kind kind ≡ false
      → find_status_condition kind (env.set_status_condition c cs) ≡ find_status_condition kind cs
  below kind c cs other = ground (arith, law kind c cs)

  final_conditions-Reports :
      (rt : AgentRuntime) (e : Option Str) (cs : List Condition)
      → Reports rt e (final_conditions env rt e cs)
  unfolding final_conditions str_eq
  final_conditions-Reports rt none cs = (
    (_, below (codes "Available") _ _ refl ∙ below (codes "Available") _ _ refl ∙ first _ _),
    (_, below (codes "Degraded") _ _ refl ∙ first _ _),
    (_, first _ _),
  )
  final_conditions-Reports rt (some e) cs = (
    (_, below (codes "Available") _ _ refl ∙ first _ _),
    (_, below (codes "Degraded") _ _ refl ∙ below (codes "Degraded") _ _ refl ∙ first _ _),
    (_, first _ _),
  )

-- What is stored of the runtime, by the result of Reconcile.
abbrev pub Stored : AgentRuntime → Cluster × Option Str → Type 0
Stored rt (c, e) =
    (rt' : AgentRuntime) × (c.runtimes rt.namespace rt.name ≡ some rt')
    × (rt'.status.observed_generation ≡ rt.generation)
    × Reports rt e rt'.status.conditions

persist-Stored :
    (env : Env) (rt : AgentRuntime) (o : Outcome)
    → SetsCondition env.set_status_condition
    → ((r : AgentRuntime) → env.refuses (update_status r) ≡ none)
    → Stored rt (persist env rt o)
persist-Stored env rt (s, e) law accepted =
    let rt' = with_final_status env e rt s in
    let q : persist env rt (s, e) ≡ persisted rt' e s none =
      ap (persisted rt' e s) (accepted rt') in
    subst (Stored rt) (sym q) (
      rt',
      put_self rt.namespace rt.name (some rt') s.cluster.runtimes,
      refl,
      final_conditions-Reports env law rt e s.status.conditions,
    )

-- Let apimeta.SetStatusCondition do what is documented, and the server answer the Get and accept the
-- update of the status. Then Reconcile for a runtime that is there stores its generation as observed
-- and exactly its outcome: if it returns no error, available and not degraded; if it returns an error,
-- not available, and degraded with that error as the message; in both cases not progressing.
pub reconcile-Stored :
    (env : Env) (rt : AgentRuntime) (c : Cluster)
    → SetsCondition env.set_status_condition
    → c.runtimes rt.namespace rt.name ≡ some rt
    → env.refuses (get runtime_kind) ≡ none
    → ((r : AgentRuntime) → env.refuses (update_status r) ≡ none)
    → Stored rt (reconcile env rt.namespace rt.name c)
unfolding reconcile reconcile_runtime
reconcile-Stored env rt c law there answers accepted =
    let q : reconcile env rt.namespace rt.name c
        ≡ persist env rt (reconcile_children env rt (start env rt c)) =
      ground arith in
    subst (Stored rt) (sym q)
      (persist-Stored env rt (reconcile_children env rt (start env rt c)) law accepted)
