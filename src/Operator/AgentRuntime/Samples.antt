-- ===== src/Operator/AgentRuntime/Samples.antt =====
-- Runs of Reconcile of operator/internal/controller/agentruntime_controller.go: a runtime whose mode
-- has changed from ScaledJob to Static.
use daedalus.Prelude.{refl, false, none, some, [], ◌∷◌, ok, codes, inl}
use daedalus.Operator.Samples.{static_runtime}
use daedalus.Operator.Value.{text}
use daedalus.Operator.Cluster.{Cluster, Env, ScaledJob, Objects, put}
use daedalus.Operator.AgentRuntime.{reconcile}
use daedalus.Operator.AgentRuntime.Settled.{Settled, reconcile-Settled}
use daedalus.Operator.AgentRuntime.Repeated.{SameChildren, reconcile-Repeated}
use daedalus.Operator.AgentRuntime.Elsewhere.{Elsewhere, reconcile-Elsewhere}
use daedalus.Operator.AgentRuntime.Exclusive.{Exclusive, reconcile-Exclusive}
use daedalus.Operator.AgentRuntime.Conditions.{
  SetsCondition, Stored, find_status_condition, reconcile-Stored,
}

abbrev nothing : {V : Type 0} → Objects V
nothing namespace name = none

abbrev old_job : ScaledJob
old_job = record { content = text (codes "old"); owners = []; resource_version = codes "7" }

abbrev before : Cluster
before = record {
  runtimes = put (codes "ns") (codes "rt") (some static_runtime) nothing;
  config_maps = nothing;
  services = nothing;
  deployments = nothing;
  scaled_jobs = put (codes "ns") (codes "rt") (some old_job) nothing;
}

-- The new condition in front: the first of its type is the one that counts.
abbrev env : Env
env = record {
  refuses = λ call. none;
  no_match = false;
  owner_err = λ kind. none;
  marshal = λ entry. ok entry.queue_subject;
  parser = record { parse = λ s. ok s; quote = λ s. s };
  set_status_condition = λ c cs. c ∷ cs;
}

sets : SetsCondition env.set_status_condition
unfolding find_status_condition
sets kind c cs = refl

after : Cluster
unfolding reconcile put
after = (reconcile env (codes "ns") (codes "rt") before).0

reconcile-Settled_example : Settled env static_runtime after
unfolding reconcile after put
reconcile-Settled_example = reconcile-Settled env static_runtime before after refl refl

reconcile-Elsewhere_example :
    Elsewhere static_runtime before (reconcile env (codes "ns") (codes "rt") before).0
unfolding put
reconcile-Elsewhere_example = reconcile-Elsewhere env static_runtime before refl

reconcile-Exclusive_example :
    Exclusive static_runtime (reconcile env (codes "ns") (codes "rt") before).0
unfolding put
reconcile-Exclusive_example = reconcile-Exclusive env static_runtime before refl refl (inl refl)

reconcile-Stored_example : Stored static_runtime (reconcile env (codes "ns") (codes "rt") before)
unfolding put
reconcile-Stored_example = reconcile-Stored env static_runtime before sets refl refl (λ r. refl)

again : Cluster
unfolding reconcile put
again = (reconcile env (codes "ns") (codes "rt") after).0

reconcile-Repeated_example : SameChildren after again
unfolding reconcile after again put
reconcile-Repeated_example = reconcile-Repeated env static_runtime before after again refl refl refl
