-- ===== src/Registry/Types.antt =====
-- internal/registry: the records of registry.go and scorer.go, and the errors.
use daedalus.Prelude.{ℕ, Str, List}
use daedalus.Prelude.Int.{ℤ}
use daedalus.A2a.{AgentCard}

pub record AgentEntry : Type 0 where
  pub card : AgentCard
  pub queue_subject : Str
  pub runtime : Str
  pub acp_port : ℤ

pub record RoutingRequest : Type 0 where
  pub skill_id : Str
  pub tags : List Str
  pub preferred_runtime : Str

-- The errors of `validate`, with the agent's index, and the skill's.
pub data EntryError : Type 0 where
  name_required description_required version_required : ℕ → EntryError
  queue_subject_required runtime_required acp_port_invalid skill_required : ℕ → EntryError
  skill_id_required skill_name_required : ℕ → ℕ → EntryError
  duplicate_name duplicate_queue_subject : Str → EntryError
