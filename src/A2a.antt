-- ===== src/A2a.antt =====
-- internal/a2a/types.go: the messages that orchestrator and workers exchange. A Go `any` or raw JSON
-- value is kept as its JSON text.
use daedalus.Prelude.{Str, codes, Map, List, [], ◌∷◌, ◌++◌, Option, is_empty, if◌then◌else◌}

-- TaskState is a Go string.
abbrev pub TaskState : Type 0
TaskState = Str

abbrev pub submitted : TaskState
submitted = codes "submitted"

abbrev pub working : TaskState
working = codes "working"

abbrev pub completed : TaskState
completed = codes "completed"

abbrev pub failed : TaskState
failed = codes "failed"

abbrev pub canceled : TaskState
canceled = codes "canceled"

abbrev pub input_required : TaskState
input_required = codes "input-required"

abbrev pub rejected : TaskState
rejected = codes "rejected"

abbrev pub Json : Type 0
Json = Str

pub record Part : Type 0 where
  pub text : Str
  pub media : Json

pub record Message : Type 0 where
  pub message_id : Str
  pub context_id : Str
  pub task_id : Str
  pub role : Str
  pub parts : List Part
  pub metadata : Map Json

pub record TaskStatus : Type 0 where
  pub state : TaskState
  pub message : Option Message
  pub timestamp : Str

pub record Artifact : Type 0 where
  pub artifact_id : Str
  pub name : Str
  pub parts : List Part

pub record Task : Type 0 where
  pub id : Str
  pub context_id : Str
  pub status : TaskStatus
  pub artifacts : List Artifact
  pub metadata : Map Json

pub record AgentSkill : Type 0 where
  pub id : Str
  pub name : Str
  pub tags : List Str

pub record AgentCard : Type 0 where
  pub name : Str
  pub description : Str
  pub version : Str
  pub skills : List AgentSkill

-- ExtractPromptText: the loop over the parts, with `result` as accumulator.
unfoldable pub prompt_from : Str → List Part → Str
prompt_from result [] = result
prompt_from result (p ∷ ps) = prompt_from (if is_empty p.text then result else result ++ p.text) ps

unfoldable pub extract_prompt_text : Message → Str
unfolding prompt_from
extract_prompt_text m = prompt_from [] m.parts
