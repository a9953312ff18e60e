-- ===== src/Registry/Samples.antt =====
-- A small registry of internal/registry, and the theorems at it.
use daedalus.Prelude.{
  sym, ap, IsSorted, Option, ◌≡◌, ◌↔◌, refl, none, some, List, [], ◌∷◌, ◌++◌, Str, codes, str_eq,
  member, add, ok,
}
use daedalus.Prelude.Int.{pos}
use daedalus.Registry.Types.{AgentEntry, RoutingRequest}
use daedalus.Registry.Static.{
  validate, validate_from, validate_entry, validate_skills, find_by_name, route_by_score, best_of,
  score, tag_score, declares, tagged, route,
}
use daedalus.Registry.Dynamic
use daedalus.Registry.Dynamic.{
  DynamicRegistry, Event, put, deleted, delivered, run_events, card_name, all, waits,
}
use daedalus.Registry.Dynamic.Lookup.{all-find_by_name}
use daedalus.Registry.Dynamic.Backoff.{waits-doubled}
use daedalus.Registry.Static.Best.{FirstBest, AtMost, route_by_score_iff, route_by_score-none}

pub program : Unit {0}
unfolding validate validate_from validate_entry validate_skills find_by_name route_by_score best_of
    score tag_score declares tagged route member add str_eq
program = tt

abbrev pub agent : Str → Str → AgentEntry
agent name tag = record {
  card = record {
    name = name;
    description = codes "worker";
    version = codes "1";
    skills = record { id = codes "code"; name = codes "Code"; tags = tag ∷ [] } ∷ [];
  };
  queue_subject = codes "agent." ++ name;
  runtime = codes "copilot";
  acp_port = pos 9000;
}

abbrev pub a : AgentEntry
a = agent (codes "a") (codes "go")

abbrev pub b : AgentEntry
b = agent (codes "b") (codes "rust")

abbrev pub agents : List AgentEntry
agents = a ∷ b ∷ []

abbrev pub request : RoutingRequest
request = record { skill_id = codes "code"; tags = codes "rust" ∷ []; preferred_runtime = [] }

-- A tag that the request repeats counts twice.
score_repeated :
    score b
      (record { skill_id = []; tags = codes "rust" ∷ codes "rust" ∷ []; preferred_runtime = [] })
    ≡ 10
unfolding program
score_repeated = refl

valid : validate agents ≡ ok tt
unfolding program
valid = refl

pub routed : route_by_score request agents ≡ some b
unfolding program
routed = refl

route_by_score_iff_example : (route_by_score request agents ≡ some b) ↔ FirstBest request agents b
route_by_score_iff_example = route_by_score_iff request agents b

route_by_score-none_example : (route_by_score request agents ≡ none) ↔ AtMost request 0 agents
route_by_score-none_example = route_by_score-none request agents

abbrev agent_named : Str → Option AgentEntry
agent_named name = some (agent name (codes "go"))

agent_named-own : (name : Str) (e : AgentEntry) → agent_named name ≡ some e → e.card.name ≡ name
agent_named-own name e h = ap (name_or name) (sym h)
  where
    name_or : Str → Option AgentEntry → Str
    name_or d = elim [ none ↦ d | some x ↦ x.card.name ]

abbrev events : List Event
events =
    put (codes "b") (codes "b") ∷ put (codes "c") (codes "c") ∷ deleted (codes "c") ∷ delivered ∷ []

abbrev dynamic : DynamicRegistry
dynamic = record { agents = []; fallback = some (a ∷ []) }

all-find_by_name_example :
    IsSorted card_name (all (run_events agent_named events dynamic))
    × ((name : Str)
        → find_by_name name (all (run_events agent_named events dynamic))
          ≡ Dynamic.find_by_name name (run_events agent_named events dynamic))
all-find_by_name_example =
    all-find_by_name agent_named events dynamic
      (agent_named-own (codes "b"), (agent_named-own (codes "c"), tt)) tt

waits-doubled_example :
    waits 1 (0 ∷ 0 ∷ 0 ∷ 0 ∷ 0 ∷ 0 ∷ 0 ∷ 90 ∷ 5 ∷ []) ≡ 1 ∷ 2 ∷ 4 ∷ 8 ∷ 16 ∷ 32 ∷ 32 ∷ 1 ∷ 2 ∷ []
waits-doubled_example = waits-doubled (0 ∷ 0 ∷ 0 ∷ 0 ∷ 0 ∷ 0 ∷ 0 ∷ 90 ∷ 5 ∷ [])
