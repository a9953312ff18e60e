-- ===== src/Registry/Static.antt =====
-- internal/registry/registry.go and scorer.go. A registry is the list of its agents. Scores are
-- tenths: of the float steps 1.0, 0.5 and 0.1 only the last, taken at most once and at the end, is
-- inexact, so the order of the float scores is the order of these.
pub mod Valid
pub mod Best
use daedalus.Prelude.{
  ℕ, ◌+◌, ltb, Bool, true, false, not, ◌&&◌, ◌||◌, Option, none, some, List, [], ◌∷◌, ◌++◌, keep,
  head_of, if◌then◌else◌, is_empty, is_nil, Str, str_eq, member, add, Result, ok, err, ◌>>◌,
  fail_if,
}
use daedalus.Prelude.Int.{ℤ, pos, lt_ℤ}
use daedalus.A2a.{AgentSkill}
use daedalus.Registry.Types.{
  AgentEntry, RoutingRequest, EntryError, name_required, description_required, version_required,
  queue_subject_required, runtime_required, acp_port_invalid, skill_required, skill_id_required,
  skill_name_required, duplicate_name, duplicate_queue_subject,
}

-- The loop over the skills of an entry.
unfoldable pub validate_skills : ℕ → ℕ → List AgentSkill → Result EntryError (Unit {0})
validate_skills i j [] = ok tt
validate_skills i j (s ∷ ss) = do
  fail_if (is_empty s.id) (skill_id_required i j)
  fail_if (is_empty s.name) (skill_name_required i j)
  validate_skills i (j + 1) ss

-- The checks of one entry that look at no other.
unfoldable pub validate_entry : ℕ → AgentEntry → Result EntryError (Unit {0})
unfolding validate_skills
validate_entry i e = do
  fail_if (is_empty e.card.name) (name_required i)
  fail_if (is_empty e.card.description) (description_required i)
  fail_if (is_empty e.card.version) (version_required i)
  fail_if (is_empty e.queue_subject) (queue_subject_required i)
  fail_if (is_empty e.runtime) (runtime_required i)
  fail_if (not (lt_ℤ (pos 0) e.acp_port)) (acp_port_invalid i)
  fail_if (is_nil e.card.skills) (skill_required i)
  validate_skills i 0 e.card.skills

-- The loop over the entries, with the sets of names and subjects.
unfoldable pub validate_from :
    ℕ → List Str → List Str → List AgentEntry → Result EntryError (Unit {0})
unfolding validate_entry member add
validate_from i names subjects [] = ok tt
validate_from i names subjects (e ∷ es) =
    let rest = validate_from (i + 1) (add e.card.name names) (add e.queue_subject subjects) es in
    do
      validate_entry i e
      fail_if (member e.card.name names) (duplicate_name e.card.name)
      fail_if (member e.queue_subject subjects) (duplicate_queue_subject e.queue_subject)
      rest

-- validate
unfoldable pub validate : List AgentEntry → Result EntryError (Unit {0})
unfolding validate_from
validate entries = validate_from 0 [] [] entries

-- LoadFromReader behind the decoder.
unfoldable pub load : Option (List AgentEntry) → Result (Option EntryError) (List AgentEntry)
unfolding validate
load none = err none
load (some agents) = elim (validate agents) [ err e ↦ err (some e) | ok _ ↦ ok agents ]

unfoldable pub declares : Str → List AgentSkill → Bool
declares skill_id [] = false
declares skill_id (s ∷ ss) = str_eq s.id skill_id || declares skill_id ss

-- FindBySkill
abbrev pub find_by_skill : Str → List AgentEntry → List AgentEntry
find_by_skill skill_id = keep (λ e. declares skill_id e.card.skills)

unfoldable pub tagged : Str → List AgentSkill → Bool
unfolding member
tagged tag [] = false
tagged tag (s ∷ ss) = member tag s.tags || tagged tag ss

-- FindByTag
abbrev pub find_by_tag : Str → List AgentEntry → List AgentEntry
find_by_tag tag = keep (λ e. tagged tag e.card.skills)

-- FindByName
unfoldable pub find_by_name : Str → List AgentEntry → Option AgentEntry
find_by_name name [] = none
find_by_name name (e ∷ es) =
    let rest = find_by_name name es in if str_eq e.card.name name then some e else rest

-- Route: `none` is the error.
unfoldable pub route : Str → List AgentEntry → Option Str
unfolding declares
route skill_id agents = elim (head_of (find_by_skill skill_id agents)) [
  | none ↦ none
  | some e ↦ some e.queue_subject
]

-- The loop over the request's tags: five tenths for each that the agent has.
unfoldable pub tag_score : List AgentSkill → List Str → ℕ
unfolding tagged
tag_score skills [] = 0
tag_score skills (t ∷ ts) = (if tagged t skills then 5 else 0) + tag_score skills ts

-- Score
unfoldable pub score : AgentEntry → RoutingRequest → ℕ
unfolding declares tag_score
score e req =
    (if not (is_empty req.skill_id) && declares req.skill_id e.card.skills then 10 else 0)
    + tag_score e.card.skills req.tags
    + (if not (is_empty req.preferred_runtime) && str_eq e.runtime req.preferred_runtime
        then 1
        else 0)

-- The loop of RouteByScore.
unfoldable pub best_of :
    RoutingRequest → List AgentEntry → Option AgentEntry → ℕ → Option AgentEntry
unfolding score
best_of req [] best best_score = best
best_of req (e ∷ es) best best_score =
    let better = best_of req es (some e) (score e req) in
    let same = best_of req es best best_score in
    if ltb best_score (score e req) then better else same

-- RouteByScore: `none` is the error.
unfoldable pub route_by_score : RoutingRequest → List AgentEntry → Option AgentEntry
unfolding best_of
route_by_score req agents = best_of req agents none 0
