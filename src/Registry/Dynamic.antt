-- ===== src/Registry/Dynamic.antt =====
-- internal/registry/dynamic.go: the cache of the dynamic registry under the events of its watcher, and
-- the lookups. The key-value store and its JSON are parameters.
pub mod Lookup
pub mod Backoff
pub mod Store
pub mod Synced
pub mod Mirrors
mod Samples
use daedalus.Prelude.{
  ℕ, ◌*◌, ltb, leb, Bool, true, false, not, Option, none, some, List, [], ◌∷◌, ◌++◌, map, keep,
  head_of, if◌then◌else◌, Str, str_lt, Map, lookup, insert, delete, has_key, sort_by,
}
use daedalus.Registry.Types.{AgentEntry, RoutingRequest}
use daedalus.Registry.Static

pub record DynamicRegistry : Type 0 where
  pub agents : Map AgentEntry
  pub fallback : Option (List AgentEntry)

-- The loop of the initial sync, over the keys of the store.
unfoldable pub initial_sync :
    (Str → Option Str) → (Str → Option AgentEntry) → List Str → Map AgentEntry → Map AgentEntry
unfolding insert
initial_sync get unmarshal [] agents = agents
initial_sync get unmarshal (key ∷ keys) agents = initial_sync get unmarshal keys (elim (get key) [
  | none ↦ agents
  | some value ↦ elim (unmarshal value) [ none ↦ agents | some ae ↦ insert key ae agents ]
])

-- What comes out of the watcher's channel: an entry with its operation, or nil behind the existing
-- keys.
pub data Event : Type 0 where
  put : Str → Str → Event
  deleted purged : Str → Event
  delivered : Event

-- A round of the loop of runWatcher.
unfoldable pub apply_event : (Str → Option AgentEntry) → Event → DynamicRegistry → DynamicRegistry
unfolding insert delete
apply_event unmarshal (put key value) dr = elim (unmarshal value) [
  | none ↦ dr
  | some ae ↦ record dr { agents = insert key ae dr.agents }
]
apply_event unmarshal (deleted key) dr = record dr { agents = delete key dr.agents }
apply_event unmarshal (purged key) dr = record dr { agents = delete key dr.agents }
apply_event unmarshal delivered dr = dr

unfoldable pub run_events :
    (Str → Option AgentEntry) → List Event → DynamicRegistry → DynamicRegistry
unfolding apply_event
run_events unmarshal [] dr = dr
run_events unmarshal (e ∷ es) dr = run_events unmarshal es (apply_event unmarshal e dr)

abbrev pub card_name : AgentEntry → Str
card_name e = e.card.name

-- The entries of the fallback that the cache does not have.
abbrev pub unseen : Map AgentEntry → List AgentEntry → List AgentEntry
unseen agents = keep (λ e. not (has_key e.card.name agents))

-- All. The sort of the code is not stable and this one is: they may differ in the order of entries with
-- one name, which only a fallback that validate refuses could have.
unfoldable pub all : DynamicRegistry → List AgentEntry
unfolding sort_by lookup
all dr = sort_by card_name (
    map (λ e. e.1) dr.agents
    ++ elim dr.fallback [ none ↦ [] | some entries ↦ unseen dr.agents entries ])

-- FindByName
unfoldable pub find_by_name : Str → DynamicRegistry → Option AgentEntry
unfolding lookup
find_by_name name dr = elim (lookup name dr.agents) [
  | some e ↦ some e
  | none ↦ elim dr.fallback [ none ↦ none | some entries ↦ Static.find_by_name name entries ]
]

-- FindBySkill, FindByTag, Route and RouteByScore are those of the static registry, on All.
abbrev pub find_by_skill : Str → DynamicRegistry → List AgentEntry
find_by_skill skill_id dr = Static.find_by_skill skill_id (all dr)

abbrev pub find_by_tag : Str → DynamicRegistry → List AgentEntry
find_by_tag tag dr = Static.find_by_tag tag (all dr)

abbrev pub route : Str → DynamicRegistry → Option Str
route skill_id dr = Static.route skill_id (all dr)

abbrev pub route_by_score : RoutingRequest → DynamicRegistry → Option AgentEntry
route_by_score req dr = Static.route_by_score req (all dr)

-- The backoff of watch, in seconds, after a run of the watcher of so many seconds: first the reset,
-- then the wait, then the doubling. The first part is what is waited.
unfoldable pub next_backoff : ℕ → ℕ → ℕ × ℕ
next_backoff backoff run_time =
    let waited = if leb 60 run_time then 1 else backoff in
    (waited, if ltb waited 30 then waited * 2 else waited)

-- The waits of watch, by the lengths of the runs that end with an error.
unfoldable pub waits : ℕ → List ℕ → List ℕ
unfolding next_backoff
waits backoff [] = []
waits backoff (run_time ∷ more) =
    let (waited, next) = next_backoff backoff run_time in waited ∷ waits next more
