-- ===== src/ContextMgmt/Tracker.antt =====
-- internal/contextmgmt/tracker.go. Every operation holds the mutex throughout. Instants are numbers,
-- 0 for the zero time; floating point is the interface Floats.
pub mod Lives
pub mod Refines
pub mod Strategy
pub mod Samples
use daedalus.Prelude.{
  ℕ, ◌==◌, Bool, true, false, not, Option, none, some, List, [], ◌∷◌, if◌then◌else◌, Str, codes,
  Map, lookup, insert, delete, length, Result, ok, err, ◌>>◌, fail_if,
}
use daedalus.Prelude.Int.{ℤ, pos, negsuc, lt_ℤ}

-- float64, as far as UsagePercent uses it; the conversion goes to int32.
pub record Floats : Type 1 where
  pub Float : Type 0
  pub of_int : ℤ → Float
  pub div : Float → Float → Float
  pub mul : Float → Float → Float
  pub gt : Float → Float → Bool
  pub to_int32 : Float → ℤ

pub data ResurrectionStrategy : Type 0 where
  full checkpoint fresh : ResurrectionStrategy

pub record Config : Type 0 where
  pub compaction_interval : Str
  pub token_threshold : ℤ
  pub event_retention_size : ℤ
  pub overlap_size : ℤ
  pub resurrection_full_threshold : ℤ
  pub resurrection_checkpoint_threshold : ℤ

abbrev pub default_config : Config
default_config = record {
  compaction_interval = codes "5m";
  token_threshold = pos 100000;
  event_retention_size = pos 50;
  overlap_size = pos 2;
  resurrection_full_threshold = pos 60;
  resurrection_checkpoint_threshold = pos 90;
}

pub record SessionMetrics : Type 0 where
  pub session_id : Str
  pub task_id : Str
  pub current_tokens : ℤ
  pub token_limit : ℤ
  pub turn_count : ℤ
  pub compaction_count : ℤ
  pub last_compaction : ℕ
  pub start_time : ℕ

-- `x++` on an int32.
abbrev pub inc32 : ℤ → ℤ
inc32 (pos n) = if n == 2147483647 then negsuc 2147483647 else pos (ℕ.suc n)
inc32 (negsuc ℕ.zero) = pos 0
inc32 (negsuc (ℕ.suc n)) = negsuc n

-- UsagePercent
unfoldable pub usage_percent : Floats → SessionMetrics → ℤ
usage_percent f m =
    if not (lt_ℤ (pos 0) m.token_limit)
    then pos 0
    else (let pct =
          f.mul (f.div (f.of_int m.current_tokens) (f.of_int m.token_limit)) (f.of_int (pos 100)) in
        if f.gt pct (f.of_int (pos 100)) then pos 100 else f.to_int32 pct)

-- NeedsCompaction
abbrev pub needs_compaction : ℤ → SessionMetrics → Bool
needs_compaction threshold m = not (lt_ℤ m.current_tokens threshold)

pub record Tracker : Type 0 where
  pub config : Config
  pub sessions : Map SessionMetrics

-- NewTracker: the error carries both thresholds.
unfoldable pub new_tracker : Config → Result (ℤ × ℤ) Tracker
new_tracker c = do
  fail_if (not (lt_ℤ c.resurrection_full_threshold c.resurrection_checkpoint_threshold))
      (c.resurrection_full_threshold, c.resurrection_checkpoint_threshold)
  ok (record { config = c; sessions = [] })

abbrev pub new_session : Str → Str → ℤ → ℕ → SessionMetrics
new_session id task_id token_limit now = record {
  session_id = id;
  task_id = task_id;
  current_tokens = pos 0;
  token_limit = token_limit;
  turn_count = pos 0;
  compaction_count = pos 0;
  last_compaction = 0;
  start_time = now;
}

unfoldable pub start_session : Str → Str → ℤ → ℕ → Tracker → Tracker
unfolding insert
start_session id task_id token_limit now t = record t {
  sessions = insert id (new_session id task_id token_limit now) t.sessions;
}

abbrev pub with_tokens : ℤ → SessionMetrics → SessionMetrics
with_tokens tokens m = record m { current_tokens = tokens; turn_count = inc32 m.turn_count }

unfoldable pub update_tokens : Str → ℤ → Tracker → Tracker
unfolding lookup insert
update_tokens id tokens t = elim (lookup id t.sessions) [
  | none ↦ t
  | some m ↦ record t { sessions = insert id (with_tokens tokens m) t.sessions }
]

abbrev pub compacted : ℕ → SessionMetrics → SessionMetrics
compacted now m = record m { compaction_count = inc32 m.compaction_count; last_compaction = now }

unfoldable pub record_compaction : Str → ℕ → Tracker → Tracker
unfolding lookup insert
record_compaction id now t = elim (lookup id t.sessions) [
  | none ↦ t
  | some m ↦ record t { sessions = insert id (compacted now m) t.sessions }
]

-- GetMetrics: `none` for the pair of a zero value and false.
abbrev pub get_metrics : Str → Tracker → Option SessionMetrics
get_metrics id t = lookup id t.sessions

unfoldable pub end_session : Str → Tracker → Tracker × Option SessionMetrics
unfolding lookup delete
end_session id t = elim (lookup id t.sessions) [
  | none ↦ (t, none)
  | some m ↦ (record t { sessions = delete id t.sessions }, some m)
]

unfoldable pub select_resurrection_strategy : Config → ℤ → ResurrectionStrategy
select_resurrection_strategy c usage =
    if lt_ℤ usage c.resurrection_full_threshold
    then full
    else if lt_ℤ usage c.resurrection_checkpoint_threshold
    then checkpoint
    else fresh

-- SelectResurrectionStrategyForSession; the Boolean says whether the error is nil.
unfoldable pub select_for_session : Floats → Str → Tracker → ResurrectionStrategy × Bool
unfolding usage_percent select_resurrection_strategy lookup
select_for_session f id t = elim (get_metrics id t) [
  | none ↦ (fresh, false)
  | some m ↦ (select_resurrection_strategy t.config (usage_percent f m), true)
]

-- The loop of CheckCompaction.
unfoldable pub compaction_ids : ℤ → Map SessionMetrics → List Str
compaction_ids threshold [] = []
compaction_ids threshold ((id, m) ∷ rest) =
    let more = compaction_ids threshold rest in
    if needs_compaction threshold m then id ∷ more else more

abbrev pub check_compaction : Tracker → List Str
check_compaction t = compaction_ids t.config.token_threshold t.sessions

abbrev pub active_session_count : Tracker → ℕ
active_session_count t = length t.sessions
