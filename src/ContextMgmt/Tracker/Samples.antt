-- ===== src/ContextMgmt/Tracker/Samples.antt =====
-- A tracker of internal/contextmgmt, and the theorems at it.
use daedalus.Prelude.{
  none, some, ◌≡◌, refl, List, [], ◌∷◌, Str, codes, str_eq, lookup, insert, delete, member, ok,
}
use daedalus.Prelude.Int.{pos}
use daedalus.ContextMgmt.Tracker.{
  Tracker, default_config, new_tracker, start_session, update_tokens, record_compaction,
  end_session, check_compaction, compaction_ids, select_resurrection_strategy,
}
use daedalus.ContextMgmt.Tracker.Lives.{
  Call, start, update, compact, finish, life_after, metrics_if,
}
use daedalus.ContextMgmt.Tracker.Refines.{run, run-life}

program : Unit {0}
unfolding new_tracker start_session update_tokens record_compaction end_session compaction_ids
    select_resurrection_strategy run life_after lookup insert delete member str_eq
program = tt

abbrev s : Str
s = codes "s"

abbrev tracker : Tracker
tracker = record { config = default_config; sessions = [] }

abbrev calls : List Call
calls =
    start s (codes "t") (pos 200000) 7
    ∷ start (codes "u") (codes "v") (pos 1000) 8
    ∷ update s (pos 120000)
    ∷ finish (codes "u")
    ∷ compact s 9
    ∷ []

made : new_tracker default_config ≡ ok tracker
unfolding program
made = refl

run-calls : check_compaction (run calls tracker) ≡ s ∷ []
unfolding program
run-calls = refl

life :
    life_after s calls none
    ≡ some (record {
      task_id = codes "t";
      token_limit = pos 200000;
      started = 7;
      updates = pos 120000 ∷ [];
      compactions = 9 ∷ [];
    })
unfolding program
life = refl

run-life_example : lookup s (run calls tracker).sessions ≡ metrics_if s (life_after s calls none)
run-life_example = run-life default_config tracker s calls made
