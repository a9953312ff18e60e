-- ===== src/ContextMgmt/Tracker/Refines.antt =====
-- The tracker of internal/contextmgmt/tracker.go against what each session was told.
use daedalus.Prelude.{
  Result, ok-injective, ◌≤◌, ok, ◌≡◌, sym, ap, ◌∙◌, inl, inr, Bool, false, Option, none, some, List,
  [], ◌∷◌, arith, Str, str_eq_iff, lookup, lookup-insert, lookup-delete, Option-cases, Bool-cases,
}
use daedalus.Prelude.Int.{ℤ, pos, negsuc, lt_ℤ}
use daedalus.ContextMgmt.Tracker.Lives.{
  Call, start, update, compact, finish, apply_one, Life, next_life, life_after, newest, metrics_if,
  apply_one-metrics_if,
}
use daedalus.ContextMgmt.Tracker.{
  new_tracker, Config, SessionMetrics, Tracker, new_session, with_tokens, compacted, start_session,
  update_tokens, record_compaction, end_session, needs_compaction,
}

abbrev pub apply : Call → Tracker → Tracker
apply (start id task_id limit now) t = start_session id task_id limit now t
apply (update id tokens) t = update_tokens id tokens t
apply (compact id now) t = record_compaction id now t
apply (finish id) t = (end_session id t).0

unfoldable pub run : List Call → Tracker → Tracker
run [] t = t
run (c ∷ cs) t = run cs (apply c t)

apply-apply_one :
    (id : Str) (c : Call) (t : Tracker)
    → lookup id (apply c t).sessions ≡ apply_one id c (lookup id t.sessions)
unfolding start_session update_tokens record_compaction end_session
apply-apply_one id (start j task_id limit now) t =
    lookup-insert j id (new_session j task_id limit now) t.sessions
apply-apply_one id (update j tokens) t = elim (Option-cases (lookup j t.sessions)) [
  | inl missing ↦ ground (arith, str_eq_iff j id)
  | inr (m, there) ↦
      ground (arith, str_eq_iff j id, lookup-insert j id (with_tokens tokens m) t.sessions)
]
apply-apply_one id (compact j now) t = elim (Option-cases (lookup j t.sessions)) [
  | inl missing ↦ ground (arith, str_eq_iff j id)
  | inr (m, there) ↦
      ground (arith, str_eq_iff j id, lookup-insert j id (compacted now m) t.sessions)
]
apply-apply_one id (finish j) t = elim (Option-cases (lookup j t.sessions)) [
  | inl missing ↦ ground (arith, str_eq_iff j id)
  | inr (m, there) ↦ ground (arith, str_eq_iff j id, lookup-delete j id t.sessions)
]

run-from :
    (id : Str) (cs : List Call) (t : Tracker) (l : Option Life)
    → lookup id t.sessions ≡ metrics_if id l
    → lookup id (run cs t).sessions ≡ metrics_if id (life_after id cs l)
unfolding run life_after
run-from id [] t l h = h
run-from id (c ∷ cs) t l h =
    run-from id cs (apply c t) (next_life id c l)
      (apply-apply_one id c t ∙ ap (apply_one id c) h ∙ apply_one-metrics_if id c l)

made_tracker :
    (c : Config) (t : Tracker) → new_tracker c ≡ ok t → t ≡ record { config = c; sessions = [] }
unfolding new_tracker
made_tracker c t h =
    elim (Bool-cases (lt_ℤ c.resurrection_full_threshold c.resurrection_checkpoint_threshold)) [
      | inr wrong ↦ absurd (ground arith)
      | inl right ↦
          let same : ◌≡◌ {A = Result (ℤ × ℤ) Tracker} (ok (record { config = c; sessions = [] }))
              (ok t) =
            ground arith in
          sym (ok-injective same)
    ]

-- After any calls on a tracker that NewTracker made, the metrics of a session are those of its current
-- life: the tokens are those of its last update, the last compaction is the last one's, turns and
-- compactions are counted since its start as int32, and a session that never started or has ended has
-- none. What other sessions are told changes nothing.
pub run-life :
    (c : Config) (t : Tracker) (id : Str) (cs : List Call)
    → new_tracker c ≡ ok t
    → lookup id (run cs t).sessions ≡ metrics_if id (life_after id cs none)
unfolding lookup
run-life c t id cs h = run-from id cs t none (ap (λ x. lookup id x.sessions) (made_tracker c t h))

-- The session is there and needs compaction.
abbrev pub over : ℤ → Option SessionMetrics → Bool
over threshold none = false
over threshold (some m) = needs_compaction threshold m

-- The second is at least the first.
abbrev pub AtLeast : ℤ → ℤ → Type 0
AtLeast (pos a) (pos b) = a ≤ b
AtLeast (pos a) (negsuc b) = ⊥
AtLeast (negsuc a) (pos b) = Unit
AtLeast (negsuc a) (negsuc b) = b ≤ a

-- The session is there, and its last update has at least so many tokens.
abbrev pub HasTokens : ℤ → Option Life → Type 0
HasTokens threshold none = ⊥
HasTokens threshold (some life) = AtLeast threshold (newest (pos 0) life.updates)
