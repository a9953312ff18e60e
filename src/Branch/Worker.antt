-- ===== src/Branch/Worker.antt =====
-- internal/branch/worker.go: WorkerSession. Git is a parameter; the state holds the commands given to
-- it, the newest first, each with its success. Retry detection only writes to the log.
use daedalus.Prelude.{
  Result-cases, ◌≡◌, refl, sym, ap, subst, ◌⊎◌, inl, inr, Bool, true, false, ◌&&◌, ◌||◌, Option,
  none, some, List, [], ◌∷◌, arith, if◌then◌else◌, Str, codes, str_eq, str_eq_refl, is_empty,
  Option-cases, Result, ok, err,
}
use daedalus.Branch.Naming.{BranchName, NameError, new_branch, to_string}

-- git checkout -b, git push, git checkout -, git branch -D
pub data Command : Type 0 where
  checkout_new : Str → Command
  push : Str → Str → Command
  checkout_back : Command
  delete_branch : Str → Command

-- The error that a command ends with, if any.
abbrev pub Git : Type 0
Git = Command → Option Str

pub record WorkerSession : Type 0 where
  pub feature : Str
  pub agent_name : Str
  pub remote_url : Str
  pub branch : Option BranchName
  pub history : List (Command × Bool)

pub data WorkerError : Type 0 where
  no_session_id : Str → WorkerError
  bad_name : NameError → WorkerError
  checkout_failed push_failed delete_failed : Str → Str → WorkerError
  complete_before_start : WorkerError

abbrev pub succeeds : Option Str → Bool
succeeds none = true
succeeds (some e) = false

-- A command runs.
abbrev pub exec : Git → Command → WorkerSession → WorkerSession
exec git c w = record w { history = (c, succeeds (git c)) ∷ w.history }

-- Start behind the name.
unfoldable pub check_out :
    Git → BranchName → WorkerSession → WorkerSession × Result WorkerError BranchName
check_out git b w =
    let ran = exec git (checkout_new (to_string b)) w in
    elim (git (checkout_new (to_string b))) [
      | some e ↦ (ran, err (checkout_failed (to_string b) e))
      | none ↦ (record ran { branch = some b }, ok b)
    ]

-- Start, with the answer of newSessionID.
unfoldable pub start :
    Git → Result Str Str → WorkerSession → WorkerSession × Result WorkerError BranchName
unfolding check_out new_branch
start git session_id w = elim session_id [
  | err e ↦ (w, err (no_session_id e))
  | ok id ↦ elim (new_branch w.feature w.agent_name id) [
    | err e ↦ (w, err (bad_name e))
    | ok b ↦ check_out git b w
  ]
]

abbrev pub remote : WorkerSession → Str
remote w = if is_empty w.remote_url then codes "origin" else w.remote_url

-- Complete
unfoldable pub complete : Git → WorkerSession → WorkerSession × Option WorkerError
complete git w = elim w.branch [
  | none ↦ (w, some complete_before_start)
  | some b ↦
      let c = push (remote w) (to_string b) in
      (exec git c w, elim (git c) [ none ↦ none | some e ↦ some (push_failed (to_string b) e) ])
]

-- Abort
unfoldable pub abort : Git → WorkerSession → WorkerSession × Option WorkerError
abort git w = elim w.branch [
  | none ↦ (w, none)
  | some b ↦
      let c = delete_branch (to_string b) in
      (
        exec git c (exec git checkout_back w),
        elim (git c) [ none ↦ none | some e ↦ some (delete_failed (to_string b) e) ],
      )
]

-- The calls of a session, each with the answers that it meets.
pub data Call : Type 0 where
  starts : Git → Result Str Str → Call
  completes : Git → Call
  aborts : Git → Call

abbrev pub apply : Call → WorkerSession → WorkerSession
apply (starts git id) w = (start git id w).0
apply (completes git) w = (complete git w).0
apply (aborts git) w = (abort git w).0

unfoldable pub run : List Call → WorkerSession → WorkerSession
run [] w = w
run (c ∷ cs) w = run cs (apply c w)

-- A checkout of the branch succeeded.
abbrev pub created : Str → List (Command × Bool) → Bool
created name [] = false
created name ((checkout_new n, done) ∷ h) = (done && str_eq name n) || created name h
created name ((push r n, _) ∷ h) = created name h
created name ((checkout_back, _) ∷ h) = created name h
created name ((delete_branch n, _) ∷ h) = created name h

-- Each push and each deletion is of a branch that the session had created before.
abbrev pub own_only : List (Command × Bool) → Bool
own_only [] = true
own_only ((checkout_new n, _) ∷ h) = own_only h
own_only ((push r n, _) ∷ h) = created n h && own_only h
own_only ((checkout_back, _) ∷ h) = own_only h
own_only ((delete_branch n, _) ∷ h) = created n h && own_only h

record IsOwn (w : WorkerSession) : Type 0 where
  own : own_only w.history ≡ true
  current : (b : BranchName) → w.branch ≡ some b → created (to_string b) w.history ≡ true

-- What a call does: nothing, or its commands.
check_out_cases :
    (git : Git) (b : BranchName) (w : WorkerSession)
    → ((check_out git b w).0 ≡ exec git (checkout_new (to_string b)) w)
      ⊎ ((succeeds (git (checkout_new (to_string b))) ≡ true)
          × ((check_out git b w).0
              ≡ record (exec git (checkout_new (to_string b)) w) { branch = some b }))
unfolding check_out
check_out_cases git b w = elim (Option-cases (git (checkout_new (to_string b)))) [
  | inr (e, failed) ↦ inl (ground arith)
  | inl fine ↦ inr (ground arith, ground arith)
]

start_cases :
    (git : Git) (id : Result Str Str) (w : WorkerSession)
    → ((start git id w).0 ≡ w) ⊎ ((b : BranchName) × ((start git id w).0 ≡ (check_out git b w).0))
unfolding start
start_cases git (err e) w = inl refl
start_cases git (ok id) w = elim (Result-cases (new_branch w.feature w.agent_name id)) [
  | inl (e, bad) ↦ inl (ground arith)
  | inr (b, good) ↦ inr (b, ground arith)
]

complete_cases :
    (git : Git) (w : WorkerSession)
    → ((complete git w).0 ≡ w)
      ⊎ ((b : BranchName) × (w.branch ≡ some b)
          × ((complete git w).0 ≡ exec git (push (remote w) (to_string b)) w))
unfolding complete
complete_cases git w = elim (Option-cases w.branch) [
  | inl idle ↦ inl (ground arith)
  | inr (b, there) ↦ inr (b, there, ground arith)
]

abort_cases :
    (git : Git) (w : WorkerSession)
    → ((abort git w).0 ≡ w)
      ⊎ ((b : BranchName) × (w.branch ≡ some b)
          × ((abort git w).0 ≡ exec git (delete_branch (to_string b)) (exec git checkout_back w)))
unfolding abort
abort_cases git w = elim (Option-cases w.branch) [
  | inl idle ↦ inl (ground arith)
  | inr (b, there) ↦ inr (b, there, ground arith)
]

check_out-IsOwn :
    (git : Git) (b : BranchName) (w : WorkerSession) → IsOwn w → IsOwn (check_out git b w).0
check_out-IsOwn git b w i = elim (check_out_cases git b w) [
  | inl e ↦
      subst IsOwn (sym e) (record { own = i.own; current = λ c h. ground (arith, i.current c h) })
  | inr (done, e) ↦ subst IsOwn (sym e) (record {
    own = i.own;
    current = λ c h.
        let same : b ≡ c = ap (or_else b) h in
        subst (λ d. created (to_string d) (exec git (checkout_new (to_string b)) w).history ≡ true)
          same (ground (arith, str_eq_refl (to_string b)));
  })
]
  where
    or_else : BranchName → Option BranchName → BranchName
    or_else d = elim [ none ↦ d | some x ↦ x ]

apply-IsOwn : (c : Call) (w : WorkerSession) → IsOwn w → IsOwn (apply c w)
apply-IsOwn (starts git id) w i = elim (start_cases git id w) [
  | inl e ↦ subst IsOwn (sym e) i
  | inr (b, e) ↦ subst IsOwn (sym e) (check_out-IsOwn git b w i)
]
apply-IsOwn (completes git) w i = elim (complete_cases git w) [
  | inl e ↦ subst IsOwn (sym e) i
  | inr (b, there, e) ↦
      subst IsOwn (sym e)
        (record { own = ground (arith, i.own, i.current b there); current = λ c h. i.current c h })
]
apply-IsOwn (aborts git) w i = elim (abort_cases git w) [
  | inl e ↦ subst IsOwn (sym e) i
  | inr (b, there, e) ↦
      subst IsOwn (sym e)
        (record { own = ground (arith, i.own, i.current b there); current = λ c h. i.current c h })
]

run-IsOwn : (cs : List Call) (w : WorkerSession) → IsOwn w → IsOwn (run cs w)
unfolding run
run-IsOwn [] w i = i
run-IsOwn (c ∷ cs) w i = run-IsOwn cs (apply c w) (apply-IsOwn c w i)

-- Whatever the calls of Start, Complete and Abort on a new session, in any order and with any answers
-- of git: each branch that is pushed or deleted was created by a checkout of the session before.
pub run-own_only :
    (cs : List Call) (feature agent_name remote_url : Str)
    → own_only
        (run cs (record {
          feature = feature;
          agent_name = agent_name;
          remote_url = remote_url;
          branch = none;
          history = [];
        })).history
      ≡ true
run-own_only cs f a r =
    (run-IsOwn cs
      (record { feature = f; agent_name = a; remote_url = r; branch = none; history = [] })
      (record { own = refl; current = λ b h. absurd (cc) })).own
