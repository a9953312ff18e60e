-- ===== src/Orchestrator/FanOut/Valid.antt =====
-- Validate of internal/orchestrator/types.go, and the errors of FanOut.
use daedalus.Prelude.{
  ℕ, zero, suc, ◌+◌, ◌≡◌, refl, ◌≢◌, ◌↔◌, inl, inr, Bool, true, false, not, some, List, [], ◌∷◌,
  get_elem?, arith, is_empty, is_nil, ok, Bool-cases,
}
use daedalus.Dispatch.Types.{TaskSpec}
use daedalus.Orchestrator.Types.{FanOutRequest, validate_tasks, validate_request}

-- A task that may be dispatched.
abbrev pub complete_spec : TaskSpec → Bool
complete_spec t = elim (is_empty t.skill_id) [ true ↦ false | false ↦ not (is_empty t.prompt) ]

validate_tasks_iff :
    (i : ℕ) (ts : List TaskSpec)
    → (validate_tasks i ts ≡ ok tt)
      ↔ ((j : ℕ) (t : TaskSpec) → get_elem? ts j ≡ some t → complete_spec t ≡ true)
unfolding validate_tasks
validate_tasks_iff i [] = (λ _ j t e. absurd (cc), λ _. refl)
validate_tasks_iff i (t ∷ ts) =
    let (to, from) = validate_tasks_iff (i + 1) ts in
    (
      λ h. at_all (first_complete h) (to (rest_valid h)),
      λ all. valid (all 0 t refl) (from (λ j u e. all (suc j) u e)),
    )
  where
    at_all :
        complete_spec t ≡ true
        → ((j : ℕ) (u : TaskSpec) → get_elem? ts j ≡ some u → complete_spec u ≡ true)
        → (j : ℕ) (u : TaskSpec) → get_elem? (t ∷ ts) j ≡ some u
        → complete_spec u ≡ true
    at_all first rest zero u e = ground arith
    at_all first rest (suc j) u e = rest j u e

    first_complete : validate_tasks i (t ∷ ts) ≡ ok tt → complete_spec t ≡ true
    first_complete h = ground arith

    rest_valid : validate_tasks i (t ∷ ts) ≡ ok tt → validate_tasks (i + 1) ts ≡ ok tt
    rest_valid h = ground arith

    valid :
        complete_spec t ≡ true
        → validate_tasks (i + 1) ts ≡ ok tt
        → validate_tasks i (t ∷ ts) ≡ ok tt
    valid first rest = ground arith

-- Validate accepts a request exactly if it has a task and all its tasks have a skill and a prompt.
pub validate_request_iff :
    (r : FanOutRequest)
    → (validate_request r ≡ ok tt) ↔ (
        (r.tasks ≢ [])
        × ((j : ℕ) (t : TaskSpec) → get_elem? r.tasks j ≡ some t → complete_spec t ≡ true))
unfolding validate_request
validate_request_iff r = elim (Bool-cases (is_nil r.tasks)) [
  | inl nothing ↦ (λ h. absurd (ground arith), λ both. absurd (both.0 (is_nil-eq r.tasks nothing)))
  | inr something ↦
      let (to, from) = validate_tasks_iff 0 r.tasks in
      (λ h. (λ e. ground arith, to (ground arith)), λ both. ground (arith, from both.1))
]
  where
    is_nil-eq : (ts : List TaskSpec) → is_nil ts ≡ true → ts ≡ []
    is_nil-eq [] h = refl
    is_nil-eq (t ∷ ts) h = absurd (cc)
