-- ===== src/Orchestrator/FanOut/Slots.antt =====
-- FanOut of internal/orchestrator/orchestrator.go: the results stand where their tasks stood.
use mathlib.Core.List.{Permᴰ}
use daedalus.Prelude.{
  ℕ, zero, suc, ◌+◌, ltb, leb, ◌==◌, ==_iff, ◌≡◌, refl, sym, ap, ◌∙◌, subst, inl, inr, Bool, true,
  false, ◌||◌, ◌&&◌, Option, none, some, List, [], ◌∷◌, map, length, get_elem?, arith,
  if◌then◌else◌, Str, Result, ok, err, wrap, and_then-eq-ok, Bool-cases,
}
use daedalus.Dispatch.Types.{TaskSpec}
use daedalus.Orchestrator.Types.{FanOutRequest, FanOutResult, TaskResult, validate_request}
use daedalus.Orchestrator.FanOut.{
  Env, FanOutError, bad_request, task_result, launch, zero_result, set_at, place, context_id_of,
  finish, fan_out,
}

abbrev at_index : ℕ → List (ℕ × TaskResult) → Bool
at_index i [] = false
at_index i ((j, r) ∷ rs) = i == j || at_index i rs

-- Every pair holds what `f` says of its index.
abbrev Fits : (ℕ → TaskResult) → List (ℕ × TaskResult) → Type 0
Fits f [] = Unit
Fits f ((j, r) ∷ rs) = (r ≡ f j) × Fits f rs

at_index-Perm :
    (i : ℕ) {rs ss : List (ℕ × TaskResult)} → Permᴰ rs ss → at_index i rs ≡ at_index i ss
at_index-Perm i Permᴰ.nil = refl
at_index-Perm i (Permᴰ.cons e p) =
    ground (arith, ap (λ (q : ℕ × TaskResult). q.0) e, at_index-Perm i p)
at_index-Perm i (Permᴰ.swap e f) =
    ground (arith, ap (λ (q : ℕ × TaskResult). q.0) e, ap (λ (q : ℕ × TaskResult). q.0) f)
at_index-Perm i (Permᴰ.trans p q) = at_index-Perm i p ∙ at_index-Perm i q

Fits-Perm :
    (f : ℕ → TaskResult) {rs ss : List (ℕ × TaskResult)} → Permᴰ rs ss → Fits f ss → Fits f rs
Fits-Perm f Permᴰ.nil h = tt
Fits-Perm f (Permᴰ.cons e p) h =
    (subst (λ (q : ℕ × TaskResult). q.1 ≡ f q.0) (sym e) h.0, Fits-Perm f p h.1)
Fits-Perm f (Permᴰ.swap e g) h = (
  subst (λ (q : ℕ × TaskResult). q.1 ≡ f q.0) (sym e) h.1.0,
  (subst (λ (q : ℕ × TaskResult). q.1 ≡ f q.0) (sym g) h.0, h.1.1),
)
Fits-Perm f (Permᴰ.trans p q) h = Fits-Perm f p (Fits-Perm f q h)

get_elem?-set_at :
    (i j : ℕ) (r : TaskResult) (ts : List TaskResult)
    → get_elem? (set_at i r ts) j ≡ (if i == j && ltb j (length ts) then some r else get_elem? ts j)
unfolding set_at
get_elem?-set_at i j r [] = ground arith
get_elem?-set_at zero zero r (t ∷ ts) = ground arith
get_elem?-set_at zero (suc j) r (t ∷ ts) = ground arith
get_elem?-set_at (suc i) zero r (t ∷ ts) = ground arith
get_elem?-set_at (suc i) (suc j) r (t ∷ ts) = ground (arith, get_elem?-set_at i j r ts)

length-set_at : (i : ℕ) (r : TaskResult) (ts : List TaskResult) → length (set_at i r ts) ≡ length ts
unfolding set_at
length-set_at i r [] = refl
length-set_at zero r (t ∷ ts) = refl
length-set_at (suc i) r (t ∷ ts) = ap suc (length-set_at i r ts)

get_elem?-place :
    (f : ℕ → TaskResult) (rs : List (ℕ × TaskResult)) (ts : List TaskResult) (j : ℕ)
    → Fits f rs
    → get_elem? (place rs ts) j
      ≡ (if at_index j rs && ltb j (length ts) then some (f j) else get_elem? ts j)
unfolding place
get_elem?-place f [] ts j h = refl
get_elem?-place f ((i, r) ∷ rs) ts j h = elim (Bool-cases (i == j)) [
  | inl same ↦
      let e : r ≡ f j = h.0 ∙ ap f ((==_iff i j).0 same) in
      ground (
        arith,
        get_elem?-place f rs (set_at i r ts) j h.1,
        get_elem?-set_at i j r ts,
        length-set_at i r ts,
      )
  | inr other ↦ ground (
    arith,
    get_elem?-place f rs (set_at i r ts) j h.1,
    get_elem?-set_at i j r ts,
    length-set_at i r ts,
  )
]

-- What the goroutine of index `j` sends.
abbrev slot : Env → Str → List TaskSpec → ℕ → TaskResult
slot env context_id tasks j = elim (get_elem? tasks j) [
  | none ↦ zero_result
  | some s ↦ task_result env context_id j s
]

module _ (env : Env) (context_id : Str) where
  Fits-launch :
      (f : ℕ → TaskResult) (i : ℕ) (ss : List TaskSpec)
      → ((k : ℕ) (s : TaskSpec)
          → get_elem? ss k ≡ some s
          → f (i + k) ≡ task_result env context_id (i + k) s)
      → Fits f (launch env context_id i ss)
  unfolding launch
  Fits-launch f i [] h = tt
  Fits-launch f i (s ∷ ss) h = (
    sym (subst (λ n. f n ≡ task_result env context_id n s) (omega arith) (h 0 s refl)),
    Fits-launch f (i + 1) ss
        (λ k t e. subst (λ n. f n ≡ task_result env context_id n t) (omega arith) (h (suc k) t e)),
  )

  at_index-launch :
      (j i : ℕ) (ss : List TaskSpec)
      → at_index j (launch env context_id i ss) ≡ (leb i j && ltb j (i + length ss))
  unfolding launch
  at_index-launch j i [] = ground arith
  at_index-launch j i (s ∷ ss) = ground (arith, at_index-launch j (i + 1) ss)

length-map-zero : (ss : List TaskSpec) → length (map (λ s. zero_result) ss) ≡ length ss
length-map-zero [] = refl
length-map-zero (s ∷ ss) = ap suc (length-map-zero ss)

get_elem?-beyond : (j : ℕ) (ss : List TaskSpec) → ltb j (length ss) ≡ false → get_elem? ss j ≡ none
get_elem?-beyond j [] h = refl
get_elem?-beyond zero (s ∷ ss) h = absurd (ground arith)
get_elem?-beyond (suc j) (s ∷ ss) h = get_elem?-beyond j ss (ground arith)

map-beyond :
    (j : ℕ) (ss : List TaskSpec)
    → ltb j (length ss) ≡ false
    → get_elem? (map (λ s. zero_result) ss) j ≡ none
map-beyond j [] h = refl
map-beyond zero (s ∷ ss) h = absurd (ground arith)
map-beyond (suc j) (s ∷ ss) h = map-beyond j ss (ground arith)

get_elem?-within :
    (j : ℕ) (ss : List TaskSpec)
    → ltb j (length ss) ≡ true
    → (s : TaskSpec) × (get_elem? ss j ≡ some s)
get_elem?-within j [] h = absurd (ground arith)
get_elem?-within zero (s ∷ ss) h = (s, refl)
get_elem?-within (suc j) (s ∷ ss) h = get_elem?-within j ss (ground arith)

module _ (env : Env) (context_id : Str) (tasks : List TaskSpec) where
  placed-slot :
      (j : ℕ)
      → get_elem?
          (place (env.arrival (launch env context_id 0 tasks)) (map (λ s. zero_result) tasks))
          j
        ≡ elim (get_elem? tasks j) [ none ↦ none | some s ↦ some (task_result env context_id j s) ]
  placed-slot j =
      let f = slot env context_id tasks in
      let sent = launch env context_id 0 tasks in
      let fits : Fits f (env.arrival sent) =
        Fits-Perm f (env.arrival-perm sent)
          (Fits-launch env context_id f 0 tasks (λ k s e. ground arith)) in
      let here = get_elem?-place f (env.arrival sent) (map (λ s. zero_result) tasks) j fits in
      let there = at_index-Perm j (env.arrival-perm sent) in
      let range = at_index-launch env context_id j 0 tasks in
      elim (Bool-cases (ltb j (length tasks))) [
        | inl inside ↦
            let (s, e) = get_elem?-within j tasks inside in ground (arith, length-map-zero tasks)
        | inr beyond ↦ ground (
          arith,
          length-map-zero tasks,
          map-beyond j tasks beyond,
          get_elem?-beyond j tasks beyond,
        )
      ]

-- The context ID `c`, the error `e` and the tasks of the result `r` are those of the request.
abbrev Answers : Env → FanOutRequest → FanOutResult × Option Str → Type 0
Answers env req (res, e) =
    (e ≡ env.ctx_err)
    × (context_id_of env req ≡ ok res.context_id)
    × ((j : ℕ)
        → get_elem? res.tasks j ≡ elim (get_elem? req.tasks j) [
          | none ↦ none
          | some s ↦ some (task_result env res.context_id j s)
        ])

-- If FanOut returns a result, it has the request's context ID unless that is empty, the error of the
-- context, and at each index the outcome of the task at that index, whatever the order in which the
-- goroutines finish.
pub fan_out-slots :
    (env : Env) (req : FanOutRequest) (res : FanOutResult) (e : Option Str)
    → fan_out env req ≡ ok (res, e)
    → (e ≡ env.ctx_err)
      × (context_id_of env req ≡ ok res.context_id)
      × ((j : ℕ)
          → get_elem? res.tasks j ≡ elim (get_elem? req.tasks j) [
            | none ↦ none
            | some s ↦ some (task_result env res.context_id j s)
          ])
unfolding fan_out finish
fan_out-slots env req res e h =
    let (_, _, rest) = and_then-eq-ok (wrap bad_request (validate_request req)) _ h in
    let (context_id, named, last) = and_then-eq-ok (context_id_of env req) _ rest in
    subst (Answers env req) (ap (ok_or (res, e)) last)
      (refl, named, placed-slot env context_id req.tasks)
  where
    ok_or :
        FanOutResult × Option Str
        → Result FanOutError (FanOutResult × Option Str)
        → FanOutResult × Option Str
    ok_or r (err _) = r
    ok_or r (ok v) = v
