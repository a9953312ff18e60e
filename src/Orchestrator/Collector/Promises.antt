-- ===== src/Orchestrator/Collector/Promises.antt =====
-- What the result collector of internal/orchestrator/collector.go promises in any interleaving.
use daedalus.Prelude.{
  ℕ, ◌≡◌, refl, sym, ap, ◌∙◌, subst, ◌≢◌, ◌⊎◌, ◌↔◌, inl, inr, true, false, ◌&&◌, Option, none, some,
  arith, Str, codes, str_eq, str_eq_iff, is_empty, lookup, has_key, Bool-cases, Option-cases,
  str_eq_refl,
}
use daedalus.A2a.{Task, TaskStatus}
use daedalus.Orchestrator.Types.{TaskResult}
use daedalus.Orchestrator.Collector.{
  Collector, new_collector, wait_for, receive_result, cancel_wait, replaceable, result_of,
  extract_suffix, Msg, handle_result, commit_status,
}
use daedalus.Orchestrator.Collector.Sound.{
  IsSound, new_collector-IsSound, stored, stored_result, stored_buffer,
}
use daedalus.Orchestrator.Collector.Steps.{
  Step, Steps, handle_result_cases, handle_status_cases, Steps-IsSound, waits, receives, cancels,
  gets_result, gets_status, commits, stay, and_then,
}

-- `q` is what a later look at the results finds where `r` was: the same, or a result with a task
-- for a mere status.
abbrev pub Supersedes : TaskResult → TaskResult → Type 0
Supersedes q r = (q ≡ r) ⊎ ((r.task ≡ none) × (q.task ≢ none))

Supersedes-trans : {p q r : TaskResult} → Supersedes p q → Supersedes q r → Supersedes p r
Supersedes-trans {r = r} (inl e) y = subst (λ z. Supersedes z r) (sym e) y
Supersedes-trans {p = p} (inr m) (inl e) = subst (Supersedes p) e (inr m)
Supersedes-trans (inr (bare, full)) (inr (bare', full')) = absurd (full' bare)

-- The collector `d` has what supersedes `r`.
abbrev pub Holds : Str → TaskResult → Collector → Type 0
Holds id r d = (q : TaskResult) × (lookup id d.results ≡ some q) × Supersedes q r

kept-Holds :
    (id : Str) (r : TaskResult) (c d : Collector)
    → d.results ≡ c.results
    → lookup id c.results ≡ some r
    → Holds id r d
kept-Holds id r c d e h = (r, ap (lookup id) e ∙ h, inl refl)

stored-Holds :
    (j id : Str) (tr r : TaskResult) (c : Collector)
    → (lookup j c.results ≡ some r → (tr.task ≢ none) ⊎ (r.task ≢ none))
    → lookup id c.results ≡ some r
    → Holds id r (stored j tr c)
stored-Holds j id tr r c fits h =
    elim (Bool-cases (str_eq j id && replaceable (lookup j c.results))) [
      | inr kept ↦ (r, ground (arith, stored_result j tr c id), inl refl)
      | inl written ↦
          let same : j ≡ id = (str_eq_iff j id).0 (ground arith) in
          let there : lookup j c.results ≡ some r = ap (λ k. lookup k c.results) same ∙ h in
          let bare : r.task ≡ none = ground arith in
          (
            tr,
            ground (arith, stored_result j tr c id),
            inr (bare, elim (fits there) [ inl full ↦ full | inr full ↦ absurd (full bare) ]),
          )
    ]

-- A decodable message with a task ID is stored under that ID.
pub handle_result-stored :
    (unmarshal_task : Str → Option Task) (c : Collector) (msg : Msg) (task : Task)
    → is_empty (extract_suffix msg.subject (codes "agent.results.")) ≡ false
    → unmarshal_task msg.payload ≡ some task
    → is_empty task.id ≡ false
    → handle_result unmarshal_task msg c ≡ stored task.id (result_of task.id task) c
unfolding handle_result
handle_result-stored unmarshal_task c msg task given decoded named =
    rw (given, decoded, named, handle_result) refl

module _ (unmarshal_task : Str → Option Task) (unmarshal_status : Str → Option TaskStatus) where
  -- A WaitFor call that blocks has a value in its channel exactly when its task has a result, and that value is a result of the task.
  pub blocked-delivered_iff :
      (c : Collector)
      → Steps unmarshal_task unmarshal_status new_collector c
      → (id : Str) (i : ℕ) → c.blocked i ≡ some id
      → ((v : TaskResult) × (c.buffer i ≡ some v) × (v.task_id ≡ id))
        ↔ (has_key id c.results ≡ true)
  blocked-delivered_iff c path id i blocks =
      let s : IsSound c =
        Steps-IsSound unmarshal_task unmarshal_status path new_collector-IsSound in
      (
        λ filled. let (v, e, _) = filled in (s.delivered id i v blocks e).1,
        λ known. elim (Option-cases (c.buffer i)) [
          | inr (v, e) ↦ (v, e, (s.delivered id i v blocks e).0)
          | inl empty ↦ elim (Option-cases (lookup id c.results)) [
            | inl missing ↦ absurd (cc)
            | inr (r, found) ↦
                absurd (ground (arith, s.listed id i blocks empty, s.settled id r found))
          ]
        ],
      )

  Step-Holds :
      {c d : Collector} (id : Str) (r : TaskResult)
      → Step unmarshal_task unmarshal_status c d
      → IsSound c
      → lookup id c.results ≡ some r
      → Holds id r d
  unfolding wait_for receive_result cancel_wait commit_status
  Step-Holds {c} {d} id r (waits j) s h = kept-Holds id r c d (ground arith) h
  Step-Holds {c} {d} id r (receives i) s h = kept-Holds id r c d (ground arith) h
  Step-Holds id r (cancels j i own) s h = (r, h, inl refl)
  Step-Holds {c} {d} id r (gets_result msg) s h =
      elim (handle_result_cases unmarshal_task unmarshal_status msg c) [
        | inl same ↦ kept-Holds id r c d (ap (λ z. z.results) same) h
        | inr (j, task, e) ↦
            subst (Holds id r) (sym e)
              (stored-Holds j id (result_of j task) r c (λ there. inl (λ none_left. cc)) h)
      ]
  Step-Holds {c} {d} id r (gets_status msg idle) s h =
      elim (handle_status_cases unmarshal_task unmarshal_status msg c) [
        | inl same ↦ kept-Holds id r c d (ap (λ z. z.results) same) h
        | inr (j, status, _, _, e) ↦ kept-Holds id r c d (ap (λ z. z.results) e) h
      ]
  Step-Holds {c} {d} id r commits s h = elim (Option-cases c.in_flight) [
    | inl idle ↦ kept-Holds id r c d (ground arith) h
    | inr ((j, tr), f) ↦
        let written : d.results ≡ (stored j tr c).results = rw (f, commit_status) refl in
        let (q, found, newer) =
          stored-Holds j id tr r c
            (λ there. inr (let (_, _, apart) = s.flying j tr f in apart r there)) h in
        (q, ap (lookup id) written ∙ found, newer)
  ]

  -- From any state that runs reach: a stored result stays through all further steps, but for a mere
  -- status, which a result with a task may replace.
  pub result_stays :
      (c d : Collector)
      → Steps unmarshal_task unmarshal_status new_collector c
      → Steps unmarshal_task unmarshal_status c d
      → (id : Str) (r : TaskResult) → lookup id c.results ≡ some r
      → (q : TaskResult) × (lookup id d.results ≡ some q) × Supersedes q r
  result_stays c d start stay id r h = (r, h, inl refl)
  result_stays c d start (and_then {d = m} path step) id r h =
      let (q, found, newer) = result_stays c m start path id r h in
      let s : IsSound m =
        Steps-IsSound unmarshal_task unmarshal_status path
          (Steps-IsSound unmarshal_task unmarshal_status start new_collector-IsSound) in
      let (p, found', newer') = Step-Holds id q step s found in
      (p, found', Supersedes-trans newer' newer)

  wait_for-eq-some :
      (id : Str) (r : TaskResult) (c : Collector)
      → lookup id c.results ≡ some r
      → (wait_for id c).1 ≡ some r
  unfolding wait_for
  wait_for-eq-some id r c h = rw (h, wait_for) refl

  -- What supersedes a result with a task is that result.
  Holds-full :
      (id : Str) (r : TaskResult) (task : Task) (d : Collector)
      → r.task ≡ some task
      → Holds id r d
      → lookup id d.results ≡ some r
  Holds-full id r task d full (q, found, inl same) = found ∙ ap some same
  Holds-full id r task d full (q, found, inr (bare, _)) = absurd (cc)

  -- If runs reach the state, and a decodable message with a task ID comes on the result subject:
  -- every call that blocks for the task on an empty channel is handed the message's task, and if
  -- nothing or a mere status was stored before, WaitFor returns it in every state that further runs
  -- reach.
  pub handle_result-answers :
      (c : Collector)
      → Steps unmarshal_task unmarshal_status new_collector c
      → (msg : Msg) (task : Task)
      → is_empty (extract_suffix msg.subject (codes "agent.results.")) ≡ false
      → unmarshal_task msg.payload ≡ some task
      → is_empty task.id ≡ false
      → ((i : ℕ)
          → c.blocked i ≡ some task.id
          → c.buffer i ≡ none
          → (handle_result unmarshal_task msg c).buffer i ≡ some (result_of task.id task))
        × (replaceable (lookup task.id c.results) ≡ true
            → (d : Collector)
            → Steps unmarshal_task unmarshal_status (handle_result unmarshal_task msg c) d
            → (wait_for task.id d).1 ≡ some (result_of task.id task))
  handle_result-answers c path msg task given decoded named =
      let s : IsSound c =
        Steps-IsSound unmarshal_task unmarshal_status path new_collector-IsSound in
      let tr = result_of task.id task in
      let e = handle_result-stored unmarshal_task c msg task given decoded named in
      (
        λ i b empty.
            ap (λ d. d.buffer i) e
            ∙ ground (arith, stored_buffer task.id tr c i, s.listed task.id i b empty),
        λ free d later.
            let found : lookup task.id (handle_result unmarshal_task msg c).results ≡ some tr =
              ap (λ x. lookup task.id x.results) e
              ∙ ground (arith, stored_result task.id tr c task.id, str_eq_refl task.id) in
            wait_for-eq-some task.id tr d (
              Holds-full task.id tr task d refl (
                result_stays (handle_result unmarshal_task msg c) d
                  (and_then path (gets_result msg)) later task.id tr found)),
      )
