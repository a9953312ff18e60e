-- ===== src/Orchestrator/Collector/Steps.antt =====
-- The locked regions of internal/orchestrator/collector.go as steps: calls of WaitFor and the two
-- subscription callbacks in any interleaving. NATS runs the callback of one subscription for one
-- message at a time, so a status is handled only when none is in flight.
use daedalus.Prelude.{
  ℕ, ◌≡◌, refl, sym, ap, subst, ◌≢◌, ◌⊎◌, inl, inr, true, not, ◌||◌, Option, none, some, arith,
  if◌then◌else◌, Str, codes, is_empty, lookup, has_key, Bool-cases, Option-cases,
}
use daedalus.A2a.{Task, TaskStatus}
use daedalus.Orchestrator.Types.{TaskResult}
use daedalus.Orchestrator.Collector.{
  Collector, wait_for, receive_result, cancel_wait, store_and_notify, result_of, status_result,
  extract_suffix, is_terminal, Msg, handle_result, handle_status, commit_status,
}
use daedalus.Orchestrator.Collector.Sound.{
  IsSound, wait_for-IsSound, receive_result-IsSound, cancel_wait-IsSound, stored, stored_result,
  store_and_notify-IsSound,
}

in_flight-IsSound :
    (c : Collector) (flight : Option (Str × TaskResult))
    → IsSound c
    → ((j : Str) (t : TaskResult)
        → flight ≡ some (j, t)
        → (t.task_id ≡ j)
          × (t.task ≡ none)
          × ((r : TaskResult) → lookup j c.results ≡ some r → r.task ≢ none))
    → IsSound (record c { in_flight = flight })
in_flight-IsSound c flight s fits = record {
  registered = s.registered;
  listed = s.listed;
  settled = s.settled;
  labelled = s.labelled;
  delivered = s.delivered;
  unused = s.unused;
  flying = fits;
}

module _ (unmarshal_task : Str → Option Task) (unmarshal_status : Str → Option TaskStatus) where
  pub data Step (c : Collector) : Collector → Type 0 where
    waits : (id : Str) → Step c (wait_for id c).0
    receives : (channel : ℕ) → Step c (receive_result channel c).0
    cancels :
        (id : Str) (channel : ℕ) → c.blocked channel ≡ some id → Step c (cancel_wait id channel c)
    gets_result : (msg : Msg) → Step c (handle_result unmarshal_task msg c)
    gets_status : (msg : Msg) → c.in_flight ≡ none → Step c (handle_status unmarshal_status msg c)
    commits : Step c (commit_status c)

  -- Steps from the first state to the index.
  pub data Steps (c : Collector) : Collector → Type 0 where
    stay : Steps c c
    and_then : {d e : Collector} → Steps c d → Step d e → Steps c e

  -- A message on the result subject changes nothing or stores a result with a task.
  pub handle_result_cases :
      (msg : Msg) (c : Collector)
      → (handle_result unmarshal_task msg c ≡ c)
        ⊎ ((id : Str) × (task : Task) × (handle_result unmarshal_task msg c
              ≡ store_and_notify id (result_of id task) c))
  unfolding handle_result
  handle_result_cases msg c =
      elim (Bool-cases (is_empty (extract_suffix msg.subject (codes "agent.results.")))) [
        | inl empty ↦ inl (rw (empty, handle_result) refl)
        | inr given ↦ elim (Option-cases (unmarshal_task msg.payload)) [
          | inl bad ↦ inl (rw (given, bad, handle_result) refl)
          | inr (task, good) ↦ inr (
            if is_empty task.id
                then extract_suffix msg.subject (codes "agent.results.")
                else task.id,
            task,
            rw (given, good, handle_result) refl,
          )
        ]
      ]

  pub handle_status_cases :
      (msg : Msg) (c : Collector)
      → (handle_status unmarshal_status msg c ≡ c)
        ⊎ ((id : Str) × (status : TaskStatus) × (lookup id c.results ≡ none)
            × (is_terminal status.state ≡ true)
            × (handle_status unmarshal_status msg c
                ≡ record c { in_flight = some (id, status_result id status) }))
  unfolding handle_status
  handle_status_cases msg c =
      let id = extract_suffix msg.subject (codes "agent.status.") in
      elim (Bool-cases (is_empty id)) [
        | inl empty ↦ inl (rw (empty, handle_status) refl)
        | inr given ↦ elim (Option-cases (unmarshal_status msg.payload)) [
          | inl bad ↦ inl (rw (given, bad, handle_status) refl)
          | inr (status, good) ↦
              elim (Bool-cases (not (is_terminal status.state) || has_key id c.results)) [
                | inl ignored ↦ inl (rw (given, good, ignored, handle_status) refl)
                | inr taken ↦ inr (
                  id,
                  status,
                  ground arith,
                  ground arith,
                  rw (given, good, taken, handle_status) refl,
                )
              ]
        ]
      ]

  handle_result-IsSound :
      (msg : Msg) (c : Collector) → IsSound c → IsSound (handle_result unmarshal_task msg c)
  handle_result-IsSound msg c s = elim (handle_result_cases msg c) [
    | inl same ↦ subst IsSound (sym same) s
    | inr (id, task, e) ↦
        let tr = result_of id task in
        let keeps : IsSound (stored id tr c) =
          store_and_notify-IsSound id tr c refl
            (λ j t f.
              let (own, partial, apart) = s.flying j t f in
              (own, partial, λ r h. ground (arith, apart r, stored_result id tr c j)))
            s in
        subst IsSound (sym e) keeps
  ]

  handle_status-IsSound :
      (msg : Msg) (c : Collector) → IsSound c → IsSound (handle_status unmarshal_status msg c)
  handle_status-IsSound msg c s = elim (handle_status_cases msg c) [
    | inl same ↦ subst IsSound (sym same) s
    | inr (id, status, new, ends, e) ↦ subst IsSound (sym e) (
        in_flight-IsSound c (some (id, status_result id status)) s (λ j t f.
          let same : id ≡ j = ap (fst_or j) f in
          let as_status : status_result id status ≡ t = ap (snd_or t) f in ground arith))
  ]
    where
      fst_or : Str → Option (Str × TaskResult) → Str
      fst_or j = elim [ none ↦ j | some p ↦ p.0 ]

      snd_or : TaskResult → Option (Str × TaskResult) → TaskResult
      snd_or t = elim [ none ↦ t | some p ↦ p.1 ]

  commit_status-IsSound : (c : Collector) → IsSound c → IsSound (commit_status c)
  unfolding commit_status
  commit_status-IsSound c s = elim (Option-cases c.in_flight) [
    | inl idle ↦ rw (idle, commit_status) s
    | inr ((id, tr), f) ↦
        let landed = record c { in_flight = none } in
        let landed-IsSound : IsSound landed = in_flight-IsSound c none s (λ j t e. absurd (cc)) in
        let (own, _, _) = s.flying id tr f in
        rw (f, commit_status)
          (store_and_notify-IsSound id tr landed own (λ j t e. absurd (cc)) landed-IsSound)
  ]

  pub Step-IsSound : {c d : Collector} → Step c d → IsSound c → IsSound d
  Step-IsSound {c} (waits id) s = wait_for-IsSound id c s
  Step-IsSound {c} (receives channel) s = receive_result-IsSound channel c s
  Step-IsSound {c} (cancels id channel own) s = cancel_wait-IsSound id channel c own s
  Step-IsSound {c} (gets_result msg) s = handle_result-IsSound msg c s
  Step-IsSound {c} (gets_status msg idle) s = handle_status-IsSound msg c s
  Step-IsSound {c} commits s = commit_status-IsSound c s

  pub Steps-IsSound : {c d : Collector} → Steps c d → IsSound c → IsSound d
  Steps-IsSound stay s = s
  Steps-IsSound (and_then path step) s = Step-IsSound step (Steps-IsSound path s)
