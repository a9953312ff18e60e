-- ===== src/Orchestrator/Collector/Sound.antt =====
-- The invariant of the result collector (internal/orchestrator/collector.go), and that every locked
-- region keeps it.
use daedalus.Prelude.{
  ℕ, ◌≤◌, ◌==◌, ◌≡◌, refl, ap, ◌∙◌, ◌≢◌, inl, inr, Bool, true, false, ◌&&◌, ◌||◌, Option, none,
  some, List, [], ◌∷◌, ◌++◌, is_nil, arith, if◌then◌else◌, Str, str_eq, str_eq_iff, Map, lookup,
  insert, delete, has_key, lookup-insert, lookup-delete, Bool-cases, Option-cases, ==_iff,
}
use daedalus.Orchestrator.Types.{TaskResult}
use daedalus.Orchestrator.Collector.{
  Collector, put, new_collector, waiters_of, wait_for, receive_result, others, cancel_wait,
  send_all, replaceable, store_and_notify,
}

abbrev pub mem : ℕ → List ℕ → Bool
mem i [] = false
mem i (j ∷ js) = i == j || mem i js

pub waiters_of-insert :
    (id j : Str) (l : List ℕ) (ws : Map (List ℕ))
    → waiters_of j (insert id l ws) ≡ (if str_eq id j then l else waiters_of j ws)
unfolding waiters_of
waiters_of-insert id j l ws = ground (arith, lookup-insert id j l ws)

pub waiters_of-delete :
    (id j : Str) (ws : Map (List ℕ))
    → waiters_of j (delete id ws) ≡ (if str_eq id j then [] else waiters_of j ws)
unfolding waiters_of
waiters_of-delete id j ws = ground (arith, lookup-delete id j ws)

mem-append : (i : ℕ) (js ks : List ℕ) → mem i (js ++ ks) ≡ (mem i js || mem i ks)
mem-append i [] ks = refl
mem-append i (j ∷ js) ks = ground (arith, mem-append i js ks)

mem-others : (i j : ℕ) (js : List ℕ) → mem i (others j js) ≡ (if i == j then false else mem i js)
mem-others i j [] = ground arith
mem-others i j (k ∷ ks) = ground (arith, mem-others i j ks)

-- A cell after a send: its old content, or what was sent to it.
abbrev pub sent : TaskResult → Bool → Option TaskResult → Option TaskResult
sent tr listed none = if listed then some tr else none
sent tr listed (some old) = some old

pub send_all_at :
    (tr : TaskResult) (js : List ℕ) (cells : ℕ → Option TaskResult) (i : ℕ)
    → send_all tr js cells i ≡ sent tr (mem i js) (cells i)
unfolding send_all
send_all_at tr [] cells i = ground arith
send_all_at tr (j ∷ js) cells i = elim (Option-cases (cells j)) [
  | inl empty ↦
      let rest = send_all_at tr js (put j (some tr) cells) i in
      rw empty (elim (Bool-cases (i == j)) [
        | inl same ↦
            let e : i ≡ j = (==_iff i j).0 same in
            let at_i : cells i ≡ none = ap cells e ∙ empty in ground arith
        | inr other ↦ ground arith
      ])
  | inr (old, full) ↦
      let rest = send_all_at tr js cells i in
      rw full (elim (Bool-cases (i == j)) [
        | inl same ↦
            let at_i : cells i ≡ some old = ap cells ((==_iff i j).0 same) ∙ full in ground arith
        | inr other ↦ ground arith
      ])
]

-- What the operations keep true.
pub record IsSound (c : Collector) : Type 0 where
  -- A registered channel belongs to a call that blocks, and is empty.
  pub registered :
      (id : Str) (i : ℕ)
      → mem i (waiters_of id c.waiters) ≡ true
      → (c.blocked i ≡ some id) × (c.buffer i ≡ none)
  -- A call that blocks on an empty channel is registered.
  pub listed :
      (id : Str) (i : ℕ)
      → c.blocked i ≡ some id
      → c.buffer i ≡ none
      → mem i (waiters_of id c.waiters) ≡ true
  -- Nobody waits for a task that has a result.
  pub settled :
      (id : Str) (r : TaskResult) → lookup id c.results ≡ some r → waiters_of id c.waiters ≡ []
  -- Results are those of their task, stored and delivered.
  pub labelled : (id : Str) (r : TaskResult) → lookup id c.results ≡ some r → r.task_id ≡ id
  pub delivered :
      (id : Str) (i : ℕ) (r : TaskResult)
      → c.blocked i ≡ some id
      → c.buffer i ≡ some r
      → (r.task_id ≡ id) × (has_key id c.results ≡ true)
  pub unused : (i : ℕ) → c.next ≤ i → (c.blocked i ≡ none) × (c.buffer i ≡ none)
  -- A status in flight meets no other status.
  pub flying :
      (id : Str) (tr : TaskResult)
      → c.in_flight ≡ some (id, tr)
      → (tr.task_id ≡ id)
        × (tr.task ≡ none)
        × ((r : TaskResult) → lookup id c.results ≡ some r → r.task ≢ none)

pub new_collector-IsSound : IsSound new_collector
unfolding waiters_of lookup
new_collector-IsSound = record {
  registered = λ id i m. absurd (cc);
  listed = λ id i b e. absurd (cc);
  settled = λ id r h. refl;
  labelled = λ id r h. absurd (cc);
  delivered = λ id i r b e. absurd (cc);
  unused = λ i h. (refl, refl);
  flying = λ id tr h. absurd (cc);
}

-- WaitFor keeps the invariant.
pub wait_for-IsSound : (id : Str) (c : Collector) → IsSound c → IsSound (wait_for id c).0
unfolding wait_for
wait_for-IsSound id c s = elim (Option-cases (lookup id c.results)) [
  | inr (r, there) ↦ rw (there, wait_for) s
  | inl missing ↦
      rw (missing, wait_for)
        (record {
          registered = λ j i m. ground (
            arith,
            s.registered j i,
            s.unused c.next,
            s.unused i,
            str_eq_iff id j,
            waiters_of-insert id j (waiters_of id c.waiters ++ c.next ∷ []) c.waiters,
            mem-append i (waiters_of id c.waiters) (c.next ∷ []),
          );
          listed = λ j i b e. ground (
            arith,
            s.listed j i,
            s.unused c.next,
            str_eq_iff id j,
            waiters_of-insert id j (waiters_of id c.waiters ++ c.next ∷ []) c.waiters,
            mem-append i (waiters_of id c.waiters) (c.next ∷ []),
          );
          settled = λ j r h. ground (
            arith,
            s.settled j r,
            str_eq_iff id j,
            waiters_of-insert id j (waiters_of id c.waiters ++ c.next ∷ []) c.waiters,
          );
          labelled = s.labelled;
          delivered = λ j i r b e. ground (arith, s.delivered j i r, s.unused i);
          unused = λ i h. ground (arith, s.unused i);
          flying = s.flying;
        })
]

-- The receive of a WaitFor call keeps the invariant.
pub receive_result-IsSound :
    (channel : ℕ) (c : Collector) → IsSound c → IsSound (receive_result channel c).0
unfolding receive_result
receive_result-IsSound channel c s = elim (Option-cases (c.buffer channel)) [
  | inl empty ↦ rw (empty, receive_result) s
  | inr (r, full) ↦
      rw (full, receive_result)
        (record {
          registered = λ j i m. ground (arith, s.registered j i, ==_iff channel i);
          listed = λ j i b e. ground (arith, s.listed j i, ==_iff channel i);
          settled = s.settled;
          labelled = s.labelled;
          delivered = λ j i v b e. ground (arith, s.delivered j i v, ==_iff channel i);
          unused = λ i h. ground (arith, s.unused i);
          flying = s.flying;
        })
]

waiters_of-cancel_wait :
    (id j : Str) (channel : ℕ) (c : Collector)
    → waiters_of j (cancel_wait id channel c).waiters
      ≡ (if str_eq id j then others channel (waiters_of id c.waiters) else waiters_of j c.waiters)
unfolding cancel_wait
waiters_of-cancel_wait id j channel c =
    elim (Bool-cases (is_nil (others channel (waiters_of id c.waiters)))) [
      | inl gone ↦
          let none_left : others channel (waiters_of id c.waiters) ≡ [] = is_nil-eq gone in
          rw (gone, cancel_wait) (ground (arith, waiters_of-delete id j c.waiters))
      | inr some_left ↦
          rw (some_left, cancel_wait)
            (waiters_of-insert id j (others channel (waiters_of id c.waiters)) c.waiters)
    ]
  where
    is_nil-eq : {l : List ℕ} → is_nil l ≡ true → l ≡ []
    is_nil-eq {l = []} h = refl
    is_nil-eq {l = x ∷ xs} h = absurd (cc)

-- The end of a canceled WaitFor call keeps the invariant.
pub cancel_wait-IsSound :
    (id : Str) (channel : ℕ) (c : Collector)
    → c.blocked channel ≡ some id
    → IsSound c
    → IsSound (cancel_wait id channel c)
unfolding cancel_wait
cancel_wait-IsSound id channel c own s = record {
  registered = λ j i m. ground (
    arith,
    s.registered j i,
    str_eq_iff id j,
    ==_iff channel i,
    waiters_of-cancel_wait id j channel c,
    mem-others i channel (waiters_of id c.waiters),
  );
  listed = λ j i b e. ground (
    arith,
    s.listed j i,
    str_eq_iff id j,
    ==_iff channel i,
    waiters_of-cancel_wait id j channel c,
    mem-others i channel (waiters_of id c.waiters),
  );
  settled = λ j r h.
      ground (arith, s.settled j r, str_eq_iff id j, waiters_of-cancel_wait id j channel c);
  labelled = s.labelled;
  delivered = λ j i v b e. ground (arith, s.delivered j i v, ==_iff channel i);
  unused = λ i h. ground (arith, s.unused i);
  flying = s.flying;
}

module _ (id : Str) (tr : TaskResult) (c : Collector) where
  abbrev pub stored : Collector
  stored = store_and_notify id tr c

  pub stored_result :
      (j : Str)
      → lookup j stored.results
        ≡ (if str_eq id j && replaceable (lookup id c.results) then some tr else lookup j c.results)
  unfolding store_and_notify
  stored_result j = ground (arith, lookup-insert id j tr c.results)

  pub stored_waiters :
      (j : Str) → waiters_of j stored.waiters ≡ (if str_eq id j then [] else waiters_of j c.waiters)
  unfolding store_and_notify
  stored_waiters j = waiters_of-delete id j c.waiters

  pub stored_buffer :
      (i : ℕ) → stored.buffer i ≡ sent tr (mem i (waiters_of id c.waiters)) (c.buffer i)
  unfolding store_and_notify
  stored_buffer i = send_all_at tr (waiters_of id c.waiters) c.buffer i

  -- storeAndNotify keeps the invariant, but for a status in flight.
  pub store_and_notify-IsSound :
      tr.task_id ≡ id
      → ((j : Str) (t : TaskResult)
          → c.in_flight ≡ some (j, t)
          → (t.task_id ≡ j)
            × (t.task ≡ none)
            × ((r : TaskResult) → lookup j stored.results ≡ some r → r.task ≢ none))
      → IsSound c
      → IsSound stored
  unfolding store_and_notify
  store_and_notify-IsSound own flight s = record {
    registered = λ j i m. ground (
      arith,
      s.registered j i,
      s.registered id i,
      str_eq_iff id j,
      stored_waiters j,
      stored_buffer i,
    );
    listed = λ j i b e.
        ground
          (arith, s.listed j i, s.listed id i, str_eq_iff id j, stored_waiters j, stored_buffer i);
    settled =
        λ j r h. ground (arith, s.settled j r, str_eq_iff id j, stored_waiters j, stored_result j);
    labelled = λ j r h. ground (arith, s.labelled j r, str_eq_iff id j, stored_result j);
    delivered = λ j i r b e. ground (
      arith,
      s.delivered j i r,
      s.registered id i,
      stored_buffer i,
      stored_result j,
      str_eq_iff id j,
    );
    unused = λ i h. ground (arith, s.unused i, s.registered id i, stored_buffer i);
    flying = flight;
  }
