-- ===== src/Proxy/Shutdown.antt =====
-- internal/proxy/shutdown.go: Shutdown, against the Handle calls in flight, as steps. The code under
-- the handler's mutex is one step; which case of a select is taken is open.
use daedalus.Prelude.{
  ℕ, suc, ◌≡◌, refl, ap, ◌∙◌, Bool, true, false, Option, none, some, List, [], arith, Str, str_eq,
  add, keep, not, if◌then◌else◌,
}

-- How Shutdown stands: not called, in the select of the grace period, between that and the
-- cancellation of the sessions, in the select of the exit buffer, or returned, with the error.
pub data Phase : Type 0 where
  running waiting canceling draining : Phase
  ended : Option Str → Phase

pub record Proxy : Type 0 where
  pub phase : Phase
  pub shutting_down : Bool
  pub in_flight : ℕ
  pub sessions : List Str
  pub work_canceled : Bool
  -- The sessions for which CancelSession was called.
  pub cancels : List Str

abbrev pub new_proxy : Proxy
new_proxy = record {
  phase = running;
  shutting_down = false;
  in_flight = 0;
  sessions = [];
  work_canceled = false;
  cancels = [];
}

-- The begin of Handle: wg.Add unless a shutdown has begun.
unfoldable pub enter : Proxy → Proxy
enter p = if p.shutting_down then p else record p { in_flight = suc p.in_flight }

-- Phase 1.
abbrev pub begin : Proxy → Proxy
begin p = record p { phase = waiting; shutting_down = true }

-- The returns of phase 2, each after workCancel.
abbrev pub cancel_and_return : Option Str → Proxy → Proxy
cancel_and_return e p = record p { phase = ended e; work_canceled = true }

-- The returns of phase 4.
abbrev pub return_with : Option Str → Proxy → Proxy
return_with e p = record p { phase = ended e }

-- Phase 3: workCancel, and then CancelActiveSessions for the sessions of that moment.
abbrev pub cancel_work : Proxy → Proxy
cancel_work p = record p { phase = canceling; work_canceled = true }

abbrev pub cancel_sessions : Proxy → Proxy
cancel_sessions p = record p { phase = draining; cancels = p.sessions }

pub data Step (p : Proxy) : Proxy → Type 0 where
  enters : Step p (enter p)
  leaves : (n : ℕ) → p.in_flight ≡ suc n → Step p (record p { in_flight = n })
  registers : (id : Str) → Step p (record p { sessions = add id p.sessions })
  deregisters :
      (id : Str) → Step p (record p { sessions = keep (λ s. not (str_eq s id)) p.sessions })
  begins : p.phase ≡ running → Step p (begin p)
  -- Phase 2: the WaitGroup is empty, the caller's context ends, or the grace period does.
  all_done : p.phase ≡ waiting → p.in_flight ≡ 0 → Step p (cancel_and_return none p)
  context_ends : (e : Str) → p.phase ≡ waiting → Step p (cancel_and_return (some e) p)
  grace_ends : p.phase ≡ waiting → Step p (cancel_work p)
  cancels_sessions : p.phase ≡ canceling → Step p (cancel_sessions p)
  -- Phase 4.
  drained : p.phase ≡ draining → p.in_flight ≡ 0 → Step p (return_with none p)
  times_out : (e : Str) → p.phase ≡ draining → Step p (return_with (some e) p)

pub data Steps (p : Proxy) : Proxy → Type 0 where
  stay : Steps p p
  and_then : {q r : Proxy} → Steps p q → Step q r → Steps p r

abbrev pub has_begun : Phase → Bool
has_begun running = false
has_begun waiting = true
has_begun canceling = true
has_begun draining = true
has_begun (ended e) = true

-- workCancel was called, in phase 3 or with a return of phase 2.
abbrev pub past_grace : Phase → Bool
past_grace running = false
past_grace waiting = false
past_grace canceling = true
past_grace draining = true
past_grace (ended e) = true

record IsSound (p : Proxy) : Type 0 where
  closed : has_begun p.phase ≡ true → p.shutting_down ≡ true
  canceled : past_grace p.phase ≡ true → p.work_canceled ≡ true
  empty : p.phase ≡ ended none → p.in_flight ≡ 0

Step-IsSound : {p q : Proxy} → Step p q → IsSound p → IsSound q
unfolding enter
Step-IsSound {p} enters s = record {
  closed = λ h. ground (arith, s.closed);
  canceled = λ h. ground (arith, s.canceled);
  empty = λ h. ground (arith, s.empty, s.closed);
}
Step-IsSound {p} (leaves n e) s = record {
  closed = s.closed;
  canceled = s.canceled;
  empty = λ h. ground (arith, s.empty h);
}
Step-IsSound (registers id) s = record { closed = s.closed; canceled = s.canceled; empty = s.empty }
Step-IsSound (deregisters id) s = record {
  closed = s.closed;
  canceled = s.canceled;
  empty = s.empty;
}
Step-IsSound (begins h) s = record {
  closed = λ _. refl;
  canceled = λ k. absurd (cc);
  empty = λ k. absurd (cc);
}
Step-IsSound (all_done h z) s = record {
  closed = λ _. ground (arith, s.closed);
  canceled = λ k. refl;
  empty = λ k. z;
}
Step-IsSound (context_ends x h) s = record {
  closed = λ _. ground (arith, s.closed);
  canceled = λ k. refl;
  empty = λ k. absurd (ground arith);
}
Step-IsSound (grace_ends h) s = record {
  closed = λ _. ground (arith, s.closed);
  canceled = λ k. refl;
  empty = λ k. absurd (cc);
}
Step-IsSound (cancels_sessions h) s = record {
  closed = λ _. ground (arith, s.closed);
  canceled = λ k. ground (arith, s.canceled);
  empty = λ k. absurd (cc);
}
Step-IsSound (drained h z) s = record {
  closed = λ _. ground (arith, s.closed);
  canceled = λ k. ground (arith, s.canceled);
  empty = λ k. z;
}
Step-IsSound (times_out x h) s = record {
  closed = λ _. ground (arith, s.closed);
  canceled = λ k. ground (arith, s.canceled);
  empty = λ k. absurd (ground arith);
}

Steps-IsSound : {p q : Proxy} → Steps p q → IsSound p → IsSound q
Steps-IsSound stay s = s
Steps-IsSound (and_then path step) s = Step-IsSound step (Steps-IsSound path s)

-- In every state that runs reach in which Shutdown has returned: the work context is canceled, new
-- Handle calls are refused, and if Shutdown returned no error, no Handle call is in flight.
pub shutdown_safe :
    (p : Proxy) (e : Option Str)
    → Steps new_proxy p
    → p.phase ≡ ended e
    → (p.work_canceled ≡ true) × (enter p ≡ p) × (e ≡ none → p.in_flight ≡ 0)
unfolding enter
shutdown_safe p e path over =
    let s : IsSound p = Steps-IsSound path (record {
      closed = λ h. absurd (cc);
      canceled = λ h. absurd (cc);
      empty = λ h. absurd (cc);
    }) in
    let shut : p.shutting_down ≡ true = s.closed (ground arith) in
    (
      s.canceled (ground arith),
      ground arith,
      λ none_left. s.empty (over ∙ ap (λ x. ended x) none_left),
    )
