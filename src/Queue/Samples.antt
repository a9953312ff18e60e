-- ===== src/Queue/Samples.antt =====
-- A message of internal/queue/nats.go that fails once, then succeeds while its Ack is lost, and again.
use daedalus.Prelude.{ℕ, Option, none, some, List, [], ◌∷◌, Str, codes}
use daedalus.Queue.{Disposition, ack, nak, term, Delivery}

abbrev lost : Disposition → Option Str
lost ack = some (codes "timeout")
lost nak = none
lost term = none

abbrev sent : Disposition → Option Str
sent d = none

abbrev delivery : ℕ → Option Str → (Disposition → Option Str) → Delivery
delivery n e calls = record { num_delivered = n; handler_err = e; call_err = calls }

abbrev history : List Delivery
history = delivery 1 (some (codes "busy")) sent ∷ delivery 2 none lost ∷ delivery 3 none sent ∷ []
