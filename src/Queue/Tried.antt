-- ===== src/Queue/Tried.antt =====
-- The deliveries of one message to processMessage of internal/queue/nats.go.
use daedalus.Prelude.{
  ℕ, suc, ◌<◌, ◌≡◌, ◌≢◌, ◌⊎◌, Bool, true, false, Option, none, some, List, [], ◌∷◌, Str,
}
use daedalus.Queue.{max_deliver, Disposition, ack, nak, term, Delivery, process_message}

-- The server knows that the message is done: it was told so, without an error.
abbrev pub settles : Disposition × Option Str → Bool
settles (nak, e) = false
settles (ack, none) = true
settles (ack, some e) = false
settles (term, none) = true
settles (term, some e) = false

-- The deliveries of a message, from the one with this number on, by what JetStream documents for a
-- consumer with explicit acknowledgement: it delivers a message again, with the next number, after a
-- Nak or if no Ack or Term comes through, until MaxDeliver.
abbrev pub Deliveries : ℕ → List Delivery → Type 0
Deliveries n [] = ⊥
Deliveries n (d ∷ []) =
    (d.num_delivered ≡ n) × ((settles (process_message d) ≡ true) ⊎ (n ≡ max_deliver))
Deliveries n (d ∷ e ∷ ds) =
    (d.num_delivered ≡ n)
    × (settles (process_message d) ≡ false)
    × (n < max_deliver)
    × Deliveries (suc n) (e ∷ ds)

abbrev pub Succeeded : List Delivery → Type 0
Succeeded [] = ⊥
Succeeded (d ∷ ds) = (d.handler_err ≡ none) ⊎ Succeeded ds

-- After a delivery that the handler took without an error, another one comes only if the Ack failed.
abbrev pub RepeatedByAck : List Delivery → Type 0
RepeatedByAck [] = Unit
RepeatedByAck (d ∷ []) = Unit
RepeatedByAck (d ∷ e ∷ ds) = (d.handler_err ≡ none → d.call_err ack ≢ none) × RepeatedByAck (e ∷ ds)
