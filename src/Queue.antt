-- ===== src/Queue.antt =====
-- internal/queue/nats.go: what the consumer tells the server about a message.
pub mod Tried
mod Samples
use daedalus.Prelude.{ℕ, leb, Option, none, some, if◌then◌else◌, Str}

-- defaultMaxDeliver
abbrev pub max_deliver : ℕ
max_deliver = 3

-- The calls that end the processing of a message.
pub data Disposition : Type 0 where
  ack nak term : Disposition

-- A delivery of a message: NumDelivered, the error of the handler, and those of the calls.
pub record Delivery : Type 0 where
  pub num_delivered : ℕ
  pub handler_err : Option Str
  pub call_err : Disposition → Option Str

-- processMessage: the call that is made, and its error, which is only logged.
unfoldable pub process_message : Delivery → Disposition × Option Str
process_message d = elim d.handler_err [
  | none ↦ (ack, d.call_err ack)
  | some _ ↦
      if leb max_deliver d.num_delivered then (term, d.call_err term) else (nak, d.call_err nak)
]
