-- ===== src/Acp/Client/Routed.antt =====
-- The calls of internal/acp/client.go get their own replies, and the reader never waits for a channel.
use daedalus.Prelude.{
  ℕ, ◌≡◌, refl, sym, ap, ◌∙◌, subst, inl, inr, true, false, ◌==◌, Option, some, [], arith,
  if◌then◌else◌, Str, is_empty, Bool-cases, Option-cases,
}
use daedalus.Acp.Messages.{Response, Frame, Codec, is_server_request, is_notification}
use daedalus.Acp.Client.{
  Client, connect, has, at, fresh_id, register, register_prompt, unregister, send_reply, route,
  dispatch, read_line,
}
use daedalus.Acp.Client.Steps.{
  begin_call, begin_prompt, sends, leaves, leaves_deltas, receives, takes, reads, ends, quits, Step,
  Reach, here, next, connected,
}
use daedalus.Acp.Client.Calls.{
  has-without, has-add_id, without-Distinct, add_id-Distinct, IsRouted, SameCalls-IsRouted,
  request-SameCalls, notification-SameCalls, send_request-SameCalls,
}
use daedalus.Acp.Client.Failing.{end_of_stream-IsRouted}

register-IsRouted : (c : Client) → IsRouted c → IsRouted (register c)
unfolding register
register-IsRouted c w = record {
  open_empty = λ id awake there. elim (Bool-cases (id == fresh_id c)) [
    | inl new ↦ rw new refl
    | inr old ↦
        rw old (w.open_empty id awake (ground (arith, has-add_id id (fresh_id c) c.pending)))
  ];
  own = λ id r h. elim (Bool-cases (id == fresh_id c)) [
    | inl new ↦ absurd (ground arith)
    | inr old ↦ w.own id r (rw old at h)
  ];
  distinct = add_id-Distinct (fresh_id c) c.pending w.distinct;
  free = w.free;
}

-- The client in which the call has its reply.
abbrev pub answered : ℕ → Response → Client → Client
answered id msg c = record (unregister id c) { replies = at id (some msg) c.replies }

pub route-answered :
    (id : ℕ) (msg : Response) (c : Client)
    → IsRouted c
    → c.reading ≡ true
    → has id c.pending ≡ true
    → route id msg c ≡ answered id msg c
unfolding route send_reply
route-answered id msg c w awake there = ground (arith, w.open_empty id awake there)

answered-IsRouted :
    (id : ℕ) (msg : Response) (c : Client)
    → msg.id ≡ some id
    → IsRouted c
    → IsRouted (answered id msg c)
answered-IsRouted id msg c mine w = record {
  open_empty = λ x awake there. elim (Bool-cases (x == id)) [
    | inl same ↦ absurd (ground (arith, has-without x id c.pending))
    | inr other ↦ rw other (w.open_empty x awake (ground (arith, has-without x id c.pending)))
  ];
  own = λ x r h. elim (Bool-cases (x == id)) [
    | inl same ↦
        let e : msg ≡ r = ground arith in
        let q : x ≡ id = ground arith in inl (ap (λ m. m.id) (sym e) ∙ mine ∙ ap some (sym q))
    | inr other ↦ w.own x r (rw other at h)
  ];
  distinct = without-Distinct id c.pending w.distinct;
  free = w.free;
}

route-IsRouted :
    (id : ℕ) (msg : Response) (c : Client)
    → msg.id ≡ some id
    → c.reading ≡ true
    → IsRouted c
    → IsRouted (route id msg c)
unfolding route
route-IsRouted id msg c mine awake w = elim (Bool-cases (has id c.pending)) [
  | inl there ↦
      subst IsRouted (sym (route-answered id msg c w awake there))
        (answered-IsRouted id msg c mine w)
  | inr unknown ↦ rw unknown w
]

dispatch-IsRouted :
    (codec : Codec) (writes : Frame → Option Str) (msg : Response) (c : Client)
    → c.reading ≡ true
    → IsRouted c
    → IsRouted (dispatch codec writes msg c)
unfolding dispatch
dispatch-IsRouted codec writes msg c awake w = elim (Bool-cases (is_server_request msg)) [
  | inl asks ↦ elim (Option-cases msg.id) [
    | inl bare ↦ rw (asks, bare) w
    | inr (id, mine) ↦
        rw (asks, mine) (SameCalls-IsRouted (request-SameCalls codec writes id msg c) w)
  ]
  | inr other ↦ elim (Bool-cases (is_notification msg)) [
    | inl tells ↦ rw (other, tells) (SameCalls-IsRouted (notification-SameCalls codec msg c) w)
    | inr response ↦ elim (Option-cases msg.id) [
      | inl bare ↦ rw (other, response, bare) w
      | inr (id, mine) ↦ rw (other, response, mine) (route-IsRouted id msg c mine awake w)
    ]
  ]
]

read_line-IsRouted :
    (codec : Codec) (writes : Frame → Option Str) (line : Str) (c : Client)
    → c.reading ≡ true
    → IsRouted c
    → IsRouted (read_line codec writes line c)
unfolding read_line
read_line-IsRouted codec writes line c awake w = elim (Bool-cases (is_empty line)) [
  | inl empty ↦ rw empty w
  | inr filled ↦ elim (Option-cases (codec.read_message line)) [
    | inl broken ↦ rw (filled, broken) w
    | inr (msg, good) ↦ rw (filled, good) (dispatch-IsRouted codec writes msg c awake w)
  ]
]

Step-IsRouted : {codec : Codec} {c d : Client} → Step codec c d → IsRouted c → IsRouted d
unfolding register_prompt
Step-IsRouted (begin_call c) w = register-IsRouted c w
Step-IsRouted (begin_prompt session c) w =
    SameCalls-IsRouted (record { pending = refl; replies = refl; stuck = refl; reading = refl })
      (register-IsRouted c w)
Step-IsRouted {codec} (sends writes id method params c) w =
    SameCalls-IsRouted (send_request-SameCalls codec writes id method params c) w
Step-IsRouted (leaves id c) w = record {
  open_empty = λ x awake there. w.open_empty x awake (ground (arith, has-without x id c.pending));
  own = w.own;
  distinct = without-Distinct id c.pending w.distinct;
  free = w.free;
}
Step-IsRouted (leaves_deltas session c) w =
    SameCalls-IsRouted (record { pending = refl; replies = refl; stuck = refl; reading = refl }) w
Step-IsRouted (receives id r c got) w = record {
  open_empty = λ x awake there. elim (Bool-cases (x == id)) [
    | inl same ↦ rw same refl
    | inr other ↦ rw other (w.open_empty x awake there)
  ];
  own = λ x m h. elim (Bool-cases (x == id)) [
    | inl same ↦ absurd (ground arith)
    | inr other ↦ w.own x m (rw other at h)
  ];
  distinct = w.distinct;
  free = w.free;
}
Step-IsRouted (takes id chunk rest c got) w =
    SameCalls-IsRouted (record { pending = refl; replies = refl; stuck = refl; reading = refl }) w
Step-IsRouted {codec} (reads writes line c reading) w =
    read_line-IsRouted codec writes line c reading w
Step-IsRouted (ends c reading) w = end_of_stream-IsRouted c reading w
Step-IsRouted (quits c reading) w = record {
  open_empty = λ id closed there. absurd (cc);
  own = w.own;
  distinct = w.distinct;
  free = w.free;
}

connected-IsRouted : (addr : Str) → IsRouted (connected addr)
unfolding connect
connected-IsRouted addr = record {
  open_empty = λ id awake there. refl;
  own = λ id r h. absurd (cc);
  distinct = tt;
  free = refl;
}

Reach-IsRouted : {codec : Codec} {c d : Client} → IsRouted c → Reach codec c d → IsRouted d
Reach-IsRouted w here = w
Reach-IsRouted w (next r step) = Step-IsRouted step (Reach-IsRouted w r)

-- In every state that the goroutines around a connected client reach, in any order and with any input:
-- a reply in the channel of a call has the call's ID, or is the error that the connection closed; the
-- reader never waits at a full channel; and as long as it awake, the channel of each call in the map is
-- empty, so that its reply finds room.
pub reached-IsRouted :
    (codec : Codec) (addr : Str) (c : Client) → Reach codec (connected addr) c → IsRouted c
reached-IsRouted codec addr c r = Reach-IsRouted (connected-IsRouted addr) r

-- If such a state still awake, a message with an ID and no method, from a line that is decoded, goes to
-- the call with this ID and to no other: if that is in the map, its channel has the message afterwards
-- and it has left the map; if not, nothing changes.
pub read_line-answers :
    (codec : Codec) (addr : Str) (c : Client) (writes : Frame → Option Str) (line : Str)
    (msg : Response) (id : ℕ)
    → Reach codec (connected addr) c
    → c.reading ≡ true
    → is_empty line ≡ false
    → codec.read_message line ≡ some msg
    → msg.id ≡ some id
    → msg.method ≡ []
    → read_line codec writes line c ≡ (if has id c.pending then answered id msg c else c)
unfolding read_line dispatch route
read_line-answers codec addr c writes line msg id r awake filled good mine plain =
    let w = reached-IsRouted codec addr c r in
    let q : read_line codec writes line c ≡ route id msg c = ground arith in
    elim (Bool-cases (has id c.pending)) [
      | inl there ↦ q ∙ route-answered id msg c w awake there ∙ ground arith
      | inr unknown ↦ q ∙ ground arith
    ]
