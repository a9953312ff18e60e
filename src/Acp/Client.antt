-- ===== src/Acp/Client.antt =====
-- internal/acp/client.go: the client, whose callers and whose reader run side by side. The state is
-- what they share: the map of pending calls, the channels in it and what was written. Each region that
-- one goroutine goes through without waiting is an operation.
pub mod Steps
pub mod Calls
pub mod Failing
pub mod Routed
pub mod Ended
pub mod Deltas
pub mod Chunks
pub mod Answers
mod Samples
use daedalus.Prelude.{
  sprint_int, ℕ, zero, suc, ◌+◌, ◌%◌, ◌^◌, ltb, Bool, true, false, not, ◌&&◌, ◌||◌, ◌==◌, Option,
  none, some, List, [], ◌∷◌, ◌++◌, length, is_nil, keep, if◌then◌else◌, Str, codes, str_eq,
  is_empty, Result, ok, err,
}
use daedalus.Prelude.Int.{ℤ, negsuc}
use daedalus.Acp.Messages.{
  RpcError, Request, Response, ClientInfo, InitializeParams, InitializeResult, SessionNewParams,
  SessionPromptParams, SessionPromptResult, SessionUpdateParams, PermissionRequestParams,
  is_notification, is_server_request, Params, Frame, Codec,
}

-- A channel of a call is named by the call's ID: `replies` and `deltas` are what is in the channels.
pub record Client : Type 0 where
  pub addr : Str
  pub next_id : ℕ
  -- The IDs of the reply channels in the map.
  pub pending : List ℕ
  pub replies : ℕ → Option Response
  -- The call whose delta channel is in the map for a session.
  pub delta_key : Str → Option ℕ
  pub deltas : ℕ → List Str
  pub sent : List Frame
  pub reading : Bool
  -- The reader waits at a full channel.
  pub stuck : Bool

abbrev pub has : ℕ → List ℕ → Bool
has id [] = false
has id (j ∷ ids) = j == id || has id ids

abbrev pub without : ℕ → List ℕ → List ℕ
without id = keep (λ j. not (j == id))

abbrev pub add_id : ℕ → List ℕ → List ℕ
add_id id ids = if has id ids then ids else id ∷ ids

-- A function with another value at a number, or at a session.
abbrev pub at : {V : Type 0} → ℕ → V → (ℕ → V) → ℕ → V
at k v f n = if n == k then v else f n

abbrev pub at_session : {V : Type 0} → Str → V → (Str → V) → Str → V
at_session k v f s = if str_eq s k then v else f s

-- NewClient
abbrev pub new_client : Str → Client
new_client addr = record {
  addr = addr;
  next_id = 0;
  pending = [];
  replies = λ id. none;
  delta_key = λ session. none;
  deltas = λ id. [];
  sent = [];
  reading = false;
  stuck = false;
}

-- Connect, by the error of the dial.
unfoldable pub connect : Option Str → Client → Client × Option Str
connect (some e) c = (c, some (codes "acp: dial " ++ c.addr ++ codes ": " ++ e))
connect none c = (record c { reading = true }, none)

-- nextID.Add(1)
abbrev pub fresh_id : Client → ℕ
fresh_id c = (c.next_id + 1) % 2 ^ 64

-- The ID of a call, with a new channel under it in the map.
unfoldable pub register : Client → Client
register c = record c {
  next_id = fresh_id c;
  pending = add_id (fresh_id c) c.pending;
  replies = at (fresh_id c) none c.replies;
}

-- Prompt has a channel for the deltas of the session besides.
unfoldable pub register_prompt : Str → Client → Client
unfolding register
register_prompt session c = record (register c) {
  delta_key = at_session session (some (fresh_id c)) c.delta_key;
  deltas = at (fresh_id c) [] c.deltas;
}

-- pending.Delete(id)
abbrev pub unregister : ℕ → Client → Client
unregister id c = record c { pending = without id c.pending }

-- pending.Delete("delta:" + sessionID)
abbrev pub unregister_deltas : Str → Client → Client
unregister_deltas session c = record c { delta_key = at_session session none c.delta_key }

-- A write to the connection, by its error.
abbrev pub write : Frame → Option Str → Client → Client
write frame none c = record c { sent = c.sent ++ frame ∷ [] }
write frame (some e) c = c

abbrev pub request_of : ℕ → Str → Str → Frame
request_of id method raw =
    Frame.request (record { jsonrpc = codes "2.0"; id = id; method = method; params = raw })

-- What follows the encoding of the params.
abbrev pub send_raw : (Frame → Option Str) → ℕ → Str → Client → Result Str Str → Client × Option Str
send_raw writes id method c (err e) = (c, some (codes "marshal params: " ++ e))
send_raw writes id method c (ok raw) = (
  write (request_of id method raw) (writes (request_of id method raw)) c,
  writes (request_of id method raw),
)

-- sendRequest: what is written, or the error.
unfoldable pub send_request :
    Codec → (Frame → Option Str) → ℕ → Str → Params → Client → Client × Option Str
send_request codec writes id method params c =
    send_raw writes id method c (codec.marshal_params params)

-- A send to the reply channel of a call, which has room for one.
unfoldable pub send_reply : ℕ → Response → Client → Client
send_reply id msg c = elim (c.replies id) [
  | some r ↦ record c { stuck = true }
  | none ↦ record c { replies = at id (some msg) c.replies }
]

abbrev pub connection_closed : Response
connection_closed = record {
  id = none;
  result = [];
  error = some (record { code = negsuc 31999; message = codes "connection closed" });
  method = [];
  params = [];
}

-- pending.Range at the end of the connection.
unfoldable pub fail_all : List ℕ → Client → Client
unfolding send_reply
fail_all [] c = c
fail_all (id ∷ ids) c = fail_all ids (send_reply id connection_closed c)

-- A chunk into a delta channel, which has room for 256; further ones are dropped.
unfoldable pub send_delta : ℕ → Str → Client → Client
send_delta channel chunk c =
    if ltb (length (c.deltas channel)) 256
    then record c { deltas = at channel (c.deltas channel ++ chunk ∷ []) c.deltas }
    else c

-- Only a chunk of the agent's message with a text counts.
abbrev pub is_chunk : SessionUpdateParams → Bool
is_chunk p = str_eq p.session_update (codes "agent_message_chunk") && not (is_empty p.content_text)

-- To the delta channel of the session, if there is one.
abbrev pub add_chunk : SessionUpdateParams → Client → Option ℕ → Client
add_chunk p c none = c
add_chunk p c (some channel) = if is_chunk p then send_delta channel p.content_text c else c

-- The case session/update of handleNotification.
unfoldable pub update_session : Client → Option SessionUpdateParams → Client
unfolding send_delta str_eq
update_session c none = c
update_session c (some p) = add_chunk p c (c.delta_key p.session_id)

-- handleNotification
unfoldable pub handle_notification : Codec → Response → Client → Client
unfolding update_session
handle_notification codec msg c =
    if str_eq msg.method (codes "session/update")
    then update_session c (codec.read_update msg.params)
    else c

abbrev pub approved : ℕ → Frame
approved id = Frame.approval id (codes "allow_once")

abbrev pub refused : ℕ → Str → Frame
refused id method = Frame.rpc_error id (negsuc 32600) (codes "method not found: " ++ method)

-- The case session/request_permission: without readable params there is no answer.
abbrev pub permit : (Frame → Option Str) → ℕ → Client → Option PermissionRequestParams → Client
permit writes id c none = c
permit writes id c (some p) = write (approved id) (writes (approved id)) c

-- handleServerRequest, for the ID of the message, by the errors of the writes.
unfoldable pub handle_server_request : Codec → (Frame → Option Str) → ℕ → Response → Client → Client
unfolding str_eq
handle_server_request codec writes id msg c =
    if str_eq msg.method (codes "session/request_permission")
    then permit writes id c (codec.read_permission msg.params)
    else write (refused id msg.method) (writes (refused id msg.method)) c

-- A response: to the call that it answers, which leaves the map.
unfoldable pub route : ℕ → Response → Client → Client
unfolding send_reply
route id msg c = if has id c.pending then send_reply id msg (unregister id c) else c

-- dispatch
unfoldable pub dispatch : Codec → (Frame → Option Str) → Response → Client → Client
unfolding handle_notification handle_server_request route
dispatch codec writes msg c =
    if is_server_request msg
    then elim msg.id [ none ↦ c | some id ↦ handle_server_request codec writes id msg c ]
    else if is_notification msg
    then handle_notification codec msg c
    else elim msg.id [ none ↦ c | some id ↦ route id msg c ]

-- One line of readLoop.
unfoldable pub read_line : Codec → (Frame → Option Str) → Str → Client → Client
unfolding dispatch
read_line codec writes line c =
    if is_empty line
    then c
    else elim (codec.read_message line) [ none ↦ c | some msg ↦ dispatch codec writes msg c ]

-- The end of readLoop when there are no more lines.
unfoldable pub end_of_stream : Client → Client
unfolding fail_all
end_of_stream c = record (fail_all c.pending c) { reading = false }

-- The end of readLoop when Close has canceled its context.
abbrev pub quit : Client → Client
quit c = record c { reading = false }

-- What a call waits for.
pub data Wakeup : Type 0 where
  ctx_done : Str → Wakeup
  replied : Response → Wakeup

-- The end of call; the error of a response is its message.
unfoldable pub call_result : Wakeup → Result Str Response
call_result (ctx_done e) = err e
call_result (replied r) = elim r.error [ some e ↦ err e.message | none ↦ ok r ]

abbrev pub named : {A : Type 0} → Str → Result Str A → Result Str A
named context (err e) = err (context ++ e)
named context (ok a) = ok a

abbrev pub decoded : {A : Type 0} → Str → (Str → Result Str A) → Result Str Response → Result Str A
decoded context read (err e) = err (context ++ e)
decoded context read (ok r) = named (context ++ codes "unmarshal result: ") (read r.result)

-- Initialize, NewSession and CancelSession after their call.
abbrev pub initialize_result : Codec → Result Str Response → Result Str InitializeResult
initialize_result codec = decoded (codes "acp: initialize: ") codec.read_initialize

abbrev pub new_session_result : Codec → Result Str Response → Result Str Str
new_session_result codec = decoded (codes "acp: session/new: ") codec.read_session_new

abbrev pub cancel_session_result : Result Str Response → Option Str
cancel_session_result (err e) = some e
cancel_session_result (ok r) = none

-- strings.Join(deltas, "")
abbrev pub join : List Str → Str
join [] = []
join (d ∷ ds) = d ++ join ds

-- The end of Prompt with a reply: all the deltas, those in the channel included, are at hand.
unfoldable pub prompt_result : Codec → List Str → Response → Result Str Str
unfolding sprint_int
prompt_result codec deltas r = elim r.error [
  | some e ↦
      err (codes "acp: session/prompt: rpc error " ++ sprint_int e.code ++ codes ": " ++ e.message)
  | none ↦ elim (codec.read_prompt r.result) [
    | err e ↦
        if is_nil deltas
        then err (codes "acp: session/prompt: unmarshal result: " ++ e)
        else ok (join deltas)
    | ok result ↦ if is_empty result.content then ok (join deltas) else ok result.content
  ]
]
