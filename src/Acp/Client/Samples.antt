-- ===== src/Acp/Client/Samples.antt =====
-- Runs of internal/acp/client.go: two calls, a prompt with two chunks, a request of the agent.
use daedalus.Prelude.{
  List, ℕ, ◌≡◌, refl, Option, none, some, [], ◌∷◌, ◌++◌, Str, codes, str_eq, is_empty, ok, err,
  if◌then◌else◌, arith,
}
use daedalus.Prelude.Int.{negsuc}
use daedalus.Acp.Messages.{Frame, Response, SessionUpdateParams, SessionPromptResult, Codec}
use daedalus.Acp.Client.{
  Client, has, register, register_prompt, read_line, quit, end_of_stream, join, connect,
  prompt_result, call_result, replied,
}
use daedalus.Acp.Client.Steps.{Reach, here, next, connected, begin_call}
use daedalus.Acp.Client.Calls.{IsRouted}
use daedalus.Acp.Client.Routed.{answered, reached-IsRouted, read_line-answers}
use daedalus.Acp.Client.Ended.{Unanswered, end_of_stream-fails, ended-Unanswered}
use daedalus.Acp.Client.Chunks.{turns, chunks, prompt-collects}
use daedalus.Acp.Client.Answers.{read_lines, taken, answers_to, read_lines-answer}

abbrev addr : Str
addr = codes "localhost:3000"

abbrev message : Option ℕ → Str → Response
message id method = record {
  id = id;
  result = codes "r";
  error = none;
  method = method;
  params = codes "p";
}

abbrev result : SessionPromptResult
result = record { session_id = codes "s"; content = [] }

abbrev update : SessionUpdateParams
update = record {
  session_id = codes "s";
  session_update = codes "agent_message_chunk";
  content_text = codes "hi";
}

-- Lines: a response to call 2, an update, a request, and what cannot be read.
abbrev codec : Codec
codec = record {
  marshal_params = λ params. ok [];
  read_message = λ line.
      if str_eq line (codes "two")
      then some (message (some 2) [])
      else if str_eq line (codes "update")
      then some (message none (codes "session/update"))
      else if str_eq line (codes "ask")
      then some (message (some 7) (codes "session/request_permission"))
      else if str_eq line (codes "what")
      then some (message (some 8) (codes "fs/read"))
      else none;
  read_permission = λ params. none;
  read_update = λ params. some update;
  read_initialize = λ text. err [];
  read_session_new = λ text. ok text;
  read_prompt = λ text. ok result;
}

abbrev two_calls : Client
two_calls = register (register (connected addr))

two_calls_reached : Reach codec (connected addr) two_calls
two_calls_reached =
    next (next here (begin_call (connected addr))) (begin_call (register (connected addr)))

reached-IsRouted_example : IsRouted two_calls
reached-IsRouted_example = reached-IsRouted codec addr two_calls two_calls_reached

read_line-answers_example :
    read_line codec (λ frame. none) (codes "two") two_calls
    ≡ (if has 2 two_calls.pending then answered 2 (message (some 2) []) two_calls else two_calls)
unfolding register connect str_eq
read_line-answers_example =
    read_line-answers codec addr two_calls (λ frame. none) (codes "two") (message (some 2) []) 2
      two_calls_reached refl refl refl refl refl

end_of_stream-fails_example :
    (r : Response) × ((end_of_stream two_calls).replies 1 ≡ some r)
    × (call_result (replied r) ≡ err (codes "connection closed"))
unfolding register connect
end_of_stream-fails_example = end_of_stream-fails codec addr two_calls 1 two_calls_reached refl refl

-- A call that begins when Close has ended the reader.
ended-Unanswered_example : Unanswered 3 (register (quit two_calls))
unfolding register connect
ended-Unanswered_example =
    ended-Unanswered codec (quit two_calls) (register (quit two_calls)) 3 (refl, refl)
      (next here (begin_call (quit two_calls)))

prompt-collects_example :
    (let (d, taken) =
        turns codec
          (λ frame. none)
          3
          (some (codes "update") ∷ none ∷ some (codes "update") ∷ [])
          (register_prompt (codes "s") two_calls, []) in
      prompt_result codec (taken ++ d.deltas 3) (message (some 3) []))
    ≡ ok (
        if is_empty result.content
        then join
            (chunks codec (codes "s") (some (codes "update") ∷ none ∷ some (codes "update") ∷ []))
        else result.content)
unfolding register connect str_eq
prompt-collects_example =
    prompt-collects codec (λ frame. none) (codes "s") two_calls
      (some (codes "update") ∷ none ∷ some (codes "update") ∷ []) (message (some 3) []) result
      (λ s e. absurd (ground arith)) (omega arith) refl refl

-- A request whose permission cannot be read gets no answer, one with another method an error.
abbrev lines : List Str
lines = codes "ask" ∷ codes "update" ∷ codes "two" ∷ codes "what" ∷ []

read_lines-answer_example :
    (read_lines codec (λ frame. none) lines two_calls).sent
    ≡ two_calls.sent ++ taken (λ frame. none) (answers_to codec lines)
read_lines-answer_example = read_lines-answer codec (λ frame. none) lines two_calls

answered_what :
    taken (λ frame. none) (answers_to codec lines)
    ≡ Frame.rpc_error 8 (negsuc 32600) (codes "method not found: fs/read") ∷ []
unfolding taken answers_to str_eq
answered_what = refl
