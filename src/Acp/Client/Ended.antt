-- ===== src/Acp/Client/Ended.antt =====
-- The calls of internal/acp/client.go when the reader has ended.
use daedalus.Prelude.{
  ℕ, ◌≡◌, refl, ap, ◌∙◌, true, false, none, some, arith, if◌then◌else◌, Str, codes, err,
}
use daedalus.Acp.Messages.{Response, Codec}
use daedalus.Acp.Client.{
  Client, has, register, register_prompt, end_of_stream, connection_closed, call_result, replied,
}
use daedalus.Acp.Client.Steps.{
  Step, Reach, here, next, connected, begin_call, begin_prompt, sends, leaves, leaves_deltas,
  receives, takes, reads, ends, quits,
}
use daedalus.Acp.Client.Calls.{send_request-SameCalls}
use daedalus.Acp.Client.Failing.{fail_all-replies}
use daedalus.Acp.Client.Routed.{reached-IsRouted}

-- If a state that the goroutines around a connected client reach still reads, then at the end of the
-- stream each call in the map gets a reply, on which it returns the error that the connection closed.
pub end_of_stream-fails :
    (codec : Codec) (addr : Str) (c : Client) (id : ℕ)
    → Reach codec (connected addr) c
    → c.reading ≡ true
    → has id c.pending ≡ true
    → (r : Response) × ((end_of_stream c).replies id ≡ some r)
      × (call_result (replied r) ≡ err (codes "connection closed"))
unfolding end_of_stream call_result
end_of_stream-fails codec addr c id r awake there =
    let w = reached-IsRouted codec addr c r in
    let empty = λ (j : ℕ) (h : has j c.pending ≡ true). w.open_empty j awake h in
    (
      connection_closed,
      fail_all-replies c.pending c w.distinct empty id
          ∙ ap (λ b. if b then some connection_closed else c.replies id) there,
      refl,
    )

-- The reader has ended, and the call has no reply.
abbrev pub Unanswered : ℕ → Client → Type 0
Unanswered id c = (c.reading ≡ false) × (c.replies id ≡ none)

Step-Unanswered :
    {codec : Codec} {c d : Client} (id : ℕ) → Step codec c d → Unanswered id c → Unanswered id d
unfolding register register_prompt
Step-Unanswered id (begin_call c) h = (h.0, ground arith)
Step-Unanswered id (begin_prompt session c) h = (h.0, ground arith)
Step-Unanswered {codec} id (sends writes j method params c) h =
    let same = send_request-SameCalls codec writes j method params c in
    (same.reading ∙ h.0, ap (λ f. f id) same.replies ∙ h.1)
Step-Unanswered id (leaves j c) h = h
Step-Unanswered id (leaves_deltas session c) h = h
Step-Unanswered id (receives j r c got) h = (h.0, ground arith)
Step-Unanswered id (takes j chunk rest c got) h = h
Step-Unanswered id (reads writes line c awake) h = absurd (cc)
Step-Unanswered id (ends c awake) h = absurd (cc)
Step-Unanswered id (quits c awake) h = absurd (cc)

-- Once the reader has ended, by the end of the stream or by Close, a call without a reply in its channel
-- never gets one, whatever the goroutines do: neither one that was pending when Close ended the reader
-- nor one that begins later.
pub ended-Unanswered :
    (codec : Codec) (c d : Client) (id : ℕ) → Unanswered id c → Reach codec c d → Unanswered id d
ended-Unanswered codec c d id h here = h
ended-Unanswered codec c d id h (next r step) =
    Step-Unanswered id step (ended-Unanswered codec c _ id h r)
