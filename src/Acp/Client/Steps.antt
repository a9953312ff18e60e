-- ===== src/Acp/Client/Steps.antt =====
-- The steps of the goroutines around internal/acp/client.go, in any order: callers, and the reader as
-- long as it reads.
use daedalus.Prelude.{ℕ, ◌≡◌, true, Option, none, some, List, ◌∷◌, Str}
use daedalus.Acp.Messages.{Response, Params, Frame, Codec}
use daedalus.Acp.Client.{
  Client, new_client, connect, register, register_prompt, unregister, unregister_deltas,
  send_request, read_line, end_of_stream, quit, at,
}

-- A reply leaves its channel.
abbrev pub receive_reply : ℕ → Client → Client
receive_reply id c = record c { replies = at id none c.replies }

-- A delta leaves its channel.
abbrev pub receive_delta : ℕ → List Str → Client → Client
receive_delta id rest c = record c { deltas = at id rest c.deltas }

pub data Step (codec : Codec) : Client → Client → Type 0 where
  begin_call : (c : Client) → Step codec c (register c)
  begin_prompt : (session : Str) (c : Client) → Step codec c (register_prompt session c)
  sends :
      (writes : Frame → Option Str) (id : ℕ) (method : Str) (params : Params) (c : Client)
      → Step codec c (send_request codec writes id method params c).0
  -- The deferred deletions, and those behind an error or the end of a context.
  leaves : (id : ℕ) (c : Client) → Step codec c (unregister id c)
  leaves_deltas : (session : Str) (c : Client) → Step codec c (unregister_deltas session c)
  receives :
      (id : ℕ) (r : Response) (c : Client)
      → c.replies id ≡ some r
      → Step codec c (receive_reply id c)
  takes :
      (id : ℕ) (chunk : Str) (rest : List Str) (c : Client)
      → c.deltas id ≡ chunk ∷ rest
      → Step codec c (receive_delta id rest c)
  reads :
      (writes : Frame → Option Str) (line : Str) (c : Client)
      → c.reading ≡ true
      → Step codec c (read_line codec writes line c)
  ends : (c : Client) → c.reading ≡ true → Step codec c (end_of_stream c)
  quits : (c : Client) → c.reading ≡ true → Step codec c (quit c)

pub data Reach (codec : Codec) (c : Client) : Client → Type 0 where
  here : Reach codec c c
  next : {d e : Client} → Reach codec c d → Step codec d e → Reach codec c e

-- A client after NewClient and Connect.
abbrev pub connected : Str → Client
connected addr = (connect none (new_client addr)).0
