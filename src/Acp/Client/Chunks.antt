-- ===== src/Acp/Client/Chunks.antt =====
-- What Prompt of internal/acp/client.go collects while the reader goes on.
use daedalus.Prelude.{
  ℕ, ◌+◌, ◌≤◌, ◌≡◌, ◌≢◌, refl, sym, ap, ◌∙◌, inl, inr, Option, none, some, List, [], ◌∷◌, ◌++◌,
  length, length-append, arith, if◌then◌else◌, Str, str_eq, str_eq_iff, str_eq_refl, is_empty, ok,
  Bool-cases,
}
use mathlib.Core.List.{append_assoc, append-nil}
use daedalus.Acp.Messages.{Response, SessionPromptResult, Frame, Codec}
use daedalus.Acp.Client.{Client, at, fresh_id, read_line, register_prompt, join, prompt_result}
use daedalus.Acp.Client.Steps.{receive_delta}
use daedalus.Acp.Client.Deltas.{chunk_of, Owns, Got, line-Got}

-- What the prompt has taken, beside the client.
abbrev pub Prompting : Type 0
Prompting = Client × List Str

-- The prompt takes the first delta of its channel, if there is one.
abbrev pub take_delta : ℕ → Client → List Str → List Str → Prompting
take_delta channel c taken [] = (c, taken)
take_delta channel c taken (chunk ∷ rest) = (receive_delta channel rest c, taken ++ chunk ∷ [])

-- A line that is read, or none for a turn of the prompt.
abbrev pub turn : Codec → (Frame → Option Str) → ℕ → Option Str → Prompting → Prompting
turn codec writes channel (some line) (c, taken) = (read_line codec writes line c, taken)
turn codec writes channel none (c, taken) = take_delta channel c taken (c.deltas channel)

pub turns : Codec → (Frame → Option Str) → ℕ → List (Option Str) → Prompting → Prompting
turns codec writes channel [] p = p
turns codec writes channel (t ∷ ts) p =
    turns codec writes channel ts (turn codec writes channel t p)

abbrev pub chunks : Codec → Str → List (Option Str) → List Str
chunks codec session [] = []
chunks codec session (t ∷ ts) = chunk_of codec session t ++ chunks codec session ts

module _ (codec : Codec) (writes : Frame → Option Str) (session : Str) (channel : ℕ) where
  -- Whoever's turn it is, the session keeps its channel.
  Got-Owns :
      (c d : Client) (new : List Str)
      → Got channel new c d
      → Owns session channel c
      → Owns session channel d
  Got-Owns c d new g owns =
      (ap (λ f. f session) g.1 ∙ owns.0, λ s h. owns.1 s (sym (ap (λ f. f s) g.1) ∙ h))

  -- A turn of the prompt loses nothing.
  take_delta-same :
      (c : Client) (taken ds : List Str)
      → c.deltas channel ≡ ds
      → ((take_delta channel c taken ds).1 ++ (take_delta channel c taken ds).0.deltas channel
          ≡ taken ++ c.deltas channel)
        × ((take_delta channel c taken ds).0.delta_key ≡ c.delta_key)
        × (length ((take_delta channel c taken ds).0.deltas channel) ≤ length (c.deltas channel))
  take_delta-same c taken [] h = (refl, refl, omega arith)
  take_delta-same c taken (chunk ∷ rest) h =
      let e : at channel rest c.deltas channel ≡ rest = ground arith in
      (
        ap (λ l. (taken ++ chunk ∷ []) ++ l) e
            ∙ append_assoc taken (chunk ∷ []) rest
            ∙ ap (λ l. taken ++ l) (sym h),
        refl,
        omega (arith, ap length e, ap length h),
      )

  -- Whatever the order of the turns, the prompt has in the end, in order, the deltas that it had and all
  -- chunks of its session.
  turns-collect :
      (ts : List (Option Str)) (c : Client) (taken : List Str)
      → Owns session channel c
      → length (c.deltas channel) + length (chunks codec session ts) ≤ 256
      → (turns codec writes channel ts (c, taken)).1
          ++ (turns codec writes channel ts (c, taken)).0.deltas channel
        ≡ (taken ++ c.deltas channel) ++ chunks codec session ts
  unfolding turns
  turns-collect [] c taken owns room = sym (append-nil (taken ++ c.deltas channel))
  turns-collect (some line ∷ ts) c taken owns room =
      let new = chunk_of codec session (some line) in
      let rest = chunks codec session ts in
      let d = read_line codec writes line c in
      let sizes = length-append new rest in
      let got = line-Got codec writes session channel c line owns (omega (arith, sizes)) in
      let longer = ap length got.0 ∙ length-append (c.deltas channel) new in
      turns-collect ts d taken (Got-Owns c d new got owns) (omega (arith, sizes, longer))
      ∙ ap (λ ds. (taken ++ ds) ++ rest) got.0
      ∙ ap (λ l. l ++ rest) (sym (append_assoc taken (c.deltas channel) new))
      ∙ append_assoc (taken ++ c.deltas channel) new rest
  turns-collect (none ∷ ts) c taken owns room =
      let (d, taken') = take_delta channel c taken (c.deltas channel) in
      let (same, key, shorter) = take_delta-same c taken (c.deltas channel) refl in
      turns-collect ts d taken'
        (ap (λ f. f session) key ∙ owns.0, λ s h. owns.1 s (sym (ap (λ f. f s) key) ∙ h))
        (omega arith)
      ∙ ap (λ l. l ++ chunks codec session ts) same

register_prompt-Owns :
    (session : Str) (c : Client)
    → ((s : Str) → c.delta_key s ≢ some (fresh_id c))
    → Owns session (fresh_id c) (register_prompt session c)
unfolding register_prompt
register_prompt-Owns session c fresh = (
  ground (arith, str_eq_refl session),
  λ s h. elim (Bool-cases (str_eq s session)) [
    | inl same ↦ (str_eq_iff s session).0 same
    | inr other ↦ absurd (fresh s (rw other at h))
  ],
)

register_prompt-deltas :
    (session : Str) (c : Client) → (register_prompt session c).deltas (fresh_id c) ≡ []
unfolding register_prompt
register_prompt-deltas session c = ground arith

prompt_result-eq :
    (codec : Codec) (deltas : List Str) (r : Response) (result : SessionPromptResult)
    → r.error ≡ none
    → codec.read_prompt r.result ≡ ok result
    → prompt_result codec deltas r
      ≡ ok (if is_empty result.content then join deltas else result.content)
unfolding prompt_result
prompt_result-eq codec deltas r result fine readable = ground arith

-- Let a prompt of a session be registered whose channel no other session has, and at most 256 chunks of
-- the session come until its reply, while the prompt takes deltas whenever it likes. If the reply is no
-- error and its result is readable, Prompt returns the content of the result, or, if that is empty, all
-- these chunks in their order, joined.
pub prompt-collects :
    (codec : Codec) (writes : Frame → Option Str) (session : Str) (c : Client)
    (ts : List (Option Str)) (r : Response) (result : SessionPromptResult)
    → ((s : Str) → c.delta_key s ≢ some (fresh_id c))
    → length (chunks codec session ts) ≤ 256
    → r.error ≡ none
    → codec.read_prompt r.result ≡ ok result
    → (let (d, taken) = turns codec writes (fresh_id c) ts (register_prompt session c, []) in
        prompt_result codec (taken ++ d.deltas (fresh_id c)) r)
      ≡ ok (if is_empty result.content then join (chunks codec session ts) else result.content)
prompt-collects codec writes session c ts r result fresh few fine readable =
    let start = register_prompt session c in
    let empty = register_prompt-deltas session c in
    let all =
      turns-collect codec writes session (fresh_id c) ts start []
        (register_prompt-Owns session c fresh) (omega (arith, ap length empty))
      ∙ ap (λ l. l ++ chunks codec session ts) empty in
    ap (λ deltas. prompt_result codec deltas r) all
    ∙ prompt_result-eq codec (chunks codec session ts) r result fine readable
