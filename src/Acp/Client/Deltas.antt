-- ===== src/Acp/Client/Deltas.antt =====
-- What a line that is read adds to the delta channel of a session in internal/acp/client.go.
use daedalus.Prelude.{
  ℕ, ◌+◌, ◌≤◌, ◌<◌, ◌≡◌, refl, sym, ap, ◌∙◌, subst, inl, inr, true, false, ◌&&◌, ◌==◌, Option, none,
  some, List, [], ◌∷◌, ◌++◌, length, arith, if◌then◌else◌, Str, codes, str_eq, str_eq_iff, is_empty,
  Bool-cases, Option-cases,
}
use mathlib.Core.List.{append-nil}
use daedalus.Acp.Messages.{
  Response, PermissionRequestParams, SessionUpdateParams, Frame, Codec, is_notification,
  is_server_request,
}
use daedalus.Acp.Client.{
  has, approved, refused, Client, is_chunk, send_delta, add_chunk, update_session,
  handle_notification, handle_server_request, permit, write, route, send_reply, dispatch, read_line,
}

-- The chunk of an update for the session.
abbrev pub chunk_of_update : Str → Option SessionUpdateParams → List Str
chunk_of_update session none = []
chunk_of_update session (some p) =
    if str_eq p.session_id session && is_chunk p then p.content_text ∷ [] else []

abbrev pub chunk_of_message : Codec → Str → Option Response → List Str
chunk_of_message codec session none = []
chunk_of_message codec session (some msg) =
    if is_notification msg && str_eq msg.method (codes "session/update")
    then chunk_of_update session (codec.read_update msg.params)
    else []

-- The chunk of the session that a line brings.
abbrev pub chunk_of : Codec → Str → Option Str → List Str
chunk_of codec session none = []
chunk_of codec session (some line) =
    if is_empty line then [] else chunk_of_message codec session (codec.read_message line)

-- The channel is that of the session, and of no other.
abbrev pub Owns : Str → ℕ → Client → Type 0
Owns session channel c =
    (c.delta_key session ≡ some channel) × ((s : Str) → c.delta_key s ≡ some channel → s ≡ session)

-- The channel has got the chunks, and the sessions have their channels as before.
abbrev pub Got : ℕ → List Str → Client → Client → Type 0
Got channel new c d = (d.deltas channel ≡ c.deltas channel ++ new) × (d.delta_key ≡ c.delta_key)

Got-nothing : (channel : ℕ) (c : Client) → Got channel [] c c
Got-nothing channel c = (sym (append-nil (c.deltas channel)), refl)

send_delta-Got :
    (channel : ℕ) (chunk : Str) (c : Client)
    → length (c.deltas channel) < 256
    → Got channel (chunk ∷ []) c (send_delta channel chunk c)
unfolding send_delta
send_delta-Got channel chunk c room = (ground arith, ground arith)

-- A chunk for another channel.
send_delta-other :
    (channel k : ℕ) (chunk : Str) (c : Client)
    → (k == channel) ≡ false
    → Got channel [] c (send_delta k chunk c)
unfolding send_delta
send_delta-other channel k chunk c other =
    (ground (arith, append-nil (c.deltas channel)), ground arith)

module _ (session : Str) (channel : ℕ) (c : Client) (owns : Owns session channel c) where
  add_chunk-Got :
      (p : SessionUpdateParams)
      → (is_chunk p ≡ true → length (c.deltas channel) < 256)
      → str_eq p.session_id session ≡ true
      → Got channel
          (if is_chunk p then p.content_text ∷ [] else [])
          c
          (add_chunk p c (some channel))
  add_chunk-Got p room same = elim (Bool-cases (is_chunk p)) [
    | inl counts ↦ rw counts (send_delta-Got channel p.content_text c (room counts))
    | inr skipped ↦ rw skipped (Got-nothing channel c)
  ]

  add_chunk-other :
      (p : SessionUpdateParams) (k : Option ℕ)
      → str_eq p.session_id session ≡ false
      → c.delta_key p.session_id ≡ k
      → Got channel [] c (add_chunk p c k)
  add_chunk-other p none other key = Got-nothing channel c
  add_chunk-other p (some k) other key = elim (Bool-cases (k == channel)) [
    | inl same ↦
        let e : k ≡ channel = ground arith in
        absurd
          (ground (arith, owns.1 p.session_id (key ∙ ap some e), str_eq_iff p.session_id session))
    | inr apart ↦ elim (Bool-cases (is_chunk p)) [
      | inl counts ↦ rw counts (send_delta-other channel k p.content_text c apart)
      | inr skipped ↦ rw skipped (Got-nothing channel c)
    ]
  ]

  update-Got :
      (o : Option SessionUpdateParams)
      → length (c.deltas channel) + length (chunk_of_update session o) ≤ 256
      → Got channel (chunk_of_update session o) c (update_session c o)
  unfolding update_session
  update-Got none room = Got-nothing channel c
  update-Got (some p) room = elim (Bool-cases (str_eq p.session_id session)) [
    | inl same ↦
        let e : p.session_id ≡ session = (str_eq_iff p.session_id session).0 same in
        subst
          (λ k.
            Got channel
              (if str_eq p.session_id session && is_chunk p then p.content_text ∷ [] else []) c
              (add_chunk p c k))
          (sym (ap c.delta_key e ∙ owns.0))
          (rw same (add_chunk-Got p (λ counts. ground arith) same))
    | inr other ↦ rw other (add_chunk-other p (c.delta_key p.session_id) other refl)
  ]

-- By equations for what is got and for the client afterwards.
Got-eq :
    (channel : ℕ) (c d e : Client) {new : List Str}
    → [] ≡ new
    → e ≡ d
    → Got channel [] c e
    → Got channel new c d
Got-eq channel c d e {new} nothing same g =
    subst (λ n. Got channel n c d) nothing (subst (Got channel [] c) same g)

write-Got :
    (channel : ℕ) (frame : Frame) (e : Option Str) (c : Client) → Got channel [] c (write frame e c)
write-Got channel frame none c = Got-nothing channel c
write-Got channel frame (some e) c = Got-nothing channel c

permit-Got :
    (channel : ℕ) (writes : Frame → Option Str) (id : ℕ) (c : Client)
    (o : Option PermissionRequestParams)
    → Got channel [] c (permit writes id c o)
permit-Got channel writes id c none = Got-nothing channel c
permit-Got channel writes id c (some p) = write-Got channel (approved id) (writes (approved id)) c

request-Got :
    (channel : ℕ) (codec : Codec) (writes : Frame → Option Str) (id : ℕ) (msg : Response)
    (c : Client)
    → Got channel [] c (handle_server_request codec writes id msg c)
unfolding handle_server_request
request-Got channel codec writes id msg c =
    elim (Bool-cases (str_eq msg.method (codes "session/request_permission"))) [
      | inl asks ↦ rw asks (permit-Got channel writes id c (codec.read_permission msg.params))
      | inr unknown ↦
          rw unknown (write-Got channel (refused id msg.method) (writes (refused id msg.method)) c)
    ]

route-Got : (channel id : ℕ) (msg : Response) (c : Client) → Got channel [] c (route id msg c)
unfolding route send_reply
route-Got channel id msg c = elim (Bool-cases (has id c.pending)) [
  | inr unknown ↦ rw unknown (Got-nothing channel c)
  | inl there ↦ elim (Option-cases (c.replies id)) [
    | inl free ↦ (ground (arith, append-nil (c.deltas channel)), ground arith)
    | inr (r, full) ↦ (ground (arith, append-nil (c.deltas channel)), ground arith)
  ]
]

module _ (codec : Codec) (writes : Frame → Option Str) (session : Str) (channel : ℕ) where
  dispatch-Got :
      (c : Client) (msg : Response)
      → Owns session channel c
      → length (c.deltas channel) + length (chunk_of_message codec session (some msg)) ≤ 256
      → Got channel (chunk_of_message codec session (some msg)) c (dispatch codec writes msg c)
  unfolding dispatch handle_notification
  dispatch-Got c msg owns room = elim (Bool-cases (is_server_request msg)) [
    | inl asks ↦
        let quiet : is_notification msg ≡ false = ground arith in
        elim (Option-cases msg.id) [
          | inl bare ↦ rw (asks, quiet, bare) (Got-nothing channel c)
          | inr (id, mine) ↦
              Got-eq channel c (dispatch codec writes msg c)
                (handle_server_request codec writes id msg c) (rw quiet refl) (ground arith)
                (request-Got channel codec writes id msg c)
        ]
    | inr other ↦ elim (Bool-cases (is_notification msg)) [
      | inl tells ↦ elim (Bool-cases (str_eq msg.method (codes "session/update"))) [
        | inl updates ↦
            rw (other, tells, updates)
              (update-Got session channel c owns (codec.read_update msg.params)
                (rw (tells, updates) at room))
        | inr others ↦ rw (other, tells, others) (Got-nothing channel c)
      ]
      | inr response ↦ elim (Option-cases msg.id) [
        | inl bare ↦ rw (other, response, bare) (Got-nothing channel c)
        | inr (id, mine) ↦
            Got-eq channel c (dispatch codec writes msg c) (route id msg c) (rw response refl)
              (ground arith) (route-Got channel id msg c)
      ]
    ]
  ]

  pub line-Got :
      (c : Client) (line : Str)
      → Owns session channel c
      → length (c.deltas channel) + length (chunk_of codec session (some line)) ≤ 256
      → Got channel (chunk_of codec session (some line)) c (read_line codec writes line c)
  unfolding read_line
  line-Got c line owns room = elim (Bool-cases (is_empty line)) [
    | inl empty ↦ rw empty (Got-nothing channel c)
    | inr filled ↦ elim (Option-cases (codec.read_message line)) [
      | inl broken ↦ rw (filled, broken) (Got-nothing channel c)
      | inr (msg, good) ↦ rw (filled, good) (dispatch-Got c msg owns (rw (filled, good) at room))
    ]
  ]
