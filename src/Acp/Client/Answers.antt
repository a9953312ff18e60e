-- ===== src/Acp/Client/Answers.antt =====
-- The requests of the agent to internal/acp/client.go.
use mathlib.Core.List.{append_assoc, append-nil}
use daedalus.Prelude.{
  ℕ, ◌≡◌, refl, sym, ap, ◌∙◌, inl, inr, true, false, Option, none, some, List, [], ◌∷◌, ◌++◌, arith,
  Str, codes, str_eq, is_empty, Bool-cases, Option-cases, if◌then◌else◌,
}
use daedalus.Prelude.Int.{negsuc}
use daedalus.Acp.Messages.{Response, Frame, Codec, PermissionRequestParams, SessionUpdateParams}
use daedalus.Acp.Client.{
  Client, approved, refused, handle_server_request, handle_notification, route, dispatch, read_line,
  send_reply, update_session, send_delta, permit, write,
}

-- The lines that readLoop reads before it ends.
unfoldable pub read_lines : Codec → (Frame → Option Str) → List Str → Client → Client
unfolding read_line
read_lines codec writes [] c = c
read_lines codec writes (line ∷ lines) c =
    read_lines codec writes lines (read_line codec writes line c)

-- The answer that a message asks for: a request for permission is allowed once, if its params can be
-- read, and every other request is answered by the JSON-RPC error -32601. Responses and notifications
-- have no method or no ID.
abbrev pub request_answer : Codec → ℕ → Str → Str → List Frame
request_answer codec id method params =
    if str_eq method (codes "session/request_permission")
    then elim (codec.read_permission params) [
      | none ↦ []
      | some _ ↦ Frame.approval id (codes "allow_once") ∷ []
    ]
    else Frame.rpc_error id (negsuc 32600) (codes "method not found: " ++ method) ∷ []

abbrev pub answer : Codec → Response → List Frame
answer codec msg = elim msg.id [
  | none ↦ []
  | some id ↦ if is_empty msg.method then [] else request_answer codec id msg.method msg.params
]

abbrev pub answer_to : Codec → Str → List Frame
answer_to codec line =
    if is_empty line
    then []
    else elim (codec.read_message line) [ none ↦ [] | some msg ↦ answer codec msg ]

-- Of some frames those that the connection takes.
unfoldable pub taken : (Frame → Option Str) → List Frame → List Frame
taken writes [] = []
taken writes (f ∷ fs) =
    let more = taken writes fs in elim (writes f) [ none ↦ f ∷ more | some _ ↦ more ]

unfoldable pub answers_to : Codec → List Str → List Frame
answers_to codec [] = []
answers_to codec (line ∷ lines) = answer_to codec line ++ answers_to codec lines

taken-append :
    (writes : Frame → Option Str) (fs gs : List Frame)
    → taken writes (fs ++ gs) ≡ taken writes fs ++ taken writes gs
unfolding taken
taken-append writes [] gs = refl
taken-append writes (f ∷ fs) gs =
    elim (writes f)
      as (λ w.
        (elim w [ none ↦ f ∷ taken writes (fs ++ gs) | some _ ↦ taken writes (fs ++ gs) ])
        ≡ (elim w [ none ↦ f ∷ taken writes fs | some _ ↦ taken writes fs ]) ++ taken writes gs) [
          | none ↦ ap (λ l. f ∷ l) (taken-append writes fs gs)
          | some e ↦ taken-append writes fs gs
        ]

module _ (codec : Codec) (writes : Frame → Option Str) where
  write-sent :
      (frame : Frame) (c : Client)
      → (write frame (writes frame) c).sent ≡ c.sent ++ taken writes (frame ∷ [])
  unfolding taken
  write-sent frame c =
      elim (writes frame)
        as (λ w. (write frame w c).sent ≡ c.sent ++ (elim w [ none ↦ frame ∷ [] | some _ ↦ [] ])) [
          | none ↦ refl
          | some e ↦ sym (append-nil c.sent)
        ]

  permit-sent :
      (id : ℕ) (c : Client) (p : Option PermissionRequestParams)
      → (permit writes id c p).sent
        ≡ c.sent
          ++ taken writes
              (elim p [ none ↦ [] | some _ ↦ Frame.approval id (codes "allow_once") ∷ [] ])
  unfolding taken
  permit-sent id c none = sym (append-nil c.sent)
  permit-sent id c (some p) = write-sent (approved id) c

  request-sent :
      (id : ℕ) (msg : Response) (c : Client)
      → (handle_server_request codec writes id msg c).sent
        ≡ c.sent ++ taken writes (request_answer codec id msg.method msg.params)
  unfolding handle_server_request
  request-sent id msg c =
      elim (str_eq msg.method (codes "session/request_permission"))
        as (λ b.
          (if b
            then permit writes id c (codec.read_permission msg.params)
            else write (refused id msg.method) (writes (refused id msg.method)) c).sent
          ≡ c.sent
            ++ taken writes (
                if b
                then elim (codec.read_permission msg.params) [
                  | none ↦ []
                  | some _ ↦ Frame.approval id (codes "allow_once") ∷ []
                ]
                else Frame.rpc_error id (negsuc 32600) (codes "method not found: " ++ msg.method)
                  ∷ [])) [
                    | true ↦ permit-sent id c (codec.read_permission msg.params)
                    | false ↦ write-sent (refused id msg.method) c
                  ]

  route-sent : (id : ℕ) (msg : Response) (c : Client) → (route id msg c).sent ≡ c.sent
  unfolding route send_reply
  route-sent id msg c = ground arith

  update-sent : (c : Client) (p : Option SessionUpdateParams) → (update_session c p).sent ≡ c.sent
  unfolding update_session send_delta
  update-sent c none = refl
  update-sent c (some p) = ground arith

  notification-sent :
      (msg : Response) (c : Client) → (handle_notification codec msg c).sent ≡ c.sent
  unfolding handle_notification
  notification-sent msg c =
      elim (str_eq msg.method (codes "session/update"))
        as (λ b. (if b then update_session c (codec.read_update msg.params) else c).sent ≡ c.sent) [
          | true ↦ update-sent c (codec.read_update msg.params)
          | false ↦ refl
        ]

  unanswered :
      (c : Client) (fs : List Frame) (d : Client)
      → fs ≡ []
      → d.sent ≡ c.sent
      → d.sent ≡ c.sent ++ taken writes fs
  unfolding taken
  unanswered c fs d none_asked same =
      same ∙ sym (append-nil c.sent) ∙ ap (λ l. c.sent ++ taken writes l) (sym none_asked)

  dispatch-sent :
      (msg : Response) (c : Client)
      → (dispatch codec writes msg c).sent ≡ c.sent ++ taken writes (answer codec msg)
  unfolding dispatch taken
  dispatch-sent msg c = elim (Option-cases msg.id) [
    | inl no_id ↦
        unanswered c (answer codec msg) (dispatch codec writes msg c) (rw no_id refl)
          (elim (Bool-cases (is_empty msg.method)) [
            | inl bare ↦
                let same : dispatch codec writes msg c ≡ c = ground arith in ap (λ d. d.sent) same
            | inr filled ↦
                let same : dispatch codec writes msg c ≡ handle_notification codec msg c =
                  ground arith in
                ap (λ d. d.sent) same ∙ notification-sent msg c
          ])
    | inr (id, has_it) ↦ elim (Bool-cases (is_empty msg.method)) [
      | inl bare ↦
          let same : dispatch codec writes msg c ≡ route id msg c = ground arith in
          unanswered c (answer codec msg) (dispatch codec writes msg c) (rw (has_it, bare) refl)
            (ap (λ d. d.sent) same ∙ route-sent id msg c)
      | inr filled ↦
          let same : dispatch codec writes msg c ≡ handle_server_request codec writes id msg c =
            ground arith in
          let asked : request_answer codec id msg.method msg.params ≡ answer codec msg =
            rw (has_it, filled) refl in
          ap (λ d. d.sent) same ∙ request-sent id msg c ∙ ap (λ fs. c.sent ++ taken writes fs) asked
    ]
  ]

  read_line-sent :
      (line : Str) (c : Client)
      → (read_line codec writes line c).sent ≡ c.sent ++ taken writes (answer_to codec line)
  unfolding read_line taken
  read_line-sent line c = elim (Bool-cases (is_empty line)) [
    | inl nothing ↦ rw nothing (sym (append-nil c.sent))
    | inr filled ↦
        rw filled
          (elim (codec.read_message line)
            as (λ m.
              (elim m as (λ x. Client) [ none ↦ c | some msg ↦ dispatch codec writes msg c ]).sent
              ≡ c.sent ++ taken writes (elim m [ none ↦ [] | some msg ↦ answer codec msg ])) [
                | none ↦ sym (append-nil c.sent)
                | some msg ↦ dispatch-sent msg c
              ])
  ]

-- Whatever lines the reader reads, what it writes is, in their order, the answer to each request of
-- the agent among them and nothing else: one approval "allow_once" with the ID of a permission request
-- whose params can be read, none for one whose params cannot, and one error -32601 with the ID of any
-- other request; less those frames whose write fails.
pub read_lines-answer :
    (codec : Codec) (writes : Frame → Option Str) (lines : List Str) (c : Client)
    → (read_lines codec writes lines c).sent ≡ c.sent ++ taken writes (answers_to codec lines)
unfolding read_lines answers_to taken
read_lines-answer codec writes [] c = sym (append-nil c.sent)
read_lines-answer codec writes (line ∷ lines) c =
    read_lines-answer codec writes lines (read_line codec writes line c)
    ∙ ap (λ l. l ++ taken writes (answers_to codec lines)) (read_line-sent codec writes line c)
    ∙ append_assoc c.sent (taken writes (answer_to codec line))
        (taken writes (answers_to codec lines))
    ∙ ap (λ l. c.sent ++ l)
        (sym (taken-append writes (answer_to codec line) (answers_to codec lines)))
