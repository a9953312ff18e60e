-- ===== src/Acp/Client/Calls.antt =====
-- What an operation of internal/acp/client.go leaves alone, and the invariant of its calls.
use daedalus.Prelude.{
  ltb, length, codes, ℕ, ◌≡◌, refl, sym, ap, ◌∙◌, subst, ◌⊎◌, inl, inr, Bool, true, false, not,
  ◌&&◌, ◌||◌, ◌==◌, Option, none, some, List, [], ◌∷◌, arith, if◌then◌else◌, Str, str_eq, Result,
  ok, err, Bool-cases,
}
use daedalus.Acp.Messages.{
  Response, PermissionRequestParams, SessionUpdateParams, Params, Frame, Codec,
}
use daedalus.Acp.Client.{
  send_raw, request_of, permit, approved, refused, add_chunk, Client, has, without, add_id, write,
  send_request, connection_closed, send_delta, is_chunk, update_session, handle_notification,
  handle_server_request,
}

pub has-without : (x id : ℕ) (ids : List ℕ) → has x (without id ids) ≡ (has x ids && not (x == id))
has-without x id [] = refl
has-without x id (j ∷ ids) = ground (arith, has-without x id ids)

pub has-add_id : (x id : ℕ) (ids : List ℕ) → has x (add_id id ids) ≡ (id == x || has x ids)
has-add_id x id ids = elim (Bool-cases (has id ids)) [
  | inl there ↦ ground arith
  | inr fresh ↦ ground arith
]

abbrev pub Distinct : List ℕ → Type 0
Distinct [] = Unit
Distinct (id ∷ ids) = (has id ids ≡ false) × Distinct ids

pub without-Distinct : (id : ℕ) (ids : List ℕ) → Distinct ids → Distinct (without id ids)
without-Distinct id [] d = tt
without-Distinct id (j ∷ ids) d = elim (Bool-cases (j == id)) [
  | inl same ↦ rw same (without-Distinct id ids d.1)
  | inr other ↦ rw other (ground (arith, has-without j id ids), without-Distinct id ids d.1)
]

pub add_id-Distinct : (id : ℕ) (ids : List ℕ) → Distinct ids → Distinct (add_id id ids)
add_id-Distinct id ids d = elim (Bool-cases (has id ids)) [
  | inl there ↦ rw there d
  | inr fresh ↦ rw fresh (fresh, d)
]

-- The reply of a call, or that of the end of the connection.
abbrev pub Own : ℕ → Response → Type 0
Own id r = (r.id ≡ some id) ⊎ (r ≡ connection_closed)

pub record IsRouted (c : Client) : Type 0 where
  -- As long as the reader awake, the channels in the map are empty.
  pub open_empty : (id : ℕ) → c.reading ≡ true → has id c.pending ≡ true → c.replies id ≡ none
  pub own : (id : ℕ) (r : Response) → c.replies id ≡ some r → Own id r
  pub distinct : Distinct c.pending
  pub free : c.stuck ≡ false

-- What only writes, or only moves chunks, keeps all that counts.
pub record SameCalls (c d : Client) : Type 0 where
  pub pending : d.pending ≡ c.pending
  pub replies : d.replies ≡ c.replies
  pub stuck : d.stuck ≡ c.stuck
  pub reading : d.reading ≡ c.reading

pub SameCalls-IsRouted : {c d : Client} → SameCalls c d → IsRouted c → IsRouted d
SameCalls-IsRouted {c} {d} same w = record {
  open_empty = λ id awake there.
      ap (λ f. f id) same.replies
      ∙ w.open_empty id (sym same.reading ∙ awake) (ap (has id) (sym same.pending) ∙ there);
  own = λ id r h. w.own id r (sym (ap (λ f. f id) same.replies) ∙ h);
  distinct = subst Distinct (sym same.pending) w.distinct;
  free = same.stuck ∙ w.free;
}

pub same_calls : (c : Client) → SameCalls c c
same_calls c = record { pending = refl; replies = refl; stuck = refl; reading = refl }

pub write-SameCalls : (frame : Frame) (e : Option Str) (c : Client) → SameCalls c (write frame e c)
write-SameCalls frame none c = record {
  pending = refl;
  replies = refl;
  stuck = refl;
  reading = refl;
}
write-SameCalls frame (some e) c = same_calls c

-- An `if` and an `elim` keep what both branches keep.
pub either-SameCalls :
    (b : Bool) (c d e : Client) → SameCalls c d → SameCalls c e → SameCalls c (if b then d else e)
either-SameCalls true c d e p q = p
either-SameCalls false c d e p q = q

pub permit-SameCalls :
    (writes : Frame → Option Str) (id : ℕ) (c : Client) (o : Option PermissionRequestParams)
    → SameCalls c (permit writes id c o)
permit-SameCalls writes id c none = same_calls c
permit-SameCalls writes id c (some p) = write-SameCalls (approved id) (writes (approved id)) c

pub request-SameCalls :
    (codec : Codec) (writes : Frame → Option Str) (id : ℕ) (msg : Response) (c : Client)
    → SameCalls c (handle_server_request codec writes id msg c)
unfolding handle_server_request
request-SameCalls codec writes id msg c =
    either-SameCalls (str_eq msg.method (codes "session/request_permission")) c
      (permit writes id c (codec.read_permission msg.params))
      (write (refused id msg.method) (writes (refused id msg.method)) c)
      (permit-SameCalls writes id c (codec.read_permission msg.params))
      (write-SameCalls (refused id msg.method) (writes (refused id msg.method)) c)

pub send_delta-SameCalls :
    (channel : ℕ) (chunk : Str) (c : Client) → SameCalls c (send_delta channel chunk c)
unfolding send_delta
send_delta-SameCalls channel chunk c = elim (Bool-cases (ltb (length (c.deltas channel)) 256)) [
  | inl room ↦ rw room (record { pending = refl; replies = refl; stuck = refl; reading = refl })
  | inr full ↦ rw full (same_calls c)
]

pub add_chunk-SameCalls :
    (p : SessionUpdateParams) (c : Client) (o : Option ℕ) → SameCalls c (add_chunk p c o)
add_chunk-SameCalls p c none = same_calls c
add_chunk-SameCalls p c (some channel) =
    either-SameCalls (is_chunk p) c (send_delta channel p.content_text c) c
      (send_delta-SameCalls channel p.content_text c) (same_calls c)

pub update-SameCalls :
    (c : Client) (o : Option SessionUpdateParams) → SameCalls c (update_session c o)
unfolding update_session
update-SameCalls c none = same_calls c
update-SameCalls c (some p) = add_chunk-SameCalls p c (c.delta_key p.session_id)

pub notification-SameCalls :
    (codec : Codec) (msg : Response) (c : Client) → SameCalls c (handle_notification codec msg c)
unfolding handle_notification
notification-SameCalls codec msg c =
    either-SameCalls (str_eq msg.method (codes "session/update")) c
      (update_session c (codec.read_update msg.params)) c
      (update-SameCalls c (codec.read_update msg.params)) (same_calls c)

pub send_raw-SameCalls :
    (writes : Frame → Option Str) (id : ℕ) (method : Str) (c : Client) (raw : Result Str Str)
    → SameCalls c (send_raw writes id method c raw).0
send_raw-SameCalls writes id method c (err e) = same_calls c
send_raw-SameCalls writes id method c (ok raw) =
    write-SameCalls (request_of id method raw) (writes (request_of id method raw)) c

pub send_request-SameCalls :
    (codec : Codec) (writes : Frame → Option Str) (id : ℕ) (method : Str) (params : Params)
    (c : Client)
    → SameCalls c (send_request codec writes id method params c).0
unfolding send_request
send_request-SameCalls codec writes id method params c =
    send_raw-SameCalls writes id method c (codec.marshal_params params)
