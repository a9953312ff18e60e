-- ===== src/Dispatch/Dispatcher.antt =====
-- internal/dispatch/dispatcher.go: Dispatch. The publisher's state is the list of its calls.
use daedalus.Prelude.{
  Result-cases, ◌≡◌, refl, sym, ap, ◌∙◌, subst, inl, inr, Option, none, some, List, [], ◌∷◌, ◌++◌,
  arith, if◌then◌else◌, Str, codes, is_empty, Result, ok, err, ◌>>=◌, wrap, Option-cases,
}
use daedalus.A2a.{Message, extract_prompt_text, prompt_from}
use daedalus.Registry.Types.{AgentEntry, RoutingRequest}
use daedalus.Registry.Static.{route_by_score}
use daedalus.Registry.Static.Best.{FirstBest, route_by_score_iff}
use daedalus.Dispatch.Types.{TaskSpec}

pub record SendMessageRequest : Type 0 where
  pub message : Message

pub data DispatchError : Type 0 where
  no_task_id : Str → DispatchError
  no_agent : Str → DispatchError
  not_published : Str → DispatchError

-- The dispatcher: `generateID`'s answer, PublishJSON's error by subject, and the registry.
pub record Dispatcher : Type 0 where
  pub generate_id : Result Str Str
  pub publish_json : Str → SendMessageRequest → Option Str
  pub registry : List AgentEntry

-- The calls of PublishJSON so far.
abbrev pub Published : Type 0
Published = List (Str × SendMessageRequest)

unfoldable pub task_id_of : Dispatcher → TaskSpec → Str → Result DispatchError Str
task_id_of d spec context_id =
    if is_empty spec.id
    then (do
      suffix ← wrap no_task_id d.generate_id
      ok (if is_empty context_id then suffix else context_id ++ codes "-" ++ suffix))
    else ok spec.id

abbrev pub request_of : TaskSpec → Str → Str → SendMessageRequest
request_of spec task_id context_id = record {
  message = record {
    message_id = task_id;
    context_id = context_id;
    task_id = task_id;
    role = codes "user";
    parts = record { text = spec.prompt; media = [] } ∷ [];
    metadata = spec.metadata;
  };
}

abbrev pub routing_request : TaskSpec → RoutingRequest
routing_request spec = record { skill_id = spec.skill_id; tags = spec.tags; preferred_runtime = [] }

-- Dispatch behind the task ID.
unfoldable pub send_task :
    Dispatcher → TaskSpec → Str → Str → Published → Result DispatchError (Str × Str) × Published
unfolding route_by_score
send_task d spec context_id task_id sent = elim (route_by_score (routing_request spec) d.registry) [
  | none ↦ (err (no_agent task_id), sent)
  | some entry ↦
      let req = request_of spec task_id context_id in
      let sent' = sent ++ (entry.queue_subject, req) ∷ [] in
      elim (d.publish_json entry.queue_subject req) [
        | some e ↦ (err (not_published e), sent')
        | none ↦ (ok (task_id, entry.queue_subject), sent')
      ]
]

unfoldable pub dispatch :
    Dispatcher → TaskSpec → Str → Published → Result DispatchError (Str × Str) × Published
unfolding task_id_of send_task
dispatch d spec context_id sent = elim (task_id_of d spec context_id) [
  | err e ↦ (err e, sent)
  | ok task_id ↦ send_task d spec context_id task_id sent
]

extract_prompt_text-request_of :
    (spec : TaskSpec) (task_id context_id : Str)
    → extract_prompt_text (request_of spec task_id context_id).message ≡ spec.prompt
unfolding extract_prompt_text prompt_from
extract_prompt_text-request_of spec task_id context_id = one_part spec.prompt
  where
    one_part : (text : Str) → (if is_empty text then [] else [] ++ text) ≡ text
    one_part [] = refl
    one_part (x ∷ xs) = refl

-- If Dispatch returns no error, it made one call of PublishJSON, on the subject that it returns,
-- which is that of the first of the agents with the best score; the message carries the task ID that
-- it returns, the context ID, and a text from which ExtractPromptText reads the prompt.
pub dispatch-publishes :
    (d : Dispatcher) (spec : TaskSpec) (context_id : Str) (sent : Published) (id subject : Str)
    → (dispatch d spec context_id sent).0 ≡ ok (id, subject)
    → (e : AgentEntry) × (req : SendMessageRequest) × FirstBest (routing_request spec) d.registry e
      × (subject ≡ e.queue_subject)
      × ((dispatch d spec context_id sent).1 ≡ sent ++ (subject, req) ∷ [])
      × (task_id_of d spec context_id ≡ ok id)
      × (req.message.task_id ≡ id)
      × (req.message.context_id ≡ context_id)
      × (extract_prompt_text req.message ≡ spec.prompt)
unfolding dispatch send_task
dispatch-publishes d spec context_id sent id subject h =
    elim (Result-cases (task_id_of d spec context_id)) [
      | inl (e, bad) ↦ absurd (ground arith)
      | inr (task_id, named) ↦
          elim (Option-cases (route_by_score (routing_request spec) d.registry)) [
            | inl unrouted ↦ absurd (ground arith)
            | inr (entry, routed) ↦
                let req = request_of spec task_id context_id in
                elim (Option-cases (d.publish_json entry.queue_subject req)) [
                  | inr (e, failed) ↦ absurd (ground arith)
                  | inl fine ↦
                      let same : (task_id, entry.queue_subject) ≡ (id, subject) =
                        ap (ok_or (id, subject))
                          (rw (named, routed, fine, dispatch, send_task) at h) in
                      let same_id : task_id ≡ id = ap (λ (q : Str × Str). q.0) same in
                      let same_subject : entry.queue_subject ≡ subject =
                        ap (λ (q : Str × Str). q.1) same in
                      (
                        entry,
                        req,
                        (route_by_score_iff (routing_request spec) d.registry entry).0 routed,
                        sym same_subject,
                        subst (λ s. (dispatch d spec context_id sent).1 ≡ sent ++ (s, req) ∷ [])
                            same_subject (rw (named, routed, fine, dispatch, send_task) refl),
                        named ∙ ap (λ i. ok i) same_id,
                        same_id,
                        refl,
                        extract_prompt_text-request_of spec task_id context_id,
                      )
                ]
          ]
    ]
  where
    ok_or : Str × Str → Result DispatchError (Str × Str) → Str × Str
    ok_or p (err _) = p
    ok_or p (ok q) = q
