-- ===== src/Dispatch/Samples.antt =====
-- A dispatch of internal/dispatch/dispatcher.go, and the theorems at it.
use daedalus.Prelude.{◌≡◌, refl, none, [], ◌∷◌, ◌++◌, Str, codes, str_eq, ok, member}
use daedalus.Prelude.Int.{pos}
use daedalus.A2a.{extract_prompt_text}
use daedalus.Registry.Types.{AgentEntry}
use daedalus.Registry.Static.{route_by_score, best_of, score, tag_score, declares, tagged}
use daedalus.Registry.Static.Best.{FirstBest}
use daedalus.Dispatch.Types.{TaskSpec}
use daedalus.Dispatch.Dispatcher.{
  Dispatcher, SendMessageRequest, dispatch, send_task, task_id_of, routing_request,
  dispatch-publishes,
}

program : Unit {0}
unfolding dispatch send_task task_id_of route_by_score best_of score tag_score declares tagged
    member str_eq
program = tt

abbrev coder : AgentEntry
coder = record {
  card = record {
    name = codes "a";
    description = codes "worker";
    version = codes "1";
    skills = record { id = codes "code"; name = codes "Code"; tags = [] } ∷ [];
  };
  queue_subject = codes "agent.a";
  runtime = codes "copilot";
  acp_port = pos 9000;
}

abbrev dispatcher : Dispatcher
dispatcher = record {
  generate_id = ok (codes "0f");
  publish_json = λ subject req. none;
  registry = coder ∷ [];
}

abbrev spec : Str → TaskSpec
spec skill = record { id = []; skill_id = skill; tags = []; prompt = codes "go"; metadata = [] }

dispatched :
    (dispatch dispatcher (spec (codes "code")) (codes "ctx") []).0
    ≡ ok (codes "ctx-0f", codes "agent.a")
unfolding program
dispatched = refl

dispatch-publishes_example :
    (e : AgentEntry) × (req : SendMessageRequest) × FirstBest
      (routing_request (spec (codes "code")))
      dispatcher.registry
      e
    × (codes "agent.a" ≡ e.queue_subject)
    × ((dispatch dispatcher (spec (codes "code")) (codes "ctx") []).1
        ≡ [] ++ (codes "agent.a", req) ∷ [])
    × (task_id_of dispatcher (spec (codes "code")) (codes "ctx") ≡ ok (codes "ctx-0f"))
    × (req.message.task_id ≡ codes "ctx-0f")
    × (req.message.context_id ≡ codes "ctx")
    × (extract_prompt_text req.message ≡ codes "go")
dispatch-publishes_example =
    dispatch-publishes dispatcher (spec (codes "code")) (codes "ctx") [] (codes "ctx-0f")
      (codes "agent.a") dispatched
