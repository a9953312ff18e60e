-- ===== src/Operator/Samples.antt =====
-- A runtime, for the samples of the controllers in operator/internal/controller.
use daedalus.Prelude.{none, some, [], ◌∷◌, codes}
use daedalus.Prelude.Int.{pos}
use daedalus.Operator.Types.{AgentRuntime, ScalingSpec}

-- Two variables, a secret, context management with its defaults, and no scaling.
abbrev pub runtime : AgentRuntime
runtime = record {
  namespace = codes "ns";
  name = codes "rt";
  generation = 3;
  annotations = [];
  spec = record {
    runtime_type = codes "BYO";
    conformance_level = codes "Level1";
    container = record {
      image = codes "agent:v1";
      port = pos 0;
      work_dir = codes "/workspace";
      resources =
          some (record {
            requests = some (record { cpu = codes "100m"; memory = [] });
            limits = none;
          });
      image_pull_policy = [];
      image_pull_secrets = codes "pull" ∷ [];
      startup_timeout = codes "60s";
      termination_grace_period = codes "30s";
    };
    queue = record { subject = codes "agent.tasks.rt"; stream = []; durable_name = [] };
    scaling = none;
    agent_card = none;
    agent_card_ref = none;
    model_config_ref = some (record {
      kind = codes "ModelConfig";
      api_group = codes "daedalus.dev";
      name = codes "mc";
      namespace = [];
    });
    mcp_servers = [];
    context_management = some (record {
      compaction_interval = [];
      token_threshold = pos 100000;
      event_retention_size = pos 50;
      summarizer = none;
      overlap_size = pos 2;
      resurrection = none;
    });
    env =
        record { name = codes "MODE"; value = codes "fast"; value_from = none }
        ∷ record {
          name = codes "TOKEN";
          value = [];
          value_from = some (record {
            config_map_key_ref = none;
            secret_key_ref = some (record { name = codes "s"; key = codes "k" });
          });
        }
        ∷ [];
  };
  status = record {
    conditions = [];
    observed_generation = 0;
    scaled_job_name = [];
    config_map_name = [];
    service_name = [];
  };
}

abbrev static_scaling : ScalingSpec
static_scaling = record { mode = codes "Static"; replicas = some (pos 2); keda = none }

abbrev pub static_runtime : AgentRuntime
static_runtime = record runtime { spec = record (runtime.spec) { scaling = some static_scaling } }
