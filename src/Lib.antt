-- ===== src/Lib.antt =====
-- Verification of the Go code of daedalus: an orchestrator that plans tasks, dispatches them to agent
-- workers over NATS and collects their results, and the proxy beside each worker.
--
-- The parts and how they interact. The scheduler (internal/scheduler) orders the tasks of a request by
-- their dependencies and hands each batch to the dispatcher (internal/dispatch), which picks an agent
-- of the registry (internal/registry) and publishes a message of internal/a2a on the agent's queue. The
-- consumer (internal/queue) gives the message to the handler of the proxy (internal/proxy), which
-- prompts the agent through the client of its connection (internal/acp) and publishes status and
-- result; internal/contextmgmt counts what its sessions use.
-- The collector (internal/orchestrator) takes up results and statuses, and wakes the calls that wait
-- for them: the scheduler's, and those of callers of the fan-out in the same package. A worker's git
-- branches are those of internal/branch. The Kubernetes operator (operator) keeps, for each AgentRuntime,
-- the registry entry, the service and the workload of a worker, and tells the workers of new secrets.
--
-- Where what is modelled:
--   A2a: internal/a2a/types.go.
--   Registry.Types, Registry.Static (Valid, Best): internal/registry/registry.go and scorer.go; `load`,
--     `validate`, `find_by_skill`, `find_by_tag`, `find_by_name`, `route`, `score`, `route_by_score`
--     are LoadFromReader, validate, FindBySkill, FindByTag, FindByName, Route, Score, RouteByScore.
--   Registry.Dynamic (Lookup, Backoff, Store, Synced, Mirrors): internal/registry/dynamic.go;
--     `new_dynamic_registry`, `register`, `deregister`, `apply_event` are NewDynamicRegistry, Register,
--     Deregister and a round of runWatcher; what is stored and told to watchers is a bucket.
--   Dispatch.Types, Dispatch.Dispatcher: internal/dispatch/types.go and dispatcher.go; the state is the
--     list of the calls of PublishJSON.
--   Orchestrator.Types, Orchestrator.FanOut (Slots, Valid): internal/orchestrator/types.go and
--     orchestrator.go; the goroutines of FanOut are an order in which their results arrive.
--   Orchestrator.Collector (Sound, Steps, Promises), Orchestrator.WaitForAll:
--     internal/orchestrator/collector.go; each region under the mutex is an operation, and a step.
--   Scheduler.Dag (Reach, Acyclic, Degrees, WellFormed, Progress, Validate): internal/scheduler/dag.go.
--   Scheduler.Types, Scheduler.Run (Settle, Phases, Batch, Loop, Build, Schedule, Outcomes):
--     internal/scheduler/types.go and scheduler.go; `schedule` is Schedule, its loop `run_loop`.
--   ContextMgmt.Tracker (Lives, Refines, Strategy): internal/contextmgmt/tracker.go.
--   Branch.Naming (Clean, Parsed), Branch.Retry, Branch.Worker: internal/branch/naming.go, retry.go and
--     worker.go; the state of a worker session has the git commands that it ran.
--   Queue (Tried): internal/queue/nats.go, as far as it acknowledges messages.
--   Proxy.Handler (Answered, Released), Proxy.Shutdown: internal/proxy/handler.go and shutdown.go;
--     Proxy.Delivered joins the handler to the collector.
--   Acp.Messages: internal/acp/jsonrpc.go. Acp.Client (Steps, Calls, Failing, Routed, Ended, Deltas,
--     Chunks, Answers): internal/acp/client.go; `register`, `send_request`, `dispatch`, `read_lines`,
--     `end_of_stream` are call, sendRequest, dispatch and readLoop in parts, each a step of a goroutine.
--   Operator.Types: operator/api/v1alpha1. Operator.Value, Environment (Decoded), Resources, Workload
--     (Decoded): the builders of operator/internal/controller/agentruntime_controller.go. Operator.Cluster:
--     the API server. Operator.Children, Scaling, AgentRuntime (Steps, Succeeds, Settled, Elsewhere,
--     Exclusive, Conditions, Rewritten, Repeated): its Reconcile.
--   Operator.ModelConfig (Propagated): operator/internal/controller/modelconfig_controller.go, which tells
--     the runtimes when a secret changes.
--   Prelude: strings as lists of bytes, maps as association lists, sets as lists of keys, results with
--     errors, sorting, integers. The modules named Samples hold runs at small inputs.
--
-- Conventions. A Go map is an association list; the order of a range over it is the list's, and no
-- theorem depends on it. Errors are values: a data type per function, or the text where the code
-- publishes it. Code outside the repository (NATS, the ACP agent, git, JSON, random bytes, clocks) is a
-- parameter: a field of World, Env, Codec or Dispatcher, or an argument; the API server is a map of
-- objects whose refusals are a parameter. Goroutines are an order of arrival or a step relation.
--
-- Fuel. The loop of Schedule has one unit more than the graph has nodes, since each round completes a
-- node; the search of Validate as many as nodes, since each call paints one; that of reachable as many
-- as edges and one more; and the loop of Sanitize the length of the string, since each round shortens it.
--
-- Not modelled: telemetry and its spans, the commands, the stub controllers of the Kubernetes operator
-- with their API types and generated code; log lines, deadlines of connections; the set-up of NATS
-- streams, consumers and subscriptions, and of the watches of the controllers.
pub mod Acp
pub mod Prelude
pub mod A2a
pub mod Registry
pub mod Dispatch
pub mod Orchestrator
pub mod Scheduler
pub mod ContextMgmt
pub mod Branch
pub mod Queue
pub mod Proxy
pub mod Operator
