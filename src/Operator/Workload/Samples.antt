-- ===== src/Operator/Workload/Samples.antt =====
-- The pod of a runtime, for operator/internal/controller/agentruntime_controller.go.
use daedalus.Prelude.{◌≡◌, refl, some, List, ok, codes}
use daedalus.Operator.Samples.{runtime}
use daedalus.Operator.Resources.{Parser}
use daedalus.Operator.Workload.{
  Container, no_resources, port_of, pod_spec, agent_container, proxy_container_typed,
  build_containers,
}
use daedalus.Operator.Workload.Decoded.{
  items_at, read_containers, without_resources, pod_spec-reads,
}
use daedalus.Prelude.{[], ◌∷◌}

abbrev parser : Parser
parser = record { parse = λ s. ok s; quote = λ s. s }

abbrev containers : List Container
containers =
    agent_container runtime (port_of runtime)
      (record { requests = some ((codes "cpu", codes "100m") ∷ []); limits = no_resources.limits })
    ∷ proxy_container_typed runtime (port_of runtime)
    ∷ []

pod_spec-reads_example :
    read_containers (items_at (codes "containers") (pod_spec runtime))
    ≡ some (without_resources containers)
unfolding build_containers
pod_spec-reads_example = pod_spec-reads parser runtime containers refl
