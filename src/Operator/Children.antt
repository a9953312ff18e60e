-- ===== src/Operator/Children.antt =====
-- operator/internal/controller/agentruntime_controller.go: reconcileConfigMap and reconcileService.
use daedalus.Prelude.{Result, none, some, [], ◌∷◌, ◌++◌, Str, codes, ok, err}
use daedalus.Operator.Types.{AgentRuntime}
use daedalus.Operator.Workload.{port_of, child_labels, registry_entry}
use daedalus.Operator.Cluster.{
  Found, ConfigMap, Service, put, Env, get_object, State, Outcome, failed, unless_err, owned_meta,
  config_map_kind, service_kind, write_config_map, write_service, not_found, no_match_error,
  get_failed, found,
}

abbrev pub config_map_name : AgentRuntime → Str
config_map_name rt = rt.name ++ codes "-agent-registry"

abbrev pub service_name : AgentRuntime → Str
service_name rt = rt.name ++ codes "-a2a"

abbrev pub store_config_map : AgentRuntime → Str → ConfigMap → State → State
store_config_map rt name m s = record {
  cluster = record (s.cluster) {
    config_maps = put rt.namespace name (some m) s.cluster.config_maps;
  };
  status = record (s.status) { config_map_name = name };
}

abbrev pub config_map_of : AgentRuntime → Str → ConfigMap
config_map_of rt json = record {
  meta = owned_meta rt (config_map_name rt);
  contents = (codes "agent-registry.json", json) ∷ [];
  binary_data = [];
}

abbrev pub updated_config_map : ConfigMap → ConfigMap → ConfigMap
updated_config_map desired existing = record existing {
  meta = record (existing.meta) { labels = desired.meta.labels };
  contents = desired.contents;
}

abbrev pub write_map : Env → AgentRuntime → Str → ConfigMap → State → Outcome
write_map env rt context m s =
    unless_err (env.refuses (write_config_map m)) context
      (store_config_map rt (config_map_name rt) m s, none) s

-- What follows the Get.
abbrev pub save_config_map : Env → AgentRuntime → ConfigMap → State → Found ConfigMap → Outcome
save_config_map env rt desired s not_found = write_map env rt (codes "creating ConfigMap") desired s
save_config_map env rt desired s no_match_error =
    failed (codes "getting ConfigMap") (codes "no match") s
save_config_map env rt desired s (get_failed e) = failed (codes "getting ConfigMap") e s
save_config_map env rt desired s (found existing) =
    write_map env rt (codes "updating ConfigMap") (updated_config_map desired existing) s

-- What follows the encoding.
abbrev pub encoded_config_map : Env → AgentRuntime → State → Result Str Str → Outcome
encoded_config_map env rt s (err e) =
    failed (codes "building registry JSON: marshalling registry entry") e s
encoded_config_map env rt s (ok json) =
    unless_err (env.owner_err config_map_kind) (codes "setting owner reference on ConfigMap")
      (save_config_map env rt (config_map_of rt json) s
        (get_object env config_map_kind (s.cluster.config_maps rt.namespace (config_map_name rt))))
      s

-- reconcileConfigMap
unfoldable pub reconcile_config_map : Env → AgentRuntime → State → Outcome
unfolding put registry_entry
reconcile_config_map env rt s = encoded_config_map env rt s (env.marshal (registry_entry rt))

abbrev pub store_service : AgentRuntime → Str → Service → State → State
store_service rt name m s = record {
  cluster = record (s.cluster) { services = put rt.namespace name (some m) s.cluster.services };
  status = record (s.status) { service_name = name };
}

abbrev pub service_of : AgentRuntime → Service
service_of rt = record {
  meta = owned_meta rt (service_name rt);
  service_type = codes "ClusterIP";
  selector = child_labels rt;
  port = port_of rt;
}

abbrev pub updated_service : Service → Service → Service
updated_service desired existing = record existing {
  meta = record (existing.meta) { labels = desired.meta.labels };
  selector = desired.selector;
  port = desired.port;
}

abbrev pub save_to_service : Env → AgentRuntime → Str → Service → State → Outcome
save_to_service env rt context m s =
    unless_err (env.refuses (write_service m)) context
      (store_service rt (service_name rt) m s, none) s

-- What follows the Get.
abbrev pub save_service : Env → AgentRuntime → State → Found Service → Outcome
save_service env rt s not_found =
    save_to_service env rt (codes "creating Service") (service_of rt) s
save_service env rt s no_match_error = failed (codes "getting Service") (codes "no match") s
save_service env rt s (get_failed e) = failed (codes "getting Service") e s
save_service env rt s (found existing) =
    save_to_service env rt (codes "updating Service") (updated_service (service_of rt) existing) s

-- reconcileService
unfoldable pub reconcile_service : Env → AgentRuntime → State → Outcome
unfolding put
reconcile_service env rt s =
    unless_err (env.owner_err service_kind) (codes "setting owner reference on Service")
      (save_service env rt s
        (get_object env service_kind (s.cluster.services rt.namespace (service_name rt))))
      s
