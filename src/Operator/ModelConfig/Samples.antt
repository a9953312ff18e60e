-- ===== src/Operator/ModelConfig/Samples.antt =====
-- A secret that changed, for operator/internal/controller/modelconfig_controller.go.
use daedalus.Prelude.{
  ◌≡◌, ◌≢◌, ◌⊎◌, refl, false, none, some, [], ◌∷◌, Str, codes, str_eq, lookup, ok,
}
use daedalus.Operator.Samples.{runtime}
use daedalus.Operator.ModelConfig.{
  ModelConfig, Cluster, Env, reconciled, resolve_secret_hash, reconcile, hash_input,
}
use daedalus.Operator.ModelConfig.Propagated.{Annotated, hash_of, reconcile-Promise}

abbrev config : ModelConfig
config = record {
  namespace = codes "ns";
  name = codes "mc";
  generation = 2;
  api_key = some (record {
    value = [];
    value_from = some (record {
      config_map_key_ref = none;
      secret_key_ref = some (record { name = codes "s"; key = codes "k" });
    });
  });
  secret_hash = codes "sha256:old";
  observed_generation = 1;
  conditions = [];
}

abbrev cluster : Cluster
cluster = record { config = some config; runtimes = runtime ∷ [] }

abbrev env : Env
env = record {
  get_err = none;
  get_secret = λ namespace name. ok ((codes "k", codes "v") ∷ []);
  list_err = none;
  update_err = λ rt. none;
  status_err = none;
  sha256_hex = λ text. text;
  set_status_condition = λ c cs. c ∷ cs;
}

-- Two secrets with the same input to the hash.
same_input :
    hash_input ((codes "a=b", codes "c") ∷ []) (codes "a=b" ∷ [])
    ≡ hash_input ((codes "a", codes "b=c") ∷ []) (codes "a" ∷ [])
unfolding hash_input lookup str_eq
same_input = refl

reconcile-Promise_example :
    (((reconcile env cluster).1 ≡ reconciled)
      × ((hash : Str) × (resolve_secret_hash env config ≡ ok hash)
          × (hash_of (reconcile env cluster).0 ≡ some hash)
          × (str_eq hash config.secret_hash ≡ false
              → Annotated config hash (reconcile env cluster).0.runtimes)))
    ⊎ (((reconcile env cluster).1 ≢ reconciled)
        × (hash_of (reconcile env cluster).0 ≡ some config.secret_hash))
reconcile-Promise_example = reconcile-Promise env cluster config refl
