-- ===== src/Registry/Dynamic/Samples.antt =====
-- A run of the dynamic registry of internal/registry/dynamic.go: an agent registers and another one
-- goes away.
use daedalus.Prelude.{
  Bool-cases, inl, inr, has_key, str_eq, str_eq_comm, ◌≡◌, refl, sym, ap, true, Option, none, some,
  List, [], ◌∷◌, ◌&&◌, if◌then◌else◌, is_empty, is_nil, Str, codes, Result, ok, err, ok-injective,
  Map, lookup, insert, delete, member,
}
use daedalus.Prelude.Int.{ℤ, pos, negsuc}
use daedalus.A2a.{AgentSkill}
use daedalus.Registry.Types.{AgentEntry}
use daedalus.Registry.Dynamic.{DynamicRegistry, run_events, find_by_name}
use daedalus.Registry.Dynamic.Store.{
  Nats, DynamicConfig, created, found_keys, Bucket, new_dynamic_registry, Op, registering, expiring,
  deregistering, run_ops,
}
use daedalus.Registry.Dynamic.Mirrors.{served, follows_bucket}

-- An entry with a name and a port only.
abbrev bare : Str → Str → Str → List AgentSkill → Str → Str → ℤ → AgentEntry
bare name description version skills subject runtime port = record {
  card = record { name = name; description = description; version = version; skills = skills };
  queue_subject = subject;
  runtime = runtime;
  acp_port = port;
}

abbrev agent : Str → ℤ → AgentEntry
agent name port = bare name [] [] [] [] [] port

abbrev with_port : ℤ → Str → Result Str Str
with_port (pos n) name = ok (n ∷ name)
with_port (negsuc n) name = err (codes "unsupported")

-- Encodes the entries of this kind.
abbrev marshal : AgentEntry → Result Str Str
marshal e =
    if is_nil e.card.skills
      && is_empty e.card.description
      && is_empty e.card.version
      && is_empty e.queue_subject
      && is_empty e.runtime
    then with_port e.acp_port e.card.name
    else err (codes "unsupported")

abbrev unmarshal : Str → Option AgentEntry
unmarshal [] = none
unmarshal (n ∷ name) = some (agent name (pos n))

fields-decode :
    (name description version : Str) (skills : List AgentSkill) (subject runtime : Str) (port : ℤ)
    (value : Str)
    → marshal (bare name description version skills subject runtime port) ≡ ok value
    → unmarshal value ≡ some (bare name description version skills subject runtime port)
fields-decode name [] [] [] [] [] (pos n) value h = ap unmarshal (sym (ok-injective h))
fields-decode name [] [] [] [] [] (negsuc n) value h = absurd (cc)
fields-decode name description version (x ∷ skills) subject runtime port value h = absurd (cc)
fields-decode name (x ∷ description) version [] subject runtime port value h = absurd (cc)
fields-decode name [] (x ∷ version) [] subject runtime port value h = absurd (cc)
fields-decode name [] [] [] (x ∷ subject) runtime port value h = absurd (cc)
fields-decode name [] [] [] [] (x ∷ runtime) port value h = absurd (cc)

marshal-decodes : (e : AgentEntry) (value : Str) → marshal e ≡ ok value → unmarshal value ≡ some e
marshal-decodes e value h =
    fields-decode e.card.name e.card.description e.card.version e.card.skills e.queue_subject
      e.runtime e.acp_port value h

abbrev quote : Str → Str
quote name = name

abbrev entries : Map Str
entries = (codes "a", 1 ∷ codes "a") ∷ []

abbrev nats : Nats
nats = record {
  jetstream = none;
  create_key_value = λ bucket ttl. created;
  key_value = λ bucket. none;
  keys = found_keys (codes "a" ∷ []);
  get = λ key. lookup key entries;
}

abbrev read : Str → Result Str (Option (List AgentEntry))
read path = err (codes "no such file")

abbrev config : DynamicConfig
config = record { fallback_path = []; ttl = pos 0 }

abbrev synced : DynamicRegistry
synced = record { agents = (codes "a", agent (codes "a") (pos 1)) ∷ []; fallback = none }

-- The Put of b takes effect although its context is cancelled first.
abbrev ops : List Op
ops =
    registering (record { applied = true; answer = none; ctx_err = some (codes "cancelled") })
      (agent (codes "b") (pos 2))
    ∷ deregistering (record { applied = true; answer = none; ctx_err = none }) (codes "a")
    ∷ []

abbrev after : Bucket
after = run_ops quote marshal ops (record { entries = entries; updates = [] })

known : (name : Str) → member name (codes "a" ∷ []) ≡ has_key name entries
unfolding member lookup str_eq
known name = elim (Bool-cases (str_eq (codes "a") name)) [
  | inl same ↦ rw (str_eq_comm name (codes "a"), same) refl
  | inr other ↦ rw (str_eq_comm name (codes "a"), other) refl
]

follows_bucket_example :
    find_by_name (codes "b") (run_events unmarshal after.updates synced)
    ≡ served unmarshal none after.entries (codes "b")
unfolding new_dynamic_registry insert lookup str_eq
follows_bucket_example =
    follows_bucket quote marshal unmarshal nats read config synced entries ops (codes "b")
      marshal-decodes known (λ key. refl) refl tt

-- b is found.
found_after : served unmarshal none after.entries (codes "b") ≡ some (agent (codes "b") (pos 2))
unfolding run_ops lookup insert delete str_eq
found_after = refl

-- An entry whose TTL runs out leaves the bucket, but the cache is not told.
abbrev expired : Bucket
expired =
    run_ops quote marshal (expiring (codes "a") ∷ []) (record { entries = entries; updates = [] })

expired_served :
    (find_by_name (codes "a") (run_events unmarshal expired.updates synced)
      ≡ some (agent (codes "a") (pos 1)))
    × (served unmarshal none expired.entries (codes "a") ≡ none)
unfolding run_ops lookup delete str_eq find_by_name run_events
expired_served = (refl, refl)
