-- ===== src/Registry/Dynamic/Synced.antt =====
-- The cache right after NewDynamicRegistry of internal/registry/dynamic.go.
use daedalus.Prelude.{
  ◌≡◌, refl, sym, ap, ◌∙◌, inl, inr, true, false, Option, none, some, List, [], ◌∷◌, if◌then◌else◌,
  Str, str_eq, str_eq_iff, str_eq_comm, Map, lookup, insert, has_key, member, lookup-insert, Result,
  ok, Bool-cases, ok-injective, and_then-eq-ok,
}
use daedalus.Registry.Types.{AgentEntry}
use daedalus.Registry.Dynamic.{DynamicRegistry, initial_sync}
use daedalus.Registry.Dynamic.Store.{
  Nats, DynamicConfig, KeysFound, found_keys, no_keys_found, keys_refused, keys_of, unless_failed,
  jetstream_failed, open_bucket, load_fallback, new_dynamic_registry,
}

abbrev pub decoded : (Str → Option AgentEntry) → Option Str → Option AgentEntry
decoded unmarshal none = none
decoded unmarshal (some value) = unmarshal value

abbrev or_else : Option AgentEntry → Option AgentEntry → Option AgentEntry
or_else none b = b
or_else (some e) b = some e

or_else_twice : (d o : Option AgentEntry) → or_else d (or_else d o) ≡ or_else d o
or_else_twice none o = refl
or_else_twice (some e) o = refl

module _ (get : Str → Option Str) (unmarshal : Str → Option AgentEntry) (name : Str) where
  abbrev sync_decoded : Str → Map AgentEntry → Option AgentEntry → Map AgentEntry
  sync_decoded key agents u = elim u [ none ↦ agents | some ae ↦ insert key ae agents ]

  abbrev sync_found : Str → Map AgentEntry → Option Str → Map AgentEntry
  sync_found key agents g = elim g [
    | none ↦ agents
    | some value ↦ sync_decoded key agents (unmarshal value)
  ]

  abbrev sync_one : Str → Map AgentEntry → Map AgentEntry
  sync_one key agents = sync_found key agents (get key)

  sync_one-lookup :
      (key : Str) (agents : Map AgentEntry)
      → lookup name (sync_one key agents) ≡ (
          if str_eq key name
          then or_else (decoded unmarshal (get name)) (lookup name agents)
          else lookup name agents)
  sync_one-lookup key agents = elim (Bool-cases (str_eq key name)) [
    | inl same ↦
        rw (same, sym (ap get ((str_eq_iff key name).0 same)))
          (elim (get key)
            as (λ g.
              lookup name (sync_found key agents g)
              ≡ or_else (decoded unmarshal g) (lookup name agents)) [
                | none ↦ refl
                | some value ↦
                    elim (unmarshal value)
                      as (λ u.
                        lookup name (sync_decoded key agents u) ≡ or_else u (lookup name agents)) [
                          | none ↦ refl
                          | some ae ↦ lookup-insert key name ae agents ∙ rw same refl
                        ]
              ])
    | inr other ↦
        rw other
          (elim (get key) as (λ g. lookup name (sync_found key agents g) ≡ lookup name agents) [
            | none ↦ refl
            | some value ↦
                elim (unmarshal value)
                  as (λ u. lookup name (sync_decoded key agents u) ≡ lookup name agents) [
                    | none ↦ refl
                    | some ae ↦ lookup-insert key name ae agents ∙ rw other refl
                  ]
          ])
  ]

  initial_sync-lookup :
      (keys : List Str) (agents : Map AgentEntry)
      → lookup name (initial_sync get unmarshal keys agents) ≡ (
          if member name keys
          then or_else (decoded unmarshal (get name)) (lookup name agents)
          else lookup name agents)
  unfolding initial_sync member
  initial_sync-lookup [] agents = refl
  initial_sync-lookup (key ∷ keys) agents = elim (Bool-cases (str_eq key name)) [
    | inl same ↦
        initial_sync-lookup keys (sync_one key agents)
        ∙ rw (sync_one-lookup key agents, str_eq_comm name key, same)
            (elim (member name keys)
              as (λ b.
                (if b
                  then or_else (decoded unmarshal (get name))
                      (or_else (decoded unmarshal (get name)) (lookup name agents))
                  else or_else (decoded unmarshal (get name)) (lookup name agents))
                ≡ or_else (decoded unmarshal (get name)) (lookup name agents)) [
                  | true ↦ or_else_twice (decoded unmarshal (get name)) (lookup name agents)
                  | false ↦ refl
                ])
    | inr other ↦
        initial_sync-lookup keys (sync_one key agents)
        ∙ rw (sync_one-lookup key agents, str_eq_comm name key, other) refl
  ]

-- The keys that the store finds are those of the bucket.
abbrev pub Finds : KeysFound → Map Str → Type 0
Finds (found_keys ks) entries = (name : Str) → member name ks ≡ has_key name entries
Finds no_keys_found entries = (name : Str) → has_key name entries ≡ false
Finds (keys_refused e) entries = Unit

or_else-none : (d : Option AgentEntry) → or_else d none ≡ d
or_else-none none = refl
or_else-none (some e) = refl

keys_of-Finds :
    (found : KeysFound) (entries : Map Str) (keys : List Str) (name : Str)
    → keys_of found ≡ ok keys
    → Finds found entries
    → member name keys ≡ has_key name entries
unfolding member
keys_of-Finds (found_keys ks) entries keys name h finds =
    ap (member name) (sym (ok-injective h)) ∙ finds name
keys_of-Finds no_keys_found entries keys name h finds =
    ap (member name) (sym (ok-injective h)) ∙ sym (finds name)
keys_of-Finds (keys_refused e) entries keys name h finds = absurd (cc)

sync-decoded :
    (get : Str → Option Str) (unmarshal : Str → Option AgentEntry) (keys : List Str)
    (entries : Map Str) (name : Str)
    → member name keys ≡ has_key name entries
    → get name ≡ lookup name entries
    → lookup name (initial_sync get unmarshal keys []) ≡ decoded unmarshal (lookup name entries)
unfolding lookup
sync-decoded get unmarshal keys entries name known gets =
    initial_sync-lookup get unmarshal name keys []
    ∙ rw (known, gets)
        (elim (lookup name entries)
          as (λ o.
            (if elim o [ none ↦ false | some v ↦ true ]
              then or_else (decoded unmarshal o) none
              else none)
            ≡ decoded unmarshal o) [ none ↦ refl | some value ↦ or_else-none (unmarshal value) ])

-- The cache right after NewDynamicRegistry.
pub new-lookup :
    (nats : Nats) (read : Str → Result Str (Option (List AgentEntry)))
    (unmarshal : Str → Option AgentEntry) (cfg : DynamicConfig) (dr : DynamicRegistry)
    (entries : Map Str) (name : Str)
    → Finds nats.keys entries
    → ((key : Str) → nats.get key ≡ lookup key entries)
    → new_dynamic_registry nats read unmarshal cfg ≡ ok dr
    → lookup name dr.agents ≡ decoded unmarshal (lookup name entries)
unfolding new_dynamic_registry
new-lookup nats read unmarshal cfg dr entries name finds gets h =
    let (_, _, h1) = and_then-eq-ok (unless_failed nats.jetstream jetstream_failed) _ h in
    let (_, _, h2) = and_then-eq-ok (open_bucket nats cfg) _ h1 in
    let (fallback, _, h3) = and_then-eq-ok (load_fallback read cfg.fallback_path) _ h2 in
    let (keys, found, h4) = and_then-eq-ok (keys_of nats.keys) _ h3 in
    ap (λ d. lookup name d.agents) (sym (ok-injective h4))
    ∙ sync-decoded nats.get unmarshal keys entries name
        (keys_of-Finds nats.keys entries keys name found finds) (gets name)
