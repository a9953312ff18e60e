-- ===== src/Registry/Dynamic/Mirrors.antt =====
-- The cache of internal/registry/dynamic.go follows the bucket of the store.
use daedalus.Prelude.{
  ◌≡◌, refl, sym, ap, ◌∙◌, inl, inr, true, false, Option, none, some, List, [], ◌∷◌, ◌++◌,
  if◌then◌else◌, arith, Str, str_eq, Map, lookup, insert, delete, lookup-insert, lookup-delete,
  Result, ok, Result-cases,
}
use daedalus.Registry.Types.{AgentEntry}
use daedalus.Registry.Static
use daedalus.Registry.Dynamic.{
  DynamicRegistry, Event, put, deleted, purged, delivered, apply_event, run_events, find_by_name,
}
use daedalus.Registry.Dynamic.Synced.{decoded, Finds, new-lookup}
use daedalus.Registry.Dynamic.Store.{
  Nats, DynamicConfig, new_dynamic_registry, Bucket, Call, register, deregister, Op, registering,
  deregistering, expiring, run_ops,
}

run_events-append :
    (unmarshal : Str → Option AgentEntry) (es es' : List Event) (dr : DynamicRegistry)
    → run_events unmarshal (es ++ es') dr ≡ run_events unmarshal es' (run_events unmarshal es dr)
unfolding run_events
run_events-append unmarshal [] es' dr = refl
run_events-append unmarshal (e ∷ es) es' dr =
    run_events-append unmarshal es es' (apply_event unmarshal e dr)

-- No TTL of the name runs out.
abbrev pub Lasting : Str → List Op → Type 0
Lasting name [] = Unit
Lasting name (registering call entry ∷ ops) = Lasting name ops
Lasting name (deregistering call other ∷ ops) = Lasting name ops
Lasting name (expiring other ∷ ops) = (str_eq other name ≡ false) × Lasting name ops

module _ (quote : Str → Str) (marshal : AgentEntry → Result Str Str)
    (unmarshal : Str → Option AgentEntry)
    (decodes : (e : AgentEntry) (value : Str) → marshal e ≡ ok value → unmarshal value ≡ some e)
    (dr : DynamicRegistry) (name : Str) where
  -- The cache, when it has seen all updates, has under the name what the bucket has.
  abbrev Mirrors : Bucket → Type 0
  Mirrors b =
      lookup name (run_events unmarshal b.updates dr).agents
      ≡ decoded unmarshal (lookup name b.entries)

  update-lookup :
      (b : Bucket) (e : Event)
      → lookup name (run_events unmarshal (b.updates ++ e ∷ []) dr).agents
        ≡ lookup name (apply_event unmarshal e (run_events unmarshal b.updates dr)).agents
  unfolding run_events
  update-lookup b e =
      ap (λ d. lookup name d.agents) (run_events-append unmarshal b.updates (e ∷ []) dr)

  put-Mirrors :
      (key value : Str) (e : AgentEntry) (b : Bucket)
      → unmarshal value ≡ some e
      → Mirrors b
      → Mirrors (record {
        entries = insert key value b.entries;
        updates = b.updates ++ put key value ∷ [];
      })
  unfolding apply_event
  put-Mirrors key value e b good h =
      update-lookup b (put key value)
      ∙ rw (apply_event, good, lookup-insert key name value b.entries)
          (lookup-insert key name e (run_events unmarshal b.updates dr).agents
            ∙ elim (str_eq key name)
                as (λ same.
                  (if same then some e else lookup name (run_events unmarshal b.updates dr).agents)
                  ≡ decoded unmarshal (if same then some value else lookup name b.entries)) [
                    | true ↦ sym good
                    | false ↦ h
                  ])

  deleted-Mirrors :
      (gone : Str) (b : Bucket)
      → Mirrors b
      → Mirrors
          (record { entries = delete gone b.entries; updates = b.updates ++ deleted gone ∷ [] })
  unfolding apply_event
  deleted-Mirrors gone b h =
      update-lookup b (deleted gone)
      ∙ rw (lookup-delete gone name b.entries) (
          lookup-delete gone name (run_events unmarshal b.updates dr).agents
          ∙ elim (str_eq gone name)
              as (λ same.
                (if same then none else lookup name (run_events unmarshal b.updates dr).agents)
                ≡ decoded unmarshal (if same then none else lookup name b.entries)) [
                  | true ↦ refl
                  | false ↦ h
                ])

  register-Mirrors :
      (call : Call) (entry : AgentEntry) (b : Bucket)
      → Mirrors b
      → Mirrors (register quote marshal call entry b).0
  unfolding register apply_event
  register-Mirrors call entry b h = elim (Result-cases (marshal entry)) [
    | inl (e, bad) ↦ rw (register, bad) h
    | inr (value, good) ↦
        rw (register, good)
          (elim call.applied
            as (λ applied. Mirrors (
              if applied
              then record {
                entries = insert entry.card.name value b.entries;
                updates = b.updates ++ put entry.card.name value ∷ [];
              }
              else b)) [
                | true ↦ put-Mirrors entry.card.name value entry b (decodes entry value good) h
                | false ↦ h
              ])
  ]

  deregister-Mirrors :
      (call : Call) (gone : Str) (b : Bucket) → Mirrors b → Mirrors (deregister quote call gone b).0
  unfolding deregister apply_event
  deregister-Mirrors call gone b h =
      elim call.applied
        as (λ applied. Mirrors (
          if applied
          then record { entries = delete gone b.entries; updates = b.updates ++ deleted gone ∷ [] }
          else b)) [ true ↦ deleted-Mirrors gone b h | false ↦ h ]

  run_ops-Mirrors :
      (ops : List Op) (b : Bucket)
      → Lasting name ops
      → Mirrors b
      → Mirrors (run_ops quote marshal ops b)
  unfolding run_ops
  run_ops-Mirrors [] b l h = h
  run_ops-Mirrors (registering call entry ∷ ops) b l h =
      run_ops-Mirrors ops (register quote marshal call entry b).0 l
        (register-Mirrors call entry b h)
  run_ops-Mirrors (deregistering call gone ∷ ops) b l h =
      run_ops-Mirrors ops (deregister quote call gone b).0 l (deregister-Mirrors call gone b h)
  run_ops-Mirrors (expiring other ∷ ops) b l h =
      run_ops-Mirrors ops (record b { entries = delete other b.entries }) l.1
        (h ∙ ap (decoded unmarshal) (sym (lookup-delete other name b.entries ∙ rw (l.0) refl)))

abbrev pub before_fallback : Str → Option (List AgentEntry) → Option AgentEntry → Option AgentEntry
before_fallback name fallback found = elim found [
  | some e ↦ some e
  | none ↦ elim fallback [ none ↦ none | some agents ↦ Static.find_by_name name agents ]
]

-- What a lookup finds if the bucket counts before the fallback.
abbrev pub served :
    (Str → Option AgentEntry) → Option (List AgentEntry) → Map Str → Str → Option AgentEntry
served unmarshal fallback entries name =
    before_fallback name fallback (decoded unmarshal (lookup name entries))

apply_event-fallback :
    (unmarshal : Str → Option AgentEntry) (e : Event) (dr : DynamicRegistry)
    → (apply_event unmarshal e dr).fallback ≡ dr.fallback
unfolding apply_event
apply_event-fallback unmarshal (put key value) dr = ground arith
apply_event-fallback unmarshal (deleted key) dr = refl
apply_event-fallback unmarshal (purged key) dr = refl
apply_event-fallback unmarshal delivered dr = refl

run_events-fallback :
    (unmarshal : Str → Option AgentEntry) (es : List Event) (dr : DynamicRegistry)
    → (run_events unmarshal es dr).fallback ≡ dr.fallback
unfolding run_events
run_events-fallback unmarshal [] dr = refl
run_events-fallback unmarshal (e ∷ es) dr =
    run_events-fallback unmarshal es (apply_event unmarshal e dr)
    ∙ apply_event-fallback unmarshal e dr

-- Let the store find the keys and the values of the bucket, and let json.Unmarshal give back what
-- json.Marshal wrote. If NewDynamicRegistry succeeds, then whatever is registered and deregistered
-- later, with errors of the store and cancelled contexts, once the watcher has received every update
-- FindByName finds under a name the entry that the bucket has under it, if it has one that can be
-- decoded, and else that of the fallback, unless an entry of that name expired after
-- NewDynamicRegistry.
pub follows_bucket :
    (quote : Str → Str) (marshal : AgentEntry → Result Str Str)
    (unmarshal : Str → Option AgentEntry) (nats : Nats)
    (read : Str → Result Str (Option (List AgentEntry))) (cfg : DynamicConfig)
    (dr : DynamicRegistry) (entries : Map Str) (ops : List Op) (name : Str)
    → ((e : AgentEntry) (value : Str) → marshal e ≡ ok value → unmarshal value ≡ some e)
    → Finds nats.keys entries
    → ((key : Str) → nats.get key ≡ lookup key entries)
    → new_dynamic_registry nats read unmarshal cfg ≡ ok dr
    → Lasting name ops
    → find_by_name name (
        run_events unmarshal
          (run_ops quote marshal ops (record { entries = entries; updates = [] })).updates
          dr)
      ≡ served unmarshal dr.fallback
          (run_ops quote marshal ops (record { entries = entries; updates = [] })).entries
          name
unfolding find_by_name run_events
follows_bucket quote marshal unmarshal nats read cfg dr entries ops name decodes finds gets h
      lasting =
    let start : Bucket = record { entries = entries; updates = [] } in
    let b = run_ops quote marshal ops start in
    ap (before_fallback name (run_events unmarshal b.updates dr).fallback) (
      run_ops-Mirrors quote marshal unmarshal decodes dr name ops start lasting
        (new-lookup nats read unmarshal cfg dr entries name finds gets h))
    ∙ ap (λ fallback. before_fallback name fallback (decoded unmarshal (lookup name b.entries)))
        (run_events-fallback unmarshal b.updates dr)
