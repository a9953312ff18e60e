-- ===== src/Registry/Dynamic/Store.antt =====
-- NewDynamicRegistry, Register and Deregister of internal/registry/dynamic.go, on the bucket of the
-- key-value store. What JetStream, the JSON encoding and the file with the fallback answer are
-- parameters.
use daedalus.Prelude.{
  Bool, Option, none, some, List, [], ◌∷◌, ◌++◌, if◌then◌else◌, is_empty, Str, codes, Map, insert,
  delete, Result, ok, err, ◌>>◌, ◌>>=◌,
}
use daedalus.Prelude.Int.{ℤ, pos, lt_ℤ}
use daedalus.Registry.Types.{AgentEntry, EntryError}
use daedalus.Registry.Static.{load}
use daedalus.Registry.Dynamic.{DynamicRegistry, Event, put, deleted, initial_sync}

pub data LoadError : Type 0 where
  open_failed : Str → LoadError
  invalid : Option EntryError → LoadError

-- LoadFromFile
unfoldable pub load_from_file :
    (Str → Result Str (Option (List AgentEntry))) → Str → Result LoadError (List AgentEntry)
unfolding load
load_from_file read path = elim (read path) [
  | err e ↦ err (open_failed e)
  | ok decoded ↦ elim (load decoded) [ err e ↦ err (invalid e) | ok agents ↦ ok agents ]
]

-- The answers of CreateKeyValue and of Keys.
pub data Created : Type 0 where
  created : Created
  name_in_use : Created
  create_refused : Str → Created

pub data KeysFound : Type 0 where
  found_keys : List Str → KeysFound
  no_keys_found : KeysFound
  keys_refused : Str → KeysFound

pub record Nats : Type 0 where
  pub jetstream : Option Str
  pub create_key_value : Str → ℤ → Created
  pub key_value : Str → Option Str
  pub keys : KeysFound
  pub get : Str → Option Str

pub record DynamicConfig : Type 0 where
  pub fallback_path : Str
  pub ttl : ℤ

pub data NewError : Type 0 where
  jetstream_failed create_failed bind_failed sync_failed : Str → NewError
  fallback_failed : LoadError → NewError

abbrev pub agent_card_bucket : Str
agent_card_bucket = codes "agent-cards"

-- In nanoseconds.
abbrev pub ttl_of : DynamicConfig → ℤ
ttl_of cfg = if lt_ℤ (pos 0) cfg.ttl then cfg.ttl else pos 30000000000

abbrev pub unless_failed : Option Str → (Str → NewError) → Result NewError (Unit {0})
unless_failed none context = ok tt
unless_failed (some e) context = err (context e)

-- Create or bind to the bucket.
abbrev pub open_bucket : Nats → DynamicConfig → Result NewError (Unit {0})
open_bucket nats cfg = elim (nats.create_key_value agent_card_bucket (ttl_of cfg)) [
  | created ↦ ok tt
  | name_in_use ↦ unless_failed (nats.key_value agent_card_bucket) bind_failed
  | create_refused e ↦ err (create_failed e)
]

abbrev pub load_fallback :
    (Str → Result Str (Option (List AgentEntry))) → Str → Result NewError (Option (List AgentEntry))
load_fallback read path = if is_empty path then ok none else elim (load_from_file read path) [
  | err e ↦ err (fallback_failed e)
  | ok reg ↦ ok (some reg)
]

abbrev pub keys_of : KeysFound → Result NewError (List Str)
keys_of (found_keys ks) = ok ks
keys_of no_keys_found = ok []
keys_of (keys_refused e) = err (sync_failed e)

-- NewDynamicRegistry
unfoldable pub new_dynamic_registry :
    Nats
    → (Str → Result Str (Option (List AgentEntry)))
    → (Str → Option AgentEntry)
    → DynamicConfig
    → Result NewError DynamicRegistry
unfolding load_from_file initial_sync
new_dynamic_registry nats read unmarshal cfg = do
  unless_failed nats.jetstream jetstream_failed
  open_bucket nats cfg
  fallback ← load_fallback read cfg.fallback_path
  keys ← keys_of nats.keys
  ok (record { agents = initial_sync nats.get unmarshal keys []; fallback = fallback })

-- The last value under each key, and the updates since the sync, in order. The watcher is one that
-- starts with the sync and does not stop.
pub record Bucket : Type 0 where
  pub entries : Map Str
  pub updates : List Event

-- A call of the store, made in a goroutine of its own: whether it takes effect, the error it answers,
-- and the error of the context if select sees that before the answer.
pub record Call : Type 0 where
  pub applied : Bool
  pub answer : Option Str
  pub ctx_err : Option Str

-- What select returns, with the two messages.
abbrev pub select_error : Call → Str → Str → Option Str
select_error call on_ctx on_answer = elim call.ctx_err [
  | some e ↦ some (on_ctx ++ e)
  | none ↦ elim call.answer [ some e ↦ some (on_answer ++ e) | none ↦ none ]
]

module _ (quote : Str → Str) where
  -- Register
  unfoldable pub register :
      (AgentEntry → Result Str Str) → Call → AgentEntry → Bucket → Bucket × Option Str
  unfolding insert
  register marshal call entry b = elim (marshal entry) [
    | err e ↦ (
      b,
      some (codes "dynamic registry: marshal entry " ++ quote entry.card.name ++ codes ": " ++ e),
    )
    | ok value ↦
        let context = codes "dynamic registry: register " ++ quote entry.card.name ++ codes ": " in
        (
          if call.applied
              then record {
                entries = insert entry.card.name value b.entries;
                updates = b.updates ++ put entry.card.name value ∷ [];
              }
              else b,
          select_error call context context,
        )
  ]

  -- Deregister
  unfoldable pub deregister : Call → Str → Bucket → Bucket × Option Str
  unfolding delete
  deregister call name b = (
    if call.applied
        then record { entries = delete name b.entries; updates = b.updates ++ deleted name ∷ [] }
        else b,
    select_error call (codes "dynamic registry: deregister " ++ quote name ++ codes ": ")
        (codes "dynamic registry: delete entry " ++ quote name ++ codes ": "),
  )

-- What happens to the bucket. The bucket's TTL removes an entry without an update.
pub data Op : Type 0 where
  registering : Call → AgentEntry → Op
  deregistering : Call → Str → Op
  expiring : Str → Op

unfoldable pub run_ops : (Str → Str) → (AgentEntry → Result Str Str) → List Op → Bucket → Bucket
unfolding register deregister delete
run_ops quote marshal [] b = b
run_ops quote marshal (registering call entry ∷ ops) b =
    run_ops quote marshal ops (register quote marshal call entry b).0
run_ops quote marshal (deregistering call name ∷ ops) b =
    run_ops quote marshal ops (deregister quote call name b).0
run_ops quote marshal (expiring name ∷ ops) b =
    run_ops quote marshal ops (record b { entries = delete name b.entries })
