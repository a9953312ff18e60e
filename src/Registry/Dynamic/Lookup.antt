-- ===== src/Registry/Dynamic/Lookup.antt =====
-- FindByName and All of internal/registry/dynamic.go agree.
use daedalus.Prelude.{
  ◌≡◌, refl, sym, ap, ◌∙◌, subst, inl, inr, true, false, Option, none, some, List, [], ◌∷◌, ◌++◌,
  map, if◌then◌else◌, arith, Str, str_eq, str_eq_iff, str_lt, Map, lookup, insert, delete, has_key,
  sort_by, insert_by, IsSorted, sort_by-IsSorted, Bool-cases, Option-cases,
}
use daedalus.Registry.Types.{AgentEntry}
use daedalus.Registry.Static
use daedalus.Registry.Dynamic.{
  DynamicRegistry, Event, put, deleted, purged, delivered, apply_event, run_events, card_name,
  unseen, all, find_by_name,
}

-- Each entry of the cache stands under its own name.
abbrev pub Keyed : Map AgentEntry → Type 0
Keyed [] = Unit
Keyed ((k, e) ∷ m) = (e.card.name ≡ k) × Keyed m

insert-Keyed :
    (k : Str) (e : AgentEntry) (m : Map AgentEntry)
    → e.card.name ≡ k
    → Keyed m
    → Keyed (insert k e m)
unfolding insert
insert-Keyed k e [] own h = (own, tt)
insert-Keyed k e ((j, x) ∷ m) own h = elim (Bool-cases (str_eq j k)) [
  | inl same ↦ rw same (own, h.1)
  | inr other ↦ rw other (h.0, insert-Keyed k e m own h.1)
]

delete-Keyed : (k : Str) (m : Map AgentEntry) → Keyed m → Keyed (delete k m)
unfolding delete
delete-Keyed k [] h = tt
delete-Keyed k ((j, x) ∷ m) h = elim (Bool-cases (str_eq j k)) [
  | inl same ↦ rw same (delete-Keyed k m h.1)
  | inr other ↦ rw other (h.0, delete-Keyed k m h.1)
]

module _ (unmarshal : Str → Option AgentEntry) where
  -- The events are those of Register and Deregister: what is put has its name for a key.
  abbrev pub Registered : List Event → Type 0
  Registered [] = Unit
  Registered (put key value ∷ es) =
      ((e : AgentEntry) → unmarshal value ≡ some e → e.card.name ≡ key) × Registered es
  Registered (deleted key ∷ es) = Registered es
  Registered (purged key ∷ es) = Registered es
  Registered (delivered ∷ es) = Registered es

  run_events-Keyed :
      (es : List Event) (dr : DynamicRegistry)
      → Registered es
      → Keyed dr.agents
      → Keyed (run_events unmarshal es dr).agents
  unfolding run_events apply_event
  run_events-Keyed [] dr r k = k
  run_events-Keyed (put key value ∷ es) dr r k = elim (Option-cases (unmarshal value)) [
    | inl bad ↦
        let e : apply_event unmarshal (put key value) dr ≡ dr = ground arith in
        subst (λ d. Keyed (run_events unmarshal es d).agents) (sym e) (run_events-Keyed es dr r.1 k)
    | inr (ae, good) ↦
        let e : apply_event unmarshal (put key value) dr
            ≡ record dr { agents = insert key ae dr.agents } =
          ground arith in
        subst (λ d. Keyed (run_events unmarshal es d).agents) (sym e)
          (run_events-Keyed es (record dr { agents = insert key ae dr.agents }) r.1
            (insert-Keyed key ae dr.agents (r.0 ae good) k))
  ]
  run_events-Keyed (deleted key ∷ es) dr r k =
      run_events-Keyed es (record dr { agents = delete key dr.agents }) r
        (delete-Keyed key dr.agents k)
  run_events-Keyed (purged key ∷ es) dr r k =
      run_events-Keyed es (record dr { agents = delete key dr.agents }) r
        (delete-Keyed key dr.agents k)
  run_events-Keyed (delivered ∷ es) dr r k = run_events-Keyed es dr r k

str_lt_irrefl : (a : Str) → str_lt a a ≡ false
unfolding str_lt
str_lt_irrefl [] = refl
str_lt_irrefl (x ∷ xs) = ground (arith, str_lt_irrefl xs)

find_by_name-insert_by :
    (name : Str) (x : AgentEntry) (ys : List AgentEntry)
    → Static.find_by_name name (insert_by card_name x ys) ≡ Static.find_by_name name (x ∷ ys)
unfolding insert_by Static.find_by_name
find_by_name-insert_by name x [] = refl
find_by_name-insert_by name x (y ∷ ys) = elim (Bool-cases (str_lt y.card.name x.card.name)) [
  | inr more ↦ ground arith
  | inl less ↦ elim (Bool-cases (str_eq y.card.name name)) [
    | inr other ↦ ground (arith, find_by_name-insert_by name x ys)
    | inl this ↦
        let e : y.card.name ≡ name = (str_eq_iff y.card.name name).0 this in
        let below : str_lt name x.card.name ≡ true =
          subst (λ n. str_lt n x.card.name ≡ true) e less in
        let apart : str_eq x.card.name name ≡ false = not_same x.card.name below in ground arith
  ]
]
  where
    not_same : (n : Str) → str_lt name n ≡ true → str_eq n name ≡ false
    not_same n below = elim (Bool-cases (str_eq n name)) [
      | inr other ↦ other
      | inl same ↦
          let loop : str_lt name name ≡ true =
            subst (λ k. str_lt name k ≡ true) ((str_eq_iff n name).0 same) below in
          absurd (ground (arith, str_lt_irrefl name))
    ]

find_by_name-sort_by :
    (name : Str) (es : List AgentEntry)
    → Static.find_by_name name (sort_by card_name es) ≡ Static.find_by_name name es
unfolding sort_by Static.find_by_name
find_by_name-sort_by name [] = refl
find_by_name-sort_by name (e ∷ es) =
    find_by_name-insert_by name e (sort_by card_name es)
    ∙ ap (λ r. if str_eq e.card.name name then some e else r) (find_by_name-sort_by name es)

-- The first, or else the second.
abbrev or_else : Option AgentEntry → Option AgentEntry → Option AgentEntry
or_else none other = other
or_else (some e) other = some e

find_by_name-append :
    (name : Str) (xs ys : List AgentEntry)
    → Static.find_by_name name (xs ++ ys)
      ≡ or_else (Static.find_by_name name xs) (Static.find_by_name name ys)
unfolding Static.find_by_name
find_by_name-append name [] ys = refl
find_by_name-append name (x ∷ xs) ys = ground (arith, find_by_name-append name xs ys)

find_by_name-Keyed :
    (name : Str) (m : Map AgentEntry)
    → Keyed m
    → Static.find_by_name name (map (λ e. e.1) m) ≡ lookup name m
unfolding Static.find_by_name lookup
find_by_name-Keyed name [] k = refl
find_by_name-Keyed name ((j, e) ∷ m) k =
    ap (λ n. if str_eq n name then some e else Static.find_by_name name (map (λ x. x.1) m)) k.0
    ∙ ap (λ r. if str_eq j name then some e else r) (find_by_name-Keyed name m k.1)

find_by_name-unseen :
    (name : Str) (m : Map AgentEntry) (es : List AgentEntry)
    → Static.find_by_name name (unseen m es)
      ≡ (if has_key name m then none else Static.find_by_name name es)
unfolding Static.find_by_name
find_by_name-unseen name m [] = ground arith
find_by_name-unseen name m (e ∷ es) = elim (Bool-cases (str_eq e.card.name name)) [
  | inl same ↦
      let n : e.card.name ≡ name = (str_eq_iff e.card.name name).0 same in
      let key : has_key e.card.name m ≡ has_key name m = ap (λ k. has_key k m) n in
      ground (arith, find_by_name-unseen name m es)
  | inr other ↦ ground (arith, find_by_name-unseen name m es)
]

find_by_name-all :
    (name : Str) (dr : DynamicRegistry)
    → Keyed dr.agents
    → Static.find_by_name name (all dr) ≡ find_by_name name dr
unfolding all find_by_name Static.find_by_name
find_by_name-all name dr k = elim (Option-cases dr.fallback) [
  | inl alone ↦
      let whole = map (λ e. e.1) dr.agents ++ [] in
      ground (
        arith,
        find_by_name-sort_by name whole,
        find_by_name-append name (map (λ e. e.1) dr.agents) [],
        find_by_name-Keyed name dr.agents k,
      )
  | inr (entries, there) ↦
      let whole = map (λ e. e.1) dr.agents ++ unseen dr.agents entries in
      ground (
        arith,
        find_by_name-sort_by name whole,
        find_by_name-append name (map (λ e. e.1) dr.agents) (unseen dr.agents entries),
        find_by_name-Keyed name dr.agents k,
        find_by_name-unseen name dr.agents entries,
      )
]

-- After any events of Register and Deregister on a registry whose cached entries stand under their own
-- names: All is sorted by name, and the first entry with a name in All is the one that FindByName
-- returns, the cache before the fallback.
pub all-find_by_name :
    (unmarshal : Str → Option AgentEntry) (es : List Event) (dr : DynamicRegistry)
    → Registered unmarshal es
    → Keyed dr.agents
    → IsSorted card_name (all (run_events unmarshal es dr))
      × ((name : Str)
          → Static.find_by_name name (all (run_events unmarshal es dr))
            ≡ find_by_name name (run_events unmarshal es dr))
unfolding all
all-find_by_name unmarshal es dr r k =
    let after = run_events unmarshal es dr in
    (
      sort_by-IsSorted card_name (
          map (λ e. e.1) after.agents
          ++ elim after.fallback [ none ↦ [] | some entries ↦ unseen after.agents entries ]),
      λ name. find_by_name-all name after (run_events-Keyed unmarshal es dr r k),
    )
