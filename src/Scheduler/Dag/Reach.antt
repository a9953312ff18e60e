-- ===== src/Scheduler/Dag/Reach.antt =====
-- The search of `reachable` in internal/scheduler/dag.go against walks along edges.
use daedalus.Prelude.{
  ℕ, zero, suc, ◌+◌, ◌≤◌, ◌<◌, ◌≡◌, refl, sym, ◌≢◌, ◌↔◌, inl, inr, Bool, true, false, ◌||◌, Option,
  none, some, List, [], ◌∷◌, arith, if◌then◌else◌, length, Str, str_eq, Map, lookup, member,
  Bool-cases, Option-cases, str_eq_iff, str_eq_refl, str_eq_comm, subst,
}
use mathlib.Core.Bool.{false≢true}
use daedalus.Scheduler.Dag.{succs_of, scan, reach_loop, edge_count, is_found, reachable}

abbrev pub Edge : Map (List Str) → Str → Str → Type 0
Edge m a b = member b (succs_of m a) ≡ true

-- There is a chain of edges from `a` to the index.
pub data Walk (m : Map (List Str)) (a : Str) : Str → Type 0 where
  stop : Walk m a a
  step : {b c : Str} → Walk m a b → Edge m b c → Walk m a c

pub Walk-trans : {m : Map (List Str)} {a b c : Str} → Walk m a b → Walk m b c → Walk m a c
Walk-trans w stop = w
Walk-trans w (step v e) = step (Walk-trans w v) e

-- The edges that lead out of nodes not yet visited.
unvisited_edges : List Str → Map (List Str) → ℕ
unvisited_edges visited [] = 0
unvisited_edges visited ((k, ss) ∷ m) =
    let rest = unvisited_edges visited m in if member k visited then rest else length ss + rest

unvisited_edges_mono :
    (v : Str) (visited : List Str) (m : Map (List Str))
    → unvisited_edges (v ∷ visited) m ≤ unvisited_edges visited m
unfolding unvisited_edges member
unvisited_edges_mono v visited [] = omega arith
unvisited_edges_mono v visited ((k, ss) ∷ m) = ground (arith, unvisited_edges_mono v visited m)

unvisited_edges-cons :
    (v : Str) (visited : List Str) (m : Map (List Str))
    → member v visited ≡ false
    → unvisited_edges (v ∷ visited) m + length (succs_of m v) ≤ unvisited_edges visited m
unfolding unvisited_edges member lookup
unvisited_edges-cons v visited [] h = omega arith
unvisited_edges-cons v visited ((k, ss) ∷ m) h =
    ground
      (arith, str_eq_iff k v, unvisited_edges_mono v visited m, unvisited_edges-cons v visited m)

unvisited_edges_start : (m : Map (List Str)) → unvisited_edges [] m ≡ edge_count m
unfolding unvisited_edges edge_count member
unvisited_edges_start [] = refl
unvisited_edges_start ((k, ss) ∷ m) = omega (arith, unvisited_edges_start m)

length-scan :
    (target : Str) (stack ns longer : List Str)
    → scan target stack ns ≡ some longer
    → length longer ≡ length stack + length ns
unfolding scan
length-scan target stack [] longer h = ground arith
length-scan target stack (n ∷ ns) longer h =
    ground (arith, length-scan target (n ∷ stack) ns longer)

-- Each round takes at least one from the stack and the unvisited edges together.
reach_loop_total :
    (f : ℕ) (m : Map (List Str)) (target : Str) (visited stack : List Str)
    → length stack + unvisited_edges visited m < f
    → reach_loop f m target visited stack ≢ none
unfolding reach_loop
reach_loop_total zero m target visited stack h = absurd (omega arith)
reach_loop_total (suc f) m target visited [] h = λ e. cc
reach_loop_total (suc f) m target visited (curr ∷ stack) h =
    elim (Bool-cases (member curr visited)) [
      | inl seen ↦ rw seen (reach_loop_total f m target visited stack (omega arith))
      | inr new ↦ elim (Option-cases (scan target stack (succs_of m curr))) [
        | inl hit ↦ rw (new, hit) (λ e. cc)
        | inr (longer, more) ↦
            rw (new, more)
              (reach_loop_total f m target (curr ∷ visited) longer (
                omega (
                  arith,
                  length-scan target stack (succs_of m curr) longer more,
                  unvisited_edges-cons curr visited m new,
                )))
      ]
    ]

scan_hit :
    (target : Str) (stack ns : List Str) → scan target stack ns ≡ none → member target ns ≡ true
unfolding scan member
scan_hit target stack [] h = cc
scan_hit target stack (n ∷ ns) h =
    ground (arith, str_eq_iff n target, str_eq_iff target n, scan_hit target (n ∷ stack) ns)

scan_miss :
    (target : Str) (stack ns longer : List Str) (x : Str)
    → scan target stack ns ≡ some longer
    → (member target ns ≡ false) × (member x longer ≡ (member x ns || member x stack))
unfolding scan member
scan_miss target stack [] longer x h = ground arith
scan_miss target stack (n ∷ ns) longer x h =
    ground
      (arith, str_eq_iff n target, str_eq_iff target n, scan_miss target (n ∷ stack) ns longer x)

module _ (m : Map (List Str)) (start target : Str) where
  reach_loop_sound :
      (f : ℕ) (visited stack : List Str)
      → ((x : Str) → member x stack ≡ true → Walk m start x)
      → reach_loop f m target visited stack ≡ some true
      → Walk m start target
  unfolding reach_loop member
  reach_loop_sound zero visited stack from h = absurd (cc)
  reach_loop_sound (suc f) visited [] from h = absurd (cc)
  reach_loop_sound (suc f) visited (curr ∷ stack) from h = elim (Bool-cases (member curr visited)) [
    | inl seen ↦ reach_loop_sound f visited stack (λ x p. from x (ground arith)) (rw seen at h)
    | inr new ↦ elim (Option-cases (scan target stack (succs_of m curr))) [
      | inl hit ↦
          step (from curr (ground (arith, str_eq_refl curr)))
            (scan_hit target stack (succs_of m curr) hit)
      | inr (longer, more) ↦
          reach_loop_sound f (curr ∷ visited) longer
            (λ x p. elim (Bool-cases (member x (succs_of m curr))) [
              | inl next ↦ step (from curr (ground (arith, str_eq_refl curr))) next
              | inr old ↦
                  from x (ground (arith, scan_miss target stack (succs_of m curr) longer x more))
            ])
            (rw (new, more) at h)
    ]
  ]

  -- What holds while the target has not been met.
  record Inv (visited stack : List Str) : Type 0 where
    started : (member start visited || member start stack) ≡ true
    closed :
        (v c : Str)
        → member v visited ≡ true
        → Edge m v c
        → (member c visited || member c stack) ≡ true
    unmet : (member target visited || member target stack) ≡ false

  Inv-visited :
      (visited : List Str) → Inv visited [] → (v : Str) → Walk m start v → member v visited ≡ true
  unfolding member
  Inv-visited visited i v stop = ground (arith, i.started)
  Inv-visited visited i v (step {b = b} w e) =
      ground (arith, i.closed b v (Inv-visited visited i b w) e)

  Inv-skip :
      (visited stack : List Str) (curr : Str)
      → member curr visited ≡ true
      → Inv visited (curr ∷ stack)
      → Inv visited stack
  unfolding member
  Inv-skip visited stack curr seen i = record {
    started = ground (arith, i.started, str_eq_iff start curr);
    closed = λ v c p e. ground (arith, i.closed v c p e, str_eq_iff c curr);
    unmet = ground (arith, i.unmet);
  }

  Inv-visit :
      (visited stack longer : List Str) (curr : Str)
      → scan target stack (succs_of m curr) ≡ some longer
      → Inv visited (curr ∷ stack)
      → Inv (curr ∷ visited) longer
  unfolding member
  Inv-visit visited stack longer curr more i = record {
    started = ground (arith, i.started, scan_miss target stack (succs_of m curr) longer start more);
    closed = λ v c p e. elim (Bool-cases (str_eq v curr)) [
      | inl same ↦
          let e' : Edge m curr c = subst (λ u. Edge m u c) ((str_eq_iff v curr).0 same) e in
          ground (arith, scan_miss target stack (succs_of m curr) longer c more)
      | inr other ↦ ground (
        arith,
        i.closed v c (ground arith) e,
        scan_miss target stack (succs_of m curr) longer c more,
      )
    ];
    unmet = ground (arith, i.unmet, scan_miss target stack (succs_of m curr) longer target more);
  }

  reach_loop_complete :
      (f : ℕ) (visited stack : List Str)
      → Inv visited stack
      → reach_loop f m target visited stack ≡ some false
      → ¬ Walk m start target
  unfolding reach_loop
  reach_loop_complete zero visited stack i h = absurd (cc)
  reach_loop_complete (suc f) visited [] i h =
      λ w. ground (arith, i.unmet, Inv-visited visited i target w)
  reach_loop_complete (suc f) visited (curr ∷ stack) i h = elim (Bool-cases (member curr visited)) [
    | inl seen ↦
        reach_loop_complete f visited stack (Inv-skip visited stack curr seen i) (rw seen at h)
    | inr new ↦ elim (Option-cases (scan target stack (succs_of m curr))) [
      | inl hit ↦ let h' : some true ≡ some false = rw (new, hit) at h in absurd (cc)
      | inr (longer, more) ↦
          reach_loop_complete f (curr ∷ visited) longer (Inv-visit visited stack longer curr more i)
            (rw (new, more) at h)
    ]
  ]

  Inv-start : str_eq start target ≡ false → Inv [] (start ∷ [])
  unfolding member
  Inv-start other = record {
    started = ground (arith, str_eq_refl start);
    closed = λ v c p e. absurd (cc);
    unmet = ground (arith, str_eq_comm start target);
  }

  abbrev outcome : Option Bool
  outcome = reach_loop (suc (suc (edge_count m))) m target [] (start ∷ [])

  search_total : outcome ≢ none
  search_total =
      reach_loop_total (suc (suc (edge_count m))) m target [] (start ∷ [])
        (omega (arith, unvisited_edges_start m))

  search_sound : outcome ≡ some true → Walk m start target
  unfolding member
  search_sound =
      reach_loop_sound (suc (suc (edge_count m))) [] (start ∷ [])
        λ x p. subst (Walk m start) (sym ((str_eq_iff x start).0 (ground arith))) stop

-- The loop of `reachable` finds the target exactly when a chain of edges leads to it from the
-- start, on any edge map, cycles included; the fuel given is never used up.
pub reachable_iff :
    (m : Map (List Str)) (start target : Str)
    → (reachable m start target ≡ true) ↔ Walk m start target
unfolding reachable
reachable_iff m start target = elim (Bool-cases (str_eq start target)) [
  | inl same ↦
      let e : start ≡ target = (str_eq_iff start target).0 same in
      (λ _. subst (Walk m start) e stop, λ _. rw same refl)
  | inr other ↦ rw other (by_verdict other (outcome m start target) refl)
]
  where
    by_verdict :
        str_eq start target ≡ false
        → (v : Option Bool) → outcome m start target ≡ v
        → (is_found v ≡ true) ↔ Walk m start target
    by_verdict other none e = absurd (search_total m start target e)
    by_verdict other (some true) e = (λ _. search_sound m start target e, λ _. refl)
    by_verdict other (some false) e = (
      λ h. absurd (false≢true h),
      λ w. absurd (
          reach_loop_complete m start target (suc (suc (edge_count m))) [] (start ∷ [])
            (Inv-start m start target other) e w),
    )
