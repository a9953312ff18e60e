-- ===== src/Scheduler/Run/Build.antt =====
-- The part of Schedule (internal/scheduler/scheduler.go) before its loop: the graph is that of the
-- request's dependencies, well formed and without cycles.
use daedalus.Prelude.{
  ok-injective, ℕ, ◌+◌, ◌≡◌, ◌≢◌, refl, sym, ap, ◌∙◌, ◌↔◌, ◌⊎◌, inl, inr, true, not, ◌||◌, some,
  List, [], ◌∷◌, map, arith, Str, str_eq, Map, lookup, insert, has_key, keys, member, Bool-cases,
  str_eq_iff, subst, member_cons, member_nil, member-append, member-add, lookup-insert, Result, ok,
  err, ◌>>=◌, fail_if, wrap, and_then-eq-ok, is_nil, member_head,
}
use daedalus.Scheduler.Dag.{Dag, DagError, new_dag, add_node, add_edge, succs_of, validate}
use daedalus.Scheduler.Dag.Reach.{Edge}
use daedalus.Scheduler.Dag.Acyclic.{
  IsAcyclic, with_edge, succs_of-with_edge, Edge-with_edge, add_edge-eq-ok, add_edge-IsAcyclic,
}
use daedalus.Scheduler.Dag.WellFormed.{IsWf, new_dag-IsWf, add_node-IsWf, add_edge-IsWf}
use daedalus.Scheduler.Dag.Validate.Sound.{validate_iff}
use daedalus.Scheduler.Types.{
  ScheduledTask, ScheduleRequest, ScheduleError, dag_error, unknown_dependency, no_tasks,
}
use daedalus.Scheduler.Run.{index_tasks, add_nodes, add_deps, add_all_deps, build}

abbrev pub task_ids : List ScheduledTask → List Str
task_ids ts = map (λ t. t.spec.id) ts

-- Some task of the list has ID `b` and depends on `a`.
abbrev pub Depends : List ScheduledTask → Str → Str → Type 0
Depends [] a b = ⊥
Depends (t ∷ ts) a b = (b ≡ t.spec.id) × (member a t.depends_on ≡ true) ⊎ Depends ts a b

-- A graph on which nothing has run yet.
pub record IsFresh (d : Dag) : Type 0 where
  pub wf : IsWf d
  pub acyclic : IsAcyclic d.edges
  pub unstarted : d.completed ≡ []

has_key-insert :
    (k n : Str) (v : ScheduledTask) (m : Map ScheduledTask)
    → has_key n (insert k v m) ≡ (str_eq k n || has_key n m)
has_key-insert k n v m = ground (arith, lookup-insert k n v m)

member-keys : (n : Str) (m : Map ScheduledTask) → member n (keys m) ≡ has_key n m
unfolding lookup member
member-keys n [] = refl
member-keys n ((k, v) ∷ m) = ground (arith, str_eq_iff k n, str_eq_iff n k, member-keys n m)

-- The index has exactly the IDs of the tasks.
index_tasks-keys :
    (i : ℕ) (m : Map ScheduledTask) (ts : List ScheduledTask) {m' : Map ScheduledTask}
    → index_tasks i m ts ≡ ok m'
    → (n : Str) → has_key n m' ≡ (has_key n m || member n (task_ids ts))
unfolding index_tasks
index_tasks-keys i m [] {m'} h n =
    let e : m ≡ m' = ground arith in
    subst (λ z. has_key n z ≡ (has_key n m || member n [])) e (ground (arith, member_nil n))
index_tasks-keys i m (t ∷ ts) {m'} h n =
    let rest : index_tasks (i + 1) (insert t.spec.id t m) ts ≡ ok m' = ground arith in
    ground (
      arith,
      index_tasks-keys (i + 1) (insert t.spec.id t m) ts rest n,
      has_key-insert t.spec.id n t m,
      member_cons n t.spec.id (task_ids ts),
      str_eq_iff t.spec.id n,
      str_eq_iff n t.spec.id,
    )

add_nodes-nodes :
    (ids : List Str) (d : Dag) (n : Str)
    → (member n (add_nodes ids d).nodes ≡ (member n ids || member n d.nodes))
      × ((add_nodes ids d).edges ≡ d.edges)
      × ((add_nodes ids d).completed ≡ d.completed)
unfolding add_nodes member add_node
add_nodes-nodes [] d n = (refl, refl, refl)
add_nodes-nodes (id ∷ ids) d n =
    ground (arith, add_nodes-nodes ids (add_node id d) n, member-add id n d.nodes, str_eq_iff n id)

add_nodes-IsWf : (ids : List Str) (d : Dag) → IsWf d → IsWf (add_nodes ids d)
unfolding add_nodes
add_nodes-IsWf [] d w = w
add_nodes-IsWf (id ∷ ids) d w = add_nodes-IsWf ids (add_node id d) (add_node-IsWf id d w)

Edge-with_edge_conv :
    (from to : Str) (m : Map (List Str)) (a b : Str)
    → Edge m a b ⊎ (a ≡ from) × (b ≡ to)
    → Edge (with_edge from to m) a b
Edge-with_edge_conv from to m a b (inl e) = ground (
  arith,
  succs_of-with_edge from to m a,
  str_eq_iff from a,
  member-append b (succs_of m from) (to ∷ []),
)
Edge-with_edge_conv from to m a b (inr (p, q)) = ground (
  arith,
  succs_of-with_edge from to m a,
  str_eq_iff from a,
  member-append b (succs_of m from) (to ∷ []),
  member_cons b to [],
  str_eq_iff b to,
)

-- What a loop over dependencies adds to a fresh graph.
pub record Adds (d d' : Dag) (New : Str → Str → Type 0) : Type 0 where
  pub fresh : IsFresh d'
  pub nodes : d'.nodes ≡ d.nodes
  pub edges : (a b : Str) → Edge d'.edges a b ↔ (Edge d.edges a b ⊎ New a b)

wrap-eq-ok : (r : Result DagError Dag) {d : Dag} → wrap dag_error r ≡ ok d → r ≡ ok d
wrap-eq-ok (ok a) h = cc
wrap-eq-ok (err e) h = absurd (cc)

add_deps_step :
    (m : Map ScheduledTask) (id dep : Str) (deps : List Str) (d : Dag) {d' : Dag}
    → add_deps m id (dep ∷ deps) d ≡ ok d'
    → (d₁ : Dag) × (add_edge dep id d ≡ ok d₁) × (add_deps m id deps d₁ ≡ ok d')
unfolding add_deps
add_deps_step m id dep deps d {d'} h =
    let (_, _, tail) =
      and_then-eq-ok (fail_if (not (has_key dep m)) (unknown_dependency id dep))
        (λ _. wrap dag_error (add_edge dep id d) >>= λ d₁. add_deps m id deps d₁) h in
    let (d₁, wrapped, rest) =
      and_then-eq-ok (wrap dag_error (add_edge dep id d)) (λ d₁. add_deps m id deps d₁) tail in
    (d₁, wrap-eq-ok (add_edge dep id d) wrapped, rest)

add_deps-Adds :
    (m : Map ScheduledTask) (id : Str) (deps : List Str) (d : Dag) {d' : Dag}
    → IsFresh d
    → add_deps m id deps d ≡ ok d'
    → Adds d d' (λ a b. (b ≡ id) × (member a deps ≡ true))
unfolding add_deps
add_deps-Adds m id [] d {d'} i h =
    subst (λ z. Adds d z (λ a b. (b ≡ id) × (member a [] ≡ true))) (ok-injective h)
      (record {
        fresh = i;
        nodes = refl;
        edges = λ a b. (
          inl,
          λ (s : Edge d.edges a b ⊎ (b ≡ id) × (member a [] ≡ true)). elim s [
            | inl e ↦ e
            | inr (_, none_there) ↦ absurd (ground (arith, member_nil a))
          ],
        );
      })
add_deps-Adds m id (dep ∷ deps) d {d'} i h =
    let (d₁, added, rest) = add_deps_step m id dep deps d h in
    let (_, _, _, edges, nodes, completed) = add_edge-eq-ok dep id d d₁ added in
    let r =
      add_deps-Adds m id deps d₁
        (record {
          wf = add_edge-IsWf dep id d d₁ added (rw i.unstarted (member_nil dep)) i.wf;
          acyclic = add_edge-IsAcyclic dep id d d₁ added i.acyclic;
          unstarted = completed ∙ i.unstarted;
        })
        rest in
    record {
      fresh = r.fresh;
      nodes = r.nodes ∙ nodes;
      edges = λ a b. (
        λ e. elim ((r.edges a b).0 e) [
          | inr (p, q) ↦ inr (p, ground (arith, member_cons a dep deps))
          | inl e₁ ↦ elim (Edge-with_edge dep id d.edges a b (subst (λ z. Edge z a b) edges e₁)) [
            | inl old ↦ inl old
            | inr (p, q) ↦ inr (q, ground (arith, member_cons a dep deps, str_eq_iff a dep))
          ]
        ],
        λ s. (r.edges a b).1 (into d₁ a b edges s),
      );
    }
  where
    into :
        (d₁ : Dag) (a b : Str)
        → d₁.edges ≡ with_edge dep id d.edges
        → Edge d.edges a b ⊎ (b ≡ id) × (member a (dep ∷ deps) ≡ true)
        → Edge d₁.edges a b ⊎ (b ≡ id) × (member a deps ≡ true)
    into d₁ a b edges (inl old) =
        inl (subst (λ z. Edge z a b) (sym edges) (Edge-with_edge_conv dep id d.edges a b (inl old)))
    into d₁ a b edges (inr (p, q)) = elim (Bool-cases (str_eq a dep)) [
      | inl same ↦ inl (
          subst (λ z. Edge z a b) (sym edges)
            (Edge-with_edge_conv dep id d.edges a b (inr ((str_eq_iff a dep).0 same, p))))
      | inr other ↦ inr (p, ground (arith, member_cons a dep deps))
    ]

add_all_deps-Adds :
    (m : Map ScheduledTask) (ts : List ScheduledTask) (d : Dag) {d' : Dag}
    → IsFresh d
    → add_all_deps m ts d ≡ ok d'
    → Adds d d' (Depends ts)
unfolding add_all_deps
add_all_deps-Adds m [] d {d'} i h =
    subst (λ z. Adds d z (Depends [])) (ok-injective h)
      (record {
        fresh = i;
        nodes = refl;
        edges = λ a b. (
          inl,
          λ (s : Edge d.edges a b ⊎ ⊥). elim s [ inl e ↦ e | inr none_there ↦ absurd none_there ],
        );
      })
add_all_deps-Adds m (t ∷ ts) d {d'} i h =
    let (d₁, first, rest) =
      and_then-eq-ok (add_deps m t.spec.id t.depends_on d) (λ z. add_all_deps m ts z) h in
    let q = add_deps-Adds m t.spec.id t.depends_on d i first in
    let r = add_all_deps-Adds m ts d₁ q.fresh rest in
    record {
      fresh = r.fresh;
      nodes = r.nodes ∙ q.nodes;
      edges = λ a b. (
        λ e. elim ((r.edges a b).0 e) [
          | inr later ↦ inr (inr later)
          | inl e₁ ↦ elim ((q.edges a b).0 e₁) [ inl old ↦ inl old | inr own ↦ inr (inl own) ]
        ],
        λ (s : Edge d.edges a b ⊎ Depends (t ∷ ts) a b). (r.edges a b).1 (elim s [
          | inl old ↦ inl ((q.edges a b).1 (inl old))
          | inr (inl own) ↦ inl ((q.edges a b).1 (inr own))
          | inr (inr later) ↦ inr later
        ]),
      );
    }

-- What `build` gives.
pub record Built (req : ScheduleRequest) (by_id : Map ScheduledTask) (d : Dag) : Type 0 where
  pub fresh : IsFresh d
  pub ids : (n : Str) → member n (keys by_id) ≡ member n (task_ids req.tasks)
  pub nodes : (n : Str) → member n d.nodes ≡ member n (task_ids req.tasks)
  pub edges : (a b : Str) → Edge d.edges a b ↔ Depends req.tasks a b
  pub has_node : d.nodes ≢ []

new_dag_no-Edge : (a b : Str) → Edge new_dag.edges a b → ⊥
unfolding lookup member
new_dag_no-Edge a b e = cc

first_task : (ts : List ScheduledTask) → (ts ≡ []) ⊎ ((n : Str) × (member n (task_ids ts) ≡ true))
first_task [] = inl refl
first_task (t ∷ ts) = inr (t.spec.id, member_head t.spec.id (task_ids ts))

abbrev build_graph : ScheduleRequest → Result ScheduleError (Map ScheduledTask × Dag)
build_graph req = do
  by_id ← index_tasks 0 [] req.tasks
  d ← add_all_deps by_id req.tasks (add_nodes (keys by_id) new_dag)
  ok (by_id, d)

build_parts :
    (req : ScheduleRequest) (by_id : Map ScheduledTask) (d : Dag)
    → build req ≡ ok (by_id, d)
    → (req.tasks ≢ [])
      × (index_tasks 0 [] req.tasks ≡ ok by_id)
      × (add_all_deps by_id req.tasks (add_nodes (keys by_id) new_dag) ≡ ok d)
unfolding build
build_parts req by_id d h =
    let (_, some_task, parts) =
      and_then-eq-ok (fail_if (is_nil req.tasks) no_tasks) (λ _. build_graph req) h in
    let (m, indexed, rest) =
      and_then-eq-ok (index_tasks 0 [] req.tasks)
        (λ m. add_all_deps m req.tasks (add_nodes (keys m) new_dag) >>= λ d. ok (m, d)) parts in
    let (g, added, both) =
      and_then-eq-ok (add_all_deps m req.tasks (add_nodes (keys m) new_dag)) (λ d. ok (m, d))
        rest in
    (λ e. ground arith, ground arith, ground arith)

-- The graph of an accepted request has its tasks as nodes and its dependencies as edges, is well
-- formed, and has no cycle.
pub build-Built :
    (req : ScheduleRequest) (by_id : Map ScheduledTask) (d : Dag)
    → build req ≡ ok (by_id, d)
    → Built req by_id d
unfolding member
build-Built req by_id d h =
    let (some_task, indexed, added) = build_parts req by_id d h in
    let bare = add_nodes (keys by_id) new_dag in
    let bare_nodes = add_nodes-nodes (keys by_id) new_dag in
    let r =
      add_all_deps-Adds by_id req.tasks bare
        (record {
          wf = add_nodes-IsWf (keys by_id) new_dag new_dag-IsWf;
          acyclic =
              λ a b e. absurd (new_dag_no-Edge a b (subst (λ m. Edge m a b) (bare_nodes a).1 e));
          unstarted = (bare_nodes []).2;
        })
        added in
    let named : (n : Str) → member n (keys by_id) ≡ member n (task_ids req.tasks) = λ n.
      unfold lookup in
      ground (arith, index_tasks-keys 0 [] req.tasks indexed n, member-keys n by_id) in
    let as_nodes : (n : Str) → member n d.nodes ≡ member n (task_ids req.tasks) =
      λ n. ap (member n) r.nodes ∙ ground (arith, bare_nodes n, named n) in
    record {
      fresh = r.fresh;
      ids = named;
      nodes = as_nodes;
      edges = λ a b. (
        λ e. elim ((r.edges a b).0 e) [
          | inl old ↦ absurd (new_dag_no-Edge a b (subst (λ m. Edge m a b) (bare_nodes a).1 old))
          | inr dep ↦ dep
        ],
        λ dep. (r.edges a b).1 (inr dep),
      );
      has_node = λ none_left. elim (first_task req.tasks) [
        | inl empty ↦ some_task empty
        | inr (n, here) ↦ ground (arith, as_nodes n, ap (member n) none_left)
      ];
    }

-- A request that is accepted passes Validate: the check after the graph is built never fails.
pub build-validate :
    (req : ScheduleRequest) (by_id : Map ScheduledTask) (d : Dag)
    → build req ≡ ok (by_id, d)
    → validate d ≡ some (ok tt)
build-validate req by_id d h =
    let b = build-Built req by_id d h in (validate_iff d b.fresh.wf).1 (b.has_node, b.fresh.acyclic)
