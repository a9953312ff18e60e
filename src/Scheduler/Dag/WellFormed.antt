-- ===== src/Scheduler/Dag/WellFormed.antt =====
-- The invariant of the graph in internal/scheduler/dag.go, and what Ready and Complete return under it.
use daedalus.Prelude.{
  ◌+◌, ◌≡◌, refl, sym, ◌↔◌, inl, inr, true, false, ◌∷◌, arith, if◌then◌else◌, Str, lookup, member,
  Bool-cases, str_eq_iff, lookup-insert, member_cons, subst, ok, Distinct, keep, member-keep,
  sort_strings, member-sort_strings, Within,
}
use daedalus.Prelude.Int.{pos, inc}
use daedalus.Scheduler.Dag.{
  Dag, new_dag, succs_of, degree_of, linked, is_ready, ready, add_node, add_edge, release, complete,
}
use daedalus.Scheduler.Dag.Reach.{Edge}
use daedalus.Scheduler.Dag.Acyclic.{Edge-with_edge, add_edge-eq-ok}
use daedalus.Scheduler.Dag.Degrees.{
  count, unmet, UniqueKeys, insert-UniqueKeys, unmet-with_edge, unmet_completing, release-degrees,
  release-newly, unmet_zero_iff, degree_of-insert,
}

-- What AddNode, AddEdge and Complete keep true of a graph.
pub record IsWf (d : Dag) : Type 0 where
  pub nodes_distinct : Distinct d.nodes
  pub unique : UniqueKeys d.edges
  pub ends_known :
      (a b : Str) → Edge d.edges a b → (member a d.nodes ≡ true) × (member b d.nodes ≡ true)
  pub counted : (n : Str) → degree_of d.in_degree n ≡ pos (unmet d.edges d.completed n)
  pub done_distinct : Distinct d.completed
  pub done_known : Within d.completed d.nodes

-- The empty graph is well formed.
pub new_dag-IsWf : IsWf new_dag
unfolding unmet lookup member
new_dag-IsWf = record {
  nodes_distinct = tt;
  unique = tt;
  ends_known = λ a b e. absurd (cc);
  counted = λ n. refl;
  done_distinct = tt;
  done_known = λ x m. absurd (cc);
}

-- AddNode keeps a graph well formed.
pub add_node-IsWf : (id : Str) (d : Dag) → IsWf d → IsWf (add_node id d)
unfolding add_node
add_node-IsWf id d w = elim (Bool-cases (member id d.nodes)) [
  | inl old ↦ rw old w
  | inr new ↦ rw new (record {
    nodes_distinct = (new, w.nodes_distinct);
    unique = w.unique;
    ends_known = λ a b e.
        ground (arith, w.ends_known a b e, member_cons a id d.nodes, member_cons b id d.nodes);
    counted = λ n.
        ground (
          arith,
          w.counted n,
          w.counted id,
          lookup-insert id n (pos 0) d.in_degree,
          str_eq_iff id n,
        );
    done_distinct = w.done_distinct;
    done_known = λ x m. ground (arith, w.done_known x m, member_cons x id d.nodes);
  })
]

-- AddEdge keeps a graph well formed, if the edge starts at a node not yet completed.
pub add_edge-IsWf :
    (from to : Str) (d d' : Dag)
    → add_edge from to d ≡ ok d'
    → member from d.completed ≡ false
    → IsWf d
    → IsWf d'
unfolding add_edge
add_edge-IsWf from to d d' h fresh w =
    let (known_from, known_to, _, _, _, _) = add_edge-eq-ok from to d d' h in
    let same : linked from to d ≡ d' = ground arith in
    subst IsWf same (record {
      nodes_distinct = w.nodes_distinct;
      unique = insert-UniqueKeys from _ d.edges w.unique;
      ends_known = λ a b e. elim (Edge-with_edge from to d.edges a b e) [
        | inl old ↦ w.ends_known a b old
        | inr (p, q) ↦ (
          subst (λ z. member z d.nodes ≡ true) (sym p) known_from,
          subst (λ z. member z d.nodes ≡ true) (sym q) known_to,
        )
      ];
      counted = λ n.
          unfold count in
          ground (
            arith,
            w.counted n,
            w.counted to,
            unmet-with_edge from to d.edges d.completed n fresh,
            degree_of-insert to n (inc (degree_of d.in_degree to)) d.in_degree,
            str_eq_iff to n,
            str_eq_iff n to,
          );
      done_distinct = w.done_distinct;
      done_known = w.done_known;
    })

complete-counted :
    (id : Str) (d : Dag)
    → IsWf d
    → member id d.completed ≡ false
    → (n : Str)
    → degree_of d.in_degree n
      ≡ pos (unmet d.edges (id ∷ d.completed) n + count n (succs_of d.edges id))
complete-counted id d w fresh n =
    ground (arith, w.counted n, unmet_completing d.edges id d.completed n w.unique fresh)

-- Complete keeps a graph well formed: it takes one from an in-degree for each edge, and never
-- below 0.
pub complete-IsWf :
    (id : Str) (d : Dag) → member id d.nodes ≡ true → IsWf d → IsWf (complete id d).0
unfolding complete
complete-IsWf id d known w = elim (Bool-cases (member id d.completed)) [
  | inl old ↦ rw old w
  | inr fresh ↦ rw fresh (record {
    nodes_distinct = w.nodes_distinct;
    unique = w.unique;
    ends_known = w.ends_known;
    counted =
        release-degrees (id ∷ d.completed) (succs_of d.edges id) d.in_degree
          (unmet d.edges (id ∷ d.completed)) (complete-counted id d w fresh);
    done_distinct = (fresh, w.done_distinct);
    done_known =
        λ x m. ground (arith, member_cons x id d.completed, str_eq_iff x id, w.done_known x);
  })
]

-- In a well-formed graph Ready returns exactly the registered nodes that are not completed and whose
-- predecessors all are.
pub ready_iff :
    (d : Dag) (id : Str)
    → IsWf d
    → (member id (ready d) ≡ true) ↔ (
        (member id d.nodes ≡ true)
        × (member id d.completed ≡ false)
        × ((p : Str) → Edge d.edges p id → member p d.completed ≡ true))
unfolding ready
ready_iff d id w = (
  λ h. (
    ground (arith, member-sorted, member-kept, h),
    ground (arith, member-sorted, member-kept, h),
    (unmet_zero_iff d.edges d.completed id w.unique).0
        (ground (arith, member-sorted, member-kept, h, w.counted id)),
  ),
  λ (known, fresh, done). ground (
    arith,
    member-sorted,
    member-kept,
    w.counted id,
    (unmet_zero_iff d.edges d.completed id w.unique).1 done,
  ),
)
  where
    member-kept :
        member id (keep (is_ready d) d.nodes) ≡ (if is_ready d id then member id d.nodes else false)
    member-kept = member-keep (is_ready d) id d.nodes

    member-sorted :
        member id (sort_strings (keep (is_ready d) d.nodes)) ≡ member id (keep (is_ready d) d.nodes)
    member-sorted = member-sort_strings id (keep (is_ready d) d.nodes)

-- Completing a node that was not completed returns exactly those of its successors that Ready then
-- lists.
pub complete-newly_iff :
    (id s : Str) (d : Dag)
    → IsWf d
    → member id d.nodes ≡ true
    → member id d.completed ≡ false
    → (member s (complete id d).1 ≡ true)
      ↔ (Edge d.edges id s × (member s (ready (complete id d).0) ≡ true))
unfolding complete
complete-newly_iff id s d w known fresh = rw fresh (
  λ h.
      let (e, left, zero_left) = newly.0 h in
      (
        e,
        again.1 (
          (w.ends_known id s e).1,
          left,
          (unmet_zero_iff d.edges (id ∷ d.completed) s w.unique).0 zero_left,
        ),
      ),
  λ (e, r).
      let (_, left, done) = again.0 r in
      newly.1 (e, left, (unmet_zero_iff d.edges (id ∷ d.completed) s w.unique).1 done),
)
  where
    newly : (member s (release (id ∷ d.completed) (succs_of d.edges id) d.in_degree).1 ≡ true) ↔ (
        (member s (succs_of d.edges id) ≡ true)
        × (member s (id ∷ d.completed) ≡ false)
        × (unmet d.edges (id ∷ d.completed) s ≡ 0))
    newly =
        release-newly (id ∷ d.completed) (succs_of d.edges id) d.in_degree
          (unmet d.edges (id ∷ d.completed)) (complete-counted id d w fresh) s

    after : Dag
    after = record d {
      in_degree = (release (id ∷ d.completed) (succs_of d.edges id) d.in_degree).0;
      completed = id ∷ d.completed;
    }

    again : (member s (ready after) ≡ true) ↔ (
        (member s d.nodes ≡ true)
        × (member s (id ∷ d.completed) ≡ false)
        × ((p : Str) → Edge d.edges p s → member p (id ∷ d.completed) ≡ true))
    again = ready_iff after s (rw fresh at (complete-IsWf id d known w))
