-- ===== src/Scheduler/Dag/Acyclic.antt =====
-- AddEdge of internal/scheduler/dag.go and cycles.

use daedalus.Prelude.{
  ◌≡◌, sym, ◌↔◌, ◌⊎◌, inl, inr, true, false, ◌++◌, [], ◌∷◌, List, arith, if◌then◌else◌, Str, str_eq,
  Map, insert, member, Bool-cases, str_eq_iff, lookup-insert, member-append, member_cons,
  member_nil, subst, ok,
}
use daedalus.Scheduler.Dag.{Dag, succs_of, reachable, linked, add_edge}
use daedalus.Scheduler.Dag.Reach.{Edge, Walk, stop, step, Walk-trans, reachable_iff}

-- No node reaches a predecessor of its own.
abbrev pub IsAcyclic : Map (List Str) → Type 0
IsAcyclic m = (a b : Str) → Edge m a b → ¬ Walk m b a

-- The edge map of AddEdge.
abbrev pub with_edge : Str → Str → Map (List Str) → Map (List Str)
with_edge from to m = insert from (succs_of m from ++ to ∷ []) m

module _ (from to : Str) (m : Map (List Str)) where
  pub succs_of-with_edge :
      (k : Str)
      → succs_of (with_edge from to m) k
        ≡ (if str_eq from k then succs_of m from ++ to ∷ [] else succs_of m k)
  succs_of-with_edge k = ground (arith, lookup-insert from k (succs_of m from ++ to ∷ []) m)

  pub Edge-with_edge :
      (a b : Str) → Edge (with_edge from to m) a b → Edge m a b ⊎ (a ≡ from) × (b ≡ to)
  Edge-with_edge a b e = ground (
    arith,
    succs_of-with_edge a,
    str_eq_iff from a,
    member-append b (succs_of m from) (to ∷ []),
    member_cons b to [],
    member_nil b,
    str_eq_iff b to,
  )

  -- A walk along the longer map takes the new edge, or is a walk along the old one.
  Walk-with_edge :
      (a : Str) {b : Str}
      → Walk (with_edge from to m) a b
      → Walk m a b ⊎ Walk m a from × Walk m to b
  Walk-with_edge a stop = inl stop
  Walk-with_edge a (step {b = b} {c = c} w e) = elim (Edge-with_edge b c e) [
    | inl old ↦ elim (Walk-with_edge a w) [
      | inl v ↦ inl (step v old)
      | inr (v, u) ↦ inr (v, step u old)
    ]
    | inr (p, q) ↦ inr (
      elim (Walk-with_edge a w) [ inl v ↦ subst (Walk m a) p v | inr (v, u) ↦ v ],
      subst (Walk m to) (sym q) stop,
    )
  ]

  pub with_edge-IsAcyclic : IsAcyclic m → ¬ Walk m to from → IsAcyclic (with_edge from to m)
  with_edge-IsAcyclic acyclic apart a b e w = elim (Edge-with_edge a b e) [
    | inl old ↦ elim (Walk-with_edge b w) [
      | inl v ↦ acyclic a b old v
      | inr (v, u) ↦ apart (Walk-trans (step u old) v)
    ]
    | inr (p, q) ↦ elim (Walk-with_edge b w) [
      | inl v ↦ apart (subst (Walk m to) p (subst (λ z. Walk m z a) q v))
      | inr (v, u) ↦ apart (subst (λ z. Walk m z from) q v)
    ]
  ]

-- What an accepted AddEdge has checked, and the edges that it leaves.
pub add_edge-eq-ok :
    (from to : Str) (d d' : Dag)
    → add_edge from to d ≡ ok d'
    → (member from d.nodes ≡ true)
      × (member to d.nodes ≡ true)
      × (reachable d.edges to from ≡ false)
      × (d'.edges ≡ with_edge from to d.edges)
      × (d'.nodes ≡ d.nodes)
      × (d'.completed ≡ d.completed)
unfolding add_edge
add_edge-eq-ok from to d d' h = ground arith

-- An edge that AddEdge accepts closes no cycle: in a graph without cycles the new graph has none.
pub add_edge-IsAcyclic :
    (from to : Str) (d d' : Dag)
    → add_edge from to d ≡ ok d'
    → IsAcyclic d.edges
    → IsAcyclic d'.edges
add_edge-IsAcyclic from to d d' h acyclic =
    let (_, _, apart, edges, _, _) = add_edge-eq-ok from to d d' h in
    subst IsAcyclic (sym edges) (
      with_edge-IsAcyclic from to d.edges acyclic
        λ w. let met = (reachable_iff d.edges to from).1 w in cc)

-- AddEdge accepts an edge exactly when both ends are registered and no chain of edges leads back
-- from its end to its start (so in particular the ends differ).
pub add_edge_accepts :
    (from to : Str) (d : Dag)
    → ((d' : Dag) × (add_edge from to d ≡ ok d'))
      ↔ ((member from d.nodes ≡ true) × (member to d.nodes ≡ true) × ¬ Walk d.edges to from)
unfolding add_edge
add_edge_accepts from to d = (
  λ (d', h).
      let (known_from, known_to, apart, _, _, _) = add_edge-eq-ok from to d d' h in
      (known_from, known_to, λ w. let met = (reachable_iff d.edges to from).1 w in cc),
  λ (known_from, known_to, apart). elim (Bool-cases (reachable d.edges to from)) [
    | inl met ↦ absurd (apart ((reachable_iff d.edges to from).0 met))
    | inr no_walk ↦ elim (Bool-cases (str_eq from to)) [
      | inl same ↦
          absurd (apart (subst (λ z. Walk d.edges z from) ((str_eq_iff from to).0 same) stop))
      | inr other ↦ (linked from to d, ground arith)
    ]
  ],
)
