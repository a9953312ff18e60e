-- ===== src/Scheduler/Dag/Progress.antt =====
-- A graph of internal/scheduler/dag.go without cycles never gets stuck.
use daedalus.Prelude.{
  ℕ, zero, suc, ◌+◌, ◌≡◌, ◌<◌, sym, ◌⊎◌, inl, inr, true, false, [], ◌∷◌, List, none, arith,
  if◌then◌else◌, length, Str, str_eq, Map, lookup, member, Bool-cases, str_eq_iff, str_eq_refl,
  member_cons, member_nil, subst, Distinct, Within, member_head, length-le_of_Within,
}
use daedalus.Prelude.Int.{lt_ℤ, pos}
use daedalus.Scheduler.Dag.{Dag, remaining, ready}
use daedalus.Scheduler.Dag.Reach.{Edge, Walk, stop, step, Walk-trans}
use daedalus.Scheduler.Dag.Acyclic.{IsAcyclic}
use daedalus.Scheduler.Dag.Degrees.{UniqueKeys}
use daedalus.Scheduler.Dag.WellFormed.{IsWf, ready_iff}

-- A member of a list that is not in another one, or else there is none.
absentee :
    (xs ys : List Str) → Within xs ys ⊎ ((x : Str) × (member x xs ≡ true) × (member x ys ≡ false))
absentee [] ys = inl (λ x m. absurd (ground (arith, member_nil x)))
absentee (x ∷ xs) ys = elim (Bool-cases (member x ys)) [
  | inl present ↦ elim (absentee xs ys) [
    | inl all ↦ inl (λ z m. ground (arith, member_cons z x xs, str_eq_iff z x, all z))
    | inr (z, here, gone) ↦ inr (z, ground (arith, member_cons z x xs), gone)
  ]
  | inr gone ↦ inr (x, member_head x xs, gone)
]

-- The predecessors of a node.
preds : Map (List Str) → Str → List Str
preds [] n = []
preds ((k, ss) ∷ m) n = let rest = preds m n in if member n ss then k ∷ rest else rest

preds_sound :
    (m : Map (List Str)) (n p : Str) → UniqueKeys m → member p (preds m n) ≡ true → Edge m p n
unfolding preds lookup member
preds_sound [] n p u h = absurd (cc)
preds_sound ((k, ss) ∷ m) n p u h = elim (Bool-cases (str_eq k p)) [
  | inl same ↦
      subst (λ z. Edge ((k, ss) ∷ m) z n) ((str_eq_iff k p).0 same)
        (elim (Bool-cases (member n ss)) [
          | inl into ↦ ground (arith, str_eq_refl k)
          | inr other ↦
              let gone : lookup p m ≡ none =
                subst (λ z. lookup z m ≡ none) ((str_eq_iff k p).0 same) u.0 in
              let e : Edge m p n = preds_sound m n p u.1 (ground arith) in absurd (ground arith)
        ])
  | inr other ↦ ground (arith, str_eq_iff k p, str_eq_iff p k, preds_sound m n p u.1)
]

preds_complete : (m : Map (List Str)) (n p : Str) → Edge m p n → member p (preds m n) ≡ true
unfolding preds lookup member
preds_complete [] n p e = absurd (cc)
preds_complete ((k, ss) ∷ m) n p e =
    ground (arith, str_eq_iff k p, str_eq_iff p k, preds_complete m n p)

-- Either all predecessors of a node are done, or one is not.
open_pred :
    (d : Dag) (n : Str)
    → IsWf d
    → ((p : Str) → Edge d.edges p n → member p d.completed ≡ true)
      ⊎ ((p : Str) × Edge d.edges p n × (member p d.completed ≡ false))
open_pred d n w = elim (absentee (preds d.edges n) d.completed) [
  | inl all ↦ inl (λ p e. all p (preds_complete d.edges n p e))
  | inr (p, into, fresh) ↦ inr (p, preds_sound d.edges n p w.unique into, fresh)
]

module _ (d : Dag) (w : IsWf d) (acyclic : IsAcyclic d.edges) where
  -- Walking back along open predecessors ends at a ready node, since the trail cannot come back.
  Walk-back :
      (room : ℕ) (n : Str) (trail : List Str)
      → length d.nodes < length trail + room
      → Distinct trail
      → Within trail d.nodes
      → ((x : Str) → member x trail ≡ true → Walk d.edges n x)
      → member n trail ≡ true
      → member n d.completed ≡ false
      → (r : Str) × (member r (ready d) ≡ true)
  Walk-back zero n trail long distinct within from here fresh =
      absurd (omega (arith, length-le_of_Within trail d.nodes distinct within))
  Walk-back (suc room) n trail long distinct within from here fresh = elim (open_pred d n w) [
    | inl all ↦ (n, (ready_iff d n w).1 (within n here, fresh, all))
    | inr (p, e, waits) ↦
        Walk-back room p (p ∷ trail) (omega arith)
          (elim (Bool-cases (member p trail)) [
            | inl back ↦ absurd (acyclic p n e (from p back))
            | inr new ↦ (new, distinct)
          ])
          (λ x m. elim (Bool-cases (str_eq x p)) [
            | inl same ↦
                subst (λ z. member z d.nodes ≡ true) (sym ((str_eq_iff x p).0 same))
                  (w.ends_known p n e).0
            | inr other ↦ within x (ground (arith, member_cons x p trail))
          ])
          (λ x m. elim (Bool-cases (str_eq x p)) [
            | inl same ↦ subst (Walk d.edges p) (sym ((str_eq_iff x p).0 same)) stop
            | inr other ↦ Walk-trans (step stop e) (from x (ground (arith, member_cons x p trail)))
          ])
          (member_head p trail) waits
  ]

-- While some node is not completed, a well-formed graph without cycles has a ready node.
pub ready_progress :
    (d : Dag)
    → IsWf d
    → IsAcyclic d.edges
    → lt_ℤ (pos 0) (remaining d) ≡ true
    → (r : Str) × (member r (ready d) ≡ true)
ready_progress d w acyclic some_left = elim (absentee d.nodes d.completed) [
  | inl all ↦ absurd (ground (arith, length-le_of_Within d.nodes d.completed w.nodes_distinct all))
  | inr (n, known, fresh) ↦
      Walk-back d w acyclic (suc (length d.nodes)) n (n ∷ []) (omega arith) (member_nil n, tt)
        (λ x m.
          subst (λ z. member z d.nodes ≡ true)
            (sym ((str_eq_iff x n).0 (ground (arith, member_cons x n [], member_nil x)))) known)
        (λ x m.
          subst (Walk d.edges n)
            (sym ((str_eq_iff x n).0 (ground (arith, member_cons x n [], member_nil x)))) stop)
        (member_head n []) fresh
]
