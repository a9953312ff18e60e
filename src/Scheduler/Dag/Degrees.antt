-- ===== src/Scheduler/Dag/Degrees.antt =====
-- The in-degree table of internal/scheduler/dag.go counts the edges from nodes not yet completed.
use daedalus.Prelude.{
  ℕ, suc, ◌+◌, ◌≡◌, refl, sym, ◌≢◌, ◌↔◌, inl, inr, true, false, ◌++◌, [], ◌∷◌, List, none, arith,
  if◌then◌else◌, Str, str_eq, Map, lookup, insert, member, Bool-cases, str_eq_iff, str_eq_refl,
  lookup-insert, member_nil, subst,
}
use daedalus.Prelude.Int.{ℤ, pos, dec}
use daedalus.Scheduler.Dag.{succs_of, degree_of, release}
use daedalus.Scheduler.Dag.Reach.{Edge}
use daedalus.Scheduler.Dag.Acyclic.{with_edge}

unfoldable pub count : Str → List Str → ℕ
count x [] = 0
count x (y ∷ ys) = let rest = count x ys in if str_eq x y then suc rest else rest

-- How many edges to `n` come from nodes outside `done`.
unfoldable pub unmet : Map (List Str) → List Str → Str → ℕ
unmet [] done n = 0
unmet ((k, ss) ∷ m) done n =
    let rest = unmet m done n in if member k done then rest else count n ss + rest

abbrev pub UniqueKeys : Map (List Str) → Type 0
UniqueKeys [] = Unit
UniqueKeys ((k, ss) ∷ m) = (lookup k m ≡ none) × UniqueKeys m

count-append : (x : Str) (xs ys : List Str) → count x (xs ++ ys) ≡ count x xs + count x ys
unfolding count
count-append x [] ys = omega arith
count-append x (y ∷ xs) ys = ground (arith, count-append x xs ys)

pub count_pos : (x : Str) (xs : List Str) → (count x xs ≢ 0) ↔ (member x xs ≡ true)
unfolding count member
count_pos x [] = ground arith
count_pos x (y ∷ ys) = ground (arith, count_pos x ys)

pub insert-UniqueKeys :
    (k : Str) (v : List Str) (m : Map (List Str)) → UniqueKeys m → UniqueKeys (insert k v m)
unfolding insert lookup
insert-UniqueKeys k v [] u = (refl, tt)
insert-UniqueKeys k v ((j, ss) ∷ m) u =
    ground (arith, insert-UniqueKeys k v m, lookup-insert k j v m, str_eq_iff j k, str_eq_iff k j)

pub unmet-with_edge :
    (from to : Str) (m : Map (List Str)) (done : List Str) (n : Str)
    → member from done ≡ false
    → unmet (with_edge from to m) done n ≡ unmet m done n + count n (to ∷ [])
unfolding unmet insert lookup
unmet-with_edge from to [] done n fresh = ground arith
unmet-with_edge from to ((k, ss) ∷ m) done n fresh =
    ground (arith, str_eq_iff k from, count-append n ss (to ∷ []), unmet-with_edge from to m done n)

unmet_of_no_key :
    (m : Map (List Str)) (id : Str) (done : List Str) (n : Str)
    → lookup id m ≡ none
    → unmet m (id ∷ done) n ≡ unmet m done n
unfolding unmet lookup member
unmet_of_no_key [] id done n h = refl
unmet_of_no_key ((k, ss) ∷ m) id done n h =
    ground (arith, str_eq_iff k id, unmet_of_no_key m id done n)

pub unmet_completing :
    (m : Map (List Str)) (id : Str) (done : List Str) (n : Str)
    → UniqueKeys m
    → member id done ≡ false
    → unmet m (id ∷ done) n + count n (succs_of m id) ≡ unmet m done n
unfolding unmet lookup member count
unmet_completing [] id done n u fresh = omega arith
unmet_completing ((k, ss) ∷ m) id done n u fresh =
    ground
      (arith, str_eq_iff k id, unmet_of_no_key m id done n, unmet_completing m id done n u.1 fresh)

-- No edge is unmet exactly when all predecessors are done.
pub unmet_zero_iff :
    (m : Map (List Str)) (done : List Str) (n : Str)
    → UniqueKeys m
    → (unmet m done n ≡ 0) ↔ ((p : Str) → Edge m p n → member p done ≡ true)
unfolding unmet lookup
unmet_zero_iff [] done n u = (λ h p e. absurd (unfold member in cc), λ h. refl)
unmet_zero_iff ((k, ss) ∷ m) done n u = (
  λ h p e. elim (Bool-cases (str_eq k p)) [
    | inl same ↦
        subst (λ z. member z done ≡ true) ((str_eq_iff k p).0 same)
          (ground (arith, count_pos n ss, same))
    | inr other ↦ (unmet_zero_iff m done n u.1).0 (ground arith) p (ground arith)
  ],
  λ h.
      let of_key : member n ss ≡ true → member k done ≡ true =
        λ e. h k (ground (arith, str_eq_refl k)) in
      let of_rest : unmet m done n ≡ 0 = (unmet_zero_iff m done n u.1).1 λ p e.
        elim (Bool-cases (str_eq k p)) [
          | inl same ↦
              let gone : lookup p m ≡ none =
                subst (λ z. lookup z m ≡ none) ((str_eq_iff k p).0 same) u.0 in
              absurd (ground (arith, member_nil n))
          | inr other ↦ h p (ground arith)
        ] in
      ground (arith, count_pos n ss),
)

pub degree_of-insert :
    (k n : Str) (v : ℤ) (degrees : Map ℤ)
    → degree_of (insert k v degrees) n ≡ (if str_eq k n then v else degree_of degrees n)
degree_of-insert k n v degrees = ground (arith, lookup-insert k n v degrees)

-- The loop of Complete takes one from the in-degree for each edge.
pub release-degrees :
    (done ss : List Str) (degrees : Map ℤ) (left : Str → ℕ)
    → ((n : Str) → degree_of degrees n ≡ pos (left n + count n ss))
    → (n : Str) → degree_of (release done ss degrees).0 n ≡ pos (left n)
unfolding release count
release-degrees done [] degrees left h n = ground (arith, h n)
release-degrees done (s ∷ ss) degrees left h x =
    release-degrees done ss (insert s (dec (degree_of degrees s)) degrees) left
      (λ n. ground (
        arith,
        h n,
        h s,
        degree_of-insert s n (dec (degree_of degrees s)) degrees,
        str_eq_iff s n,
        str_eq_iff n s,
        str_eq_refl s,
      ))
      x

-- Its second result holds the successors whose in-degree has come to 0.
pub release-newly :
    (done ss : List Str) (degrees : Map ℤ) (left : Str → ℕ)
    → ((n : Str) → degree_of degrees n ≡ pos (left n + count n ss))
    → (x : Str)
    → (member x (release done ss degrees).1 ≡ true)
      ↔ ((member x ss ≡ true) × (member x done ≡ false) × (left x ≡ 0))
unfolding release count member
release-newly done [] degrees left h x = ground arith
release-newly done (s ∷ ss) degrees left h x =
    let fewer = insert s (dec (degree_of degrees s)) degrees in
    let known : (n : Str) → degree_of fewer n ≡ pos (left n + count n ss) = λ n. ground (
      arith,
      h n,
      h s,
      degree_of-insert s n (dec (degree_of degrees s)) degrees,
      str_eq_iff s n,
      str_eq_iff n s,
      str_eq_refl s,
    ) in
    elim (Bool-cases (str_eq x s)) [
      | inl same ↦
          subst
            (λ z.
              (member z (release done (s ∷ ss) degrees).1 ≡ true)
              ↔ ((member z (s ∷ ss) ≡ true) × (member z done ≡ false) × (left z ≡ 0)))
            (sym ((str_eq_iff x s).0 same))
            (ground (
              arith,
              known s,
              release-newly done ss fewer left known s,
              count_pos s ss,
              str_eq_refl s,
            ))
      | inr other ↦ ground (arith, known s, release-newly done ss fewer left known x)
    ]
