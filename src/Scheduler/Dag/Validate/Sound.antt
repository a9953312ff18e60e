-- ===== src/Scheduler/Dag/Validate/Sound.antt =====
-- The three-colour search of Validate in internal/scheduler/dag.go: if it explores, no cycle is left.
use daedalus.Prelude.{
  ℕ, zero, suc, ◌≡◌, ◌≢◌, ◌≤◌, refl, sym, ap, ◌∙◌, ◌↔◌, ◌⊎◌, inl, inr, true, [], ◌∷◌, List, some,
  arith, Str, str_eq, Map, insert, lookup, member, Bool-cases, str_eq_iff, str_eq_refl, subst, ok,
  length,
}
use daedalus.Scheduler.Dag.{
  Dag, succs_of, Color, white, gray, black, color_of, Dfs, explored, dfs_succs, dfs, dfs_all,
  dfs_verdict, validate, cycle_at, out_of_fuel,
}
use daedalus.Scheduler.Dag.Reach.{Edge, Walk, stop, step}
use daedalus.Scheduler.Dag.Acyclic.{IsAcyclic}
use daedalus.Scheduler.Dag.WellFormed.{IsWf}
use daedalus.Scheduler.Dag.Validate.{Color-cases, color_of-insert, whites, dfs_all_explores}

dfs_succs_inv :
    (descend : Map Color → Str → Dfs) (color after : Map Color) (s : Str) (ss : List Str)
    → dfs_succs descend color (s ∷ ss) ≡ explored after
    → (color_of color s ≡ black) × (dfs_succs descend color ss ≡ explored after)
      ⊎ ((mid : Map Color) × (color_of color s ≡ white)
          × (descend color s ≡ explored mid)
          × (dfs_succs descend mid ss ≡ explored after))
unfolding dfs_succs
dfs_succs_inv descend color after s ss h = ground arith

blacken_inv :
    (id : Str) (r : Dfs) (after : Map Color)
    → elim r [ explored c ↦ explored (insert id black c) | other ↦ other ] ≡ explored after
    → (mid : Map Color) × (r ≡ explored mid) × (after ≡ insert id black mid)
blacken_inv id (explored c) after h = (c, refl, ground arith)
blacken_inv id (cycle_at s) after h = absurd (cc)
blacken_inv id out_of_fuel after h = absurd (cc)

dfs_inv :
    (f : ℕ) (m : Map (List Str)) (color after : Map Color) (id : Str)
    → dfs (suc f) m color id ≡ explored after
    → (mid : Map Color) × (dfs_succs (dfs f m) (insert id gray color) (succs_of m id)
        ≡ explored mid)
      × (after ≡ insert id black mid)
unfolding dfs
dfs_inv f m color after id h =
    blacken_inv id (dfs_succs (dfs f m) (insert id gray color) (succs_of m id)) after h

dfs_all_inv :
    (f : ℕ) (m : Map (List Str)) (color after : Map Color) (id : Str) (ids : List Str)
    → dfs_all f m color (id ∷ ids) ≡ explored after
    → (color_of color id ≢ white) × (dfs_all f m color ids ≡ explored after)
      ⊎ ((mid : Map Color) × (color_of color id ≡ white)
          × (dfs f m color id ≡ explored mid)
          × (dfs_all f m mid ids ≡ explored after))
unfolding dfs_all
dfs_all_inv f m color after id ids h = ground arith

-- The black nodes are closed under edges, and on no cycle.
record BlackInv (m : Map (List Str)) (color : Map Color) : Type 0 where
  closed : (b c : Str) → color_of color b ≡ black → Edge m b c → color_of color c ≡ black
  clear : (b c : Str) → color_of color b ≡ black → Edge m b c → ¬ Walk m c b

record Keeps (before after : Map Color) : Type 0 where
  grays : (x : Str) → color_of before x ≡ gray → color_of after x ≡ gray
  blacks : (x : Str) → color_of before x ≡ black → color_of after x ≡ black
  no_gray : (x : Str) → color_of after x ≡ gray → color_of before x ≡ gray

Keeps-refl : (a : Map Color) → Keeps a a
Keeps-refl a = record { grays = λ x e. e; blacks = λ x e. e; no_gray = λ x e. e }

Keeps-trans : {a b c : Map Color} → Keeps a b → Keeps b c → Keeps a c
Keeps-trans k l = record {
  grays = λ x e. l.grays x (k.grays x e);
  blacks = λ x e. l.blacks x (k.blacks x e);
  no_gray = λ x e. k.no_gray x (l.no_gray x e);
}

module _ (m : Map (List Str)) where
  Walk-black :
      (color : Map Color)
      → BlackInv m color
      → (b : Str) {c : Str} → Walk m b c
      → color_of color b ≡ black
      → color_of color c ≡ black
  Walk-black color i b stop e = e
  Walk-black color i b (step {b = x} {c = c} w into) e =
      i.closed x c (Walk-black color i b w e) into

  abbrev Blackens : (Map Color → Str → Dfs) → Type 0
  Blackens descend =
      (color after : Map Color) (s : Str)
      → color_of color s ≡ white
      → BlackInv m color
      → descend color s ≡ explored after
      → BlackInv m after × Keeps color after × (color_of after s ≡ black)

  dfs_succs-Blackens :
      (descend : Map Color → Str → Dfs)
      → Blackens descend
      → (color after : Map Color) (ss : List Str) → BlackInv m color
      → dfs_succs descend color ss ≡ explored after
      → BlackInv m after
        × Keeps color after
        × ((s : Str) → member s ss ≡ true → color_of after s ≡ black)
  unfolding dfs_succs member
  dfs_succs-Blackens descend down color after [] i h =
      let e : color ≡ after = ground arith in
      (subst (BlackInv m) e i, subst (Keeps color) e (Keeps-refl color), λ s n. absurd (cc))
  dfs_succs-Blackens descend down color after (s ∷ ss) i h =
      elim (dfs_succs_inv descend color after s ss h) [
        | inl (b, rest) ↦
            let (i', k, all) = dfs_succs-Blackens descend down color after ss i rest in
            (i', k, λ z n. ground (arith, all z, str_eq_iff z s, k.blacks s b))
        | inr (mid, w, ran, rest) ↦
            let (i₁, k₁, b) = down color mid s w i ran in
            let (i₂, k₂, all) = dfs_succs-Blackens descend down mid after ss i₁ rest in
            (i₂, Keeps-trans k₁ k₂, λ z n. ground (arith, all z, str_eq_iff z s, k₂.blacks s b))
      ]

  dfs-Blackens : (f : ℕ) → Blackens (dfs f m)
  unfolding dfs
  dfs-Blackens zero color after id w i h = absurd (cc)
  dfs-Blackens (suc f) color after id w i h =
      let (mid, ran, e) = dfs_inv f m color after id h in
      let entered = insert id gray color in
      let (i', k, all) =
        dfs_succs-Blackens (dfs f m) (dfs-Blackens f) entered mid (succs_of m id)
          (record {
            closed = λ b c p q. ground (
              arith,
              color_of-insert id b gray color,
              color_of-insert id c gray color,
              i.closed b c (ground (arith, color_of-insert id b gray color)) q,
              str_eq_iff id c,
            );
            clear = λ b c p q. i.clear b c (ground (arith, color_of-insert id b gray color)) q;
          })
          ran in
      let gray_now : color_of mid id ≡ gray =
        k.grays id (ground (arith, color_of-insert id id gray color, str_eq_refl id)) in
      subst (λ z. BlackInv m z × Keeps color z × (color_of z id ≡ black)) (sym e)
        (
          record {
            closed = λ b c p q. elim (Bool-cases (str_eq id b)) [
              | inl same ↦
                  let q' : Edge m id c =
                    subst (λ z. Edge m z c) (sym ((str_eq_iff id b).0 same)) q in
                  ground (arith, color_of-insert id c black mid, all c q')
              | inr other ↦ ground (
                arith,
                color_of-insert id c black mid,
                i'.closed b c (ground (arith, color_of-insert id b black mid)) q,
              )
            ];
            clear = λ b c p q. elim (Bool-cases (str_eq id b)) [
              | inl same ↦ λ walk.
                  let e' : id ≡ b = (str_eq_iff id b).0 same in
                  let q' : Edge m id c = subst (λ z. Edge m z c) (sym e') q in
                  let back : color_of mid id ≡ black =
                    Walk-black mid i' c (subst (Walk m c) (sym e') walk) (all c q') in
                  absurd (cc)
              | inr other ↦ i'.clear b c (ground (arith, color_of-insert id b black mid)) q
            ];
          },
          record {
            grays = λ x p. ground (
              arith,
              color_of-insert id x black mid,
              str_eq_iff id x,
              k.grays x,
              color_of-insert id x gray color,
            );
            blacks = λ x p. ground (
              arith,
              color_of-insert id x black mid,
              k.blacks x,
              color_of-insert id x gray color,
              str_eq_iff id x,
            );
            no_gray = λ x p. ground (
              arith,
              color_of-insert id x black mid,
              k.no_gray x,
              color_of-insert id x gray color,
              str_eq_iff id x,
            );
          },
          ground (arith, color_of-insert id id black mid, str_eq_refl id),
        )

  dfs_all_blackens :
      (f : ℕ) (color after : Map Color) (ids : List Str)
      → BlackInv m color
      → ((x : Str) → color_of color x ≢ gray)
      → dfs_all f m color ids ≡ explored after
      → BlackInv m after
        × ((x : Str) → color_of color x ≡ black → color_of after x ≡ black)
        × ((s : Str) → member s ids ≡ true → color_of after s ≡ black)
  unfolding dfs_all member
  dfs_all_blackens f color after [] i calm h =
      let e : color ≡ after = ground arith in
      (subst (BlackInv m) e i, λ x b. subst (λ z. color_of z x ≡ black) e b, λ s n. absurd (cc))
  dfs_all_blackens f color after (id ∷ ids) i calm h = elim (dfs_all_inv f m color after id ids h) [
    | inl (seen, rest) ↦
        let (i', k, all) = dfs_all_blackens f color after ids i calm rest in
        let b : color_of color id ≡ black = elim (Color-cases (color_of color id)) [
          | inl w ↦ absurd (seen w)
          | inr (inl g) ↦ absurd (calm id g)
          | inr (inr b) ↦ b
        ] in
        (i', k, λ z n. ground (arith, all z, str_eq_iff z id, k id b))
    | inr (mid, w, ran, rest) ↦
        let (i₁, k₁, b) = dfs-Blackens f color mid id w i ran in
        let (i₂, k₂, all) =
          dfs_all_blackens f mid after ids i₁ (λ x g. calm x (k₁.no_gray x g)) rest in
        (i₂, λ x p. k₂ x (k₁.blacks x p), λ z n. ground (arith, all z, str_eq_iff z id, k₂ id b))
  ]

verdict_ok : (r : Dfs) → dfs_verdict r ≡ some (ok tt) → (after : Map Color) × (r ≡ explored after)
verdict_ok (explored after) h = (after, refl)
verdict_ok (cycle_at s) h = absurd (cc)
verdict_ok out_of_fuel h = absurd (cc)

search-IsAcyclic :
    (d : Dag) (f : ℕ)
    → IsWf d
    → dfs_verdict (dfs_all f d.edges [] d.nodes) ≡ some (ok tt)
    → IsAcyclic d.edges
search-IsAcyclic d f w h a b e =
    let (after, ran) = verdict_ok (dfs_all f d.edges [] d.nodes) h in
    let (i, _, all) =
      dfs_all_blackens d.edges f [] after d.nodes
        (record {
          closed = λ x c p q. absurd (unfold lookup in cc);
          clear = λ x c p q. absurd (unfold lookup in cc);
        })
        (λ x g. unfold lookup in cc) ran in
    i.clear a b (all a (w.ends_known a b e).0) e

whites_le : (color : Map Color) (ns : List Str) → whites color ns ≤ length ns
unfolding whites
whites_le color [] = omega arith
whites_le color (n ∷ ns) = ground (arith, whites_le color ns)

search_explores :
    (d : Dag)
    → IsWf d
    → IsAcyclic d.edges
    → dfs_verdict (dfs_all (suc (length d.nodes)) d.edges [] d.nodes) ≡ some (ok tt)
search_explores d w acyclic =
    let (after, ran) =
      dfs_all_explores d.edges d.nodes acyclic (λ a b e. (w.ends_known a b e).1)
        (suc (length d.nodes)) [] d.nodes (λ s n. n) (omega (arith, whites_le [] d.nodes))
        (λ g e. unfold lookup in cc) in
    ap dfs_verdict ran

validate-split :
    (d : Dag)
    → (d.nodes ≡ []) × (validate d ≢ some (ok tt))
      ⊎ (d.nodes ≢ [])
        × (validate d ≡ dfs_verdict (dfs_all (suc (length d.nodes)) d.edges [] d.nodes))
unfolding validate
validate-split d = by_nodes d.nodes refl
  where
    by_nodes :
        (ns : List Str)
        → d.nodes ≡ ns
        → (d.nodes ≡ []) × (validate d ≢ some (ok tt))
          ⊎ (d.nodes ≢ [])
            × (validate d ≡ dfs_verdict (dfs_all (suc (length d.nodes)) d.edges [] d.nodes))
    by_nodes [] e = inl (e, ground arith)
    by_nodes (n ∷ ns) e = inr (ground arith, ground arith)

-- On a well-formed graph Validate returns no error exactly when the graph has a node and no cycle.
pub validate_iff :
    (d : Dag) → IsWf d → (validate d ≡ some (ok tt)) ↔ ((d.nodes ≢ []) × IsAcyclic d.edges)
validate_iff d w = elim (validate-split d) [
  | inl (none_left, bad) ↦ (λ h. absurd (bad h), λ p. absurd (p.0 none_left))
  | inr (has_node, runs) ↦ (
    λ h. (has_node, search-IsAcyclic d (suc (length d.nodes)) w (sym runs ∙ h)),
    λ p. runs ∙ search_explores d w p.1,
  )
]
