-- ===== src/Scheduler/Dag/Validate.antt =====
-- The three-colour search of Validate in internal/scheduler/dag.go: without cycles it explores.
pub mod Sound
use daedalus.Prelude.{
  ℕ, zero, suc, ◌+◌, ◌≡◌, ◌≤◌, ◌<◌, ◌≢◌, refl, sym, ◌∙◌, ◌↔◌, ◌⊎◌, inl, inr, Bool, true, false, [],
  ◌∷◌, List, none, some, arith, if◌then◌else◌, length, Str, str_eq, Map, insert, lookup, member,
  Bool-cases, str_eq_iff, str_eq_refl, member_cons, member_nil, subst, lookup-insert, ok, err,
  Result, Option,
}
use daedalus.Scheduler.Dag.{
  Dag, succs_of, Color, white, gray, black, color_of, Dfs, explored, cycle_at, out_of_fuel,
  dfs_succs, dfs, dfs_all, dfs_verdict, validate,
}
use daedalus.Scheduler.Dag.Reach.{Edge, Walk, stop, step, Walk-trans}
use daedalus.Scheduler.Dag.Acyclic.{IsAcyclic}
use daedalus.Scheduler.Dag.WellFormed.{IsWf}

pub Color-cases : (c : Color) → (c ≡ white) ⊎ (c ≡ gray) ⊎ (c ≡ black)
Color-cases white = inl refl
Color-cases gray = inr (inl refl)
Color-cases black = inr (inr refl)

pub color_of-insert :
    (k n : Str) (c : Color) (color : Map Color)
    → color_of (insert k c color) n ≡ (if str_eq k n then c else color_of color n)
color_of-insert k n c color = ground (arith, lookup-insert k n c color)

-- How many of the nodes are white.
unfoldable pub whites : Map Color → List Str → ℕ
whites color [] = 0
whites color (n ∷ ns) =
    let rest = whites color ns in elim (color_of color n) [ white ↦ suc rest | _ ↦ rest ]

-- A search makes no node gray that was not, and none white.
record Grows (before after : Map Color) : Type 0 where
  no_gray : (x : Str) → color_of after x ≡ gray → color_of before x ≡ gray
  no_white : (x : Str) → color_of after x ≡ white → color_of before x ≡ white

Grows-trans : {a b c : Map Color} → Grows a b → Grows b c → Grows a c
Grows-trans g h = record {
  no_gray = λ x e. g.no_gray x (h.no_gray x e);
  no_white = λ x e. g.no_white x (h.no_white x e);
}

pub whites_mono :
    (a b : Map Color) (ns : List Str)
    → ((x : Str) → color_of b x ≡ white → color_of a x ≡ white)
    → whites b ns ≤ whites a ns
unfolding whites
whites_mono a b [] g = omega arith
whites_mono a b (n ∷ ns) g = ground (arith, g n, whites_mono a b ns g)

pub whites_drop :
    (a b : Map Color) (ns : List Str) (id : Str)
    → ((x : Str) → color_of b x ≡ white → color_of a x ≡ white)
    → member id ns ≡ true
    → color_of a id ≡ white
    → color_of b id ≢ white
    → whites b ns < whites a ns
unfolding whites member
whites_drop a b [] id g known was now = absurd (cc)
whites_drop a b (n ∷ ns) id g known was now = elim (Bool-cases (str_eq id n)) [
  | inl same ↦
      let e : id ≡ n = (str_eq_iff id n).0 same in
      let was' : color_of a n ≡ white = subst (λ z. color_of a z ≡ white) e was in
      let now' : color_of b n ≢ white = subst (λ z. color_of b z ≢ white) e now in
      ground (arith, whites_mono a b ns g)
  | inr other ↦ ground (arith, g n, whites_drop a b ns id g)
]

-- One step of each loop.
module _ (descend : Map Color → Str → Dfs) (color : Map Color) (s : Str) (ss : List Str) where
  dfs_succs_white :
      {mid : Map Color}
      → color_of color s ≡ white
      → descend color s ≡ explored mid
      → dfs_succs descend color (s ∷ ss) ≡ dfs_succs descend mid ss
  unfolding dfs_succs
  dfs_succs_white w ran = ground arith

  dfs_succs_black :
      color_of color s ≡ black → dfs_succs descend color (s ∷ ss) ≡ dfs_succs descend color ss
  unfolding dfs_succs
  dfs_succs_black b = ground arith

module _ (f : ℕ) (m : Map (List Str)) (color : Map Color) (id : Str) (ids : List Str) where
  dfs_done :
      {mid : Map Color}
      → dfs_succs (dfs f m) (insert id gray color) (succs_of m id) ≡ explored mid
      → dfs (suc f) m color id ≡ explored (insert id black mid)
  unfolding dfs
  dfs_done ran = ground arith

  dfs_all_white :
      {mid : Map Color}
      → color_of color id ≡ white
      → dfs f m color id ≡ explored mid
      → dfs_all f m color (id ∷ ids) ≡ dfs_all f m mid ids
  unfolding dfs_all
  dfs_all_white w ran = ground arith

  dfs_all_black : color_of color id ≡ black → dfs_all f m color (id ∷ ids) ≡ dfs_all f m color ids
  unfolding dfs_all
  dfs_all_black b = ground arith

-- Without cycles, a search over known nodes on enough fuel explores.
module _ (m : Map (List Str)) (nodes : List Str) (acyclic : IsAcyclic m)
    (ends : (a b : Str) → Edge m a b → member b nodes ≡ true) where
  abbrev Explores : Map Color → Dfs → Type 0
  Explores before r = (after : Map Color) × (r ≡ explored after) × Grows before after

  abbrev GrayReach : Map Color → Str → Type 0
  GrayReach color id = (g : Str) → color_of color g ≡ gray → Walk m g id

  abbrev Descends : ℕ → (Map Color → Str → Dfs) → Type 0
  Descends f descend =
      (color : Map Color) (s : Str)
      → color_of color s ≡ white
      → member s nodes ≡ true
      → whites color nodes < f
      → GrayReach color s
      → Explores color (descend color s)

  dfs_succs-Explores :
      (f : ℕ) (descend : Map Color → Str → Dfs)
      → Descends f descend
      → (id : Str) (color : Map Color) (ss : List Str)
      → ((s : Str) → member s ss ≡ true → Edge m id s)
      → whites color nodes < f
      → GrayReach color id
      → Explores color (dfs_succs descend color ss)
  unfolding dfs_succs member
  dfs_succs-Explores f descend down id color [] out few reach =
      (color, refl, record { no_gray = λ x e. e; no_white = λ x e. e })
  dfs_succs-Explores f descend down id color (s ∷ ss) out few reach =
      elim (Color-cases (color_of color s)) [
        | inl w ↦
            let (mid, ran, grown) =
              down color s w (ends id s to_s) few (λ g e. step (reach g e) to_s) in
            let (after, rest, more) =
              dfs_succs-Explores f descend down id mid ss later
                (omega (arith, whites_mono color mid nodes grown.no_white))
                (λ g e. reach g (grown.no_gray g e)) in
            (after, dfs_succs_white descend color s ss w ran ∙ rest, Grows-trans grown more)
        | inr (inl g) ↦ absurd (acyclic id s to_s (reach s g))
        | inr (inr b) ↦
            let (after, rest, more) =
              dfs_succs-Explores f descend down id color ss later few reach in
            (after, dfs_succs_black descend color s ss b ∙ rest, more)
      ]
    where
      to_s : Edge m id s
      to_s = out s (ground (arith, str_eq_refl s))

      later : (z : Str) → member z ss ≡ true → Edge m id z
      later z e = out z (ground arith)

  dfs_explores : (f : ℕ) → Descends f (dfs f m)
  unfolding dfs
  dfs_explores zero color id w known few reach = absurd (omega arith)
  dfs_explores (suc f) color id w known few reach =
      let entered = insert id gray color in
      let (mid, ran, grown) =
        dfs_succs-Explores f (dfs f m) (dfs_explores f) id entered (succs_of m id) (λ s e. e)
          (omega (
            arith,
            whites_drop color entered nodes id
                (λ x e. ground (arith, color_of-insert id x gray color)) known w
                (λ e. ground (arith, color_of-insert id id gray color, str_eq_refl id)),
          ))
          (λ g e. elim (Bool-cases (str_eq id g)) [
            | inl same ↦ subst (λ z. Walk m z id) ((str_eq_iff id g).0 same) stop
            | inr other ↦ reach g (ground (arith, color_of-insert id g gray color))
          ]) in
      (
        insert id black mid,
        dfs_done f m color id [] ran,
        record {
          no_gray = λ x e. ground (
            arith,
            color_of-insert id x black mid,
            color_of-insert id x gray color,
            grown.no_gray x,
          );
          no_white = λ x e. ground (
            arith,
            color_of-insert id x black mid,
            color_of-insert id x gray color,
            grown.no_white x,
          );
        },
      )

  pub dfs_all_explores :
      (f : ℕ) (color : Map Color) (ids : List Str)
      → ((s : Str) → member s ids ≡ true → member s nodes ≡ true)
      → whites color nodes < f
      → ((g : Str) → color_of color g ≢ gray)
      → (after : Map Color) × (dfs_all f m color ids ≡ explored after)
  unfolding dfs_all member
  dfs_all_explores f color [] within few calm = (color, refl)
  dfs_all_explores f color (id ∷ ids) within few calm = elim (Color-cases (color_of color id)) [
    | inl w ↦
        let (mid, ran, grown) =
          dfs_explores f color id w (within id (ground (arith, str_eq_refl id))) few
            (λ g e. absurd (calm g e)) in
        let (after, rest) =
          dfs_all_explores f mid ids later
            (omega (arith, whites_mono color mid nodes grown.no_white))
            (λ g e. calm g (grown.no_gray g e)) in
        (after, dfs_all_white f m color id ids w ran ∙ rest)
    | inr (inl g) ↦ absurd (calm id g)
    | inr (inr b) ↦
        let (after, rest) = dfs_all_explores f color ids later few calm in
        (after, dfs_all_black f m color id ids b ∙ rest)
  ]
    where
      later : (z : Str) → member z ids ≡ true → member z nodes ≡ true
      later z e = within z (ground arith)
