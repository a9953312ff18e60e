-- ===== src/Registry/Static/Best.antt =====
-- RouteByScore of internal/registry/scorer.go picks the first of the best agents.
use daedalus.Prelude.{
  ℕ, ◌≤◌, ◌<◌, ltb, ◌≡◌, refl, sym, ap, ◌∙◌, subst, ◌↔◌, ◌⊎◌, inl, inr, Option, none, some, List,
  [], ◌∷◌, ◌++◌, arith, Bool-cases,
}
use daedalus.Registry.Types.{AgentEntry, RoutingRequest}
use daedalus.Registry.Static.{score, best_of, route_by_score}

module _ (req : RoutingRequest) where
  -- No agent of the list has a score above `n`.
  abbrev pub AtMost : ℕ → List AgentEntry → Type 0
  AtMost n [] = Unit
  AtMost n (e ∷ es) = (score e req ≤ n) × AtMost n es

  -- All agents of the list have a score below `n`.
  abbrev pub Below : ℕ → List AgentEntry → Type 0
  Below n [] = Unit
  Below n (e ∷ es) = (score e req < n) × Below n es

  -- `e` stands in the list behind agents with lower scores and before none with a higher one.
  pub record FirstBest (agents : List AgentEntry) (e : AgentEntry) : Type 0 where
    pub before : List AgentEntry
    pub after : List AgentEntry
    pub stands : agents ≡ before ++ e ∷ after
    pub positive : 0 < score e req
    pub lower : Below (score e req) before
    pub highest : AtMost (score e req) after

  -- What the loop returns: what it came with, or the first of the best.
  abbrev Outcome : List AgentEntry → Option AgentEntry → ℕ → Type 0
  Outcome es best n =
      ((best_of req es best n ≡ best) × AtMost n es)
      ⊎ ((x : AgentEntry) × (best_of req es best n ≡ some x) × (n < score x req) × FirstBest es x)

  FirstBest-cons :
      (e x : AgentEntry) (es : List AgentEntry)
      → score e req < score x req
      → FirstBest es x
      → FirstBest (e ∷ es) x
  FirstBest-cons e x es less f = record {
    before = e ∷ f.before;
    after = f.after;
    stands = ap (λ l. e ∷ l) f.stands;
    positive = f.positive;
    lower = (less, f.lower);
    highest = f.highest;
  }

  best_of-first : (es : List AgentEntry) (best : Option AgentEntry) (n : ℕ) → Outcome es best n
  unfolding best_of
  best_of-first [] best n = inl (refl, tt)
  best_of-first (e ∷ es) best n = elim (Bool-cases (ltb n (score e req))) [
    | inl better ↦
        let more : n < score e req = ground arith in
        elim (best_of-first es (some e) (score e req)) [
          | inl (same, most) ↦ inr (
            e,
            ground arith,
            more,
            record {
              before = [];
              after = es;
              stands = refl;
              positive = omega arith;
              lower = tt;
              highest = most;
            },
          )
          | inr (x, found, less, f) ↦
              inr (x, ground arith, omega arith, FirstBest-cons e x es less f)
        ]
    | inr worse ↦
        let no_more : score e req ≤ n = ground arith in
        elim (best_of-first es best n) [
          | inl (same, most) ↦ inl (ground arith, (no_more, most))
          | inr (x, found, less, f) ↦
              inr (x, ground arith, less, FirstBest-cons e x es (omega arith) f)
        ]
  ]

  best_of-AtMost :
      (es : List AgentEntry) (best : Option AgentEntry) (n : ℕ)
      → AtMost n es
      → best_of req es best n ≡ best
  unfolding best_of
  best_of-AtMost [] best n h = refl
  best_of-AtMost (e ∷ es) best n h = ground (arith, h.0, best_of-AtMost es best n h.1)

  best_of-finds :
      (before after : List AgentEntry) (e : AgentEntry) (best : Option AgentEntry) (n : ℕ)
      → n < score e req
      → Below (score e req) before
      → AtMost (score e req) after
      → best_of req (before ++ e ∷ after) best n ≡ some e
  unfolding best_of
  best_of-finds [] after e best n less low most =
      ground (arith, best_of-AtMost after (some e) (score e req) most)
  best_of-finds (x ∷ before) after e best n less low most = ground (
    arith,
    best_of-finds before after e (some x) (score x req) low.0 low.1 most,
    best_of-finds before after e best n less low.1 most,
  )

  -- RouteByScore returns no error for an agent exactly if the agent has a positive score, each agent
  -- before it a lower one, and no agent behind it a higher one.
  pub route_by_score_iff :
      (agents : List AgentEntry) (e : AgentEntry)
      → (route_by_score req agents ≡ some e) ↔ FirstBest agents e
  unfolding route_by_score
  route_by_score_iff agents e = (
    λ found. elim (best_of-first agents none 0) [
      | inl (nothing, _) ↦ absurd (ground arith)
      | inr (x, other, _, f) ↦
          let same : x ≡ e = ap (or_else e) (sym other ∙ found) in subst (FirstBest agents) same f
    ],
    λ f.
        subst (λ es. best_of req es none 0 ≡ some e) (sym f.stands)
          (best_of-finds f.before f.after e none 0 f.positive f.lower f.highest),
  )
    where
      or_else : AgentEntry → Option AgentEntry → AgentEntry
      or_else d = elim [ none ↦ d | some x ↦ x ]

  -- RouteByScore returns an error exactly if no agent has a positive score.
  pub route_by_score-none :
      (agents : List AgentEntry) → (route_by_score req agents ≡ none) ↔ AtMost 0 agents
  unfolding route_by_score
  route_by_score-none agents = (
    λ nothing. elim (best_of-first agents none 0) [
      | inl (_, most) ↦ most
      | inr (x, found, _, _) ↦ absurd (ground arith)
    ],
    best_of-AtMost agents none 0,
  )
