-- ===== src/ContextMgmt/Tracker/Strategy.antt =====
-- The choice of a resurrection strategy in internal/contextmgmt/tracker.go.
use daedalus.Prelude.{
  ◌≡◌, refl, ap, ◌↔◌, inl, inr, true, false, arith, Bool-cases, Result, ok, err, [], subst,
}
use daedalus.Prelude.Int.{ℤ, pos, negsuc, lt_ℤ}
use daedalus.ContextMgmt.Tracker.{
  Config, Tracker, full, checkpoint, fresh, new_tracker, select_resurrection_strategy,
}

lt_ℤ_trans : (a b c : ℤ) → lt_ℤ a b ≡ true → lt_ℤ b c ≡ true → lt_ℤ a c ≡ true
lt_ℤ_trans (pos a) (pos b) (pos c) h k = ground arith
lt_ℤ_trans (pos a) (pos b) (negsuc c) h k = cc
lt_ℤ_trans (pos a) (negsuc b) c h k = absurd (cc)
lt_ℤ_trans (negsuc a) (pos b) (pos c) h k = refl
lt_ℤ_trans (negsuc a) (pos b) (negsuc c) h k = absurd (cc)
lt_ℤ_trans (negsuc a) (negsuc b) (pos c) h k = refl
lt_ℤ_trans (negsuc a) (negsuc b) (negsuc c) h k = ground arith

abbrev Choices : Config → Config → ℤ → Type 0
Choices d c usage =
    ((select_resurrection_strategy d usage ≡ full)
      ↔ (lt_ℤ usage c.resurrection_full_threshold ≡ true))
    × ((select_resurrection_strategy d usage ≡ checkpoint) ↔ (
        (lt_ℤ usage c.resurrection_full_threshold ≡ false)
        × (lt_ℤ usage c.resurrection_checkpoint_threshold ≡ true)))
    × ((select_resurrection_strategy d usage ≡ fresh)
        ↔ (lt_ℤ usage c.resurrection_checkpoint_threshold ≡ false))

choices :
    (c : Config) (usage : ℤ)
    → (lt_ℤ usage c.resurrection_full_threshold ≡ true
        → lt_ℤ usage c.resurrection_checkpoint_threshold ≡ true)
    → Choices c c usage
unfolding select_resurrection_strategy
choices c usage below = ground arith

-- With the thresholds of a tracker that NewTracker made, each usage has exactly one strategy: full
-- below the first threshold, checkpoint from there to below the second, fresh from the second on.
pub select_resurrection_strategy_iff :
    (c : Config) (t : Tracker) (usage : ℤ)
    → new_tracker c ≡ ok t
    → ((select_resurrection_strategy t.config usage ≡ full)
        ↔ (lt_ℤ usage c.resurrection_full_threshold ≡ true))
      × ((select_resurrection_strategy t.config usage ≡ checkpoint) ↔ (
          (lt_ℤ usage c.resurrection_full_threshold ≡ false)
          × (lt_ℤ usage c.resurrection_checkpoint_threshold ≡ true)))
      × ((select_resurrection_strategy t.config usage ≡ fresh)
          ↔ (lt_ℤ usage c.resurrection_checkpoint_threshold ≡ false))
unfolding new_tracker select_resurrection_strategy
select_resurrection_strategy_iff c t usage h =
    elim (Bool-cases (lt_ℤ c.resurrection_full_threshold c.resurrection_checkpoint_threshold)) [
      | inr wrong ↦ absurd (ground arith)
      | inl right ↦
          let made : ok (record { config = c; sessions = [] }) ≡ ok t = ground arith in
          let same : c ≡ t.config = ap config_of made in
          let below : lt_ℤ usage c.resurrection_full_threshold ≡ true
              → lt_ℤ usage c.resurrection_checkpoint_threshold ≡ true =
            λ low.
              lt_ℤ_trans usage c.resurrection_full_threshold c.resurrection_checkpoint_threshold low
                right in
          subst (λ d. Choices d c usage) same (choices c usage below)
    ]
  where
    config_of : Result (ℤ × ℤ) Tracker → Config
    config_of (err _) = c
    config_of (ok u) = u.config
