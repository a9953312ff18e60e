-- ===== src/Operator/ModelConfig/Propagated.antt =====
-- Reconcile of operator/internal/controller/modelconfig_controller.go tells the runtimes before it
-- persists the hash.
use daedalus.Prelude.{
  Result-cases, ◌≡◌, ◌≢◌, refl, sym, ap, ◌∙◌, subst, ◌⊎◌, inl, inr, true, false, Option, none, some,
  List, [], ◌∷◌, arith, Str, str_eq, str_eq_iff, str_eq_refl, lookup-insert, ok, Bool-cases,
  Option-cases,
}
use daedalus.Operator.Types.{AgentRuntime}
use daedalus.Operator.ModelConfig.{
  ModelConfig, Cluster, Env, Outcome, reconciled, requeue_after_30s, failed, resolve_secret_hash,
  references_model_config, hash_annotation, annotation, annotate, propagate, degraded, available,
  propagated, reconcile_config, reconcile,
}

-- Each runtime of the list that refers to the config has the annotation.
abbrev pub Annotated : ModelConfig → Str → List AgentRuntime → Type 0
Annotated mc hash [] = Unit
Annotated mc hash (rt ∷ rts) =
    (references_model_config rt mc ≡ true → annotation rt ≡ hash) × Annotated mc hash rts

abbrev pub hash_of : Cluster → Option Str
hash_of s = elim s.config [ none ↦ none | some mc ↦ some mc.secret_hash ]

annotation-annotate : (hash : Str) (rt : AgentRuntime) → annotation (annotate hash rt) ≡ hash
unfolding annotation
annotation-annotate hash rt = ground (
  arith,
  lookup-insert hash_annotation hash_annotation hash rt.annotations,
  str_eq_refl hash_annotation,
)

propagate-Annotated :
    (env : Env) (mc : ModelConfig) (hash : Str) (rts : List AgentRuntime)
    → (propagate env mc hash rts).1 ≡ none
    → Annotated mc hash (propagate env mc hash rts).0
unfolding propagate
propagate-Annotated env mc hash [] h = tt
propagate-Annotated env mc hash (rt ∷ rts) h = elim (Bool-cases (references_model_config rt mc)) [
  | inr other ↦
      let e : propagate env mc hash (rt ∷ rts)
          ≡ (rt ∷ (propagate env mc hash rts).0, (propagate env mc hash rts).1) =
        ground arith in
      subst (λ p. Annotated mc hash p.0) (sym e)
        (
          λ yes. absurd (ground arith),
          propagate-Annotated env mc hash rts (ap (λ p. p.1) (sym e) ∙ h),
        )
  | inl ours ↦ elim (Bool-cases (str_eq (annotation rt) hash)) [
    | inl already ↦
        let e : propagate env mc hash (rt ∷ rts)
            ≡ (rt ∷ (propagate env mc hash rts).0, (propagate env mc hash rts).1) =
          ground arith in
        subst (λ p. Annotated mc hash p.0) (sym e)
          (
            λ yes. (str_eq_iff (annotation rt) hash).0 already,
            propagate-Annotated env mc hash rts (ap (λ p. p.1) (sym e) ∙ h),
          )
    | inr stale ↦ elim (Option-cases (env.update_err (annotate hash rt))) [
      | inr (bad, fails) ↦ absurd (ground arith)
      | inl fine ↦
          let e : propagate env mc hash (rt ∷ rts)
              ≡ (annotate hash rt ∷ (propagate env mc hash rts).0, (propagate env mc hash rts).1) =
            ground arith in
          subst (λ p. Annotated mc hash p.0) (sym e)
            (
              λ yes. annotation-annotate hash rt,
              propagate-Annotated env mc hash rts (ap (λ p. p.1) (sym e) ∙ h),
            )
    ]
  ]
]

propagated_config :
    (env : Env) (mc : ModelConfig) (hash : Str) (s : Cluster)
    → (propagated env mc hash s).0.config ≡ s.config
unfolding propagated
propagated_config env mc hash s = elim (Bool-cases (str_eq hash mc.secret_hash)) [
  | inl same ↦ ground arith
  | inr changed ↦ elim (Option-cases env.list_err) [
    | inl listed ↦ ground arith
    | inr (e, bad) ↦ ground arith
  ]
]

propagated-Annotated :
    (env : Env) (mc : ModelConfig) (hash : Str) (s : Cluster)
    → (propagated env mc hash s).1 ≡ none
    → str_eq hash mc.secret_hash ≡ false
    → Annotated mc hash (propagated env mc hash s).0.runtimes
unfolding propagated
propagated-Annotated env mc hash s h changed = elim (Option-cases env.list_err) [
  | inr (e, bad) ↦ absurd (ground arith)
  | inl listed ↦
      let e : propagated env mc hash s ≡ (
        record s { runtimes = (propagate env mc hash s.runtimes).0 },
        (propagate env mc hash s.runtimes).1,
      ) =
        ground arith in
      subst (λ p. Annotated mc hash p.0.runtimes) (sym e)
        (propagate-Annotated env mc hash s.runtimes (ap (λ p. p.1) (sym e) ∙ h))
]

-- What is promised of a Reconcile of `mc` that ends in `s` with an outcome.
abbrev Promise : Env → ModelConfig → Cluster → Outcome → Type 0
Promise env mc s reconciled =
    (hash : Str) × (resolve_secret_hash env mc ≡ ok hash)
    × (hash_of s ≡ some hash)
    × (str_eq hash mc.secret_hash ≡ false → Annotated mc hash s.runtimes)
Promise env mc s requeue_after_30s = hash_of s ≡ some mc.secret_hash
Promise env mc s (failed e) = hash_of s ≡ some mc.secret_hash

reconcile_config-Promise :
    (env : Env) (mc : ModelConfig) (s : Cluster)
    → s.config ≡ some mc
    → Promise env mc (reconcile_config env mc s).0 (reconcile_config env mc s).1
unfolding reconcile_config
reconcile_config-Promise env mc s there = elim (Result-cases (resolve_secret_hash env mc)) [
  | inl (e, bad) ↦ elim (Option-cases env.status_err) [
    | inr (x, fails) ↦
        let q : reconcile_config env mc s ≡ (s, failed x) = ground arith in
        subst (λ p. Promise env mc p.0 p.1) (sym q) (ground arith)
    | inl fine ↦
        let q : reconcile_config env mc s
            ≡ (record s { config = some (degraded env e mc) }, requeue_after_30s) =
          ground arith in
        subst (λ p. Promise env mc p.0 p.1) (sym q) refl
  ]
  | inr (hash, good) ↦
      let kept = propagated_config env mc hash s in
      let s' = (propagated env mc hash s).0 in
      elim (Option-cases (propagated env mc hash s).1) [
        | inr (x, fails) ↦
            let q : reconcile_config env mc s ≡ (s', failed x) = ground arith in
            subst (λ p. Promise env mc p.0 p.1) (sym q) (ground arith)
        | inl fine ↦ elim (Option-cases env.status_err) [
          | inr (x, fails) ↦
              let q : reconcile_config env mc s ≡ (s', failed x) = ground arith in
              subst (λ p. Promise env mc p.0 p.1) (sym q) (ground arith)
          | inl updated ↦
              let q : reconcile_config env mc s
                  ≡ (record s' { config = some (available env hash mc) }, reconciled) =
                ground arith in
              subst (λ p. Promise env mc p.0 p.1) (sym q)
                (hash, good, refl, λ changed. propagated-Annotated env mc hash s fine changed)
        ]
      ]
]

-- Let the server have the ModelConfig. If Reconcile ends well, the persisted hash is that of the secret,
-- and if it is new, each AgentRuntime that refers to the config is annotated with it. If Reconcile
-- fails or is to run again, the persisted hash is as before, so that the next run sees the change.
pub reconcile-Promise :
    (env : Env) (s : Cluster) (mc : ModelConfig)
    → s.config ≡ some mc
    → (((reconcile env s).1 ≡ reconciled)
        × ((hash : Str) × (resolve_secret_hash env mc ≡ ok hash)
            × (hash_of (reconcile env s).0 ≡ some hash)
            × (str_eq hash mc.secret_hash ≡ false
                → Annotated mc hash (reconcile env s).0.runtimes)))
      ⊎ (((reconcile env s).1 ≢ reconciled) × (hash_of (reconcile env s).0 ≡ some mc.secret_hash))
unfolding reconcile
reconcile-Promise env s mc there = elim (Option-cases env.get_err) [
  | inr (e, bad) ↦
      let q : reconcile env s ≡ (s, failed e) = ground arith in
      subst (λ p. Promised p) (sym q) (told s (failed e) (ground arith))
  | inl fine ↦
      let q : reconcile env s ≡ reconcile_config env mc s = ground arith in
      subst (λ p. Promised p) (sym q)
        (told (reconcile_config env mc s).0 (reconcile_config env mc s).1
          (reconcile_config-Promise env mc s there))
]
  where
    Promised : Cluster × Outcome → Type 0
    Promised p =
        ((p.1 ≡ reconciled)
          × ((hash : Str) × (resolve_secret_hash env mc ≡ ok hash)
              × (hash_of p.0 ≡ some hash)
              × (str_eq hash mc.secret_hash ≡ false → Annotated mc hash p.0.runtimes)))
        ⊎ ((p.1 ≢ reconciled) × (hash_of p.0 ≡ some mc.secret_hash))

    told : (t : Cluster) (o : Outcome) → Promise env mc t o → Promised (t, o)
    told t reconciled k = inl (refl, k)
    told t requeue_after_30s k = inr (λ e. cc, k)
    told t (failed e) k = inr (λ x. cc, k)
