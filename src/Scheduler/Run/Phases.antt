-- ===== src/Scheduler/Run/Phases.antt =====
-- The loops of one round of Schedule (internal/scheduler/scheduler.go): each settles some of its
-- tasks and hands the others on.

use daedalus.Prelude.{
  ◌≡◌, refl, sym, ◌∙◌, ◌⊎◌, inl, inr, Bool, true, false, ◌||◌, none, List, [], ◌∷◌, arith, Str,
  str_eq, member, Bool-cases, str_eq_iff, str_eq_refl, subst, member_cons, member_nil, Distinct,
  Within,
}
use daedalus.Scheduler.Dag.Reach.{Edge}
use daedalus.Scheduler.Types.{TaskOutcome}
use daedalus.Scheduler.Run.{Run, settle, outcome_of, skipped, partition}
use daedalus.Scheduler.Run.Settle.{
  IsSound, Extends, Extends-refl, Extends-trans, Cleared, Cleared-Extends, succeeded, settle_writes,
  settle-Extends, settle-IsSound, WasSkipped, WasSkipped-Extends, settle-WasSkipped,
}

-- From `s`, the tasks `ids` have been gone through: `waiting` are left, the others are settled.
pub record Phase (s : Run) (ids : List Str) (t : Run) (waiting : List Str) : Type 0 where
  pub sound : IsSound t
  pub extends : Extends s t
  pub same_order : t.execution_order ≡ s.execution_order
  pub same_batch : t.batch_num ≡ s.batch_num
  pub only :
      (n : Str)
      → member n t.dag.completed ≡ true
      → (member n s.dag.completed || member n ids) ≡ true
  pub settled :
      (n : Str) → member n ids ≡ true → member n waiting ≡ false → member n t.dag.completed ≡ true
  pub within : Within waiting ids
  pub distinct : Distinct waiting
  pub cleared : (n : Str) → member n waiting ≡ true → Cleared t n

pub Phase-nil : (s : Run) → IsSound s → Phase s [] s []
Phase-nil s i = record {
  sound = i;
  extends = Extends-refl s;
  same_order = refl;
  same_batch = refl;
  only = λ n h. ground arith;
  settled = λ n h. absurd (ground (arith, member_nil n));
  within = λ n h. h;
  distinct = tt;
  cleared = λ n h. absurd (ground (arith, member_nil n));
}

pub Phase-settle :
    (id : Str) (o : TaskOutcome) (marks : Bool) (s : Run) (ids : List Str) {t : Run}
    {waiting : List Str}
    → member id s.dag.completed ≡ false
    → member id ids ≡ false
    → Phase (settle id o marks s) ids t waiting
    → Phase s (id ∷ ids) t waiting
Phase-settle id o marks s ids {t} {waiting} fresh apart p =
    let (_, _, longer, _, same_order, same_batch, _) = settle_writes id o marks s fresh in
    record {
      sound = p.sound;
      extends = Extends-trans (settle-Extends id o marks s fresh) p.extends;
      same_order = p.same_order ∙ same_order;
      same_batch = p.same_batch ∙ same_batch;
      only = λ n h.
          let before : (member n (id ∷ s.dag.completed) || member n ids) ≡ true =
            subst (λ l. (member n l || member n ids) ≡ true) longer (p.only n h) in
          ground (arith, member_cons n id s.dag.completed, member_cons n id ids);
      settled = λ n h free. elim (Bool-cases (str_eq n id)) [
        | inl same ↦
            let now : member n (settle id o marks s).dag.completed ≡ true =
              subst (λ l. member n l ≡ true) (sym longer)
                (ground (arith, member_cons n id s.dag.completed)) in
            p.extends.stays n now
        | inr other ↦ p.settled n (ground (arith, member_cons n id ids)) free
      ];
      within = λ n h. ground (arith, p.within n h, member_cons n id ids);
      distinct = p.distinct;
      cleared = p.cleared;
    }

pub Phase-gather :
    (id : Str) (s : Run) (ids : List Str) {t : Run} {waiting : List Str}
    → Cleared s id
    → member id ids ≡ false
    → Phase s ids t waiting
    → Phase s (id ∷ ids) t (id ∷ waiting)
Phase-gather id s ids {t} {waiting} c apart p = record {
  sound = p.sound;
  extends = p.extends;
  same_order = p.same_order;
  same_batch = p.same_batch;
  only = λ n h. ground (arith, p.only n h, member_cons n id ids);
  settled = λ n h free.
      ground (arith, member_cons n id ids, member_cons n id waiting, str_eq_iff n id, p.settled n);
  within = λ n h. ground (arith, p.within n, member_cons n id ids, member_cons n id waiting);
  distinct = (
    elim (Bool-cases (member id waiting)) [
      | inl twice ↦ absurd (ground (arith, p.within id twice))
      | inr once ↦ once
    ],
    p.distinct,
  );
  cleared = λ n h. elim (Bool-cases (str_eq n id)) [
    | inl same ↦ subst (Cleared t) (sym ((str_eq_iff n id).0 same)) (
        Cleared-Extends p.extends
          (elim (Bool-cases (member id t.dag.completed)) [
            | inl over ↦ absurd (ground (arith, p.only id over, c.unsettled))
            | inr free ↦ free
          ])
          c)
    | inr other ↦ p.cleared n (ground (arith, member_cons n id waiting))
  ];
}

-- A ready task: all predecessors are settled.
pub record IsOpen (s : Run) (id : Str) : Type 0 where
  pub known : member id s.dag.nodes ≡ true
  pub unsettled : member id s.dag.completed ≡ false
  pub preds : (p : Str) → Edge s.dag.edges p id → member p s.dag.completed ≡ true

module _ (id : Str) (o : TaskOutcome) (marks : Bool) (s : Run) (ids : List Str)
    (fresh : member id s.dag.completed ≡ false) (apart : member id ids ≡ false) where
  still_unsettled :
      (n : Str)
      → member n ids ≡ true
      → member n s.dag.completed ≡ false
      → member n (settle id o marks s).dag.completed ≡ false
  still_unsettled n h free =
      let (_, _, longer, _, _, _, _) = settle_writes id o marks s fresh in
      let other : str_eq n id ≡ false = elim (Bool-cases (str_eq n id)) [
        | inl same ↦
            let twice : member id ids ≡ true =
              subst (λ z. member z ids ≡ true) ((str_eq_iff n id).0 same) h in
            absurd (cc)
        | inr other ↦ other
      ] in
      subst (λ l. member n l ≡ false) (sym longer)
        (ground (arith, member_cons n id s.dag.completed))

  IsOpen-settle : (n : Str) → member n ids ≡ true → IsOpen s n → IsOpen (settle id o marks s) n
  IsOpen-settle n h i =
      let x = settle-Extends id o marks s fresh in
      record {
        known = subst (λ l. member n l ≡ true) (sym x.nodes) i.known;
        unsettled = still_unsettled n h i.unsettled;
        preds = λ p e. x.stays p (i.preds p (subst (λ m. Edge m p n) x.edges e));
      }

  pub Cleared-settle :
      (n : Str) → member n ids ≡ true → Cleared s n → Cleared (settle id o marks s) n
  Cleared-settle n h c =
      Cleared-Extends (settle-Extends id o marks s fresh) (still_unsettled n h c.unsettled) c

-- Skipping and gathering the ready tasks.
pub partition-Phase :
    (ids : List Str) (s : Run)
    → IsSound s
    → Distinct ids
    → ((n : Str) → member n ids ≡ true → IsOpen s n)
    → Phase s ids (partition ids s).0 (partition ids s).1
unfolding partition member
partition-Phase [] s i d open_all = Phase-nil s i
partition-Phase (id ∷ ids) s i d open_all =
    let o = outcome_of id skipped none s.batch_num in
    let here : IsOpen s id = open_all id (ground (arith, str_eq_refl id)) in
    let later : (n : Str) → member n ids ≡ true → IsOpen s n = λ n h. open_all n (ground arith) in
    elim (Bool-cases (member id s.skip)) [
      | inl hit ↦ rw hit (
          Phase-settle id o true s ids here.unsettled d.0 (
            partition-Phase ids (settle id o true s)
              (settle-IsSound id o true s here.unsettled here.known (unfold str_eq in refl) i) d.1
              (λ n h. IsOpen-settle id o true s ids here.unsettled d.0 n h (later n h))))
      | inr free ↦ rw free (
          Phase-gather id s ids
            (record {
              known = here.known;
              unsettled = here.unsettled;
              preds = λ p e. (
                here.preds p e,
                elim (Bool-cases (succeeded s.outcomes p)) [
                  | inl good ↦ good
                  | inr bad ↦ absurd (ground (arith, i.marked p id (here.preds p e) e bad))
                ],
              );
            })
            d.0 (partition-Phase ids s i d.1 later))
    ]

-- If no task was skipped, all ready tasks are gathered.
pub partition-none_skipped :
    (ids : List Str) (s : Run) → (partition ids s).2 ≡ false → (partition ids s).1 ≡ ids
unfolding partition
partition-none_skipped [] s h = refl
partition-none_skipped (id ∷ ids) s h = ground (arith, partition-none_skipped ids s)

-- What the skipping settles, it settles for a predecessor's failure.
pub partition-WasSkipped :
    (ids : List Str) (s : Run)
    → IsSound s
    → Distinct ids
    → ((n : Str) → member n ids ≡ true → IsOpen s n)
    → (n : Str) → member n (partition ids s).0.dag.completed ≡ true
    → (member n s.dag.completed ≡ true) ⊎ WasSkipped (partition ids s).0 n
unfolding partition member
partition-WasSkipped [] s i d open_all n h = inl h
partition-WasSkipped (id ∷ ids) s i d open_all n h =
    let o = outcome_of id skipped none s.batch_num in
    let here : IsOpen s id = open_all id (ground (arith, str_eq_refl id)) in
    let later : (n : Str) → member n ids ≡ true → IsOpen s n = λ n h. open_all n (ground arith) in
    elim (Bool-cases (member id s.skip)) [
      | inl hit ↦
          let t = settle id o true s in
          let sound =
            settle-IsSound id o true s here.unsettled here.known (unfold str_eq in refl) i in
          let open_later : (n : Str) → member n ids ≡ true → IsOpen t n =
            λ n h. IsOpen-settle id o true s ids here.unsettled d.0 n h (later n h) in
          let p = partition-Phase ids t sound d.1 open_later in
          let (_, _, longer, _, _, _, _) = settle_writes id o true s here.unsettled in
          rw hit (elim (partition-WasSkipped ids t sound d.1 open_later n (rw hit at h)) [
            | inr skip ↦ inr skip
            | inl before ↦
                let before' : member n (id ∷ s.dag.completed) ≡ true =
                  subst (λ l. member n l ≡ true) longer before in
                elim (Bool-cases (str_eq n id)) [
                  | inl same ↦ inr (
                      WasSkipped-Extends p.extends before (
                        subst (WasSkipped t) (sym ((str_eq_iff n id).0 same))
                          (settle-WasSkipped id s i here.unsettled hit)))
                  | inr other ↦ inl (ground (arith, member_cons n id s.dag.completed))
                ]
          ])
      | inr free ↦ rw free (partition-WasSkipped ids s i d.1 later n (rw free at h))
    ]
