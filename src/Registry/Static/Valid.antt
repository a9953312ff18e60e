-- ===== src/Registry/Static/Valid.antt =====
-- validate of internal/registry/registry.go.
use daedalus.Prelude.{
  ℕ, ◌+◌, ◌≡◌, refl, ◌↔◌, Bool, true, false, not, ◌&&◌, List, [], ◌∷◌, arith, map, Str, is_empty,
  is_nil, member, add, member-add, Distinct, member_cons, member_nil, str_eq_comm, ok,
}
use daedalus.Prelude.Int.{pos, lt_ℤ}
use daedalus.A2a.{AgentSkill}
use daedalus.Registry.Types.{AgentEntry}
use daedalus.Registry.Static.{validate_skills, validate_entry, validate_from, validate}

abbrev pub skills_named : List AgentSkill → Bool
skills_named [] = true
skills_named (s ∷ ss) = not (is_empty s.id) && not (is_empty s.name) && skills_named ss

-- An entry with everything that `validate` requires of it alone.
abbrev pub filled : AgentEntry → Bool
filled e =
    not (is_empty e.card.name)
    && not (is_empty e.card.description)
    && not (is_empty e.card.version)
    && not (is_empty e.queue_subject)
    && not (is_empty e.runtime)
    && lt_ℤ (pos 0) e.acp_port
    && not (is_nil e.card.skills)
    && skills_named e.card.skills

abbrev pub all_filled : List AgentEntry → Bool
all_filled [] = true
all_filled (e ∷ es) = filled e && all_filled es

abbrev pub names : List AgentEntry → List Str
names = map (λ e. e.card.name)

abbrev pub subjects : List AgentEntry → List Str
subjects = map (λ e. e.queue_subject)

validate_skills_iff :
    (i j : ℕ) (ss : List AgentSkill) → (validate_skills i j ss ≡ ok tt) ↔ (skills_named ss ≡ true)
unfolding validate_skills
validate_skills_iff i j [] = (λ _. refl, λ _. refl)
validate_skills_iff i j (s ∷ ss) = ground (arith, validate_skills_iff i (j + 1) ss)

validate_entry_iff : (i : ℕ) (e : AgentEntry) → (validate_entry i e ≡ ok tt) ↔ (filled e ≡ true)
unfolding validate_entry
validate_entry_iff i e = ground (arith, validate_skills_iff i 0 e.card.skills)

-- No string of the list is among the seen ones.
abbrev Apart : List Str → List Str → Type 0
Apart seen [] = Unit
Apart seen (x ∷ xs) = (member x seen ≡ false) × Apart seen xs

Apart-add :
    (x : Str) (seen xs : List Str) → Apart (add x seen) xs ↔ (Apart seen xs × (member x xs ≡ false))
Apart-add x seen [] = ground (arith, member_nil x)
Apart-add x seen (y ∷ ys) =
    let (to, from) = Apart-add x seen ys in
    (
      λ h.
          let (old, new) = to h.1 in
          (
            (ground (arith, member-add x y seen), old),
            ground (arith, member-add x y seen, member_cons x y ys, str_eq_comm x y),
          ),
      λ both. (
        ground (arith, member-add x y seen, member_cons x y ys, str_eq_comm x y),
        from (both.0.1, ground (arith, member_cons x y ys)),
      ),
    )

validate_from_iff :
    (i : ℕ) (ns ss : List Str) (es : List AgentEntry)
    → (validate_from i ns ss es ≡ ok tt) ↔ (
        (all_filled es ≡ true)
        × (Distinct (names es) × Apart ns (names es))
        × (Distinct (subjects es) × Apart ss (subjects es)))
unfolding validate_from
validate_from_iff i ns ss [] = (λ _. (refl, (tt, tt), (tt, tt)), λ _. refl)
validate_from_iff i ns ss (e ∷ es) =
    let (to, from) = validate_from_iff (i + 1) (add e.card.name ns) (add e.queue_subject ss) es in
    let (entry_to, entry_from) = validate_entry_iff i e in
    let (name_to, name_from) = Apart-add e.card.name ns (names es) in
    let (subject_to, subject_from) = Apart-add e.queue_subject ss (subjects es) in
    (
      λ h.
          let (whole, (d, n), (d', s)) = to (rest_valid h) in
          let (n', fresh) = name_to n in
          let (s', fresh') = subject_to s in
          let (this, new_name, new_subject) = first_valid h in
          let good = entry_to this in
          (ground arith, ((fresh, d), (new_name, n')), ((fresh', d'), (new_subject, s'))),
      λ h.
          let (whole, ((fresh, d), (new_name, n)), ((fresh', d'), (new_subject, s))) = h in
          valid (entry_from (ground arith)) new_name new_subject
            (from (ground arith, (d, name_from (n, fresh)), (d', subject_from (s, fresh')))),
    )
  where
    first_valid :
        validate_from i ns ss (e ∷ es) ≡ ok tt
        → (validate_entry i e ≡ ok tt)
          × (member e.card.name ns ≡ false)
          × (member e.queue_subject ss ≡ false)
    first_valid h = ground arith

    rest_valid :
        validate_from i ns ss (e ∷ es) ≡ ok tt
        → validate_from (i + 1) (add e.card.name ns) (add e.queue_subject ss) es ≡ ok tt
    rest_valid h = ground arith

    valid :
        validate_entry i e ≡ ok tt
        → member e.card.name ns ≡ false
        → member e.queue_subject ss ≡ false
        → validate_from (i + 1) (add e.card.name ns) (add e.queue_subject ss) es ≡ ok tt
        → validate_from i ns ss (e ∷ es) ≡ ok tt
    valid a b c d = ground arith

-- `validate` accepts a list of agents exactly if each has all that is required, and neither a name
-- nor a queue subject stands twice.
pub validate_iff_filled :
    (entries : List AgentEntry)
    → (validate entries ≡ ok tt)
      ↔ ((all_filled entries ≡ true) × Distinct (names entries) × Distinct (subjects entries))
unfolding validate
validate_iff_filled entries =
    let (to, from) = validate_from_iff 0 [] [] entries in
    (
      λ h. let (whole, (d, _), (d', _)) = to h in (whole, d, d'),
      λ h.
          let (whole, d, d') = h in
          from (whole, (d, Apart_nil (names entries)), (d', Apart_nil (subjects entries))),
    )
  where
    Apart_nil : (xs : List Str) → Apart [] xs
    Apart_nil [] = tt
    Apart_nil (x ∷ xs) = (member_nil x, Apart_nil xs)
