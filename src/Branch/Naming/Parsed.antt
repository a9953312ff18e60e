-- ===== src/Branch/Naming/Parsed.antt =====
-- Parse and String of internal/branch/naming.go undo each other.
use daedalus.Prelude.{
  ◌==◌, ==_iff, ◌≡◌, refl, sym, ap, ◌∙◌, subst, inl, inr, false, Option, none, some, [], ◌∷◌, ◌++◌,
  arith, Str, codes, is_empty, has_prefix, trim_prefix, append-trim_prefix, ◌>>◌, Bool-cases,
  Option-cases, Result, ok, err, and_then-eq-ok, fail_if,
}
use daedalus.Branch.Naming.{
  BranchName, NameError, ParseError, empty_segment, empty_feature, empty_agent_name,
  empty_session_id, prefix, slash, one_of, sanitize, new_branch, to_string, split_slash, parse_rest,
  parse,
}
use daedalus.Branch.Naming.Clean.{sanitize-IsClean, one_of-slash}

pub split_slash-append :
    (a b : Str) → one_of slash a ≡ false → split_slash (a ++ slash ∷ b) ≡ some (a, b)
unfolding split_slash
split_slash-append [] b h = refl
split_slash-append (x ∷ a) b h = ground (arith, split_slash-append a b)

pub some_pair : {p q : Str × Str} → some p ≡ some q → (p.0 ≡ q.0) × (p.1 ≡ q.1)
some_pair {p} e = (ap (λ o. (pair_or p o).0) e, ap (λ o. (pair_or p o).1) e)
  where
    pair_or : Str × Str → Option (Str × Str) → Str × Str
    pair_or p none = p
    pair_or p (some q) = q

split_slash_parts :
    (s a b : Str) → split_slash s ≡ some (a, b) → (s ≡ a ++ slash ∷ b) × (one_of slash a ≡ false)
unfolding split_slash
split_slash_parts [] a b h = absurd (cc)
split_slash_parts (x ∷ xs) a b h = elim (Bool-cases (x == slash)) [
  | inl here ↦
      let e : x ≡ slash = (==_iff x slash).0 here in
      let left : Str × Str = ([], xs) in
      let right : Str × Str = (a, b) in
      let parts : some left ≡ some right = ground arith in
      let (ea, eb) = some_pair parts in
      (
        subst (λ c. x ∷ xs ≡ c ++ slash ∷ b) ea (ap (λ c. c ∷ xs) e ∙ ap (λ d. slash ∷ d) eb),
        subst (λ c. one_of slash c ≡ false) ea refl,
      )
  | inr deeper ↦ elim (Option-cases (split_slash xs)) [
    | inl none_there ↦ absurd (ground arith)
    | inr ((c, d), found) ↦
        let left : Str × Str = (x ∷ c, d) in
        let right : Str × Str = (a, b) in
        let parts : some left ≡ some right = ground arith in
        let (ea, eb) = some_pair parts in
        let (split, plain) = split_slash_parts xs c d found in
        (
          subst (λ e. x ∷ xs ≡ e ++ slash ∷ b) ea
              (subst (λ e. x ∷ xs ≡ x ∷ c ++ slash ∷ e) eb (ap (λ e. x ∷ e) split)),
          subst (λ e. one_of slash e ≡ false) ea (ground (arith, ==_iff slash x, ==_iff x slash)),
        )
  ]
]

-- A name whose parts are not empty, and whose feature and agent have no slash.
pub record IsName (b : BranchName) : Type 0 where
  pub feature_given : is_empty b.feature ≡ false
  pub agent_given : is_empty b.agent_name ≡ false
  pub session_given : is_empty b.session_id ≡ false
  pub feature_plain : one_of slash b.feature ≡ false
  pub agent_plain : one_of slash b.agent_name ≡ false

pub parse-to_string : (b : BranchName) → IsName b → parse (to_string b) ≡ ok b
unfolding parse parse_rest
parse-to_string b n =
    let rest = b.feature ++ slash ∷ (b.agent_name ++ slash ∷ b.session_id) in
    let first =
      split_slash-append b.feature (b.agent_name ++ slash ∷ b.session_id) n.feature_plain in
    let second = split_slash-append b.agent_name b.session_id n.agent_plain in
    let parsed : parse_rest rest ≡ ok b =
      rw (first, second, n.feature_given, n.agent_given, n.session_given, parse_rest) refl in
    parsed

new_branch_made :
    (f a s : Str) (b : BranchName)
    → new_branch f a s ≡ ok b
    → (is_empty (sanitize f) ≡ false)
      × (is_empty (sanitize a) ≡ false)
      × (is_empty (sanitize s) ≡ false)
      × (record { feature = sanitize f; agent_name = sanitize a; session_id = sanitize s } ≡ b)
unfolding new_branch
new_branch_made f a s b h =
    let (_, _, h1) = and_then-eq-ok (fail_if (is_empty (sanitize f)) empty_feature) _ h in
    let (_, _, h2) = and_then-eq-ok (fail_if (is_empty (sanitize a)) empty_agent_name) _ h1 in
    let (_, _, h3) = and_then-eq-ok (fail_if (is_empty (sanitize s)) empty_session_id) _ h2 in
    (ground arith, ground arith, ground arith, ap (ok_or b) h3)
  where
    ok_or : BranchName → Result NameError BranchName → BranchName
    ok_or d (err _) = d
    ok_or d (ok c) = c

pub new_branch_parts :
    (f a s : Str) (b : BranchName)
    → new_branch f a s ≡ ok b
    → (b.feature ≡ sanitize f) × (b.agent_name ≡ sanitize a)
new_branch_parts f a s b h =
    let (_, _, _, made) = new_branch_made f a s b h in
    (
      ap (λ (c : BranchName). c.feature) (sym made),
      ap (λ (c : BranchName). c.agent_name) (sym made),
    )

pub new_branch-IsName :
    (feature agent_name session_id : Str) (b : BranchName)
    → new_branch feature agent_name session_id ≡ ok b
    → IsName b
new_branch-IsName f a s b h =
    let (given_f, given_a, given_s, made) = new_branch_made f a s b h in
    subst IsName made (record {
      feature_given = given_f;
      agent_given = given_a;
      session_given = given_s;
      feature_plain = one_of-slash (sanitize f) (sanitize-IsClean f).valid;
      agent_plain = one_of-slash (sanitize a) (sanitize-IsClean a).valid;
    })

-- Parse reads back a name that New made.
pub parse-new_branch :
    (feature agent_name session_id : Str) (b : BranchName)
    → new_branch feature agent_name session_id ≡ ok b
    → parse (to_string b) ≡ ok b
parse-new_branch f a s b h = parse-to_string b (new_branch-IsName f a s b h)

parse_rest_parts :
    (rest : Str) (b : BranchName)
    → parse_rest rest ≡ ok b
    → (rest ≡ b.feature ++ slash ∷ (b.agent_name ++ slash ∷ b.session_id))
      × (one_of slash b.feature ≡ false)
      × (one_of slash b.agent_name ≡ false)
unfolding parse_rest
parse_rest_parts rest b h = elim (Option-cases (split_slash rest)) [
  | inl whole ↦ absurd (ground arith)
  | inr ((f, more), first) ↦ elim (Option-cases (split_slash more)) [
    | inl short ↦ absurd (ground arith)
    | inr ((a, s), second) ↦
        let checks : (fail_if (is_empty f) (empty_segment 0)
              >> (fail_if (is_empty a) (empty_segment 1)
                  >> (fail_if (is_empty s) (empty_segment 2)
                      >> ok (record { feature = f; agent_name = a; session_id = s }))))
            ≡ ok b =
          rw (first, second, parse_rest) at h in
        let (_, _, h1) = and_then-eq-ok (fail_if (is_empty f) (empty_segment 0)) _ checks in
        let (_, _, h2) = and_then-eq-ok (fail_if (is_empty a) (empty_segment 1)) _ h1 in
        let (_, _, h3) = and_then-eq-ok (fail_if (is_empty s) (empty_segment 2)) _ h2 in
        let (split, plain) = split_slash_parts rest f more first in
        let (split', plain') = split_slash_parts more a s second in
        subst
          (λ (c : BranchName).
            (rest ≡ c.feature ++ slash ∷ (c.agent_name ++ slash ∷ c.session_id))
            × (one_of slash c.feature ≡ false)
            × (one_of slash c.agent_name ≡ false))
          (ap (ok_or b) h3) (split ∙ ap (λ m. f ++ slash ∷ m) split', plain, plain')
  ]
]
  where
    ok_or : BranchName → Result ParseError BranchName → BranchName
    ok_or d (err _) = d
    ok_or d (ok c) = c

-- If Parse returns a name, its String is the ref without a leading "origin/".
pub to_string-parse :
    (ref : Str) (b : BranchName)
    → parse ref ≡ ok b
    → to_string b ≡ trim_prefix ref (codes "origin/")
unfolding parse
to_string-parse ref b h =
    let stripped = trim_prefix ref (codes "origin/") in
    elim (Bool-cases (has_prefix stripped prefix)) [
      | inr other ↦ absurd (ground arith)
      | inl ours ↦
          let behind : parse ref ≡ parse_rest (trim_prefix stripped prefix) = ground arith in
          let (split, _, _) = parse_rest_parts (trim_prefix stripped prefix) b (sym behind ∙ h) in
          ap (λ r. prefix ++ r) (sym split) ∙ append-trim_prefix stripped prefix ours
    ]

-- What Parse read has no slash in its feature and its agent.
pub parse_plain :
    (ref : Str) (b : BranchName)
    → parse ref ≡ ok b
    → (one_of slash b.feature ≡ false) × (one_of slash b.agent_name ≡ false)
unfolding parse
parse_plain ref b h =
    let stripped = trim_prefix ref (codes "origin/") in
    elim (Bool-cases (has_prefix stripped prefix)) [
      | inr other ↦ absurd (ground arith)
      | inl ours ↦
          let behind : parse ref ≡ parse_rest (trim_prefix stripped prefix) = ground arith in
          let (_, f, a) = parse_rest_parts (trim_prefix stripped prefix) b (sym behind ∙ h) in
          (f, a)
    ]
