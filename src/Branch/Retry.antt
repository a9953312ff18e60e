-- ===== src/Branch/Retry.antt =====
-- internal/branch/retry.go: the sessions of earlier attempts. The lister's answer is a parameter.
use daedalus.Prelude.{
  Result-cases, ℕ, ltb, ◌≡◌, refl, sym, ap, ◌∙◌, subst, ◌⊎◌, inl, inr, Bool, true, false, Option,
  List, [], ◌∷◌, ◌++◌, length, last_of, arith, if◌then◌else◌, Str, codes, has_prefix, trim_prefix,
  append-trim_prefix, has_prefix-append, Bool-cases, Result, ok, err, ◌>>=◌, str_eq_iff, str_eq,
  member,
}
use daedalus.Branch.Naming.{
  BranchName, prefix, slash, one_of, sanitize, new_branch, to_string, split_slash, parse,
}
use daedalus.Branch.Naming.Clean.{sanitize-IsClean, one_of-slash}
use daedalus.Branch.Naming.Parsed.{
  split_slash-append, to_string-parse, parse-new_branch, some_pair, parse_plain, new_branch_parts,
}

-- The loop over the refs.
unfoldable pub matching : Str → List Str → List BranchName
unfolding has_prefix parse
matching start [] = []
matching start (ref ∷ refs) =
    let rest = matching start refs in
    if has_prefix ref start then elim (parse ref) [ err _ ↦ rest | ok b ↦ b ∷ rest ] else rest

abbrev pub branch_prefix : Str → Str → Str
branch_prefix feature agent_name =
    prefix ++ (sanitize feature ++ (codes "/" ++ (sanitize agent_name ++ codes "/")))

-- FindRetries
unfoldable pub find_retries : Result Str (List Str) → Str → Str → Result Str (List BranchName)
unfolding matching sanitize
find_retries listed feature agent_name = do
  refs ← listed
  ok (matching (branch_prefix feature agent_name) refs)

-- IsRetry
unfoldable pub is_retry : Result Str (List Str) → Str → Str → Result Str (Bool × ℕ)
unfolding find_retries
is_retry listed feature agent_name = do
  matches ← find_retries listed feature agent_name
  ok (ltb 0 (length matches), length matches)

-- LatestSession
unfoldable pub latest_session : Result Str (List Str) → Str → Str → Result Str (Option BranchName)
unfolding find_retries
latest_session listed feature agent_name = do
  matches ← find_retries listed feature agent_name
  ok (last_of matches)

-- All names of the list are of the feature and the agent.
abbrev pub Belong : Str → Str → List BranchName → Type 0
Belong f a [] = Unit
Belong f a (b ∷ bs) = ((b.feature ≡ f) × (b.agent_name ≡ a)) × Belong f a bs

abbrev pub Among : BranchName → List BranchName → Type 0
Among b [] = ⊥
Among b (c ∷ cs) = (b ≡ c) ⊎ Among b cs

starts_ours :
    (ref start : Str)
    → has_prefix ref (prefix ++ start) ≡ true
    → trim_prefix ref (codes "origin/") ≡ ref
unfolding trim_prefix has_prefix
starts_ours [] start h = absurd (cc)
starts_ours (x ∷ xs) start h = ground arith

append_assoc_slash :
    (f a r : Str) → (f ++ slash ∷ (a ++ slash ∷ [])) ++ r ≡ f ++ slash ∷ (a ++ slash ∷ r)
append_assoc_slash [] [] r = refl
append_assoc_slash [] (x ∷ a) r = ap (λ l. slash ∷ l) (cons_slash x (append_slash a r))
  where
    append_slash : (a r : Str) → (a ++ slash ∷ []) ++ r ≡ a ++ slash ∷ r
    append_slash [] r = refl
    append_slash (x ∷ a) r = ap (λ l. x ∷ l) (append_slash a r)

    cons_slash : (x : ℕ) {k l : Str} → k ≡ l → x ∷ k ≡ x ∷ l
    cons_slash x e = ap (λ l. x ∷ l) e
append_assoc_slash (x ∷ f) a r = ap (λ l. x ∷ l) (append_assoc_slash f a r)

parsed-belongs :
    (feature agent_name ref : Str) (b : BranchName)
    → has_prefix ref (branch_prefix feature agent_name) ≡ true
    → parse ref ≡ ok b
    → (b.feature ≡ sanitize feature) × (b.agent_name ≡ sanitize agent_name)
parsed-belongs feature agent_name ref b h p =
    let start = sanitize feature ++ slash ∷ (sanitize agent_name ++ slash ∷ []) in
    let rest = trim_prefix ref (prefix ++ start) in
    let whole : prefix ++ (b.feature ++ slash ∷ (b.agent_name ++ slash ∷ b.session_id))
        ≡ prefix ++ (start ++ rest) =
      to_string-parse ref b p
      ∙ starts_ours ref start h
      ∙ sym (append-trim_prefix ref (prefix ++ start) h) in
    let tails : b.feature ++ slash ∷ (b.agent_name ++ slash ∷ b.session_id)
        ≡ sanitize feature ++ slash ∷ (sanitize agent_name ++ slash ∷ rest) =
      ap behind_prefix whole ∙ append_assoc_slash (sanitize feature) (sanitize agent_name) rest in
    let (plain_f, plain_a) = parse_plain ref b p in
    let (ef, em) =
      same_split tails plain_f (one_of-slash (sanitize feature) (sanitize-IsClean feature).valid) in
    let (ea, _) =
      same_split em plain_a
        (one_of-slash (sanitize agent_name) (sanitize-IsClean agent_name).valid) in
    (ef, ea)
  where
    behind_prefix : Str → Str
    behind_prefix (_ ∷ _ ∷ _ ∷ _ ∷ _ ∷ _ ∷ s) = s
    behind_prefix s = s

    same_split :
        {x y u v : Str}
        → x ++ slash ∷ u ≡ y ++ slash ∷ v
        → one_of slash x ≡ false
        → one_of slash y ≡ false
        → (x ≡ y) × (u ≡ v)
    same_split {x} {y} {u} {v} e plain plain' =
        some_pair
          (sym (split_slash-append x u plain) ∙ ap split_slash e ∙ split_slash-append y v plain')

matching-Belong :
    (feature agent_name : Str) (refs : List Str)
    → Belong
        (sanitize feature)
        (sanitize agent_name)
        (matching (branch_prefix feature agent_name) refs)
unfolding matching
matching-Belong f a [] = tt
matching-Belong f a (ref ∷ refs) = elim (Bool-cases (has_prefix ref (branch_prefix f a))) [
  | inr other ↦ rw (other, matching) (matching-Belong f a refs)
  | inl ours ↦ elim (Result-cases (parse ref)) [
    | inl (e, bad) ↦ rw (ours, bad, matching) (matching-Belong f a refs)
    | inr (b, good) ↦
        rw (ours, good, matching) (parsed-belongs f a ref b ours good, matching-Belong f a refs)
  ]
]

-- All names that FindRetries returns have the sanitized feature and agent name that it looks for.
pub find_retries-Belong :
    (listed : Result Str (List Str)) (feature agent_name : Str) (bs : List BranchName)
    → find_retries listed feature agent_name ≡ ok bs
    → Belong (sanitize feature) (sanitize agent_name) bs
unfolding find_retries
find_retries-Belong (err e) f a bs h = absurd (cc)
find_retries-Belong (ok refs) f a bs h =
    subst (Belong (sanitize f) (sanitize a)) (ap (ok_or bs) h) (matching-Belong f a refs)
  where
    ok_or : List BranchName → Result Str (List BranchName) → List BranchName
    ok_or d (err _) = d
    ok_or d (ok c) = c

new_branch-starts :
    (feature agent_name session_id : Str) (b : BranchName)
    → new_branch feature agent_name session_id ≡ ok b
    → has_prefix (to_string b) (branch_prefix feature agent_name) ≡ true
new_branch-starts f a s b h =
    let (ef, ea) = new_branch_parts f a s b h in
    let whole : branch_prefix f a ++ b.session_id ≡ to_string b =
      ap (λ t. prefix ++ t) (append_assoc_slash (sanitize f) (sanitize a) b.session_id)
      ∙ ap (λ t. prefix ++ (t ++ slash ∷ (sanitize a ++ slash ∷ b.session_id))) (sym ef)
      ∙ ap (λ t. prefix ++ (b.feature ++ slash ∷ (t ++ slash ∷ b.session_id))) (sym ea) in
    subst (λ t. has_prefix t (branch_prefix f a) ≡ true) whole
      (has_prefix-append (branch_prefix f a) b.session_id)

matching-Among :
    (start : Str) (refs : List Str) (b : BranchName)
    → has_prefix (to_string b) start ≡ true
    → parse (to_string b) ≡ ok b
    → member (to_string b) refs ≡ true
    → Among b (matching start refs)
unfolding matching member
matching-Among start [] b h p m = absurd (cc)
matching-Among start (ref ∷ refs) b h p m = elim (Bool-cases (str_eq (to_string b) ref)) [
  | inl same ↦
      let e : to_string b ≡ ref = (str_eq_iff (to_string b) ref).0 same in
      let starts : has_prefix ref start ≡ true = subst (λ r. has_prefix r start ≡ true) e h in
      let parses : parse ref ≡ ok b = subst (λ r. parse r ≡ ok b) e p in
      rw (starts, parses, matching) (inl refl)
  | inr other ↦
      let later : Among b (matching start refs) = matching-Among start refs b h p (ground arith) in
      elim (Bool-cases (has_prefix ref start)) [
        | inr out ↦ rw (out, matching) later
        | inl ours ↦ elim (Result-cases (parse ref)) [
          | inl (e, bad) ↦ rw (ours, bad, matching) later
          | inr (c, good) ↦ rw (ours, good, matching) (inr later)
        ]
      ]
]

-- If the branch of a name that New made for a feature and an agent is listed, FindRetries for them
-- returns that name among others.
pub find_retries-finds :
    (refs : List Str) (feature agent_name session_id : Str) (b : BranchName)
    → new_branch feature agent_name session_id ≡ ok b
    → member (to_string b) refs ≡ true
    → (bs : List BranchName) × (find_retries (ok refs) feature agent_name ≡ ok bs) × Among b bs
unfolding find_retries
find_retries-finds refs f a s b h m = (
  matching (branch_prefix f a) refs,
  refl,
  matching-Among (branch_prefix f a) refs b (new_branch-starts f a s b h)
      (parse-new_branch f a s b h) m,
)
