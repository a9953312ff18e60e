-- ===== src/Branch/Naming/Clean.antt =====
-- What Sanitize of internal/branch/naming.go returns.
use daedalus.Prelude.{
  ℕ, zero, suc, ◌≤◌, ◌<◌, ◌==◌, ==_iff, ◌≡◌, ◌↔◌, refl, ap, ◌∙◌, subst, inl, inr, Bool, true, false,
  ◌&&◌, [], ◌∷◌, length, arith, if◌then◌else◌, Str, is_empty, Bool-cases,
}
use daedalus.Branch.Naming.{
  hyphen, slash, is_valid_branch_char, replace_invalid, starts_hyphen, contains_pair, replace_pairs,
  collapse, trim_left, trim_right, sanitize, one_of,
}

abbrev pub all_valid : Str → Bool
all_valid [] = true
all_valid (x ∷ xs) = is_valid_branch_char x && all_valid xs

abbrev pub ends_hyphen : Str → Bool
ends_hyphen [] = false
ends_hyphen (x ∷ []) = x == hyphen
ends_hyphen (x ∷ y ∷ ys) = ends_hyphen (y ∷ ys)

-- Valid characters, and hyphens only one by one between others.
pub record IsClean (s : Str) : Type 0 where
  pub valid : all_valid s ≡ true
  pub single : contains_pair s ≡ false
  pub start : starts_hyphen s ≡ false
  pub finish : ends_hyphen s ≡ false

hyphen_valid : is_valid_branch_char hyphen ≡ true
unfolding is_valid_branch_char
hyphen_valid = refl

pub slash_invalid : is_valid_branch_char slash ≡ false
unfolding is_valid_branch_char
slash_invalid = refl

replace_invalid-valid : (s : Str) → all_valid (replace_invalid s) ≡ true
unfolding replace_invalid
replace_invalid-valid [] = refl
replace_invalid-valid (x ∷ xs) = ground (arith, replace_invalid-valid xs, hyphen_valid)

length-replace_invalid : (s : Str) → length (replace_invalid s) ≡ length s
unfolding replace_invalid
length-replace_invalid [] = refl
length-replace_invalid (x ∷ xs) = ap suc (length-replace_invalid xs)

replace_pairs-valid : (s : Str) → all_valid s ≡ true → all_valid (replace_pairs s) ≡ true
unfolding replace_pairs
replace_pairs-valid [] h = h
replace_pairs-valid (x ∷ []) h = h
replace_pairs-valid (x ∷ y ∷ s) h =
    ground (arith, replace_pairs-valid s, replace_pairs-valid (y ∷ s), hyphen_valid)

length-replace_pairs : (s : Str) → length (replace_pairs s) ≤ length s
unfolding replace_pairs
length-replace_pairs [] = omega arith
length-replace_pairs (x ∷ []) = omega arith
length-replace_pairs (x ∷ y ∷ s) =
    ground (arith, length-replace_pairs s, length-replace_pairs (y ∷ s))

-- A round of the loop shortens the string.
replace_pairs_shortens : (s : Str) → contains_pair s ≡ true → length (replace_pairs s) < length s
unfolding replace_pairs contains_pair
replace_pairs_shortens [] h = absurd (cc)
replace_pairs_shortens (x ∷ []) h = absurd (ground arith)
replace_pairs_shortens (x ∷ y ∷ s) h =
    ground (arith, length-replace_pairs s, replace_pairs_shortens (y ∷ s))

-- On as much fuel as the string is long, the loop ends because its condition fails.
collapse_done : (f : ℕ) (s : Str) → length s ≤ f → contains_pair (collapse f s) ≡ false
unfolding collapse contains_pair
collapse_done zero [] h = refl
collapse_done zero (x ∷ xs) h = absurd (omega arith)
collapse_done (suc f) s h = elim (Bool-cases (contains_pair s)) [
  | inl more ↦
      let shorter = replace_pairs_shortens s more in
      ground (arith, collapse_done f (replace_pairs s) (omega arith))
  | inr done ↦ ground arith
]

collapse-valid : (f : ℕ) (s : Str) → all_valid s ≡ true → all_valid (collapse f s) ≡ true
unfolding collapse
collapse-valid zero s h = h
collapse-valid (suc f) s h =
    ground (arith, collapse-valid f (replace_pairs s) (replace_pairs-valid s h))

trim_left-IsClean :
    (s : Str)
    → all_valid s ≡ true
    → contains_pair s ≡ false
    → (all_valid (trim_left s) ≡ true)
      × (contains_pair (trim_left s) ≡ false)
      × (starts_hyphen (trim_left s) ≡ false)
unfolding trim_left contains_pair
trim_left-IsClean [] h k = (refl, refl, refl)
trim_left-IsClean (x ∷ xs) h k = ground (arith, trim_left-IsClean xs)

ends_hyphen-cons :
    (x : ℕ) (s : Str) → ends_hyphen (x ∷ s) ≡ (if is_empty s then x == hyphen else ends_hyphen s)
ends_hyphen-cons x [] = refl
ends_hyphen-cons x (y ∷ s) = refl

trim_right-IsClean :
    (s : Str)
    → all_valid s ≡ true
    → contains_pair s ≡ false
    → (all_valid (trim_right s) ≡ true)
      × (contains_pair (trim_right s) ≡ false)
      × (starts_hyphen s ≡ false → starts_hyphen (trim_right s) ≡ false)
      × (ends_hyphen (trim_right s) ≡ false)
unfolding trim_right contains_pair
trim_right-IsClean [] h k = (refl, refl, λ _. refl, refl)
trim_right-IsClean (x ∷ xs) h k =
    ground (arith, trim_right-IsClean xs, ends_hyphen-cons x (trim_right xs))

-- What Sanitize returns is clean: only valid characters, no hyphen at an end, and no two in a row.
pub sanitize-IsClean : (s : Str) → IsClean (sanitize s)
unfolding sanitize
sanitize-IsClean s =
    let collapsed = collapse (length s) (replace_invalid s) in
    let valid = collapse-valid (length s) (replace_invalid s) (replace_invalid-valid s) in
    let single =
      collapse_done (length s) (replace_invalid s) (omega (arith, length-replace_invalid s)) in
    let (valid', single', start) = trim_left-IsClean collapsed valid single in
    let (valid'', single'', start', finish) =
      trim_right-IsClean (trim_left collapsed) valid' single' in
    record { valid = valid''; single = single''; start = start' start; finish = finish }

replace_invalid-id : (s : Str) → all_valid s ≡ true → replace_invalid s ≡ s
unfolding replace_invalid
replace_invalid-id [] h = refl
replace_invalid-id (x ∷ xs) h = ground (arith, replace_invalid-id xs)

collapse-id : (f : ℕ) (s : Str) → contains_pair s ≡ false → collapse f s ≡ s
unfolding collapse
collapse-id zero s h = refl
collapse-id (suc f) s h = ground arith

trim_left-id : (s : Str) → starts_hyphen s ≡ false → trim_left s ≡ s
unfolding trim_left
trim_left-id [] h = refl
trim_left-id (x ∷ xs) h = ground arith

trim_right-id : (s : Str) → ends_hyphen s ≡ false → trim_right s ≡ s
unfolding trim_right
trim_right-id [] h = refl
trim_right-id (x ∷ []) h = ground arith
trim_right-id (x ∷ y ∷ s) h = ground (arith, trim_right-id (y ∷ s) h)

-- Sanitize returns a string unchanged exactly if the string is clean; in particular a second
-- Sanitize changes nothing.
pub sanitize-fixed_iff :
    (s : Str) → ((sanitize s ≡ s) ↔ IsClean s) × (sanitize (sanitize s) ≡ sanitize s)
unfolding sanitize
sanitize-fixed_iff s =
    ((λ e. subst IsClean e (sanitize-IsClean s), fixed s), fixed (sanitize s) (sanitize-IsClean s))
  where
    fixed : (t : Str) → IsClean t → sanitize t ≡ t
    fixed t c =
        ap (λ u. trim_right (trim_left (collapse (length t) u))) (replace_invalid-id t c.valid)
        ∙ ap (λ u. trim_right (trim_left u)) (collapse-id (length t) t c.single)
        ∙ ap trim_right (trim_left-id t c.start)
        ∙ trim_right-id t c.finish

pub one_of-slash : (s : Str) → all_valid s ≡ true → one_of slash s ≡ false
one_of-slash [] h = refl
one_of-slash (x ∷ xs) h = elim (Bool-cases (slash == x)) [
  | inl same ↦
      let bad : is_valid_branch_char x ≡ false =
        subst (λ y. is_valid_branch_char y ≡ false) ((==_iff slash x).0 same) slash_invalid in
      absurd (ground arith)
  | inr other ↦ ground (arith, one_of-slash xs)
]
