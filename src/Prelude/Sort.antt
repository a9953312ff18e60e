-- ===== src/Prelude/Sort.antt =====
-- `sort.Strings` and `sort.Slice` by a name: insertion sort by the order of Go strings. Equal names
-- keep their order here; Go leaves that order open.
use mathlib.Core.Path.{◌≡◌, refl}
use mathlib.Core.Bool.{true, false, ◌||◌}
use mathlib.Core.List.{List, [], ◌∷◌, Perm}
use mathlib.Core.List.Perm
use native.Mathlib.Omega.{arith}
use daedalus.Prelude.Tests.{if◌then◌else◌, Bool-cases}
use mathlib.Core.Logic.{inl, inr}
use daedalus.Prelude.Text.{Str, str_eq, str_lt}
use daedalus.Prelude.Maps.{member}

module _ {ℓ} {A : Type ℓ} (name : A → Str) where
  unfoldable pub insert_by : A → List A → List A
  insert_by x [] = x ∷ []
  insert_by x (y ∷ ys) = if str_lt (name y) (name x) then y ∷ insert_by x ys else x ∷ y ∷ ys

  unfoldable pub sort_by : List A → List A
  unfolding insert_by
  sort_by [] = []
  sort_by (x ∷ xs) = insert_by x (sort_by xs)

  -- No later name is below an earlier one.
  abbrev pub NoneBelow : Str → List A → Type 0
  NoneBelow k [] = Unit
  NoneBelow k (y ∷ ys) = (str_lt (name y) k ≡ false) × NoneBelow k ys

  abbrev pub IsSorted : List A → Type 0
  IsSorted [] = Unit
  IsSorted (y ∷ ys) = NoneBelow (name y) ys × IsSorted ys

  insert_by-perm : (x : A) (ys : List A) → Perm (insert_by x ys) (x ∷ ys)
  unfolding insert_by
  insert_by-perm x [] = Perm.refl (x ∷ [])
  insert_by-perm x (y ∷ ys) = elim (Bool-cases (str_lt (name y) (name x))) [
    | inl less ↦ rw less (Perm.trans (Perm.cons y (insert_by-perm x ys)) (Perm.swap x y ys))
    | inr more ↦ rw more (Perm.refl (x ∷ y ∷ ys))
  ]

  pub sort_by-perm : (xs : List A) → Perm (sort_by xs) xs
  unfolding sort_by
  sort_by-perm [] = Perm.refl []
  sort_by-perm (x ∷ xs) = Perm.trans (insert_by-perm x (sort_by xs)) (Perm.cons x (sort_by-perm xs))

pub str_lt_trans : (a b c : Str) → str_lt a b ≡ true → str_lt b c ≡ true → str_lt a c ≡ true
unfolding str_lt
str_lt_trans [] [] c h k = cc
str_lt_trans [] (y ∷ ys) [] h k = cc
str_lt_trans [] (y ∷ ys) (z ∷ zs) h k = refl
str_lt_trans (x ∷ xs) [] c h k = cc
str_lt_trans (x ∷ xs) (y ∷ ys) [] h k = cc
str_lt_trans (x ∷ xs) (y ∷ ys) (z ∷ zs) h k = ground (arith, str_lt_trans xs ys zs)

-- The order is total on distinct strings.
pub str_lt_total : (a b : Str) → str_lt a b ≡ false → str_lt b a ≡ false → a ≡ b
unfolding str_lt
str_lt_total [] [] h k = refl
str_lt_total [] (y ∷ ys) h k = cc
str_lt_total (x ∷ xs) [] h k = cc
str_lt_total (x ∷ xs) (y ∷ ys) h k = ground (arith, str_lt_total xs ys)

str_lt_asym : (a b : Str) → str_lt a b ≡ true → str_lt b a ≡ false
unfolding str_lt
str_lt_asym [] [] h = refl
str_lt_asym [] (y ∷ ys) h = refl
str_lt_asym (x ∷ xs) [] h = cc
str_lt_asym (x ∷ xs) (y ∷ ys) h = ground (arith, str_lt_asym xs ys)

-- `c` is not below `a` if neither `b` is below `a` nor `c` below `b`.
str_ge_trans : (a b c : Str) → str_lt b a ≡ false → str_lt c b ≡ false → str_lt c a ≡ false
unfolding str_lt
str_ge_trans [] [] [] h k = refl
str_ge_trans [] [] (z ∷ zs) h k = refl
str_ge_trans [] (y ∷ ys) [] h k = cc
str_ge_trans [] (y ∷ ys) (z ∷ zs) h k = refl
str_ge_trans (x ∷ xs) [] c h k = cc
str_ge_trans (x ∷ xs) (y ∷ ys) [] h k = cc
str_ge_trans (x ∷ xs) (y ∷ ys) (z ∷ zs) h k = ground (arith, str_ge_trans xs ys zs)

module _ {ℓ} {A : Type ℓ} (name : A → Str) where
  NoneBelow-mono :
      (a b : Str) (ys : List A) → str_lt b a ≡ false → NoneBelow name b ys → NoneBelow name a ys
  NoneBelow-mono a b [] h n = tt
  NoneBelow-mono a b (y ∷ ys) h n = (str_ge_trans a b (name y) h n.0, NoneBelow-mono a b ys h n.1)

  insert_by-NoneBelow :
      (k : Str) (x : A) (ys : List A)
      → str_lt (name x) k ≡ false
      → NoneBelow name k ys
      → NoneBelow name k (insert_by name x ys)
  unfolding insert_by
  insert_by-NoneBelow k x [] h n = (h, tt)
  insert_by-NoneBelow k x (y ∷ ys) h n = elim (Bool-cases (str_lt (name y) (name x))) [
    | inl less ↦ rw less (n.0, insert_by-NoneBelow k x ys h n.1)
    | inr more ↦ rw more (h, n)
  ]

  insert_by-IsSorted :
      (x : A) (ys : List A) → IsSorted name ys → IsSorted name (insert_by name x ys)
  unfolding insert_by
  insert_by-IsSorted x [] s = (tt, tt)
  insert_by-IsSorted x (y ∷ ys) s = elim (Bool-cases (str_lt (name y) (name x))) [
    | inl less ↦ rw less (
      insert_by-NoneBelow (name y) x ys (str_lt_asym (name y) (name x) less) s.0,
      insert_by-IsSorted x ys s.1,
    )
    | inr more ↦ rw more ((more, NoneBelow-mono (name x) (name y) ys more s.0), s)
  ]

  pub sort_by-IsSorted : (xs : List A) → IsSorted name (sort_by name xs)
  unfolding sort_by
  sort_by-IsSorted [] = tt
  sort_by-IsSorted (x ∷ xs) = insert_by-IsSorted x (sort_by name xs) (sort_by-IsSorted xs)

-- sort.Strings
abbrev pub sort_strings : List Str → List Str
sort_strings = sort_by (λ s. s)

pub member-insert_by :
    (k x : Str) (ys : List Str) → member k (insert_by (λ s. s) x ys) ≡ (str_eq k x || member k ys)
unfolding insert_by member
member-insert_by k x [] = refl
member-insert_by k x (y ∷ ys) = ground (arith, member-insert_by k x ys)

pub member-sort_strings : (k : Str) (xs : List Str) → member k (sort_strings xs) ≡ member k xs
unfolding sort_by member
member-sort_strings k [] = refl
member-sort_strings k (x ∷ xs) =
    ground (arith, member-insert_by k x (sort_strings xs), member-sort_strings k xs)
