-- ===== src/Prelude/Sets.antt =====
-- Lists of distinct strings, as the sets of the program are, and their sizes.
use Prim.Native.Nat.{suc, ◌≤◌}
use mathlib.Core.Path.{◌≡◌, refl, subst, ◌∙◌}
use mathlib.Core.Logic.{inl, inr}
use mathlib.Core.Bool.{Bool, true, false, ◌||◌}
use mathlib.Core.List.{List, [], ◌∷◌, ◌++◌, Permᴰ}
use native.Mathlib.Omega.{arith}
use daedalus.Prelude.Tests.{if◌then◌else◌, Bool-cases}
use daedalus.Prelude.Lists.{length, keep}
use daedalus.Prelude.Text.{Str, str_eq, str_eq_iff, str_eq_refl}
use daedalus.Prelude.Sort.{insert_by, sort_by, sort_strings, member-insert_by, member-sort_strings}
use daedalus.Prelude.Text.{str_lt, str_eq_comm}
use daedalus.Prelude.Maps.{member, add}

abbrev pub Distinct : List Str → Type 0
Distinct [] = Unit
Distinct (x ∷ xs) = (member x xs ≡ false) × Distinct xs

abbrev pub Within : List Str → List Str → Type 0
Within xs ys = (x : Str) → member x xs ≡ true → member x ys ≡ true

pub member_head : (x : Str) (xs : List Str) → member x (x ∷ xs) ≡ true
unfolding member
member_head x xs = ground (arith, str_eq_refl x)

pub member_cons : (x y : Str) (xs : List Str) → member x (y ∷ xs) ≡ (str_eq x y || member x xs)
unfolding member
member_cons x y xs = refl

pub member_nil : (x : Str) → member x [] ≡ false
unfolding member
member_nil x = refl

pub member-append :
    (x : Str) (xs ys : List Str) → member x (xs ++ ys) ≡ (member x xs || member x ys)
unfolding member
member-append x [] ys = refl
member-append x (y ∷ xs) ys = ground (arith, member-append x xs ys)

pub member-keep :
    (test : Str → Bool) (x : Str) (xs : List Str)
    → member x (keep test xs) ≡ (if test x then member x xs else false)
unfolding member
member-keep test x [] = ground arith
member-keep test x (y ∷ xs) = elim (Bool-cases (str_eq x y)) [
  | inl same ↦
      let e : x ≡ y = (str_eq_iff x y).0 same in
      subst (λ z. member x (keep test (z ∷ xs)) ≡ (if test x then member x (z ∷ xs) else false)) e
        (ground (arith, member-keep test x xs, str_eq_refl x))
  | inr other ↦ ground (arith, member-keep test x xs)
]

pub add-Distinct : (x : Str) (xs : List Str) → Distinct xs → Distinct (add x xs)
unfolding add
add-Distinct x xs d = elim (Bool-cases (member x xs)) [
  | inl old ↦ rw old d
  | inr new ↦ rw new (new, d)
]

-- `xs` without its first `x`.
without : Str → List Str → List Str
without x [] = []
without x (y ∷ ys) = let rest = without x ys in if str_eq x y then ys else y ∷ rest

length-without :
    (x : Str) (ys : List Str) → member x ys ≡ true → suc (length (without x ys)) ≡ length ys
unfolding without member
length-without x [] h = absurd (cc)
length-without x (y ∷ ys) h = ground (arith, length-without x ys)

member-without :
    (x z : Str) (ys : List Str)
    → str_eq z x ≡ false
    → member z ys ≡ true
    → member z (without x ys) ≡ true
unfolding without member
member-without x z [] other h = absurd (cc)
member-without x z (y ∷ ys) other h =
    ground (arith, str_eq_iff x y, str_eq_iff z y, str_eq_iff z x, member-without x z ys)

-- Distinct elements of a list are no more than the list has.
pub length-le_of_Within : (xs ys : List Str) → Distinct xs → Within xs ys → length xs ≤ length ys
length-le_of_Within [] ys d w = omega arith
length-le_of_Within (x ∷ xs) ys d w =
    omega (arith, length-le_of_Within xs (without x ys) d.1 inside, length-without x ys present)
  where
    present : member x ys ≡ true
    present = w x (member_head x xs)

    inside : Within xs (without x ys)
    inside z m = elim (Bool-cases (str_eq z x)) [
      | inl same ↦
          let m' : member x xs ≡ true =
            subst (λ u. member u xs ≡ true) ((str_eq_iff z x).0 same) m in
          absurd (cc)
      | inr other ↦ member-without x z ys other (w z (ground (arith, member_cons z x xs)))
    ]

pub keep-Distinct : (test : Str → Bool) (xs : List Str) → Distinct xs → Distinct (keep test xs)
keep-Distinct test [] d = tt
keep-Distinct test (x ∷ xs) d = elim (Bool-cases (test x)) [
  | inl kept ↦ rw kept (ground (arith, member-keep test x xs), keep-Distinct test xs d.1)
  | inr dropped ↦ rw dropped (keep-Distinct test xs d.1)
]

insert_by-Distinct :
    (x : Str) (ys : List Str)
    → member x ys ≡ false
    → Distinct ys
    → Distinct (insert_by (λ s. s) x ys)
unfolding insert_by
insert_by-Distinct x [] new d = (new, tt)
insert_by-Distinct x (y ∷ ys) new d = elim (Bool-cases (str_lt y x)) [
  | inl less ↦ rw less (
    ground (arith, member-insert_by y x ys, member_cons x y ys, str_eq_comm x y),
    insert_by-Distinct x ys (ground (arith, member_cons x y ys)) d.1,
  )
  | inr more ↦ rw more (new, d)
]

pub sort_strings-Distinct : (xs : List Str) → Distinct xs → Distinct (sort_strings xs)
unfolding sort_by
sort_strings-Distinct [] d = tt
sort_strings-Distinct (x ∷ xs) d =
    insert_by-Distinct x (sort_strings xs) (member-sort_strings x xs ∙ d.0)
      (sort_strings-Distinct xs d.1)

pub member-Perm : (x : Str) {xs ys : List Str} → Permᴰ xs ys → member x xs ≡ member x ys
unfolding member
member-Perm x Permᴰ.nil = refl
member-Perm x (Permᴰ.cons e p) = ground (arith, e, member-Perm x p)
member-Perm x (Permᴰ.swap e f) = ground (arith, e, f)
member-Perm x (Permᴰ.trans p q) = member-Perm x p ∙ member-Perm x q
