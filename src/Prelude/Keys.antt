-- ===== src/Prelude/Keys.antt =====
-- The keys of an association list stay distinct.
use mathlib.Core.Path.{◌≡◌, refl}
use mathlib.Core.Logic.{inl, inr}
use mathlib.Core.Bool.{false, ◌||◌}
use mathlib.Core.List.{[], ◌∷◌}
use native.Mathlib.Omega.{arith}
use daedalus.Prelude.Tests.{Bool-cases}
use daedalus.Prelude.Text.{Str, str_eq, str_eq_iff, str_eq_comm}
use daedalus.Prelude.Maps.{Map, lookup, insert, delete, keys, has_key, member}
use daedalus.Prelude.Sets.{Distinct, member_nil}

module _ {ℓ} {V : Type ℓ} where
  pub member-keys : (x : Str) (m : Map V) → member x (keys m) ≡ has_key x m
  unfolding lookup member
  member-keys x [] = refl
  member-keys x ((j, w) ∷ m) = ground (arith, member-keys x m, str_eq_comm x j)

  member-keys-insert :
      (k x : Str) (v : V) (m : Map V)
      → member x (keys (insert k v m)) ≡ (str_eq x k || member x (keys m))
  unfolding insert member
  member-keys-insert k x v [] = refl
  member-keys-insert k x v ((j, w) ∷ m) =
      ground (arith, member-keys-insert k x v m, str_eq_iff j k, str_eq_iff x j, str_eq_iff x k)

  pub insert-Distinct :
      (k : Str) (v : V) (m : Map V) → Distinct (keys m) → Distinct (keys (insert k v m))
  unfolding insert
  insert-Distinct k v [] d = (member_nil k, tt)
  insert-Distinct k v ((j, w) ∷ m) d = elim (Bool-cases (str_eq j k)) [
    | inl same ↦ rw same (ground (arith, (str_eq_iff j k).0 same), d.1)
    | inr other ↦ rw other (ground (arith, member-keys-insert k j v m), insert-Distinct k v m d.1)
  ]

  member-keys-delete :
      (k x : Str) (m : Map V) → member x (keys m) ≡ false → member x (keys (delete k m)) ≡ false
  unfolding delete member
  member-keys-delete k x [] h = refl
  member-keys-delete k x ((j, w) ∷ m) h = ground (arith, member-keys-delete k x m)

  pub delete-Distinct : (k : Str) (m : Map V) → Distinct (keys m) → Distinct (keys (delete k m))
  unfolding delete
  delete-Distinct k [] d = tt
  delete-Distinct k ((j, w) ∷ m) d = elim (Bool-cases (str_eq j k)) [
    | inl same ↦ rw same (delete-Distinct k m d.1)
    | inr other ↦ rw other (member-keys-delete k j m d.0, delete-Distinct k m d.1)
  ]
