-- ===== src/Prelude/Decimal.antt =====
-- fmt.Sprintf("%d", n) of an integer.
use Prim.Native.Nat.{ℕ, zero, suc, ◌+◌, ◌/◌, ◌%◌}
use mathlib.Core.List.{[], ◌∷◌, ◌++◌}
use daedalus.Prelude.Tests.{ltb, if◌then◌else◌}
use daedalus.Prelude.Text.{Str, codes}
use daedalus.Prelude.Int.{ℤ, pos, negsuc}

-- The decimal digits; each call divides by ten, so `n` calls are enough.
unfoldable pub digits : ℕ → ℕ → Str
digits zero n = []
digits (suc fuel) n =
    let rest = digits fuel (n / 10) in
    if ltb n 10 then (48 + n) ∷ [] else rest ++ (48 + n % 10) ∷ []

-- fmt.Sprintf("%d", n)
unfoldable pub sprint_int : ℤ → Str
unfolding digits
sprint_int (pos n) = digits (suc n) n
sprint_int (negsuc n) = codes "-" ++ digits (suc (suc n)) (suc n)
