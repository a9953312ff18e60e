-- ===== src/Registry/Dynamic/Backoff.antt =====
-- The waits of watch in internal/registry/dynamic.go.
use daedalus.Prelude.{
  false, ℕ, zero, suc, ◌*◌, ◌^◌, leb, ltb, ◌≡◌, refl, ap, inl, inr, List, [], ◌∷◌, map, arith,
  if◌then◌else◌, Bool-cases,
}
use daedalus.Registry.Dynamic.{next_backoff, waits}

-- How many waits lie between the begin, or the last run of a minute or more, and each run; `n` for the
-- first one. No wait is needed to say this.
abbrev pub waits_before : ℕ → List ℕ → List ℕ
waits_before n [] = []
waits_before n (run_time ∷ more) =
    let since = if leb 60 run_time then 0 else n in since ∷ waits_before (suc since) more

-- 2 to the power of n, but at most 2 to the power of 5.
abbrev pub doubled : ℕ → ℕ
doubled n = if leb n 5 then 2 ^ n else 2 ^ 5

leb_large : (n : ℕ) → leb (suc (suc (suc (suc (suc (suc n)))))) 5 ≡ false
leb_large n = ground arith

doubled-suc : (n : ℕ) → (if ltb (doubled n) 30 then doubled n * 2 else doubled n) ≡ doubled (suc n)
doubled-suc zero = refl
doubled-suc (suc zero) = refl
doubled-suc (suc (suc zero)) = refl
doubled-suc (suc (suc (suc zero))) = refl
doubled-suc (suc (suc (suc (suc zero)))) = refl
doubled-suc (suc (suc (suc (suc (suc zero))))) = refl
doubled-suc (suc (suc (suc (suc (suc (suc n)))))) =
    let here = leb_large n in let next = leb_large (suc n) in rw (here, next) refl

waits-from : (n : ℕ) (runs : List ℕ) → waits (doubled n) runs ≡ map doubled (waits_before n runs)
unfolding waits next_backoff
waits-from n [] = refl
waits-from n (run_time ∷ more) = elim (Bool-cases (leb 60 run_time)) [
  | inl stable ↦ rw stable (ap (λ ws. 1 ∷ ws) (waits-from 1 more))
  | inr short ↦ rw (short, doubled-suc n) (ap (λ ws. doubled n ∷ ws) (waits-from (suc n) more))
]

-- After each run that ends with an error watch waits 2 ^ n seconds, at most 32, if it has waited n times
-- since it began or since the last run of at least 60 seconds, which itself starts anew at one second.
pub waits-doubled : (runs : List ℕ) → waits 1 runs ≡ map doubled (waits_before 0 runs)
waits-doubled runs = waits-from 0 runs
