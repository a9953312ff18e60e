-- ===== src/Orchestrator/WaitForAll.antt =====
-- internal/orchestrator/collector.go: WaitForAll. Each goroutine is one WaitFor call; its pair comes
-- out of the channel in the order of arrival.
use mathlib.Core.List.{Permᴰ, Memᴰ}
use mathlib.Core.List.Memᴰ
use mathlib.Core.List.Permᴰ
use daedalus.Prelude.{
  ◌⊎◌, has_key, ap, ◌≡◌, refl, sym, ◌∙◌, inl, inr, true, Option, none, some, List, [], ◌∷◌, arith,
  Str, str_eq, str_eq_iff, Map, lookup, insert, lookup-insert, Result, ok, err, Bool-cases,
}
use daedalus.Orchestrator.Types.{TaskResult}

abbrev pub first_error : Option Str → Str → Option Str
first_error none e = some e
first_error (some old) e = some old

-- The loop that reads the pairs.
unfoldable pub gather :
    List (Str × Result Str TaskResult) → Map TaskResult → Option Str → Map TaskResult × Option Str
gather [] out bad = (out, bad)
gather ((id, err e) ∷ pairs) out bad = gather pairs out (first_error bad e)
gather ((id, ok r) ∷ pairs) out bad = gather pairs (insert id r out) bad

-- The pairs in the order of arrival: for each of the IDs, what its call of WaitFor returned. Two calls
-- for one ID may return different things.
unfoldable pub wait_for_all : List (Str × Result Str TaskResult) → Map TaskResult × Option Str
unfolding gather
wait_for_all arrived = gather arrived [] none

abbrev Pairs : Type 0
Pairs = List (Str × Result Str TaskResult)

gather-keeps :
    (ps : Pairs) (out : Map TaskResult) (bad : Option Str) (id : Str)
    → has_key id out ≡ true
    → has_key id (gather ps out bad).0 ≡ true
unfolding gather
gather-keeps [] out bad id h = h
gather-keeps ((j, err e) ∷ ps) out bad id h = gather-keeps ps out (first_error bad e) id h
gather-keeps ((j, ok r) ∷ ps) out bad id h =
    gather-keeps ps (insert j r out) bad id (ground (arith, lookup-insert j id r out))

gather-has_key :
    (ps : Pairs) (out : Map TaskResult) (bad : Option Str) (id : Str) (r : TaskResult)
    → Memᴰ (id, ok r) ps
    → has_key id (gather ps out bad).0 ≡ true
unfolding gather
gather-has_key [] out bad id r m = absurd (Memᴰ.not-nil m)
gather-has_key ((j, err x) ∷ ps) out bad id r (Memᴰ.head e) =
    absurd (let good : ok r ≡ err x = ap (λ (q : Str × Result Str TaskResult). q.1) e in cc)
gather-has_key ((j, ok q) ∷ ps) out bad id r (Memᴰ.head e) =
    let same : id ≡ j = ap (λ (x : Str × Result Str TaskResult). x.0) e in
    gather-keeps ps (insert j q out) bad id
      (ground (arith, lookup-insert j id q out, str_eq_iff j id))
gather-has_key ((j, err e) ∷ ps) out bad id r (Memᴰ.tail m) =
    gather-has_key ps out (first_error bad e) id r m
gather-has_key ((j, ok q) ∷ ps) out bad id r (Memᴰ.tail m) =
    gather-has_key ps (insert j q out) bad id r m

pair_eq :
    {a b : Str} {p q : Result Str TaskResult}
    → a ≡ b
    → p ≡ q
    → ◌≡◌ {A = Str × Result Str TaskResult} (a, p) (b, q)
pair_eq e f = cc

gather-lookup :
    (ps : Pairs) (out : Map TaskResult) (bad : Option Str) (id : Str) (r : TaskResult)
    → lookup id (gather ps out bad).0 ≡ some r
    → Memᴰ (id, ok r) ps ⊎ (lookup id out ≡ some r)
unfolding gather
gather-lookup [] out bad id r h = inr h
gather-lookup ((j, err e) ∷ ps) out bad id r h =
    elim (gather-lookup ps out (first_error bad e) id r h) [
      | inl m ↦ inl (Memᴰ.tail m)
      | inr old ↦ inr old
    ]
gather-lookup ((j, ok q) ∷ ps) out bad id r h =
    elim (gather-lookup ps (insert j q out) bad id r h) [
      | inl m ↦ inl (Memᴰ.tail m)
      | inr old ↦ elim (Bool-cases (str_eq j id)) [
        | inl same ↦
            let equal : q ≡ r = ground (arith, lookup-insert j id q out) in
            inl (Memᴰ.head (pair_eq (sym ((str_eq_iff j id).0 same)) (ap ok (sym equal))))
        | inr other ↦ inr (ground (arith, lookup-insert j id q out))
      ]
    ]

error_from :
    (j x : Str) (ps : Pairs) (bad : Option Str) (e : Str)
    → first_error bad x ≡ some e
    → ((id : Str) × Memᴰ (id, err e) ((j, err x) ∷ ps)) ⊎ (bad ≡ some e)
error_from j x ps none e h =
    let same : x ≡ e = cc in inl (j, Memᴰ.head (pair_eq refl (ap err (sym same))))
error_from j x ps (some old) e h = inr h

gather-error :
    (ps : Pairs) (out : Map TaskResult) (bad : Option Str) (e : Str)
    → (gather ps out bad).1 ≡ some e
    → ((id : Str) × Memᴰ (id, err e) ps) ⊎ (bad ≡ some e)
unfolding gather
gather-error [] out bad e h = inr h
gather-error ((j, err x) ∷ ps) out bad e h = elim (gather-error ps out (first_error bad x) e h) [
  | inl (id, m) ↦ inl (id, Memᴰ.tail m)
  | inr first ↦ error_from j x ps bad e first
]
gather-error ((j, ok r) ∷ ps) out bad e h = elim (gather-error ps (insert j r out) bad e h) [
  | inl (id, m) ↦ inl (id, Memᴰ.tail m)
  | inr first ↦ inr first
]

gather-first : (ps : Pairs) (out : Map TaskResult) (e : Str) → (gather ps out (some e)).1 ≡ some e
unfolding gather
gather-first [] out e = refl
gather-first ((j, err x) ∷ ps) out e = gather-first ps out e
gather-first ((j, ok r) ∷ ps) out e = gather-first ps (insert j r out) e

gather-fails :
    (ps : Pairs) (out : Map TaskResult) (bad : Option Str) (id e : Str)
    → Memᴰ (id, err e) ps
    → (x : Str) × ((gather ps out bad).1 ≡ some x)
unfolding gather
gather-fails [] out bad id e m = absurd (Memᴰ.not-nil m)
gather-fails ((j, err y) ∷ ps) out none id e m = (y, gather-first ps out y)
gather-fails ((j, err y) ∷ ps) out (some x) id e m = (x, gather-first ps out x)
gather-fails ((j, ok r) ∷ ps) out bad id e (Memᴰ.head h) =
    absurd (let wrong : err e ≡ ok r = ap (λ (q : Str × Result Str TaskResult). q.1) h in cc)
gather-fails ((j, ok r) ∷ ps) out bad id e (Memᴰ.tail m) =
    gather-fails ps (insert j r out) bad id e m

Memᴰ-Perm : {A : Type 0} (a : A) {xs ys : List A} → Permᴰ xs ys → Memᴰ a xs → Memᴰ a ys
Memᴰ-Perm a Permᴰ.nil m = m
Memᴰ-Perm a (Permᴰ.cons e p) (Memᴰ.head h) = Memᴰ.head (h ∙ e)
Memᴰ-Perm a (Permᴰ.cons e p) (Memᴰ.tail m) = Memᴰ.tail (Memᴰ-Perm a p m)
Memᴰ-Perm a (Permᴰ.swap e f) (Memᴰ.head h) = Memᴰ.tail (Memᴰ.head (h ∙ e))
Memᴰ-Perm a (Permᴰ.swap e f) (Memᴰ.tail (Memᴰ.head h)) = Memᴰ.head (h ∙ f)
Memᴰ-Perm a (Permᴰ.swap e f) (Memᴰ.tail (Memᴰ.tail m)) = Memᴰ.tail (Memᴰ.tail m)
Memᴰ-Perm a (Permᴰ.trans p q) m = Memᴰ-Perm a q (Memᴰ-Perm a p m)

-- Let `calls` have for each of the IDs the ID and what its call of WaitFor returned, also if an ID
-- stands twice and its calls differ. In whatever order the calls return, WaitForAll gives for an ID a
-- result that one of its calls returned, and gives one if a call of it returned one; it returns an
-- error that one of the calls returned, and returns one if a call did.
pub wait_for_all-gathers :
    (calls arrived : List (Str × Result Str TaskResult))
    → Permᴰ arrived calls
    → ((id : Str) (r : TaskResult)
        → lookup id (wait_for_all arrived).0 ≡ some r
        → Memᴰ (id, ok r) calls)
      × ((id : Str) (r : TaskResult)
          → Memᴰ (id, ok r) calls
          → has_key id (wait_for_all arrived).0 ≡ true)
      × ((e : Str) → (wait_for_all arrived).1 ≡ some e → (id : Str) × Memᴰ (id, err e) calls)
      × ((id e : Str) → Memᴰ (id, err e) calls → (x : Str) × ((wait_for_all arrived).1 ≡ some x))
unfolding wait_for_all lookup
wait_for_all-gathers calls arrived p = (
  λ id r h. elim (gather-lookup arrived [] none id r h) [
    | inl m ↦ Memᴰ-Perm (id, ok r) p m
    | inr old ↦ absurd (cc)
  ],
  λ id r m. gather-has_key arrived [] none id r (Memᴰ-Perm (id, ok r) (Permᴰ.symm p) m),
  λ e h. elim (gather-error arrived [] none e h) [
    | inl (id, m) ↦ (id, Memᴰ-Perm (id, err e) p m)
    | inr old ↦ absurd (cc)
  ],
  λ id e m. gather-fails arrived [] none id e (Memᴰ-Perm (id, err e) (Permᴰ.symm p) m),
)
