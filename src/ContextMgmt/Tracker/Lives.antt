-- ===== src/ContextMgmt/Tracker/Lives.antt =====
-- The life of a session, apart from the tracker of internal/contextmgmt/tracker.go: what it was told.
use daedalus.Prelude.{
  zero, suc, ◌%◌, ◌-◌, ◌==◌, ltb, length, ◌<◌, ℕ, ◌≡◌, refl, sym, ap, ◌∙◌, inl, inr, false, Option,
  none, some, List, [], ◌∷◌, arith, if◌then◌else◌, Str, str_eq, str_eq_iff, Bool-cases,
}
use daedalus.Prelude.Int.{ℤ, pos, negsuc}
use daedalus.ContextMgmt.Tracker.{inc32, SessionMetrics, new_session, with_tokens, compacted}

-- The calls that change the tracker.
pub data Call : Type 0 where
  start : Str → Str → ℤ → ℕ → Call
  update : Str → ℤ → Call
  compact : Str → ℕ → Call
  finish : Str → Call

abbrev pub on_some :
    (SessionMetrics → SessionMetrics) → Option SessionMetrics → Option SessionMetrics
on_some f none = none
on_some f (some m) = some (f m)

-- What a call means for one session alone: only a call for the session changes it.
abbrev pub apply_one : Str → Call → Option SessionMetrics → Option SessionMetrics
apply_one id (start j task_id limit now) s =
    if str_eq j id then some (new_session j task_id limit now) else s
apply_one id (update j tokens) s = if str_eq j id then on_some (with_tokens tokens) s else s
apply_one id (compact j now) s = if str_eq j id then on_some (compacted now) s else s
apply_one id (finish j) s = if str_eq j id then none else s

-- One life of a session: how it was started, and what it was told since, the newest first.
pub record Life : Type 0 where
  pub task_id : Str
  pub token_limit : ℤ
  pub started : ℕ
  pub updates : List ℤ
  pub compactions : List ℕ

-- The current life of a session after one more call; `none` if it has not started or has ended.
abbrev pub next_life : Str → Call → Option Life → Option Life
next_life id (start j task_id limit now) l =
    if str_eq j id
    then some (record {
      task_id = task_id;
      token_limit = limit;
      started = now;
      updates = [];
      compactions = [];
    })
    else l
next_life id (update j tokens) l =
    if str_eq j id
    then elim l [ none ↦ none | some life ↦ some (record life { updates = tokens ∷ life.updates }) ]
    else l
next_life id (compact j now) l =
    if str_eq j id
    then elim l [
      | none ↦ none
      | some life ↦ some (record life { compactions = now ∷ life.compactions })
    ]
    else l
next_life id (finish j) l = if str_eq j id then none else l

unfoldable pub life_after : Str → List Call → Option Life → Option Life
life_after id [] l = l
life_after id (c ∷ cs) l = life_after id cs (next_life id c l)

abbrev pub signed : ℕ → ℤ
signed k = if ltb k 2147483648 then pos k else negsuc (4294967295 - k)

-- A count as an int32: modulo 2 ^ 32, from -2 ^ 31 on.
abbrev pub as_int32 : ℕ → ℤ
as_int32 n = signed (n % 4294967296)

abbrev pub newest {ℓ} : {A : Type ℓ} → A → List A → A
newest default [] = default
newest default (x ∷ xs) = x

-- The tokens are those of the last update, the last compaction is the last one's, and both are counted.
abbrev pub metrics_of : Str → Life → SessionMetrics
metrics_of id life = record {
  session_id = id;
  task_id = life.task_id;
  current_tokens = newest (pos 0) life.updates;
  token_limit = life.token_limit;
  turn_count = as_int32 (length life.updates);
  compaction_count = as_int32 (length life.compactions);
  last_compaction = newest 0 life.compactions;
  start_time = life.started;
}

abbrev pub metrics_if : Str → Option Life → Option SessionMetrics
metrics_if id none = none
metrics_if id (some life) = some (metrics_of id life)

mod_suc :
    (n : ℕ)
    → (suc n % 4294967296) ≡ (if (n % 4294967296) == 4294967295 then 0 else suc (n % 4294967296))
mod_suc n = ground arith

inc32_down : (m k : ℕ) → m ≡ suc k → inc32 (negsuc m) ≡ negsuc k
inc32_down zero k h = absurd (omega (arith, h))
inc32_down (suc m) k h = ap negsuc (omega (arith, h))

inc32-signed :
    (k : ℕ) → k < 4294967296 → inc32 (signed k) ≡ signed (if k == 4294967295 then 0 else suc k)
inc32-signed k small = elim (Bool-cases (ltb k 2147483648)) [
  | inl low ↦ rw low (ground arith)
  | inr high ↦ rw high (elim (Bool-cases (k == 4294967295)) [
    | inl top ↦
        let none_left : 4294967295 - k ≡ 0 = ground arith in
        rw top (ap (λ m. inc32 (negsuc m)) none_left)
    | inr below ↦
        let still : ltb (suc k) 2147483648 ≡ false = ground arith in
        rw (below, still) (inc32_down (4294967295 - k) (4294967295 - suc k) (ground arith))
  ])
]

inc32-as_int32 : (n : ℕ) → inc32 (as_int32 n) ≡ as_int32 (suc n)
inc32-as_int32 n = inc32-signed (n % 4294967296) (omega arith) ∙ ap signed (sym (mod_suc n))

pub apply_one-metrics_if :
    (id : Str) (c : Call) (l : Option Life)
    → apply_one id c (metrics_if id l) ≡ metrics_if id (next_life id c l)
apply_one-metrics_if id (start j task_id limit now) l = elim (Bool-cases (str_eq j id)) [
  | inl same ↦ rw same (ap (λ i. some (new_session i task_id limit now)) ((str_eq_iff j id).0 same))
  | inr other ↦ rw other refl
]
apply_one-metrics_if id (update j tokens) none = ground arith
apply_one-metrics_if id (update j tokens) (some life) = elim (Bool-cases (str_eq j id)) [
  | inl same ↦ rw same (
      ap (λ n. some (record (metrics_of id life) { current_tokens = tokens; turn_count = n }))
        (inc32-as_int32 (length life.updates)))
  | inr other ↦ rw other refl
]
apply_one-metrics_if id (compact j now) none = ground arith
apply_one-metrics_if id (compact j now) (some life) = elim (Bool-cases (str_eq j id)) [
  | inl same ↦ rw same (
      ap (λ n. some (record (metrics_of id life) { compaction_count = n; last_compaction = now }))
        (inc32-as_int32 (length life.compactions)))
  | inr other ↦ rw other refl
]
apply_one-metrics_if id (finish j) l = ground arith
