-- ===== src/Acp/Client/Failing.antt =====
-- The end of the stream in internal/acp/client.go: every pending call gets the error.
use daedalus.Prelude.{
  ℕ, ◌≡◌, refl, sym, ap, ◌∙◌, subst, inl, inr, true, false, ◌==◌, none, some, List, [], ◌∷◌, arith,
  if◌then◌else◌, Bool-cases,
}
use daedalus.Acp.Client.{Client, has, at, send_reply, connection_closed, fail_all, end_of_stream}
use daedalus.Acp.Client.Calls.{Distinct, IsRouted}

-- The channels of the other pending calls are still empty when one has got the error.
others-empty :
    (id : ℕ) (ids : List ℕ) (c : Client)
    → has id ids ≡ false
    → ((j : ℕ) → has j (id ∷ ids) ≡ true → c.replies j ≡ none)
    → (j : ℕ) → has j ids ≡ true
    → at id (some connection_closed) c.replies j ≡ none
others-empty id ids c absent empty j there = elim (Bool-cases (j == id)) [
  | inl same ↦ absurd (ground arith)
  | inr other ↦ rw other (empty j (ground arith))
]

abbrev failed_one : ℕ → Client → Client
failed_one id c = record c { replies = at id (some connection_closed) c.replies }

fail_all-step :
    (id : ℕ) (ids : List ℕ) (c : Client)
    → c.replies id ≡ none
    → fail_all (id ∷ ids) c ≡ fail_all ids (failed_one id c)
unfolding fail_all send_reply
fail_all-step id ids c free = ground arith

-- At the end of the connection each pending call has the error, and the others what they had.
pub fail_all-replies :
    (ids : List ℕ) (c : Client)
    → Distinct ids
    → ((id : ℕ) → has id ids ≡ true → c.replies id ≡ none)
    → (x : ℕ)
    → (fail_all ids c).replies x ≡ (if has x ids then some connection_closed else c.replies x)
unfolding fail_all
fail_all-replies [] c d empty x = refl
fail_all-replies (id ∷ ids) c d empty x =
    ap (λ f. f.replies x) (fail_all-step id ids c (empty id (ground arith)))
    ∙ fail_all-replies ids (failed_one id c) d.1 (others-empty id ids c d.0 empty) x
    ∙ ground arith

fail_all-rest :
    (ids : List ℕ) (c : Client)
    → Distinct ids
    → ((id : ℕ) → has id ids ≡ true → c.replies id ≡ none)
    → ((fail_all ids c).stuck ≡ c.stuck) × ((fail_all ids c).pending ≡ c.pending)
unfolding fail_all
fail_all-rest [] c d empty = (refl, refl)
fail_all-rest (id ∷ ids) c d empty =
    let step = fail_all-step id ids c (empty id (ground arith)) in
    let (free, same) = fail_all-rest ids (failed_one id c) d.1 (others-empty id ids c d.0 empty) in
    (ap (λ f. f.stuck) step ∙ free, ap (λ f. f.pending) step ∙ same)

pub end_of_stream-IsRouted :
    (c : Client) → c.reading ≡ true → IsRouted c → IsRouted (end_of_stream c)
unfolding end_of_stream
end_of_stream-IsRouted c awake w =
    let empty = λ (id : ℕ) (there : has id c.pending ≡ true). w.open_empty id awake there in
    let (free, same) = fail_all-rest c.pending c w.distinct empty in
    record {
      open_empty = λ id closed there. absurd (cc);
      own = λ id r h. elim (Bool-cases (has id c.pending)) [
        | inl there ↦ inr (ground (arith, fail_all-replies c.pending c w.distinct empty id))
        | inr other ↦ w.own id r (ground (arith, fail_all-replies c.pending c w.distinct empty id))
      ];
      distinct = subst Distinct (sym same) w.distinct;
      free = free ∙ w.free;
    }
