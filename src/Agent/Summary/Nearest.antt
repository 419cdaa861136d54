-- ===== src/Agent/Summary/Nearest.antt =====
-- Where summarizeSession of pkg/agent/loop.go splits a long conversation.
use suprclaw_engine.Prelude.{
  ℕ, zero, suc, ◌+◌, ◌≤◌, ◌<◌, ◌≡◌, inl, inr, sym, ◌∙◌, true, false, List, [], ◌∷◌, leb, nat_eq,
  list_eq, length, drop, arith, Bool-cases,
}
use mathlib.Core.Bool.{true≢false, false≢true}
use suprclaw_engine.Providers.Message.{Message}
use suprclaw_engine.Agent.History.Kept.{is_user}
use suprclaw_engine.Agent.Summary.{user_at, search_back, search_forward, find_nearest_user_message}

search_back_le : (ms : List Message) (i : ℕ) → search_back ms i ≤ i
unfolding search_back
search_back_le ms zero = omega arith
search_back_le ms (suc i) = ground (arith, search_back_le ms i)

-- A message of the user up to the index is found.
search_back-user :
    (ms : List Message) (i j : ℕ)
    → j ≤ i
    → user_at ms j ≡ true
    → user_at ms (search_back ms i) ≡ true
unfolding search_back
search_back-user ms zero zero h u = u
search_back-user ms zero (suc j) h u = absurd (omega arith)
search_back-user ms (suc i) j h u = ground (arith, search_back-user ms i j)

first-user :
    (ms : List Message) (j : ℕ)
    → user_at ms j ≡ true
    → (user_at ms (search_forward ms) ≡ true) × (search_forward ms < length ms)
unfolding search_forward
first-user [] j u = absurd (false≢true u)
first-user (m ∷ ms) j u = elim (Bool-cases (is_user m)) [
  | inl e ↦ rw e (e, omega arith)
  | inr e ↦ rw e (behind m ms j e u (first-user ms))
]
  where
    behind :
        (m : Message) (ms : List Message) (j : ℕ)
        → is_user m ≡ false
        → user_at (m ∷ ms) j ≡ true
        → ((j : ℕ)
            → user_at ms j ≡ true
            → (user_at ms (search_forward ms) ≡ true) × (search_forward ms < length ms))
        → (user_at (m ∷ ms) (suc (search_forward ms)) ≡ true)
          × (suc (search_forward ms) < length (m ∷ ms))
    behind m ms zero e u ih = absurd (true≢false (sym u ∙ e))
    behind m ms (suc j) e u ih = let (found, bound) = ih j u in (found, omega arith)

-- A message of the user from the index on is found.
search_forward-user :
    (ms : List Message) (i j : ℕ)
    → i ≤ j
    → user_at ms j ≡ true
    → (user_at ms (i + search_forward (drop i ms)) ≡ true)
      × (i + search_forward (drop i ms) < length ms)
search_forward-user ms zero j h u =
    let e : 0 + search_forward ms ≡ search_forward ms = omega arith in rw e (first-user ms j u)
search_forward-user [] (suc i) j h u = absurd (false≢true u)
search_forward-user (m ∷ ms) (suc i) zero h u = absurd (omega arith)
search_forward-user (m ∷ ms) (suc i) (suc j) h u =
    let (found, bound) = search_forward-user ms i j (omega arith) u in
    let e : suc i + search_forward (drop i ms) ≡ suc (i + search_forward (drop i ms)) =
      omega arith in
    rw e (found, omega arith)

-- The place where a long conversation is split is within it, and it is a message of the user if
-- there is one anywhere in the conversation.
pub find_nearest_user_message_lem :
    (ms : List Message) (mid : ℕ)
    → mid < length ms
    → (find_nearest_user_message ms mid < length ms)
      × ((j : ℕ) → user_at ms j ≡ true → user_at ms (find_nearest_user_message ms mid) ≡ true)
unfolding find_nearest_user_message
find_nearest_user_message_lem ms mid h = (
  ground (arith, search_back_le ms mid),
  λ j u. elim (Bool-cases (leb j mid)) [
    | inl e ↦ ground (arith, search_back-user ms mid j (ground (arith, e)) u)
    | inr e ↦
        let (found, bound) = search_forward-user ms mid j (ground (arith, e)) u in
        ground (arith, found, bound)
  ],
)
