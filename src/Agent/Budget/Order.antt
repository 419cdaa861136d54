-- ===== src/Agent/Budget/Order.antt =====
-- pkg/agent/context_budget.go: orderCandidatesByContextWindow.
use suprclaw_engine.Prelude.{
  ℕ, ◌≡◌, refl, Bool, true, ◌&&◌, List, [], ◌∷◌, if◌then◌else◌, ltb, leb, ◌==◌, nat_eq, arith, keep,
}
use suprclaw_engine.Prelude.Unicode.{Unicode}
use suprclaw_engine.Providers.Candidates.{FallbackCandidate}
use suprclaw_engine.Agent.Float.{Float64}
use suprclaw_engine.Agent.Budget.{AgentInstance, window_of}

module _ ⦃f : Float64⦄ ⦃u : Unicode⦄ where
  -- The window of a candidate, or that of the agent.
  abbrev pub rank : AgentInstance f.Ratio → FallbackCandidate → ℕ
  rank agent c = if ltb 0 (window_of agent c) then window_of agent c else agent.context_window

  -- A stable sort: before the first candidate with a window that is not larger, or equal.
  unfoldable pub insert_ranked :
      AgentInstance f.Ratio → FallbackCandidate → List FallbackCandidate → List FallbackCandidate
  insert_ranked agent c [] = c ∷ []
  insert_ranked agent c (d ∷ ds) =
      let rest = insert_ranked agent c ds in
      if ltb (rank agent c) (rank agent d) then d ∷ rest else c ∷ d ∷ ds

  unfoldable pub sort_ranked :
      AgentInstance f.Ratio → List FallbackCandidate → List FallbackCandidate
  sort_ranked agent [] = []
  sort_ranked agent (c ∷ cs) = insert_ranked agent c (sort_ranked agent cs)

  unfoldable pub order_candidates_by_context_window :
      AgentInstance f.Ratio → List FallbackCandidate → List FallbackCandidate
  order_candidates_by_context_window agent [] = []
  order_candidates_by_context_window agent (c ∷ []) = c ∷ []
  order_candidates_by_context_window agent (c ∷ d ∷ cs) = sort_ranked agent (c ∷ d ∷ cs)

  -- No candidate is before one with a larger window.
  abbrev pub descending : AgentInstance f.Ratio → List FallbackCandidate → Bool
  descending agent [] = true
  descending agent (c ∷ []) = true
  descending agent (c ∷ d ∷ cs) = leb (rank agent d) (rank agent c) && descending agent (d ∷ cs)

  -- The candidates with a window, in their order.
  abbrev pub with_window :
      AgentInstance f.Ratio → ℕ → List FallbackCandidate → List FallbackCandidate
  with_window agent w = keep (λ c. rank agent c == w)

  insert_ranked-descending :
      (agent : AgentInstance f.Ratio) (c : FallbackCandidate) (cs : List FallbackCandidate)
      → descending agent cs ≡ true
      → descending agent (insert_ranked agent c cs) ≡ true
  unfolding insert_ranked
  insert_ranked-descending agent c [] h = refl
  insert_ranked-descending agent c (d ∷ []) h = ground arith
  insert_ranked-descending agent c (d ∷ e ∷ cs) h =
      ground (arith, insert_ranked-descending agent c (e ∷ cs))

  sort_ranked-descending :
      (agent : AgentInstance f.Ratio) (cs : List FallbackCandidate)
      → descending agent (sort_ranked agent cs) ≡ true
  unfolding sort_ranked
  sort_ranked-descending agent [] = refl
  sort_ranked-descending agent (c ∷ cs) =
      insert_ranked-descending agent c (sort_ranked agent cs) (sort_ranked-descending agent cs)

  with_window-insert :
      (agent : AgentInstance f.Ratio) (w : ℕ) (c : FallbackCandidate) (cs : List FallbackCandidate)
      → with_window agent w (insert_ranked agent c cs) ≡ with_window agent w (c ∷ cs)
  unfolding insert_ranked keep
  with_window-insert agent w c [] = refl
  with_window-insert agent w c (d ∷ cs) = ground (arith, with_window-insert agent w c cs)

  with_window-sort :
      (agent : AgentInstance f.Ratio) (w : ℕ) (cs : List FallbackCandidate)
      → with_window agent w (sort_ranked agent cs) ≡ with_window agent w cs
  unfolding sort_ranked keep
  with_window-sort agent w [] = refl
  with_window-sort agent w (c ∷ cs) =
      ground
        (arith, with_window-insert agent w c (sort_ranked agent cs), with_window-sort agent w cs)

  -- The candidates are ordered by their windows, the largest first, and among candidates with the
  -- same window the order is the configured one: for every window the same candidates are there, in
  -- the same order.
  pub order_candidates_by_context_window_lem :
      (agent : AgentInstance f.Ratio) (cs : List FallbackCandidate)
      → (descending agent (order_candidates_by_context_window agent cs) ≡ true)
        × ((w : ℕ)
            → with_window agent w (order_candidates_by_context_window agent cs)
              ≡ with_window agent w cs)
  unfolding order_candidates_by_context_window
  order_candidates_by_context_window_lem agent [] = (refl, λ w. refl)
  order_candidates_by_context_window_lem agent (c ∷ []) = (refl, λ w. refl)
  order_candidates_by_context_window_lem agent (c ∷ d ∷ cs) =
      (sort_ranked-descending agent (c ∷ d ∷ cs), λ w. with_window-sort agent w (c ∷ d ∷ cs))
