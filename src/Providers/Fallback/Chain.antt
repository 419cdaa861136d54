-- ===== src/Providers/Fallback/Chain.antt =====
-- The whole chain: which candidates were tried when it returns.
use suprclaw_engine.Prelude.{
  ℕ, ◌≡◌, refl, sym, ◌∙◌, ap, subst, true, false, List, [], ◌∷◌, ◌++◌, map, all, arith,
}
use mathlib.Core.List.{append-nil}
use suprclaw_engine.Prelude.Unicode.{Unicode}
use suprclaw_engine.Providers.Failover.{FailoverError, is_retriable}
use suprclaw_engine.Providers.Cooldown.{CooldownTracker, is_available}
use suprclaw_engine.Providers.Candidates.{FallbackCandidate}
use suprclaw_engine.Providers.Fallback.{
  Env, FallbackAttempt, FallbackResult, no_candidates, aborted, unclassified, failed, exhausted,
  Outcome, ok, err, Turn, again, return, add, try_candidate, execute_from, execute,
}
use suprclaw_engine.Providers.Fallback.Laws.{
  target, winner, is_retried, TurnSpec, try_candidate_lem,
}
use suprclaw_engine.Providers.Fallback.Trail.{
  Trail, start, Answered, TurnTrail, try_candidate-TurnTrail,
}

all-add :
    (xs : List FallbackAttempt) (a : FallbackAttempt)
    → all is_retried xs ≡ true
    → is_retried a ≡ true
    → all is_retried (add xs a) ≡ true
all-add [] a h k = ground arith
all-add (x ∷ xs) a h k = ground (arith, all-add xs a)

targets-add :
    (xs : List FallbackAttempt) (a : FallbackAttempt) (rest : List FallbackCandidate)
    → map target (add xs a) ++ rest ≡ map target xs ++ (target a ∷ rest)
targets-add [] a rest = refl
targets-add (x ∷ xs) a rest = ap (λ l. target x ∷ l) (targets-add xs a rest)

-- What an outcome says when the candidates are `before`, which have been tried, and others.
abbrev OutcomeSpec : ⦃u : Unicode⦄ → {W R : Type 0} → List FallbackCandidate → Outcome W R → Type 0
OutcomeSpec candidates (ok r ct w) =
    (rest : List FallbackCandidate) × (candidates ≡ map target r.attempts ++ (winner r ∷ rest))
    × (all is_retried r.attempts ≡ true)
    × ((now : ℕ) → is_available ct now r.provider ≡ true)
OutcomeSpec candidates (err (exhausted attempts) ct w) =
    (map target attempts ≡ candidates) × (all is_retried attempts ≡ true)
OutcomeSpec candidates (err (failed f) ct w) = is_retriable f.reason ≡ false
OutcomeSpec candidates (err (unclassified p m e) ct w) = Unit
OutcomeSpec candidates (err aborted ct w) = Unit
OutcomeSpec candidates (err no_candidates ct w) = candidates ≡ []

module _ ⦃u : Unicode⦄ {W R : Type 0} (env : Env W R) where
  turn_outcome :
      (c : FallbackCandidate) (before rest : List FallbackCandidate)
      (attempts : List FallbackAttempt) (o : Outcome W R)
      → map target attempts ≡ before
      → all is_retried attempts ≡ true
      → TurnSpec c attempts (return o)
      → OutcomeSpec (before ++ (c ∷ rest)) o
  turn_outcome c before rest attempts (ok r ct w) b h (same, won, free) =
      let provider : r.provider ≡ c.provider = ap (λ (x : FallbackCandidate). x.provider) won in
      let tried : map target r.attempts ≡ before = ap (map target) same ∙ b in
      let found : map target r.attempts ++ (winner r ∷ rest) ≡ before ++ (c ∷ rest) =
        ap (λ l. l ++ (winner r ∷ rest)) tried ∙ ap (λ x. before ++ (x ∷ rest)) won in
      (
        rest,
        sym found,
        ap (all is_retried) same ∙ h,
        λ now. ap (is_available ct now) provider ∙ free now,
      )
  turn_outcome c before rest attempts (err (failed f) ct w) b h s = s.2
  turn_outcome c before rest attempts (err (unclassified p m e) ct w) b h s = tt
  turn_outcome c before rest attempts (err aborted ct w) b h s = tt
  turn_outcome c before rest attempts (err no_candidates ct w) b h s = absurd s
  turn_outcome c before rest attempts (err (exhausted tried) ct w) b h s = absurd s

  execute_from_lem :
      (candidates : List FallbackCandidate) (attempts : List FallbackAttempt) (ct : CooldownTracker)
      (w : W)
      → all is_retried attempts ≡ true
      → OutcomeSpec (map target attempts ++ candidates) (execute_from env candidates attempts ct w)
  unfolding execute_from
  execute_from_lem [] attempts ct w h = (sym (append-nil (map target attempts)), h)
  execute_from_lem (c ∷ rest) attempts ct w h =
      go (try_candidate env c attempts ct w) refl (try_candidate_lem env c attempts ct w)
        (execute_from_lem rest)
    where
      go :
          (t : Turn W R)
          → try_candidate env c attempts ct w ≡ t
          → TurnSpec c attempts t
          → ((attempts' : List FallbackAttempt) (ct' : CooldownTracker) (w' : W)
              → all is_retried attempts' ≡ true
              → OutcomeSpec (map target attempts' ++ rest) (execute_from env rest attempts' ct' w'))
          → OutcomeSpec
              (map target attempts ++ (c ∷ rest))
              (execute_from env (c ∷ rest) attempts ct w)
      go (again attempts' ct' w') e (a, added, same, retried) ih =
          let moved : map target attempts' ++ rest ≡ map target attempts ++ (c ∷ rest) =
            ap (λ l. map target l ++ rest) added
            ∙ targets-add attempts a rest
            ∙ ap (λ x. map target attempts ++ (x ∷ rest)) same in
          let fair : all is_retried attempts' ≡ true =
            ap (all is_retried) added ∙ all-add attempts a h retried in
          rw (e, execute_from)
            (subst (λ l. OutcomeSpec l (execute_from env rest attempts' ct' w')) moved
              (ih attempts' ct' w' fair))
      go (return o) e s ih = rw (e, execute_from) (turn_outcome c _ rest attempts o refl h s)

  execute_lem :
      (candidates : List FallbackCandidate) (ct : CooldownTracker) (w : W)
      → OutcomeSpec candidates (execute env candidates ct w)
  unfolding execute
  execute_lem [] ct w = refl
  execute_lem (c ∷ rest) ct w = execute_from_lem (c ∷ rest) [] ct w refl

  -- What an outcome says of the run of the loop.
  abbrev OutcomeTrail : CooldownTracker → W → Outcome W R → Type 0
  OutcomeTrail ct₀ w₀ (ok r ct w) = Answered env ct₀ w₀ r ct
  OutcomeTrail ct₀ w₀ (err (exhausted attempts) ct w) = Trail env ct₀ w₀ attempts ct w
  OutcomeTrail ct₀ w₀ (err (failed f) ct w) = Unit
  OutcomeTrail ct₀ w₀ (err (unclassified p m e) ct w) = Unit
  OutcomeTrail ct₀ w₀ (err aborted ct w) = Unit
  OutcomeTrail ct₀ w₀ (err no_candidates ct w) = Unit

  turn-OutcomeTrail :
      (ct₀ : CooldownTracker) (w₀ : W) (c : FallbackCandidate) (attempts : List FallbackAttempt)
      (o : Outcome W R)
      → TurnSpec c attempts (return o)
      → TurnTrail env ct₀ w₀ (return o)
      → OutcomeTrail ct₀ w₀ o
  turn-OutcomeTrail ct₀ w₀ c attempts (ok r ct w) s t = t
  turn-OutcomeTrail ct₀ w₀ c attempts (err (failed f) ct w) s t = tt
  turn-OutcomeTrail ct₀ w₀ c attempts (err (unclassified p m e) ct w) s t = tt
  turn-OutcomeTrail ct₀ w₀ c attempts (err aborted ct w) s t = tt
  turn-OutcomeTrail ct₀ w₀ c attempts (err no_candidates ct w) s t = tt
  turn-OutcomeTrail ct₀ w₀ c attempts (err (exhausted tried) ct w) s t = absurd s

  execute_from-OutcomeTrail :
      (ct₀ : CooldownTracker) (w₀ : W) (candidates : List FallbackCandidate)
      (attempts : List FallbackAttempt) (ct : CooldownTracker) (w : W)
      → Trail env ct₀ w₀ attempts ct w
      → OutcomeTrail ct₀ w₀ (execute_from env candidates attempts ct w)
  unfolding execute_from
  execute_from-OutcomeTrail ct₀ w₀ [] attempts ct w trail = trail
  execute_from-OutcomeTrail ct₀ w₀ (c ∷ rest) attempts ct w trail =
      go (try_candidate env c attempts ct w) refl (try_candidate_lem env c attempts ct w)
        (try_candidate-TurnTrail env ct₀ w₀ c attempts ct w trail)
        (execute_from-OutcomeTrail ct₀ w₀ rest)
    where
      go :
          (t : Turn W R)
          → try_candidate env c attempts ct w ≡ t
          → TurnSpec c attempts t
          → TurnTrail env ct₀ w₀ t
          → ((attempts' : List FallbackAttempt) (ct' : CooldownTracker) (w' : W)
              → Trail env ct₀ w₀ attempts' ct' w'
              → OutcomeTrail ct₀ w₀ (execute_from env rest attempts' ct' w'))
          → OutcomeTrail ct₀ w₀ (execute_from env (c ∷ rest) attempts ct w)
      go (again attempts' ct' w') e s t ih = rw (e, execute_from) (ih attempts' ct' w' t)
      go (return o) e s t ih = rw (e, execute_from) (turn-OutcomeTrail ct₀ w₀ c attempts o s t)

  execute-OutcomeTrail :
      (candidates : List FallbackCandidate) (ct : CooldownTracker) (w : W)
      → OutcomeTrail ct w (execute env candidates ct w)
  unfolding execute
  execute-OutcomeTrail [] ct w = tt
  execute-OutcomeTrail (c ∷ rest) ct w = execute_from-OutcomeTrail ct w (c ∷ rest) [] ct w start

  -- A chain that succeeds returns the answer of the first candidate that is not left out: the
  -- attempts before it are those of the candidates in front of it, in order and once each. Each of
  -- these was left out because the tracker had its provider in cooldown at that time, or was called
  -- and replied with an error that is classified as retriable. The response is the reply of the
  -- provider of the result, called with its model when the tracker had it available; the tracker is
  -- marked with the success, and has the provider available from then on.
  pub execute-ok :
      (candidates : List FallbackCandidate) (ct ct' : CooldownTracker) (w w' : W)
      (r : FallbackResult R)
      → execute env candidates ct w ≡ ok r ct' w'
      → ((rest : List FallbackCandidate) × (candidates ≡ map target r.attempts ++ (winner r ∷ rest))
          × (all is_retried r.attempts ≡ true)
          × ((now : ℕ) → is_available ct' now r.provider ≡ true))
        × Answered env ct w r ct'
  execute-ok candidates ct ct' w w' r h = (
    subst (OutcomeSpec candidates) h (execute_lem candidates ct w),
    subst (OutcomeTrail ct w) h (execute-OutcomeTrail candidates ct w),
  )

  -- A chain that is exhausted has an attempt for each candidate, in order and once each. Each was left
  -- out because the tracker had its provider in cooldown at that time, or was called and replied with an
  -- error that is classified as retriable, with which the tracker was marked.
  pub execute-exhausted :
      (candidates : List FallbackCandidate) (ct ct' : CooldownTracker) (w w' : W)
      (attempts : List FallbackAttempt)
      → execute env candidates ct w ≡ err (exhausted attempts) ct' w'
      → (map target attempts ≡ candidates)
        × (all is_retried attempts ≡ true)
        × Trail env ct w attempts ct' w'
  execute-exhausted candidates ct ct' w w' attempts h =
      let (same, retried) = subst (OutcomeSpec candidates) h (execute_lem candidates ct w) in
      (same, retried, subst (OutcomeTrail ct w) h (execute-OutcomeTrail candidates ct w))

  -- A chain that stops at a classified error stops at one that is not retriable.
  execute-failed :
      (candidates : List FallbackCandidate) (ct ct' : CooldownTracker) (w w' : W)
      (f : FailoverError)
      → execute env candidates ct w ≡ err (failed f) ct' w'
      → is_retriable f.reason ≡ false
  execute-failed candidates ct ct' w w' f h =
      subst (OutcomeSpec candidates) h (execute_lem candidates ct w)
