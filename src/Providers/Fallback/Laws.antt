-- ===== src/Providers/Fallback/Laws.antt =====
-- What the fallback chain returns, for every environment.
use suprclaw_engine.Prelude.{
  ℕ, ◌≡◌, refl, ◌∙◌, Bool, true, false, List, Option, none, some, ◌⊎◌, inl, inr, Bool-cases,
  Option-cases, ==_self, list_eq, nat_eq,
}
use suprclaw_engine.Prelude.Text.{Text}
use suprclaw_engine.Prelude.Unicode.{Unicode}
use suprclaw_engine.Providers.Failover.{
  FailoverReason, rate_limit, Error, FailoverError, is_retriable,
}
use suprclaw_engine.Providers.Cooldown.{CooldownTracker, is_available, mark_success}
use suprclaw_engine.Providers.Cooldown.Laws.{mark_success-is_available}
use suprclaw_engine.Providers.Candidates.{FallbackCandidate}
use suprclaw_engine.Providers.ErrorClassifier.{classify_error}
use suprclaw_engine.Providers.ErrorClassifier.Laws.{classify_error_sound}
use suprclaw_engine.Providers.Fallback.{
  Env, FallbackAttempt, FallbackResult, no_candidates, aborted, unclassified, failed, exhausted, ok,
  err, Turn, again, return, skip_attempt, attempt, add, failover, handle_failure, handle_error,
  call_provider, try_candidate,
}

-- The candidate of an attempt, and of a result.
abbrev pub target : FallbackAttempt → FallbackCandidate
target a = record { provider = a.provider; model = a.model }

abbrev pub winner : {R : Type 0} → FallbackResult R → FallbackCandidate
winner r = record { provider = r.provider; model = r.model }

abbrev pub is_retriable_reason : Option FailoverReason → Bool
is_retriable_reason none = false
is_retriable_reason (some reason) = is_retriable reason

-- The attempt leaves the rest of the chain to be tried: it has a reason that is retriable.
abbrev pub is_retried : FallbackAttempt → Bool
is_retried a = is_retriable_reason a.reason

module _ ⦃u : Unicode⦄ {W R : Type 0} where
  -- What a turn of the loop may be, for a candidate and the attempts before it.
  abbrev pub TurnSpec : FallbackCandidate → List FallbackAttempt → Turn W R → Type 0
  TurnSpec c attempts (again attempts' ct w) =
      (a : FallbackAttempt) × (attempts' ≡ add attempts a) × (target a ≡ c) × (is_retried a ≡ true)
  TurnSpec c attempts (return (ok r ct w)) =
      (r.attempts ≡ attempts) × (winner r ≡ c) × ((now : ℕ) → is_available ct now c.provider ≡ true)
  TurnSpec c attempts (return (err (failed f) ct w)) =
      (f.provider ≡ c.provider) × (f.model ≡ c.model) × (is_retriable f.reason ≡ false)
  TurnSpec c attempts (return (err (unclassified p m e) ct w)) =
      (p ≡ c.provider) × (m ≡ c.model) × (classify_error e p m ≡ none)
  TurnSpec c attempts (return (err aborted ct w)) = Unit
  TurnSpec c attempts (return (err no_candidates ct w)) = ⊥
  TurnSpec c attempts (return (err (exhausted tried) ct w)) = ⊥

module _ ⦃u : Unicode⦄ {W R : Type 0} (env : Env W R) where
  handle_failure_lem :
      (c : FallbackCandidate) (attempts : List FallbackAttempt) (f : FailoverError) (elapsed : ℕ)
      (ct : CooldownTracker) (w : W)
      → f.provider ≡ c.provider
      → f.model ≡ c.model
      → TurnSpec c attempts (handle_failure env c attempts f elapsed ct w)
  unfolding handle_failure
  handle_failure_lem c attempts f elapsed ct w p m = elim (Bool-cases (is_retriable f.reason)) [
    | inl yes_ ↦ rw yes_ (attempt c (failover f) (some f.reason) elapsed, refl, refl, yes_)
    | inr no_ ↦ rw no_ (p, m, no_)
  ]

  handle_error_lem :
      (c : FallbackCandidate) (attempts : List FallbackAttempt) (e : Error) (elapsed : ℕ)
      (ct : CooldownTracker) (w : W)
      → TurnSpec c attempts (handle_error env c attempts e elapsed ct w)
  unfolding handle_error
  handle_error_lem c attempts e elapsed ct w = elim (Bool-cases (env.cancelled w).0) [
    | inl stop ↦ rw (stop, handle_error) tt
    | inr go ↦ elim (Option-cases (classify_error e c.provider c.model)) [
      | inl nothing ↦ rw (go, nothing, handle_error) (refl, refl, nothing)
      | inr (f, found) ↦
          let sound = classify_error_sound e c.provider c.model f found in
          rw (go, found, handle_error)
            (handle_failure_lem c attempts f elapsed ct (env.cancelled w).1 sound.0 sound.1)
    ]
  ]

  available_again :
      (ct : CooldownTracker) (provider : Text) (now : ℕ)
      → is_available (mark_success ct provider) now provider ≡ true
  available_again ct provider now =
      (mark_success-is_available ct now provider provider rate_limit).0 ∙ rw (==_self provider)

  call_provider_lem :
      (c : FallbackCandidate) (attempts : List FallbackAttempt) (ct : CooldownTracker) (w : W)
      → TurnSpec c attempts (call_provider env c attempts ct w)
  unfolding call_provider
  call_provider_lem c attempts ct w = go ((env.run c.provider c.model (ct, (env.now w).1)).0) refl
    where
      go :
          (reply : R ⊎ Error)
          → (env.run c.provider c.model (ct, (env.now w).1)).0 ≡ reply
          → TurnSpec c attempts (call_provider env c attempts ct w)
      go (inl resp) e = rw (e, call_provider) (refl, refl, λ now. available_again _ c.provider now)
      go (inr error) e = rw (e, call_provider) (handle_error_lem c attempts error _ _ _)

  pub try_candidate_lem :
      (c : FallbackCandidate) (attempts : List FallbackAttempt) (ct : CooldownTracker) (w : W)
      → TurnSpec c attempts (try_candidate env c attempts ct w)
  unfolding try_candidate
  try_candidate_lem c attempts ct w = elim (Bool-cases (env.cancelled w).0) [
    | inl stop ↦ rw (stop, try_candidate) tt
    | inr go ↦ elim (Bool-cases (is_available ct (env.now (env.cancelled w).1).0 c.provider)) [
      | inl free ↦
          rw (go, free, try_candidate)
            (call_provider_lem c attempts ct (env.now (env.cancelled w).1).1)
      | inr busy ↦ rw (go, busy, try_candidate) (skip_attempt c _, refl, refl, refl)
    ]
  ]
