-- ===== src/Providers/Fallback/Trail.antt =====
-- What happened before the loop of pkg/providers/fallback.go comes to a candidate: for each attempt
-- that is recorded, the test of the cooldown and the call of the provider with its reply.
use suprclaw_engine.Prelude.{
  ℕ, ◌≡◌, refl, Bool, true, false, List, [], some, ◌⊎◌, inl, inr, Bool-cases, Option-cases,
}
use suprclaw_engine.Prelude.Unicode.{Unicode}
use suprclaw_engine.Providers.Failover.{Error, FailoverError, is_retriable}
use suprclaw_engine.Providers.Cooldown.{
  CooldownTracker, is_available, cooldown_remaining, mark_success, mark_failure, time_sub,
}
use suprclaw_engine.Providers.Candidates.{FallbackCandidate}
use suprclaw_engine.Providers.ErrorClassifier.{classify_error}
use suprclaw_engine.Providers.Fallback.{
  Env, FallbackAttempt, FallbackResult, ok, err, Turn, again, return, skip_attempt, attempt, add,
  failover, handle_failure, handle_error, call_provider, try_candidate,
}

module _ ⦃u : Unicode⦄ {W R : Type 0} (env : Env W R) where
  -- The environment when the test of the cooldown reads the clock, and after it.
  abbrev checked : W → W
  checked w = (env.cancelled w).1

  abbrev pub tested : W → W
  tested w = (env.now (checked w)).1

  -- The context is not cancelled, and the tracker says that the provider is available, or not.
  abbrev pub Reports : FallbackCandidate → CooldownTracker → W → Bool → Type 0
  Reports c ct w free =
      ((env.cancelled w).0 ≡ false) × (is_available ct (env.now (checked w)).0 c.provider ≡ free)

  -- The call of the provider of a candidate with its model: the reply, the tracker and the
  -- environment after the clock is read again.
  abbrev pub reply : FallbackCandidate → CooldownTracker → W → R ⊎ Error
  reply c ct w = (env.run c.provider c.model (ct, (env.now (tested w)).1)).0

  abbrev pub tracker_after : FallbackCandidate → CooldownTracker → W → CooldownTracker
  tracker_after c ct w = (env.run c.provider c.model (ct, (env.now (tested w)).1)).1

  abbrev returned : FallbackCandidate → CooldownTracker → W → W
  returned c ct w = (env.run c.provider c.model (ct, (env.now (tested w)).1)).2

  abbrev replied : FallbackCandidate → CooldownTracker → W → W
  replied c ct w = (env.now (returned c ct w)).1

  abbrev asked : FallbackCandidate → CooldownTracker → W → W
  asked c ct w = (env.cancelled (replied c ct w)).1

  abbrev elapsed : FallbackCandidate → CooldownTracker → W → ℕ
  elapsed c ct w = time_sub (env.now (returned c ct w)).0 (env.now (tested w)).0

  -- The runs of the loop from `ct₀` and `w₀` that go on: the attempts, the tracker and the
  -- environment then. A candidate is left out if the tracker has its provider in cooldown; otherwise its
  -- provider is called, and replied with an error that is classified as retriable, with which the
  -- tracker is marked.
  pub data Trail (ct₀ : CooldownTracker) (w₀ : W)
      : List FallbackAttempt → CooldownTracker → W → Type 0 where
    start : Trail ct₀ w₀ [] ct₀ w₀
    skipped :
        {attempts : List FallbackAttempt} {ct : CooldownTracker} {w : W} (c : FallbackCandidate)
        → Trail ct₀ w₀ attempts ct w
        → Reports c ct w false
        → Trail ct₀ w₀
            (add attempts
              (skip_attempt c (cooldown_remaining ct (env.now (tested w)).0 c.provider)))
            ct
            (env.now (tested w)).1
    called :
        {attempts : List FallbackAttempt} {ct : CooldownTracker} {w : W} (c : FallbackCandidate)
        (e : Error) (f : FailoverError)
        → Trail ct₀ w₀ attempts ct w
        → Reports c ct w true
        → reply c ct w ≡ inr e
        → (env.cancelled (replied c ct w)).0 ≡ false
        → classify_error e c.provider c.model ≡ some f
        → is_retriable f.reason ≡ true
        → Trail ct₀ w₀
            (add attempts (attempt c (failover f) (some f.reason) (elapsed c ct w)))
            (mark_failure (tracker_after c ct w) (env.now (asked c ct w)).0 c.provider f.reason)
            (env.now (asked c ct w)).1

  -- The attempts are those of a run of the loop, after which the provider of the candidate of the
  -- result was available, was called, and replied with the response of the result; the tracker is
  -- marked with that success.
  abbrev pub Answered : CooldownTracker → W → FallbackResult R → CooldownTracker → Type 0
  Answered ct₀ w₀ r ct' =
      let c : FallbackCandidate = record { provider = r.provider; model = r.model } in
      (ct : CooldownTracker) × (w : W) × Trail ct₀ w₀ r.attempts ct w
      × Reports c ct w true
      × (reply c ct w ≡ inl r.response)
      × (ct' ≡ mark_success (tracker_after c ct w) r.provider)

  -- What a turn of the loop adds to the run.
  abbrev pub TurnTrail : CooldownTracker → W → Turn W R → Type 0
  TurnTrail ct₀ w₀ (again attempts ct w) = Trail ct₀ w₀ attempts ct w
  TurnTrail ct₀ w₀ (return (ok r ct w)) = Answered ct₀ w₀ r ct
  TurnTrail ct₀ w₀ (return (err e ct w)) = Unit

  module _ (ct₀ : CooldownTracker) (w₀ : W) (c : FallbackCandidate)
      (attempts : List FallbackAttempt) (ct : CooldownTracker) (w : W)
      (trail : Trail ct₀ w₀ attempts ct w) where
    handle_failure-TurnTrail :
        (e : Error) (f : FailoverError)
        → Reports c ct w true
        → reply c ct w ≡ inr e
        → (env.cancelled (replied c ct w)).0 ≡ false
        → classify_error e c.provider c.model ≡ some f
        → TurnTrail ct₀ w₀ (
            handle_failure env c attempts f
              (elapsed c ct w)
              (tracker_after c ct w)
              (env.cancelled (replied c ct w)).1)
    unfolding handle_failure
    handle_failure-TurnTrail e f free said live found = elim (Bool-cases (is_retriable f.reason)) [
      | inl yes_ ↦ rw yes_ (called c e f trail free said live found yes_)
      | inr no_ ↦ rw no_ tt
    ]

    handle_error-TurnTrail :
        (e : Error)
        → Reports c ct w true
        → reply c ct w ≡ inr e
        → TurnTrail ct₀ w₀
            (handle_error env c attempts e (elapsed c ct w) (tracker_after c ct w) (replied c ct w))
    unfolding handle_error
    handle_error-TurnTrail e free said = elim (Bool-cases (env.cancelled (replied c ct w)).0) [
      | inl stop ↦ rw (stop, handle_error) tt
      | inr live ↦ elim (Option-cases (classify_error e c.provider c.model)) [
        | inl nothing ↦ rw (live, nothing, handle_error) tt
        | inr (f, found) ↦
            rw (live, found, handle_error) (handle_failure-TurnTrail e f free said live found)
      ]
    ]

    call_provider-TurnTrail :
        Reports c ct w true → TurnTrail ct₀ w₀ (call_provider env c attempts ct (tested w))
    unfolding call_provider
    call_provider-TurnTrail free = go (reply c ct w) refl
      where
        go :
            (r : R ⊎ Error)
            → reply c ct w ≡ r
            → TurnTrail ct₀ w₀ (call_provider env c attempts ct (tested w))
        go (inl resp) said = rw (said, call_provider) (ct, w, trail, free, said, refl)
        go (inr e) said = rw (said, call_provider) (handle_error-TurnTrail e free said)

    pub try_candidate-TurnTrail : TurnTrail ct₀ w₀ (try_candidate env c attempts ct w)
    unfolding try_candidate
    try_candidate-TurnTrail = elim (Bool-cases (env.cancelled w).0) [
      | inl stop ↦ rw (stop, try_candidate) tt
      | inr go ↦ elim (Bool-cases (is_available ct (env.now (env.cancelled w).1).0 c.provider)) [
        | inl free ↦ rw (go, free, try_candidate) (call_provider-TurnTrail (go, free))
        | inr busy ↦ rw (go, busy, try_candidate) (skipped c trail (go, busy))
      ]
    ]
