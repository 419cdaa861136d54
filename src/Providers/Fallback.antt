-- ===== src/Providers/Fallback.antt =====
-- pkg/providers/fallback.go: the fallback chain. The provider call, the clock and the context are not
-- the chain's: they are the operations of `Env` over a state of their own. A call may also change the
-- tracker, as requests that run meanwhile do.
pub mod Laws
pub mod Trail
pub mod Chain
use suprclaw_engine.Prelude.{
  ℕ, ◌-◌, Bool, true, false, ◌||◌, not, List, [], ◌∷◌, ◌++◌, Option, none, some, if◌then◌else◌, ◌⊎◌,
  inl, inr,
}
use suprclaw_engine.Prelude.Text.{Text, codes}
use suprclaw_engine.Prelude.Unicode.{Unicode, to_lower}
use suprclaw_engine.Providers.Failover.{
  FailoverReason, rate_limit, format, Error, canceled, deadline_exceeded, other, FailoverError,
  is_retriable,
}
use suprclaw_engine.Providers.Cooldown.{
  CooldownTracker, is_available, cooldown_remaining, mark_success, mark_failure, time_sub,
}
use suprclaw_engine.Providers.Candidates.{FallbackCandidate}
use suprclaw_engine.Providers.ErrorClassifier.{
  classify_error, is_image_dimension_error, is_image_size_error,
}

-- What the operations that the source calls may do: `ctx.Err() == context.Canceled`, a reading of the
-- clock, and `run`.
pub record Env (W R : Type 0) : Type 0 where
  pub cancelled : W → Bool × W
  pub now : W → ℕ × W
  pub run : Text → Text → CooldownTracker × W → (R ⊎ Error) × CooldownTracker × W

-- The error of an attempt.
pub data AttemptError : Type 0 where
  in_cooldown : Text → ℕ → AttemptError
  plain : Error → AttemptError
  failover : FailoverError → AttemptError

pub record FallbackAttempt : Type 0 where
  pub provider : Text
  pub model : Text
  pub error : AttemptError
  pub reason : Option FailoverReason
  pub duration : ℕ
  pub skipped : Bool

pub record FallbackResult (R : Type 0) : Type 0 where
  pub response : R
  pub provider : Text
  pub model : Text
  pub attempts : List FallbackAttempt

pub data ChainError : Type 0 where
  no_candidates aborted : ChainError
  unclassified : Text → Text → Error → ChainError
  failed : FailoverError → ChainError
  exhausted : List FallbackAttempt → ChainError

-- A result or an error, with the tracker and the state of the environment after the call.
pub data Outcome (W R : Type 0) : Type 0 where
  ok : FallbackResult R → CooldownTracker → W → Outcome W R
  err : ChainError → CooldownTracker → W → Outcome W R

abbrev pub skip_attempt : FallbackCandidate → ℕ → FallbackAttempt
skip_attempt c remaining = record {
  provider = c.provider;
  model = c.model;
  error = in_cooldown c.provider remaining;
  reason = some rate_limit;
  duration = 0;
  skipped = true;
}

abbrev pub attempt : FallbackCandidate → AttemptError → Option FailoverReason → ℕ → FallbackAttempt
attempt c error reason elapsed = record {
  provider = c.provider;
  model = c.model;
  error = error;
  reason = reason;
  duration = elapsed;
  skipped = false;
}

abbrev pub add {ℓ} : {A : Type ℓ} → List A → A → List A
add xs x = xs ++ (x ∷ [])

-- `err.Error()`.
abbrev pub error_text : Error → Text
error_text canceled = codes "context canceled"
error_text deadline_exceeded = codes "context deadline exceeded"
error_text (other text) = text

abbrev pub is_image_error : ⦃u : Unicode⦄ → Error → Bool
is_image_error e =
    let msg = to_lower (error_text e) in is_image_dimension_error msg || is_image_size_error msg

-- What the body of a loop over the candidates does: it goes on, with the attempts so far, or returns.
pub data Turn (W R : Type 0) : Type 0 where
  again : List FallbackAttempt → CooldownTracker → W → Turn W R
  return : Outcome W R → Turn W R

module _ ⦃u : Unicode⦄ {W R : Type 0} (env : Env W R) where
  -- After a classified error.
  unfoldable pub handle_failure :
      FallbackCandidate → List FallbackAttempt → FailoverError → ℕ → CooldownTracker → W → Turn W R
  handle_failure c attempts fail elapsed ct w =
      let (now, w1) = env.now w in
      if is_retriable fail.reason
      then again (add attempts (attempt c (failover fail) (some fail.reason) elapsed))
          (mark_failure ct now c.provider fail.reason) w1
      else return (err (failed fail) ct w)

  -- After an error of `run`.
  unfoldable pub handle_error :
      FallbackCandidate → List FallbackAttempt → Error → ℕ → CooldownTracker → W → Turn W R
  unfolding handle_failure
  handle_error c attempts e elapsed ct w =
      let (abort, w1) = env.cancelled w in
      if abort then return (err aborted ct w1) else elim (classify_error e c.provider c.model) [
        | none ↦ return (err (unclassified c.provider c.model e) ct w1)
        | some fail ↦ handle_failure c attempts fail elapsed ct w1
      ]

  -- The call of `run`, between two readings of the clock.
  unfoldable pub call_provider :
      FallbackCandidate → List FallbackAttempt → CooldownTracker → W → Turn W R
  unfolding handle_error
  call_provider c attempts ct w =
      let (start, w1) = env.now w in
      let (reply, ct', w2) = env.run c.provider c.model (ct, w1) in
      let (end, w3) = env.now w2 in
      elim reply [
        | inl resp ↦ return (
            ok
              (record {
                response = resp;
                provider = c.provider;
                model = c.model;
                attempts = attempts;
              })
              (mark_success ct' c.provider) w3)
        | inr e ↦ handle_error c attempts e (time_sub end start) ct' w3
      ]

  -- The body of the loop of `Execute`.
  unfoldable pub try_candidate :
      FallbackCandidate → List FallbackAttempt → CooldownTracker → W → Turn W R
  unfolding call_provider
  try_candidate c attempts ct w =
      let (abort, w1) = env.cancelled w in
      let (now, w2) = env.now w1 in
      let (now', w3) = env.now w2 in
      if abort
      then return (err aborted ct w1)
      else if is_available ct now c.provider
      then call_provider c attempts ct w2
      else again (add attempts (skip_attempt c (cooldown_remaining ct now' c.provider))) ct w3

  -- The loop. Its test for the last candidate returns what is returned behind the loop.
  unfoldable pub execute_from :
      List FallbackCandidate → List FallbackAttempt → CooldownTracker → W → Outcome W R
  unfolding try_candidate
  execute_from [] attempts ct w = err (exhausted attempts) ct w
  execute_from (c ∷ rest) attempts ct w = elim (try_candidate c attempts ct w) [
    | again attempts' ct' w' ↦ execute_from rest attempts' ct' w'
    | return outcome ↦ outcome
  ]

  unfoldable pub execute : List FallbackCandidate → CooldownTracker → W → Outcome W R
  unfolding execute_from
  execute [] ct w = err no_candidates ct w
  execute (c ∷ rest) ct w = execute_from (c ∷ rest) [] ct w

  -- After an error of `run` in `ExecuteImage`.
  unfoldable pub handle_image_error :
      FallbackCandidate → List FallbackAttempt → Error → ℕ → CooldownTracker → W → Turn W R
  handle_image_error c attempts e elapsed ct w =
      let (abort, w1) = env.cancelled w in
      if abort
      then return (err aborted ct w1)
      else if is_image_error e
      then return (
          err
            (failed (record {
              reason = format;
              provider = c.provider;
              model = c.model;
              status = 0;
              wrapped = e;
            }))
            ct w1)
      else again (add attempts (attempt c (plain e) none elapsed)) ct w1

  -- The body of the loop of `ExecuteImage`, which leaves the tracker alone.
  unfoldable pub try_image_candidate :
      FallbackCandidate → List FallbackAttempt → CooldownTracker → W → Turn W R
  unfolding handle_image_error
  try_image_candidate c attempts ct w =
      let (abort, w1) = env.cancelled w in
      let (start, w2) = env.now w1 in
      let (reply, ct', w3) = env.run c.provider c.model (ct, w2) in
      let (end, w4) = env.now w3 in
      if abort then return (err aborted ct w1) else elim reply [
        | inl resp ↦ return (
            ok
              (record {
                response = resp;
                provider = c.provider;
                model = c.model;
                attempts = attempts;
              })
              ct' w4)
        | inr e ↦ handle_image_error c attempts e (time_sub end start) ct' w4
      ]

  unfoldable pub execute_image_from :
      List FallbackCandidate → List FallbackAttempt → CooldownTracker → W → Outcome W R
  unfolding try_image_candidate
  execute_image_from [] attempts ct w = err (exhausted attempts) ct w
  execute_image_from (c ∷ rest) attempts ct w = elim (try_image_candidate c attempts ct w) [
    | again attempts' ct' w' ↦ execute_image_from rest attempts' ct' w'
    | return outcome ↦ outcome
  ]

  unfoldable pub execute_image : List FallbackCandidate → CooldownTracker → W → Outcome W R
  unfolding execute_image_from
  execute_image [] ct w = err no_candidates ct w
  execute_image (c ∷ rest) ct w = execute_image_from (c ∷ rest) [] ct w
