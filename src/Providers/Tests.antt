-- ===== src/Providers/Tests.antt =====
-- Runs of the provider code, and its theorems at concrete data.
use suprclaw_engine.Prelude.{
  ℕ, ◌≡◌, ◌+◌, ◌*◌, ◌⊎◌, inl, inr, refl, Bool, true, false, List, [], ◌∷◌, ◌++◌, Option, none, some,
  arith, list_eq, nat_eq, map, all, All, if◌then◌else◌, ◌==◌,
}
use suprclaw_engine.Prelude.Text.{
  Text, codes, trim_left, trim_right, has_prefix, cut, contains_text,
}
use suprclaw_engine.Prelude.Unicode.{to_lower, trim_space}
use suprclaw_engine.Prelude.Unicode.Ascii.{ascii}
use suprclaw_engine.Prelude.Regexp.{match_string, find_submatch}
use suprclaw_engine.Providers.Failover.{
  rate_limit, billing, timeout, auth, format, Error, other, FailoverError, reason_discrete,
}
use suprclaw_engine.Providers.Cooldown.{
  CooldownTracker, hour, calculate_standard_cooldown, calculate_billing_cooldown,
  new_cooldown_tracker, mark_failure, mark_success, is_available, cooldown_remaining,
}
use suprclaw_engine.Providers.Cooldown.Recovery.{
  Call, failure, success, perform_all, is_available_in_a_day,
}
use suprclaw_engine.Providers.ErrorClassifier.{
  classify_error, classify_message, classify_by_message, classify_by_status, matches_any,
  extract_http_status, is_image_dimension_error, is_image_size_error,
}
use suprclaw_engine.Providers.ErrorClassifier.Laws.{reason_and_status}
use suprclaw_engine.Providers.ModelRef.{ModelRef, normalize_provider, parse_model_ref, model_key}
use suprclaw_engine.Providers.Candidates.{
  ModelConfig, FallbackCandidate, reference, resolve_candidates_with_lookup,
}
use suprclaw_engine.Prelude.Distinct.{distinct}
use suprclaw_engine.Providers.Candidates.Laws.{keys, Covers, resolve_candidates_with_lookup_lem}
use suprclaw_engine.Providers.Fallback.{
  Env, FallbackAttempt, FallbackResult, Outcome, ok, err, exhausted, execute, FallbackAttempt,
}
use suprclaw_engine.Providers.Fallback.Laws.{target, winner, is_retried}
use suprclaw_engine.Providers.Fallback.Trail.{Trail, Answered}
use suprclaw_engine.Providers.Fallback.Chain.{execute-ok, execute-exhausted}

abbrev gpt : Text
gpt = codes "openai"

failed_once : CooldownTracker
unfolding mark_failure new_cooldown_tracker calculate_standard_cooldown calculate_billing_cooldown
    reason_discrete list_eq nat_eq
failed_once = mark_failure new_cooldown_tracker 1000 gpt rate_limit

remaining_runs : cooldown_remaining failed_once 2000 gpt ≡ 59_999_999_000
unfolding cooldown_remaining failed_once
remaining_runs = refl

abbrev calls : List Call
calls = failure 1000 gpt billing ∷ failure 3000 gpt timeout ∷ success (codes "groq") ∷ []

is_available_in_a_day_example :
    is_available (perform_all calls new_cooldown_tracker) (3000 + 24 * hour) gpt ≡ true
is_available_in_a_day_example =
    is_available_in_a_day calls 3000 (3000 + 24 * hour) gpt (refl, (refl, (refl, tt))) (omega arith)

classify : Error → Text → Text → Option FailoverError
unfolding classify_error classify_message classify_by_message classify_by_status matches_any
    match_string find_submatch contains_text has_prefix extract_http_status is_image_dimension_error
    is_image_size_error to_lower list_eq nat_eq
classify = classify_error

abbrev limited : Error
limited = other (codes "API error, Status: 429 slow down")

abbrev limited_error : FailoverError
limited_error = record {
  reason = rate_limit;
  provider = gpt;
  model = codes "m";
  status = 429;
  wrapped = limited;
}

classify_runs :
    (classify limited gpt (codes "m") ≡ some limited_error)
    × (reason_and_status (classify (other (codes "HTTP/1.1 503 down")) gpt (codes "m"))
        ≡ some (timeout, 503))
    × (reason_and_status (classify (other (codes "Invalid API key")) gpt (codes "m"))
        ≡ some (auth, 0))
    × (reason_and_status (classify (other (codes "image exceeds 5 MB")) gpt (codes "m"))
        ≡ some (format, 0))
    × (classify (other (codes "boom")) gpt (codes "m") ≡ none)
unfolding classify
classify_runs = (refl, refl, refl, refl, refl)

abbrev opus : ModelRef
opus = record { provider = codes "anthropic"; model = codes "opus" }

parse_runs : parse_model_ref (codes "Claude / opus ") gpt ≡ some opus
unfolding parse_model_ref normalize_provider cut trim_space trim_left trim_right to_lower list_eq
    nat_eq
parse_runs = refl

abbrev models : ModelConfig
models = record {
  primary = codes "claude/opus";
  fallbacks = codes "anthropic/OPUS" ∷ codes "gpt-5" ∷ [];
}

abbrev no_lookup : Text → Option Text
no_lookup raw = none

resolve_runs :
    resolve_candidates_with_lookup no_lookup gpt models
    ≡ record { provider = codes "anthropic"; model = codes "opus" }
      ∷ record { provider = gpt; model = codes "gpt-5" }
      ∷ []
unfolding resolve_candidates_with_lookup model_key parse_runs parse_model_ref normalize_provider cut
    trim_space trim_left trim_right to_lower list_eq nat_eq
resolve_runs = refl

resolve_candidates_with_lookup_lem_example :
    let cs = resolve_candidates_with_lookup no_lookup gpt models in
    (distinct (keys cs) ≡ true)
    × All
        (λ (raw : Text). Covers cs (reference no_lookup gpt raw))
        (models.primary ∷ models.fallbacks)
resolve_candidates_with_lookup_lem_example = resolve_candidates_with_lookup_lem no_lookup gpt models

-- An environment whose provider `good` answers 7, while any other is rate limited or sent a bad request.
abbrev reply : Text → ℕ ⊎ Error
reply provider =
    if provider == codes "good"
    then inl 7
    else if provider == codes "bad"
    then inr (other (codes "status 400"))
    else inr limited

abbrev env : Env ℕ ℕ
env = record {
  cancelled = λ w. (false, w);
  now = λ w. (w, w + 1);
  run = λ provider model (ct, w). (reply provider, ct, w + 10);
}

abbrev to : Text → FallbackCandidate
to provider = record { provider = provider; model = codes "m" }

run : List FallbackCandidate → Outcome ℕ ℕ
unfolding execute is_available cooldown_remaining mark_success failed_once classify
run candidates = execute env candidates new_cooldown_tracker 100

abbrev skipped_first : List FallbackCandidate
skipped_first = to (codes "slow") ∷ to (codes "slow") ∷ to (codes "good") ∷ to gpt ∷ []

skip_runs : Option (ℕ × Text × List Bool)
unfolding run
skip_runs = elim (run skipped_first) [
  | ok r ct w ↦ some (r.response, r.provider, map (λ (a : FallbackAttempt). a.skipped) r.attempts)
  | err e ct w ↦ none
]

-- The second candidate is skipped, since the first one has put its provider into cooldown.
skip_runs_lem : skip_runs ≡ some (7, codes "good", false ∷ true ∷ [])
unfolding skip_runs
skip_runs_lem = refl

abbrev result_of : Outcome ℕ ℕ → FallbackResult ℕ
result_of (ok r ct w) = r
result_of (err e ct w) = record { response = 0; provider = []; model = []; attempts = [] }

abbrev tried_of : Outcome ℕ ℕ → List FallbackAttempt
tried_of (err (exhausted attempts) ct w) = attempts
tried_of _ = []

abbrev tracker_of : Outcome ℕ ℕ → CooldownTracker
tracker_of (ok r ct w) = ct
tracker_of (err e ct w) = ct

abbrev world_of : Outcome ℕ ℕ → ℕ
world_of (ok r ct w) = w
world_of (err e ct w) = w

execute-ok_example :
    let o = run skipped_first in
    let r = result_of o in
    ((rest : List FallbackCandidate) × (skipped_first ≡ map target r.attempts ++ (winner r ∷ rest))
      × (all is_retried r.attempts ≡ true)
      × ((now : ℕ) → is_available (tracker_of o) now r.provider ≡ true))
    × Answered env new_cooldown_tracker 100 r (tracker_of o)
unfolding run
execute-ok_example =
    execute-ok env skipped_first new_cooldown_tracker (tracker_of (run skipped_first)) 100
      (world_of (run skipped_first)) (result_of (run skipped_first)) refl

abbrev all_slow : List FallbackCandidate
all_slow = to (codes "slow") ∷ to (codes "slow") ∷ to (codes "groq") ∷ []

execute-exhausted_example :
    (map target (tried_of (run all_slow)) ≡ all_slow)
    × (all is_retried (tried_of (run all_slow)) ≡ true)
    × Trail env new_cooldown_tracker 100
        (tried_of (run all_slow))
        (tracker_of (run all_slow))
        (world_of (run all_slow))
unfolding run
execute-exhausted_example =
    execute-exhausted env all_slow new_cooldown_tracker (tracker_of (run all_slow)) 100
      (world_of (run all_slow)) (tried_of (run all_slow)) refl
