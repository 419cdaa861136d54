-- ===== src/Providers/ErrorClassifier.antt =====
-- pkg/providers/error_classifier.go: which failover reason an error has.
pub mod Laws
use suprclaw_engine.Prelude.{
  ℕ, zero, ◌+◌, ◌-◌, ◌*◌, Bool, true, false, ◌&&◌, ◌||◌, List, [], ◌∷◌, ◌++◌, map, Option, none,
  some, if◌then◌else◌, ltb, leb, ◌==◌, nat_eq, is_nil,
}
use suprclaw_engine.Prelude.Text.{Text, codes, contains_text}
use suprclaw_engine.Prelude.Unicode.{Unicode, to_lower}
use suprclaw_engine.Prelude.Regexp.{
  Item, one, many, opt, captured, boundary, is_digit, is_space, is_any, word, one_or_more,
  find_submatch, match_string,
}
use suprclaw_engine.Providers.Failover.{
  FailoverReason, auth, rate_limit, billing, timeout, format, Error, canceled, deadline_exceeded,
  other, FailoverError,
}

pub data ErrorPattern : Type 0 where
  substr : Text → ErrorPattern
  rxp : List Item → ErrorPattern

abbrev three_digits : List Item
three_digits = captured is_digit ∷ captured is_digit ∷ captured is_digit ∷ []

abbrev exactly : Text → List Item
exactly = map (λ l. one (λ c. c == l))

abbrev optional_gap : ℕ → Bool
optional_gap c = c == b'_' || c == b' '

-- `httpStatusPatterns`: `status[:\s]+(\d{3})`, `http[/\s]+\d*\.?\d*\s+(\d{3})`, `\b([3-5]\d{2})\b`.
abbrev pub http_status_patterns : List (List Item)
http_status_patterns =
    (exactly (codes "status") ++ (one_or_more (λ c. c == b':' || is_space c) ++ three_digits))
    ∷ (exactly (codes "http")
        ++ (one_or_more (λ c. c == b'/' || is_space c)
            ++ (many is_digit
                ∷ opt (λ c. c == b'.')
                ∷ many is_digit
                ∷ (one_or_more is_space ++ three_digits))))
    ∷ (boundary
        ∷ captured (λ c. leb b'3' c && leb c b'5')
        ∷ captured is_digit
        ∷ captured is_digit
        ∷ boundary
        ∷ [])
    ∷ []

abbrev pub rate_limit_patterns : List ErrorPattern
rate_limit_patterns =
    rxp (word (codes "rate") ++ (one optional_gap ∷ word (codes "limit")))
    ∷ substr (codes "too many requests")
    ∷ substr (codes "429")
    ∷ substr (codes "exceeded your current quota")
    ∷ rxp (word (codes "exceeded") ++ (many is_any ∷ word (codes "quota")))
    ∷ rxp (word (codes "resource has been exhausted"))
    ∷ rxp (word (codes "resource") ++ (many is_any ∷ word (codes "exhausted")))
    ∷ substr (codes "resource_exhausted")
    ∷ substr (codes "quota exceeded")
    ∷ substr (codes "usage limit")
    ∷ []

abbrev pub overloaded_patterns : List ErrorPattern
overloaded_patterns =
    rxp (word (codes "overloaded_error"))
    ∷ rxp (
        word (codes "\"type\"")
        ++ (many is_space
            ∷ (word (codes ":") ++ (many is_space ∷ word (codes "\"overloaded_error\"")))))
    ∷ substr (codes "overloaded")
    ∷ []

abbrev pub timeout_patterns : List ErrorPattern
timeout_patterns =
    substr (codes "timeout")
    ∷ substr (codes "timed out")
    ∷ substr (codes "deadline exceeded")
    ∷ substr (codes "context deadline exceeded")
    ∷ []

-- `\b402\b` and its like.
abbrev bounded : Text → ErrorPattern
bounded digits = rxp (boundary ∷ (word digits ++ (boundary ∷ [])))

abbrev pub billing_patterns : List ErrorPattern
billing_patterns =
    bounded (codes "402")
    ∷ substr (codes "payment required")
    ∷ substr (codes "insufficient credits")
    ∷ substr (codes "credit balance")
    ∷ substr (codes "plans & billing")
    ∷ substr (codes "insufficient balance")
    ∷ []

abbrev pub auth_patterns : List ErrorPattern
auth_patterns =
    rxp (
      word (codes "invalid")
      ++ (opt optional_gap ∷ (word (codes "api") ++ (opt optional_gap ∷ word (codes "key")))))
    ∷ substr (codes "incorrect api key")
    ∷ substr (codes "invalid token")
    ∷ substr (codes "authentication")
    ∷ substr (codes "re-authenticate")
    ∷ substr (codes "oauth token refresh failed")
    ∷ substr (codes "unauthorized")
    ∷ substr (codes "forbidden")
    ∷ substr (codes "access denied")
    ∷ substr (codes "expired")
    ∷ substr (codes "token has expired")
    ∷ bounded (codes "401")
    ∷ bounded (codes "403")
    ∷ substr (codes "no credentials found")
    ∷ substr (codes "no api key found")
    ∷ []

abbrev pub format_patterns : List ErrorPattern
format_patterns =
    substr (codes "string should match pattern")
    ∷ substr (codes "tool_use.id")
    ∷ substr (codes "tool_use_id")
    ∷ substr (codes "messages.1.content.1.tool_use.id")
    ∷ substr (codes "invalid request format")
    ∷ []

abbrev pub image_dimension_patterns : List ErrorPattern
image_dimension_patterns = rxp (word (codes "image dimensions exceed max")) ∷ []

abbrev pub image_size_patterns : List ErrorPattern
image_size_patterns = rxp (word (codes "image exceeds") ++ (many is_any ∷ word (codes "mb"))) ∷ []

unfoldable pub is_transient_status : ℕ → Bool
is_transient_status s =
    s == 500 || s == 502 || s == 503 || s == 521 || s == 522 || s == 523 || s == 524 || s == 529

unfoldable pub classify_by_status : ℕ → Option FailoverReason
unfolding is_transient_status
classify_by_status status =
    if status == 401 || status == 403
    then some auth
    else if status == 402
    then some billing
    else if status == 408
    then some timeout
    else if status == 429
    then some rate_limit
    else if status == 400
    then some format
    else if is_transient_status status
    then some timeout
    else none

unfoldable pub matches : Text → ErrorPattern → Bool
matches msg (substr []) = false
matches msg (substr (c ∷ s)) = contains_text msg (c ∷ s)
matches msg (rxp items) = match_string items msg

unfoldable pub matches_any : Text → List ErrorPattern → Bool
unfolding matches
matches_any msg [] = false
matches_any msg (p ∷ patterns) = matches msg p || matches_any msg patterns

-- Overloads count as rate limits.
unfoldable pub classify_by_message : Text → Option FailoverReason
classify_by_message msg =
    if matches_any msg rate_limit_patterns
    then some rate_limit
    else if matches_any msg overloaded_patterns
    then some rate_limit
    else if matches_any msg billing_patterns
    then some billing
    else if matches_any msg timeout_patterns
    then some timeout
    else if matches_any msg auth_patterns
    then some auth
    else if matches_any msg format_patterns
    then some format
    else none

unfoldable pub parse_digits_from : ℕ → Text → ℕ
parse_digits_from n [] = n
parse_digits_from n (c ∷ s) = parse_digits_from (if is_digit c then n * 10 + (c - b'0') else n) s

unfoldable pub parse_digits : Text → ℕ
unfolding parse_digits_from
parse_digits s = parse_digits_from 0 s

-- The loop over the patterns.
unfoldable pub first_status : List (List Item) → Text → ℕ
unfolding find_submatch parse_digits
first_status [] msg = 0
first_status (p ∷ patterns) msg =
    let later = first_status patterns msg in
    elim (find_submatch p msg) [ none ↦ later | some group ↦ parse_digits group ]

unfoldable pub extract_http_status : Text → ℕ
unfolding first_status
extract_http_status msg = first_status http_status_patterns msg

unfoldable pub is_image_dimension_error : Text → Bool
is_image_dimension_error msg = matches_any msg image_dimension_patterns

unfoldable pub is_image_size_error : Text → Bool
is_image_size_error msg = matches_any msg image_size_patterns

-- The reason and the status of a message in lower case; no status is 0.
unfoldable pub classify_message : Text → Option (FailoverReason × ℕ)
classify_message msg =
    let by_message : Option (FailoverReason × ℕ) = elim (classify_by_message msg) [
      | none ↦ none
      | some reason ↦ some (reason, 0)
    ] in
    let status = extract_http_status msg in
    if is_image_dimension_error msg || is_image_size_error msg
    then some (format, 0)
    else if ltb 0 status
    then elim (classify_by_status status) [
      | none ↦ by_message
      | some reason ↦ some (reason, status)
    ]
    else by_message

module _ ⦃u : Unicode⦄ where
  -- Of an error that is not nil.
  unfoldable pub classify_error : Error → Text → Text → Option FailoverError
  classify_error canceled provider model = none
  classify_error deadline_exceeded provider model = some (record {
    reason = timeout;
    provider = provider;
    model = model;
    status = 0;
    wrapped = deadline_exceeded;
  })
  classify_error (other text) provider model = elim (classify_message (to_lower text)) [
    | none ↦ none
    | some (reason, status) ↦ some (record {
      reason = reason;
      provider = provider;
      model = model;
      status = status;
      wrapped = other text;
    })
  ]
