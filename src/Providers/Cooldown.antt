-- ===== src/Providers/Cooldown.antt =====
-- pkg/providers/cooldown.go: per-provider cooldowns. Each method holds the tracker's lock throughout
-- and reads the clock at most once, so it is a function of the tracker and of that reading. Times are
-- nanoseconds since Go's zero time, which is 0, and durations are nanoseconds.
pub mod Durations
pub mod Laws
pub mod Recovery
use suprclaw_engine.Prelude.{
  ℕ, ◌+◌, ◌-◌, ◌*◌, ◌^◌, min, max, Bool, true, false, ◌&&◌, not, Option, none, some, if◌then◌else◌,
  ltb, ◌==◌, nat_eq, list_eq, Eq,
}
use suprclaw_engine.Prelude.Text.{Text}
use suprclaw_engine.Providers.Failover.{FailoverReason, billing, reason_discrete}

instance abbrev pub reason_eq : Eq FailoverReason
reason_eq = record { dec = reason_discrete }

-- The longest `time.Duration`, at which `Sub` saturates.
abbrev pub max_duration : ℕ
max_duration = 2 ^ 63 - 1

abbrev pub hour : ℕ
hour = 3_600_000_000_000

abbrev pub default_failure_window : ℕ
default_failure_window = 24 * hour

pub record CooldownEntry : Type 0 where
  pub error_count : ℕ
  pub failure_counts : FailoverReason → ℕ
  pub cooldown_end : ℕ
  pub disabled_until : ℕ
  pub disabled_reason : Option FailoverReason
  pub last_failure : ℕ

pub record CooldownTracker : Type 0 where
  pub entries : Text → Option CooldownEntry
  pub failure_window : ℕ

unfoldable pub new_cooldown_tracker : CooldownTracker
new_cooldown_tracker = record {
  entries = λ provider. none;
  failure_window = default_failure_window;
}

-- `t.Sub(u)` for `u` not after `t`; it is negative in the source where it is 0 here.
abbrev pub time_sub : ℕ → ℕ → ℕ
time_sub t u = min (t - u) max_duration

abbrev pub is_zero : ℕ → Bool
is_zero t = not (ltb 0 t)

-- `math.Pow` is exact on these arguments, and the product stays far below the range of `int`.
unfoldable pub calculate_standard_cooldown : ℕ → ℕ
calculate_standard_cooldown error_count =
    let n = max 1 error_count in
    let exp = min (n - 1) 3 in let ms = min 3_600_000 (60_000 * 5 ^ exp) in ms * 1_000_000

unfoldable pub calculate_billing_cooldown : ℕ → ℕ
calculate_billing_cooldown billing_error_count =
    let n = max 1 billing_error_count in
    let exp = min (n - 1) 10 in
    let ms = min (24 * 60 * 60 * 1000) (5 * 60 * 60 * 1000 * 2 ^ exp) in ms * 1_000_000

abbrev pub no_failures : FailoverReason → ℕ
no_failures reason = 0

abbrev pub bump : FailoverReason → (FailoverReason → ℕ) → FailoverReason → ℕ
bump reason counts r = if r == reason then counts r + 1 else counts r

abbrev pub new_entry : CooldownEntry
new_entry = record {
  error_count = 0;
  failure_counts = no_failures;
  cooldown_end = 0;
  disabled_until = 0;
  disabled_reason = none;
  last_failure = 0;
}

abbrev pub entry_or_new : Option CooldownEntry → CooldownEntry
entry_or_new none = new_entry
entry_or_new (some entry) = entry

-- The entry is a pointer into the map: writing through it writes the map.
abbrev pub put_entry : CooldownTracker → Text → CooldownEntry → CooldownTracker
put_entry ct provider entry = record ct {
  entries = λ p. if p == provider then some entry else ct.entries p;
}

-- The counters start again when the last failure is longer ago than the window.
abbrev pub forget_old : ℕ → ℕ → CooldownEntry → CooldownEntry
forget_old window now entry =
    if not (is_zero entry.last_failure) && ltb window (time_sub now entry.last_failure)
    then record entry { error_count = 0; failure_counts = no_failures }
    else entry

abbrev pub count_failure : ℕ → FailoverReason → CooldownEntry → CooldownEntry
count_failure now reason entry = record entry {
  error_count = entry.error_count + 1;
  failure_counts = bump reason entry.failure_counts;
  last_failure = now;
}

abbrev pub set_cooldown : ℕ → FailoverReason → CooldownEntry → CooldownEntry
set_cooldown now reason entry =
    if reason == billing
    then record entry {
      disabled_until = now + calculate_billing_cooldown (entry.failure_counts billing);
      disabled_reason = some billing;
    }
    else record entry { cooldown_end = now + calculate_standard_cooldown entry.error_count }

unfoldable pub fail_entry : ℕ → ℕ → FailoverReason → CooldownEntry → CooldownEntry
fail_entry window now reason entry =
    set_cooldown now reason (count_failure now reason (forget_old window now entry))

unfoldable pub mark_failure : CooldownTracker → ℕ → Text → FailoverReason → CooldownTracker
unfolding fail_entry
mark_failure ct now provider reason =
    put_entry ct provider
      (fail_entry ct.failure_window now reason (entry_or_new (ct.entries provider)))

-- `LastFailure` stays.
abbrev pub reset_entry : CooldownEntry → CooldownEntry
reset_entry entry = record entry {
  error_count = 0;
  failure_counts = no_failures;
  cooldown_end = 0;
  disabled_until = 0;
  disabled_reason = none;
}

unfoldable pub mark_success : CooldownTracker → Text → CooldownTracker
mark_success ct provider = elim (ct.entries provider) [
  | none ↦ ct
  | some entry ↦ put_entry ct provider (reset_entry entry)
]

-- The end is set and lies ahead.
abbrev pub is_ahead : ℕ → ℕ → Bool
is_ahead now end = not (is_zero end) && ltb now end

abbrev pub entry_available : ℕ → Option CooldownEntry → Bool
entry_available now none = true
entry_available now (some entry) =
    if is_ahead now entry.disabled_until
    then false
    else if is_ahead now entry.cooldown_end
    then false
    else true

unfoldable pub is_available : CooldownTracker → ℕ → Text → Bool
is_available ct now provider = entry_available now (ct.entries provider)

abbrev pub raise_to : Bool → ℕ → ℕ → ℕ
raise_to ahead d remaining = if ahead && ltb remaining d then d else remaining

abbrev pub entry_remaining : ℕ → Option CooldownEntry → ℕ
entry_remaining now none = 0
entry_remaining now (some entry) =
    raise_to (is_ahead now entry.cooldown_end) (time_sub entry.cooldown_end now)
      (raise_to (is_ahead now entry.disabled_until) (time_sub entry.disabled_until now) 0)

unfoldable pub cooldown_remaining : CooldownTracker → ℕ → Text → ℕ
cooldown_remaining ct now provider = entry_remaining now (ct.entries provider)

unfoldable pub error_count : CooldownTracker → Text → ℕ
error_count ct provider = elim (ct.entries provider) [ none ↦ 0 | some entry ↦ entry.error_count ]

unfoldable pub failure_count : CooldownTracker → Text → FailoverReason → ℕ
failure_count ct provider reason = elim (ct.entries provider) [
  | none ↦ 0
  | some entry ↦ entry.failure_counts reason
]
