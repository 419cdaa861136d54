-- ===== src/Providers/Cooldown/Laws.antt =====
-- Availability after failures, successes and time.
use suprclaw_engine.Prelude.{
  ℕ, ◌+◌, ◌*◌, ◌≤◌, ◌<◌, ◌≡◌, ◌↔◌, refl, true, false, ◌&&◌, not, Option, none, some, if◌then◌else◌,
  ltb, ◌==◌, nat_eq, list_eq, arith, Bool-cases, inl, inr,
}
use suprclaw_engine.Prelude.Text.{Text}
use suprclaw_engine.Providers.Failover.{FailoverReason, billing}
use suprclaw_engine.Providers.Cooldown.{
  CooldownEntry, CooldownTracker, hour, reason_eq, calculate_standard_cooldown,
  calculate_billing_cooldown, entry_or_new, fail_entry, mark_failure, mark_success, entry_available,
  is_available, entry_remaining, cooldown_remaining, error_count, failure_count, set_cooldown,
  count_failure, forget_old, is_zero, time_sub,
}
use suprclaw_engine.Providers.Cooldown.Durations.{standard_cooldown_table, billing_cooldown_table}

pub standard_bounds :
    (n : ℕ)
    → (60_000_000_000 ≤ calculate_standard_cooldown n) × (calculate_standard_cooldown n ≤ hour)
standard_bounds n = ground (arith, standard_cooldown_table n)

pub billing_bounds :
    (n : ℕ) → (5 * hour ≤ calculate_billing_cooldown n) × (calculate_billing_cooldown n ≤ 24 * hour)
billing_bounds n = ground (arith, billing_cooldown_table n)

entry_remaining_iff :
    (now : ℕ) (e : Option CooldownEntry)
    → (entry_available now e ≡ true) ↔ (entry_remaining now e ≡ 0)
entry_remaining_iff now none = (λ h. refl, λ h. refl)
entry_remaining_iff now (some e) = ground arith

-- A provider is available exactly when no cooldown time remains.
is_available-cooldown_remaining :
    (ct : CooldownTracker) (now : ℕ) (provider : Text)
    → (is_available ct now provider ≡ true) ↔ (cooldown_remaining ct now provider ≡ 0)
unfolding is_available cooldown_remaining
is_available-cooldown_remaining ct now provider = entry_remaining_iff now (ct.entries provider)

-- A success makes the provider available at every time and clears its counts. The availability of
-- every other provider is unchanged.
pub mark_success-is_available :
    (ct : CooldownTracker) (now : ℕ) (provider other : Text) (reason : FailoverReason)
    → (is_available (mark_success ct provider) now other
        ≡ (if other == provider then true else is_available ct now other))
      × (error_count (mark_success ct provider) provider ≡ 0)
      × (failure_count (mark_success ct provider) provider reason ≡ 0)
unfolding mark_success is_available error_count failure_count
mark_success-is_available ct now provider other reason = (ground arith, ground arith, ground arith)

set_cooldown_ahead :
    (now later : ℕ) (reason : FailoverReason) (e : CooldownEntry)
    → later < now + 60_000_000_000
    → entry_available later (some (set_cooldown now reason e)) ≡ false
set_cooldown_ahead now later reason e k =
    ground (arith, standard_bounds e.error_count, billing_bounds (e.failure_counts billing))

fail_entry_ahead :
    (window now later : ℕ) (reason : FailoverReason) (e : CooldownEntry)
    → later < now + 60_000_000_000
    → entry_available later (some (fail_entry window now reason e)) ≡ false
unfolding fail_entry
fail_entry_ahead window now later reason e k =
    set_cooldown_ahead now later reason (count_failure now reason (forget_old window now e)) k

-- Until a minute after a failure the provider is not available, whatever the reason and the history.
-- The availability of every other provider is unchanged.
mark_failure-is_available :
    (ct : CooldownTracker) (now later : ℕ) (provider other : Text) (reason : FailoverReason)
    → later < now + 60_000_000_000
    → is_available (mark_failure ct now provider reason) later other
      ≡ (if other == provider then false else is_available ct later other)
unfolding mark_failure is_available
mark_failure-is_available ct now later provider other reason k =
    elim (Bool-cases (other == provider)) [
      | inl same ↦ rw same (
          fail_entry_ahead ct.failure_window now later reason (entry_or_new (ct.entries provider))
            k)
      | inr different ↦ rw different
    ]

fail_entry_counts :
    (window now : ℕ) (reason : FailoverReason) (e : CooldownEntry)
    → let stale = not (is_zero e.last_failure) && ltb window (time_sub now e.last_failure) in
      let e' = fail_entry window now reason e in
      (e'.error_count ≡ (if stale then 1 else e.error_count + 1))
      × (e'.failure_counts reason ≡ (if stale then 1 else e.failure_counts reason + 1))
unfolding fail_entry
fail_entry_counts window now reason e = (ground arith, ground arith)

-- A failure within the window adds one to the provider's errors and to those of its reason; after a
-- longer pause both counts start again at one.
mark_failure-counts :
    (ct : CooldownTracker) (now : ℕ) (provider : Text) (reason : FailoverReason)
    → let old = entry_or_new (ct.entries provider) in
      let stale =
        not (is_zero old.last_failure) && ltb ct.failure_window (time_sub now old.last_failure) in
      let ct' = mark_failure ct now provider reason in
      (error_count ct' provider ≡ (if stale then 1 else error_count ct provider + 1))
      × (failure_count ct' provider reason
          ≡ (if stale then 1 else failure_count ct provider reason + 1))
unfolding mark_failure error_count failure_count
mark_failure-counts ct now provider reason =
    let counts =
      fail_entry_counts ct.failure_window now reason (entry_or_new (ct.entries provider)) in
    (ground (arith, counts), ground (arith, counts))
