-- ===== src/Providers/Cooldown/Recovery.antt =====
-- Histories of a tracker of pkg/providers/cooldown.go, and how long a cooldown lasts.
use suprclaw_engine.Prelude.{
  ℕ, ◌+◌, ◌*◌, ◌≤◌, ◌≡◌, refl, Bool, true, false, Option, none, some, if◌then◌else◌, leb, ◌==◌,
  nat_eq, list_eq, arith, List, [], ◌∷◌, All, Option-cases, inl, inr,
}
use suprclaw_engine.Prelude.Text.{Text}
use suprclaw_engine.Providers.Failover.{FailoverReason}
use suprclaw_engine.Providers.Cooldown.{
  CooldownEntry, CooldownTracker, hour, reason_eq, entry_or_new, fail_entry, mark_failure,
  mark_success, is_available, new_cooldown_tracker, set_cooldown, count_failure, forget_old,
  entry_available,
}
use suprclaw_engine.Providers.Cooldown.Laws.{standard_bounds, billing_bounds}

-- A call of the tracker, with the reading of the clock where it reads it.
pub data Call : Type 0 where
  failure : ℕ → Text → FailoverReason → Call
  success : Text → Call

abbrev pub perform : Call → CooldownTracker → CooldownTracker
perform (failure now provider reason) ct = mark_failure ct now provider reason
perform (success provider) ct = mark_success ct provider

abbrev pub perform_all : List Call → CooldownTracker → CooldownTracker
perform_all [] ct = ct
perform_all (c ∷ calls) ct = perform_all calls (perform c ct)

-- The call is made at the time or before.
abbrev pub is_by : ℕ → Call → Bool
is_by time (failure now provider reason) = leb now time
is_by time (success provider) = true

-- Both ends lie at most a day after the time.
abbrev EndsBy : ℕ → Option CooldownEntry → Type 0
EndsBy time none = Unit
EndsBy time (some e) = (e.cooldown_end ≤ time + 24 * hour) × (e.disabled_until ≤ time + 24 * hour)

abbrev TrackerEndsBy : ℕ → CooldownTracker → Type 0
TrackerEndsBy time ct = (provider : Text) → EndsBy time (ct.entries provider)

set_cooldown-EndsBy :
    (time now : ℕ) (reason : FailoverReason) (e : CooldownEntry)
    → now ≤ time
    → EndsBy time (some e)
    → EndsBy time (some (set_cooldown now reason e))
set_cooldown-EndsBy time now reason e h k =
    ground (
      arith,
      standard_bounds e.error_count,
      billing_bounds (e.failure_counts FailoverReason.billing),
    )

forget_old-EndsBy :
    (time window now : ℕ) (e : CooldownEntry)
    → EndsBy time (some e)
    → EndsBy time (some (forget_old window now e))
forget_old-EndsBy time window now e h = ground arith

new-EndsBy :
    (time : ℕ) (o : Option CooldownEntry) → EndsBy time o → EndsBy time (some (entry_or_new o))
new-EndsBy time none h = (omega arith, omega arith)
new-EndsBy time (some e) h = h

fail_entry-EndsBy :
    (time window now : ℕ) (reason : FailoverReason) (e : CooldownEntry)
    → now ≤ time
    → EndsBy time (some e)
    → EndsBy time (some (fail_entry window now reason e))
unfolding fail_entry
fail_entry-EndsBy time window now reason e h k =
    set_cooldown-EndsBy time now reason (count_failure now reason (forget_old window now e)) h
      (forget_old-EndsBy time window now e k)

if-EndsBy :
    (time : ℕ) (b : Bool) (x y : Option CooldownEntry)
    → EndsBy time x
    → EndsBy time y
    → EndsBy time (if b then x else y)
if-EndsBy time true x y p q = p
if-EndsBy time false x y p q = q

perform-EndsBy :
    (time : ℕ) (c : Call) (ct : CooldownTracker)
    → is_by time c ≡ true
    → TrackerEndsBy time ct
    → TrackerEndsBy time (perform c ct)
unfolding mark_failure mark_success
perform-EndsBy time (failure now p reason) ct h k provider =
    if-EndsBy time (provider == p) _ (ct.entries provider)
      (fail_entry-EndsBy time ct.failure_window now reason (entry_or_new (ct.entries p))
        (ground arith) (new-EndsBy time (ct.entries p) (k p)))
      (k provider)
perform-EndsBy time (success p) ct h k provider = elim (Option-cases (ct.entries p)) [
  | inl e ↦ rw (e, mark_success) (k provider)
  | inr (entry, e) ↦
      rw (e, mark_success)
        (if-EndsBy time (provider == p) _ (ct.entries provider) (omega arith, omega arith)
          (k provider))
]

perform_all-EndsBy :
    (time : ℕ) (calls : List Call) (ct : CooldownTracker)
    → All (λ (c : Call). is_by time c ≡ true) calls
    → TrackerEndsBy time ct
    → TrackerEndsBy time (perform_all calls ct)
perform_all-EndsBy time [] ct h k = k
perform_all-EndsBy time (c ∷ calls) ct h k =
    perform_all-EndsBy time calls (perform c ct) h.1 (perform-EndsBy time c ct h.0 k)

available_after :
    (time now : ℕ) (o : Option CooldownEntry)
    → time + 24 * hour ≤ now
    → EndsBy time o
    → entry_available now o ≡ true
available_after time now none h k = refl
available_after time now (some e) h k = ground arith

-- Whatever calls a new tracker has seen, from a day after the last failure on every provider is
-- available.
pub is_available_in_a_day :
    (calls : List Call) (time now : ℕ) (provider : Text)
    → All (λ (c : Call). is_by time c ≡ true) calls
    → time + 24 * hour ≤ now
    → is_available (perform_all calls new_cooldown_tracker) now provider ≡ true
unfolding is_available new_cooldown_tracker
is_available_in_a_day calls time now provider h k =
    available_after time now _ k
      (perform_all-EndsBy time calls new_cooldown_tracker h (λ p. tt) provider)
