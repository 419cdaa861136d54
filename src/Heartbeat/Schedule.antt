-- ===== src/Heartbeat/Schedule.antt =====
-- pkg/heartbeat/schedule.go: the adaptive interval and the idle window. Minutes that the
-- configuration gives are Go's `int`, read by their sign; a `time.Duration` is in nanoseconds. The
-- interval is computed modulo 2 ^ 64, as Go does; the sums of times do not overflow.
pub mod Laws
use suprclaw_engine.Prelude.{
  ℕ, zero, suc, ◌-◌, ◌*◌, ◌+◌, ◌^◌, Bool, true, false, if◌then◌else◌, ltb, leb, ◌&&◌,
}
use suprclaw_engine.Prelude.Int.{ℤ, pos, negsuc, int_end, wrapped, signed}

-- The zero time is 0.
abbrev pub minute : ℕ
minute = 60 * 10 ^ 9

-- A setting that is not positive is replaced by its default.
abbrev pub or_default : ℤ → ℕ → ℕ
or_default (pos zero) d = d
or_default (pos (suc n)) d = suc n
or_default (negsuc n) d = d

-- `result >= maxMin` for a value of 64 bits that is read as a signed one, and a cap that is positive.
abbrev pub reaches : ℕ → ℕ → Bool
reaches max_min result = ltb result int_end && leb max_min result

-- The rounds of the loop, which ends when the cap is reached. The product wraps.
unfoldable pub double : ℕ → ℕ → ℕ → ℕ
double max_min zero result = result
double max_min (suc i) result =
    let rest = double max_min i (wrapped (result * 2)) in
    if reaches max_min (wrapped (result * 2)) then max_min else rest

-- The interval in nanoseconds. Its product wraps too, and may be negative.
unfoldable pub adaptive_interval : ℤ → ℤ → ℤ → ℤ
adaptive_interval base_min max_min consecutive_ok = signed (
    wrapped (
      double (or_default max_min 120) (or_default consecutive_ok 0) (or_default base_min 30)
      * minute))

-- `now.Add(-window)` may lie before the zero time, and then every activity is after it.
unfoldable pub is_idle_window_active : ℕ → ℤ → ℕ → Bool
is_idle_window_active last_activity_at (pos (suc n)) now =
    if leb last_activity_at 0 then false else ltb now (last_activity_at + suc n * minute)
is_idle_window_active last_activity_at (pos zero) now = false
is_idle_window_active last_activity_at (negsuc n) now = false
