-- ===== src/Providers/Cooldown/Durations.antt =====
-- The two backoff formulas.
use native.Mathlib.Numerals.{towards_suc}
use suprclaw_engine.Prelude.{
  ℕ, zero, suc, ◌+◌, ◌-◌, ◌*◌, ◌^◌, ◌≤◌, ◌≡◌, refl, min, max, if◌then◌else◌, leb, arith,
}
use suprclaw_engine.Providers.Cooldown.{
  hour, calculate_standard_cooldown, calculate_billing_cooldown,
}

-- The number of errors decides the cooldown: one minute for the first, then 5 and 25 minutes, and an
-- hour from the fourth on.
pub standard_cooldown_table :
    (n : ℕ)
    → calculate_standard_cooldown n ≡ (
        if leb n 1
        then 60_000_000_000
        else if leb n 2
        then 300_000_000_000
        else if leb n 3
        then 1_500_000_000_000
        else hour)
unfolding calculate_standard_cooldown
standard_cooldown_table zero = refl
standard_cooldown_table (suc zero) = refl
standard_cooldown_table (suc (suc zero)) = refl
standard_cooldown_table (suc (suc (suc zero))) = refl
standard_cooldown_table (suc (suc (suc (suc n)))) =
    let e : min (max 1 (suc (suc (suc (suc n)))) - 1) 3 ≡ 3 = omega arith in
    rw (e, calculate_standard_cooldown) (ground arith)

pow_step : (n : ℕ) → 2 ^ (suc n + 3) ≡ 2 * 2 ^ (n + 3)
pow_step n = simp towards_suc (omega arith)

pow_grows : (n : ℕ) → 8 ≤ 2 ^ (n + 3)
pow_grows zero = omega arith
pow_grows (suc n) = rw (pow_step n) (omega (arith, pow_grows n))

-- The number of billing errors decides the time that a provider is disabled: 5, 10 and 20 hours, and
-- a day from the fourth on.
pub billing_cooldown_table :
    (n : ℕ)
    → calculate_billing_cooldown n ≡ (
        if leb n 1
        then 5 * hour
        else if leb n 2
        then 10 * hour
        else if leb n 3
        then 20 * hour
        else 24 * hour)
unfolding calculate_billing_cooldown
billing_cooldown_table zero = refl
billing_cooldown_table (suc zero) = refl
billing_cooldown_table (suc (suc zero)) = refl
billing_cooldown_table (suc (suc (suc zero))) = refl
billing_cooldown_table (suc (suc (suc (suc n)))) =
    let exp : ℕ = min (max 1 (suc (suc (suc (suc n)))) - 1) 10 in
    let e : exp - 3 + 3 ≡ exp = omega arith in
    let big : 8 ≤ 2 ^ exp = rw e at (pow_grows (exp - 3)) in ground (arith, big)
