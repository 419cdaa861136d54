-- ===== src/Agent/Float.antt =====
-- What pkg/agent/context_budget.go does with `float64`, with what it relies on: a number of tokens
-- below 2^53 is exact, and rounding is monotone.
pub mod Hundredths
use suprclaw_engine.Prelude.{ℕ, ◌≤◌, ◌<◌, ◌≡◌, Bool, true}

pub record Float64 : Type 1 where
  pub Ratio : Type 0
  -- A constant of two decimals, by its hundredths.
  pub hundredths : ℕ → Ratio
  -- `r == 0`.
  pub is_zero : Ratio → Bool
  -- `r > 0`.
  pub is_positive : Ratio → Bool
  -- `!(r <= 0 || r > 1)`.
  pub in_unit : Ratio → Bool
  -- `int(r)` of a positive number.
  pub truncate : Ratio → ℕ
  -- `int(float64(n) * r)`.
  pub scale : ℕ → Ratio → ℕ
  -- `int(math.Ceil(float64(n) * r))`.
  pub scale_up : ℕ → Ratio → ℕ
  -- `float64(n) >= float64(limit) * r`.
  pub reaches : ℕ → ℕ → Ratio → Bool
  pub in_unit-hundredths : (n : ℕ) → 0 < n → n ≤ 100 → in_unit (hundredths n) ≡ true
  pub scale_le : (n : ℕ) (r : Ratio) → n < 9007199254740992 → in_unit r ≡ true → scale n r ≤ n
  pub scale_up_le : (n : ℕ) (r : Ratio) → n < 9007199254740992 → in_unit r ≡ true → scale_up n r ≤ n
  pub reaches_lem :
      (n limit : ℕ) (r : Ratio) → in_unit r ≡ true → limit ≤ n → reaches n limit r ≡ true
