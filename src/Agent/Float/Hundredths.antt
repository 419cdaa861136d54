-- ===== src/Agent/Float/Hundredths.antt =====
-- Ratios in hundredths, computed exactly: they meet what is asked of `Float64`.
use suprclaw_engine.Prelude.{
  ℕ, ◌+◌, ◌*◌, ◌/◌, ◌≤◌, ◌<◌, ◌≡◌, Bool, true, ◌&&◌, ltb, leb, ◌==◌, nat_eq, arith,
}
use suprclaw_engine.Agent.Float.{Float64}

abbrev pub in_hundred : ℕ → Bool
in_hundred r = ltb 0 r && leb r 100

mul_le : (n r s : ℕ) → r ≤ s → n * r ≤ n * s
mul_le n r s h = grind arith

pub in_hundred_lem : (n : ℕ) → 0 < n → n ≤ 100 → in_hundred n ≡ true
in_hundred_lem n p b = ground arith

pub scale_le : (n r : ℕ) → n < 9007199254740992 → in_hundred r ≡ true → n * r / 100 ≤ n
scale_le n r b h = omega (arith, mul_le n r 100 (ground arith))

pub scale_up_le : (n r : ℕ) → n < 9007199254740992 → in_hundred r ≡ true → (n * r + 99) / 100 ≤ n
scale_up_le n r b h = omega (arith, mul_le n r 100 (ground arith))

pub reaches_lem :
    (n limit r : ℕ) → in_hundred r ≡ true → limit ≤ n → leb (limit * r) (n * 100) ≡ true
reaches_lem n limit r h b = ground (arith, mul_le limit r 100 (ground arith))

instance abbrev pub hundredths : Float64
hundredths = record {
  Ratio = ℕ;
  hundredths = λ n. n;
  is_zero = λ r. r == 0;
  is_positive = λ r. ltb 0 r;
  in_unit = in_hundred;
  truncate = λ r. r / 100;
  scale = λ n r. n * r / 100;
  scale_up = λ n r. (n * r + 99) / 100;
  reaches = λ n limit r. leb (limit * r) (n * 100);
  in_unit-hundredths = in_hundred_lem;
  scale_le = scale_le;
  scale_up_le = scale_up_le;
  reaches_lem = reaches_lem;
}
