-- ===== src/Prelude/Int.antt =====
-- Go's signed integers, where the code reads their sign, and their wrap-around at 64 bits.
use suprclaw_engine.Prelude.Tests.{if◌then◌else◌, ltb}
use Prim.Native.Nat.{ℕ, ◌-◌, ◌%◌}

-- `pos n` is n, `negsuc n` is - n - 1.
pub data ℤ : Type 0 where
  pos : ℕ → ℤ
  negsuc : ℕ → ℤ

-- 2 ^ 63 and 2 ^ 64.
abbrev pub int_end : ℕ
int_end = 9223372036854775808

abbrev pub word_end : ℕ
word_end = 18446744073709551616

-- A value of 64 bits: the sum or product that Go leaves when it is too large.
abbrev pub wrapped : ℕ → ℕ
wrapped n = n % word_end

-- What a value of 64 bits is as a signed `int`.
unfoldable pub signed : ℕ → ℤ
signed n = if ltb n int_end then pos n else negsuc (word_end - 1 - n)
