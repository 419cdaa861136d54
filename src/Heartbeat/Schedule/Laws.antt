-- ===== src/Heartbeat/Schedule/Laws.antt =====
-- The interval of pkg/heartbeat/schedule.go in closed form.
use native.Mathlib.Numerals.{unary_clauses}
use suprclaw_engine.Prelude.{
  ℕ, zero, suc, ◌*◌, ◌^◌, ◌<◌, ◌≤◌, min, ◌≡◌, refl, ap, arith, ◌∙◌, Bool-cases, inl, inr, leb,
  if◌then◌else◌,
}
use suprclaw_engine.Prelude.Int.{ℤ, pos, word_end, wrapped, signed}
use suprclaw_engine.Heartbeat.Schedule.{minute, or_default, double, adaptive_interval}

pow_step : (n : ℕ) → 2 ^ suc n ≡ 2 * 2 ^ n
pow_step n = simp unary_clauses (omega arith)

pow_pos : (n : ℕ) → 1 ≤ 2 ^ n
pow_pos zero = omega arith
pow_pos (suc n) = rw (pow_step n) (omega (arith, pow_pos n))

scale_step : (r n : ℕ) → r * 2 ^ suc n ≡ r * 2 * 2 ^ n
scale_step r n = rw (pow_step n) (omega arith)

-- A multiple by a power of two is no smaller.
scale_grows : (r n : ℕ) → r ≤ r * 2 ^ n
scale_grows r zero = omega arith
scale_grows r (suc n) = rw (scale_step r n) (omega (arith, scale_grows (r * 2) n))

-- The longest interval that a `time.Duration` holds, in minutes.
abbrev pub longest : ℕ
longest = 153722867

unwrapped : (n : ℕ) → n < word_end → wrapped n ≡ n
unwrapped n h = omega arith

double_next :
    (m i r : ℕ)
    → r ≤ longest
    → double m (suc i) r ≡ (if leb m (r * 2) then m else double m i (r * 2))
unfolding double
double_next m i r h = rw (double, unwrapped (r * 2) (omega (arith, h))) (ground (arith, h))

double_lem : (m i r : ℕ) → r ≤ longest → m ≤ longest → double m (suc i) r ≡ min m (r * 2 ^ suc i)
unfolding double
double_lem m zero r h k = rw (double_next m zero r h) (ground (arith, scale_step r zero))
double_lem m (suc i) r h k = elim (Bool-cases (leb m (r * 2))) [
  | inl e ↦
      rw (double_next m (suc i) r h, scale_step r (suc i), e)
        (ground (arith, e, scale_grows (r * 2) (suc i)))
  | inr e ↦
      rw (double_next m (suc i) r h, scale_step r (suc i), e)
        (double_lem m i (r * 2) (ground (arith, e, k)) k)
]

double_count :
    (m r n : ℕ)
    → r ≤ longest
    → m ≤ longest
    → double m n r ≡ (if leb n 0 then r else min m (r * 2 ^ n))
unfolding double
double_count m r zero h k = refl
double_count m r (suc n) h k = ground (arith, double_lem m n r h k)

double-bounded :
    (m r n : ℕ) → r ≤ longest → m ≤ longest → (if leb n 0 then r else min m (r * 2 ^ n)) ≤ longest
double-bounded m r n h k = ground (arith, h, k)

signed_minutes : (n : ℕ) → n ≤ longest → signed (wrapped (n * minute)) ≡ pos (n * minute)
unfolding signed
signed_minutes n h = ground (arith, h)

-- If the base and the cap are at most 153722867 minutes, the longest interval that fits, nothing
-- wraps: the interval is the base after no acknowledged heartbeat, even when that is above the cap;
-- after n of them, n > 0, it is the base times 2 ^ n, or the cap if that is less. Settings that are
-- not positive count as 30 minutes, 120 minutes and 0.
pub adaptive_interval_lem :
    (base_min max_min consecutive_ok : ℤ)
    → or_default base_min 30 ≤ longest
    → or_default max_min 120 ≤ longest
    → let base = or_default base_min 30 in
      let cap = or_default max_min 120 in
      let n = or_default consecutive_ok 0 in
      adaptive_interval base_min max_min consecutive_ok
      ≡ pos ((if leb n 0 then base else min cap (base * 2 ^ n)) * minute)
unfolding adaptive_interval
adaptive_interval_lem base_min max_min consecutive_ok h k =
    let base = or_default base_min 30 in
    let cap = or_default max_min 120 in
    let n = or_default consecutive_ok 0 in
    ap (λ k. signed (wrapped (k * minute))) (double_count cap base n h k)
    ∙ signed_minutes _ (double-bounded cap base n h k)
