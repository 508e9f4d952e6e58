-- ===== src/Examples/Rate.antt =====
-- _examples/circuit-breaker-playground/delayed.go: the failure rate as a double, against one hundredth.
use native.Mathlib.Nat.{pow-suc, div-mul-le_self, le-div_iff_mul-le, mul-le-mul_right}
use plt.Base.{
  ℕ, zero, suc, ◌+◌, ◌-◌, ◌*◌, ◌/◌, ◌%◌, ◌^◌, ◌≤◌, ◌<◌, ◌≡◌, inl, inr, ap, arith, leb, ◌==◌,
  if◌then◌else◌, Bool-cases, subst,
}
use plt.Loadgen.Percent.{bits, round_to, round_53}
use plt.Loadgen.Rounding.{pow-bits-le, pow_split, pow_pos, unit_floor, unit_bounds, round_53-le}
use plt.Examples.Delayed.{error_threshold, error_rate, reached_failure_level}

le-bits : (f j n : ℕ) → j ≤ f → 2 ^ j ≤ 2 * n → j ≤ bits f n
unfolding bits
le-bits f zero n le h = omega arith
le-bits zero (suc j) n le h = absurd (omega arith)
le-bits (suc f) (suc zero) n le h = ground arith
le-bits (suc f) (suc (suc j)) n le h =
    let twice : 2 ^ suc (suc j) ≡ 2 ^ suc j * 2 = pow-suc 2 (suc j) in
    let once : 2 ^ suc j ≡ 2 ^ j * 2 = pow-suc 2 j in
    ground (arith, pow_pos (suc j), le-bits f (suc j) (n / 2) (omega arith) (omega arith))

-- From the hundredth on, the rounded value is the threshold at least.
at_seventy : (p : ℕ) → 2 ^ 129 / 100 ≤ p + 1 → error_threshold * 2 ^ 70 ≤ round_to (2 ^ 70) p
unfolding round_to
at_seventy p h = ground arith

beyond_seventy :
    (d p : ℕ)
    → 2 ^ (d + 71) ≤ 2 * (p / 2 ^ 53)
    → error_threshold * 2 ^ 70 ≤ round_to (2 ^ (d + 71)) p
beyond_seventy d p h =
    let power : 2 ^ (d + 71) ≡ 2 ^ d * 2 ^ 71 = pow_split 71 d in
    omega (
      arith,
      pow_pos d,
      unit_bounds (d + 71) p,
      unit_floor (2 ^ 52) (2 ^ (d + 71)) p (pow_pos (d + 71)) (omega arith),
    )

threshold-le : (p : ℕ) → 2 ^ 129 / 100 ≤ p + 1 → error_threshold * 2 ^ 70 ≤ round_53 p
unfolding round_53
threshold-le p h =
    let k = bits 128 (p / 2 ^ 53) in
    let above : 70 ≤ k = le-bits 128 70 (p / 2 ^ 53) (omega arith) (omega arith) in
    elim (Bool-cases (k == 70)) [
      | inl e ↦
          let seventy : 70 ≡ k = ground arith in
          subst (λ j. error_threshold * 2 ^ 70 ≤ round_to (2 ^ j) p) seventy (at_seventy p h)
      | inr e ↦
          let beyond : k - 71 + 71 ≡ k = ground arith in
          subst (λ j. error_threshold * 2 ^ 70 ≤ round_to (2 ^ j) p) beyond
            (beyond_seventy (k - 71) p
              (omega (arith, pow-bits-le 128 (p / 2 ^ 53) (omega arith), ap (◌^◌ 2) beyond)))
    ]

round_53-lt-threshold :
    (p : ℕ) → 100 * p + 2 ^ 97 ≤ 2 ^ 129 + 100 → round_53 p < error_threshold * 2 ^ 70
round_53-lt-threshold p h = omega (arith, round_53-le p)

quotient_above : (f r : ℕ) → 0 < r → r ≤ 100 * f → 2 ^ 128 / 100 ≤ f * 2 ^ 128 / r
quotient_above f r h le = (le-div_iff_mul-le h).1 (omega arith)

quotient_below : (f r : ℕ) → 100 * f < r → r < 2 ^ 32 → 100 * (f * 2 ^ 128 / r) + 2 ^ 96 ≤ 2 ^ 128
quotient_below f r lt small = elim (Bool-cases (leb (100 * (f * 2 ^ 128 / r) + 2 ^ 96) (2 ^ 128))) [
  | inl e ↦ ground arith
  | inr e ↦
      let over : 2 ^ 128 + 1 ≤ 100 * (f * 2 ^ 128 / r) + 2 ^ 96 = ground arith in
      absurd (omega (arith, div-mul-le_self (f * 2 ^ 128) r, mul-le-mul_right r over))
]

abbrev left_over : ℕ → ℕ → ℕ
left_over scaled requests = if scaled % requests == 0 then 0 else 1

left_over-le : (scaled requests : ℕ) → left_over scaled requests ≤ 1
left_over-le scaled requests = ground arith

error_rate_above : (f r : ℕ) → 0 < r → r ≤ 100 * f → error_threshold * 2 ^ 70 ≤ error_rate f r
unfolding error_rate
error_rate_above f r h le =
    threshold-le (2 * (f * 2 ^ 128 / r) + left_over (f * 2 ^ 128) r)
      (omega (arith, quotient_above f r h le))

error_rate_below : (f r : ℕ) → 100 * f < r → r < 2 ^ 32 → error_rate f r < error_threshold * 2 ^ 70
unfolding error_rate
error_rate_below f r lt small =
    round_53-lt-threshold (2 * (f * 2 ^ 128 / r) + left_over (f * 2 ^ 128) r)
      (omega (arith, quotient_below f r lt small, left_over-le (f * 2 ^ 128) r))

-- The test on doubles is exact for 32-bit counts: the rate reaches the level exactly if at least
-- one request in a hundred failed.
pub reached_failure_level-leb :
    (failures requests : ℕ)
    → 0 < requests
    → requests < 2 ^ 32
    → reached_failure_level failures requests ≡ leb requests (100 * failures)
unfolding reached_failure_level
reached_failure_level-leb f r some_requests small =
    ground (
      arith,
      error_rate_above f r some_requests,
      λ (lt : 100 * f < r). error_rate_below f r lt small,
    )
