-- ===== src/Loadgen/Rounding.antt =====
-- loadgen/run.go: the rounded product `0.05 * float64(lim)`, truncated, is the quotient by 20.
use native.Mathlib.Nat.{
  pow-suc, mul-le-mul_right, pow-zero, zero-add, suc-add, div-mul-le_self, lt-div-mul-add,
  le-div_iff_mul-le,
}
use plt.Base.{
  ℕ, zero, suc, ◌+◌, ◌-◌, ◌*◌, ◌/◌, ◌^◌, ◌≤◌, ◌<◌, ◌≡◌, refl, ◌⊎◌, inl, inr, ap, ◌∙◌, arith,
}
use plt.Loadgen.Percent.{bits, round_to, round_53, five_percent, five_percent_mantissa, delta_of}

bits-zero : (f : ℕ) → bits f 0 ≡ 0
unfolding bits
bits-zero zero = refl
bits-zero (suc f) = refl

pub zero-or-pos : (n : ℕ) → (n ≡ 0) ⊎ (0 < n)
zero-or-pos zero = inl refl
zero-or-pos (suc n) = inr (omega arith)

pub pow-bits-le : (f n : ℕ) → 0 < n → 2 ^ bits f n ≤ 2 * n
unfolding bits
pow-bits-le zero n h = omega arith
pow-bits-le (suc f) n h = elim (zero-or-pos (n / 2)) [
  | inl e ↦ ground (arith, bits-zero f, pow-suc 2 0)
  | inr below ↦ ground (arith, pow-bits-le f (n / 2) below, pow-suc 2 (bits f (n / 2)))
]

pub bits-le : (f j n : ℕ) → n < 2 ^ j → bits f n ≤ j
unfolding bits
bits-le zero j n h = omega arith
bits-le (suc f) zero n h = ground arith
bits-le (suc f) (suc j) n h = ground (arith, bits-le f j (n / 2), pow-suc 2 j)

-- The rounded value lies between the multiple of the unit below and half a unit above.
round_to-bounds : (u p : ℕ) → 0 < u → (p / u * u ≤ round_to u p) × (2 * round_to u p ≤ 2 * p + u)
unfolding round_to
round_to-bounds u p h = ground (arith, div-mul-le_self p u, lt-div-mul-add {a = p} {b = u} h)

pub pow_split : (k d : ℕ) → 2 ^ (d + k) ≡ 2 ^ d * 2 ^ k
pow_split k zero = rw (zero-add, pow-zero) (omega arith)
pow_split k (suc d) =
    rw (suc-add d k)
      (omega (arith, pow-suc 2 (d + k), ap (λ (t : ℕ). t * 2 ^ k) (pow-suc 2 d), pow_split k d))

pub pow_pos : (k : ℕ) → 0 < 2 ^ k
pow_pos zero = omega arith
pow_pos (suc k) = omega (arith, pow_pos k, pow-suc 2 k)

pub unit_floor : (x u p : ℕ) → 0 < u → x * u ≤ p → x * u ≤ p / u * u
unit_floor x u p h le = mul-le-mul_right u ((le-div_iff_mul-le h).1 le)

pub unit_bounds :
    (k p : ℕ) → (p / 2 ^ k * 2 ^ k ≤ round_to (2 ^ k) p) × (2 * round_to (2 ^ k) p ≤ 2 * p + 2 ^ k)
unit_bounds k p = round_to-bounds (2 ^ k) p (pow_pos k)

-- Rounding to 53 bits adds at most one part in 2^53.
pub round_53-le : (p : ℕ) → round_53 p ≤ p + p / 2 ^ 53
unfolding round_53
round_53-le p = elim (zero-or-pos (p / 2 ^ 53)) [
  | inl e ↦
      omega
        (arith, unit_bounds (bits 128 (p / 2 ^ 53)) p, ap (◌^◌ 2) (ap (bits 128) e ∙ bits-zero 128))
  | inr h ↦ omega (arith, unit_bounds (bits 128 (p / 2 ^ 53)) p, pow-bits-le 128 (p / 2 ^ 53) h)
]

above_unit : (m p k : ℕ) → m * 2 ^ 57 ≤ p → k ≤ 57 → m * 2 ^ 57 ≤ round_to (2 ^ k) p
above_unit m p k h k_le =
    let power : 2 ^ 57 ≡ 2 ^ (57 - k) * 2 ^ k =
      ap (◌^◌ 2) {x = 57} {y = 57 - k + k} (omega arith) ∙ pow_split k (57 - k) in
    let whole : m * 2 ^ 57 ≡ m * 2 ^ (57 - k) * 2 ^ k = omega (arith, ap (◌*◌ m) power) in
    omega
      (arith, unit_floor (m * 2 ^ (57 - k)) (2 ^ k) p (pow_pos k) (omega arith), unit_bounds k p)

-- It does not pass a multiple of 2^57 downwards, for values below 2^110.
le-round_53 : (m p : ℕ) → p < 2 ^ 110 → m * 2 ^ 57 ≤ p → m * 2 ^ 57 ≤ round_53 p
unfolding round_53
le-round_53 m p small h =
    above_unit m p (bits 128 (p / 2 ^ 53)) h (bits-le 128 57 (p / 2 ^ 53) (omega arith))

-- Below 2^53 every natural number is a double.
pub round_53-exact : (n : ℕ) → n < 2 ^ 53 → round_53 n ≡ n
unfolding round_53
round_53-exact n h =
    let none : n / 2 ^ 53 ≡ 0 = omega arith in
    omega (arith, unit_bounds (bits 128 (n / 2 ^ 53)) n, power_one none, div_one none)
  where
    power_one : n / 2 ^ 53 ≡ 0 → 2 ^ bits 128 (n / 2 ^ 53) ≡ 1
    power_one e = ap (◌^◌ 2) (ap (bits 128) e ∙ bits-zero 128)

    div_one : n / 2 ^ 53 ≡ 0 → n / 2 ^ bits 128 (n / 2 ^ 53) * 2 ^ bits 128 (n / 2 ^ 53) ≡ n
    div_one e = rw (power_one e) (omega arith)

product_floor :
    (n r : ℕ)
    → n < 2 ^ 52
    → r ≤ n * five_percent_mantissa + n * five_percent_mantissa / 2 ^ 53
    → n / 20 * 2 ^ 57 ≤ r
    → r / 2 ^ 57 ≡ n / 20
product_floor n r h above below = omega arith

unfold_five : (n : ℕ) → five_percent n ≡ round_53 (round_53 n * five_percent_mantissa) / 2 ^ 57
unfolding five_percent
unfold_five n = refl

-- Below 2^52 the float product, truncated, is the integer quotient by 20.
pub five_percent-div : (n : ℕ) → n < 2 ^ 52 → five_percent n ≡ n / 20
five_percent-div n h =
    unfold_five n
    ∙ ap (λ m. round_53 (m * five_percent_mantissa) / 2 ^ 57) (round_53-exact n (omega arith))
    ∙ product_floor n (round_53 (n * five_percent_mantissa)) h
        (round_53-le (n * five_percent_mantissa))
        (le-round_53 (n / 20) (n * five_percent_mantissa) (omega arith) (omega arith))

pub delta_of-bounds : (n : ℕ) → 1 ≤ n → n < 2 ^ 52 → (1 ≤ delta_of n) × (delta_of n ≤ n)
unfolding delta_of
delta_of-bounds n h k = ground (arith, five_percent-div n)
