-- ===== src/Report/Units.antt =====
-- report/print.go: how near the printed byte counts are.
use native.Mathlib.Nat.{div-mul-le_self, lt-div-mul-add, mod-eq-sub-div-mul, mul-le-mul_right}
use native.Mathlib.Decide.{dec_lt}
use plt.Base.{
  refl, Text, codes, decimal, [], ◌∷◌, ◌==◌, Bool-cases, ℕ, ◌+◌, ◌*◌, ◌/◌, ◌%◌, ◌^◌, ◌≤◌, ◌<◌, ◌≡◌,
  ap, ◌⊎◌, inl, inr, ◌++◌, arith, pos,
}
use plt.Loadgen.Rounding.{round_53-exact}
use plt.Report.ByteSize.{kilobyte, exabyte, unit_of, tenths, print_tenths, byte_size}

tenths_cases :
    (v u : ℕ)
    → ((tenths v u ≡ 10 * v / u) × (2 * (10 * v % u) ≤ u))
      ⊎ ((tenths v u ≡ 10 * v / u + 1) × (u ≤ 2 * (10 * v % u)))
unfolding tenths
tenths_cases v u = ground arith

-- The printed tenths are within half a tenth of the exact quotient.
tenths_near :
    (v u : ℕ) → 0 < u → (20 * v ≤ 2 * (tenths v u * u) + u) × (2 * (tenths v u * u) ≤ 20 * v + u)
tenths_near v u h =
    let below = div-mul-le_self (10 * v) u in
    let above = lt-div-mul-add {a = 10 * v} {b = u} h in
    let rest = mod-eq-sub-div-mul (10 * v) u in
    elim (tenths_cases v u) [
      | inl (e, near) ↦ omega (arith, ap (λ (t : ℕ). t * u) e, below, above, rest)
      | inr (e, near) ↦ omega (arith, ap (λ (t : ℕ). t * u) e, below, above, rest)
    ]

-- The unit is the largest that does not exceed the count: below it, or 1024 times the unit above.
unit_of-fits :
    (n : ℕ)
    → (0 < (unit_of n).0)
      × (((unit_of n).0 ≤ n) ⊎ ((n < kilobyte) × ((unit_of n).0 ≡ 1)))
      × ((n < kilobyte * (unit_of n).0) ⊎ ((unit_of n).0 ≡ exabyte))
unfolding unit_of
unit_of-fits n = ground arith

at_most : (t u n : ℕ) → 0 < u → 2 * (t * u) ≤ 20 * n + u → n < kilobyte * u → t ≤ 10 * kilobyte
at_most t u n h high below = elim (dec_lt (10 * kilobyte) t) [
  | yes more ↦
      absurd (omega (arith, mul-le-mul_right {m = 10 * kilobyte + 1} {n = t} u (omega arith)))
  | no most ↦ omega arith
]

-- The units, with their letters.
abbrev pub IsUnit : ℕ → Text → Type 0
IsUnit u letters =
    ((u ≡ 1) × (letters ≡ codes "B"))
    ⊎ (((u ≡ 2 ^ 10) × (letters ≡ codes "KB"))
        ⊎ (((u ≡ 2 ^ 20) × (letters ≡ codes "MB"))
            ⊎ (((u ≡ 2 ^ 30) × (letters ≡ codes "GB"))
                ⊎ (((u ≡ 2 ^ 40) × (letters ≡ codes "TB"))
                    ⊎ (((u ≡ 2 ^ 50) × (letters ≡ codes "PB"))
                        ⊎ ((u ≡ 2 ^ 60) × (letters ≡ codes "EB")))))))

-- A text of a number of tenths: with a point and one digit, or whole.
abbrev pub IsTenths : ℕ → Text → Type 0
IsTenths t digits =
    ((w : ℕ) × (t ≡ 10 * w) × (digits ≡ decimal w))
    ⊎ ((w : ℕ) × (d : ℕ) × (0 < d)
        × (d < 10)
        × (t ≡ 10 * w + d)
        × (digits ≡ decimal w ++ (b'.' ∷ (48 + d) ∷ [])))

unit_of-IsUnit : (n : ℕ) → IsUnit (unit_of n).0 (unit_of n).1
unfolding unit_of
unit_of-IsUnit n = ground arith

print_tenths-IsTenths : (t : ℕ) → IsTenths t (print_tenths t)
unfolding print_tenths
print_tenths-IsTenths t = elim (Bool-cases (t % 10 == 0)) [
  | inl e ↦ inl (t / 10, ground (arith, e), rw e refl)
  | inr e ↦ inr (t / 10, t % 10, ground (arith, e), omega arith, omega arith, rw e refl)
]

-- A count below 2^53 is printed as tenths of a unit, with the unit's letters behind them: with a
-- point and one digit from 1 to 9, or whole. The tenths are within half a tenth of the exact quotient;
-- the unit is one that the count reaches (or bytes below 1024), and at most 1024.0 of it are printed.
pub byte_size_near :
    (n : ℕ)
    → n < 2 ^ 53
    → (u : ℕ) × (t : ℕ) × (digits : Text) × (letters : Text) × (byte_size (pos n)
        ≡ digits ++ letters)
      × IsTenths t digits
      × IsUnit u letters
      × (20 * n ≤ 2 * (t * u) + u)
      × (2 * (t * u) ≤ 20 * n + u)
      × ((u ≤ n) ⊎ ((n < 2 ^ 10) × (u ≡ 1)))
      × (t ≤ 10 * 2 ^ 10)
unfolding byte_size
byte_size_near n h =
    let (u_pos, reached, largest) = unit_of-fits n in
    let (low, high) = tenths_near n (unit_of n).0 u_pos in
    let below : n < kilobyte * (unit_of n).0 = omega arith in
    (
      (unit_of n).0,
      tenths n (unit_of n).0,
      print_tenths (tenths n (unit_of n).0),
      (unit_of n).1,
      ap (λ v. print_tenths (tenths v (unit_of n).0) ++ (unit_of n).1) (round_53-exact n h),
      print_tenths-IsTenths (tenths n (unit_of n).0),
      unit_of-IsUnit n,
      low,
      high,
      reached,
      at_most (tenths n (unit_of n).0) (unit_of n).0 n u_pos high below,
    )
