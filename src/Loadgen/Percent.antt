-- ===== src/Loadgen/Percent.antt =====
-- loadgen/run.go: `int64(0.05 * float64(lim))`, the 5% step of the live controls, in IEEE doubles.
use plt.Base.{ℕ, zero, suc, ◌+◌, ◌-◌, ◌*◌, ◌/◌, ◌%◌, ◌^◌, ltb, ◌==◌, if◌then◌else◌, ℤ, pos, negsuc}

-- The number of binary digits, with fuel for that many.
unfoldable pub bits : ℕ → ℕ → ℕ
bits zero n = 0
bits (suc f) n = let rest = bits f (n / 2) in if n == 0 then 0 else suc rest

-- An exact natural number rounded to 53 significant bits, ties to even.
unfoldable pub round_to : ℕ → ℕ → ℕ
round_to u p =
    let q = p / u in
    let r = p % u in
    if ltb (2 * r) u
    then q * u
    else if ltb u (2 * r)
    then (q + 1) * u
    else if q % 2 == 0
    then q * u
    else (q + 1) * u

unfoldable pub round_53 : ℕ → ℕ
round_53 p = round_to (2 ^ bits 128 (p / 2 ^ 53)) p

-- The double nearest to 0.05 is 7205759403792794 / 2^57.
abbrev pub five_percent_mantissa : ℕ
five_percent_mantissa = 7205759403792794

unfoldable pub five_percent : ℕ → ℕ
unfolding bits round_to round_53
five_percent n = round_53 (round_53 n * five_percent_mantissa) / 2 ^ 57

-- The conversion to int64 truncates towards zero.
unfoldable pub five_percent_ℤ : ℤ → ℤ
five_percent_ℤ (pos n) = pos (five_percent n)
five_percent_ℤ (negsuc n) = let m = five_percent (suc n) in if m == 0 then pos 0 else negsuc (m - 1)

-- `if delta == 0 { delta = 1 }`
unfoldable pub delta_of : ℕ → ℕ
delta_of lim = let d = five_percent lim in if d == 0 then 1 else d
