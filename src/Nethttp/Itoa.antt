-- ===== src/Nethttp/Itoa.antt =====
-- The standard library's `strconv.Itoa`, by which `RequestCounts` of nethttp/job.go and fasthttp/job.go
-- names its keys: `Atoi` reads it back, so different statuses have different keys.
use native.Mathlib.Nat.{pow-suc}
use plt.Base.{
  ℕ, zero, suc, ◌+◌, ◌*◌, ◌/◌, ◌%◌, ◌^◌, ◌<◌, ◌≡◌, refl, ap, some, List, [], ◌∷◌, arith, ◌==◌, ltb,
  if◌then◌else◌, Text, text_eq, text_eq_sound, text_eq_refl, decimal, decimal_onto, Bool-cases, inl,
  inr,
}
use plt.Nethttp.Atoi.{digits_from}

digits_from-digit :
    (acc n d : ℕ) (rest : Text)
    → d < 10
    → n ≡ 10 * acc + d
    → digits_from acc ((48 + d) ∷ rest) ≡ digits_from n rest
unfolding digits_from
digits_from-digit acc n d rest h e = ground arith

decimal_onto-suc :
    (f n : ℕ) (rest : Text)
    → decimal_onto (suc f) n rest
      ≡ (if ltb n 10 then (48 + n % 10) ∷ rest else decimal_onto f (n / 10) ((48 + n % 10) ∷ rest))
unfolding decimal_onto
decimal_onto-suc f n rest = refl

digits_from-decimal_onto :
    (f n : ℕ) (rest : Text)
    → n < 10 ^ suc f
    → digits_from 0 (decimal_onto (suc f) n rest) ≡ digits_from n rest
digits_from-decimal_onto zero n rest h =
    ground (arith, decimal_onto-suc 0 n rest, digits_from-digit 0 n (n % 10) rest)
digits_from-decimal_onto (suc f) n rest h = ground (
  arith,
  decimal_onto-suc (suc f) n rest,
  digits_from-digit 0 n (n % 10) rest,
  digits_from-digit (n / 10) n (n % 10) rest,
  pow-suc 10 (suc f),
  digits_from-decimal_onto f (n / 10) ((48 + n % 10) ∷ rest),
)

lt-pow_ten : (n : ℕ) → n < 10 ^ suc n
lt-pow_ten zero = omega arith
lt-pow_ten (suc n) = omega (arith, lt-pow_ten n, pow-suc 10 (suc n))

digits_from-decimal : (n : ℕ) → digits_from 0 (decimal n) ≡ some n
unfolding decimal digits_from
digits_from-decimal n = digits_from-decimal_onto n n [] (lt-pow_ten n)

pub decimal_inj : (a b : ℕ) → decimal a ≡ decimal b → a ≡ b
decimal_inj a b e = cc (digits_from-decimal a, digits_from-decimal b, ap (digits_from 0) e)

-- Keys are equal exactly if their statuses are.
pub text_eq-decimal : (a b : ℕ) → text_eq (decimal a) (decimal b) ≡ (a == b)
text_eq-decimal a b = elim (Bool-cases (text_eq (decimal a) (decimal b))) [
  | inl e ↦ ground (arith, decimal_inj a b (text_eq_sound (decimal a) (decimal b) e))
  | inr e ↦ ground (arith, text_eq_refl (decimal a), ap decimal)
]

-- The count under a key of `RequestCounts`; a missing key reads as 0.
unfoldable pub count_at : Text → List (Text × ℕ) → ℕ
count_at key [] = 0
count_at key (entry ∷ rest) =
    let later = count_at key rest in if text_eq entry.0 key then entry.1 else later
