-- ===== src/Nethttp/Atoi.antt =====
-- The standard library's `strconv.Atoi`, which nethttp/job.go applies to Envoy's header.
use plt.Base.{
  ℕ, zero, suc, ◌+◌, ◌-◌, ◌*◌, ◌^◌, ◌&&◌, Option, none, some, [], ◌∷◌, leb, ltb, ◌==◌,
  if◌then◌else◌, ℤ, pos, negsuc, Text,
}

-- Decimal digits after a value; no digit at all is an error of the caller.
unfoldable pub digits_from : ℕ → Text → Option ℕ
digits_from acc [] = some acc
digits_from acc (c ∷ s) =
    let rest = digits_from (10 * acc + (c - 48)) s in
    if leb b'0' c && leb c b'9' then rest else none

unfoldable pub unsigned : Text → Option ℕ
unfolding digits_from
unsigned [] = none
unsigned (c ∷ s) = digits_from 0 (c ∷ s)

abbrev pub positive : Option ℕ → Option ℤ
positive none = none
positive (some n) = if ltb n (2 ^ 63) then some (pos n) else none

abbrev pub negative : Option ℕ → Option ℤ
negative none = none
negative (some zero) = some (pos 0)
negative (some (suc n)) = if ltb n (2 ^ 63) then some (negsuc n) else none

-- `none` is the error, of syntax or of range.
unfoldable pub atoi : Text → Option ℤ
unfolding unsigned
atoi [] = none
atoi (c ∷ s) =
    if c == b'-'
    then negative (unsigned s)
    else if c == b'+'
    then positive (unsigned s)
    else positive (unsigned (c ∷ s))
