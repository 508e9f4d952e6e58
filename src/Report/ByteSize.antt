-- ===== src/Report/ByteSize.antt =====
-- report/print.go: `ByteSize`. The value is a double that is printed with one decimal, rounded to
-- the nearest, ties to even; a double divided by a power of two is exact.
use plt.Base.{
  ℕ, suc, ◌+◌, ◌*◌, ◌/◌, ◌%◌, ◌^◌, [], ◌∷◌, ◌++◌, ltb, leb, ◌==◌, if◌then◌else◌, ℤ, pos, negsuc,
  Text, codes, decimal,
}
use plt.Loadgen.Percent.{round_53}

abbrev pub byte : ℕ
byte = 1

abbrev pub kilobyte : ℕ
kilobyte = 2 ^ 10

abbrev pub megabyte : ℕ
megabyte = 2 ^ 20

abbrev pub gigabyte : ℕ
gigabyte = 2 ^ 30

abbrev pub terabyte : ℕ
terabyte = 2 ^ 40

abbrev pub petabyte : ℕ
petabyte = 2 ^ 50

abbrev pub exabyte : ℕ
exabyte = 2 ^ 60

-- What the value is divided by, and the unit's letters.
unfoldable pub unit_of : ℕ → ℕ × Text
unit_of n =
    if leb exabyte n
    then (exabyte, codes "EB")
    else if leb petabyte n
    then (petabyte, codes "PB")
    else if leb terabyte n
    then (terabyte, codes "TB")
    else if leb gigabyte n
    then (gigabyte, codes "GB")
    else if leb megabyte n
    then (megabyte, codes "MB")
    else if leb kilobyte n
    then (kilobyte, codes "KB")
    else (byte, codes "B")

-- A quotient in tenths, rounded to the nearest, ties to even.
unfoldable pub tenths : ℕ → ℕ → ℕ
tenths v unit =
    let q = 10 * v / unit in
    let r = 10 * v % unit in
    if ltb (2 * r) unit
    then q
    else if ltb unit (2 * r)
    then q + 1
    else if q % 2 == 0
    then q
    else q + 1

-- `FormatFloat(value, 'f', 1, 64)` without its suffix ".0".
unfoldable pub print_tenths : ℕ → Text
print_tenths t =
    if t % 10 == 0 then decimal (t / 10) else decimal (t / 10) ++ (b'.' ∷ (48 + t % 10) ∷ [])

unfoldable pub byte_size : ℤ → Text
unfolding unit_of tenths print_tenths
byte_size (pos n) = print_tenths (tenths (round_53 n) (unit_of n).0) ++ (unit_of n).1
byte_size (negsuc n) = b'-' ∷ (print_tenths (tenths (round_53 (suc n)) byte) ++ codes "B")
