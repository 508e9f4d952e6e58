-- ===== src/Curl/Strings.antt =====
-- What curl/cmd.go uses of the standard library's texts: `strings`, `base64` and the canonical form of
-- a header's key.
use plt.Base.{
  ℕ, ◌+◌, ◌-◌, ◌*◌, ◌/◌, ◌%◌, Bool, false, true, ◌&&◌, ◌||◌, Option, none, some, List, [], ◌∷◌,
  ◌++◌, leb, ◌==◌, if◌then◌else◌, Text, codes,
}

-- `strings.ToLower`, for ASCII; no other letter becomes one of a scheme's.
unfoldable pub lower : ℕ → ℕ
lower c = if leb b'A' c && leb c b'Z' then c + 32 else c

unfoldable pub upper : ℕ → ℕ
upper c = if leb b'a' c && leb c b'z' then c - 32 else c

unfoldable pub contains : ℕ → Text → Bool
contains c [] = false
contains c (d ∷ s) = d == c || contains c s

-- `strings.SplitN(s, ":", 2)` where it gives two parts.
unfoldable pub split_colon : Text → Option (Text × Text)
split_colon [] = none
split_colon (c ∷ s) =
    let rest : Option (Text × Text) = elim (split_colon s) [
      | none ↦ none
      | some (k, v) ↦ some (c ∷ k, v)
    ] in
    if c == b':' then some ([], s) else rest

unfoldable pub trim_left : Text → Text
trim_left [] = []
trim_left (c ∷ s) = let rest = trim_left s in if c == b' ' then rest else c ∷ s

-- `strings.Trim(s, " ")`: a blank at the end is dropped with those after it.
unfoldable pub trim_right : Text → Text
trim_right [] = []
trim_right (c ∷ s) = elim (trim_right s) [
  | [] ↦ if c == b' ' then [] else c ∷ []
  | d ∷ t ↦ c ∷ d ∷ t
]

unfoldable pub trim : Text → Text
unfolding trim_left trim_right
trim s = trim_right (trim_left s)

unfoldable pub join_amp : List Text → Text
join_amp [] = []
join_amp (a ∷ []) = a
join_amp (a ∷ b ∷ more) = a ++ b'&' ∷ join_amp (b ∷ more)

-- The digit of six bits.
unfoldable pub base64_digit : ℕ → ℕ
base64_digit n =
    if leb n 25
    then b'A' + n
    else if leb n 51
    then b'a' + (n - 26)
    else if leb n 61
    then b'0' + (n - 52)
    else if n == 62
    then b'+'
    else b'/'

unfoldable pub base64 : Text → Text
unfolding base64_digit
base64 [] = []
base64 (a ∷ []) = base64_digit (a / 4) ∷ base64_digit (a % 4 * 16) ∷ b'=' ∷ b'=' ∷ []
base64 (a ∷ b ∷ []) =
    base64_digit (a / 4)
    ∷ base64_digit (a % 4 * 16 + b / 16)
    ∷ base64_digit (b % 16 * 4)
    ∷ b'='
    ∷ []
base64 (a ∷ b ∷ c ∷ s) =
    base64_digit (a / 4)
    ∷ base64_digit (a % 4 * 16 + b / 16)
    ∷ base64_digit (b % 16 * 4 + c / 64)
    ∷ base64_digit (c % 64)
    ∷ base64 s

-- The bytes of a token, the only ones that a header's key may have.
unfoldable pub is_token : ℕ → Bool
unfolding contains
is_token c =
    (leb b'0' c && leb c b'9')
    || (leb b'A' c && leb c b'Z')
    || (leb b'a' c && leb c b'z')
    || contains c (codes "!#$%&'*+-.^_`|~")

unfoldable pub all_token : Text → Bool
unfolding is_token
all_token [] = true
all_token (c ∷ s) = is_token c && all_token s

-- A letter at the start or after a dash is a capital, any other is small.
unfoldable pub capitalise : Bool → Text → Text
unfolding upper lower
capitalise first [] = []
capitalise first (c ∷ s) = (if first then upper c else lower c) ∷ capitalise (c == b'-') s

-- `http.CanonicalHeaderKey`: a key with another byte is left as it is.
unfoldable pub canonical_key : Text → Text
unfolding all_token capitalise
canonical_key k = if all_token k then capitalise true k else k
