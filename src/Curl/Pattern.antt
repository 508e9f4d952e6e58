-- ===== src/Curl/Pattern.antt =====
-- curl/cmd.go: the regular expression by which a line of the help text becomes an option, as Go matches
-- it: from the left, and each part greedily as long as the rest can follow. A line has no newline.
use plt.Base.{ℕ, Bool, not, ◌&&◌, ◌||◌, Option, none, some, [], ◌∷◌, leb, ◌==◌, if◌then◌else◌, Text}
use plt.Curl.Strings.{trim}

-- The classes `\s`, `[\w]` and `[\w\-.]`.
unfoldable pub is_space : ℕ → Bool
is_space c = c == 32 || c == 9 || c == 10 || c == 12 || c == 13

unfoldable pub is_word : ℕ → Bool
is_word c =
    (leb b'0' c && leb c b'9')
    || (leb b'A' c && leb c b'Z')
    || (leb b'a' c && leb c b'z')
    || c == b'_'

unfoldable pub is_long : ℕ → Bool
unfolding is_word
is_long c = is_word c || c == b'-' || c == b'.'

-- The longest run of a class, and the rest.
unfoldable pub span : (ℕ → Bool) → Text → Text × Text
span p [] = ([], [])
span p (c ∷ s) = let (run, rest) = span p s in if p c then (c ∷ run, rest) else ([], c ∷ s)

pub record Entry : Type 0 where
  pub short : Option ℕ
  pub long : Text
  pub arg : Text
  pub desc : Text

-- Blanks to the line's end give their last one to the description.
unfoldable pub last_blank : Text → Option Text
last_blank [] = none
last_blank (c ∷ []) = none
last_blank (c ∷ d ∷ []) = some (d ∷ [])
last_blank (c ∷ d ∷ e ∷ s) = last_blank (d ∷ e ∷ s)

abbrev desc_of : Text × Text → Option Text
desc_of ([], rest) = none
desc_of (c ∷ more, []) = last_blank (c ∷ more)
desc_of (c ∷ more, d ∷ s) = some (d ∷ s)

-- `\s+(?P<Desc>.+)$`
unfoldable pub match_desc : Text → Option Text
unfolding span is_space last_blank
match_desc t = desc_of (span is_space t)

abbrev arg_of : ℕ → Text × Text → Option (Text × Text)
arg_of c ([], rest) = none
arg_of c (d ∷ word, rest) = elim (match_desc rest) [
  | none ↦ none
  | some desc ↦ if is_space c then some (trim (c ∷ d ∷ word), desc) else none
]

-- `\s[^\s]+`, before the description.
unfoldable pub match_arg : Text → Option (Text × Text)
unfolding match_desc
match_arg [] = none
match_arg (c ∷ s) = arg_of c (span (λ d. not (is_space d)) s)

-- The argument is taken if it can be.
unfoldable pub match_tail : Text → Option (Text × Text)
unfolding match_arg
match_tail t = elim (match_arg t) [
  | some found ↦ some found
  | none ↦ elim (match_desc t) [ none ↦ none | some desc ↦ some ([], desc) ]
]

abbrev long_of : Option ℕ → Text × Text → Option Entry
long_of short ([], rest) = none
long_of short (l ∷ long, rest) = elim (match_tail rest) [
  | none ↦ none
  | some (arg, desc) ↦ some (record { short = short; long = l ∷ long; arg = arg; desc = desc })
]

-- `\s--(?P<Long>[\w\-.]+)`, and what follows. Only the longest run can be followed by a blank.
unfoldable pub match_long : Option ℕ → Text → Option Entry
unfolding match_tail is_long
match_long short (c ∷ a ∷ b ∷ s) =
    if is_space c && a == b'-' && b == b'-' then long_of short (span is_long s) else none
match_long short _ = none

-- `(?P<Short>-[\w],)?`: with the letter if that leads to a match.
unfoldable pub match_short : Text → Option Entry
unfolding match_long is_word
match_short (a ∷ w ∷ b ∷ s) =
    if a == b'-' && is_word w && b == b',' then match_long (some w) s else none
match_short _ = none

-- The leftmost match.
unfoldable pub match_line : Text → Option Entry
unfolding match_short
match_line [] = none
match_line (c ∷ s) = elim (match_short (c ∷ s)) [
  | some e ↦ some e
  | none ↦ elim (match_long none (c ∷ s)) [ some e ↦ some e | none ↦ match_line s ]
]
