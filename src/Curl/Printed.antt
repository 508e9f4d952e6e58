-- ===== src/Curl/Printed.antt =====
-- curl/cmd.go: a line that is laid out as curl's help lays it out is read back by the pattern.
use plt.Base.{
  ℕ, zero, suc, ◌≡◌, refl, ◌∙◌, Bool, true, false, not, ◌&&◌, Option, none, some, [], ◌∷◌, ◌++◌,
  arith, Text, codes, is_empty,
}
use plt.Curl.Strings.{trim, trim_left, trim_right}
use plt.Curl.Pattern.{
  Entry, is_space, is_word, is_long, span, match_desc, match_arg, match_tail, match_long,
  match_short, match_line,
}

abbrev pub all : (ℕ → Bool) → Text → Bool
all p [] = true
all p (c ∷ s) = p c && all p s

abbrev pub is_mark : ℕ → Bool
is_mark c = not (is_space c)

abbrev pub blanks : ℕ → Text
blanks zero = []
blanks (suc n) = b' ' ∷ blanks n

-- Five blanks, or the letter after one.
abbrev lead : Option ℕ → Text
lead none = codes "     "
lead (some w) = b' ' ∷ b'-' ∷ w ∷ b',' ∷ b' ' ∷ []

abbrev tail : Text → ℕ → Text → Text
tail [] gap desc = b' ' ∷ b' ' ∷ (blanks gap ++ desc)
tail (c ∷ arg) gap desc = b' ' ∷ ((c ∷ arg) ++ (b' ' ∷ (blanks gap ++ desc)))

-- The layout of an option, with a gap before its description: at least one blank behind an
-- argument, and at least two where there is none.
unfoldable pub print_entry : Entry → ℕ → Text
print_entry e gap = lead e.short ++ (b'-' ∷ b'-' ∷ (e.long ++ tail e.arg gap e.desc))

abbrev begins_word : Text → Bool
begins_word [] = false
begins_word (c ∷ s) = not (is_space c)

abbrev letter_fits : Option ℕ → Bool
letter_fits none = true
letter_fits (some w) = is_word w

-- The parts of an option that the help text can name.
pub record IsPrintable (e : Entry) : Type 0 where
  pub letter_word : letter_fits e.short ≡ true
  pub long_named : is_empty e.long ≡ false
  pub long_fits : all is_long e.long ≡ true
  pub arg_fits : all is_mark e.arg ≡ true
  pub desc_begins : begins_word e.desc ≡ true

abbrev stops : (ℕ → Bool) → Text → Bool
stops p [] = true
stops p (c ∷ s) = not (p c)

span-append :
    (p : ℕ → Bool) (run rest : Text)
    → all p run ≡ true
    → stops p rest ≡ true
    → span p (run ++ rest) ≡ (run, rest)
unfolding span
span-append p [] [] h k = refl
span-append p [] (c ∷ rest) h k = ground arith
span-append p (c ∷ run) rest h k = ground (arith, span-append p run rest)

all-blanks : (n : ℕ) → all is_space (blanks n) ≡ true
unfolding is_space
all-blanks zero = refl
all-blanks (suc n) = all-blanks n

trim_right-marks : (s : Text) → all is_mark s ≡ true → trim_right s ≡ s
unfolding trim_right is_space
trim_right-marks [] h = refl
trim_right-marks (c ∷ []) h = ground arith
trim_right-marks (c ∷ d ∷ s) h = ground (arith, trim_right-marks (d ∷ s))

match_desc-blanks :
    (gap : ℕ) (desc : Text)
    → begins_word desc ≡ true
    → match_desc (b' ' ∷ (blanks gap ++ desc)) ≡ some desc
unfolding match_desc
match_desc-blanks gap [] h = absurd (ground arith)
match_desc-blanks gap (d ∷ s) h =
    rw (span-append is_space (b' ' ∷ blanks gap) (d ∷ s) (all-blanks gap) h) refl

match_arg_blank : (t : Text) → match_arg (b' ' ∷ b' ' ∷ t) ≡ none
unfolding match_arg span is_space
match_arg_blank t = refl

match_arg-word :
    (c : ℕ) (arg : Text) (gap : ℕ) (desc : Text)
    → all is_mark (c ∷ arg) ≡ true
    → begins_word desc ≡ true
    → match_arg (tail (c ∷ arg) gap desc) ≡ some (c ∷ arg, desc)
unfolding match_arg trim trim_left
match_arg-word c arg gap desc h k = ground (
  arith,
  span-append is_mark (c ∷ arg) (b' ' ∷ (blanks gap ++ desc)),
  match_desc-blanks gap desc,
  trim_right-marks (c ∷ arg),
)

match_tail-tail :
    (arg : Text) (gap : ℕ) (desc : Text)
    → all is_mark arg ≡ true
    → begins_word desc ≡ true
    → match_tail (tail arg gap desc) ≡ some (arg, desc)
unfolding match_tail
match_tail-tail [] gap desc h k =
    ground (arith, match_arg_blank (blanks gap ++ desc), match_desc-blanks (suc gap) desc)
match_tail-tail (c ∷ arg) gap desc h k = ground (arith, match_arg-word c arg gap desc)

stops-tail : (arg : Text) (gap : ℕ) (desc : Text) → stops is_long (tail arg gap desc) ≡ true
unfolding is_long
stops-tail [] gap desc = refl
stops-tail (c ∷ arg) gap desc = refl

match_long-printed :
    (short : Option ℕ) (e : Entry) (gap : ℕ)
    → IsPrintable e
    → match_long short (b' ' ∷ b'-' ∷ b'-' ∷ (e.long ++ tail e.arg gap e.desc))
      ≡ some (record e { short = short })
unfolding match_long
match_long-printed short e gap v = ground (
  arith,
  span-append is_long e.long (tail e.arg gap e.desc),
  stops-tail e.arg gap e.desc,
  match_tail-tail e.arg gap e.desc,
)

match_line_blank : (c : ℕ) (s : Text) → match_line (b' ' ∷ b' ' ∷ c ∷ s) ≡ match_line (b' ' ∷ c ∷ s)
unfolding match_line match_short match_long is_space
match_line_blank c s = refl

match_line_long :
    (s : Text) (e : Entry)
    → match_long none (b' ' ∷ b'-' ∷ b'-' ∷ s) ≡ some e
    → match_line (b' ' ∷ b'-' ∷ b'-' ∷ s) ≡ some e
unfolding match_line match_short
match_line_long s e h = ground arith

match_long_letter :
    (w : ℕ) (s : Text) → is_word w ≡ true → match_long none (b' ' ∷ b'-' ∷ w ∷ s) ≡ none
unfolding match_long is_word
match_long_letter w s h = ground arith

match_line_letter :
    (w : ℕ) (s : Text) (e : Entry)
    → is_word w ≡ true
    → match_long (some w) s ≡ some e
    → match_line (b' ' ∷ b'-' ∷ w ∷ b',' ∷ s) ≡ some e
unfolding match_line match_short
match_line_letter w s e h k = ground (arith, match_long_letter w (b',' ∷ s))

-- A line that lays out an option's parts, with its letter or without, is read back as that option:
-- with an argument and any gap of at least one blank before the description, or without one and
-- with a gap of at least two blanks.
pub match_line-print_entry :
    (e : Entry) (gap : ℕ) → IsPrintable e → match_line (print_entry e gap) ≡ some e
unfolding print_entry
match_line-print_entry e gap v = printed e.short v.letter_word
  where
    rest : Text
    rest = e.long ++ tail e.arg gap e.desc

    printed :
        (short : Option ℕ)
        → letter_fits short ≡ true
        → match_line (lead short ++ (b'-' ∷ b'-' ∷ rest)) ≡ some (record e { short = short })
    printed none h =
        match_line_blank b' ' (b' ' ∷ b' ' ∷ b'-' ∷ b'-' ∷ rest)
        ∙ match_line_blank b' ' (b' ' ∷ b'-' ∷ b'-' ∷ rest)
        ∙ match_line_blank b' ' (b'-' ∷ b'-' ∷ rest)
        ∙ match_line_blank b'-' (b'-' ∷ rest)
        ∙ match_line_long rest (record e { short = none }) (match_long-printed none e gap v)
    printed (some w) h =
        match_line_letter w (b' ' ∷ b'-' ∷ b'-' ∷ rest) (record e { short = some w }) h
          (match_long-printed (some w) e gap v)
