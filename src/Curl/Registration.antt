-- ===== src/Curl/Registration.antt =====
-- curl/cmd.go: the options of the command, made from the lines of the help text, and the variables
-- that they fill. Filling them from a command line is kingpin's.
use plt.Base.{
  ℕ, ◌≡◌, refl, ap, text_eq_sound, inl, inr, Bool, true, false, not, ◌&&◌, ◌||◌, Option, none, some,
  List, [], ◌∷◌, ◌++◌, arith, if◌then◌else◌, Text, text_eq, codes, is_empty, Bool-cases,
}
use plt.Curl.Pattern.{Entry, match_line}

-- The variable of an option: one that plt reads, or one for the options that it ignores.
pub data Target : Type 0 where
  to_header to_data : Target
  to_url to_method to_user to_output : Target
  to_compressed to_no_keepalive to_http2 to_head : Target
  ignored_string ignored_bool : Target

abbrev among : Text → List Text → Bool
among name [] = false
among name (n ∷ names) = text_eq name n || among name names

-- `captureStrings`, apart from `header`.
abbrev pub data_names : List Text
data_names =
    codes "data"
    ∷ codes "data-raw"
    ∷ codes "data-ascii"
    ∷ codes "data-binary"
    ∷ codes "data-urlencode"
    ∷ []

unfoldable pub is_data : Text → Bool
is_data name = among name data_names

unfoldable pub capture_strings : Text → Option Target
capture_strings name =
    if text_eq name (codes "header")
    then some to_header
    else if is_data name
    then some to_data
    else none

unfoldable pub capture_string : Text → Option Target
capture_string name =
    if text_eq name (codes "url")
    then some to_url
    else if text_eq name (codes "request")
    then some to_method
    else if text_eq name (codes "user")
    then some to_user
    else if text_eq name (codes "output")
    then some to_output
    else none

unfoldable pub capture_bool : Text → Option Target
capture_bool name =
    if text_eq name (codes "compressed")
    then some to_compressed
    else if text_eq name (codes "no-keepalive")
    then some to_no_keepalive
    else if text_eq name (codes "http2")
    then some to_http2
    else if text_eq name (codes "head")
    then some to_head
    else none

abbrev pub or_target : Option Target → Target → Target
or_target none t = t
or_target (some t) _ = t

-- `nonEmptyArg` and `emptyArg`
unfoldable pub target_of : Text → Text → Target
unfolding capture_strings capture_string capture_bool
target_of long arg =
    if is_empty arg
    then or_target (capture_bool long) ignored_bool
    else or_target (capture_strings long) (or_target (capture_string long) ignored_string)

abbrev pub is_none : Option Target → Bool
is_none none = true
is_none (some _) = false

-- Whether the description says that the option is ignored.
unfoldable pub is_marked : Text → Bool
unfolding capture_string capture_bool
is_marked long =
    not (text_eq long (codes "header"))
    && is_none (capture_string long)
    && is_none (capture_bool long)

pub record Flag : Type 0 where
  pub name : Text
  pub help : Text
  pub placeholder : Text
  pub letter : Option ℕ
  pub target : Target

unfoldable pub flag_of : Entry → Flag
unfolding target_of is_marked
flag_of e = record {
  name = e.long;
  help = e.desc ++ ((if is_marked e.long then codes " (flag ignored)" else []) ++ codes ".");
  placeholder = e.arg;
  letter = e.short;
  target = target_of e.long e.arg;
}

-- kingpin has options of these names.
unfoldable pub is_builtin : Text → Bool
is_builtin long = text_eq long (codes "help") || text_eq long (codes "version")

-- `none` is the panic at a line that does not match.
unfoldable pub register : List Text → Option (List Flag)
unfolding flag_of is_builtin
register [] = some []
register (line ∷ lines) = elim (match_line line) [
  | none ↦ none
  | some e ↦ elim (register lines) [
    | none ↦ none
    | some flags ↦ some (if is_builtin e.long then flags else flag_of e ∷ flags)
  ]
]

abbrev pub is_ignored : Target → Bool
is_ignored ignored_string = true
is_ignored ignored_bool = true
is_ignored _ = false

is_none-capture_strings :
    (long : Text)
    → is_none (capture_strings long) ≡ (not (text_eq long (codes "header")) && not (is_data long))
unfolding capture_strings
is_none-capture_strings long = ground arith

or-strings :
    (long : Text) (t : Target)
    → is_ignored (or_target (capture_strings long) t)
      ≡ (not (text_eq long (codes "header")) && not (is_data long) && is_ignored t)
unfolding capture_strings
or-strings long t = ground arith

or-string :
    (long : Text) (t : Target)
    → is_ignored (or_target (capture_string long) t)
      ≡ (is_none (capture_string long) && is_ignored t)
unfolding capture_string
or-string long t = ground arith

or-bool :
    (long : Text) (t : Target)
    → is_ignored (or_target (capture_bool long) t) ≡ (is_none (capture_bool long) && is_ignored t)
unfolding capture_bool
or-bool long t = ground arith

abbrev every : (Text → Bool) → List Text → Bool
every p [] = true
every p (n ∷ names) = p n && every p names

among-every :
    (p : Text → Bool) (name : Text) (names : List Text)
    → every p names ≡ true
    → among name names ≡ true
    → p name ≡ true
among-every p name [] h k = absurd (ground arith)
among-every p name (n ∷ names) h k = elim (Bool-cases (text_eq name n)) [
  | inl e ↦ ground (arith, ap p (text_eq_sound name n e))
  | inr e ↦ ground (arith, among-every p name names)
]

abbrev is_other : Text → Bool
is_other name = not (text_eq name (codes "header")) && is_none (capture_string name)

data_names_other : (name : Text) → is_data name ≡ true → is_other name ≡ true
unfolding capture_string is_data
data_names_other name h = among-every is_other name data_names refl h

-- If the help text gives an argument to the options that hold texts, and none to those that hold a
-- truth value, an option is described as ignored exactly if its variable is not read, but for the
-- data options: they are read, and are described as ignored all the same.
pub is_marked_lem :
    (long arg : Text)
    → (is_none (capture_bool long) ≡ false → is_empty arg ≡ true)
    → (is_none (capture_strings long) && is_none (capture_string long) ≡ false
        → is_empty arg ≡ false)
    → is_marked long ≡ (is_ignored (target_of long arg) || is_data long)
unfolding is_marked target_of
is_marked_lem long arg flag text = ground (
  arith,
  data_names_other long,
  is_none-capture_strings long,
  or-strings long (or_target (capture_string long) ignored_string),
  or-string long ignored_string,
  or-bool long ignored_bool,
)
