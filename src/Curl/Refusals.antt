-- ===== src/Curl/Refusals.antt =====
-- curl/cmd.go: the ignored options as the parser fills them and the action reads them.
use plt.Base.{
  ℕ, ap, sym, ◌≢◌, ◌⊎◌, inl, inr, Bool-cases, ◌==◌, if◌then◌else◌, ◌≡◌, refl, ◌∙◌, Bool, true,
  false, not, ◌&&◌, List, [], ◌∷◌, ◌++◌, arith, Text, is_empty,
}
use mathlib.Core.Bool.{false≢true}
use plt.Curl.Request.{action_refuses}
use plt.Curl.Strings.{contains}
use plt.Nethttp.State as HttpFlags
use plt.Curl.Action.{
  Capture, action, build, request, bad_user, ignored_flags, Ignored, given_strings, given_bools,
  ignored_names,
}
use plt.Curl.Registration.{ignored_string, ignored_bool, Flag}

-- The values that the parser has put into the ignored options, one variable to an option.
abbrev strings_of : (Text → Text) → List Flag → List (Text × Text)
strings_of values [] = []
strings_of values (f ∷ flags) =
    let rest = strings_of values flags in
    elim f.target [ ignored_string ↦ (f.name, values f.name) ∷ rest | _ ↦ rest ]

abbrev bools_of : (Text → Bool) → List Flag → List (Text × Bool)
bools_of given [] = []
bools_of given (f ∷ flags) =
    let rest = bools_of given flags in
    elim f.target [ ignored_bool ↦ (f.name, given f.name) ∷ rest | _ ↦ rest ]

unfoldable pub ignored_of : List Flag → (Text → Text) → (Text → Bool) → Ignored
ignored_of flags values given = record {
  strings = strings_of values flags;
  bools = bools_of given flags;
}

-- An option is used on the command line and its variable is not read.
abbrev pub is_used : (Text → Text) → (Text → Bool) → Flag → Bool
is_used values given f = elim f.target [
  | ignored_string ↦ not (is_empty (values f.name))
  | ignored_bool ↦ given f.name
  | _ ↦ false
]

abbrev pub none_used : (Text → Text) → (Text → Bool) → List Flag → Bool
none_used values given [] = true
none_used values given (f ∷ flags) = not (is_used values given f) && none_used values given flags

is_empty-names :
    (values : Text → Text) (given : Text → Bool) (flags : List Flag)
    → (is_empty (given_strings (strings_of values flags))
        && is_empty (given_bools (bools_of given flags)))
      ≡ none_used values given flags
unfolding given_strings given_bools
is_empty-names values given [] = refl
is_empty-names values given (f ∷ flags) = ground (arith, is_empty-names values given flags)

is_empty-append {ℓ} : {A : Type ℓ} (s t : List A) → is_empty (s ++ t) ≡ (is_empty s && is_empty t)
is_empty-append [] t = refl
is_empty-append (c ∷ s) t = refl

pub ignored_names-used :
    (flags : List Flag) (values : Text → Text) (given : Text → Bool)
    → is_empty (ignored_names (ignored_of flags values given)) ≡ none_used values given flags
unfolding ignored_of ignored_names
ignored_names-used flags values given =
    is_empty-append (given_strings (strings_of values flags)) (given_bools (bools_of given flags))
    ∙ is_empty-names values given flags

-- The names of the options that are used, of those with a value and of the switches.
abbrev pub used_strings : (Text → Text) → List Flag → List Text
used_strings values [] = []
used_strings values (f ∷ flags) =
    let rest = used_strings values flags in
    elim f.target [
      | ignored_string ↦ if is_empty (values f.name) then rest else f.name ∷ rest
      | _ ↦ rest
    ]

abbrev pub used_bools : (Text → Bool) → List Flag → List Text
used_bools given [] = []
used_bools given (f ∷ flags) =
    let rest = used_bools given flags in
    elim f.target [ ignored_bool ↦ if given f.name then f.name ∷ rest else rest | _ ↦ rest ]

given_strings-used :
    (values : Text → Text) (flags : List Flag)
    → given_strings (strings_of values flags) ≡ used_strings values flags
unfolding given_strings
given_strings-used values [] = refl
given_strings-used values (f ∷ flags) = ground (arith, given_strings-used values flags)

given_bools-used :
    (given : Text → Bool) (flags : List Flag)
    → given_bools (bools_of given flags) ≡ used_bools given flags
unfolding given_bools
given_bools-used given [] = refl
given_bools-used given (f ∷ flags) = ground (arith, given_bools-used given flags)

used_names :
    (flags : List Flag) (values : Text → Text) (given : Text → Bool)
    → ignored_names (ignored_of flags values given)
      ≡ used_strings values flags ++ used_bools given flags
unfolding ignored_of ignored_names
used_names flags values given =
    ap (λ names. names ++ given_bools (bools_of given flags)) (given_strings-used values flags)
    ∙ ap (λ names. used_strings values flags ++ names) (given_bools-used given flags)

contains-split :
    (c : ℕ) (s : Text) → contains c s ≡ true → (a : Text) × (b : Text) × (s ≡ a ++ (c ∷ b))
unfolding contains
contains-split c [] h = absurd (ground arith)
contains-split c (d ∷ s) h = elim (Bool-cases (d == c)) [
  | inl e ↦ ([], s, ground (arith, e))
  | inr e ↦
      let (a, b, same) = contains-split c s (ground (arith, e, h)) in
      (d ∷ a, b, ap (λ (t : Text). d ∷ t) same)
]

contains-append : (c : ℕ) (a b : Text) → contains c (a ++ (c ∷ b)) ≡ true
unfolding contains
contains-append c [] b = ground arith
contains-append c (d ∷ a) b = ground (arith, contains-append c a b)

not_split : (c : ℕ) (s : Text) → contains c s ≡ false → (a b : Text) → s ≢ a ++ (c ∷ b)
not_split c s h a b e = false≢true (sym h ∙ ap (contains c) e ∙ contains-append c a b)

empty_text : (s : Text) → is_empty s ≡ true → s ≡ []
empty_text [] h = refl
empty_text (c ∷ s) h = absurd (ground arith)

-- For any options as `AddCommand` makes them, whatever a command line gives to them: the action
-- refuses with the names of the used options whose variables are not read, those with a value first,
-- if there is one; else it refuses a user that is given without a colon; else it goes on to the
-- request.
pub action-ignored_of :
    (flags : List Flag) (values : Text → Text) (given : Text → Bool) (c : Capture)
    (r : HttpFlags.Flags)
    → let done = action (ignored_of flags values given) c r in
      ((none_used values given flags ≡ false)
        × (done ≡ ignored_flags (used_strings values flags ++ used_bools given flags)))
      ⊎ (((none_used values given flags ≡ true)
            × (is_empty c.user ≡ false)
            × ((a b : Text) → c.user ≢ a ++ (b':' ∷ b))
            × (done ≡ bad_user))
          ⊎ ((none_used values given flags ≡ true)
              × ((c.user ≡ []) ⊎ ((a : Text) × (b : Text) × (c.user ≡ a ++ (b':' ∷ b))))
              × (done ≡ request (build c r))))
action-ignored_of flags values given c r =
    let g = ignored_of flags values given in
    let used = ignored_names-used flags values given in
    elim (action_refuses g c r) [
      | inl (some_used, done) ↦
          inl (sym used ∙ some_used, done ∙ ap ignored_flags (used_names flags values given))
      | inr (inl (unused, user, colon, done)) ↦
          inr (inl (sym used ∙ unused, user, not_split b':' c.user colon, done))
      | inr (inr (unused, user, done)) ↦ inr (
          inr (
            sym used ∙ unused,
            elim user [
              | inl none_given ↦ inl (empty_text c.user none_given)
              | inr colon ↦ inr (contains-split b':' c.user colon)
            ],
            done,
          ))
    ]
