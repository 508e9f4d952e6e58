-- ===== src/Curl/Headers.antt =====
-- The header map of curl/cmd.go: a Go map from texts to texts.
use plt.Base.{
  ◌≡◌, refl, ◌∙◌, ap, inl, inr, true, Option, none, some, List, [], ◌∷◌, arith, if◌then◌else◌, Text,
  text_eq, text_eq_sound, Option-cases,
}
use plt.Base.Dict.{without}
use plt.Curl.Strings.{split_colon, trim, canonical_key}

unfoldable pub find : Text → List (Text × Text) → Option Text
find name [] = none
find name (entry ∷ rest) =
    let later = find name rest in if text_eq entry.0 name then some entry.1 else later

unfoldable pub put : Text → Text → List (Text × Text) → List (Text × Text)
put name value headers = (name, value) ∷ without (λ other. text_eq other name) headers

text_eq_left : (i k j : Text) → text_eq i k ≡ true → text_eq i j ≡ text_eq k j
text_eq_left i k j e = ap (λ t. text_eq t j) (text_eq_sound i k e)

text_eq_right : (i k j : Text) → text_eq k j ≡ true → text_eq i k ≡ text_eq i j
text_eq_right i k j e = ap (text_eq i) (text_eq_sound k j e)

find-without :
    (gone name : Text) (headers : List (Text × Text))
    → find name (without (λ other. text_eq other gone) headers)
      ≡ (if text_eq gone name then none else find name headers)
unfolding find without
find-without gone name [] = ground arith
find-without gone name (entry ∷ rest) = ground (
  arith,
  find-without gone name rest,
  text_eq_left entry.0 gone name,
  text_eq_right entry.0 gone name,
)

-- A name is found after a `put` as it was put, and any other as before.
pub find-put :
    (name other value : Text) (headers : List (Text × Text))
    → find other (put name value headers)
      ≡ (if text_eq name other then some value else find other headers)
unfolding find put
find-put name other value headers = ground (arith, find-without name other headers)

-- One `-H` line: without a colon it is passed over.
unfoldable pub put_header : Text → List (Text × Text) → List (Text × Text)
put_header line m = elim (split_colon line) [
  | none ↦ m
  | some (k, v) ↦ put (canonical_key k) (trim v) m
]

unfoldable pub put_headers : List Text → List (Text × Text) → List (Text × Text)
unfolding put_header
put_headers [] m = m
put_headers (line ∷ more) m = put_headers more (put_header line m)

-- The value that a line gives to a key.
abbrev pub value_of : Text → Text → Option Text
value_of key line = elim (split_colon line) [
  | none ↦ none
  | some (k, v) ↦ if text_eq (canonical_key k) key then some (trim v) else none
]

-- The value of the last line that gives one, or the default.
abbrev pub last_value : Text → List Text → Option Text → Option Text
last_value key [] default = default
last_value key (line ∷ more) default =
    last_value key more (elim (value_of key line) [ none ↦ default | some v ↦ some v ])

find-put_header :
    (key line : Text) (m : List (Text × Text))
    → find key (put_header line m)
      ≡ elim (value_of key line) [ none ↦ find key m | some v ↦ some v ]
unfolding put_header
find-put_header key line m = elim (Option-cases (split_colon line)) [
  | inl e ↦ ground arith
  | inr ((k, v), e) ↦ ground (arith, find-put (canonical_key k) key (trim v) m)
]

-- After the lines a key has the value of the last line that names it, in any spelling of its
-- letters, and else the value that it had.
pub find-put_headers :
    (key : Text) (lines : List Text) (m : List (Text × Text))
    → find key (put_headers lines m) ≡ last_value key lines (find key m)
unfolding put_headers
find-put_headers key [] m = refl
find-put_headers key (line ∷ more) m =
    find-put_headers key more (put_header line m)
    ∙ ap (last_value key more) (find-put_header key line m)
