-- ===== src/Tests/Help.antt =====
-- curl's help text: every line of it is read, and two of them not as they are meant.
use plt.Base.{
  ◌⊎◌, ◌≢◌, ◌++◌, Text, ◌≡◌, refl, Bool, true, false, not, ◌&&◌, ◌||◌, Option, none, some, List, [],
  ◌∷◌, codes, is_empty,
}
use plt.Curl.Strings.{trim}
use plt.Curl.Help.{help_lines}
use plt.Curl.Pattern.{Entry, match_line, is_space, is_word, is_long}
use plt.Curl.Printed.{print_entry, IsPrintable, match_line-print_entry}
use plt.Curl.Registration.{
  Flag, ignored_string, is_none, capture_bool, capture_string, capture_strings, is_data, flag_of,
  register,
}
use plt.Curl.Refusals.{ignored_of, none_used, used_strings, used_bools, action-ignored_of}
use plt.Curl.Action.{action, build, request, bad_user, ignored_flags}
use plt.Tests.Curl.{typed, plain}

abbrev data_entry : Entry
data_entry = record {
  short = some b'd';
  long = codes "data";
  arg = codes "DATA";
  desc = codes "HTTP POST data (H)";
}

data_entry-IsPrintable : IsPrintable data_entry
unfolding is_space is_word is_long
data_entry-IsPrintable = record {
  letter_word = refl;
  long_named = refl;
  long_fits = refl;
  arg_fits = refl;
  desc_begins = refl;
}

match_line-print_entry_example :
    match_line (codes " -d, --data DATA  HTTP POST data (H)") ≡ some data_entry
unfolding print_entry
match_line-print_entry_example = match_line-print_entry data_entry 1 data_entry-IsPrintable

-- The text of an entry's shape, as `is_marked_lem` asks for it.
abbrev well_shaped : List Flag → Bool
well_shaped [] = true
well_shaped (f ∷ flags) =
    (is_none (capture_bool f.name) || is_empty f.placeholder)
    && ((is_none (capture_strings f.name) && is_none (capture_string f.name))
        || not (is_empty f.placeholder))
    && well_shaped flags

abbrev shaped : Option (List Flag) → Bool
shaped none = false
shaped (some flags) = well_shaped flags

help_shaped : shaped (register help_lines) ≡ true
unfolding register match_line help_lines trim capture_bool capture_string capture_strings is_data
help_shaped = refl

-- One blank before a description makes its first word an argument.
misread :
    match_line
      (codes "     --proxy-insecure Allow connections to SSL sites without certs for proxy (H)")
    ≡ some (record {
      short = none;
      long = codes "proxy-insecure";
      arg = codes "Allow";
      desc = codes "connections to SSL sites without certs for proxy (H)";
    })
unfolding match_line trim
misread = refl

abbrev two_flags : List Flag
two_flags =
    record {
      name = codes "cacert";
      help = codes "CA certificate to verify peer against (SSL) (flag ignored).";
      placeholder = codes "FILE";
      letter = none;
      target = ignored_string;
    }
    ∷ flag_of data_entry
    ∷ []

action-ignored_of_example :
    let done = action (ignored_of two_flags (λ _. codes "x") (λ _. false)) typed plain in
    ((none_used (λ _. codes "x") (λ _. false) two_flags ≡ false)
      × (done
          ≡ ignored_flags
              (used_strings (λ _. codes "x") two_flags ++ used_bools (λ _. false) two_flags)))
    ⊎ (((none_used (λ _. codes "x") (λ _. false) two_flags ≡ true)
          × (is_empty typed.user ≡ false)
          × ((a b : Text) → typed.user ≢ a ++ (b':' ∷ b))
          × (done ≡ bad_user))
        ⊎ ((none_used (λ _. codes "x") (λ _. false) two_flags ≡ true)
            × ((typed.user ≡ []) ⊎ ((a : Text) × (b : Text) × (typed.user ≡ a ++ (b':' ∷ b))))
            × (done ≡ request (build typed plain))))
action-ignored_of_example = action-ignored_of two_flags (λ _. codes "x") (λ _. false) typed plain
