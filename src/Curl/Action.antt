-- ===== src/Curl/Action.antt =====
-- curl/cmd.go: the action that turns the parsed command line into a request's flags. The command
-- line's parser is kingpin's: the captured values are arguments.
use plt.Base.{
  Bool, false, true, not, ◌&&◌, ◌||◌, Option, none, some, List, [], ◌∷◌, ◌++◌, map, if◌then◌else◌,
  Text, text_eq, has_prefix, is_empty, codes,
}
use plt.Curl.Strings.{contains, join_amp, base64, lower}
use plt.Curl.Headers.{find, put, put_headers}
use plt.Nethttp.State.{Flags}

pub record Capture : Type 0 where
  pub header : List Text
  pub payload : List Text
  pub compressed : Bool
  pub user : Text
  pub output : Text
  pub head : Bool

-- The options that plt accepts and does not implement, with their values.
pub record Ignored : Type 0 where
  pub strings : List (Text × Text)
  pub bools : List (Text × Bool)

pub data Outcome : Type 0 where
  ignored_flags : List Text → Outcome
  bad_user : Outcome
  request : Flags → Outcome

unfoldable pub given_strings : List (Text × Text) → List Text
given_strings [] = []
given_strings ((f, v) ∷ more) = if is_empty v then given_strings more else f ∷ given_strings more

unfoldable pub given_bools : List (Text × Bool) → List Text
given_bools [] = []
given_bools ((f, v) ∷ more) = if v then f ∷ given_bools more else given_bools more

unfoldable pub ignored_names : Ignored → List Text
unfolding given_strings given_bools
ignored_names g = given_strings g.strings ++ given_bools g.bools

-- One `-d` is the body as it is; several are joined; none leaves the body.
unfoldable pub body_of : List Text → Text → Text
body_of [] body = body
body_of (d ∷ []) body = d
body_of (d ∷ e ∷ more) body = join_amp (d ∷ e ∷ more)

abbrev pub authorization : Text
authorization = codes "Authorization"

abbrev pub content_type : Text
content_type = codes "Content-Type"

abbrev pub accept_encoding : Text
accept_encoding = codes "Accept-Encoding"

abbrev pub form : Text
form = codes "application/x-www-form-urlencoded"

unfoldable pub method_of : Bool → Text → Text → Text
method_of head body method =
    let m = if head then codes "HEAD" else method in
    if not (is_empty body) && is_empty m then codes "POST" else m

unfoldable pub with_user : Text → List (Text × Text) → List (Text × Text)
with_user user m = if is_empty user then m else put authorization (codes "Basic " ++ base64 user) m

unfoldable pub with_content_type : Text → List (Text × Text) → List (Text × Text)
with_content_type body m = if is_empty body then m else put content_type form m

abbrev present : Option Text → Bool
present none = false
present (some _) = true

unfoldable pub with_encoding : Bool → List (Text × Text) → List (Text × Text)
with_encoding compressed m =
    if compressed && not (present (find accept_encoding m))
    then put accept_encoding (codes "gzip, deflate") m
    else m

unfoldable pub has_scheme : Text → Bool
has_scheme url =
    has_prefix (map lower url) (codes "http://") || has_prefix (map lower url) (codes "https://")

unfoldable pub with_scheme : Text → Text
unfolding has_scheme
with_scheme url = if has_scheme url then url else codes "http://" ++ url

abbrev is_null : Text → Bool
is_null output = text_eq output (codes "/dev/null") || text_eq output (codes "nul")

-- The header map, from the empty one on.
unfoldable pub headers_of : Capture → Text → List (Text × Text)
headers_of c body =
    with_encoding c.compressed (put_headers c.header (with_content_type body (with_user c.user [])))

unfoldable pub build : Capture → Flags → Flags
unfolding body_of
build c flags =
    let body = body_of c.payload flags.body in
    record flags {
      body = body;
      method = method_of c.head body flags.method;
      header_map = headers_of c body;
      ignore_response_body =
          if flags.no_keepalive && is_null c.output then true else flags.ignore_response_body;
      url = with_scheme flags.url;
    }

unfoldable pub action : Ignored → Capture → Flags → Outcome
unfolding ignored_names build
action g c flags =
    if not (is_empty (ignored_names g))
    then ignored_flags (ignored_names g)
    else if not (is_empty c.user) && not (contains b':' c.user)
    then bad_user
    else request (build c flags)
