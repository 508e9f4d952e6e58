-- ===== src/Curl/Request.antt =====
-- curl/cmd.go: what the request's flags are, for every command line.
use plt.Base.{
  ◌≡◌, refl, ◌∙◌, ap, ◌⊎◌, inl, inr, Bool, false, true, not, ◌&&◌, Option, none, some, List, [],
  ◌++◌, arith, if◌then◌else◌, Text, text_eq, is_empty, codes, Bool-cases, text_eq_sound,
}
use plt.Curl.Strings.{contains, base64, lower}
use plt.Curl.Headers.{find, put, put_headers, find-put, find-put_headers, last_value}
use plt.Nethttp.State.{Flags}
use plt.Curl.Action.{
  Capture, Ignored, ignored_flags, bad_user, request, ignored_names, body_of, authorization,
  content_type, accept_encoding, form, method_of, with_user, with_content_type, with_encoding,
  has_scheme, with_scheme, headers_of, build, action,
}

-- A request is refused exactly if an option is given that plt does not implement, or a user
-- without a colon.
pub action_refuses :
    (g : Ignored) (c : Capture) (flags : Flags)
    → ((is_empty (ignored_names g) ≡ false) × (action g c flags ≡ ignored_flags (ignored_names g)))
      ⊎ (((is_empty (ignored_names g) ≡ true)
            × (is_empty c.user ≡ false)
            × (contains b':' c.user ≡ false)
            × (action g c flags ≡ bad_user))
          ⊎ ((is_empty (ignored_names g) ≡ true)
              × ((is_empty c.user ≡ true) ⊎ (contains b':' c.user ≡ true))
              × (action g c flags ≡ request (build c flags))))
unfolding action
action_refuses g c flags = ground arith

-- The request's address has a scheme in any spelling of its letters, and is the given address or
-- that behind "http://".
pub with_scheme-has_scheme :
    (url : Text)
    → (has_scheme (with_scheme url) ≡ true)
      × ((with_scheme url ≡ url) ⊎ (with_scheme url ≡ codes "http://" ++ url))
unfolding with_scheme lower
with_scheme-has_scheme url = elim (Bool-cases (has_scheme url)) [
  | inl e ↦ rw (e, with_scheme) (e, inl refl)
  | inr e ↦ rw (e, with_scheme) (refl, inr refl)
]

-- What stands in the header map before the command line's own lines.
abbrev pub default_header : Text → Capture → Text → Option Text
default_header key c body =
    if not (is_empty body) && text_eq content_type key
    then some form
    else if not (is_empty c.user) && text_eq authorization key
    then some (codes "Basic " ++ base64 c.user)
    else none

abbrev pub or_gzip : Bool → Option Text → Option Text
or_gzip true none = some (codes "gzip, deflate")
or_gzip _ v = v

find-default :
    (key : Text) (c : Capture) (body : Text)
    → find key (with_content_type body (with_user c.user [])) ≡ default_header key c body
unfolding with_content_type with_user find
find-default key c body = ground (
  arith,
  find-put content_type key form [],
  find-put content_type key form (put authorization (codes "Basic " ++ base64 c.user) []),
  find-put authorization key (codes "Basic " ++ base64 c.user) [],
)

find-with_encoding :
    (key : Text) (compressed : Bool) (m : List (Text × Text))
    → find key (with_encoding compressed m)
      ≡ (if text_eq accept_encoding key then or_gzip compressed (find key m) else find key m)
unfolding with_encoding
find-with_encoding key compressed m = elim (Bool-cases (text_eq accept_encoding key)) [
  | inl e ↦ ground (
    arith,
    find-put accept_encoding key (codes "gzip, deflate") m,
    ap (λ k. find k m) (text_eq_sound accept_encoding key e),
  )
  | inr e ↦ ground (arith, find-put accept_encoding key (codes "gzip, deflate") m)
]

-- The request that a command line becomes: its body, its method, and for every header the value of
-- the last line that names it, which goes before the form's type, the user and the encoding.
pub build_lem :
    (c : Capture) (flags : Flags) (key : Text)
    → let body = body_of c.payload flags.body in
      let named = last_value key c.header (default_header key c body) in
      ((build c flags).body ≡ body)
      × ((build c flags).method ≡ (
          if c.head
          then codes "HEAD"
          else if is_empty flags.method && not (is_empty body)
          then codes "POST"
          else flags.method))
      × (find key (build c flags).header_map
          ≡ (if text_eq accept_encoding key then or_gzip c.compressed named else named))
unfolding build headers_of method_of
build_lem c flags key =
    let body = body_of c.payload flags.body in
    let m = with_content_type body (with_user c.user []) in
    (refl, ground arith, headers_found body m (find-default key c body))
  where
    headers_found :
        (body : Text) (m : List (Text × Text))
        → find key m ≡ default_header key c body
        → find key (with_encoding c.compressed (put_headers c.header m)) ≡ (
            if text_eq accept_encoding key
            then or_gzip c.compressed (last_value key c.header (default_header key c body))
            else last_value key c.header (default_header key c body))
    headers_found body m e =
        find-with_encoding key c.compressed (put_headers c.header m)
        ∙ ap (λ v. if text_eq accept_encoding key then or_gzip c.compressed v else v)
            (find-put_headers key c.header m ∙ ap (last_value key c.header) e)
