-- ===== src/S3/Options.antt =====
-- s3/cmd.go: the options of the command as `AddCommand` declares them, and `run`. The parser of the
-- command line takes an option's value from the line, else from its environment variable if that is
-- not empty, else its default; it refuses a line without a bucket or a key.
use plt.Base.{
  ℕ, false, ◌++◌, has_prefix, refl, subst, sym, ◌⊎◌, inl, inr, Bool-cases, ◌∷◌, ◌≡◌, Bool, true,
  Option, none, some, [], arith, if◌then◌else◌, Text, codes, is_empty,
}
use Prim.Native.String.{String}
use plt.Loadgen.Flags as LoadFlags
use plt.Loadgen.Flags.{prepare}
use plt.Loadgen.Runner.{Err}
use plt.S3.Job.{
  Flags, Producer, Config, Started, no_session, ready, complete, config_of, with_scheme,
  with_region, new_job_producer,
}

-- The options on a command line.
pub record Given : Type 0 where
  pub access_key : Option Text
  pub secret_key : Option Text
  pub session_token : Option Text
  pub region : Option Text
  pub url : Option Text
  pub bucket : Option Text
  pub key : Option Text
  pub path_style : Bool
  pub save : Option Text
  pub upload : Option Text

abbrev pub text_or : Text → Option Text → Text
text_or default none = default
text_or default (some t) = t

-- An unset variable is the empty text, as `os.Getenv` gives it.
abbrev pub from_environment : (String → Text) → String → Option Text → Text
from_environment env name given = text_or (env name) given

unfoldable pub register : (String → Text) → Given → Option Flags
register env g = elim g.bucket [
  | none ↦ none
  | some bucket ↦ elim g.key [
    | none ↦ none
    | some key ↦ some (record {
      access_key = from_environment env "AWS_ACCESS_KEY" g.access_key;
      secret_key = from_environment env "AWS_SECRET_KEY" g.secret_key;
      session_token = from_environment env "AWS_SESSION_TOKEN" g.session_token;
      region = text_or (codes "eu-central-1") g.region;
      url = text_or [] g.url;
      bucket = bucket;
      key = key;
      path_style = g.path_style;
      save = text_or [] g.save;
      upload = text_or [] g.upload;
    })
  ]
]

-- What `run` comes to: the session's error, or a run of the load generator.
pub data Launch : Type 0 where
  stopped : Err → Launch
  s3_run : LoadFlags.Flags → Producer → Config → Launch

launched : LoadFlags.Flags → Started → Launch
launched lf (no_session e) = stopped e
launched lf (ready p c) = s3_run lf p c

-- The first argument is the outcome of `session.NewSession`.
unfoldable pub run : Option Err → LoadFlags.Flags → Flags → Launch
unfolding launched new_job_producer
run session lf f = launched (prepare lf) (new_job_producer session f)

-- The value is the line's, or where it gives none the other.
abbrev pub FromLine : Option Text → Text → Text → Type 0
FromLine none other value = value ≡ other
FromLine (some given) other value = value ≡ given

-- No URL is no endpoint; one that names a scheme is it, and any other is behind http://.
abbrev pub IsEndpoint : Text → Option Text → Type 0
IsEndpoint url endpoint =
    ((url ≡ []) × (endpoint ≡ none))
    ⊎ ((((has_prefix url (codes "http://") ≡ true) ⊎ (has_prefix url (codes "https://") ≡ true))
          × (endpoint ≡ some url))
        ⊎ ((has_prefix url (codes "http://") ≡ false)
            × (has_prefix url (codes "https://") ≡ false)
            × (endpoint ≡ some (codes "http://" ++ url))))

register-FromLine :
    (env : String → Text) (name : String) (given : Option Text) (value : Text)
    → value ≡ from_environment env name given
    → FromLine given (env name) value
register-FromLine env name none value h = h
register-FromLine env name (some v) value h = h

abbrev endpoint_of : (url : Text) → Option Text
endpoint_of url = if is_empty url then none else some (with_scheme url)

endpoint_of-IsEndpoint : (url : Text) → IsEndpoint url (endpoint_of url)
unfolding with_scheme
endpoint_of-IsEndpoint [] = inl (refl, refl)
endpoint_of-IsEndpoint (c ∷ url) = elim (Bool-cases (has_prefix (c ∷ url) (codes "http://"))) [
  | inl e ↦ inr (inl (inl e, ground (arith, e)))
  | inr e ↦ elim (Bool-cases (has_prefix (c ∷ url) (codes "https://"))) [
    | inl f ↦ inr (inl (inr f, ground (arith, e, f)))
    | inr f ↦ inr (inr (e, f, ground (arith, e, f)))
  ]
]

-- What the fields of a run's configuration are, by the functions of the program.
run_fields :
    (env : String → Text) (session : Option Err) (lf : LoadFlags.Flags) (g : Given) (f : Flags)
    (l : LoadFlags.Flags) (p : Producer) (c : Config)
    → register env g ≡ some f
    → run session lf f ≡ s3_run l p c
    → (session ≡ none)
      × (l ≡ prepare lf)
      × (g.bucket ≡ some p.f.bucket)
      × (g.key ≡ some p.f.key)
      × (c.credentials.0 ≡ from_environment env "AWS_ACCESS_KEY" g.access_key)
      × (c.credentials.1 ≡ from_environment env "AWS_SECRET_KEY" g.secret_key)
      × (c.credentials.2 ≡ from_environment env "AWS_SESSION_TOKEN" g.session_token)
      × (c.endpoint ≡ endpoint_of (text_or [] g.url))
      × (c.force_path_style ≡ (if g.path_style then some true else none))
unfolding register run complete config_of with_region with_scheme
run_fields env session lf g f l p c h r = ground arith

run_region :
    (env : String → Text) (session : Option Err) (lf : LoadFlags.Flags) (g : Given) (f : Flags)
    (l : LoadFlags.Flags) (p : Producer) (c : Config)
    → register env g ≡ some f
    → run session lf f ≡ s3_run l p c
    → ((text_or [] g.region ≡ []) × (c.config_region ≡ codes "eu-central-1"))
      ⊎ ((is_empty (text_or [] g.region) ≡ false) × (g.region ≡ some c.config_region))
unfolding register run complete config_of with_region with_scheme
run_region env session lf g f l p c h r = elim (region_cases g.region) [
  | inl e ↦ inl (ground (arith, e))
  | inr (inl e) ↦ inl (ground (arith, e))
  | inr (inr (b, t, e)) ↦ inr (ground (arith, e))
]
  where
    region_cases :
        (o : Option Text)
        → (o ≡ none) ⊎ ((o ≡ some []) ⊎ ((b : ℕ) × (t : Text) × (o ≡ some (b ∷ t))))
    region_cases none = inl refl
    region_cases (some []) = inr (inl refl)
    region_cases (some (b ∷ t)) = inr (inr (b, t, refl))

-- If a run starts from a line that the parser takes, the session was made, and the run has the
-- prepared flags, the line's bucket and key, and this configuration: the credentials of the line,
-- each from its environment variable where the line has none; the line's region, or eu-central-1
-- where it has none or an empty one; the line's endpoint, if any, as it is if it begins with http://
-- or https://, else behind http://; and path-style addressing if the line asks for it.
pub run-register :
    (env : String → Text) (session : Option Err) (lf : LoadFlags.Flags) (g : Given) (f : Flags)
    (l : LoadFlags.Flags) (p : Producer) (c : Config)
    → register env g ≡ some f
    → run session lf f ≡ s3_run l p c
    → (session ≡ none)
      × (l ≡ prepare lf)
      × (g.bucket ≡ some p.f.bucket)
      × (g.key ≡ some p.f.key)
      × FromLine g.access_key (env "AWS_ACCESS_KEY") c.credentials.0
      × FromLine g.secret_key (env "AWS_SECRET_KEY") c.credentials.1
      × FromLine g.session_token (env "AWS_SESSION_TOKEN") c.credentials.2
      × (((text_or [] g.region ≡ []) × (c.config_region ≡ codes "eu-central-1"))
          ⊎ ((is_empty (text_or [] g.region) ≡ false) × (g.region ≡ some c.config_region)))
      × IsEndpoint (text_or [] g.url) c.endpoint
      × (c.force_path_style ≡ (if g.path_style then some true else none))
run-register env session lf g f l p c h r =
    let (made, prepared, bucket, key, access, secret, token, endpoint, style) =
      run_fields env session lf g f l p c h r in
    (
      made,
      prepared,
      bucket,
      key,
      register-FromLine env "AWS_ACCESS_KEY" g.access_key c.credentials.0 access,
      register-FromLine env "AWS_SECRET_KEY" g.secret_key c.credentials.1 secret,
      register-FromLine env "AWS_SESSION_TOKEN" g.session_token c.credentials.2 token,
      run_region env session lf g f l p c h r,
      subst (IsEndpoint (text_or [] g.url)) (sym endpoint)
          (endpoint_of-IsEndpoint (text_or [] g.url)),
      style,
    )
