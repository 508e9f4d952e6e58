-- ===== src/S3/Job.antt =====
-- s3/job.go and s3/cmd.go: the flags' defaults, `Job` with its download and upload, and the totals.
-- The AWS SDK's session, downloader and uploader are outside: their outcomes are arguments.
use plt.Base.{
  ℕ, suc, ◌+◌, ◌<◌, ◌≡◌, ◌⊎◌, Bool, false, true, not, ◌&&◌, Option, none, some, ◌++◌, arith, ◌==◌,
  if◌then◌else◌, has_prefix, is_empty, Text, codes, length,
}
use plt.Loadgen.Runner.{Err}

pub record Flags : Type 0 where
  pub access_key : Text
  pub secret_key : Text
  pub session_token : Text
  pub region : Text
  pub url : Text
  pub bucket : Text
  pub key : Text
  pub path_style : Bool
  pub save : Text
  pub upload : Text

abbrev http : Text
http = codes "http://"

abbrev https : Text
https = codes "https://"

unfoldable pub with_scheme : Text → Text
with_scheme url =
    if not (is_empty url) && not (has_prefix url http) && not (has_prefix url https)
    then http ++ url
    else url

unfoldable pub with_region : Text → Text
with_region region = if is_empty region then codes "eu-central-1" else region

-- `aws.Config`: the endpoint and the path style are set where the flags give them.
pub record Config : Type 0 where
  pub credentials : Text × Text × Text
  pub config_region : Text
  pub endpoint : Option Text
  pub force_path_style : Option Bool

pub record Producer : Type 0 where
  pub f : Flags
  pub tot_bytes : ℕ
  pub tot : ℕ

unfoldable pub complete : Flags → Flags
unfolding with_scheme with_region
complete f = record f { url = with_scheme f.url; region = with_region f.region }

unfoldable pub config_of : Flags → Config
config_of f = record {
  credentials = (f.access_key, f.secret_key, f.session_token);
  config_region = f.region;
  endpoint = if is_empty f.url then none else some f.url;
  force_path_style = if f.path_style then some true else none;
}

pub data Started : Type 0 where
  no_session : Err → Started
  ready : Producer → Config → Started

-- The first argument is the outcome of `session.NewSession`.
unfoldable pub new_job_producer : Option Err → Flags → Started
unfolding complete config_of
new_job_producer (some e) f = no_session e
new_job_producer none f =
    ready (record { f = complete f; tot_bytes = 0; tot = 0 }) (config_of (complete f))

-- The writer that keeps nothing: it tells the number of bytes given.
unfoldable pub nop_write_at : Text → ℕ → ℕ × Option Err
nop_write_at p offset = (length p, none)

-- What a transfer meets: the local file's opening or creation, and the transfer's bytes or error.
pub record Transfer : Type 0 where
  pub file : Option Err
  pub failure : Option Err
  pub bytes : ℕ
  pub elapsed : ℕ

pub data Failure : Type 0 where
  create_failed download_failed open_failed upload_failed : Err → Failure

pub data Result : Type 0 where
  took : ℕ → Result
  failed : Failure → Result

abbrev transferred : (Err → Failure) → Option Err → Option Failure
transferred wrap none = none
transferred wrap (some e) = some (wrap e)

-- The first download is saved to a file, if one is asked for.
unfoldable pub download : ℕ → Transfer → Producer → Producer × Option Failure
download i x p =
    let outcome : Producer × Option Failure = elim x.failure [
      | some e ↦ (p, some (download_failed e))
      | none ↦ (record p { tot_bytes = p.tot_bytes + x.bytes }, none)
    ] in
    if i == 0 && not (is_empty p.f.save)
    then elim x.file [ some e ↦ (p, some (create_failed e)) | none ↦ outcome ]
    else outcome

unfoldable pub upload : Transfer → Producer → Producer × Option Failure
upload x p = elim x.file [
  | some e ↦ (p, some (open_failed e))
  | none ↦ (p, transferred upload_failed x.failure)
]

unfoldable pub job : ℕ → Transfer → Producer → Producer × Result
unfolding download upload
job i x p =
    let (q, failure) = if is_empty p.f.upload then download i x p else upload x p in
    elim failure [ some e ↦ (q, failed e) | none ↦ (record q { tot = suc q.tot }, took x.elapsed) ]

abbrev pub is_took : Result → Bool
is_took (took _) = true
is_took (failed _) = false

-- A job that returns a time adds one to the total, and its bytes if it was a download; a job that
-- fails changes nothing. A job returns a time exactly if its transfer worked and the local file,
-- where it needs one, was there.
pub job_totals :
    (i : ℕ) (x : Transfer) (p : Producer)
    → ((job i x p).0.tot ≡ (if is_took (job i x p).1 then suc p.tot else p.tot))
      × ((job i x p).0.tot_bytes ≡ (
          if is_took (job i x p).1 && is_empty p.f.upload
          then p.tot_bytes + x.bytes
          else p.tot_bytes))
      × ((job i x p).0.f ≡ p.f)
      × ((is_took (job i x p).1 ≡ true)
          → (x.failure ≡ none)
            × ((x.file ≡ none)
                ⊎ ((is_empty p.f.upload ≡ true) × ((0 < i) ⊎ (is_empty p.f.save ≡ true)))))
      × (x.failure ≡ none → x.file ≡ none → is_took (job i x p).1 ≡ true)
unfolding job
job_totals i x p = ground arith
