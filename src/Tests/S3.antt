-- ===== src/Tests/S3.antt =====
-- s3 at a download that works.
use plt.Base.{
  ◌⊎◌, ◌≡◌, refl, true, false, none, some, [], ℕ, if◌then◌else◌, codes, is_empty, Option, Text,
}
use Prim.Native.String.{String}
use plt.Loadgen.Flags.{prepare}
use plt.Tests.Loadgen.{two_requests}
use plt.S3.Options.{Given, register, run, text_or, FromLine, IsEndpoint, run-register}
use plt.S3.Job.{Flags, Producer, Config, complete, config_of, with_region, Transfer, with_scheme}

abbrev pub bucket_flags : Flags
bucket_flags = record {
  access_key = [];
  secret_key = [];
  session_token = [];
  region = codes "eu-central-1";
  url = [];
  bucket = codes "b";
  key = codes "k";
  path_style = false;
  save = [];
  upload = [];
}

abbrev pub fresh : Producer
fresh = record { f = bucket_flags; tot_bytes = 0; tot = 0 }

abbrev pub fetched : Transfer
fetched = record { file = none; failure = none; bytes = 500; elapsed = 9 }

scheme_added : with_scheme (codes "localhost:9000") ≡ codes "http://localhost:9000"
unfolding with_scheme
scheme_added = refl

abbrev line : Given
line = record {
  access_key = some (codes "me");
  secret_key = none;
  session_token = none;
  region = none;
  url = some (codes "localhost:9000");
  bucket = some (codes "b");
  key = some (codes "k");
  path_style = true;
  save = none;
  upload = none;
}

abbrev local_flags : Flags
local_flags = record bucket_flags {
  access_key = codes "me";
  secret_key = codes "env";
  session_token = codes "env";
  url = codes "localhost:9000";
  path_style = true;
}

-- The flags inside the producer are completed.
abbrev local_producer : Producer
local_producer = record {
  f = record local_flags { url = codes "http://localhost:9000" };
  tot_bytes = 0;
  tot = 0;
}

abbrev local_config : Config
local_config = record {
  credentials = (codes "me", codes "env", codes "env");
  config_region = codes "eu-central-1";
  force_path_style = some true;
  endpoint = some (codes "http://localhost:9000");
}

abbrev environment : String → Text
environment _ = codes "env"

run-register_example :
    (◌≡◌ {A = Option ℕ} none none)
    × (two_requests ≡ prepare two_requests)
    × (line.bucket ≡ some bucket_flags.bucket)
    × (line.key ≡ some bucket_flags.key)
    × FromLine line.access_key (environment "AWS_ACCESS_KEY") local_config.credentials.0
    × FromLine line.secret_key (environment "AWS_SECRET_KEY") local_config.credentials.1
    × FromLine line.session_token (environment "AWS_SESSION_TOKEN") local_config.credentials.2
    × (((text_or [] line.region ≡ []) × (local_config.config_region ≡ codes "eu-central-1"))
        ⊎ ((is_empty (text_or [] line.region) ≡ false)
            × (line.region ≡ some local_config.config_region)))
    × IsEndpoint (text_or [] line.url) local_config.endpoint
    × (local_config.force_path_style ≡ (if line.path_style then some true else none))
unfolding register run complete config_of with_scheme with_region prepare
run-register_example =
    run-register environment none two_requests line local_flags two_requests local_producer
      local_config refl refl
