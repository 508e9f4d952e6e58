-- ===== src/Fasthttp/Summary.antt =====
-- fasthttp/job.go: `NewJobProducer`, and the summary that `String` gives. The order in which Go walks
-- the map of the counts is the list's.
use plt.Base.{
  ℕ, ◌≡◌, refl, false, Option, none, some, List, [], ◌∷◌, ◌++◌, pos, arith, is_empty, if◌then◌else◌,
  Text, codes, decimal, ap, ◌∙◌,
}
use plt.Base.Dict.{lookup, insert}
use plt.Loadgen.Runner.{Err}
use plt.Report.ByteSize.{byte_size}
use plt.Nethttp.Setup.{has_header, join_commas, user_agent}
use plt.Nethttp.State.{Flags}
use plt.Fasthttp.Job.{Producer, Sample, shown, Exchange, is_took, count_response, job}

-- The client's name is set unless a header of the flags gives one.
pub data Started : Type 0 where
  bad_url unresolved : Err → Started
  ready : Producer → (max_conns_per_host : ℕ) → (name : Text) → Started

-- No response is counted, and no pooled buffer holds a byte of this producer's.
unfoldable pub init_producer : List Text → Producer
init_producer addresses = record {
  bytes_written = 0;
  bytes_read = 0;
  resp_code = [];
  resp_body = [];
  buffers = λ _. [];
  log = codes "Host resolved: " ++ join_commas addresses ++ (10 ∷ []);
}

unfoldable pub new_job_producer : Option Err → Option Err → List Text → Flags → Started
unfolding init_producer has_header
new_job_producer (some e) _ addresses f = bad_url e
new_job_producer none (some e) addresses f = unresolved e
new_job_producer none none addresses f =
    ready (init_producer addresses) 10000
      (if has_header user_agent f.header_map then [] else codes "plt")

abbrev pub newline : Text
newline = 10 ∷ []

unfoldable pub count_lines : List (ℕ × ℕ) → Text
count_lines [] = []
count_lines ((code, n) ∷ more) =
    b'[' ∷ (decimal code ++ codes "] " ++ decimal n ++ newline ++ count_lines more)

-- A status without a sample prints an empty one.
abbrev sample_shown : (ℕ → Text) → Option Sample → Text
sample_shown buffers none = []
sample_shown buffers (some s) = shown buffers s

unfoldable pub sample_lines : Producer → List (ℕ × ℕ) → Text
sample_lines p [] = []
sample_lines p ((code, _) ∷ more) =
    b'['
    ∷ (decimal code
        ++ codes "]"
        ++ newline
        ++ sample_shown p.buffers (lookup code p.resp_body)
        ++ newline
        ++ sample_lines p more)

abbrev pub sized : Text → ℕ → Text
sized title n = title ++ byte_size (pos n) ++ newline

-- What follows the first printing of the counts.
abbrev details : Text → Producer → Text
details counts p =
    codes "Responses by status code"
    ++ newline
    ++ counts
    ++ newline
    ++ sized (codes "Bytes read ") p.bytes_read
    ++ sized (codes "Bytes written ") p.bytes_written
    ++ sample_lines p p.resp_code
    ++ newline

unfoldable pub summary : Producer → Text
unfolding count_lines sample_lines
summary p =
    let counts = count_lines p.resp_code in
    if is_empty counts then [] else p.log ++ (counts ++ (newline ++ details counts p))

is_empty-append : (s t : Text) → is_empty t ≡ false → is_empty (s ++ t) ≡ false
is_empty-append [] t h = h
is_empty-append (c ∷ s) t h = refl

is_empty-count_lines : (m : List (ℕ × ℕ)) → is_empty (count_lines m) ≡ is_empty m
unfolding count_lines
is_empty-count_lines [] = refl
is_empty-count_lines ((code, n) ∷ more) = refl

is_empty_unless : (s t u : Text) → is_empty (if is_empty s then [] else t ++ (s ++ u)) ≡ is_empty s
is_empty_unless [] t u = refl
is_empty_unless (c ∷ s) t u = is_empty-append t ((c ∷ s) ++ u) refl

is_empty-summary : (p : Producer) → is_empty (summary p) ≡ is_empty p.resp_code
unfolding summary
is_empty-summary p =
    let counts = count_lines p.resp_code in
    is_empty_unless counts p.log (newline ++ details counts p) ∙ is_empty-count_lines p.resp_code

job-resp_code :
    (x : Exchange) (p : Producer)
    → (is_empty (job x p).0.resp_code
        ≡ (if is_took (job x p).1 then false else is_empty p.resp_code))
      × (is_took (job x p).1 ≡ false → (job x p).0 ≡ p)
unfolding job count_response insert
job-resp_code x p = ground arith

-- After a job that returned a time the summary is not empty; a job that failed leaves it as it was,
-- and it is empty exactly while no response has been counted.
pub summary-job :
    (x : Exchange) (p : Producer)
    → (is_empty (summary (job x p).0)
        ≡ (if is_took (job x p).1 then false else is_empty p.resp_code))
      × (is_took (job x p).1 ≡ false → summary (job x p).0 ≡ summary p)
      × (is_empty (summary p) ≡ is_empty p.resp_code)
summary-job x p = (
  is_empty-summary (job x p).0 ∙ (job-resp_code x p).0,
  λ failure. ap summary ((job-resp_code x p).1 failure),
  is_empty-summary p,
)
