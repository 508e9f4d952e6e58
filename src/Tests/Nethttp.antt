-- ===== src/Tests/Nethttp.antt =====
-- nethttp at a response that is whole, and at one that breaks off.
use mathlib.Core.Option
use plt.Base.{◌+◌, ◌-◌, ℕ, ◌≡◌, refl, true, false, none, some, List, [], ◌∷◌, ℤ, pos, arith, codes}
use plt.Tests.Loadgen.{samples}
use plt.Nethttp.State.{
  get_header, Flags, Producer, wrote_request, got_first_byte, Exchange, Ending, at_eof, broken,
  failed,
}
use plt.Nethttp.Job.{bump, read_sample, job, trace, trace_event, note_upstream, count_response}
use plt.Nethttp.Times.{job-times}
use plt.Nethttp.Atoi.{atoi}
use plt.Nethttp.History.{run_jobs}
use plt.Nethttp.Mutex.{request_counts, job_keeps_mutex}
use plt.Nethttp.Summary.{shown_statuses, summary, summary-request_counts}
use plt.Nethttp.Setup.{init_producer}

abbrev pub flags : Flags
flags = record {
  header_map = [];
  url = codes "http://a";
  body = [];
  method = codes "GET";
  no_keepalive = false;
  compressed = false;
  fast = false;
  ignore_response_body = false;
  http2 = false;
  http3 = false;
}

abbrev pub fresh : Producer (List ℤ)
fresh = init_producer samples flags (codes "10.0.0.1" ∷ [])

abbrev pub answer : ℕ → Ending → Exchange
answer status ending = record {
  new_request = none;
  prepare = none;
  begun = 10;
  events = wrote_request 12 ∷ got_first_byte 20 ∷ [];
  failure = none;
  response = record {
    status = status;
    header = (codes "X-Envoy-Upstream-Service-Time", codes "7") ∷ [];
    proto = codes "HTTP/1.1";
    content = record { bytes = codes "hello"; ending = ending };
    close = none;
  };
  ended = 25;
}

atoi_signed : (atoi (codes "+42") ≡ some (pos 42)) × (atoi (codes "4x") ≡ none)
unfolding atoi
atoi_signed = (refl, refl)

job_keeps_mutex_example :
    ((job samples (answer 200 (broken 3)) fresh).1 ≡ failed 3)
    × ((job samples (answer 200 (broken 3)) fresh).0.locked ≡ true)
unfolding init_producer
job_keeps_mutex_example =
    job_keeps_mutex samples (answer 200 (broken 3)) fresh 3 refl refl refl (omega arith) refl

summary-request_counts_example :
    Option.map
      (shown_statuses samples)
      (summary samples (run_jobs samples (answer 200 at_eof ∷ answer 404 at_eof ∷ []) fresh).0)
    ≡ request_counts (run_jobs samples (answer 200 at_eof ∷ answer 404 at_eof ∷ []) fresh).0
summary-request_counts_example =
    summary-request_counts samples
      (run_jobs samples (answer 200 at_eof ∷ answer 404 at_eof ∷ []) fresh).0

job-times_example :
    (15 ≡ 25 - 10)
    × ((job samples (answer 200 at_eof) fresh).0.read_time ≡ 0 + (25 - 20))
    × ((job samples (answer 200 at_eof) fresh).0.write_time ≡ 0 + 2)
    × ((job samples (answer 200 at_eof) fresh).0.total ≡ 1)
unfolding init_producer job trace trace_event note_upstream count_response bump atoi get_header
    read_sample
job-times_example = job-times samples (answer 200 at_eof) fresh 15 refl
