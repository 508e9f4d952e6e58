-- ===== src/Nethttp/State.antt =====
-- nethttp/job.go: the flags, the `JobProducer` struct, and what a request meets.
use plt.Base.{ℕ, Bool, Option, List, [], ◌∷◌, text_eq, if◌then◌else◌, Text}
use plt.Loadgen.Runner.{Err}

abbrev pub Headers : Type 0
Headers = List (Text × Text)

-- `http.Header.Get`: the first value under a canonical key, or the empty text.
unfoldable pub get_header : Text → Headers → Text
get_header k [] = []
get_header k ((j, v) ∷ h) = let rest = get_header k h in if text_eq j k then v else rest

pub record Flags : Type 0 where
  pub header_map : Headers
  pub url : Text
  pub body : Text
  pub method : Text
  pub no_keepalive : Bool
  pub compressed : Bool
  pub fast : Bool
  pub ignore_response_body : Bool
  pub http2 : Bool
  pub http3 : Bool

-- The struct, over the collectors' type. `locked` is the mutex; times are nanoseconds; the three
-- maps have status codes for keys.
pub record Producer (C : Type 0) : Type 0 where
  pub bytes_written : ℕ
  pub write_time : ℕ
  pub bytes_read : ℕ
  pub read_time : ℕ
  pub total : ℕ
  pub resp_code : ℕ → ℕ
  pub dns_hist : C
  pub conn_hist : C
  pub tls_hist : C
  pub ttfb_hist : C
  pub upstream_hist : C
  pub upstream_hist_precise : C
  pub f : Flags
  pub locked : Bool
  pub resp_body : List (ℕ × Text)
  pub resp_header : List (ℕ × Headers)
  pub resp_proto : List (ℕ × Text)
  pub log : Text

-- The callbacks of the client's trace, with the clock's reading.
pub data Event : Type 0 where
  dns_start dns_done connect_start connect_done tls_start tls_done : ℕ → Event
  wrote_request got_first_byte : ℕ → Event

-- How a body's reader ends: by EOF, by an unexpected EOF where the body is cut short, or by another
-- error.
pub data Ending : Type 0 where
  at_eof : Ending
  cut_short broken : Err → Ending

pub record Body : Type 0 where
  pub bytes : Text
  pub ending : Ending

pub record Response : Type 0 where
  pub status : ℕ
  pub header : Headers
  pub proto : Text
  pub content : Body
  pub close : Option Err

-- One request's surroundings: the outcomes of `http.NewRequest` and `PrepareRequest`, the time
-- before the round trip, the trace's events, the response or error, and the time at the end.
pub record Exchange : Type 0 where
  pub new_request : Option Err
  pub prepare : Option Err
  pub begun : ℕ
  pub events : List Event
  pub failure : Option Err
  pub response : Response
  pub ended : ℕ

-- `Job` returns a time or an error, panics on an index out of range, or waits for the mutex.
pub data Result : Type 0 where
  took : ℕ → Result
  failed : Err → Result
  panicked blocked : Result
