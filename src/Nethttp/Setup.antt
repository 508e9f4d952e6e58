-- ===== src/Nethttp/Setup.antt =====
-- nethttp/job.go and http3.go: the transports, the counting connection and `NewJobProducer`. Options
-- are hooks of other programs: plt itself passes none.
use plt.Base.{
  ℕ, ◌+◌, ◌*◌, ◌≡◌, Bool, false, true, Option, none, some, List, [], ◌∷◌, ◌++◌, ℤ, arith,
  if◌then◌else◌, text_eq, Text, codes,
}
use plt.Loadgen.Runner.{Dynhist, Err, initial_limit}
use plt.Nethttp.State.{Headers, get_header, Flags, Producer}

-- What a transport's dialer gives: an error, or the connection inside the one that counts its bytes.
pub data Dialed : Type 0 where
  unconnected : Err → Dialed
  counting : Dialed

abbrev pub dial : Option Err → Dialed
dial none = counting
dial (some e) = unconnected e

-- The settings of a transport over HTTP/1 and its dialer; times are nanoseconds.
pub record Http1 : Type 0 where
  pub max_idle_conns : ℕ
  pub max_idle_conns_per_host : ℕ
  pub idle_conn_timeout : ℕ
  pub tls_handshake_timeout : ℕ
  pub expect_continue_timeout : ℕ
  pub disable_compression : Bool
  pub dial_timeout : ℕ
  pub dial_keep_alive : ℕ
  pub dial_context : Option Err → Dialed

pub data Transport : Type 0 where
  over_http1 : Http1 → Transport
  over_http2 :
      (disable_compression allow_http : Bool) → (dial_tls : Option Err → Dialed) → Transport
  over_http3 : Transport

abbrev second : ℕ
second = 1000000000

-- `concurrencyLimit`, which is 50 unless it is positive, is the limit that `newRunner` starts with.
unfoldable pub make_transport1 : ℤ → Transport
make_transport1 concurrency = over_http1 (record {
  max_idle_conns = 100;
  max_idle_conns_per_host = initial_limit concurrency;
  idle_conn_timeout = 90 * second;
  tls_handshake_timeout = 10 * second;
  expect_continue_timeout = second;
  disable_compression = true;
  dial_timeout = 30 * second;
  dial_keep_alive = 30 * second;
  dial_context = dial;
})

abbrev pub make_transport2 : Transport
make_transport2 = over_http2 true true dial

abbrev prepared : Option (Transport → Transport) → Transport → Transport
prepared none t = t
prepared (some prepare) t = prepare t

unfoldable pub make_transport : Flags → ℤ → Option (Transport → Transport) → Transport
unfolding make_transport1
make_transport f concurrency prepare = prepared prepare (
    if f.http2
    then make_transport2
    else if f.http3
    then over_http3
    else make_transport1 concurrency)

module _ {C : Type 0} where
  -- `Read` and `Write` of the counting connection, for the number of bytes moved.
  unfoldable pub conn_read : ℕ → Producer C → Producer C
  conn_read n p = record p { bytes_read = p.bytes_read + n }

  unfoldable pub conn_write : ℕ → Producer C → Producer C
  conn_write n p = record p { bytes_written = p.bytes_written + n }

abbrev pub user_agent : Text
user_agent = codes "User-Agent"

unfoldable pub has_header : Text → Headers → Bool
has_header k [] = false
has_header k ((j, v) ∷ h) = let rest = has_header k h in if text_eq j k then true else rest

-- The map's one default; the producer's flags share the map.
unfoldable pub default_agent : Headers → Headers
default_agent h = if has_header user_agent h then h else (user_agent, codes "plt") ∷ h

abbrev pub join_commas : List Text → Text
join_commas [] = []
join_commas (a ∷ []) = a
join_commas (a ∷ b ∷ more) = a ++ b',' ∷ join_commas (b ∷ more)

pub data Started (C : Type 0) : Type 0 where
  bad_url unresolved : Err → Started C
  ready : Producer C → Transport → Started C

module _ (dh : Dynhist) where
  open dh use {Collector, empty}

  unfoldable pub init_producer : Flags → List Text → Producer Collector
  unfolding default_agent
  init_producer f addresses = record {
    bytes_written = 0;
    write_time = 0;
    bytes_read = 0;
    read_time = 0;
    total = 0;
    resp_code = λ _. 0;
    dns_hist = empty 10;
    conn_hist = empty 10;
    tls_hist = empty 10;
    ttfb_hist = empty 10;
    upstream_hist = empty 10;
    upstream_hist_precise = empty 100;
    f = record f { header_map = default_agent f.header_map };
    locked = false;
    resp_body = [];
    resp_header = [];
    resp_proto = [];
    log = codes "Host resolved: " ++ join_commas addresses ++ (10 ∷ []);
  }

  -- The outcomes of `url.Parse` and `net.LookupHost` come first.
  unfoldable pub new_job_producer :
      Option Err → Option Err → List Text → Flags → ℤ → Started Collector
  unfolding init_producer make_transport
  new_job_producer (some e) _ addresses f concurrency = bad_url e
  new_job_producer none (some e) addresses f concurrency = unresolved e
  new_job_producer none none addresses f concurrency =
      ready (init_producer f addresses) (make_transport f concurrency none)

-- The default agent is there unless the caller's is, and every other header is the caller's.
pub get_header-default_agent :
    (h : Headers) (k : Text)
    → get_header k (default_agent h) ≡ (
        if text_eq user_agent k
        then (if has_header user_agent h then get_header k h else codes "plt")
        else get_header k h)
unfolding default_agent get_header
get_header-default_agent h k = ground arith
