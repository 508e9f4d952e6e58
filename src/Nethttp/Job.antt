-- ===== src/Nethttp/Job.antt =====
-- nethttp/job.go: `Job`, from the request to the counters and the sample.
use plt.Base.{
  ℕ, suc, ◌+◌, ◌-◌, Bool, false, true, Option, none, some, List, [], ◌∷◌, ◌++◌, pos, ltb, ◌==◌,
  if◌then◌else◌, length, take, Text, codes, is_empty,
}
use plt.Base.Dict.{insert}
use plt.Loadgen.Runner.{Dynhist, Err}
use plt.Report.PeekBody.{peek_body}
use plt.Nethttp.Atoi.{atoi}
use plt.Nethttp.State.{
  Headers, get_header, Producer, Event, dns_start, dns_done, connect_start, connect_done, tls_start,
  tls_done, wrote_request, got_first_byte, Ending, at_eof, cut_short, broken, Body, Response,
  Exchange, Result, took, failed, panicked, blocked,
}

abbrev pub sample_size : ℕ
sample_size = 1000

-- The length of `respCode`.
abbrev pub codes_size : ℕ
codes_size = 600

-- The variables that the trace's callbacks share with `Job`.
pub record Clocks : Type 0 where
  pub dns : ℕ
  pub conn : ℕ
  pub tls : ℕ
  pub download : ℕ

-- The errors for which the sample is given up: an EOF of either kind is none.
abbrev sample_error : Ending → Option Err
sample_error at_eof = none
sample_error (cut_short _) = none
sample_error (broken e) = some e

-- `io.ReadAtLeast` over a buffer of that length: the bytes read, and the error.
unfoldable pub read_sample : Body → Text × Option Err
read_sample b =
    if ltb sample_size (length b.bytes)
    then (take (suc sample_size) b.bytes, none)
    else (b.bytes, sample_error b.ending)

abbrev envoy_header : Text
envoy_header = codes "X-Envoy-Upstream-Service-Time"

abbrev encoding_header : Text
encoding_header = codes "Content-Encoding"

unfoldable pub sample_text : Response → Text → Text
unfolding get_header
sample_text r body =
    let encoding = get_header encoding_header r.header in
    if is_empty encoding
    then peek_body body sample_size
    else codes "<" ++ encoding ++ codes "-encoded-content>"

unfoldable pub bump : ℕ → (ℕ → ℕ) → ℕ → ℕ
bump code counts c = if c == code then suc (counts c) else counts c

-- `io.Copy` of what is left.
abbrev copy_error : Bool → Ending → Option Err
copy_error true _ = none
copy_error false at_eof = none
copy_error false (cut_short e) = some e
copy_error false (broken e) = some e

module _ {C : Type 0} where
  abbrev pub store_sample : Response → Text → Producer C → Producer C
  store_sample r body p = record p {
    resp_body = insert r.status (sample_text r body) p.resp_body;
    resp_header = insert r.status r.header p.resp_header;
    resp_proto = insert r.status r.proto p.resp_proto;
  }

  -- The first response of a status: the lock is taken, and given back unless the read fails.
  unfoldable pub sample_first : Response → Producer C → Producer C × Option Result
  sample_first r p =
      let (body, error) = read_sample r.content in
      if p.locked then (p, some blocked) else elim error [
        | none ↦ (store_sample r body p, none)
        | some e ↦ (record p { locked = true }, some (failed e))
      ]

  finish_times : Clocks → Exchange → Producer C → Producer C × Result
  finish_times c x p = (
    record p { read_time = p.read_time + (x.ended - c.download); total = suc p.total },
    took (x.ended - x.begun),
  )

  -- From the sample on: the rest of the body is read, and the body closed.
  unfoldable pub drain : Clocks → Exchange → Producer C → Producer C × Result
  unfolding finish_times
  drain c x p = elim (copy_error p.f.ignore_response_body x.response.content.ending) [
    | some e ↦ (p, failed e)
    | none ↦ elim x.response.close [ some e ↦ (p, failed e) | none ↦ finish_times c x p ]
  ]

  abbrev unless_stopped :
      Producer C × Option Result → (Producer C → Producer C × Result) → Producer C × Result
  unless_stopped (p, some r) k = (p, r)
  unless_stopped (p, none) k = k p

  -- The count of the status, by an index into an array of 600.
  unfoldable pub count_response : Clocks → Exchange → Producer C → Producer C × Result
  unfolding sample_first drain
  count_response c x p =
      let code = x.response.status in
      let counted = record p { resp_code = bump code p.resp_code } in
      if ltb code codes_size
      then unless_stopped
          (if counted.resp_code code == 1 then sample_first x.response counted else (counted, none))
          (drain c x)
      else (p, panicked)

module _ (dh : Dynhist) where
  open dh use {Collector, add}

  -- One callback of the trace; durations are differences of the clock's readings.
  unfoldable pub trace_event : ℕ → Event → Clocks → Producer Collector → Clocks × Producer Collector
  trace_event start (dns_start t) c p = (record c { dns = t }, p)
  trace_event start (dns_done t) c p = (c, record p { dns_hist = add p.dns_hist (pos (t - c.dns)) })
  trace_event start (connect_start t) c p = (record c { conn = t }, p)
  trace_event start (connect_done t) c p =
      (c, record p { conn_hist = add p.conn_hist (pos (t - c.conn)) })
  trace_event start (tls_start t) c p = (record c { tls = t }, p)
  trace_event start (tls_done t) c p = (c, record p { tls_hist = add p.tls_hist (pos (t - c.tls)) })
  trace_event start (wrote_request t) c p =
      (record c { download = t }, record p { write_time = p.write_time + (t - start) })
  trace_event start (got_first_byte t) c p =
      (record c { download = t }, record p { ttfb_hist = add p.ttfb_hist (pos (t - start)) })

  unfoldable pub trace : ℕ → List Event → Clocks → Producer Collector → Clocks × Producer Collector
  trace start [] c p = (c, p)
  trace start (e ∷ rest) c p = let (c', p') = trace_event start e c p in trace start rest c' p'

  -- Envoy's header, where it is a number: its milliseconds go to both collectors.
  unfoldable pub note_upstream : Headers → Producer Collector → Producer Collector
  note_upstream h p = elim (atoi (get_header envoy_header h)) [
    | none ↦ p
    | some ms ↦ record p {
      upstream_hist = add p.upstream_hist ms;
      upstream_hist_precise = add p.upstream_hist_precise ms;
    }
  ]

  unfoldable pub round_trip : Exchange → Producer Collector → Producer Collector × Result
  round_trip x p =
      let clocks : Clocks = record { dns = 0; conn = 0; tls = 0; download = x.begun } in
      let (c, traced) = trace x.begun x.events clocks p in
      elim x.failure [
        | some e ↦ (traced, failed e)
        | none ↦ count_response c x (note_upstream x.response.header traced)
      ]

  unfoldable pub job : Exchange → Producer Collector → Producer Collector × Result
  unfolding round_trip
  job x p = elim x.new_request [
    | some e ↦ (p, failed e)
    | none ↦ elim x.prepare [ some e ↦ (p, failed e) | none ↦ round_trip x p ]
  ]
