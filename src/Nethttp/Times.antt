-- ===== src/Nethttp/Times.antt =====
-- nethttp/job.go: what one `Job` does to its time counters, and the time that it returns.
use plt.Base.{ℕ, suc, ◌+◌, ◌-◌, ◌≡◌, List, [], ◌∷◌, arith}
use plt.Loadgen.Runner.{Dynhist}
use plt.Nethttp.State.{
  Headers, Producer, Event, dns_start, dns_done, connect_start, connect_done, tls_start, tls_done,
  wrote_request, got_first_byte, Exchange, took,
}
use plt.Nethttp.Job.{Clocks, count_response, trace_event, trace, note_upstream, job}

-- The last time at which the request was written or the response's first byte came; else the start.
abbrev pub last_clock : ℕ → List Event → ℕ
last_clock t [] = t
last_clock t (wrote_request u ∷ es) = last_clock u es
last_clock t (got_first_byte u ∷ es) = last_clock u es
last_clock t (_ ∷ es) = last_clock t es

-- What the writing of the request has taken, in all its attempts.
abbrev pub written : ℕ → List Event → ℕ
written start [] = 0
written start (wrote_request u ∷ es) = (u - start) + written start es
written start (_ ∷ es) = written start es

module _ (dh : Dynhist) where
  open dh use {Collector}

  -- What the trace leaves to the rest of `Job`.
  record Traced (start : ℕ) (es : List Event) (c d : Clocks) (p q : Producer Collector)
      : Type 0 where
    download_there : d.download ≡ last_clock c.download es
    writes : q.write_time ≡ p.write_time + written start es
    reads : q.read_time ≡ p.read_time
    totals_same : q.total ≡ p.total

  trace-Traced :
      (start : ℕ) (es : List Event) (c : Clocks) (p : Producer Collector)
      → Traced start es c (trace dh start es c p).0 p (trace dh start es c p).1
  unfolding trace trace_event
  trace-Traced start [] c p = ground arith
  trace-Traced start (dns_start t ∷ es) c p =
      let now = trace_event dh start (dns_start t) c p in
      ground (arith, trace-Traced start es now.0 now.1)
  trace-Traced start (dns_done t ∷ es) c p =
      let now = trace_event dh start (dns_done t) c p in
      ground (arith, trace-Traced start es now.0 now.1)
  trace-Traced start (connect_start t ∷ es) c p =
      let now = trace_event dh start (connect_start t) c p in
      ground (arith, trace-Traced start es now.0 now.1)
  trace-Traced start (connect_done t ∷ es) c p =
      let now = trace_event dh start (connect_done t) c p in
      ground (arith, trace-Traced start es now.0 now.1)
  trace-Traced start (tls_start t ∷ es) c p =
      let now = trace_event dh start (tls_start t) c p in
      ground (arith, trace-Traced start es now.0 now.1)
  trace-Traced start (tls_done t ∷ es) c p =
      let now = trace_event dh start (tls_done t) c p in
      ground (arith, trace-Traced start es now.0 now.1)
  trace-Traced start (wrote_request t ∷ es) c p =
      let now = trace_event dh start (wrote_request t) c p in
      ground (arith, trace-Traced start es now.0 now.1)
  trace-Traced start (got_first_byte t ∷ es) c p =
      let now = trace_event dh start (got_first_byte t) c p in
      ground (arith, trace-Traced start es now.0 now.1)

  upstream_times :
      (h : Headers) (p : Producer Collector)
      → ((note_upstream dh h p).write_time ≡ p.write_time)
        × ((note_upstream dh h p).read_time ≡ p.read_time)
        × ((note_upstream dh h p).total ≡ p.total)
  unfolding note_upstream
  upstream_times h p = ground arith

  response_times :
      (c : Clocks) (x : Exchange) (p : Producer Collector) (d : ℕ)
      → (count_response c x p).1 ≡ took d
      → (d ≡ x.ended - x.begun)
        × ((count_response c x p).0.write_time ≡ p.write_time)
        × ((count_response c x p).0.read_time ≡ p.read_time + (x.ended - c.download))
        × ((count_response c x p).0.total ≡ suc p.total)
  unfolding count_response
  response_times c x p d h = ground arith

  -- When `Job` returns a time, it is the time from its start to the end of the body. The read time has
  -- then grown by what passed since the last of the events of the written request and of the first
  -- byte, or since the start if neither came; the write time by what passed from the start to every
  -- write of the request; and the total by one.
  pub job-times :
      (x : Exchange) (p : Producer Collector) (d : ℕ)
      → (job dh x p).1 ≡ took d
      → (d ≡ x.ended - x.begun)
        × ((job dh x p).0.read_time ≡ p.read_time + (x.ended - last_clock x.begun x.events))
        × ((job dh x p).0.write_time ≡ p.write_time + written x.begun x.events)
        × ((job dh x p).0.total ≡ suc p.total)
  unfolding job
  job-times x p d h =
      let clocks : Clocks = record { dns = 0; conn = 0; tls = 0; download = x.begun } in
      let (c, q) = trace dh x.begun x.events clocks p in
      let q' = note_upstream dh x.response.header q in
      ground (
        arith,
        trace-Traced x.begun x.events clocks p,
        upstream_times x.response.header q,
        response_times c x q' d,
      )
