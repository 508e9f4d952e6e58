-- ===== src/Nethttp/Counts.antt =====
-- nethttp/job.go: what one `Job` does to the counters, the samples and the mutex, on every path.
use plt.Base.{
  ℕ, suc, ◌≡◌, Bool, false, true, ◌&&◌, Option, none, some, List, [], ◌∷◌, arith, ltb, ◌==◌,
  if◌then◌else◌,
}
use plt.Base.Dict.{lookup, lookup-insert}
use plt.Loadgen.Runner.{Dynhist}
use plt.Nethttp.State.{
  Headers, Producer, Event, dns_start, dns_done, connect_start, connect_done, tls_start, tls_done,
  wrote_request, got_first_byte, Exchange, Result, took,
}
use plt.Nethttp.Job.{
  codes_size, Clocks, read_sample, bump, count_response, trace_event, trace, note_upstream, job,
  sample_text,
}

abbrev pub is_none {ℓ} : {A : Type ℓ} → Option A → Bool
is_none none = true
is_none (some _) = false

-- A response came whose status the array can count.
abbrev pub answered : Exchange → Bool
answered x =
    is_none x.new_request
    && is_none x.prepare
    && is_none x.failure
    && ltb x.response.status codes_size

abbrev pub is_took : Result → Bool
is_took (took _) = true
is_took _ = false

-- The fields that the trace and the upstream's header leave alone.
pub record Same {C : Type 0} (p q : Producer C) : Type 0 where
  pub codes_same : q.resp_code ≡ p.resp_code
  pub total_same : q.total ≡ p.total
  pub lock_same : q.locked ≡ p.locked
  pub flags_same : q.f ≡ p.f
  pub body_same : q.resp_body ≡ p.resp_body

module _ (dh : Dynhist) where
  open dh use {Collector}

  event-Same :
      (start : ℕ) (e : Event) (c : Clocks) (p : Producer Collector)
      → Same p (trace_event dh start e c p).1
  unfolding trace_event
  event-Same start (dns_start t) c p = ground arith
  event-Same start (dns_done t) c p = ground arith
  event-Same start (connect_start t) c p = ground arith
  event-Same start (connect_done t) c p = ground arith
  event-Same start (tls_start t) c p = ground arith
  event-Same start (tls_done t) c p = ground arith
  event-Same start (wrote_request t) c p = ground arith
  event-Same start (got_first_byte t) c p = ground arith

  pub trace-Same :
      (start : ℕ) (es : List Event) (c : Clocks) (p : Producer Collector)
      → Same p (trace dh start es c p).1
  unfolding trace
  trace-Same start [] c p = ground arith
  trace-Same start (e ∷ es) c p =
      let (c', p') = trace_event dh start e c p in
      ground (arith, event-Same start e c p, trace-Same start es c' p')

  pub upstream-Same : (h : Headers) (p : Producer Collector) → Same p (note_upstream dh h p)
  unfolding note_upstream
  upstream-Same h p = ground arith

module _ {C : Type 0} where
  count_response_counts :
      (c : Clocks) (x : Exchange) (p : Producer C) (code : ℕ)
      → ((count_response c x p).0.resp_code code ≡ (
          if ltb x.response.status codes_size && x.response.status == code
          then suc (p.resp_code code)
          else p.resp_code code))
        × ((count_response c x p).0.total
            ≡ (if is_took (count_response c x p).1 then suc p.total else p.total))
  unfolding count_response bump
  count_response_counts c x p code = ground arith

  -- With the mutex free, the samples' keys follow the counts, unless the mutex is kept.
  count_response_samples :
      (c : Clocks) (x : Exchange) (p : Producer C) (code : ℕ)
      → p.locked ≡ false
      → is_none (lookup code p.resp_body) ≡ (p.resp_code code == 0)
      → (count_response c x p).0.locked ≡ false
      → is_none (lookup code (count_response c x p).0.resp_body)
        ≡ ((count_response c x p).0.resp_code code == 0)
  unfolding count_response bump
  count_response_samples c x p code free h out = ground (
    arith,
    lookup-insert x.response.status code (sample_text x.response (read_sample x.response.content).0)
        p.resp_body,
  )

module _ (dh : Dynhist) where
  open dh use {Collector}

  -- Whatever happens to a request, `Job` adds one to the count of the status that answered it, if
  -- one below 600 did, and to no other; it adds one to the total exactly if it returns a time.
  pub job_counters :
      (x : Exchange) (p : Producer Collector) (code : ℕ)
      → ((job dh x p).0.resp_code code ≡ (
          if answered x && x.response.status == code
          then suc (p.resp_code code)
          else p.resp_code code))
        × ((job dh x p).0.total ≡ (if is_took (job dh x p).1 then suc p.total else p.total))
  unfolding job
  job_counters x p code =
      let clocks : Clocks = record { dns = 0; conn = 0; tls = 0; download = x.begun } in
      let (c, q) = trace dh x.begun x.events clocks p in
      let q' = note_upstream dh x.response.header q in
      ground (
        arith,
        trace-Same dh x.begun x.events clocks p,
        upstream-Same dh x.response.header q,
        count_response_counts c x q' code,
      )

  -- While the mutex is free, a status has a sample exactly if it has a count; `Job` keeps that on
  -- every path that leaves the mutex free.
  pub job_samples :
      (x : Exchange) (p : Producer Collector) (code : ℕ)
      → p.locked ≡ false
      → is_none (lookup code p.resp_body) ≡ (p.resp_code code == 0)
      → (job dh x p).0.locked ≡ false
      → is_none (lookup code (job dh x p).0.resp_body) ≡ ((job dh x p).0.resp_code code == 0)
  unfolding job
  job_samples x p code free h out =
      let clocks : Clocks = record { dns = 0; conn = 0; tls = 0; download = x.begun } in
      let (c, q) = trace dh x.begun x.events clocks p in
      let q' = note_upstream dh x.response.header q in
      ground (
        arith,
        trace-Same dh x.begun x.events clocks p,
        upstream-Same dh x.response.header q,
        count_response_samples c x q' code,
      )
