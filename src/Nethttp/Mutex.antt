-- ===== src/Nethttp/Mutex.antt =====
-- nethttp/job.go: the mutex around the samples, and the path that keeps it.
use plt.Base.{
  ℕ, ◌≤◌, ◌<◌, ◌≡◌, false, true, Option, none, some, List, arith, if◌then◌else◌, length, Text,
  decimal, map,
}
use plt.Loadgen.Runner.{Dynhist, Err}
use plt.Nethttp.State.{Producer, Exchange, broken, failed, blocked}
use plt.Nethttp.Job.{
  sample_size, codes_size, Clocks, read_sample, bump, count_response, trace, note_upstream, job,
}
use plt.Nethttp.Counts.{answered, trace-Same, upstream-Same}

-- `RequestCounts`; `none` where the caller waits for the mutex.
module _ {C : Type 0} where
  unfoldable pub request_counts : Producer C → Option (List (Text × ℕ))
  request_counts p =
      if p.locked then none else some (map (λ e. (decimal e.0, p.resp_code e.0)) p.resp_body)

  count_response_leaks :
      (c : Clocks) (x : Exchange) (p : Producer C) (e : Err)
      → p.locked ≡ false
      → x.response.status < codes_size
      → p.resp_code x.response.status ≡ 0
      → length x.response.content.bytes ≤ sample_size
      → x.response.content.ending ≡ broken e
      → ((count_response c x p).1 ≡ failed e) × ((count_response c x p).0.locked ≡ true)
  unfolding count_response bump read_sample
  count_response_leaks c x p e free small first short cut = ground arith

  count_response_blocks :
      (c : Clocks) (x : Exchange) (p : Producer C)
      → p.locked ≡ true
      → x.response.status < codes_size
      → p.resp_code x.response.status ≡ 0
      → ((count_response c x p).1 ≡ blocked) × ((count_response c x p).0.locked ≡ true)
  unfolding count_response bump
  count_response_blocks c x p held small first = ground arith

module _ (dh : Dynhist) where
  open dh use {Collector}

  -- If the body of the first response of a status breaks off within the sample, with an error other
  -- than an EOF, `Job` returns the error and keeps the mutex.
  pub job_keeps_mutex :
      (x : Exchange) (p : Producer Collector) (e : Err)
      → answered x ≡ true
      → p.locked ≡ false
      → p.resp_code x.response.status ≡ 0
      → length x.response.content.bytes ≤ sample_size
      → x.response.content.ending ≡ broken e
      → ((job dh x p).1 ≡ failed e) × ((job dh x p).0.locked ≡ true)
  unfolding job
  job_keeps_mutex x p e ans free first short cut =
      let clocks : Clocks = record { dns = 0; conn = 0; tls = 0; download = x.begun } in
      let (c, q) = trace dh x.begun x.events clocks p in
      let q' = note_upstream dh x.response.header q in
      ground (
        arith,
        trace-Same dh x.begun x.events clocks p,
        upstream-Same dh x.response.header q,
        count_response_leaks c x q' e,
      )

  -- While the mutex is kept, a response of a status below 600 that has no count yet waits for it, and
  -- so does `RequestCounts`, also after such a response.
  pub kept_mutex_blocks :
      (y : Exchange) (p : Producer Collector)
      → answered y ≡ true
      → p.locked ≡ true
      → p.resp_code y.response.status ≡ 0
      → ((job dh y p).1 ≡ blocked) × (request_counts (job dh y p).0 ≡ none)
  unfolding job request_counts
  kept_mutex_blocks y p ans held first =
      let clocks : Clocks = record { dns = 0; conn = 0; tls = 0; download = y.begun } in
      let (c, q) = trace dh y.begun y.events clocks p in
      let q' = note_upstream dh y.response.header q in
      ground (
        arith,
        trace-Same dh y.begun y.events clocks p,
        upstream-Same dh y.response.header q,
        count_response_blocks c y q',
      )
