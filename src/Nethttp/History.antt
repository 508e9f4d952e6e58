-- ===== src/Nethttp/History.antt =====
-- nethttp/job.go: the counters after any sequence of requests.
use plt.Base.{
  ℕ, ◌+◌, ◌≤◌, ◌≡◌, refl, ap, true, false, ◌&&◌, Option, none, some, List, [], ◌∷◌, map, arith,
  ◌==◌, if◌then◌else◌, Text, decimal,
}
use plt.Base.Dict.{lookup}
use plt.Loadgen.Runner.{Dynhist}
use plt.Nethttp.Itoa.{text_eq-decimal, count_at}
use plt.Nethttp.Mutex.{request_counts}
use plt.Nethttp.State.{Producer, Exchange}
use plt.Nethttp.Job.{Clocks, trace, note_upstream, count_response, job}
use plt.Nethttp.Counts.{
  answered, is_none, is_took, job_counters, job_samples, trace-Same, upstream-Same,
}

-- The answers of a status among the requests; a status that the array cannot count has none.
abbrev pub answers : ℕ → List Exchange → ℕ
answers code [] = 0
answers code (x ∷ xs) = (if answered x && x.response.status == code then 1 else 0) + answers code xs

module _ (dh : Dynhist) where
  open dh use {Collector}

  -- One request after another; the number of them that returned a time comes second.
  unfoldable pub run_jobs : List Exchange → Producer Collector → Producer Collector × ℕ
  run_jobs [] p = (p, 0)
  run_jobs (x ∷ xs) p =
      let (q, r) = job dh x p in
      let (last, n) = run_jobs xs q in (last, (if is_took r then 1 else 0) + n)

  -- After any sequence of requests the count of each status has grown by the number of its
  -- answers (a status of 600 or above has none), and the total by the number of requests that
  -- returned a time.
  pub run_jobs_counters :
      (xs : List Exchange) (p : Producer Collector) (code : ℕ)
      → ((run_jobs xs p).0.resp_code code ≡ p.resp_code code + answers code xs)
        × ((run_jobs xs p).0.total ≡ p.total + (run_jobs xs p).1)
  unfolding run_jobs
  run_jobs_counters [] p code = omega arith
  run_jobs_counters (x ∷ xs) p code =
      ground (arith, job_counters dh x p code, run_jobs_counters xs (job dh x p).0 code)

-- What `RequestCounts` tells of a status; a missing key reads as 0.
abbrev pub told : ℕ → Option (List (Text × ℕ)) → Option ℕ
told code none = none
told code (some counts) = some (count_at (decimal code) counts)

count_at-keys :
    (code : ℕ) (counts : ℕ → ℕ) (m : List (ℕ × Text))
    → count_at (decimal code) (map (λ e. (decimal e.0, counts e.0)) m)
      ≡ (if is_none (lookup code m) then 0 else counts code)
unfolding count_at lookup
count_at-keys code counts [] = refl
count_at-keys code counts (e ∷ m) =
    ground (arith, text_eq-decimal e.0 code, ap counts, count_at-keys code counts m)

module _ {C : Type 0} where
  count_response-locked :
      (c : Clocks) (x : Exchange) (p : Producer C)
      → p.locked ≡ true
      → (count_response c x p).0.locked ≡ true
  unfolding count_response
  count_response-locked c x p h = ground arith

  pub told-resp_code :
      (p : Producer C) (code : ℕ)
      → p.locked ≡ false
      → is_none (lookup code p.resp_body) ≡ (p.resp_code code == 0)
      → told code (request_counts p) ≡ some (p.resp_code code)
  unfolding request_counts
  told-resp_code p code free h = ground (arith, count_at-keys code p.resp_code p.resp_body)

  -- It tells a count, if it has its sample.
  pub told_bounded :
      (p : Producer C) (code : ℕ) (counts : List (Text × ℕ))
      → request_counts p ≡ some counts
      → (n : ℕ) × (told code (some counts) ≡ some n) × (n ≤ p.resp_code code)
  unfolding request_counts
  told_bounded p code counts h = (
    count_at (decimal code) counts,
    refl,
    ground (arith, count_at-keys code p.resp_code p.resp_body),
  )

module _ (dh : Dynhist) where
  open dh use {Collector}

  -- A kept mutex stays kept.
  job-locked :
      (x : Exchange) (p : Producer Collector) → p.locked ≡ true → (job dh x p).0.locked ≡ true
  unfolding job
  job-locked x p h =
      let clocks : Clocks = record { dns = 0; conn = 0; tls = 0; download = x.begun } in
      let (c, q) = trace dh x.begun x.events clocks p in
      let q' = note_upstream dh x.response.header q in
      ground (
        arith,
        trace-Same dh x.begun x.events clocks p,
        upstream-Same dh x.response.header q,
        count_response-locked c x q',
      )

  run_jobs-locked :
      (xs : List Exchange) (p : Producer Collector)
      → p.locked ≡ true
      → (run_jobs dh xs p).0.locked ≡ true
  unfolding run_jobs
  run_jobs-locked [] p h = h
  run_jobs-locked (x ∷ xs) p h = run_jobs-locked xs (job dh x p).0 (job-locked x p h)

  run_jobs_samples :
      (xs : List Exchange) (p : Producer Collector) (code : ℕ)
      → p.locked ≡ false
      → is_none (lookup code p.resp_body) ≡ (p.resp_code code == 0)
      → (run_jobs dh xs p).0.locked ≡ false
      → is_none (lookup code (run_jobs dh xs p).0.resp_body)
        ≡ ((run_jobs dh xs p).0.resp_code code == 0)
  unfolding run_jobs
  run_jobs_samples [] p code free h out = h
  run_jobs_samples (x ∷ xs) p code free h out = ground (
    arith,
    job_samples dh x p code,
    run_jobs-locked xs (job dh x p).0,
    run_jobs_samples xs (job dh x p).0 code,
  )

  -- A producer that starts with no count and no sample, and whose mutex is free after any sequence
  -- of requests, tells by `RequestCounts` the number of the answers of each status.
  pub told-run_jobs :
      (xs : List Exchange) (p : Producer Collector) (code : ℕ)
      → p.locked ≡ false
      → p.resp_body ≡ []
      → p.resp_code code ≡ 0
      → (run_jobs dh xs p).0.locked ≡ false
      → told code (request_counts (run_jobs dh xs p).0) ≡ some (answers code xs)
  unfolding lookup
  told-run_jobs xs p code free none_sampled none_counted out = ground (
    arith,
    ap (lookup code) none_sampled,
    run_jobs_samples xs p code,
    run_jobs_counters dh xs p code,
    told-resp_code (run_jobs dh xs p).0 code,
  )
