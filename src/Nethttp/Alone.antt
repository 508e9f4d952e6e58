-- ===== src/Nethttp/Alone.antt =====
-- nethttp/job.go: the operations of one goroutine, without others between them, are `Job`.
use plt.Base.{ℕ, zero, suc, ◌≡◌, refl, ap, sym, Bool, false, none, some, arith}
use plt.Loadgen.Runner.{Dynhist}
use plt.Nethttp.State.{Producer, Exchange, Result, failed, blocked}
use plt.Nethttp.Job.{Clocks, drain, count_response, trace, note_upstream, round_trip, job}
use plt.Nethttp.Counts.{trace-Same, upstream-Same}
use plt.Nethttp.Threads.{Stage, begun, arrived, copying, kept, over, ask, advance}

-- What a goroutine has returned; one that has not returned waits.
abbrev pub result_of : Stage → Result
result_of (kept e) = failed e
result_of (over r) = r
result_of _ = blocked

module _ (dh : Dynhist) where
  open dh use {Collector}

  -- A number of steps, or as many as there are.
  unfoldable pub alone : ℕ → Exchange → Stage → Producer Collector → Producer Collector × Stage
  unfolding advance
  alone zero x st p = (p, st)
  alone (suc n) x st p = elim (advance dh x st p) [
    | none ↦ (p, st)
    | some (q, next) ↦ alone n x next q
  ]

  abbrev Does : Producer Collector × Stage → Producer Collector × Result → Type 0
  Does (q, st) (p, r) = (q ≡ p) × (result_of st ≡ r)

  alone_over :
      (n : ℕ) (x : Exchange) (r : Result) (p : Producer Collector)
      → alone n x (over r) p ≡ (p, over r)
  unfolding alone advance
  alone_over zero x r p = refl
  alone_over (suc n) x r p = refl

  relock :
      (p : Producer Collector)
      → p.locked ≡ false
      → ◌≡◌ {A = Producer Collector} (record p { locked = false }) p
  relock p h = ap (λ (b : Bool). record p { locked = b }) (sym h)

  alone_copying :
      (n : ℕ) (c : Clocks) (x : Exchange) (p : Producer Collector)
      → Does (alone (suc n) x (copying c) p) (drain c x p)
  unfolding alone advance
  alone_copying n c x p = rw (alone_over n x (drain c x p).1 (drain c x p).0) (refl, refl)

  alone_arrived :
      (c : Clocks) (x : Exchange) (p : Producer Collector)
      → p.locked ≡ false
      → Does (alone 4 x (arrived c) p) (count_response c x p)
  unfolding alone advance count_response
  alone_arrived c x p free = ground (arith, free, relock p free, alone_copying 2 c x)

  -- From a free mutex, the first five operations of one goroutine, or as many as it has, leave the
  -- producer and the result that `job` gives.
  pub alone-job :
      (x : Exchange) (p : Producer Collector)
      → p.locked ≡ false
      → let (q, st) = alone 5 x begun p in (q ≡ (job dh x p).0) × (result_of st ≡ (job dh x p).1)
  unfolding alone advance ask job round_trip
  alone-job x p free =
      let clocks : Clocks = record { dns = 0; conn = 0; tls = 0; download = x.begun } in
      let (c, traced) = trace dh x.begun x.events clocks p in
      let next = note_upstream dh x.response.header traced in
      ground (
        arith,
        free,
        trace-Same dh x.begun x.events clocks p,
        upstream-Same dh x.response.header traced,
        alone_arrived c x next,
        λ (r : Result). alone_over 4 x r p,
        λ (r : Result). alone_over 4 x r traced,
      )
