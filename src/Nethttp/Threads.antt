-- ===== src/Nethttp/Threads.antt =====
-- nethttp/job.go: several `Job` goroutines of one producer, interleaved at the operations that they
-- share: the atomic counter of a status, the mutex around the samples, and the last counters.
use plt.Base.{ℕ, true, false, Option, none, some, List, map, ltb, ◌==◌, if◌then◌else◌}
use plt.Base.Threads.{step_thread, run_threads}
use plt.Loadgen.Runner.{Dynhist, Err}
use plt.Nethttp.State.{Producer, Exchange, Result, failed, panicked}
use plt.Nethttp.Job.{
  codes_size, Clocks, read_sample, store_sample, bump, drain, trace, note_upstream,
}

-- Where a goroutine stands: before its request, at the counter of the response's status, waiting for
-- the mutex, holding it, at the rest of the body, returned with the mutex held, or returned.
pub data Stage : Type 0 where
  begun : Stage
  arrived locking sampling copying : Clocks → Stage
  kept : Err → Stage
  over : Result → Stage

abbrev pub Thread : Type 0
Thread = Exchange × Stage

module _ (dh : Dynhist) where
  open dh use {Collector}

  -- Up to the response; the collectors have locks of their own.
  unfoldable pub ask : Exchange → Producer Collector → Producer Collector × Stage
  ask x p = elim x.new_request [
    | some e ↦ (p, over (failed e))
    | none ↦ elim x.prepare [
      | some e ↦ (p, over (failed e))
      | none ↦
          let clocks : Clocks = record { dns = 0; conn = 0; tls = 0; download = x.begun } in
          let (c, traced) = trace dh x.begun x.events clocks p in
          elim x.failure [
            | some e ↦ (traced, over (failed e))
            | none ↦ (note_upstream dh x.response.header traced, arrived c)
          ]
    ]
  ]

  -- The next operation of a goroutine; `none` where it waits or has returned.
  unfoldable pub advance :
      Exchange → Stage → Producer Collector → Option (Producer Collector × Stage)
  unfolding ask
  advance x begun p = some (ask x p)
  advance x (arrived c) p =
      let code = x.response.status in
      let counted = record p { resp_code = bump code p.resp_code } in
      if ltb code codes_size
      then some (counted, if counted.resp_code code == 1 then locking c else copying c)
      else some (p, over panicked)
  advance x (locking c) p = if p.locked then none else some (record p { locked = true }, sampling c)
  advance x (sampling c) p =
      let (body, error) = read_sample x.response.content in
      elim error [
        | none ↦ some (record (store_sample x.response body p) { locked = false }, copying c)
        | some e ↦ some (p, kept e)
      ]
  advance x (copying c) p = let (q, r) = drain c x p in some (q, over r)
  advance x (kept e) p = none
  advance x (over r) p = none

  unfoldable pub advance_thread : Thread → Producer Collector → Option (Producer Collector × Thread)
  unfolding advance
  advance_thread (x, st) p = elim (advance x st p) [
    | none ↦ none
    | some (q, next) ↦ some (q, (x, next))
  ]

  -- The goroutine at an index takes a step.
  abbrev pub step_at :
      ℕ → Producer Collector → List Thread → Option (Producer Collector × List Thread)
  step_at i p ts = step_thread advance_thread i p ts

  -- A schedule names the goroutine of each step.
  abbrev pub interleave :
      List ℕ → Producer Collector → List Thread → Option (Producer Collector × List Thread)
  interleave schedule p ts = run_threads advance_thread schedule p ts

abbrev pub launched : List Exchange → List Thread
launched = map (λ x. (x, begun))
