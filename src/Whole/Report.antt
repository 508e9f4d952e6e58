-- ===== src/Whole/Report.antt =====
-- The report of a run: the load generator's counts are what the calls of `Job` have returned.
use plt.Base.{
  ℕ, suc, ◌+◌, ◌≤◌, ◌≡◌, refl, ap, ◌∙◌, Bool, true, false, ◌&&◌, Option, List, [], ◌∷◌, arith,
  length, total, all_of,
}
use plt.Loadgen.Accounts.{failed_weight, Placed, Reach-Accounts}
use plt.Loadgen.Flags.{Flags}
use plt.Loadgen.JobProducer.{JobProducer, has_outcome}
use plt.Loadgen.Offline.{report_waits_for_jobs}
use plt.Loadgen.Runner.{Dynhist, initial_limit, max_concurrency}
use plt.Loadgen.State.{
  Main, head, waiting, acquiring, launching, checking, filling, sending, reporting, Outcome,
}
use plt.Whole.{Call, Whole, Arrives}
use plt.Whole.Calls.{working_at}
use plt.Whole.Interleaved.{threads, requests, Interleaved, Arrives-Interleaved}
use plt.Whole.Moves.{Arrives-Reach}
use plt.Whole.Owed.{owes, Arrives-OwedAt}
use plt.Whole.Settled.{given, ok_weight, err_weight, none_weight, Arrives-Settled}

module _ (jp : JobProducer) where
  -- The calls that have returned a time, and those that have returned an error.
  abbrev pub successes : List jp.Thread → ℕ
  successes = total (λ t. ok_weight (jp.outcome t))

  abbrev pub failures : List jp.Thread → ℕ
  failures = total (λ t. err_weight (jp.outcome t))

  outcomes_counted : (ts : List jp.Thread) → successes ts + failures ts ≤ length ts
  outcomes_counted [] = omega arith
  outcomes_counted (t ∷ ts) = ground (arith, outcomes_counted ts)

module _ {jp : JobProducer} where
  abbrev all_joined : List (Call jp) → Bool
  all_joined [] = true
  all_joined (c ∷ cs) = c.joined && all_joined cs

  owes_none : (cs : List (Call jp)) → ((n : ℕ) → owes cs n ≡ 0) → all_joined cs ≡ true
  unfolding owes
  owes_none [] h = refl
  owes_none (c ∷ cs) h = ground (arith, h 0, owes_none cs (λ n. h (suc n)))

  calls_settled :
      (cs : List (Call jp))
      → all_joined cs ≡ true
      → total (given none_weight) cs ≡ 0
      → (all_of (has_outcome jp) (threads cs) ≡ true)
        × (total (given ok_weight) cs ≡ successes jp (threads cs))
        × (total (given err_weight) cs ≡ failures jp (threads cs))
        × (successes jp (threads cs) + failures jp (threads cs) ≡ length cs)
  calls_settled [] joined lost = (refl, refl, refl, refl)
  calls_settled (c ∷ cs) joined lost = ground (arith, calls_settled cs)

  given_bounded :
      (w : Option Outcome → ℕ) (cs : List (Call jp))
      → total (given w) cs ≤ total (λ t. w (jp.outcome t)) (threads cs)
  given_bounded w [] = omega arith
  given_bounded w (c ∷ cs) = ground (arith, given_bounded w cs)

  length-threads : (cs : List (Call jp)) → length (threads cs) ≡ length cs
  length-threads [] = refl
  length-threads (c ∷ cs) = omega (arith, length-threads cs)

-- Wherever `Run` stands, as many as it has launched are no more than the number of requests.
launched_bounded : (m : Main) (n launched : ℕ) → Placed m n launched → launched ≤ n
launched_bounded (head i) n launched h = ground (arith, h)
launched_bounded (waiting i) n launched h = ground (arith, h)
launched_bounded (acquiring i) n launched h = ground (arith, h)
launched_bounded (launching i) n launched h = ground (arith, h)
launched_bounded (checking i) n launched h = ground (arith, h)
launched_bounded (filling k) n launched h = ground (arith, h)
launched_bounded (sending k) n launched h = ground (arith, h)
launched_bounded (reporting k) n launched h = ground (arith, h)

module _ (dh : Dynhist) (jp : JobProducer) where
  open dh use {count}

  -- At every moment of a run of any job producer, with the live ui or without and with any
  -- concurrency: the load generator has recorded no more successes than calls of `Job` have returned
  -- a time, and counted no more errors than calls have returned an error; both are no more than the
  -- calls made, and these no more than the number of requests; and the producer is where these calls,
  -- begun together, come to in some order of their operations.
  pub whole_running :
      {lf : Flags} {p : jp.State} {s : Whole dh jp}
      → Arrives dh jp lf p s
      → (count s.load.runner.round_trip_hist ≤ successes jp (threads s.calls))
        × (s.load.runner.err_cnt ≤ failures jp (threads s.calls))
        × (successes jp (threads s.calls) + failures jp (threads s.calls) ≤ length s.calls)
        × (length s.calls ≤ s.load.runner.n)
        × Interleaved jp p s.producer (requests s.calls) (threads s.calls)
  whole_running {s = s} r =
      let settled = Arrives-Settled dh jp r in
      let placed =
        launched_bounded s.load.main s.load.runner.n s.load.launched
          (Reach-Accounts dh (Arrives-Reach dh jp r)).placed in
      (
        omega (arith, settled.recorded, given_bounded ok_weight s.calls),
        omega (arith, settled.errors, given_bounded err_weight s.calls),
        omega (arith, outcomes_counted jp (threads s.calls), length-threads s.calls),
        omega (arith, placed, (Arrives-OwedAt dh jp 0 r).many),
        Arrives-Interleaved dh jp r,
      )

  -- A run without the live ui, with a concurrency of at most 1000, of any job producer. In every
  -- order of the operations of the main goroutine, of the jobs and of their calls, when the report
  -- begins every call of `Job` has returned; the successes that the load generator has recorded are
  -- the calls that returned a time, its errors those that returned an error, and both are all the
  -- calls; and the producer is where these calls, begun together, come to in some order of their
  -- operations.
  pub whole_report :
      {lf : Flags} {p : jp.State} {s : Whole dh jp}
      → lf.live_ui ≡ false
      → initial_limit lf.concurrency ≤ max_concurrency
      → Arrives dh jp lf p s
      → (filled : ℕ) → s.load.main ≡ reporting filled
      → (all_of (has_outcome jp) (threads s.calls) ≡ true)
        × (count s.load.runner.round_trip_hist ≡ successes jp (threads s.calls))
        × (s.load.runner.err_cnt ≡ failures jp (threads s.calls))
        × (count s.load.runner.round_trip_hist + s.load.runner.err_cnt ≡ length s.calls)
        × Interleaved jp p s.producer (requests s.calls) (threads s.calls)
  whole_report {lf} {p} {s} off fits r filled at =
      let none_left : s.load.jobs ≡ [] =
        report_waits_for_jobs dh off fits (Arrives-Reach dh jp r) filled at in
      let joined : all_joined s.calls ≡ true =
        owes_none s.calls
          (λ n. (Arrives-OwedAt dh jp n r).owed ∙ ap (λ js. total (working_at n) js) none_left) in
      let settled = Arrives-Settled dh jp r in
      let (back, oks, errs, both) = calls_settled s.calls joined settled.none_lost in
      let none_failing = ap (λ js. total failed_weight js) none_left in
      (
        back,
        omega (arith, oks, settled.recorded),
        omega (arith, errs, settled.errors, none_failing),
        omega (arith, oks, errs, both, settled.recorded, settled.errors, none_failing),
        Arrives-Interleaved dh jp r,
      )
