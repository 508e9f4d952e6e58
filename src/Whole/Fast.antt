-- ===== src/Whole/Fast.antt =====
-- A run over fasthttp: the load generator's counts are those of the producer.
use plt.Base.{
  ap, ℕ, ◌+◌, ◌≤◌, ◌≡◌, refl, sym, ◌∙◌, true, false, some, List, [], ◌∷◌, arith, length, total,
  total-set, if◌then◌else◌,
}
use plt.Base.Threads.{run_threads, run_threads-keeps}
use plt.Fasthttp.Concurrent.{all_over, misfits, run_threads-Agrees, run_threads-seen}
use plt.Nethttp.History.{told}
use plt.Fasthttp.History.{Histogram, seen, send_all, is_answered}
use plt.Fasthttp.Interface.{fast_producer, fast_returns, begin_from-launched, outcomes-over}
use plt.Fasthttp.Job.{Producer, Exchange, took, failed}
use plt.Fasthttp.Threads.{
  snapshot, Thread, Shared, begun, arrived, counting, counted, over, advance, launched, unlocked,
}
use plt.Loadgen.Flags.{Flags}
use plt.Loadgen.Runner.{Dynhist, initial_limit, max_concurrency}
use plt.Loadgen.State.{reporting}
use plt.Whole.{Whole, Move, start_whole, Arrives}
use plt.Whole.Interleaved.{threads, requests}
use plt.Whole.Moves.{run_moves}
use plt.Whole.Report.{successes, whole_report}
use plt.Whole.Runs.{upto, whole_completes}

-- 1 for a request that is answered.
abbrev pub answered : Exchange → ℕ
answered x = if is_answered x then 1 else 0

advance-answered :
    (t : Thread) (s q : Shared) (next : Thread)
    → advance t s ≡ some (q, next)
    → answered next.0 ≡ answered t.0
unfolding advance
advance-answered (x, begun) s q next h = ground arith
advance-answered (x, arrived) s q next h = ground arith
advance-answered (x, counting) s q next h = ground arith
advance-answered (x, counted) s q next h = ground arith
advance-answered (x, over r) s q next h = absurd (ground arith)

abbrev answers : List Thread → ℕ
answers = total (λ t. answered t.0)

run-answers :
    (n : ℕ) (schedule : List ℕ) (s : Shared) (ts : List Thread) (q : Shared) (us : List Thread)
    → run_threads advance schedule s ts ≡ some (q, us)
    → answers ts ≡ n
    → answers us ≡ n
run-answers n =
    run_threads-keeps advance (λ _ ts. answers ts ≡ n)
      (λ i s ts t q next at moved h. omega (
        arith,
        h,
        total-set (λ (u : Thread). answered u.0) ts i t next at,
        advance-answered t s q next moved,
      ))

answers-launched : (xs : List Exchange) → answers (launched xs) ≡ total answered xs
answers-launched [] = refl
answers-launched (x ∷ xs) = omega (arith, answers-launched xs)

successes-answers :
    (us : List Thread)
    → all_over us ≡ true
    → total misfits us ≡ 0
    → successes fast_producer us ≡ answers us
successes-answers [] h a = refl
successes-answers ((x, over (took d)) ∷ us) h a = ground (arith, successes-answers us)
successes-answers ((x, over (failed e)) ∷ us) h a = ground (arith, successes-answers us)
successes-answers ((x, _) ∷ us) h a = absurd (ground arith)

-- With a free mutex `RequestCounts` does not wait.
pub told-snapshot :
    (code : ℕ) (s : Shared)
    → s.locked ≡ false
    → told code (snapshot s) ≡ some (seen s.producer code)
unfolding snapshot
told-snapshot code s free = ground arith

module _ (dh : Dynhist) where
  open dh use {count}

  -- A run over fasthttp, without the live ui, with a concurrency of at most 1000. In every order of
  -- the operations of the main goroutine and of the jobs, when the report begins the mutex is free;
  -- the counts that `RequestCounts` tells are those after the run's requests one after another; the
  -- successes that the load generator has recorded are the requests that were answered, and with the
  -- errors they are all the requests.
  pub fast_report :
      {lf : Flags} {p : Producer} {s : Whole dh fast_producer}
      → lf.live_ui ≡ false
      → initial_limit lf.concurrency ≤ max_concurrency
      → Arrives dh fast_producer lf (unlocked p) s
      → (filled : ℕ) → s.load.main ≡ reporting filled
      → (s.producer.locked ≡ false)
        × (seen s.producer.producer ≡ seen (send_all (requests s.calls) p))
        × (count s.load.runner.round_trip_hist ≡ total answered (requests s.calls))
        × (count s.load.runner.round_trip_hist + s.load.runner.err_cnt ≡ length s.calls)
  fast_report {lf} {p} {s} off fits r filled at =
      let (ended, oks, errs, both, now) = whole_report dh fast_producer off fits r filled at in
      let xs = requests s.calls in
      let us = threads s.calls in
      let run : run_threads advance now.schedule (unlocked p) (launched xs)
          ≡ some (s.producer, us) =
        rw (begin_from-launched 0 xs) at now.runs in
      let done : all_over us ≡ true = sym (outcomes-over us) ∙ ended in
      let (free, same) = run_threads-seen now.schedule xs p {q = s.producer} {us = us} run done in
      let placed = (run_threads-Agrees 0 now.schedule xs p s.producer us run).placed in
      (
        free,
        same,
        omega (
          arith,
          oks,
          successes-answers us done placed,
          run-answers (answers (launched xs)) now.schedule (unlocked p) (launched xs) s.producer us
              run refl,
          answers-launched xs,
        ),
        both,
      )

  -- Any sequence of requests, whatever they meet: a run over fasthttp without the live ui, with a
  -- concurrency of at most 1000, can be carried on to its report, operation by operation. It has then
  -- made the first requests of the sequence; `RequestCounts` does not wait, and tells the counts that it tells after
  -- these requests one after another.
  pub fast_completes :
      (lf : Flags) (p : Producer)
      → lf.live_ui ≡ false
      → initial_limit lf.concurrency ≤ max_concurrency
      → (request : ℕ → Exchange)
      → (moves : List (Move fast_producer)) × (t : Whole dh fast_producer) × (run_moves dh
            fast_producer moves
            (start_whole dh fast_producer lf (unlocked p))
          ≡ some t)
        × ((filled : ℕ) × (t.load.main ≡ reporting filled))
        × (requests t.calls ≡ upto request (length t.calls))
        × ((code : ℕ)
            → told code (snapshot t.producer) ≡ some (seen (send_all (requests t.calls) p) code))
  fast_completes lf p off fits request =
      let (moves, t, q, r, (filled, at), given) =
        whole_completes dh fast_producer lf (unlocked p) (fast_returns p) off fits request
          (λ i. refl) in
      let report = fast_report off fits r filled at in
      (
        moves,
        t,
        q,
        (filled, at),
        given,
        λ code.
            told-snapshot code t.producer report.0 ∙ ap (λ (h : Histogram). some (h code)) report.1,
      )
