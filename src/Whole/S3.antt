-- ===== src/Whole/S3.antt =====
-- A run of the s3 command: the load generator's counts are the producer's.
use plt.Base.{
  ℕ, ◌+◌, ◌≤◌, ◌≡◌, refl, ap, sym, ◌∙◌, true, false, none, some, List, [], ◌∷◌, arith, length,
  total,
}
use plt.Base.Threads.{run_threads}
use plt.Loadgen.Flags as LoadFlags
use plt.Loadgen.Flags.{prepare, prepare-live_ui, prepare-concurrency}
use plt.Loadgen.Number.{allowed, Reach-allowed}
use plt.Loadgen.Runner.{Dynhist, initial_limit, max_concurrency}
use plt.Loadgen.State.{reporting}
use plt.S3.Concurrent.{all_over, run_threads-Agrees, run_threads-run_jobs}
use plt.S3.Interface.{s3_producer, s3_returns, begin_from-launched_from, outcomes-over}
use plt.S3.Job.{complete, new_job_producer, Flags, Producer, Config, Transfer, took, failed}
use plt.S3.Summary.{run_jobs}
use plt.S3.Threads.{Thread, begun, arrived, over, advance, launched_from, jobs_counted}
use plt.Whole.{Whole, Move, start_whole, Arrives}
use plt.Whole.Interleaved.{threads, requests}
use plt.Loadgen.Accounts.{Reach-Accounts}
use plt.S3.Options.{run, s3_run}
use plt.Whole.Owed.{Arrives-OwedAt}
use plt.Whole.Moves.{run_moves, Arrives-Reach}
use plt.Whole.Report.{successes, whole_report}
use plt.Whole.Runs.{upto, whole_completes}

successes-jobs_counted :
    (f : Flags) (ts : List Thread) → successes s3_producer ts ≡ total (jobs_counted f) ts
successes-jobs_counted f [] = refl
successes-jobs_counted f ((i, x, begun) ∷ ts) = omega (arith, successes-jobs_counted f ts)
successes-jobs_counted f ((i, x, arrived) ∷ ts) = omega (arith, successes-jobs_counted f ts)
successes-jobs_counted f ((i, x, over (took d)) ∷ ts) = omega (arith, successes-jobs_counted f ts)
successes-jobs_counted f ((i, x, over (failed e)) ∷ ts) = omega (arith, successes-jobs_counted f ts)

module _ (dh : Dynhist) where
  open dh use {count}

  -- A run of the s3 producer, without the live ui, with a concurrency of at most 1000. In every order
  -- of the operations of the main goroutine and of the jobs, when the report begins the producer is
  -- as after the run's transfers one after another, so `String` tells what it tells then; the
  -- successes that the load generator has recorded are the jobs that the producer has added to its
  -- total, and with the errors they are all the transfers.
  pub s3_report :
      {lf : LoadFlags.Flags} {p : Producer} {s : Whole dh s3_producer}
      → lf.live_ui ≡ false
      → initial_limit lf.concurrency ≤ max_concurrency
      → Arrives dh s3_producer lf p s
      → (filled : ℕ) → s.load.main ≡ reporting filled
      → (s.producer ≡ run_jobs 0 (requests s.calls) p)
        × (s.producer.tot ≡ count s.load.runner.round_trip_hist + p.tot)
        × (count s.load.runner.round_trip_hist + s.load.runner.err_cnt ≡ length s.calls)
  s3_report {lf} {p} {s} off fits r filled at =
      let (ended, oks, errs, both, now) = whole_report dh s3_producer off fits r filled at in
      let xs = requests s.calls in
      let us = threads s.calls in
      let run : run_threads advance now.schedule p (launched_from 0 xs) ≡ some (s.producer, us) =
        rw (begin_from-launched_from 0 xs) at now.runs in
      let done : all_over us ≡ true = sym (outcomes-over us) ∙ ended in
      (
        run_threads-run_jobs now.schedule xs p {q = s.producer} {us = us} run done,
        omega (
          arith,
          oks,
          (run_threads-Agrees now.schedule xs p s.producer us run).jobs_agree,
          successes-jobs_counted p.f us,
        ),
        both,
      )

  -- Whatever its transfers meet, a run of the s3 producer without the live ui, with a concurrency of at
  -- most 1000, can be carried on to its report.
  pub s3_completes :
      (lf : LoadFlags.Flags) (p : Producer)
      → lf.live_ui ≡ false
      → initial_limit lf.concurrency ≤ max_concurrency
      → (transfer : ℕ → Transfer)
      → (moves : List (Move s3_producer)) × (t : Whole dh s3_producer) × (run_moves dh s3_producer
            moves
            (start_whole dh s3_producer lf p)
          ≡ some t)
        × ((filled : ℕ) × (t.load.main ≡ reporting filled))
        × (requests t.calls ≡ upto transfer (length t.calls))
        × (t.producer ≡ run_jobs 0 (requests t.calls) p)
  s3_completes lf p off fits transfer =
      let (moves, t, q, r, (filled, at), given) =
        whole_completes dh s3_producer lf p (s3_returns p) off fits transfer (λ i. refl) in
      (moves, t, q, (filled, at), given, (s3_report off fits r filled at).0)

  -- If the command's session is made and it starts a run with the prepared flags and a producer, the
  -- producer has the completed options. When that run reports, without the live ui and with a
  -- concurrency of at most 1000, it has made a transfer at least and at most as many as the flags
  -- allow (1000 with neither a number nor a duration, else the number, and 2147483647 where that is
  -- not positive); the jobs that the producer has added to its total are the load generator's
  -- successes, and with the errors they are all the transfers; and the producer is as after these
  -- transfers one after another.
  pub s3_command_report :
      (lf : LoadFlags.Flags) (f : Flags) (p : Producer) (c : Config) {s : Whole dh s3_producer}
      → run none lf f ≡ s3_run (prepare lf) p c
      → lf.live_ui ≡ false
      → initial_limit lf.concurrency ≤ max_concurrency
      → Arrives dh s3_producer (prepare lf) p s
      → (filled : ℕ) → s.load.main ≡ reporting filled
      → (p.f ≡ complete f)
        × (1 ≤ length s.calls)
        × (length s.calls ≤ allowed lf)
        × (s.producer.tot ≡ count s.load.runner.round_trip_hist)
        × (s.producer.tot + s.load.runner.err_cnt ≡ length s.calls)
        × (s.producer ≡ run_jobs 0 (requests s.calls) p)
  unfolding run new_job_producer
  s3_command_report lf f p c {s} h off fits r filled at =
      let (same, oks, both) =
        s3_report {lf = prepare lf} {s = s} (prepare-live_ui lf ∙ off)
          (omega (arith, fits, ap initial_limit (prepare-concurrency lf))) r filled at in
      let reach = Arrives-Reach dh s3_producer r in
      let accounts = Reach-Accounts dh reach in
      let number = Reach-allowed dh lf (prepare-live_ui lf ∙ off) reach in
      let many = (Arrives-OwedAt dh s3_producer 0 r).many in
      let nothing : p.tot ≡ 0 = ground arith in
      (
        ground arith,
        ground (arith, accounts.placed, many),
        ground (arith, accounts.placed, many, number),
        omega (arith, oks, nothing),
        omega (arith, oks, nothing, both),
        same,
      )
