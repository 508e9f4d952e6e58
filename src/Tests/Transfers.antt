-- ===== src/Tests/Transfers.antt =====
-- Whole runs of the s3 command: two transfers at a time, one of which fails.
use plt.Base.{ℕ, ◌+◌, ◌≤◌, ◌<◌, ◌≡◌, refl, ◌⊎◌, none, some, List, [], ◌∷◌, ◌++◌, ℤ, pos, length}
use plt.Loadgen.Flags.{prepare}
use plt.Loadgen.Jobs.{finish_job, proceed_job, record_success}
use plt.Loadgen.MainLoop.{advance_main, after_check}
use plt.Loadgen.Report.{report, summary, statistics, Line, returned, time_spent}
use plt.Loadgen.Number.{allowed}
use plt.Loadgen.Runner.{Err, init_runner}
use plt.Loadgen.State.{reporting, advance, checked, proceed}
use plt.Loadgen.System.{start, step, enabled_step}
use plt.S3.Interface.{s3_producer, s3_returns}
use plt.S3.Job.{Transfer, complete, config_of, with_scheme, with_region, download, upload}
use plt.S3.Options.{run}
use plt.S3.Summary.{run_jobs}
use plt.S3.Threads as Transfers
use plt.Tests.Loadgen.{samples, two_requests, fits}
use plt.Tests.S3 as Bucket
use plt.Tests.S3.{fetched}
use plt.Whole.{
  Whole, Move, in_load, launch, in_call, join, move, start_whole, Arrives, started, step_load,
  launch_call, step_call, join_call, return_call,
}
use plt.Whole.Exit.{TellsFailures, whole_exit}
use plt.Whole.Interleaved.{threads, requests}
use plt.Whole.Moves.{run_moves, Arrives-run}
use plt.Whole.Report.{successes, failures}
use plt.Whole.Runs.{upto, whole_completes}
use plt.Whole.S3.{s3_command_report}

abbrev go : Move s3_producer
go = in_load advance

abbrev broken_off : Transfer
broken_off = record fetched { failure = some 5 }

abbrev moves : List (Move s3_producer)
moves =
    go
    ∷ go
    ∷ launch fetched
    ∷ in_load (checked (pos 1))
    ∷ go
    ∷ go
    ∷ launch broken_off
    ∷ in_load (checked (pos 2))
    ∷ in_call 1
    ∷ in_call 0
    ∷ in_call 0
    ∷ join 0
    ∷ in_load (proceed 0)
    ∷ in_load (proceed 0)
    ∷ join 0
    ∷ in_load (proceed 0)
    ∷ go
    ∷ go
    ∷ go
    ∷ go
    ∷ go
    ∷ go
    ∷ []

unfoldable state_after : List (Move s3_producer) → Whole samples s3_producer
unfolding start_whole start run_moves move step_load launch_call step_call join_call return_call
    enabled_step advance_main after_check finish_job proceed_job record_success init_runner step
    Transfers.advance download upload
state_after ms =
    elim (run_moves samples s3_producer ms
      (start_whole samples s3_producer two_requests Bucket.fresh)) [
        | none ↦ start_whole samples s3_producer two_requests Bucket.fresh
        | some t ↦ t
      ]

abbrev copied : Whole samples s3_producer
copied = state_after moves

one_each_way : (copied.load.runner.err_cnt ≡ 1) × (copied.producer.tot_bytes ≡ 500)
unfolding state_after
one_each_way = (refl, refl)

whole_exit_example :
    (printed : List (Line (List ℤ))) × TellsFailures
      (failures s3_producer (threads copied.calls))
      copied.load.runner.last_err
      printed
    × (((0 < successes s3_producer (threads copied.calls))
          × (report samples copied.load.runner none
              ≡ returned
                  (summary samples copied.load.runner
                    ++ printed
                    ++ (time_spent ∷ [])
                    ++ statistics samples copied.load.runner none)
                  none))
        ⊎ ((e : Err) × (successes s3_producer (threads copied.calls) ≡ 0)
            × (failures s3_producer (threads copied.calls) ≡ length copied.calls)
            × (0 < length copied.calls)
            × (copied.load.runner.last_err ≡ some e)
            × (report samples copied.load.runner none
                ≡ returned
                    (summary samples copied.load.runner ++ printed ++ (time_spent ∷ []))
                    (some (some e)))))
unfolding state_after
whole_exit_example =
    whole_exit samples s3_producer {lf = two_requests} {p = Bucket.fresh} {s = copied} none refl
      fits (Arrives-run samples s3_producer moves {t = copied} started refl) 2 refl

whole_completes_example :
    (ms : List (Move s3_producer)) × (t : Whole samples s3_producer) × (run_moves samples
        s3_producer ms
        (start_whole samples s3_producer two_requests Bucket.fresh)
      ≡ some t)
    × Arrives samples s3_producer two_requests Bucket.fresh t
    × ((filled : ℕ) × (t.load.main ≡ reporting filled))
    × (requests t.calls ≡ upto (λ _. broken_off) (length t.calls))
whole_completes_example =
    whole_completes samples s3_producer two_requests Bucket.fresh (s3_returns Bucket.fresh) refl
      fits (λ _. broken_off) (λ i. refl)

s3_command_report_example :
    (Bucket.fresh.f ≡ complete Bucket.bucket_flags)
    × (1 ≤ length copied.calls)
    × (length copied.calls ≤ allowed two_requests)
    × (copied.producer.tot ≡ length copied.load.runner.round_trip_hist)
    × (copied.producer.tot + copied.load.runner.err_cnt ≡ length copied.calls)
    × (copied.producer ≡ run_jobs 0 (requests copied.calls) Bucket.fresh)
unfolding state_after run prepare complete config_of with_scheme with_region
s3_command_report_example =
    s3_command_report samples two_requests Bucket.bucket_flags Bucket.fresh
      (config_of Bucket.bucket_flags) {s = copied} refl refl fits
      (Arrives-run samples s3_producer moves {t = copied} started refl) 2 refl
