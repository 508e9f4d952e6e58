-- ===== src/Tests/Whole.antt =====
-- A whole run over nethttp: two requests at a time, with their operations interleaved.
use plt.Base.{
  ℕ, ◌+◌, ◌≤◌, ◌≡◌, refl, true, none, some, List, [], ◌∷◌, pos, length, if◌then◌else◌, codes,
}
use plt.Base.Dict.{lookup}
use plt.Loadgen.Number.{allowed}
use plt.Loadgen.Runner.{init_runner}
use plt.Loadgen.State.{reporting, advance, checked, proceed}
use plt.Loadgen.System.{start, step, enabled_step}
use plt.Loadgen.MainLoop.{advance_main, after_check}
use plt.Loadgen.Jobs.{finish_job, proceed_job, record_success}
use plt.Nethttp.Atoi.{atoi}
use plt.Nethttp.Concurrent.{all_returned}
use plt.Nethttp.History.{told, answers}
use plt.Nethttp.Job.{trace, trace_event, note_upstream, read_sample, bump, drain}
use plt.Nethttp.Mutex.{request_counts}
use plt.Nethttp.Setup.{init_producer}
use plt.Nethttp.State.{get_header, at_eof}
use plt.Nethttp.Interface.{http_producer}
use plt.Nethttp.Threads.{ask, advance_thread}
use plt.Nethttp.Threads as Threads
use plt.Tests.Loadgen.{samples, two_requests, fits}
use plt.Tests.Nethttp.{answer, fresh, flags}
use plt.Curl.Launch.{launch as launch_command, net_run}
use plt.Loadgen.Flags.{prepare}
use plt.Nethttp.Setup.{make_transport}
use plt.Base.{all_of}
use plt.Loadgen.JobProducer.{has_outcome}
use plt.Whole.{
  Whole, Move, in_load, launch, in_call, join, move, start_whole, started, step_load, launch_call,
  step_call, join_call, return_call,
}
use plt.Whole.Command.{command_report}
use plt.Whole.Http.{http_report, http_completes}
use plt.Whole.Interleaved.{threads, requests, Interleaved}
use plt.Whole.Moves.{run_moves, Arrives-run}
use plt.Whole.Report.{successes, failures, whole_report, whole_running}
use plt.Whole.Runs.{upto}

abbrev pub Run : Type 0
Run = Whole samples (http_producer samples)

abbrev pub go : Move (http_producer samples)
go = in_load advance

abbrev moves : List (Move (http_producer samples))
moves =
    go
    ∷ go
    ∷ launch (answer 200 at_eof)
    ∷ in_load (checked (pos 1))
    ∷ go
    ∷ go
    ∷ launch (answer 200 at_eof)
    ∷ in_load (checked (pos 2))
    ∷ in_call 0
    ∷ in_call 1
    ∷ in_call 0
    ∷ in_call 1
    ∷ in_call 0
    ∷ in_call 1
    ∷ join 0
    ∷ in_call 0
    ∷ in_load (proceed 0)
    ∷ in_call 0
    ∷ join 0
    ∷ in_load (proceed 0)
    ∷ go
    ∷ go
    ∷ go
    ∷ go
    ∷ go
    ∷ go
    ∷ []

unfoldable pub state_after : List (Move (http_producer samples)) → Run
unfolding start_whole start run_moves move step_load launch_call step_call join_call return_call
    enabled_step advance_main after_check finish_job proceed_job record_success init_runner step
    init_producer lookup advance_thread Threads.advance ask trace trace_event note_upstream
    read_sample bump drain atoi get_header
state_after ms =
    elim (run_moves samples (http_producer samples) ms
      (start_whole samples (http_producer samples) two_requests fresh)) [
        | none ↦ start_whole samples (http_producer samples) two_requests fresh
        | some t ↦ t
      ]

abbrev reported : Run
reported = state_after moves

-- Two requests under way, one of which has been sent.
abbrev pub under_way : List (Move (http_producer samples))
under_way =
    go
    ∷ go
    ∷ launch (answer 200 at_eof)
    ∷ in_load (checked (pos 1))
    ∷ in_call 0
    ∷ go
    ∷ go
    ∷ launch (answer 200 at_eof)
    ∷ []

abbrev pub half : Run
half = state_after under_way

whole_running_example :
    (length half.load.runner.round_trip_hist
      ≤ successes (http_producer samples) (threads half.calls))
    × (half.load.runner.err_cnt ≤ failures (http_producer samples) (threads half.calls))
    × (successes (http_producer samples) (threads half.calls)
          + failures (http_producer samples) (threads half.calls)
        ≤ length half.calls)
    × (length half.calls ≤ half.load.runner.n)
    × Interleaved
        (http_producer samples)
        fresh
        half.producer
        (requests half.calls)
        (threads half.calls)
unfolding state_after
whole_running_example =
    whole_running samples (http_producer samples) {lf = two_requests} {p = fresh} {s = half}
      (Arrives-run samples (http_producer samples) under_way {t = half} started refl)

whole_report_example :
    (all_of (has_outcome (http_producer samples)) (threads reported.calls) ≡ true)
    × (length reported.load.runner.round_trip_hist
        ≡ successes (http_producer samples) (threads reported.calls))
    × (reported.load.runner.err_cnt ≡ failures (http_producer samples) (threads reported.calls))
    × (length reported.load.runner.round_trip_hist + reported.load.runner.err_cnt
        ≡ length reported.calls)
    × Interleaved
        (http_producer samples)
        fresh
        reported.producer
        (requests reported.calls)
        (threads reported.calls)
unfolding state_after
whole_report_example =
    whole_report samples (http_producer samples) {lf = two_requests} {p = fresh} {s = reported} refl
      fits (Arrives-run samples (http_producer samples) moves {t = reported} started refl) 2 refl

http_report_example :
    (all_returned (threads reported.calls) ≡ true)
    × (reported.producer.total ≡ length reported.load.runner.round_trip_hist + 0)
    × (length reported.load.runner.round_trip_hist + reported.load.runner.err_cnt
        ≡ length reported.calls)
    × (told 200 (request_counts reported.producer)
        ≡ (if reported.producer.locked then none else some (answers 200 (requests reported.calls))))
unfolding state_after
http_report_example =
    http_report samples 200 {lf = two_requests} {p = fresh} {s = reported} refl fits refl refl refl
      (Arrives-run samples (http_producer samples) moves {t = reported} started refl) 2 refl

both_counted : (length reported.load.runner.round_trip_hist ≡ 2) × (reported.producer.total ≡ 2)
unfolding state_after
both_counted = (refl, refl)

http_completes_example :
    (ms : List (Move (http_producer samples))) × (t : Run) × (run_moves samples
        (http_producer samples)
        ms
        (start_whole samples (http_producer samples) two_requests fresh)
      ≡ some t)
    × ((filled : ℕ) × (t.load.main ≡ reporting filled))
    × (requests t.calls ≡ upto (λ _. answer 404 at_eof) (length t.calls))
    × (length t.load.runner.round_trip_hist + t.load.runner.err_cnt ≡ length t.calls)
    × ((code : ℕ) → told code (request_counts t.producer) ≡ some (answers code (requests t.calls)))
unfolding init_producer read_sample
http_completes_example =
    http_completes samples two_requests fresh refl fits refl refl (λ code. refl)
      (λ _. answer 404 at_eof) (λ i. refl)

command_report_example :
    (launch_command samples none none (codes "10.0.0.1" ∷ []) two_requests flags
      ≡ net_run two_requests fresh (make_transport flags (pos 2) none))
    × (1 ≤ length reported.calls)
    × (length reported.calls ≤ allowed two_requests)
    × (reported.producer.total ≡ length reported.load.runner.round_trip_hist)
    × (length reported.load.runner.round_trip_hist + reported.load.runner.err_cnt
        ≡ length reported.calls)
    × (told 404 (request_counts reported.producer)
        ≡ (if reported.producer.locked then none else some (answers 404 (requests reported.calls))))
unfolding state_after prepare
command_report_example =
    command_report samples (codes "10.0.0.1" ∷ []) two_requests flags 404 {s = reported} refl refl
      fits (Arrives-run samples (http_producer samples) moves {t = reported} started refl) 2 refl
