-- ===== src/Tests/Jobs.antt =====
-- Whole runs over fasthttp: two jobs at a time, the second answered first.
use plt.Base.{
  ℕ, ◌+◌, ◌≤◌, ◌≡◌, refl, none, some, List, [], ◌∷◌, pos, length, total, true, codes, if◌then◌else◌,
}
use plt.Curl.Launch.{launch as launch_command, fast_run}
use plt.Fasthttp.History.{seen, send_all, tally_all}
use plt.Fasthttp.Interface.{fast_producer}
use plt.Fasthttp.Job as Fasthttp
use plt.Fasthttp.Job.{count_response}
use plt.Fasthttp.Summary.{init_producer}
use plt.Fasthttp.Threads as Fast
use plt.Fasthttp.Threads.{unlocked, snapshot}
use plt.Loadgen.Number.{allowed}
use plt.Nethttp.History.{told}
use plt.Loadgen.Flags.{prepare}
use plt.Loadgen.Jobs.{finish_job, proceed_job, record_success}
use plt.Loadgen.MainLoop.{advance_main, after_check}
use plt.Loadgen.Runner.{init_runner}
use plt.Loadgen.State.{reporting, advance, checked, proceed}
use plt.Loadgen.System.{start, step, enabled_step}
use plt.Nethttp.Setup.{has_header, user_agent}
use plt.Tests.Fasthttp as Client
use plt.Tests.Loadgen.{samples, two_requests, fits}
use plt.Tests.Nethttp.{flags}
use plt.Whole.{
  Whole, Move, in_load, launch, in_call, join, move, start_whole, started, step_load, launch_call,
  step_call, join_call, return_call,
}
use plt.Whole.Command.{fast_command_report}
use plt.Whole.Fast.{answered, fast_completes}
use plt.Whole.Interleaved.{requests}
use plt.Whole.Moves.{run_moves, Arrives-run}
use plt.Whole.Runs.{upto}

abbrev tick : Move fast_producer
tick = in_load advance

-- The second request is answered and counted before the first.
abbrev crossed : List (Move fast_producer)
crossed =
    tick
    ∷ tick
    ∷ launch (Client.answer 200 (codes "ok"))
    ∷ in_load (checked (pos 1))
    ∷ tick
    ∷ tick
    ∷ launch (record (Client.answer 200 (codes "no")) { buffer = 8 })
    ∷ in_load (checked (pos 2))
    ∷ in_call 0
    ∷ in_call 1
    ∷ in_call 1
    ∷ in_call 1
    ∷ in_call 1
    ∷ in_call 0
    ∷ join 0
    ∷ in_load (proceed 0)
    ∷ in_call 0
    ∷ in_call 0
    ∷ join 0
    ∷ in_load (proceed 0)
    ∷ tick
    ∷ tick
    ∷ tick
    ∷ tick
    ∷ tick
    ∷ tick
    ∷ []

abbrev client : Fasthttp.Producer
client = init_producer (codes "10.0.0.1" ∷ [])

unfoldable fast_after : List (Move fast_producer) → Whole samples fast_producer
unfolding start_whole start run_moves move step_load launch_call step_call join_call return_call
    enabled_step advance_main after_check finish_job proceed_job record_success init_runner step
    Fast.advance init_producer
fast_after ms =
    elim (run_moves samples fast_producer ms
      (start_whole samples fast_producer two_requests (unlocked client))) [
        | none ↦ start_whole samples fast_producer two_requests (unlocked client)
        | some t ↦ t
      ]

abbrev served : Whole samples fast_producer
served = fast_after crossed

fast_completes_example :
    (ms : List (Move fast_producer)) × (t : Whole samples fast_producer) × (run_moves samples
        fast_producer ms
        (start_whole samples fast_producer two_requests (unlocked client))
      ≡ some t)
    × ((filled : ℕ) × (t.load.main ≡ reporting filled))
    × (requests t.calls ≡ upto (λ _. Client.refused) (length t.calls))
    × ((code : ℕ)
        → told code (snapshot t.producer) ≡ some (seen (send_all (requests t.calls) client) code))
fast_completes_example = fast_completes samples two_requests client refl fits (λ _. Client.refused)

fast_command_report_example :
    (launch_command samples none none
        (codes "10.0.0.1" ∷ [])
        two_requests
        (record flags { fast = true })
      ≡ fast_run
          (prepare two_requests)
          client
          10000
          (if has_header user_agent flags.header_map then [] else codes "plt"))
    × (1 ≤ length served.calls)
    × (length served.calls ≤ allowed two_requests)
    × (length served.load.runner.round_trip_hist ≡ total answered (requests served.calls))
    × (length served.load.runner.round_trip_hist + served.load.runner.err_cnt ≡ length served.calls)
    × ((code : ℕ)
        → told code (snapshot served.producer)
          ≡ some (tally_all (requests served.calls) (λ _. 0) code))
unfolding fast_after prepare
fast_command_report_example =
    fast_command_report samples (codes "10.0.0.1" ∷ []) two_requests (record flags { fast = true })
      {s = served} refl refl fits
      (Arrives-run samples fast_producer crossed {t = served} started refl) 2 refl
