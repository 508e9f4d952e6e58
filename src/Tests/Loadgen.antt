-- ===== src/Tests/Loadgen.antt =====
-- loadgen at concrete flags: two requests with two slots, one of which fails.
use plt.Base.{
  ◌-◌, ◌+◌, ◌*◌, ◌≤◌, ◌<◌, ◌≡◌, refl, ◌≢◌, false, none, some, List, [], ◌∷◌, ◌++◌, ℤ, pos, arith,
  length,
}
use plt.Loadgen.Flags.{Flags}
use plt.Loadgen.Runner.{Dynhist, max_concurrency, initial_limit, initial_number, init_runner}
use plt.Loadgen.Controls.{notify, receive_signal}
use plt.Loadgen.State.{reporting, ok, err, System, Action, advance, checked, finish, proceed}
use plt.Loadgen.MainLoop.{advance_main, after_wait, after_check}
use plt.Loadgen.Jobs.{record_success, finish_job, proceed_job}
use plt.Loadgen.Controls.{press_key, dispatch, decrease_concurrency, step_poller}
use plt.Loadgen.System.{enabled_step, step, start, Reach, started, run, Reach-run}
use plt.Loadgen.Slots.{in_flight_bounded, to_give}
use plt.Loadgen.Offline.{oversized_never_reports}
use plt.Loadgen.Termination.{internal_steps, schedule_bounded}
use plt.Loadgen.Percent.{five_percent}
use plt.Loadgen.Rounding.{five_percent-div}
use plt.Loadgen.Runner.{Runner, get_rate_limit, decrease_rate_limit}
use plt.Loadgen.RateLimit.{decrease_rate_limit_lem}

-- A collector that keeps its samples.
abbrev pub samples : Dynhist
samples = record {
  Collector = List ℤ;
  empty = λ _. [];
  add = λ c x. x ∷ c;
  count = λ c. length c;
  reset = λ _. [];
  count-reset = λ _. refl;
  count-empty = λ _. refl;
  count-add = λ c x. omega arith;
}

abbrev pub two_requests : Flags
two_requests = record {
  number = pos 2;
  concurrency = pos 2;
  rate_limit = pos 0;
  duration = pos 0;
  slow_response = pos 100;
  live_ui = false;
  output = none;
  key_pressed = λ _. false;
}

abbrev pub one_each : List Action
one_each = advance ∷ advance ∷ advance ∷ checked (pos 1) ∷ advance ∷ advance ∷ advance ∷ []

abbrev to_report : List Action
to_report =
    one_each
    ++ (checked (pos 2)
        ∷ finish 0 (ok (pos 150))
        ∷ finish 1 (err 7)
        ∷ proceed 0
        ∷ proceed 0
        ∷ proceed 0
        ∷ advance
        ∷ advance
        ∷ advance
        ∷ advance
        ∷ advance
        ∷ advance
        ∷ [])

-- The state after a schedule; the line names what a run computes through.
unfoldable pub state_after : Flags → List Action → System (List ℤ)
unfolding start run step enabled_step advance_main after_wait after_check finish_job proceed_job
    press_key dispatch decrease_concurrency step_poller record_success init_runner notify
    receive_signal
state_after lf moves = elim (run samples moves (start samples lf)) [
  | none ↦ start samples lf
  | some t ↦ t
]

abbrev busy : System (List ℤ)
busy = state_after two_requests one_each

abbrev reported : System (List ℤ)
reported = state_after two_requests to_report

busy_reached : Reach samples two_requests busy
unfolding state_after
busy_reached = Reach-run samples one_each {t = busy} started refl

reported_reached : Reach samples two_requests reported
unfolding state_after
reported_reached = Reach-run samples to_report {t = reported} started refl

busy_jobs : length busy.jobs ≡ 2
unfolding state_after
busy_jobs = refl

pub fits : initial_limit two_requests.concurrency ≤ max_concurrency
unfolding initial_limit
fits = omega arith

in_flight_bounded_example :
    (length busy.jobs ≤ busy.runner.concurrency_limit + to_give busy.poller)
    × (length busy.jobs ≤ max_concurrency)
    × (1 ≤ busy.runner.concurrency_limit)
    × (busy.runner.concurrency_limit ≤ max_concurrency)
in_flight_bounded_example = in_flight_bounded samples fits busy_reached

abbrev crowded : Flags
crowded = record two_requests { concurrency = pos 1001 }

oversized_never_reports_example : (start samples crowded).main ≢ reporting 1001
unfolding initial_limit
oversized_never_reports_example =
    oversized_never_reports samples {lf = crowded} refl (omega arith) started 1001

schedule_bounded_example : internal_steps to_report ≤ 8 * 2 + 2 * 2 + 2
unfolding state_after initial_number initial_limit
schedule_bounded_example = schedule_bounded samples two_requests refl to_report {t = reported} refl

one_slow_success : (reported.runner.slow ≡ 1) × (reported.runner.last_err ≡ some 7)
unfolding state_after
one_slow_success = (refl, refl)

five_percent-div_example : five_percent 1019 ≡ 50
five_percent-div_example = five_percent-div 1019 (omega arith)

abbrev at_one : Runner (List ℤ)
at_one = init_runner samples (record two_requests { rate_limit = pos 1 })

decrease_rate_limit_example :
    ((decrease_rate_limit at_one).rate_limit ≡ pos 0)
    × ((decrease_rate_limit at_one).rl ≡ at_one.rl)
    × (0 < 0 → 0 < 1 - 1)
unfolding init_runner get_rate_limit
decrease_rate_limit_example = decrease_rate_limit_lem at_one 0 refl (omega arith)
