-- ===== src/Tests/Endings.antt =====
-- loadgen where a signal or a key comes, and at options that bound only the number.
use plt.Base.{
  ◌↔◌, Bool, true, suc, ◌+◌, ◌≤◌, arith, ◌≡◌, refl, false, none, some, List, [], ◌∷◌, ◌++◌, ℤ, pos,
  length,
}
use plt.Loadgen.Runner.{init_runner, initial_limit, max_concurrency, thousand_hours}
use plt.Loadgen.ReportStart.{report_begins}
use plt.Loadgen.Slots.{to_give, to_take}
use plt.Loadgen.System.{Reach-run, started}
use plt.Loadgen.Options.{Given, register, register_limits}
use plt.Loadgen.Flags.{Flags, left, prepare}
use plt.Loadgen.Stopping.{signal_stops}
use plt.Loadgen.State.{
  Action, press, signal, handle_signal, reporting, ok, System, advance, checked, finish, proceed,
}
use plt.Loadgen.Percent.{delta_of, five_percent}
use plt.Tests.Loadgen.{samples, two_requests, one_each, state_after}

-- A signal after the first launch: the check ends the loop.
abbrev launched_one : System (List ℤ)
launched_one =
    state_after two_requests
      (advance ∷ advance ∷ advance ∷ signal ∷ handle_signal ∷ handle_signal ∷ [])

abbrev stopped : System (List ℤ)
stopped = state_after two_requests (
    advance
    ∷ advance
    ∷ advance
    ∷ signal
    ∷ handle_signal
    ∷ handle_signal
    ∷ handle_signal
    ∷ checked (pos 5)
    ∷ advance
    ∷ [])

signal_stops_example : stopped.launched ≤ suc launched_one.launched
unfolding state_after
signal_stops_example =
    signal_stops samples (checked (pos 5) ∷ advance ∷ []) launched_one {t = stopped} refl refl

-- A key lowers the limit from 2 to 1 while two jobs run, and the slot that the first of them gives
-- back is taken by the last loop: the report begins while the second still runs.
abbrev with_ui : Flags
with_ui = record two_requests { live_ui = true }

abbrev one_released : List Action
one_released =
    one_each
    ++ (checked (pos 2)
        ∷ press left
        ∷ finish 0 (ok (pos 150))
        ∷ proceed 0
        ∷ advance
        ∷ advance
        ∷ advance
        ∷ [])

abbrev nearly : System (List ℤ)
nearly = state_after with_ui one_released

abbrev early : System (List ℤ)
early = state_after with_ui (one_released ++ (advance ∷ []))

report_begins_early : (early.main ≡ reporting 1) × (length early.jobs ≡ 1)
unfolding state_after delta_of five_percent
report_begins_early = (refl, refl)

ui_fits : initial_limit with_ui.concurrency ≤ max_concurrency
unfolding initial_limit
ui_fits = omega arith

report_begins_example : length early.jobs + to_take early.poller ≤ to_give early.poller
unfolding state_after delta_of five_percent
report_begins_example =
    report_begins samples {lf = with_ui} {s = nearly} 1 ui_fits
      (Reach-run samples one_released {t = nearly} started refl) refl refl refl

abbrev only_number : Given
only_number = record {
  number = some (pos 3);
  concurrency = none;
  rate_limit = none;
  duration = none;
  slow = none;
  live_ui = false;
}

register_limits_example :
    let r = init_runner samples (prepare (register only_number)) in
    (r.n ≡ 3)
    × (r.dur ≡ thousand_hours)
    × (1 ≤ r.n)
    × (1 ≤ r.concurrency_limit)
    × ((r.rl ≡ none) ↔ (◌≡◌ {A = Bool} true true))
register_limits_example = register_limits samples only_number
