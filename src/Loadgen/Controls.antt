-- ===== src/Loadgen/Controls.antt =====
-- loadgen/run.go: the live ui's event poller and its controls, and the receivers of signals.
use plt.Base.{zero, suc, ◌+◌, ◌-◌, false, true, Option, none, some, ltb, leb, if◌then◌else◌}
use plt.Loadgen.Flags.{Key, quit, ctrl_c, right, left, up, down, other}
use plt.Loadgen.Percent.{delta_of}
use plt.Loadgen.Runner.{max_concurrency, increase_rate_limit, decrease_rate_limit}
use plt.Loadgen.State.{
  listening, heard, stopping, Poller, idle, interrupting, taking, giving, System, send, receive,
}

module _ {C : Type 0} where
  unfoldable pub increase_concurrency : System C → System C
  increase_concurrency s =
      let lim = s.runner.concurrency_limit in
      let delta = delta_of lim in
      if leb (lim + delta) max_concurrency
      then record s {
        runner = record (s.runner) { concurrency_limit = lim + delta };
        poller = taking delta;
      }
      else s

  -- `lim - delta > 0`
  unfoldable pub decrease_concurrency : System C → System C
  decrease_concurrency s =
      let lim = s.runner.concurrency_limit in
      let delta = delta_of lim in
      if ltb delta lim
      then record s {
        runner = record (s.runner) { concurrency_limit = lim - delta };
        poller = giving delta;
      }
      else s

  -- The `switch` of the poller's loop.
  unfoldable pub dispatch : Key → System C → System C
  dispatch quit s = record s { poller = interrupting }
  dispatch ctrl_c s = record s { poller = interrupting }
  dispatch right s = increase_concurrency s
  dispatch left s = decrease_concurrency s
  dispatch up s = record s { runner = increase_rate_limit s.runner }
  dispatch down s = record s { runner = decrease_rate_limit s.runner }
  dispatch (other _) s = s

  -- A registered callback takes the event, and does not reach the runner.
  unfoldable pub press_key : Poller → Key → System C → Option (System C)
  press_key idle k s =
      if s.runner.lf.live_ui
      then some (if s.runner.lf.key_pressed k then s else dispatch k s)
      else none
  press_key _ k s = none

  -- A poller that is under way: one slot of a change of the limit, or the send to `exit`.
  unfoldable pub step_poller : Poller → System C → Option (System C)
  step_poller idle s = none
  step_poller interrupting s =
      if s.runner.exit
      then none
      else some (record s { runner = record (s.runner) { exit = true }; poller = idle })
  step_poller (taking zero) s = some (record s { poller = idle })
  step_poller (taking (suc k)) s = receive s λ r. record s { runner = r; poller = taking k }
  step_poller (giving zero) s = some (record s { poller = idle })
  step_poller (giving (suc k)) s = send s λ r. record s { runner = r; poller = giving k }

  -- `signal.Notify` drops a signal that finds the channel full.
  unfoldable pub notify : System C → System C
  notify s = record s { runner = record (s.runner) { exit = true } }

  -- The receive, the test of `done`, and, after the message, its store.
  unfoldable pub receive_signal : System C → Option (System C)
  receive_signal s = elim s.receiver [
    | listening ↦
        if s.runner.exit
        then some (record s { runner = record (s.runner) { exit = false }; receiver = heard })
        else none
    | heard ↦
        some
          (if s.runner.done then record s { killed = true } else record s { receiver = stopping })
    | stopping ↦
        some (record s { runner = record (s.runner) { done = true }; receiver = listening })
  ]
