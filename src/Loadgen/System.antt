-- ===== src/Loadgen/System.antt =====
-- loadgen/run.go as interleaved threads: the main loop of `Run`, a goroutine for each job, the
-- goroutine that receives signals, the live ui's event poller, and the live ui itself.
use plt.Base.{
  arith, Option-cases, inr, inl, subst, ◌≡◌, Option, none, some, List, [], ◌∷◌, if◌then◌else◌,
  get_elem?, false,
}
use plt.Loadgen.Flags.{Flags}
use plt.Loadgen.Runner.{Dynhist, init_runner}
use plt.Loadgen.State.{
  head, idle, System, Action, advance, waited, checked, finish, proceed, press, poll, signal,
  handle_signal, tick, ui_receive, end_round, listening, watching, closed,
}
use plt.Loadgen.MainLoop.{advance_main, after_wait, after_check}
use plt.Loadgen.Controls.{press_key, step_poller, notify, receive_signal}
use plt.Loadgen.Jobs.{finish_job, proceed_job, live_tick, receive_in_ui, end_round_in_ui}

module _ (dh : Dynhist) where
  open dh use {Collector}

  -- `none` where the action is not enabled.
  unfoldable pub enabled_step : System Collector → Action → Option (System Collector)
  enabled_step s advance = advance_main s.main s
  enabled_step s (waited e) = after_wait s.main e s
  enabled_step s (checked since) = after_check s.main since s
  enabled_step s (finish k o) = finish_job dh (get_elem? s.jobs k) k o s
  enabled_step s (proceed k) = proceed_job dh (get_elem? s.jobs k) k s
  enabled_step s (press k) = press_key s.poller k s
  enabled_step s poll = step_poller s.poller s
  enabled_step s signal = some (notify s)
  enabled_step s handle_signal = receive_signal s
  enabled_step s (tick rate) = live_tick dh rate s
  enabled_step s (ui_receive rate) = receive_in_ui dh rate s
  enabled_step s end_round = end_round_in_ui dh s

  -- Nothing runs after `os.Exit`.
  unfoldable pub step : System Collector → Action → Option (System Collector)
  unfolding enabled_step
  step s a = if s.killed then none else enabled_step s a

  -- `Run` once `newRunner` has returned: the main loop's head, and the live ui if it is on.
  unfoldable pub start : Flags → System Collector
  unfolding init_runner
  start lf = record {
    runner = init_runner dh lf;
    main = head 0;
    jobs = [];
    poller = idle;
    receiver = listening;
    ui = if lf.live_ui then watching else closed;
    killed = false;
    launched = 0;
  }

  pub data Reach (lf : Flags) : System Collector → Type 0 where
    started : Reach lf (start lf)
    next : {s t : System Collector} (a : Action) → Reach lf s → step s a ≡ some t → Reach lf t

  -- A schedule: its actions in turn, `none` if one of them is not enabled.
  unfoldable pub run : List Action → System Collector → Option (System Collector)
  run [] s = some s
  run (a ∷ rest) s = elim (step s a) [ none ↦ none | some t ↦ run rest t ]

  -- A schedule that is enabled reaches its last state.
  pub Reach-run :
      {lf : Flags} (moves : List Action) {s t : System Collector}
      → Reach lf s
      → run moves s ≡ some t
      → Reach lf t
  unfolding run
  Reach-run {lf} [] {s} {t} r h = subst (Reach lf) (cc) r
  Reach-run (a ∷ rest) {s} r h = elim (Option-cases (step s a)) [
    | inl e ↦ absurd (ground arith)
    | inr (u, e) ↦ Reach-run rest (next a r e) (ground arith)
  ]
