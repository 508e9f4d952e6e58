-- ===== src/Loadgen/Stopping.antt =====
-- loadgen/run.go: how a run ends early, by a signal that the signals' goroutine receives.
use plt.Base.{
  ℕ, zero, suc, ◌+◌, ◌≤◌, ◌≡◌, refl, true, Option, some, ℤ, List, [], ◌∷◌, arith, Option-cases,
  Bool-cases, inl, inr,
}
use plt.Loadgen.Flags.{Key, quit, ctrl_c, right, left, up, down, other}
use plt.Loadgen.Runner.{Dynhist, increase_rate_limit, decrease_rate_limit, refresh_rate_limiter}
use plt.Loadgen.State.{
  listening, stopping, Main, head, waiting, acquiring, launching, checking, filling, sending,
  reporting, Stage, working, failed, releasing, Poller, idle, interrupting, taking, giving, Job,
  Outcome, ok, err, System, Action, advance, waited, checked, finish, proceed, press, poll, signal,
  handle_signal, tick, ui_receive, end_round,
}
use plt.Loadgen.MainLoop.{advance_main, after_wait, after_check}
use plt.Loadgen.Controls.{
  increase_concurrency, decrease_concurrency, dispatch, press_key, step_poller, notify,
  receive_signal,
}
use plt.Loadgen.Jobs.{finish_stage, proceed_stage, live_tick, receive_in_ui, end_round_in_ui}
use plt.Loadgen.Inversion.{finish_job_inversion, proceed_job_inversion, step_inversion}
use plt.Loadgen.System.{enabled_step, step, run}

-- A launch that the main goroutine may be on its way to.
abbrev pending : Main → ℕ
pending (checking _) = 0
pending (filling _) = 0
pending (sending _) = 0
pending (reporting _) = 0
pending _ = 1

-- Once `done` is set it stays set, and no launch comes in sight that was not.
record Stops {C : Type 0} (s t : System C) : Type 0 where
  still_done : t.runner.done ≡ true
  launches : t.launched + pending t.main ≤ s.launched + pending s.main

module _ {C : Type 0} where
  press-Stops :
      (p : Poller) (k : Key) (s : System C) {t : System C}
      → s.runner.done ≡ true
      → press_key p k s ≡ some t
      → Stops s t
  unfolding press_key dispatch increase_concurrency decrease_concurrency increase_rate_limit
      decrease_rate_limit refresh_rate_limiter
  press-Stops idle quit s d h = ground arith
  press-Stops idle ctrl_c s d h = ground arith
  press-Stops idle right s d h = ground arith
  press-Stops idle left s d h = ground arith
  press-Stops idle up s d h = ground arith
  press-Stops idle down s d h = ground arith
  press-Stops idle (other _) s d h = ground arith
  press-Stops p k s d h = cc

  poll-Stops :
      (p : Poller) (s : System C) {t : System C}
      → s.runner.done ≡ true
      → step_poller p s ≡ some t
      → Stops s t
  unfolding step_poller
  poll-Stops idle s d h = cc
  poll-Stops interrupting s d h = ground arith
  poll-Stops (taking zero) s d h = ground arith
  poll-Stops (taking (suc k)) s d h = ground arith
  poll-Stops (giving zero) s d h = ground arith
  poll-Stops (giving (suc k)) s d h = ground arith

  main-Stops :
      (m : Main) (s : System C) {t : System C}
      → s.main ≡ m
      → s.runner.done ≡ true
      → advance_main m s ≡ some t
      → Stops s t
  unfolding advance_main
  main-Stops (head i) s m d h = ground arith
  main-Stops (acquiring i) s m d h = ground arith
  main-Stops (launching i) s m d h = ground arith
  main-Stops (filling k) s m d h = ground arith
  main-Stops (sending k) s m d h = ground arith
  main-Stops _ s m d h = cc

  wait-Stops :
      (m : Main) (e : Option ℕ) (s : System C) {t : System C}
      → s.main ≡ m
      → s.runner.done ≡ true
      → after_wait m e s ≡ some t
      → Stops s t
  unfolding after_wait
  wait-Stops (waiting i) e s m d h = ground arith
  wait-Stops _ e s m d h = cc

  check-Stops :
      (m : Main) (since : ℤ) (s : System C) {t : System C}
      → s.main ≡ m
      → s.runner.done ≡ true
      → after_check m since s ≡ some t
      → Stops s t
  unfolding after_check
  check-Stops (checking i) since s m d h = ground arith
  check-Stops _ since s m d h = cc

module _ (dh : Dynhist) where
  open dh use {Collector}

  finish-Stops :
      (st : Stage) (j : Job) (k : ℕ) (o : Outcome) (s : System Collector) {t : System Collector}
      → s.runner.done ≡ true
      → finish_stage dh st j k o s ≡ some t
      → Stops s t
  unfolding finish_stage
  finish-Stops working j k (ok x) s d h = ground arith
  finish-Stops working j k (err x) s d h = ground arith
  finish-Stops _ j k o s d h = cc

  proceed-Stops :
      (st : Stage) (j : Job) (k : ℕ) (s : System Collector) {t : System Collector}
      → s.runner.done ≡ true
      → proceed_stage dh st j k s ≡ some t
      → Stops s t
  unfolding proceed_stage
  proceed-Stops working j k s d h = cc
  proceed-Stops failed j k s d h = ground arith
  proceed-Stops releasing j k s d h = ground arith

  enabled_step-Stops :
      (s : System Collector) (a : Action) {t : System Collector}
      → s.runner.done ≡ true
      → enabled_step dh s a ≡ some t
      → Stops s t
  unfolding enabled_step notify receive_signal live_tick receive_in_ui end_round_in_ui
  enabled_step-Stops s advance d h = main-Stops s.main s refl d h
  enabled_step-Stops s (waited x) d h = wait-Stops s.main x s refl d h
  enabled_step-Stops s (checked since) d h = check-Stops s.main since s refl d h
  enabled_step-Stops s (finish k o) {t} d h =
      let (j, here, e) = finish_job_inversion dh s k o t h in finish-Stops j.stage j k o s d e
  enabled_step-Stops s (proceed k) {t} d h =
      let (j, here, e) = proceed_job_inversion dh s k t h in proceed-Stops j.stage j k s d e
  enabled_step-Stops s (press k) d h = press-Stops s.poller k s d h
  enabled_step-Stops s poll d h = poll-Stops s.poller s d h
  enabled_step-Stops s signal d h = ground arith
  enabled_step-Stops s handle_signal d h = ground arith
  enabled_step-Stops s (tick rate) d h = ground arith
  enabled_step-Stops s (ui_receive rate) d h = ground arith
  enabled_step-Stops s end_round d h = ground arith

  run-Stops :
      (moves : List Action) (s : System Collector) {t : System Collector}
      → s.runner.done ≡ true
      → run dh moves s ≡ some t
      → Stops s t
  unfolding run
  run-Stops [] s d h = ground arith
  run-Stops (a ∷ rest) s {t} d h = elim (Option-cases (step dh s a)) [
    | inl e ↦ absurd (ground arith)
    | inr (u, e) ↦
        let first : Stops s u = enabled_step-Stops s a d (step_inversion dh s a u e).1 in
        let later : Stops u t = run-Stops rest u {t = t} first.still_done (ground arith) in
        record {
          still_done = later.still_done;
          launches = omega (arith, first.launches, later.launches);
        }
  ]

  pending-le : (m : Main) → pending m ≤ 1
  pending-le (head i) = omega arith
  pending-le (waiting i) = omega arith
  pending-le (acquiring i) = omega arith
  pending-le (launching i) = omega arith
  pending-le (checking i) = omega arith
  pending-le (filling k) = omega arith
  pending-le (sending k) = omega arith
  pending-le (reporting k) = omega arith

  -- The store of `done`, of a run that is not over.
  abbrev stopped_now : System Collector → System Collector
  stopped_now s = record s { runner = record (s.runner) { done = true }; receiver = listening }

  run_stop :
      (moves : List Action) (s : System Collector) {t : System Collector}
      → s.receiver ≡ stopping
      → run dh (handle_signal ∷ moves) s ≡ some t
      → run dh moves (stopped_now s) ≡ some t
  unfolding run step enabled_step receive_signal
  run_stop moves s at h = elim (Bool-cases s.killed) [
    | inl e ↦ absurd (ground arith)
    | inr e ↦ ground arith
  ]

  -- In any state, with the live ui or without, from the store of `done` on, with which the signals'
  -- goroutine ends the handling of a first signal: whatever happens then, at most one more job is
  -- launched.
  pub signal_stops :
      (moves : List Action) (s : System Collector) {t : System Collector}
      → s.receiver ≡ stopping
      → run dh (handle_signal ∷ moves) s ≡ some t
      → t.launched ≤ suc s.launched
  signal_stops moves s {t} at h =
      let stops : Stops (stopped_now s) t =
        run-Stops moves (stopped_now s) refl (run_stop moves s at h) in
      omega (arith, stops.launches, pending-le s.main)
