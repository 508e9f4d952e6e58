-- ===== src/Loadgen/Accounts.antt =====
-- loadgen/run.go: every launched job is counted once, and an error count comes with an error.
use plt.Base.{
  ℕ, zero, suc, ◌+◌, ◌≤◌, ◌<◌, ◌≡◌, refl, Bool, false, true, Option, none, some, get_elem?, arith,
  total, total-set, total-erase_at,
}
use plt.Loadgen.Flags.{Flags, Key, quit, ctrl_c, right, left, up, down, other}
use plt.Loadgen.Runner.{Dynhist, initial_number, increase_rate_limit, decrease_rate_limit}
use plt.Loadgen.State.{
  Main, head, waiting, acquiring, launching, checking, filling, sending, reporting, Stage, working,
  failed, releasing, Poller, idle, interrupting, taking, giving, Job, Outcome, ok, err, System,
  Action, advance, waited, checked, finish, proceed, press, poll, signal, handle_signal, tick,
  ui_receive, end_round,
}
use plt.Loadgen.MainLoop.{advance_main, after_wait, after_check}
use plt.Loadgen.Controls.{
  increase_concurrency, decrease_concurrency, dispatch, press_key, step_poller, notify,
  receive_signal,
}
use plt.Loadgen.Jobs.{finish_stage, proceed_stage, live_tick, receive_in_ui, end_round_in_ui}
use plt.Loadgen.Inversion.{finish_job_inversion, proceed_job_inversion, step_inversion}
use plt.Loadgen.System.{enabled_step, start, Reach, started, next}

-- A job is open until its success or its error is counted.
abbrev pub open_weight : Job → ℕ
open_weight j = elim j.stage [ releasing ↦ 0 | _ ↦ 1 ]

abbrev pub failed_weight : Job → ℕ
failed_weight j = elim j.stage [ failed ↦ 1 | _ ↦ 0 ]

abbrev pub is_some {ℓ} : {A : Type ℓ} → Option A → Bool
is_some none = false
is_some (some _) = true

-- The loop variable counts the launches; past the loop there was at least one, and at most `n`.
abbrev pub Placed : Main → ℕ → ℕ → Type 0
Placed (head i) n launched = (launched ≡ i) × (i ≤ n)
Placed (waiting i) n launched = (launched ≡ i) × (i < n)
Placed (acquiring i) n launched = (launched ≡ i) × (i < n)
Placed (launching i) n launched = (launched ≡ i) × (i < n)
Placed (checking i) n launched = (launched ≡ suc i) × (i < n)
Placed (filling k) n launched = (1 ≤ launched) × (launched ≤ n)
Placed (sending k) n launched = (1 ≤ launched) × (launched ≤ n)
Placed (reporting k) n launched = (1 ≤ launched) × (launched ≤ n)

module _ (dh : Dynhist) where
  open dh use {Collector, count, count-add, count-empty}

  pub record Accounts (s : System Collector) : Type 0 where
    pub counted :
        count s.runner.round_trip_hist + s.runner.err_cnt + total open_weight s.jobs ≡ s.launched
    pub known : 0 < s.runner.err_cnt + total failed_weight s.jobs → is_some s.runner.last_err ≡ true
    pub n_pos : 1 ≤ s.runner.n
    pub placed : Placed s.main s.runner.n s.launched

  advance-Accounts :
      (m : Main) (s : System Collector) {t : System Collector}
      → s.main ≡ m
      → Accounts s
      → advance_main m s ≡ some t
      → Accounts t
  unfolding advance_main
  advance-Accounts (head i) s e v h = ground arith
  advance-Accounts (waiting i) s e v h = ground arith
  advance-Accounts (acquiring i) s e v h = ground arith
  advance-Accounts (launching i) s e v h = ground arith
  advance-Accounts (checking i) s e v h = ground arith
  advance-Accounts (filling k) s e v h = ground arith
  advance-Accounts (sending k) s e v h = ground arith
  advance-Accounts (reporting k) s e v h = ground arith

  wait-Accounts :
      (m : Main) (x : Option ℕ) (s : System Collector) {t : System Collector}
      → s.main ≡ m
      → Accounts s
      → after_wait m x s ≡ some t
      → Accounts t
  unfolding after_wait
  wait-Accounts (waiting i) none s e v h = ground arith
  wait-Accounts (waiting i) (some x) s e v h = ground arith
  wait-Accounts _ x s e v h = cc

  check-Accounts :
      (m : Main) (since : _) (s : System Collector) {t : System Collector}
      → s.main ≡ m
      → Accounts s
      → after_check m since s ≡ some t
      → Accounts t
  unfolding after_check
  check-Accounts (checking i) since s e v h = ground arith
  check-Accounts _ since s e v h = cc

  press-Accounts :
      (p : Poller) (k : Key) (s : System Collector) {t : System Collector}
      → s.poller ≡ p
      → Accounts s
      → press_key p k s ≡ some t
      → Accounts t
  unfolding press_key dispatch increase_concurrency decrease_concurrency increase_rate_limit
      decrease_rate_limit
  press-Accounts idle quit s e v h = ground arith
  press-Accounts idle ctrl_c s e v h = ground arith
  press-Accounts idle right s e v h = ground arith
  press-Accounts idle left s e v h = ground arith
  press-Accounts idle up s e v h = ground arith
  press-Accounts idle down s e v h = ground arith
  press-Accounts idle (other _) s e v h = ground arith
  press-Accounts _ k s e v h = cc

  poll-Accounts :
      (p : Poller) (s : System Collector) {t : System Collector}
      → s.poller ≡ p
      → Accounts s
      → step_poller p s ≡ some t
      → Accounts t
  unfolding step_poller
  poll-Accounts idle s e v h = cc
  poll-Accounts interrupting s e v h = ground arith
  poll-Accounts (taking zero) s e v h = ground arith
  poll-Accounts (taking (suc k)) s e v h = ground arith
  poll-Accounts (giving zero) s e v h = ground arith
  poll-Accounts (giving (suc k)) s e v h = ground arith

  finish-Accounts :
      (st : Stage) (j : Job) (k : ℕ) (o : Outcome) (s : System Collector) {t : System Collector}
      → j.stage ≡ st
      → get_elem? s.jobs k ≡ some j
      → Accounts s
      → finish_stage dh st j k o s ≡ some t
      → Accounts t
  unfolding finish_stage
  finish-Accounts working j k (ok x) s w e v h =
      let new = record j { stage = releasing } in
      ground (
        arith,
        total-set open_weight s.jobs k j new e,
        total-set failed_weight s.jobs k j new e,
        count-add s.runner.round_trip_hist x,
      )
  finish-Accounts working j k (err x) s w e v h =
      let new = record j { stage = failed } in
      ground
        (arith, total-set open_weight s.jobs k j new e, total-set failed_weight s.jobs k j new e)
  finish-Accounts _ j k o s w e v h = cc

  proceed-Accounts :
      (st : Stage) (j : Job) (k : ℕ) (s : System Collector) {t : System Collector}
      → j.stage ≡ st
      → get_elem? s.jobs k ≡ some j
      → Accounts s
      → proceed_stage dh st j k s ≡ some t
      → Accounts t
  unfolding proceed_stage
  proceed-Accounts working j k s w e v h = cc
  proceed-Accounts failed j k s w e v h =
      let new = record j { stage = releasing } in
      ground
        (arith, total-set open_weight s.jobs k j new e, total-set failed_weight s.jobs k j new e)
  proceed-Accounts releasing j k s w e v h =
      ground
        (arith, total-erase_at open_weight s.jobs k j e, total-erase_at failed_weight s.jobs k j e)

  enabled_step-Accounts :
      (s : System Collector) (a : Action) {t : System Collector}
      → Accounts s
      → enabled_step dh s a ≡ some t
      → Accounts t
  unfolding enabled_step notify receive_signal live_tick receive_in_ui end_round_in_ui
  enabled_step-Accounts s advance v h = advance-Accounts s.main s refl v h
  enabled_step-Accounts s (waited x) v h = wait-Accounts s.main x s refl v h
  enabled_step-Accounts s (checked since) v h = check-Accounts s.main since s refl v h
  enabled_step-Accounts s (finish k o) {t} v h =
      let (j, here, e) = finish_job_inversion dh s k o t h in
      finish-Accounts j.stage j k o s refl here v e
  enabled_step-Accounts s (proceed k) {t} v h =
      let (j, here, e) = proceed_job_inversion dh s k t h in
      proceed-Accounts j.stage j k s refl here v e
  enabled_step-Accounts s (press k) v h = press-Accounts s.poller k s refl v h
  enabled_step-Accounts s poll v h = poll-Accounts s.poller s refl v h
  enabled_step-Accounts s signal v h = ground arith
  enabled_step-Accounts s handle_signal v h = ground arith
  enabled_step-Accounts s (tick rate) v h = ground arith
  enabled_step-Accounts s (ui_receive rate) v h = ground arith
  enabled_step-Accounts s end_round v h = ground arith

  start-Accounts : (lf : Flags) → Accounts (start dh lf)
  unfolding start initial_number
  start-Accounts lf = ground (arith, count-empty 10)

  pub Reach-Accounts : {lf : Flags} {s : System Collector} → Reach dh lf s → Accounts s
  Reach-Accounts {lf} started = start-Accounts lf
  Reach-Accounts {s} (next {s = r} a before e) =
      enabled_step-Accounts r a (Reach-Accounts before) (step_inversion dh r a s e).1
