-- ===== src/Loadgen/Number.antt =====
-- loadgen/run.go without the live ui: the number of requests stays the one that the flags ask for.
use plt.Base.{
  ℕ, ◌≡◌, refl, ◌∙◌, false, some, pos, pos_part, ◌&&◌, leb_ℤ, eqb_ℤ, if◌then◌else◌, arith,
}
use plt.Loadgen.Flags.{Flags, prepare}
use plt.Loadgen.Inversion.{finish_job_inversion, proceed_job_inversion, step_inversion}
use plt.Loadgen.Jobs.{finish_stage, proceed_stage, live_tick, receive_in_ui, end_round_in_ui}
use plt.Loadgen.Controls.{press_key, step_poller, notify, receive_signal}
use plt.Loadgen.MainLoop.{advance_main, after_wait, after_check}
use plt.Loadgen.Offline.{Offline, Reach-Offline}
use plt.Loadgen.Runner.{Dynhist, initial_number}
use plt.Loadgen.State.{
  Main, head, acquiring, launching, filling, sending, Stage, working, failed, releasing, Job,
  Outcome, ok, err, System, Action, advance, waited, checked, finish, proceed, press, poll, signal,
  handle_signal, tick, ui_receive, end_round,
}
use plt.Loadgen.System.{enabled_step, start, Reach, started, next}

module _ {C : Type 0} where
  advance_main-n :
      (m : Main) (s : System C) {t : System C} → advance_main m s ≡ some t → t.runner.n ≡ s.runner.n
  unfolding advance_main
  advance_main-n (head i) s h = ground arith
  advance_main-n (acquiring i) s h = ground arith
  advance_main-n (launching i) s h = ground arith
  advance_main-n (filling k) s h = ground arith
  advance_main-n (sending k) s h = ground arith
  advance_main-n _ s h = absurd (ground arith)

module _ (dh : Dynhist) where
  open dh use {Collector}

  finish_stage-n :
      (st : Stage) (j : Job) (k : ℕ) (o : Outcome) (s : System Collector) {t : System Collector}
      → finish_stage dh st j k o s ≡ some t
      → t.runner.n ≡ s.runner.n
  unfolding finish_stage
  finish_stage-n working j k (ok x) s h = ground arith
  finish_stage-n working j k (err x) s h = ground arith
  finish_stage-n _ j k o s h = absurd (ground arith)

  proceed_stage-n :
      (st : Stage) (j : Job) (k : ℕ) (s : System Collector) {t : System Collector}
      → proceed_stage dh st j k s ≡ some t
      → t.runner.n ≡ s.runner.n
  unfolding proceed_stage
  proceed_stage-n working j k s h = absurd (ground arith)
  proceed_stage-n failed j k s h = ground arith
  proceed_stage-n releasing j k s h = ground arith

  enabled_step-n :
      {limit : ℕ} (s : System Collector) (a : Action) {t : System Collector}
      → Offline limit s
      → enabled_step dh s a ≡ some t
      → t.runner.n ≡ s.runner.n
  unfolding enabled_step notify receive_signal live_tick receive_in_ui end_round_in_ui press_key
      step_poller after_wait after_check
  enabled_step-n s advance v h = advance_main-n s.main s h
  enabled_step-n s (waited x) v h = ground arith
  enabled_step-n s (checked since) v h = ground arith
  enabled_step-n s (finish k o) {t} v h =
      let (j, here, e) = finish_job_inversion dh s k o t h in finish_stage-n j.stage j k o s e
  enabled_step-n s (proceed k) {t} v h =
      let (j, here, e) = proceed_job_inversion dh s k t h in proceed_stage-n j.stage j k s e
  enabled_step-n s (press k) v h = ground arith
  enabled_step-n s poll v h = ground arith
  enabled_step-n s signal v h = ground arith
  enabled_step-n s handle_signal v h = ground arith
  enabled_step-n s (tick rate) v h = ground arith
  enabled_step-n s (ui_receive rate) v h = ground arith
  enabled_step-n s end_round v h = ground arith

  Reach-n :
      {lf : Flags} {s : System Collector}
      → lf.live_ui ≡ false
      → Reach dh lf s
      → s.runner.n ≡ initial_number lf.number
  unfolding start
  Reach-n off started = refl
  Reach-n off (next {s = r} a before e) =
      enabled_step-n r a (Reach-Offline dh off before) (step_inversion dh r a _ e).1
      ∙ Reach-n off before

-- What a command line's number and duration allow: a thousand requests where it gives neither, and
-- as many as an `int32` counts where it gives no number.
abbrev pub allowed : Flags → ℕ
allowed lf =
    if eqb_ℤ lf.number (pos 0) && eqb_ℤ lf.duration (pos 0)
    then 1000
    else if leb_ℤ lf.number (pos 0)
    then 2147483647
    else pos_part lf.number

pub Reach-allowed :
    (dh : Dynhist) (lf : Flags) {s : System dh.Collector}
    → (prepare lf).live_ui ≡ false
    → Reach dh (prepare lf) s
    → s.runner.n ≡ allowed lf
unfolding prepare initial_number
Reach-allowed dh lf off r = Reach-n dh off r ∙ ground arith
