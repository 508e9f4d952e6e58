-- ===== src/Loadgen/Offline.antt =====
-- loadgen/run.go without the live ui: the limit is fixed, and the report waits for every job.
use plt.Base.{ℕ, ◌+◌, ◌-◌, ◌≤◌, ◌<◌, ◌≡◌, refl, ◌≢◌, false, some, [], get_elem?, arith, length}
use plt.Loadgen.Flags.{Flags}
use plt.Loadgen.Runner.{Dynhist, max_concurrency, initial_limit}
use plt.Loadgen.State.{
  closed, Main, head, acquiring, launching, filling, sending, reporting, Stage, working, failed,
  releasing, idle, Job, Outcome, ok, err, System, Action, advance, waited, checked, finish, proceed,
  press, poll, signal, handle_signal, tick, ui_receive, end_round,
}
use plt.Loadgen.MainLoop.{advance_main, after_wait, after_check}
use plt.Loadgen.Controls.{press_key, step_poller, notify, receive_signal}
use plt.Loadgen.Jobs.{finish_stage, proceed_stage, live_tick, receive_in_ui, end_round_in_ui}
use plt.Loadgen.Inversion.{finish_job_inversion, proceed_job_inversion, step_inversion}
use plt.Loadgen.System.{enabled_step, start, Reach, started, next}
use plt.Loadgen.Slots.{reserved, length-set, length-erase_at}

abbrev pub Reported : Main → ℕ → Type 0
Reported (reporting k) limit = limit ≤ k
Reported (sending k) limit = k < limit
Reported _ limit = Unit {0}

-- No control runs; each slot beyond the first fill is a job's, or the main goroutine's.
pub record Offline (limit : ℕ) {C : Type 0} (s : System C) : Type 0 where
  pub no_ui : s.runner.lf.live_ui ≡ false
  pub no_round : s.ui ≡ closed
  pub no_poller : s.poller ≡ idle
  pub fixed : s.runner.concurrency_limit ≡ limit
  pub capacity : s.runner.semaphore ≤ max_concurrency
  pub held : s.runner.semaphore ≡ max_concurrency - limit + reserved s.main + length s.jobs
  pub waited_for : Reported s.main limit

module _ (limit : ℕ) {C : Type 0} where
  advance-Offline :
      (m : Main) (s : System C) {t : System C}
      → s.main ≡ m
      → Offline limit s
      → advance_main m s ≡ some t
      → Offline limit t
  unfolding advance_main
  advance-Offline (head i) s e v h = ground arith
  advance-Offline (acquiring i) s e v h = ground arith
  advance-Offline (launching i) s e v h = ground arith
  advance-Offline (filling k) s e v h = ground arith
  advance-Offline (sending k) s e v h = ground arith
  advance-Offline _ s e v h = cc

module _ (dh : Dynhist) (limit : ℕ) where
  open dh use {Collector}

  finish-Offline :
      (st : Stage) (j : Job) (k : ℕ) (o : Outcome) (s : System Collector) {t : System Collector}
      → Offline limit s
      → finish_stage dh st j k o s ≡ some t
      → Offline limit t
  unfolding finish_stage
  finish-Offline working j k (ok x) s v h =
      ground (arith, length-set s.jobs k (record j { stage = releasing }))
  finish-Offline working j k (err x) s v h =
      ground (arith, length-set s.jobs k (record j { stage = failed }))
  finish-Offline _ j k o s v h = cc

  proceed-Offline :
      (st : Stage) (j : Job) (k : ℕ) (s : System Collector) {t : System Collector}
      → get_elem? s.jobs k ≡ some j
      → Offline limit s
      → proceed_stage dh st j k s ≡ some t
      → Offline limit t
  unfolding proceed_stage
  proceed-Offline working j k s e v h = cc
  proceed-Offline failed j k s e v h =
      ground (arith, length-set s.jobs k (record j { stage = releasing }))
  proceed-Offline releasing j k s e v h = ground (arith, length-erase_at s.jobs k j e)

  enabled_step-Offline :
      (s : System Collector) (a : Action) {t : System Collector}
      → Offline limit s
      → enabled_step dh s a ≡ some t
      → Offline limit t
  unfolding enabled_step notify receive_signal live_tick receive_in_ui end_round_in_ui after_wait
      after_check press_key step_poller
  enabled_step-Offline s advance v h = advance-Offline limit s.main s refl v h
  enabled_step-Offline s (waited x) v h = ground arith
  enabled_step-Offline s (checked since) v h = ground arith
  enabled_step-Offline s (finish k o) {t} v h =
      let (j, _, e) = finish_job_inversion dh s k o t h in finish-Offline j.stage j k o s v e
  enabled_step-Offline s (proceed k) {t} v h =
      let (j, here, e) = proceed_job_inversion dh s k t h in proceed-Offline j.stage j k s here v e
  enabled_step-Offline s (press k) v h = ground arith
  enabled_step-Offline s poll v h = ground arith
  enabled_step-Offline s signal v h = ground arith
  enabled_step-Offline s handle_signal v h = ground arith
  enabled_step-Offline s (tick rate) v h = ground arith
  enabled_step-Offline s (ui_receive rate) v h = ground arith
  enabled_step-Offline s end_round v h = ground arith

module _ (dh : Dynhist) where
  open dh use {Collector}

  start-Offline :
      (lf : Flags) → lf.live_ui ≡ false → Offline (initial_limit lf.concurrency) (start dh lf)
  unfolding start
  start-Offline lf h = ground arith

  pub Reach-Offline :
      {lf : Flags} {s : System Collector}
      → lf.live_ui ≡ false
      → Reach dh lf s
      → Offline (initial_limit lf.concurrency) s
  Reach-Offline {lf} h started = start-Offline lf h
  Reach-Offline {lf} {s} h (next {s = r} a before e) =
      enabled_step-Offline dh (initial_limit lf.concurrency) r a (Reach-Offline h before)
        (step_inversion dh r a s e).1

  -- Without the live ui, when the report begins no job is left: the last loop of `Run` has filled
  -- the channel, which it can only once every job has given its slot back.
  pub report_waits_for_jobs :
      {lf : Flags} {s : System Collector}
      → lf.live_ui ≡ false
      → initial_limit lf.concurrency ≤ max_concurrency
      → Reach dh lf s
      → (filled : ℕ) → s.main ≡ reporting filled
      → s.jobs ≡ []
  report_waits_for_jobs off fits r filled e = ground (arith, Reach-Offline off r)

  -- Without the live ui, a concurrency above the channel's capacity of 1000 is never reported on:
  -- whatever the jobs do, the last loop of `Run` wants more slots than the channel has.
  pub oversized_never_reports :
      {lf : Flags} {s : System Collector}
      → lf.live_ui ≡ false
      → max_concurrency < initial_limit lf.concurrency
      → Reach dh lf s
      → (filled : ℕ) → s.main ≢ reporting filled
  oversized_never_reports off large r filled e = ground (arith, Reach-Offline off r)
