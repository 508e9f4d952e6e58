-- ===== src/Loadgen/Termination.antt =====
-- loadgen/run.go without the live ui: every step of a run brings it nearer to its report.
use plt.Base.{
  suc, Option-cases, inl, inr, if◌then◌else◌, ℕ, ◌+◌, ◌-◌, ◌≤◌, ◌<◌, ◌*◌, ◌≡◌, refl, ℤ, Bool, false,
  true, Option, none, some, List, [], ◌∷◌, get_elem?, arith, total, total-set, total-erase_at,
}
use plt.Loadgen.Flags.{Flags}
use plt.Loadgen.Runner.{Err, Dynhist, initial_limit, initial_number}
use plt.Loadgen.State.{
  Main, head, waiting, acquiring, launching, checking, filling, sending, reporting, Stage, working,
  failed, releasing, Job, Outcome, ok, err, System, Action, advance, waited, checked, finish,
  proceed, press, poll, signal, handle_signal, tick, ui_receive, end_round,
}
use plt.Loadgen.MainLoop.{advance_main, after_wait, after_check}
use plt.Loadgen.Controls.{press_key, step_poller, notify, receive_signal}
use plt.Loadgen.Jobs.{
  finish_stage, proceed_stage, finish_job, proceed_job, live_tick, receive_in_ui, end_round_in_ui,
}
use plt.Loadgen.Inversion.{finish_job_inversion, proceed_job_inversion, step_inversion}
use plt.Loadgen.System.{enabled_step, step, start, Reach, started, next, run}
use plt.Loadgen.Accounts.{Accounts, Placed, Reach-Accounts}
use plt.Loadgen.Offline.{Offline, Reach-Offline}

-- The steps that the main goroutine still has before it: eight for each launch with its job's,
-- then two for each slot of the last loop.
abbrev pub main_weight : Main → ℕ → ℕ → ℕ
main_weight (head i) n limit = 8 * (n - i) + 2 * limit + 2
main_weight (waiting i) n limit = 8 * (n - i) + 2 * limit + 1
main_weight (acquiring i) n limit = 8 * (n - i) + 2 * limit
main_weight (launching i) n limit = 8 * (n - i) + 2 * limit - 1
main_weight (checking i) n limit = 8 * (n - i) + 2 * limit - 5
main_weight (filling k) n limit = 2 * (limit - k) + 1
main_weight (sending k) n limit = 2 * (limit - suc k) + 2
main_weight (reporting k) n limit = 0

abbrev pub job_weight : Job → ℕ
job_weight j = elim j.stage [ working ↦ 3 | failed ↦ 2 | releasing ↦ 1 ]

abbrev pub measure : {C : Type 0} → System C → ℕ
measure s = main_weight s.main s.runner.n s.runner.concurrency_limit + total job_weight s.jobs

-- The steps of `Run` and of its jobs, as against signals and keys.
abbrev pub is_internal : Action → Bool
is_internal advance = true
is_internal (waited _) = true
is_internal (checked _) = true
is_internal (finish _ _) = true
is_internal (proceed _) = true
is_internal _ = false

abbrev pub Falls : {C : Type 0} → Bool → System C → System C → Type 0
Falls true s t = measure t < measure s
Falls false s t = measure t ≡ measure s

module _ (dh : Dynhist) where
  open dh use {Collector}

  advance_falls :
      (m : Main) (s : System Collector) {t : System Collector}
      → s.main ≡ m
      → Placed m s.runner.n s.launched
      → advance_main m s ≡ some t
      → measure t < measure s
  unfolding advance_main
  advance_falls (head i) s e v h = ground arith
  advance_falls (acquiring i) s e v h = ground arith
  advance_falls (launching i) s e v h = ground arith
  advance_falls (filling k) s e v h = ground arith
  advance_falls (sending k) s e v h = ground arith
  advance_falls _ s e v h = cc

  check_falls :
      (m : Main) (since : ℤ) (s : System Collector) {t : System Collector}
      → s.main ≡ m
      → Placed m s.runner.n s.launched
      → after_check m since s ≡ some t
      → measure t < measure s
  unfolding after_check
  check_falls (checking i) since s e v h = ground arith
  check_falls _ since s e v h = cc

  wait_falls :
      (m : Main) (x : Option Err) (s : System Collector) {t : System Collector}
      → s.main ≡ m
      → Placed m s.runner.n s.launched
      → after_wait m x s ≡ some t
      → measure t < measure s
  unfolding after_wait
  wait_falls (waiting i) none s e v h = ground arith
  wait_falls (waiting i) (some x) s e v h = ground arith
  wait_falls _ x s e v h = cc

  finish_falls :
      (st : Stage) (j : Job) (k : ℕ) (o : Outcome) (s : System Collector) {t : System Collector}
      → j.stage ≡ st
      → get_elem? s.jobs k ≡ some j
      → finish_stage dh st j k o s ≡ some t
      → measure t < measure s
  unfolding finish_stage
  finish_falls working j k (ok x) s w e h =
      ground (arith, total-set job_weight s.jobs k j (record j { stage = releasing }) e)
  finish_falls working j k (err x) s w e h =
      ground (arith, total-set job_weight s.jobs k j (record j { stage = failed }) e)
  finish_falls _ j k o s w e h = cc

  proceed_falls :
      (st : Stage) (j : Job) (k : ℕ) (s : System Collector) {t : System Collector}
      → j.stage ≡ st
      → get_elem? s.jobs k ≡ some j
      → proceed_stage dh st j k s ≡ some t
      → measure t < measure s
  unfolding proceed_stage
  proceed_falls working j k s w e h = cc
  proceed_falls failed j k s w e h =
      ground (arith, total-set job_weight s.jobs k j (record j { stage = releasing }) e)
  proceed_falls releasing j k s w e h = ground (arith, total-erase_at job_weight s.jobs k j e)

  step-Falls :
      {limit : ℕ} (s : System Collector) (a : Action) {t : System Collector}
      → Offline limit s
      → Accounts dh s
      → enabled_step dh s a ≡ some t
      → Falls (is_internal a) s t
  unfolding enabled_step notify receive_signal live_tick receive_in_ui end_round_in_ui press_key
      step_poller
  step-Falls s advance v w h = advance_falls s.main s refl w.placed h
  step-Falls s (waited x) v w h = wait_falls s.main x s refl w.placed h
  step-Falls s (checked since) v w h = check_falls s.main since s refl w.placed h
  step-Falls s (finish k o) {t} v w h =
      let (j, here, e) = finish_job_inversion dh s k o t h in
      finish_falls j.stage j k o s refl here e
  step-Falls s (proceed k) {t} v w h =
      let (j, here, e) = proceed_job_inversion dh s k t h in proceed_falls j.stage j k s refl here e
  step-Falls s (press k) v w h = ground arith
  step-Falls s poll v w h = ground arith
  step-Falls s signal v w h = ground arith
  step-Falls s handle_signal v w h = ground arith
  step-Falls s (tick rate) v w h = ground arith
  step-Falls s (ui_receive rate) v w h = ground arith
  step-Falls s end_round v w h = ground arith

  pub internal_keeps_killed :
      (s : System Collector) (a : Action) {t : System Collector}
      → is_internal a ≡ true
      → enabled_step dh s a ≡ some t
      → t.killed ≡ s.killed
  unfolding enabled_step finish_job proceed_job advance_main after_wait after_check
  internal_keeps_killed s advance i h = ground arith
  internal_keeps_killed s (waited x) i h = ground arith
  internal_keeps_killed s (checked since) i h = ground arith
  internal_keeps_killed s (finish k o) i h = ground arith
  internal_keeps_killed s (proceed k) i h = ground arith
  internal_keeps_killed s _ i h = cc

abbrev pub internal_steps : List Action → ℕ
internal_steps [] = 0
internal_steps (a ∷ rest) = (if is_internal a then 1 else 0) + internal_steps rest

add_fall :
    {C : Type 0} (b : Bool) (s u : System C) (more last : ℕ)
    → Falls b s u
    → more + last ≤ measure u
    → (if b then 1 else 0) + more + last ≤ measure s
add_fall true s u more last f h = omega arith
add_fall false s u more last f h = omega arith

module _ (dh : Dynhist) (lf : Flags) (off : lf.live_ui ≡ false) where
  open dh use {Collector}

  pub Reach-Falls :
      {s : System Collector} (a : Action) {t : System Collector}
      → Reach dh lf s
      → step dh s a ≡ some t
      → Falls (is_internal a) s t
  Reach-Falls {s} a {t} r h =
      step-Falls dh s a (Reach-Offline dh off r) (Reach-Accounts dh r) (step_inversion dh s a t h).1

  measure-start :
      measure (start dh lf) ≡ 8 * initial_number lf.number + 2 * initial_limit lf.concurrency + 2
  unfolding start
  measure-start = omega arith

  schedule_falls :
      (moves : List Action) (s : System Collector) {t : System Collector}
      → Reach dh lf s
      → run dh moves s ≡ some t
      → internal_steps moves + measure t ≤ measure s
  unfolding run
  schedule_falls [] s {t} r h = ground arith
  schedule_falls (a ∷ rest) s {t} r h = elim (Option-cases (step dh s a)) [
    | inl e ↦ absurd (ground arith)
    | inr (u, e) ↦
        add_fall (is_internal a) s u (internal_steps rest) (measure t) (Reach-Falls a r e)
          (schedule_falls rest u {t = t} (next a r e) (ground arith))
  ]

  -- Without the live ui, whatever the scheduler, the jobs and the clock do, a run makes at most
  -- eight steps of `Run` and of its jobs for each of its requests, two for each slot (the test and
  -- the send of the last loop), and two more.
  pub schedule_bounded :
      (moves : List Action) {t : System Collector}
      → run dh moves (start dh lf) ≡ some t
      → internal_steps moves ≤ 8 * initial_number lf.number + 2 * initial_limit lf.concurrency + 2
  schedule_bounded moves {t} h =
      omega (arith, schedule_falls moves (start dh lf) {t = t} started h, measure-start)
