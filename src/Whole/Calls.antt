-- ===== src/Whole/Calls.antt =====
-- The calls of `Job` against the load generator's jobs: each job inside `Job` has its call.
use plt.Base.{
  ℕ, zero, suc, ◌+◌, ◌≡◌, refl, subst, true, Option, none, some, arith, get_elem?, total, total-set,
  total-erase_at, ◌==◌, if◌then◌else◌,
}
use plt.Loadgen.Flags.{Key, quit, ctrl_c, right, left, up, down, other}
use plt.Loadgen.Runner.{Dynhist}
use plt.Loadgen.State.{
  Main, head, waiting, acquiring, launching, checking, filling, sending, reporting, Stage, working,
  failed, releasing, Poller, idle, interrupting, taking, giving, Job, Outcome, ok, err, System,
  Action, advance, waited, checked, finish, proceed, press, poll, signal, handle_signal, tick,
  ui_receive, end_round,
}
use plt.Loadgen.MainLoop.{advance_main, after_wait, after_check}
use plt.Loadgen.Controls.{
  increase_concurrency, decrease_concurrency, dispatch, press_key, step_poller, notify,
  receive_signal,
}
use plt.Loadgen.Runner.{increase_rate_limit, decrease_rate_limit}
use plt.Loadgen.Jobs.{finish_stage, proceed_stage, live_tick, receive_in_ui, end_round_in_ui}
use plt.Loadgen.Accounts.{failed_weight}
use plt.Loadgen.Inversion.{finish_job_inversion, proceed_job_inversion, step_inversion}
use plt.Loadgen.System.{enabled_step, step}
use plt.Whole.{is_own}

-- The jobs inside `Job` with an index.
abbrev pub working_at : ℕ → Job → ℕ
working_at i j = elim j.stage [ working ↦ (if j.index == i then 1 else 0) | _ ↦ 0 ]

module _ (dh : Dynhist) where
  open dh use {Collector, count}

  -- What a step that is none of the calls' leaves as it is.
  pub record Apart (i : ℕ) (s t : System Collector) : Type 0 where
    pub inside : total (working_at i) t.jobs ≡ total (working_at i) s.jobs
    pub recorded : count t.runner.round_trip_hist ≡ count s.runner.round_trip_hist
    pub errors :
        t.runner.err_cnt + total failed_weight t.jobs
        ≡ s.runner.err_cnt + total failed_weight s.jobs
    pub as_many : t.launched ≡ s.launched

  advance-Apart :
      (i : ℕ) (m : Main) (s : System Collector) {t : System Collector}
      → is_own m advance ≡ true
      → advance_main m s ≡ some t
      → Apart i s t
  unfolding advance_main
  advance-Apart i (head k) s own h = ground arith
  advance-Apart i (waiting k) s own h = ground arith
  advance-Apart i (acquiring k) s own h = ground arith
  advance-Apart i (launching k) s own h = absurd (cc)
  advance-Apart i (checking k) s own h = ground arith
  advance-Apart i (filling k) s own h = ground arith
  advance-Apart i (sending k) s own h = ground arith
  advance-Apart i (reporting k) s own h = ground arith

  wait-Apart :
      (i : ℕ) (m : Main) (x : Option ℕ) (s : System Collector) {t : System Collector}
      → after_wait m x s ≡ some t
      → Apart i s t
  unfolding after_wait
  wait-Apart i (waiting k) none s h = ground arith
  wait-Apart i (waiting k) (some x) s h = ground arith
  wait-Apart i _ x s h = absurd (cc)

  press-Apart :
      (i : ℕ) (p : Poller) (k : Key) (s : System Collector) {t : System Collector}
      → press_key p k s ≡ some t
      → Apart i s t
  unfolding press_key dispatch increase_concurrency decrease_concurrency increase_rate_limit
      decrease_rate_limit
  press-Apart i idle quit s h = ground arith
  press-Apart i idle ctrl_c s h = ground arith
  press-Apart i idle right s h = ground arith
  press-Apart i idle left s h = ground arith
  press-Apart i idle up s h = ground arith
  press-Apart i idle down s h = ground arith
  press-Apart i idle (other _) s h = ground arith
  press-Apart i _ k s h = absurd (cc)

  poll-Apart :
      (i : ℕ) (p : Poller) (s : System Collector) {t : System Collector}
      → step_poller p s ≡ some t
      → Apart i s t
  unfolding step_poller
  poll-Apart i idle s h = absurd (cc)
  poll-Apart i interrupting s h = ground arith
  poll-Apart i (taking zero) s h = ground arith
  poll-Apart i (taking (suc k)) s h = ground arith
  poll-Apart i (giving zero) s h = ground arith
  poll-Apart i (giving (suc k)) s h = ground arith

  proceed-Apart :
      (i : ℕ) (st : Stage) (j : Job) (k : ℕ) (s : System Collector) {t : System Collector}
      → j.stage ≡ st
      → get_elem? s.jobs k ≡ some j
      → proceed_stage dh st j k s ≡ some t
      → Apart i s t
  unfolding proceed_stage
  proceed-Apart i working j k s w e h = absurd (cc)
  proceed-Apart i failed j k s w e h =
      let new = record j { stage = releasing } in
      ground
        (arith, total-set (working_at i) s.jobs k j new e, total-set failed_weight s.jobs k j new e)
  proceed-Apart i releasing j k s w e h =
      ground (
        arith,
        total-erase_at (working_at i) s.jobs k j e,
        total-erase_at failed_weight s.jobs k j e,
      )

  own-Apart :
      (i : ℕ) (a : Action) (s t : System Collector)
      → is_own s.main a ≡ true
      → enabled_step dh s a ≡ some t
      → Apart i s t
  unfolding enabled_step notify receive_signal live_tick receive_in_ui end_round_in_ui after_check
  own-Apart i advance s t own h = advance-Apart i s.main s own h
  own-Apart i (waited x) s t own h = wait-Apart i s.main x s h
  own-Apart i (checked since) s t own h = ground arith
  own-Apart i (finish k o) s t own h = absurd (cc)
  own-Apart i (proceed k) s t own h =
      let (j, here, e) = proceed_job_inversion dh s k t h in
      proceed-Apart i j.stage j k s refl here e
  own-Apart i (press k) s t own h = press-Apart i s.poller k s h
  own-Apart i poll s t own h = poll-Apart i s.poller s h
  own-Apart i signal s t own h = ground arith
  own-Apart i handle_signal s t own h = ground arith
  own-Apart i (tick rate) s t own h = ground arith
  own-Apart i (ui_receive rate) s t own h = ground arith
  own-Apart i end_round s t own h = ground arith

  pub step-Apart :
      (i : ℕ) (a : Action) (s t : System Collector)
      → is_own s.main a ≡ true
      → step dh s a ≡ some t
      → Apart i s t
  step-Apart i a s t own h = own-Apart i a s t own (step_inversion dh s a t h).1

  -- The `go` statement adds a job, and nothing else.
  pub record Grown (i n : ℕ) (s t : System Collector) : Type 0 where
    pub inside :
        total (working_at n) t.jobs ≡ (if i == n then 1 else 0) + total (working_at n) s.jobs
    pub recorded : count t.runner.round_trip_hist ≡ count s.runner.round_trip_hist
    pub errors :
        t.runner.err_cnt + total failed_weight t.jobs
        ≡ s.runner.err_cnt + total failed_weight s.jobs
    pub as_many : t.launched ≡ suc s.launched

  launching-Grown :
      (i n : ℕ) (m : Main) (s t : System Collector)
      → m ≡ launching i
      → advance_main m s ≡ some t
      → Grown i n s t
  unfolding advance_main
  launching-Grown i n (launching k) s t e h = ground arith
  launching-Grown i n _ s t e h = absurd (cc)

  pub step-Grown :
      (i n : ℕ) (s t : System Collector)
      → s.main ≡ launching i
      → step dh s advance ≡ some t
      → Grown i n s t
  unfolding enabled_step
  step-Grown i n s t at h = launching-Grown i n s.main s t at (step_inversion dh s advance t h).1

abbrev pub succeeded : Outcome → ℕ
succeeded (ok d) = 1
succeeded (err e) = 0

abbrev pub went_wrong : Outcome → ℕ
went_wrong (ok d) = 0
went_wrong (err e) = 1

module _ (dh : Dynhist) where
  open dh use {Collector, count, count-add}

  -- A job that returns is no longer inside `Job`, and is counted on its way.
  pub record Left (j : Job) (o : Outcome) (n : ℕ) (s t : System Collector) : Type 0 where
    pub inside :
        total (working_at n) t.jobs + (if j.index == n then 1 else 0) ≡ total (working_at n) s.jobs
    pub recorded : count t.runner.round_trip_hist ≡ succeeded o + count s.runner.round_trip_hist
    pub errors :
        t.runner.err_cnt + total failed_weight t.jobs
        ≡ went_wrong o + (s.runner.err_cnt + total failed_weight s.jobs)
    pub as_many : t.launched ≡ s.launched

  finish-Left :
      (st : Stage) (j : Job) (k : ℕ) (o : Outcome) (n : ℕ) (s t : System Collector)
      → j.stage ≡ st
      → get_elem? s.jobs k ≡ some j
      → finish_stage dh st j k o s ≡ some t
      → Left j o n s t
  unfolding finish_stage
  finish-Left working j k (ok d) n s t w e h =
      let new = record j { stage = releasing } in
      ground (
        arith,
        total-set (working_at n) s.jobs k j new e,
        total-set failed_weight s.jobs k j new e,
        count-add s.runner.round_trip_hist d,
      )
  finish-Left working j k (err x) n s t w e h =
      let new = record j { stage = failed } in
      ground
        (arith, total-set (working_at n) s.jobs k j new e, total-set failed_weight s.jobs k j new e)
  finish-Left failed j k o n s t w e h = absurd (cc)
  finish-Left releasing j k o n s t w e h = absurd (cc)

  pub step-Left :
      (k : ℕ) (j : Job) (o : Outcome) (n : ℕ) (s t : System Collector)
      → get_elem? s.jobs k ≡ some j
      → step dh s (finish k o) ≡ some t
      → Left j o n s t
  unfolding enabled_step
  step-Left k j o n s t here h =
      let (j', there, e) =
        finish_job_inversion dh s k o t (step_inversion dh s (finish k o) t h).1 in
      let same : j' ≡ j = cc in
      finish-Left j.stage j k o n s t refl here
        (subst (λ x. finish_stage dh x.stage x k o s ≡ some t) same e)
