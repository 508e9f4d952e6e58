-- ===== src/Loadgen/Slots.antt =====
-- loadgen/run.go: how the semaphore's slots account for the jobs and for what is under way.
use plt.Base.{
  ℕ, zero, suc, ◌+◌, ◌≤◌, ◌≡◌, refl, some, List, [], ◌∷◌, length, get_elem?, set, erase_at, arith,
}
use plt.Loadgen.Flags.{Flags, Key, quit, ctrl_c, right, left, up, down, other}
use plt.Loadgen.Rounding.{delta_of-bounds}
use plt.Loadgen.Runner.{
  Dynhist, max_concurrency, initial_limit, increase_rate_limit, decrease_rate_limit,
}
use plt.Loadgen.State.{
  Main, head, waiting, acquiring, launching, checking, filling, sending, reporting, Stage, working,
  failed, releasing, Poller, idle, interrupting, taking, giving, Job, Outcome, ok, err, System,
  Action, advance, waited, checked, finish, proceed, press, poll, signal, handle_signal, tick,
  ui_receive, end_round,
}
use plt.Loadgen.MainLoop.{advance_main, after_wait, after_check}
use plt.Loadgen.Controls.{
  increase_concurrency, decrease_concurrency, dispatch, press_key, step_poller, notify,
  receive_signal,
}
use plt.Loadgen.Jobs.{finish_stage, proceed_stage, live_tick, receive_in_ui, end_round_in_ui}
use plt.Loadgen.Inversion.{finish_job_inversion, proceed_job_inversion, step_inversion}
use plt.Loadgen.System.{enabled_step, start, Reach, started, next}

-- Slots that the main goroutine holds for a job that it is about to launch, or has filled.
abbrev pub reserved : Main → ℕ
reserved (launching _) = 1
reserved (filling k) = k
reserved (sending k) = k
reserved (reporting k) = k
reserved _ = 0

abbrev pub to_take : Poller → ℕ
to_take (taking k) = k
to_take _ = 0

abbrev pub to_give : Poller → ℕ
to_give (giving k) = k
to_give _ = 0

-- The limit stays in its range, the channel within its capacity, and each slot has its holder.
pub record SlotInv {C : Type 0} (s : System C) : Type 0 where
  pub limit_pos : 1 ≤ s.runner.concurrency_limit
  pub limit_le : s.runner.concurrency_limit + to_give s.poller ≤ max_concurrency
  pub capacity : s.runner.semaphore ≤ max_concurrency
  pub balance :
      s.runner.semaphore + s.runner.concurrency_limit + to_give s.poller
      ≡ max_concurrency + to_take s.poller + reserved s.main + length s.jobs

module _ {ℓ} {A : Type ℓ} where
  pub length-set : (xs : List A) (i : ℕ) (v : A) → length (set xs i v) ≡ length xs
  length-set [] i v = refl
  length-set (x ∷ xs) zero v = refl
  length-set (x ∷ xs) (suc i) v = omega (arith, length-set xs i v)

  pub length-erase_at :
      (xs : List A) (i : ℕ) (v : A)
      → get_elem? xs i ≡ some v
      → suc (length (erase_at xs i)) ≡ length xs
  length-erase_at [] i v h = ground arith
  length-erase_at (x ∷ xs) zero v h = refl
  length-erase_at (x ∷ xs) (suc i) v h = omega (arith, length-erase_at xs i v h)

module _ {C : Type 0} where
  advance-SlotInv :
      (m : Main) (s : System C) {t : System C}
      → s.main ≡ m
      → SlotInv s
      → advance_main m s ≡ some t
      → SlotInv t
  unfolding advance_main
  advance-SlotInv (head i) s e v h = ground arith
  advance-SlotInv (waiting i) s e v h = ground arith
  advance-SlotInv (acquiring i) s e v h = ground arith
  advance-SlotInv (launching i) s e v h = ground arith
  advance-SlotInv (checking i) s e v h = ground arith
  advance-SlotInv (filling k) s e v h = ground arith
  advance-SlotInv (sending k) s e v h = ground arith
  advance-SlotInv (reporting k) s e v h = ground arith

  press-SlotInv :
      (p : Poller) (k : Key) (s : System C) {t : System C}
      → s.poller ≡ p
      → SlotInv s
      → press_key p k s ≡ some t
      → SlotInv t
  unfolding press_key dispatch increase_concurrency decrease_concurrency increase_rate_limit
      decrease_rate_limit
  press-SlotInv idle quit s e v h = ground arith
  press-SlotInv idle ctrl_c s e v h = ground arith
  press-SlotInv idle right s e v h =
      ground (arith, delta_of-bounds s.runner.concurrency_limit v.limit_pos (omega arith))
  press-SlotInv idle left s e v h =
      ground (arith, delta_of-bounds s.runner.concurrency_limit v.limit_pos (omega arith))
  press-SlotInv idle up s e v h = ground arith
  press-SlotInv idle down s e v h = ground arith
  press-SlotInv idle (other _) s e v h = ground arith
  press-SlotInv interrupting k s e v h = ground arith
  press-SlotInv (taking n) k s e v h = ground arith
  press-SlotInv (giving n) k s e v h = ground arith

  poll-SlotInv :
      (p : Poller) (s : System C) {t : System C}
      → s.poller ≡ p
      → SlotInv s
      → step_poller p s ≡ some t
      → SlotInv t
  unfolding step_poller
  poll-SlotInv idle s e v h = ground arith
  poll-SlotInv interrupting s e v h = ground arith
  poll-SlotInv (taking zero) s e v h = ground arith
  poll-SlotInv (taking (suc k)) s e v h = ground arith
  poll-SlotInv (giving zero) s e v h = ground arith
  poll-SlotInv (giving (suc k)) s e v h = ground arith

module _ (dh : Dynhist) where
  open dh use {Collector}

  finish-SlotInv :
      (st : Stage) (j : Job) (k : ℕ) (o : Outcome) (s : System Collector) {t : System Collector}
      → SlotInv s
      → finish_stage dh st j k o s ≡ some t
      → SlotInv t
  unfolding finish_stage
  finish-SlotInv working j k (ok x) s v h =
      ground (arith, length-set s.jobs k (record j { stage = releasing }))
  finish-SlotInv working j k (err x) s v h =
      ground (arith, length-set s.jobs k (record j { stage = failed }))
  finish-SlotInv failed j k o s v h = cc
  finish-SlotInv releasing j k o s v h = cc

  proceed-SlotInv :
      (st : Stage) (j : Job) (k : ℕ) (s : System Collector) {t : System Collector}
      → get_elem? s.jobs k ≡ some j
      → SlotInv s
      → proceed_stage dh st j k s ≡ some t
      → SlotInv t
  unfolding proceed_stage
  proceed-SlotInv working j k s e v h = cc
  proceed-SlotInv failed j k s e v h =
      ground (arith, length-set s.jobs k (record j { stage = releasing }))
  proceed-SlotInv releasing j k s e v h = ground (arith, length-erase_at s.jobs k j e)

  enabled_step-SlotInv :
      (s : System Collector) (a : Action) {t : System Collector}
      → SlotInv s
      → enabled_step dh s a ≡ some t
      → SlotInv t
  unfolding enabled_step notify receive_signal live_tick receive_in_ui end_round_in_ui after_wait
      after_check
  enabled_step-SlotInv s advance v h = advance-SlotInv s.main s refl v h
  enabled_step-SlotInv s (waited e) v h = ground arith
  enabled_step-SlotInv s (checked since) v h = ground arith
  enabled_step-SlotInv s (finish k o) {t} v h =
      let (j, _, e) = finish_job_inversion dh s k o t h in finish-SlotInv j.stage j k o s v e
  enabled_step-SlotInv s (proceed k) {t} v h =
      let (j, here, e) = proceed_job_inversion dh s k t h in proceed-SlotInv j.stage j k s here v e
  enabled_step-SlotInv s (press k) v h = press-SlotInv s.poller k s refl v h
  enabled_step-SlotInv s poll v h = poll-SlotInv s.poller s refl v h
  enabled_step-SlotInv s signal v h = ground arith
  enabled_step-SlotInv s handle_signal v h = ground arith
  enabled_step-SlotInv s (tick rate) v h = ground arith
  enabled_step-SlotInv s (ui_receive rate) v h = ground arith
  enabled_step-SlotInv s end_round v h = ground arith

  start-SlotInv :
      (lf : Flags) → initial_limit lf.concurrency ≤ max_concurrency → SlotInv (start dh lf)
  unfolding start initial_limit
  start-SlotInv lf h = ground arith

  pub Reach-SlotInv :
      {lf : Flags} {s : System Collector}
      → initial_limit lf.concurrency ≤ max_concurrency
      → Reach dh lf s
      → SlotInv s
  Reach-SlotInv {lf} h started = start-SlotInv lf h
  Reach-SlotInv {s} h (next {s = r} a before e) =
      enabled_step-SlotInv r a (Reach-SlotInv h before) (step_inversion dh r a s e).1

  -- With a concurrency of at most 1000 at the start, at every moment at most as many jobs run as the
  -- concurrency limit allows, apart from slots that
  -- a decrease of the limit under way has yet to take; and never more than the channel holds.
  pub in_flight_bounded :
      {lf : Flags} {s : System Collector}
      → initial_limit lf.concurrency ≤ max_concurrency
      → Reach dh lf s
      → (length s.jobs ≤ s.runner.concurrency_limit + to_give s.poller)
        × (length s.jobs ≤ max_concurrency)
        × (1 ≤ s.runner.concurrency_limit)
        × (s.runner.concurrency_limit ≤ max_concurrency)
  in_flight_bounded h r = omega (arith, Reach-SlotInv h r)
