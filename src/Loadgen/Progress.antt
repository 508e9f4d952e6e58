-- ===== src/Loadgen/Progress.antt =====
-- loadgen/run.go without the live ui: there is always a next step, so that a run ends in its report.
use plt.Base.{
  ◌∙◌, ◌⊎◌, Option-cases, inl, inr, ℕ, zero, suc, ◌+◌, ◌≤◌, ◌<◌, ◌≡◌, refl, ℤ, ◌≢◌, Bool, false,
  true, Option, none, some, List, [], ◌∷◌, arith,
}
use plt.Loadgen.Flags.{Flags}
use plt.Loadgen.Runner.{Err, Dynhist, max_concurrency, initial_limit}
use plt.Loadgen.State.{
  Main, head, waiting, acquiring, launching, checking, filling, sending, reporting, Stage, working,
  failed, releasing, Job, Outcome, ok, err, System, Action, advance, waited, checked, finish,
  proceed,
}
use plt.Loadgen.MainLoop.{advance_main, after_wait, after_check}
use plt.Loadgen.Jobs.{finish_job, proceed_job}
use plt.Loadgen.System.{enabled_step, step, start, Reach, started, next, run}
use plt.Loadgen.Accounts.{Reach-Accounts}
use plt.Loadgen.Offline.{Offline, Reach-Offline, report_waits_for_jobs}
use plt.Loadgen.Termination.{measure, is_internal, Falls, Reach-Falls, internal_keeps_killed}

-- A scheduler: the newest job goes first, and then the main goroutine. Outcomes, the limiter's
-- answer and the clock are given.
abbrev pub move_job : (Job → Outcome) → Stage → Job → Action
move_job outcome working j = finish 0 (outcome j)
move_job outcome _ j = proceed 0

abbrev pub move_main : Option Err → ℤ → Main → Action
move_main w since (waiting i) = waited w
move_main w since (checking i) = checked since
move_main w since _ = advance

abbrev pub next_move : (Job → Outcome) → Option Err → ℤ → List Job → Main → Action
next_move outcome w since [] m = move_main w since m
next_move outcome w since (j ∷ rest) m = move_job outcome j.stage j

abbrev pub IsReporting : Main → Type 0
IsReporting (reporting k) = Unit {0}
IsReporting _ = ⊥

Outcome-cases : (o : Outcome) → ((x : ℤ) × (o ≡ ok x)) ⊎ ((x : Err) × (o ≡ err x))
Outcome-cases (ok x) = inl (x, refl)
Outcome-cases (err x) = inr (x, refl)

module _ (dh : Dynhist) (outcome : Job → Outcome) (w : Option Err) (since : ℤ) where
  open dh use {Collector}

  pub main_can_move :
      (m : Main) (limit : ℕ) (s : System Collector)
      → 1 ≤ limit
      → limit ≤ max_concurrency
      → Offline limit s
      → s.main ≡ m
      → s.jobs ≡ []
      → ¬ IsReporting m
      → enabled_step dh s (move_main w since m) ≢ none
  unfolding enabled_step advance_main after_wait after_check
  main_can_move (head i) limit s l u v e j nr = ground arith
  main_can_move (waiting i) limit s l u v e j nr = ground arith
  main_can_move (checking i) limit s l u v e j nr = ground arith
  main_can_move (acquiring i) limit s l u v e j nr = ground arith
  main_can_move (launching i) limit s l u v e j nr = ground arith
  main_can_move (filling k) limit s l u v e j nr = ground arith
  main_can_move (sending k) limit s l u v e j nr = ground arith
  main_can_move (reporting k) limit s l u v e j nr = absurd (nr tt)

  pub job_can_move :
      (j : Job) (rest : List Job) (st : Stage) (limit : ℕ) (s : System Collector)
      → Offline limit s
      → j.stage ≡ st
      → s.jobs ≡ j ∷ rest
      → enabled_step dh s (move_job outcome st j) ≢ none
  unfolding enabled_step finish_job proceed_job
  job_can_move j rest working limit s v e h = elim (Outcome-cases (outcome j)) [
    | inl (x, eq) ↦ ground arith
    | inr (x, eq) ↦ ground arith
  ]
  job_can_move j rest failed limit s v e h = ground arith
  job_can_move j rest releasing limit s v e h = ground arith

  -- Whatever the job's outcome, the limiter's answer and the clock are, a state that is not at its
  -- report has a next step.
  pub can_move :
      (js : List Job) (limit : ℕ) (s : System Collector)
      → 1 ≤ limit
      → limit ≤ max_concurrency
      → Offline limit s
      → s.jobs ≡ js
      → ¬ IsReporting s.main
      → enabled_step dh s (next_move outcome w since js s.main) ≢ none
  can_move [] limit s l u v e nr = main_can_move s.main limit s l u v refl e nr
  can_move (j ∷ rest) limit s l u v e nr = job_can_move j rest j.stage limit s v refl e

  pub next_move-internal :
      (js : List Job) (m : Main) → is_internal (next_move outcome w since js m) ≡ true
  next_move-internal [] m = ground arith
  next_move-internal (j ∷ rest) m = ground arith

abbrev pub reporting_cases : (m : Main) → IsReporting m ⊎ (¬ IsReporting m)
reporting_cases (reporting k) = inl tt
reporting_cases (head i) = inr (λ h. h)
reporting_cases (waiting i) = inr (λ h. h)
reporting_cases (acquiring i) = inr (λ h. h)
reporting_cases (launching i) = inr (λ h. h)
reporting_cases (checking i) = inr (λ h. h)
reporting_cases (filling i) = inr (λ h. h)
reporting_cases (sending i) = inr (λ h. h)

pub Falls-internal :
    {C : Type 0} (b : Bool) (s u : System C) → b ≡ true → Falls b s u → measure u < measure s
Falls-internal true s u e f = f
Falls-internal false s u e f = cc

pub reporting_at : (m : Main) → IsReporting m → (filled : ℕ) × (m ≡ reporting filled)
reporting_at (reporting k) h = (k, refl)
reporting_at (head i) h = absurd h
reporting_at (waiting i) h = absurd h
reporting_at (acquiring i) h = absurd h
reporting_at (launching i) h = absurd h
reporting_at (checking i) h = absurd h
reporting_at (filling i) h = absurd h
reporting_at (sending i) h = absurd h

module _ (dh : Dynhist) (outcome : Job → Outcome) (w : Option Err) (since : ℤ) (lf : Flags)
    (off : lf.live_ui ≡ false) (fits : initial_limit lf.concurrency ≤ max_concurrency) where
  open dh use {Collector}

  pub limit_pos : 1 ≤ initial_limit lf.concurrency
  unfolding initial_limit
  limit_pos = ground arith

  step_live :
      (s : System Collector) (a : Action) {u : System Collector}
      → s.killed ≡ false
      → enabled_step dh s a ≡ some u
      → step dh s a ≡ some u
  unfolding step
  step_live s a live e = ground arith

  completes_from :
      (fuel : ℕ) (s : System Collector)
      → measure s < fuel
      → Reach dh lf s
      → s.killed ≡ false
      → (moves : List Action) × (t : System Collector) × (run dh moves s ≡ some t)
        × Reach dh lf t
        × IsReporting t.main
  unfolding run
  completes_from zero s m r live = absurd (omega arith)
  completes_from (suc fuel) s m r live = elim (reporting_cases s.main) [
    | inl done ↦ ([], s, refl, r, done)
    | inr busy ↦
        let a = next_move outcome w since s.jobs s.main in
        elim (Option-cases (enabled_step dh s a)) [
          | inl e ↦ absurd (
              can_move dh outcome w since s.jobs _ s limit_pos fits (Reach-Offline dh off r) refl
                busy e)
          | inr (u, e) ↦
              let st : step dh s a ≡ some u = step_live s a live e in
              let i = next_move-internal dh outcome w since s.jobs s.main in
              let lower = Falls-internal (is_internal a) s u i (Reach-Falls dh lf off a r st) in
              let (moves, t, q, r', done) =
                completes_from fuel u (omega arith) (next a r st)
                  (internal_keeps_killed dh s a i e ∙ live) in
              (a ∷ moves, t, rw (st, run) q, r', done)
        ]
  ]

  -- Without the live ui and with a concurrency of at most 1000, whatever the jobs' outcomes, the
  -- limiter's answers and the clock are, a run can be carried on to its report; there no job is
  -- left, and every launched job, of which there was at least one and at most `n`,
  -- is counted once, as a success or as an error.
  pub run_completes :
      (moves : List Action) × (t : System Collector) × (run dh moves (start dh lf) ≡ some t)
      × ((filled : ℕ) × (t.main ≡ reporting filled))
      × (t.jobs ≡ [])
      × (dh.count t.runner.round_trip_hist + t.runner.err_cnt ≡ t.launched)
      × (1 ≤ t.launched)
      × (t.launched ≤ t.runner.n)
  unfolding start
  run_completes =
      let (moves, t, q, r, done) =
        completes_from (suc (measure (start dh lf))) (start dh lf) (omega arith) started refl in
      let (filled, e) = reporting_at t.main done in
      let none_left = report_waits_for_jobs dh off fits r filled e in
      let v = Reach-Accounts dh r in
      (moves, t, q, (filled, e), none_left, ground arith, ground arith, ground arith)
