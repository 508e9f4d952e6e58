-- ===== src/Loadgen/Inversion.antt =====
-- What an enabled step of a run was.
use plt.Base.{ℕ, ◌≡◌, false, some, inl, inr, arith, get_elem?, Option-cases}
use plt.Loadgen.Runner.{Dynhist}
use plt.Loadgen.State.{Job, Outcome, System, Action}
use plt.Loadgen.Jobs.{finish_stage, proceed_stage, finish_job, proceed_job}
use plt.Loadgen.System.{enabled_step, step}

module _ (dh : Dynhist) where
  open dh use {Collector}

  -- A job that returns is in the list, and is treated by its stage.
  pub finish_job_inversion :
      (s : System Collector) (k : ℕ) (o : Outcome) (t : System Collector)
      → finish_job dh (get_elem? s.jobs k) k o s ≡ some t
      → (j : Job) × (get_elem? s.jobs k ≡ some j) × (finish_stage dh j.stage j k o s ≡ some t)
  unfolding finish_job
  finish_job_inversion s k o t h = elim (Option-cases (get_elem? s.jobs k)) [
    | inl e ↦ absurd (ground arith)
    | inr (j, e) ↦ (j, e, ground arith)
  ]

  pub proceed_job_inversion :
      (s : System Collector) (k : ℕ) (t : System Collector)
      → proceed_job dh (get_elem? s.jobs k) k s ≡ some t
      → (j : Job) × (get_elem? s.jobs k ≡ some j) × (proceed_stage dh j.stage j k s ≡ some t)
  unfolding proceed_job
  proceed_job_inversion s k t h = elim (Option-cases (get_elem? s.jobs k)) [
    | inl e ↦ absurd (ground arith)
    | inr (j, e) ↦ (j, e, ground arith)
  ]

  pub step_inversion :
      (s : System Collector) (a : Action) (t : System Collector)
      → step dh s a ≡ some t
      → (s.killed ≡ false) × (enabled_step dh s a ≡ some t)
  unfolding step
  step_inversion s a t h = ground arith
