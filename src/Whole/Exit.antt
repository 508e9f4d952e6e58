-- ===== src/Whole/Exit.antt =====
-- What `Run` returns after a run of a job producer, and what it has printed.
use plt.Base.{
  refl, zero, suc, ℕ, ◌≤◌, ◌<◌, ◌≡◌, ap, sym, ◌∙◌, ◌⊎◌, inl, inr, false, Option, none, some, List,
  [], ◌∷◌, ◌++◌, arith, length,
}
use plt.Loadgen.Flags.{Flags}
use plt.Loadgen.JobProducer.{JobProducer}
use plt.Loadgen.Report.{
  failed_requests, report, report_outcome, summary, statistics, failure_lines, returned, time_spent,
  Line,
}
use plt.Loadgen.Runner.{Dynhist, Err, initial_limit, max_concurrency}
use plt.Loadgen.State.{reporting}
use plt.Whole.{Whole, Arrives}
use plt.Whole.Interleaved.{threads}
use plt.Whole.Moves.{Arrives-Reach}
use plt.Whole.Owed.{Arrives-OwedAt}
use plt.Whole.Report.{successes, failures, whole_report}

-- The lines for the failures: none without a failure, else one with their number and an error.
abbrev pub TellsFailures : {C : Type 0} → ℕ → Option Err → List (Line C) → Type 0
TellsFailures n last printed =
    ((n ≡ 0) × (printed ≡ []))
    ⊎ ((e : Err) × (0 < n) × (last ≡ some e) × (printed ≡ failed_requests n e ∷ []))

failure_lines-TellsFailures :
    (dh : Dynhist) (n : ℕ) (last : Option Err) (printed : List (Line dh.Collector))
    → failure_lines dh n last ≡ some printed
    → TellsFailures n last printed
failure_lines-TellsFailures dh zero last printed h = inl (refl, ground arith)
failure_lines-TellsFailures dh (suc n) none printed h = absurd (ground arith)
failure_lines-TellsFailures dh (suc n) (some e) printed h = inr (e, omega arith, refl, ground arith)

module _ (dh : Dynhist) (jp : JobProducer) where
  -- A run without the live ui, with a concurrency of at most 1000, of any job producer, at its
  -- report: if a call of `Job` has returned a time, `report` prints its statistics and returns no
  -- error; else every call has returned an error, there is at least one, and `report` returns the
  -- last error that the load generator has kept. Between the summary and the time spent stands one
  -- line with the number of the calls that returned an error and the last error, if there are any,
  -- and else none.
  pub whole_exit :
      {lf : Flags} {p : jp.State} {s : Whole dh jp} (text : Option (List ℕ))
      → lf.live_ui ≡ false
      → initial_limit lf.concurrency ≤ max_concurrency
      → Arrives dh jp lf p s
      → (filled : ℕ) → s.load.main ≡ reporting filled
      → (printed : List (Line dh.Collector)) × TellsFailures
          (failures jp (threads s.calls))
          s.load.runner.last_err
          printed
        × (((0 < successes jp (threads s.calls))
              × (report dh s.load.runner text
                  ≡ returned
                      (summary dh s.load.runner
                        ++ printed
                        ++ (time_spent ∷ [])
                        ++ statistics dh s.load.runner text)
                      none))
            ⊎ ((e : Err) × (successes jp (threads s.calls) ≡ 0)
                × (failures jp (threads s.calls) ≡ length s.calls)
                × (0 < length s.calls)
                × (s.load.runner.last_err ≡ some e)
                × (report dh s.load.runner text
                    ≡ returned
                        (summary dh s.load.runner ++ printed ++ (time_spent ∷ []))
                        (some (some e)))))
  whole_exit {s = s} text off fits r filled at =
      let (back, oks, errs, both, now) = whole_report dh jp off fits r filled at in
      let many = (Arrives-OwedAt dh jp 0 r).many in
      let (printed, e, cases) = report_outcome dh filled text off fits (Arrives-Reach dh jp r) at in
      (
        printed,
        failure_lines-TellsFailures dh (failures jp (threads s.calls)) s.load.runner.last_err
            printed (ap (λ n. failure_lines dh n s.load.runner.last_err) (sym errs) ∙ e),
        elim cases [
          | inl (some_worked, said) ↦ inl (omega (arith, some_worked, oks), said)
          | inr (x, none_worked, said, last, all_failed, some_launched) ↦ inr (
            x,
            omega (arith, none_worked, oks),
            omega (arith, errs, all_failed, many),
            omega (arith, some_launched, many),
            last,
            said,
          )
        ],
      )
