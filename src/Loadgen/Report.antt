-- ===== src/Loadgen/Report.antt =====
-- loadgen/run.go: `report`, with its lines as data, and what it returns after a run.
use plt.Base.{
  ℕ, zero, suc, ◌≤◌, ◌<◌, ◌≡◌, refl, ◌⊎◌, inl, inr, Bool-cases, false, true, Option, none, some,
  List, [], ◌∷◌, ◌++◌, ℤ, arith, ◌==◌, if◌then◌else◌,
}
use mathlib.Core.Bool.{false≢true}
use plt.Loadgen.Flags.{Flags}
use plt.Loadgen.Runner.{Dynhist, Runner, Err, max_concurrency, initial_limit}
use plt.Loadgen.State.{reporting, System}
use plt.Loadgen.System.{Reach}
use plt.Loadgen.Accounts.{is_some, Reach-Accounts}
use plt.Loadgen.Offline.{report_waits_for_jobs}

-- A printed line, with the values that it shows; a collector's rendering is the library's.
pub data Line (C : Type 0) : Type 0 where
  screen blank time_spent percentiles_title distribution_title : Line C
  requests_per_second successful_requests : ℕ → Line C
  failed_requests : ℕ → Err → Line C
  percentile : ℕ → C → Line C
  distribution : C → Line C
  slower_than : ℤ → ℕ → Line C
  producer_text : List ℕ → Line C

-- `report` calls a method of a nil error (`panicked`), or prints and returns; its one error wraps
-- the last error.
pub data Reported (C : Type 0) : Type 0 where
  panicked : Reported C
  returned : List (Line C) → Option (Option Err) → Reported C

module _ (dh : Dynhist) where
  open dh use {Collector, count}

  abbrev pub failure_lines : ℕ → Option Err → Option (List (Line Collector))
  failure_lines zero e = some []
  failure_lines (suc n) none = none
  failure_lines (suc n) (some e) = some (failed_requests (suc n) e ∷ [])

  abbrev producer_lines : Option (List ℕ) → List (Line Collector)
  producer_lines none = []
  producer_lines (some text) = producer_text text ∷ []

  unfoldable pub statistics : Runner Collector → Option (List ℕ) → List (Line Collector)
  statistics r text =
      blank
      ∷ percentiles_title
      ∷ percentile 99 r.round_trip_precise
      ∷ percentile 95 r.round_trip_precise
      ∷ percentile 90 r.round_trip_precise
      ∷ percentile 50 r.round_trip_precise
      ∷ distribution_title
      ∷ distribution r.round_trip_hist
      ∷ slower_than r.lf.slow_response r.slow
      ∷ producer_lines text

  unfoldable pub summary : Runner Collector → List (Line Collector)
  summary r =
      (if r.lf.live_ui then screen ∷ [] else [])
      ++ (blank
          ∷ requests_per_second (count r.round_trip_hist)
          ∷ successful_requests (count r.round_trip_hist)
          ∷ [])

  -- `text` is what the job producer's `String` gives, if it has one.
  unfoldable pub report : Runner Collector → Option (List ℕ) → Reported Collector
  report r text = elim (failure_lines r.err_cnt r.last_err) [
    | none ↦ panicked
    | some failures ↦
        let lines = summary r ++ failures ++ (time_spent ∷ []) in
        if count r.round_trip_hist == 0
        then returned lines (some r.last_err)
        else returned (lines ++ statistics r text) none
  ]

  failures_printed :
      (n : ℕ) (e : Option Err)
      → (0 < n → is_some e ≡ true)
      → (fs : List (Line Collector)) × (failure_lines n e ≡ some fs)
  failures_printed zero e known = ([], refl)
  failures_printed (suc n) none known = absurd (false≢true (known (omega arith)))
  failures_printed (suc n) (some e) known = (failed_requests (suc n) e ∷ [], refl)

  some_error : (e : Option Err) → is_some e ≡ true → (x : Err) × (e ≡ some x)
  some_error none h = absurd (false≢true h)
  some_error (some x) h = (x, refl)

  -- After a run without the live ui, `report` does not touch a nil error. The failures that it
  -- prints are counted with their last error, if there are any. It returns no error if some request
  -- succeeded; if none did, it returns the last error, which is there, and every launched request
  -- was counted as failed.
  pub report_outcome :
      {lf : Flags} {s : System Collector} (filled : ℕ) (text : Option (List ℕ))
      → lf.live_ui ≡ false
      → initial_limit lf.concurrency ≤ max_concurrency
      → Reach dh lf s
      → s.main ≡ reporting filled
      → (failures : List (Line Collector)) × (failure_lines s.runner.err_cnt s.runner.last_err
          ≡ some failures)
        × (((0 < count s.runner.round_trip_hist)
              × (report s.runner text
                  ≡ returned
                      (summary s.runner
                        ++ failures
                        ++ (time_spent ∷ [])
                        ++ statistics s.runner text)
                      none))
            ⊎ ((e : Err) × (count s.runner.round_trip_hist ≡ 0)
                × (report s.runner text
                    ≡ returned (summary s.runner ++ failures ++ (time_spent ∷ [])) (some (some e)))
                × (s.runner.last_err ≡ some e)
                × (s.runner.err_cnt ≡ s.launched)
                × (0 < s.launched)))
  unfolding report
  report_outcome {s} filled text off fits r e =
      let none_left = report_waits_for_jobs dh off fits r filled e in
      let v = Reach-Accounts dh r in
      let (fs, printed) =
        failures_printed s.runner.err_cnt s.runner.last_err (λ h. v.known (omega arith)) in
      elim (Bool-cases (count s.runner.round_trip_hist == 0)) [
        | inr more ↦ (fs, printed, inl (ground arith, rw (printed, more, report) refl))
        | inl zero_count ↦
            let (x, last) = some_error s.runner.last_err (v.known (ground arith)) in
            (
              fs,
              printed,
              inr (
                x,
                ground arith,
                rw (printed, zero_count, report) (rw last refl),
                last,
                ground arith,
                ground arith,
              ),
            )
      ]
