-- ===== src/Loadgen/MainLoop.antt =====
-- loadgen/run.go: the goroutine of `Run`, up to its report.
use plt.Base.{ℕ, suc, ◌||◌, Option, none, some, ◌∷◌, ℤ, ltb, ltb_ℤ, if◌then◌else◌}
use plt.Loadgen.Runner.{Runner, Err}
use plt.Loadgen.State.{
  Main, head, waiting, acquiring, launching, checking, filling, sending, reporting, working, System,
  send,
}

abbrev head_target : Option ℤ → ℕ → Main
head_target none i = acquiring i
head_target (some _) i = waiting i

module _ {C : Type 0} where
  -- The main goroutine where it needs no input.
  unfoldable pub advance_main : Main → System C → Option (System C)
  advance_main (head i) s =
      some (record s { main = if ltb i s.runner.n then head_target s.runner.rl i else filling 0 })
  advance_main (acquiring i) s = send s λ r. record s { runner = r; main = launching i }
  advance_main (launching i) s = some (record s {
    main = checking i;
    jobs = record { index = i; stage = working } ∷ s.jobs;
    launched = suc s.launched;
  })
  advance_main (filling k) s =
      some (record s { main = if ltb k s.runner.concurrency_limit then sending k else reporting k })
  advance_main (sending k) s = send s λ r. record s { runner = r; main = filling (suc k) }
  advance_main _ s = none

  abbrev note_err : Option Err → Runner C → Runner C
  note_err none r = r
  note_err (some e) r = record r { last_err = some e }

  unfoldable pub after_wait : Main → Option Err → System C → Option (System C)
  after_wait (waiting i) e s = some (record s { runner = note_err e s.runner; main = acquiring i })
  after_wait _ e s = none

  unfoldable pub after_check : Main → ℤ → System C → Option (System C)
  after_check (checking i) since s = some (record s {
    main = if ltb_ℤ s.runner.dur since || s.runner.done then filling 0 else head (suc i);
  })
  after_check _ since s = none
