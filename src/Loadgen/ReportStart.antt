-- ===== src/Loadgen/ReportStart.antt =====
-- loadgen/run.go with the live ui or without: what still runs when the last loop of `Run` ends.
use plt.Base.{ℕ, ◌+◌, ◌≤◌, ◌≡◌, refl, some, arith, length}
use plt.Loadgen.Flags.{Flags}
use plt.Loadgen.Inversion.{step_inversion}
use plt.Loadgen.MainLoop.{advance_main}
use plt.Loadgen.Runner.{Dynhist, initial_limit, max_concurrency}
use plt.Loadgen.Slots.{SlotInv, Reach-SlotInv, to_give, to_take}
use plt.Loadgen.State.{Main, filling, sending, reporting, System, advance}
use plt.Loadgen.System.{enabled_step, step, Reach}

module _ (dh : Dynhist) where
  open dh use {Collector}

  begins :
      (m : Main) (k : ℕ) (s t : System Collector)
      → m ≡ filling k
      → s.main ≡ m
      → SlotInv s
      → advance_main m s ≡ some t
      → t.main ≡ reporting k
      → length t.jobs + to_take t.poller ≤ to_give t.poller
  unfolding advance_main
  begins (filling k) i s t e at v h r = ground arith
  begins (sending k) i s t e at v h r = ground arith
  begins _ i s t e at v h r = absurd (cc)

  -- With a concurrency of at most 1000 at the start: when the last loop of `Run` ends and the report
  -- begins, at most as many jobs still run as slots
  -- that a decrease of the limit under way has yet to take: none, unless a decrease is under way.
  pub report_begins :
      {lf : Flags} {s t : System Collector} (k : ℕ)
      → initial_limit lf.concurrency ≤ max_concurrency
      → Reach dh lf s
      → s.main ≡ filling k
      → step dh s advance ≡ some t
      → t.main ≡ reporting k
      → length t.jobs + to_take t.poller ≤ to_give t.poller
  unfolding enabled_step
  report_begins {lf} {s} {t} k fits r at h done =
      begins s.main k s t at refl (Reach-SlotInv dh fits r) (step_inversion dh s advance t h).1 done
