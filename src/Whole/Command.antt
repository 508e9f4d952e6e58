-- ===== src/Whole/Command.antt =====
-- curl/cmd.go, over net/http and over fasthttp: from the flags of the command to the report.
use mathlib.Core.Path.{fun_ext}
use plt.Base.{
  total, [], codes, true, ℕ, ◌+◌, ◌≤◌, ◌≡◌, refl, ap, ◌∙◌, false, none, some, List, arith, length,
  if◌then◌else◌, Text,
}
use plt.Curl.Launch.{launch, net_run, fast_run}
use plt.Base.Dict.{lookup}
use plt.Fasthttp.Job.{count_of}
use plt.Loadgen.Accounts.{Reach-Accounts}
use plt.Loadgen.Flags as LoadFlags
use plt.Loadgen.Flags.{prepare, prepare-live_ui, prepare-concurrency}
use plt.Loadgen.Number.{allowed, Reach-allowed}
use plt.Loadgen.Runner.{Dynhist, initial_limit, max_concurrency}
use plt.Loadgen.State.{reporting}
use plt.Nethttp.History.{answers, told}
use plt.Nethttp.Interface.{http_producer}
use plt.Nethttp.Mutex.{request_counts}
use plt.Nethttp.Setup.{init_producer, new_job_producer, make_transport}
use plt.Nethttp.State.{Flags}
use plt.Whole.{Whole, Arrives}
use plt.Fasthttp.History.{Histogram, seen, seen-count_of, tally_all, send_all_refines}
use plt.Fasthttp.Interface.{fast_producer}
use plt.Fasthttp.Summary as Fast
use plt.Fasthttp.Threads.{unlocked, snapshot}
use plt.Nethttp.Setup.{has_header, user_agent}
use plt.Whole.Fast.{told-snapshot, answered, fast_report}
use plt.Whole.Moves.{Arrives-Reach}
use plt.Whole.Owed.{Arrives-OwedAt}
use plt.Whole.Http.{http_report}
use plt.Whole.Interleaved.{requests}

module _ (dh : Dynhist) where
  open dh use {Collector, count}

  -- If the URL is parsed and its host resolved, and neither `fast` nor the live ui is asked for, the
  -- command starts a run over net/http with the prepared flags. When that run reports, with a
  -- concurrency of at most 1000, it has launched a request at least and at most as many as the
  -- flags allow (1000 with neither a number nor a duration, else the number, and 2147483647 where
  -- that is not positive); its successes are the producer's total, and with its errors they are the
  -- requests; and the producer tells the answers of each status among them, unless a job has kept
  -- the mutex.
  pub command_report :
      (addresses : List Text) (lf : LoadFlags.Flags) (f : Flags) (code : ℕ)
      {s : Whole dh (http_producer dh)}
      → f.fast ≡ false
      → lf.live_ui ≡ false
      → initial_limit lf.concurrency ≤ max_concurrency
      → Arrives dh (http_producer dh) (prepare lf) (init_producer dh f addresses) s
      → (filled : ℕ) → s.load.main ≡ reporting filled
      → (launch dh none none addresses lf f
          ≡ net_run
              (prepare lf)
              (init_producer dh f addresses)
              (make_transport f (prepare lf).concurrency none))
        × (1 ≤ length s.calls)
        × (length s.calls ≤ allowed lf)
        × (s.producer.total ≡ count s.load.runner.round_trip_hist)
        × (count s.load.runner.round_trip_hist + s.load.runner.err_cnt ≡ length s.calls)
        × (told code (request_counts s.producer)
            ≡ (if s.producer.locked then none else some (answers code (requests s.calls))))
  unfolding launch new_job_producer init_producer
  command_report addresses lf f code {s} slow off fits r filled at =
      let report =
        http_report dh code {lf = prepare lf} {s = s} (prepare-live_ui lf ∙ off)
          (omega (arith, fits, ap initial_limit (prepare-concurrency lf))) refl refl refl r filled
          at in
      let reach = Arrives-Reach dh (http_producer dh) r in
      let accounts = Reach-Accounts dh reach in
      let number = Reach-allowed dh lf (prepare-live_ui lf ∙ off) reach in
      let many = (Arrives-OwedAt dh (http_producer dh) 0 r).many in
      (
        ground arith,
        ground (arith, accounts.placed, many),
        ground (arith, accounts.placed, many, number),
        omega (arith, report.1),
        report.2,
        report.3,
      )

  nothing_seen : (addresses : List Text) → seen (Fast.init_producer addresses) ≡ (λ _. 0)
  unfolding Fast.init_producer count_of lookup
  nothing_seen addresses =
      fun_ext (λ code. seen-count_of (Fast.init_producer addresses) code ∙ refl)

  -- If the URL is parsed and its host resolved, `fast` is asked for and the live ui is not, the
  -- command starts a run over fasthttp with the prepared flags. When that run reports, with a
  -- concurrency of at most 1000, it has launched a request at least and at most as many as the
  -- flags allow (1000 with neither a number nor a duration, else the number, and 2147483647 where
  -- that is not positive); its successes are the requests that were answered, and with its errors
  -- they are the requests; and `RequestCounts` does not wait, and tells the answers of each status
  -- among them.
  pub fast_command_report :
      (addresses : List Text) (lf : LoadFlags.Flags) (f : Flags) {s : Whole dh fast_producer}
      → f.fast ≡ true
      → lf.live_ui ≡ false
      → initial_limit lf.concurrency ≤ max_concurrency
      → Arrives dh fast_producer (prepare lf) (unlocked (Fast.init_producer addresses)) s
      → (filled : ℕ) → s.load.main ≡ reporting filled
      → (launch dh none none addresses lf f
          ≡ fast_run
              (prepare lf)
              (Fast.init_producer addresses)
              10000
              (if has_header user_agent f.header_map then [] else codes "plt"))
        × (1 ≤ length s.calls)
        × (length s.calls ≤ allowed lf)
        × (count s.load.runner.round_trip_hist ≡ total answered (requests s.calls))
        × (count s.load.runner.round_trip_hist + s.load.runner.err_cnt ≡ length s.calls)
        × ((code : ℕ)
            → told code (snapshot s.producer) ≡ some (tally_all (requests s.calls) (λ _. 0) code))
  unfolding launch Fast.new_job_producer
  fast_command_report addresses lf f {s} fast off fits r filled at =
      let p = Fast.init_producer addresses in
      let report =
        fast_report dh {lf = prepare lf} {s = s} (prepare-live_ui lf ∙ off)
          (omega (arith, fits, ap initial_limit (prepare-concurrency lf))) r filled at in
      let reach = Arrives-Reach dh fast_producer r in
      let accounts = Reach-Accounts dh reach in
      let number = Reach-allowed dh lf (prepare-live_ui lf ∙ off) reach in
      let many = (Arrives-OwedAt dh fast_producer 0 r).many in
      (
        ground arith,
        ground (arith, accounts.placed, many),
        ground (arith, accounts.placed, many, number),
        report.2,
        report.3,
        λ code.
            told-snapshot code s.producer report.0
            ∙ ap (λ (h : Histogram). some (h code))
                (report.1
                  ∙ send_all_refines (requests s.calls) p
                  ∙ ap (tally_all (requests s.calls)) (nothing_seen addresses)),
      )
