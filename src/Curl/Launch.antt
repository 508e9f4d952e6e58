-- ===== src/Curl/Launch.antt =====
-- curl/cmd.go: `run`, from the flags to the job producer that `loadgen.Run` is given, and what the
-- producer has counted after any requests of that run.
use plt.Base.{ℕ, ◌≡◌, false, Option, none, List, arith, if◌then◌else◌, Text}
use plt.Loadgen.Flags as LoadFlags
use plt.Loadgen.Flags.{prepare}
use plt.Loadgen.Runner.{Dynhist, Err}
use plt.Nethttp.State.{Flags, Producer, Exchange}
use plt.Nethttp.Setup as Net
use plt.Nethttp.History.{answers, run_jobs, run_jobs_counters}
use plt.Fasthttp.Job as FastJob
use plt.Fasthttp.Summary as Fast

-- A producer's failure to start ends the run; else the producer goes to the load generator with the
-- prepared flags.
pub data Launch (C : Type 0) : Type 0 where
  bad_url unresolved : Err → Launch C
  fast_run :
      LoadFlags.Flags → FastJob.Producer → (max_conns_per_host : ℕ) → (name : Text) → Launch C
  net_run : LoadFlags.Flags → Producer C → Net.Transport → Launch C

module _ {C : Type 0} where
  with_fast : LoadFlags.Flags → Fast.Started → Launch C
  with_fast l (Fast.bad_url e) = bad_url e
  with_fast l (Fast.unresolved e) = unresolved e
  with_fast l (Fast.ready p conns name) = fast_run l p conns name

  with_net : LoadFlags.Flags → Net.Started C → Launch C
  with_net l (Net.bad_url e) = bad_url e
  with_net l (Net.unresolved e) = unresolved e
  with_net l (Net.ready p transport) = net_run l p transport

module _ (dh : Dynhist) where
  open dh use {Collector}

  -- The outcomes of `url.Parse` and `net.LookupHost` are arguments.
  unfoldable pub launch :
      Option Err → Option Err → List Text → LoadFlags.Flags → Flags → Launch Collector
  unfolding with_fast with_net
  launch parsed resolved addresses lf f =
      let l = prepare lf in
      if f.fast
      then with_fast l (Fast.new_job_producer parsed resolved addresses f)
      else with_net l (Net.new_job_producer dh parsed resolved addresses f l.concurrency)

  -- If the URL is parsed and its host resolved, and `fast` is not asked for, a run over net/http
  -- starts with the prepared flags; after any requests of it the count of each status is the number
  -- of its answers, and the total is the number of requests that returned a time.
  pub launch_counters :
      (addresses : List Text) (lf : LoadFlags.Flags) (f : Flags)
      → f.fast ≡ false
      → (xs : List Exchange) (code : ℕ)
      → let p = Net.init_producer dh f addresses in
        (launch none none addresses lf f
          ≡ net_run (prepare lf) p (Net.make_transport f (prepare lf).concurrency none))
        × ((run_jobs dh xs p).0.resp_code code ≡ answers code xs)
        × ((run_jobs dh xs p).0.total ≡ (run_jobs dh xs p).1)
  unfolding launch Net.new_job_producer Net.init_producer
  launch_counters addresses lf f slow xs code =
      let counts = run_jobs_counters dh xs (Net.init_producer dh f addresses) code in
      (ground arith, omega (arith, counts.0), omega (arith, counts.1))
