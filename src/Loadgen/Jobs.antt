-- ===== src/Loadgen/Jobs.antt =====
-- loadgen/run.go: a job's goroutine, and the live ui's round, which touch the collectors.
use plt.Base.{ℕ, suc, false, true, Option, none, some, ℤ, leb_ℤ, if◌then◌else◌, set, erase_at}
use plt.Loadgen.Runner.{Dynhist, Runner}
use plt.Loadgen.State.{
  closed, watching, counting, Stage, working, failed, releasing, Job, Outcome, ok, err, System,
  receive,
}

module _ (dh : Dynhist) where
  open dh use {Collector, add, reset}

  unfoldable pub record_success : ℤ → Runner Collector → Runner Collector
  record_success elapsed r = record r {
    slow = if leb_ℤ r.lf.slow_response elapsed then suc r.slow else r.slow;
    round_trip_hist = add r.round_trip_hist elapsed;
    round_trip_precise = add r.round_trip_precise elapsed;
    round_trip_rolling = add r.round_trip_rolling elapsed;
  }

  -- `jobProducer.Job` returns: the error is noted, or the time recorded.
  unfoldable pub finish_stage :
      Stage → Job → ℕ → Outcome → System Collector → Option (System Collector)
  unfolding record_success
  finish_stage working j k (ok elapsed) s = some (record s {
    runner = record_success elapsed s.runner;
    jobs = set s.jobs k (record j { stage = releasing });
  })
  finish_stage working j k (err e) s = some (record s {
    runner = record (s.runner) { last_err = some e };
    jobs = set s.jobs k (record j { stage = failed });
  })
  finish_stage _ j k o s = none

  unfoldable pub finish_job :
      Option Job → ℕ → Outcome → System Collector → Option (System Collector)
  unfolding finish_stage
  finish_job none k o s = none
  finish_job (some j) k o s = finish_stage j.stage j k o s

  -- The rest of a job: the error is counted, and the deferred receive frees the slot.
  unfoldable pub proceed_stage : Stage → Job → ℕ → System Collector → Option (System Collector)
  proceed_stage working j k s = none
  proceed_stage failed j k s = some (record s {
    runner = record (s.runner) { err_cnt = suc s.runner.err_cnt };
    jobs = set s.jobs k (record j { stage = releasing });
  })
  proceed_stage releasing j k s = receive s λ r. record s { runner = r; jobs = erase_at s.jobs k }

  unfoldable pub proceed_job : Option Job → ℕ → System Collector → Option (System Collector)
  unfolding proceed_stage
  proceed_job none k s = none
  proceed_job (some j) k s = proceed_stage j.stage j k s

  -- A round of `runLiveUI` begins at the ticker: it publishes the measured rate.
  unfoldable pub live_tick : ℤ → System Collector → Option (System Collector)
  live_tick rate s = elim s.ui [
    | watching ↦
        some
          (record s { runner = record (s.runner) { current_req_rate = rate }; ui = counting false })
    | _ ↦ none
  ]

  -- `case <-r.exit`: the live ui takes the signal, and begins its last round.
  unfoldable pub receive_in_ui : ℤ → System Collector → Option (System Collector)
  receive_in_ui rate s = elim s.ui [
    | watching ↦
        if s.runner.exit
        then some (record s {
          runner = record (s.runner) { exit = false; current_req_rate = rate };
          ui = counting true;
        })
        else none
    | _ ↦ none
  ]

  -- The rest of a round, from the return of `RequestCounts` on: it clears the rolling collector.
  unfoldable pub end_round_in_ui : System Collector → Option (System Collector)
  end_round_in_ui s = elim s.ui [
    | counting is_last ↦ some (record s {
      runner = record (s.runner) { round_trip_rolling = reset s.runner.round_trip_rolling };
      ui = if is_last then closed else watching;
    })
    | _ ↦ none
  ]
