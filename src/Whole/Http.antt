-- ===== src/Whole/Http.antt =====
-- A run over nethttp: the load generator's counts are the producer's.
use plt.Base.{
  ℕ, ◌+◌, ◌≤◌, ◌≡◌, refl, ap, sym, ◌∙◌, Bool, true, false, none, some, List, [], ◌∷◌, arith, length,
  total, if◌then◌else◌, Bool-cases, inl, inr, all_of,
}
use plt.Base.Threads.{run_threads}
use plt.Loadgen.Flags.{Flags}
use plt.Loadgen.Runner.{Dynhist, initial_limit, max_concurrency}
use plt.Loadgen.State.{reporting}
use plt.Nethttp.Concurrent.{all_returned, launched-Agrees, interleave-told}
use plt.Nethttp.History.{answers, told}
use plt.Nethttp.Interface.{http_producer, begin_from-launched, outcomes-returned}
use plt.Nethttp.Returns.{http_returns, is_fine, run-unlocked}
use plt.Nethttp.Interleavings.{returned, AllAgree, interleave-AllAgree}
use plt.Nethttp.Mutex.{request_counts}
use plt.Nethttp.State.{Producer, Exchange, took, failed, panicked, blocked}
use plt.Nethttp.Threads.{
  Thread, begun, arrived, locking, sampling, copying, kept, over, advance_thread, launched,
}
use plt.Whole.{Whole, Move, start_whole, Arrives}
use plt.Whole.Interleaved.{threads, requests, Arrives-Interleaved}
use plt.Whole.Moves.{run_moves}
use plt.Whole.Report.{successes, whole_report}
use plt.Whole.Runs.{upto, all_of-upto, whole_completes}

successes-returned :
    (dh : Dynhist) (ts : List Thread) → successes (http_producer dh) ts ≡ total returned ts
successes-returned dh [] = refl
successes-returned dh ((x, begun) ∷ ts) = omega (arith, successes-returned dh ts)
successes-returned dh ((x, arrived c) ∷ ts) = omega (arith, successes-returned dh ts)
successes-returned dh ((x, locking c) ∷ ts) = omega (arith, successes-returned dh ts)
successes-returned dh ((x, sampling c) ∷ ts) = omega (arith, successes-returned dh ts)
successes-returned dh ((x, copying c) ∷ ts) = omega (arith, successes-returned dh ts)
successes-returned dh ((x, kept e) ∷ ts) = omega (arith, successes-returned dh ts)
successes-returned dh ((x, over (took d)) ∷ ts) = omega (arith, successes-returned dh ts)
successes-returned dh ((x, over (failed e)) ∷ ts) = omega (arith, successes-returned dh ts)
successes-returned dh ((x, over panicked) ∷ ts) = omega (arith, successes-returned dh ts)
successes-returned dh ((x, over blocked) ∷ ts) = omega (arith, successes-returned dh ts)

told_unless_locked :
    {C : Type 0} (code n : ℕ) (p : Producer C)
    → (p.locked ≡ false → told code (request_counts p) ≡ some n)
    → told code (request_counts p) ≡ (if p.locked then none else some n)
unfolding request_counts
told_unless_locked code n p h = elim (Bool-cases p.locked) [
  | inl e ↦ rw e refl
  | inr e ↦ h e ∙ sym (ap (λ (b : Bool). if b then none else some n) e)
]

module _ (dh : Dynhist) where
  open dh use {Collector, count}

  -- A run over nethttp, without the live ui, with a concurrency of at most 1000, on a producer with
  -- a free mutex, no count and no sample. In every order of the operations of the main goroutine and of the jobs,
  -- when the report begins every launched request has returned; the successes that the load generator
  -- has recorded are those that the producer has added to its total, and with the errors they are
  -- all the requests; and the counts that the producer tells are the answers of each status among
  -- the requests, unless a job has kept the mutex, where it tells nothing.
  pub http_report :
      (code : ℕ) {lf : Flags} {p : Producer Collector} {s : Whole dh (http_producer dh)}
      → lf.live_ui ≡ false
      → initial_limit lf.concurrency ≤ max_concurrency
      → p.locked ≡ false
      → p.resp_body ≡ []
      → p.resp_code code ≡ 0
      → Arrives dh (http_producer dh) lf p s
      → (filled : ℕ) → s.load.main ≡ reporting filled
      → (all_returned (threads s.calls) ≡ true)
        × (s.producer.total ≡ count s.load.runner.round_trip_hist + p.total)
        × (count s.load.runner.round_trip_hist + s.load.runner.err_cnt ≡ length s.calls)
        × (told code (request_counts s.producer)
            ≡ (if s.producer.locked then none else some (answers code (requests s.calls))))
  http_report code {lf} {p} {s} off fits free empty zero_count r filled at =
      let (ended, oks, errs, both, now) = whole_report dh (http_producer dh) off fits r filled at in
      let xs = requests s.calls in
      let us = threads s.calls in
      let back = outcomes-returned dh us ended in
      let run : run_threads (advance_thread dh) now.schedule p (launched xs)
          ≡ some (s.producer, us) =
        ap (λ ts. run_threads (advance_thread dh) now.schedule p ts)
          (sym (begin_from-launched dh 0 xs))
        ∙ now.runs in
      let agrees : AllAgree dh code p.total s.producer us =
        interleave-AllAgree dh now.schedule code p.total p (launched xs) s.producer us
          (launched-Agrees p code xs free empty zero_count) run in
      (
        back,
        omega (arith, agrees.totals, oks, successes-returned dh us),
        both,
        told_unless_locked code (answers code xs) s.producer (λ unlocked.
            (interleave-told dh now.schedule xs p code {us = us} free empty zero_count run back
              unlocked).0),
      )

  -- A producer over nethttp with a free mutex, no count and no sample, and any sequence of requests, none of which
  -- breaks off within its first thousand bytes or answers a status of 600 or more: a run without the
  -- live ui and with a concurrency of at most 1000 can be carried on to its report, operation by
  -- operation of the main goroutine, of the jobs and of their calls. It has then made the first
  -- requests of the sequence, as many as it has recorded successes and errors, and `RequestCounts`
  -- tells the answers of each status among them.
  pub http_completes :
      (lf : Flags) (p : Producer Collector)
      → lf.live_ui ≡ false
      → initial_limit lf.concurrency ≤ max_concurrency
      → p.locked ≡ false
      → p.resp_body ≡ []
      → ((code : ℕ) → p.resp_code code ≡ 0)
      → (request : ℕ → Exchange) → ((i : ℕ) → is_fine (request i) ≡ true)
      → (moves : List (Move (http_producer dh))) × (t : Whole dh (http_producer dh)) × (run_moves dh
            (http_producer dh)
            moves
            (start_whole dh (http_producer dh) lf p)
          ≡ some t)
        × ((filled : ℕ) × (t.load.main ≡ reporting filled))
        × (requests t.calls ≡ upto request (length t.calls))
        × (count t.load.runner.round_trip_hist + t.load.runner.err_cnt ≡ length t.calls)
        × ((code : ℕ)
            → told code (request_counts t.producer) ≡ some (answers code (requests t.calls)))
  http_completes lf p off fits free empty zero_counts request fine =
      let rt = http_returns dh p free empty zero_counts in
      let (moves, t, q, r, (filled, at), given) =
        whole_completes dh (http_producer dh) lf p rt off fits request fine in
      let report =
        λ (code : ℕ). http_report code off fits free empty (zero_counts code) r filled at in
      let now = Arrives-Interleaved dh (http_producer dh) r in
      let unlocked : t.producer.locked ≡ false =
        run-unlocked dh p free empty zero_counts now.schedule (requests t.calls) t.producer
          (threads t.calls)
          (ap (all_of is_fine) given ∙ all_of-upto is_fine request fine (length t.calls)) now.runs
          (report 0).0 in
      (
        moves,
        t,
        q,
        (filled, at),
        given,
        (report 0).2,
        λ code.
            (report code).3
            ∙ ap (λ (b : Bool). if b then none else some (answers code (requests t.calls)))
                unlocked,
      )
