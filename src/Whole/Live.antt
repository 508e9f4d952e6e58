-- ===== src/Whole/Live.antt =====
-- loadgen/run.go with a job producer: what a round of `runLiveUI` reads of the run, and the rounds
-- that wait in `RequestCounts`.
use plt.Base.{
  ℕ, ◌≤◌, ◌≡◌, subst, ◌⊎◌, ap, sym, ◌∙◌, true, false, Option, none, some, List, [], ◌∷◌, ℤ, arith,
  get_elem?, total, Option-cases, inl, inr, Text,
}
use plt.Base.Threads.{run_threads, get_elem?-append, get_elem?-set}
use plt.Loadgen.Flags.{Flags}
use plt.Loadgen.JobProducer.{JobProducer}
use plt.Loadgen.LiveUi.{Reading}
use plt.Loadgen.Runner.{Dynhist}
use plt.Nethttp.Concurrent.{asked, interleave-asked, asked-launched, launched-Agrees}
use plt.Nethttp.History.{answers, told, told_bounded}
use plt.Nethttp.Interface.{http_producer, begin_from-launched}
use plt.Nethttp.Interleavings.{counted, AllAgree, interleave-AllAgree}
use plt.Nethttp.Mutex.{request_counts}
use plt.Nethttp.State.{Producer}
use plt.Nethttp.Threads.{
  Thread, begun, arrived, locking, sampling, copying, kept, over, advance, advance_thread, launched,
}
use plt.Whole.{Whole, Move, new_call, move, Arrives}
use plt.Whole.Interleaved.{
  threads, requests, threads-set, threads-get, threads-append, set_same, Arrives-Interleaved,
}
use plt.Whole.Moves.{Moved, by_load, by_launch, by_call, by_join, move_inversion, run_moves}
use plt.Whole.Report.{successes, failures, whole_running}

module _ (dh : Dynhist) (jp : JobProducer) where
  open dh use {count}

  -- The times and the rolling collector's bounds are arguments.
  abbrev pub reading :
      (elapsed since_prev : ℕ) (lo hi : ℤ) → Whole dh jp → List (Text × ℕ) → Reading
  reading elapsed since_prev lo hi s counts = record {
    counts = some counts;
    hist_count = count s.load.runner.round_trip_hist;
    err_cnt = s.load.runner.err_cnt;
    elapsed = elapsed;
    since_prev = since_prev;
    rolling_min = lo;
    rolling_max = hi;
  }

  -- `none` where `RequestCounts` waits.
  unfoldable pub read_round : (elapsed since_prev : ℕ) (lo hi : ℤ) → Whole dh jp → Option Reading
  read_round elapsed since_prev lo hi s = elim (jp.request_counts s.producer) [
    | none ↦ none
    | some counts ↦ some (reading elapsed since_prev lo hi s counts)
  ]

  module _ (i : ℕ) (u : jp.Thread) (stuck : (q : jp.State) → jp.advance u q ≡ none) where
    Moved-stays :
        (s t : Whole dh jp)
        → Moved dh jp s t
        → get_elem? (threads s.calls) i ≡ some u
        → get_elem? (threads t.calls) i ≡ some u
    Moved-stays s t (by_load a own e same cs) h = ap (λ xs. get_elem? (threads xs) i) cs ∙ h
    Moved-stays s t (by_launch k x at e same cs) h =
        ap (λ xs. get_elem? (threads xs) i) cs
        ∙ ap (λ us. get_elem? us i) (threads-append s.calls (new_call dh jp k x))
        ∙ get_elem?-append (threads s.calls) (jp.begin k x ∷ []) i u h
    Moved-stays s t (by_call k c later here e same cs) h =
        elim (get_elem?-set (threads s.calls) i k u later h) [
          | inl there ↦
              ap (λ xs. get_elem? (threads xs) i) cs
              ∙ ap (λ us. get_elem? us i) (threads-set s.calls k (record c { thread = later }))
              ∙ there
          | inr at ↦
              let found : get_elem? (threads s.calls) k ≡ some c.thread =
                threads-get s.calls k c here in
              let it : some c.thread ≡ some u =
                sym found ∙ ap (λ n. get_elem? (threads s.calls) n) (sym at) ∙ h in
              absurd (ground (arith, it, stuck s.producer, e))
        ]
    Moved-stays s t (by_join k j c o here there out e same cs) h =
        ap (λ xs. get_elem? (threads xs) i) cs
        ∙ ap (λ us. get_elem? us i)
            (threads-set s.calls j.index (record c { joined = true })
              ∙ set_same (threads s.calls) j.index c.thread (threads-get s.calls j.index c there))
        ∙ h

    -- A call that can do no more stands where it stood.
    pub run_moves-stays :
        (moves : List (Move jp)) (s t : Whole dh jp)
        → run_moves dh jp moves s ≡ some t
        → get_elem? (threads s.calls) i ≡ some u
        → get_elem? (threads t.calls) i ≡ some u
    unfolding run_moves
    run_moves-stays [] s t r h =
        let same : s ≡ t = cc in
        subst (λ (v : Whole dh jp). get_elem? (threads v.calls) i ≡ some u) same h
    run_moves-stays (m ∷ moves) s t r h = elim (Option-cases (move dh jp s m)) [
      | inl e ↦ absurd (ground arith)
      | inr (v, e) ↦
          run_moves-stays moves v t (ground arith)
            (Moved-stays s v (move_inversion dh jp s m v e) h)
    ]

-- A thread that has counted its response has been answered.
counted-asked : (code : ℕ) (ts : List Thread) → total (counted code) ts ≤ total (asked code) ts
counted-asked code [] = omega arith
counted-asked code ((x, begun) ∷ ts) = ground (arith, counted-asked code ts)
counted-asked code ((x, arrived c) ∷ ts) = ground (arith, counted-asked code ts)
counted-asked code ((x, locking c) ∷ ts) = ground (arith, counted-asked code ts)
counted-asked code ((x, sampling c) ∷ ts) = ground (arith, counted-asked code ts)
counted-asked code ((x, copying c) ∷ ts) = ground (arith, counted-asked code ts)
counted-asked code ((x, kept e) ∷ ts) = ground (arith, counted-asked code ts)
counted-asked code ((x, over r) ∷ ts) = ground (arith, counted-asked code ts)

module _ (dh : Dynhist) where
  open dh use {Collector}

  -- The calls of a run against their producer, and the answers among its requests.
  run-Agrees :
      (code : ℕ) {lf : Flags} {p : Producer Collector} {s : Whole dh (http_producer dh)}
      → p.locked ≡ false
      → p.resp_body ≡ []
      → p.resp_code code ≡ 0
      → Arrives dh (http_producer dh) lf p s
      → AllAgree dh code p.total s.producer (threads s.calls)
        × (total (asked code) (threads s.calls) ≡ answers code (requests s.calls))
  run-Agrees code {p = p} {s = s} free empty zero_count r =
      let now = Arrives-Interleaved dh (http_producer dh) r in
      let xs = requests s.calls in
      let run : run_threads (advance_thread dh) now.schedule p (launched xs)
          ≡ some (s.producer, threads s.calls) =
        ap (λ ts. run_threads (advance_thread dh) now.schedule p ts)
          (sym (begin_from-launched dh 0 xs))
        ∙ now.runs in
      (
        interleave-AllAgree dh now.schedule code p.total p (launched xs) s.producer
            (threads s.calls) (launched-Agrees p code xs free empty zero_count) run,
        interleave-asked dh now.schedule code p (launched xs) s.producer (threads s.calls) run
            ∙ asked-launched code xs,
      )

  waits : (p : Producer Collector) → request_counts p ≡ none → p.locked ≡ true
  unfolding request_counts
  waits p h = ground arith

  -- A run over nethttp, on a producer with a free mutex, no count and no sample, at any moment, with
  -- the live ui or without: what a round reads is no more than has happened. For each status the round
  -- shows no more than the answers of that status among the launched requests, its successes and
  -- errors are no more than the calls of `Job` have returned, and it waits only while the mutex is
  -- held.
  pub http_round :
      (code : ℕ) {lf : Flags} {p : Producer Collector} {s : Whole dh (http_producer dh)}
      → p.locked ≡ false
      → p.resp_body ≡ []
      → p.resp_code code ≡ 0
      → Arrives dh (http_producer dh) lf p s
      → (elapsed since_prev : ℕ) (lo hi : ℤ)
      → ((s.producer.locked ≡ true)
          × (read_round dh (http_producer dh) elapsed since_prev lo hi s ≡ none))
        ⊎ ((r : Reading) × (n : ℕ) × (read_round dh (http_producer dh) elapsed since_prev lo hi s
              ≡ some r)
            × (told code r.counts ≡ some n)
            × (n ≤ answers code (requests s.calls))
            × (r.hist_count ≤ successes (http_producer dh) (threads s.calls))
            × (r.err_cnt ≤ failures (http_producer dh) (threads s.calls)))
  unfolding read_round
  http_round code {s = s} free empty zero_count r elapsed since_prev lo hi =
      let (agrees, all) = run-Agrees code free empty zero_count r in
      let counted_so_far = whole_running dh (http_producer dh) r in
      elim (Option-cases (request_counts s.producer)) [
        | inl e ↦ inl (waits s.producer e, ground arith)
        | inr (counts, e) ↦
            let (n, says, few) = told_bounded s.producer code counts e in
            let bound : n ≤ answers code (requests s.calls) =
              omega (arith, few, agrees.counts, counted-asked code (threads s.calls), all) in
            inr (
              reading dh (http_producer dh) elapsed since_prev lo hi s counts,
              n,
              ground arith,
              says,
              bound,
              counted_so_far.0,
              counted_so_far.1,
            )
      ]
