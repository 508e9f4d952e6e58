-- ===== src/Nethttp/Returns.antt =====
-- nethttp/job.go: every call of `Job` returns whose request neither breaks off within a sample nor
-- answers a status that cannot be counted.
use plt.Base.{
  ℕ, ◌≡◌, refl, ap, sym, ◌∙◌, Bool, true, false, ◌&&◌, some, List, [], ◌∷◌, arith, get_elem?, set,
  ltb, total, if◌then◌else◌, all_of, all_of-set, all_of-get, Bool-cases, inl, inr,
}
use plt.Base.Threads.{run_threads, run_threads-keeps}
use plt.Loadgen.JobProducer.{Returns, begin_from, has_outcome}
use plt.Loadgen.Runner.{Dynhist}
use plt.Nethttp.Concurrent.{all_returned, launched-Agrees}
use plt.Nethttp.Counts.{is_none}
use plt.Nethttp.Interleavings.{holds, advance_thread_inversion, AllAgree, interleave-AllAgree}
use plt.Nethttp.Job.{codes_size, read_sample, drain}
use plt.Nethttp.Schedules.{
  left, none_keeps, some_can_move, some_can_move_free, some_can_move_held, thread_moves,
  thread-left,
}
use plt.Nethttp.State.{Producer, Exchange, took, failed, panicked, blocked}
use plt.Nethttp.Threads.{
  Stage, Thread, begun, arrived, locking, sampling, copying, kept, over, ask, advance,
  advance_thread, launched,
}
use plt.Nethttp.Interface.{http_producer, begin_from-launched}

abbrev pub is_fine : Exchange → Bool
is_fine x = ltb x.response.status codes_size && is_none (read_sample x.response.content).1

-- The thread has not panicked, nor kept the mutex.
abbrev is_sound : Stage → Bool
is_sound (kept e) = false
is_sound (over panicked) = false
is_sound (over blocked) = false
is_sound _ = true

abbrev fares : Thread → Bool
fares (x, st) = is_fine x && is_sound st

fares-none_keeps : (ts : List Thread) → all_of fares ts ≡ true → none_keeps ts ≡ true
fares-none_keeps [] h = refl
fares-none_keeps ((x, begun) ∷ ts) h = ground (arith, fares-none_keeps ts)
fares-none_keeps ((x, arrived c) ∷ ts) h = ground (arith, fares-none_keeps ts)
fares-none_keeps ((x, locking c) ∷ ts) h = ground (arith, fares-none_keeps ts)
fares-none_keeps ((x, sampling c) ∷ ts) h = ground (arith, fares-none_keeps ts)
fares-none_keeps ((x, copying c) ∷ ts) h = ground (arith, fares-none_keeps ts)
fares-none_keeps ((x, kept e) ∷ ts) h = absurd (ground arith)
fares-none_keeps ((x, over r) ∷ ts) h = ground (arith, fares-none_keeps ts)

-- A call that has returned so has an outcome, and holds no mutex.
fares-returned :
    (dh : Dynhist) (ts : List Thread)
    → all_of fares ts ≡ true
    → all_returned ts ≡ true
    → (all_of (has_outcome (http_producer dh)) ts ≡ true) × (total holds ts ≡ 0)
fares-returned dh [] h k = (refl, refl)
fares-returned dh ((x, begun) ∷ ts) h k = absurd (ground arith)
fares-returned dh ((x, arrived c) ∷ ts) h k = absurd (ground arith)
fares-returned dh ((x, locking c) ∷ ts) h k = absurd (ground arith)
fares-returned dh ((x, sampling c) ∷ ts) h k = absurd (ground arith)
fares-returned dh ((x, copying c) ∷ ts) h k = absurd (ground arith)
fares-returned dh ((x, kept e) ∷ ts) h k = absurd (ground arith)
fares-returned dh ((x, over panicked) ∷ ts) h k = absurd (ground arith)
fares-returned dh ((x, over blocked) ∷ ts) h k = absurd (ground arith)
fares-returned dh ((x, over (took d)) ∷ ts) h k = ground (arith, fares-returned dh ts)
fares-returned dh ((x, over (failed e)) ∷ ts) h k = ground (arith, fares-returned dh ts)

fares-launched : (xs : List Exchange) → all_of is_fine xs ≡ true → all_of fares (launched xs) ≡ true
fares-launched [] h = refl
fares-launched (x ∷ xs) h = ground (arith, fares-launched xs)

module _ (dh : Dynhist) where
  open dh use {Collector}

  thread-fares :
      (x : Exchange) (st : Stage) (p q : Producer Collector) (later : Stage)
      → fares (x, st) ≡ true
      → advance dh x st p ≡ some (q, later)
      → fares (x, later) ≡ true
  unfolding advance ask drain
  thread-fares x begun p q later h e = ground arith
  thread-fares x (arrived c) p q later h e = ground arith
  thread-fares x (locking c) p q later h e = ground arith
  thread-fares x (sampling c) p q later h e = ground arith
  thread-fares x (copying c) p q later h e = ground arith
  thread-fares x (kept e2) p q later h e = absurd (ground arith)
  thread-fares x (over r) p q later h e = absurd (ground arith)

  step-fares :
      (i : ℕ) (p : Producer Collector) (ts : List Thread) (t : Thread) (q : Producer Collector)
      (next : Thread)
      → get_elem? ts i ≡ some t
      → advance_thread dh t p ≡ some (q, next)
      → all_of fares ts ≡ true
      → all_of fares (set ts i next) ≡ true
  step-fares i p ts (x, st) q next at h all =
      let (later, moved, same) = advance_thread_inversion dh x st p q next h in
      let one = thread-fares x st p q later (all_of-get fares ts i (x, st) all at) moved in
      rw same (all_of-set fares ts i (x, later) all one)

  module _ (p : Producer Collector) (free : p.locked ≡ false) (empty : p.resp_body ≡ [])
      (zero_counts : (code : ℕ) → p.resp_code code ≡ 0) where
    -- What holds of the calls of fine requests in every order of their operations.
    run-fares :
        (schedule : List ℕ) (xs : List Exchange) (q : Producer Collector) (us : List Thread)
        → all_of is_fine xs ≡ true
        → run_threads (advance_thread dh) schedule p (begin_from (http_producer dh) 0 xs)
          ≡ some (q, us)
        → (all_of fares us ≡ true) × ((if q.locked then 1 else 0) ≡ total holds us)
    run-fares schedule xs q us fine run =
        let here : run_threads (advance_thread dh) schedule p (launched xs) ≡ some (q, us) =
          ap (λ ts. run_threads (advance_thread dh) schedule p ts)
            (sym (begin_from-launched dh 0 xs))
          ∙ run in
        let now : AllAgree dh 0 p.total q us =
          interleave-AllAgree dh schedule 0 p.total p (launched xs) q us
            (launched-Agrees p 0 xs free empty (zero_counts 0)) here in
        (
          run_threads-keeps (advance_thread dh) (λ _ ts. all_of fares ts ≡ true) step-fares schedule
              p (launched xs) q us here (fares-launched xs fine),
          now.lock,
        )

    pub call_goes_on :
        (schedule : List ℕ) (xs : List Exchange) (q : Producer Collector) (us : List Thread)
        → all_of is_fine xs ≡ true
        → run_threads (advance_thread dh) schedule p (begin_from (http_producer dh) 0 xs)
          ≡ some (q, us)
        → all_of (has_outcome (http_producer dh)) us ≡ false
        → (i : ℕ) × (t : Thread) × (r : Producer Collector × Thread) × (get_elem? us i ≡ some t)
          × (advance_thread dh t q ≡ some r)
    call_goes_on schedule xs q us fine run open_calls =
        let (fare, lock) = run-fares schedule xs q us fine run in
        let moves : some_can_move q.locked us ≡ true = elim (Bool-cases q.locked) [
          | inl e ↦ rw e (some_can_move_held us (ground (arith, lock)) (fares-none_keeps us fare))
          | inr e ↦ rw e (some_can_move_free us (still_inside fare open_calls))
        ] in
        thread_moves dh q us moves
      where
        still_inside :
            all_of fares us ≡ true
            → all_of (has_outcome (http_producer dh)) us ≡ false
            → all_returned us ≡ false
        still_inside fare inside = elim (Bool-cases (all_returned us)) [
          | inl back ↦ absurd (ground (arith, fares-returned dh us fare back))
          | inr e ↦ e
        ]

    -- A producer with no count and no sample: its calls return.
    abbrev pub http_returns : Returns (http_producer dh) p
    http_returns = record {
      is_fine = is_fine;
      most = 5;
      left = left;
      left-begin = λ i x. omega arith;
      left-advance = thread-left dh;
      goes_on = call_goes_on;
    }

    -- Then the mutex is free at the end.
    pub run-unlocked :
        (schedule : List ℕ) (xs : List Exchange) (q : Producer Collector) (us : List Thread)
        → all_of is_fine xs ≡ true
        → run_threads (advance_thread dh) schedule p (begin_from (http_producer dh) 0 xs)
          ≡ some (q, us)
        → all_returned us ≡ true
        → q.locked ≡ false
    run-unlocked schedule xs q us fine run back =
        let (fare, lock) = run-fares schedule xs q us fine run in
        ground (arith, lock, fares-returned dh us fare back)
