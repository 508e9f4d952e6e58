-- ===== src/Fasthttp/Interface.antt =====
-- fasthttp/job.go: `JobProducer` as the interface of loadgen/job.go: what `Job` returns, and that every
-- call returns.
use plt.Base.{
  ℕ, suc, ◌≡◌, refl, ap, true, false, Option, none, some, List, [], ◌∷◌, arith, get_elem?, pos,
  all_of,
}
use plt.Base.Threads.{run_threads, step_thread_inversion}
use plt.Loadgen.JobProducer.{JobProducer, Returns, begin_from, has_outcome}
use plt.Loadgen.State.{Outcome, ok, err}
use plt.Fasthttp.Concurrent.{all_over}
use plt.Fasthttp.Job.{Producer, Exchange, took, failed}
use plt.Fasthttp.Progress.{left, advance-left, run_threads-progress}
use plt.Fasthttp.Threads.{
  Stage, Thread, Shared, begun, arrived, counting, counted, over, advance, launched, unlocked,
  snapshot,
}

abbrev pub outcome_of : Stage → Option Outcome
outcome_of (over (took d)) = some (ok (pos d))
outcome_of (over (failed e)) = some (err e)
outcome_of _ = none

pub thread_outcome :
    (t : Thread) (s q : Shared) (next : Thread)
    → advance t s ≡ some (q, next)
    → outcome_of t.1 ≡ none
unfolding advance
thread_outcome (x, begun) s q next h = refl
thread_outcome (x, arrived) s q next h = refl
thread_outcome (x, counting) s q next h = refl
thread_outcome (x, counted) s q next h = refl
thread_outcome (x, over r) s q next h = absurd (ground arith)

abbrev pub fast_producer : JobProducer
fast_producer = record {
  State = Shared;
  Request = Exchange;
  Thread = Thread;
  begin = λ i x. (x, begun);
  advance = advance;
  outcome = λ t. outcome_of t.1;
  request_counts = snapshot;
  advance-outcome = thread_outcome;
}

pub begin_from-launched : (i : ℕ) (xs : List Exchange) → begin_from fast_producer i xs ≡ launched xs
begin_from-launched i [] = refl
begin_from-launched i (x ∷ xs) = ap (◌∷◌ (x, begun)) (begin_from-launched (suc i) xs)

pub outcomes-over : (ts : List Thread) → all_of (has_outcome fast_producer) ts ≡ all_over ts
outcomes-over [] = refl
outcomes-over ((x, begun) ∷ ts) = refl
outcomes-over ((x, arrived) ∷ ts) = refl
outcomes-over ((x, counting) ∷ ts) = refl
outcomes-over ((x, counted) ∷ ts) = refl
outcomes-over ((x, over (took d)) ∷ ts) = outcomes-over ts
outcomes-over ((x, over (failed e)) ∷ ts) = outcomes-over ts

pub call_goes_on :
    (p : Producer) (schedule : List ℕ) (xs : List Exchange) (q : Shared) (us : List Thread)
    → all_of (λ x. true) xs ≡ true
    → run_threads advance schedule (unlocked p) (begin_from fast_producer 0 xs) ≡ some (q, us)
    → all_of (has_outcome fast_producer) us ≡ false
    → (i : ℕ) × (t : Thread) × (r : Shared × Thread) × (get_elem? us i ≡ some t)
      × (advance t q ≡ some r)
call_goes_on p schedule xs q us fine run open_calls =
    let here : run_threads advance schedule (unlocked p) (launched xs) ≡ some (q, us) =
      rw (begin_from-launched 0 xs) at run in
    let (i, (r, vs), e) =
      (run_threads-progress schedule xs p {q = q} {us = us} here
        (rw (outcomes-over us) at open_calls)).1 in
    let (t, next, at, moved, rest) = step_thread_inversion advance i q us r vs e in
    (i, t, (r, next), at, moved)

-- Whatever its request meets, a call returns after at most four operations.
abbrev pub fast_returns : (p : Producer) → Returns fast_producer (unlocked p)
fast_returns p = record {
  is_fine = λ x. true;
  most = 4;
  left = left;
  left-begin = λ i x. omega arith;
  left-advance = advance-left;
  goes_on = call_goes_on p;
}
