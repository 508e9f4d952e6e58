-- ===== src/Nethttp/Interface.antt =====
-- nethttp/job.go: `JobProducer` as the interface of loadgen/job.go: what `Job` returns to `Run`.
use plt.Base.{ℕ, suc, ◌≡◌, refl, ap, true, Option, none, some, List, [], ◌∷◌, arith, pos, all_of}
use plt.Loadgen.JobProducer.{JobProducer, begin_from, has_outcome}
use plt.Loadgen.Runner.{Dynhist}
use plt.Loadgen.State.{Outcome, ok, err}
use plt.Nethttp.Concurrent.{all_returned}
use plt.Nethttp.Mutex.{request_counts}
use plt.Nethttp.State.{Producer, Exchange, took, failed, panicked, blocked}
use plt.Nethttp.Threads.{
  Stage, Thread, begun, arrived, locking, sampling, copying, kept, over, advance, advance_thread,
  launched,
}

-- What `Run` gets from a call. A panic ends the program: nothing is returned.
abbrev pub outcome_of : Stage → Option Outcome
outcome_of (kept e) = some (err e)
outcome_of (over (took d)) = some (ok (pos d))
outcome_of (over (failed e)) = some (err e)
outcome_of _ = none

pub thread_outcome :
    (dh : Dynhist) (t : Thread) (s q : Producer dh.Collector) (next : Thread)
    → advance_thread dh t s ≡ some (q, next)
    → outcome_of t.1 ≡ none
unfolding advance_thread advance
thread_outcome dh (x, begun) s q next h = refl
thread_outcome dh (x, arrived c) s q next h = refl
thread_outcome dh (x, locking c) s q next h = refl
thread_outcome dh (x, sampling c) s q next h = refl
thread_outcome dh (x, copying c) s q next h = refl
thread_outcome dh (x, kept e) s q next h = absurd (ground arith)
thread_outcome dh (x, over r) s q next h = absurd (ground arith)

abbrev pub http_producer : Dynhist → JobProducer
http_producer dh = record {
  State = Producer dh.Collector;
  Request = Exchange;
  Thread = Thread;
  begin = λ i x. (x, begun);
  advance = advance_thread dh;
  outcome = λ t. outcome_of t.1;
  request_counts = request_counts;
  advance-outcome = thread_outcome dh;
}

pub begin_from-launched :
    (dh : Dynhist) (i : ℕ) (xs : List Exchange) → begin_from (http_producer dh) i xs ≡ launched xs
begin_from-launched dh i [] = refl
begin_from-launched dh i (x ∷ xs) = ap (◌∷◌ (x, begun)) (begin_from-launched dh (suc i) xs)

-- A call with an outcome has returned, and a time is what it has added to the total.
pub outcomes-returned :
    (dh : Dynhist) (ts : List Thread)
    → all_of (has_outcome (http_producer dh)) ts ≡ true
    → all_returned ts ≡ true
outcomes-returned dh [] h = refl
outcomes-returned dh ((x, begun) ∷ ts) h = absurd (ground arith)
outcomes-returned dh ((x, arrived c) ∷ ts) h = absurd (ground arith)
outcomes-returned dh ((x, locking c) ∷ ts) h = absurd (ground arith)
outcomes-returned dh ((x, sampling c) ∷ ts) h = absurd (ground arith)
outcomes-returned dh ((x, copying c) ∷ ts) h = absurd (ground arith)
outcomes-returned dh ((x, over panicked) ∷ ts) h = absurd (ground arith)
outcomes-returned dh ((x, over blocked) ∷ ts) h = absurd (ground arith)
outcomes-returned dh ((x, kept e) ∷ ts) h = outcomes-returned dh ts h
outcomes-returned dh ((x, over (took d)) ∷ ts) h = outcomes-returned dh ts h
outcomes-returned dh ((x, over (failed e)) ∷ ts) h = outcomes-returned dh ts h
