-- ===== src/S3/Interface.antt =====
-- s3/job.go: `jobProducer` as the interface of loadgen/job.go: what `Job` returns, and that every call
-- returns. An error is the one that the code wraps.
use plt.Base.{
  ℕ, suc, ◌<◌, ◌≡◌, refl, ap, true, false, Option, none, some, List, [], ◌∷◌, arith, get_elem?, pos,
  all_of, Text, Option-cases, inl, inr,
}
use plt.Base.Threads.{run_threads}
use plt.Loadgen.JobProducer.{JobProducer, Returns, begin_from, has_outcome}
use plt.Loadgen.Runner.{Err}
use plt.Loadgen.State.{Outcome, ok, err}
use plt.S3.Concurrent.{all_over}
use plt.S3.Job.{
  Producer, Transfer, Failure, create_failed, download_failed, open_failed, upload_failed, took,
  failed,
}
use plt.S3.Threads.{Stage, Thread, begun, arrived, over, advance, launched_from}

abbrev wrapped : Failure → Err
wrapped (create_failed e) = e
wrapped (download_failed e) = e
wrapped (open_failed e) = e
wrapped (upload_failed e) = e

abbrev pub outcome_of : Stage → Option Outcome
outcome_of (over (took d)) = some (ok (pos d))
outcome_of (over (failed e)) = some (err (wrapped e))
outcome_of _ = none

pub thread_outcome :
    (t : Thread) (p q : Producer) (next : Thread)
    → advance t p ≡ some (q, next)
    → outcome_of t.2 ≡ none
unfolding advance
thread_outcome (i, x, begun) p q next h = refl
thread_outcome (i, x, arrived) p q next h = refl
thread_outcome (i, x, over r) p q next h = absurd (ground arith)

-- It tells the nil map.
abbrev pub request_counts : Producer → Option (List (Text × ℕ))
request_counts p = some []

abbrev pub s3_producer : JobProducer
s3_producer = record {
  State = Producer;
  Request = Transfer;
  Thread = Thread;
  begin = λ i x. (i, x, begun);
  advance = advance;
  outcome = λ t. outcome_of t.2;
  request_counts = request_counts;
  advance-outcome = thread_outcome;
}

pub begin_from-launched_from :
    (i : ℕ) (xs : List Transfer) → begin_from s3_producer i xs ≡ launched_from i xs
unfolding launched_from
begin_from-launched_from i [] = refl
begin_from-launched_from i (x ∷ xs) = ap (◌∷◌ (i, x, begun)) (begin_from-launched_from (suc i) xs)

pub outcomes-over : (ts : List Thread) → all_of (has_outcome s3_producer) ts ≡ all_over ts
outcomes-over [] = refl
outcomes-over ((i, x, begun) ∷ ts) = refl
outcomes-over ((i, x, arrived) ∷ ts) = refl
outcomes-over ((i, x, over (took d)) ∷ ts) = outcomes-over ts
outcomes-over ((i, x, over (failed e)) ∷ ts) = outcomes-over ts

abbrev pub left : Thread → ℕ
left (i, x, begun) = 2
left (i, x, arrived) = 1
left (i, x, over r) = 0

pub advance-left :
    (t : Thread) (p q : Producer) (next : Thread)
    → advance t p ≡ some (q, next)
    → left next < left t
unfolding advance
advance-left (i, x, begun) p q next h = ground arith
advance-left (i, x, arrived) p q next h = ground arith
advance-left (i, x, over r) p q next h = absurd (ground arith)

begun_moves :
    (i : ℕ) (x : Transfer) (p : Producer)
    → (r : Producer × Thread) × (advance (i, x, begun) p ≡ some r)
unfolding advance
begun_moves i x p = elim (Option-cases (advance (i, x, begun) p)) [
  | inl e ↦ absurd (ground arith)
  | inr found ↦ found
]

-- No operation waits.
first_moves :
    (p : Producer) (ts : List Thread)
    → all_over ts ≡ false
    → (i : ℕ) × (t : Thread) × (r : Producer × Thread) × (get_elem? ts i ≡ some t)
      × (advance t p ≡ some r)
unfolding advance
first_moves p [] h = absurd (ground arith)
first_moves p ((i, x, begun) ∷ ts) h =
    let (r, e) = begun_moves i x p in (0, (i, x, begun), r, refl, e)
first_moves p ((i, x, arrived) ∷ ts) h = (0, (i, x, arrived), _, refl, refl)
first_moves p ((i, x, over r) ∷ ts) h =
    let (j, t, s, at, e) = first_moves p ts h in (suc j, t, s, at, e)

pub call_goes_on :
    (p : Producer) (schedule : List ℕ) (xs : List Transfer) (q : Producer) (us : List Thread)
    → all_of (λ x. true) xs ≡ true
    → run_threads advance schedule p (begin_from s3_producer 0 xs) ≡ some (q, us)
    → all_of (has_outcome s3_producer) us ≡ false
    → (i : ℕ) × (t : Thread) × (r : Producer × Thread) × (get_elem? us i ≡ some t)
      × (advance t q ≡ some r)
call_goes_on p schedule xs q us fine run open_calls =
    first_moves q us (rw (outcomes-over us) at open_calls)

-- Whatever its transfer meets, a call returns after at most two operations.
abbrev pub s3_returns : (p : Producer) → Returns s3_producer p
s3_returns p = record {
  is_fine = λ x. true;
  most = 2;
  left = left;
  left-begin = λ i x. omega arith;
  left-advance = advance-left;
  goes_on = call_goes_on p;
}
