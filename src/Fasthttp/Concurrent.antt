-- ===== src/Fasthttp/Concurrent.antt =====
-- fasthttp/job.go: in every order of the operations of its jobs, the producer counts what it counts when
-- they come one after another, and no job waits for ever.
use mathlib.Core.Path.{fun_ext}
use plt.Base.{
  ℕ, suc, ◌+◌, ◌≤◌, ◌≡◌, refl, sym, ap, Bool, true, false, ◌&&◌, some, List, [], ◌∷◌, arith,
  get_elem?, set, total, total-set, total-erase_at, ◌==◌, if◌then◌else◌,
}
use plt.Base.Dict.{lookup-insert}
use plt.Base.Threads.{run_threads, run_threads-keeps}
use plt.Fasthttp.Job.{Producer, Exchange, took, failed, count_of, count_response}
use plt.Fasthttp.History.{
  seen, seen-count_of, is_answered, tally, tally_all, send_all, send_all_refines, Histogram,
}
use plt.Fasthttp.Threads.{
  Thread, Shared, begun, arrived, counting, counted, over, advance, launched, unlocked,
  receive_body,
}

-- The response of a thread has been counted under a status.
abbrev pub counts : ℕ → Thread → ℕ
counts code (x, counted) = if x.status == code then 1 else 0
counts code (x, over (took d)) = if x.status == code then 1 else 0
counts code (x, _) = 0

abbrev pub holds : Thread → ℕ
holds (x, counting) = 1
holds (x, counted) = 1
holds (x, _) = 0

-- The thread stands at a response that did not come, or has failed with one that did.
abbrev pub misfits : Thread → ℕ
misfits (x, begun) = 0
misfits (x, over (failed e)) = if is_answered x then 1 else 0
misfits (x, _) = if is_answered x then 0 else 1

-- What the thread's request adds to a status, when it is answered.
abbrev answers : ℕ → Thread → ℕ
answers code (x, st) = if is_answered x && x.status == code then 1 else 0

abbrev lock : Shared → ℕ
lock s = if s.locked then 1 else 0

module _ (code before after : ℕ) where
  -- The producer against what its threads have done.
  pub record Agrees (s : Shared) (ts : List Thread) : Type 0 where
    pub counts_agree : count_of code s.producer.resp_code ≡ total (counts code) ts + before
    pub lock_agrees : lock s ≡ total holds ts
    pub placed : total misfits ts ≡ 0
    pub same_requests : total (answers code) ts ≡ after

-- One operation of a thread.
record Moved (code : ℕ) (s : Shared) (t : Thread) (q : Shared) (next : Thread) : Type 0 where
  pub counting_moves :
      count_of code q.producer.resp_code + counts code t
      ≡ count_of code s.producer.resp_code + counts code next
  pub lock_moves : lock q + holds t ≡ lock s + holds next
  pub stays_placed : misfits next ≡ 0
  pub same_request : answers code next ≡ answers code t

advance-Moved :
    (code : ℕ) (t : Thread) (s q : Shared) (next : Thread)
    → advance t s ≡ some (q, next)
    → misfits t ≡ 0
    → holds t ≤ lock s
    → Moved code s t q next
unfolding advance receive_body count_response
advance-Moved code (x, begun) s q next h a b = record {
  counting_moves = ground arith;
  lock_moves = ground arith;
  stays_placed = ground arith;
  same_request = ground arith;
}
advance-Moved code (x, arrived) s q next h a b = record {
  counting_moves = ground arith;
  lock_moves = ground arith;
  stays_placed = ground arith;
  same_request = ground arith;
}
advance-Moved code (x, counting) s q next h a b = record {
  counting_moves = ground (
    arith,
    lookup-insert x.status code (suc (count_of x.status s.producer.resp_code)) s.producer.resp_code,
  );
  lock_moves = ground arith;
  stays_placed = ground arith;
  same_request = ground arith;
}
advance-Moved code (x, counted) s q next h a b = record {
  counting_moves = ground arith;
  lock_moves = ground arith;
  stays_placed = ground arith;
  same_request = ground arith;
}
advance-Moved code (x, over r) s q next h a b = absurd (ground arith)

pub part-le :
    (w : Thread → ℕ) (ts : List Thread) (i : ℕ) (t : Thread)
    → get_elem? ts i ≡ some t
    → w t ≤ total w ts
part-le w ts i t at = omega (arith, total-erase_at w ts i t at)

step-Agrees :
    (code before after i : ℕ) (s : Shared) (ts : List Thread) (t : Thread) (q : Shared)
    (next : Thread)
    → get_elem? ts i ≡ some t
    → advance t s ≡ some (q, next)
    → Agrees code before after s ts
    → Agrees code before after q (set ts i next)
step-Agrees code before after i s ts t q next at moved a =
    let m =
      advance-Moved code t s q next moved (omega (arith, a.placed, part-le misfits ts i t at))
        (omega (arith, a.lock_agrees, part-le holds ts i t at)) in
    record {
      counts_agree =
          omega (arith, a.counts_agree, m.counting_moves, total-set (counts code) ts i t next at);
      lock_agrees = omega (arith, a.lock_agrees, m.lock_moves, total-set holds ts i t next at);
      placed = omega (arith, a.placed, m.stays_placed, total-set misfits ts i t next at);
      same_requests =
          omega (arith, a.same_requests, m.same_request, total-set (answers code) ts i t next at);
    }

launched-Agrees :
    (code : ℕ) (xs : List Exchange) (p : Producer)
    → Agrees code
        (count_of code p.resp_code)
        (total (answers code) (launched xs))
        (unlocked p)
        (launched xs)
launched-Agrees code xs p = record {
  counts_agree = omega (arith, none_of (counts code) (λ x. refl) xs);
  lock_agrees = sym (none_of holds (λ x. refl) xs);
  placed = none_of misfits (λ x. refl) xs;
  same_requests = refl;
}
  where
    none_of :
        (w : Thread → ℕ)
        → ((x : Exchange) → w (x, begun) ≡ 0)
        → (ys : List Exchange) → total w (launched ys) ≡ 0
    none_of w zero_at [] = refl
    none_of w zero_at (y ∷ ys) = omega (arith, zero_at y, none_of w zero_at ys)

-- What holds of every state that the operations of jobs can come to.
pub run_threads-Agrees :
    (code : ℕ) (schedule : List ℕ) (xs : List Exchange) (p : Producer) (q : Shared)
    (us : List Thread)
    → run_threads advance schedule (unlocked p) (launched xs) ≡ some (q, us)
    → Agrees code (count_of code p.resp_code) (total (answers code) (launched xs)) q us
run_threads-Agrees code schedule xs p q us h =
    run_threads-keeps advance
      (Agrees code (count_of code p.resp_code) (total (answers code) (launched xs)))
      (step-Agrees code (count_of code p.resp_code) (total (answers code) (launched xs))) schedule
      (unlocked p) (launched xs) q us h (launched-Agrees code xs p)

abbrev is_over : Thread → Bool
is_over (x, over r) = true
is_over (x, _) = false

abbrev pub all_over : List Thread → Bool
all_over [] = true
all_over (t ∷ ts) = is_over t && all_over ts

over-answers :
    (code : ℕ) (us : List Thread)
    → all_over us ≡ true
    → total misfits us ≡ 0
    → (total (counts code) us ≡ total (answers code) us) × (total holds us ≡ 0)
over-answers code [] h a = (refl, refl)
over-answers code ((x, over (took d)) ∷ us) h a = ground (arith, over-answers code us)
over-answers code ((x, over (failed e)) ∷ us) h a = ground (arith, over-answers code us)
over-answers code ((x, _) ∷ us) h a = absurd (ground arith)

tally_all-answers :
    (code : ℕ) (xs : List Exchange) (h : Histogram)
    → tally_all xs h code ≡ total (answers code) (launched xs) + h code
unfolding tally_all
tally_all-answers code [] h = omega arith
tally_all-answers code (x ∷ xs) h = ground (arith, tally_all-answers code xs (tally x h))

-- Whatever order the operations of some jobs come in, when all have returned the mutex is free and the
-- counts that `RequestCounts` tells are those after the same jobs one after another.
pub run_threads-seen :
    (schedule : List ℕ) (xs : List Exchange) (p : Producer) {q : Shared} {us : List Thread}
    → run_threads advance schedule (unlocked p) (launched xs) ≡ some (q, us)
    → all_over us ≡ true
    → (q.locked ≡ false) × (seen q.producer ≡ seen (send_all xs p))
run_threads-seen schedule xs p {q} {us} h done = (free 0, fun_ext same)
  where
    free : ℕ → q.locked ≡ false
    free code =
        let a = run_threads-Agrees code schedule xs p q us h in
        ground (arith, a.lock_agrees, over-answers code us done a.placed)

    same : (code : ℕ) → seen q.producer code ≡ seen (send_all xs p) code
    same code =
        let a = run_threads-Agrees code schedule xs p q us h in
        omega (
          arith,
          a.counts_agree,
          a.same_requests,
          over-answers code us done a.placed,
          seen-count_of q.producer code,
          seen-count_of p code,
          tally_all-answers code xs (seen p),
          ap (λ (f : Histogram). f code) (send_all_refines xs p),
        )

-- At every point between, the counts are those of the jobs that have counted their response, and the
-- mutex is taken while exactly one job holds it.
pub run_threads-counts :
    (schedule : List ℕ) (xs : List Exchange) (p : Producer) (code : ℕ) {q : Shared}
    {us : List Thread}
    → run_threads advance schedule (unlocked p) (launched xs) ≡ some (q, us)
    → (seen q.producer code ≡ total (counts code) us + seen p code)
      × (total holds us ≡ (if q.locked then 1 else 0))
run_threads-counts schedule xs p code {q} {us} h =
    let a = run_threads-Agrees code schedule xs p q us h in
    (
      omega (arith, a.counts_agree, seen-count_of q.producer code, seen-count_of p code),
      sym a.lock_agrees,
    )
