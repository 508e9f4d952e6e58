-- ===== src/S3/Concurrent.antt =====
-- s3/job.go: every order of the operations of some jobs ends with the totals that they have one after
-- another.
use plt.Base.{
  ℕ, suc, ◌+◌, ◌≡◌, refl, sym, subst, ◌∙◌, Bool, true, false, ◌&&◌, some, List, [], ◌∷◌, arith,
  get_elem?, set, total, total-set, total-erase_at,
}
use plt.Base.Threads.{run_threads, run_threads-keeps}
use plt.S3.Job.{Flags, Producer, Transfer, took, failed, job}
use plt.S3.Summary.{run_jobs}
use plt.S3.Threads.{
  Thread, begun, over, advance, launched_from, job_of, bytes_of, jobs_counted, bytes_counted,
  misfits, Moved, advance-Moved,
}

-- The producer against what its threads have done.
pub record Agrees (f : Flags) (jobs bytes all_jobs all_bytes : ℕ) (p : Producer) (ts : List Thread)
    : Type 0 where
  pub flags_agree : p.f ≡ f
  pub jobs_agree : p.tot ≡ total (jobs_counted f) ts + jobs
  pub bytes_agree : p.tot_bytes ≡ total (bytes_counted f) ts + bytes
  pub all_placed : total (misfits f) ts ≡ 0
  pub same_jobs : total (job_of f) ts ≡ all_jobs
  pub same_sizes : total (bytes_of f) ts ≡ all_bytes

step-Agrees :
    (f : Flags) (jobs bytes all_jobs all_bytes i : ℕ) (p : Producer) (ts : List Thread) (t : Thread)
    (q : Producer) (next : Thread)
    → get_elem? ts i ≡ some t
    → advance t p ≡ some (q, next)
    → Agrees f jobs bytes all_jobs all_bytes p ts
    → Agrees f jobs bytes all_jobs all_bytes q (set ts i next)
step-Agrees f jobs bytes all_jobs all_bytes i p ts t q next at moved a =
    let one : misfits f t ≡ 0 = omega (arith, a.all_placed, total-erase_at (misfits f) ts i t at) in
    let m = advance-Moved t p q next moved (subst (λ g. misfits g t ≡ 0) (sym a.flags_agree) one) in
    let n = subst (λ g. Moved g p t q next) a.flags_agree m in
    record {
      flags_agree = n.same_flags;
      jobs_agree =
          omega (arith, a.jobs_agree, n.jobs_move, total-set (jobs_counted f) ts i t next at);
      bytes_agree =
          omega (arith, a.bytes_agree, n.bytes_move, total-set (bytes_counted f) ts i t next at);
      all_placed = omega (arith, a.all_placed, n.placed, total-set (misfits f) ts i t next at);
      same_jobs = omega (arith, a.same_jobs, n.same_job, total-set (job_of f) ts i t next at);
      same_sizes = omega (arith, a.same_sizes, n.same_bytes, total-set (bytes_of f) ts i t next at);
    }

none_begun :
    (w : Thread → ℕ)
    → ((i : ℕ) (x : Transfer) → w (i, x, begun) ≡ 0)
    → (i : ℕ) (xs : List Transfer) → total w (launched_from i xs) ≡ 0
unfolding launched_from
none_begun w zero_at i [] = refl
none_begun w zero_at i (x ∷ xs) = omega (arith, zero_at i x, none_begun w zero_at (suc i) xs)

launched-Agrees :
    (xs : List Transfer) (p : Producer)
    → Agrees p.f p.tot p.tot_bytes
        (total (job_of p.f) (launched_from 0 xs))
        (total (bytes_of p.f) (launched_from 0 xs))
        p
        (launched_from 0 xs)
launched-Agrees xs p = record {
  flags_agree = refl;
  jobs_agree = omega (arith, none_begun (jobs_counted p.f) (λ i x. refl) 0 xs);
  bytes_agree = omega (arith, none_begun (bytes_counted p.f) (λ i x. refl) 0 xs);
  all_placed = none_begun (misfits p.f) (λ i x. refl) 0 xs;
  same_jobs = refl;
  same_sizes = refl;
}

abbrev is_over : Thread → Bool
is_over (i, x, over r) = true
is_over (i, x, _) = false

abbrev pub all_over : List Thread → Bool
all_over [] = true
all_over (t ∷ ts) = is_over t && all_over ts

over-totals :
    (f : Flags) (us : List Thread)
    → all_over us ≡ true
    → total (misfits f) us ≡ 0
    → (total (jobs_counted f) us ≡ total (job_of f) us)
      × (total (bytes_counted f) us ≡ total (bytes_of f) us)
over-totals f [] h a = (refl, refl)
over-totals f ((i, x, over (took d)) ∷ us) h a = ground (arith, over-totals f us)
over-totals f ((i, x, over (failed e)) ∷ us) h a = ground (arith, over-totals f us)
over-totals f ((i, x, _) ∷ us) h a = absurd (ground arith)

-- The jobs one after another.
job-works :
    (f : Flags) (i : ℕ) (x : Transfer) (p : Producer)
    → p.f ≡ f
    → ((job i x p).0.f ≡ f)
      × ((job i x p).0.tot ≡ job_of f (i, x, begun) + p.tot)
      × ((job i x p).0.tot_bytes ≡ bytes_of f (i, x, begun) + p.tot_bytes)
unfolding job
job-works f i x p e = ground arith

run_jobs-totals :
    (f : Flags) (i : ℕ) (xs : List Transfer) (p : Producer)
    → p.f ≡ f
    → ((run_jobs i xs p).f ≡ f)
      × ((run_jobs i xs p).tot ≡ total (job_of f) (launched_from i xs) + p.tot)
      × ((run_jobs i xs p).tot_bytes ≡ total (bytes_of f) (launched_from i xs) + p.tot_bytes)
unfolding run_jobs launched_from
run_jobs-totals f i [] p e = (e, omega arith, omega arith)
run_jobs-totals f i (x ∷ xs) p e =
    let (same, jobs, bytes) = job-works f i x p e in
    let (later, more_jobs, more_bytes) = run_jobs-totals f (suc i) xs (job i x p).0 same in
    (later, omega (arith, jobs, more_jobs), omega (arith, bytes, more_bytes))

same_producer : (p q : Producer) → p.f ≡ q.f → p.tot ≡ q.tot → p.tot_bytes ≡ q.tot_bytes → p ≡ q
same_producer p q e1 e2 e3 = cc

-- What holds of every state that the operations of jobs can come to.
pub run_threads-Agrees :
    (schedule : List ℕ) (xs : List Transfer) (p q : Producer) (us : List Thread)
    → run_threads advance schedule p (launched_from 0 xs) ≡ some (q, us)
    → Agrees p.f p.tot p.tot_bytes
        (total (job_of p.f) (launched_from 0 xs))
        (total (bytes_of p.f) (launched_from 0 xs))
        q
        us
run_threads-Agrees schedule xs p q us h =
    let all_jobs = total (job_of p.f) (launched_from 0 xs) in
    let all_bytes = total (bytes_of p.f) (launched_from 0 xs) in
    run_threads-keeps advance (Agrees p.f p.tot p.tot_bytes all_jobs all_bytes)
      (step-Agrees p.f p.tot p.tot_bytes all_jobs all_bytes) schedule p (launched_from 0 xs) q us h
      (launched-Agrees xs p)

-- Whatever order the operations of some jobs come in, when all have returned the producer is as after
-- the same jobs one after another: so are its totals, and what `String` tells.
pub run_threads-run_jobs :
    (schedule : List ℕ) (xs : List Transfer) (p : Producer) {q : Producer} {us : List Thread}
    → run_threads advance schedule p (launched_from 0 xs) ≡ some (q, us)
    → all_over us ≡ true
    → q ≡ run_jobs 0 xs p
run_threads-run_jobs schedule xs p {q} {us} h done =
    let a = run_threads-Agrees schedule xs p q us h in
    let (same, jobs, bytes) = run_jobs-totals p.f 0 xs p refl in
    let (counted, sizes) = over-totals p.f us done a.all_placed in
    same_producer q (run_jobs 0 xs p) (a.flags_agree ∙ sym same)
      (omega (arith, a.jobs_agree, a.same_jobs, jobs, counted))
      (omega (arith, a.bytes_agree, a.same_sizes, bytes, sizes))
