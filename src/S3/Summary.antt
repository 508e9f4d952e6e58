-- ===== src/S3/Summary.antt =====
-- s3/job.go: the summary that `String` gives; its floating-point values are shown by their operands.
use plt.Base.{ℕ, suc, ◌<◌, ◌≡◌, Option, none, some, List, [], ◌∷◌, arith, ◌==◌, if◌then◌else◌}
use plt.S3.Job.{Producer, Transfer, job, job_totals}

-- Bytes, jobs, and nanoseconds since the start: the total is the bytes, the average divides them by the
-- jobs, and the speed by the time.
pub record Summary : Type 0 where
  pub bytes : ℕ
  pub jobs : ℕ
  pub elapsed : ℕ

-- `none` is the empty text.
unfoldable pub summary : ℕ → Producer → Option Summary
summary elapsed p =
    if p.tot_bytes == 0
    then none
    else some (record { bytes = p.tot_bytes; jobs = p.tot; elapsed = elapsed })

-- The jobs one after another, with the index of each.
unfoldable pub run_jobs : ℕ → List Transfer → Producer → Producer
run_jobs i [] p = p
run_jobs i (x ∷ xs) p = run_jobs (suc i) xs (job i x p).0

bytes_counted :
    (i : ℕ) (xs : List Transfer) (p : Producer)
    → (0 < p.tot_bytes → 0 < p.tot)
    → 0 < (run_jobs i xs p).tot_bytes
    → 0 < (run_jobs i xs p).tot
unfolding run_jobs
bytes_counted i [] p h = h
bytes_counted i (x ∷ xs) p h =
    bytes_counted (suc i) xs (job i x p).0 (λ b. ground (arith, job_totals i x p))

-- A producer that starts with nothing counted never divides by zero for its average: after any jobs
-- a summary that is not empty has a positive number of jobs.
pub summary_average :
    (elapsed : ℕ) (xs : List Transfer) (p : Producer) {s : Summary}
    → p.tot_bytes ≡ 0
    → summary elapsed (run_jobs 0 xs p) ≡ some s
    → (0 < s.jobs) × (0 < s.bytes) × (s.jobs ≡ (run_jobs 0 xs p).tot)
unfolding summary
summary_average elapsed xs p start h =
    ground (arith, bytes_counted 0 xs p (λ b. absurd (omega (arith, b, start))))
