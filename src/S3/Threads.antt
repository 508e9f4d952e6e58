-- ===== src/S3/Threads.antt =====
-- s3/job.go: several `Job` goroutines of one producer, interleaved at the atomic totals that they share.
use plt.Base.{
  ℕ, suc, ◌+◌, ◌≡◌, Bool, true, false, not, ◌&&◌, ◌||◌, Option, none, some, List, [], ◌∷◌, arith,
  ltb, if◌then◌else◌, is_empty,
}
use plt.Loadgen.Runner.{Err}
use plt.S3.Job.{Flags, Producer, Transfer, Result, took, failed, download, upload}

-- Before the transfer, before the count of the job, and returned.
pub data Stage : Type 0 where
  begun arrived : Stage
  over : Result → Stage

-- The job's index, what its transfer meets, and its stage.
abbrev pub Thread : Type 0
Thread = ℕ × Transfer × Stage

-- The transfer adds its bytes at its end, in one operation.
unfoldable pub advance : Thread → Producer → Option (Producer × Thread)
unfolding download upload
advance (i, x, begun) p =
    let (q, failure) = if is_empty p.f.upload then download i x p else upload x p in
    elim failure [ some e ↦ some (q, (i, x, over (failed e))) | none ↦ some (q, (i, x, arrived)) ]
advance (i, x, arrived) p = some (record p { tot = suc p.tot }, (i, x, over (took x.elapsed)))
advance (i, x, over r) p = none

-- The jobs from an index on.
unfoldable pub launched_from : ℕ → List Transfer → List Thread
launched_from i [] = []
launched_from i (x ∷ xs) = (i, x, begun) ∷ launched_from (suc i) xs

-- A transfer works if the service does it and the local file, where one is needed, is there.
abbrev pub is_file_needed : Flags → ℕ → Bool
is_file_needed f i = not (is_empty f.upload) || (not (ltb 0 i) && not (is_empty f.save))

abbrev is_none : Option Err → Bool
is_none none = true
is_none (some e) = false

abbrev pub works : Flags → ℕ → Transfer → Bool
works f i x = is_none x.failure && (is_none x.file || not (is_file_needed f i))

-- What a transfer adds to the totals, in the end.
abbrev pub job_of : Flags → Thread → ℕ
job_of f (i, x, st) = if works f i x then 1 else 0

abbrev pub bytes_of : Flags → Thread → ℕ
bytes_of f (i, x, st) = if works f i x && is_empty f.upload then x.bytes else 0

-- What it has added so far.
abbrev pub jobs_counted : Flags → Thread → ℕ
jobs_counted f (i, x, over (took d)) = 1
jobs_counted f (i, x, _) = 0

abbrev pub bytes_counted : Flags → Thread → ℕ
bytes_counted f (i, x, begun) = 0
bytes_counted f (i, x, over (failed e)) = 0
bytes_counted f (i, x, _) = if is_empty f.upload then x.bytes else 0

-- A thread beyond a transfer that does not work, or failed with one that does.
abbrev pub misfits : Flags → Thread → ℕ
misfits f (i, x, begun) = 0
misfits f (i, x, over (failed e)) = if works f i x then 1 else 0
misfits f (i, x, _) = if works f i x then 0 else 1

pub record Moved (f : Flags) (p : Producer) (t : Thread) (q : Producer) (next : Thread)
    : Type 0 where
  pub same_flags : q.f ≡ f
  pub jobs_move : q.tot + jobs_counted f t ≡ p.tot + jobs_counted f next
  pub bytes_move : q.tot_bytes + bytes_counted f t ≡ p.tot_bytes + bytes_counted f next
  pub placed : misfits f next ≡ 0
  pub same_job : job_of f next ≡ job_of f t
  pub same_bytes : bytes_of f next ≡ bytes_of f t

pub advance-Moved :
    (t : Thread) (p q : Producer) (next : Thread)
    → advance t p ≡ some (q, next)
    → misfits p.f t ≡ 0
    → Moved p.f p t q next
unfolding advance
advance-Moved (i, x, begun) p q next h a = record {
  same_flags = ground arith;
  jobs_move = ground arith;
  bytes_move = ground arith;
  placed = ground arith;
  same_job = ground arith;
  same_bytes = ground arith;
}
advance-Moved (i, x, arrived) p q next h a = record {
  same_flags = ground arith;
  jobs_move = ground arith;
  bytes_move = ground arith;
  placed = ground arith;
  same_job = ground arith;
  same_bytes = ground arith;
}
advance-Moved (i, x, over r) p q next h a = absurd (ground arith)
