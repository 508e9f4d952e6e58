-- ===== src/Fasthttp/Alone.antt =====
-- fasthttp/job.go: a `Job` goroutine alone, operation by operation, is `Job`.
use mathlib.Core.Path.{fun_ext}
use plt.Base.{ℕ, ◌≡◌, refl, ap, some, List, [], ◌∷◌, ◌++◌, arith, if◌then◌else◌, Text, drop, length}
use plt.Base.Threads.{run_threads, step_thread}
use plt.Fasthttp.Job.{
  Producer, Exchange, overwrite, update, peek_slice, sample_of, count_response, job,
}
use plt.Fasthttp.History.{is_answered}
use plt.Fasthttp.Threads.{over, advance, launched, unlocked, receive_body}

drop-length : (xs ys : Text) → drop (length xs) (xs ++ ys) ≡ ys
drop-length [] ys = refl
drop-length (x ∷ xs) ys = drop-length xs ys

overwrite-overwrite : (old new : Text) → overwrite (overwrite old new) new ≡ overwrite old new
unfolding overwrite
overwrite-overwrite old new = ap (◌++◌ new) (drop-length new (drop (length new) old))

update_at : (k : ℕ) (t : Text) (m : ℕ → Text) → update k t m k ≡ t
unfolding update
update_at k t m = ground arith

update-update : (k : ℕ) (t u : Text) (m : ℕ → Text) → update k t (update k u m) ≡ update k t m
unfolding update
update-update k t u m = fun_ext (λ j. ground arith)

sample_of-overwrite :
    (x : Exchange) (old : Text) → sample_of x (overwrite old x.body) ≡ sample_of x old
unfolding sample_of peek_slice
sample_of-overwrite x old = rw (overwrite-overwrite old x.body) refl

-- The body that was received is the body that is counted.
count_response-receive_body :
    (x : Exchange) (p : Producer) → count_response x (receive_body x p) ≡ count_response x p
unfolding count_response receive_body
count_response-receive_body x p =
    let old = p.buffers x.buffer in
    let now = overwrite old x.body in
    rw
      (
        update_at x.buffer now p.buffers,
        sample_of-overwrite x old,
        overwrite-overwrite old x.body,
        update-update x.buffer (sample_of x old).1 now p.buffers,
        update-update x.buffer now now p.buffers,
      )
      refl

-- The operations of a job alone.
abbrev pub operations : Exchange → List ℕ
operations x = if is_answered x then 0 ∷ 0 ∷ 0 ∷ 0 ∷ [] else 0 ∷ []

-- A job that no other disturbs returns what `Job` returns, and leaves the producer as `Job` does, with the
-- mutex free.
pub run_threads-job :
    (x : Exchange) (p : Producer)
    → run_threads advance (operations x) (unlocked p) (launched (x ∷ []))
      ≡ some (unlocked (job x p).0, (x, over (job x p).1) ∷ [])
unfolding run_threads step_thread advance job
run_threads-job x p = ground (arith, count_response-receive_body x p)
