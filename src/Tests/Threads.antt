-- ===== src/Tests/Threads.antt =====
-- nethttp with two jobs at a time: the second is counted while the first reads the sample.
use plt.Base.{
  ℕ, ◌+◌, ◌*◌, ◌<◌, ◌≡◌, refl, Option, none, some, List, [], ◌∷◌, ℤ, length, total, ◌==◌,
  if◌then◌else◌,
}
use plt.Base.Dict.{lookup}
use plt.Base.Threads.{run_threads, step_thread}
use plt.Nethttp.State.{get_header, Producer, Exchange, at_eof, broken}
use plt.Nethttp.Job.{job, trace, trace_event, note_upstream, read_sample, bump, drain}
use plt.Nethttp.Atoi.{atoi}
use plt.Nethttp.Setup.{init_producer}
use plt.Nethttp.Threads.{Thread, begun, launched, step_at, interleave, advance, advance_thread, ask}
use plt.Nethttp.Interleavings.{holds, pending, lost, has_sample}
use plt.Nethttp.Concurrent.{interleave-exclusive}
use plt.Nethttp.Schedules.{interleave_progress}
use plt.Nethttp.Alone.{alone, result_of, alone-job}
use plt.Tests.Loadgen.{samples}
use plt.Tests.Nethttp.{answer, fresh}

abbrev two : List Exchange
two = answer 200 at_eof ∷ answer 200 at_eof ∷ []

abbrev or_fresh : Option (Producer (List ℤ) × List Thread) → Producer (List ℤ) × List Thread
or_fresh none = (fresh, [])
or_fresh (some s) = s

abbrev half : List ℕ
half = 0 ∷ 1 ∷ 0 ∷ 1 ∷ 0 ∷ []

abbrev after : List ℕ → Producer (List ℤ) × List Thread
after schedule = or_fresh (interleave samples schedule fresh (launched two))

interleave-exclusive_example :
    (total holds (after half).1 ≡ (if (after half).0.locked then 1 else 0))
    × (total (pending 200) (after half).1
          + total (lost 200) (after half).1
          + has_sample (lookup 200 (after half).0.resp_body)
        ≡ (if (after half).0.resp_code 200 == 0 then 0 else 1))
unfolding init_producer run_threads step_thread advance_thread advance ask trace trace_event
    note_upstream read_sample bump drain atoi get_header
interleave-exclusive_example =
    interleave-exclusive samples half two fresh 200 {q = (after half).0} {us = (after half).1} refl
      refl refl refl

interleave_progress_example :
    (length half < 5 * length two)
    × ((i : ℕ) × (next : Producer (List ℤ) × List Thread) × (step_at samples i
            (after half).0
            (after half).1
          ≡ some next))
unfolding init_producer run_threads step_thread advance_thread advance ask trace trace_event
    note_upstream read_sample bump drain atoi get_header
interleave_progress_example =
    interleave_progress samples half two fresh {q = (after half).0} {us = (after half).1} refl refl
      (λ code. refl) refl refl refl

alone-job_example :
    let (q, st) = alone samples 5 (answer 200 (broken 3)) begun fresh in
    (q ≡ (job samples (answer 200 (broken 3)) fresh).0)
    × (result_of st ≡ (job samples (answer 200 (broken 3)) fresh).1)
unfolding init_producer
alone-job_example = alone-job samples (answer 200 (broken 3)) fresh refl
