-- ===== src/Tests/Rounds.antt =====
-- Rounds of the live ui during runs over nethttp: between two requests, and after one that broke off.
use plt.Base.{ℕ, ◌≤◌, ◌≡◌, refl, ◌⊎◌, true, none, some, List, [], ◌∷◌, pos}
use plt.Loadgen.LiveUi.{Reading}
use plt.Loadgen.State.{checked}
use plt.Nethttp.History.{told, answers}
use plt.Nethttp.Interface.{http_producer}
use plt.Nethttp.State.{at_eof, broken}
use plt.Nethttp.Threads as Threads
use plt.Tests.Loadgen.{samples, two_requests}
use plt.Tests.Nethttp.{answer, fresh}
use plt.Tests.Whole.{Run, go, half, under_way, state_after}
use plt.Whole.{Move, in_load, launch, in_call, join, started}
use plt.Whole.Interleaved.{threads, requests}
use plt.Whole.Live.{read_round, http_round}
use plt.Whole.Moves.{Arrives-run}
use plt.Whole.Report.{successes, failures}

http_round_example :
    ((half.producer.locked ≡ true)
      × (read_round samples (http_producer samples) 9 4 (pos 1) (pos 2) half ≡ none))
    ⊎ ((r : Reading) × (n : ℕ) × (read_round samples
            (http_producer samples)
            9
            4
            (pos 1)
            (pos 2)
            half
          ≡ some r)
        × (told 200 r.counts ≡ some n)
        × (n ≤ answers 200 (requests half.calls))
        × (r.hist_count ≤ successes (http_producer samples) (threads half.calls))
        × (r.err_cnt ≤ failures (http_producer samples) (threads half.calls)))
unfolding state_after
http_round_example =
    http_round samples 200 {lf = two_requests} {p = fresh} {s = half} refl refl refl
      (Arrives-run samples (http_producer samples) under_way {t = half} started refl) 9 4 (pos 1)
      (pos 2)

-- The first request breaks off within its sample.
abbrev to_break : List (Move (http_producer samples))
to_break =
    go
    ∷ go
    ∷ launch (answer 200 (broken 3))
    ∷ in_load (checked (pos 1))
    ∷ in_call 0
    ∷ in_call 0
    ∷ in_call 0
    ∷ in_call 0
    ∷ []

abbrev stuck : Run
stuck = state_after to_break

-- A second request is begun.
abbrev onwards : List (Move (http_producer samples))
onwards = join 0 ∷ go ∷ go ∷ launch (answer 404 at_eof) ∷ in_call 1 ∷ []

abbrev frozen : Run
frozen = state_after (
    go
    ∷ go
    ∷ launch (answer 200 (broken 3))
    ∷ in_load (checked (pos 1))
    ∷ in_call 0
    ∷ in_call 0
    ∷ in_call 0
    ∷ in_call 0
    ∷ onwards)
