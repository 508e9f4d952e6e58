-- ===== src/Fasthttp/Threads.antt =====
-- fasthttp/job.go: several `Job` goroutines of one producer, interleaved at the operations that they
-- share: the response's body comes into its buffer, the mutex is taken, the response is counted, and
-- the mutex is given back.
use plt.Base.{ℕ, Bool, true, false, Option, none, some, List, map, if◌then◌else◌, Text}
use plt.Fasthttp.Job.{
  Producer, Exchange, Result, took, failed, overwrite, update, count_response, request_counts,
}

-- Where a goroutine stands: before its request, waiting for the mutex, holding it, holding it with the
-- response counted, or returned.
pub data Stage : Type 0 where
  begun arrived counting counted : Stage
  over : Result → Stage

abbrev pub Thread : Type 0
Thread = Exchange × Stage

-- The producer and its mutex.
pub record Shared : Type 0 where
  pub producer : Producer
  pub locked : Bool

-- The body is read into the response's pooled buffer.
unfoldable pub receive_body : Exchange → Producer → Producer
receive_body x p = record p {
  buffers = update x.buffer (overwrite (p.buffers x.buffer) x.body) p.buffers;
}

-- The next operation; `none` where the goroutine waits or has returned. The buffer is the response's
-- until the goroutine returns, so `count_response` finds in it the body that it would read.
unfoldable pub advance : Thread → Shared → Option (Shared × Thread)
unfolding receive_body
advance (x, begun) s = elim x.prepare [
  | some e ↦ some (s, (x, over (failed e)))
  | none ↦ elim x.failure [
    | some e ↦ some (s, (x, over (failed e)))
    | none ↦ some (record s { producer = receive_body x s.producer }, (x, arrived))
  ]
]
advance (x, arrived) s = if s.locked then none else some (record s { locked = true }, (x, counting))
advance (x, counting) s = some (record s { producer = count_response x s.producer }, (x, counted))
advance (x, counted) s = some (record s { locked = false }, (x, over (took x.elapsed)))
advance (x, over r) s = none

abbrev pub launched : List Exchange → List Thread
launched = map (λ x. (x, begun))

abbrev pub unlocked : Producer → Shared
unlocked p = record { producer = p; locked = false }

-- `RequestCounts` waits while a job holds the mutex.
unfoldable pub snapshot : Shared → Option (List (Text × ℕ))
snapshot s = if s.locked then none else some (request_counts s.producer)
