-- ===== src/Nethttp/Schedules.antt =====
-- nethttp/job.go: `Job` goroutines of a producer do not wait for each other for ever.
use plt.Base.{
  ℕ, suc, ◌*◌, ◌<◌, ◌≡◌, refl, Bool, true, false, not, ◌&&◌, ◌||◌, some, List, [], ◌∷◌, arith,
  get_elem?, set, length, total, total-erase_at, if◌then◌else◌, Option-cases, Bool-cases, inl, inr,
}
use plt.Base.Threads.{run_threads-bounded, step_thread-moves}
use plt.Loadgen.Runner.{Dynhist}
use plt.Nethttp.State.{Producer, Exchange}
use plt.Nethttp.Counts.{is_none}
use plt.Nethttp.Threads.{
  Stage, Thread, begun, arrived, locking, sampling, copying, kept, over, ask, advance,
  advance_thread, step_at, interleave, launched,
}
use plt.Nethttp.Interleavings.{holds, advance_thread_inversion}
use plt.Nethttp.Concurrent.{all_returned, interleave-exclusive}

-- The operations that a thread has before it, at most.
abbrev pub left : Thread → ℕ
left (x, begun) = 5
left (x, arrived c) = 4
left (x, locking c) = 3
left (x, sampling c) = 2
left (x, copying c) = 1
left (x, _) = 0

abbrev keeps_mutex : Thread → Bool
keeps_mutex (x, kept e) = true
keeps_mutex (x, _) = false

abbrev pub none_keeps : List Thread → Bool
none_keeps [] = true
none_keeps (t ∷ ts) = not (keeps_mutex t) && none_keeps ts

-- The thread does not wait, where the mutex is held or free.
abbrev pub can_move : Bool → Thread → Bool
can_move locked (x, locking c) = not locked
can_move locked (x, kept e) = false
can_move locked (x, over r) = false
can_move locked (x, _) = true

abbrev pub some_can_move : Bool → List Thread → Bool
some_can_move locked [] = false
some_can_move locked (t ∷ ts) = can_move locked t || some_can_move locked ts

pub first_can_move :
    (locked : Bool) (ts : List Thread)
    → some_can_move locked ts ≡ true
    → (i : ℕ) × (t : Thread) × (get_elem? ts i ≡ some t) × (can_move locked t ≡ true)
first_can_move locked [] h = absurd (ground arith)
first_can_move locked (t ∷ ts) h = elim (Bool-cases (can_move locked t)) [
  | inl e ↦ (0, t, refl, e)
  | inr e ↦ let (i, u, at, moves) = first_can_move locked ts (ground arith) in (suc i, u, at, moves)
]

pub some_can_move_free :
    (ts : List Thread) → all_returned ts ≡ false → some_can_move false ts ≡ true
some_can_move_free [] h = absurd (ground arith)
some_can_move_free ((x, begun) ∷ ts) h = refl
some_can_move_free ((x, arrived c) ∷ ts) h = refl
some_can_move_free ((x, locking c) ∷ ts) h = refl
some_can_move_free ((x, sampling c) ∷ ts) h = refl
some_can_move_free ((x, copying c) ∷ ts) h = refl
some_can_move_free ((x, kept e) ∷ ts) h = some_can_move_free ts h
some_can_move_free ((x, over r) ∷ ts) h = some_can_move_free ts h

pub some_can_move_held :
    (ts : List Thread) → 0 < total holds ts → none_keeps ts ≡ true → some_can_move true ts ≡ true
some_can_move_held [] h free = absurd (omega arith)
some_can_move_held ((x, begun) ∷ ts) h free = refl
some_can_move_held ((x, arrived c) ∷ ts) h free = refl
some_can_move_held ((x, locking c) ∷ ts) h free = some_can_move_held ts (omega arith) free
some_can_move_held ((x, sampling c) ∷ ts) h free = refl
some_can_move_held ((x, copying c) ∷ ts) h free = refl
some_can_move_held ((x, kept e) ∷ ts) h free = absurd (ground arith)
some_can_move_held ((x, over r) ∷ ts) h free = some_can_move_held ts (omega arith) free

module _ (dh : Dynhist) where
  open dh use {Collector}

  advance_enabled :
      (x : Exchange) (st : Stage) (p : Producer Collector)
      → can_move p.locked (x, st) ≡ true
      → is_none (advance dh x st p) ≡ false
  unfolding advance
  advance_enabled x begun p h = refl
  advance_enabled x (arrived c) p h = ground arith
  advance_enabled x (locking c) p h = ground arith
  advance_enabled x (sampling c) p h = ground arith
  advance_enabled x (copying c) p h = refl
  advance_enabled x (kept e) p h = absurd (ground arith)
  advance_enabled x (over r) p h = absurd (ground arith)

  pub advance_moves :
      (x : Exchange) (st : Stage) (p : Producer Collector)
      → can_move p.locked (x, st) ≡ true
      → (r : Producer Collector × Stage) × (advance dh x st p ≡ some r)
  advance_moves x st p h = elim (Option-cases (advance dh x st p)) [
    | inr found ↦ found
    | inl e ↦ absurd (ground (arith, advance_enabled x st p h, e))
  ]

  pub advance-left :
      (x : Exchange) (st : Stage) (p q : Producer Collector) (next : Stage)
      → advance dh x st p ≡ some (q, next)
      → left (x, next) < left (x, st)
  unfolding advance ask
  advance-left x begun p q next h = ground arith
  advance-left x (arrived c) p q next h = ground arith
  advance-left x (locking c) p q next h = ground arith
  advance-left x (sampling c) p q next h = ground arith
  advance-left x (copying c) p q next h = ground arith
  advance-left x (kept e) p q next h = absurd (ground arith)
  advance-left x (over r) p q next h = absurd (ground arith)

  pub thread-left :
      (t : Thread) (p q : Producer Collector) (next : Thread)
      → advance_thread dh t p ≡ some (q, next)
      → left next < left t
  thread-left (x, st) p q next h =
      let (later, moved, same) = advance_thread_inversion dh x st p q next h in
      rw same (advance-left x st p q later moved)

  -- A thread that does not wait takes its next operation.
  pub thread_moves :
      (p : Producer Collector) (ts : List Thread)
      → some_can_move p.locked ts ≡ true
      → (i : ℕ) × (t : Thread) × (r : Producer Collector × Thread) × (get_elem? ts i ≡ some t)
        × (advance_thread dh t p ≡ some r)
  unfolding advance_thread
  thread_moves p ts h =
      let (i, (x, st), at, free) = first_can_move p.locked ts h in
      let (r, e) = advance_moves x st p free in (i, (x, st), (r.0, (x, r.1)), at, ground (arith, e))

pub left-launched : (xs : List Exchange) → total left (launched xs) ≡ 5 * length xs
left-launched [] = refl
left-launched (x ∷ xs) = omega (arith, left-launched xs)

module _ (dh : Dynhist) where
  open dh use {Collector}

  -- While a job launched on a producer with a free mutex, no count and no sample has not returned, and
  -- none has kept the mutex after its return, fewer operations than five per job have come in all,
  -- and some job can take the next one.
  pub interleave_progress :
      (schedule : List ℕ) (xs : List Exchange) (p : Producer Collector) {q : Producer Collector}
      {us : List Thread}
      → p.locked ≡ false
      → p.resp_body ≡ []
      → ((code : ℕ) → p.resp_code code ≡ 0)
      → interleave dh schedule p (launched xs) ≡ some (q, us)
      → none_keeps us ≡ true
      → all_returned us ≡ false
      → (length schedule < 5 * length xs)
        × ((i : ℕ) × (next : Producer Collector × List Thread) × (step_at dh i q us ≡ some next))
  interleave_progress schedule xs p {q = q} {us = us} free empty zero_counts run kept_by_none
        open_jobs =
      let held : total holds us ≡ (if q.locked then 1 else 0) =
        (interleave-exclusive dh schedule xs p 0 {q = q} {us = us} free empty (zero_counts 0)
          run).0 in
      let moves : some_can_move q.locked us ≡ true = elim (Bool-cases q.locked) [
        | inl e ↦ rw e (some_can_move_held us (ground arith) kept_by_none)
        | inr e ↦ rw e (some_can_move_free us open_jobs)
      ] in
      let (i, t, r, at, moved) = thread_moves dh q us moves in
      (
        omega (
          arith,
          run_threads-bounded (advance_thread dh) left (thread-left dh) schedule p (launched xs) q
              us run,
          left-launched xs,
          thread-left dh t q r.0 r.1 moved,
          total-erase_at left us i t at,
        ),
        (i, (r.0, set us i r.1), step_thread-moves (advance_thread dh) i q us t r at moved),
      )
