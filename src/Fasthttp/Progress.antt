-- ===== src/Fasthttp/Progress.antt =====
-- fasthttp/job.go: no `Job` goroutine waits for ever, as every path gives the mutex back.

use plt.Base.{
  ℕ, suc, ◌*◌, ◌<◌, ◌≡◌, refl, Bool, true, false, not, some, List, [], ◌∷◌, arith, get_elem?, set,
  length, total, Option-cases, Bool-cases, inl, inr,
}
use plt.Base.Threads.{run_threads, run_threads-bounded, step_thread, step_thread-moves}
use plt.Nethttp.Counts.{is_none}
use plt.Fasthttp.Job.{Producer, Exchange}
use plt.Fasthttp.Threads.{
  Thread, Shared, begun, arrived, counting, counted, over, advance, launched, unlocked,
}
use plt.Fasthttp.Concurrent.{holds, all_over, run_threads-Agrees, part-le}

-- The operations that a thread has before it, at most.
abbrev pub left : Thread → ℕ
left (x, begun) = 4
left (x, arrived) = 3
left (x, counting) = 2
left (x, counted) = 1
left (x, over r) = 0

pub advance-left :
    (t : Thread) (s q : Shared) (next : Thread) → advance t s ≡ some (q, next) → left next < left t
unfolding advance
advance-left (x, begun) s q next h = ground arith
advance-left (x, arrived) s q next h = ground arith
advance-left (x, counting) s q next h = ground arith
advance-left (x, counted) s q next h = ground arith
advance-left (x, over r) s q next h = absurd (ground arith)

left-launched : (xs : List Exchange) → total left (launched xs) ≡ 4 * length xs
left-launched [] = refl
left-launched (x ∷ xs) = omega (arith, left-launched xs)

-- A thread that does not wait, where the mutex is held or free.
abbrev can_move : Bool → Thread → Bool
can_move locked (x, arrived) = not locked
can_move locked (x, over r) = false
can_move locked (x, _) = true

abbrev Movable : Bool → List Thread → Type 0
Movable locked ts = (i : ℕ) × (t : Thread) × (get_elem? ts i ≡ some t) × (can_move locked t ≡ true)

later :
    (locked : Bool) (u : Thread) (ts : List Thread) → Movable locked ts → Movable locked (u ∷ ts)
later locked u ts (i, t, at, free) = (suc i, t, at, free)

movable-free : (ts : List Thread) → all_over ts ≡ false → Movable false ts
movable-free [] h = absurd (ground arith)
movable-free ((x, begun) ∷ ts) h = (0, (x, begun), refl, refl)
movable-free ((x, arrived) ∷ ts) h = (0, (x, arrived), refl, refl)
movable-free ((x, counting) ∷ ts) h = (0, (x, counting), refl, refl)
movable-free ((x, counted) ∷ ts) h = (0, (x, counted), refl, refl)
movable-free ((x, over r) ∷ ts) h = later false (x, over r) ts (movable-free ts h)

movable-held : (ts : List Thread) → 0 < total holds ts → Movable true ts
movable-held [] h = absurd (omega arith)
movable-held ((x, begun) ∷ ts) h = (0, (x, begun), refl, refl)
movable-held ((x, counting) ∷ ts) h = (0, (x, counting), refl, refl)
movable-held ((x, counted) ∷ ts) h = (0, (x, counted), refl, refl)
movable-held ((x, arrived) ∷ ts) h = later true (x, arrived) ts (movable-held ts (omega arith))
movable-held ((x, over r) ∷ ts) h = later true (x, over r) ts (movable-held ts (omega arith))

advance_enabled :
    (t : Thread) (s : Shared) → can_move s.locked t ≡ true → is_none (advance t s) ≡ false
unfolding advance
advance_enabled (x, begun) s h = ground arith
advance_enabled (x, arrived) s h = ground arith
advance_enabled (x, counting) s h = refl
advance_enabled (x, counted) s h = refl
advance_enabled (x, over r) s h = absurd (ground arith)

advance_moves :
    (t : Thread) (s : Shared)
    → can_move s.locked t ≡ true
    → (r : Shared × Thread) × (advance t s ≡ some r)
advance_moves t s h = elim (Option-cases (advance t s)) [
  | inr found ↦ found
  | inl e ↦ absurd (ground (arith, advance_enabled t s h, e))
]

-- While a job has not returned, fewer operations than four per job have come in all, and some job can
-- take the next one, whatever its request meets: no job keeps the mutex.
pub run_threads-progress :
    (schedule : List ℕ) (xs : List Exchange) (p : Producer) {q : Shared} {us : List Thread}
    → run_threads advance schedule (unlocked p) (launched xs) ≡ some (q, us)
    → all_over us ≡ false
    → (length schedule < 4 * length xs)
      × ((i : ℕ) × (next : Shared × List Thread) × (step_thread advance i q us ≡ some next))
run_threads-progress schedule xs p {q} {us} h open_jobs =
    let a = run_threads-Agrees 0 schedule xs p q us h in
    let (i, t, at, free) : Movable q.locked us = elim (Bool-cases q.locked) [
      | inl e ↦ rw e (movable-held us (ground (arith, a.lock_agrees)))
      | inr e ↦ rw e (movable-free us open_jobs)
    ] in
    let (r, moved) = advance_moves t q free in
    (
      omega (
        arith,
        run_threads-bounded advance left advance-left schedule (unlocked p) (launched xs) q us h,
        left-launched xs,
        advance-left t q r.0 r.1 moved,
        part-le left us i t at,
      ),
      (i, (r.0, set us i r.1), step_thread-moves advance i q us t r at moved),
    )
