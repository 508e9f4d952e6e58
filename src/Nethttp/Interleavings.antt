-- ===== src/Nethttp/Interleavings.antt =====
-- nethttp/job.go: what every interleaving of `Job` goroutines keeps true of the counters, the samples and
-- the mutex.
use plt.Base.{
  refl, [], ◌∷◌, ℕ, ◌+◌, ◌≡◌, sym, ◌&&◌, Option, none, some, List, arith, get_elem?, set, erase_at,
  total, total-set, total-erase_at, ◌==◌, if◌then◌else◌, Text, Option-cases, inl, inr,
}
use plt.Base.Dict.{lookup, lookup-insert}
use plt.Base.Threads.{run_threads-keeps}
use plt.Loadgen.Runner.{Dynhist, Err}
use plt.Nethttp.State.{Producer, Exchange, Result}
use plt.Nethttp.Job.{Clocks, read_sample, sample_text, bump, drain, trace}
use plt.Nethttp.Counts.{answered, is_none, is_took, trace-Same, upstream-Same}
use plt.Nethttp.Threads.{
  Stage, Thread, begun, arrived, locking, sampling, copying, kept, over, ask, advance,
  advance_thread, interleave,
}

-- The response's status has been counted.
abbrev pub counted : ℕ → Thread → ℕ
counted code (x, begun) = 0
counted code (x, arrived c) = 0
counted code (x, _) = if answered x && x.response.status == code then 1 else 0

-- The thread holds the mutex.
abbrev pub holds : Thread → ℕ
holds (x, sampling c) = 1
holds (x, kept e) = 1
holds (x, _) = 0

-- The thread has still to store the sample of a status.
abbrev pub pending : ℕ → Thread → ℕ
pending code (x, locking c) = if x.response.status == code then 1 else 0
pending code (x, sampling c) = if x.response.status == code then 1 else 0
pending code (x, _) = 0

-- The thread has returned without the sample of a status, and with the mutex.
abbrev pub lost : ℕ → Thread → ℕ
lost code (x, kept e) = if x.response.status == code then 1 else 0
lost code (x, _) = 0

-- The sample of a status fell to the thread, which has not stored it.
abbrev pub charged : ℕ → Thread → ℕ
charged code t = pending code t + lost code t

pub total-charged :
    (code : ℕ) (ts : List Thread)
    → total (charged code) ts ≡ total (pending code) ts + total (lost code) ts
total-charged code [] = refl
total-charged code (t ∷ ts) = omega (arith, total-charged code ts)

-- The thread stands at a response that did not come.
abbrev pub misplaced : Thread → ℕ
misplaced (x, arrived c) =
    if is_none x.new_request && is_none x.prepare && is_none x.failure then 0 else 1
misplaced (x, _) = 0

abbrev pub returned : Thread → ℕ
returned (x, over r) = if is_took r then 1 else 0
returned (x, _) = 0

abbrev pub has_sample : Option Text → ℕ
has_sample none = 0
has_sample (some _) = 1

-- The producer against what its threads have done: `before` is the total at the start.
pub record Agrees {C : Type 0} (p : Producer C) (code n held waiting misfits done : ℕ)
    : Type 0 where
  pub counts : p.resp_code code ≡ n
  pub lock : (if p.locked then 1 else 0) ≡ held
  pub samples : waiting + has_sample (lookup code p.resp_body) ≡ (if n == 0 then 0 else 1)
  pub places : misfits ≡ 0
  pub totals : p.total ≡ done

total_split :
    (w : Thread → ℕ) (ts : List Thread) (i : ℕ) (old : Thread)
    → get_elem? ts i ≡ some old
    → total w ts ≡ w old + total w (erase_at ts i)
total_split w ts i old at = omega (arith, total-erase_at w ts i old at)

total_put :
    (w : Thread → ℕ) (ts : List Thread) (i : ℕ) (old new : Thread)
    → get_elem? ts i ≡ some old
    → total w (set ts i new) ≡ w new + total w (erase_at ts i)
total_put w ts i old new at =
    omega (arith, total-erase_at w ts i old at, total-set w ts i old new at)

module _ {C : Type 0} where
  pub Agrees-change :
      (p : Producer C) (code n held waiting misfits done n' held' waiting' misfits' done' : ℕ)
      → n ≡ n'
      → held ≡ held'
      → waiting ≡ waiting'
      → misfits ≡ misfits'
      → done ≡ done'
      → Agrees p code n held waiting misfits done
      → Agrees p code n' held' waiting' misfits' done'
  Agrees-change p code n h w m d n' h' w' m' d' e1 e2 e3 e4 e5 a = record {
    counts = ground (arith, a.counts);
    lock = ground (arith, a.lock);
    samples = ground (arith, a.samples);
    places = ground (arith, a.places);
    totals = ground (arith, a.totals);
  }

  drain-keeps :
      (c : Clocks) (x : Exchange) (p : Producer C)
      → ((drain c x p).0.resp_code ≡ p.resp_code)
        × ((drain c x p).0.locked ≡ p.locked)
        × ((drain c x p).0.resp_body ≡ p.resp_body)
        × ((drain c x p).0.total ≡ (if is_took (drain c x p).1 then 1 else 0) + p.total)
  unfolding drain
  drain-keeps c x p = ground arith

module _ (dh : Dynhist) where
  open dh use {Collector}

  -- One thread's step, whatever the others have done.
  abbrev Moves : Exchange → Stage → Type 0
  Moves x st =
      (p : Producer Collector) (code a b c m d : ℕ) (q : Producer Collector) (next : Stage)
      → Agrees p code (counted code (x, st) + a) (holds (x, st) + b) (charged code (x, st) + c)
          (misplaced (x, st) + m) (returned (x, st) + d)
      → advance dh x st p ≡ some (q, next)
      → Agrees q code (counted code (x, next) + a) (holds (x, next) + b)
          (charged code (x, next) + c) (misplaced (x, next) + m) (returned (x, next) + d)

  begun-Moves : (x : Exchange) → Moves x begun
  unfolding advance ask
  begun-Moves x p code a b c m d q next h e =
      let clocks : Clocks = record { dns = 0; conn = 0; tls = 0; download = x.begun } in
      let (cl, traced) = trace dh x.begun x.events clocks p in
      ground
        (arith, trace-Same dh x.begun x.events clocks p, upstream-Same dh x.response.header traced)

  arrived-Moves : (cl : Clocks) (x : Exchange) → Moves x (arrived cl)
  unfolding advance bump
  arrived-Moves cl x p code a b c m d q next h e = ground arith

  locking-Moves : (cl : Clocks) (x : Exchange) → Moves x (locking cl)
  unfolding advance
  locking-Moves cl x p code a b c m d q next h e = ground arith

  sampling-Moves : (cl : Clocks) (x : Exchange) → Moves x (sampling cl)
  unfolding advance
  sampling-Moves cl x p code a b c m d q next h e = ground (
    arith,
    lookup-insert x.response.status code (sample_text x.response (read_sample x.response.content).0)
        p.resp_body,
  )

  copying-Moves : (cl : Clocks) (x : Exchange) → Moves x (copying cl)
  unfolding advance
  copying-Moves cl x p code a b c m d q next h e = ground (arith, drain-keeps cl x p)

  kept-Moves : (e : Err) (x : Exchange) → Moves x (kept e)
  unfolding advance
  kept-Moves err x p code a b c m d q next h e = absurd (ground arith)

  over-Moves : (r : Result) (x : Exchange) → Moves x (over r)
  unfolding advance
  over-Moves r x p code a b c m d q next h e = absurd (ground arith)

  advance-Moves : (x : Exchange) (st : Stage) → Moves x st
  advance-Moves x begun = begun-Moves x
  advance-Moves x (arrived c) = arrived-Moves c x
  advance-Moves x (locking c) = locking-Moves c x
  advance-Moves x (sampling c) = sampling-Moves c x
  advance-Moves x (copying c) = copying-Moves c x
  advance-Moves x (kept e) = kept-Moves e x
  advance-Moves x (over r) = over-Moves r x

  abbrev pub AllAgree : ℕ → ℕ → Producer Collector → List Thread → Type 0
  AllAgree code before p ts =
      Agrees p code (total (counted code) ts) (total holds ts) (total (charged code) ts)
        (total misplaced ts) (total returned ts + before)

  -- A step is a thread's operation, and leaves the other threads alone.
  pub advance_thread_inversion :
      (x : Exchange) (st : Stage) (p q : Producer Collector) (next : Thread)
      → advance_thread dh (x, st) p ≡ some (q, next)
      → (later : Stage) × (advance dh x st p ≡ some (q, later)) × (next ≡ (x, later))
  unfolding advance_thread
  advance_thread_inversion x st p q next h = elim (Option-cases (advance dh x st p)) [
    | inl f ↦ absurd (ground arith)
    | inr ((r, later), f) ↦ (later, ground arith, ground arith)
  ]

  step-AllAgree :
      (code before i : ℕ) (p : Producer Collector) (ts : List Thread) (t : Thread)
      (q : Producer Collector) (next : Thread)
      → get_elem? ts i ≡ some t
      → advance_thread dh t p ≡ some (q, next)
      → AllAgree code before p ts
      → AllAgree code before q (set ts i next)
  step-AllAgree code before i p ts (x, st) q next at h v =
      let (later, moved, same) = advance_thread_inversion x st p q next h in
      let others = erase_at ts i in
      rw same (
        Agrees-change q code _ _ _ _ _ _ _ _ _ _
          (sym (total_put (counted code) ts i (x, st) (x, later) at))
          (sym (total_put holds ts i (x, st) (x, later) at))
          (sym (total_put (charged code) ts i (x, st) (x, later) at))
          (sym (total_put misplaced ts i (x, st) (x, later) at))
          (omega (arith, total_put returned ts i (x, st) (x, later) at))
          (advance-Moves x st p code (total (counted code) others) (total holds others)
            (total (charged code) others) (total misplaced others) (total returned others + before)
            q later
            (Agrees-change p code _ _ _ _ _ _ _ _ _ _ (total_split (counted code) ts i (x, st) at)
              (total_split holds ts i (x, st) at) (total_split (charged code) ts i (x, st) at)
              (total_split misplaced ts i (x, st) at)
              (omega (arith, total_split returned ts i (x, st) at)) v)
            moved))

  pub interleave-AllAgree :
      (schedule : List ℕ) (code before : ℕ) (p : Producer Collector) (ts : List Thread)
      (q : Producer Collector) (us : List Thread)
      → AllAgree code before p ts
      → interleave dh schedule p ts ≡ some (q, us)
      → AllAgree code before q us
  interleave-AllAgree schedule code before p ts q us v h =
      run_threads-keeps (advance_thread dh) (AllAgree code before) (step-AllAgree code before)
        schedule p ts q us h v
