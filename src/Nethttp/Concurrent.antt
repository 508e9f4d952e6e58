-- ===== src/Nethttp/Concurrent.antt =====
-- nethttp/job.go: several `Job` goroutines of a producer, from their launch to the last return.
use plt.Base.{
  ℕ, ◌+◌, ◌≤◌, ◌≡◌, refl, ap, sym, Bool, true, false, ◌&&◌, some, List, [], ◌∷◌, arith, total,
  get_elem?, set, total-set, ◌==◌, if◌then◌else◌,
}
use plt.Base.Dict.{lookup}
use plt.Base.Threads.{run_threads-keeps}
use plt.Loadgen.Runner.{Dynhist}
use plt.Nethttp.State.{Producer, Exchange}
use plt.Nethttp.Counts.{answered}
use plt.Nethttp.History.{answers, told, told-resp_code}
use plt.Nethttp.Mutex.{request_counts}
use plt.Nethttp.Threads.{
  Thread, begun, arrived, locking, sampling, copying, kept, over, advance_thread, interleave,
  launched,
}
use plt.Nethttp.Interleavings.{
  Agrees, has_sample, counted, holds, pending, lost, charged, total-charged, misplaced, returned,
  advance_thread_inversion, AllAgree, interleave-AllAgree,
}

-- `Job` has returned, with the mutex or without.
abbrev pub has_returned : Thread → Bool
has_returned (x, kept e) = true
has_returned (x, over r) = true
has_returned (x, _) = false

abbrev pub all_returned : List Thread → Bool
all_returned [] = true
all_returned (t ∷ ts) = has_returned t && all_returned ts

abbrev pub asked : ℕ → Thread → ℕ
asked code (x, st) = if answered x && x.response.status == code then 1 else 0

total-launched :
    (w : Thread → ℕ) (xs : List Exchange)
    → ((x : Exchange) → w (x, begun) ≡ 0)
    → total w (launched xs) ≡ 0
total-launched w [] h = refl
total-launched w (x ∷ xs) h = omega (arith, h x, total-launched w xs h)

pub launched-Agrees :
    {C : Type 0} (p : Producer C) (code : ℕ) (xs : List Exchange)
    → p.locked ≡ false
    → p.resp_body ≡ []
    → p.resp_code code ≡ 0
    → Agrees p code
        (total (counted code) (launched xs))
        (total holds (launched xs))
        (total (charged code) (launched xs))
        (total misplaced (launched xs))
        (total returned (launched xs) + p.total)
unfolding lookup
launched-Agrees p code xs free empty zero_count =
    let none_counted : total (counted code) (launched xs) ≡ 0 =
      total-launched (counted code) xs (λ x. refl) in
    record {
      counts = omega (arith, zero_count, none_counted);
      lock = ground (arith, total-launched holds xs (λ x. refl));
      samples = ground (
        arith,
        none_counted,
        total-launched (charged code) xs (λ x. refl),
        ap (λ m. has_sample (lookup code m)) empty,
      );
      places = total-launched misplaced xs (λ x. refl);
      totals = omega (arith, total-launched returned xs (λ x. refl));
    }

pub returned-counted :
    (code : ℕ) (ts : List Thread)
    → all_returned ts ≡ true
    → (total (charged code) ts ≤ total holds ts) × (total (counted code) ts ≡ total (asked code) ts)
returned-counted code [] h = omega arith
returned-counted code ((x, begun) ∷ ts) h = absurd (ground arith)
returned-counted code ((x, arrived c) ∷ ts) h = absurd (ground arith)
returned-counted code ((x, locking c) ∷ ts) h = absurd (ground arith)
returned-counted code ((x, sampling c) ∷ ts) h = absurd (ground arith)
returned-counted code ((x, copying c) ∷ ts) h = absurd (ground arith)
returned-counted code ((x, kept e) ∷ ts) h = ground (arith, returned-counted code ts)
returned-counted code ((x, over r) ∷ ts) h = ground (arith, returned-counted code ts)

pub asked-launched :
    (code : ℕ) (xs : List Exchange) → total (asked code) (launched xs) ≡ answers code xs
asked-launched code [] = refl
asked-launched code (x ∷ xs) = omega (arith, asked-launched code xs)

module _ (dh : Dynhist) where
  open dh use {Collector}

  step-asked :
      (n code i : ℕ) (p : Producer Collector) (ts : List Thread) (t : Thread)
      (q : Producer Collector) (next : Thread)
      → get_elem? ts i ≡ some t
      → advance_thread dh t p ≡ some (q, next)
      → total (asked code) ts ≡ n
      → total (asked code) (set ts i next) ≡ n
  step-asked n code i p ts (x, st) q next at h v =
      let (later, moved, same) = advance_thread_inversion dh x st p q next h in
      rw same (omega (arith, total-set (asked code) ts i (x, st) (x, later) at, v))

  pub interleave-asked :
      (schedule : List ℕ) (code : ℕ) (p : Producer Collector) (ts : List Thread)
      (q : Producer Collector) (us : List Thread)
      → interleave dh schedule p ts ≡ some (q, us)
      → total (asked code) us ≡ total (asked code) ts
  interleave-asked schedule code p ts q us h =
      let n = total (asked code) ts in
      run_threads-keeps (advance_thread dh) (λ _ vs. total (asked code) vs ≡ n) (step-asked n code)
        schedule p ts q us h refl

  -- A producer with no count and no sample, on which jobs are launched together: in whatever order
  -- their operations come, once all have returned and the mutex is free, `RequestCounts` tells the
  -- number of the answers of each status, and the total has grown by the number of jobs that returned
  -- a time.
  pub interleave-told :
      (schedule : List ℕ) (xs : List Exchange) (p : Producer Collector) (code : ℕ)
      {q : Producer Collector} {us : List Thread}
      → p.locked ≡ false
      → p.resp_body ≡ []
      → p.resp_code code ≡ 0
      → interleave dh schedule p (launched xs) ≡ some (q, us)
      → all_returned us ≡ true
      → q.locked ≡ false
      → (told code (request_counts q) ≡ some (answers code xs))
        × (q.total ≡ total returned us + p.total)
  interleave-told schedule xs p code {q = q} {us = us} free empty zero_count run back unlocked =
      let now : AllAgree dh code p.total q us =
        interleave-AllAgree dh schedule code p.total p (launched xs) q us
          (launched-Agrees p code xs free empty zero_count) run in
      let all : q.resp_code code ≡ answers code xs = omega (
        arith,
        now.counts,
        returned-counted code us back,
        interleave-asked schedule code p (launched xs) q us run,
        asked-launched code xs,
      ) in
      (
        ground (
          arith,
          now.samples,
          now.lock,
          now.counts,
          returned-counted code us back,
          told-resp_code q code,
        ),
        now.totals,
      )

  -- At every point of every interleaving from a producer with a free mutex, no count and no sample, the
  -- mutex is held exactly while one job is between taking and giving it back, or has returned without
  -- giving it back, and by no second job; and a status that has been counted has its sample, or
  -- exactly one job that has still to store it, or exactly one that has returned with an error
  -- instead of storing it, where one that has not been counted has none of the three.
  pub interleave-exclusive :
      (schedule : List ℕ) (xs : List Exchange) (p : Producer Collector) (code : ℕ)
      {q : Producer Collector} {us : List Thread}
      → p.locked ≡ false
      → p.resp_body ≡ []
      → p.resp_code code ≡ 0
      → interleave dh schedule p (launched xs) ≡ some (q, us)
      → (total holds us ≡ (if q.locked then 1 else 0))
        × (total (pending code) us + total (lost code) us + has_sample (lookup code q.resp_body)
            ≡ (if q.resp_code code == 0 then 0 else 1))
  interleave-exclusive schedule xs p code {q = q} {us = us} free empty zero_count run =
      let now : AllAgree dh code p.total q us =
        interleave-AllAgree dh schedule code p.total p (launched xs) q us
          (launched-Agrees p code xs free empty zero_count) run in
      (sym now.lock, ground (arith, now.samples, now.counts, total-charged code us))
