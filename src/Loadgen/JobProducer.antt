-- ===== src/Loadgen/JobProducer.antt =====
-- loadgen/job.go: the interface `JobProducer`, as the goroutines of a run meet it. `begin` is a call of
-- `Job` with its index and what its request will meet, `advance` the next operation of a call on the
-- producer that all calls share, `outcome` what `Job` has returned to `Run`, and `request_counts` what
-- `RequestCounts` tells of the producer, `none` where it waits.
use plt.Base.{
  ℕ, suc, ◌+◌, ◌≤◌, ◌<◌, ◌≡◌, Bool, true, false, Option, none, some, List, [], ◌∷◌, ◌++◌, arith,
  get_elem?, length, all_of, Text, Option-cases, inl, inr,
}
use plt.Base.Threads.{run_threads}
use plt.Loadgen.State.{Outcome}

pub record JobProducer : Type 1 where
  pub State : Type 0
  pub Request : Type 0
  pub Thread : Type 0
  pub begin : ℕ → Request → Thread
  pub advance : Thread → State → Option (State × Thread)
  pub outcome : Thread → Option Outcome
  pub request_counts : State → Option (List (Text × ℕ))
  -- A call that has returned does no more.
  pub advance-outcome :
      (t : Thread) (s q : State) (next : Thread) → advance t s ≡ some (q, next) → outcome t ≡ none

abbrev pub is_some : Option Outcome → Bool
is_some none = false
is_some (some o) = true

module _ (jp : JobProducer) where
  open jp use {State, Request, Thread, begin, advance, outcome}

  -- Calls of `Job` with the indices from one on.
  abbrev pub begin_from : ℕ → List Request → List Thread
  begin_from i [] = []
  begin_from i (x ∷ xs) = begin i x ∷ begin_from (suc i) xs

  pub begin_from-append :
      (i : ℕ) (xs : List Request) (x : Request)
      → begin_from i (xs ++ (x ∷ [])) ≡ begin_from i xs ++ (begin (i + length xs) x ∷ [])
  begin_from-append i [] x = ground arith
  begin_from-append i (y ∷ xs) x = ground (arith, begin_from-append (suc i) xs x)

  abbrev pub has_outcome : Thread → Bool
  has_outcome t = is_some (outcome t)

  pub outcome_there : (t : Thread) → has_outcome t ≡ true → (o : Outcome) × (outcome t ≡ some o)
  outcome_there t h = elim (Option-cases (outcome t)) [
    | inl e ↦ absurd (ground arith)
    | inr found ↦ found
  ]

  -- What lets every call return: a number of operations that bounds each call's, and an operation for
  -- some call while one has not returned, at least for requests of a kind.
  pub record Returns (p : State) : Type 0 where
    pub is_fine : Request → Bool
    pub most : ℕ
    pub left : Thread → ℕ
    pub left-begin : (i : ℕ) (x : Request) → left (begin i x) ≤ most
    pub left-advance :
        (t : Thread) (s q : State) (next : Thread)
        → advance t s ≡ some (q, next)
        → left next < left t
    pub goes_on :
        (schedule : List ℕ) (xs : List Request) (q : State) (us : List Thread)
        → all_of is_fine xs ≡ true
        → run_threads advance schedule p (begin_from 0 xs) ≡ some (q, us)
        → all_of has_outcome us ≡ false
        → (i : ℕ) × (t : Thread) × (r : State × Thread) × (get_elem? us i ≡ some t)
          × (advance t q ≡ some r)
