-- ===== src/Whole/Runs.antt =====
-- Every run without the live ui, of a producer whose calls return, can be carried on to its report.
use plt.Base.{
  ℕ, zero, suc, ◌≤◌, ◌<◌, ◌≡◌, refl, ap, sym, ◌∙◌, Bool, true, false, some, List, [], ◌∷◌, ◌++◌,
  arith, length, length-append, inl, inr, all_of, all_of-append,
}
use plt.Loadgen.Flags.{Flags}
use plt.Loadgen.JobProducer.{JobProducer, Returns}
use plt.Loadgen.Progress.{IsReporting, reporting_cases, reporting_at}
use plt.Loadgen.Runner.{Dynhist, initial_limit, max_concurrency}
use plt.Loadgen.State.{reporting}
use plt.Loadgen.System.{start}
use plt.Whole.{Whole, Move, start_whole, Arrives, started, moved}
use plt.Whole.Completion.{Lively, goes_on}
use plt.Whole.Interleaved.{requests, length-requests}
use plt.Whole.Moves.{run_moves}
use plt.Whole.Progress.{weight, Extends}

module _ {R : Type 0} where
  -- The first requests of a sequence.
  abbrev pub upto : (ℕ → R) → ℕ → List R
  upto request zero = []
  upto request (suc n) = upto request n ++ (request n ∷ [])

  extend_upto :
      (request : ℕ → R) (xs ys : List R)
      → xs ≡ upto request (length xs)
      → Extends (request (length xs)) xs ys
      → ys ≡ upto request (length ys)
  extend_upto request xs ys h (inl e) =
      e ∙ h ∙ ap (upto request) (ap (λ (zs : List R). length zs) (sym e))
  extend_upto request xs ys h (inr e) =
      let one_more : suc (length xs) ≡ length ys =
        omega
          (arith, ap (λ (zs : List R). length zs) e, length-append xs (request (length xs) ∷ [])) in
      e ∙ ap (λ zs. zs ++ (request (length xs) ∷ [])) h ∙ ap (upto request) one_more

  extend_fine :
      (is_fine : R → Bool) (x : R) (xs ys : List R)
      → is_fine x ≡ true
      → all_of is_fine xs ≡ true
      → Extends x xs ys
      → all_of is_fine ys ≡ true
  extend_fine is_fine x xs ys one all (inl e) = rw e all
  extend_fine is_fine x xs ys one all (inr e) =
      rw e (all_of-append is_fine xs (x ∷ []) all (ground (arith, one)))

pub all_of-upto :
    {R : Type 0} (is_fine : R → Bool) (request : ℕ → R)
    → ((i : ℕ) → is_fine (request i) ≡ true)
    → (n : ℕ) → all_of is_fine (upto request n) ≡ true
all_of-upto is_fine request fine zero = refl
all_of-upto is_fine request fine (suc n) =
    all_of-append is_fine (upto request n) (request n ∷ []) (all_of-upto is_fine request fine n)
      (ground (arith, fine n))

module _ (dh : Dynhist) (jp : JobProducer) (lf : Flags) (p : jp.State) (rt : Returns jp p)
    (off : lf.live_ui ≡ false) (fits : initial_limit lf.concurrency ≤ max_concurrency) where
  completes_from :
      (request : ℕ → jp.Request)
      → ((i : ℕ) → rt.is_fine (request i) ≡ true)
      → (fuel : ℕ) (s : Whole dh jp) → weight dh jp lf p rt (request 0) s < fuel
      → Lively dh jp lf p rt s
      → requests s.calls ≡ upto request (length (requests s.calls))
      → (moves : List (Move jp)) × (t : Whole dh jp) × (run_moves dh jp moves s ≡ some t)
        × Lively dh jp lf p rt t
        × (requests t.calls ≡ upto request (length (requests t.calls)))
        × IsReporting t.load.main
  unfolding run_moves
  completes_from request fine zero s enough v given = absurd (omega arith)
  completes_from request fine (suc fuel) s enough v given = elim (reporting_cases s.load.main) [
    | inl done ↦ ([], s, refl, v, given, done)
    | inr busy ↦
        let n = length (requests s.calls) in
        let (m, u, e, lower, live, more) = goes_on dh jp lf p rt off fits (request n) s v busy in
        let next : Lively dh jp lf p rt u = record {
          arrived = moved m v.arrived e;
          live = live;
          fine =
              extend_fine rt.is_fine (request n) (requests s.calls) (requests u.calls) (fine n)
                v.fine more;
        } in
        let (moves, t, q, w, as_given, done) =
          completes_from request fine fuel u (omega arith) next
            (extend_upto request (requests s.calls) (requests u.calls) given more) in
        (m ∷ moves, t, ground (arith, e, q), w, as_given, done)
  ]

  -- A run without the live ui, with a concurrency of at most 1000, of any producer whose calls return
  -- for requests of a kind, and any sequence of such requests: the run can be carried on to its
  -- report, operation by operation of the main goroutine, of the jobs and of their calls, and has
  -- then made the first requests of the sequence.
  pub whole_completes :
      (request : ℕ → jp.Request)
      → ((i : ℕ) → rt.is_fine (request i) ≡ true)
      → (moves : List (Move jp)) × (t : Whole dh jp) × (run_moves dh jp moves
            (start_whole dh jp lf p)
          ≡ some t)
        × Arrives dh jp lf p t
        × ((filled : ℕ) × (t.load.main ≡ reporting filled))
        × (requests t.calls ≡ upto request (length t.calls))
  unfolding start_whole start
  whole_completes request fine =
      let (moves, t, q, v, as_given, done) =
        completes_from request fine
          (suc (weight dh jp lf p rt (request 0) (start_whole dh jp lf p))) (start_whole dh jp lf p)
          (omega arith) (record { arrived = started; live = refl; fine = refl }) refl in
      (
        moves,
        t,
        q,
        v.arrived,
        reporting_at t.load.main done,
        as_given ∙ ap (upto request) (length-requests t.calls),
      )
