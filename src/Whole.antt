-- ===== src/Whole.antt =====
-- loadgen/run.go with a job producer: a run whose jobs are calls of the producer's `Job`, every operation
-- of each a step of its own.
pub mod Moves
pub mod Calls
pub mod Owed
pub mod Interleaved
pub mod Settled
pub mod Report
pub mod Exit
pub mod Live
pub mod Progress
pub mod Completion
pub mod Runs
pub mod Http
pub mod Fast
pub mod S3
pub mod Command
use plt.Base.{
  Bool, true, false, not, ◌&&◌, ◌≡◌, Option, none, some, List, [], ◌∷◌, ◌++◌, ℕ, get_elem?, set,
  if◌then◌else◌,
}
use plt.Loadgen.Flags.{Flags}
use plt.Loadgen.JobProducer.{JobProducer}
use plt.Loadgen.Runner.{Dynhist}
use plt.Loadgen.State.{
  Main, head, waiting, acquiring, launching, checking, filling, sending, reporting, Job, System,
  Action, advance, waited, checked, finish, proceed, press, poll, signal, handle_signal, tick,
  ui_receive, end_round,
}
use plt.Loadgen.System.{step, start}

-- The goroutine inside `Job`, with what its request meets, and whether `Job` has returned to `Run`.
pub record Call (jp : JobProducer) : Type 0 where
  pub request : jp.Request
  pub thread : jp.Thread
  pub joined : Bool

-- The calls stand in the order of their launch: a job's index is its call's.
pub record Whole (dh : Dynhist) (jp : JobProducer) : Type 0 where
  pub load : System dh.Collector
  pub producer : jp.State
  pub calls : List (Call jp)

-- A step of the load generator's own, the `go` statement with what the request will meet, an operation
-- of a call, and the return of a job's call.
pub data Move (jp : JobProducer) : Type 0 where
  in_load : Action → Move jp
  launch : jp.Request → Move jp
  in_call join : ℕ → Move jp

abbrev pub is_launching : Main → Bool
is_launching (launching i) = true
is_launching _ = false

-- The actions that the calls have no part in.
abbrev pub is_own : Main → Action → Bool
is_own m advance = not (is_launching m)
is_own m (finish k o) = false
is_own m _ = true

module _ (dh : Dynhist) (jp : JobProducer) where
  abbrev pub new_call : ℕ → jp.Request → Call jp
  new_call i x = record { request = x; thread = jp.begin i x; joined = false }

  -- A round of the live ui ends only once `RequestCounts` has told the counts.
  abbrev pub gets_counts : Action → jp.State → Bool
  gets_counts end_round p = elim (jp.request_counts p) [ none ↦ false | some counts ↦ true ]
  gets_counts _ p = true

  unfoldable pub step_load : Action → Whole dh jp → Option (Whole dh jp)
  step_load a s =
      if is_own s.load.main a && gets_counts a s.producer
      then elim (step dh s.load a) [ none ↦ none | some t ↦ some (record s { load = t }) ]
      else none

  -- `go` with the loop's index.
  unfoldable pub launch_call : Main → jp.Request → Whole dh jp → Option (Whole dh jp)
  launch_call (launching i) x s = elim (step dh s.load advance) [
    | none ↦ none
    | some t ↦ some (record s { load = t; calls = s.calls ++ (new_call i x ∷ []) })
  ]
  launch_call _ x s = none

  unfoldable pub step_call : ℕ → Whole dh jp → Option (Whole dh jp)
  step_call i s = elim (get_elem? s.calls i) [
    | none ↦ none
    | some c ↦ elim (jp.advance c.thread s.producer) [
      | none ↦ none
      | some (q, next) ↦
          some (record s { producer = q; calls = set s.calls i (record c { thread = next }) })
    ]
  ]

  unfoldable pub return_call : ℕ → ℕ → Call jp → Whole dh jp → Option (Whole dh jp)
  return_call k i c s = elim (jp.outcome c.thread) [
    | none ↦ none
    | some o ↦ elim (step dh s.load (finish k o)) [
      | none ↦ none
      | some t ↦ some (record s { load = t; calls = set s.calls i (record c { joined = true }) })
    ]
  ]

  unfoldable pub join_call : ℕ → Whole dh jp → Option (Whole dh jp)
  unfolding return_call
  join_call k s = elim (get_elem? s.load.jobs k) [
    | none ↦ none
    | some j ↦ elim (get_elem? s.calls j.index) [ none ↦ none | some c ↦ return_call k j.index c s ]
  ]

  -- Nothing moves after `os.Exit`.
  unfoldable pub move : Whole dh jp → Move jp → Option (Whole dh jp)
  unfolding step_load launch_call step_call join_call
  move s (in_load a) = step_load a s
  move s (launch x) = launch_call s.load.main x s
  move s (in_call i) = if s.load.killed then none else step_call i s
  move s (join k) = join_call k s

  unfoldable pub start_whole : Flags → jp.State → Whole dh jp
  start_whole lf p = record { load = start dh lf; producer = p; calls = [] }

  pub data Arrives (lf : Flags) (p : jp.State) : Whole dh jp → Type 0 where
    started : Arrives lf p (start_whole lf p)
    moved : {s t : Whole dh jp} (m : Move jp) → Arrives lf p s → move s m ≡ some t → Arrives lf p t
