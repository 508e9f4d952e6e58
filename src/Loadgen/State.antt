-- ===== src/Loadgen/State.antt =====
-- loadgen/run.go: the state of a run with its threads, and the moves that they can make.
use plt.Base.{ℕ, ◌+◌, ◌-◌, Bool, Option, none, some, List, ℤ, ltb, if◌then◌else◌}
use plt.Loadgen.Flags.{Key}
use plt.Loadgen.Runner.{Runner, Err, max_concurrency}

-- Where the main goroutine stands, with `i` or, from the last loop on, the slots filled so far;
-- `sending` is past the loop's test of the limit, at the send.
pub data Main : Type 0 where
  head waiting acquiring launching checking : ℕ → Main
  filling sending reporting : ℕ → Main

-- A job's goroutine: inside `Job`, with `lastErr` written, or about to release its slot.
pub data Stage : Type 0 where
  working failed releasing : Stage

pub record Job : Type 0 where
  pub index : ℕ
  pub stage : Stage

-- The poller waits for an event, still receives or sends slots, or sends the interrupt.
pub data Poller : Type 0 where
  idle interrupting : Poller
  taking giving : ℕ → Poller

-- The goroutine of the signals: at its receive, past it, or past its test of `done`.
pub data Receiver : Type 0 where
  listening heard stopping : Receiver

-- The live ui: not there, at its `select`, or in a round, at `RequestCounts`; the last round follows
-- a signal.
pub data Ui : Type 0 where
  closed watching : Ui
  counting : (is_last : Bool) → Ui

-- What `jobProducer.Job` returns.
pub data Outcome : Type 0 where
  ok : ℤ → Outcome
  err : Err → Outcome

-- `launched` counts the `go` statements; `killed` is `os.Exit(1)`.
pub record System (C : Type 0) : Type 0 where
  pub runner : Runner C
  pub main : Main
  pub jobs : List Job
  pub poller : Poller
  pub receiver : Receiver
  pub ui : Ui
  pub killed : Bool
  pub launched : ℕ

-- One step of one thread, with what it gets from outside: the limiter's answer, the time since
-- the start, a job's outcome, a key, a signal, a measured rate.
pub data Action : Type 0 where
  advance : Action
  waited : Option Err → Action
  checked : ℤ → Action
  finish : ℕ → Outcome → Action
  proceed : ℕ → Action
  press : Key → Action
  poll : Action
  signal handle_signal : Action
  tick ui_receive : ℤ → Action
  end_round : Action

module _ {C : Type 0} where
  -- A send to the semaphore blocks on a full channel, a receive on an empty one.
  abbrev pub send : System C → (Runner C → System C) → Option (System C)
  send s k =
      if ltb s.runner.semaphore max_concurrency
      then some (k (record (s.runner) { semaphore = s.runner.semaphore + 1 }))
      else none

  abbrev pub receive : System C → (Runner C → System C) → Option (System C)
  receive s k =
      if ltb 0 s.runner.semaphore
      then some (k (record (s.runner) { semaphore = s.runner.semaphore - 1 }))
      else none
