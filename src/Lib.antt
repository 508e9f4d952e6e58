-- ===== src/Lib.antt =====
-- plt is a load tester: a command of its command line makes a job producer, and the load generator
-- runs the producer's jobs through a semaphore until a number of requests, a duration, a key or a
-- signal ends the run, and prints a report. This library is a model of the program, with theorems.
--
-- The parts and their files:
--
-- * Loadgen is loadgen/run.go, loadgen/flags.go and loadgen/job.go. Flags has the `Flags` struct and
--   `Prepare`, Runner the `runner` struct and `newRunner`. State, MainLoop, Controls, Jobs and System
--   are a run as a system of threads: the main goroutine of `Run` (`advance_main`, `after_wait`,
--   `after_check`), the goroutines of the jobs (`finish_job`, `proceed_job`), the poller of the
--   keyboard with `increaseConcurrency` and `decreaseConcurrency` (`press_key`, `step_poller`), the
--   goroutine of the signals (`receive_signal`) and the live ui (`live_tick`, `receive_in_ui`,
--   `end_round_in_ui`).
--   `step` lets one thread take one step at which it is not blocked, `Reach` is the reachable
--   states, and every interleaving is a sequence of steps. Percent is the 5 % of the controls in
--   IEEE double arithmetic, RateLimit the limiter of the rate, Report the function `report`.
--   Options is loadgen/app.go, Stopping the end of a run by a signal, LiveUi what a round of
--   `runLiveUI` keeps and draws, with Windows and Plots for its slices of 48, and Capture
--   what `captureLiveUI` prints of its screen. Number is the number of requests without the live ui, ReportStart the end of the last loop of
--   `Run`, at which the report begins. JobProducer is the interface of loadgen/job.go: a record of a producer's
--   state, its calls of `Job` by their operations, what they return and `RequestCounts`, and a record
--   `Returns` of what lets every call return. The three producers fill them, each in its file
--   Interface (nethttp's calls return in Nethttp/Returns).
-- * Nethttp is nethttp/job.go and nethttp/http3.go: `NewJobProducer` and the transports, with their
--   settings and dialers, in Setup, `Job` in Job, from the trace to the counters and the sample,
--   `RequestCounts` in Mutex and `String` in Summary; Times has its clocks, History has the requests of a run one after
--   another.
--   Threads has several `Job` goroutines as threads of Base/Threads at the counters and the mutex,
--   with Interleavings, Concurrent, Schedules and Alone for what holds in every order of their steps.
-- * Fasthttp is fasthttp/job.go: `Job`, `RequestCounts`, and the library's pooled response buffers
--   as a memory that the samples may point into; `NewJobProducer` and `String` in Summary. Threads has
--   the jobs as threads, with Concurrent, Progress and Alone for what holds in every order.
-- * S3 is s3/job.go and s3/cmd.go: the defaults of the flags, `Job`, `download` and `upload`,
--   and `String` in Summary; Options is `AddCommand` and `run`, from a line to the run that it starts.
--   Threads has the jobs as threads at the two totals, Concurrent what all their orders end with.
-- * Curl is curl/cmd.go. Help is the text of curl/help.go, Pattern the regular expression that
--   reads a line of it, Printed lines laid out as the text lays them out, Registration the options
--   and the variables that they fill; Action and Request are the action, from the captured options
--   to the request, Refusals the options that it refuses, and Launch is `run`, which starts the
--   producer; Strings has the functions on texts that they call.
-- * Whole is loadgen/run.go with any job producer, as one system: the threads of Loadgen, whose jobs
--   are calls of `Job` on one producer, each with a goroutine of its own. `move` is one step:
--   of the load generator (`step_load`), the `go` statement (`launch_call`), an operation of a call
--   (`step_call`), or the return of a call to its job (`join_call`); a round of the live
--   ui waits for `RequestCounts` (`gets_counts`); `Arrives` is what a run can
--   come to. Moves and Calls say what a move does to each of the two, Owed and Settled what joins
--   them, and Interleaved that the producer goes through an interleaving of its calls; Report is
--   every moment and the end of a run, Exit what `Run` returns, Live what a round of the live ui
--   reads of it; Progress, Completion and Runs carry a run on to its report. Http, Fast and S3 take
--   the producers of the program, S3 also the command s3 from its flags on, and Command starts from
--   the flags of curl, over net/http and over fasthttp.
-- * Report is report/print.go: `PeekBody` with the machine of `utf8.Valid`, and `ByteSize`.
-- * Examples is _examples: Cplt the hook of cplt/cplt.go, and of circuit-breaker-playground Delayed
--   the settings and the readiness test, Rate its comparison of doubles, Timeout the round tripper,
--   Playground the response times, the keys and the widget of main.go, with Window and Presses for the
--   rounding of its doubles.
-- * Base has what the parts share, with Base/Threads for threads over a shared state, Tests
--   the runs at concrete inputs.
--
-- What comes from outside is an argument: the limiter's answers, the clock, the outcome of a
-- request, keys, signals and measured rates are parts of the actions and of an `Exchange`, and the
-- histograms of the library dynhist are a parameter `Dynhist`: their operations, and what an added
-- value and a reset do to the count.
-- The order of the map that Go iterates over is the order of the list.
-- The circuit breaker is a parameter `Breaker`. A value that the code computes in floating point only
-- to print it is kept as the numbers that it is computed from.
--
-- Numbers: counters and times are natural numbers, flags and rates integers; 64-bit counters are
-- taken not to overflow. Texts are lists of bytes. Two functions run on fuel: the bits of a
-- number, with 128 where the numbers given have at most 128, and its decimal digits, with one more
-- than the number, which is more than it has digits.
--
-- Not modelled: the widgets and the layout of the live ui; the parser of the command line, which
-- fills the variables of the options; the hooks that only other programs pass; the servers and the
-- command lines of the example programs, whose response times are taken not to be negative.
pub mod Base
pub mod Loadgen
pub mod Report
pub mod Nethttp
pub mod Fasthttp
pub mod S3
pub mod Curl
pub mod Whole
pub mod Examples
mod Tests
