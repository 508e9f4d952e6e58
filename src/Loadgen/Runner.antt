-- ===== src/Loadgen/Runner.antt =====
-- loadgen/run.go: the `runner` struct, `newRunner`, and the rate limit's operations.
use plt.Base.{
  ℕ, ◌+◌, ◌-◌, ◌≡◌, Bool, false, Option, none, some, ℤ, pos, pos_part, ◌+ℤ◌, ◌-ℤ◌, leb_ℤ, ltb_ℤ,
  eqb_ℤ, if◌then◌else◌,
}
use plt.Loadgen.Flags.{Flags}
use plt.Loadgen.Percent.{five_percent_ℤ}

-- The histogram library's collector. Samples are durations in nanoseconds, whose value in
-- milliseconds is what the code adds; `reset` is the assignment of nil and 0 to a collector's fields.
pub record Dynhist : Type 1 where
  pub Collector : Type 0
  pub empty : ℕ → Collector
  pub add : Collector → ℤ → Collector
  pub count : Collector → ℕ
  pub reset : Collector → Collector
  pub count-reset : (c : Collector) → count (reset c) ≡ 0
  pub count-empty : (buckets : ℕ) → count (empty buckets) ≡ 0
  pub count-add : (c : Collector) (sample : ℤ) → count (add c sample) ≡ count c + 1

-- An error value, of which only the identity matters.
abbrev pub Err : Type 0
Err = ℕ

abbrev pub max_concurrency : ℕ
max_concurrency = 1000

-- The struct, over the collectors' type. `semaphore` is the number of elements in the channel,
-- `exit` tells whether the signal channel's one place is taken, and `rl` is the limit that the
-- current limiter was made with.
pub record Runner (C : Type 0) : Type 0 where
  pub concurrency_limit : ℕ
  pub rate_limit : ℤ
  pub current_req_rate : ℤ
  pub err_cnt : ℕ
  pub n : ℕ
  pub dur : ℤ
  pub exit : Bool
  pub done : Bool
  pub round_trip_hist : C
  pub round_trip_rolling : C
  pub round_trip_precise : C
  pub rl : Option ℤ
  pub last_err : Option Err
  pub semaphore : ℕ
  pub slow : ℕ
  pub lf : Flags

-- `math.MaxInt32`, and a thousand hours in nanoseconds.
abbrev pub max_int32 : ℕ
max_int32 = 2147483647

abbrev pub thousand_hours : ℤ
thousand_hours = pos 3600000000000000

abbrev pub stdout : ℕ
stdout = 1

unfoldable pub initial_limit : ℤ → ℕ
initial_limit c = if leb_ℤ c (pos 0) then 50 else pos_part c

unfoldable pub initial_number : ℤ → ℕ
initial_number c = if leb_ℤ c (pos 0) then max_int32 else pos_part c

abbrev or_stdout : Option ℕ → Option ℕ
or_stdout none = some stdout
or_stdout (some w) = some w

pub data Created (C : Type 0) : Type 0 where
  ui_failed : Err → Created C
  created : Runner C → Created C

module _ (dh : Dynhist) where
  open dh use {Collector, empty}

  -- The literal and the assignments below it; the loop that fills the channel makes
  -- `maxConcurrency - concurrencyLimit` rounds, none if that is negative.
  unfoldable pub init_runner : Flags → Runner Collector
  unfolding initial_limit initial_number
  init_runner lf = record {
    concurrency_limit = initial_limit lf.concurrency;
    rate_limit = if ltb_ℤ (pos 0) lf.rate_limit then lf.rate_limit else pos 0;
    current_req_rate = pos 0;
    err_cnt = 0;
    n = initial_number lf.number;
    dur = if eqb_ℤ lf.duration (pos 0) then thousand_hours else lf.duration;
    exit = false;
    done = false;
    round_trip_hist = empty 10;
    round_trip_rolling = empty 5;
    round_trip_precise = empty 100;
    rl = if ltb_ℤ (pos 0) lf.rate_limit then some lf.rate_limit else none;
    last_err = none;
    semaphore = max_concurrency - initial_limit lf.concurrency;
    slow = 0;
    lf = record lf { output = or_stdout lf.output };
  }

  created_if_ui : Option Err → Flags → Created Collector
  unfolding init_runner
  created_if_ui (some e) lf = ui_failed e
  created_if_ui none lf = created (init_runner lf)

  -- `ui` is what `ui.Init` returns; it is called for the live ui only.
  unfoldable pub new_runner : Option Err → Flags → Created Collector
  unfolding created_if_ui
  new_runner ui lf = created_if_ui (if lf.live_ui then ui else none) lf

unfoldable pub rate_delta : ℤ → ℤ
rate_delta lim = let d = five_percent_ℤ lim in if eqb_ℤ d (pos 0) then pos 1 else d

module _ {C : Type 0} where
  unfoldable pub get_rate_limit : Runner C → ℤ
  get_rate_limit r = if eqb_ℤ r.rate_limit (pos 0) then r.current_req_rate else r.rate_limit

  unfoldable pub refresh_rate_limiter : Runner C → Runner C
  refresh_rate_limiter r =
      if eqb_ℤ r.rate_limit (pos 0) then r else record r { rl = some r.rate_limit }

  unfoldable pub increase_rate_limit : Runner C → Runner C
  unfolding refresh_rate_limiter
  increase_rate_limit r =
      let lim = get_rate_limit r in
      refresh_rate_limiter (record r { rate_limit = lim +ℤ rate_delta lim })

  unfoldable pub decrease_rate_limit : Runner C → Runner C
  unfolding refresh_rate_limiter
  decrease_rate_limit r =
      let lim = get_rate_limit r in
      refresh_rate_limiter (record r { rate_limit = lim -ℤ rate_delta lim })
