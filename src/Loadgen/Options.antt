-- ===== src/Loadgen/Options.antt =====
-- loadgen/app.go: the options of a run as `Register` declares them, through `Prepare` and `newRunner`. The
-- parser of the command line fills an option that is not given with its default, or leaves it zero.
use plt.Base.{
  ◌≤◌, ◌≡◌, ◌↔◌, Bool, true, false, ◌&&◌, Option, none, some, ℤ, pos, pos_part, leb_ℤ, eqb_ℤ, arith,
  if◌then◌else◌,
}
use plt.Loadgen.Flags.{Flags, minute, prepare}
use plt.Loadgen.Runner.{
  Dynhist, max_int32, thousand_hours, initial_limit, initial_number, init_runner,
}

-- The options on a command line.
pub record Given : Type 0 where
  pub number : Option ℤ
  pub concurrency : Option ℤ
  pub rate_limit : Option ℤ
  pub duration : Option ℤ
  pub slow : Option ℤ
  pub live_ui : Bool

abbrev pub value_or : ℤ → Option ℤ → ℤ
value_or default none = default
value_or default (some v) = v

abbrev second : ℤ
second = pos 1000000000

-- The map of callbacks is made empty.
unfoldable pub register : Given → Flags
register g = record {
  number = value_or (pos 0) g.number;
  concurrency = value_or (pos 50) g.concurrency;
  rate_limit = value_or (pos 0) g.rate_limit;
  duration = value_or (pos 0) g.duration;
  slow_response = value_or second g.slow;
  live_ui = g.live_ui;
  output = none;
  key_pressed = λ _. false;
}

abbrev pub unlimited : Given → Bool
unlimited g =
    eqb_ℤ (value_or (pos 0) g.number) (pos 0) && eqb_ℤ (value_or (pos 0) g.duration) (pos 0)

-- The bounds of a run that a command line asks for: a thousand requests in a minute if it bounds
-- neither their number nor the time, else what it gives, with 2147483647 for a number that is not
-- positive and a thousand hours for no time. There is always a slot and a request, and a limiter
-- exactly if the rate is positive. The help of the options says that 0 is infinite for both; neither
-- bound is.
pub register_limits :
    (dh : Dynhist) (g : Given)
    → let r = init_runner dh (prepare (register g)) in
      let number = value_or (pos 0) g.number in
      let duration = value_or (pos 0) g.duration in
      (r.n ≡ (
        if unlimited g then 1000 else if leb_ℤ number (pos 0) then max_int32 else pos_part number))
      × (r.dur ≡ (
          if unlimited g
          then minute
          else if eqb_ℤ duration (pos 0)
          then thousand_hours
          else duration))
      × (1 ≤ r.n)
      × (1 ≤ r.concurrency_limit)
      × ((r.rl ≡ none) ↔ (leb_ℤ (value_or (pos 0) g.rate_limit) (pos 0) ≡ true))
unfolding init_runner prepare register initial_limit initial_number
register_limits dh g = ground arith
