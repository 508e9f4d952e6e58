-- ===== src/Examples/Delayed.antt =====
-- _examples/circuit-breaker-playground/delayed.go and simple.go: the settings of the circuit breaker, and
-- the test `ReadyToTrip` that delays its opening. Times are nanoseconds.
use plt.Base.{
  ℕ, suc, ◌+◌, ◌-◌, ◌*◌, ◌/◌, ◌%◌, ◌^◌, Bool, true, false, ◌&&◌, Option, none, some, List, [], ◌∷◌,
  ◌++◌, ltb, leb, ◌==◌, if◌then◌else◌, Text, codes,
}
use plt.Loadgen.Percent.{round_53}

abbrev second : ℕ
second = 1000000000

pub record Settings : Type 0 where
  pub name : Text
  pub max_requests : ℕ
  pub interval : ℕ
  pub timeout : ℕ

abbrev pub delayed_settings : Settings
delayed_settings = record {
  name = codes "test";
  max_requests = 1000;
  interval = 20 * second;
  timeout = 10 * second;
}

abbrev pub simple_settings : Settings
simple_settings = record {
  name = codes "acme";
  max_requests = 500;
  interval = 2 * second;
  timeout = 3 * second;
}

abbrev pub requests_threshold : ℕ
requests_threshold = 100

abbrev pub open_delay : ℕ
open_delay = 10 * second

-- The double nearest to 0.01 is 5764607523034235 / 2^59.
abbrev pub error_threshold : ℕ
error_threshold = 5764607523034235

-- `float64(failures) / float64(requests)`, times 2^129: the exact quotient to 128 places and one more
-- for what is left of it, rounded to 53 bits.
unfoldable pub error_rate : ℕ → ℕ → ℕ
unfolding round_53
error_rate failures requests =
    let scaled = failures * 2 ^ 128 in
    round_53 (2 * (scaled / requests) + (if scaled % requests == 0 then 0 else 1))

-- 0 / 0 is no number, and any other quotient by 0 is infinite.
unfoldable pub reached_failure_level : ℕ → ℕ → Bool
unfolding error_rate
reached_failure_level failures requests =
    if requests == 0
    then ltb 0 failures
    else leb (error_threshold * 2 ^ 70) (error_rate failures requests)

-- The counts that the breaker gives, and the clock's readings in the order in which they are made.
pub record Call : Type 0 where
  pub requests : ℕ
  pub failures : ℕ
  pub now : ℕ
  pub since : ℕ
  pub shown : ℕ

-- The parts of the message.
pub data Part : Type 0 where
  heading : (called failures requests : ℕ) → (enough reached : Bool) → Part
  start_delay opening drop_delay keep_closed : Part
  keep_closed_for : ℕ → Part

-- `pre_open` is the start of the delay, `none` for the zero time.
pub record Delay : Type 0 where
  pub pre_open : Option ℕ
  pub called : ℕ
  pub message : List Part

abbrev pub no_delay : Delay
no_delay = record { pre_open = none; called = 0; message = [] }

abbrev pub is_bad : Call → Bool
is_bad c = ltb requests_threshold c.requests && reached_failure_level c.failures c.requests

abbrev heading_of : Call → ℕ → Part
heading_of c called =
    heading called c.failures c.requests (ltb requests_threshold c.requests)
      (reached_failure_level c.failures c.requests)

-- The branch of enough failures, from the start of the delay on.
abbrev delay_from : Call → ℕ → List Part → Delay → Delay × Bool
delay_from c start parts d =
    if leb open_delay (c.since - start)
    then (record d { pre_open = some start; message = parts ++ (opening ∷ []) }, true)
    else (
      record d {
        pre_open = some start;
        message = parts ++ (keep_closed_for (c.shown - start) ∷ []);
      },
      false,
    )

unfoldable pub ready_to_trip : Call → Delay → Delay × Bool
ready_to_trip c old =
    let d = record old { called = suc old.called } in
    let first = heading_of c (suc old.called) in
    if is_bad c
    then elim old.pre_open [
      | none ↦ delay_from c c.now (first ∷ start_delay ∷ []) d
      | some start ↦ delay_from c start (first ∷ []) d
    ]
    else elim old.pre_open [
      | none ↦ (record d { message = first ∷ keep_closed ∷ [] }, false)
      | some _ ↦
          (record d { pre_open = none; message = first ∷ drop_delay ∷ keep_closed ∷ [] }, false)
    ]

-- The calls one after another, the newest first.
unfoldable pub after_calls : List Call → Delay
unfolding ready_to_trip
after_calls [] = no_delay
after_calls (c ∷ older) = (ready_to_trip c (after_calls older)).0
