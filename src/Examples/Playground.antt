-- ===== src/Examples/Playground.antt =====
-- _examples/circuit-breaker-playground/main.go: the times of the server's responses, the keys that change
-- them, and what the widget shows. Times are nanoseconds; they are computed in IEEE doubles, the
-- product and the sum each rounded.
use plt.Base.{ℕ, suc, ◌+◌, ◌-◌, ◌*◌, ◌/◌, ◌^◌, List, [], ◌∷◌, leb, if◌then◌else◌}
use plt.Loadgen.Percent.{round_53}
use plt.Examples.Delayed.{Part}

abbrev pub millisecond : ℕ
millisecond = 1000000

abbrev pub request_timeout : ℕ
request_timeout = 500 * millisecond

abbrev pub min_resp : ℕ
min_resp = 300 * millisecond

-- The variables that the handlers share: `maxResp`, `cbState`, `cbPassed` and `cbFailed`.
pub record Playground : Type 0 where
  pub max_resp : ℕ
  pub cb_state : ℕ
  pub cb_passed : ℕ
  pub cb_failed : ℕ

abbrev pub opened : Playground
opened = record { max_resp = 510 * millisecond; cb_state = 0; cb_passed = 0; cb_failed = 0 }

-- The double nearest to 1.05 is 4728779608739021 / 2^52, to 0.95 it is 4278419646001971 / 2^52.
unfoldable pub raised : ℕ → ℕ
raised n = round_53 (round_53 n * 4728779608739021) / 2 ^ 52

unfoldable pub lowered : ℕ → ℕ
lowered n = round_53 (round_53 n * 4278419646001971) / 2 ^ 52

pub data Arrow : Type 0 where
  up down : Arrow

unfoldable pub arrow_pressed : Arrow → Playground → Playground
unfolding raised lowered
arrow_pressed up p = record p { max_resp = raised p.max_resp }
arrow_pressed down p = record p { max_resp = lowered p.max_resp }

unfoldable pub press_keys : List Arrow → Playground → Playground
unfolding arrow_pressed
press_keys [] p = p
press_keys (k ∷ more) p = press_keys more (arrow_pressed k p)

abbrev pub pass_request : Playground → Playground
pass_request p = record p { cb_passed = suc p.cb_passed }

abbrev pub on_state_change : (from to : ℕ) → Playground → Playground
on_state_change from to p = record p { cb_state = to }

-- The sleep of the handler. `rand.Float64` is r / 2^53, and where the keys have lowered `maxResp` below
-- `minResp` the term that is added is negative.
unfoldable pub response_time : (shortest longest r : ℕ) → ℕ
response_time shortest longest r =
    if leb shortest longest
    then round_53 (round_53 shortest * 2 ^ 53 + round_53 (round_53 (longest - shortest) * r))
      / 2 ^ 53
    else round_53 (round_53 shortest * 2 ^ 53 - round_53 (round_53 (shortest - longest) * r))
      / 2 ^ 53

-- The parts of the widget's text.
pub data Shown : Type 0 where
  max_shown state_shown failed_shown passed_shown : ℕ → Shown
  ready_to_trip_shown : List Part → Shown

unfoldable pub load_limits_widget : List Part → Playground → List Shown
load_limits_widget message p =
    max_shown (p.max_resp / millisecond * millisecond)
    ∷ state_shown p.cb_state
    ∷ failed_shown p.cb_failed
    ∷ passed_shown p.cb_passed
    ∷ ready_to_trip_shown message
    ∷ []
