-- ===== src/Loadgen/Flags.antt =====
-- loadgen/flags.go: the options of a run, and their conditional defaults.
use plt.Base.{ℕ, ◌≡◌, Bool, ◌&&◌, Option, ℤ, pos, arith, eqb_ℤ, if◌then◌else◌}

-- The events of the live ui's terminal that the poller tells apart.
pub data Key : Type 0 where
  quit ctrl_c right left up down : Key
  other : ℕ → Key

-- `Output` is a writer's identity, `none` where the field is nil; `key_pressed` says for which
-- events a callback is registered.
pub record Flags : Type 0 where
  pub number : ℤ
  pub concurrency : ℤ
  pub rate_limit : ℤ
  pub duration : ℤ
  pub slow_response : ℤ
  pub live_ui : Bool
  pub output : Option ℕ
  pub key_pressed : Key → Bool

-- `time.Minute`, in nanoseconds.
abbrev pub minute : ℤ
minute = pos 60000000000

unfoldable pub prepare : Flags → Flags
prepare lf =
    if eqb_ℤ lf.number (pos 0) && eqb_ℤ lf.duration (pos 0)
    then record lf { number = pos 1000; duration = minute }
    else lf

pub prepare-live_ui : (lf : Flags) → (prepare lf).live_ui ≡ lf.live_ui
unfolding prepare
prepare-live_ui lf = ground arith

pub prepare-concurrency : (lf : Flags) → (prepare lf).concurrency ≡ lf.concurrency
unfolding prepare
prepare-concurrency lf = ground arith
