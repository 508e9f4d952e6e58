-- ===== src/Loadgen/RateLimit.antt =====
-- loadgen/run.go: what the rate limit's controls do to the limit and to the limiter.
use plt.Base.{ℕ, suc, ◌+◌, ◌-◌, ◌/◌, ◌^◌, ◌<◌, ◌≡◌, some, pos, arith, ◌==◌, if◌then◌else◌}
use plt.Loadgen.Percent.{five_percent_ℤ}
use plt.Loadgen.Rounding.{five_percent-div}
use plt.Loadgen.Runner.{
  Runner, get_rate_limit, refresh_rate_limiter, rate_delta, increase_rate_limit,
  decrease_rate_limit,
}

-- Five percent, at least one.
abbrev pub change_of : ℕ → ℕ
change_of n = if n / 20 == 0 then 1 else n / 20

rate_delta-change : (n : ℕ) → n < 2 ^ 52 → rate_delta (pos n) ≡ pos (change_of n)
unfolding rate_delta five_percent_ℤ
rate_delta-change n h = ground (arith, five_percent-div n)

module _ {C : Type 0} where
  -- A press of <Up> raises a limit (or, with none set, the current rate) by five percent and by at
  -- least one request per second, and the limiter is made anew with it.
  pub increase_rate_limit_lem :
      (r : Runner C) (n : ℕ)
      → get_rate_limit r ≡ pos n
      → n < 2 ^ 52
      → ((increase_rate_limit r).rate_limit ≡ pos (n + change_of n))
        × ((increase_rate_limit r).rl ≡ some (pos (n + change_of n)))
  unfolding increase_rate_limit refresh_rate_limiter
  increase_rate_limit_lem r n e h = rw (e, rate_delta-change n h) (ground arith)

  -- A press of <Down> lowers a limit of two or more by five percent and by at least one; the new
  -- limit is positive, and the limiter is made anew with it. From one it sets the limit to 0, and
  -- leaves the limiter as it was.
  pub decrease_rate_limit_lem :
      (r : Runner C) (n : ℕ)
      → get_rate_limit r ≡ pos (suc n)
      → suc n < 2 ^ 52
      → ((decrease_rate_limit r).rate_limit ≡ pos (suc n - change_of (suc n)))
        × ((decrease_rate_limit r).rl
            ≡ (if n == 0 then r.rl else some (pos (suc n - change_of (suc n)))))
        × (0 < n → 0 < suc n - change_of (suc n))
  unfolding decrease_rate_limit refresh_rate_limiter
  decrease_rate_limit_lem r n e h = rw (e, rate_delta-change (suc n) h) (ground arith)
