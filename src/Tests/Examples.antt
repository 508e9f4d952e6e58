-- ===== src/Tests/Examples.antt =====
-- The example programs: a delay that opens the breaker, and two URLs.
use plt.Base.{ℕ, ◌+◌, ◌*◌, ◌/◌, ◌^◌, ◌≤◌, ◌≡◌, ◌↔◌, refl, true, List, [], ◌∷◌, arith, leb}
use plt.Examples.Delayed.{Call, open_delay, ready_to_trip, after_calls, reached_failure_level}
use plt.Examples.Streaks.{Streak, ready_to_trip_lem}
use plt.Examples.Rate.{reached_failure_level-leb}
use plt.Examples.Playground.{
  Arrow, up, down, Shown, opened, min_resp, millisecond, press_keys, response_time,
  load_limits_widget, max_shown,
}
use plt.Examples.Presses.{longest_after, stays_small, least, greatest, press_keys-window}
use plt.Loadgen.Percent.{round_53, round_to, bits}

abbrev call_at : ℕ → ℕ → Call
call_at failures t = record { requests = 200; failures = failures; now = t; since = t; shown = t }

abbrev earlier : List Call
earlier = call_at 2 7000000000 ∷ call_at 2 5000000000 ∷ call_at 1 1000000000 ∷ []

ready_to_trip_lem_example :
    ((ready_to_trip (call_at 3 15000000000) (after_calls earlier)).1 ≡ true) ↔ (
      (start : ℕ) × Streak (call_at 3 15000000000 ∷ earlier) start
      × (start + open_delay ≤ 15000000000))
ready_to_trip_lem_example = ready_to_trip_lem (call_at 3 15000000000) earlier (omega arith)

opens : (ready_to_trip (call_at 3 15000000000) (after_calls earlier)).1 ≡ true
unfolding ready_to_trip after_calls reached_failure_level round_53 round_to bits
opens = refl

reached_failure_level-leb_example : reached_failure_level 1 100 ≡ leb 100 (100 * 1)
reached_failure_level-leb_example = reached_failure_level-leb 1 100 (omega arith) (omega arith)

abbrev lower_twice : List Arrow
lower_twice = down ∷ down ∷ up ∷ []

press_keys-window_example :
    (least min_resp (longest_after lower_twice opened.max_resp)
      ≤ response_time min_resp (press_keys lower_twice opened).max_resp (2 ^ 52))
    × (response_time min_resp (press_keys lower_twice opened).max_resp (2 ^ 52)
        ≤ greatest min_resp (longest_after lower_twice opened.max_resp))
    × ((rest : List Shown) × (load_limits_widget [] (press_keys lower_twice opened)
          ≡ max_shown (longest_after lower_twice opened.max_resp / millisecond * millisecond)
            ∷ rest))
unfolding stays_small
press_keys-window_example = press_keys-window lower_twice opened (2 ^ 52) [] refl (omega arith)

shown_milliseconds : longest_after lower_twice opened.max_resp / millisecond ≡ 483
unfolding longest_after
shown_milliseconds = refl
