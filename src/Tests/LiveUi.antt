-- ===== src/Tests/LiveUi.antt =====
-- The live ui's plots after two rounds.
use plt.Base.{true, none, if◌then◌else◌, Text, ◌++◌, ℕ, ◌≡◌, refl, some, List, [], ◌∷◌, pos, codes}
use plt.Base.Dict.{without}
use plt.Loadgen.Capture.{
  capture_live_ui, capture_rows, trim_start, trim_end, shown_rows, capture_live_ui_lem,
}
use plt.Loadgen.LiveUi.{
  Reading, Frame, first_view, series, show_round, show_rounds, shown_counts, sort_names, keep_tail,
}
use plt.Loadgen.Plots.{show_rounds_windows}

abbrev reading : ℕ → ℕ → Reading
reading ok errors = record {
  counts = some ((codes "200", ok) ∷ []);
  hist_count = ok;
  err_cnt = errors;
  elapsed = 500;
  since_prev = 500;
  rolling_min = pos 3;
  rolling_max = pos 9;
}

abbrev two_rounds : List Reading
two_rounds = reading 2 0 ∷ reading 5 1 ∷ []

show_rounds_windows_example :
    let v = show_rounds two_rounds first_view in
    (series (codes "200") v.rates ≡ (2, 500) ∷ (5, 500) ∷ [])
    × (v.mins ≡ pos 3 ∷ pos 3 ∷ [])
    × (v.maxs ≡ pos 9 ∷ pos 9 ∷ [])
unfolding keep_tail shown_counts sort_names without
show_rounds_windows_example = show_rounds_windows two_rounds (codes "200")

-- Names are shown in order, and a name is plotted from its second rate on.
second_frame : Frame
unfolding show_rounds
second_frame = (show_round (reading 5 1) (show_rounds (reading 2 0 ∷ []) first_view)).1

second_counters :
    second_frame.counters ≡ (codes "200", 5) ∷ (codes "err", 1) ∷ (codes "tot", 5) ∷ []
unfolding second_frame show_round without
second_counters = refl

second_plots :
    second_frame.plots
    ≡ (codes "200", (2, 500) ∷ (5, 500) ∷ []) ∷ (codes "tot", (2, 500) ∷ (5, 500) ∷ []) ∷ []
unfolding second_frame show_round without
second_plots = refl

abbrev screen : List Text
screen = codes "    " ∷ codes "  a  " ∷ codes "" ∷ codes "  b c " ∷ codes "  " ∷ []

capture_live_ui_lem_example :
    capture_live_ui true screen ≡ (if true then some (trim_start (shown_rows [] screen)) else none)
capture_live_ui_lem_example = capture_live_ui_lem true screen

captured : capture_live_ui true screen ≡ some (codes "a" ++ 10 ∷ codes "  b c")
unfolding capture_live_ui capture_rows trim_start trim_end
captured = refl
