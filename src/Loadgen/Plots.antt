-- ===== src/Loadgen/Plots.antt =====
-- loadgen/run.go: the live ui's plots after any rounds, against the whole history of the rounds.
use mathlib.Core.List.{append-nil, append_assoc}
use plt.Base.{
  ◌-◌, ◌≡◌, refl, sym, ap, ◌∙◌, List, [], ◌∷◌, ◌++◌, ℤ, length, arith, map, Text, length-append,
}
use plt.Loadgen.LiveUi.{
  plot_tail_size, Rate, Reading, View, first_view, keep_tail, shown_counts, sort_names, series,
  show_round, show_rounds, cut_both,
}
use plt.Loadgen.Windows.{
  keep_tail-append, length-drop, keep_tail_lem, appearances, history, series-put_rates,
}

abbrev pub all_mins : List Reading → List ℤ
all_mins = map (λ r. r.rolling_min)

abbrev pub all_maxs : List Reading → List ℤ
all_maxs = map (λ r. r.rolling_max)

-- The loop's variables hold the last values of a past history.
record Holds (v : View) (rates : Text → List Rate) (mins maxs : List ℤ) : Type 0 where
  rates_held : (name : Text) → series name v.rates ≡ keep_tail (rates name)
  mins_held : v.mins ≡ keep_tail mins
  maxs_held : v.maxs ≡ keep_tail maxs
  as_many : length mins ≡ length maxs

length-keep_tail {ℓ} :
    {A B : Type ℓ} (xs : List A) (ys : List B)
    → length xs ≡ length ys
    → length (keep_tail xs) ≡ length (keep_tail ys)
length-keep_tail xs ys e =
    ap length (keep_tail_lem xs)
    ∙ length-drop (length xs - plot_tail_size) xs
    ∙ ap (λ k. k - (k - plot_tail_size)) e
    ∙ sym (ap length (keep_tail_lem ys) ∙ length-drop (length ys - plot_tail_size) ys)

cut_both-keep_tail :
    (xs ys : List ℤ) → length xs ≡ length ys → cut_both xs ys ≡ (keep_tail xs, keep_tail ys)
unfolding keep_tail
cut_both-keep_tail xs ys e = ground arith

show_round-Holds :
    (r : Reading) (v : View) (rates : Text → List Rate) (mins maxs : List ℤ)
    → Holds v rates mins maxs
    → Holds
        (show_round r v).0
        (λ name. rates name ++ appearances name (sort_names (shown_counts r)) r.elapsed)
        (mins ++ (r.rolling_min ∷ []))
        (maxs ++ (r.rolling_max ∷ []))
unfolding show_round
show_round-Holds r v rates mins maxs h = record {
  rates_held = λ name.
      series-put_rates name (sort_names (shown_counts r)) r.elapsed v.rates (rates name)
        (h.rates_held name);
  mins_held = ap (λ t. t.0) (cut r.rolling_min r.rolling_max);
  maxs_held = ap (λ t. t.1) (cut r.rolling_min r.rolling_max);
  as_many = omega (
    arith,
    h.as_many,
    length-append mins (r.rolling_min ∷ []),
    length-append maxs (r.rolling_max ∷ []),
  );
}
  where
    cut :
        (low high : ℤ)
        → cut_both (v.mins ++ (low ∷ [])) (v.maxs ++ (high ∷ []))
          ≡ (keep_tail (mins ++ (low ∷ [])), keep_tail (maxs ++ (high ∷ [])))
    cut low high =
        ap (λ t. cut_both (t ++ (low ∷ [])) (v.maxs ++ (high ∷ []))) h.mins_held
        ∙ ap (λ t. cut_both (keep_tail mins ++ (low ∷ [])) (t ++ (high ∷ []))) h.maxs_held
        ∙ cut_both-keep_tail (keep_tail mins ++ (low ∷ [])) (keep_tail maxs ++ (high ∷ [])) (
            omega (
              arith,
              length-append (keep_tail mins) (low ∷ []),
              length-append (keep_tail maxs) (high ∷ []),
              length-keep_tail mins maxs h.as_many,
            ))
        ∙ ap (λ t. (t, keep_tail (keep_tail maxs ++ (high ∷ [])))) (keep_tail-append mins low)
        ∙ ap (λ t. (keep_tail (mins ++ (low ∷ [])), t)) (keep_tail-append maxs high)

Holds-change :
    (v : View) (rates : Text → List Rate) (mins maxs : List ℤ) (others : Text → List Rate)
    (lows highs : List ℤ)
    → ((name : Text) → rates name ≡ others name)
    → mins ≡ lows
    → maxs ≡ highs
    → Holds v rates mins maxs
    → Holds v others lows highs
Holds-change v rates mins maxs others lows highs e low high h = record {
  rates_held = λ name. h.rates_held name ∙ ap keep_tail (e name);
  mins_held = h.mins_held ∙ ap keep_tail low;
  maxs_held = h.maxs_held ∙ ap keep_tail high;
  as_many = sym (ap length low) ∙ h.as_many ∙ ap length high;
}

show_rounds-Holds :
    (rs : List Reading) (v : View) (rates : Text → List Rate) (mins maxs : List ℤ)
    → Holds v rates mins maxs
    → Holds
        (show_rounds rs v)
        (λ name. rates name ++ history name rs)
        (mins ++ all_mins rs)
        (maxs ++ all_maxs rs)
unfolding show_rounds
show_rounds-Holds [] v rates mins maxs h =
    Holds-change v rates mins maxs (λ name. rates name ++ history name []) (mins ++ []) (maxs ++ [])
      (λ name. sym (append-nil (rates name))) (sym (append-nil mins)) (sym (append-nil maxs)) h
show_rounds-Holds (r ∷ rs) v rates mins maxs h =
    let now = λ (name : Text). appearances name (sort_names (shown_counts r)) r.elapsed in
    Holds-change (show_rounds rs (show_round r v).0)
      (λ name. (rates name ++ now name) ++ history name rs)
      ((mins ++ (r.rolling_min ∷ [])) ++ all_mins rs)
      ((maxs ++ (r.rolling_max ∷ [])) ++ all_maxs rs) (λ name. rates name ++ history name (r ∷ rs))
      (mins ++ all_mins (r ∷ rs)) (maxs ++ all_maxs (r ∷ rs))
      (λ name. append_assoc (rates name) (now name) (history name rs))
      (append_assoc mins (r.rolling_min ∷ []) (all_mins rs))
      (append_assoc maxs (r.rolling_max ∷ []) (all_maxs rs))
      (show_rounds-Holds rs (show_round r v).0 (λ name. rates name ++ now name)
        (mins ++ (r.rolling_min ∷ [])) (maxs ++ (r.rolling_max ∷ []))
        (show_round-Holds r v rates mins maxs h))

first_view-Holds : Holds first_view (λ _. []) [] []
unfolding series keep_tail
first_view-Holds = record {
  rates_held = λ _. refl;
  mins_held = refl;
  maxs_held = refl;
  as_many = refl;
}

-- After any rounds of the live ui, the rates that it keeps for the plot of each name are the last 48
-- of all rates of that name, and the lines of the latency plot the last 48 of all lows and highs.
pub show_rounds_windows :
    (rs : List Reading) (name : Text)
    → let v = show_rounds rs first_view in
      (series name v.rates ≡ keep_tail (history name rs))
      × (v.mins ≡ keep_tail (all_mins rs))
      × (v.maxs ≡ keep_tail (all_maxs rs))
show_rounds_windows rs name =
    let held = show_rounds-Holds rs first_view (λ _. []) [] [] first_view-Holds in
    (held.rates_held name, held.mins_held, held.maxs_held)
