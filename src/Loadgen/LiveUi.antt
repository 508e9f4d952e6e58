-- ===== src/Loadgen/LiveUi.antt =====
-- loadgen/run.go: what a round of `runLiveUI` keeps for its plots and shows of the counts. A rate is
-- a count with the nanoseconds that it is divided by; the widgets are the library's.
use plt.Base.{
  ℕ, ◌-◌, Bool, true, false, Option, none, some, List, [], ◌∷◌, ◌++◌, ℤ, length, drop, ltb, ◌==◌,
  if◌then◌else◌, Text, text_eq, codes,
}
use plt.Base.Dict.{without}

abbrev pub plot_tail_size : ℕ
plot_tail_size = 48

abbrev pub Rate : Type 0
Rate = ℕ × ℕ

-- What a round reads: the producer's counts (`none` for a nil map), the histogram's count, the errors,
-- the times since the start and since the last round, and the rolling collector's bounds.
pub record Reading : Type 0 where
  pub counts : Option (List (Text × ℕ))
  pub hist_count : ℕ
  pub err_cnt : ℕ
  pub elapsed : ℕ
  pub since_prev : ℕ
  pub rolling_min : ℤ
  pub rolling_max : ℤ

-- The variables of the loop: `rates`, the latency plot's two lines, and `reqPrev`.
pub record View : Type 0 where
  pub rates : List (Text × List Rate)
  pub mins : List ℤ
  pub maxs : List ℤ
  pub req_prev : ℕ

abbrev pub first_view : View
first_view = record { rates = []; mins = []; maxs = []; req_prev = 0 }

-- What a round draws.
pub record Frame : Type 0 where
  pub counters : List (Text × ℕ)
  pub plots : List (Text × List Rate)
  pub avg_rate : Rate
  pub tick_rate : Rate
  pub latency : Option (List ℤ × List ℤ)

-- The last 48 of a slice.
unfoldable pub keep_tail {ℓ} : {A : Type ℓ} → List A → List A
keep_tail xs = if ltb plot_tail_size (length xs) then drop (length xs - plot_tail_size) xs else xs

unfoldable pub put_count : Text → ℕ → List (Text × ℕ) → List (Text × ℕ)
put_count name n counts = (name, n) ∷ without (λ other. text_eq other name) counts

abbrev or_empty : Option (List (Text × ℕ)) → List (Text × ℕ)
or_empty none = []
or_empty (some counts) = counts

unfoldable pub shown_counts : Reading → List (Text × ℕ)
unfolding put_count
shown_counts r =
    let counts = put_count (codes "tot") r.hist_count (or_empty r.counts) in
    if r.err_cnt == 0 then counts else put_count (codes "err") r.err_cnt counts

-- The order of Go's strings: by bytes.
unfoldable pub text_lt : Text → Text → Bool
text_lt s [] = false
text_lt [] (b ∷ t) = true
text_lt (a ∷ s) (b ∷ t) = let rest = text_lt s t in if a == b then rest else ltb a b

unfoldable pub insert_name : Text × ℕ → List (Text × ℕ) → List (Text × ℕ)
insert_name e [] = e ∷ []
insert_name e (f ∷ sorted) =
    let later = insert_name e sorted in if text_lt f.0 e.0 then f ∷ later else e ∷ f ∷ sorted

unfoldable pub sort_names : List (Text × ℕ) → List (Text × ℕ)
unfolding text_lt insert_name
sort_names [] = []
sort_names (e ∷ entries) = insert_name e (sort_names entries)

-- `rates[name]`; a missing key reads as the empty slice.
unfoldable pub series : Text → List (Text × List Rate) → List Rate
series name [] = []
series name (e ∷ rates) = let later = series name rates in if text_eq e.0 name then e.1 else later

-- A slice of fewer than two rates is kept as it is.
unfoldable pub push_rate : List Rate → Rate → List Rate
unfolding keep_tail
push_rate xs r =
    let pushed = xs ++ (r ∷ []) in if ltb (length pushed) 2 then pushed else keep_tail pushed

unfoldable pub put_rate : Text → Rate → List (Text × List Rate) → List (Text × List Rate)
unfolding series push_rate
put_rate name r rates =
    (name, push_rate (series name rates) r) ∷ without (λ other. text_eq other name) rates

-- The loop over the sorted names, and the plots that it adds.
unfoldable pub put_rates : List (Text × ℕ) → ℕ → List (Text × List Rate) → List (Text × List Rate)
unfolding put_rate
put_rates [] elapsed rates = rates
put_rates (e ∷ entries) elapsed rates =
    put_rates entries elapsed (put_rate e.0 (e.1, elapsed) rates)

unfoldable pub plots_of : List (Text × ℕ) → ℕ → List (Text × List Rate) → List (Text × List Rate)
unfolding put_rate
plots_of [] elapsed rates = []
plots_of (e ∷ entries) elapsed rates =
    let next = put_rate e.0 (e.1, elapsed) rates in
    let rest = plots_of entries elapsed next in
    if ltb (length (series e.0 next)) 2 then rest else (e.0, series e.0 next) ∷ rest

-- Both lines are cut by the length of the first.
abbrev pub cut_both : List ℤ → List ℤ → List ℤ × List ℤ
cut_both mins maxs =
    if ltb plot_tail_size (length mins)
    then (drop (length mins - plot_tail_size) mins, drop (length mins - plot_tail_size) maxs)
    else (mins, maxs)

unfoldable pub show_round : Reading → View → View × Frame
unfolding shown_counts sort_names put_rates plots_of
show_round r v =
    let entries = sort_names (shown_counts r) in
    let (mins, maxs) = cut_both (v.mins ++ (r.rolling_min ∷ [])) (v.maxs ++ (r.rolling_max ∷ [])) in
    (
      record {
        rates = put_rates entries r.elapsed v.rates;
        mins = mins;
        maxs = maxs;
        req_prev = r.hist_count;
      },
      record {
        counters = entries;
        plots = plots_of entries r.elapsed v.rates;
        avg_rate = (r.hist_count, r.elapsed);
        tick_rate = (r.hist_count - v.req_prev, r.since_prev);
        latency = if ltb 1 (length mins) then some (mins, maxs) else none;
      },
    )

-- The rounds one after another.
unfoldable pub show_rounds : List Reading → View → View
unfolding show_round
show_rounds [] v = v
show_rounds (r ∷ rest) v = show_rounds rest (show_round r v).0
