-- ===== src/Loadgen/Windows.antt =====
-- loadgen/run.go: the live ui's plots are the last values of the whole history.
use plt.Base.{
  ℕ, zero, suc, ◌+◌, ◌-◌, ◌≤◌, ◌≡◌, refl, sym, ap, ◌∙◌, Bool, true, false, List, [], ◌∷◌, ◌++◌,
  length, drop, ltb, arith, if◌then◌else◌, Text, text_eq, text_eq_sound, length-append, Bool-cases,
  inl, inr,
}
use mathlib.Core.List.{append-nil, append_assoc}
use plt.Base.Dict.{without}
use plt.Loadgen.LiveUi.{
  plot_tail_size, Rate, Reading, keep_tail, shown_counts, sort_names, series, push_rate, put_rate,
  put_rates,
}

drop-append {ℓ} :
    {A : Type ℓ} (n : ℕ) (xs ys : List A) → n ≤ length xs → drop n (xs ++ ys) ≡ drop n xs ++ ys
drop-append zero xs ys h = refl
drop-append (suc n) [] ys h = absurd (omega arith)
drop-append (suc n) (x ∷ xs) ys h = drop-append n xs ys (omega arith)

drop-nil {ℓ} : {A : Type ℓ} (n : ℕ) → drop {A = A} n [] ≡ []
drop-nil zero = refl
drop-nil (suc n) = refl

drop-drop {ℓ} : {A : Type ℓ} (m n : ℕ) (xs : List A) → drop m (drop n xs) ≡ drop (n + m) xs
drop-drop m zero xs = ap (λ k. drop k xs) {x = m} {y = 0 + m} (omega arith)
drop-drop m (suc n) [] = drop-nil m ∙ sym (drop-nil (suc n + m))
drop-drop m (suc n) (x ∷ xs) =
    drop-drop m n xs ∙ ap (λ k. drop k (x ∷ xs)) {x = suc (n + m)} {y = suc n + m} (omega arith)

pub length-drop {ℓ} : {A : Type ℓ} (n : ℕ) (xs : List A) → length (drop n xs) ≡ length xs - n
length-drop zero xs = omega arith
length-drop (suc n) [] = omega arith
length-drop (suc n) (x ∷ xs) = omega (arith, length-drop n xs)

pub keep_tail_lem {ℓ} :
    {A : Type ℓ} (xs : List A) → keep_tail xs ≡ drop (length xs - plot_tail_size) xs
unfolding keep_tail
keep_tail_lem xs = elim (Bool-cases (ltb plot_tail_size (length xs))) [
  | inl e ↦ rw e refl
  | inr e ↦ rw e (ap (λ k. drop k xs) {x = 0} {y = length xs - plot_tail_size} (ground arith))
]

-- Cutting each time is cutting once.
pub keep_tail-append {ℓ} :
    {A : Type ℓ} (xs : List A) (x : A)
    → keep_tail (keep_tail xs ++ (x ∷ [])) ≡ keep_tail (xs ++ (x ∷ []))
keep_tail-append xs x =
    let d = length xs - plot_tail_size in
    let ys = xs ++ (x ∷ []) in
    let joined : keep_tail xs ++ (x ∷ []) ≡ drop d ys =
      ap (λ t. t ++ (x ∷ [])) (keep_tail_lem xs) ∙ sym (drop-append d xs (x ∷ []) (omega arith)) in
    ap keep_tail joined
    ∙ keep_tail_lem (drop d ys)
    ∙ drop-drop (length (drop d ys) - plot_tail_size) d ys
    ∙ ap (λ k. drop k ys) {x = d + (length (drop d ys) - plot_tail_size)}
        {y = length ys - plot_tail_size}
        (omega (arith, length-drop d ys, length-append xs (x ∷ [])))
    ∙ sym (keep_tail_lem ys)

push_rate-keep_tail : (xs : List Rate) (r : Rate) → push_rate xs r ≡ keep_tail (xs ++ (r ∷ []))
unfolding push_rate keep_tail
push_rate-keep_tail xs r = ground arith

series-without :
    (gone name : Text) (rates : List (Text × List Rate))
    → text_eq gone name ≡ false
    → series name (without (λ other. text_eq other gone) rates) ≡ series name rates
unfolding series without
series-without gone name [] h = refl
series-without gone name (e ∷ rates) h =
    ground (arith, series-without gone name rates, text_eq_apart e.0 gone name)
  where
    text_eq_apart : (i k j : Text) → text_eq i k ≡ true → text_eq k j ≡ false → text_eq i j ≡ false
    text_eq_apart i k j e h = ap (λ t. text_eq t j) (text_eq_sound i k e) ∙ h

series-put_rate :
    (key name : Text) (r : Rate) (rates : List (Text × List Rate)) (past : List Rate)
    → series name rates ≡ keep_tail past
    → series name (put_rate key r rates)
      ≡ keep_tail (if text_eq key name then past ++ (r ∷ []) else past)
unfolding put_rate series
series-put_rate key name r rates past h = elim (Bool-cases (text_eq key name)) [
  | inl e ↦ rw e (
      push_rate-keep_tail (series key rates) r
      ∙ ap (λ t. keep_tail (series t rates ++ (r ∷ []))) (text_eq_sound key name e)
      ∙ ap (λ t. keep_tail (t ++ (r ∷ []))) h
      ∙ keep_tail-append past r)
  | inr e ↦ rw e (series-without key name rates e ∙ h)
]

-- The rates of a name among the entries of a round, and in a history of rounds.
abbrev pub appearances : Text → List (Text × ℕ) → ℕ → List Rate
appearances name [] elapsed = []
appearances name (e ∷ entries) elapsed =
    (if text_eq e.0 name then (e.1, elapsed) ∷ [] else []) ++ appearances name entries elapsed

abbrev pub history : Text → List Reading → List Rate
history name [] = []
history name (r ∷ rest) =
    appearances name (sort_names (shown_counts r)) r.elapsed ++ history name rest

pub series-put_rates :
    (name : Text) (entries : List (Text × ℕ)) (elapsed : ℕ) (rates : List (Text × List Rate))
    (past : List Rate)
    → series name rates ≡ keep_tail past
    → series name (put_rates entries elapsed rates)
      ≡ keep_tail (past ++ appearances name entries elapsed)
unfolding put_rates
series-put_rates name [] elapsed rates past h = h ∙ ap keep_tail (sym (append-nil past))
series-put_rates name (e ∷ entries) elapsed rates past h =
    series-put_rates name entries elapsed (put_rate e.0 (e.1, elapsed) rates)
      (if text_eq e.0 name then past ++ ((e.1, elapsed) ∷ []) else past)
      (series-put_rate e.0 name (e.1, elapsed) rates past h)
    ∙ ap keep_tail (joined (text_eq e.0 name))
  where
    joined :
        (b : Bool)
        → (if b then past ++ ((e.1, elapsed) ∷ []) else past) ++ appearances name entries elapsed
          ≡ past ++ ((if b then (e.1, elapsed) ∷ [] else []) ++ appearances name entries elapsed)
    joined true = append_assoc past ((e.1, elapsed) ∷ []) (appearances name entries elapsed)
    joined false = refl
