-- ===== src/Base/Lists.antt =====
-- Lists measured and indexed by native numbers, under the library's names, and sums of weights.
use Prim.Native.Nat.{ℕ, zero, suc, ◌+◌, ◌≤◌, min}
use mathlib.Core.Path.{◌≡◌, refl, ap}
use mathlib.Core.List.{List, [], ◌∷◌, ◌++◌}
use mathlib.Core.Bool.{Bool, true, ◌&&◌}
use mathlib.Core.Option.{Option, none, some}
use native.Mathlib.Omega.{arith}

module _ {ℓ} {A : Type ℓ} where
  abbrev pub length : List A → ℕ
  length [] = 0
  length (x ∷ xs) = suc (length xs)

  abbrev pub get_elem? : List A → ℕ → Option A
  get_elem? [] i = none
  get_elem? (x ∷ xs) zero = some x
  get_elem? (x ∷ xs) (suc i) = get_elem? xs i

  -- A write out of bounds changes nothing.
  abbrev pub set : List A → ℕ → A → List A
  set [] i v = []
  set (x ∷ xs) zero v = v ∷ xs
  set (x ∷ xs) (suc i) v = x ∷ set xs i v

  abbrev pub erase_at : List A → ℕ → List A
  erase_at [] i = []
  erase_at (x ∷ xs) zero = xs
  erase_at (x ∷ xs) (suc i) = x ∷ erase_at xs i

  abbrev pub take : ℕ → List A → List A
  take zero xs = []
  take (suc n) [] = []
  take (suc n) (x ∷ xs) = x ∷ take n xs

  abbrev pub drop : ℕ → List A → List A
  drop zero xs = xs
  drop (suc n) [] = []
  drop (suc n) (x ∷ xs) = drop n xs

  pub length-append : (xs ys : List A) → length (xs ++ ys) ≡ length xs + length ys
  length-append [] ys = omega arith
  length-append (x ∷ xs) ys = omega (arith, length-append xs ys)

  pub length-take : (n : ℕ) (xs : List A) → length (take n xs) ≡ min n (length xs)
  length-take zero xs = omega arith
  length-take (suc n) [] = omega arith
  length-take (suc n) (x ∷ xs) = omega (arith, length-take n xs)

  pub take-of-le : (n : ℕ) (xs : List A) → length xs ≤ n → take n xs ≡ xs
  take-of-le zero [] h = refl
  take-of-le zero (x ∷ xs) h = absurd (omega arith)
  take-of-le (suc n) [] h = refl
  take-of-le (suc n) (x ∷ xs) h = ap (◌∷◌ x) (take-of-le n xs (omega arith))

-- The sum of the weights of a list's entries, and how one write or removal changes it.
module _ {ℓ} {A : Type ℓ} (w : A → ℕ) where
  abbrev pub total : List A → ℕ
  total [] = 0
  total (x ∷ xs) = w x + total xs

module _ {ℓ} {A : Type ℓ} (w : A → ℕ) where
  pub total-set :
      (xs : List A) (i : ℕ) (old new : A)
      → get_elem? xs i ≡ some old
      → total w (set xs i new) + w old ≡ total w xs + w new
  total-set [] i old new h = ground arith
  total-set (x ∷ xs) zero old new h = ground arith
  total-set (x ∷ xs) (suc i) old new h = omega (arith, total-set xs i old new h)

  pub total-erase_at :
      (xs : List A) (i : ℕ) (old : A)
      → get_elem? xs i ≡ some old
      → total w (erase_at xs i) + w old ≡ total w xs
  total-erase_at [] i old h = ground arith
  total-erase_at (x ∷ xs) zero old h = ground arith
  total-erase_at (x ∷ xs) (suc i) old h = omega (arith, total-erase_at xs i old h)

module _ {ℓ} {A : Type ℓ} where
  -- The first entries of a list that starts with that many.
  pub take-append : (n : ℕ) (xs ys : List A) → n ≤ length xs → take n (xs ++ ys) ≡ take n xs
  take-append zero xs ys h = refl
  take-append (suc n) [] ys h = absurd (omega arith)
  take-append (suc n) (x ∷ xs) ys h = ap (◌∷◌ x) (take-append n xs ys (omega arith))

  pub take-length : (xs ys : List A) → take (length xs) (xs ++ ys) ≡ xs
  take-length [] ys = refl
  take-length (x ∷ xs) ys = ap (◌∷◌ x) (take-length xs ys)

-- A test that holds of every entry.
module _ {ℓ} {A : Type ℓ} (test : A → Bool) where
  abbrev pub all_of : List A → Bool
  all_of [] = true
  all_of (x ∷ xs) = test x && all_of xs

module _ {ℓ} {A : Type ℓ} (test : A → Bool) where
  pub all_of-append :
      (xs ys : List A)
      → all_of test xs ≡ true
      → all_of test ys ≡ true
      → all_of test (xs ++ ys) ≡ true
  all_of-append [] ys h k = k
  all_of-append (x ∷ xs) ys h k = ground (arith, all_of-append xs ys)

  pub all_of-set :
      (xs : List A) (i : ℕ) (x : A)
      → all_of test xs ≡ true
      → test x ≡ true
      → all_of test (set xs i x) ≡ true
  all_of-set [] i x h k = refl
  all_of-set (y ∷ xs) zero x h k = ground arith
  all_of-set (y ∷ xs) (suc i) x h k = ground (arith, all_of-set xs i x)

  pub all_of-get :
      (xs : List A) (i : ℕ) (x : A)
      → all_of test xs ≡ true
      → get_elem? xs i ≡ some x
      → test x ≡ true
  all_of-get [] i x h k = absurd (ground arith)
  all_of-get (y ∷ xs) zero x h k = ground arith
  all_of-get (y ∷ xs) (suc i) x h k = all_of-get xs i x (ground arith) k
