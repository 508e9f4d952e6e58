-- ===== src/Examples/Cplt.antt =====
-- _examples/cplt/cplt.go: the hook that spreads requests over different URLs.
use plt.Base.{
  ℕ, zero, suc, ◌/◌, ◌%◌, ◌≡◌, ◌↔◌, refl, Option, none, some, [], ◌∷◌, ◌++◌, ℤ, pos, negsuc,
  if◌then◌else◌, Text, text_eq, codes, decimal,
}
use plt.Nethttp.Itoa.{decimal_inj}

abbrev negate : ℕ → ℤ
negate zero = pos 0
negate (suc n) = negsuc n

-- Go's `/` and `%` truncate towards zero; `none` is the panic on a division by zero.
unfoldable pub quot : ℕ → ℤ → Option ℤ
quot i (pos zero) = none
quot i (pos (suc d)) = some (pos (i / suc d))
quot i (negsuc d) = some (negate (i / suc d))

abbrev size : ℤ → ℕ
size (pos n) = n
size (negsuc n) = suc n

abbrev signed_rem : ℤ → ℕ → Option ℤ
signed_rem k zero = none
signed_rem (pos k) (suc d) = some (pos (k % suc d))
signed_rem (negsuc k) (suc d) = some (negate (suc k % suc d))

unfoldable pub rem : ℤ → ℤ → Option ℤ
rem k d = signed_rem k (size d)

unfoldable pub itoa : ℤ → Text
itoa (pos n) = decimal n
itoa (negsuc n) = b'-' ∷ decimal (suc n)

abbrev pub query_start : Text
query_start = codes "locale=en-US&name=user"

-- The query of request `i`; `none` is a panic.
unfoldable pub prepare_request : ℤ → ℤ → ℕ → Text → Text → Option Text
unfolding quot rem itoa
prepare_request cardinality group i path query =
    if text_eq path (codes "/hello")
    then elim (quot i group) [
      | none ↦ none
      | some k ↦ elim (rem k cardinality) [ none ↦ none | some r ↦ some (query_start ++ itoa r) ]
    ]
    else some query

append_inj : (s t u : Text) → (s ++ t) ≡ (s ++ u) → t ≡ u
append_inj [] t u e = e
append_inj (c ∷ s) t u e = append_inj s t u (cc)

-- With a positive cardinality and group, the requests for the greeting never panic, and two of them
-- have the same query exactly if their groups have the same remainder by the cardinality: there
-- are as many different queries as the cardinality says, each for a group of requests in a row.
pub prepare_request_eq :
    (c g i j : ℕ) (query : Text)
    → let ask = λ (n : ℕ). prepare_request (pos (suc c)) (pos (suc g)) n (codes "/hello") query in
      (ask i ≡ some (query_start ++ decimal (i / suc g % suc c)))
      × ((ask i ≡ ask j) ↔ (i / suc g % suc c ≡ j / suc g % suc c))
unfolding prepare_request
prepare_request_eq c g i j query =
    (refl, (λ e. decimal_inj _ _ (append_inj query_start _ _ (cc)), λ e. rw e refl))
