-- ===== src/Base/Dict.antt =====
-- Maps as association lists without duplicate keys; numbers for keys.
use Prim.Native.Nat.{ℕ}
use mathlib.Core.Bool.{Bool}
use mathlib.Core.Path.{◌≡◌}
use mathlib.Core.List.{List, [], ◌∷◌}
use mathlib.Core.Option.{Option, none, some}
use native.Mathlib.Omega.{arith}
use plt.Base.Tests.{◌==◌, if◌then◌else◌}

-- What is left of a map without the keys of a kind.
unfoldable pub without {ℓ} : {K V : Type ℓ} → (K → Bool) → List (K × V) → List (K × V)
without drops [] = []
without drops (entry ∷ rest) =
    let kept = without drops rest in if drops entry.0 then kept else entry ∷ kept

module _ {V : Type 0} where
  unfoldable pub lookup : ℕ → List (ℕ × V) → Option V
  lookup key [] = none
  lookup key (entry ∷ rest) =
      let later = lookup key rest in if entry.0 == key then some entry.1 else later

  unfoldable pub insert : ℕ → V → List (ℕ × V) → List (ℕ × V)
  insert key value dict = (key, value) ∷ without (λ other. other == key) dict

  lookup-without :
      (gone key : ℕ) (dict : List (ℕ × V))
      → lookup key (without (λ other. other == gone) dict)
        ≡ (if gone == key then none else lookup key dict)
  unfolding lookup without
  lookup-without gone key [] = ground arith
  lookup-without gone key (entry ∷ rest) = ground (arith, lookup-without gone key rest)

  -- A key that was inserted has its new value, and any other key the value it had.
  pub lookup-insert :
      (key other : ℕ) (value : V) (dict : List (ℕ × V))
      → lookup other (insert key value dict)
        ≡ (if key == other then some value else lookup other dict)
  unfolding lookup insert
  lookup-insert key other value dict = ground (arith, lookup-without key other dict)
