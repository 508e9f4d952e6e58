-- ===== src/Base/Texts.antt =====
-- Texts as lists of bytes: literals, equality, prefixes, and decimal numerals.
use Prim.Native.Char.{code}
use Prim.Native.String.{String}
use Prim.Native.Nat.{ℕ, zero, suc, ◌+◌, ◌/◌, ◌%◌}
use mathlib.Core.Path.{◌≡◌, refl}
use mathlib.Core.Bool.{Bool, true, false, ◌&&◌}
use mathlib.Core.List.{List, [], ◌∷◌}
use native.Mathlib.Omega.{arith}
use plt.Base.Tests.{◌==◌, if◌then◌else◌, ltb}

abbrev pub Text : Type 0
Text = List ℕ

-- The bytes of an ASCII literal.
abbrev pub codes : String → Text
codes String.[] = []
codes (String.◌∷◌ c s) = code c ∷ codes s

abbrev pub text_eq : Text → Text → Bool
text_eq [] [] = true
text_eq (a ∷ s) (b ∷ t) = a == b && text_eq s t
text_eq _ _ = false

abbrev pub has_prefix : Text → Text → Bool
has_prefix s [] = true
has_prefix [] (b ∷ t) = false
has_prefix (a ∷ s) (b ∷ t) = a == b && has_prefix s t

abbrev pub is_empty {ℓ} : {A : Type ℓ} → List A → Bool
is_empty [] = true
is_empty (_ ∷ _) = false

pub text_eq_sound : (s t : Text) → text_eq s t ≡ true → s ≡ t
text_eq_sound [] [] h = refl
text_eq_sound [] (b ∷ t) h = ground arith
text_eq_sound (a ∷ s) [] h = ground arith
text_eq_sound (a ∷ s) (b ∷ t) h = ground (arith, text_eq_sound s t)

pub text_eq_refl : (s : Text) → text_eq s s ≡ true
text_eq_refl [] = refl
text_eq_refl (a ∷ s) = ground (arith, text_eq_refl s)

-- The decimal digits of `n`, before `rest`; the fuel bounds their number.
unfoldable pub decimal_onto : ℕ → ℕ → Text → Text
decimal_onto zero n rest = rest
decimal_onto (suc f) n rest =
    let digit = 48 + n % 10 in
    let more = decimal_onto f (n / 10) (digit ∷ rest) in if ltb n 10 then digit ∷ rest else more

-- As many digits as the number and one more are enough.
unfoldable pub decimal : ℕ → Text
unfolding decimal_onto
decimal n = decimal_onto (suc n) n []
