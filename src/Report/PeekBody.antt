-- ===== src/Report/PeekBody.antt =====
-- report/print.go: `PeekBody`, the head of a response body for the summary.
use plt.Base.{
  ℕ, suc, ◌+◌, ◌≤◌, ◌<◌, ◌≡◌, refl, ap, ◌∙◌, ◌⊎◌, false, true, [], ◌∷◌, ◌++◌, arith, ltb,
  if◌then◌else◌, length, take, length-append, length-take, take-of-le, Text, codes,
}
use plt.Report.Utf8.{valid, start, scan, scan-append, first_byte, next_byte}

abbrev pub non_printable : Text
non_printable = codes "<non-printable-binary-data>"

abbrev pub dots : Text
dots = codes "..."

unfoldable pub peek_body : Text → ℕ → Text
peek_body body l =
    let too_long = ltb l (length body) in
    let head = if too_long then take l body else body in
    if valid head then (if too_long then head ++ dots else head) else non_printable

-- A valid body that fits is shown whole. A longer one is shown by its first `l` bytes and three
-- dots, if those bytes are valid by themselves. All else is shown by the fixed text.
pub peek_body_cases :
    (body : Text) (l : ℕ)
    → ((length body ≤ l) × (valid body ≡ true) × (peek_body body l ≡ body))
      ⊎ (((l < length body)
            × (valid (take l body) ≡ true)
            × (peek_body body l ≡ take l body ++ dots))
          ⊎ ((valid (take l body) ≡ false) × (peek_body body l ≡ non_printable)))
unfolding peek_body
peek_body_cases body l = ground (arith, take-of-le l body)

-- The sample never exceeds the limit by more than the dots, or the fixed text's 27 bytes.
pub length-peek_body :
    (body : Text) (l : ℕ) → (length (peek_body body l) ≤ l + 3) ⊎ (peek_body body l ≡ non_printable)
unfolding peek_body
length-peek_body body l = ground (arith, length-append (take l body) dots, length-take l body)

take_head :
    (xs : Text) (a : ℕ) (more : Text) → take (suc (length xs)) (xs ++ a ∷ more) ≡ xs ++ a ∷ []
take_head [] a more = refl
take_head (x ∷ xs) a more = ap (◌∷◌ x) (take_head xs a more)

valid-start : (s : Text) → valid s ≡ true → scan start s ≡ start
unfolding valid
valid-start s h = ground arith

-- The cut is by bytes: a body of valid text whose two-byte character stands across the limit is
-- shown as binary data.
pub cut_character_is_binary :
    (xs : Text) (a b : ℕ) (rest : Text)
    → valid xs ≡ true
    → valid rest ≡ true
    → 0xc2 ≤ a
    → a ≤ 0xdf
    → 0x80 ≤ b
    → b ≤ 0xbf
    → (valid (xs ++ a ∷ b ∷ rest) ≡ true)
      × (peek_body (xs ++ a ∷ b ∷ rest) (suc (length xs)) ≡ non_printable)
unfolding peek_body valid scan next_byte first_byte
cut_character_is_binary xs a b rest hx hr a₁ a₂ b₁ b₂ =
    let whole : scan start (xs ++ a ∷ b ∷ rest) ≡ scan start (a ∷ b ∷ rest) =
      scan-append start xs (a ∷ b ∷ rest) ∙ ap (λ e. scan e (a ∷ b ∷ rest)) (valid-start xs hx) in
    let part : scan start (xs ++ a ∷ []) ≡ scan start (a ∷ []) =
      scan-append start xs (a ∷ []) ∙ ap (λ e. scan e (a ∷ [])) (valid-start xs hx) in
    (
      rw whole (ground arith),
      ground (arith, part, take_head xs a (b ∷ rest), length-append xs (a ∷ b ∷ rest)),
    )
