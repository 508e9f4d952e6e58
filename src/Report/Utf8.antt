-- ===== src/Report/Utf8.antt =====
-- The standard library's `utf8.Valid`, which report/print.go calls, as a machine over the bytes.
use plt.Base.{
  ℕ, zero, suc, ◌≡◌, refl, Bool, false, true, ◌&&◌, [], ◌∷◌, ◌++◌, leb, if◌then◌else◌, Text,
}

-- Between two characters, or inside one: the next byte's range, and the number of bytes after it.
pub data Expect : Type 0 where
  start : Expect
  within : (low high more : ℕ) → Expect
  reject : Expect

abbrev between : ℕ → ℕ → ℕ → Bool
between lo hi b = leb lo b && leb b hi

-- The table of first bytes.
unfoldable pub first_byte : ℕ → Expect
first_byte b =
    if leb b 0x7f
    then start
    else if between 0xc2 0xdf b
    then within 0x80 0xbf 0
    else if between 0xe0 0xe0 b
    then within 0xa0 0xbf 1
    else if between 0xed 0xed b
    then within 0x80 0x9f 1
    else if between 0xe1 0xef b
    then within 0x80 0xbf 1
    else if between 0xf0 0xf0 b
    then within 0x90 0xbf 2
    else if between 0xf1 0xf3 b
    then within 0x80 0xbf 2
    else if between 0xf4 0xf4 b
    then within 0x80 0x8f 2
    else reject

abbrev continue_with : ℕ → Expect
continue_with zero = start
continue_with (suc more) = within 0x80 0xbf more

unfoldable pub next_byte : Expect → ℕ → Expect
unfolding first_byte
next_byte start b = first_byte b
next_byte (within lo hi more) b = if between lo hi b then continue_with more else reject
next_byte reject b = reject

unfoldable pub scan : Expect → Text → Expect
unfolding next_byte
scan e [] = e
scan e (b ∷ s) = scan (next_byte e b) s

abbrev pub is_start : Expect → Bool
is_start start = true
is_start _ = false

unfoldable pub valid : Text → Bool
unfolding scan
valid s = is_start (scan start s)

pub scan-append : (e : Expect) (s t : Text) → scan e (s ++ t) ≡ scan (scan e s) t
unfolding scan
scan-append e [] t = refl
scan-append e (b ∷ s) t = scan-append (next_byte e b) s t

pub scan-reject : (t : Text) → scan reject t ≡ reject
unfolding scan next_byte
scan-reject [] = refl
scan-reject (b ∷ t) = scan-reject t
