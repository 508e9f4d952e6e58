-- ===== src/Loadgen/Capture.antt =====
-- loadgen/run.go: `captureLiveUI`, which prints what the live ui last showed. The screen is the rows of
-- the terminal from the top, each the bytes of its cells in UTF-8.
use mathlib.Core.List.{append_assoc, append-nil}
use plt.Base.{
  ℕ, ◌≡◌, refl, sym, ap, ◌∙◌, Bool, ◌&&◌, ◌||◌, Option, none, some, List, [], ◌∷◌, ◌++◌, arith,
  ◌==◌, if◌then◌else◌, is_empty, Text,
}

-- The cutset of the trims: newline, space and zero.
abbrev pub is_blank : ℕ → Bool
is_blank c = c == 10 || c == 32 || c == 0

unfoldable pub trim_start : Text → Text
trim_start [] = []
trim_start (c ∷ t) = let rest = trim_start t in if is_blank c then rest else c ∷ t

unfoldable pub trim_end : Text → Text
trim_end [] = []
trim_end (c ∷ t) = let rest = trim_end t in if is_blank c && is_empty rest then [] else c ∷ rest

-- `bytes.Trim`.
abbrev pub bytes_trim : Text → Text
bytes_trim t = trim_end (trim_start t)

unfoldable pub capture_rows : Text → List Text → Text
unfolding trim_start trim_end
capture_rows buf [] = buf
capture_rows buf (row ∷ rows) = capture_rows (bytes_trim (buf ++ row) ++ (10 ∷ [])) rows

-- Nothing is printed without the live ui.
unfoldable pub capture_live_ui : Bool → List Text → Option Text
unfolding capture_rows
capture_live_ui live_ui screen =
    if live_ui then some (bytes_trim (capture_rows [] screen)) else none

-- The text of the rows that are not blank, without the blanks at their ends.
abbrev pub add_line : Text → Text → Text
add_line text line =
    if is_empty line then text else if is_empty text then line else text ++ 10 ∷ line

unfoldable pub shown_rows : Text → List Text → Text
shown_rows text [] = text
shown_rows text (row ∷ rows) = shown_rows (add_line text (trim_end row)) rows

is_empty-append : (a b : Text) → is_empty (a ++ b) ≡ (is_empty a && is_empty b)
is_empty-append [] b = refl
is_empty-append (c ∷ a) b = refl

trim_end-append :
    (a b : Text)
    → trim_end (a ++ b) ≡ (if is_empty (trim_end b) then trim_end a else a ++ trim_end b)
unfolding trim_end
trim_end-append [] b = ground arith
trim_end-append (c ∷ a) b = ground (arith, trim_end-append a b, is_empty-append a (trim_end b))

trim_start-append : (a b : Text) → trim_start (trim_start a ++ b) ≡ trim_start (a ++ b)
unfolding trim_start
trim_start-append [] b = refl
trim_start-append (c ∷ a) b = ground (arith, trim_start-append a b)

trim_end-trim_end : (a : Text) → trim_end (trim_end a) ≡ trim_end a
unfolding trim_end
trim_end-trim_end [] = refl
trim_end-trim_end (c ∷ a) = ground (arith, trim_end-trim_end a)

trim_end-trim_start : (a : Text) → trim_end (trim_start a) ≡ trim_start (trim_end a)
unfolding trim_end trim_start
trim_end-trim_start [] = refl
trim_end-trim_start (c ∷ a) = ground (arith, trim_end-trim_start a)

newline-trim_end :
    (text row : Text)
    → trim_end text ≡ text
    → trim_start (trim_end (text ++ 10 ∷ row)) ≡ trim_start (add_line text (trim_end row))
unfolding trim_start trim_end
newline-trim_end [] row ended = ground arith
newline-trim_end (c ∷ text) row ended = ground (arith, trim_end-append (c ∷ text) (10 ∷ row))

-- A row is added to the text that the buffer shows.
bytes_trim-row :
    (text row : Text)
    → trim_end text ≡ text
    → bytes_trim ((trim_start text ++ 10 ∷ []) ++ row) ≡ trim_start (add_line text (trim_end row))
bytes_trim-row text row ended =
    ap bytes_trim (append_assoc (trim_start text) (10 ∷ []) row)
    ∙ ap trim_end (trim_start-append text (10 ∷ row))
    ∙ trim_end-trim_start (text ++ 10 ∷ row)
    ∙ newline-trim_end text row ended

-- The text has no blanks at its end.
add_line-ended :
    (text row : Text)
    → trim_end text ≡ text
    → trim_end (add_line text (trim_end row)) ≡ add_line text (trim_end row)
unfolding trim_end
add_line-ended text row ended =
    ground (arith, trim_end-append text (10 ∷ trim_end row), trim_end-trim_end row)

capture_rows-shown :
    (text : Text) (rows : List Text)
    → trim_end text ≡ text
    → bytes_trim (capture_rows (trim_start text ++ 10 ∷ []) rows)
      ≡ trim_start (shown_rows text rows)
unfolding capture_rows shown_rows trim_end
capture_rows-shown text [] ended =
    ap bytes_trim (sym (append-nil (trim_start text ++ 10 ∷ []))) ∙ bytes_trim-row text [] ended
capture_rows-shown text (row ∷ rows) ended =
    ap (λ t. bytes_trim (capture_rows (t ++ 10 ∷ []) rows)) (bytes_trim-row text row ended)
    ∙ capture_rows-shown (add_line text (trim_end row)) rows (add_line-ended text row ended)

add_line-first : (line : Text) → add_line [] line ≡ line
add_line-first [] = refl
add_line-first (c ∷ line) = refl

capture-shown :
    (screen : List Text) → bytes_trim (capture_rows [] screen) ≡ trim_start (shown_rows [] screen)
unfolding capture_rows shown_rows trim_start trim_end
capture-shown [] = refl
capture-shown (row ∷ rows) =
    ap (λ t. bytes_trim (capture_rows (t ++ 10 ∷ []) rows)) (trim_end-trim_start row)
    ∙ capture_rows-shown (trim_end row) rows (trim_end-trim_end row)
    ∙ ap (λ t. trim_start (shown_rows t rows)) (sym (add_line-first (trim_end row)))

-- What is printed is the rows of the screen that are not blank, each without the blanks at its end, with a
-- newline between two, and without the blanks at the start of all; nothing without the live ui.
pub capture_live_ui_lem :
    (live_ui : Bool) (screen : List Text)
    → capture_live_ui live_ui screen
      ≡ (if live_ui then some (trim_start (shown_rows [] screen)) else none)
unfolding capture_live_ui
capture_live_ui_lem live_ui screen =
    ap (λ t. if live_ui then some t else none) (capture-shown screen)
