-- ===== src/Examples/Presses.antt =====
-- _examples/circuit-breaker-playground/main.go: the response times after a sequence of keys.
use plt.Base.{
  ℕ, ◌*◌, ◌/◌, ◌^◌, ◌≤◌, ◌<◌, ◌≡◌, refl, Bool, true, ◌&&◌, List, [], ◌∷◌, ltb, leb, arith,
  if◌then◌else◌,
}
use plt.Examples.Delayed.{Part}
use plt.Examples.Playground.{
  Arrow, Playground, press_keys, response_time, min_resp, millisecond, load_limits_widget, Shown,
  max_shown,
}
use plt.Examples.Window.{twentieths, arrow_pressed_lem, response_time-bounds}

-- The longest time after the keys, in exact twentieths.
unfoldable pub longest_after : List Arrow → ℕ → ℕ
longest_after [] n = n
longest_after (k ∷ more) n = longest_after more (twentieths k n)

-- No key is pressed at 2^48 nanoseconds or more, which are three days, nor leads there.
unfoldable pub stays_small : List Arrow → ℕ → Bool
stays_small [] n = ltb n (2 ^ 48)
stays_small (k ∷ more) n = ltb n (2 ^ 48) && stays_small more (twentieths k n)

press_keys_lem :
    (keys : List Arrow) (p : Playground)
    → stays_small keys p.max_resp ≡ true
    → press_keys keys p ≡ record p { max_resp = longest_after keys p.max_resp }
unfolding press_keys stays_small longest_after
press_keys_lem [] p h = refl
press_keys_lem (k ∷ more) p h =
    rw (arrow_pressed_lem k p (ground arith))
      (press_keys_lem more (record p { max_resp = twentieths k p.max_resp }) (ground arith))

longest_small :
    (keys : List Arrow) (n : ℕ) → stays_small keys n ≡ true → longest_after keys n < 2 ^ 48
unfolding stays_small longest_after
longest_small [] n h = ground arith
longest_small (k ∷ more) n h = longest_small more (twentieths k n) (ground arith)

abbrev pub least : ℕ → ℕ → ℕ
least a b = if leb a b then a else b

abbrev pub greatest : ℕ → ℕ → ℕ
greatest a b = if leb a b then b else a

-- After any keys that keep the longest time below 2^48 nanoseconds, and for every random number: a
-- response takes at least the smaller and at most the greater of the shortest time and of the
-- longest, which is the product of the keys, each time truncated, in exact twentieths; the widget
-- shows that longest time in whole milliseconds.
pub press_keys-window :
    (keys : List Arrow) (p : Playground) (r : ℕ) (message : List Part)
    → stays_small keys p.max_resp ≡ true
    → r < 2 ^ 53
    → (least min_resp (longest_after keys p.max_resp)
        ≤ response_time min_resp (press_keys keys p).max_resp r)
      × (response_time min_resp (press_keys keys p).max_resp r
          ≤ greatest min_resp (longest_after keys p.max_resp))
      × ((rest : List Shown) × (load_limits_widget message (press_keys keys p)
            ≡ max_shown (longest_after keys p.max_resp / millisecond * millisecond) ∷ rest))
unfolding load_limits_widget
press_keys-window keys p r message h fraction =
    let small = longest_small keys p.max_resp h in
    let longest = longest_after keys p.max_resp in
    let (above, below) =
      response_time-bounds min_resp longest r (least min_resp longest) (greatest min_resp longest)
        fraction (ground arith) (ground arith) (ground arith) (ground arith) (ground arith) in
    rw (press_keys_lem keys p h) (above, below, (_, refl))
