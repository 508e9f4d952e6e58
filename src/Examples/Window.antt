-- ===== src/Examples/Window.antt =====
-- _examples/circuit-breaker-playground/main.go: rounding does not leave the window of response times, and
-- the keys change its end by a twentieth.
use native.Mathlib.Nat.{
  pow-suc, lt-div-mul-add, mul-le-mul_left, mul-le-mul_right, mod-add-div', div-lt_iff_lt-mul,
}
use plt.Base.{
  ℕ, zero, suc, ◌+◌, ◌-◌, ◌*◌, ◌/◌, ◌^◌, ◌≤◌, ◌<◌, ◌≡◌, refl, inl, inr, ap, ◌∙◌, arith, leb,
  Bool-cases,
}
use plt.Loadgen.Percent.{bits, round_to, round_53}
use plt.Loadgen.Rounding.{bits-le, pow_split, pow_pos, round_53-le, round_53-exact}
use plt.Examples.Playground.{
  raised, lowered, response_time, Playground, Arrow, up, down, arrow_pressed,
}

-- A multiple of the unit is not passed upwards.
round_to-le : (u x p : ℕ) → 0 < u → p ≤ x * u → round_to u p ≤ x * u
unfolding round_to
round_to-le u x p positive h = elim (Bool-cases (leb x (p / u))) [
  | inl e ↦
      let above : x ≤ p / u = ground arith in
      let floor : x * u ≤ p / u * u = mul-le-mul_right u above in ground (arith, mod-add-div' p u)
  | inr e ↦
      let below : p / u + 1 ≤ x = ground arith in
      let next : (p / u + 1) * u ≤ x * u = mul-le-mul_right u below in
      ground (arith, mod-add-div' p u)
]

-- A multiple that is nearer than half the unit is not passed downwards.
le-round_to : (u x p : ℕ) → 0 < u → 2 * (x * u) < 2 * p + u → x * u ≤ round_to u p
unfolding round_to
le-round_to u x p positive h = elim (Bool-cases (leb x (p / u))) [
  | inl e ↦
      let above : x ≤ p / u = ground arith in
      let floor : x * u ≤ p / u * u = mul-le-mul_right u above in ground arith
  | inr e ↦ next_multiple (elim (Bool-cases (leb (p / u + 2) x)) [
    | inl far ↦
        let beyond : (p / u + 2) * u ≤ x * u = mul-le-mul_right u (ground arith) in
        absurd (omega (arith, mod-add-div' p u, lt-div-mul-add {a = p} positive))
    | inr near ↦ ground arith
  ])
]
  where
    next_multiple : x ≡ p / u + 1 → x * u ≤ round_to u p
    next_multiple e =
        let here : x * u ≡ (p / u + 1) * u = ap (λ (t : ℕ). t * u) e in
        ground (arith, mod-add-div' p u, lt-div-mul-add {a = p} positive)

lt-pow-bits : (f n : ℕ) → n < 2 ^ f → n < 2 ^ bits f n
unfolding bits
lt-pow-bits zero n h = h
lt-pow-bits (suc f) zero h = ground arith
lt-pow-bits (suc f) (suc n) h =
    ground (arith, lt-pow-bits f (suc n / 2), pow-suc 2 f, pow-suc 2 (bits f (suc n / 2)))

-- Multiples of 2^e are multiples of the unit of a value below 2^(53 + e).
on_grid : (e k m : ℕ) → k ≤ e → m * 2 ^ e ≡ m * 2 ^ (e - k) * 2 ^ k
on_grid e k m h =
    let power : 2 ^ e ≡ 2 ^ (e - k) * 2 ^ k =
      ap (◌^◌ 2) {x = e} {y = e - k + k} (omega arith) ∙ pow_split k (e - k) in
    omega (arith, ap (◌*◌ m) power)

unit_fits : (e p : ℕ) → p < 2 ^ e * 2 ^ 53 → bits 128 (p / 2 ^ 53) ≤ e
unit_fits e p h = bits-le 128 e (p / 2 ^ 53) ((div-lt_iff_lt-mul (omega arith)).1 h)

round_53-le-grid : (e m p : ℕ) → p < 2 ^ e * 2 ^ 53 → p ≤ m * 2 ^ e → round_53 p ≤ m * 2 ^ e
unfolding round_53
round_53-le-grid e m p small h =
    let k = bits 128 (p / 2 ^ 53) in
    let same = on_grid e k m (unit_fits e p small) in
    omega (arith, same, round_to-le (2 ^ k) (m * 2 ^ (e - k)) p (pow_pos k) (omega (arith, same)))

grid-le-round_53 :
    (e m p : ℕ)
    → p < 2 ^ e * 2 ^ 53
    → 2 * (m * 2 ^ e) < 2 * p + 2 ^ bits 128 (p / 2 ^ 53)
    → m * 2 ^ e ≤ round_53 p
unfolding round_53
grid-le-round_53 e m p small h =
    let k = bits 128 (p / 2 ^ 53) in
    let same = on_grid e k m (unit_fits e p small) in
    omega (arith, same, le-round_to (2 ^ k) (m * 2 ^ (e - k)) p (pow_pos k) (omega (arith, same)))

whole-le-round_53 : (m p : ℕ) → p < 2 ^ 106 → m * 2 ^ 53 ≤ p → m * 2 ^ 53 ≤ round_53 p
whole-le-round_53 m p small h =
    grid-le-round_53 53 m p (omega arith) (omega (arith, pow_pos (bits 128 (p / 2 ^ 53))))

share-le : (d r : ℕ) → d < 2 ^ 53 → r < 2 ^ 53 → round_53 (round_53 d * r) ≤ d * 2 ^ 53
share-le d r small fraction =
    let part : d * r ≤ d * 2 ^ 53 = mul-le-mul_left d (omega arith) in
    rw (round_53-exact d small) (round_53-le-grid 53 d (d * r) (omega arith) part)

within :
    (lo hi p : ℕ)
    → hi < 2 ^ 53
    → lo * 2 ^ 53 ≤ p
    → p ≤ hi * 2 ^ 53
    → (lo ≤ round_53 p / 2 ^ 53) × (round_53 p / 2 ^ 53 ≤ hi)
within lo hi p small above below = omega (
  arith,
  whole-le-round_53 lo p (omega arith) above,
  round_53-le-grid 53 hi p (omega arith) below,
)

-- For every random number, and on either side of the shortest time that the keys have moved the
-- longest to, the rounded response time lies in the window between the two.
pub response_time-bounds :
    (shortest longest r lo hi : ℕ)
    → r < 2 ^ 53
    → hi < 2 ^ 53
    → lo ≤ shortest
    → lo ≤ longest
    → shortest ≤ hi
    → longest ≤ hi
    → (lo ≤ response_time shortest longest r) × (response_time shortest longest r ≤ hi)
unfolding response_time
response_time-bounds shortest longest r lo hi fraction small a b c d =
    let exact = round_53-exact shortest (omega arith) in
    elim (Bool-cases (leb shortest longest)) [
      | inl e ↦
          let share = share-le (longest - shortest) r (omega arith) fraction in
          rw (e, exact)
            (within lo hi (shortest * 2 ^ 53 + round_53 (round_53 (longest - shortest) * r)) small
              (ground arith) (ground arith))
      | inr e ↦
          let share = share-le (shortest - longest) r (omega arith) fraction in
          rw (e, exact)
            (within lo hi (shortest * 2 ^ 53 - round_53 (round_53 (shortest - longest) * r)) small
              (ground arith) (ground arith))
    ]

raised-div : (n : ℕ) → n < 2 ^ 48 → raised n ≡ 21 * n / 20
unfolding raised
raised-div n h =
    let p = n * 4728779608739021 in
    let above =
      grid-le-round_53 52 (21 * n / 20) p (omega arith)
        (omega (arith, pow_pos (bits 128 (p / 2 ^ 53)))) in
    rw (round_53-exact n (omega arith)) (omega (arith, above, round_53-le p))

lowered-div : (n : ℕ) → n < 2 ^ 48 → lowered n ≡ 19 * n / 20
unfolding lowered
lowered-div n h =
    let p = n * 4278419646001971 in
    let unit = lt-pow-bits 128 (p / 2 ^ 53) (omega arith) in
    let above = grid-le-round_53 52 (19 * n / 20) p (omega arith) (omega (arith, unit)) in
    rw (round_53-exact n (omega arith)) (omega (arith, above, round_53-le p))

-- The time without rounding.
abbrev pub twentieths : Arrow → ℕ → ℕ
twentieths up n = 21 * n / 20
twentieths down n = 19 * n / 20

-- While the time is below 2^48 nanoseconds the rounded product of the key Up, truncated, is the
-- time and its twentieth, that of the key Down the time without it, both truncated; nothing else
-- changes.
pub arrow_pressed_lem :
    (k : Arrow) (p : Playground)
    → p.max_resp < 2 ^ 48
    → arrow_pressed k p ≡ record p { max_resp = twentieths k p.max_resp }
unfolding arrow_pressed
arrow_pressed_lem up p h = rw (raised-div p.max_resp h) refl
arrow_pressed_lem down p h = rw (lowered-div p.max_resp h) refl
