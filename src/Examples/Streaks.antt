-- ===== src/Examples/Streaks.antt =====
-- _examples/circuit-breaker-playground/delayed.go: when `ReadyToTrip` opens the breaker.
use plt.Base.{
  ℕ, ◌+◌, ◌-◌, ◌≤◌, ◌≡◌, ◌↔◌, refl, true, ◌&&◌, Option, none, some, List, [], ◌∷◌, arith, leb,
  if◌then◌else◌, Option-cases, Bool-cases, subst, inl, inr,
}
use plt.Examples.Delayed.{Call, Delay, open_delay, is_bad, ready_to_trip, after_calls}

-- From a call at `start` on, every call up to the newest was bad.
pub data Streak : List Call → ℕ → Type 0 where
  begins :
      (c : Call) (older : List Call) (start : ℕ)
      → is_bad c ≡ true
      → start ≡ c.now
      → Streak (c ∷ older) start
  goes_on :
      (c : Call) (older : List Call) (start : ℕ)
      → is_bad c ≡ true
      → Streak older start
      → Streak (c ∷ older) start

-- The clock does not go back from call to call, up to `last`.
abbrev pub Ordered : ℕ → List Call → Type 0
Ordered last [] = Unit {0}
Ordered last (c ∷ older) = (c.now ≤ last) × Ordered c.now older

abbrev or_now : Option ℕ → ℕ → ℕ
or_now none now = now
or_now (some start) now = start

ready_to_trip-pre_open :
    (c : Call) (d : Delay)
    → (ready_to_trip c d).0.pre_open ≡ (if is_bad c then some (or_now d.pre_open c.now) else none)
unfolding ready_to_trip
ready_to_trip-pre_open c d = ground arith

ready_to_trip_bad :
    (c : Call) (d : Delay)
    → (ready_to_trip c d).1 ≡ (is_bad c && leb open_delay (c.since - or_now d.pre_open c.now))
unfolding ready_to_trip
ready_to_trip_bad c d = ground arith

pre_open-le :
    (cs : List Call) (last start : ℕ)
    → Ordered last cs
    → (after_calls cs).pre_open ≡ some start
    → start ≤ last
unfolding after_calls
pre_open-le [] last start o h = cc
pre_open-le (c ∷ older) last start o h =
    ground (arith, ready_to_trip-pre_open c (after_calls older), pre_open-le older c.now start)

extend_Streak :
    (c : Call) (older : List Call)
    → is_bad c ≡ true
    → ((s : ℕ) → (after_calls older).pre_open ≡ some s → Streak older s)
    → Streak (c ∷ older) (or_now (after_calls older).pre_open c.now)
extend_Streak c older bad ih = elim (Option-cases (after_calls older).pre_open) [
  | inl e ↦ rw e (begins c older c.now bad refl)
  | inr (s, e) ↦ rw e (goes_on c older s bad (ih s e))
]

pre_open-Streak :
    (cs : List Call) (start : ℕ) → (after_calls cs).pre_open ≡ some start → Streak cs start
unfolding after_calls
pre_open-Streak [] start h = cc
pre_open-Streak (c ∷ older) start h = elim (Bool-cases (is_bad c)) [
  | inl bad ↦
      subst (Streak (c ∷ older)) (ground (arith, ready_to_trip-pre_open c (after_calls older)))
        (extend_Streak c older bad (λ s. pre_open-Streak older s))
  | inr good ↦ absurd (ground (arith, ready_to_trip-pre_open c (after_calls older)))
]

or_now-le : (o : Option ℕ) (now : ℕ) → ((s : ℕ) → o ≡ some s → s ≤ now) → or_now o now ≤ now
or_now-le none now h = omega arith
or_now-le (some s) now h = h s refl

-- A streak's calls were all bad, so the delay had started by then.
Streak-pre_open :
    (cs : List Call) (last start : ℕ)
    → Ordered last cs
    → Streak cs start
    → (s : ℕ) × ((after_calls cs).pre_open ≡ some s) × (s ≤ start)
unfolding after_calls
Streak-pre_open [] last start o streak = elim streak [ ]
Streak-pre_open (c ∷ older) last start o (begins _ _ _ bad e) = (
  or_now (after_calls older).pre_open c.now,
  ground (arith, ready_to_trip-pre_open c (after_calls older)),
  omega
      (arith, e, or_now-le (after_calls older).pre_open c.now (λ s. pre_open-le older c.now s o.1)),
)
Streak-pre_open (c ∷ older) last start o (goes_on _ _ _ bad streak) =
    let (s, h, le) = Streak-pre_open older c.now start o.1 streak in
    (s, ground (arith, ready_to_trip-pre_open c (after_calls older)), le)

-- The newest call opens the breaker exactly if, from a call at least ten seconds before it on, every
-- call was bad: over a hundred requests with a failure rate of the threshold at least. One call that
-- is not bad starts the delay anew.
pub ready_to_trip_lem :
    (c : Call) (older : List Call)
    → Ordered c.now older
    → ((ready_to_trip c (after_calls older)).1 ≡ true)
      ↔ ((start : ℕ) × Streak (c ∷ older) start × (start + open_delay ≤ c.since))
unfolding after_calls
ready_to_trip_lem c older o = (
  λ h. (
    or_now (after_calls older).pre_open c.now,
    pre_open-Streak (c ∷ older) (or_now (after_calls older).pre_open c.now) (
        ground (
          arith,
          ready_to_trip_bad c (after_calls older),
          ready_to_trip-pre_open c (after_calls older),
        )),
    ground (arith, ready_to_trip_bad c (after_calls older)),
  ),
  opens,
)
  where
    opens :
        ((start : ℕ) × Streak (c ∷ older) start × (start + open_delay ≤ c.since))
        → (ready_to_trip c (after_calls older)).1 ≡ true
    opens (start, streak, long) =
        let (s, h, le) = Streak-pre_open (c ∷ older) c.now start (omega arith, o) streak in
        ground (
          arith,
          ready_to_trip_bad c (after_calls older),
          ready_to_trip-pre_open c (after_calls older),
        )
