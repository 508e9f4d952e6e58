-- ===== src/Examples/Timeout.antt =====
-- _examples/circuit-breaker-playground: `timeoutCB` of delayed.go around the transport of main.go. The
-- circuit breaker is the library gobreaker's; its operations are a parameter.
use plt.Base.{
  ℕ, suc, ◌+◌, ◌≡◌, refl, ◌⊎◌, inl, inr, Bool, true, false, Option, none, some, List, [], ◌∷◌,
  arith, length, if◌then◌else◌,
}
use plt.Loadgen.Runner.{Err}

-- `Allow` gives the callback `done` or an error; `done` tells the breaker about success.
pub record Breaker : Type 1 where
  pub State : Type 0
  pub Done : Type 0
  pub allow : State → State × (Done ⊎ Err)
  pub done : Done → Bool → State → State

pub data Trip : Type 0 where
  rejected : Err → Trip
  returned : Option Err → Trip

-- The breaker's state, and the counter `cbPassed` of the inner transport.
pub record Middleware (S : Type 0) : Type 0 where
  pub breaker : S
  pub passed : ℕ

abbrev pub is_none : Option Err → Bool
is_none none = true
is_none (some _) = false

module _ (b : Breaker) where
  open b use {State, Done, allow, done}

  -- The inner transport counts the request, and returns a response or the error given here.
  abbrev pass : Middleware State → Middleware State
  pass m = record m { passed = suc m.passed }

  -- Under a dry run a refusal has no callback, and the request passes.
  abbrev with_permit : Bool → Option Err → Middleware State → Done ⊎ Err → Middleware State × Trip
  with_permit dry failure m (inr e) = if dry then (pass m, returned failure) else (m, rejected e)
  with_permit dry failure m (inl d) =
      (record (pass m) { breaker = done d (is_none failure) m.breaker }, returned failure)

  unfoldable pub timeout_trip : Bool → Option Err → Middleware State → Middleware State × Trip
  timeout_trip dry failure m =
      let (s, permit) = allow m.breaker in with_permit dry failure (record m { breaker = s }) permit

  -- The trips one after another, with the number of those that were not rejected.
  abbrev pub count_passed : Trip → ℕ → ℕ
  count_passed (rejected _) n = n
  count_passed (returned _) n = suc n

  unfoldable pub trips : Bool → List (Option Err) → Middleware State → Middleware State × ℕ
  trips dry [] m = (m, 0)
  trips dry (failure ∷ more) m =
      let (next, trip) = timeout_trip dry failure m in
      let (last, n) = trips dry more next in (last, count_passed trip n)

  with_permit-passed :
      (dry : Bool) (failure : Option Err) (m : Middleware State) (permit : Done ⊎ Err)
      → ((with_permit dry failure m permit).0.passed
          ≡ count_passed (with_permit dry failure m permit).1 m.passed)
        × (dry ≡ true → (with_permit dry failure m permit).1 ≡ returned failure)
  with_permit-passed dry failure m (inl d) = (refl, λ _. refl)
  with_permit-passed dry failure m (inr e) = ground arith

  timeout_trip-passed :
      (dry : Bool) (failure : Option Err) (m : Middleware State)
      → ((timeout_trip dry failure m).0.passed
          ≡ count_passed (timeout_trip dry failure m).1 m.passed)
        × (dry ≡ true → (timeout_trip dry failure m).1 ≡ returned failure)
  unfolding timeout_trip
  timeout_trip-passed dry failure m =
      let (s, permit) = allow m.breaker in
      with_permit-passed dry failure (record m { breaker = s }) permit

  -- Whatever the breaker answers, the counter of the inner transport grows by one for each request that
  -- the middleware does not reject; a dry run rejects none.
  pub trips-passed :
      (dry : Bool) (failures : List (Option Err)) (m : Middleware State)
      → ((trips dry failures m).0.passed ≡ m.passed + (trips dry failures m).1)
        × (dry ≡ true → (trips dry failures m).1 ≡ length failures)
  unfolding trips
  trips-passed dry [] m = omega arith
  trips-passed dry (failure ∷ more) m = ground (
    arith,
    timeout_trip-passed dry failure m,
    trips-passed dry more (timeout_trip dry failure m).0,
  )
