-- ===== src/Base/Threads.antt =====
-- Threads that share a state, interleaved operation by operation: `advance` is the next operation of a
-- thread, `none` where it waits or has ended.
use Prim.Native.Nat.{ℕ, zero, suc, ◌+◌, ◌≤◌, ◌<◌}
use mathlib.Core.Path.{◌≡◌, sym, ap, subst, refl, ◌∙◌}
use mathlib.Core.Logic.{◌⊎◌, inl, inr}
use mathlib.Core.List.{List, [], ◌∷◌, ◌++◌}
use mathlib.Core.Option.{Option, none, some}
use native.Mathlib.Omega.{arith}
use plt.Base.Tests.{Option-cases}
use plt.Base.Lists.{get_elem?, set, length, total, total-set}

module _ {ℓ ℓ'} {S : Type ℓ} {T : Type ℓ'} (advance : T → S → Option (S × T)) where
  -- The thread at an index takes a step.
  unfoldable pub step_thread : ℕ → S → List T → Option (S × List T)
  step_thread i s ts = elim (get_elem? ts i) [
    | none ↦ none
    | some t ↦ elim (advance t s) [ none ↦ none | some (q, next) ↦ some (q, set ts i next) ]
  ]

  -- A schedule names the thread of each step.
  unfoldable pub run_threads : List ℕ → S → List T → Option (S × List T)
  unfolding step_thread
  run_threads [] s ts = some (s, ts)
  run_threads (i ∷ schedule) s ts = elim (step_thread i s ts) [
    | none ↦ none
    | some (q, later) ↦ run_threads schedule q later
  ]

  pub step_thread_inversion :
      (i : ℕ) (s : S) (ts : List T) (q : S) (us : List T)
      → step_thread i s ts ≡ some (q, us)
      → (t : T) × (next : T) × (get_elem? ts i ≡ some t)
        × (advance t s ≡ some (q, next))
        × (us ≡ set ts i next)
  unfolding step_thread
  step_thread_inversion i s ts q us h = elim (Option-cases (get_elem? ts i)) [
    | inl e ↦ absurd (ground arith)
    | inr (t, e) ↦ elim (Option-cases (advance t s)) [
      | inl f ↦ absurd (ground arith)
      | inr ((r, next), f) ↦ (t, next, e, ground arith, ground arith)
    ]
  ]

  -- What one step keeps, a schedule keeps.
  pub run_threads-keeps :
      (Inv : S → List T → Type 0)
      → ((i : ℕ) (s : S) (ts : List T) (t : T) (q : S) (next : T)
          → get_elem? ts i ≡ some t
          → advance t s ≡ some (q, next)
          → Inv s ts
          → Inv q (set ts i next))
      → (schedule : List ℕ) (s : S) (ts : List T) (q : S) (us : List T)
      → run_threads schedule s ts ≡ some (q, us)
      → Inv s ts
      → Inv q us
  unfolding run_threads
  run_threads-keeps Inv keep [] s ts q us h now =
      let same : ◌≡◌ {A = S × List T} (s, ts) (q, us) = cc in subst (λ r. Inv r.0 r.1) same now
  run_threads-keeps Inv keep (i ∷ schedule) s ts q us h now =
      elim (Option-cases (step_thread i s ts)) [
        | inl f ↦ absurd (ground arith)
        | inr ((r, vs), f) ↦
            let (t, next, at, moved, rest) = step_thread_inversion i s ts r vs f in
            run_threads-keeps Inv keep schedule r vs q us (ground arith)
              (subst (Inv r) (sym rest) (keep i s ts t r next at moved now))
      ]

  -- A weight that every step lowers bounds the steps of a schedule.
  pub run_threads-bounded :
      (w : T → ℕ)
      → ((t : T) (s q : S) (next : T) → advance t s ≡ some (q, next) → w next < w t)
      → (schedule : List ℕ) (s : S) (ts : List T) (q : S) (us : List T)
      → run_threads schedule s ts ≡ some (q, us)
      → length schedule + total w us ≤ total w ts
  unfolding run_threads
  run_threads-bounded w lower [] s ts q us h = ground arith
  run_threads-bounded w lower (i ∷ schedule) s ts q us h =
      elim (Option-cases (step_thread i s ts)) [
        | inl f ↦ absurd (ground arith)
        | inr ((r, vs), f) ↦
            let (t, next, at, moved, rest) = step_thread_inversion i s ts r vs f in
            omega (
              arith,
              ap (total w) rest,
              total-set w ts i t next at,
              lower t s r next moved,
              run_threads-bounded w lower schedule r vs q us (ground arith),
            )
      ]

  -- A thread that can move makes a step of the whole.
  pub step_thread-moves :
      (i : ℕ) (s : S) (ts : List T) (t : T) (r : S × T)
      → get_elem? ts i ≡ some t
      → advance t s ≡ some r
      → step_thread i s ts ≡ some (r.0, set ts i r.1)
  unfolding step_thread
  step_thread-moves i s ts t (q, next) at moved = ground (arith, at, moved)

-- A thread that comes later changes nothing for those before it.
module _ {ℓ} {A : Type ℓ} where
  pub get_elem?-append :
      (xs ys : List A) (i : ℕ) (x : A) → get_elem? xs i ≡ some x → get_elem? (xs ++ ys) i ≡ some x
  get_elem?-append [] ys i x h = absurd (ground arith)
  get_elem?-append (y ∷ xs) ys zero x h = h
  get_elem?-append (y ∷ xs) ys (suc i) x h = get_elem?-append xs ys i x h

  -- A place of a list keeps its element unless it is the one that is set.
  pub get_elem?-set :
      (xs : List A) (i j : ℕ) (x y : A)
      → get_elem? xs i ≡ some x
      → (get_elem? (set xs j y) i ≡ some x) ⊎ (i ≡ j)
  get_elem?-set [] i j x y h = absurd (ground arith)
  get_elem?-set (z ∷ xs) zero zero x y h = inr refl
  get_elem?-set (z ∷ xs) zero (suc j) x y h = inl h
  get_elem?-set (z ∷ xs) (suc i) zero x y h = inl h
  get_elem?-set (z ∷ xs) (suc i) (suc j) x y h = elim (get_elem?-set xs i j x y h) [
    | inl kept ↦ inl kept
    | inr same ↦ inr (ap suc same)
  ]

  set-append :
      (xs ys : List A) (i : ℕ) (x y : A)
      → get_elem? xs i ≡ some x
      → set (xs ++ ys) i y ≡ set xs i y ++ ys
  set-append [] ys i x y h = absurd (ground arith)
  set-append (z ∷ xs) ys zero x y h = refl
  set-append (z ∷ xs) ys (suc i) x y h = ap (◌∷◌ z) (set-append xs ys i x y h)

module _ {ℓ ℓ'} {S : Type ℓ} {T : Type ℓ'} (advance : T → S → Option (S × T)) where
  pub run_threads-append :
      (schedule : List ℕ) (s : S) (ts vs : List T) (q : S) (us : List T)
      → run_threads advance schedule s ts ≡ some (q, us)
      → run_threads advance schedule s (ts ++ vs) ≡ some (q, us ++ vs)
  unfolding run_threads
  run_threads-append [] s ts vs q us h = ground arith
  run_threads-append (i ∷ schedule) s ts vs q us h =
      elim (Option-cases (step_thread advance i s ts)) [
        | inl f ↦ absurd (ground arith)
        | inr ((r, ws), f) ↦
            let (t, next, at, moved, rest) = step_thread_inversion advance i s ts r ws f in
            let later =
              step_thread-moves advance i s (ts ++ vs) t (r, next) (get_elem?-append ts vs i t at)
                moved in
            let same : set (ts ++ vs) i next ≡ ws ++ vs =
              set-append ts vs i t next at ∙ ap (λ xs. xs ++ vs) (sym rest) in
            ground (arith, later, same, run_threads-append schedule r ws vs q us (ground arith))
      ]

  pub run_threads-snoc :
      (schedule : List ℕ) (i : ℕ) (s : S) (ts : List T) (q : S) (us : List T) (r : S × List T)
      → run_threads advance schedule s ts ≡ some (q, us)
      → step_thread advance i q us ≡ some r
      → run_threads advance (schedule ++ (i ∷ [])) s ts ≡ some r
  unfolding run_threads
  run_threads-snoc [] i s ts q us r h f = ground arith
  run_threads-snoc (j ∷ schedule) i s ts q us r h f =
      elim (Option-cases (step_thread advance j s ts)) [
        | inl g ↦ absurd (ground arith)
        | inr ((p, ws), g) ↦
            ground (arith, g, run_threads-snoc schedule i p ws q us r (ground arith) f)
      ]
