-- ===== src/Whole/Moves.antt =====
-- What a step of the whole program was; its part in the load generator is a step of the load generator.
use plt.Base.{
  ◌&&◌, true, ◌≡◌, refl, sym, subst, Option, none, some, List, [], ◌∷◌, ◌++◌, ℕ, get_elem?, set,
  arith, inl, inr, Option-cases, Bool-cases,
}
use plt.Loadgen.Flags.{Flags}
use plt.Loadgen.JobProducer.{JobProducer}
use plt.Loadgen.Runner.{Dynhist}
use plt.Loadgen.State.{Main, launching, Job, Outcome, Action, advance, finish}
use plt.Loadgen.System.{step, start, Reach, next}
use plt.Loadgen.System as LoadSystem
use plt.Whole.{
  Call, Whole, Move, in_load, launch, in_call, join, new_call, is_own, gets_counts, step_load,
  launch_call, step_call, return_call, join_call, move, start_whole, Arrives, started, moved,
}

module _ (dh : Dynhist) (jp : JobProducer) where
  pub data Moved (s t : Whole dh jp) : Type 0 where
    by_load :
        (a : Action)
        → is_own s.load.main a ≡ true
        → step dh s.load a ≡ some t.load
        → t.producer ≡ s.producer
        → t.calls ≡ s.calls
        → Moved s t
    by_launch :
        (i : ℕ) (x : jp.Request)
        → s.load.main ≡ launching i
        → step dh s.load advance ≡ some t.load
        → t.producer ≡ s.producer
        → t.calls ≡ s.calls ++ (new_call dh jp i x ∷ [])
        → Moved s t
    by_call :
        (i : ℕ) (c : Call jp) (later : jp.Thread)
        → get_elem? s.calls i ≡ some c
        → jp.advance c.thread s.producer ≡ some (t.producer, later)
        → t.load ≡ s.load
        → t.calls ≡ set s.calls i (record c { thread = later })
        → Moved s t
    by_join :
        (k : ℕ) (j : Job) (c : Call jp) (o : Outcome)
        → get_elem? s.load.jobs k ≡ some j
        → get_elem? s.calls j.index ≡ some c
        → jp.outcome c.thread ≡ some o
        → step dh s.load (finish k o) ≡ some t.load
        → t.producer ≡ s.producer
        → t.calls ≡ set s.calls j.index (record c { joined = true })
        → Moved s t

  load_inversion : (a : Action) (s t : Whole dh jp) → step_load dh jp a s ≡ some t → Moved s t
  unfolding step_load
  load_inversion a s t h =
      elim (Bool-cases (is_own s.load.main a && gets_counts dh jp a s.producer)) [
        | inr e ↦ absurd (ground arith)
        | inl e ↦ elim (Option-cases (step dh s.load a)) [
          | inl f ↦ absurd (ground arith)
          | inr (u, f) ↦ by_load a (ground (arith, e)) (ground arith) (ground arith) (ground arith)
        ]
      ]

  launch_inversion :
      (m : Main) (x : jp.Request) (s t : Whole dh jp)
      → s.load.main ≡ m
      → launch_call dh jp m x s ≡ some t
      → Moved s t
  unfolding launch_call
  launch_inversion (launching i) x s t e h = elim (Option-cases (step dh s.load advance)) [
    | inl f ↦ absurd (ground arith)
    | inr (u, f) ↦ by_launch i x e (ground arith) (ground arith) (ground arith)
  ]
  launch_inversion _ x s t e h = absurd (cc)

  call_inversion : (i : ℕ) (s t : Whole dh jp) → step_call dh jp i s ≡ some t → Moved s t
  unfolding step_call
  call_inversion i s t h = elim (Option-cases (get_elem? s.calls i)) [
    | inl e ↦ absurd (ground arith)
    | inr (c, e) ↦ elim (Option-cases (jp.advance c.thread s.producer)) [
      | inl f ↦ absurd (ground arith)
      | inr ((q, later), f) ↦ by_call i c later e (ground arith) (ground arith) (ground arith)
    ]
  ]

  return_inversion :
      (k : ℕ) (j : Job) (c : Call jp) (s t : Whole dh jp)
      → get_elem? s.load.jobs k ≡ some j
      → get_elem? s.calls j.index ≡ some c
      → return_call dh jp k j.index c s ≡ some t
      → Moved s t
  unfolding return_call
  return_inversion k j c s t here there h = elim (Option-cases (jp.outcome c.thread)) [
    | inl e ↦ absurd (ground arith)
    | inr (o, e) ↦ elim (Option-cases (step dh s.load (finish k o))) [
      | inl f ↦ absurd (ground arith)
      | inr (u, f) ↦ by_join k j c o here there e (ground arith) (ground arith) (ground arith)
    ]
  ]

  join_inversion : (k : ℕ) (s t : Whole dh jp) → join_call dh jp k s ≡ some t → Moved s t
  unfolding join_call
  join_inversion k s t h = elim (Option-cases (get_elem? s.load.jobs k)) [
    | inl e ↦ absurd (ground arith)
    | inr (j, e) ↦ elim (Option-cases (get_elem? s.calls j.index)) [
      | inl f ↦ absurd (ground arith)
      | inr (c, f) ↦ return_inversion k j c s t e f (ground arith)
    ]
  ]

  pub move_inversion :
      (s : Whole dh jp) (m : Move jp) (t : Whole dh jp) → move dh jp s m ≡ some t → Moved s t
  unfolding move
  move_inversion s (in_load a) t h = load_inversion a s t h
  move_inversion s (launch x) t h = launch_inversion s.load.main x s t refl h
  move_inversion s (in_call i) t h = call_inversion i s t (ground arith)
  move_inversion s (join k) t h = join_inversion k s t h

  -- The whole program's load generator goes where the load generator alone can go, with the calls'
  -- results for the outcomes of its jobs.
  pub Arrives-Reach :
      {lf : Flags} {p : jp.State} {s : Whole dh jp} → Arrives dh jp lf p s → Reach dh lf s.load
  unfolding start_whole
  Arrives-Reach started = LoadSystem.started
  Arrives-Reach {lf} {s = t} (moved {s = s} m before e) = elim (move_inversion s m t e) [
    | by_load a own f _ _ ↦ next a (Arrives-Reach before) f
    | by_launch i x at f _ _ ↦ next advance (Arrives-Reach before) f
    | by_call i c st here f same _ ↦ subst (Reach dh lf) (sym same) (Arrives-Reach before)
    | by_join k j c o here there out f _ _ ↦ next (finish k o) (Arrives-Reach before) f
  ]

  -- A sequence of steps, `none` if one of them is not enabled.
  unfoldable pub run_moves : List (Move jp) → Whole dh jp → Option (Whole dh jp)
  run_moves [] s = some s
  run_moves (m ∷ rest) s = elim (move dh jp s m) [ none ↦ none | some t ↦ run_moves rest t ]

  pub Arrives-run :
      {lf : Flags} {p : jp.State} (moves : List (Move jp)) {s t : Whole dh jp}
      → Arrives dh jp lf p s
      → run_moves moves s ≡ some t
      → Arrives dh jp lf p t
  unfolding run_moves
  Arrives-run {lf} {p} [] r h = subst (Arrives dh jp lf p) (cc) r
  Arrives-run (m ∷ rest) {s} r h = elim (Option-cases (move dh jp s m)) [
    | inl e ↦ absurd (ground arith)
    | inr (u, e) ↦ Arrives-run rest (moved m r e) (ground arith)
  ]
