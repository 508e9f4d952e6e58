-- ===== src/Whole/Progress.antt =====
-- A run has a next step until its report, and every such step brings it nearer.
use native.Mathlib.Nat.{mul-le-mul_left}
use plt.Base.{
  ℕ, zero, suc, ◌+◌, ◌*◌, ◌≤◌, ◌<◌, ◌≡◌, refl, ap, ◌⊎◌, ◌∙◌, true, false, some, List, [], ◌∷◌, ◌++◌,
  arith, get_elem?, set, total, total-set, inl, inr,
}
use plt.Loadgen.Flags.{Flags}
use plt.Loadgen.JobProducer.{JobProducer, Returns}
use plt.Loadgen.Runner.{Dynhist}
use plt.Loadgen.State.{end_round, launching, Job, Outcome, System, Action, advance, finish}
use plt.Loadgen.System.{enabled_step, step}
use plt.Loadgen.Progress.{Falls-internal}
use plt.Loadgen.Termination.{measure, is_internal, Reach-Falls, internal_keeps_killed}
use plt.Whole.{
  gets_counts, Call, Whole, Move, in_load, launch, in_call, join, new_call, is_own, step_load,
  launch_call, step_call, return_call, join_call, move, Arrives,
}
use plt.Whole.Interleaved.{
  threads, threads-get, threads-set, threads-append, requests, requests-set, requests-append,
  set_same,
}
use plt.Whole.Moves.{Arrives-Reach}
use plt.Whole.Owed.{owes}
use plt.Whole.Settled.{total-append}

module _ {jp : JobProducer} where
  call_of :
      (cs : List (Call jp)) (i : ℕ) (t : jp.Thread)
      → get_elem? (threads cs) i ≡ some t
      → (c : Call jp) × (get_elem? cs i ≡ some c) × (c.thread ≡ t)
  call_of [] i t h = absurd (ground arith)
  call_of (c ∷ cs) zero t h = (c, refl, cc)
  call_of (c ∷ cs) (suc i) t h = call_of cs i t h

  pub owed_call :
      (cs : List (Call jp)) (n : ℕ) → 0 < owes cs n → (c : Call jp) × (get_elem? cs n ≡ some c)
  unfolding owes
  owed_call [] n h = absurd (omega arith)
  owed_call (c ∷ cs) zero h = (c, refl)
  owed_call (c ∷ cs) (suc n) h = owed_call cs n h

-- The requests are those before, or these and one more.
abbrev pub Extends : {R : Type 0} → R → List R → List R → Type 0
Extends x xs ys = (ys ≡ xs) ⊎ (ys ≡ xs ++ (x ∷ []))

module _ (dh : Dynhist) (jp : JobProducer) (lf : Flags) (p : jp.State) (rt : Returns jp p)
    (x : jp.Request) where
  -- The steps before the report: the load generator's, of which each launch brings those of a call.
  abbrev pub weight : Whole dh jp → ℕ
  weight s = suc rt.most * measure s.load + total rt.left (threads s.calls)

  -- A next step, after which the program is nearer to its report and runs on.
  abbrev pub GoesOn : Whole dh jp → Type 0
  GoesOn s =
      (m : Move jp) × (t : Whole dh jp) × (move dh jp s m ≡ some t)
      × (weight t < weight s)
      × (t.load.killed ≡ false)
      × Extends x (requests s.calls) (requests t.calls)

  lighter : (m n a b : ℕ) → m < n → a ≤ b + rt.most → suc rt.most * m + a < suc rt.most * n + b
  lighter m n a b h k =
      let one : suc rt.most * suc m ≤ suc rt.most * n = mul-le-mul_left (suc rt.most) h in
      omega (arith, one)

  -- A call that can move does.
  pub call-GoesOn :
      (s : Whole dh jp) (i : ℕ) (t : jp.Thread) (r : jp.State × jp.Thread)
      → s.load.killed ≡ false
      → get_elem? (threads s.calls) i ≡ some t
      → jp.advance t s.producer ≡ some r
      → GoesOn s
  unfolding move step_call
  call-GoesOn s i t (q, later) live at e =
      let (c, here, same) = call_of s.calls i t at in
      let next : Call jp = record c { thread = later } in
      (
        in_call i,
        record s { producer = q; calls = set s.calls i next },
        ground (arith, live, here, same, e),
        omega (
          arith,
          ap (λ (ts : List jp.Thread). total rt.left ts) (threads-set s.calls i next),
          total-set rt.left (threads s.calls) i t later at,
          rt.left-advance t s.producer q later e,
        ),
        live,
        inl (requests-set s.calls i c next here refl),
      )

  live_step :
      (s : System dh.Collector) (a : Action) {u : System dh.Collector}
      → s.killed ≡ false
      → enabled_step dh s a ≡ some u
      → step dh s a ≡ some u
  unfolding step
  live_step s a live e = ground arith

  -- No step of `Run` or of a job waits in `RequestCounts`.
  internal-gets_counts :
      (a : Action) (q : jp.State) → is_internal a ≡ true → gets_counts dh jp a q ≡ true
  internal-gets_counts end_round q i = absurd (cc)
  internal-gets_counts _ q i = refl

  pub load-GoesOn :
      lf.live_ui ≡ false
      → (s : Whole dh jp) (a : Action) (u : System dh.Collector) → Arrives dh jp lf p s
      → s.load.killed ≡ false
      → is_internal a ≡ true
      → is_own s.load.main a ≡ true
      → enabled_step dh s.load a ≡ some u
      → GoesOn s
  unfolding move step_load
  load-GoesOn off s a u r live i own e =
      let st : step dh s.load a ≡ some u = live_step s.load a live e in
      let lower =
        Falls-internal (is_internal a) s.load u i
          (Reach-Falls dh lf off a (Arrives-Reach dh jp r) st) in
      let n = total rt.left (threads s.calls) in
      (
        in_load a,
        record s { load = u },
        ground (arith, own, st, internal-gets_counts a s.producer i),
        lighter (measure u) (measure s.load) n n lower (omega arith),
        internal_keeps_killed dh s.load a i e ∙ live,
        inl refl,
      )

  pub launch-GoesOn :
      lf.live_ui ≡ false
      → (s : Whole dh jp) (i : ℕ) (u : System dh.Collector) → Arrives dh jp lf p s
      → s.load.killed ≡ false
      → s.load.main ≡ launching i
      → enabled_step dh s.load advance ≡ some u
      → GoesOn s
  unfolding move launch_call
  launch-GoesOn off s i u r live at e =
      let st : step dh s.load advance ≡ some u = live_step s.load advance live e in
      let lower =
        Falls-internal true s.load u refl
          (Reach-Falls dh lf off advance (Arrives-Reach dh jp r) st) in
      let new = new_call dh jp i x in
      let ts = threads s.calls in
      (
        launch x,
        record s { load = u; calls = s.calls ++ (new ∷ []) },
        ground (arith, at, st),
        lighter (measure u) (measure s.load) (total rt.left (threads (s.calls ++ (new ∷ []))))
            (total rt.left ts) lower
            (omega (
              arith,
              ap (λ (us : List jp.Thread). total rt.left us) (threads-append s.calls new),
              total-append rt.left ts (new.thread ∷ []),
              rt.left-begin i x,
            )),
        internal_keeps_killed dh s.load advance refl e ∙ live,
        inr (requests-append s.calls new),
      )

  pub join-GoesOn :
      lf.live_ui ≡ false
      → (s : Whole dh jp) (k : ℕ) (j : Job) (c : Call jp) (o : Outcome) (u : System dh.Collector)
      → Arrives dh jp lf p s
      → s.load.killed ≡ false
      → get_elem? s.load.jobs k ≡ some j
      → get_elem? s.calls j.index ≡ some c
      → jp.outcome c.thread ≡ some o
      → enabled_step dh s.load (finish k o) ≡ some u
      → GoesOn s
  unfolding move join_call return_call
  join-GoesOn off s k j c o u r live here there out e =
      let st : step dh s.load (finish k o) ≡ some u = live_step s.load (finish k o) live e in
      let lower =
        Falls-internal true s.load u refl
          (Reach-Falls dh lf off (finish k o) (Arrives-Reach dh jp r) st) in
      let next : Call jp = record c { joined = true } in
      let ts = threads s.calls in
      let back : threads (set s.calls j.index next) ≡ ts =
        threads-set s.calls j.index next
        ∙ set_same ts j.index c.thread (threads-get s.calls j.index c there) in
      (
        join k,
        record s { load = u; calls = set s.calls j.index next },
        ground (arith, here, there, out, st),
        lighter (measure u) (measure s.load) (total rt.left (threads (set s.calls j.index next)))
            (total rt.left ts) lower
            (omega (arith, ap (λ (us : List jp.Thread). total rt.left us) back)),
        internal_keeps_killed dh s.load (finish k o) refl e ∙ live,
        inl (requests-set s.calls j.index c next there refl),
      )
