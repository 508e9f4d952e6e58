-- ===== src/Whole/Completion.antt =====
-- The next step of a run without the live ui, and its scheduler.
use plt.Base.{
  ◌≤◌, ◌<◌, ◌≡◌, ◌≢◌, refl, ap, pos, true, false, none, some, List, [], ◌∷◌, arith, get_elem?,
  total, Bool-cases, Option-cases, inl, inr, all_of, all_of-get,
}
use plt.Loadgen.Flags.{Flags}
use plt.Loadgen.JobProducer.{JobProducer, Returns, has_outcome, outcome_there}
use plt.Loadgen.Runner.{Dynhist, initial_limit, max_concurrency}
use plt.Loadgen.State.{
  Main, head, waiting, acquiring, launching, checking, filling, sending, reporting, Stage, working,
  failed, releasing, Job, ok, Action, advance, waited, checked, finish, proceed,
}
use plt.Loadgen.System.{enabled_step}
use plt.Loadgen.Offline.{Reach-Offline}
use plt.Loadgen.Progress.{IsReporting, move_main, main_can_move, job_can_move, limit_pos}
use plt.Loadgen.Termination.{is_internal}
use plt.Whole.{Whole, is_own, Arrives}
use plt.Whole.Calls.{working_at}
use plt.Whole.Interleaved.{threads, threads-get, requests, Arrives-Interleaved}
use plt.Whole.Moves.{Arrives-Reach}
use plt.Whole.Owed.{owes, Arrives-OwedAt}
use plt.Whole.Progress.{owed_call, GoesOn, call-GoesOn, load-GoesOn, launch-GoesOn, join-GoesOn}

module _ (dh : Dynhist) (jp : JobProducer) (lf : Flags) (p : jp.State) (rt : Returns jp p) where
  -- The state runs on, and every call's request is fine.
  pub record Lively (s : Whole dh jp) : Type 0 where
    pub arrived : Arrives dh jp lf p s
    pub live : s.load.killed ≡ false
    pub fine : all_of rt.is_fine (requests s.calls) ≡ true

module _ (dh : Dynhist) (jp : JobProducer) (lf : Flags) (p : jp.State) (rt : Returns jp p)
    (off : lf.live_ui ≡ false) (fits : initial_limit lf.concurrency ≤ max_concurrency)
    (x : jp.Request) where
  calls_go_on :
      (s : Whole dh jp)
      → Lively dh jp lf p rt s
      → all_of (has_outcome jp) (threads s.calls) ≡ false
      → GoesOn dh jp lf p rt x s
  calls_go_on s v inside =
      let now = Arrives-Interleaved dh jp v.arrived in
      let (i, t, r, at, e) =
        rt.goes_on now.schedule (requests s.calls) s.producer (threads s.calls) v.fine now.runs
          inside in
      call-GoesOn dh jp lf p rt x s i t r v.live at e

  -- A job inside `Job`, whose call has returned, gets its outcome.
  working-GoesOn :
      (s : Whole dh jp) (j : Job) (rest : List Job)
      → Lively dh jp lf p rt s
      → all_of (has_outcome jp) (threads s.calls) ≡ true
      → s.load.jobs ≡ j ∷ rest
      → j.stage ≡ working
      → GoesOn dh jp lf p rt x s
  working-GoesOn s j rest v back e w =
      let here : get_elem? s.load.jobs 0 ≡ some j = ap (λ js. get_elem? js 0) e in
      let inside : 0 < owes s.calls j.index = ground (
        arith,
        (Arrives-OwedAt dh jp j.index v.arrived).owed,
        ap (λ (js : List Job). total (working_at j.index) js) e,
      ) in
      let (c, there) = owed_call s.calls j.index inside in
      let (o, out) = outcome_there jp c.thread (
        all_of-get (has_outcome jp) (threads s.calls) j.index c.thread back
          (threads-get s.calls j.index c there)) in
      elim (Option-cases (enabled_step dh s.load (finish 0 o))) [
        | inl none_there ↦ absurd (
            job_can_move dh (λ _. o) none (pos 0) j rest working _ s.load
              (Reach-Offline dh off (Arrives-Reach dh jp v.arrived)) w e none_there)
        | inr (u, f) ↦ join-GoesOn dh jp lf p rt x off s 0 j c o u v.arrived v.live here there out f
      ]

  own-GoesOn :
      (s : Whole dh jp) (a : Action)
      → Lively dh jp lf p rt s
      → is_internal a ≡ true
      → is_own s.load.main a ≡ true
      → enabled_step dh s.load a ≢ none
      → GoesOn dh jp lf p rt x s
  own-GoesOn s a v i own able = elim (Option-cases (enabled_step dh s.load a)) [
    | inl e ↦ absurd (able e)
    | inr (u, f) ↦ load-GoesOn dh jp lf p rt x off s a u v.arrived v.live i own f
  ]

  jobs_go_on :
      (st : Stage) (s : Whole dh jp) (j : Job) (rest : List Job)
      → Lively dh jp lf p rt s
      → all_of (has_outcome jp) (threads s.calls) ≡ true
      → s.load.jobs ≡ j ∷ rest
      → j.stage ≡ st
      → GoesOn dh jp lf p rt x s
  jobs_go_on working s j rest v back e w = working-GoesOn s j rest v back e w
  jobs_go_on failed s j rest v back e w = own-GoesOn s (proceed 0) v refl refl (
      job_can_move dh (λ _. ok (pos 0)) none (pos 0) j rest failed _ s.load
        (Reach-Offline dh off (Arrives-Reach dh jp v.arrived)) w e)
  jobs_go_on releasing s j rest v back e w = own-GoesOn s (proceed 0) v refl refl (
      job_can_move dh (λ _. ok (pos 0)) none (pos 0) j rest releasing _ s.load
        (Reach-Offline dh off (Arrives-Reach dh jp v.arrived)) w e)

  -- With no job left, the main goroutine moves; a launch takes the request given.
  main-GoesOn :
      (m : Main) (s : Whole dh jp)
      → Lively dh jp lf p rt s
      → s.load.main ≡ m
      → enabled_step dh s.load (move_main none (pos 0) m) ≢ none
      → ¬ IsReporting m
      → GoesOn dh jp lf p rt x s
  main-GoesOn (head i) s v e able busy = own-GoesOn s advance v refl (ground (arith, e)) able
  main-GoesOn (waiting i) s v e able busy = own-GoesOn s (waited none) v refl refl able
  main-GoesOn (acquiring i) s v e able busy = own-GoesOn s advance v refl (ground (arith, e)) able
  main-GoesOn (launching i) s v e able busy = elim (Option-cases (enabled_step dh s.load advance)) [
    | inl f ↦ absurd (able f)
    | inr (u, f) ↦ launch-GoesOn dh jp lf p rt x off s i u v.arrived v.live e f
  ]
  main-GoesOn (checking i) s v e able busy = own-GoesOn s (checked (pos 0)) v refl refl able
  main-GoesOn (filling k) s v e able busy = own-GoesOn s advance v refl (ground (arith, e)) able
  main-GoesOn (sending k) s v e able busy = own-GoesOn s advance v refl (ground (arith, e)) able
  main-GoesOn (reporting k) s v e able busy = absurd (busy tt)

  load_side-GoesOn :
      (js : List Job) (s : Whole dh jp)
      → Lively dh jp lf p rt s
      → all_of (has_outcome jp) (threads s.calls) ≡ true
      → s.load.jobs ≡ js
      → ¬ IsReporting s.load.main
      → GoesOn dh jp lf p rt x s
  load_side-GoesOn [] s v back e busy =
      main-GoesOn s.load.main s v refl
        (main_can_move dh (λ _. ok (pos 0)) none (pos 0) s.load.main _ s.load
          (limit_pos dh (λ _. ok (pos 0)) none (pos 0) lf off fits) fits
          (Reach-Offline dh off (Arrives-Reach dh jp v.arrived)) refl e busy)
        busy
  load_side-GoesOn (j ∷ rest) s v back e busy = jobs_go_on j.stage s j rest v back e refl

  pub goes_on :
      (s : Whole dh jp)
      → Lively dh jp lf p rt s
      → ¬ IsReporting s.load.main
      → GoesOn dh jp lf p rt x s
  goes_on s v busy = elim (Bool-cases (all_of (has_outcome jp) (threads s.calls))) [
    | inl back ↦ load_side-GoesOn s.load.jobs s v back refl busy
    | inr inside ↦ calls_go_on s v inside
  ]
