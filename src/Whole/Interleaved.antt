-- ===== src/Whole/Interleaved.antt =====
-- A run is, for its producer, an interleaving of the calls of `Job` that the run has made.
use plt.Base.{
  ℕ, zero, suc, ◌≡◌, refl, ap, ◌∙◌, true, some, List, [], ◌∷◌, ◌++◌, map, arith, get_elem?, set,
  length,
}
use plt.Base.Threads.{run_threads, step_thread-moves, run_threads-append, run_threads-snoc}
use plt.Loadgen.Accounts.{Reach-Accounts}
use plt.Loadgen.Flags.{Flags}
use plt.Loadgen.JobProducer.{JobProducer, begin_from, begin_from-append}
use plt.Loadgen.Runner.{Dynhist}
use plt.Whole.{Call, Whole, new_call, start_whole, Arrives, started, moved}
use plt.Whole.Moves.{Moved, by_load, by_launch, by_call, by_join, move_inversion, Arrives-Reach}
use plt.Whole.Owed.{Arrives-OwedAt}

module _ {jp : JobProducer} where
  abbrev pub threads : List (Call jp) → List jp.Thread
  threads = map (λ c. c.thread)

  -- The requests of a run, in the order of their launch.
  abbrev pub requests : List (Call jp) → List jp.Request
  requests = map (λ c. c.request)

  pub threads-set :
      (cs : List (Call jp)) (i : ℕ) (c : Call jp)
      → threads (set cs i c) ≡ set (threads cs) i c.thread
  threads-set [] i c = refl
  threads-set (d ∷ cs) zero c = refl
  threads-set (d ∷ cs) (suc i) c = ap (◌∷◌ d.thread) (threads-set cs i c)

  pub threads-get :
      (cs : List (Call jp)) (i : ℕ) (c : Call jp)
      → get_elem? cs i ≡ some c
      → get_elem? (threads cs) i ≡ some c.thread
  threads-get [] i c h = absurd (ground arith)
  threads-get (d ∷ cs) zero c h = cc
  threads-get (d ∷ cs) (suc i) c h = threads-get cs i c h

  pub threads-append :
      (cs : List (Call jp)) (c : Call jp) → threads (cs ++ (c ∷ [])) ≡ threads cs ++ (c.thread ∷ [])
  threads-append [] c = refl
  threads-append (d ∷ cs) c = ap (◌∷◌ d.thread) (threads-append cs c)

  pub requests-set :
      (cs : List (Call jp)) (i : ℕ) (c d : Call jp)
      → get_elem? cs i ≡ some c
      → d.request ≡ c.request
      → requests (set cs i d) ≡ requests cs
  requests-set [] i c d h e = refl
  requests-set (b ∷ cs) zero c d h e = cc
  requests-set (b ∷ cs) (suc i) c d h e = ap (◌∷◌ b.request) (requests-set cs i c d h e)

  pub requests-append :
      (cs : List (Call jp)) (c : Call jp)
      → requests (cs ++ (c ∷ [])) ≡ requests cs ++ (c.request ∷ [])
  requests-append [] c = refl
  requests-append (b ∷ cs) c = ap (◌∷◌ b.request) (requests-append cs c)

  pub length-requests : (cs : List (Call jp)) → length (requests cs) ≡ length cs
  length-requests [] = refl
  length-requests (c ∷ cs) = omega (arith, length-requests cs)

pub set_same {ℓ} :
    {A : Type ℓ} (xs : List A) (i : ℕ) (x : A) → get_elem? xs i ≡ some x → set xs i x ≡ xs
set_same [] i x h = refl
set_same (y ∷ xs) zero x h = cc
set_same (y ∷ xs) (suc i) x h = ap (◌∷◌ y) (set_same xs i x h)

-- The calls with these requests, interleaved from a producer, come to this producer and these threads.
pub record Interleaved (jp : JobProducer) (p q : jp.State) (xs : List jp.Request)
    (us : List jp.Thread) : Type 0 where
  pub schedule : List ℕ
  pub runs : run_threads jp.advance schedule p (begin_from jp 0 xs) ≡ some (q, us)

module _ (dh : Dynhist) (jp : JobProducer) where
  as_before :
      {p q r : jp.State} {xs ys : List jp.Request} {us vs : List jp.Thread}
      → r ≡ q
      → ys ≡ xs
      → vs ≡ us
      → Interleaved jp p q xs us
      → Interleaved jp p r ys vs
  as_before e f g v = record { schedule = v.schedule; runs = rw (e, f, g) v.runs }

  Moved-Interleaved :
      {lf : Flags} {p : jp.State} (s t : Whole dh jp)
      → Arrives dh jp lf p s
      → Interleaved jp p s.producer (requests s.calls) (threads s.calls)
      → Moved dh jp s t
      → Interleaved jp p t.producer (requests t.calls) (threads t.calls)
  Moved-Interleaved s t r v (by_load a own e same cs) =
      as_before same (ap (λ xs. requests xs) cs) (ap (λ xs. threads xs) cs) v
  Moved-Interleaved {p = p} s t r v (by_launch i x at e same cs) =
      let index : length (requests s.calls) ≡ i = ground (
        arith,
        (Reach-Accounts dh (Arrives-Reach dh jp r)).placed,
        (Arrives-OwedAt dh jp 0 r).many,
        length-requests s.calls,
      ) in
      let more : begin_from jp 0 (requests s.calls ++ (x ∷ []))
          ≡ begin_from jp 0 (requests s.calls) ++ (jp.begin i x ∷ []) =
        begin_from-append jp 0 (requests s.calls) x
        ∙ ap (λ n. begin_from jp 0 (requests s.calls) ++ (jp.begin n x ∷ []))
            (omega (arith, index)) in
      as_before same (ap (λ xs. requests xs) cs ∙ requests-append s.calls (new_call dh jp i x))
        (ap (λ xs. threads xs) cs ∙ threads-append s.calls (new_call dh jp i x))
        (record {
          schedule = v.schedule;
          runs = rw more (
              run_threads-append jp.advance v.schedule p (begin_from jp 0 (requests s.calls))
                (jp.begin i x ∷ []) s.producer (threads s.calls) v.runs);
        })
  Moved-Interleaved {p = p} s t r v (by_call i c later here e same cs) =
      let next : Call jp = record c { thread = later } in
      as_before refl (ap (λ xs. requests xs) cs ∙ requests-set s.calls i c next here refl)
        (ap (λ xs. threads xs) cs ∙ threads-set s.calls i next)
        (record {
          schedule = v.schedule ++ (i ∷ []);
          runs =
              run_threads-snoc jp.advance v.schedule i p (begin_from jp 0 (requests s.calls))
                s.producer (threads s.calls) (t.producer, set (threads s.calls) i later) v.runs
                (step_thread-moves jp.advance i s.producer (threads s.calls) c.thread
                  (t.producer, later) (threads-get s.calls i c here) e);
        })
  Moved-Interleaved s t r v (by_join k j c o here there out e same cs) =
      let next : Call jp = record c { joined = true } in
      as_before same (ap (λ xs. requests xs) cs ∙ requests-set s.calls j.index c next there refl)
        (ap (λ xs. threads xs) cs
          ∙ threads-set s.calls j.index next
          ∙ set_same (threads s.calls) j.index c.thread (threads-get s.calls j.index c there))
        v

  -- Whatever the load generator does meanwhile, the producer and the calls are where the calls of the
  -- run's requests, all begun together, come to in some order of their operations.
  pub Arrives-Interleaved :
      {lf : Flags} {p : jp.State} {s : Whole dh jp}
      → Arrives dh jp lf p s
      → Interleaved jp p s.producer (requests s.calls) (threads s.calls)
  unfolding start_whole run_threads
  Arrives-Interleaved started = record { schedule = []; runs = refl }
  Arrives-Interleaved {s = t} (moved {s = s} m before e) =
      Moved-Interleaved s t before (Arrives-Interleaved before) (move_inversion dh jp s m t e)
