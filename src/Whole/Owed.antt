-- ===== src/Whole/Owed.antt =====
-- Which calls have not returned: as many as there are jobs inside `Job`, index by index.
use plt.Base.{
  ℕ, zero, suc, ◌+◌, ◌≡◌, ap, true, some, List, [], ◌∷◌, ◌++◌, arith, length, get_elem?, set, total,
  ◌==◌, if◌then◌else◌, length-append,
}
use plt.Loadgen.Accounts.{Reach-Accounts}
use plt.Loadgen.Flags.{Flags}
use plt.Loadgen.JobProducer.{JobProducer}
use plt.Loadgen.Runner.{Dynhist}
use plt.Loadgen.Slots.{length-set}
use plt.Loadgen.System.{start}
use plt.Whole.{Call, Whole, new_call, start_whole, Arrives, started, moved}
use plt.Whole.Calls.{working_at, step-Apart, step-Grown, step-Left}
use plt.Whole.Moves.{Moved, by_load, by_launch, by_call, by_join, move_inversion, Arrives-Reach}

module _ {jp : JobProducer} where
  abbrev pub open_call : Call jp → ℕ
  open_call c = if c.joined then 0 else 1

  -- 1 where the call of an index has not returned.
  unfoldable pub owes : List (Call jp) → ℕ → ℕ
  owes [] n = 0
  owes (c ∷ cs) zero = open_call c
  owes (c ∷ cs) (suc n) = owes cs n

  owes-append :
      (cs : List (Call jp)) (c : Call jp) (n : ℕ)
      → owes (cs ++ (c ∷ [])) n ≡ (if length cs == n then open_call c else 0) + owes cs n
  unfolding owes
  owes-append [] c zero = ground arith
  owes-append [] c (suc n) = ground arith
  owes-append (d ∷ cs) c zero = ground arith
  owes-append (d ∷ cs) c (suc n) = ground (arith, owes-append cs c n)

  owes-set :
      (cs : List (Call jp)) (i : ℕ) (old new : Call jp) (n : ℕ)
      → get_elem? cs i ≡ some old
      → owes (set cs i new) n + (if i == n then open_call old else 0)
        ≡ owes cs n + (if i == n then open_call new else 0)
  unfolding owes
  owes-set [] i old new n h = absurd (ground arith)
  owes-set (c ∷ cs) zero old new zero h = ground arith
  owes-set (c ∷ cs) zero old new (suc n) h = ground arith
  owes-set (c ∷ cs) (suc i) old new zero h = ground arith
  owes-set (c ∷ cs) (suc i) old new (suc n) h = ground (arith, owes-set cs i old new n)

  pub owes-get :
      (cs : List (Call jp)) (i : ℕ) (c : Call jp)
      → get_elem? cs i ≡ some c
      → owes cs i ≡ open_call c
  unfolding owes
  owes-get [] i c h = absurd (ground arith)
  owes-get (d ∷ cs) zero c h = ground arith
  owes-get (d ∷ cs) (suc i) c h = owes-get cs i c h

module _ (dh : Dynhist) (jp : JobProducer) where
  pub record OwedAt (n : ℕ) (s : Whole dh jp) : Type 0 where
    pub owed : owes s.calls n ≡ total (working_at n) s.load.jobs
    pub many : length s.calls ≡ s.load.launched

  Moved-OwedAt :
      (n : ℕ) {lf : Flags} {p : jp.State} (s t : Whole dh jp)
      → Arrives dh jp lf p s
      → OwedAt n s
      → Moved dh jp s t
      → OwedAt n t
  Moved-OwedAt n s t r v (by_load a own e _ cs) =
      let apart = step-Apart dh n a s.load t.load own e in
      record {
        owed = omega (arith, ap (λ (xs : List (Call jp)). owes xs n) cs, apart.inside);
        many = omega (arith, ap (λ (xs : List (Call jp)). length xs) cs, apart.as_many);
      }
  Moved-OwedAt n s t r v (by_launch i x at e _ cs) =
      let grown = step-Grown dh i n s.load t.load at e in
      let index : s.load.launched ≡ i =
        ground (arith, (Reach-Accounts dh (Arrives-Reach dh jp r)).placed) in
      record {
        owed = ground (
          arith,
          ap (λ (xs : List (Call jp)). owes xs n) cs,
          owes-append s.calls (new_call dh jp i x) n,
          grown.inside,
        );
        many = omega (
          arith,
          ap (λ (xs : List (Call jp)). length xs) cs,
          length-append s.calls (new_call dh jp i x ∷ []),
          grown.as_many,
        );
      }
  Moved-OwedAt n s t r v (by_call i c later here e same cs) =
      let next = record c { thread = later } in
      record {
        owed = ground (
          arith,
          ap (λ (xs : List (Call jp)). owes xs n) cs,
          owes-set s.calls i c next n here,
          same,
        );
        many =
            ground
              (arith, ap (λ (xs : List (Call jp)). length xs) cs, length-set s.calls i next, same);
      }
  Moved-OwedAt n s t r v (by_join k j c o here there out e _ cs) =
      let next = record c { joined = true } in
      let left = step-Left dh k j o n s.load t.load here e in
      record {
        owed = ground (
          arith,
          ap (λ (xs : List (Call jp)). owes xs n) cs,
          owes-set s.calls j.index c next n there,
          owes-get s.calls j.index c there,
          left.inside,
        );
        many = omega (
          arith,
          ap (λ (xs : List (Call jp)). length xs) cs,
          length-set s.calls j.index next,
          left.as_many,
        );
      }

  pub Arrives-OwedAt :
      (n : ℕ) {lf : Flags} {p : jp.State} {s : Whole dh jp} → Arrives dh jp lf p s → OwedAt n s
  unfolding start_whole start owes
  Arrives-OwedAt n started = ground arith
  Arrives-OwedAt n {s = t} (moved {s = s} m before e) =
      Moved-OwedAt n s t before (Arrives-OwedAt n before) (move_inversion dh jp s m t e)
