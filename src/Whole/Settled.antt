-- ===== src/Whole/Settled.antt =====
-- What the load generator has counted, against what the calls have returned to it.
use plt.Base.{
  ℕ, ◌+◌, ◌≡◌, ap, true, false, Option, none, some, List, [], ◌∷◌, ◌++◌, arith, get_elem?, total,
  total-set, total-erase_at, if◌then◌else◌, Bool-cases, inl, inr,
}
use plt.Loadgen.Accounts.{failed_weight}
use plt.Loadgen.Flags.{Flags}
use plt.Loadgen.JobProducer.{JobProducer}
use plt.Loadgen.Runner.{Dynhist}
use plt.Loadgen.State.{Outcome}
use plt.Loadgen.System.{start}
use plt.Whole.{Call, Whole, new_call, start_whole, Arrives, started, moved}
use plt.Whole.Calls.{succeeded, went_wrong, step-Apart, step-Grown, step-Left}
use plt.Whole.Moves.{Moved, by_load, by_launch, by_call, by_join, move_inversion}
use plt.Whole.Owed.{owes-get, Arrives-OwedAt}

abbrev pub ok_weight : Option Outcome → ℕ
ok_weight none = 0
ok_weight (some o) = succeeded o

abbrev pub err_weight : Option Outcome → ℕ
err_weight none = 0
err_weight (some o) = went_wrong o

abbrev pub none_weight : Option Outcome → ℕ
none_weight none = 1
none_weight (some o) = 0

-- A weight of what a call has returned to `Run`.
abbrev pub given : {jp : JobProducer} → (Option Outcome → ℕ) → Call jp → ℕ
given {jp} w c = if c.joined then w (jp.outcome c.thread) else 0

pub total-append {ℓ} :
    {A : Type ℓ} (w : A → ℕ) (xs ys : List A) → total w (xs ++ ys) ≡ total w xs + total w ys
total-append w [] ys = omega arith
total-append w (x ∷ xs) ys = omega (arith, total-append w xs ys)

module _ (dh : Dynhist) (jp : JobProducer) where
  open dh use {count, count-empty}

  -- The load generator has counted what the calls have returned.
  pub record Settled (s : Whole dh jp) : Type 0 where
    pub recorded : count s.load.runner.round_trip_hist ≡ total (given ok_weight) s.calls
    pub errors :
        s.load.runner.err_cnt + total failed_weight s.load.jobs ≡ total (given err_weight) s.calls
    pub none_lost : total (given none_weight) s.calls ≡ 0

  unjoined :
      (cs : List (Call jp)) (i : ℕ) (c : Call jp)
      → get_elem? cs i ≡ some c
      → jp.outcome c.thread ≡ none
      → total (given none_weight) cs ≡ 0
      → c.joined ≡ false
  unjoined cs i c here out lost = elim (Bool-cases c.joined) [
    | inl e ↦ absurd (ground (arith, total-erase_at (given none_weight) cs i c here))
    | inr e ↦ e
  ]

  Moved-Settled :
      {lf : Flags} {p : jp.State} (s t : Whole dh jp)
      → Arrives dh jp lf p s
      → Settled s
      → Moved dh jp s t
      → Settled t
  Moved-Settled s t r v (by_load a own e same cs) =
      let apart = step-Apart dh 0 a s.load t.load own e in
      let as_before =
        λ (w : Option Outcome → ℕ). ap (λ (xs : List (Call jp)). total (given w) xs) cs in
      record {
        recorded = omega (arith, as_before ok_weight, apart.recorded, v.recorded);
        errors = omega (arith, as_before err_weight, apart.errors, v.errors);
        none_lost = omega (arith, as_before none_weight, v.none_lost);
      }
  Moved-Settled s t r v (by_launch i x at e same cs) =
      let grown = step-Grown dh i 0 s.load t.load at e in
      let as_before =
        λ (w : Option Outcome → ℕ). ap (λ (xs : List (Call jp)). total (given w) xs) cs in
      let longer =
        λ (w : Option Outcome → ℕ). total-append (given w) s.calls (new_call dh jp i x ∷ []) in
      record {
        recorded = omega (arith, as_before ok_weight, longer ok_weight, grown.recorded, v.recorded);
        errors = omega (arith, as_before err_weight, longer err_weight, grown.errors, v.errors);
        none_lost = omega (arith, as_before none_weight, longer none_weight, v.none_lost);
      }
  Moved-Settled s t r v (by_call i c later here e same cs) =
      let next = record c { thread = later } in
      let free : c.joined ≡ false =
        unjoined s.calls i c here (jp.advance-outcome c.thread s.producer t.producer later e)
          v.none_lost in
      let as_before =
        λ (w : Option Outcome → ℕ). ap (λ (xs : List (Call jp)). total (given w) xs) cs in
      let put = λ (w : Option Outcome → ℕ). total-set (given w) s.calls i c next here in
      record {
        recorded = ground (arith, as_before ok_weight, put ok_weight, same, v.recorded);
        errors = ground (arith, as_before err_weight, put err_weight, same, v.errors);
        none_lost = ground (arith, as_before none_weight, put none_weight, v.none_lost);
      }
  Moved-Settled s t r v (by_join k j c o here there out e same cs) =
      let next = record c { joined = true } in
      let left = step-Left dh k j o j.index s.load t.load here e in
      let as_before =
        λ (w : Option Outcome → ℕ). ap (λ (xs : List (Call jp)). total (given w) xs) cs in
      let put = λ (w : Option Outcome → ℕ). total-set (given w) s.calls j.index c next there in
      let free : c.joined ≡ false = ground (
        arith,
        left.inside,
        owes-get s.calls j.index c there,
        (Arrives-OwedAt dh jp j.index r).owed,
      ) in
      record {
        recorded =
            ground (arith, as_before ok_weight, put ok_weight, left.recorded, v.recorded, out);
        errors = ground (arith, as_before err_weight, put err_weight, left.errors, v.errors, out);
        none_lost = ground (arith, as_before none_weight, put none_weight, v.none_lost, out);
      }

  pub Arrives-Settled :
      {lf : Flags} {p : jp.State} {s : Whole dh jp} → Arrives dh jp lf p s → Settled s
  unfolding start_whole start
  Arrives-Settled started = ground (arith, count-empty 10)
  Arrives-Settled {s = t} (moved {s = s} m before e) =
      Moved-Settled s t before (Arrives-Settled before) (move_inversion dh jp s m t e)
