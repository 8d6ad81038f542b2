-- ===== src/RvModel/Step/Count.antt =====
-- rv32i/include/rv_model.hpp: how many steps `run` makes.
use xor_os.Base.{
  ℕ, zero, suc, ◌+◌, ◌<◌, ◌≡◌, refl, arith, Bool, true, false, ◌&&◌, ltb, leb, if◌then◌else◌,
}
use xor_os.Outcome.{Outcome, ok, fail}
use xor_os.RvModel.Monad.{MemT, RvModel, Exec, ◌>>=◌, and_then, pure, gets}
use xor_os.RvModel.Step.{step, run_loop, run}

module _ {M : Type 0} (ops : MemT M) where
  -- `n` steps, fewer where the CPU has halted or a step throws.
  unfoldable pub steps : ℕ → RvModel M → Outcome (Unit {0}) × RvModel M
  steps zero s = (ok tt, s)
  steps (suc n) s = if s.cpu.halted then (ok tt, s) else and_then (λ done r. steps n r) (step ops s)

  -- The end of a run.
  abbrev pub ended : Outcome (Unit {0}) × RvModel M → Outcome Bool × RvModel M
  ended = and_then (λ done. pure true)

  -- What follows a step, for both.
  after_step :
      (n made max fuel : ℕ) (r : Outcome (Unit {0}) × RvModel M)
      → made + suc n ≡ max
      → ((s : RvModel M) → 0 < n → run_loop ops fuel max (made + 1) s ≡ ended (steps n s))
      → and_then
          (λ done.
            if ltb 0 max && leb max (made + 1) then pure true else run_loop ops fuel max (made + 1))
          r
        ≡ ended (and_then (λ done s. steps n s) r)
  unfolding and_then steps
  after_step n made max fuel (fail e, s) whole next = refl
  after_step zero made max fuel (ok done, s) whole next =
      let last : (ltb 0 max && leb max (made + 1)) ≡ true = ground arith in rw last refl
  after_step (suc n) made max fuel (ok done, s) whole next =
      let more : (ltb 0 max && leb max (made + 1)) ≡ false = ground arith in
      rw more (next s (omega arith))

  unless_halted :
      (halted : Bool) (s : RvModel M) (m : Exec M Bool) (r : Outcome (Unit {0}) × RvModel M)
      → m s ≡ ended r
      → (if halted then pure true else m) s ≡ ended (if halted then (ok tt, s) else r)
  unfolding pure and_then
  unless_halted true s m r e = refl
  unless_halted false s m r e = e

  run_loop-steps :
      (fuel n made max : ℕ) (s : RvModel M)
      → made + n ≡ max
      → 0 < n
      → n < fuel
      → run_loop ops fuel max made s ≡ ended (steps n s)
  unfolding run_loop steps ◌>>=◌ gets pure and_then
  run_loop-steps zero n made max s whole some_step enough = absurd (omega arith)
  run_loop-steps (suc fuel) zero made max s whole some_step enough = absurd (omega arith)
  run_loop-steps (suc fuel) (suc n) made max s whole some_step enough =
      unless_halted s.cpu.halted s _ _ (
        after_step n made max fuel (step ops s) whole
          (λ r more. run_loop-steps fuel n (made + 1) max r (omega arith) more (omega arith)))

-- A run with a bound of at least one step, on any fuel above the bound, makes as many steps as the
-- bound says, fewer only where the CPU has halted or a step throws, and then it ends, with that
-- exception if there is one.
pub run-steps :
    {M : Type 0} (ops : MemT M) (fuel max_steps : ℕ) (s : RvModel M)
    → 0 < max_steps
    → max_steps < fuel
    → run ops fuel max_steps s ≡ ended ops (steps ops max_steps s)
unfolding run
run-steps ops fuel max_steps s some_step enough =
    run_loop-steps ops fuel max_steps 0 max_steps s (omega arith) some_step enough
