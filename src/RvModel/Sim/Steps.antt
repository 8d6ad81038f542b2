-- ===== src/RvModel/Sim/Steps.antt =====
-- rv32i/include/rv_model.hpp: `executeInstr` and `step` over two memories that run alike.
use xor_os.Base.{ℕ, ◌%◌, ◌≡◌, arith, Bool, if◌then◌else◌, Option, none, some}
use xor_os.Decoder.{DecodedInstr}
use xor_os.RvModel.State.{Cpu, fetch}
use xor_os.RvModel.Monad.{MemT, gets, pure, and_then, ◌>>=◌}
use xor_os.RvModel.Translate.{translate_addr}
use xor_os.RvModel.Execute.{execute_instr}
use xor_os.RvModel.Step.{finish_step, execute_word, fetch_at, step}
use xor_os.RvModel.Sim.{
  Any, Sim, SameEnd, MemSim, if-Sim, bind-Sim, bind-Any-Sim, catch_range-Sim, pure-Any-Sim,
  sim_rules,
}
use xor_os.RvModel.Sim.Translation.{SamePlace, read_word-Sim, translate_addr-Sim}
use xor_os.RvModel.Sim.Accesses.{execute_load-Sim, execute_store-Sim, execute_amo-Sim}
use xor_os.RvModel.Sim.Instructions.{
  execute_branch-Sim, execute_op_imm-Sim, execute_op-Sim, execute_system-Sim, execute_jal-Sim,
  execute_jalr-Sim, unknown_opcode-Sim,
}

ruleset instructions = (
  execute_load-Sim, execute_store-Sim, execute_amo-Sim, execute_branch-Sim, execute_op_imm-Sim,
  execute_op-Sim, execute_system-Sim, execute_jal-Sim, execute_jalr-Sim, unknown_opcode-Sim,
)

module _ {X Y : Type 0} {R : X → Y → Type 0} {ops : MemT X} {ops' : MemT Y}
    (sim : MemSim R ops ops') where
  pub execute_instr-Sim :
      (d : DecodedInstr) → Sim R Any (execute_instr ops d) (execute_instr ops' d)
  unfolding execute_instr
  execute_instr-Sim d = search (sim_rules, instructions) depth 20

  finish_step-Sim : (moved : Bool) → Sim R Any (finish_step ops moved) (finish_step ops' moved)
  unfolding finish_step
  finish_step-Sim moved = search sim_rules

  execute_word-Sim : (raw : Option ℕ) → Sim R Any (execute_word ops raw) (execute_word ops' raw)
  unfolding execute_word
  execute_word-Sim none = search sim_rules
  execute_word-Sim (some raw) = search (sim_rules, execute_instr-Sim, finish_step-Sim) depth 9

  fetch_at-Sim :
      (pc : ℕ) (p : Option ℕ)
      → pc % 4 ≡ 0
      → SamePlace pc p
      → Sim R Any (fetch_at ops pc p) (fetch_at ops' pc p)
  unfolding fetch_at
  fetch_at-Sim pc none h e = search sim_rules
  fetch_at-Sim pc (some p) h e =
      let aligned : p % 4 ≡ 0 = let place = e.0 in omega arith in
      bind-Any-Sim R _ _ _ _
        (catch_range-Sim R _ _ _ _
          (bind-Any-Sim R _ _ _ _ (read_word-Sim sim p aligned) (λ w. search sim_rules))
          (search sim_rules))
        execute_word-Sim

  -- The part of a step after the state was read.
  step_from-Sim :
      (halted : Bool) (pc : ℕ)
      → pc % 4 ≡ 0
      → Sim R Any
          (if halted then pure tt else (translate_addr ops pc fetch >>= fetch_at ops pc))
          (if halted then pure tt else (translate_addr ops' pc fetch >>= fetch_at ops' pc))
  step_from-Sim halted pc h =
      if-Sim R halted _ _ _ _ (λ _. pure-Any-Sim R tt)
        (λ _. bind-Sim R _ _ _ _ (translate_addr-Sim sim pc fetch) (λ p e. fetch_at-Sim pc p h e))

  -- From an aligned pc, a step over the one memory ends as the same step over the other: with the
  -- same exception or none, the same CPU, and memories in the relation.
  pub step-SameEnd :
      (c : Cpu) (x : X) (y : Y)
      → R x y
      → c.pc % 4 ≡ 0
      → SameEnd R Any
          (step ops (record { cpu = c; mem = x }))
          (step ops' (record { cpu = c; mem = y }))
  unfolding step ◌>>=◌ and_then gets
  step-SameEnd c x y r h = (step_from-Sim c.halted c.pc h).apply c x y r
