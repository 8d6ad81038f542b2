-- ===== src/RvModel/Sim/Instructions.antt =====
-- rv32i/include/rv_model.hpp: the instructions that leave the memory alone, over two memories.
use xor_os.Base.{ℕ, Bool, true, false, Option, none, some}
use xor_os.Alu
use xor_os.Decoder.{DecodedInstr}
use xor_os.Csr.{CsrFile}
use xor_os.RvModel.Trap.{execute_mret}
use xor_os.RvModel.Execute.{
  illegal, jump_and_link, finish_branch, execute_branch, finish_op, execute_op_imm, execute_op,
  finish_csr, execute_csr, execute_system, execute_jal, execute_jalr, unknown_opcode,
}
use xor_os.RvModel.Sim.{Any, Sim, sim_rules}
use xor_os.RvModel.Sim.Translation.{trap-Sim}

module _ {X Y : Type 0} {R : X → Y → Type 0} (d : DecodedInstr) where
  illegal-Sim : Sim R Any (illegal d) (illegal d)
  unfolding illegal
  illegal-Sim = trap-Sim _ _

  jump_and_link-Sim :
      (rd ret target : ℕ) → Sim R Any (jump_and_link rd ret target) (jump_and_link rd ret target)
  unfolding jump_and_link
  jump_and_link-Sim rd ret target = search sim_rules

  finish_branch-Sim :
      (taken : Option Bool) → Sim R Any (finish_branch d taken) (finish_branch d taken)
  unfolding finish_branch
  finish_branch-Sim none = illegal-Sim
  finish_branch-Sim (some false) = search sim_rules
  finish_branch-Sim (some true) = search (sim_rules, trap-Sim) depth 9

  pub execute_branch-Sim : Sim R Any (execute_branch d) (execute_branch d)
  unfolding execute_branch
  execute_branch-Sim = search (sim_rules, finish_branch-Sim)

  finish_op-Sim :
      (a b : ℕ) (op : Option Alu.Op) → Sim R Any (finish_op d a b op) (finish_op d a b op)
  unfolding finish_op
  finish_op-Sim a b none = illegal-Sim
  finish_op-Sim a b (some op) = search sim_rules

  pub execute_op_imm-Sim : Sim R Any (execute_op_imm d) (execute_op_imm d)
  unfolding execute_op_imm
  execute_op_imm-Sim = search (sim_rules, finish_op-Sim)

  pub execute_op-Sim : Sim R Any (execute_op d) (execute_op d)
  unfolding execute_op
  execute_op-Sim = search (sim_rules, finish_op-Sim, illegal-Sim) depth 9

  finish_csr-Sim : (r : Option (CsrFile × ℕ)) → Sim R Any (finish_csr d r) (finish_csr d r)
  unfolding finish_csr
  finish_csr-Sim none = illegal-Sim
  finish_csr-Sim (some r) = search sim_rules

  execute_csr-Sim : Sim R Any (execute_csr d) (execute_csr d)
  unfolding execute_csr
  execute_csr-Sim = search (sim_rules, finish_csr-Sim, trap-Sim) depth 9

  execute_mret-Sim : Sim R Any execute_mret execute_mret
  unfolding execute_mret
  execute_mret-Sim = search sim_rules

  pub execute_system-Sim : Sim R Any (execute_system d) (execute_system d)
  unfolding execute_system
  execute_system-Sim = search (sim_rules, execute_csr-Sim, execute_mret-Sim, trap-Sim) depth 9

  pub execute_jal-Sim : Sim R Any (execute_jal d) (execute_jal d)
  unfolding execute_jal
  execute_jal-Sim = search (sim_rules, jump_and_link-Sim, trap-Sim) depth 9

  pub execute_jalr-Sim : Sim R Any (execute_jalr d) (execute_jalr d)
  unfolding execute_jalr
  execute_jalr-Sim = search (sim_rules, jump_and_link-Sim, trap-Sim) depth 9

  pub unknown_opcode-Sim : Sim R Any (unknown_opcode d) (unknown_opcode d)
  unfolding unknown_opcode
  unknown_opcode-Sim = search (sim_rules, illegal-Sim) depth 9
