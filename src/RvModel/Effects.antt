-- ===== src/RvModel/Effects.antt =====
-- rv32i/include/rv_model.hpp: what a step does with an encoded instruction.
pub mod Meaning
pub mod Confined
pub mod Instr
pub mod Semantics
pub mod Loads
mod Jumps
pub mod Atomics
pub mod Csrs
mod Decoded
mod Arithmetic
mod Control
pub mod Shifts
pub mod Stores
use xor_os.Base.{
  Bool-cases, inl, inr, ℕ, ◌+◌, ◌*◌, ◌/◌, ◌%◌, ◌^◌, ◌<◌, ◌≡◌, ◌≢◌, refl, ap, sym, ◌∙◌, arith,
  bit_and, Bool, true, false, not, ◌==◌, if◌then◌else◌, Option, none, some,
}
use xor_os.Base.Int.{ℤ, pos, negsuc, ◌≤ℤ◌, magnitude, ltb_ℤ}
use xor_os.Base.Word.{rv32, uword, to_signed, of_signed, shr}
use xor_os.Outcome.{Outcome, ok, fail}
use xor_os.Isa
use xor_os.Base.Bits.{bit_and_mask}
use xor_os.RvModel.Trap.{fire_trap, trap}
use xor_os.Isa.Fields.{get_opcode_lem}
use xor_os.Alu
use xor_os.Csr
use xor_os.Csr.Codes
use xor_os.Decoder.{DecodedInstr, decode}
use xor_os.Registers
use xor_os.Memory
use xor_os.Memory.{MemoryModel}
use xor_os.RvModel.State.{Cpu, has_extension, ext_m, fetch, set_pc}
use xor_os.RvModel.Monad.{
  MemT, RvModel, Exec, pure, gets, modify, on_memory, catch_range, handle_range, and_then, ◌>>=◌,
  get_reg, set_reg,
}
use xor_os.RvModel.Effects.Semantics.{take_trap, fire_trap-take_trap}
use xor_os.RvModel.Plain.{memory_ops}
use xor_os.RvModel.Translate.{translate_addr}
use xor_os.RvModel.Execute.{
  m_ext_op, base_op, finish_op, execute_op, execute_instr, branch_taken, execute_branch,
  finish_branch, execute_jal, jump_and_link, op_imm_op, execute_op_imm,
}
use xor_os.RvModel.Step.{step, fetch_at, execute_word, finish_step, advance_pc, count}

-- A CPU that runs, without address translation, and the word at its pc.
pub record Fetches {D : Type 0} (s : RvModel (MemoryModel D)) (w : ℕ) : Type 0 where
  pub running : s.cpu.halted ≡ false
  pub bare : (shr (Csr.read s.cpu.csr Codes.satp) 31 == 0) ≡ true
  pub word : Memory.read_word s.mem s.cpu.pc ≡ ok w

module _ {D : Type 0} (s : RvModel (MemoryModel D)) where
  step-word :
      (w : ℕ)
      → Fetches s w
      → (w == 0) ≡ false
      → step memory_ops s ≡ (execute_instr memory_ops (decode rv32 w) >>= finish_step memory_ops) s
  unfolding step gets ◌>>=◌ and_then translate_addr fetch_at catch_range handle_range on_memory
      memory_ops pure execute_word
  step-word w h nonzero = rw (h.running, h.bare, h.word, nonzero) refl

  -- The CPU after an instruction that goes on to the next one.
  abbrev pub next : Cpu → RvModel (MemoryModel D)
  next c = record s { cpu = count (advance_pc c) }

  abbrev pub with_reg : ℕ → ℕ → Cpu
  with_reg rd v = record s.cpu { regs = Registers.set s.cpu.regs rd v }

  -- How an instruction that goes on to the next one ends.
  pub finish-next :
      (c : Cpu)
      → and_then (finish_step memory_ops) (ok false, record s { cpu = c }) ≡ (ok tt, next c)
  unfolding and_then finish_step ◌>>=◌ modify
  finish-next c = refl

  finish_op-effect :
      (d : DecodedInstr) (a b : ℕ) (op : Alu.Op)
      → finish_op d a b (some op) s
        ≡ (ok false, record s { cpu = with_reg d.rd (Alu.execute rv32 op a b) })
  unfolding finish_op ◌>>=◌ and_then modify pure
  finish_op-effect d a b op = refl

  execute_op-effect :
      (d : DecodedInstr) (op : Alu.Op)
      → (if d.funct7 == Isa.f7_mext then m_ext_op d.funct3 else base_op d.funct3 d.funct7) ≡ some op
      → has_extension s.cpu.config ext_m ≡ true
      → execute_op d s
        ≡ finish_op d (Registers.get s.cpu.regs d.rs1) (Registers.get s.cpu.regs d.rs2) (some op) s
  unfolding execute_op ◌>>=◌ and_then gets
  execute_op-effect d op chosen ext = elim (Bool-cases (d.funct7 == Isa.f7_mext)) [
    | inl mext ↦ let m : m_ext_op d.funct3 ≡ some op = rw mext at chosen in rw (mext, ext, m) refl
    | inr other ↦
        let m : base_op d.funct3 d.funct7 ≡ some op = rw other at chosen in rw (other, m) refl
  ]

  select_op :
      (d : DecodedInstr) → d.opcode ≡ Isa.op_op → execute_instr memory_ops d s ≡ execute_op d s
  unfolding execute_instr
  select_op d e = simp e refl

  execute_op_imm-effect :
      (d : DecodedInstr) (op : Alu.Op)
      → op_imm_op d.funct3 d.funct7 ≡ some op
      → execute_op_imm d s ≡ finish_op d (Registers.get s.cpu.regs d.rs1) d.imm (some op) s
  unfolding execute_op_imm ◌>>=◌ and_then gets
  execute_op_imm-effect d op chosen = rw chosen refl

  -- A jump: to the target, or into the trap of a target that is not aligned.
  abbrev pub goto : ℕ → Cpu → Cpu
  goto target c = if target % 4 == 0 then set_pc c target else take_trap 0 target s.cpu

  aligned-test : (target : ℕ) → not (bit_and target 0b11 == 0) ≡ not (target % 4 == 0)
  aligned-test target = rw (bit_and_mask 2 target) refl

  execute_branch-effect :
      (d : DecodedInstr) (taken : Bool)
      → branch_taken d.funct3 (Registers.get s.cpu.regs d.rs1) (Registers.get s.cpu.regs d.rs2)
        ≡ some taken
      → execute_branch d s ≡ finish_branch d (some taken) s
  unfolding execute_branch ◌>>=◌ and_then gets
  execute_branch-effect d taken e = rw e refl

  finish_branch-effect :
      (d : DecodedInstr)
      → finish_branch d (some true) s
        ≡ (ok true, record s { cpu = goto (uword rv32 (s.cpu.pc + d.imm)) s.cpu })
  unfolding finish_branch ◌>>=◌ and_then gets modify pure trap
  finish_branch-effect d =
      let target = uword rv32 (s.cpu.pc + d.imm) in
      elim (Bool-cases (target % 4 == 0)) [
        | inl even ↦ rw (aligned-test target, even) refl
        | inr odd ↦
            rw (aligned-test target, odd, fire_trap-take_trap Codes.exc_insn_misalign target s.cpu)
              refl
      ]

  finish_branch-not : (d : DecodedInstr) → finish_branch d (some false) s ≡ (ok false, s)
  unfolding finish_branch pure
  finish_branch-not d = refl

  execute_jal-effect :
      (d : DecodedInstr)
      → execute_jal d s ≡ (
        ok true,
        record s {
          cpu = goto (uword rv32 (s.cpu.pc + d.imm)) (with_reg d.rd (uword rv32 (s.cpu.pc + 4)));
        },
      )
  unfolding execute_jal jump_and_link ◌>>=◌ and_then gets modify pure trap
  execute_jal-effect d =
      let target = uword rv32 (s.cpu.pc + d.imm) in
      elim (Bool-cases (target % 4 == 0)) [
        | inl even ↦ rw (aligned-test target, even) refl
        | inr odd ↦
            rw (aligned-test target, odd, fire_trap-take_trap Codes.exc_insn_misalign target s.cpu)
              refl
      ]

  -- The `switch` over the opcodes.
  select_op_imm :
      (d : DecodedInstr)
      → d.opcode ≡ Isa.op_op_imm
      → execute_instr memory_ops d s ≡ execute_op_imm d s
  unfolding execute_instr
  select_op_imm d e = simp e refl

  select_branch :
      (d : DecodedInstr)
      → d.opcode ≡ Isa.op_branch
      → execute_instr memory_ops d s ≡ execute_branch d s
  unfolding execute_instr
  select_branch d e = simp e refl

  select_jal :
      (d : DecodedInstr) → d.opcode ≡ Isa.op_jal → execute_instr memory_ops d s ≡ execute_jal d s
  unfolding execute_instr
  select_jal d e = simp e refl

  lui-effect :
      (d : DecodedInstr)
      → d.opcode ≡ Isa.op_lui
      → execute_instr memory_ops d s ≡ (ok false, record s { cpu = with_reg d.rd d.imm })
  unfolding execute_instr ◌>>=◌ and_then modify pure
  lui-effect d e = simp e refl

  auipc-effect :
      (d : DecodedInstr)
      → d.opcode ≡ Isa.op_auipc
      → execute_instr memory_ops d s
        ≡ (ok false, record s { cpu = with_reg d.rd (uword rv32 (s.cpu.pc + d.imm)) })
  unfolding execute_instr ◌>>=◌ and_then gets modify pure
  auipc-effect d e = simp e refl

  -- How a jump ends.
  finish-there :
      (c : Cpu)
      → and_then (finish_step memory_ops) (ok true, record s { cpu = c })
        ≡ (ok tt, record s { cpu = count c })
  unfolding and_then finish_step modify
  finish-there c = refl
