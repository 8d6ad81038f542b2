-- ===== src/RvModel/Effects/Control.antt =====
-- rv32i/include/rv_model.hpp: a step with a jump, a branch, a FENCE or a SYSTEM instruction,
-- against
-- its meaning.
use xor_os.RvModel.Effects.Semantics.{take_trap, call_cause, return_from_trap}
use xor_os.Csr
use xor_os.Base.{
  bit_and, ltb, ◌/◌, ◌<◌, ◌^◌, ◌%◌, Bool-cases, inl, inr, ℕ, ◌+◌, ◌*◌, ◌≡◌, refl, ap, ◌∙◌, arith,
  some,
}
use xor_os.RvModel.Effects.Csrs.{CsrOp, csr_imm, csr_file, operand, csr-effect, csr_imm-address}
use xor_os.RvModel.Effects.Instr.{
  IsEncodable, access_csr, Cond, beq, SysOp, ecall, ebreak, mret, branch, jal, jalr, fence, system,
  cond_funct3, holds, system_imm, system_meaning, to_format, meaning,
}
use xor_os.Base.Int.{ℤ, pos}
use xor_os.Base.Word.{rv32, uword, of_signed}
use xor_os.Isa
use xor_os.Decoder.{decode}
use xor_os.Builder.Formats.{encode, InRange, decode-encode}
use xor_os.Registers
use xor_os.Memory.{MemoryModel}
use xor_os.RvModel.State.{set_pc, halt}
use xor_os.RvModel.Monad.{RvModel, and_then}
use xor_os.RvModel.Plain.{memory_ops}
use xor_os.RvModel.Execute.{branch_taken}
use xor_os.RvModel.Step.{step, finish_step, advance_pc}
use xor_os.RvModel.Effects.Jumps.{
  jalr-effect, ecall-effect, ebreak-effect, mret-effect, fence-effect,
}
use xor_os.RvModel.Effects.{
  Fetches, with_reg, goto, finish-next, finish-there, execute_branch-effect, finish_branch-effect,
  finish_branch-not, execute_jal-effect, select_branch, select_jal,
}
use xor_os.RvModel.Effects.Decoded.{imm_pattern, step-decoded}

chosen_cond : (c : Cond) (a b : ℕ) → branch_taken (cond_funct3 c) a b ≡ some (holds c a b)
unfolding cond_funct3 holds branch_taken
chosen_cond beq a b = refl
chosen_cond c a b = refl

module _ {D : Type 0} (s : RvModel (MemoryModel D)) where
  pub step-branch :
      (c : Cond) (rs1 rs2 : ℕ) (offset : ℤ)
      → InRange (to_format (branch c rs1 rs2 offset))
      → Fetches s (encode (to_format (branch c rs1 rs2 offset)))
      → step memory_ops s ≡ meaning (branch c rs1 rs2 offset) s
  unfolding to_format meaning set_pc advance_pc
  step-branch c rs1 rs2 offset r h =
      let f = to_format (branch c rs1 rs2 offset) in
      let w = encode f in
      let d = decode rv32 w in
      let is = decode-encode rv32 f r in
      let value = imm_pattern w offset is.4 in
      let a = Registers.get s.cpu.regs rs1 in
      let b = Registers.get s.cpu.regs rs2 in
      let taken : branch_taken d.funct3 (Registers.get s.cpu.regs d.rs1)
            (Registers.get s.cpu.regs d.rs2)
          ≡ some (holds c a b) =
        rw (is.1, is.2, is.3) (chosen_cond c a b) in
      let runs = select_branch s d is.0 ∙ execute_branch-effect s d (holds c a b) taken in
      step-decoded s w Isa.op_branch _ h is.0 (omega arith) runs ∙ elim (Bool-cases (holds c a b)) [
        | inl yes_taken ↦ rw yes_taken (
            ap (and_then (finish_step memory_ops)) (finish_branch-effect s d)
            ∙ finish-there s (goto s (uword rv32 (s.cpu.pc + d.imm)) s.cpu)
            ∙ rw value refl)
        | inr not_taken ↦
            rw not_taken
              (ap (and_then (finish_step memory_ops)) (finish_branch-not s d) ∙ finish-next s s.cpu)
      ]

  pub step-jal :
      (rd : ℕ) (offset : ℤ)
      → InRange (to_format (jal rd offset))
      → Fetches s (encode (to_format (jal rd offset)))
      → step memory_ops s ≡ meaning (jal rd offset) s
  unfolding to_format meaning set_pc
  step-jal rd offset r h =
      let f = to_format (jal rd offset) in
      let w = encode f in
      let d = decode rv32 w in
      let is = decode-encode rv32 f r in
      let value = imm_pattern w offset is.2 in
      let runs = select_jal s d is.0 ∙ execute_jal-effect s d in
      step-decoded s w Isa.op_jal _ h is.0 (omega arith) runs
      ∙ finish-there s
          (goto s (uword rv32 (s.cpu.pc + d.imm)) (with_reg s d.rd (uword rv32 (s.cpu.pc + 4))))
      ∙ rw (is.1, value) refl

  pub step-jalr :
      (rd rs1 : ℕ) (imm : ℤ)
      → InRange (to_format (jalr rd rs1 imm))
      → Fetches s (encode (to_format (jalr rd rs1 imm)))
      → step memory_ops s ≡ meaning (jalr rd rs1 imm) s
  unfolding to_format meaning set_pc
  step-jalr rd rs1 imm r h =
      let f = to_format (jalr rd rs1 imm) in
      let w = encode f in
      let d = decode rv32 w in
      let is = decode-encode rv32 f r in
      let value = imm_pattern w imm is.4 in
      step-decoded s w Isa.op_jalr _ h is.0 (omega arith) (jalr-effect s d is.0)
      ∙ finish-there s (
          goto s (uword rv32 (Registers.get s.cpu.regs d.rs1 + d.imm) / 2 * 2)
            (with_reg s d.rd (uword rv32 (s.cpu.pc + 4))))
      ∙ rw (is.1, is.3, value) refl

  pub step-fence :
      InRange (to_format fence)
      → Fetches s (encode (to_format fence))
      → step memory_ops s ≡ meaning fence s
  unfolding to_format meaning advance_pc
  step-fence r h =
      let f = to_format fence in
      let d = decode rv32 (encode f) in
      let is = decode-encode rv32 f r in
      step-decoded s (encode f) Isa.op_misc_mem _ h is.0 (omega arith) (fence-effect s d is.0)
      ∙ finish-next s s.cpu

  pub step-system :
      (op : SysOp)
      → InRange (to_format (system op))
      → Fetches s (encode (to_format (system op)))
      → step memory_ops s ≡ meaning (system op) s
  unfolding to_format meaning system_meaning system_imm advance_pc halt of_signed
  step-system ecall r h =
      let f = to_format (system ecall) in
      let d = decode rv32 (encode f) in
      let is = decode-encode rv32 f r in
      let value = imm_pattern (encode f) (pos 0) is.4 in
      step-decoded s (encode f) Isa.op_system _ h is.0 (omega arith)
        (ecall-effect s d is.0 is.2 value)
      ∙ finish-there s (take_trap (call_cause s.cpu.priv_mode) 0 s.cpu)
  step-system ebreak r h =
      let f = to_format (system ebreak) in
      let d = decode rv32 (encode f) in
      let is = decode-encode rv32 f r in
      let value = imm_pattern (encode f) (pos 1) is.4 in
      step-decoded s (encode f) Isa.op_system _ h is.0 (omega arith)
        (ebreak-effect s d is.0 is.2 value)
      ∙ finish-next s (halt s.cpu)
  step-system mret r h =
      let f = to_format (system mret) in
      let d = decode rv32 (encode f) in
      let is = decode-encode rv32 f r in
      let value = imm_pattern (encode f) (pos 0x302) is.4 in
      step-decoded s (encode f) Isa.op_system _ h is.0 (omega arith)
        (mret-effect s d is.0 is.2 value)
      ∙ finish-there s (return_from_trap s.cpu)

  pub step-csr :
      (op : CsrOp) (rd rs1 addr : ℕ)
      → IsEncodable (access_csr op rd rs1 addr)
      → Fetches s (encode (to_format (access_csr op rd rs1 addr)))
      → step memory_ops s ≡ meaning (access_csr op rd rs1 addr) s
  unfolding to_format meaning advance_pc IsEncodable
  step-csr op rd rs1 addr r h =
      let f = to_format (access_csr op rd rs1 addr) in
      let w = encode f in
      let d = decode rv32 w in
      let is = decode-encode rv32 f r.0 in
      let at : bit_and d.imm 0xFFF ≡ addr =
        rw (imm_pattern w (csr_imm addr) is.4) (csr_imm-address addr r.1) in
      let small : d.rs1 < 32 = rw is.3 r.0.2 in
      step-decoded s w Isa.op_system _ h is.0 (omega arith)
        (csr-effect s d op addr is.0 is.2 at small)
      ∙ elim (Bool-cases (ltb s.cpu.priv_mode (addr / 2 ^ 8 % 2 ^ 2))) [
        | inl low ↦ rw low (finish-there s (take_trap 2 addr s.cpu))
        | inr enough ↦ rw enough (
            finish-next s (record s.cpu {
              csr =
                  csr_file op s.cpu.csr addr (operand op (Registers.get s.cpu.regs d.rs1) d.rs1)
                    d.rs1;
              regs = Registers.set s.cpu.regs d.rd (Csr.read s.cpu.csr addr);
            })
            ∙ rw (is.1, is.3) refl)
      ]
