-- ===== src/RvModel/Effects/Arithmetic.antt =====
-- rv32i/include/rv_model.hpp: a step with an instruction that computes a register, against
-- its meaning.
use xor_os.RvModel.Effects.Semantics.{execute-result}
use xor_os.Base.{ℕ, ◌+◌, ◌*◌, ◌/◌, ◌^◌, ◌≡◌, refl, ◌∙◌, arith, true, ◌==◌, if◌then◌else◌, some}
use xor_os.Base.Int.{ℤ, pos}
use xor_os.Base.Word.{rv32, uword, to_signed, of_signed, of_signed-to_signed, of_signed-lt}
use xor_os.Isa
use xor_os.Alu
use xor_os.Decoder.{decode}
use xor_os.Builder.Formats.{encode, InRange, decode-encode}
use xor_os.Registers
use xor_os.Memory.{MemoryModel}
use xor_os.RvModel.State.{has_extension, ext_m}
use xor_os.RvModel.Monad.{RvModel}
use xor_os.RvModel.Plain.{memory_ops}
use xor_os.RvModel.Execute.{m_ext_op, base_op, op_imm_op}
use xor_os.RvModel.Step.{step, advance_pc}
use xor_os.RvModel.Effects.Shifts.{
  ShiftOp, shift_imm_bits, shift_alu, funct7_imm, chosen_shift, shift_bits,
}
use xor_os.RvModel.Effects.Instr.{
  ImmOp, addi, arith_reg, arith_imm, shift_imm, lui, auipc, funct3_of, funct7_of, imm_funct3,
  imm_alu, to_format, IsEncodable, meaning,
}
use xor_os.RvModel.Effects.{
  Fetches, with_reg, finish-next, finish_op-effect, execute_op-effect, execute_op_imm-effect,
  select_op, select_op_imm, lui-effect, auipc-effect,
}
use xor_os.RvModel.Effects.Decoded.{imm_pattern, step-decoded}

chosen_op :
    (op : Alu.Op)
    → (if funct7_of op == Isa.f7_mext
        then m_ext_op (funct3_of op)
        else base_op (funct3_of op) (funct7_of op))
      ≡ some op
unfolding funct7_of funct3_of m_ext_op base_op
chosen_op Alu.Op.add = refl
chosen_op op = refl

chosen_imm : (op : ImmOp) (funct7 : ℕ) → op_imm_op (imm_funct3 op) funct7 ≡ some (imm_alu op)
unfolding imm_funct3 imm_alu op_imm_op
chosen_imm addi f7 = refl
chosen_imm op f7 = refl

-- The upper immediate, as LUI and AUIPC have it in 32 bits.
upper_pattern :
    (imm : ℤ)
    → of_signed rv32 (to_signed rv32 (of_signed rv32 imm / 2 ^ 12 * 2 ^ 12))
      ≡ of_signed rv32 imm / 2 ^ 12 * 2 ^ 12
upper_pattern imm =
    of_signed-to_signed rv32 (of_signed rv32 imm / 2 ^ 12 * 2 ^ 12)
      (omega (arith, of_signed-lt rv32 imm))

module _ {D : Type 0} (s : RvModel (MemoryModel D)) where
  pub step-arith_reg :
      (op : Alu.Op) (rd rs1 rs2 : ℕ)
      → InRange (to_format (arith_reg op rd rs1 rs2))
      → Fetches s (encode (to_format (arith_reg op rd rs1 rs2)))
      → has_extension s.cpu.config ext_m ≡ true
      → step memory_ops s ≡ meaning (arith_reg op rd rs1 rs2) s
  unfolding to_format meaning advance_pc
  step-arith_reg op rd rs1 rs2 r h ext =
      let f = to_format (arith_reg op rd rs1 rs2) in
      let w = encode f in
      let d = decode rv32 w in
      let is = decode-encode rv32 f r in
      let chosen : (if d.funct7 == Isa.f7_mext
            then m_ext_op d.funct3
            else base_op d.funct3 d.funct7)
          ≡ some op =
        rw (is.2, is.5) (chosen_op op) in
      let runs =
        select_op s d is.0
        ∙ execute_op-effect s d op chosen ext
        ∙ finish_op-effect s d (Registers.get s.cpu.regs d.rs1) (Registers.get s.cpu.regs d.rs2)
            op in
      step-decoded s w Isa.op_op _ h is.0 (omega arith) runs
      ∙ finish-next s (
          with_reg s d.rd
            (Alu.execute rv32 op (Registers.get s.cpu.regs d.rs1) (Registers.get s.cpu.regs d.rs2)))
      ∙ rw
          (
            is.1,
            is.3,
            is.4,
            execute-result op (Registers.get s.cpu.regs rs1) (Registers.get s.cpu.regs rs2),
          )
          refl

  pub step-arith_imm :
      (op : ImmOp) (rd rs1 : ℕ) (imm : ℤ)
      → InRange (to_format (arith_imm op rd rs1 imm))
      → Fetches s (encode (to_format (arith_imm op rd rs1 imm)))
      → step memory_ops s ≡ meaning (arith_imm op rd rs1 imm) s
  unfolding to_format meaning advance_pc
  step-arith_imm op rd rs1 imm r h =
      let f = to_format (arith_imm op rd rs1 imm) in
      let w = encode f in
      let d = decode rv32 w in
      let is = decode-encode rv32 f r in
      let value = imm_pattern w imm is.4 in
      let chosen : op_imm_op d.funct3 d.funct7 ≡ some (imm_alu op) =
        rw is.2 (chosen_imm op d.funct7) in
      let runs =
        select_op_imm s d is.0
        ∙ execute_op_imm-effect s d (imm_alu op) chosen
        ∙ finish_op-effect s d (Registers.get s.cpu.regs d.rs1) d.imm (imm_alu op) in
      step-decoded s w Isa.op_op_imm _ h is.0 (omega arith) runs
      ∙ finish-next s
          (with_reg s d.rd (Alu.execute rv32 (imm_alu op) (Registers.get s.cpu.regs d.rs1) d.imm))
      ∙ rw
          (
            is.1,
            is.3,
            value,
            execute-result (imm_alu op) (Registers.get s.cpu.regs rs1) (of_signed rv32 imm),
          )
          refl

  pub step-shift_imm :
      (op : ShiftOp) (rd rs1 k : ℕ)
      → IsEncodable (shift_imm op rd rs1 k)
      → Fetches s (encode (to_format (shift_imm op rd rs1 k)))
      → step memory_ops s ≡ meaning (shift_imm op rd rs1 k) s
  unfolding to_format meaning advance_pc IsEncodable
  step-shift_imm op rd rs1 k r h =
      let f = to_format (shift_imm op rd rs1 k) in
      let w = encode f in
      let d = decode rv32 w in
      let is = decode-encode rv32 f r.0 in
      let value = imm_pattern w (pos (shift_imm_bits op k)) is.4 in
      let funct7 = funct7_imm w (shift_imm_bits op k) is.0 is.4 in
      let chosen : op_imm_op d.funct3 d.funct7 ≡ some (shift_alu op) =
        rw (is.2, funct7) (chosen_shift op k r.1) in
      let runs =
        select_op_imm s d is.0
        ∙ execute_op_imm-effect s d (shift_alu op) chosen
        ∙ finish_op-effect s d (Registers.get s.cpu.regs d.rs1) d.imm (shift_alu op) in
      step-decoded s w Isa.op_op_imm _ h is.0 (omega arith) runs
      ∙ finish-next s
          (with_reg s d.rd (Alu.execute rv32 (shift_alu op) (Registers.get s.cpu.regs d.rs1) d.imm))
      ∙ rw
          (
            is.1,
            is.3,
            value,
            shift_bits op (Registers.get s.cpu.regs rs1) k r.1,
            execute-result (shift_alu op) (Registers.get s.cpu.regs rs1) k,
          )
          refl

  pub step-lui :
      (rd : ℕ) (imm : ℤ)
      → InRange (to_format (lui rd imm))
      → Fetches s (encode (to_format (lui rd imm)))
      → step memory_ops s ≡ meaning (lui rd imm) s
  unfolding to_format meaning advance_pc
  step-lui rd imm r h =
      let f = to_format (lui rd imm) in
      let d = decode rv32 (encode f) in
      let is = decode-encode rv32 f r in
      let value = is.2 ∙ upper_pattern imm in
      step-decoded s (encode f) Isa.op_lui _ h is.0 (omega arith) (lui-effect s d is.0)
      ∙ finish-next s (with_reg s d.rd d.imm)
      ∙ rw (is.1, value) refl

  pub step-auipc :
      (rd : ℕ) (imm : ℤ)
      → InRange (to_format (auipc rd imm))
      → Fetches s (encode (to_format (auipc rd imm)))
      → step memory_ops s ≡ meaning (auipc rd imm) s
  unfolding to_format meaning advance_pc
  step-auipc rd imm r h =
      let f = to_format (auipc rd imm) in
      let d = decode rv32 (encode f) in
      let is = decode-encode rv32 f r in
      let value = is.2 ∙ upper_pattern imm in
      step-decoded s (encode f) Isa.op_auipc _ h is.0 (omega arith) (auipc-effect s d is.0)
      ∙ finish-next s (with_reg s d.rd (uword rv32 (s.cpu.pc + d.imm)))
      ∙ rw (is.1, value) refl
