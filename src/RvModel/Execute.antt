-- ===== src/RvModel/Execute.antt =====
-- rv32i/include/rv_model.hpp: `executeBranch`, `executeOpImm`, `executeOp`, `executeCSR` and
-- `executeInstr`, the `switch` over the opcodes. Each returns whether it changed the pc.
use xor_os.Base.{
  ℕ, ◌+◌, ◌%◌, ◌^◌, bit_and, Bool, true, false, not, ltb, ◌==◌, if◌then◌else◌, Option, none, some,
}
use xor_os.Base.Int.{ltb_ℤ}
use xor_os.Base.Word.{rv32, uword, complement, to_signed, shr}
use xor_os.Outcome.{illegal_opcode}
use xor_os.Isa
use xor_os.Alu
use xor_os.Decoder.{DecodedInstr}
use xor_os.Registers
use xor_os.Csr
use xor_os.Csr.{CsrFile}
use xor_os.Csr.Codes
use xor_os.RvModel.State.{has_extension, ext_m, halt, set_pc, mode_u, mode_s}
use xor_os.RvModel.Monad.{MemT, Exec, modify, gets, pure, raise, get_reg, set_reg, ◌>>=◌, ◌>>◌}
use xor_os.RvModel.Trap.{trap, execute_mret}
use xor_os.RvModel.Access.{execute_load, execute_store, execute_amo}

-- The `switch` of `executeBranch`: whether the branch is taken; none is its default.
unfoldable pub branch_taken : ℕ → ℕ → ℕ → Option Bool
branch_taken funct3 r1 r2 =
    let less = ltb_ℤ (to_signed rv32 r1) (to_signed rv32 r2) in
    if funct3 == Isa.f3_beq
    then some (r1 == r2)
    else if funct3 == Isa.f3_bne
    then some (not (r1 == r2))
    else if funct3 == Isa.f3_blt
    then some less
    else if funct3 == Isa.f3_bge
    then some (not less)
    else if funct3 == Isa.f3_bltu
    then some (ltb r1 r2)
    else if funct3 == Isa.f3_bgeu
    then some (not (ltb r1 r2))
    else none

-- The operation of an OP-IMM; none is the default.
unfoldable pub op_imm_op : ℕ → ℕ → Option Alu.Op
op_imm_op funct3 funct7 =
    if funct3 == Isa.f3_add_sub
    then some Alu.Op.add
    else if funct3 == Isa.f3_sll
    then some Alu.Op.sll
    else if funct3 == Isa.f3_slt
    then some Alu.Op.slt
    else if funct3 == Isa.f3_sltu
    then some Alu.Op.sltu
    else if funct3 == Isa.f3_xor
    then some Alu.Op.xor
    else if funct3 == Isa.f3_srl_sra
    then some (if not (bit_and funct7 0b00100000 == 0) then Alu.Op.sra else Alu.Op.srl)
    else if funct3 == Isa.f3_or
    then some Alu.Op.or
    else if funct3 == Isa.f3_and
    then some Alu.Op.and
    else none

-- The operation of an OP of the M extension.
unfoldable pub m_ext_op : ℕ → Option Alu.Op
m_ext_op funct3 =
    if funct3 == Isa.f3_mul
    then some Alu.Op.mul
    else if funct3 == Isa.f3_mulh
    then some Alu.Op.mulh
    else if funct3 == Isa.f3_mulhsu
    then some Alu.Op.mulhsu
    else if funct3 == Isa.f3_mulhu
    then some Alu.Op.mulhu
    else if funct3 == Isa.f3_div
    then some Alu.Op.div
    else if funct3 == Isa.f3_divu
    then some Alu.Op.divu
    else if funct3 == Isa.f3_rem
    then some Alu.Op.rem
    else if funct3 == Isa.f3_remu
    then some Alu.Op.remu
    else none

-- The operation of an OP of the base set.
unfoldable pub base_op : ℕ → ℕ → Option Alu.Op
base_op funct3 funct7 =
    if funct3 == Isa.f3_add_sub
    then some (if funct7 == Isa.f7_alt then Alu.Op.sub else Alu.Op.add)
    else if funct3 == Isa.f3_sll
    then some Alu.Op.sll
    else if funct3 == Isa.f3_slt
    then some Alu.Op.slt
    else if funct3 == Isa.f3_sltu
    then some Alu.Op.sltu
    else if funct3 == Isa.f3_xor
    then some Alu.Op.xor
    else if funct3 == Isa.f3_srl_sra
    then some (if funct7 == Isa.f7_alt then Alu.Op.sra else Alu.Op.srl)
    else if funct3 == Isa.f3_or
    then some Alu.Op.or
    else if funct3 == Isa.f3_and
    then some Alu.Op.and
    else none

-- The `switch` of `executeCSR`: the new file and the old value; none is its default. `zimm` is the
-- field rs1, a `uint8_t`.
unfoldable pub csr_access : ℕ → CsrFile → ℕ → ℕ → ℕ → Option (CsrFile × ℕ)
csr_access funct3 f addr rs1v rs1 =
    let zimm = rs1 % 2 ^ 8 in
    if funct3 == Isa.f3_csrrw
    then some (Csr.csrrw f addr rs1v)
    else if funct3 == Isa.f3_csrrs
    then some (Csr.csrrs f addr rs1v (rs1 == 0))
    else if funct3 == Isa.f3_csrrc
    then some (Csr.csrrc rv32 f addr rs1v (rs1 == 0))
    else if funct3 == Isa.f3_csrrwi
    then some (Csr.csrrwi f addr zimm)
    else if funct3 == Isa.f3_csrrsi
    then some (Csr.csrrsi f addr zimm)
    else if funct3 == Isa.f3_csrrci
    then some (Csr.csrrci rv32 f addr zimm)
    else none

-- The cause of an ECALL in a mode.
unfoldable pub ecall_cause : ℕ → ℕ
ecall_cause mode =
    if mode == mode_u
    then Codes.exc_ecall_u
    else if mode == mode_s
    then Codes.exc_ecall_s
    else Codes.exc_ecall_m

module _ {M : Type 0} where
  -- `fireTrap(UWord(CSR::EXC_ILLEGAL_INSN), UWord(d.opcode)); return true;`
  unfoldable pub illegal : DecodedInstr → Exec M Bool
  illegal d = trap Codes.exc_illegal_insn d.opcode

  -- A jump whose target was checked: rd is written, then the pc.
  unfoldable pub jump_and_link : ℕ → ℕ → ℕ → Exec M Bool
  jump_and_link rd ret target = set_reg rd ret >> modify (λ c. set_pc c target) >> pure true

  unfoldable pub finish_branch : DecodedInstr → Option Bool → Exec M Bool
  finish_branch d none = illegal d
  finish_branch d (some false) = pure false
  finish_branch d (some true) = gets (λ c. c.pc) >>= λ pc.
      let target = uword rv32 (pc + d.imm) in
      if not (bit_and target 0b11 == 0)
      then trap Codes.exc_insn_misalign target
      else (modify (λ c. set_pc c target) >> pure true)

  unfoldable pub execute_branch : DecodedInstr → Exec M Bool
  execute_branch d =
      get_reg d.rs1 >>= λ r1. get_reg d.rs2 >>= λ r2. finish_branch d (branch_taken d.funct3 r1 r2)

  -- The result of the ALU goes to rd.
  unfoldable pub finish_op : DecodedInstr → ℕ → ℕ → Option Alu.Op → Exec M Bool
  finish_op d a b none = illegal d
  finish_op d a b (some op) = set_reg d.rd (Alu.execute rv32 op a b) >> pure false

  unfoldable pub execute_op_imm : DecodedInstr → Exec M Bool
  execute_op_imm d = get_reg d.rs1 >>= λ rs1v. finish_op d rs1v d.imm (op_imm_op d.funct3 d.funct7)

  unfoldable pub execute_op : DecodedInstr → Exec M Bool
  execute_op d = gets (λ c. c.config) >>= λ config. get_reg d.rs1 >>= λ rs1v.
      get_reg d.rs2 >>= λ rs2v.
      if d.funct7 == Isa.f7_mext
      then (if not (has_extension config ext_m)
          then illegal d
          else finish_op d rs1v rs2v (m_ext_op d.funct3))
      else finish_op d rs1v rs2v (base_op d.funct3 d.funct7)

  unfoldable pub finish_csr : DecodedInstr → Option (CsrFile × ℕ) → Exec M Bool
  finish_csr d none = illegal d
  finish_csr d (some r) =
      modify (λ c. record c { csr = r.0; regs = Registers.set c.regs d.rd r.1 }) >> pure false

  unfoldable pub execute_csr : DecodedInstr → Exec M Bool
  execute_csr d =
      let addr = bit_and d.imm 0xFFF in
      gets (λ c. c.priv_mode) >>= λ mode. gets (λ c. c.csr) >>= λ file. get_reg d.rs1 >>= λ rs1v.
      if ltb mode (bit_and (shr addr 8) 0x3)
      then trap Codes.exc_illegal_insn addr
      else finish_csr d (csr_access d.funct3 file addr rs1v d.rs1)

  -- `case OP_SYSTEM`
  unfoldable pub execute_system : DecodedInstr → Exec M Bool
  execute_system d =
      if d.funct3 == 0
      then (if d.imm == 0
          then (gets (λ c. c.priv_mode) >>= λ mode. trap (ecall_cause mode) 0)
          else if d.imm == 0x302
          then execute_mret
          else if bit_and d.imm 0xFE0 == 0x120
          then pure false
          else (modify halt >> pure false))
      else execute_csr d

  -- `case OP_JAL`
  unfoldable pub execute_jal : DecodedInstr → Exec M Bool
  execute_jal d = gets (λ c. c.pc) >>= λ pc.
      let target = uword rv32 (pc + d.imm) in
      if not (bit_and target 0b11 == 0)
      then trap Codes.exc_insn_misalign target
      else jump_and_link d.rd (uword rv32 (pc + 4)) target

  -- `case OP_JALR`
  unfoldable pub execute_jalr : DecodedInstr → Exec M Bool
  execute_jalr d = gets (λ c. c.pc) >>= λ pc. get_reg d.rs1 >>= λ base.
      let target = bit_and (uword rv32 (base + d.imm)) (complement rv32 0b01) in
      if not (bit_and target 0b10 == 0)
      then trap Codes.exc_insn_misalign target
      else jump_and_link d.rd (uword rv32 (pc + 4)) target

  -- The `default` of `executeInstr`.
  unfoldable pub unknown_opcode : DecodedInstr → Exec M Bool
  unknown_opcode d = gets (λ c. Csr.get_mtvec c.csr) >>= λ mtvec.
      if not (mtvec == 0) then illegal d else raise illegal_opcode

unfoldable pub execute_instr : {M : Type 0} → MemT M → DecodedInstr → Exec M Bool
execute_instr ops d =
    if d.opcode == Isa.op_lui
    then (set_reg d.rd d.imm >> pure false)
    else if d.opcode == Isa.op_auipc
    then (gets (λ c. c.pc) >>= λ pc. set_reg d.rd (uword rv32 (pc + d.imm)) >> pure false)
    else if d.opcode == Isa.op_jal
    then execute_jal d
    else if d.opcode == Isa.op_jalr
    then execute_jalr d
    else if d.opcode == Isa.op_branch
    then execute_branch d
    else if d.opcode == Isa.op_load
    then execute_load ops d
    else if d.opcode == Isa.op_store
    then execute_store ops d
    else if d.opcode == Isa.op_op_imm
    then execute_op_imm d
    else if d.opcode == Isa.op_op
    then execute_op d
    else if d.opcode == Isa.op_amo
    then execute_amo ops d
    else if d.opcode == Isa.op_misc_mem
    then pure false
    else if d.opcode == Isa.op_system
    then execute_system d
    else unknown_opcode d
