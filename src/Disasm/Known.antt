-- ===== src/Disasm/Known.antt =====
-- rv32i/include/disasm.hpp beside include/rv_model.hpp: which instructions have a mnemonic.
use xor_os.Base.{is_some, ℕ, ◌≡◌, arith, ◌==◌, ◌||◌}
use xor_os.Isa
use xor_os.Csr.{CsrFile}
use xor_os.RvModel.Access.{amo_result}
use xor_os.RvModel.Execute.{branch_taken, op_imm_op, csr_access}
use xor_os.Disasm.{
  switch_on, branch_name, op_imm_name, shift_imm_name, csr_op_name, csr_imm_name, amo_name,
}

branch_named : (f3 r1 r2 : ℕ) → is_some (branch_name f3) ≡ is_some (branch_taken f3 r1 r2)
unfolding branch_name branch_taken switch_on
branch_named f3 r1 r2 = ground arith

op_imm_named :
    (f3 f7 : ℕ)
    → (is_some (op_imm_name f3) || is_some (shift_imm_name f3 f7)) ≡ is_some (op_imm_op f3 f7)
unfolding op_imm_name shift_imm_name op_imm_op switch_on
op_imm_named f3 f7 = ground arith

csr_named :
    (f3 : ℕ) (f : CsrFile) (addr rs1v rs1 : ℕ)
    → (is_some (csr_op_name f3) || is_some (csr_imm_name f3))
      ≡ is_some (csr_access f3 f addr rs1v rs1)
unfolding csr_op_name csr_imm_name csr_access switch_on
csr_named f3 f addr rs1v rs1 = ground arith

amo_named :
    (f5 loaded rs2v : ℕ)
    → is_some (amo_name f5) ≡ (f5 == Isa.f5_sc || is_some (amo_result f5 loaded rs2v))
unfolding amo_name amo_result switch_on
amo_named f5 loaded rs2v = ground arith

-- The disassembler has a mnemonic for a branch, an operation with an immediate, a CSR instruction
-- and an atomic one, LR apart, exactly where the CPU has an operation for the function code.
pub names-Executed :
    (funct3 funct7 funct5 r1 r2 : ℕ) (f : CsrFile) (addr rs1 : ℕ)
    → (is_some (branch_name funct3) ≡ is_some (branch_taken funct3 r1 r2))
      × ((is_some (op_imm_name funct3) || is_some (shift_imm_name funct3 funct7))
          ≡ is_some (op_imm_op funct3 funct7))
      × ((is_some (csr_op_name funct3) || is_some (csr_imm_name funct3))
          ≡ is_some (csr_access funct3 f addr r1 rs1))
      × (is_some (amo_name funct5) ≡ (funct5 == Isa.f5_sc || is_some (amo_result funct5 r1 r2)))
names-Executed funct3 funct7 funct5 r1 r2 f addr rs1 = (
  branch_named funct3 r1 r2,
  op_imm_named funct3 funct7,
  csr_named funct3 f addr r1 rs1,
  amo_named funct5 r1 r2,
)
