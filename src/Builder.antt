-- ===== src/Builder.antt =====
-- rv32i/include/instr_builder.hpp: the instruction encoders. The asserted ranges of the operands
-- are conditions on the caller. A signed operand is an integer; `Word(imm)` is its pattern.
mod Sums
pub mod Values
pub mod Formats
pub mod RoundTrip
pub mod Jumps
use xor_os.Base.{ℕ, ◌+◌, ◌*◌, ◌%◌, ◌^◌, bit_and, bit_or, Bool, if◌then◌else◌}
use xor_os.Base.Int.{ℤ, pos, ◌*ℤ◌}
use xor_os.Base.Word.{rv32, shl, shr, of_signed}
use xor_os.Isa

unfoldable pub r_type : ℕ → ℕ → ℕ → ℕ → ℕ → ℕ → ℕ
r_type funct7 rs2 rs1 funct3 rd opcode =
    bit_or
      (bit_or
        (bit_or (bit_or (bit_or (shl rv32 funct7 25) (shl rv32 rs2 20)) (shl rv32 rs1 15))
          (shl rv32 funct3 12))
        (shl rv32 rd 7))
      opcode

unfoldable pub i_type : ℤ → ℕ → ℕ → ℕ → ℕ → ℕ
i_type imm rs1 funct3 rd opcode =
    let imm12 = bit_and (of_signed rv32 imm) 0b111111111111 in
    bit_or
      (bit_or (bit_or (bit_or (shl rv32 imm12 20) (shl rv32 rs1 15)) (shl rv32 funct3 12))
        (shl rv32 rd 7))
      opcode

unfoldable pub s_type : ℤ → ℕ → ℕ → ℕ → ℕ → ℕ
s_type imm rs2 rs1 funct3 opcode =
    let imm12 = bit_and (of_signed rv32 imm) 0b111111111111 in
    bit_or
      (bit_or
        (bit_or
          (bit_or (bit_or (shl rv32 (bit_and (shr imm12 5) 0b1111111) 25) (shl rv32 rs2 20))
            (shl rv32 rs1 15))
          (shl rv32 funct3 12))
        (shl rv32 (bit_and imm12 0b11111) 7))
      opcode

unfoldable pub b_type : ℤ → ℕ → ℕ → ℕ → ℕ → ℕ
b_type offset rs2 rs1 funct3 opcode =
    let o = bit_and (of_signed rv32 offset) 0x1FFE in
    let b12 = bit_and (shr o 12) 1 in
    let b11 = bit_and (shr o 11) 1 in
    let b10_5 = bit_and (shr o 5) 0b111111 in
    let b4_1 = bit_and (shr o 1) 0b1111 in
    bit_or
      (bit_or
        (bit_or
          (bit_or
            (bit_or (bit_or (bit_or (shl rv32 b12 31) (shl rv32 b10_5 25)) (shl rv32 rs2 20))
              (shl rv32 rs1 15))
            (shl rv32 funct3 12))
          (shl rv32 b4_1 8))
        (shl rv32 b11 7))
      opcode

unfoldable pub u_type : ℤ → ℕ → ℕ → ℕ
u_type imm rd opcode =
    bit_or (bit_or (bit_and (of_signed rv32 imm) 0xFFFFF000) (shl rv32 rd 7)) opcode

unfoldable pub j_type : ℤ → ℕ → ℕ → ℕ
j_type offset rd opcode =
    let o = bit_and (of_signed rv32 offset) 0x1FFFFE in
    let b20 = bit_and (shr o 20) 1 in
    let b19_12 = bit_and (shr o 12) 0xFF in
    let b11 = bit_and (shr o 11) 1 in
    let b10_1 = bit_and (shr o 1) 0b1111111111 in
    bit_or
      (bit_or
        (bit_or (bit_or (bit_or (shl rv32 b20 31) (shl rv32 b10_1 21)) (shl rv32 b11 20))
          (shl rv32 b19_12 12))
        (shl rv32 rd 7))
      opcode

-- `csrAddr` in the place of the immediate.
unfoldable pub csr_type : ℕ → ℕ → ℕ → ℕ → ℕ
csr_type csr_addr rs1 funct3 rd =
    bit_or
      (bit_or (bit_or (bit_or (shl rv32 csr_addr 20) (shl rv32 rs1 15)) (shl rv32 funct3 12))
        (shl rv32 rd 7))
      Isa.op_system

-- `static_cast<uint8_t>` of funct5, aq and rl.
unfoldable pub amo : ℕ → Bool → Bool → ℕ → ℕ → ℕ → ℕ
amo funct5 aq rl rs2 rs1 rd =
    let f7 =
      bit_or (bit_or (shl rv32 funct5 2) (if aq then 2 else 0)) (if rl then 1 else 0) % 2 ^ 8 in
    r_type f7 rs2 rs1 Isa.f3_amo_w rd Isa.op_amo

-- The pseudo-instructions.
unfoldable pub addi : ℕ → ℕ → ℤ → ℕ
addi rd rs1 imm = i_type imm rs1 Isa.f3_add_sub rd Isa.op_op_imm

unfoldable pub add : ℕ → ℕ → ℕ → ℕ
add rd rs1 rs2 = r_type Isa.f7_normal rs2 rs1 Isa.f3_add_sub rd Isa.op_op

unfoldable pub sub : ℕ → ℕ → ℕ → ℕ
sub rd rs1 rs2 = r_type Isa.f7_alt rs2 rs1 Isa.f3_add_sub rd Isa.op_op

unfoldable pub lui : ℕ → ℤ → ℕ
lui rd imm20 = u_type (imm20 *ℤ pos (2 ^ 12)) rd Isa.op_lui

unfoldable pub auipc : ℕ → ℤ → ℕ
auipc rd imm20 = u_type (imm20 *ℤ pos (2 ^ 12)) rd Isa.op_auipc

unfoldable pub slli : ℕ → ℕ → ℕ → ℕ
slli rd rs1 shamt = r_type Isa.f7_normal shamt rs1 Isa.f3_sll rd Isa.op_op_imm

unfoldable pub srli : ℕ → ℕ → ℕ → ℕ
srli rd rs1 shamt = r_type Isa.f7_normal shamt rs1 Isa.f3_srl_sra rd Isa.op_op_imm

unfoldable pub srai : ℕ → ℕ → ℕ → ℕ
srai rd rs1 shamt = r_type Isa.f7_alt shamt rs1 Isa.f3_srl_sra rd Isa.op_op_imm

unfoldable pub beq : ℕ → ℕ → ℤ → ℕ
beq rs1 rs2 offset = b_type offset rs2 rs1 Isa.f3_beq Isa.op_branch

unfoldable pub bne : ℕ → ℕ → ℤ → ℕ
bne rs1 rs2 offset = b_type offset rs2 rs1 Isa.f3_bne Isa.op_branch

unfoldable pub mul : ℕ → ℕ → ℕ → ℕ
mul rd rs1 rs2 = r_type Isa.f7_mext rs2 rs1 Isa.f3_mul rd Isa.op_op

unfoldable pub div : ℕ → ℕ → ℕ → ℕ
div rd rs1 rs2 = r_type Isa.f7_mext rs2 rs1 Isa.f3_div rd Isa.op_op

unfoldable pub ecall : ℕ
ecall = Isa.op_system

unfoldable pub lw : ℕ → ℕ → ℤ → ℕ
lw rd rs1 offset = i_type offset rs1 Isa.f3_lw rd Isa.op_load

unfoldable pub sw : ℕ → ℕ → ℤ → ℕ
sw rs2 rs1 offset = s_type offset rs2 rs1 Isa.f3_sw Isa.op_store

unfoldable pub jal : ℕ → ℤ → ℕ
jal rd offset = j_type offset rd Isa.op_jal

unfoldable pub halt : ℕ
halt = 0

unfoldable pub csrrw : ℕ → ℕ → ℕ → ℕ
csrrw rd csr rs1 = csr_type csr rs1 Isa.f3_csrrw rd

unfoldable pub csrrs : ℕ → ℕ → ℕ → ℕ
csrrs rd csr rs1 = csr_type csr rs1 Isa.f3_csrrs rd

unfoldable pub csrrc : ℕ → ℕ → ℕ → ℕ
csrrc rd csr rs1 = csr_type csr rs1 Isa.f3_csrrc rd

unfoldable pub csrrwi : ℕ → ℕ → ℕ → ℕ
csrrwi rd csr zimm = csr_type csr zimm Isa.f3_csrrwi rd

unfoldable pub csrrsi : ℕ → ℕ → ℕ → ℕ
csrrsi rd csr zimm = csr_type csr zimm Isa.f3_csrrsi rd

unfoldable pub csrrci : ℕ → ℕ → ℕ → ℕ
csrrci rd csr zimm = csr_type csr zimm Isa.f3_csrrci rd

unfoldable pub lr_w : ℕ → ℕ → Bool → Bool → ℕ
lr_w rd rs1 aq rl = amo Isa.f5_lr aq rl 0 rs1 rd

unfoldable pub sc_w : ℕ → ℕ → ℕ → Bool → Bool → ℕ
sc_w rd rs2 rs1 aq rl = amo Isa.f5_sc aq rl rs2 rs1 rd

unfoldable pub amoswap_w : ℕ → ℕ → ℕ → Bool → Bool → ℕ
amoswap_w rd rs2 rs1 aq rl = amo Isa.f5_amoswap aq rl rs2 rs1 rd

unfoldable pub amoadd_w : ℕ → ℕ → ℕ → Bool → Bool → ℕ
amoadd_w rd rs2 rs1 aq rl = amo Isa.f5_amoadd aq rl rs2 rs1 rd

unfoldable pub amoxor_w : ℕ → ℕ → ℕ → Bool → Bool → ℕ
amoxor_w rd rs2 rs1 aq rl = amo Isa.f5_amoxor aq rl rs2 rs1 rd

unfoldable pub amoand_w : ℕ → ℕ → ℕ → Bool → Bool → ℕ
amoand_w rd rs2 rs1 aq rl = amo Isa.f5_amoand aq rl rs2 rs1 rd

unfoldable pub amoor_w : ℕ → ℕ → ℕ → Bool → Bool → ℕ
amoor_w rd rs2 rs1 aq rl = amo Isa.f5_amoor aq rl rs2 rs1 rd

unfoldable pub amomin_w : ℕ → ℕ → ℕ → Bool → Bool → ℕ
amomin_w rd rs2 rs1 aq rl = amo Isa.f5_amomin aq rl rs2 rs1 rd

unfoldable pub amomax_w : ℕ → ℕ → ℕ → Bool → Bool → ℕ
amomax_w rd rs2 rs1 aq rl = amo Isa.f5_amomax aq rl rs2 rs1 rd

unfoldable pub amominu_w : ℕ → ℕ → ℕ → Bool → Bool → ℕ
amominu_w rd rs2 rs1 aq rl = amo Isa.f5_amominu aq rl rs2 rs1 rd

unfoldable pub amomaxu_w : ℕ → ℕ → ℕ → Bool → Bool → ℕ
amomaxu_w rd rs2 rs1 aq rl = amo Isa.f5_amomaxu aq rl rs2 rs1 rd
