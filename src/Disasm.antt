-- ===== src/Disasm.antt =====
-- rv32i/include/disasm.hpp, and `toString` of include/decoder.hpp: an instruction as text. A
-- `switch` whose cases return is a table; `none` is the way out of it, to the text for an unknown
-- instruction.
pub mod RoundTrip
pub mod Reading
pub mod Known
use mathlib.Core.Option
use xor_os.Base.{
  ℕ, ◌+◌, ◌%◌, ◌/◌, ◌^◌, bit_and, ltb, ◌==◌, if◌then◌else◌, List, [], ◌∷◌, ◌++◌, Option, none, some,
  get_or,
}
use xor_os.Base.Word.{Xlen, to_signed, asr, shr}
use xor_os.Base.Text.{Text, codes, hex_fixed, digits_of, to_string}
use xor_os.Base.Int.{pos}
use xor_os.Isa
use xor_os.Csr.Codes
use xor_os.Decoder.{DecodedInstr}

module _ {A : Type 0} where
  unfoldable pub switch_on : ℕ → List (ℕ × A) → Option A
  switch_on n [] = none
  switch_on n ((k, a) ∷ cases) = if n == k then some a else switch_on n cases

unfoldable pub reg_names : List Text
reg_names =
    codes "zero"
    ∷ codes "ra"
    ∷ codes "sp"
    ∷ codes "gp"
    ∷ codes "tp"
    ∷ codes "t0"
    ∷ codes "t1"
    ∷ codes "t2"
    ∷ codes "s0"
    ∷ codes "s1"
    ∷ codes "a0"
    ∷ codes "a1"
    ∷ codes "a2"
    ∷ codes "a3"
    ∷ codes "a4"
    ∷ codes "a5"
    ∷ codes "a6"
    ∷ codes "a7"
    ∷ codes "s2"
    ∷ codes "s3"
    ∷ codes "s4"
    ∷ codes "s5"
    ∷ codes "s6"
    ∷ codes "s7"
    ∷ codes "s8"
    ∷ codes "s9"
    ∷ codes "s10"
    ∷ codes "s11"
    ∷ codes "t3"
    ∷ codes "t4"
    ∷ codes "t5"
    ∷ codes "t6"
    ∷ []

unfoldable pub reg_name : ℕ → Text
reg_name r = if ltb r 32 then get_or reg_names r [] else codes "?"

unfoldable pub csr_names : List (ℕ × Text)
csr_names =
    (Codes.satp, codes "satp")
    ∷ (Codes.mstatus, codes "mstatus")
    ∷ (Codes.misa, codes "misa")
    ∷ (Codes.mie, codes "mie")
    ∷ (Codes.mtvec, codes "mtvec")
    ∷ (Codes.mscratch, codes "mscratch")
    ∷ (Codes.mepc, codes "mepc")
    ∷ (Codes.mcause, codes "mcause")
    ∷ (Codes.mtval, codes "mtval")
    ∷ (Codes.mip, codes "mip")
    ∷ (0xB00, codes "mcycle")
    ∷ (0xB02, codes "minstret")
    ∷ (0xF11, codes "mvendorid")
    ∷ (0xF12, codes "marchid")
    ∷ (0xF13, codes "mimpid")
    ∷ (Codes.mhartid, codes "mhartid")
    ∷ []

unfoldable pub name_or_number : ℕ → Option Text → Text
name_or_number addr none = codes "0x" ++ digits_of 16 4 addr
name_or_number addr (some name) = name

unfoldable pub csr_name : ℕ → Text
csr_name addr = name_or_number addr (switch_on addr csr_names)

abbrev comma : Text
comma = codes ", "

-- `DecodedInstr::toString`
unfoldable pub instr_to_string : Xlen → DecodedInstr → Text
instr_to_string x d =
    codes "RAW=0x"
    ++ (hex_fixed 8 d.raw
        ++ (codes " OP=0x"
            ++ (digits_of 16 2 d.opcode
                ++ (codes " rd=x"
                    ++ (digits_of 10 3 d.rd
                        ++ (codes " rs1=x"
                            ++ (digits_of 10 3 d.rs1
                                ++ (codes " rs2=x"
                                    ++ (digits_of 10 3 d.rs2
                                        ++ (codes " f3=0x"
                                            ++ (digits_of 16 2 d.funct3
                                                ++ (codes " f7=0x"
                                                    ++ (digits_of 16 2 d.funct7
                                                        ++ (codes " imm="
                                                            ++ to_string
                                                            (to_signed x d.imm)))))))))))))))

-- The formats of `disassemble`, with the mnemonic and its operands.
unfoldable pub rtype : Text → DecodedInstr → Text
rtype mn d =
    mn ++ (b' ' ∷ (reg_name d.rd ++ (comma ++ (reg_name d.rs1 ++ (comma ++ reg_name d.rs2)))))

unfoldable pub itype : Xlen → Text → DecodedInstr → Text
itype x mn d =
    mn
    ++ (b' '
        ∷ (reg_name d.rd
            ++ (comma ++ (reg_name d.rs1 ++ (comma ++ to_string (to_signed x d.imm))))))

unfoldable pub shift_type : Text → DecodedInstr → Text
shift_type mn d =
    mn
    ++ (b' ' ∷ (reg_name d.rd ++ (comma ++ (reg_name d.rs1 ++ (comma ++ to_string (pos d.rs2))))))

unfoldable pub btype : Xlen → Text → DecodedInstr → Text
btype x mn d =
    mn
    ++ (b' '
        ∷ (reg_name d.rs1
            ++ (comma ++ (reg_name d.rs2 ++ (comma ++ to_string (to_signed x d.imm))))))

-- `mem` for a load, with rd, and `stype` for a store, with rs2.
unfoldable pub mem_type : Xlen → Text → ℕ → DecodedInstr → Text
mem_type x mn r d =
    mn
    ++ (b' '
        ∷ (reg_name r
            ++ (comma
                ++ (to_string (to_signed x d.imm) ++ (b'(' ∷ (reg_name d.rs1 ++ codes ")"))))))

unfoldable pub utype : Xlen → Text → DecodedInstr → Text
utype x mn d = mn ++ (b' ' ∷ (reg_name d.rd ++ (comma ++ to_string (asr (to_signed x d.imm) 12))))

unfoldable pub jal_type : Xlen → DecodedInstr → Text
jal_type x d = codes "jal " ++ (reg_name d.rd ++ (comma ++ to_string (to_signed x d.imm)))

unfoldable pub csr_type : Text → Text → DecodedInstr → Text
csr_type mn operand d =
    let csr = csr_name (bit_and (d.imm % 2 ^ 32) 0xFFF) in
    mn ++ (b' ' ∷ (reg_name d.rd ++ (comma ++ (csr ++ (comma ++ operand)))))

unfoldable pub amo_type : Text → DecodedInstr → Text
amo_type mn d =
    mn
    ++ (b' '
        ∷ (reg_name d.rd
            ++ (comma ++ (reg_name d.rs2 ++ (codes ", (" ++ (reg_name d.rs1 ++ codes ")"))))))

unfoldable pub lr_type : DecodedInstr → Text
lr_type d = codes "lr.w " ++ (reg_name d.rd ++ (codes ", (" ++ (reg_name d.rs1 ++ codes ")")))

-- The mnemonics, by the fields that the `switch` of each opcode looks at.
unfoldable pub op_imm_name : ℕ → Option Text
op_imm_name funct3 = switch_on funct3 (
    (Isa.f3_add_sub, codes "addi")
    ∷ (Isa.f3_slt, codes "slti")
    ∷ (Isa.f3_sltu, codes "sltiu")
    ∷ (Isa.f3_xor, codes "xori")
    ∷ (Isa.f3_or, codes "ori")
    ∷ (Isa.f3_and, codes "andi")
    ∷ [])

unfoldable pub shift_imm_name : ℕ → ℕ → Option Text
shift_imm_name funct3 funct7 = switch_on funct3 (
    (Isa.f3_sll, codes "slli")
    ∷ (Isa.f3_srl_sra, if funct7 == Isa.f7_alt then codes "srai" else codes "srli")
    ∷ [])

unfoldable pub m_ext_name : ℕ → Option Text
m_ext_name funct3 = switch_on funct3 (
    (Isa.f3_mul, codes "mul")
    ∷ (Isa.f3_mulh, codes "mulh")
    ∷ (Isa.f3_mulhsu, codes "mulhsu")
    ∷ (Isa.f3_mulhu, codes "mulhu")
    ∷ (Isa.f3_div, codes "div")
    ∷ (Isa.f3_divu, codes "divu")
    ∷ (Isa.f3_rem, codes "rem")
    ∷ (Isa.f3_remu, codes "remu")
    ∷ [])

unfoldable pub base_name : ℕ → ℕ → Option Text
base_name funct3 funct7 = switch_on funct3 (
    (Isa.f3_add_sub, if funct7 == Isa.f7_alt then codes "sub" else codes "add")
    ∷ (Isa.f3_sll, codes "sll")
    ∷ (Isa.f3_slt, codes "slt")
    ∷ (Isa.f3_sltu, codes "sltu")
    ∷ (Isa.f3_xor, codes "xor")
    ∷ (Isa.f3_srl_sra, if funct7 == Isa.f7_alt then codes "sra" else codes "srl")
    ∷ (Isa.f3_or, codes "or")
    ∷ (Isa.f3_and, codes "and")
    ∷ [])

-- The first `switch` falls to the second where no case fits.
unfoldable pub op_name : ℕ → ℕ → Option Text
op_name funct3 funct7 =
    if funct7 == Isa.f7_mext
    then Option.or_else (m_ext_name funct3) (base_name funct3 funct7)
    else base_name funct3 funct7

unfoldable pub load_name : ℕ → Option Text
load_name funct3 = switch_on funct3 (
    (Isa.f3_lb, codes "lb")
    ∷ (Isa.f3_lh, codes "lh")
    ∷ (Isa.f3_lw, codes "lw")
    ∷ (Isa.f3_lbu, codes "lbu")
    ∷ (Isa.f3_lhu, codes "lhu")
    ∷ [])

unfoldable pub store_name : ℕ → Option Text
store_name funct3 =
    switch_on funct3
      ((Isa.f3_sb, codes "sb") ∷ (Isa.f3_sh, codes "sh") ∷ (Isa.f3_sw, codes "sw") ∷ [])

unfoldable pub branch_name : ℕ → Option Text
branch_name funct3 = switch_on funct3 (
    (Isa.f3_beq, codes "beq")
    ∷ (Isa.f3_bne, codes "bne")
    ∷ (Isa.f3_blt, codes "blt")
    ∷ (Isa.f3_bge, codes "bge")
    ∷ (Isa.f3_bltu, codes "bltu")
    ∷ (Isa.f3_bgeu, codes "bgeu")
    ∷ [])

unfoldable pub csr_op_name : ℕ → Option Text
csr_op_name funct3 = switch_on funct3 (
    (Isa.f3_csrrw, codes "csrrw")
    ∷ (Isa.f3_csrrs, codes "csrrs")
    ∷ (Isa.f3_csrrc, codes "csrrc")
    ∷ [])

unfoldable pub csr_imm_name : ℕ → Option Text
csr_imm_name funct3 = switch_on funct3 (
    (Isa.f3_csrrwi, codes "csrrwi")
    ∷ (Isa.f3_csrrsi, codes "csrrsi")
    ∷ (Isa.f3_csrrci, codes "csrrci")
    ∷ [])

unfoldable pub amo_name : ℕ → Option Text
amo_name funct5 = switch_on funct5 (
    (Isa.f5_sc, codes "sc.w")
    ∷ (Isa.f5_amoswap, codes "amoswap.w")
    ∷ (Isa.f5_amoadd, codes "amoadd.w")
    ∷ (Isa.f5_amoxor, codes "amoxor.w")
    ∷ (Isa.f5_amoor, codes "amoor.w")
    ∷ (Isa.f5_amoand, codes "amoand.w")
    ∷ (Isa.f5_amomin, codes "amomin.w")
    ∷ (Isa.f5_amomax, codes "amomax.w")
    ∷ (Isa.f5_amominu, codes "amominu.w")
    ∷ (Isa.f5_amomaxu, codes "amomaxu.w")
    ∷ [])

-- `ecall`, `ebreak` and `mret`.
unfoldable pub plain_system_name : ℕ → Option Text
plain_system_name imm =
    switch_on imm ((0, codes "ecall") ∷ (1, codes "ebreak") ∷ (0x302, codes "mret") ∷ [])

-- The `switch` over the opcodes.
unfoldable pub disassemble_op_imm : Xlen → DecodedInstr → Option Text
disassemble_op_imm x d =
    Option.or_else (Option.map (λ mn. itype x mn d) (op_imm_name d.funct3))
      (Option.map (λ mn. shift_type mn d) (shift_imm_name d.funct3 d.funct7))

unfoldable pub disassemble_system : DecodedInstr → Option Text
disassemble_system d = Option.or_else (if d.funct3 == 0 then plain_system_name d.imm else none) (
    Option.or_else (Option.map (λ mn. csr_type mn (reg_name d.rs1) d) (csr_op_name d.funct3))
      (Option.map (λ mn. csr_type mn (to_string (pos d.rs1)) d) (csr_imm_name d.funct3)))

unfoldable pub disassemble_amo : DecodedInstr → Option Text
disassemble_amo d =
    let funct5 = shr d.funct7 2 in
    if funct5 == Isa.f5_lr
    then some (lr_type d)
    else Option.map (λ mn. amo_type mn d) (amo_name funct5)

unfoldable pub disassemble_known : Xlen → DecodedInstr → Option Text
disassemble_known x d =
    if d.opcode == Isa.op_op_imm
    then disassemble_op_imm x d
    else if d.opcode == Isa.op_op
    then Option.map (λ mn. rtype mn d) (op_name d.funct3 d.funct7)
    else if d.opcode == Isa.op_load
    then Option.map (λ mn. mem_type x mn d.rd d) (load_name d.funct3)
    else if d.opcode == Isa.op_store
    then Option.map (λ mn. mem_type x mn d.rs2 d) (store_name d.funct3)
    else if d.opcode == Isa.op_branch
    then Option.map (λ mn. btype x mn d) (branch_name d.funct3)
    else if d.opcode == Isa.op_lui
    then some (utype x (codes "lui") d)
    else if d.opcode == Isa.op_auipc
    then some (utype x (codes "auipc") d)
    else if d.opcode == Isa.op_jal
    then some (jal_type x d)
    else if d.opcode == Isa.op_jalr
    then some (itype x (codes "jalr") d)
    else if d.opcode == Isa.op_system
    then disassemble_system d
    else if d.opcode == Isa.op_misc_mem
    then some (codes "fence")
    else if d.opcode == Isa.op_amo
    then disassemble_amo d
    else none

unfoldable pub disassemble : Xlen → DecodedInstr → Text
disassemble x d = Option.get_or (disassemble_known x d) (codes "unknown " ++ instr_to_string x d)
