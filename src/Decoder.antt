-- ===== src/Decoder.antt =====
-- rv32i/include/decoder.hpp: `DecodedInstr` and `Decoder::decode`. `toString` only prints.
use xor_os.Base.{ℕ, ◌==◌, ◌||◌, if◌then◌else◌}
use xor_os.Base.Word.{Xlen, rv32, to_signed, of_signed}
use xor_os.Isa.{
  get_opcode, get_rd, get_funct3, get_rs1, get_rs2, get_funct7, decode_imm_i, decode_imm_s,
  decode_imm_b, decode_imm_u, decode_imm_j,
}
use xor_os.Isa.{
  op_load, op_op_imm, op_jalr, op_misc_mem, op_system, op_store, op_branch, op_lui, op_auipc,
  op_jal,
}

-- `imm` is an `SWord`, as its pattern.
pub record DecodedInstr : Type 0 where
  pub opcode : ℕ
  pub rd : ℕ
  pub rs1 : ℕ
  pub rs2 : ℕ
  pub funct3 : ℕ
  pub funct7 : ℕ
  pub imm : ℕ
  pub raw : ℕ

-- The `switch` over the formats; an opcode with no immediate has 0. The immediate of LUI and AUIPC
-- is an `int32_t` before it is widened.
unfoldable pub decode_imm : Xlen → ℕ → ℕ → ℕ
decode_imm x opcode raw =
    if opcode == op_load
      || opcode == op_op_imm
      || opcode == op_jalr
      || opcode == op_misc_mem
      || opcode == op_system
    then decode_imm_i x raw
    else if opcode == op_store
    then decode_imm_s x raw
    else if opcode == op_branch
    then decode_imm_b x raw
    else if opcode == op_lui || opcode == op_auipc
    then of_signed x (to_signed rv32 (decode_imm_u raw))
    else if opcode == op_jal
    then decode_imm_j x raw
    else 0

unfoldable pub decode : Xlen → ℕ → DecodedInstr
decode x raw = record {
  opcode = get_opcode raw;
  rd = get_rd raw;
  rs1 = get_rs1 raw;
  rs2 = get_rs2 raw;
  funct3 = get_funct3 raw;
  funct7 = get_funct7 raw;
  imm = decode_imm x (get_opcode raw) raw;
  raw = raw;
}
