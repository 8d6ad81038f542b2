-- ===== src/Builder/Jumps.antt =====
-- rv32i/include/instr_builder.hpp and decoder.hpp: what the B, J and U builders encode, the decoder
-- reads back.
use xor_os.Base.{ℕ, ◌+◌, ◌-◌, ◌*◌, ◌/◌, ◌%◌, ◌^◌, ◌<◌, ◌≡◌, ◌⊎◌, ◌∙◌, arith}
use xor_os.Base.Int.{ℤ, pos, negsuc, magnitude, ◌≤ℤ◌}
use xor_os.Base.Word.{Xlen, rv32, to_signed, of_signed, of_signed-lt}
use xor_os.Isa
use xor_os.Isa.{decode_imm_u}
use xor_os.Isa.Fields.{
  get_opcode_lem, get_rd_lem, decode_imm_b_lem, decode_imm_u_lem, decode_imm_j_lem,
}
use xor_os.Decoder.{decode, decode_imm}
use xor_os.Builder.{b_type, u_type, j_type}
use xor_os.Builder.Sums.{word6, b_type_sum, u_type_sum, j_type_sum}
use xor_os.Builder.Values.{
  fields_of_word6, value_of_13, value_of_21, pattern_even, decode_imm-b, decode_imm-j, decode_imm-u,
  extended,
}

module _ (x : Xlen) where
  -- Decoding a branch gives back its fields and its offset, for every even offset in the asserted
  -- range.
  pub decode-b_type :
      (offset : ℤ) (rs2 rs1 f3 : ℕ)
      → negsuc 4095 ≤ℤ offset
      → offset ≤ℤ pos 4094
      → magnitude offset % 2 ≡ 0
      → rs2 < 32
      → rs1 < 32
      → f3 < 8
      → let d = decode x (b_type offset rs2 rs1 f3 Isa.op_branch) in
        (d.opcode ≡ Isa.op_branch)
        × (d.funct3 ≡ f3)
        × (d.rs1 ≡ rs1)
        × (d.rs2 ≡ rs2)
        × (to_signed x d.imm ≡ offset)
  unfolding decode
  decode-b_type offset rs2 rs1 f3 lo hi even h1 h2 h3 =
      rw (b_type_sum offset rs2 rs1 f3 Isa.op_branch h1 h2 h3 (omega arith))
        (is.0, is.2, is.3, is.4, value)
    where
      p : ℕ
      p = of_signed rv32 offset

      a : ℕ
      a = p / 2 ^ 12 % 2 * 2 ^ 6 + p / 2 ^ 5 % 2 ^ 6

      b : ℕ
      b = p / 2 % 2 ^ 4 * 2 + p / 2 ^ 11 % 2

      w : ℕ
      w = word6 a rs2 rs1 f3 b Isa.op_branch

      is :
          (Isa.get_opcode w ≡ Isa.op_branch)
          × (Isa.get_rd w ≡ b)
          × (Isa.get_funct3 w ≡ f3)
          × (Isa.get_rs1 w ≡ rs1)
          × (Isa.get_rs2 w ≡ rs2)
          × (Isa.get_funct7 w ≡ a)
      is =
          fields_of_word6 a rs2 rs1 f3 b Isa.op_branch (omega arith) h1 h2 h3 (omega arith)
            (omega arith)

      value : to_signed x (decode_imm x (Isa.get_opcode w) w) ≡ offset
      value = rw is.0 (
          extended x 13
            (w / 2 ^ 31 % 2 * 2 ^ 12
              + w / 2 ^ 7 % 2 * 2 ^ 11
              + w / 2 ^ 25 % 2 ^ 6 * 2 ^ 5
              + w / 2 ^ 8 % 2 ^ 4 * 2)
            (p % 2 ^ 13) offset (decode_imm-b x w ∙ decode_imm_b_lem w x)
            (omega (arith, pattern_even offset even)) (omega arith) (omega arith)
            (value_of_13 offset lo (omega arith)))

  -- Decoding a jump gives back its fields and its offset, for every even offset of 21 bits.
  pub decode-j_type :
      (offset : ℤ) (rd : ℕ)
      → negsuc (2 ^ 20 - 1) ≤ℤ offset
      → offset ≤ℤ pos (2 ^ 20 - 1)
      → magnitude offset % 2 ≡ 0
      → rd < 32
      → let d = decode x (j_type offset rd Isa.op_jal) in
        (d.opcode ≡ Isa.op_jal) × (d.rd ≡ rd) × (to_signed x d.imm ≡ offset)
  unfolding decode
  decode-j_type offset rd lo hi even h1 =
      rw (j_type_sum offset rd Isa.op_jal h1 (omega arith)) (is, omega (arith, get_rd_lem w), value)
    where
      p : ℕ
      p = of_signed rv32 offset

      w : ℕ
      w =
          p / 2 ^ 20 % 2 * 2 ^ 31
          + p / 2 % 2 ^ 10 * 2 ^ 21
          + p / 2 ^ 11 % 2 * 2 ^ 20
          + p / 2 ^ 12 % 2 ^ 8 * 2 ^ 12
          + rd * 2 ^ 7
          + Isa.op_jal

      is : Isa.get_opcode w ≡ Isa.op_jal
      is = omega (arith, get_opcode_lem w)

      value : to_signed x (decode_imm x (Isa.get_opcode w) w) ≡ offset
      value = rw is (
          extended x 21
            (w / 2 ^ 31 % 2 * 2 ^ 20
              + w / 2 ^ 12 % 2 ^ 8 * 2 ^ 12
              + w / 2 ^ 20 % 2 * 2 ^ 11
              + w / 2 ^ 21 % 2 ^ 10 * 2)
            (p % 2 ^ 21) offset (decode_imm-j x w ∙ decode_imm_j_lem w x)
            (omega (arith, pattern_even offset even)) (omega arith) (omega arith)
            (value_of_21 offset lo hi))

  -- Decoding LUI or AUIPC gives back the register and the upper 20 bits, widened with their sign.
  pub decode-u_type :
      (imm : ℤ) (rd op : ℕ)
      → rd < 32
      → (op ≡ Isa.op_lui) ⊎ (op ≡ Isa.op_auipc)
      → let d = decode x (u_type imm rd op) in
        (d.opcode ≡ op)
        × (d.rd ≡ rd)
        × (d.imm ≡ of_signed x (to_signed rv32 (of_signed rv32 imm / 2 ^ 12 * 2 ^ 12)))
  unfolding decode
  decode-u_type imm rd op h1 i =
      rw (u_type_sum imm rd op h1 (omega arith))
        (is, omega (arith, get_rd_lem w), rw (is, decode_imm-u x op w i, top))
    where
      w : ℕ
      w = of_signed rv32 imm / 2 ^ 12 % 2 ^ 20 * 2 ^ 12 + rd * 2 ^ 7 + op

      is : Isa.get_opcode w ≡ op
      is = omega (arith, get_opcode_lem w)

      top : decode_imm_u w ≡ of_signed rv32 imm / 2 ^ 12 * 2 ^ 12
      top = omega (arith, decode_imm_u_lem w, of_signed-lt rv32 imm)
