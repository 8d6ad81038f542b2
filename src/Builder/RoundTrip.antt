-- ===== src/Builder/RoundTrip.antt =====
-- rv32i/include/instr_builder.hpp and decoder.hpp: what the R, I and S builders encode, the decoder
-- reads back.
use xor_os.Base.{ℕ, ◌+◌, ◌*◌, ◌/◌, ◌%◌, ◌^◌, ◌<◌, ◌≡◌, ◌∙◌, arith}
use xor_os.Base.Int.{ℤ, pos, negsuc, ◌≤ℤ◌}
use xor_os.Base.Word.{Xlen, rv32, to_signed, of_signed}
use xor_os.Isa
use xor_os.Isa.Fields.{decode_imm_i_lem, decode_imm_s_lem}
use xor_os.Decoder.{decode, decode_imm}
use xor_os.Builder.{r_type, i_type, s_type}
use xor_os.Builder.Sums.{word5, word6, r_type_sum, i_type_sum, s_type_sum}
use xor_os.Builder.Values.{
  IsImmI, fields_of_word5, fields_of_word6, value_of_12, decode_imm-i, decode_imm-s, extended,
}

-- Decoding an R-type word gives back each of its six fields, in both widths.
pub decode-r_type :
    (x : Xlen) (f7 rs2 rs1 f3 rd op : ℕ)
    → f7 < 128
    → rs2 < 32
    → rs1 < 32
    → f3 < 8
    → rd < 32
    → op < 128
    → let d = decode x (r_type f7 rs2 rs1 f3 rd op) in
      (d.opcode ≡ op)
      × (d.rd ≡ rd)
      × (d.funct3 ≡ f3)
      × (d.rs1 ≡ rs1)
      × (d.rs2 ≡ rs2)
      × (d.funct7 ≡ f7)
unfolding decode
decode-r_type x f7 rs2 rs1 f3 rd op h1 h2 h3 h4 h5 h6 =
    rw (r_type_sum f7 rs2 rs1 f3 rd op h1 h2 h3 h4 h5 h6)
      (fields_of_word6 f7 rs2 rs1 f3 rd op h1 h2 h3 h4 h5 h6)

module _ (x : Xlen) where
  -- Decoding an I-type word of an opcode with an I immediate gives back its fields and, as an
  -- integer, its immediate, for every immediate in the asserted range.
  pub decode-i_type :
      (imm : ℤ) (rs1 f3 rd op : ℕ)
      → negsuc 2047 ≤ℤ imm
      → imm ≤ℤ pos 2047
      → rs1 < 32
      → f3 < 8
      → rd < 32
      → op < 128
      → IsImmI op
      → let d = decode x (i_type imm rs1 f3 rd op) in
        (d.opcode ≡ op) × (d.rd ≡ rd) × (d.funct3 ≡ f3) × (d.rs1 ≡ rs1) × (to_signed x d.imm ≡ imm)
  unfolding decode
  decode-i_type imm rs1 f3 rd op lo hi h1 h2 h3 h4 i =
      rw (i_type_sum imm rs1 f3 rd op h1 h2 h3 h4) (is.0, is.1, is.2, is.3, value)
    where
      w : ℕ
      w = word5 (of_signed rv32 imm % 2 ^ 12) rs1 f3 rd op

      is :
          (Isa.get_opcode w ≡ op)
          × (Isa.get_rd w ≡ rd)
          × (Isa.get_funct3 w ≡ f3)
          × (Isa.get_rs1 w ≡ rs1)
      is = fields_of_word5 (of_signed rv32 imm % 2 ^ 12) rs1 f3 rd op (omega arith) h1 h2 h3 h4

      value : to_signed x (decode_imm x (Isa.get_opcode w) w) ≡ imm
      value = rw is.0 (
          extended x 12 (w / 2 ^ 20 % 2 ^ 12) (of_signed rv32 imm % 2 ^ 12) imm
            (decode_imm-i x op w i ∙ decode_imm_i_lem w x) (omega arith) (omega arith) (omega arith)
            (value_of_12 imm lo hi))

  -- Decoding a store gives back its fields and its offset.
  pub decode-s_type :
      (imm : ℤ) (rs2 rs1 f3 : ℕ)
      → negsuc 2047 ≤ℤ imm
      → imm ≤ℤ pos 2047
      → rs2 < 32
      → rs1 < 32
      → f3 < 8
      → let d = decode x (s_type imm rs2 rs1 f3 Isa.op_store) in
        (d.opcode ≡ Isa.op_store)
        × (d.funct3 ≡ f3)
        × (d.rs1 ≡ rs1)
        × (d.rs2 ≡ rs2)
        × (to_signed x d.imm ≡ imm)
  unfolding decode
  decode-s_type imm rs2 rs1 f3 lo hi h1 h2 h3 =
      rw (s_type_sum imm rs2 rs1 f3 Isa.op_store h1 h2 h3 (omega arith))
        (is.0, is.2, is.3, is.4, value)
    where
      p : ℕ
      p = of_signed rv32 imm

      w : ℕ
      w = word6 (p / 2 ^ 5 % 2 ^ 7) rs2 rs1 f3 (p % 2 ^ 5) Isa.op_store

      is :
          (Isa.get_opcode w ≡ Isa.op_store)
          × (Isa.get_rd w ≡ p % 2 ^ 5)
          × (Isa.get_funct3 w ≡ f3)
          × (Isa.get_rs1 w ≡ rs1)
          × (Isa.get_rs2 w ≡ rs2)
          × (Isa.get_funct7 w ≡ p / 2 ^ 5 % 2 ^ 7)
      is =
          fields_of_word6 (p / 2 ^ 5 % 2 ^ 7) rs2 rs1 f3 (p % 2 ^ 5) Isa.op_store (omega arith) h1
            h2 h3 (omega arith) (omega arith)

      value : to_signed x (decode_imm x (Isa.get_opcode w) w) ≡ imm
      value = rw is.0 (
          extended x 12 (w / 2 ^ 25 % 2 ^ 7 * 2 ^ 5 + w / 2 ^ 7 % 2 ^ 5) (p % 2 ^ 12) imm
            (decode_imm-s x w ∙ decode_imm_s_lem w x) (omega arith) (omega arith) (omega arith)
            (value_of_12 imm lo hi))
