-- ===== src/Builder/Values.antt =====
-- rv32i/include/decoder.hpp: the fields and the immediate of a word that is given as a sum.
use xor_os.Base.{ℕ, ◌-◌, ◌%◌, ◌^◌, ◌≤◌, ◌<◌, ◌≡◌, ◌⊎◌, ◌∙◌, refl, arith}
use xor_os.Base.Int.{ℤ, pos, negsuc, magnitude, ◌≤ℤ◌}
use xor_os.Base.Word.{Xlen, rv32, to_signed, of_signed}
use xor_os.Isa
use xor_os.Isa.{sign_extend, decode_imm_i, decode_imm_s, decode_imm_b, decode_imm_u, decode_imm_j}
use xor_os.Isa.Fields.{
  get_opcode_lem, get_rd_lem, get_funct3_lem, get_rs1_lem, get_rs2_lem, get_funct7_lem,
}
use xor_os.Isa.SignExtend.{signed_value, sign_extend-signed_value}
use xor_os.Decoder.{decode_imm}
use xor_os.Builder.Sums.{word5, word6}

-- The opcodes whose immediate has the I format.
abbrev pub IsImmI : ℕ → Type 0
IsImmI op =
    (op ≡ Isa.op_load)
    ⊎ (op ≡ Isa.op_op_imm)
    ⊎ (op ≡ Isa.op_jalr)
    ⊎ (op ≡ Isa.op_misc_mem)
    ⊎ (op ≡ Isa.op_system)

-- The extractors on a word of six fields.
pub fields_of_word6 :
    (f7 rs2 rs1 f3 rd op : ℕ)
    → f7 < 128
    → rs2 < 32
    → rs1 < 32
    → f3 < 8
    → rd < 32
    → op < 128
    → let w = word6 f7 rs2 rs1 f3 rd op in
      (Isa.get_opcode w ≡ op)
      × (Isa.get_rd w ≡ rd)
      × (Isa.get_funct3 w ≡ f3)
      × (Isa.get_rs1 w ≡ rs1)
      × (Isa.get_rs2 w ≡ rs2)
      × (Isa.get_funct7 w ≡ f7)
fields_of_word6 f7 rs2 rs1 f3 rd op h1 h2 h3 h4 h5 h6 =
    omega
      (arith, get_opcode_lem, get_rd_lem, get_funct3_lem, get_rs1_lem, get_rs2_lem, get_funct7_lem)

-- The low bits of a pattern, read in two's complement, are the integer again.
pub value_of_12 :
    (s : ℤ) → negsuc 2047 ≤ℤ s → s ≤ℤ pos 2047 → signed_value 12 (of_signed rv32 s % 2 ^ 12) ≡ s
unfolding of_signed
value_of_12 (pos n) h g = ground arith
value_of_12 (negsuc n) h g = ground arith

pub value_of_13 :
    (s : ℤ) → negsuc 4095 ≤ℤ s → s ≤ℤ pos 4095 → signed_value 13 (of_signed rv32 s % 2 ^ 13) ≡ s
unfolding of_signed
value_of_13 (pos n) h g = ground arith
value_of_13 (negsuc n) h g = ground arith

pub value_of_21 :
    (s : ℤ)
    → negsuc (2 ^ 20 - 1) ≤ℤ s
    → s ≤ℤ pos (2 ^ 20 - 1)
    → signed_value 21 (of_signed rv32 s % 2 ^ 21) ≡ s
unfolding of_signed
value_of_21 (pos n) h g = ground arith
value_of_21 (negsuc n) h g = ground arith

pub pattern_even : (s : ℤ) → magnitude s % 2 ≡ 0 → of_signed rv32 s % 2 ≡ 0
unfolding of_signed
pattern_even (pos n) h = omega arith
pattern_even (negsuc n) h = omega arith

pub fields_of_word5 :
    (top rs1 f3 rd op : ℕ)
    → top < 2 ^ 12
    → rs1 < 32
    → f3 < 8
    → rd < 32
    → op < 128
    → let w = word5 top rs1 f3 rd op in
      (Isa.get_opcode w ≡ op)
      × (Isa.get_rd w ≡ rd)
      × (Isa.get_funct3 w ≡ f3)
      × (Isa.get_rs1 w ≡ rs1)
fields_of_word5 top rs1 f3 rd op h1 h2 h3 h4 h5 =
    omega (arith, get_opcode_lem, get_rd_lem, get_funct3_lem, get_rs1_lem)

module _ (x : Xlen) where
  pub decode_imm-i : (op w : ℕ) → IsImmI op → decode_imm x op w ≡ decode_imm_i x w
  unfolding decode_imm
  decode_imm-i op w h = ground arith

  pub decode_imm-u :
      (op w : ℕ)
      → (op ≡ Isa.op_lui) ⊎ (op ≡ Isa.op_auipc)
      → decode_imm x op w ≡ of_signed x (to_signed rv32 (decode_imm_u w))
  unfolding decode_imm
  decode_imm-u op w h = ground arith

  pub decode_imm-s : (w : ℕ) → decode_imm x Isa.op_store w ≡ decode_imm_s x w
  unfolding decode_imm
  decode_imm-s w = refl

  pub decode_imm-b : (w : ℕ) → decode_imm x Isa.op_branch w ≡ decode_imm_b x w
  unfolding decode_imm
  decode_imm-b w = refl

  pub decode_imm-j : (w : ℕ) → decode_imm x Isa.op_jal w ≡ decode_imm_j x w
  unfolding decode_imm
  decode_imm-j w = refl

  -- The immediate of a word whose opcode picks the format.
  pub extended :
      {imm : ℕ} (bits v value : ℕ) (s : ℤ)
      → imm ≡ sign_extend x v bits
      → v ≡ value
      → (1 ≤ bits) × (bits ≤ 32)
      → value < 2 ^ bits
      → signed_value bits value ≡ s
      → to_signed x imm ≡ s
  extended bits v value s e e' h small back =
      rw (e, e') (sign_extend-signed_value x value bits h.0 h.1 small ∙ back)
