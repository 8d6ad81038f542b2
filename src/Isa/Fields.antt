-- ===== src/Isa/Fields.antt =====
-- rv32i/include/isa.hpp: the field extractors and the immediates as quotients and remainders.
use xor_os.Base.{ℕ, ◌+◌, ◌*◌, ◌/◌, ◌%◌, ◌^◌, ◌-◌, ◌≤◌, ◌≡◌, ap, bit_or, arith}
use xor_os.Base.{◌==◌, ==_iff, Bool-cases, inl, inr}
use xor_os.Base.Bits.{bit_and_mask, bit_and_shift, bit_or_sum}
use xor_os.Base.Word.{Xlen, rv32, shl}
use xor_os.Isa.{extract_bits, sign_extend, get_opcode, get_rd, get_funct3, get_rs1, get_rs2}
use xor_os.Isa.{get_funct7, decode_imm_i, decode_imm_s, decode_imm_b, decode_imm_u, decode_imm_j}

-- Bits [hi:lo], for any bounds within the word.
pub extract_bits_lem :
    (w hi lo : ℕ) → lo ≤ hi → hi ≤ 31 → extract_bits w hi lo ≡ w / 2 ^ lo % 2 ^ (hi + 1 - lo)
unfolding extract_bits
extract_bits_lem w hi lo h g = elim (Bool-cases (hi + 1 - lo == 32)) [
  | inl all ↦
      let e : hi + 1 - lo ≡ 32 = (==_iff _ _).0 all in rw (all, e) (bit_and_mask 32 (w / 2 ^ lo))
  | inr some_bits ↦ rw some_bits (bit_and_mask (hi + 1 - lo) (w / 2 ^ lo))
]

module _ (w : ℕ) where
  pub get_opcode_lem : get_opcode w ≡ w % 2 ^ 7
  unfolding get_opcode
  get_opcode_lem = bit_and_mask 7 w

  pub get_rd_lem : get_rd w ≡ w / 2 ^ 7 % 2 ^ 5
  unfolding get_rd
  get_rd_lem = bit_and_mask 5 (w / 2 ^ 7)

  pub get_funct3_lem : get_funct3 w ≡ w / 2 ^ 12 % 2 ^ 3
  unfolding get_funct3
  get_funct3_lem = bit_and_mask 3 (w / 2 ^ 12)

  pub get_rs1_lem : get_rs1 w ≡ w / 2 ^ 15 % 2 ^ 5
  unfolding get_rs1
  get_rs1_lem = bit_and_mask 5 (w / 2 ^ 15)

  pub get_rs2_lem : get_rs2 w ≡ w / 2 ^ 20 % 2 ^ 5
  unfolding get_rs2
  get_rs2_lem = bit_and_mask 5 (w / 2 ^ 20)

  pub get_funct7_lem : get_funct7 w ≡ w / 2 ^ 25 % 2 ^ 7
  unfolding get_funct7
  get_funct7_lem = bit_and_mask 7 (w / 2 ^ 25)

  pub decode_imm_u_lem : decode_imm_u w ≡ w / 2 ^ 12 % 2 ^ 20 * 2 ^ 12
  unfolding decode_imm_u
  decode_imm_u_lem = omega (arith, bit_and_shift 12 w 0xFFFFF, bit_and_mask 20 (w / 2 ^ 12))

  field :
      (hi lo : ℕ) → ((lo ≤ hi) × (hi ≤ 31)) → extract_bits w hi lo ≡ w / 2 ^ lo % 2 ^ (hi + 1 - lo)
  field hi lo h = extract_bits_lem w hi lo h.0 h.1

  module _ (x : Xlen) where
    pub decode_imm_i_lem : decode_imm_i x w ≡ sign_extend x (w / 2 ^ 20 % 2 ^ 12) 12
    unfolding decode_imm_i
    decode_imm_i_lem = ap (λ (t : ℕ). sign_extend x t 12) (field 31 20 (omega arith))

    pub decode_imm_s_lem :
        decode_imm_s x w ≡ sign_extend x (w / 2 ^ 25 % 2 ^ 7 * 2 ^ 5 + w / 2 ^ 7 % 2 ^ 5) 12
    unfolding decode_imm_s
    decode_imm_s_lem =
        ap (λ (t : ℕ). sign_extend x t 12)
          (omega (
            arith,
            field 31 25 (omega arith),
            field 11 7 (omega arith),
            bit_or_sum 5 (shl rv32 (extract_bits w 31 25) 5) (extract_bits w 11 7),
          ))

    pub decode_imm_b_lem :
        decode_imm_b x w
        ≡ sign_extend x
            (w / 2 ^ 31 % 2 * 2 ^ 12
              + w / 2 ^ 7 % 2 * 2 ^ 11
              + w / 2 ^ 25 % 2 ^ 6 * 2 ^ 5
              + w / 2 ^ 8 % 2 ^ 4 * 2)
            13
    unfolding decode_imm_b
    decode_imm_b_lem =
        let a = shl rv32 (extract_bits w 31 31) 12 in
        let b = shl rv32 (extract_bits w 7 7) 11 in
        let c = shl rv32 (extract_bits w 30 25) 5 in
        let d = shl rv32 (extract_bits w 11 8) 1 in
        ap (λ (t : ℕ). sign_extend x t 13)
          (omega (
            arith,
            field 31 31 (omega arith),
            field 7 7 (omega arith),
            field 30 25 (omega arith),
            field 11 8 (omega arith),
            bit_or_sum 12 a b,
            bit_or_sum 11 (bit_or a b) c,
            bit_or_sum 5 (bit_or (bit_or a b) c) d,
          ))

    pub decode_imm_j_lem :
        decode_imm_j x w
        ≡ sign_extend x
            (w / 2 ^ 31 % 2 * 2 ^ 20
              + w / 2 ^ 12 % 2 ^ 8 * 2 ^ 12
              + w / 2 ^ 20 % 2 * 2 ^ 11
              + w / 2 ^ 21 % 2 ^ 10 * 2)
            21
    unfolding decode_imm_j
    decode_imm_j_lem =
        let a = shl rv32 (extract_bits w 31 31) 20 in
        let b = shl rv32 (extract_bits w 19 12) 12 in
        let c = shl rv32 (extract_bits w 20 20) 11 in
        let d = shl rv32 (extract_bits w 30 21) 1 in
        ap (λ (t : ℕ). sign_extend x t 21)
          (omega (
            arith,
            field 31 31 (omega arith),
            field 19 12 (omega arith),
            field 20 20 (omega arith),
            field 30 21 (omega arith),
            bit_or_sum 20 a b,
            bit_or_sum 12 (bit_or a b) c,
            bit_or_sum 11 (bit_or (bit_or a b) c) d,
          ))
