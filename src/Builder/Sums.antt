-- ===== src/Builder/Sums.antt =====
-- rv32i/include/instr_builder.hpp: the encodings as sums of their fields.
use xor_os.Base.{ℕ, ◌+◌, ◌-◌, ◌*◌, ◌/◌, ◌%◌, ◌^◌, ◌<◌, bit_and, bit_or, ◌≡◌, ◌∙◌, arith}
use xor_os.Base.Bits.{bit_or_sum, bit_and_mask, bit_and_shift}
use xor_os.Isa
use xor_os.Base.Int.{ℤ}
use xor_os.Base.Word.{rv32, shl, of_signed}
use xor_os.Builder.{r_type, csr_type, i_type, s_type, u_type, j_type, b_type}

module _ (a b c d e f : ℕ) where
  -- Six fields, each below the clear bits of the ones before it.
  six_fields :
      a % 2 ^ 25 ≡ 0
      → (b % 2 ^ 20 ≡ 0) × (b < 2 ^ 25)
      → (c % 2 ^ 15 ≡ 0) × (c < 2 ^ 20)
      → (d % 2 ^ 12 ≡ 0) × (d < 2 ^ 15)
      → (e % 2 ^ 7 ≡ 0) × (e < 2 ^ 12)
      → f < 2 ^ 7
      → bit_or (bit_or (bit_or (bit_or (bit_or a b) c) d) e) f ≡ a + b + c + d + e + f
  six_fields ha hb hc hd he hf = omega (
    arith,
    bit_or_sum 25 a b,
    bit_or_sum 20 (bit_or a b) c,
    bit_or_sum 15 (bit_or (bit_or a b) c) d,
    bit_or_sum 12 (bit_or (bit_or (bit_or a b) c) d) e,
    bit_or_sum 7 (bit_or (bit_or (bit_or (bit_or a b) c) d) e) f,
  )

  -- The fields of a J-type word.
  jump_fields :
      a % 2 ^ 31 ≡ 0
      → (b % 2 ^ 21 ≡ 0) × (b < 2 ^ 31)
      → (c % 2 ^ 20 ≡ 0) × (c < 2 ^ 21)
      → (d % 2 ^ 12 ≡ 0) × (d < 2 ^ 20)
      → (e % 2 ^ 7 ≡ 0) × (e < 2 ^ 12)
      → f < 2 ^ 7
      → bit_or (bit_or (bit_or (bit_or (bit_or a b) c) d) e) f ≡ a + b + c + d + e + f
  jump_fields ha hb hc hd he hf = omega (
    arith,
    bit_or_sum 31 a b,
    bit_or_sum 21 (bit_or a b) c,
    bit_or_sum 20 (bit_or (bit_or a b) c) d,
    bit_or_sum 12 (bit_or (bit_or (bit_or a b) c) d) e,
    bit_or_sum 7 (bit_or (bit_or (bit_or (bit_or a b) c) d) e) f,
  )

module _ (a b c d e : ℕ) where
  five_fields :
      a % 2 ^ 20 ≡ 0
      → (b % 2 ^ 15 ≡ 0) × (b < 2 ^ 20)
      → (c % 2 ^ 12 ≡ 0) × (c < 2 ^ 15)
      → (d % 2 ^ 7 ≡ 0) × (d < 2 ^ 12)
      → e < 2 ^ 7
      → bit_or (bit_or (bit_or (bit_or a b) c) d) e ≡ a + b + c + d + e
  five_fields ha hb hc hd he = omega (
    arith,
    bit_or_sum 20 a b,
    bit_or_sum 15 (bit_or a b) c,
    bit_or_sum 12 (bit_or (bit_or a b) c) d,
    bit_or_sum 7 (bit_or (bit_or (bit_or a b) c) d) e,
  )

-- The word of six fields in the R-type places, and of five with a 12-bit field on top.
abbrev pub word6 : ℕ → ℕ → ℕ → ℕ → ℕ → ℕ → ℕ
word6 f7 rs2 rs1 f3 rd op =
    f7 * 2 ^ 25 + rs2 * 2 ^ 20 + rs1 * 2 ^ 15 + f3 * 2 ^ 12 + rd * 2 ^ 7 + op

abbrev pub word5 : ℕ → ℕ → ℕ → ℕ → ℕ → ℕ
word5 top rs1 f3 rd op = top * 2 ^ 20 + rs1 * 2 ^ 15 + f3 * 2 ^ 12 + rd * 2 ^ 7 + op

module _ (f7 rs2 rs1 f3 rd op : ℕ) where
  pub r_type_sum :
      f7 < 128
      → rs2 < 32
      → rs1 < 32
      → f3 < 8
      → rd < 32
      → op < 128
      → r_type f7 rs2 rs1 f3 rd op ≡ word6 f7 rs2 rs1 f3 rd op
  unfolding r_type
  r_type_sum h1 h2 h3 h4 h5 h6 = omega (
    arith,
    six_fields (shl rv32 f7 25) (shl rv32 rs2 20) (shl rv32 rs1 15) (shl rv32 f3 12) (shl rv32 rd 7)
        op,
  )

module _ (top rs1 f3 rd : ℕ) (top_fits : top < 2 ^ 12) (h1 : rs1 < 32) (h2 : f3 < 8)
    (h3 : rd < 32) where
  pub csr_type_sum : csr_type top rs1 f3 rd ≡ word5 top rs1 f3 rd Isa.op_system
  unfolding csr_type
  csr_type_sum = omega (
    arith,
    five_fields (shl rv32 top 20) (shl rv32 rs1 15) (shl rv32 f3 12) (shl rv32 rd 7) Isa.op_system,
  )

module _ (imm : ℤ) where
  pub i_type_sum :
      (rs1 f3 rd op : ℕ)
      → rs1 < 32
      → f3 < 8
      → rd < 32
      → op < 128
      → i_type imm rs1 f3 rd op ≡ word5 (of_signed rv32 imm % 2 ^ 12) rs1 f3 rd op
  unfolding i_type
  i_type_sum rs1 f3 rd op h1 h2 h3 h4 =
      let imm12 = bit_and (of_signed rv32 imm) 0b111111111111 in
      omega (
        arith,
        bit_and_mask 12 (of_signed rv32 imm),
        five_fields (shl rv32 imm12 20) (shl rv32 rs1 15) (shl rv32 f3 12) (shl rv32 rd 7) op,
      )

  pub s_type_sum :
      (rs2 rs1 f3 op : ℕ)
      → rs2 < 32
      → rs1 < 32
      → f3 < 8
      → op < 128
      → s_type imm rs2 rs1 f3 op
        ≡ word6 (of_signed rv32 imm / 2 ^ 5 % 2 ^ 7) rs2 rs1 f3 (of_signed rv32 imm % 2 ^ 5) op
  unfolding s_type
  s_type_sum rs2 rs1 f3 op h1 h2 h3 h4 =
      let imm12 = bit_and (of_signed rv32 imm) 0b111111111111 in
      let hi = bit_and (imm12 / 2 ^ 5) 0b1111111 in
      let lo = bit_and imm12 0b11111 in
      omega (
        arith,
        bit_and_mask 12 (of_signed rv32 imm),
        bit_and_mask 7 (imm12 / 2 ^ 5),
        bit_and_mask 5 imm12,
        six_fields (shl rv32 hi 25) (shl rv32 rs2 20) (shl rv32 rs1 15) (shl rv32 f3 12)
            (shl rv32 lo 7) op,
      )

  pub u_type_sum :
      (rd op : ℕ)
      → rd < 32
      → op < 128
      → u_type imm rd op ≡ of_signed rv32 imm / 2 ^ 12 % 2 ^ 20 * 2 ^ 12 + rd * 2 ^ 7 + op
  unfolding u_type
  u_type_sum rd op h1 h2 =
      let top = bit_and (of_signed rv32 imm) 0xFFFFF000 in
      omega (
        arith,
        bit_and_shift 12 (of_signed rv32 imm) 0xFFFFF,
        bit_and_mask 20 (of_signed rv32 imm / 2 ^ 12),
        bit_or_sum 12 top (shl rv32 rd 7),
        bit_or_sum 7 (bit_or top (shl rv32 rd 7)) op,
      )

  -- The offset without its lowest bit, cut to the bits that a jump or a branch keeps.
  even_part :
      (k : ℕ)
      → bit_and (of_signed rv32 imm) ((2 ^ k - 1) * 2 ^ 1) ≡ of_signed rv32 imm / 2 % 2 ^ k * 2
  even_part k =
      bit_and_shift 1 (of_signed rv32 imm) (2 ^ k - 1)
      ∙ omega (arith, bit_and_mask k (of_signed rv32 imm / 2 ^ 1))

  pub j_type_sum :
      (rd op : ℕ)
      → rd < 32
      → op < 128
      → let o = of_signed rv32 imm in
        j_type imm rd op
        ≡ o / 2 ^ 20 % 2 * 2 ^ 31
          + o / 2 % 2 ^ 10 * 2 ^ 21
          + o / 2 ^ 11 % 2 * 2 ^ 20
          + o / 2 ^ 12 % 2 ^ 8 * 2 ^ 12
          + rd * 2 ^ 7
          + op
  unfolding j_type
  j_type_sum rd op h1 h2 =
      let o = bit_and (of_signed rv32 imm) 0x1FFFFE in
      omega (
        arith,
        even_part 20,
        bit_and_mask 1 (o / 2 ^ 20),
        bit_and_mask 8 (o / 2 ^ 12),
        bit_and_mask 1 (o / 2 ^ 11),
        bit_and_mask 10 (o / 2 ^ 1),
        jump_fields (shl rv32 (bit_and (o / 2 ^ 20) 1) 31)
            (shl rv32 (bit_and (o / 2 ^ 1) 0b1111111111) 21) (shl rv32 (bit_and (o / 2 ^ 11) 1) 20)
            (shl rv32 (bit_and (o / 2 ^ 12) 0xFF) 12) (shl rv32 rd 7) op,
      )

  pub b_type_sum :
      (rs2 rs1 f3 op : ℕ)
      → rs2 < 32
      → rs1 < 32
      → f3 < 8
      → op < 128
      → let o = of_signed rv32 imm in
        b_type imm rs2 rs1 f3 op
        ≡ word6
            (o / 2 ^ 12 % 2 * 2 ^ 6 + o / 2 ^ 5 % 2 ^ 6)
            rs2
            rs1
            f3
            (o / 2 % 2 ^ 4 * 2 + o / 2 ^ 11 % 2)
            op
  unfolding b_type
  b_type_sum rs2 rs1 f3 op h1 h2 h3 h4 =
      let o = bit_and (of_signed rv32 imm) 0x1FFE in
      let a = shl rv32 (bit_and (o / 2 ^ 12) 1) 31 in
      let b = shl rv32 (bit_and (o / 2 ^ 5) 0b111111) 25 in
      let c = shl rv32 (bit_and (o / 2 ^ 1) 0b1111) 8 in
      let d = shl rv32 (bit_and (o / 2 ^ 11) 1) 7 in
      let top = bit_or a b in
      let s1 = bit_or top (shl rv32 rs2 20) in
      let s2 = bit_or s1 (shl rv32 rs1 15) in
      let s3 = bit_or s2 (shl rv32 f3 12) in
      omega (
        arith,
        even_part 12,
        bit_and_mask 1 (o / 2 ^ 12),
        bit_and_mask 1 (o / 2 ^ 11),
        bit_and_mask 6 (o / 2 ^ 5),
        bit_and_mask 4 (o / 2 ^ 1),
        bit_or_sum 31 a b,
        bit_or_sum 25 top (shl rv32 rs2 20),
        bit_or_sum 20 s1 (shl rv32 rs1 15),
        bit_or_sum 15 s2 (shl rv32 f3 12),
        bit_or_sum 12 s3 c,
        bit_or_sum 8 (bit_or s3 c) d,
        bit_or_sum 7 (bit_or (bit_or s3 c) d) op,
      )
