-- ===== src/Isa.antt =====
-- rv32i/include/isa.hpp: the encodings, the field extractors and the immediate decoders.
mod Opcodes
pub mod Fields
pub mod SignExtend
pub use Opcodes.*
use xor_os.Base.{ℕ, ◌+◌, ◌-◌, ◌*◌, ◌%◌, ◌^◌, bit_and, bit_or, ◌==◌, if◌then◌else◌}
use xor_os.Base.Word.{Xlen, rv32, width, shl, shr, asr, to_signed, of_signed}

-- `int width = hi - lo + 1`, and bits [hi:lo] of the instruction. The asserted bounds are the
-- caller's.
unfoldable pub extract_bits : ℕ → ℕ → ℕ → ℕ
extract_bits instr hi lo =
    let w = hi + 1 - lo in
    let mask : ℕ = if w == 32 then 0xFFFFFFFF else 2 ^ w - 1 in bit_and (shr instr lo) mask

-- A value of `bits` bits, at XLEN bits; the result is an `SWord`, as its pattern.
unfoldable pub sign_extend : Xlen → ℕ → ℕ → ℕ
sign_extend x val bits =
    let shift = width x - bits in of_signed x (asr (to_signed x (shl x val shift)) shift)

unfoldable pub get_opcode : ℕ → ℕ
get_opcode i = bit_and i 0b01111111

unfoldable pub get_rd : ℕ → ℕ
get_rd i = bit_and (shr i 7) 0b00011111

unfoldable pub get_funct3 : ℕ → ℕ
get_funct3 i = bit_and (shr i 12) 0b00000111

unfoldable pub get_rs1 : ℕ → ℕ
get_rs1 i = bit_and (shr i 15) 0b00011111

unfoldable pub get_rs2 : ℕ → ℕ
get_rs2 i = bit_and (shr i 20) 0b00011111

unfoldable pub get_funct7 : ℕ → ℕ
get_funct7 i = bit_and (shr i 25) 0b01111111

unfoldable pub decode_imm_i : Xlen → ℕ → ℕ
decode_imm_i x i = sign_extend x (extract_bits i 31 20) 12

unfoldable pub decode_imm_s : Xlen → ℕ → ℕ
decode_imm_s x i =
    let hi = extract_bits i 31 25 in
    let lo = extract_bits i 11 7 in sign_extend x (bit_or (shl rv32 hi 5) lo) 12

unfoldable pub decode_imm_b : Xlen → ℕ → ℕ
decode_imm_b x i =
    let b12 = extract_bits i 31 31 in
    let b11 = extract_bits i 7 7 in
    let b10_5 = extract_bits i 30 25 in
    let b4_1 = extract_bits i 11 8 in
    sign_extend x
      (bit_or (bit_or (bit_or (shl rv32 b12 12) (shl rv32 b11 11)) (shl rv32 b10_5 5))
        (shl rv32 b4_1 1))
      13

unfoldable pub decode_imm_u : ℕ → ℕ
decode_imm_u i = bit_and i 0xFFFFF000

unfoldable pub decode_imm_j : Xlen → ℕ → ℕ
decode_imm_j x i =
    let b20 = extract_bits i 31 31 in
    let b19_12 = extract_bits i 19 12 in
    let b11 = extract_bits i 20 20 in
    let b10_1 = extract_bits i 30 21 in
    sign_extend x
      (bit_or (bit_or (bit_or (shl rv32 b20 20) (shl rv32 b19_12 12)) (shl rv32 b11 11))
        (shl rv32 b10_1 1))
      21
