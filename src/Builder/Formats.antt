-- ===== src/Builder/Formats.antt =====
-- rv32i/include/instr_builder.hpp and decoder.hpp: the six formats as one type.
use xor_os.Base.{ℕ, ◌*◌, ◌/◌, ◌%◌, ◌^◌, ◌-◌, ◌<◌, ◌≡◌, ◌⊎◌}
use xor_os.Base.Int.{ℤ, pos, negsuc, ◌≤ℤ◌, magnitude}
use xor_os.Base.Word.{Xlen, rv32, to_signed, of_signed}
use xor_os.Isa
use xor_os.Decoder.{DecodedInstr, decode}
use xor_os.Builder.{r_type, i_type, s_type, b_type, u_type, j_type}
use xor_os.Builder.RoundTrip.{decode-r_type, decode-i_type, decode-s_type}
use xor_os.Builder.Jumps.{decode-b_type, decode-j_type, decode-u_type}
use xor_os.Builder.Values.{IsImmI}

-- The arguments of a call of a builder, in the order of its parameters.
pub data Format : Type 0 where
  r_format : ℕ → ℕ → ℕ → ℕ → ℕ → ℕ → Format
  i_format : ℤ → ℕ → ℕ → ℕ → ℕ → Format
  s_format b_format : ℤ → ℕ → ℕ → ℕ → Format
  u_format : ℤ → ℕ → ℕ → Format
  j_format : ℤ → ℕ → Format

abbrev pub encode : Format → ℕ
encode (r_format f7 rs2 rs1 f3 rd op) = r_type f7 rs2 rs1 f3 rd op
encode (i_format imm rs1 f3 rd op) = i_type imm rs1 f3 rd op
encode (s_format imm rs2 rs1 f3) = s_type imm rs2 rs1 f3 Isa.op_store
encode (b_format offset rs2 rs1 f3) = b_type offset rs2 rs1 f3 Isa.op_branch
encode (u_format imm rd op) = u_type imm rd op
encode (j_format offset rd) = j_type offset rd Isa.op_jal

-- The arguments that the format can hold: the builder asserts that they fit their fields, but
-- neither the range of a jump's offset nor that the opcode is of the format.
abbrev pub InRange : Format → Type 0
InRange (r_format f7 rs2 rs1 f3 rd op) =
    (f7 < 128) × (rs2 < 32) × (rs1 < 32) × (f3 < 8) × (rd < 32) × (op < 128)
InRange (i_format imm rs1 f3 rd op) =
    (negsuc 2047 ≤ℤ imm)
    × (imm ≤ℤ pos 2047)
    × (rs1 < 32)
    × (f3 < 8)
    × (rd < 32)
    × (op < 128)
    × IsImmI op
InRange (s_format imm rs2 rs1 f3) =
    (negsuc 2047 ≤ℤ imm) × (imm ≤ℤ pos 2047) × (rs2 < 32) × (rs1 < 32) × (f3 < 8)
InRange (b_format offset rs2 rs1 f3) =
    (negsuc 4095 ≤ℤ offset)
    × (offset ≤ℤ pos 4094)
    × (magnitude offset % 2 ≡ 0)
    × (rs2 < 32)
    × (rs1 < 32)
    × (f3 < 8)
InRange (u_format imm rd op) = (rd < 32) × ((op ≡ Isa.op_lui) ⊎ (op ≡ Isa.op_auipc))
InRange (j_format offset rd) =
    (negsuc (2 ^ 20 - 1) ≤ℤ offset)
    × (offset ≤ℤ pos (2 ^ 20 - 1))
    × (magnitude offset % 2 ≡ 0)
    × (rd < 32)

-- The decoded fields are those of the format; the upper immediate is its 20 bits, widened with
-- their sign.
abbrev pub HasFields : Xlen → Format → DecodedInstr → Type 0
HasFields x (r_format f7 rs2 rs1 f3 rd op) d =
    (d.opcode ≡ op)
    × (d.rd ≡ rd)
    × (d.funct3 ≡ f3)
    × (d.rs1 ≡ rs1)
    × (d.rs2 ≡ rs2)
    × (d.funct7 ≡ f7)
HasFields x (i_format imm rs1 f3 rd op) d =
    (d.opcode ≡ op) × (d.rd ≡ rd) × (d.funct3 ≡ f3) × (d.rs1 ≡ rs1) × (to_signed x d.imm ≡ imm)
HasFields x (s_format imm rs2 rs1 f3) d =
    (d.opcode ≡ Isa.op_store)
    × (d.funct3 ≡ f3)
    × (d.rs1 ≡ rs1)
    × (d.rs2 ≡ rs2)
    × (to_signed x d.imm ≡ imm)
HasFields x (b_format offset rs2 rs1 f3) d =
    (d.opcode ≡ Isa.op_branch)
    × (d.funct3 ≡ f3)
    × (d.rs1 ≡ rs1)
    × (d.rs2 ≡ rs2)
    × (to_signed x d.imm ≡ offset)
HasFields x (u_format imm rd op) d =
    (d.opcode ≡ op)
    × (d.rd ≡ rd)
    × (d.imm ≡ of_signed x (to_signed rv32 (of_signed rv32 imm / 2 ^ 12 * 2 ^ 12)))
HasFields x (j_format offset rd) d =
    (d.opcode ≡ Isa.op_jal) × (d.rd ≡ rd) × (to_signed x d.imm ≡ offset)

-- Decoding what a builder encodes gives back the fields and, as an integer, the immediate, for each
-- of the six formats, in both widths. The fields fit; an immediate of I and S has 12 bits, an
-- offset of B is even and has 13 bits, one of J is even and within 2 ^ 20; the opcode of I is one
-- whose immediate is decoded as I's, that of U is LUI or AUIPC, and of the immediate of U, which
-- may be any, the upper 20 of its 32 bits come back.
pub decode-encode : (x : Xlen) (f : Format) → InRange f → HasFields x f (decode x (encode f))
decode-encode x (r_format f7 rs2 rs1 f3 rd op) h =
    decode-r_type x f7 rs2 rs1 f3 rd op h.0 h.1 h.2 h.3 h.4 h.5
decode-encode x (i_format imm rs1 f3 rd op) h =
    decode-i_type x imm rs1 f3 rd op h.0 h.1 h.2 h.3 h.4 h.5 h.6
decode-encode x (s_format imm rs2 rs1 f3) h = decode-s_type x imm rs2 rs1 f3 h.0 h.1 h.2 h.3 h.4
decode-encode x (b_format offset rs2 rs1 f3) h =
    decode-b_type x offset rs2 rs1 f3 h.0 h.1 h.2 h.3 h.4 h.5
decode-encode x (u_format imm rd op) h = decode-u_type x imm rd op h.0 h.1
decode-encode x (j_format offset rd) h = decode-j_type x offset rd h.0 h.1 h.2 h.3
