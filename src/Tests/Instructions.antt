-- ===== src/Tests/Instructions.antt =====
-- rv32i/include: the theorems on encodings, the ALU, registers and CSRs at concrete inputs.
use xor_os.Base.{ℕ, ◌+◌, ◌-◌, ◌*◌, ◌/◌, ◌^◌, ◌≤◌, ◌<◌, ◌≡◌, refl, arith, inl, min, max, Bool, false}
use xor_os.Base.Digits.{digit}
use xor_os.Base.Int.{pos, negsuc, ◌*ℤ◌, ◌+ℤ◌, magnitude, pos_part, neg_part}
use xor_os.Base.Word.{rv32, modulus, uword, to_signed, asr}
use xor_os.Isa.{sign_extend}
use xor_os.Isa.SignExtend.{signed_value, sign_extend-signed_value}
use xor_os.Decoder.{decode}
use xor_os.Builder.Formats.{b_format, encode, HasFields, decode-encode}
use xor_os.Alu
use xor_os.Alu.{execute}
use xor_os.Alu.Divide.{div-rem}
use xor_os.Alu.Multiply.{upper_lower}
use xor_os.Alu.Arith.{shifts_lem}
use xor_os.Csr
use xor_os.Csr.Codes
use xor_os.Csr.Laws.{csr_bits}

decode-encode_example :
    let branch = b_format (negsuc 7) 2 1 0 in HasFields rv32 branch (decode rv32 (encode branch))
decode-encode_example =
    decode-encode rv32 (b_format (negsuc 7) 2 1 0)
      (omega arith, omega arith, refl, omega arith, omega arith, omega arith)

sign_extend-signed_value_example :
    to_signed rv32 (sign_extend rv32 0xFFE 12) ≡ signed_value 12 0xFFE
sign_extend-signed_value_example =
    sign_extend-signed_value rv32 0xFFE 12 (omega arith) (omega arith) (omega arith)

abbrev minus_seven : ℕ
minus_seven = 2 ^ 32 - 7

div-rem_example :
    let s = to_signed rv32 minus_seven in
    let u = to_signed rv32 2 in
    let q = to_signed rv32 (execute rv32 Alu.div minus_seven 2) in
    let r = to_signed rv32 (execute rv32 Alu.rem minus_seven 2) in
    (q *ℤ u +ℤ r ≡ s)
    × (magnitude r < magnitude u)
    × (pos_part r ≤ pos_part s)
    × (neg_part r ≤ neg_part s)
div-rem_example =
    div-rem rv32 minus_seven 2 (omega arith) (omega arith) (λ e. omega arith)
      (inl (λ e. omega arith))

upper_lower_example :
    (to_signed rv32 (execute rv32 Alu.mulh minus_seven 3) *ℤ pos (modulus rv32)
        +ℤ pos (execute rv32 Alu.mul minus_seven 3)
      ≡ to_signed rv32 minus_seven *ℤ to_signed rv32 3)
    × (to_signed rv32 (execute rv32 Alu.mulhsu minus_seven 3) *ℤ pos (modulus rv32)
          +ℤ pos (execute rv32 Alu.mul minus_seven 3)
        ≡ to_signed rv32 minus_seven *ℤ pos 3)
    × (execute rv32 Alu.mulhu minus_seven 3 * modulus rv32 + execute rv32 Alu.mul minus_seven 3
        ≡ minus_seven * 3)
upper_lower_example = upper_lower rv32 minus_seven 3 (omega arith) (omega arith)

shifts_lem_example :
    (execute rv32 Alu.sll minus_seven 33 ≡ uword rv32 (minus_seven * 2 ^ 1))
    × (execute rv32 Alu.srl minus_seven 33 ≡ minus_seven / 2 ^ 1)
    × (to_signed rv32 (execute rv32 Alu.sra minus_seven 33) ≡ asr (to_signed rv32 minus_seven) 1)
shifts_lem_example = shifts_lem rv32 minus_seven 33 (omega arith)

mstatus_writable : Csr.is_read_only Codes.mstatus ≡ false
unfolding Csr.is_read_only
mstatus_writable = refl

csr_bits_example :
    let old = Csr.read Csr.init Codes.mstatus in
    (Csr.read (Csr.csrrw Csr.init Codes.mstatus 8).0 Codes.mstatus ≡ 8)
    × (digit (Csr.read (Csr.csrrs Csr.init Codes.mstatus 8 false).0 Codes.mstatus) 3
        ≡ max (digit old 3) (digit 8 3))
    × (digit (Csr.read (Csr.csrrc rv32 Csr.init Codes.mstatus 8 false).0 Codes.mstatus) 3
        ≡ min (digit old 3) (1 - digit 8 3))
    × ((Csr.csrrw Csr.init Codes.mstatus 8).1 ≡ old)
    × ((Csr.csrrs Csr.init Codes.mstatus 8 false).1 ≡ old)
    × ((Csr.csrrc rv32 Csr.init Codes.mstatus 8 false).1 ≡ old)
csr_bits_example =
    csr_bits rv32 Csr.init Codes.mstatus 8 3 mstatus_writable (omega arith) (omega arith)

mhartid_fixed : Csr.is_read_only Codes.mhartid ≡ Bool.true
unfolding Csr.is_read_only
mhartid_fixed = refl
