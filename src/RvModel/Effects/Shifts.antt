-- ===== src/RvModel/Effects/Shifts.antt =====
-- rv32i/include: the shifts by an immediate, of which the decoder gives the twelve bits as the
-- immediate and the upper seven as funct7.
use xor_os.Base.{inl, inr, ℕ, ◌+◌, ◌/◌, ◌%◌, ◌^◌, ◌<◌, ◌≡◌, refl, sym, ◌∙◌, arith, bit_and, some}
use xor_os.Base.Bits.{bit_and_mask}
use xor_os.Base.Int.{pos}
use xor_os.Base.Word.{rv32, to_signed, of_signed}
use xor_os.Alu
use xor_os.Isa
use xor_os.Isa.{sign_extend}
use xor_os.Isa.Fields.{get_funct7_lem, decode_imm_i_lem}
use xor_os.Isa.SignExtend.{sign_extend-signed_value}
use xor_os.Decoder.{decode}
use xor_os.Builder.Values.{decode_imm-i}
use xor_os.RvModel.Execute.{op_imm_op}

pub data ShiftOp : Type 0 where
  slli srli srai : ShiftOp

unfoldable pub shift_funct3 : ShiftOp → ℕ
shift_funct3 slli = 1
shift_funct3 op = 5

-- The immediate, with the bit that tells SRAI from SRLI.
unfoldable pub shift_imm_bits : ShiftOp → ℕ → ℕ
shift_imm_bits srai k = 1024 + k
shift_imm_bits op k = k

unfoldable pub shift_alu : ShiftOp → Alu.Op
shift_alu slli = Alu.Op.sll
shift_alu srli = Alu.Op.srl
shift_alu srai = Alu.Op.sra

-- The upper bits of an immediate that is not negative.
pub funct7_imm :
    (w v : ℕ)
    → (decode rv32 w).opcode ≡ Isa.op_op_imm
    → to_signed rv32 (decode rv32 w).imm ≡ pos v
    → (decode rv32 w).funct7 ≡ v / 2 ^ 5
unfolding decode
funct7_imm w v i e =
    let imm : to_signed rv32 (sign_extend rv32 (w / 2 ^ 20 % 2 ^ 12) 12) ≡ pos v =
      rw (← decode_imm_i_lem w rv32, ← decode_imm-i rv32 (Isa.get_opcode w) w (inr (inl i))) e in
    let value =
      sym (
        sign_extend-signed_value rv32 (w / 2 ^ 20 % 2 ^ 12) 12 (omega arith) (omega arith)
          (omega arith))
      ∙ imm in
    ground (arith, value, get_funct7_lem w)

pub chosen_shift :
    (op : ShiftOp) (k : ℕ)
    → k < 32
    → op_imm_op (shift_funct3 op) (shift_imm_bits op k / 2 ^ 5) ≡ some (shift_alu op)
unfolding op_imm_op shift_funct3 shift_imm_bits shift_alu
chosen_shift slli k h = refl
chosen_shift srli k h = let e : k / 2 ^ 5 ≡ 0 = omega arith in rw e refl
chosen_shift srai k h = let e : (1024 + k) / 2 ^ 5 ≡ 32 = omega arith in rw e refl

-- Of the immediate a shift takes the low five bits.
pub shift_bits :
    (op : ShiftOp) (a k : ℕ)
    → k < 32
    → Alu.execute rv32 (shift_alu op) a (of_signed rv32 (pos (shift_imm_bits op k)))
      ≡ Alu.execute rv32 (shift_alu op) a k
unfolding shift_imm_bits shift_alu Alu.execute Alu.shamt of_signed
shift_bits slli a k h = let e : k % 2 ^ 32 ≡ k = omega arith in rw e refl
shift_bits srli a k h = let e : k % 2 ^ 32 ≡ k = omega arith in rw e refl
shift_bits srai a k h =
    let e : bit_and ((1024 + k) % 2 ^ 32) 31 ≡ bit_and k 31 =
      omega (arith, bit_and_mask 5 ((1024 + k) % 2 ^ 32), bit_and_mask 5 k) in
    rw e refl
