-- ===== src/Alu/Arith.antt =====
-- rv32i/include/alu.hpp: sums, comparisons and shifts.
use xor_os.Base.{ℕ, ◌+◌, ◌-◌, ◌*◌, ◌/◌, ◌%◌, ◌^◌, ◌≤◌, ◌<◌, ◌≡◌, ◌↔◌, min, max, refl, arith}
use xor_os.Base.Bits.{bit_and_mask}
use xor_os.Base.Int.{ℤ, pos, negsuc, ◌≤ℤ◌, ◌<ℤ◌}
use xor_os.Base.Word.{
  Xlen, rv32, rv64, width, modulus, uword, to_signed, asr, half_modulus, to_signed_bounds,
  to_signed-of_signed,
}
use xor_os.Base.Digits.{digit, digit-bit_and, digit-bit_or, digit-bit_xor}
use native.Mathlib.Nat.{div-le_self}
use xor_os.Alu.{execute, shamt}
use xor_os.Alu

-- The shift amount is the operand modulo the width.
pub shamt_lem : (x : Xlen) (b : ℕ) → shamt x b ≡ b % width x
unfolding shamt
shamt_lem rv32 b = bit_and_mask 5 b
shamt_lem rv64 b = bit_and_mask 6 b

-- SUB undoes ADD, across the wrap.
sub-add :
    (x : Xlen) (a b : ℕ)
    → a < modulus x
    → b < modulus x
    → execute x Alu.sub (execute x Alu.add a b) b ≡ a
unfolding execute
sub-add rv32 a b h g = omega arith
sub-add rv64 a b h g = omega arith

-- SLT is 1 exactly when the first operand is less as a signed integer, SLTU when it is less as an
-- unsigned one; else they are 0.
pub slt_sltu_iff :
    (x : Xlen) (a b : ℕ)
    → ((execute x Alu.slt a b ≡ 1) ↔ (to_signed x a <ℤ to_signed x b))
      × ((execute x Alu.sltu a b ≡ 1) ↔ (a < b))
      × (execute x Alu.slt a b ≤ 1)
      × (execute x Alu.sltu a b ≤ 1)
unfolding execute
slt_sltu_iff x a b = (ground arith, ground arith, ground arith, ground arith)

asr_bounds :
    (s : ℤ) (k m : ℕ) → negsuc m ≤ℤ s → s ≤ℤ pos m → (negsuc m ≤ℤ asr s k) × (asr s k ≤ℤ pos m)
asr_bounds (pos n) k m h g = omega (arith, div-le_self n (2 ^ k))
asr_bounds (negsuc n) k m h g = omega (arith, div-le_self n (2 ^ k))

-- Each shift moves by the second operand modulo the width: SLL multiplies in the word, SRL is the
-- quotient of the unsigned value, and SRA is that of the signed value, rounded down.
pub shifts_lem :
    (x : Xlen) (a b : ℕ)
    → a < modulus x
    → let k = b % width x in
      (execute x Alu.sll a b ≡ uword x (a * 2 ^ k))
      × (execute x Alu.srl a b ≡ a / 2 ^ k)
      × (to_signed x (execute x Alu.sra a b) ≡ asr (to_signed x a) k)
unfolding execute
shifts_lem x a b h = rw (shamt_lem x b) (
  refl,
  refl,
  let in_range = to_signed_bounds x a h in
      let (lo, hi) =
        asr_bounds (to_signed x a) (b % width x) (half_modulus x - 1) in_range.0 in_range.1 in
      to_signed-of_signed x _ lo hi,
)

-- AND, OR and XOR work digit by digit.
pub logic_digits :
    (x : Xlen) (a b i : ℕ)
    → (digit (execute x Alu.and a b) i ≡ min (digit a i) (digit b i))
      × (digit (execute x Alu.or a b) i ≡ max (digit a i) (digit b i))
      × (digit (execute x Alu.xor a b) i ≡ (digit a i + digit b i) % 2)
unfolding execute
logic_digits x a b i = (digit-bit_and i a b, digit-bit_or i a b, digit-bit_xor i a b)
