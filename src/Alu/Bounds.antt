-- ===== src/Alu/Bounds.antt =====
-- rv32i/include/alu.hpp: every result is a word.
use native.Mathlib.Nat.{div-le_self, mod-le}
use xor_os.Base.{ℕ, ◌/◌, ◌%◌, ◌^◌, ◌<◌, Bool, true, false, if◌then◌else◌, arith}
use xor_os.Base.{bit_and, bit_or, bit_xor}
use xor_os.Base.Bits.{bit_and-le, bit_or-lt, bit_xor-lt}
use xor_os.Base.Word.{Xlen, rv32, rv64, modulus, uword, uword_max, of_signed-lt}
use xor_os.Alu.{Op, execute, upper_word, shamt}
use xor_os.Alu

pub uword-lt : (x : Xlen) (n : ℕ) → uword x n < modulus x
uword-lt rv32 n = omega arith
uword-lt rv64 n = omega arith

pub bits-lt :
    (x : Xlen) (a b : ℕ)
    → a < modulus x
    → b < modulus x
    → (bit_and a b < modulus x) × (bit_or a b < modulus x) × (bit_xor a b < modulus x)
bits-lt rv32 a b h g =
    (omega (arith, bit_and-le 32 a b h), bit_or-lt 32 a b h g, bit_xor-lt 32 a b h g)
bits-lt rv64 a b h g =
    (omega (arith, bit_and-le 64 a b h), bit_or-lt 64 a b h g, bit_xor-lt 64 a b h g)

max-lt : (x : Xlen) → uword_max x < modulus x
max-lt rv32 = omega arith
max-lt rv64 = omega arith

zero-lt : (x : Xlen) → 0 < modulus x
zero-lt x = omega (arith, max-lt x)

quot-le : (a b : ℕ) {m : ℕ} → a < m → a / b < m
quot-le a b h = omega (arith, div-le_self a b)

rem-le : (a b : ℕ) {m : ℕ} → a < m → a % b < m
rem-le a b h = omega (arith, mod-le a b)

if-lt : (c : Bool) {u v m : ℕ} → u < m → v < m → (if c then u else v) < m
if-lt true h g = h
if-lt false h g = g

-- Whatever the operation, words give a word.
pub execute-lt :
    (x : Xlen) (op : Op) (a b : ℕ) → a < modulus x → b < modulus x → execute x op a b < modulus x
unfolding execute upper_word
execute-lt x Alu.add a b h g = uword-lt x _
execute-lt x Alu.sub a b h g = uword-lt x _
execute-lt x Alu.and a b h g = (bits-lt x a b h g).0
execute-lt x Alu.or a b h g = (bits-lt x a b h g).1
execute-lt x Alu.xor a b h g = (bits-lt x a b h g).2
execute-lt x Alu.sll a b h g = uword-lt x _
execute-lt x Alu.srl a b h g = omega (arith, div-le_self a (2 ^ shamt x b))
execute-lt x Alu.sra a b h g = of_signed-lt x _
execute-lt rv32 Alu.slt a b h g = ground arith
execute-lt rv64 Alu.slt a b h g = ground arith
execute-lt rv32 Alu.sltu a b h g = ground arith
execute-lt rv64 Alu.sltu a b h g = ground arith
execute-lt x Alu.mul a b h g = uword-lt x _
execute-lt x Alu.mulh a b h g = uword-lt x _
execute-lt x Alu.mulhsu a b h g = uword-lt x _
execute-lt x Alu.mulhu a b h g = uword-lt x _
execute-lt x Alu.div a b h g = if-lt _ (max-lt x) (if-lt _ (of_signed-lt x _) (of_signed-lt x _))
execute-lt x Alu.divu a b h g = if-lt _ (max-lt x) (quot-le a b h)
execute-lt x Alu.rem a b h g = if-lt _ h (if-lt _ (zero-lt x) (of_signed-lt x _))
execute-lt x Alu.remu a b h g = if-lt _ h (rem-le a b h)
