-- ===== src/Alu.antt =====
-- rv32i/include/alu.hpp: `ALU<XLEN>::execute`, for XLEN 32 and 64. The `default` of its `switch`
-- is not reached, since the clauses cover `Op`.
pub mod Arith
pub mod Multiply
pub mod Divide
pub mod Bounds
use xor_os.Base.{
  ℕ, ◌+◌, ◌-◌, ◌*◌, ◌/◌, ◌%◌, ◌^◌, bit_and, bit_or, bit_xor, Bool, ltb, ◌==◌, ◌&&◌, if◌then◌else◌,
}
use xor_os.Base.Int.{ℤ, pos, negsuc, ◌*ℤ◌, ltb_ℤ, quot, eqb_ℤ}
use xor_os.Base.Int
use xor_os.Base.Word.{
  Xlen, rv32, rv64, modulus, shift_mask, uword, uword_max, sword_min, to_signed, of_signed, shl,
  shr, asr,
}

pub data Op : Type 0 where
  add sub and or xor sll srl sra slt sltu : Op
  mul mulh mulhsu mulhu div divu rem remu : Op

-- The number of values of the 2*XLEN-bit intermediate, `uint64_t` or `__int128`.
abbrev pub double_modulus : Xlen → ℕ
double_modulus rv32 = 2 ^ 64
double_modulus rv64 = 2 ^ 128

-- The cast of a signed product to the unsigned intermediate.
unfoldable pub of_double : Xlen → ℤ → ℕ
of_double x (pos n) = n % double_modulus x
of_double x (negsuc n) = double_modulus x - 1 - n % double_modulus x

-- `static_cast<UWord>(r >> XLEN)`
unfoldable pub upper_word : Xlen → ℕ → ℕ
upper_word x r = uword x (r / modulus x)

unfoldable pub shamt : Xlen → ℕ → ℕ
shamt x b = bit_and b (shift_mask x)

unfoldable pub execute : Xlen → Op → ℕ → ℕ → ℕ
execute x add a b = uword x (a + b)
execute x sub a b = uword x (a + modulus x - b)
execute x and a b = bit_and a b
execute x or a b = bit_or a b
execute x xor a b = bit_xor a b
execute x sll a b = shl x a (shamt x b)
execute x srl a b = shr a (shamt x b)
execute x sra a b = of_signed x (asr (to_signed x a) (shamt x b))
execute x slt a b = if ltb_ℤ (to_signed x a) (to_signed x b) then 1 else 0
execute x sltu a b = if ltb a b then 1 else 0
execute x mul a b = uword x (a * b % double_modulus x)
execute x mulh a b = upper_word x (of_double x (to_signed x a *ℤ to_signed x b))
execute x mulhsu a b = upper_word x (of_double x (to_signed x a *ℤ pos b))
execute x mulhu a b = upper_word x (a * b % double_modulus x)
execute x div a b =
    if eqb_ℤ (to_signed x b) (pos 0)
    then uword_max x
    else if eqb_ℤ (to_signed x a) (sword_min x) && eqb_ℤ (to_signed x b) (negsuc 0)
    then of_signed x (sword_min x)
    else of_signed x (quot (to_signed x a) (to_signed x b))
execute x divu a b = if b == 0 then uword_max x else a / b
execute x rem a b =
    if eqb_ℤ (to_signed x b) (pos 0)
    then a
    else if eqb_ℤ (to_signed x a) (sword_min x) && eqb_ℤ (to_signed x b) (negsuc 0)
    then 0
    else of_signed x (Int.rem (to_signed x a) (to_signed x b))
execute x remu a b = if b == 0 then a else a % b
