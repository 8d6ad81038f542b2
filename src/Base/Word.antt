-- ===== src/Base/Word.antt =====
-- rv32i/include/types.hpp: `XlenTraits`, and what C++ does with its words. An unsigned word is the
-- number itself; a signed one is kept as its two's complement pattern, so that `static_cast`
-- between the two changes nothing, and is read by `to_signed`.
use Prim.Native.Nat.{ℕ, ◌-◌, ◌*◌, ◌/◌, ◌%◌, ◌^◌, ◌<◌}
use mathlib.Core.Path.{◌≡◌}
use native.Mathlib.Omega.{arith}
use xor_os.Base.Tests.{ltb, if◌then◌else◌}
use xor_os.Base.Int.{ℤ, pos, negsuc, ◌≤ℤ◌}

-- The two instantiations of the templates.
pub data Xlen : Type 0 where
  rv32 rv64 : Xlen

abbrev pub width : Xlen → ℕ
width rv32 = 32
width rv64 = 64

-- The number of values of an `UWord`.
abbrev pub modulus : Xlen → ℕ
modulus rv32 = 2 ^ 32
modulus rv64 = 2 ^ 64

abbrev pub half_modulus : Xlen → ℕ
half_modulus rv32 = 2 ^ 31
half_modulus rv64 = 2 ^ 63

abbrev pub shift_mask : Xlen → ℕ
shift_mask x = width x - 1

abbrev pub uword_max : Xlen → ℕ
uword_max x = modulus x - 1

abbrev pub sword_min : Xlen → ℤ
sword_min x = negsuc (half_modulus x - 1)

abbrev pub sword_max : Xlen → ℤ
sword_max x = pos (half_modulus x - 1)

abbrev pub uword : Xlen → ℕ → ℕ
uword x n = n % modulus x

-- The integer that a pattern stands for.
unfoldable pub to_signed : Xlen → ℕ → ℤ
to_signed x a = if ltb a (half_modulus x) then pos a else negsuc (modulus x - 1 - a)

-- `static_cast<UWord>` of an integer.
unfoldable pub of_signed : Xlen → ℤ → ℕ
of_signed x (pos n) = n % modulus x
of_signed x (negsuc n) = modulus x - 1 - n % modulus x

-- `~a`
unfoldable pub complement : Xlen → ℕ → ℕ
complement x a = modulus x - 1 - a

-- `a << k` and `a >> k` on unsigned words.
abbrev pub shl : Xlen → ℕ → ℕ → ℕ
shl x a k = a * 2 ^ k % modulus x

abbrev pub shr : ℕ → ℕ → ℕ
shr a k = a / 2 ^ k

-- `s >> k` on a signed word: the quotient rounded down.
abbrev pub asr : ℤ → ℕ → ℤ
asr (pos n) k = pos (n / 2 ^ k)
asr (negsuc n) k = negsuc (n / 2 ^ k)

pub of_signed-lt : (x : Xlen) (s : ℤ) → of_signed x s < modulus x
unfolding of_signed
of_signed-lt rv32 (pos n) = omega arith
of_signed-lt rv32 (negsuc n) = omega arith
of_signed-lt rv64 (pos n) = omega arith
of_signed-lt rv64 (negsuc n) = omega arith

pub of_signed-to_signed : (x : Xlen) (a : ℕ) → a < modulus x → of_signed x (to_signed x a) ≡ a
unfolding of_signed to_signed
of_signed-to_signed rv32 a h = ground arith
of_signed-to_signed rv64 a h = ground arith

pub to_signed-of_signed :
    (x : Xlen) (s : ℤ) → sword_min x ≤ℤ s → s ≤ℤ sword_max x → to_signed x (of_signed x s) ≡ s
unfolding of_signed to_signed
to_signed-of_signed rv32 (pos n) h g = ground arith
to_signed-of_signed rv32 (negsuc n) h g = ground arith
to_signed-of_signed rv64 (pos n) h g = ground arith
to_signed-of_signed rv64 (negsuc n) h g = ground arith

-- A pattern stands for an integer in the range of an `SWord`.
pub to_signed_bounds :
    (x : Xlen) (a : ℕ)
    → a < modulus x
    → (sword_min x ≤ℤ to_signed x a) × (to_signed x a ≤ℤ sword_max x)
unfolding to_signed
to_signed_bounds rv32 a h = ground arith
to_signed_bounds rv64 a h = ground arith
