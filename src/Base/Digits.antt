-- ===== src/Base/Digits.antt =====
-- The bit operations digit by digit.
use Prim.Native.Nat.{ℕ, zero, suc, ◌+◌, ◌-◌, ◌/◌, ◌%◌, ◌^◌, ◌<◌, min, max, bit_and, bit_or, bit_xor}
use mathlib.Core.Path.{◌≡◌}
use native.Mathlib.Nat.{pow-suc}
use native.Mathlib.Omega.{arith}
use xor_os.Base.Bits.{bit_and_step, bit_or_step, bit_xor_step, div-two-pow-suc}

-- The digit of weight `2 ^ i`.
abbrev pub digit : ℕ → ℕ → ℕ
digit a i = a / 2 ^ i % 2

module _ (a b : ℕ) where
  half-bit_and : bit_and a b / 2 ≡ bit_and (a / 2) (b / 2)
  half-bit_and = omega (arith, bit_and_step a b)

  half-bit_or : bit_or a b / 2 ≡ bit_or (a / 2) (b / 2)
  half-bit_or = omega (arith, bit_or_step a b)

  half-bit_xor : bit_xor a b / 2 ≡ bit_xor (a / 2) (b / 2)
  half-bit_xor = omega (arith, bit_xor_step a b)

pub digit-bit_and : (i a b : ℕ) → digit (bit_and a b) i ≡ min (digit a i) (digit b i)
digit-bit_and zero a b = omega (arith, bit_and_step a b)
digit-bit_and (suc i) a b =
    rw (div-two-pow-suc _ i, div-two-pow-suc a i, div-two-pow-suc b i, half-bit_and)
      (digit-bit_and i (a / 2) (b / 2))

pub digit-bit_or : (i a b : ℕ) → digit (bit_or a b) i ≡ max (digit a i) (digit b i)
digit-bit_or zero a b = omega (arith, bit_or_step a b)
digit-bit_or (suc i) a b =
    rw (div-two-pow-suc _ i, div-two-pow-suc a i, div-two-pow-suc b i, half-bit_or)
      (digit-bit_or i (a / 2) (b / 2))

pub digit-bit_xor : (i a b : ℕ) → digit (bit_xor a b) i ≡ (digit a i + digit b i) % 2
digit-bit_xor zero a b = omega (arith, bit_xor_step a b)
digit-bit_xor (suc i) a b =
    rw (div-two-pow-suc _ i, div-two-pow-suc a i, div-two-pow-suc b i, half-bit_xor)
      (digit-bit_xor i (a / 2) (b / 2))

-- A digit of `~a` in `k` bits is the other one.
pub digit-complement : (k i a : ℕ) → i < k → a < 2 ^ k → digit (2 ^ k - 1 - a) i ≡ 1 - digit a i
digit-complement zero i a h g = elim h [ ]
digit-complement (suc k) zero a h g = omega (arith, pow-suc 2 k)
digit-complement (suc k) (suc i) a h g =
    rw (div-two-pow-suc _ i, div-two-pow-suc a i, halved)
      (digit-complement k i (a / 2) (omega arith) (omega (arith, pow-suc 2 k)))
  where
    halved : (2 ^ suc k - 1 - a) / 2 ≡ 2 ^ k - 1 - a / 2
    halved = omega (arith, pow-suc 2 k)
