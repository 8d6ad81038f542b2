-- ===== src/Alu/Divide.antt =====
-- rv32i/include/alu.hpp: the M extension's quotients and remainders.
use native.Mathlib.Nat.{div-add-mod, div-le_self, mul-le-mul_left, mul-div-le}
use xor_os.Base.{ℕ, zero, suc, ◌+◌, ◌-◌, ◌*◌, ◌/◌, ◌≤◌, ◌<◌, ◌≡◌, ◌≢◌, ◌⊎◌, arith}
use xor_os.Base.Int.{ℤ, pos, negsuc, pos_part, neg_part, magnitude, quot, rem, ◌+ℤ◌, ◌*ℤ◌}
use xor_os.Base.Word.{
  Xlen, rv32, rv64, modulus, half_modulus, to_signed, of_signed, to_signed-of_signed,
}
use xor_os.Alu.{execute}
use xor_os.Alu

quot-rem : (s u : ℤ) → 0 < magnitude u → quot s u *ℤ u +ℤ rem s u ≡ s
unfolding quot rem ◌+ℤ◌ ◌*ℤ◌
quot-rem (pos a) (pos b) h = ground (arith, div-add-mod a b)
quot-rem (pos a) (negsuc b) h = ground (arith, div-add-mod a (suc b))
quot-rem (negsuc a) (pos b) h = ground (arith, div-add-mod (suc a) b)
quot-rem (negsuc a) (negsuc b) h = ground (arith, div-add-mod (suc a) (suc b))

rem_parts :
    (s u : ℤ)
    → 0 < magnitude u
    → (magnitude (rem s u) < magnitude u)
      × (pos_part (rem s u) ≤ pos_part s)
      × (neg_part (rem s u) ≤ neg_part s)
unfolding rem
rem_parts (pos a) u h = ground arith
rem_parts (negsuc a) u h = ground arith

quot-le : (s u : ℤ) → magnitude (quot s u) ≤ magnitude s
unfolding quot
quot-le (pos a) (pos b) = ground arith
quot-le (pos a) (negsuc b) = ground arith
quot-le (negsuc a) (pos b) = ground arith
quot-le (negsuc a) (negsuc b) = ground arith

-- The one quotient that is out of range is that of the least integer by -1.
quot-lt :
    (m : ℕ) (s u : ℤ)
    → 0 < magnitude u
    → pos_part s < m
    → neg_part s ≤ m
    → (neg_part s ≢ m) ⊎ (neg_part u ≢ 1)
    → pos_part (quot s u) < m
unfolding quot
quot-lt m (pos a) (pos b) h lt le other = omega (arith, div-le_self a b)
quot-lt m (pos a) (negsuc b) h lt le other = ground arith
quot-lt m (negsuc a) (pos b) h lt le other = ground arith
quot-lt m (negsuc a) (negsuc zero) h lt le other = ground arith
quot-lt m (negsuc a) (negsuc (suc b)) h lt le other =
    omega (arith, mul-le-mul_left (suc a / suc (suc b)) two_le, mul-div-le (suc a) (suc (suc b)))
  where
    two_le : 2 ≤ suc (suc b)
    two_le = omega arith

-- What the signed operands are like.
record IsOrdinary (x : Xlen) (s u : ℤ) : Type 0 where
  nonzero : 0 < magnitude u
  below : pos_part s < half_modulus x
  above : neg_part s ≤ half_modulus x
  other : (neg_part s ≢ half_modulus x) ⊎ (neg_part u ≢ 1)
  apart : (pos_part s ≡ 0) ⊎ (neg_part s ≡ 0)

operands-IsOrdinary :
    (x : Xlen) (a b : ℕ)
    → a < modulus x
    → b < modulus x
    → b ≢ 0
    → (a ≢ half_modulus x) ⊎ (b ≢ modulus x - 1)
    → IsOrdinary x (to_signed x a) (to_signed x b)
unfolding to_signed
operands-IsOrdinary rv32 a b h g n o = ground arith
operands-IsOrdinary rv64 a b h g n o = ground arith

module _ (x : Xlen) (a b : ℕ) (o : IsOrdinary x (to_signed x a) (to_signed x b)) where
  div_ordinary : execute x Alu.div a b ≡ of_signed x (quot (to_signed x a) (to_signed x b))
  unfolding execute
  div_ordinary = ground arith

  rem_ordinary : execute x Alu.rem a b ≡ of_signed x (rem (to_signed x a) (to_signed x b))
  unfolding execute
  rem_ordinary = ground arith

quot-in_range :
    (x : Xlen) (s u : ℤ) → IsOrdinary x s u → to_signed x (of_signed x (quot s u)) ≡ quot s u
quot-in_range x s u o =
    to_signed-of_signed x (quot s u) (omega (arith, quot-le s u))
      (omega (arith, quot-lt (half_modulus x) s u o.nonzero o.below o.above o.other))

rem-in_range :
    (x : Xlen) (s u : ℤ) → IsOrdinary x s u → to_signed x (of_signed x (rem s u)) ≡ rem s u
rem-in_range x s u o =
    to_signed-of_signed x (rem s u) (omega (arith, rem_parts s u o.nonzero))
      (omega (arith, rem_parts s u o.nonzero))

-- DIV and REM by a word that is not zero, except for the least integer by -1, are the quotient
-- and the remainder of the signed operands: the remainder is smaller than the divisor and has the
-- dividend's sign.
pub div-rem :
    (x : Xlen) (a b : ℕ)
    → a < modulus x
    → b < modulus x
    → b ≢ 0
    → (a ≢ half_modulus x) ⊎ (b ≢ modulus x - 1)
    → let s = to_signed x a in
      let u = to_signed x b in
      let q = to_signed x (execute x Alu.div a b) in
      let r = to_signed x (execute x Alu.rem a b) in
      (q *ℤ u +ℤ r ≡ s)
      × (magnitude r < magnitude u)
      × (pos_part r ≤ pos_part s)
      × (neg_part r ≤ neg_part s)
div-rem x a b h g nonzero ordinary =
    let o = operands-IsOrdinary x a b h g nonzero ordinary in
    let s = to_signed x a in
    let u = to_signed x b in
    rw (div_ordinary x a b o, rem_ordinary x a b o, quot-in_range x s u o, rem-in_range x s u o)
      (
        quot-rem s u o.nonzero,
        (rem_parts s u o.nonzero).0,
        (rem_parts s u o.nonzero).1,
        (rem_parts s u o.nonzero).2,
      )

-- DIVU and REMU by a word that is not zero are the quotient and the remainder.
divu_remu :
    (x : Xlen) (a b : ℕ)
    → b ≢ 0
    → (execute x Alu.divu a b * b + execute x Alu.remu a b ≡ a) × (execute x Alu.remu a b < b)
unfolding execute
divu_remu x a b h = ground (arith, div-add-mod a b)
