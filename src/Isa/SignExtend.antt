-- ===== src/Isa/SignExtend.antt =====
-- rv32i/include/isa.hpp: what `signExtend` computes, at every width.
use native.Mathlib.Nat.{add-zero, add-suc, pow-suc, one-le-pow}
use xor_os.Base.{ℕ, zero, suc, ◌+◌, ◌-◌, ◌*◌, ◌/◌, ◌%◌, ◌^◌, ◌≤◌, ◌<◌, ◌≡◌, arith, ltb}
use xor_os.Base.{if◌then◌else◌, ap}
use xor_os.Base.Int.{ℤ, pos, negsuc}
use xor_os.Base.Word.{Xlen, rv32, rv64, to_signed, of_signed, asr}
use xor_os.Isa.{sign_extend}

pow_add : (a b : ℕ) → 2 ^ (a + b) ≡ 2 ^ a * 2 ^ b
pow_add a zero = rw add-zero (omega arith)
pow_add a (suc b) = omega (
  arith,
  ap (λ (t : ℕ). 2 ^ t) (add-suc a b),
  pow-suc 2 (a + b),
  pow_add a b,
  ap (λ (t : ℕ). 2 ^ a * t) (pow-suc 2 b),
)

div_unique : (a q r n : ℕ) → n ≡ q * a + r → r < a → n / a ≡ q
div_unique a q r n e h = grind arith

-- The value of a pattern of `bits` bits in two's complement.
abbrev pub signed_value : ℕ → ℕ → ℤ
signed_value bits val = if ltb val (2 ^ (bits - 1)) then pos val else negsuc (2 ^ bits - 1 - val)

module _ (a b val m : ℕ) (split : 2 * b * a ≡ m) (some_a : 0 < a) where
  low : val < b → val * a < b * a
  low h = grind arith

  high : b ≤ val → b * a ≤ val * a
  high h = grind arith

  top : (q : ℕ) → q + val + 1 ≡ 2 * b → q * a + (val * a + a) ≡ m
  top q e = omega (arith, split, ap (λ (t : ℕ). t * a) e)

  shift_down : val < 2 * b → (m - 1 - val * a) / a ≡ 2 * b - 1 - val
  shift_down h =
      let e = top (2 * b - 1 - val) (omega arith) in
      div_unique a (2 * b - 1 - val) (a - 1) (m - 1 - val * a) (omega arith) (omega arith)

  back : val * a / a ≡ val
  back = div_unique a val 0 (val * a) (omega arith) some_a

module _ (k b val : ℕ) (some_a : 0 < 2 ^ k) (small : val < 2 * b) where
  extend32 :
      2 * b * 2 ^ k ≡ 2 ^ 32
      → to_signed rv32 (of_signed rv32 (asr (to_signed rv32 (val * 2 ^ k % 2 ^ 32)) k))
        ≡ (if ltb val b then pos val else negsuc (2 * b - 1 - val))
  unfolding to_signed of_signed
  extend32 split = ground (
    arith,
    low (2 ^ k) b val (2 ^ 32) split some_a,
    high (2 ^ k) b val (2 ^ 32) split some_a,
    top (2 ^ k) b val (2 ^ 32) split some_a (2 * b - 1 - val),
    shift_down (2 ^ k) b val (2 ^ 32) split some_a,
    back (2 ^ k) b val (2 ^ 32) split some_a,
  )

  extend64 :
      2 * b * 2 ^ k ≡ 2 ^ 64
      → to_signed rv64 (of_signed rv64 (asr (to_signed rv64 (val * 2 ^ k % 2 ^ 64)) k))
        ≡ (if ltb val b then pos val else negsuc (2 * b - 1 - val))
  unfolding to_signed of_signed
  extend64 split = ground (
    arith,
    low (2 ^ k) b val (2 ^ 64) split some_a,
    high (2 ^ k) b val (2 ^ 64) split some_a,
    top (2 ^ k) b val (2 ^ 64) split some_a (2 * b - 1 - val),
    shift_down (2 ^ k) b val (2 ^ 64) split some_a,
    back (2 ^ k) b val (2 ^ 64) split some_a,
  )

-- The powers around the sign bit of a `bits`-bit value in `w` bits.
split_width : (w bits : ℕ) → 1 ≤ bits → bits ≤ w → 2 * 2 ^ (bits - 1) * 2 ^ (w - bits) ≡ 2 ^ w
split_width w bits h g = omega (
  arith,
  pow-suc 2 (bits - 1),
  pow_add (suc (bits - 1)) (w - bits),
  ap (λ (t : ℕ). t * 2 ^ (w - bits)) (pow-suc 2 (bits - 1)),
  ap (λ (t : ℕ). 2 ^ t) (rejoin),
)
  where
    rejoin : suc (bits - 1) + (w - bits) ≡ w
    rejoin = omega arith

double_half : (bits : ℕ) → 1 ≤ bits → 2 * 2 ^ (bits - 1) ≡ 2 ^ bits
double_half zero h = elim h [ ]
double_half (suc n) h =
    let e : suc n - 1 ≡ n = omega arith in omega (arith, pow-suc 2 n, ap (λ (t : ℕ). 2 ^ t) e)

-- `signExtend` of a value that fits `bits` bits, 1 to 32, is a word that stands for the integer
-- which the value is in two's complement, in both widths.
pub sign_extend-signed_value :
    (x : Xlen) (val bits : ℕ)
    → 1 ≤ bits
    → bits ≤ 32
    → val < 2 ^ bits
    → to_signed x (sign_extend x val bits) ≡ signed_value bits val
unfolding sign_extend
sign_extend-signed_value rv32 val bits h g small = rw (← double_half bits h) (
    extend32 (32 - bits) (2 ^ (bits - 1)) val some_shift (rw (double_half bits h) small)
      (split_width 32 bits h g))
  where
    some_shift : 0 < 2 ^ (32 - bits)
    some_shift = one-le-pow (32 - bits) 2 (omega arith)
sign_extend-signed_value rv64 val bits h g small = rw (← double_half bits h) (
    extend64 (64 - bits) (2 ^ (bits - 1)) val some_shift (rw (double_half bits h) small)
      (split_width 64 bits h (omega arith)))
  where
    some_shift : 0 < 2 ^ (64 - bits)
    some_shift = one-le-pow (64 - bits) 2 (omega arith)
