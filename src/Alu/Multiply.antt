-- ===== src/Alu/Multiply.antt =====
-- rv32i/include/alu.hpp: the M extension's products.
use xor_os.Base.{ℕ, ◌+◌, ◌-◌, ◌*◌, ◌/◌, ◌%◌, ◌≤◌, ◌<◌, ◌≡◌, ◌⊎◌, inl, inr, refl, ap, ap₂, arith}
use xor_os.Base.Int.{
  ℤ, pos, negsuc, pos_part, neg_part, ◌+ℤ◌, ◌*ℤ◌, ◌≤ℤ◌, *ℤ_parts, magnitude, parts_apart,
}
use native.Mathlib.Nat.{mul-le-mul}
use xor_os.Base.Word.{Xlen, rv32, rv64, modulus, half_modulus, to_signed}
use xor_os.Alu.{execute, of_double, upper_word, double_modulus}
use xor_os.Alu

-- The word above and the word below make up a product of either sign.
join_words :
    (x : Xlen) (r : ℤ)
    → negsuc (double_modulus x / 2 - 1) ≤ℤ r
    → r ≤ℤ pos (double_modulus x / 2 - 1)
    → to_signed x (upper_word x (of_double x r)) *ℤ pos (modulus x)
        +ℤ pos (of_double x r % modulus x)
      ≡ r
unfolding to_signed upper_word of_double ◌*ℤ◌ ◌+ℤ◌
join_words rv32 (pos n) h g = ground arith
join_words rv32 (negsuc n) h g = ground arith
join_words rv64 (pos n) h g = ground arith
join_words rv64 (negsuc n) h g = ground arith

-- Two numbers that differ by a multiple of the modulus have one low word.
low_word :
    (x : Xlen) (r : ℤ) (p s t : ℕ)
    → pos_part r + modulus x * t ≡ p + neg_part r + modulus x * s
    → of_double x r % modulus x ≡ p % modulus x
unfolding of_double
low_word rv32 (pos n) p s t e = omega arith
low_word rv32 (negsuc n) p s t e = omega arith
low_word rv64 (pos n) p s t e = omega arith
low_word rv64 (negsuc n) p s t e = omega arith

-- The parts of a product, when each factor is the word `a` or `b`, or that less the modulus `m`.
module _ (m a b sp sn up un rp rn : ℕ)
    (parts : rp + sp * un + sn * up ≡ rn + sp * up + sn * un) where
  both_pos : (sp ≡ a) × (sn ≡ 0) → (up ≡ b) × (un ≡ 0) → rp ≡ a * b + rn
  both_pos h g = omega (
    arith,
    parts,
    ap₂ (λ (t w : ℕ). t * w) h.0 g.0,
    ap (λ (t : ℕ). t * up) h.1,
    ap (λ (t : ℕ). sp * t) g.1,
    ap (λ (t : ℕ). sn * t) g.1,
  )

  second_neg : (sp ≡ a) × (sn ≡ 0) → (up ≡ 0) × (un + b ≡ m) → rp + m * a ≡ a * b + rn
  second_neg h g = omega (
    arith,
    parts,
    ap (λ (t : ℕ). t * un) h.0,
    ap (λ (t : ℕ). a * t) g.1,
    ap (λ (t : ℕ). t * up) h.1,
    ap (λ (t : ℕ). t * un) h.1,
    ap (λ (t : ℕ). sp * t) g.0,
  )

  both_neg : (sp ≡ 0) × (sn + a ≡ m) → (up ≡ 0) × (un + b ≡ m) → rp + m * a ≡ a * b + rn + m * un
  both_neg h g = omega (
    arith,
    parts,
    ap (λ (t : ℕ). t * un) h.0,
    ap (λ (t : ℕ). t * un) h.1,
    ap (λ (t : ℕ). a * t) g.1,
    ap (λ (t : ℕ). t * up) h.0,
    ap (λ (t : ℕ). sn * t) g.0,
  )

  first_neg : (sp ≡ 0) × (sn + a ≡ m) → (up ≡ b) × (un ≡ 0) → rp + m * b ≡ a * b + rn
  first_neg h g = omega (
    arith,
    parts,
    ap (λ (t : ℕ). t * up) h.0,
    ap (λ (t : ℕ). t * up) h.1,
    ap (λ (t : ℕ). a * t) g.0,
    ap (λ (t : ℕ). m * t) g.0,
    ap (λ (t : ℕ). sp * t) g.1,
    ap (λ (t : ℕ). sn * t) g.1,
  )

-- An integer is the word `a`, or that less the modulus.
abbrev IsWordOf : Xlen → ℕ → ℤ → Type 0
IsWordOf x a s =
    (pos_part s ≡ a) × (neg_part s ≡ 0) ⊎ (pos_part s ≡ 0) × (neg_part s + a ≡ modulus x)

-- The low word of the product of the integers is that of the product of the words.
low-product :
    (x : Xlen) (a b : ℕ) (s u : ℤ)
    → IsWordOf x a s
    → IsWordOf x b u
    → of_double x (s *ℤ u) % modulus x ≡ a * b % modulus x
low-product x a b s u (inl p) (inl q) =
    low_word x (s *ℤ u) (a * b) 0 0
      (omega (arith, both_pos (modulus x) a b _ _ _ _ _ _ (*ℤ_parts s u) p q))
low-product x a b s u (inl p) (inr q) =
    low_word x (s *ℤ u) (a * b) 0 a
      (omega (arith, second_neg (modulus x) a b _ _ _ _ _ _ (*ℤ_parts s u) p q))
low-product x a b s u (inr p) (inl q) =
    low_word x (s *ℤ u) (a * b) 0 b
      (omega (arith, first_neg (modulus x) a b _ _ _ _ _ _ (*ℤ_parts s u) p q))
low-product x a b s u (inr p) (inr q) =
    low_word x (s *ℤ u) (a * b) (neg_part u) a
      (omega (arith, both_neg (modulus x) a b _ _ _ _ _ _ (*ℤ_parts s u) p q))

-- A word is its signed value, plus the modulus where that is negative.
signed_word : (x : Xlen) (a : ℕ) → a < modulus x → IsWordOf x a (to_signed x a)
unfolding to_signed
signed_word rv32 a h = ground arith
signed_word rv64 a h = ground arith

signed_magnitude : (x : Xlen) (a : ℕ) → a < modulus x → magnitude (to_signed x a) ≤ half_modulus x
unfolding to_signed
signed_magnitude rv32 a h = ground arith
signed_magnitude rv64 a h = ground arith

-- A product of two signed words, or of a signed and an unsigned one, fits the intermediate.
product_fits :
    (x : Xlen) (s u : ℤ)
    → magnitude s ≤ half_modulus x
    → magnitude u ≤ modulus x - 1
    → (negsuc (double_modulus x / 2 - 1) ≤ℤ s *ℤ u) × (s *ℤ u ≤ℤ pos (double_modulus x / 2 - 1))
product_fits rv32 s u h g = omega (arith, *ℤ_parts s u, parts_apart (s *ℤ u), mul-le-mul h g)
product_fits rv64 s u h g = omega (arith, *ℤ_parts s u, parts_apart (s *ℤ u), mul-le-mul h g)

low_mul : (x : Xlen) (a b : ℕ) → execute x Alu.mul a b ≡ a * b % modulus x
unfolding execute
low_mul rv32 a b = omega arith
low_mul rv64 a b = omega arith

half_below : (x : Xlen) (n : ℕ) → n ≤ half_modulus x → n ≤ modulus x - 1
half_below rv32 n h = omega arith
half_below rv64 n h = omega arith

word_below : (x : Xlen) (n : ℕ) → n < modulus x → n + 0 ≤ modulus x - 1
word_below rv32 n h = omega arith
word_below rv64 n h = omega arith

join_unsigned :
    (x : Xlen) (a b : ℕ)
    → a < modulus x
    → b < modulus x
    → upper_word x (a * b % double_modulus x) * modulus x + execute x Alu.mul a b ≡ a * b
unfolding upper_word
join_unsigned rv32 a b h g =
    omega (arith, low_mul rv32 a b, mul-le-mul (word_below rv32 a h) (word_below rv32 b g))
join_unsigned rv64 a b h g =
    omega (arith, low_mul rv64 a b, mul-le-mul (word_below rv64 a h) (word_below rv64 b g))

-- The two words of a product in the intermediate, joined.
join_product :
    (x : Xlen) (a b : ℕ) (s u : ℤ)
    → IsWordOf x a s
    → IsWordOf x b u
    → magnitude s ≤ half_modulus x
    → magnitude u ≤ modulus x - 1
    → to_signed x (upper_word x (of_double x (s *ℤ u))) *ℤ pos (modulus x)
        +ℤ pos (execute x Alu.mul a b)
      ≡ s *ℤ u
join_product x a b s u p q h g =
    let (lo, hi) = product_fits x s u h g in
    rw (low_mul x a b, ← low-product x a b s u p q) (join_words x (s *ℤ u) lo hi)

-- MUL is the lower word of every product; MULH, MULHSU and MULHU are the upper words of the
-- signed, the signed by unsigned and the unsigned product: the two words make up the exact product.
pub upper_lower :
    (x : Xlen) (a b : ℕ)
    → a < modulus x
    → b < modulus x
    → (to_signed x (execute x Alu.mulh a b) *ℤ pos (modulus x) +ℤ pos (execute x Alu.mul a b)
        ≡ to_signed x a *ℤ to_signed x b)
      × (to_signed x (execute x Alu.mulhsu a b) *ℤ pos (modulus x) +ℤ pos (execute x Alu.mul a b)
          ≡ to_signed x a *ℤ pos b)
      × (execute x Alu.mulhu a b * modulus x + execute x Alu.mul a b ≡ a * b)
unfolding execute
upper_lower x a b h g = (
  join_product x a b (to_signed x a) (to_signed x b) (signed_word x a h) (signed_word x b g)
      (signed_magnitude x a h) (half_below x _ (signed_magnitude x b g)),
  join_product x a b (to_signed x a) (pos b) (signed_word x a h) (inl (refl, refl))
      (signed_magnitude x a h) (word_below x b g),
  join_unsigned x a b h g,
)
