-- ===== src/Cache/Words.antt =====
-- rv32i/cache_src/include/cache_model.hpp and memory_model.hpp: the aligned words of the backing
-- memory, and the bytes and halves in them.
use xor_os.Base.{
  ℕ, zero, suc, ◌+◌, ◌-◌, ◌*◌, ◌/◌, ◌%◌, ◌^◌, ◌≤◌, ◌<◌, ◌≡◌, ◌≢◌, ap, arith, bit_and, ◌⊎◌,
}
use native.Mathlib.Numerals.{unary_clauses}
use mathlib.Core.Path.{subst, sym, ◌∙◌}
use xor_os.Base.Bits.{bit_and_mask, bit_and_clear}
use xor_os.Base.Word.{complement, shr}
use xor_os.Memory.{MemoryModel, byte_at, word_addr, byte_shift}
use xor_os.Memory.Bytes.{IsBytes, word_of}
use xor_os.Cache.{patch}
use xor_os.Cache.Merge.{
  patch-byte0, patch-byte1, patch-byte2, patch-byte3, patch-half0, patch-half2,
}

pub word_addr_lem : (a : ℕ) → a < 2 ^ 32 → word_addr a ≡ a - a % 4
unfolding word_addr complement
word_addr_lem a h = omega (arith, bit_and_clear 32 a 3, bit_and_mask 2 a)

pub byte_shift_lem : (a : ℕ) → byte_shift a ≡ a % 4 * 8
unfolding byte_shift
byte_shift_lem a = omega (arith, bit_and_mask 2 a)

-- The word at an address.
abbrev pub word_at : {D : Type 0} → MemoryModel D → ℕ → ℕ
word_at m t = word_of (byte_at m t) (byte_at m (t + 1)) (byte_at m (t + 2)) (byte_at m (t + 3))

-- Nothing changed but the bytes of `[a, a + n)`.
pub record Outside {D : Type 0} (m m' : MemoryModel D) (a n : ℕ) : Type 0 where
  pub same : (j : ℕ) → (j < a) ⊎ (a + n ≤ j) → byte_at m' j ≡ byte_at m j

module _ {D : Type 0} (m m' : MemoryModel D) where
  -- A write within an aligned word leaves the others.
  pub other_word :
      (a n t t' : ℕ)
      → Outside m m' a n
      → t ≤ a
      → a + n ≤ t + 4
      → t % 4 ≡ 0
      → t' % 4 ≡ 0
      → t' ≢ t
      → word_at m' t' ≡ word_at m t'
  other_word a n t t' o h g e e' ne =
      let b0 = o.same t' (apart t' (omega arith) (omega arith)) in
      let b1 = o.same (t' + 1) (apart (t' + 1) (omega arith) (omega arith)) in
      let b2 = o.same (t' + 2) (apart (t' + 2) (omega arith) (omega arith)) in
      let b3 = o.same (t' + 3) (apart (t' + 3) (omega arith) (omega arith)) in omega arith
    where
      apart : (j : ℕ) → t' ≤ j → j < t' + 4 → (j < a) ⊎ (a + n ≤ j)
      apart j h' g' = omega arith

  -- The word of a byte, or of a half, that was written.
  module _ (bytes : IsBytes m) (t v : ℕ) where
    patched_byte :
        (k : ℕ)
        → k < 4
        → Outside m m' (t + k) 1
        → byte_at m' (t + k) ≡ v
        → v < 256
        → word_at m' t ≡ patch (word_at m t) 0xFF v (k * 8)
    patched_byte zero h o e g =
        let b0 : byte_at m' t ≡ v = simp unary_clauses at e in
        let b1 = o.same (t + 1) (omega arith) in
        let b2 = o.same (t + 2) (omega arith) in
        let b3 = o.same (t + 3) (omega arith) in
        omega
          (arith, patch-byte0 _ _ _ _ v (bytes t) (bytes (t + 1)) (bytes (t + 2)) (bytes (t + 3)) g)
    patched_byte (suc zero) h o e g =
        let b0 = o.same t (omega arith) in
        let b2 = o.same (t + 2) (omega arith) in
        let b3 = o.same (t + 3) (omega arith) in
        omega
          (arith, patch-byte1 _ _ _ _ v (bytes t) (bytes (t + 1)) (bytes (t + 2)) (bytes (t + 3)) g)
    patched_byte (suc (suc zero)) h o e g =
        let b0 = o.same t (omega arith) in
        let b1 = o.same (t + 1) (omega arith) in
        let b3 = o.same (t + 3) (omega arith) in
        omega
          (arith, patch-byte2 _ _ _ _ v (bytes t) (bytes (t + 1)) (bytes (t + 2)) (bytes (t + 3)) g)
    patched_byte (suc (suc (suc zero))) h o e g =
        let b0 = o.same t (omega arith) in
        let b1 = o.same (t + 1) (omega arith) in
        let b2 = o.same (t + 2) (omega arith) in
        omega
          (arith, patch-byte3 _ _ _ _ v (bytes t) (bytes (t + 1)) (bytes (t + 2)) (bytes (t + 3)) g)
    patched_byte (suc (suc (suc (suc k)))) h o e g = absurd (omega arith)

    patched_half :
        (k : ℕ)
        → k < 2
        → Outside m m' (t + k * 2) 2
        → byte_at m' (t + k * 2) ≡ v % 256
        → byte_at m' (t + k * 2 + 1) ≡ v / 256
        → v < 2 ^ 16
        → word_at m' t ≡ patch (word_at m t) 0xFFFF v (k * 16)
    patched_half zero h o e e' g =
        let b0 : byte_at m' t ≡ v % 256 = simp unary_clauses at e in
        let base : t + 0 * 2 ≡ t = omega arith in
        let b1 : byte_at m' (t + 1) ≡ v / 256 = rw base at e' in
        let b2 = o.same (t + 2) (omega arith) in
        let b3 = o.same (t + 3) (omega arith) in
        omega
          (arith, patch-half0 _ _ _ _ v (bytes t) (bytes (t + 1)) (bytes (t + 2)) (bytes (t + 3)) g)
    patched_half (suc zero) h o e e' g =
        let b0 = o.same t (omega arith) in
        let b1 = o.same (t + 1) (omega arith) in
        let third : t + 1 * 2 + 1 ≡ t + 3 = omega arith in
        let high : byte_at m' (t + 3) ≡ v / 256 = rw third at e' in
        omega
          (arith, patch-half2 _ _ _ _ v (bytes t) (bytes (t + 1)) (bytes (t + 2)) (bytes (t + 3)) g)
    patched_half (suc (suc k)) h o e e' g = absurd (omega arith)

  -- The same by the address of the access.
  module _ (bytes : IsBytes m) (a v : ℕ) where
    pub word_at-byte :
        Outside m m' a 1
        → byte_at m' a ≡ v
        → v < 256
        → word_at m' (a - a % 4) ≡ patch (word_at m (a - a % 4)) 0xFF v (a % 4 * 8)
    word_at-byte =
        let split : a ≡ a - a % 4 + a % 4 = omega arith in
        subst
          (λ (b : ℕ).
            Outside m m' b 1
            → byte_at m' b ≡ v
            → v < 256
            → word_at m' (a - a % 4) ≡ patch (word_at m (a - a % 4)) 0xFF v (a % 4 * 8))
          (sym split) (patched_byte bytes (a - a % 4) v (a % 4) (omega arith))

    pub word_at-half :
        a % 2 ≡ 0
        → Outside m m' a 2
        → byte_at m' a ≡ v % 256
        → byte_at m' (a + 1) ≡ v / 256
        → v < 2 ^ 16
        → word_at m' (a - a % 4) ≡ patch (word_at m (a - a % 4)) 0xFFFF v (a % 4 * 8)
    word_at-half even =
        let split : a ≡ a - a % 4 + a % 4 / 2 * 2 = omega arith in
        let shift : a % 4 / 2 * 16 ≡ a % 4 * 8 = omega arith in
        subst
          (λ (b : ℕ).
            Outside m m' b 2
            → byte_at m' b ≡ v % 256
            → byte_at m' (b + 1) ≡ v / 256
            → v < 2 ^ 16
            → word_at m' (a - a % 4) ≡ patch (word_at m (a - a % 4)) 0xFFFF v (a % 4 * 8))
          (sym split) (rw (← shift) (patched_half bytes (a - a % 4) v (a % 4 / 2) (omega arith)))

-- A byte, or a half, is a part of its word.
module _ {D : Type 0} (m : MemoryModel D) (bytes : IsBytes m) (t : ℕ) where
  byte_part : (k : ℕ) → k < 4 → word_at m t / 2 ^ (k * 8) % 256 ≡ byte_at m (t + k)
  byte_part zero h =
      let b0 = bytes t in
      let base : t + 0 ≡ t = omega arith in
      let low : word_at m t / 1 % 256 ≡ byte_at m t = omega arith in rw base low
  byte_part (suc zero) h =
      let b0 = bytes t in
      let b1 = bytes (t + 1) in
      let mid : word_at m t / 2 ^ 8 % 256 ≡ byte_at m (t + 1) = omega arith in mid
  byte_part (suc (suc zero)) h =
      let b0 = bytes t in
      let b1 = bytes (t + 1) in
      let b2 = bytes (t + 2) in
      let mid : word_at m t / 2 ^ 16 % 256 ≡ byte_at m (t + 2) = omega arith in mid
  byte_part (suc (suc (suc zero))) h =
      let b0 = bytes t in
      let b1 = bytes (t + 1) in
      let b2 = bytes (t + 2) in
      let b3 = bytes (t + 3) in
      let high : word_at m t / 2 ^ 24 % 256 ≡ byte_at m (t + 3) = omega arith in high
  byte_part (suc (suc (suc (suc k)))) h = absurd (omega arith)

  half_part :
      (k : ℕ)
      → k < 2
      → word_at m t / 2 ^ (k * 16) % 2 ^ 16
        ≡ byte_at m (t + k * 2) + byte_at m (t + k * 2 + 1) * 2 ^ 8
  half_part zero h =
      let b0 = bytes t in
      let b1 = bytes (t + 1) in
      let base : t + 0 * 2 ≡ t = omega arith in
      let low : word_at m t / 1 % 2 ^ 16 ≡ byte_at m t + byte_at m (t + 1) * 2 ^ 8 = omega arith in
      rw base low
  half_part (suc zero) h =
      let b0 = bytes t in
      let b1 = bytes (t + 1) in
      let b2 = bytes (t + 2) in
      let b3 = bytes (t + 3) in
      let high : word_at m t / 2 ^ 16 % 2 ^ 16 ≡ byte_at m (t + 2) + byte_at m (t + 3) * 2 ^ 8 =
        omega arith in
      let third : t + 1 * 2 + 1 ≡ t + 3 = omega arith in rw third high
  half_part (suc (suc k)) h = absurd (omega arith)

module _ {D : Type 0} (m : MemoryModel D) (bytes : IsBytes m) (a : ℕ) where
  pub part-byte : bit_and (shr (word_at m (a - a % 4)) (a % 4 * 8)) 0xFF ≡ byte_at m a
  part-byte =
      let split : a - a % 4 + a % 4 ≡ a = omega arith in
      let low = byte_part m bytes (a - a % 4) (a % 4) (omega arith) in
      bit_and_mask 8 _ ∙ low ∙ ap (byte_at m) split

  pub part-half :
      a % 2 ≡ 0
      → bit_and (shr (word_at m (a - a % 4)) (a % 4 * 8)) 0xFFFF
        ≡ byte_at m a + byte_at m (a + 1) * 2 ^ 8
  part-half even =
      let split : a - a % 4 + a % 4 / 2 * 2 ≡ a = omega arith in
      let shift : a % 4 / 2 * 16 ≡ a % 4 * 8 = omega arith in
      let low = half_part m bytes (a - a % 4) (a % 4 / 2) (omega arith) in
      rw (← shift)
        (bit_and_mask 16 _ ∙ low ∙ ap (λ (b : ℕ). byte_at m b + byte_at m (b + 1) * 2 ^ 8) split)
