-- ===== src/Cache/Merge.antt =====
-- rv32i/cache_src/include/cache_model.hpp: the arithmetic of `patchCached`.
use xor_os.Base.{ℕ, ◌+◌, ◌-◌, ◌*◌, ◌/◌, ◌%◌, ◌^◌, ◌<◌, ◌≡◌, ap, arith, bit_and, ◌∙◌}
use native.Mathlib.Nat.{mod-eq_of_lt}
use xor_os.Base.Bits.{bit_and_mask, bit_and_shift, bit_and_clear, bit_or_field}
use xor_os.Base.Word.{complement}
use xor_os.Memory.Bytes.{word_of}
use xor_os.Cache.{patch}

-- A field of `w` digits at digit `s` is replaced.
module _ (s w hi old lo v : ℕ) where
  abbrev word : ℕ
  word = hi * 2 ^ w * 2 ^ s + old * 2 ^ s + lo

  cleared :
      word < 2 ^ 32
      → (2 ^ w - 1) * 2 ^ s < 2 ^ 32
      → word / 2 ^ s % 2 ^ w ≡ old
      → bit_and word (2 ^ 32 - 1 - (2 ^ w - 1) * 2 ^ s) ≡ hi * 2 ^ w * 2 ^ s + lo
  cleared h g e =
      let mask = ap (λ (t : ℕ). t * 2 ^ s) (bit_and_mask w (word / 2 ^ s)) in
      let field = ap (λ (t : ℕ). t * 2 ^ s) e in
      omega
        (arith, bit_and_clear 32 word ((2 ^ w - 1) * 2 ^ s) h g, bit_and_shift s word (2 ^ w - 1))

  patch-field :
      word < 2 ^ 32
      → (2 ^ w - 1) * 2 ^ s < 2 ^ 32
      → word / 2 ^ s % 2 ^ w ≡ old
      → lo < 2 ^ s
      → v < 2 ^ w
      → v * 2 ^ s < 2 ^ 32
      → patch word (2 ^ w - 1) v s ≡ hi * 2 ^ w * 2 ^ s + v * 2 ^ s + lo
  unfolding patch complement
  patch-field h g e low small fits =
      let mask : (2 ^ w - 1) * 2 ^ s % 2 ^ 32 ≡ (2 ^ w - 1) * 2 ^ s = omega arith in
      let all : bit_and v (2 ^ w - 1) ≡ v = bit_and_mask w v ∙ mod-eq_of_lt small in
      let field : v * 2 ^ s % 2 ^ 32 ≡ v * 2 ^ s = omega arith in
      rw (mask, all, field, cleared h g e) (bit_or_field s w hi lo v low small)

-- A byte of a word, and a half.
module _ (b0 b1 b2 b3 v : ℕ) (h0 : b0 < 256) (h1 : b1 < 256) (h2 : b2 < 256) (h3 : b3 < 256) where
  abbrev whole : ℕ
  whole = word_of b0 b1 b2 b3

  -- The replaced field of a word that is written as its digits ask for.
  as_field :
      (s w hi old lo w' : ℕ) (p : whole ≡ word s w hi old lo v)
      → patch (word s w hi old lo v) (2 ^ w - 1) v s ≡ w'
      → patch whole (2 ^ w - 1) v s ≡ w'
  as_field s w hi old lo w' p q = rw p q

  pub patch-byte0 : v < 256 → patch whole 0xFF v 0 ≡ word_of v b1 b2 b3
  patch-byte0 h =
      as_field 0 8 (b1 + b2 * 2 ^ 8 + b3 * 2 ^ 16) b0 0 _ (omega arith)
        (omega (arith, patch-field 0 8 (b1 + b2 * 2 ^ 8 + b3 * 2 ^ 16) b0 0 v))

  pub patch-byte1 : v < 256 → patch whole 0xFF v 8 ≡ word_of b0 v b2 b3
  patch-byte1 h =
      as_field 8 8 (b2 + b3 * 2 ^ 8) b1 b0 _ (omega arith)
        (omega (arith, patch-field 8 8 (b2 + b3 * 2 ^ 8) b1 b0 v))

  pub patch-byte2 : v < 256 → patch whole 0xFF v 16 ≡ word_of b0 b1 v b3
  patch-byte2 h =
      as_field 16 8 b3 b2 (b0 + b1 * 2 ^ 8) _ (omega arith)
        (omega (arith, patch-field 16 8 b3 b2 (b0 + b1 * 2 ^ 8) v))

  pub patch-byte3 : v < 256 → patch whole 0xFF v 24 ≡ word_of b0 b1 b2 v
  patch-byte3 h =
      as_field 24 8 0 b3 (b0 + b1 * 2 ^ 8 + b2 * 2 ^ 16) _ (omega arith)
        (omega (arith, patch-field 24 8 0 b3 (b0 + b1 * 2 ^ 8 + b2 * 2 ^ 16) v))

  pub patch-half0 : v < 2 ^ 16 → patch whole 0xFFFF v 0 ≡ word_of (v % 256) (v / 256) b2 b3
  patch-half0 h =
      as_field 0 16 (b2 + b3 * 2 ^ 8) (b0 + b1 * 2 ^ 8) 0 _ (omega arith)
        (omega (arith, patch-field 0 16 (b2 + b3 * 2 ^ 8) (b0 + b1 * 2 ^ 8) 0 v))

  pub patch-half2 : v < 2 ^ 16 → patch whole 0xFFFF v 16 ≡ word_of b0 b1 (v % 256) (v / 256)
  patch-half2 h =
      as_field 16 16 0 (b2 + b3 * 2 ^ 8) (b0 + b1 * 2 ^ 8) _ (omega arith)
        (omega (arith, patch-field 16 16 0 (b2 + b3 * 2 ^ 8) (b0 + b1 * 2 ^ 8) v))
