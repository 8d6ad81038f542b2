-- ===== src/Memory/Bytes.antt =====
-- rv32i/include/memory_model.hpp: the bytes that a store leaves.
use xor_os.Base.{
  ℕ, ◌+◌, ◌-◌, ◌*◌, ◌/◌, ◌%◌, ◌^◌, ◌≤◌, ◌<◌, ◌≡◌, arith, ◌&&◌, leb, ltb, ◌==◌, ap, if◌then◌else◌,
  length, length-set, get_or-set, bit_or, bit_and,
}
use xor_os.Base.Bits.{bit_and_mask, bit_or_above}
use xor_os.Base.Word.{rv32, shl, shr}
use xor_os.Memory.{MemoryModel, byte_at, put_byte}

-- Each entry of `data_` is a byte.
abbrev pub IsBytes : {D : Type 0} → MemoryModel D → Type 0
IsBytes m = (i : ℕ) → byte_at m i < 256

-- The byte of weight `256 ^ k`.
abbrev pub byte_of : ℕ → ℕ → ℕ
byte_of v k = v / 256 ^ k % 256

-- The bytes at `j` after a little-endian write of `v` to `[a, a + w)`.
abbrev pub overwritten : {D : Type 0} → MemoryModel D → ℕ → ℕ → ℕ → ℕ → ℕ
overwritten m a w v j = if leb a j && ltb j (a + w) then byte_of v (j - a) else byte_at m j

-- Four bytes as a word, little end first.
abbrev pub word_of : ℕ → ℕ → ℕ → ℕ → ℕ
word_of b0 b1 b2 b3 = b0 + b1 * 2 ^ 8 + b2 * 2 ^ 16 + b3 * 2 ^ 24

pub join_bytes :
    (b0 b1 b2 b3 : ℕ)
    → b0 < 256
    → b1 < 256
    → b2 < 256
    → b3 < 256
    → bit_or (bit_or (bit_or b0 (shl rv32 b1 8)) (shl rv32 b2 16)) (shl rv32 b3 24)
      ≡ word_of b0 b1 b2 b3
join_bytes b0 b1 b2 b3 h0 h1 h2 h3 =
    let s1 = bit_or b0 (shl rv32 b1 8) in
    let s2 = bit_or s1 (shl rv32 b2 16) in
    omega (
      arith,
      bit_or_above 8 b0 (shl rv32 b1 8),
      bit_or_above 16 s1 (shl rv32 b2 16),
      bit_or_above 24 s2 (shl rv32 b3 24),
    )

-- What `write` of a word leaves of the memory, and then of a half and of a byte.
module _ {D : Type 0} (m : MemoryModel D) (a v : ℕ) where
  abbrev pub after_byte : MemoryModel D
  after_byte = put_byte m a v

  abbrev pub after_half : MemoryModel D
  after_half = put_byte (put_byte m a (bit_and v 0xFF)) (a + 1) (bit_and (shr v 8) 0xFF)

  abbrev pub after_word : MemoryModel D
  after_word =
      put_byte (put_byte after_half (a + 2) (bit_and (shr v 16) 0xFF)) (a + 3)
        (bit_and (shr v 24) 0xFF)

-- One byte stored.
pub put_byte-at :
    {D : Type 0} (m : MemoryModel D) (a v j : ℕ)
    → a < length m.bytes
    → byte_at (put_byte m a v) j ≡ (if a == j then v else byte_at m j)
put_byte-at m a v j h = get_or-set m.bytes a j v 0 h

pub byte_of-at : (v n k : ℕ) → n ≡ k → byte_of v n ≡ byte_of v k
byte_of-at v n k e = ap (byte_of v) e

module _ {D : Type 0} (m : MemoryModel D) (a v j : ℕ) where
  pub after_byte-overwritten :
      a + 1 ≤ length m.bytes → byte_at (after_byte m a (v % 256)) j ≡ overwritten m a 1 v j
  after_byte-overwritten h = ground (arith, put_byte-at m a (v % 256) j, byte_of-at v (j - a) 0)

  pub after_half-overwritten :
      a + 2 ≤ length m.bytes → byte_at (after_half m a v) j ≡ overwritten m a 2 v j
  after_half-overwritten h =
      let b0 = bit_and v 0xFF in
      ground (
        arith,
        put_byte-at m a b0 j,
        put_byte-at (put_byte m a b0) (a + 1) (bit_and (shr v 8) 0xFF) j,
        length-set m.bytes a b0,
        bit_and_mask 8 v,
        bit_and_mask 8 (shr v 8),
        byte_of-at v (j - a) 0,
        byte_of-at v (j - a) 1,
      )

  pub after_word-overwritten :
      a + 4 ≤ length m.bytes → byte_at (after_word m a v) j ≡ overwritten m a 4 v j
  after_word-overwritten h =
      let m2 = after_half m a v in
      let b2 = bit_and (shr v 16) 0xFF in
      let m3 = put_byte m2 (a + 2) b2 in
      ground (
        arith,
        after_half-overwritten,
        put_byte-at m2 (a + 2) b2 j,
        put_byte-at m3 (a + 3) (bit_and (shr v 24) 0xFF) j,
        length-set m.bytes a (bit_and v 0xFF),
        length-set (put_byte m a (bit_and v 0xFF)).bytes (a + 1) (bit_and (shr v 8) 0xFF),
        length-set m2.bytes (a + 2) b2,
        bit_and_mask 8 (shr v 16),
        bit_and_mask 8 (shr v 24),
        byte_of-at v (j - a) 2,
        byte_of-at v (j - a) 3,
      )

pub after_word-length :
    {D : Type 0} (m : MemoryModel D) (a v : ℕ) → length (after_word m a v).bytes ≡ length m.bytes
after_word-length m a v = simp (length-set)

pub word_of_bytes :
    (v : ℕ) → v < 2 ^ 32 → word_of (byte_of v 0) (byte_of v 1) (byte_of v 2) (byte_of v 3) ≡ v
word_of_bytes v h = omega arith
