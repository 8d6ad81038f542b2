-- ===== src/Cache/Stores.antt =====
-- rv32i/cache_src/include/cache_model.hpp and memory_model.hpp: the aligned word that a write to
-- the backing memory changes.
use xor_os.Base.{ℕ, ◌+◌, ◌-◌, ◌*◌, ◌%◌, ◌^◌, ◌≤◌, ◌<◌, ◌≡◌, arith, length, length-set}
use mathlib.Core.Path.{subst}
use xor_os.Memory.{MemoryModel, byte_at}
use xor_os.Memory.Bytes.{
  overwritten, byte_of, byte_of-at, after_byte, after_half, after_word, put_byte-at,
  after_half-overwritten, after_word-overwritten, after_word-length, word_of_bytes,
}
use xor_os.RvModel.Plain.Laws.{IsPlain, put_byte-IsPlain, after_half-IsPlain, after_word-IsPlain}
use xor_os.Cache.{patch}
use xor_os.Cache.Words.{word_at, Outside, other_word, word_at-byte, word_at-half}
use xor_os.Cache.Coherent.{IsWhole}
use xor_os.Cache.Writes.{Rewrote}

-- A write of `n` bytes within an aligned word.
Outside-Rewrote :
    {D : Type 0} (m m' : MemoryModel D) (a n : ℕ)
    → IsWhole m
    → IsPlain m'
    → length m'.bytes ≡ length m.bytes
    → Outside m m' a n
    → a % 4 + n ≤ 4
    → Rewrote m m' (a - a % 4)
Outside-Rewrote m m' a n h p e o within = record {
  whole = record { plain = p; words = rw e h.words; small = rw e h.small };
  long = e;
  others = λ t' aligned ne.
      other_word m m' a n (a - a % 4) t' o (omega arith) (omega arith) (omega arith) aligned ne;
}

module _ {D : Type 0} (m : MemoryModel D) (h : IsWhole m) (a v : ℕ) where
  abbrev t : ℕ
  t = a - a % 4

  module _ (fits : a + 1 ≤ length m.bytes) (small : v < 2 ^ 8) where
    byte-Outside : Outside m (after_byte m a v) a 1
    byte-Outside = record { same = λ j away. ground (arith, put_byte-at m a v j) }

    pub byte-Rewrote : Rewrote m (after_byte m a v) t
    byte-Rewrote =
        Outside-Rewrote m _ a 1 h (put_byte-IsPlain m h.plain a v small) (length-set m.bytes a v)
          byte-Outside (omega arith)

    pub byte-patch : word_at (after_byte m a v) t ≡ patch (word_at m t) 0xFF v (a % 4 * 8)
    byte-patch =
        word_at-byte m _ h.plain.bytes a v byte-Outside (ground (arith, put_byte-at m a v a)) small

  module _ (fits : a + 2 ≤ length m.bytes) (even : a % 2 ≡ 0) where
    half-at : (j : ℕ) → byte_at (after_half m a v) j ≡ overwritten m a 2 v j
    half-at j = after_half-overwritten m a v j fits

    half-Outside : Outside m (after_half m a v) a 2
    half-Outside = record { same = λ j away. ground (arith, half-at j) }

    pub half-Rewrote : Rewrote m (after_half m a v) t
    half-Rewrote =
        Outside-Rewrote m _ a 2 h (after_half-IsPlain m h.plain a v) (simp (length-set))
          half-Outside (omega arith)

    pub half-patch :
        v < 2 ^ 16 → word_at (after_half m a v) t ≡ patch (word_at m t) 0xFFFF v (a % 4 * 8)
    half-patch small =
        word_at-half m _ h.plain.bytes a v even half-Outside
          (ground (arith, half-at a, byte_of-at v (a - a) 0))
          (ground (arith, half-at (a + 1), byte_of-at v (a + 1 - a) 1)) small

  module _ (fits : a + 4 ≤ length m.bytes) (aligned : a % 4 ≡ 0) where
    word-stored : (j : ℕ) → byte_at (after_word m a v) j ≡ overwritten m a 4 v j
    word-stored j = after_word-overwritten m a v j fits

    word-Outside : Outside m (after_word m a v) a 4
    word-Outside = record { same = λ j away. ground (arith, word-stored j) }

    pub word-Rewrote : Rewrote m (after_word m a v) a
    word-Rewrote =
        let same : a - a % 4 ≡ a = omega arith in
        subst (Rewrote m (after_word m a v)) same (
          Outside-Rewrote m _ a 4 h (after_word-IsPlain m h.plain a v) (after_word-length m a v)
            word-Outside (omega arith))

    pub word-value : v < 2 ^ 32 → word_at (after_word m a v) a ≡ v
    word-value small =
        let b0 : byte_at (after_word m a v) a ≡ byte_of v 0 =
          ground (arith, word-stored a, byte_of-at v (a - a) 0) in
        let b1 : byte_at (after_word m a v) (a + 1) ≡ byte_of v 1 =
          ground (arith, word-stored (a + 1), byte_of-at v (a + 1 - a) 1) in
        let b2 : byte_at (after_word m a v) (a + 2) ≡ byte_of v 2 =
          ground (arith, word-stored (a + 2), byte_of-at v (a + 2 - a) 2) in
        let b3 : byte_at (after_word m a v) (a + 3) ≡ byte_of v 3 =
          ground (arith, word-stored (a + 3), byte_of-at v (a + 3 - a) 3) in
        rw (b0, b1, b2, b3) (word_of_bytes v small)
