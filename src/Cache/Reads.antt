-- ===== src/Cache/Reads.antt =====
-- rv32i/cache_src/include/cache_model.hpp: a coherent cache reads as its backing memory does.
use xor_os.Base.{
  ℕ, ◌+◌, ◌-◌, ◌%◌, ◌^◌, ◌<◌, ◌≡◌, refl, ap, ◌∙◌, arith, bit_and, true, false, leb, inl, inr,
  Bool-cases, leb→le, le→leb, length,
}
use xor_os.Base.Word.{shr}
use xor_os.Outcome.{Outcome, ok, fail}
use xor_os.Memory
use xor_os.Memory.{MemoryModel, byte_at, word_addr, byte_shift, stored, put_byte}
use xor_os.Memory.Access.{reads_lem}
use xor_os.RvModel.Plain.Laws.{find_mmio-IsPlain}
use xor_os.Cache
use xor_os.Cache.{
  Line, CacheModel, fetch_word, part, after_write, after_store, patch_cached, cache_ops,
}
use xor_os.Cache.Words.{word_addr_lem, byte_shift_lem, part-byte, part-half}
use xor_os.Cache.Coherent.{IsWhole, IsCoherent, Mirrors, read_word-IsWhole, fetch_word-Fetched}

-- Both ended alike.
abbrev pub Alike :
    {D : Type 0} {A : Type 0} → Outcome A × CacheModel D → Outcome A × MemoryModel D → Type 0
Alike r r' = (r.0 ≡ r'.0) × Mirrors r.1 r'.1

-- A part of the word that was read, if one was.
abbrev map_ok : (ℕ → ℕ) → Outcome ℕ → Outcome ℕ
map_ok f (ok w) = ok (f w)
map_ok f (fail e) = fail e

part_lem : {D : Type 0} (f : ℕ → ℕ) (r : Outcome ℕ × CacheModel D) → part f r ≡ (map_ok f r.0, r.1)
unfolding part
part_lem f (ok w, c) = refl
part_lem f (fail e, c) = refl

module _ {D : Type 0} (m : MemoryModel D) (h : IsWhole m) (a : ℕ) (w : a < 2 ^ 32) where
  abbrev base : ℕ
  base = a - a % 4

  byte-of_word :
      map_ok (λ x. bit_and (shr x (byte_shift a)) 0xFF) (Memory.read_word m (word_addr a))
      ≡ Memory.read_byte m a
  byte-of_word =
      let read = (reads_lem m a (find_mmio-IsPlain m h.plain a) h.plain.bytes).0 in
      let words = h.words in
      rw (word_addr_lem a w, byte_shift_lem a, read_word-IsWhole m base h, read)
        (elim (Bool-cases (leb (base + 4) (length m.bytes))) [
          | inl fits ↦
              let le = leb→le _ _ fits in
              let fits' : leb (a + 1) (length m.bytes) ≡ true = le→leb _ _ (omega arith) in
              rw (fits, fits') (ap ok (part-byte m h.plain.bytes a))
          | inr out ↦
              let out' : leb (a + 1) (length m.bytes) ≡ false = ground arith in rw (out, out')
        ])

  half-of_word :
      a % 2 ≡ 0
      → map_ok (λ x. bit_and (shr x (byte_shift a)) 0xFFFF) (Memory.read_word m (word_addr a))
        ≡ Memory.read_half m a
  half-of_word even =
      let read = (reads_lem m a (find_mmio-IsPlain m h.plain a) h.plain.bytes).1 in
      let words = h.words in
      rw (word_addr_lem a w, byte_shift_lem a, read_word-IsWhole m base h, read)
        (elim (Bool-cases (leb (base + 4) (length m.bytes))) [
          | inl fits ↦
              let le = leb→le _ _ fits in
              let fits' : leb (a + 2) (length m.bytes) ≡ true = le→leb _ _ (omega arith) in
              rw (fits, fits') (ap ok (part-half m h.plain.bytes a even))
          | inr out ↦
              let out' : leb (a + 2) (length m.bytes) ≡ false = ground arith in rw (out, out')
        ])

module _ {D : Type 0} (c : CacheModel D) (h : IsCoherent c) (a : ℕ) where
  pub read_word-Alike :
      a % 4 ≡ 0 → Alike (Cache.read_word c a) (Memory.read_word c.backing a, c.backing)
  unfolding Cache.read_word
  read_word-Alike e =
      let f = fetch_word-Fetched c a h e in
      (f.value, record { backing = f.backing; coherent = f.coherent })

  part-Alike :
      (f : ℕ → ℕ) (v : Outcome ℕ)
      → a < 2 ^ 32
      → map_ok f (Memory.read_word c.backing (word_addr a)) ≡ v
      → Alike (part f (fetch_word c (word_addr a))) (v, c.backing)
  part-Alike f v w e =
      let aligned : word_addr a % 4 ≡ 0 = omega (arith, word_addr_lem a w) in
      let fetched = fetch_word-Fetched c (word_addr a) h aligned in
      rw (part_lem f (fetch_word c (word_addr a))) (
        ap (map_ok f) fetched.value ∙ e,
        record { backing = fetched.backing; coherent = fetched.coherent },
      )

  pub read_byte-Alike :
      a < 2 ^ 32 → Alike (Cache.read_byte c a) (Memory.read_byte c.backing a, c.backing)
  unfolding Cache.read_byte
  read_byte-Alike w = part-Alike _ _ w (byte-of_word c.backing h.whole a w)

  pub read_half-Alike :
      a < 2 ^ 32 → a % 2 ≡ 0 → Alike (Cache.read_half c a) (Memory.read_half c.backing a, c.backing)
  unfolding Cache.read_half
  read_half-Alike w e = part-Alike _ _ w (half-of_word c.backing h.whole a w e)
