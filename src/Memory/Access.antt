-- ===== src/Memory/Access.antt =====
-- rv32i/include/memory_model.hpp: reads and writes outside the MMIO regions.
use xor_os.Base.{
  ℕ, ◌+◌, ◌-◌, ◌*◌, ◌%◌, ◌^◌, ◌≤◌, ◌<◌, ◌≡◌, refl, arith, Bool, true, false, leb, ap, leb→le,
  le→leb, if◌then◌else◌, none, length,
}
use xor_os.Base.Bits.{bit_or_above}
use xor_os.Outcome.{Outcome, ok, fail, out_of_range}
use xor_os.Memory.Bytes.{
  IsBytes, byte_of, overwritten, word_of, join_bytes, after_byte, after_half, after_word,
  byte_of-at, after_byte-overwritten, after_half-overwritten, after_word-overwritten,
  after_word-length, word_of_bytes,
}
use xor_os.Memory.{
  MemoryModel, find_mmio, byte_at, read_byte, read_half, read_word, write_byte, write_half,
  write_word, in_bounds,
}

module _ {D : Type 0} (m : MemoryModel D) (a : ℕ) (unmapped : find_mmio m.mmio a ≡ none) where
  -- Outside the MMIO regions a read gives the bytes at the address, the lowest first, if they all
  -- are in the memory, and throws `out_of_range` if not; for each of the three widths.
  pub reads_lem :
      IsBytes m
      → (read_byte m a
          ≡ (if leb (a + 1) (length m.bytes) then ok (byte_at m a) else fail out_of_range))
        × (read_half m a ≡ (
            if leb (a + 2) (length m.bytes)
            then ok (byte_at m a + byte_at m (a + 1) * 2 ^ 8)
            else fail out_of_range))
        × (read_word m a ≡ (
            if leb (a + 4) (length m.bytes)
            then ok
                (word_of (byte_at m a) (byte_at m (a + 1)) (byte_at m (a + 2)) (byte_at m (a + 3)))
            else fail out_of_range))
  unfolding read_byte read_half read_word in_bounds
  reads_lem b = (
    rw (unmapped, read_byte),
    rw (
      unmapped,
      read_half,
      bit_or_above 8 (byte_at m a) (byte_at m (a + 1) * 2 ^ 8) (b a) (omega arith),
    ),
    rw (unmapped, read_word, join_bytes _ _ _ _ (b a) (b (a + 1)) (b (a + 2)) (b (a + 3))),
  )

module _ {D : Type 0} (m : MemoryModel D) (a v : ℕ) (unmapped : find_mmio m.mmio a ≡ none) where
  pub write_byte-eq :
      write_byte m a v
      ≡ (if leb (a + 1) (length m.bytes) then (ok tt, after_byte m a v) else (fail out_of_range, m))
  write_byte-eq = unfold write_byte in_bounds in rw (unmapped, write_byte)

  pub write_half-eq :
      write_half m a v
      ≡ (if leb (a + 2) (length m.bytes) then (ok tt, after_half m a v) else (fail out_of_range, m))
  write_half-eq = unfold write_half in_bounds in rw (unmapped, write_half)

  pub write_word-eq :
      write_word m a v
      ≡ (if leb (a + 4) (length m.bytes) then (ok tt, after_word m a v) else (fail out_of_range, m))
  write_word-eq = unfold write_word in_bounds in rw (unmapped, write_word)

-- What a store that is made only where it fits leaves at `j`.
stored_if :
    {D : Type 0} (c : Bool) (m m' : MemoryModel D) (j new : ℕ)
    → (c ≡ true → byte_at m' j ≡ new)
    → let r : Outcome (Unit {0}) × MemoryModel D =
        if c then (ok tt, m') else (fail out_of_range, m) in
      (r.0 ≡ (if c then ok tt else fail out_of_range))
      × (byte_at r.1 j ≡ (if c then new else byte_at m j))
stored_if true m m' j new h = (refl, h refl)
stored_if false m m' j new h = (refl, refl)

-- Outside the MMIO regions a write of each width stores the bytes of the value, the lowest first,
-- at the address and above it, and no other byte changes; where they do not all fit it throws
-- `out_of_range` and changes no byte.
pub writes_lem :
    {D : Type 0} (m : MemoryModel D) (a v j : ℕ)
    → find_mmio m.mmio a ≡ none
    → let fits = λ (w : ℕ). leb (a + w) (length m.bytes) in
      let result : ℕ → Outcome (Unit {0}) = λ w. if fits w then ok tt else fail out_of_range in
      let stored = λ (w : ℕ). if fits w then overwritten m a w v j else byte_at m j in
      ((write_byte m a (v % 256)).0 ≡ result 1)
      × (byte_at (write_byte m a (v % 256)).1 j ≡ stored 1)
      × ((write_half m a v).0 ≡ result 2)
      × (byte_at (write_half m a v).1 j ≡ stored 2)
      × ((write_word m a v).0 ≡ result 4)
      × (byte_at (write_word m a v).1 j ≡ stored 4)
writes_lem m a v j unmapped =
    let len = length m.bytes in
    let byte =
      stored_if (leb (a + 1) len) m (after_byte m a (v % 256)) j (overwritten m a 1 v j)
        (λ h. after_byte-overwritten m a v j (leb→le _ _ h)) in
    let half =
      stored_if (leb (a + 2) len) m (after_half m a v) j (overwritten m a 2 v j)
        (λ h. after_half-overwritten m a v j (leb→le _ _ h)) in
    let word =
      stored_if (leb (a + 4) len) m (after_word m a v) j (overwritten m a 4 v j)
        (λ h. after_word-overwritten m a v j (leb→le _ _ h)) in
    rw
      (
        write_byte-eq m a (v % 256) unmapped,
        write_half-eq m a v unmapped,
        write_word-eq m a v unmapped,
      )
      (byte.0, byte.1, half.0, half.1, word.0, word.1)

-- Four bytes of a value in place are read as that value.
pub read_word-stored :
    {D : Type 0} (m : MemoryModel D) (a v : ℕ)
    → find_mmio m.mmio a ≡ none
    → IsBytes m
    → a + 4 ≤ length m.bytes
    → v < 2 ^ 32
    → ((k j : ℕ) → j ≡ a + k → k < 4 → byte_at m j ≡ byte_of v k)
    → read_word m a ≡ ok v
read_word-stored m a v unmapped b h small stored =
    rw
      (
        (reads_lem m a unmapped b).2,
        le→leb _ _ h,
        stored 0 a (omega arith) (omega arith),
        stored 1 (a + 1) refl (omega arith),
        stored 2 (a + 2) refl (omega arith),
        stored 3 (a + 3) refl (omega arith),
      )
      (ap ok (word_of_bytes v small))

pub write_word-fits :
    {D : Type 0} (m : MemoryModel D) (a v : ℕ)
    → find_mmio m.mmio a ≡ none
    → a + 4 ≤ length m.bytes
    → write_word m a v ≡ (ok tt, after_word m a v)
write_word-fits m a v unmapped h = rw (write_word-eq m a v unmapped, le→leb _ _ h)

-- A write of any width keeps every entry a byte.
pub write_word-IsBytes :
    {D : Type 0} (m : MemoryModel D) (a v : ℕ)
    → find_mmio m.mmio a ≡ none
    → IsBytes m
    → IsBytes (write_word m a v).1
write_word-IsBytes m a v unmapped b = λ i. ground (arith, b i, writes_lem m a v i unmapped)

-- Outside the MMIO regions a word that is written in bounds is read back, for every 32-bit value.
pub read_word-write_word :
    {D : Type 0} (m : MemoryModel D) (a v : ℕ)
    → find_mmio m.mmio a ≡ none
    → IsBytes m
    → a + 4 ≤ length m.bytes
    → v < 2 ^ 32
    → read_word (write_word m a v).1 a ≡ ok v
read_word-write_word m a v unmapped b h small = rw (write_word-fits m a v unmapped h) (
    read_word-stored (after_word m a v) a v unmapped bytes (rw (after_word-length m a v) h) small
      (λ k j e lt. ground (arith, after_word-overwritten m a v j h, byte_of-at v (j - a) k)))
  where
    bytes : IsBytes (after_word m a v)
    bytes i = ground (arith, b i, after_word-overwritten m a v i)
