-- ===== src/RvModel/Plain/Laws.antt =====
-- rv32i/include/rv_model.hpp and memory_model.hpp: a CPU over a `MemoryModel` with no MMIO region.
use xor_os.Base.{
  ℕ, zero, suc, List, ◌∷◌, get_or, ◌+◌, ◌^◌, ◌<◌, ◌≡◌, refl, arith, Bool, true, false,
  if◌then◌else◌, [], none, replicate, set as set_elem,
}
use xor_os.Base.Bits.{bit_and_mask}
use xor_os.Base.Word.{shr}
use xor_os.Outcome.{Outcome, ok, fail, out_of_range}
use xor_os.Memory
use xor_os.Memory.{MemoryModel, find_mmio, byte_at, stored, put_byte}
use xor_os.Memory.Bytes.{IsBytes, after_half, after_word}
use xor_os.Memory.Access.{write_byte-eq, write_half-eq, write_word-eq}

get_or-set-lt :
    (xs : List ℕ) (a i v bound : ℕ)
    → v < bound
    → ((j : ℕ) → get_or xs j 0 < bound)
    → get_or (set_elem xs a v) i 0 < bound
get_or-set-lt [] a i v bound h g = g 0
get_or-set-lt (x ∷ xs) zero zero v bound h g = h
get_or-set-lt (x ∷ xs) zero (suc i) v bound h g = g (suc i)
get_or-set-lt (x ∷ xs) (suc a) zero v bound h g = g 0
get_or-set-lt (x ∷ xs) (suc a) (suc i) v bound h g = get_or-set-lt xs a i v bound h (λ j. g (suc j))

-- The bytes of the memory are bytes, and there is no MMIO region.
pub record IsPlain {D : Type 0} (m : MemoryModel D) : Type 0 where
  pub bytes : IsBytes m
  pub unmapped : m.mmio ≡ []

module _ {D : Type 0} (m : MemoryModel D) (h : IsPlain m) where
  pub find_mmio-IsPlain : (a : ℕ) → find_mmio m.mmio a ≡ none
  unfolding find_mmio
  find_mmio-IsPlain a = rw (h.unmapped)

  pub put_byte-IsPlain : (a v : ℕ) → v < 256 → IsPlain (put_byte m a v)
  put_byte-IsPlain a v g = record {
    bytes = λ i. get_or-set-lt m.bytes a i v 256 g h.bytes;
    unmapped = h.unmapped;
  }

  if-IsPlain :
      (b : Bool) (m' : MemoryModel D)
      → IsPlain m'
      → let r : Outcome (Unit {0}) × MemoryModel D =
          if b then (ok tt, m') else (fail out_of_range, m) in
        IsPlain r.1
  if-IsPlain true m' g = g
  if-IsPlain false m' g = h

module _ {D : Type 0} (m : MemoryModel D) (h : IsPlain m) (a v : ℕ) where
  write_byte-IsPlain : v < 2 ^ 8 → IsPlain (Memory.write_byte m a v).1
  write_byte-IsPlain g =
      rw (write_byte-eq m a v (find_mmio-IsPlain m h a))
        (if-IsPlain m h _ _ (put_byte-IsPlain m h a v g))

  pub after_half-IsPlain : IsPlain (after_half m a v)
  after_half-IsPlain =
      put_byte-IsPlain _ (put_byte-IsPlain m h a _ (omega (arith, bit_and_mask 8 v))) (a + 1) _
        (omega (arith, bit_and_mask 8 (shr v 8)))

  pub after_word-IsPlain : IsPlain (after_word m a v)
  after_word-IsPlain =
      put_byte-IsPlain _
        (put_byte-IsPlain _ after_half-IsPlain (a + 2) _ (omega (arith, bit_and_mask 8 (shr v 16))))
        (a + 3) _ (omega (arith, bit_and_mask 8 (shr v 24)))

  write_half-IsPlain : IsPlain (Memory.write_half m a v).1
  write_half-IsPlain =
      rw (write_half-eq m a v (find_mmio-IsPlain m h a)) (if-IsPlain m h _ _ after_half-IsPlain)

  pub write_word-IsPlain : IsPlain (Memory.write_word m a v).1
  write_word-IsPlain =
      rw (write_word-eq m a v (find_mmio-IsPlain m h a)) (if-IsPlain m h _ _ after_word-IsPlain)

-- Only the reservation differs.
pub reservation-IsPlain :
    {D : Type 0} (m : MemoryModel D) (a : ℕ) (valid : Bool)
    → IsPlain m
    → IsPlain (record m { lr_addr = a; lr_valid = valid })
reservation-IsPlain m a valid h = record { bytes = h.bytes; unmapped = h.unmapped }

get_or-replicate-zero : (n i : ℕ) → let zeroes : List ℕ = replicate n 0 in get_or zeroes i 0 ≡ 0
get_or-replicate-zero zero i = refl
get_or-replicate-zero (suc n) zero = refl
get_or-replicate-zero (suc n) (suc i) = get_or-replicate-zero n i

-- A new memory holds zeroes and no MMIO region.
pub init-IsPlain : {D : Type 0} (size : ℕ) (d : D) → IsPlain (Memory.init size d)
unfolding Memory.init
init-IsPlain size d = record {
  bytes = λ i. omega (arith, get_or-replicate-zero size i);
  unmapped = refl;
}
